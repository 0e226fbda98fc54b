-- ===== src/Server/Replies/Whole.antt =====
-- include/synapse/server.hpp: the replies of `application` and of the queued call.
use synapse_mcp.Base.{
  refl, ℕ, Bool, true, false, List, Option, none, some, Bytes, ascii, bytes_eq, if◌then◌else◌,
}
use synapse_mcp.Protocol.{RpcId, Request, Response}
use synapse_mcp.Handlers.{RequestContext}
use synapse_mcp.Policy.{ServerPolicy}
use synapse_mcp.Server.Types.{
  RegisteredTool, RegisteredResource, RegisteredPrompt, Call, Server, Environment,
}
use synapse_mcp.Server.Application.{
  list_tools, list_prompts, list_templates, list_resources, application,
}
use synapse_mcp.Server.Worker.{compute_reply, caught}
use synapse_mcp.Server.Replies.{IsReply, Replies, failure-IsReply, choose-IsReply}
use synapse_mcp.Server.Replies.Tools.{call_tool-Replies}
use synapse_mcp.Server.Replies.Prompts.{get_prompt-Replies, read_resource-Replies}

list_tools-IsReply :
    (req : Request) (m : List (Bytes × RegisteredTool)) → IsReply req.id (list_tools req m)
unfolding list_tools
list_tools-IsReply req m = choose-IsReply req.id _ _ _ (refl, refl) (failure-IsReply _ _ _)

list_prompts-IsReply :
    (req : Request) (m : List (Bytes × RegisteredPrompt)) → IsReply req.id (list_prompts req m)
unfolding list_prompts
list_prompts-IsReply req m = choose-IsReply req.id _ _ _ (refl, refl) (failure-IsReply _ _ _)

list_resources-IsReply :
    (req : Request) (m : List (Bytes × RegisteredResource)) → IsReply req.id (list_resources req m)
unfolding list_resources
list_resources-IsReply req m = choose-IsReply req.id _ _ _ (refl, refl) (failure-IsReply _ _ _)

list_templates-IsReply : (req : Request) → IsReply req.id (list_templates req)
unfolding list_templates
list_templates-IsReply req = choose-IsReply req.id _ _ _ (refl, refl) (failure-IsReply _ _ _)

module _ {D T : Type 0} (env : Environment D T) (s : Server D T) where
  select-Replies :
      (id : RpcId) (b : Bool) (x y : ServerPolicy D × Option Response)
      → Replies id x.1
      → Replies id y.1
      → Replies id (if b then x else y).1
  select-Replies id true x y h k = h
  select-Replies id false x y h k = k

  application-Replies :
      (now : ℕ) (req : Request) (context : RequestContext)
      → Replies req.id (application env now req context s).1
  unfolding application
  application-Replies now req context =
      select-Replies req.id (bytes_eq req.method (ascii "tools/list")) _ _
        (list_tools-IsReply req s.tools)
        (select-Replies req.id (bytes_eq req.method (ascii "tools/call")) _ _
          (call_tool-Replies env s now req context)
          (select-Replies req.id (bytes_eq req.method (ascii "prompts/list")) _ _
            (list_prompts-IsReply req s.prompts)
            (select-Replies req.id (bytes_eq req.method (ascii "prompts/get")) _ _
              (get_prompt-Replies env s req context)
              (select-Replies req.id (bytes_eq req.method (ascii "resources/templates/list")) _ _
                (list_templates-IsReply req)
                (select-Replies req.id (bytes_eq req.method (ascii "resources/list")) _ _
                  (list_resources-IsReply req s.resources)
                  (select-Replies req.id (bytes_eq req.method (ascii "resources/read")) _ _
                    (read_resource-Replies env s req context) (failure-IsReply _ _ _)))))))

  caught-IsReply :
      (req : Request) (r : Option Response) → Replies req.id r → IsReply req.id (caught req r)
  caught-IsReply req none h = failure-IsReply _ _ _
  caught-IsReply req (some r) h = h

  -- What the worker computes for a request carries the id of the request, and either a result or an
  -- error: for every method, whatever the handlers and hooks do, an exception included.
  pub compute_reply-IsReply :
      (now : ℕ) (call : Call) (context : RequestContext)
      → IsReply call.request.id (compute_reply env now call context s).1
  unfolding compute_reply
  compute_reply-IsReply now call context =
      caught-IsReply call.request _ (application-Replies now call.request context)
