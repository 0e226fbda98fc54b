-- ===== src/Server/Steps.antt =====
-- include/synapse/server.hpp: the critical sections and calls of a server as a step relation, over
-- all interleavings of the reader, the worker and the owner. The transport has steps of its own.
use synapse_mcp.Base.{ℕ, ◌≡◌, Option, some}
use synapse_mcp.Json.{Json}
use synapse_mcp.Protocol.{Request, Response, Notification, Tool, Resource, Prompt}
use synapse_mcp.Handlers.{RequestContext, ToolHandler, ResourceHandler, PromptHandler}
use synapse_mcp.Server.Types.{Operation, Call, Server, Environment}
use synapse_mcp.Server.Register.{register_tool, register_resource, register_prompt}
use synapse_mcp.Server.Emit.{stop}
use synapse_mcp.Server.Session.{notify}
use synapse_mcp.Server.Receive.{admit_request, enqueue_operation, receive_invalid}
use synapse_mcp.Server.Worker.{compute_reply, deliver_reply, worker_turn}
use synapse_mcp.Server.Lifecycle.{start_check, start_executor, start_running, mark_stopped}

module _ {D T : Type 0} (env : Environment D T) where
  pub data Step : Server D T → Server D T → Type 0 where
    tool_registered :
        (s : Server D T) (t : Tool) (h : Option ToolHandler) → Step s (register_tool env t h s).0
    resource_registered :
        (s : Server D T) (r : Resource) (h : Option ResourceHandler)
        → Step s (register_resource env r h s).0
    prompt_registered :
        (s : Server D T) (p : Prompt) (h : Option PromptHandler)
        → Step s (register_prompt env p h s).0
    checked : (s : Server D T) → Step s (start_check env s).0
    published : (s : Server D T) → Step s (start_executor env s).0
    served : (s : Server D T) → Step s (start_running env s).0
    admitted : (s : Server D T) (req : Request) → Step s (admit_request env req s).0
    enqueued :
        (s : Server D T) (req : Request) (op : Operation) → Step s (enqueue_operation env req op s)
    diagnosed :
        (s : Server D T) (wire : Json) (diagnostic : Response)
        → Step s (receive_invalid env wire diagnostic s)
    notified : (s : Server D T) (note : Notification) → Step s (notify note s)
    computed :
        (s : Server D T) (now : ℕ) (call : Call) (context : RequestContext)
        → Step s (compute_reply env now call context s).0
    delivered :
        (s : Server D T) (call : Call) (reply : Response) → Step s (deliver_reply env call reply s)
    turned : (s t : Server D T) → worker_turn s ≡ some t → Step s t
    halted : (s : Server D T) → Step s (stop env s)
    joined : (s : Server D T) → Step s (mark_stopped env s)
    transported : (s : Server D T) (t : T) → Step s (record s { transport = t })

  -- What any sequence of steps makes of a server.
  pub data Reach : Server D T → Server D T → Type 0 where
    here : (s : Server D T) → Reach s s
    then : (s t u : Server D T) → Reach s t → Step t u → Reach s u
