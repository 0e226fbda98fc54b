-- ===== src/Server/Replies/Tools.antt =====
-- include/synapse/server.hpp: the replies to calls of tools.
use synapse_mcp.Base.{refl, ℕ, Bool, true, false, Option, none, some, Bytes, Expected, ok, err}
use synapse_mcp.Json.{Json}
use synapse_mcp.Protocol.{Request}
use synapse_mcp.Handlers.{HandlerError, RequestContext}
use synapse_mcp.Policy.{consume, filter}
use synapse_mcp.Schema.{ValidationFailure}
use synapse_mcp.Server.Types.{RegisteredTool, Server, Environment}
use synapse_mcp.Server.Emit.{failure_code}
use synapse_mcp.Server.Application.{
  is_mismatch, deliver_tool, validated_tool, allowed_tool, metered_tool, found_tool, named_tool,
  named_call, tool_reply, run_tool, admit_tool, call_tool,
}
use synapse_mcp.Server.Replies.{
  IsReply, Replies, failure-IsReply, tool_failure-IsReply, bind-Replies, choose-Replies,
}

module _ {D T : Type 0} (env : Environment D T) (s : Server D T) where
  pub tool_reply-Replies :
      (req : Request) (context : RequestContext) (text : Bytes) (is_error : Bool)
      → Replies req.id (tool_reply env s req context text is_error)
  unfolding tool_reply
  tool_reply-Replies req context text is_error =
      bind-Replies req.id (filter env.lib s.options req.method text context)
        (λ r. some (deliver_tool req is_error r)) delivered
    where
      delivered : (r : Expected Bytes HandlerError) → IsReply req.id (deliver_tool req is_error r)
      delivered (err e) = tool_failure-IsReply req.id
      delivered (ok out) = (refl, refl)

  pub validated_tool-Replies :
      (req : Request) (context : RequestContext) (tool : RegisteredTool) (arguments : Json)
      (v : Expected (Unit {0}) ValidationFailure)
      → Replies req.id (validated_tool env s req context tool arguments v)
  validated_tool-Replies req context tool arguments (ok _) =
      bind-Replies req.id _ _ (λ r. tool_reply-Replies req context _ _)
  validated_tool-Replies req context tool arguments (err f) =
      choose-Replies req.id (is_mismatch f.kind) _ _ (tool_reply-Replies req context _ _)
        (failure-IsReply _ _ _)

  pub allowed_tool-Replies :
      (now : ℕ) (req : Request) (context : RequestContext) (tool : RegisteredTool)
      (arguments : Json) (hook : Option Bool)
      → Replies req.id (allowed_tool env s now req context tool arguments hook).1
  unfolding failure_code run_tool
  allowed_tool-Replies now req context tool arguments none = tt
  allowed_tool-Replies now req context tool arguments (some false) = (refl, refl)
  allowed_tool-Replies now req context tool arguments (some true) =
      metered (consume env.double s.options now s.policy).1
    where
      metered :
          (granted : Bool) → Replies req.id (metered_tool env s req context tool arguments granted)
      metered true = validated_tool-Replies req context tool arguments _
      metered false = (refl, refl)

  pub found_tool-Replies :
      (now : ℕ) (req : Request) (context : RequestContext) (name : Bytes) (arguments : Json)
      (tool : Option RegisteredTool)
      → Replies req.id (found_tool env s now req context name arguments tool).1
  unfolding admit_tool
  found_tool-Replies now req context name arguments none = failure-IsReply _ _ _
  found_tool-Replies now req context name arguments (some tool) =
      allowed_tool-Replies now req context tool arguments _

  pub call_tool-Replies :
      (now : ℕ) (req : Request) (context : RequestContext)
      → Replies req.id (call_tool env s now req context).1
  unfolding call_tool
  call_tool-Replies now req context = named (named_call req.params)
    where
      named : (c : Option (Bytes × Json)) → Replies req.id (named_tool env s now req context c).1
      named none = failure-IsReply _ _ _
      named (some (name, arguments)) = found_tool-Replies now req context name arguments _
