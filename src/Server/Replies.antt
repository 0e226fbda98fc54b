-- ===== src/Server/Replies.antt =====
-- include/synapse/server.hpp: what a reply of `application` is.
pub mod Tools
pub mod Prompts
pub mod Whole
use synapse_mcp.Base.{
  ◌≡◌, refl, ℕ, Bool, true, false, not, List, Option, none, some, Bytes, ascii, bytes_eq, is_some,
  if◌then◌else◌, Expected, ok, err, map_find, ◌>>=◌,
}
use synapse_mcp.Json.{Json}
use synapse_mcp.Protocol.{RpcId, Request, Response}
use synapse_mcp.Handlers.{HandlerError, ResourceResult, PromptResult, RequestContext}
use synapse_mcp.Policy.{ServerPolicy, consume, filter}
use synapse_mcp.Schema.{ValidationFailure}
use synapse_mcp.Server.Types.{
  RegisteredTool, RegisteredResource, RegisteredPrompt, Call, Server, Environment,
}
use synapse_mcp.Server.Emit.{failure, failure_code, tool_failure}
use synapse_mcp.Server.Application.{
  is_mismatch, deliver_tool, validated_tool, allowed_tool, metered_tool, found_tool, named_tool,
  described_prompt, prompt_body, answer_prompt, valued_prompt, found_prompt, named_prompt,
  deliver_resource, answer_resource, found_resource, named_resource, named_call, list_tools,
  tool_reply, run_tool, admit_tool, call_tool, list_prompts, prompt_values, prompt_description,
  run_prompt, get_prompt, list_templates, list_resources, read_uri, run_resource, read_resource,
  application,
}
use synapse_mcp.Server.Worker.{compute_reply, caught}

-- A response to the request with this id: a result or an error, and not both.
abbrev pub IsReply : RpcId → Response → Type 0
IsReply id r = (r.id ≡ id) × (is_some r.result ≡ not (is_some r.err))

-- What returns is a reply.
abbrev pub Replies : RpcId → Option Response → Type 0
Replies id none = Unit {0}
Replies id (some r) = IsReply id r

pub failure-IsReply :
    (id : RpcId) (code : _) (message : Bytes) → IsReply id (failure id code message)
unfolding failure failure_code
failure-IsReply id code message = (refl, refl)

pub tool_failure-IsReply : (id : RpcId) → IsReply id (tool_failure id)
unfolding tool_failure
tool_failure-IsReply id = (refl, refl)

pub bind-Replies :
    {A : Type 0} (id : RpcId) (m : Option A) (f : A → Option Response)
    → ((a : A) → Replies id (f a))
    → Replies id (m >>= f)
bind-Replies id none f h = tt
bind-Replies id (some a) f h = h a

pub choose-IsReply :
    (id : RpcId) (b : Bool) (r s : Response)
    → IsReply id r
    → IsReply id s
    → IsReply id (if b then r else s)
choose-IsReply id true r s h k = h
choose-IsReply id false r s h k = k

pub choose-Replies :
    (id : RpcId) (b : Bool) (r s : Option Response)
    → Replies id r
    → Replies id s
    → Replies id (if b then r else s)
choose-Replies id true r s h k = h
choose-Replies id false r s h k = k
