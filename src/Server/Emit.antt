-- ===== src/Server/Emit.antt =====
-- include/synapse/server.hpp: error replies, the last check of every response, completion and stop.
use synapse_mcp.Base.{
  ℕ, ℤ, Bool, true, false, not, ◌&&◌, List, [], ◌∷◌, Option, none, some, Bytes, ascii, bytes_eq,
  ◌==◌, if◌then◌else◌, is_ok, is_some, map,
}
use synapse_mcp.Json.{Json, boolean, string, array, object, items_of, object_of}
use synapse_mcp.Protocol.{
  RpcId, Response, ErrorCode, internal_error, code_value, version, response_to_json,
}
use synapse_mcp.Policy.{frame_fits}
use synapse_mcp.Executor.{Executor, Work}
use synapse_mcp.Executor
use synapse_mcp.Server.Types.{
  Lifecycle, starting, running, stopping, stopped, closing, Operation, Call, Server, Environment,
}

-- `failure` with a numeric code.
unfoldable pub failure_code : RpcId → ℤ → Bytes → Response
failure_code id code message = record {
  jsonrpc = version;
  id = id;
  result = none;
  err = some (record { code = code; message = message; extra = none });
}

unfoldable pub failure : RpcId → ErrorCode → Bytes → Response
unfolding failure_code
failure id code message = failure_code id (code_value code) message

abbrev pub success : RpcId → Json → Response
success id result = record { jsonrpc = version; id = id; result = some result; err = none }

-- `{{"type", "text"}, {"text", text}}`.
abbrev pub text_content : Bytes → Json
text_content text =
    object (object_of ((ascii "type", string (ascii "text")) ∷ (ascii "text", string text) ∷ []))

abbrev pub tool_content : Bytes → Json
tool_content text = array (items_of (text_content text ∷ []))

-- The result of a tool: its text, and the mark of an error.
unfoldable pub tool_output : Bytes → Bool → Json
tool_output text is_error = object (
    object_of (
      (ascii "content", tool_content text)
      ∷ (if is_error then (ascii "isError", boolean true) ∷ [] else [])))

unfoldable pub tool_failure : RpcId → Response
unfolding tool_output
tool_failure id = success id (tool_output (ascii "Tool output rejected") true)

abbrev pub is_serving : Lifecycle → Bool
is_serving starting = true
is_serving running = true
is_serving _ = false

abbrev pub is_stopped : Lifecycle → Bool
is_stopped stopped = true
is_stopped _ = false

-- What replaces a response that does not fit its frame.
unfoldable pub substitute : Response → Bytes → Response
unfolding tool_failure failure
substitute reply method =
    if bytes_eq method (ascii "tools/call") && is_some reply.result
    then tool_failure reply.id
    else failure reply.id internal_error (ascii "Internal error")

-- `std::erase(inflight_, op)`.
abbrev pub erase_operation : ℕ → List Operation → List Operation
erase_operation key [] = []
erase_operation key (op ∷ ops) =
    let rest = erase_operation key ops in if op.key == key then rest else op ∷ rest

abbrev pub cancel_operation : Operation → Operation
cancel_operation op = record op { cancelled = true }

module _ {D T : Type 0} where
  unfoldable pub complete : ℕ → Server D T → Server D T
  complete key s = record s { inflight = erase_operation key s.inflight }

  -- The destructors of discarded calls complete their operations.
  unfoldable pub complete_all : List (Work Call) → Server D T → Server D T
  unfolding complete
  complete_all [] s = s
  complete_all (w ∷ ws) s = complete_all ws (complete w.call.operation s)

  abbrev pub stop_executor : Option (Executor Call) → Server D T → Server D T
  stop_executor none s = s
  stop_executor (some e) s =
      let (e', gone) = Executor.stop e in complete_all gone (record s { executor = some e' })

  -- The critical section of `stop`.
  unfoldable pub mark_stopping : Server D T → Server D T
  mark_stopping s = record s {
    state = stopping;
    protocol = closing;
    inflight = map cancel_operation s.inflight;
  }

module _ {D T : Type 0} (env : Environment D T) where
  abbrev pub send_wire : Json → Server D T → Server D T × Bool
  send_wire wire s =
      let (transport, sent) = env.transport.send wire s.transport in
      (record s { transport = transport }, is_ok sent)

  -- The encoded-frame check, and `transport_send_`. The flag is false where the server must stop.
  unfoldable pub emit : Response → Bytes → Server D T → Server D T × Bool
  emit reply method s =
      let limit = env.transport.frame_limit s.transport in
      let instead = substitute reply method in
      let failed_initialization = bytes_eq method (ascii "initialize") && is_some reply.result in
      if frame_fits env.lib (response_to_json reply) limit
      then send_wire (response_to_json reply) s
      else if frame_fits env.lib (response_to_json instead) limit
      then (let (t, sent) = send_wire (response_to_json instead) s in
          (t, sent && not failed_initialization))
      else (s, false)

  unfoldable pub stop : Server D T → Server D T
  unfolding mark_stopping complete_all
  stop s =
      let marked = mark_stopping s in
      let t = stop_executor marked.executor marked in
      if is_stopped s.state then s else record t { transport = env.transport.stop t.transport }

  -- `if (!ok) stop();`
  abbrev pub stop_unless : Server D T × Bool → Server D T
  stop_unless (s, fine) = if fine then s else stop s
