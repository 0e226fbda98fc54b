-- ===== src/Tests/Serving.antt =====
-- The server: theorems applied to a session with one request in flight.
use synapse_mcp.Base.{
  ◌∷◌, ◌≡◌, refl, ◌⊎◌, ℕ, int_eq, pos, true, false, [], some, ascii, bytes_eq, is_ok, arith,
}
use synapse_mcp.Json.{string, number_integer, object, end, field, find_field}
use synapse_mcp.Protocol.{Request, read_json_rpc_id, signed, Notification, version}
use synapse_mcp.Decoder.{is_request_id}
use synapse_mcp.Executor.{cancel}
use synapse_mcp.RequestId.{same_request_id}
use synapse_mcp.Transport.{Transport}
use synapse_mcp.Server.{
  cancel_operation, notify, Server, configuring, await_initialize, stopped, new_server,
  register_tool, register_resource, register_prompt, emit, initialize, queue, receive,
  deliver_reply, compute_reply, notify_locked, call_tool, same_id, cancelled_id, is_serving,
}
use synapse_mcp.Server
use synapse_mcp.Tests.Fixtures.{
  operation, options, transport, env, context, echo, tool, info, serving, list_request,
  call_request, call, reply,
}

Reach-new_server-Moves_example :
    Server.Specification.Moves Server.Specification.new_session
      (Server.View.view (Server.start_check env (new_server env info options transport)).0)
    × Server.Sessions.IsSession
        (Server.View.view (Server.start_check env (new_server env info options transport)).0)
Reach-new_server-Moves_example =
    Server.Sessions.Reach-new_server-Moves env info options transport
      (Server.Steps.Reach.then _ _ _ (Server.Steps.Reach.here _) (Server.Steps.Step.checked _))

compute_reply-IsReply_example :
    Server.Replies.IsReply (signed (pos 1)) (compute_reply env 0 call context serving).1
compute_reply-IsReply_example =
    Server.Replies.Whole.compute_reply-IsReply env serving 0 call context

call_tool-Admitted_example :
    Server.Gate.Gated env serving 0 call_request context
      (call_tool env serving 0 call_request context)
call_tool-Admitted_example = Server.Gate.call_tool-Admitted env serving 0 call_request context

emit-SentOne_example :
    Server.Sending.SentOne env serving reply
      (ascii "tools/list")
      (emit env reply (ascii "tools/list") serving)
    ⊎ Server.Sending.SentNone env serving reply
        (ascii "tools/list")
        (emit env reply (ascii "tools/list") serving)
emit-SentOne_example = Server.Sending.emit-SentOne env serving reply (ascii "tools/list")

abbrev opening : Server ℕ Transport
opening = record serving { protocol = await_initialize; inflight = [] }

abbrev initialize_request : Request
initialize_request = record list_request {
  method = ascii "initialize";
  params = some (
      object (
        field (ascii "protocolVersion") (string []) (
          field (ascii "capabilities") (object end) (
            field (ascii "clientInfo")
              (object (field (ascii "name") (string []) (field (ascii "version") (string []) end)))
              end))));
}

initialize-Begins_example : Server.Handshake.Answers opening initialize_request list_request
initialize-Begins_example =
    Server.Handshake.initialize-Begins opening initialize_request list_request

abbrev halted : Server ℕ Transport
halted = record serving { state = stopped }

abbrev cancellation : Notification
cancellation = record {
  jsonrpc = version;
  method = ascii "notifications/cancelled";
  params = some (object (field (ascii "requestId") (number_integer (pos 7)) end));
}

abbrev after_cancellation : Server ℕ Transport
after_cancellation = record serving { inflight = cancel_operation operation ∷ [] }

notify-deliver_reply_example : deliver_reply env call reply after_cancellation ≡ after_cancellation
unfolding same_request_id int_eq bytes_eq ascii cancelled_id find_field is_request_id
    read_json_rpc_id notify cancel
notify-deliver_reply_example =
    Server.Quiet.notify-deliver_reply env serving cancellation (signed (pos 7)) call reply
      after_cancellation (omega arith, refl, tt) refl refl refl refl
      (Server.Steps.Reach.here after_cancellation) refl

abbrev fresh : Server ℕ Transport
fresh = record serving {
  state = configuring;
  protocol = await_initialize;
  tools = [];
  inflight = [];
}

register_tool-ToolRegistered_example :
    ((is_ok (register_tool env tool (some echo) fresh).1 ≡ false)
      × ((register_tool env tool (some echo) fresh).0 ≡ fresh))
    ⊎ ((is_ok (register_tool env tool (some echo) fresh).1 ≡ true)
        × Server.Registry.ToolRegistered env fresh tool
            (some echo)
            (register_tool env tool (some echo) fresh).0)
register_tool-ToolRegistered_example =
    Server.Registry.register_tool-ToolRegistered env fresh tool (some echo)
