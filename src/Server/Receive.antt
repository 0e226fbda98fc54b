-- ===== src/Server/Receive.antt =====
-- include/synapse/server.hpp: `receive`, what the reader does with a message. A critical section under
-- `mutex_` is one function.
use synapse_mcp.Base.{
  ℕ, suc, Bool, false, not, ◌&&◌, ◌||◌, List, [], ◌∷◌, ◌++◌, Option, none, some, ascii, neg,
  bytes_eq, ◌==◌, if◌then◌else◌, Expected, ok, err, any,
}
use synapse_mcp.Json.{Json, object, end, is_object, contains}
use synapse_mcp.Decoder.{decode_message}
use synapse_mcp.Protocol.{
  null, Request, Response, a_request, a_notification, a_response, IncomingMessage, invalid_request,
}
use synapse_mcp.Handlers.{SdkError}
use synapse_mcp.Executor.{Executor}
use synapse_mcp.Executor
use synapse_mcp.Server.Types.{closing, Operation, Call, Server, Environment}
use synapse_mcp.Server.Emit.{failure, success, is_serving, emit, complete, stop, stop_unless}
use synapse_mcp.Server.Application.{refusal}
use synapse_mcp.Server.Session.{initialize, notify, is_ready, is_closing, same_id}

-- What the first critical section decides on a request.
pub data Admission : Type 0 where
  finished : Admission
  close : Admission
  queue : Operation → Admission

-- `op->cancelled`.
abbrev pub is_cancelled : ℕ → List Operation → Bool
is_cancelled key ops = any (λ op. op.key == key && op.cancelled) ops

module _ {D T : Type 0} where
  -- `close = !emit(...)`.
  abbrev pub close_unless : Server D T × Bool → Server D T × Admission
  close_unless (s, fine) = (s, if fine then finished else close)

  abbrev pub push_operation : Request → Server D T → Server D T × Admission
  push_operation req s =
      (record s { inflight = s.inflight ++ op ∷ []; next_key = suc s.next_key }, queue op)
    where
      op : Operation
      op = record { key = s.next_key; id = req.id; cancelled = false }

module _ {D T : Type 0} (env : Environment D T) where
  -- A request whose id is in flight ends the connection.
  abbrev pub refuse_duplicate : Server D T → Server D T × Admission
  refuse_duplicate s =
      let (t, _) =
        emit env (failure null invalid_request (ascii "Duplicate in-flight request ID")) [] s in
      (record t { protocol = closing }, close)

  abbrev pub answer_initialize : Request → Server D T → Server D T × Admission
  answer_initialize req s =
      let (t, reply) = initialize req s in close_unless (emit env reply req.method t)

  -- The first critical section of `receive` on a request.
  unfoldable pub admit_request : Request → Server D T → Server D T × Admission
  admit_request req s =
      if not (is_serving s.state) || is_closing s.protocol
      then (s, finished)
      else if any (same_id req.id) s.inflight
      then refuse_duplicate s
      else if bytes_eq req.method (ascii "ping")
      then close_unless (emit env (success req.id (object end)) req.method s)
      else if bytes_eq req.method (ascii "initialize")
      then answer_initialize req s
      else if not (is_ready s.protocol)
      then close_unless
          (emit env (failure req.id invalid_request (ascii "Server is not initialized")) [] s)
      else push_operation req s

  -- The queue did not take the call: the client is told, unless the operation was cancelled.
  abbrev pub report_full : Request → Operation → Server D T → Server D T
  report_full req op s =
      if not (is_cancelled op.key s.inflight) && is_serving s.state
      then stop_unless env (
          emit env (refusal req.id (neg 32052) (ascii "Request queue is full") (ascii "queue_full"))
            [] s)
      else s

  abbrev pub after_enqueue :
      Request → Operation → Executor Call × Expected (Unit {0}) SdkError → Server D T → Server D T
  after_enqueue req op (e, ok _) s = record s { executor = some e }
  after_enqueue req op (e, err _) s =
      complete op.key (report_full req op (record s { executor = some e }))

  -- The executor is there before the transport is started, so a message always finds one.
  abbrev pub enqueue_on : Option (Executor Call) → Request → Operation → Server D T → Server D T
  enqueue_on none req op s = s
  enqueue_on (some e) req op s =
      let call : Call = record { request = req; operation = op.key } in
      after_enqueue req op (Executor.enqueue req.id (some call) e) s

  unfoldable pub enqueue_operation : Request → Operation → Server D T → Server D T
  enqueue_operation req op s = enqueue_on s.executor req op s

  abbrev pub settle : Request → Server D T × Admission → Server D T
  settle req (s, finished) = s
  settle req (s, close) = stop env s
  settle req (s, queue op) = enqueue_operation req op s

  unfoldable pub receive_request : Request → Server D T → Server D T
  receive_request req s = settle req (admit_request req s)

  -- A call without an id, or a notification that is malformed, gets no answer.
  unfoldable pub receive_invalid : Json → Response → Server D T → Server D T
  receive_invalid wire diagnostic s =
      if is_object wire && contains wire (ascii "method") && not (contains wire (ascii "id"))
      then s
      else if is_serving s.state
      then stop_unless env (emit env diagnostic [] s)
      else s

  abbrev pub handle_decoded : Json → Expected IncomingMessage Response → Server D T → Server D T
  handle_decoded wire (err diagnostic) s = receive_invalid wire diagnostic s
  handle_decoded wire (ok (a_notification note)) s = notify note s
  handle_decoded wire (ok (a_request req)) s = receive_request req s
  handle_decoded wire (ok (a_response _)) s = s

  unfoldable pub receive : Json → Server D T → Server D T
  receive wire s = handle_decoded wire (decode_message env.lib wire) s
