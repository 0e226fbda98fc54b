-- ===== src/Server/Advance.antt =====
-- include/synapse/server.hpp: admission, replies and the turns of the worker only go forward.
use synapse_mcp.Base.{
  ◌≡◌, arith, not, ◌&&◌, ◌||◌, [], Option, none, some, Bytes, ascii, bytes_eq, any, neg, Expected,
  ok, err,
}
use synapse_mcp.Json.{Json, is_object, contains}
use synapse_mcp.Protocol.{Request, Response}
use synapse_mcp.Handlers.{SdkError}
use synapse_mcp.Executor.{Executor, Work, Phase, turn}
use synapse_mcp.Server.Types.{closing, Operation, Call, Server, Environment}
use synapse_mcp.Server.Emit.{emit, stop_unless, is_serving}
use synapse_mcp.Server.Session.{same_id, is_closing, is_ready}
use synapse_mcp.Server.Application.{refusal}
use synapse_mcp.Server.Receive.{
  admit_request, enqueue_operation, receive_invalid, enqueue_on, after_enqueue, is_cancelled,
}
use synapse_mcp.Server.Worker.{
  deliver_reply, worker_turn, turn_of, retire, after_turn, complete_active, is_live,
}
use synapse_mcp.Server.Order.{
  Later, Later-refl, Later-trans, Later-eq, complete-Later, emit-Later, stop_unless-Later, phase_le,
  with_executor-Later,
}
use synapse_mcp.Server.Specification.{closes}
use synapse_mcp.Server.View.{ready_is}
use synapse_mcp.Server.Progress.{
  branch-Later, pair-Later, when-Later, with_protocol-Later, initialize-Later, push_operation-Later,
}

module _ {D T : Type 0} (env : Environment D T) where
  pub admit_request-Later : (req : Request) (s : Server D T) → Later s (admit_request env req s).0
  unfolding admit_request
  admit_request-Later req s =
      pair-Later s (not (is_serving s.state) || is_closing s.protocol) _ _ (λ _. Later-refl s)
        (λ live.
          pair-Later s (any (same_id req.id) s.inflight) _ _
            (λ _.
              Later-trans _ _ _ (emit-Later env _ _ s)
                (with_protocol-Later _ closing (phase_le _) closes))
            (λ new.
              pair-Later s (bytes_eq req.method (ascii "ping")) _ _ (λ _. emit-Later env _ _ s)
                (λ _.
                  pair-Later s (bytes_eq req.method (ascii "initialize")) _ _
                    (λ _.
                      Later-trans _ _ _ (initialize-Later req s (ground arith))
                        (emit-Later env _ _ _))
                    (λ _.
                      pair-Later s (not (is_ready s.protocol)) _ _ (λ _. emit-Later env _ _ s)
                        (λ is_so.
                          push_operation-Later req s (ground arith)
                            (ready_is s.protocol (ground arith)) new)))))

  sent-Later :
      (reply : Response) (method : Bytes) (s : Server D T)
      → Later s (stop_unless env (emit env reply method s))
  sent-Later reply method s =
      Later-trans _ _ _ (emit-Later env reply method s) (stop_unless-Later env _)

  after_enqueue-Later :
      (req : Request) (op : Operation) (r : Executor Call × Expected (Unit {0}) SdkError)
      (s : Server D T)
      → Later s (after_enqueue env req op r s)
  after_enqueue-Later req op (e, ok _) s = with_executor-Later s (some e)
  after_enqueue-Later req op (e, err _) s = Later-trans _ _ _ (with_executor-Later s (some e)) (
      Later-trans _ _ _
        (when-Later _ (not (is_cancelled op.key s.inflight) && is_serving s.state) _ (
          sent-Later
            (refusal req.id (neg 32052) (ascii "Request queue is full") (ascii "queue_full")) [] _))
        (complete-Later op.key _))

  enqueue_on-Later :
      (e : Option (Executor Call)) (req : Request) (op : Operation) (s : Server D T)
      → Later s (enqueue_on env e req op s)
  enqueue_on-Later none req op s = Later-refl s
  enqueue_on-Later (some e) req op s = after_enqueue-Later req op _ s

  pub enqueue_operation-Later :
      (req : Request) (op : Operation) (s : Server D T) → Later s (enqueue_operation env req op s)
  unfolding enqueue_operation
  enqueue_operation-Later req op s = enqueue_on-Later s.executor req op s

  pub receive_invalid-Later :
      (wire : Json) (diagnostic : Response) (s : Server D T)
      → Later s (receive_invalid env wire diagnostic s)
  unfolding receive_invalid
  receive_invalid-Later wire diagnostic s =
      branch-Later s
        (is_object wire && contains wire (ascii "method") && not (contains wire (ascii "id"))) _ _
        (λ _. Later-refl s) (λ _. when-Later s (is_serving s.state) _ (sent-Later diagnostic [] s))

  pub deliver_reply-Later :
      (call : Call) (reply : Response) (s : Server D T) → Later s (deliver_reply env call reply s)
  unfolding deliver_reply
  deliver_reply-Later call reply s =
      when-Later s (is_live call.operation s) _ (sent-Later reply call.request.method s)

  complete_active-Later : (w : Option (Work Call)) (s : Server D T) → Later s (complete_active w s)
  complete_active-Later none s = Later-refl s
  complete_active-Later (some w) s = complete-Later _ s

  retire-Later : (p : Phase) (w : Option (Work Call)) (s : Server D T) → Later s (retire p w s)
  retire-Later Phase.running w s = complete_active-Later w s
  retire-Later _ w s = Later-refl s

  after_turn-Later :
      (e : Executor Call) (r : Option (Executor Call)) (s t : Server D T)
      → after_turn e r s ≡ some t
      → Later s t
  after_turn-Later e none s t h = cc
  after_turn-Later e (some e') s t h =
      Later-trans _ _ _ (with_executor-Later s (some e'))
        (Later-trans _ _ _ (retire-Later e.phase e.active _) (Later-eq cc))

  turn_of-Later : (e : Option (Executor Call)) (s t : Server D T) → turn_of e s ≡ some t → Later s t
  turn_of-Later none s t h = cc
  turn_of-Later (some e) s t h = after_turn-Later e (turn e) s t h

  pub worker_turn-Later : (s t : Server D T) → worker_turn s ≡ some t → Later s t
  unfolding worker_turn
  worker_turn-Later s t h = turn_of-Later s.executor s t h
