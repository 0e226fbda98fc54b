-- ===== src/Server/Quiet.antt =====
-- include/synapse/server.hpp: a server that does not serve, and an operation that was cancelled.
use synapse_mcp.Base.{
  ◌≡◌, refl, sym, ap, subst, inl, inr, ℕ, true, false, ◌&&◌, List, [], ◌∷◌, Option, none, some,
  ascii, bytes_eq, any, ◌==◌, Bool-cases, Expected, ok, err, arith,
}
use synapse_mcp.Json.{Json}
use synapse_mcp.Protocol.{
  RpcId, Request, Response, Notification, IncomingMessage, a_request, a_notification, a_response,
}
use synapse_mcp.RequestId.{same_request_id_symm, same_request_id_trans}
use synapse_mcp.Server.Types.{Operation, Call, Server, Environment}
use synapse_mcp.Server.Emit.{is_serving}
use synapse_mcp.Server.Session.{
  notify, notify_locked, mark_cancelled, cancelled_id, same_id, cancel_in,
}
use synapse_mcp.Server.Receive.{
  finished, admit_request, receive_request, receive_invalid, receive, handle_decoded, settle,
  is_cancelled,
}
use synapse_mcp.Server.Worker.{deliver_reply}
use synapse_mcp.Server.Inflight.{IsDistinct, IsDead, is_alive, clashes}
use synapse_mcp.Server.Order.{AreDistinct}
use synapse_mcp.Server.Progress.{cancel_in-Later}
use synapse_mcp.Server.Monotone.{Reach-Later}
use synapse_mcp.Server.Steps.{Reach}

module _ {D T : Type 0} (env : Environment D T) (s : Server D T) where
  locked_quiet :
      (note : Notification) → is_serving s.state ≡ false → notify_locked note s ≡ (s, none)
  unfolding notify_locked
  locked_quiet note h = ground arith

  notify_quiet : (note : Notification) → is_serving s.state ≡ false → notify note s ≡ s
  unfolding notify
  notify_quiet note h =
      ap (λ (r : Server D T × Option RpcId). cancel_in r.1 r.0.executor r.0) (locked_quiet note h)

  admit_quiet :
      (req : Request) → is_serving s.state ≡ false → admit_request env req s ≡ (s, finished)
  unfolding admit_request
  admit_quiet req h = ground arith

  receive_request_quiet :
      (req : Request) → is_serving s.state ≡ false → receive_request env req s ≡ s
  unfolding receive_request
  receive_request_quiet req h = ap (settle env req) (admit_quiet req h)

  invalid_quiet :
      (wire : Json) (diagnostic : Response)
      → is_serving s.state ≡ false
      → receive_invalid env wire diagnostic s ≡ s
  unfolding receive_invalid
  invalid_quiet wire diagnostic h = ground arith

  decoded_quiet :
      (wire : Json) (r : Expected IncomingMessage Response)
      → is_serving s.state ≡ false
      → handle_decoded env wire r s ≡ s
  decoded_quiet wire (err d) h = invalid_quiet wire d h
  decoded_quiet wire (ok (a_notification note)) h = notify_quiet note h
  decoded_quiet wire (ok (a_request req)) h = receive_request_quiet req h
  decoded_quiet wire (ok (a_response r)) h = refl

  -- A server that was not started, or that stops, ignores every message that its transport still
  -- hands over, and sends no reply that its worker still computes.
  receive_quiet :
      (wire : Json) (call : Call) (reply : Response)
      → is_serving s.state ≡ false
      → (receive env wire s ≡ s) × (deliver_reply env call reply s ≡ s)
  unfolding receive deliver_reply
  receive_quiet wire call reply h = (decoded_quiet wire _ h, ground arith)

any_same-clashes :
    (id : RpcId) (key : ℕ) (o : Operation) (ops : List Operation)
    → same_id id o ≡ true
    → any (λ op. same_id id op && op.key == key) ops ≡ true
    → any (clashes o) ops ≡ true
any_same-clashes id key o [] same h = cc
any_same-clashes id key o (op ∷ ops) same h = elim (Bool-cases (same_id id op)) [
  | inl other ↦ ground (arith, same_request_id_trans o.id id op.id, same_request_id_symm op.id id)
  | inr other ↦ ground (arith, any_same-clashes id key o ops same)
]

any_key-clashes :
    (id : RpcId) (key : ℕ) (o : Operation) (ops : List Operation)
    → (o.key == key) ≡ true
    → any (λ op. same_id id op && op.key == key) ops ≡ true
    → any (clashes o) ops ≡ true
any_key-clashes id key o [] e h = cc
any_key-clashes id key o (op ∷ ops) e h = ground (arith, any_key-clashes id key o ops)

alive-clashes :
    (key : ℕ) (o : Operation) (ops : List Operation)
    → (o.key == key) ≡ true
    → any (clashes o) ops ≡ false
    → any (is_alive key) ops ≡ false
alive-clashes key o [] e h = refl
alive-clashes key o (op ∷ ops) e h = ground (arith, alive-clashes key o ops)

-- The operation with the id and the key is marked, and no other has the key.
mark_cancelled-IsDead :
    (id : RpcId) (key next : ℕ) (ops : List Operation)
    → IsDistinct next ops
    → any (λ op. same_id id op && op.key == key) ops ≡ true
    → IsDead key next (mark_cancelled id ops).0
unfolding mark_cancelled
mark_cancelled-IsDead id key next [] d h = cc
mark_cancelled-IsDead id key next (o ∷ ops) (small, fresh, d) h = elim (Bool-cases (same_id id o)) [
  | inl same ↦ elim (Bool-cases (o.key == key)) [
    | inl here ↦ (ground arith, ground (arith, alive-clashes key o ops here fresh))
    | inr other ↦ absurd (ground (arith, any_same-clashes id key o ops same))
  ]
  | inr other ↦
      let rest = mark_cancelled-IsDead id key next ops d (ground arith) in
      (rest.0, ground (arith, rest.1, any_key-clashes id key o ops))
]

-- An operation in flight that is not alive is cancelled.
IsDead-is_cancelled :
    (key : ℕ) (ops : List Operation)
    → any (is_alive key) ops ≡ false
    → any (λ op. op.key == key) ops ≡ true
    → is_cancelled key ops ≡ true
IsDead-is_cancelled key [] none_alive h = cc
IsDead-is_cancelled key (op ∷ ops) none_alive h = ground (arith, IsDead-is_cancelled key ops)

module _ {D T : Type 0} (env : Environment D T) (s : Server D T) where
  cancelled_inflight :
      (note : Notification) (id : RpcId)
      → is_serving s.state ≡ true
      → bytes_eq note.method (ascii "notifications/initialized") ≡ false
      → bytes_eq note.method (ascii "notifications/cancelled") ≡ true
      → cancelled_id note.params ≡ some id
      → (notify_locked note s).0 ≡ record s { inflight = (mark_cancelled id s.inflight).0 }
  unfolding notify_locked
  cancelled_inflight note id serving other method named = ground arith

  notify-IsDead :
      (note : Notification) (id : RpcId) (key : ℕ)
      → AreDistinct s
      → is_serving s.state ≡ true
      → note.method ≡ ascii "notifications/cancelled"
      → cancelled_id note.params ≡ some id
      → any (λ op. same_id id op && op.key == key) s.inflight ≡ true
      → IsDead key (notify note s).next_key (notify note s).inflight
  unfolding notify bytes_eq ascii
  notify-IsDead note id key d serving method named h =
      let (t, found) = notify_locked note s in
      (cancel_in-Later found t.executor t).dead key (
        subst (λ (u : Server D T). IsDead key u.next_key u.inflight)
          (sym (
            cancelled_inflight note id serving
              (ap (λ m. bytes_eq m (ascii "notifications/initialized")) method)
              (ap (λ m. bytes_eq m (ascii "notifications/cancelled")) method) named))
          (mark_cancelled-IsDead id key s.next_key s.inflight d h))

  deliver_reply_dead :
      (call : Call) (reply : Response) (t : Server D T)
      → is_cancelled call.operation t.inflight ≡ true
      → deliver_reply env call reply t ≡ t
  unfolding deliver_reply
  deliver_reply_dead call reply t h = ground arith

  -- When a server that serves, and whose operations are distinct, has handled the client's
  -- cancellation of a request in flight, then in every state to which any steps of the reader, the
  -- worker and the owner lead, and in which the operation of that request is still in flight,
  -- delivering a reply for it changes nothing, so that no reply is sent. The end of its call, or the
  -- cancellation that discards it from the queue, takes the operation out of flight; the states
  -- after that are not covered.
  pub notify-deliver_reply :
      (note : Notification) (id : RpcId) (call : Call) (reply : Response) (t : Server D T)
      → AreDistinct s
      → is_serving s.state ≡ true
      → note.method ≡ ascii "notifications/cancelled"
      → cancelled_id note.params ≡ some id
      → any (λ op. same_id id op && op.key == call.operation) s.inflight ≡ true
      → Reach env (notify note s) t
      → any (λ op. op.key == call.operation) t.inflight ≡ true
      → deliver_reply env call reply t ≡ t
  notify-deliver_reply note id call reply t d serving method named h run in_flight =
      let dead = notify-IsDead note id call.operation d serving method named h in
      deliver_reply_dead call reply t (
        IsDead-is_cancelled call.operation t.inflight
          ((Reach-Later env run).dead call.operation dead).1 in_flight)
