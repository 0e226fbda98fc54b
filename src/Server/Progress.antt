-- ===== src/Server/Progress.antt =====
-- include/synapse/server.hpp: every step moves the lifecycle and the connection on, and keeps the
-- operations in flight distinct.
use synapse_mcp.Base.{
  ◌≡◌, refl, ◌≤◌, Bool, true, false, not, ◌&&◌, Option, none, some, ascii, bytes_eq, any,
  if◌then◌else◌, arith,
}
use synapse_mcp.Protocol.{Request, Notification, RpcId}
use synapse_mcp.Executor.{Executor, Work}
use synapse_mcp.Server.Types.{
  Connection, await_initialize, await_initialized, ready, closing, Call, Server,
}
use synapse_mcp.Server.Emit.{is_serving}
use synapse_mcp.Server.Session.{
  initialize, notify, notify_locked, mark_cancelled, is_await_initialize, is_await_initialized,
  cancelled_id, valid_initialize, object_params, same_id, cancel_in, complete_discarded,
}
use synapse_mcp.Server.Receive.{push_operation}
use synapse_mcp.Server.Specification.{Move, begins, confirms, finishes, Move-Moves}
use synapse_mcp.Server.View.{
  view, Thinned-mark_cancelled, await_initialize_is, await_initialized_is, pushed-Moves,
}
use synapse_mcp.Server.Inflight.{
  append-IsDead, mark_cancelled-IsDead, mark_cancelled-IsDistinct, append-IsDistinct,
}
use synapse_mcp.Server.Order.{
  phase, Later, Later-refl, Later-trans, complete-Later, with_executor-Later,
}

await_initialize-eq : (c : Connection) → is_await_initialize c ≡ true → phase c ≤ 1
await_initialize-eq await_initialize h = omega arith
await_initialize-eq await_initialized h = cc
await_initialize-eq ready h = cc
await_initialize-eq closing h = cc

await_initialized-eq :
    (c : Connection) (b : Bool) → (is_await_initialized c && b) ≡ true → phase c ≤ 2
await_initialized-eq await_initialize b h = omega arith
await_initialized-eq await_initialized b h = omega arith
await_initialized-eq ready b h = cc
await_initialized-eq closing b h = cc

module _ {D T : Type 0} where
  -- Both branches of a test.
  pub branch-Later :
      (s : Server D T) (b : Bool) (x y : Server D T)
      → (b ≡ true → Later s x)
      → (b ≡ false → Later s y)
      → Later s (if b then x else y)
  branch-Later s true x y h k = h refl
  branch-Later s false x y h k = k refl

  pub pair-Later :
      {A : Type 0} (s : Server D T) (b : Bool) (x y : Server D T × A)
      → (b ≡ true → Later s x.0)
      → (b ≡ false → Later s y.0)
      → Later s (if b then x else y).0
  pair-Later s true x y h k = h refl
  pair-Later s false x y h k = k refl

  pub when-Later :
      (s : Server D T) (b : Bool) (t : Server D T) → Later s t → Later s (if b then t else s)
  when-Later s b t h = branch-Later s b t s (λ _. h) (λ _. Later-refl s)

  pub with_protocol-Later :
      (s : Server D T) (c : Connection)
      → phase s.protocol ≤ phase c
      → Move (view s) (record (view s) { connection = c })
      → Later s (record s { protocol = c })
  with_protocol-Later s c h m = record {
    state = omega arith;
    protocol = h;
    inflight = λ d. d;
    session = Move-Moves m;
    dead = λ key d. d;
  }

  pub initialize-Later :
      (req : Request) (s : Server D T) → is_serving s.state ≡ true → Later s (initialize req s).0
  unfolding initialize
  initialize-Later req s serving =
      pair-Later s (not (is_await_initialize s.protocol)) _ _ (λ _. Later-refl s)
        (λ early.
          pair-Later s (not (valid_initialize req.params)) _ _ (λ _. Later-refl s)
            (λ _.
              with_protocol-Later s await_initialized
                (await_initialize-eq s.protocol (ground arith))
                (begins serving (await_initialize_is s.protocol (ground arith)))))

  pub push_operation-Later :
      (req : Request) (s : Server D T)
      → is_serving s.state ≡ true
      → s.protocol ≡ ready
      → any (same_id req.id) s.inflight ≡ false
      → Later s (push_operation req s).0
  push_operation-Later req s serving is_so h = record {
    state = omega arith;
    protocol = omega arith;
    inflight = append-IsDistinct s.next_key s.inflight req.id h;
    session = pushed-Moves s s.next_key req.id serving is_so h;
    dead = λ key d. append-IsDead key s.next_key s.inflight req.id d;
  }

  complete_discarded-Later :
      (gone : Option (Work Call)) (s : Server D T) → Later s (complete_discarded gone s)
  complete_discarded-Later none s = Later-refl s
  complete_discarded-Later (some w) s = complete-Later _ s

  pub cancel_in-Later :
      (id : Option RpcId) (e : Option (Executor Call)) (s : Server D T) → Later s (cancel_in id e s)
  cancel_in-Later (some id) (some e) s =
      Later-trans _ _ _ (with_executor-Later s _) (complete_discarded-Later _ _)
  cancel_in-Later (some id) none s = Later-refl s
  cancel_in-Later none (some e) s = Later-refl s
  cancel_in-Later none none s = Later-refl s

  cancelled-Later :
      (id : Option RpcId) (s : Server D T)
      → Later s
          (elim id as (λ _. Server D T × Option RpcId) [
            | none ↦ (s, none)
            | some id ↦ (
              record s { inflight = (mark_cancelled id s.inflight).0 },
              (mark_cancelled id s.inflight).1,
            )
          ]).0
  cancelled-Later none s = Later-refl s
  cancelled-Later (some id) s = record {
    state = omega arith;
    protocol = omega arith;
    inflight = mark_cancelled-IsDistinct s.next_key id s.inflight;
    session = Move-Moves (finishes _ (Thinned-mark_cancelled id s.inflight));
    dead = λ key d. mark_cancelled-IsDead key s.next_key id s.inflight d;
  }

  notify_locked-Later : (note : Notification) (s : Server D T) → Later s (notify_locked note s).0
  unfolding notify_locked
  notify_locked-Later note s =
      pair-Later s (not (is_serving s.state)) _ _ (λ _. Later-refl s)
        (λ live.
          pair-Later s (bytes_eq note.method (ascii "notifications/initialized")) _ _
            (λ _.
              branch-Later s (is_await_initialized s.protocol && object_params note.params) _ _
                (λ h.
                  with_protocol-Later s ready (await_initialized-eq s.protocol _ h)
                    (confirms (ground arith) (await_initialized_is s.protocol (ground arith))))
                (λ _. Later-refl s))
            (λ _.
              pair-Later s (bytes_eq note.method (ascii "notifications/cancelled")) _ _
                (λ _. cancelled-Later (cancelled_id note.params) s) (λ _. Later-refl s)))

  pub notify-Later : (note : Notification) (s : Server D T) → Later s (notify note s)
  unfolding notify
  notify-Later note s = Later-trans _ _ _ (notify_locked-Later note s) (cancel_in-Later _ _ _)
