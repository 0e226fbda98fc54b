-- ===== src/Server/Order.antt =====
-- include/synapse/server.hpp: what no step takes back. The lifecycle and the connection only move on,
-- and the operations in flight stay distinct.
use synapse_mcp.Base.{
  ◌≡◌, sym, subst, inl, inr, ℕ, ◌≤◌, Bool, true, false, List, [], ◌∷◌, Option, none, some, Bytes,
  arith, Bool-cases,
}
use synapse_mcp.Protocol.{Response}
use synapse_mcp.Executor.{Executor, Work}
use synapse_mcp.Server.Types.{
  Lifecycle, configuring, starting, running, stopping, stopped, Connection, await_initialize,
  await_initialized, ready, closing, Call, Server, Environment,
}
use synapse_mcp.Server.Specification.{
  rank, advances, closes, finishes, Moves, stays, moves, Moves-trans, Move-Moves,
}
use synapse_mcp.Server.View.{view, Thinned-erase_operation, Thinned-map_cancel}
use synapse_mcp.Server.Inflight.{
  IsDistinct, IsDead, erase_operation-IsDead, map_cancel-IsDead, erase_operation-IsDistinct,
  map_cancel-IsDistinct,
}
use synapse_mcp.Server.Emit.{
  emit, complete, complete_all, mark_stopping, stop, stop_unless, stop_executor, is_stopped,
}

abbrev pub phase : Connection → ℕ
phase await_initialize = 0
phase await_initialized = 1
phase ready = 2
phase closing = 3

pub phase_le : (c : Connection) → phase c ≤ 3
phase_le await_initialize = omega arith
phase_le await_initialized = omega arith
phase_le ready = omega arith
phase_le closing = omega arith

rank_le : (l : Lifecycle) → is_stopped l ≡ false → rank l ≤ 3
rank_le configuring h = omega arith
rank_le starting h = omega arith
rank_le running h = omega arith
rank_le stopping h = omega arith
rank_le stopped h = cc

module _ {D T : Type 0} where
  abbrev pub AreDistinct : Server D T → Type 0
  AreDistinct s = IsDistinct s.next_key s.inflight

  -- `t` can come behind `s`.
  pub record Later (s t : Server D T) : Type 0 where
    pub state : rank s.state ≤ rank t.state
    pub protocol : phase s.protocol ≤ phase t.protocol
    pub inflight : AreDistinct s → AreDistinct t
    pub session : Moves (view s) (view t)
    pub dead : (key : ℕ) → IsDead key s.next_key s.inflight → IsDead key t.next_key t.inflight

  pub Later-refl : (s : Server D T) → Later s s
  Later-refl s = record {
    state = omega arith;
    protocol = omega arith;
    inflight = λ d. d;
    session = stays;
    dead = λ key d. d;
  }

  pub Later-trans : (s t u : Server D T) → Later s t → Later t u → Later s u
  Later-trans s t u h k = record {
    state = omega (arith, h.state, k.state);
    protocol = omega (arith, h.protocol, k.protocol);
    inflight = λ d. k.inflight (h.inflight d);
    session = Moves-trans h.session k.session;
    dead = λ key d. k.dead key (h.dead key d);
  }

  pub Later-eq : {s t : Server D T} → s ≡ t → Later s t
  Later-eq {s} e = subst (Later s) e (Later-refl s)

  pub complete-Later : (key : ℕ) (s : Server D T) → Later s (complete key s)
  unfolding complete
  complete-Later key s = record {
    state = omega arith;
    protocol = omega arith;
    inflight = erase_operation-IsDistinct key s.next_key s.inflight;
    session = Move-Moves (finishes _ (Thinned-erase_operation key s.inflight));
    dead = λ other d. erase_operation-IsDead key other s.next_key s.inflight d;
  }

  pub complete_all-Later : (ws : List (Work Call)) (s : Server D T) → Later s (complete_all ws s)
  unfolding complete_all
  complete_all-Later [] s = Later-refl s
  complete_all-Later (w ∷ ws) s = Later-trans _ _ _ (complete-Later _ s) (complete_all-Later ws _)

  pub with_transport-Later : (s : Server D T) (t : T) → Later s (record s { transport = t })
  with_transport-Later s t = record {
    state = omega arith;
    protocol = omega arith;
    inflight = λ d. d;
    session = stays;
    dead = λ key d. d;
  }

  mark_stopping-Later : (s : Server D T) → rank s.state ≤ 3 → Later s (mark_stopping s)
  unfolding mark_stopping
  mark_stopping-Later s h = record {
    state = h;
    protocol = phase_le s.protocol;
    inflight = map_cancel-IsDistinct s.next_key s.inflight;
    session =
        moves (moves (moves stays (advances stopping h)) closes)
          (finishes _ (Thinned-map_cancel s.inflight));
    dead = λ key d. map_cancel-IsDead key s.next_key s.inflight d;
  }

  pub with_executor-Later :
      (s : Server D T) (e : Option (Executor Call)) → Later s (record s { executor = e })
  with_executor-Later s e = record {
    state = omega arith;
    protocol = omega arith;
    inflight = λ d. d;
    session = stays;
    dead = λ key d. d;
  }

  stop_executor-Later : (e : Option (Executor Call)) (s : Server D T) → Later s (stop_executor e s)
  stop_executor-Later none s = Later-refl s
  stop_executor-Later (some e) s =
      Later-trans _ _ _ (with_executor-Later s _) (complete_all-Later _ _)

module _ {D T : Type 0} (env : Environment D T) where
  emit_frame :
      (reply : Response) (method : Bytes) (s : Server D T)
      → (emit env reply method s).0 ≡ record s { transport = (emit env reply method s).0.transport }
  unfolding emit
  emit_frame reply method s = ground arith

  pub emit-Later :
      (reply : Response) (method : Bytes) (s : Server D T) → Later s (emit env reply method s).0
  emit-Later reply method s =
      subst (Later s) (sym (emit_frame reply method s)) (with_transport-Later s _)

  pub stop-Later : (s : Server D T) → Later s (stop env s)
  unfolding stop
  stop-Later s = elim (Bool-cases (is_stopped s.state)) [
    | inl done ↦ Later-eq (ground arith)
    | inr live ↦
        subst (Later s) {x = record halted { transport = env.transport.stop halted.transport }}
          (ground arith)
          (Later-trans _ _ _ (mark_stopping-Later s (rank_le s.state live)) (
            Later-trans _ _ _ (stop_executor-Later s.executor (mark_stopping s))
              (with_transport-Later halted _)))
  ]
    where
      halted : Server D T
      halted = stop_executor s.executor (mark_stopping s)

  pub stop_unless-Later : (r : Server D T × Bool) → Later r.0 (stop_unless env r)
  stop_unless-Later (s, true) = Later-refl s
  stop_unless-Later (s, false) = stop-Later s
