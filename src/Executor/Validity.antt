-- ===== src/Executor/Validity.antt =====
-- include/synapse/detail/owned_executor.hpp: what holds between any two critical sections, and
-- that the operations of other threads keep it.
use synapse_mcp.Base.{
  ℕ, ◌≤◌, ◌≡◌, refl, Bool, true, false, not, is_empty, ◌||◌, List, [], ◌∷◌, ◌++◌, Option, none,
  some, arith, any, length, length-append, is_some, Bool-cases, inl, inr,
}
use synapse_mcp.Protocol.{RpcId}
use synapse_mcp.RequestId.{same_request_id_comm}
use synapse_mcp.Executor.Defs.{
  Work, Phase, running, leaving, done, Executor, has_id, active_has_id, new_executor, enqueue,
  discard, cancel_locked, request_stop, stop_locked,
}
use synapse_mcp.Executor.Queue.{accepted, refused, enqueue-Enqueued}

abbrev is_running : Phase → Bool
is_running running = true
is_running _ = false

abbrev pub is_done : Phase → Bool
is_done done = true
is_done _ = false

abbrev is_past : Phase → Bool
is_past leaving = true
is_past done = true
is_past _ = false

module _ {C : Type 0} where
  -- No two pending entries have the same id.
  abbrev pub DistinctIds : List (Work C) → Type 0
  DistinctIds [] = Unit
  DistinctIds (w ∷ ws) = (any (has_id w.context.id) ws ≡ false) × DistinctIds ws

  abbrev pub ActiveApart : Option (Work C) → List (Work C) → Type 0
  ActiveApart none ws = Unit
  ActiveApart (some w) ws = any (has_id w.context.id) ws ≡ false

  pub record IsValid (s : Executor C) : Type 0 where
    pub bounded : length s.pending ≤ s.max_pending
    pub distinct : DistinctIds s.pending
    pub apart : ActiveApart s.active s.pending
    pub closed : (not s.stopping || is_empty s.pending) ≡ true
    pub busy : is_running s.phase ≡ is_some s.active
    pub ended : s.finished ≡ is_done s.phase
    pub past_stop : (not (is_past s.phase) || s.stopping) ≡ true

  pub new_executor-IsValid : (n : ℕ) → IsValid (new_executor n)
  unfolding new_executor
  new_executor-IsValid n = ground arith

  any-append :
      (id : RpcId) (ws : List (Work C)) (w : Work C)
      → any (has_id id) (ws ++ w ∷ []) ≡ (any (has_id id) ws || has_id id w)
  any-append id [] w = ground arith
  any-append id (v ∷ ws) w = ground (arith, any-append id ws w)

  DistinctIds-append :
      (ws : List (Work C)) (w : Work C)
      → DistinctIds ws
      → any (has_id w.context.id) ws ≡ false
      → DistinctIds (ws ++ w ∷ [])
  DistinctIds-append [] w d h = (refl, tt)
  DistinctIds-append (v ∷ ws) w d h = (
    ground (arith, any-append v.context.id ws w, same_request_id_comm v.context.id w.context.id),
    DistinctIds-append ws w d.1 (ground arith),
  )

  taken-ActiveApart :
      (o : Option (Work C)) (ws : List (Work C)) (w : Work C)
      → ActiveApart o ws
      → active_has_id w.context.id o ≡ false
      → ActiveApart o (ws ++ w ∷ [])
  taken-ActiveApart none ws w a h = tt
  taken-ActiveApart (some v) ws w a h =
      ground (arith, any-append v.context.id ws w, same_request_id_comm v.context.id w.context.id)

  pub enqueue-IsValid :
      (s : Executor C) (id : RpcId) (call : Option C) → IsValid s → IsValid (enqueue id call s).0
  enqueue-IsValid s id call v = elim (enqueue-Enqueued id call s) [
    | accepted c _ a e ↦ rw e (record {
      bounded = omega (arith, a.room, length-append s.pending, v.bounded);
      distinct = DistinctIds-append s.pending _ v.distinct a.not_pending;
      apart = taken-ActiveApart s.active s.pending _ v.apart a.not_active;
      closed = ground (arith, a.open_for_work);
      busy = v.busy;
      ended = v.ended;
      past_stop = v.past_stop;
    })
    | refused n e k q ↦ rw q (record {
      bounded = v.bounded;
      distinct = v.distinct;
      apart = v.apart;
      closed = v.closed;
      busy = v.busy;
      ended = v.ended;
      past_stop = v.past_stop;
    })
  ]

  any-discard :
      (id j : RpcId) (ws : List (Work C))
      → any (has_id j) ws ≡ false
      → any (has_id j) (discard id ws).0 ≡ false
  unfolding discard
  any-discard id j [] h = refl
  any-discard id j (w ∷ ws) h = ground (arith, any-discard id j ws)

  DistinctIds-discard :
      (id : RpcId) (ws : List (Work C)) → DistinctIds ws → DistinctIds (discard id ws).0
  unfolding discard
  DistinctIds-discard id [] d = tt
  DistinctIds-discard id (w ∷ ws) d =
      ground (arith, DistinctIds-discard id ws, any-discard id w.context.id ws)

  length-discard-le : (id : RpcId) (ws : List (Work C)) → length (discard id ws).0 ≤ length ws
  unfolding discard
  length-discard-le id [] = omega arith
  length-discard-le id (w ∷ ws) = ground (arith, length-discard-le id ws)

  ActiveApart-discard :
      (id : RpcId) (o : Option (Work C)) (ws : List (Work C))
      → ActiveApart o ws
      → ActiveApart o (discard id ws).0
  ActiveApart-discard id none ws h = tt
  ActiveApart-discard id (some w) ws h = any-discard id w.context.id ws h

  discard-is_empty :
      (id : RpcId) (ws : List (Work C)) → (not (is_empty ws) || is_empty (discard id ws).0) ≡ true
  unfolding discard
  discard-is_empty id [] = refl
  discard-is_empty id (w ∷ ws) = refl

  pub cancel_locked-IsValid :
      (s : Executor C) (id : RpcId) → IsValid s → IsValid (cancel_locked id s).0
  unfolding cancel_locked
  cancel_locked-IsValid s id v = elim (Bool-cases (active_has_id id s.active)) [
    | inl h ↦ rw h v
    | inr h ↦ rw h (record {
      bounded = omega (arith, length-discard-le id s.pending, v.bounded);
      distinct = DistinctIds-discard id s.pending v.distinct;
      apart = ActiveApart-discard id s.active s.pending v.apart;
      closed = ground (arith, v.closed, discard-is_empty id s.pending);
      busy = v.busy;
      ended = v.ended;
      past_stop = v.past_stop;
    })
  ]

  ActiveApart-nil : (o : Option (Work C)) → ActiveApart o []
  ActiveApart-nil none = tt
  ActiveApart-nil (some w) = refl

  pub stop_locked-IsValid : (s : Executor C) → IsValid s → IsValid (stop_locked s).0
  unfolding stop_locked
  stop_locked-IsValid s v = record {
    bounded = omega arith;
    distinct = tt;
    apart = ActiveApart-nil s.active;
    closed = ground arith;
    busy = v.busy;
    ended = v.ended;
    past_stop = ground arith;
  }

  pub request_stop-IsValid :
      (s : Executor C) (stop : Option ℕ) → IsValid s → IsValid (request_stop stop s)
  unfolding request_stop
  request_stop-IsValid s none v = v
  request_stop-IsValid s (some stop) v = record {
    bounded = v.bounded;
    distinct = v.distinct;
    apart = v.apart;
    closed = v.closed;
    busy = v.busy;
    ended = v.ended;
    past_stop = v.past_stop;
  }
