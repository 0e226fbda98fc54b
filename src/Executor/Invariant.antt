-- ===== src/Executor/Invariant.antt =====
-- include/synapse/detail/owned_executor.hpp: the worker and all threads together.
use synapse_mcp.Base.{ℕ, ◌≡◌, refl, false, List, [], ◌∷◌, some, arith, Bool-cases, inl, inr}
use synapse_mcp.Executor.Defs.{Work, Phase, waiting, running, leaving, done, Executor, new_executor}
use synapse_mcp.Executor.Worker.{
  front, turn, work_on, Step, enqueues, cancels, stops, requests, works, Reach, here, next,
}
use synapse_mcp.Executor.Validity.{
  IsValid, new_executor-IsValid, enqueue-IsValid, cancel_locked-IsValid, stop_locked-IsValid,
  request_stop-IsValid,
}

module _ {C : Type 0} where
  front-IsValid :
      (s t : Executor C) (ws : List (Work C))
      → s.pending ≡ ws
      → s.phase ≡ waiting
      → s.stopping ≡ false
      → front s ws ≡ some t
      → IsValid s
      → IsValid t
  front-IsValid s t [] e p k h v = cc
  front-IsValid s t (w ∷ ws) e p k h v = ground arith

  work_on-IsValid :
      (phase : Phase) (s t : Executor C)
      → s.phase ≡ phase
      → work_on phase s ≡ some t
      → IsValid s
      → IsValid t
  unfolding work_on
  work_on-IsValid waiting s t p h v = elim (Bool-cases s.stopping) [
    | inl k ↦ ground arith
    | inr k ↦ front-IsValid s t s.pending refl p k (ground arith) v
  ]
  work_on-IsValid running s t p h v = ground arith
  work_on-IsValid leaving s t p h v = ground arith
  work_on-IsValid done s t p h v = cc

  turn-IsValid : (s t : Executor C) → turn s ≡ some t → IsValid s → IsValid t
  turn-IsValid s t h v = work_on-IsValid s.phase s t refl h v

  -- Every operation of every thread keeps the executor valid.
  pub Step-IsValid : {s t : Executor C} → Step s t → IsValid s → IsValid t
  Step-IsValid (enqueues s id call) v = enqueue-IsValid s id call v
  Step-IsValid (cancels s id) v = cancel_locked-IsValid s id v
  Step-IsValid (stops s) v = stop_locked-IsValid s v
  Step-IsValid (requests s stop) v = request_stop-IsValid s stop v
  Step-IsValid (works s t h) v = turn-IsValid s t h v

  Reach-IsValid : {s t : Executor C} → IsValid s → Reach s t → IsValid t
  Reach-IsValid v here = v
  Reach-IsValid v (next r st) = Step-IsValid st (Reach-IsValid v r)

  -- In every state that any threads reach from a new executor: the queue is within its limit, the ids
  -- of waiting and running work are distinct, nothing is queued once it is stopping, a call runs
  -- exactly when there is active work, and the worker ends only after a stop.
  pub Reach-new_executor-IsValid : (n : ℕ) (t : Executor C) → Reach (new_executor n) t → IsValid t
  Reach-new_executor-IsValid n t r = Reach-IsValid (new_executor-IsValid n) r
