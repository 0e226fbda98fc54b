-- ===== src/Executor/Shutdown.antt =====
-- include/synapse/detail/owned_executor.hpp: the order of the calls, and what a stop brings about.
use synapse_mcp.Base.{
  ℕ, zero, suc, ◌*◌, ◌≡◌, refl, ap, ◌⊎◌, Bool, true, false, List, [], ◌∷◌, none, some, arith,
  length,
}
use synapse_mcp.Executor.Defs.{
  Work, Phase, waiting, running, leaving, done, Executor, enqueue, cancel_locked, discard,
  request_stop, stop_locked, stop,
}
use synapse_mcp.Executor.Queue.{accepted, refused, enqueue-Enqueued}
use synapse_mcp.Executor.Validity.{IsValid, is_done}
use synapse_mcp.Executor.Worker.{
  turn, work_on, wait, join, Step, enqueues, cancels, stops, requests, works, Reach, here, next,
}

module _ {C : Type 0} where
  -- The work that the worker starts in `n` turns of its own.
  unfoldable pub started : ℕ → Executor C → List (Work C)
  started zero s = []
  started (suc n) s = elim (turn s) [
    | none ↦ []
    | some t ↦ elim t.phase [
      | running ↦ elim t.active [ some w ↦ w ∷ started n t | none ↦ started n t ]
      | _ ↦ started n t
    ]
  ]

  drain_from :
      (ws : List (Work C)) (s : Executor C)
      → s.pending ≡ ws
      → s.phase ≡ waiting
      → s.stopping ≡ false
      → started (2 * length ws) s ≡ ws
  unfolding started work_on
  drain_from [] s e p k = refl
  drain_from (w ∷ ws) s e p k =
      let taken = record s { pending = ws; active = some w; phase = running } in
      let again = record taken { active = none; phase = waiting } in
      let first : turn s ≡ some taken = ground arith in
      let double : 2 * suc (length ws) ≡ suc (suc (2 * length ws)) = omega arith in
      rw double (rw (first, started) (ap (◌∷◌ w) (drain_from ws again refl refl k)))

  -- When the executor is not stopping and its worker waits, the worker's own turns, with no step of
  -- another thread between them, start all that is queued in the order of the queue, two turns to a
  -- call.
  pub started-pending :
      (s : Executor C)
      → s.phase ≡ waiting
      → s.stopping ≡ false
      → started (2 * length s.pending) s ≡ s.pending
  started-pending s p k = drain_from s.pending s refl p k

  -- Since a state: nothing is queued, admission is closed, and no work has become active.
  record IsQuiet (s t : Executor C) : Type 0 where
    stopped : t.stopping ≡ true
    empty : t.pending ≡ []
    no_start : (t.active ≡ s.active) ⊎ (t.active ≡ none)

  Step-IsQuiet : {s t u : Executor C} → Step t u → IsQuiet s t → IsQuiet s u
  unfolding enqueue cancel_locked discard stop_locked request_stop work_on
  Step-IsQuiet (enqueues t id call) q = elim (enqueue-Enqueued id call t) [
    | accepted c _ a e ↦ absurd (ground (arith, a.open_for_work))
    | refused n x _ e ↦ ground arith
  ]
  Step-IsQuiet (cancels t id) q = ground arith
  Step-IsQuiet (stops t) q = ground arith
  Step-IsQuiet (requests t none) q = q
  Step-IsQuiet (requests t (some stop)) q = ground arith
  Step-IsQuiet (works t u h) q = ground arith

  Reach-IsQuiet : {s t : Executor C} → IsQuiet s s → Reach s t → IsQuiet s t
  Reach-IsQuiet q here = q
  Reach-IsQuiet q (next r st) = Step-IsQuiet st (Reach-IsQuiet q r)

  -- After a stop, and whatever any thread does then, admission stays closed, nothing is queued, and
  -- no further work becomes active.
  pub Reach-stop :
      (s t : Executor C)
      → Reach (stop s).0 t
      → (t.stopping ≡ true) × (t.pending ≡ []) × ((t.active ≡ s.active) ⊎ (t.active ≡ none))
  unfolding stop request_stop
  Reach-stop s t r =
      let q = Reach-IsQuiet {s = (stop s).0} {t = t} (ground arith) r in
      (q.stopped, q.empty, ground (arith, q.no_start))

  -- The worker's own turns, as many as it can take.
  unfoldable pub turns : ℕ → Executor C → Executor C
  turns zero s = s
  turns (suc n) s = elim (turn s) [ none ↦ s | some t ↦ turns n t ]

  turns_stopped :
      (phase : Phase) (s : Executor C)
      → s.phase ≡ phase
      → s.stopping ≡ true
      → s.finished ≡ is_done phase
      → (turns 3 s).finished ≡ true
  unfolding turns work_on
  turns_stopped waiting s p k f = ground arith
  turns_stopped running s p k f = ground arith
  turns_stopped leaving s p k f = ground arith
  turns_stopped done s p k f = ground arith

  -- Once a valid executor is stopped, its worker ends within three turns, whatever it was doing, if
  -- its call returns; the owner's `wait` then joins it.
  pub stop-wait :
      (s : Executor C) (joins : Bool)
      → IsValid s
      → ((turns 3 (stop s).0).finished ≡ true)
        × (wait false joins (turns 3 (stop s).0) ≡ some (join joins))
  unfolding stop request_stop wait
  stop-wait s joins v =
      let e =
        turns_stopped s.phase (stop s).0 (ground arith) (ground arith) (ground (arith, v.ended)) in
      (e, ground (arith, e))
