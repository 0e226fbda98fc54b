-- ===== src/Executor/Worker.antt =====
-- include/synapse/detail/owned_executor.hpp: the worker thread, joining it, and every interleaving.
use synapse_mcp.Base.{
  ℕ, Bool, true, false, not, ◌&&◌, ◌≡◌, List, [], ◌∷◌, Option, none, some, ascii, if◌then◌else◌,
  Expected, ok, err,
}
use synapse_mcp.Protocol.{RpcId}
use synapse_mcp.Handlers.{SdkError, invalid_state}
use synapse_mcp.Executor.Defs.{
  Work, Phase, waiting, running, leaving, done, Executor, error, enqueue, request_stop,
  cancel_locked, stop_locked,
}

-- `join` fails where `std::thread::join` throws.
abbrev pub join : Bool → Expected (Unit {0}) SdkError
join joins = if joins then ok tt else error invalid_state (ascii "Executor join failed")

abbrev pub joined : Expected (Unit {0}) SdkError → Expected Bool SdkError
joined (ok _) = ok true
joined (err e) = err e

module _ {C : Type 0} where
  abbrev pub front : Executor C → List (Work C) → Option (Executor C)
  front s [] = none
  front s (w ∷ ws) = some (record s { pending = ws; active = some w; phase = running })

  -- One turn of the worker. `none`: the thread waits for `changed_`, or has ended. A call that
  -- throws ends like one that returns.
  unfoldable pub work_on : Phase → Executor C → Option (Executor C)
  work_on waiting s = if s.stopping then some (record s { phase = leaving }) else front s s.pending
  work_on running s = some (record s { active = none; phase = waiting })
  work_on leaving s = some (record s { finished = true; phase = done })
  work_on done s = none

  abbrev pub turn : Executor C → Option (Executor C)
  turn s = work_on s.phase s

  -- `on_worker`, given whether the caller is the worker's thread.
  abbrev pub on_worker : Bool → Executor C → Bool
  on_worker is_worker s = not s.finished && is_worker

  -- `none`: the caller is blocked until the state changes.
  unfoldable pub wait : Bool → Bool → Executor C → Option (Expected (Unit {0}) SdkError)
  wait is_worker joins s =
      if on_worker is_worker s
      then some (error invalid_state (ascii "Worker cannot wait for itself"))
      else if s.finished
      then some (join joins)
      else none

  -- `wait_for` as its time runs out, or as the worker has finished.
  unfoldable pub wait_for : Bool → Bool → Executor C → Expected Bool SdkError
  wait_for is_worker joins s =
      if on_worker is_worker s
      then error invalid_state (ascii "Worker cannot wait for itself")
      else if s.finished
      then joined (join joins)
      else ok false

  -- Any thread may enqueue, cancel, stop, and request a stop of a state that it has copied; the
  -- worker takes its turns.
  pub data Step : Executor C → Executor C → Type 0 where
    enqueues : (s : Executor C) (id : RpcId) (call : Option C) → Step s (enqueue id call s).0
    cancels : (s : Executor C) (id : RpcId) → Step s (cancel_locked id s).0
    stops : (s : Executor C) → Step s (stop_locked s).0
    requests : (s : Executor C) (stop : Option ℕ) → Step s (request_stop stop s)
    works : (s t : Executor C) → turn s ≡ some t → Step s t

  pub data Reach (s : Executor C) : Executor C → Type 0 where
    here : Reach s s
    next : {t u : Executor C} → Reach s t → Step t u → Reach s u
