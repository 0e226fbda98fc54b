-- ===== src/Executor/Defs.antt =====
-- include/synapse/detail/owned_executor.hpp: the calls of the owner. `C` is the type of the calls
-- that are queued. A stop state (`std::stop_source`) is a number, and `stop_requested` lists those on
-- which a stop was requested. Work that is thrown away is handed back, since its destructor runs
-- outside the lock.
use synapse_mcp.Base.{
  ℕ, suc, Bool, true, false, List, [], ◌∷◌, ◌++◌, Option, none, some, Bytes, ascii, leb, ◌==◌,
  if◌then◌else◌, Expected, ok, err, any, length,
}
use synapse_mcp.Protocol.{RpcId, null}
use synapse_mcp.RequestId.{same_request_id}
use synapse_mcp.Handlers.{SdkErrc, SdkError, invalid_state, resource_exhausted, RequestContext}

pub record Work (C : Type 0) : Type 0 where
  pub context : RequestContext
  pub call : C

-- Where the worker thread is: in its wait, in a call, behind the loop, or at its end.
pub data Phase : Type 0 where
  waiting running leaving done : Phase

pub record Executor (C : Type 0) : Type 0 where
  pub max_pending : ℕ
  pub pending : List (Work C)
  pub active : Option (Work C)
  pub stopping : Bool
  pub finished : Bool
  pub phase : Phase
  pub next_stop : ℕ
  pub stop_requested : List ℕ

abbrev pub error {ℓ} : {A : Type ℓ} → SdkErrc → Bytes → Expected A SdkError
error code message = err (record { code = code; message = message })

abbrev pub is_null_id : RpcId → Bool
is_null_id null = true
is_null_id _ = false

module _ {C : Type 0} where
  -- A limit of zero makes an inert executor, with no thread.
  unfoldable pub new_executor : ℕ → Executor C
  new_executor max_pending = record {
    max_pending = max_pending;
    pending = [];
    active = none;
    stopping = max_pending == 0;
    finished = max_pending == 0;
    phase = if max_pending == 0 then done else waiting;
    next_stop = 0;
    stop_requested = [];
  }

  abbrev pub has_id : RpcId → Work C → Bool
  has_id id w = same_request_id w.context.id id

  abbrev pub active_has_id : RpcId → Option (Work C) → Bool
  active_has_id id none = false
  active_has_id id (some w) = has_id id w

  -- The critical section of `enqueue`, on the work that was prepared.
  unfoldable pub admit : Work C → Executor C → Executor C × Expected (Unit {0}) SdkError
  admit w s =
      if s.stopping
      then (s, error invalid_state (ascii "Executor admission is closed"))
      else if active_has_id w.context.id s.active
      then (s, error invalid_state (ascii "Duplicate in-flight request ID"))
      else if any (has_id w.context.id) s.pending
      then (s, error invalid_state (ascii "Duplicate in-flight request ID"))
      else if leb s.max_pending (length s.pending)
      then (s, error resource_exhausted (ascii "Executor queue is full"))
      else (record s { pending = s.pending ++ w ∷ [] }, ok tt)

  -- `std::make_shared<work>`: a stop state of its own.
  unfoldable pub enqueue : RpcId → Option C → Executor C → Executor C × Expected (Unit {0}) SdkError
  unfolding admit
  enqueue id none s = (s, error invalid_state (ascii "Invalid executor invocation"))
  enqueue id (some call) s =
      if is_null_id id
      then (s, error invalid_state (ascii "Invalid executor invocation"))
      else admit (record { context = record { id = id; stop = s.next_stop }; call = call })
          (record s { next_stop = suc s.next_stop })

  -- The first pending entry with the id is taken out.
  unfoldable pub discard : RpcId → List (Work C) → List (Work C) × Option (Work C)
  discard id [] = ([], none)
  discard id (w ∷ ws) =
      let (kept, gone) = discard id ws in if has_id id w then (ws, some w) else (w ∷ kept, gone)

  abbrev pub active_stop : Option (Work C) → Option ℕ
  active_stop none = none
  active_stop (some w) = some w.context.stop

  -- `request_stop()` on a stop state that was copied under the lock.
  unfoldable pub request_stop : Option ℕ → Executor C → Executor C
  request_stop none s = s
  request_stop (some stop) s = record s { stop_requested = stop ∷ s.stop_requested }

  -- The critical section of `cancel`: the stop state of the active call, or the discarded entry.
  unfoldable pub cancel_locked : RpcId → Executor C → Executor C × Option ℕ × Option (Work C)
  unfolding discard
  cancel_locked id s =
      if active_has_id id s.active
      then (s, active_stop s.active, none)
      else let (kept, gone) = discard id s.pending in (record s { pending = kept }, none, gone)

  unfoldable pub cancel : RpcId → Executor C → Executor C × Option (Work C)
  unfolding cancel_locked request_stop
  cancel id s = let (t, stop, gone) = cancel_locked id s in (request_stop stop t, gone)

  -- The critical section of `stop`.
  unfoldable pub stop_locked : Executor C → Executor C × Option ℕ × List (Work C)
  stop_locked s = (record s { stopping = true; pending = [] }, active_stop s.active, s.pending)

  unfoldable pub stop : Executor C → Executor C × List (Work C)
  unfolding stop_locked request_stop
  stop s = let (t, source, gone) = stop_locked s in (request_stop source t, gone)
