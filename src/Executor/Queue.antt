-- ===== src/Executor/Queue.antt =====
-- include/synapse/detail/owned_executor.hpp: what each call of the owner does to the queue.
use synapse_mcp.Base.{
  ℕ, suc, ◌<◌, ◌≤◌, ◌≡◌, refl, ◌↔◌, true, false, [], ◌∷◌, ◌++◌, Option, none, some, arith, ok, err,
  any, length, is_ok, Bool-cases, inl, inr,
}
use synapse_mcp.Protocol.{RpcId}
use synapse_mcp.Handlers.{SdkError}
use synapse_mcp.Executor.Defs.{Work, Executor, is_null_id, has_id, active_has_id, enqueue}

module _ {C : Type 0} where
  -- The conditions under which work is taken on.
  pub record IsAdmissible (id : RpcId) (s : Executor C) : Type 0 where
    pub open_for_work : s.stopping ≡ false
    pub valid_id : is_null_id id ≡ false
    pub not_active : active_has_id id s.active ≡ false
    pub not_pending : any (has_id id) s.pending ≡ false
    pub room : length s.pending < s.max_pending

  -- Work is taken on exactly under these conditions.
  pub enqueue-IsAdmissible :
      (id : RpcId) (call : C) (s : Executor C)
      → (is_ok (enqueue id (some call) s).1 ≡ true) ↔ IsAdmissible id s
  unfolding enqueue
  enqueue-IsAdmissible id call s = (λ h. ground arith, λ a. ground (arith, a.room))

  -- The state in which the work has been taken on.
  abbrev pub taken : RpcId → C → Executor C → Executor C
  taken id call s = record s { pending = s.pending ++ work ∷ []; next_stop = suc s.next_stop }
    where
      work : Work C
      work = record { context = record { id = id; stop = s.next_stop }; call = call }

  -- What a call of `enqueue` comes to.
  pub data Enqueued (id : RpcId) (call : Option C) (s : Executor C) : Type 0 where
    accepted :
        (c : C)
        → call ≡ some c
        → IsAdmissible id s
        → enqueue id call s ≡ (taken id c s, ok tt)
        → Enqueued id call s
    refused :
        (n : ℕ) (e : SdkError)
        → s.next_stop ≤ n
        → enqueue id call s ≡ (record s { next_stop = n }, err e)
        → Enqueued id call s

  refused_message :
      (id : RpcId) (call : C) (s : Executor C)
      → is_ok (enqueue id (some call) s).1 ≡ false
      → (e : SdkError) × ((enqueue id (some call) s).1 ≡ err e)
  refused_message id call s h = ground arith

  refused_state :
      (id : RpcId) (call : C) (s : Executor C)
      → is_ok (enqueue id (some call) s).1 ≡ false
      → (enqueue id (some call) s).0
        ≡ record s { next_stop = (enqueue id (some call) s).0.next_stop }
  unfolding enqueue
  refused_state id call s h = ground arith

  next_stop-enqueue :
      (id : RpcId) (call : C) (s : Executor C)
      → s.next_stop ≤ (enqueue id (some call) s).0.next_stop
  unfolding enqueue
  next_stop-enqueue id call s = ground arith

  accepted_state :
      (id : RpcId) (call : C) (s : Executor C)
      → IsAdmissible id s
      → enqueue id (some call) s ≡ (taken id call s, ok tt)
  unfolding enqueue
  accepted_state id call s a = ground arith

  -- Work is taken on at the end of the queue, with a stop state that no earlier work has, when it is
  -- admissible; otherwise the call reports an error and changes nothing but the counter of stop
  -- states.
  pub enqueue-Enqueued : (id : RpcId) (call : Option C) (s : Executor C) → Enqueued id call s
  unfolding enqueue
  enqueue-Enqueued id none s = refused s.next_stop _ (omega arith) refl
  enqueue-Enqueued id (some call) s = elim (Bool-cases (is_ok (enqueue id (some call) s).1)) [
    | inl h ↦
        let a = (enqueue-IsAdmissible id call s).0 h in
        accepted call refl a (accepted_state id call s a)
    | inr h ↦
        let (e, w) = refused_message id call s h in
        refused _ e (next_stop-enqueue id call s) (ground (arith, refused_state id call s h))
  ]
