-- ===== src/Server/Monotone.antt =====
-- include/synapse/server.hpp: what every step, and every run, keeps.
use synapse_mcp.Base.{◌≡◌, refl, sym, ap, subst, inl, inr, ℕ, ◌≤◌, true, not, Option, arith}
use synapse_mcp.Protocol.{Tool, Resource, Prompt}
use synapse_mcp.Handlers.{
  ToolHandler, ResourceHandler, PromptHandler, RequestContext, ServerOptions,
}
use synapse_mcp.Server.Types.{
  Lifecycle, configuring, starting, running, stopping, stopped, ServerInfo, Call, Server,
  Environment,
}
use synapse_mcp.Server.Register.{register_tool, register_resource, register_prompt, is_configuring}
use synapse_mcp.Server.Lifecycle.{
  new_server, start_check, start_executor, start_running, mark_stopped, is_starting,
  valid_configuration,
}
use synapse_mcp.Server.Worker.{compute_reply}
use synapse_mcp.Server.Inflight.{IsDistinct, IsDead}
use synapse_mcp.Server.Specification.{rank, advances, Moves, stays, Move-Moves}
use synapse_mcp.Server.View.{view}
use synapse_mcp.Server.Order.{
  phase, AreDistinct, Later, Later-refl, Later-trans, Later-eq, stop-Later, with_transport-Later,
  with_executor-Later,
}
use synapse_mcp.Server.Steps.{Step, Reach}
use synapse_mcp.Server.Progress
use synapse_mcp.Server.Advance
use synapse_mcp.Server.Registry.{
  register_tool-ToolRegistered, register_resource-ResourceRegistered,
  register_prompt-PromptRegistered,
}

rank_le : (l : Lifecycle) → rank l ≤ 4
rank_le configuring = omega arith
rank_le starting = omega arith
rank_le running = omega arith
rank_le stopping = omega arith
rank_le stopped = omega arith

rank-configuring : (l : Lifecycle) → is_configuring l ≡ true → rank l ≤ 0
rank-configuring configuring h = omega arith
rank-configuring starting h = cc
rank-configuring running h = cc
rank-configuring stopping h = cc
rank-configuring stopped h = cc

le_up : (l : Lifecycle) → is_configuring l ≡ true → rank l ≤ 1
le_up l h = omega (arith, rank-configuring l h)

rank-starting : (l : Lifecycle) → is_starting l ≡ true → rank l ≤ 2
rank-starting configuring h = cc
rank-starting starting h = omega arith
rank-starting running h = cc
rank-starting stopping h = cc
rank-starting stopped h = cc

module _ {D T : Type 0} where
  with_state-Later :
      (s : Server D T) (l : Lifecycle) → rank s.state ≤ rank l → Later s (record s { state = l })
  with_state-Later s l h = record {
    state = h;
    protocol = omega arith;
    inflight = λ d. d;
    session = Move-Moves (advances l h);
    dead = λ key d. d;
  }

  same-Later :
      (s t : Server D T)
      → t.state ≡ s.state
      → t.protocol ≡ s.protocol
      → t.next_key ≡ s.next_key
      → t.inflight ≡ s.inflight
      → Later s t
  same-Later s t e e' k i = record {
    state = subst (λ l. rank s.state ≤ rank l) (sym e) (omega arith);
    protocol = subst (λ c. phase s.protocol ≤ phase c) (sym e') (omega arith);
    inflight =
        λ d. subst (λ n. IsDistinct n t.inflight) (sym k) (subst (IsDistinct s.next_key) (sym i) d);
    session = subst (Moves (view s)) {x = view s} {y = view t} (cc) stays;
    dead = λ key d.
        subst (λ n. IsDead key n t.inflight) (sym k) (subst (IsDead key s.next_key) (sym i) d);
  }

module _ {D T : Type 0} (env : Environment D T) where
  register_tool-Later :
      (t : Tool) (h : Option ToolHandler) (s : Server D T) → Later s (register_tool env t h s).0
  register_tool-Later t h s = elim (register_tool-ToolRegistered env s t h) [
    | inl (_, e) ↦ Later-eq (sym e)
    | inr (_, (_, _, _, _, _, _, e)) ↦
        same-Later s _ (ap (λ u. u.state) e) (ap (λ u. u.protocol) e) (ap (λ u. u.next_key) e)
          (ap (λ u. u.inflight) e)
  ]

  register_resource-Later :
      (r : Resource) (h : Option ResourceHandler) (s : Server D T)
      → Later s (register_resource env r h s).0
  register_resource-Later r h s = elim (register_resource-ResourceRegistered env s r h) [
    | inl (_, e) ↦ Later-eq (sym e)
    | inr (_, (_, _, _, _, e)) ↦
        same-Later s _ (ap (λ u. u.state) e) (ap (λ u. u.protocol) e) (ap (λ u. u.next_key) e)
          (ap (λ u. u.inflight) e)
  ]

  register_prompt-Later :
      (p : Prompt) (h : Option PromptHandler) (s : Server D T)
      → Later s (register_prompt env p h s).0
  register_prompt-Later p h s = elim (register_prompt-PromptRegistered env s p h) [
    | inl (_, e) ↦ Later-eq (sym e)
    | inr (_, (_, _, _, _, e)) ↦
        same-Later s _ (ap (λ u. u.state) e) (ap (λ u. u.protocol) e) (ap (λ u. u.next_key) e)
          (ap (λ u. u.inflight) e)
  ]

  compute_reply-Later :
      (now : ℕ) (call : Call) (context : RequestContext) (s : Server D T)
      → Later s (compute_reply env now call context s).0
  unfolding compute_reply
  compute_reply-Later now call context s = same-Later s _ refl refl refl refl

  start_check-Later : (s : Server D T) → Later s (start_check env s).0
  unfolding start_check
  start_check-Later s =
      Progress.pair-Later s (not (is_configuring s.state)) _ _ (λ _. Later-refl s)
        (λ early.
          Progress.pair-Later s (valid_configuration env s) _ _
            (λ _. with_state-Later s starting (le_up s.state (ground arith)))
            (λ _. with_state-Later s stopped (rank_le s.state)))

  start_executor-Later : (s : Server D T) → Later s (start_executor env s).0
  unfolding start_executor
  start_executor-Later s = with_executor-Later s _

  start_running-Later : (s : Server D T) → Later s (start_running env s).0
  unfolding start_running
  start_running-Later s =
      Progress.pair-Later s (is_starting s.state) _ _
        (λ h. with_state-Later s running (rank-starting s.state h)) (λ _. Later-refl s)

  mark_stopped-Later : (s : Server D T) → Later s (mark_stopped env s)
  unfolding mark_stopped
  mark_stopped-Later s = with_state-Later s stopped (rank_le s.state)

  Step-Later : {s t : Server D T} → Step env s t → Later s t
  Step-Later (Step.tool_registered s t h) = register_tool-Later t h s
  Step-Later (Step.resource_registered s r h) = register_resource-Later r h s
  Step-Later (Step.prompt_registered s p h) = register_prompt-Later p h s
  Step-Later (Step.checked s) = start_check-Later s
  Step-Later (Step.published s) = start_executor-Later s
  Step-Later (Step.served s) = start_running-Later s
  Step-Later (Step.admitted s req) = Advance.admit_request-Later env req s
  Step-Later (Step.enqueued s req op) = Advance.enqueue_operation-Later env req op s
  Step-Later (Step.diagnosed s wire d) = Advance.receive_invalid-Later env wire d s
  Step-Later (Step.notified s note) = Progress.notify-Later note s
  Step-Later (Step.computed s now call context) = compute_reply-Later now call context s
  Step-Later (Step.delivered s call reply) = Advance.deliver_reply-Later env call reply s
  Step-Later (Step.turned s t h) = Advance.worker_turn-Later env s t h
  Step-Later (Step.halted s) = stop-Later env s
  Step-Later (Step.joined s) = mark_stopped-Later s
  Step-Later (Step.transported s t) = with_transport-Later s t

  pub Reach-Later : {s t : Server D T} → Reach env s t → Later s t
  Reach-Later (Reach.here s) = Later-refl s
  Reach-Later (Reach.then s t u run step) = Later-trans _ _ _ (Reach-Later run) (Step-Later step)

  -- Whatever the reader, the worker and the owner do, the session that the server holds makes moves of
  -- the specification only.
  pub Reach-Moves : {s t : Server D T} → Reach env s t → Moves (view s) (view t)
  Reach-Moves run = (Reach-Later run).session

  -- Neither the lifecycle nor the connection ever goes back, whatever the reader, the worker and the
  -- owner do in whatever order.
  pub Reach-rank :
      {s t : Server D T}
      → Reach env s t
      → (rank s.state ≤ rank t.state) × (phase s.protocol ≤ phase t.protocol)
  Reach-rank run = ((Reach-Later run).state, (Reach-Later run).protocol)

  -- From a new server, the operations in flight always have distinct ids and distinct keys.
  pub Reach-new_server-AreDistinct :
      (info : ServerInfo) (options : ServerOptions D) (transport : T) {s : Server D T}
      → Reach env (new_server env info options transport) s
      → AreDistinct s
  unfolding new_server
  Reach-new_server-AreDistinct info options transport run = (Reach-Later run).inflight tt
