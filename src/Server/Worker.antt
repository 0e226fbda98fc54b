-- ===== src/Server/Worker.antt =====
-- include/synapse/server.hpp: the call that is queued for a request, as the worker runs it.
use synapse_mcp.Base.{ℕ, Bool, not, ◌&&◌, Option, none, some, ascii, if◌then◌else◌}
use synapse_mcp.Protocol.{Request, Response, internal_error}
use synapse_mcp.Handlers.{RequestContext}
use synapse_mcp.Executor.{Executor, Work, Phase, running, turn}
use synapse_mcp.Server.Types.{Call, Server, Environment}
use synapse_mcp.Server.Emit.{failure, is_serving, emit, complete, stop_unless}
use synapse_mcp.Server.Application.{application}
use synapse_mcp.Server.Receive.{is_cancelled}

module _ {D T : Type 0} where
  -- `!op->cancelled && serving()`.
  abbrev pub is_live : ℕ → Server D T → Bool
  is_live key s = not (is_cancelled key s.inflight) && is_serving s.state

-- `catch (...)` around `application`.
abbrev pub caught : Request → Option Response → Response
caught req none = failure req.id internal_error (ascii "Internal error")
caught req (some reply) = reply

module _ {D T : Type 0} (env : Environment D T) where
  -- The reply is computed outside the lock; the policy belongs to the worker.
  unfoldable pub compute_reply : ℕ → Call → RequestContext → Server D T → Server D T × Response
  compute_reply now call context s =
      let (policy, reply) = application env now call.request context s in
      (record s { policy = policy }, caught call.request reply)

  -- The last critical section: cancellation and the writer's admission serialize on the lock.
  unfoldable pub deliver_reply : Call → Response → Server D T → Server D T
  deliver_reply call reply s =
      if is_live call.operation s then stop_unless env (emit env reply call.request.method s) else s

  -- The whole call, where no other thread comes between its parts.
  unfoldable pub run_call : ℕ → Call → RequestContext → Server D T → Server D T
  run_call now call context s =
      let (t, reply) = compute_reply now call context s in
      if is_live call.operation s then deliver_reply call reply t else s

-- The call that the worker runs.
abbrev pub active_call : Option (Executor Call) → Option (Work Call)
active_call none = none
active_call (some e) = e.active

module _ {D T : Type 0} where
  -- The worker drops the work behind the call, which completes the operation.
  abbrev pub complete_active : Option (Work Call) → Server D T → Server D T
  complete_active none s = s
  complete_active (some w) s = complete w.call.operation s

  -- At the end of a call its operation is completed.
  abbrev pub retire : Phase → Option (Work Call) → Server D T → Server D T
  retire running w s = complete_active w s
  retire _ w s = s

  abbrev pub after_turn : Executor Call → Option (Executor Call) → Server D T → Option (Server D T)
  after_turn e none s = none
  after_turn e (some e') s = some (retire e.phase e.active (record s { executor = some e' }))

  -- A turn of the worker.
  abbrev pub turn_of : Option (Executor Call) → Server D T → Option (Server D T)
  turn_of none s = none
  turn_of (some e) s = after_turn e (turn e) s

  unfoldable pub worker_turn : Server D T → Option (Server D T)
  worker_turn s = turn_of s.executor s
