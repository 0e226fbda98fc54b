-- ===== src/Server/Lifecycle.antt =====
-- include/synapse/server.hpp: construction, `start`, `wait` and `wait_for`. What the transport and the
-- clock answer is an argument.
use synapse_mcp.Base.{
  Bool, true, false, not, ◌&&◌, [], none, some, ascii, ◌==◌, if◌then◌else◌, Expected, ok, err,
  is_empty,
}
use synapse_mcp.Handlers.{SdkError, resource_exhausted, ServerOptions}
use synapse_mcp.Policy.{new_policy}
use synapse_mcp.Executor.{new_executor}
use synapse_mcp.Server.Types.{
  Lifecycle, configuring, starting, running, stopped, await_initialize, ServerInfo, Server,
  Environment,
}
use synapse_mcp.Server.Register.{local_error, is_configuring, safe_text}
use synapse_mcp.Server.Emit.{stop}

abbrev pub is_starting : Lifecycle → Bool
is_starting starting = true
is_starting _ = false

module _ {D T : Type 0} (env : Environment D T) where
  unfoldable pub new_server : ServerInfo → ServerOptions D → T → Server D T
  new_server info options transport = record {
    info = info;
    options = options;
    policy = new_policy env.double options;
    state = configuring;
    protocol = await_initialize;
    resources = [];
    prompts = [];
    tools = [];
    inflight = [];
    next_key = 0;
    executor = none;
    transport = transport;
  }

  -- The configuration that `start` accepts.
  unfoldable pub valid_configuration : Server D T → Bool
  valid_configuration s =
      let rate = s.options.tool_requests_per_second in
      not (is_empty s.info.name)
      && not (is_empty s.info.version)
      && safe_text env.lib s.info.name
      && safe_text env.lib s.info.version
      && not (s.options.max_pending_requests == 0)
      && not (s.options.tool_burst == 0)
      && env.double.is_finite rate
      && env.double.lt (env.double.of_size 0) rate
      && s.options.has_now

  -- Its first critical section.
  unfoldable pub start_check : Server D T → Server D T × Expected (Unit {0}) SdkError
  unfolding valid_configuration
  start_check s =
      if not (is_configuring s.state)
      then (s, local_error (ascii "Server already started or stopped"))
      else if valid_configuration s
      then (record s { state = starting }, ok tt)
      else (record s { state = stopped }, local_error (ascii "Invalid server limits"))

  -- Its second: the executor is published; the flag says that a stop came in between.
  unfoldable pub start_executor : Server D T → Server D T × Bool
  start_executor s = (
    record s { executor = some (new_executor s.options.max_pending_requests) },
    not (is_starting s.state),
  )

  -- Its third, once the transport has started.
  unfoldable pub start_running : Server D T → Server D T × Bool
  start_running s = if is_starting s.state then (record s { state = running }, false) else (s, true)

  -- The end of `wait`, when everything is joined.
  unfoldable pub mark_stopped : Server D T → Server D T
  mark_stopped s = record s { state = stopped }

  -- `(void)wait()` behind a stop: the transport's answer decides whether the server is joined.
  abbrev pub wait_executor :
      Expected (Unit {0}) SdkError → Server D T → Server D T × Expected (Unit {0}) SdkError
  wait_executor (err e) s = (s, err e)
  wait_executor (ok _) s = (mark_stopped s, ok tt)

  -- `inside`: the caller stands in a callback of this server. The answers of the transport's and of
  -- the executor's wait, when they return; without an executor the latter is `ok`.
  unfoldable pub wait :
      Bool
      → Expected (Unit {0}) SdkError
      → Expected (Unit {0}) SdkError
      → Server D T
      → Server D T × Expected (Unit {0}) SdkError
  unfolding mark_stopped
  wait inside transport executor s =
      if inside
      then (s, local_error (ascii "Cannot wait inside SDK callback"))
      else elim transport [ err e ↦ (s, err e) | ok _ ↦ wait_executor executor s ]

  abbrev timed : Expected Bool SdkError → Server D T → Server D T × Expected Bool SdkError
  timed (err e) s = (s, err e)
  timed (ok false) s = (s, ok false)
  timed (ok true) s = (mark_stopped s, ok true)

  unfoldable pub wait_for :
      Bool
      → Expected Bool SdkError
      → Expected Bool SdkError
      → Server D T
      → Server D T × Expected Bool SdkError
  unfolding mark_stopped
  wait_for inside transport executor s =
      if inside
      then (s, local_error (ascii "Cannot wait inside SDK callback"))
      else elim transport [
        | err e ↦ (s, err e)
        | ok false ↦ (s, ok false)
        | ok true ↦ timed executor s
      ]

  -- The parts of `start` that run when it fails behind its first section: stop, and join.
  abbrev pub abandon_start :
      Expected (Unit {0}) SdkError → Expected (Unit {0}) SdkError → Server D T → Server D T
  abandon_start transport executor s = (wait false transport executor (stop env s)).0

  -- `start` where no other thread comes between its sections: `created` says that no exception left
  -- the executor's or the transport's creation, `start_transport` is the transport's start, and the
  -- last two answers are those of a wait.
  unfoldable pub start :
      Bool
      → (T → T × Expected (Unit {0}) SdkError)
      → Expected (Unit {0}) SdkError
      → Expected (Unit {0}) SdkError
      → Server D T
      → Server D T × Expected (Unit {0}) SdkError
  unfolding start_executor start_running
  start created start_transport transport executor s =
      let (checked, result) = start_check s in
      let (published, interrupted) = start_executor checked in
      let (t, answer) = start_transport published.transport in
      let connected = record published { transport = t } in
      let (served, stopped_meanwhile) = start_running connected in
      let interruption = local_error (ascii "Server stopped during startup") in
      elim result [
        | err e ↦ (checked, err e)
        | ok _ ↦
            if not created
            then (
              abandon_start transport executor checked,
              err (record {
                code = resource_exhausted;
                message = ascii "Cannot start server work";
              }),
            )
            else if interrupted
            then (abandon_start transport executor published, interruption)
            else elim answer [
              | err e ↦ (abandon_start transport executor connected, err e)
              | ok _ ↦
                  if stopped_meanwhile
                  then (abandon_start transport executor served, interruption)
                  else (served, ok tt)
            ]
      ]
