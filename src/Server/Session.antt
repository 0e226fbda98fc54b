-- ===== src/Server/Session.antt =====
-- include/synapse/server.hpp: initialization and notifications. A critical section under `mutex_` is
-- one function.
use synapse_mcp.Base.{
  Bool, true, false, not, ◌&&◌, ◌||◌, List, [], ◌∷◌, ◌++◌, Option, none, some, Bytes, ascii,
  bytes_eq, if◌then◌else◌, is_empty,
}
use synapse_mcp.Json.{Json, string, object, end, is_object, is_string, object_of, member, contains}
use synapse_mcp.Decoder.{is_request_id, member_is}
use synapse_mcp.RequestId.{same_request_id}
use synapse_mcp.Protocol.{
  RpcId, Request, Response, Notification, invalid_request, invalid_params, read_json_rpc_id,
}
use synapse_mcp.Executor.{Executor, Work, Phase, turn}
use synapse_mcp.Executor
use synapse_mcp.Server.Types.{
  Connection, await_initialize, await_initialized, ready, closing, Operation, Call, Server,
}
use synapse_mcp.Server.Emit.{failure, success, is_serving, complete, cancel_operation}

-- `p.contains(k) && p[k].is_object()` and the like are `member_is`.
unfoldable pub valid_initialize : Option Json → Bool
valid_initialize none = false
valid_initialize (some p) =
    is_object p
    && member_is is_string p (ascii "protocolVersion")
    && member_is is_object p (ascii "capabilities")
    && (elim (member p (ascii "clientInfo")) [
      | none ↦ false
      | some c ↦
          is_object c
          && member_is is_string c (ascii "name")
          && member_is is_string c (ascii "version")
    ])

-- `if (!items.empty()) capabilities[k] = object();`
abbrev pub capability : Bytes → Bool → List (Bytes × Json)
capability k true = (k, object end) ∷ []
capability k false = []

abbrev pub is_await_initialize : Connection → Bool
is_await_initialize await_initialize = true
is_await_initialize _ = false

abbrev pub is_await_initialized : Connection → Bool
is_await_initialized await_initialized = true
is_await_initialized _ = false

abbrev pub is_ready : Connection → Bool
is_ready ready = true
is_ready _ = false

abbrev pub is_closing : Connection → Bool
is_closing closing = true
is_closing _ = false

abbrev pub same_id : RpcId → Operation → Bool
same_id id op = same_request_id op.id id

-- The first operation with the id is marked; its id is what the executor is asked to cancel.
unfoldable pub mark_cancelled : RpcId → List Operation → List Operation × Option RpcId
mark_cancelled id [] = ([], none)
mark_cancelled id (op ∷ ops) =
    let (rest, found) = mark_cancelled id ops in
    if same_id id op then (cancel_operation op ∷ ops, some op.id) else (op ∷ rest, found)

-- The parameters of "notifications/cancelled".
unfoldable pub cancelled_id : Option Json → Option RpcId
cancelled_id none = none
cancelled_id (some p) =
    if is_object p && (not (contains p (ascii "reason")) || member_is is_string p (ascii "reason"))
    then elim (member p (ascii "requestId")) [
      | none ↦ none
      | some v ↦ if is_request_id v then some (read_json_rpc_id v) else none
    ]
    else none

abbrev pub object_params : Option Json → Bool
object_params none = true
object_params (some p) = is_object p

module _ {D T : Type 0} where
  unfoldable pub capabilities : Server D T → Json
  capabilities s = object (
      object_of (
        capability (ascii "prompts") (not (is_empty s.prompts))
        ++ capability (ascii "resources") (not (is_empty s.resources))
        ++ capability (ascii "tools") (not (is_empty s.tools))))

  abbrev pub initialize_result : Server D T → Json
  initialize_result s =
      let info = object (
        object_of
          ((ascii "name", string s.info.name) ∷ (ascii "version", string s.info.version) ∷ [])) in
      object (
        object_of (
          (ascii "protocolVersion", string (ascii "2025-11-25"))
          ∷ (ascii "capabilities", capabilities s)
          ∷ (ascii "serverInfo", info)
          ∷ []))

  unfoldable pub initialize : Request → Server D T → Server D T × Response
  unfolding valid_initialize
  initialize req s =
      if not (is_await_initialize s.protocol)
      then (s, failure req.id invalid_request (ascii "Initialization already attempted"))
      else if not (valid_initialize req.params)
      then (s, failure req.id invalid_params (ascii "Invalid initialize parameters"))
      else (record s { protocol = await_initialized }, success req.id (initialize_result s))

  -- The critical section of `notify`.
  unfoldable pub notify_locked : Notification → Server D T → Server D T × Option RpcId
  unfolding mark_cancelled cancelled_id
  notify_locked note s =
      let opened =
        if is_await_initialized s.protocol && object_params note.params
        then record s { protocol = ready }
        else s in
      if not (is_serving s.state)
      then (s, none)
      else if bytes_eq note.method (ascii "notifications/initialized")
      then (opened, none)
      else if bytes_eq note.method (ascii "notifications/cancelled")
      then elim (cancelled_id note.params) [
        | none ↦ (s, none)
        | some id ↦
            let (inflight, found) = mark_cancelled id s.inflight in
            (record s { inflight = inflight }, found)
      ]
      else (s, none)

  -- `executor_->cancel`: the call of a discarded entry completes its operation.
  abbrev pub complete_discarded : Option (Work Call) → Server D T → Server D T
  complete_discarded none s = s
  complete_discarded (some w) s = complete w.call.operation s

  abbrev pub cancel_in : Option RpcId → Option (Executor Call) → Server D T → Server D T
  cancel_in (some id) (some e) s =
      let (e', gone) = Executor.cancel id e in
      complete_discarded gone (record s { executor = some e' })
  cancel_in (some id) none s = s
  cancel_in none e s = s

  unfoldable pub notify : Notification → Server D T → Server D T
  unfolding notify_locked complete
  notify note s = let (t, found) = notify_locked note s in cancel_in found t.executor t
