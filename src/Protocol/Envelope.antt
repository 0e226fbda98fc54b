-- ===== src/Protocol/Envelope.antt =====
-- include/synapse/protocol.hpp: `to_json` and `from_json` of errors, requests, notifications and
-- responses. A `from_json` that throws gives `none`.
use synapse_mcp.Base.{ℕ, List, [], ◌∷◌, Option, none, some, ascii, ◌>>=◌}
use synapse_mcp.Json.{
  Json, number_unsigned, number_integer, string, object, set_field, object_of, at, get_string,
  JsonLibrary,
}
use synapse_mcp.Protocol.Types.{
  Error, RpcId, text, signed, unsigned, Request, Notification, Response,
}

-- The body of `std::visit` in `to_json`.
unfoldable pub id_to_json : RpcId → Json
id_to_json (text s) = string s
id_to_json (signed z) = number_integer z
id_to_json (unsigned n) = number_unsigned n
id_to_json RpcId.null = Json.null

-- Unsigned is tested first: the library counts unsigned numbers among the integers.
unfoldable pub read_json_rpc_id : Json → RpcId
read_json_rpc_id (number_unsigned n) = unsigned n
read_json_rpc_id (number_integer z) = signed z
read_json_rpc_id (string s) = text s
read_json_rpc_id _ = RpcId.null

-- `if (o.has_value()) j[k] = *o;`
abbrev pub set_optional : List ℕ → Option Json → Json → Json
set_optional k none j = j
set_optional k (some v) (object fs) = object (set_field k v fs)
set_optional k (some v) j = j

unfoldable pub error_to_json : Error → Json
error_to_json e = set_optional (ascii "data") e.extra (
    object (
      object_of ((ascii "code", number_integer e.code) ∷ (ascii "message", string e.message) ∷ [])))

unfoldable pub error_from_json : JsonLibrary → Json → Option Error
error_from_json lib j = do
  code ← at j (ascii "code") >>= lib.get_int
  message ← at j (ascii "message") >>= get_string
  some (record { code = code; message = message; extra = at j (ascii "data") })

unfoldable pub request_to_json : Request → Json
unfolding id_to_json
request_to_json r = set_optional (ascii "params") r.params (
    object (
      set_field (ascii "id") (id_to_json r.id)
        (object_of ((ascii "jsonrpc", string r.jsonrpc) ∷ (ascii "method", string r.method) ∷ []))))

unfoldable pub request_from_json : Json → Option Request
unfolding read_json_rpc_id
request_from_json j = do
  jsonrpc ← at j (ascii "jsonrpc") >>= get_string
  method ← at j (ascii "method") >>= get_string
  id ← at j (ascii "id")
  some (record {
    jsonrpc = jsonrpc;
    id = read_json_rpc_id id;
    method = method;
    params = at j (ascii "params");
  })

unfoldable pub notification_to_json : Notification → Json
notification_to_json n = set_optional (ascii "params") n.params (
    object
      (object_of ((ascii "jsonrpc", string n.jsonrpc) ∷ (ascii "method", string n.method) ∷ [])))

unfoldable pub notification_from_json : Json → Option Notification
notification_from_json j = do
  jsonrpc ← at j (ascii "jsonrpc") >>= get_string
  method ← at j (ascii "method") >>= get_string
  some (record { jsonrpc = jsonrpc; method = method; params = at j (ascii "params") })

-- An error is written in place of a result; with neither, the result is null.
abbrev pub outcome_to_json : Option Error → Option Json → List ℕ × Json
outcome_to_json (some e) result = (ascii "error", error_to_json e)
outcome_to_json none (some v) = (ascii "result", v)
outcome_to_json none none = (ascii "result", Json.null)

unfoldable pub response_to_json : Response → Json
unfolding id_to_json error_to_json
response_to_json r =
    let (key, outcome) = outcome_to_json r.err r.result in
    object (
      set_field key outcome (
        set_field (ascii "id") (id_to_json r.id)
          (object_of ((ascii "jsonrpc", string r.jsonrpc) ∷ []))))

unfoldable pub response_from_json : JsonLibrary → Json → Option Response
unfolding read_json_rpc_id error_from_json
response_from_json lib j = do
  jsonrpc ← at j (ascii "jsonrpc") >>= get_string
  id ← at j (ascii "id")
  elim (at j (ascii "error")) [
    | some e ↦ do
      err ← error_from_json lib e
      some (record { jsonrpc = jsonrpc; id = read_json_rpc_id id; result = none; err = some err })
    | none ↦ some (record {
      jsonrpc = jsonrpc;
      id = read_json_rpc_id id;
      result = at j (ascii "result");
      err = none;
    })
  ]
