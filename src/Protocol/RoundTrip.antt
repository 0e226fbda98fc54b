-- ===== src/Protocol/RoundTrip.antt =====
-- include/synapse/protocol.hpp: what `from_json` makes of what `to_json` wrote.
use synapse_mcp.Base.{
  Bytes, ◌≡◌, refl, List, [], ◌∷◌, Option, none, some, map, arith, ascii, bytes_eq, bytes_lt,
}
use synapse_mcp.Json.{
  Json, number_integer, to_list, items_of, find_field, set_field, JsonLibrary, IsInt, IntLaws,
}
use synapse_mcp.Protocol.Types.{
  Error, RpcId, text, signed, unsigned, Request, Notification, Response, Tool, Resource,
  PromptArgument, Prompt,
}
use synapse_mcp.Protocol.Envelope.{
  id_to_json, read_json_rpc_id, error_to_json, error_from_json, request_to_json, request_from_json,
  notification_to_json, notification_from_json, response_to_json, response_from_json,
}
use synapse_mcp.Protocol.Descriptors.{
  tool_to_json, tool_from_json, resource_to_json, resource_from_json, argument_to_json,
  argument_from_json, arguments_from_json, prompt_to_json, prompt_from_json,
}

-- An id is read back as the alternative of the variant that was written, 64-bit sign included.
pub read_json_rpc_id-id_to_json : (i : RpcId) → read_json_rpc_id (id_to_json i) ≡ i
unfolding read_json_rpc_id id_to_json
read_json_rpc_id-id_to_json (text s) = refl
read_json_rpc_id-id_to_json (signed z) = refl
read_json_rpc_id-id_to_json (unsigned n) = refl
read_json_rpc_id-id_to_json RpcId.null = refl

error_from_json-to_json :
    (lib : JsonLibrary) (e : Error)
    → lib.get_int (number_integer e.code) ≡ some e.code
    → error_from_json lib (error_to_json e) ≡ some e
unfolding error_from_json error_to_json find_field set_field ascii bytes_eq bytes_lt
error_from_json-to_json lib e h = ground arith

-- Every request is read back as it was: the version, the id with its kind, the method, and whether
-- parameters are there.
pub request_from_json-to_json : (r : Request) → request_from_json (request_to_json r) ≡ some r
unfolding request_from_json request_to_json find_field set_field ascii bytes_eq bytes_lt
request_from_json-to_json r = ground arith

-- Every notification is read back as it was.
pub notification_from_json-to_json :
    (n : Notification) → notification_from_json (notification_to_json n) ≡ some n
unfolding notification_from_json notification_to_json find_field set_field ascii bytes_eq bytes_lt
notification_from_json-to_json n = ground arith

-- What the wire keeps of a response: an error hides a result, and a response with neither has the
-- result null.
abbrev pub canonical : Response → Response
canonical r = elim r.err [
  | some e ↦ record r { result = none }
  | none ↦ elim r.result [ some v ↦ r | none ↦ record r { result = some Json.null } ]
]

abbrev pub CodeFits : Option Error → Type 0
CodeFits none = Unit
CodeFits (some e) = IsInt e.code

response_parts :
    (lib : JsonLibrary) (version : Bytes) (id : RpcId) (result : Option Json) (err : Option Error)
    → IntLaws lib
    → CodeFits err
    → let r : Response = record { jsonrpc = version; id = id; result = result; err = err } in
      response_from_json lib (response_to_json r) ≡ some (canonical r)
unfolding response_from_json response_to_json find_field set_field ascii bytes_eq bytes_lt
response_parts lib version id none none laws fits = ground (arith, read_json_rpc_id-id_to_json id)
response_parts lib version id (some v) none laws fits =
    ground (arith, read_json_rpc_id-id_to_json id)
response_parts lib version id result (some e) laws fits = ground (
  arith,
  read_json_rpc_id-id_to_json id,
  error_from_json-to_json lib e (laws.get_integer e.code fits),
)

-- A response whose error code is an `int` is read back in its canonical form.
pub response_from_json-to_json :
    (lib : JsonLibrary) (laws : IntLaws lib) (r : Response)
    → CodeFits r.err
    → response_from_json lib (response_to_json r) ≡ some (canonical r)
response_from_json-to_json lib laws r fits =
    response_parts lib r.jsonrpc r.id r.result r.err laws fits

-- A tool descriptor is read back as it was.
pub tool_from_json-to_json : (t : Tool) → tool_from_json (tool_to_json t) ≡ some t
unfolding tool_from_json tool_to_json find_field set_field ascii bytes_eq bytes_lt
tool_from_json-to_json t = ground arith

-- A resource descriptor is read back as it was, its media type too.
pub resource_from_json-to_json : (r : Resource) → resource_from_json (resource_to_json r) ≡ some r
unfolding resource_from_json resource_to_json find_field set_field ascii bytes_eq bytes_lt
resource_from_json-to_json r = ground arith

argument_from_json-to_json : (a : PromptArgument) → argument_from_json (argument_to_json a) ≡ some a
unfolding argument_from_json argument_to_json find_field set_field ascii bytes_eq bytes_lt
argument_from_json-to_json a = ground arith

arguments_from_json-map :
    (xs : List PromptArgument) → arguments_from_json (map argument_to_json xs) ≡ some xs
unfolding arguments_from_json
arguments_from_json-map [] = refl
arguments_from_json-map (a ∷ xs) =
    rw (argument_from_json-to_json a) (rw (arguments_from_json-map xs))

to_list-items_of : (xs : List Json) → to_list (items_of xs) ≡ xs
to_list-items_of [] = refl
to_list-items_of (x ∷ xs) = rw (to_list-items_of xs)

prompt_parts :
    (name description : Bytes) (arguments : List PromptArgument)
    → let p : Prompt = record { name = name; description = description; arguments = arguments } in
      prompt_from_json (prompt_to_json p) ≡ some p
unfolding prompt_from_json prompt_to_json find_field set_field ascii bytes_eq bytes_lt
prompt_parts name description [] = refl
prompt_parts name description (a ∷ xs) =
    rw (to_list-items_of (map argument_to_json xs)) (rw (arguments_from_json-map (a ∷ xs)))

-- A prompt is read back as it was: an empty list of arguments is not written, and a missing one is
-- read as empty.
pub prompt_from_json-to_json : (p : Prompt) → prompt_from_json (prompt_to_json p) ≡ some p
prompt_from_json-to_json p = prompt_parts p.name p.description p.arguments
