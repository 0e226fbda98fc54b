-- ===== src/Decoder/Defs.antt =====
-- include/synapse/detail/message_decoder.hpp.
use synapse_mcp.Base.{
  pos, negsuc, Bool, true, false, not, ◌&&◌, ◌||◌, Option, none, some, Bytes, ascii, bytes_eq, leb,
  if◌then◌else◌, Expected, ok, err,
}
use synapse_mcp.Json.{
  Json, number_unsigned, number_integer, string, is_null, is_string, is_number_integer, is_object,
  is_array, member, contains, JsonLibrary, int_max,
}
use synapse_mcp.Protocol.{
  RpcId, null, Response, IncomingMessage, a_request, a_notification, a_response, invalid_request,
  code_value, version, read_json_rpc_id, request_from_json, notification_from_json,
  response_from_json,
}

unfoldable pub is_request_id : Json → Bool
is_request_id v = is_string v || is_number_integer v

-- The test on a member that is known to be there; a missing one fails it.
abbrev pub member_is : (Json → Bool) → Json → Bytes → Bool
member_is p j k = elim (member j k) [ none ↦ false | some v ↦ p v ]

-- The error code is compared as the unsigned or the signed 64-bit number that it is.
unfoldable pub is_error_code : Json → Bool
is_error_code (number_unsigned n) = leb n int_max
is_error_code (number_integer (pos n)) = leb n int_max
is_error_code (number_integer (negsuc n)) = leb n int_max
is_error_code _ = false

unfoldable pub is_wire_error : Json → Bool
unfolding is_error_code
is_wire_error v =
    is_object v
    && contains v (ascii "code")
    && member_is is_string v (ascii "message")
    && member_is is_error_code v (ascii "code")

-- `wire.at(k) == s` for a string literal `s`.
abbrev pub is_text : Bytes → Json → Bool
is_text s (string t) = bytes_eq t s
is_text s _ = false

-- The diagnostic: it carries the id of the input where that is one, and null otherwise.
abbrev pub diagnostic_id : Json → RpcId
diagnostic_id wire = elim (member wire (ascii "id")) [
  | none ↦ null
  | some v ↦ if is_request_id v then read_json_rpc_id v else null
]

unfoldable pub invalid : RpcId → Response
invalid id = record {
  jsonrpc = version;
  id = id;
  result = none;
  err = some (record {
    code = code_value invalid_request;
    message = ascii "Invalid Request";
    extra = none;
  });
}

-- `wire.get<M>()` inside the `try`: an exception gives the diagnostic.
abbrev pub converted {ℓ} :
    {M : Type ℓ} → (M → IncomingMessage) → Option M → Response → Expected IncomingMessage Response
converted wrap none failure = err failure
converted wrap (some m) failure = ok (wrap m)

-- A value with a method.
unfoldable pub decode_call : Json → Response → Expected IncomingMessage Response
decode_call wire failure =
    if not (member_is is_string wire (ascii "method"))
      || contains wire (ascii "result")
      || contains wire (ascii "error")
      || (contains wire (ascii "params")
          && not (member_is is_object wire (ascii "params"))
          && not (member_is is_array wire (ascii "params")))
    then err failure
    else if contains wire (ascii "id")
    then (if not (member_is is_request_id wire (ascii "id"))
        then err failure
        else converted a_request (request_from_json wire) failure)
    else converted a_notification (notification_from_json wire) failure

abbrev pub bool_eq : Bool → Bool → Bool
bool_eq true b = b
bool_eq false b = not b

-- A value without one.
unfoldable pub decode_reply : JsonLibrary → Json → Response → Expected IncomingMessage Response
unfolding is_wire_error
decode_reply lib wire failure =
    let has_result = contains wire (ascii "result") in
    let has_error = contains wire (ascii "error") in
    if not (contains wire (ascii "id"))
      || bool_eq has_result has_error
      || (not (member_is is_request_id wire (ascii "id"))
          && not (has_error && member_is is_null wire (ascii "id")))
      || (has_error && not (member_is is_wire_error wire (ascii "error")))
    then err failure
    else converted a_response (response_from_json lib wire) failure

unfoldable pub decode_message : JsonLibrary → Json → Expected IncomingMessage Response
decode_message lib wire =
    let failure = invalid (diagnostic_id wire) in
    if not (is_object wire)
    then err failure
    else if not (member_is (is_text version) wire (ascii "jsonrpc"))
    then err failure
    else if contains wire (ascii "method")
    then decode_call wire failure
    else decode_reply lib wire failure
