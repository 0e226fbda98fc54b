-- ===== src/Tests/Wire.antt =====
-- Messages, ids, the decoder and the policy: theorems applied to concrete messages.
use synapse_mcp.Base.{
  ◌≡◌, refl, ◌↔◌, ◌≢◌, min, pos, true, [], ◌∷◌, none, some, Bytes, ascii, ok, arith,
}
use synapse_mcp.Json.{object, end, dump}
use synapse_mcp.Protocol.{
  text, signed, unsigned, Request, Response, Notification, Resource, Prompt, request_to_json,
  request_from_json, response_to_json, response_from_json, notification_to_json,
  notification_from_json, tool_to_json, tool_from_json, a_request, version,
}
use synapse_mcp.Protocol
use synapse_mcp.RequestId
use synapse_mcp.Decoder.{decode_message, decode_call, decode_reply, diagnostic_id, is_request_id}
use synapse_mcp.Decoder
use synapse_mcp.Policy.{new_policy, consume, frame_fits, filter, valid_text}
use synapse_mcp.Policy
use synapse_mcp.Schema.{Engine, instance_mismatch, representable, validate}
use synapse_mcp.Schema
use synapse_mcp.Tests.Fixtures.{lib, int_laws, double, exact_laws, options, list_request, reply}

abbrev slash_a : Bytes
slash_a = 47 ∷ 97 ∷ []

abbrev silent : Engine
silent bytes = some []

abbrev mistyped : Engine
mistyped bytes =
    some (record { instance_location = slash_a; schema_fragment = []; keyword = ascii "type" } ∷ [])

same_request_id_iff_example : (RequestId.same_request_id (signed (pos 1)) (unsigned 1) ≡ true) ↔ (
    (RequestId.identity (signed (pos 1)) ≢ none)
    × (RequestId.identity (signed (pos 1)) ≡ RequestId.identity (unsigned 1)))
same_request_id_iff_example = RequestId.same_request_id_iff (signed (pos 1)) (unsigned 1)

response_from_json-to_json_example :
    response_from_json lib (response_to_json reply) ≡ some (Protocol.RoundTrip.canonical reply)
response_from_json-to_json_example =
    Protocol.RoundTrip.response_from_json-to_json lib int_laws reply tt

decode_message-IsRequest_example :
    (decode_message lib (request_to_json list_request) ≡ ok (a_request list_request))
    ↔ Decoder.Requests.IsRequest (request_to_json list_request) list_request
decode_message-IsRequest_example =
    Decoder.Requests.decode_message-IsRequest lib (request_to_json list_request) list_request

decode_message-request_to_json_example :
    decode_message lib (request_to_json list_request) ≡ ok (a_request list_request)
decode_message-request_to_json_example =
    Decoder.Requests.decode_message-request_to_json lib list_request refl (λ e. cc) tt

admitted-new_policy_example :
    Policy.Bucket.admitted double options 0 5 (new_policy double options) ≡ min 5 3
admitted-new_policy_example =
    Policy.Bucket.admitted-new_policy double options exact_laws 0 5 (omega arith)

validate_iff_example : (validate lib (some silent) (object end) ≡ ok tt) ↔ (
    (true ≡ true)
    × ((text : Bytes) × (dump lib (object end) ≡ some text) × (silent text ≡ some [])))
unfolding representable
validate_iff_example = Schema.Answers.validate_iff lib silent (object end)
