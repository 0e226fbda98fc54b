-- ===== src/Decoder/Requests.antt =====
-- include/synapse/detail/message_decoder.hpp: exactly which values are requests, and that a request
-- which was written is decoded again.
use synapse_mcp.Base.{
  sym, subst, ◌∙◌, ◌>>=◌, >>=-eq-some, ap, Option-cases, inl, inr, ◌≡◌, refl, Bool, true, false,
  ◌↔◌, Option, none, some, Bytes, ascii, bytes_eq, bytes_eq_iff, bytes_lt, ok, arith, ◌||◌, ◌≢◌,
}
use synapse_mcp.Json.{
  Json, string, object, member, contains, get_string, is_object, is_array, find_field, set_field,
  JsonLibrary,
}
use synapse_mcp.Protocol.RoundTrip.{read_json_rpc_id-id_to_json}
use synapse_mcp.Protocol.{
  id_to_json, Response, Request, a_request, version, read_json_rpc_id, request_from_json,
  request_to_json, null,
}
use synapse_mcp.Decoder.Defs.{
  is_request_id, decode_message, decode_call, decode_reply, diagnostic_id, invalid, member_is,
  is_text,
}

-- No parameters, or an object or an array of them.
abbrev pub IsParams : Option Json → Type 0
IsParams none = Unit
IsParams (some v) = (is_object v || is_array v) ≡ true

-- What JSON-RPC asks of a request object, member by member.
pub record IsRequest (wire : Json) (r : Request) : Type 0 where
  pub id_value : Json
  pub jsonrpc : member wire (ascii "jsonrpc") ≡ some (string version)
  pub same_version : r.jsonrpc ≡ version
  pub method : member wire (ascii "method") ≡ some (string r.method)
  pub id : member wire (ascii "id") ≡ some id_value
  pub id_kind : is_request_id id_value ≡ true
  pub same_id : r.id ≡ read_json_rpc_id id_value
  pub params : member wire (ascii "params") ≡ r.params
  pub params_kind : IsParams r.params
  pub no_result : member wire (ascii "result") ≡ none
  pub no_error : member wire (ascii "error") ≡ none

decode_of_IsRequest :
    (lib : JsonLibrary) (wire : Json) (r : Request)
    → IsRequest wire r
    → decode_message lib wire ≡ ok (a_request r)
unfolding decode_message decode_call request_from_json
decode_of_IsRequest lib (object fs) r w = ground (arith, bytes_eq_iff version version)
decode_of_IsRequest lib _ r w = cc (w.jsonrpc)

member_is-true :
    (p : Json → Bool) (j : Json) (k : Bytes)
    → member_is p j k ≡ true
    → (v : Json) × (member j k ≡ some v) × (p v ≡ true)
member_is-true p j k h = elim (Option-cases (member j k)) [
  | inl e ↦ absurd (ground arith)
  | inr (v, e) ↦ (v, e, ground arith)
]

is_text-eq : (s : Bytes) (v : Json) → is_text s v ≡ true → v ≡ string s
is_text-eq s (string t) h = ap string ((bytes_eq_iff t s).0 h)
is_text-eq s _ h = cc

-- What the tests of the decoder say of a value that it takes for a request.
record CallTests (wire : Json) : Type 0 where
  id : member_is is_request_id wire (ascii "id") ≡ true
  result : contains wire (ascii "result") ≡ false
  error : contains wire (ascii "error") ≡ false
  params : (p : Json) → member wire (ascii "params") ≡ some p → (is_object p || is_array p) ≡ true

decode_call_tests :
    (wire : Json) (f : Response) (r : Request)
    → decode_call wire f ≡ ok (a_request r)
    → CallTests wire × (request_from_json wire ≡ some r)
unfolding decode_call
decode_call_tests wire f r h = (
  record {
    id = ground arith;
    result = ground arith;
    error = ground arith;
    params = λ p e. ground arith;
  },
  ground arith,
)

decode_reply_not_request :
    (lib : JsonLibrary) (wire : Json) (f : Response) (r : Request)
    → decode_reply lib wire f ≢ ok (a_request r)
unfolding decode_reply
decode_reply_not_request lib wire f r h = ground arith

decode_tests :
    (lib : JsonLibrary) (wire : Json) (r : Request)
    → decode_message lib wire ≡ ok (a_request r)
    → (member_is (is_text version) wire (ascii "jsonrpc") ≡ true)
      × (decode_call wire (invalid (diagnostic_id wire)) ≡ ok (a_request r))
unfolding decode_message
decode_tests lib wire r h =
    let f = invalid (diagnostic_id wire) in
    (
      ground (arith, decode_reply_not_request lib wire f r),
      ground (arith, decode_reply_not_request lib wire f r),
    )

get_string-eq : (o : Option Json) (s : Bytes) → (o >>= get_string) ≡ some s → o ≡ some (string s)
get_string-eq none s h = cc
get_string-eq (some (string t)) s h = cc
get_string-eq (some _) s h = cc

IsParams-of_member :
    (o : Option Json) → ((p : Json) → o ≡ some p → (is_object p || is_array p) ≡ true) → IsParams o
IsParams-of_member none h = tt
IsParams-of_member (some p) h = h p refl

IsRequest-of_decode :
    (lib : JsonLibrary) (wire : Json) (r : Request)
    → decode_message lib wire ≡ ok (a_request r)
    → IsRequest wire r
unfolding request_from_json
IsRequest-of_decode lib wire r h =
    let (k, c) = decode_tests lib wire r h in
    let (t, e) = decode_call_tests wire _ r c in
    let (v, ev, tv) = member_is-true (is_text version) wire (ascii "jsonrpc") k in
    let (w, ew, tw) = member_is-true is_request_id wire (ascii "id") t.id in
    let ev' : member wire (ascii "jsonrpc") ≡ some (string version) =
      ev ∙ ap some (is_text-eq version v tv) in
    let (j, ej, e') = >>=-eq-some (member wire (ascii "jsonrpc") >>= get_string) _ e in
    let (m, em, e'') = >>=-eq-some (member wire (ascii "method") >>= get_string) _ e' in
    let ep : member wire (ascii "params") ≡ r.params = ground arith in
    record {
      id_value = w;
      jsonrpc = ev';
      same_version = ground arith;
      method = ground (arith, get_string-eq (member wire (ascii "method")) m em);
      id = ew;
      id_kind = tw;
      same_id = ground arith;
      params = ep;
      params_kind = subst IsParams ep (IsParams-of_member _ t.params);
      no_result = ground (arith, t.result);
      no_error = ground (arith, t.error);
    }

-- A value is decoded as the request `r` exactly when it is a request object with the members of `r`:
-- version 2.0, a text method, an id that is a text or an integer, structured parameters if any, and
-- neither a result nor an error.
pub decode_message-IsRequest :
    (lib : JsonLibrary) (wire : Json) (r : Request)
    → (decode_message lib wire ≡ ok (a_request r)) ↔ IsRequest wire r
decode_message-IsRequest lib wire r =
    (IsRequest-of_decode lib wire r, decode_of_IsRequest lib wire r)

IsRequest-request_to_json :
    (r : Request)
    → r.jsonrpc ≡ version
    → r.id ≢ null
    → IsParams r.params
    → IsRequest (request_to_json r) r
unfolding request_to_json id_to_json is_request_id find_field set_field ascii bytes_eq bytes_lt
IsRequest-request_to_json r v i p = record {
  id_value = id_to_json r.id;
  jsonrpc = ground arith;
  same_version = v;
  method = ground arith;
  id = ground arith;
  id_kind = ground arith;
  same_id = sym (read_json_rpc_id-id_to_json r.id);
  params = ground arith;
  params_kind = p;
  no_result = ground arith;
  no_error = ground arith;
}

-- A request of version 2.0 with an id and with structured parameters or none, once written, is
-- decoded as that request.
pub decode_message-request_to_json :
    (lib : JsonLibrary) (r : Request)
    → r.jsonrpc ≡ version
    → r.id ≢ null
    → IsParams r.params
    → decode_message lib (request_to_json r) ≡ ok (a_request r)
decode_message-request_to_json lib r v i p =
    decode_of_IsRequest lib (request_to_json r) r (IsRequest-request_to_json r v i p)
