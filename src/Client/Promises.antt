-- ===== src/Client/Promises.antt =====
-- include/synapse/client.hpp: the promises of a client.
use synapse_mcp.Base.{
  ◌≡◌, refl, subst, inl, inr, ℕ, suc, ◌+◌, ◌<◌, ℤ, pos, negsuc, int_eq, int_eq_iff, Bool, false,
  ◌&&◌, List, [], ◌∷◌, ◌++◌, Option, none, some, Bytes, ascii, if◌then◌else◌, ltb, Expected,
  Bool-cases, Option-cases, arith,
}
use synapse_mcp.Json.{Json, number_unsigned, contains, member, JsonLibrary}
use synapse_mcp.Protocol.{
  Request, request_from_json, RpcId, text, signed, unsigned, null, Response, Error,
  response_from_json, read_json_rpc_id,
}
use synapse_mcp.Client.Defs.{
  Client, next_int64, has_promise, emplace_promise, erase_promise, send_request, settle,
  handle_request, RequestHandler, answer, no_handler, handle_response, handle_message, outcome,
}

-- How often an id stands in a list.
abbrev pub count : ℤ → List ℤ → ℕ
count id [] = 0
count id (j ∷ ids) = let rest = count id ids in if int_eq id j then suc rest else rest

abbrev pub settled_ids : List (ℤ × Expected Json Error) → List ℤ
settled_ids [] = []
settled_ids ((id, o) ∷ os) = id ∷ settled_ids os

-- The ids that were given out before `next`.
abbrev pub is_given : ℕ → ℤ → Bool
is_given next (pos n) = ltb 0 n && ltb n next
is_given next (negsuc n) = false

-- Each id that was given out has a promise that waits or one that was settled, once, and no other
-- id has one.
abbrev pub IsExact : ℕ → Client → Type 0
IsExact next s =
    (s.next_id ≡ pos next)
    × ((id : ℤ)
        → count id s.promises + count id (settled_ids s.settled)
          ≡ (if is_given next id then 1 else 0))

count-erase_promise :
    (id j : ℤ) (ids : List ℤ)
    → count j (erase_promise id ids) ≡ (if int_eq j id then 0 else count j ids)
count-erase_promise id j [] = ground arith
count-erase_promise id j (k ∷ ids) =
    ground (arith, count-erase_promise id j ids, int_eq_iff id k, int_eq_iff j k, int_eq_iff j id)

count-append :
    (id j : ℤ) (o : Expected Json Error) (os : List (ℤ × Expected Json Error))
    → count id (settled_ids (os ++ (j, o) ∷ []))
      ≡ (if int_eq id j then suc (count id (settled_ids os)) else count id (settled_ids os))
count-append id j o [] = refl
count-append id j o ((k, p) ∷ os) = ground (arith, count-append id j o os)

count-has_promise : (id : ℤ) (ids : List ℤ) → has_promise id ids ≡ ltb 0 (count id ids)
count-has_promise id [] = refl
count-has_promise id (j ∷ ids) = ground (arith, count-has_promise id ids)

pub send_request-IsExact :
    (next : ℕ) (method : Bytes) (params : Option Json) (s : Client)
    → 0 < next
    → next < 9223372036854775807
    → IsExact next s
    → IsExact (suc next) (send_request method params s)
unfolding send_request next_int64 emplace_promise
send_request-IsExact next method params s positive small (e, h) = (
  ground arith,
  λ id. ground (
    arith,
    h id,
    h (pos next),
    e,
    count-has_promise (pos next) s.promises,
    int_eq_iff id (pos next),
  ),
)

settle-IsExact :
    (next : ℕ) (id : ℤ) (res : Response) (s : Client)
    → IsExact next s
    → IsExact next (settle id res s)
unfolding settle
settle-IsExact next id res s (e, h) = (
  ground arith,
  λ j. ground (
    arith,
    h j,
    h id,
    count-has_promise id s.promises,
    count-erase_promise id j s.promises,
    count-append j id (outcome res) s.settled,
    int_eq_iff j id,
  ),
)

-- What a request of the server changes is none of it.
handle_request-IsExact :
    (next : ℕ) (req : Request) (s : Client) → IsExact next s → IsExact next (handle_request req s)
unfolding handle_request
handle_request-IsExact next req s h = answered s.request_handler
  where
    answered :
        (handler : Option RequestHandler)
        → IsExact next (elim handler [
          | some _ ↦ record s { threads = s.threads ++ req ∷ [] }
          | none ↦ record s { sent = s.sent ++ answer req.id none (some no_handler) ∷ [] }
        ])
    answered none = h
    answered (some f) = h

handle_response-IsExact :
    (next : ℕ) (res : Response) (s : Client) → IsExact next s → IsExact next (handle_response res s)
unfolding handle_response
handle_response-IsExact next res s h = answered res.id
  where
    answered : (id : RpcId) → IsExact next (elim id [ signed i ↦ settle i res s | _ ↦ s ])
    answered (text b) = h
    answered (signed i) = settle-IsExact next i res s h
    answered (unsigned n) = h
    answered null = h

pub handle_message-IsExact :
    (next : ℕ) (lib : JsonLibrary) (msg : Json) (s t : Client)
    → IsExact next s
    → handle_message lib msg s ≡ some t
    → IsExact next t
unfolding handle_message
handle_message-IsExact next lib msg s t h e = elim (Bool-cases (contains msg (ascii "id"))) [
  | inr no_id ↦ subst (IsExact next) {x = s} {y = t} (ground arith) h
  | inl with_id ↦ elim (Bool-cases (contains msg (ascii "method"))) [
    | inl call ↦ elim (Option-cases (request_from_json msg)) [
      | inl bad ↦ subst (IsExact next) {x = s} {y = t} (ground arith) h
      | inr (req, parsed) ↦
          subst (IsExact next) {x = handle_request req s} {y = t} (ground arith)
            (handle_request-IsExact next req s h)
    ]
    | inr is_answer ↦ elim (Option-cases (response_from_json lib msg)) [
      | inl bad ↦ subst (IsExact next) {x = s} {y = t} (ground arith) h
      | inr (res, parsed) ↦
          subst (IsExact next) {x = handle_response res s} {y = t} (ground arith)
            (handle_response-IsExact next res s h)
    ]
  ]
]

response-id :
    (lib : JsonLibrary) (msg v : Json) (res : Response)
    → response_from_json lib msg ≡ some res
    → member msg (ascii "id") ≡ some v
    → res.id ≡ read_json_rpc_id v
unfolding response_from_json
response-id lib msg v res parsed e = ground arith

handle_response_unsigned :
    (res : Response) (n : ℕ) (s : Client) → res.id ≡ unsigned n → handle_response res s ≡ s
unfolding handle_response
handle_response_unsigned res n s e = ground arith

-- A message that is not a call, that parses as a response, and whose id is a JSON number that the
-- library holds unsigned leaves the client as it is, whatever promises wait.
pub handle_message_unsigned :
    (lib : JsonLibrary) (msg : Json) (res : Response) (n : ℕ) (s : Client)
    → contains msg (ascii "method") ≡ false
    → response_from_json lib msg ≡ some res
    → member msg (ascii "id") ≡ some (number_unsigned n)
    → handle_message lib msg s ≡ some s
unfolding handle_message read_json_rpc_id
handle_message_unsigned lib msg res n s response parsed e =
    ground (
      arith,
      response-id lib msg (number_unsigned n) res parsed e,
      handle_response_unsigned res n s,
    )
