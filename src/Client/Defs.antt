-- ===== src/Client/Defs.antt =====
-- include/synapse/client.hpp: the state of a client, and what it does with a message. A promise is
-- named by its key; a detached thread that runs the handler is an entry of `threads`. The callback
-- that sends is one that returns: what it was given is `sent`.
use synapse_mcp.Base.{
  ℕ, suc, ◌+◌, ℤ, pos, negsuc, Bool, not, List, [], ◌∷◌, ◌++◌, Option, none, some, Bytes, ascii,
  int_eq, ◌==◌, if◌then◌else◌, Expected, ok, err, any, ◌>>=◌,
}
use synapse_mcp.Json.{Json, object, end, contains, JsonLibrary}
use synapse_mcp.Protocol.{
  RpcId, signed, Request, Notification, Response, Error, method_not_found, code_value, version,
  request_to_json, request_from_json, notification_to_json, response_to_json, response_from_json,
}

-- `none` is an exception.
abbrev pub RequestHandler : Type 0
RequestHandler = Bytes → Option Json → Option (Expected Json Error)

pub record Client : Type 0 where
  pub next_id : ℤ
  pub promises : List ℤ
  pub settled : List (ℤ × Expected Json Error)  -- what the promises were set to
  pub sent : List Json
  pub threads : List Request
  pub request_handler : Option RequestHandler

unfoldable pub new_client : Client
new_client = record {
  next_id = pos 1;
  promises = [];
  settled = [];
  sent = [];
  threads = [];
  request_handler = none;
}

abbrev pub set_request_handler : Option RequestHandler → Client → Client
set_request_handler handler s = record s { request_handler = handler }

-- `next_id_++` on an `std::atomic<int64_t>`, which wraps around.
unfoldable pub next_int64 : ℤ → ℤ
next_int64 (pos n) = if n == 9223372036854775807 then negsuc n else pos (n + 1)
next_int64 (negsuc ℕ.zero) = pos 0
next_int64 (negsuc (suc n)) = negsuc n

abbrev pub has_promise : ℤ → List ℤ → Bool
has_promise id ids = any (int_eq id) ids

-- `emplace`: a key that is there keeps its promise.
unfoldable pub emplace_promise : ℤ → List ℤ → List ℤ
emplace_promise id ids = if has_promise id ids then ids else id ∷ ids

abbrev pub erase_promise : ℤ → List ℤ → List ℤ
erase_promise id [] = []
erase_promise id (j ∷ ids) =
    let rest = erase_promise id ids in if int_eq id j then rest else j ∷ rest

-- The future that is returned belongs to the promise under the key `next_id`.
unfoldable pub send_request : Bytes → Option Json → Client → Client
unfolding next_int64 emplace_promise
send_request method params s =
    let req : Request = record {
      jsonrpc = version;
      id = signed s.next_id;
      method = method;
      params = params;
    } in
    record s {
      next_id = next_int64 s.next_id;
      promises = emplace_promise s.next_id s.promises;
      sent = s.sent ++ request_to_json req ∷ [];
    }

unfoldable pub send_notification : Bytes → Option Json → Client → Client
send_notification method params s =
    let note : Notification = record { jsonrpc = version; method = method; params = params } in
    record s { sent = s.sent ++ notification_to_json note ∷ [] }

abbrev pub answer : RpcId → Option Json → Option Error → Json
answer id result error =
    response_to_json (record { jsonrpc = version; id = id; result = result; err = error })

abbrev pub no_handler : Error
no_handler = record {
  code = code_value method_not_found;
  message = ascii "Client does not handle requests";
  extra = none;
}

-- A request of the server.
unfoldable pub handle_request : Request → Client → Client
handle_request req s = elim s.request_handler [
  | some _ ↦ record s { threads = s.threads ++ req ∷ [] }
  | none ↦ record s { sent = s.sent ++ answer req.id none (some no_handler) ∷ [] }
]

-- What a response sets its promise to.
unfoldable pub outcome : Response → Expected Json Error
outcome res = elim res.err [
  | some e ↦ err e
  | none ↦ elim res.result [ some v ↦ ok v | none ↦ ok (object end) ]
]

unfoldable pub settle : ℤ → Response → Client → Client
unfolding outcome
settle id res s =
    if has_promise id s.promises
    then record s {
      promises = erase_promise id s.promises;
      settled = s.settled ++ (id, outcome res) ∷ [];
    }
    else s

-- `std::holds_alternative<int64_t>(res.id)`.
unfoldable pub handle_response : Response → Client → Client
unfolding settle
handle_response res s = elim res.id [ signed id ↦ settle id res s | _ ↦ s ]

unfoldable pub handle_message : JsonLibrary → Json → Client → Option Client
unfolding handle_request handle_response
handle_message lib msg s =
    if not (contains msg (ascii "id"))
    then some s
    else if contains msg (ascii "method")
    then (do req ← request_from_json msg; some (handle_request req s))
    else do res ← response_from_json lib msg; some (handle_response res s)

-- The body of a detached thread, in front of the list of threads. The empty function object throws.
abbrev pub handler_answer : RpcId → Expected Json Error → Json
handler_answer id (ok v) = answer id (some v) none
handler_answer id (err e) = answer id none (some e)

unfoldable pub run_thread : Client → Option Client
run_thread s = elim s.threads [
  | [] ↦ some s
  | req ∷ threads ↦ do
    handler ← s.request_handler
    result ← handler req.method req.params
    some (record s { threads = threads; sent = s.sent ++ handler_answer req.id result ∷ [] })
]
