-- ===== src/Client/History.antt =====
-- include/synapse/client.hpp: what a client has been through.
use synapse_mcp.Base.{◌≡◌, refl, ◌<◌, ℕ, suc, Option, some, Bytes, int_eq, arith}
use synapse_mcp.Json.{Json, JsonLibrary}
use synapse_mcp.Client.Defs.{
  Client, RequestHandler, new_client, set_request_handler, send_request, send_notification,
  handle_message, run_thread,
}
use synapse_mcp.Client.Promises.{IsExact, send_request-IsExact, handle_message-IsExact}

-- The calls of the owner, the messages and the detached threads, in any order; `n` counts the
-- requests. A call that throws ends the history.
pub data Reach (lib : JsonLibrary) : ℕ → Client → Type 0 where
  begins : Reach lib 0 new_client
  configures :
      {n : ℕ} {s : Client} (handler : Option RequestHandler)
      → Reach lib n s
      → Reach lib n (set_request_handler handler s)
  requests :
      {n : ℕ} {s : Client} (method : Bytes) (params : Option Json)
      → Reach lib n s
      → Reach lib (suc n) (send_request method params s)
  notifies :
      {n : ℕ} {s : Client} (method : Bytes) (params : Option Json)
      → Reach lib n s
      → Reach lib n (send_notification method params s)
  receives :
      {n : ℕ} {s t : Client} (msg : Json)
      → Reach lib n s
      → handle_message lib msg s ≡ some t
      → Reach lib n t
  runs : {n : ℕ} {s t : Client} → Reach lib n s → run_thread s ≡ some t → Reach lib n t

new_client-IsExact : IsExact 1 new_client
unfolding new_client int_eq
new_client-IsExact = (refl, λ id. ground arith)

run_thread-kept :
    (s t : Client)
    → run_thread s ≡ some t
    → (t.next_id ≡ s.next_id) × (t.promises ≡ s.promises) × (t.settled ≡ s.settled)
unfolding run_thread
run_thread-kept s t e = ground arith

run_thread-IsExact :
    (next : ℕ) (s t : Client) → run_thread s ≡ some t → IsExact next s → IsExact next t
unfolding run_thread
run_thread-IsExact next s t e h =
    let (i, p, d) = run_thread-kept s t e in (cc, λ id. rw (p, d) (h.1 id))

-- Whatever the owner, the server and the handlers do: after `n` requests the next id is `n + 1`, and
-- each id from 1 to `n` has exactly one promise, which waits or was settled once; no other id has
-- any. The counter must not have come to its end.
pub Reach-IsExact :
    (lib : JsonLibrary) (n : ℕ) (s : Client)
    → n < 9223372036854775807
    → Reach lib n s
    → IsExact (suc n) s
unfolding send_notification
Reach-IsExact lib n s small begins = new_client-IsExact
Reach-IsExact lib n s small (configures handler r) = Reach-IsExact lib n _ small r
Reach-IsExact lib (suc n) s small (requests method params r) =
    send_request-IsExact (suc n) method params _ (omega arith) small
      (Reach-IsExact lib n _ (omega arith) r)
Reach-IsExact lib n s small (notifies method params r) = Reach-IsExact lib n _ small r
Reach-IsExact lib n s small (receives msg r e) =
    handle_message-IsExact (suc n) lib msg _ s (Reach-IsExact lib n _ small r) e
Reach-IsExact lib n s small (runs r e) =
    run_thread-IsExact (suc n) _ s e (Reach-IsExact lib n _ small r)
