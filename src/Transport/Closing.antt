-- ===== src/Transport/Closing.antt =====
-- include/synapse/transport.hpp: closing happens once, for one reason, and ends in a join.
use synapse_mcp.Base.{
  ℕ, List, not, is_ok, if◌then◌else◌, ◌≡◌, refl, ◌∙◌, Bool, true, false, Option, none, some, arith,
  ok, is_some,
}
use synapse_mcp.Json.{Json, JsonLibrary}
use synapse_mcp.Transport.Defs.{
  CloseReason, io_error, Transport, begin_close, claim_close, finish_close, join_round,
}
use synapse_mcp.Transport.Send.{send}
use synapse_mcp.Transport.Writer.{
  takes, write_take, write_count, write_answer, worker_leave, Step, sends, closes, claims, finishes,
  takes_frame, writes, leaves, Reach, here, next,
}

-- From `t` on: closing stays on, for the same reason, and a claim stays claimed.
record IsKept (t u : Transport) : Type 0 where
  closing : t.closing ≡ true → (u.closing ≡ true) × (u.reason ≡ t.reason)
  claimed : t.close_claimed ≡ true → u.close_claimed ≡ true

IsKept-refl : (t : Transport) → IsKept t t
IsKept-refl t = record { closing = λ h. (h, refl); claimed = λ h. h }

IsKept-trans : {t u v : Transport} → IsKept t u → IsKept u v → IsKept t v
IsKept-trans j k = record {
  closing = λ h. let (c, r) = j.closing h in let (c', r') = k.closing c in (c', r' ∙ r);
  claimed = λ h. k.claimed (j.claimed h);
}

begin_close-IsKept :
    (reason : CloseReason) (now : ℕ) (t : Transport) → IsKept t (begin_close reason now t)
unfolding begin_close
begin_close-IsKept reason now t = ground arith

send-IsKept : (lib : JsonLibrary) (message : Json) (t : Transport) → IsKept t (send lib message t).0
unfolding send
send-IsKept lib message t = ground arith

take_front-IsKept : (t u : Transport) (now : ℕ) → write_take now t ≡ takes u → IsKept t u
unfolding write_take
take_front-IsKept t u now h = ground arith

write_count-IsKept :
    (now : ℕ) (count : Option ℕ) (held : Option (List ℕ × ℕ)) (t : Transport)
    → IsKept t (write_count now count held t)
write_count-IsKept now count none t = IsKept-refl t
write_count-IsKept now none (some (f, offset)) t = begin_close-IsKept io_error now t
write_count-IsKept now (some n) (some (f, offset)) t =
    ground (arith, begin_close-IsKept io_error now t)

Step-IsKept : {lib : JsonLibrary} {t u : Transport} → Step lib t u → IsKept t u
unfolding claim_close finish_close worker_leave write_answer
Step-IsKept {lib} (sends t message) = send-IsKept lib message t
Step-IsKept (closes t reason now) = begin_close-IsKept reason now t
Step-IsKept (claims t) = ground arith
Step-IsKept (finishes t h) = ground arith
Step-IsKept (takes_frame t u now w h) = take_front-IsKept t u now h
Step-IsKept (writes t count now) = write_count-IsKept now count t.writing t
Step-IsKept (leaves t reading) = ground arith

Reach-IsKept : {lib : JsonLibrary} {t u : Transport} → Reach lib t u → IsKept t u
Reach-IsKept {t = t} here = IsKept-refl t
Reach-IsKept (next r s) = IsKept-trans (Reach-IsKept r) (Step-IsKept s)

-- Once a thread has closed the transport, it stays closed whatever any thread does, the reason stays
-- the one that was given first, and every later message is refused.
pub Reach-closing :
    (lib : JsonLibrary) (t u : Transport) (later : CloseReason) (now : ℕ) (message : Json)
    → t.closing ≡ true
    → Reach lib t u
    → (u.closing ≡ true)
      × (u.reason ≡ t.reason)
      × ((begin_close later now u).reason ≡ t.reason)
      × (is_ok (send lib message u).1 ≡ false)
unfolding begin_close send
Reach-closing lib t u later now message h r =
    let (c, e) = (Reach-IsKept r).closing h in (c, e, ground arith, ground arith)

-- The close callback is called for one thread at most: after a claim that got the reason, no claim
-- gets one, whatever happens between; and the reason is the one that was recorded.
claim_close_once :
    (lib : JsonLibrary) (t u : Transport) (reason : CloseReason)
    → (claim_close t).1 ≡ some reason
    → Reach lib (claim_close t).0 u
    → ((claim_close u).1 ≡ none) × (t.reason ≡ some reason)
unfolding claim_close
claim_close_once lib t u reason h r =
    let k : u.close_claimed ≡ true = (Reach-IsKept r).claimed (ground arith) in
    (ground arith, ground arith)

-- A worker's way out once its loop has returned: publish the close, then report itself done.
abbrev pub worker_exit : Bool → Transport → Transport
worker_exit reading t =
    let (claimed, reason) = claim_close t in
    worker_leave reading (if is_some reason then finish_close claimed else claimed)

-- After a close, once both workers have gone their way out in either order, an owner's join returns
-- at once, with or without a deadline.
pub worker_exit-join_round :
    (t : Transport) (reason : CloseReason) (now later : ℕ) (deadline : Option ℕ) (first : Bool)
    → t.close_claimed ≡ false
    → t.closing ≡ false
    → join_round false deadline later
        (worker_exit (not first) (worker_exit first (begin_close reason now t)))
      ≡ some (ok true)
unfolding begin_close claim_close finish_close worker_leave join_round
worker_exit-join_round t reason now later deadline first c d = ground arith
