-- ===== src/Native/Waiting.antt =====
-- include/synapse/detail/stdio_posix.hpp: when waiting, reading and writing succeed.
use synapse_mcp.Base.{
  ◌≡◌, ◌⊎◌, ℕ, Bool, true, false, not, ◌&&◌, List, [], ◌∷◌, some, Bytes, ascii, ◌==◌, any, Expected,
  ok, err, arith,
}
use synapse_mcp.Native.Defs.{
  Errno, eintr, eagain, epipe, other, State, Side, reading, writing, Ready, Turn, Round, answered,
  wait_turn, wait_ready, transfer, read_some, write_some,
}

abbrev pub is_go : Expected Ready Errno → Bool
is_go (err e) = false
is_go (ok r) = r.ready && not r.invalid

-- A turn that finds the endpoint ready, and that no stop is seen in.
abbrev pub is_go_turn : Turn → Bool
is_go_turn turn = not turn.stop_before && not turn.stop_after && is_go turn.poll

answered_go :
    (side : Side) (turn : Turn) (r : Expected Ready Errno) (s t : State)
    → answered side turn r s ≡ (t, some (ok tt))
    → (not turn.stop_after && is_go r) ≡ true
answered_go side turn (err eintr) s t h = cc
answered_go side turn (err eagain) s t h = cc
answered_go side turn (err epipe) s t h = cc
answered_go side turn (err other) s t h = cc
answered_go side turn (ok r) s t h = ground arith

wait_turn_go :
    (side : Side) (turn : Turn) (s t : State)
    → wait_turn side turn s ≡ (t, some (ok tt))
    → is_go_turn turn ≡ true
unfolding wait_turn
wait_turn_go side turn s t h = ground (arith, answered_go side turn turn.poll s t)

-- A wait succeeds only in a turn where `poll` found the endpoint valid and ready, and where neither
-- of the two tests saw a stop.
pub wait_ready-any :
    (side : Side) (turns : List Turn) (s t : State)
    → wait_ready side turns s ≡ (t, some (ok tt))
    → any is_go_turn turns ≡ true
unfolding wait_ready
wait_ready-any side [] s t h = cc
wait_ready-any side (turn ∷ turns) s t h =
    ground
      (arith, wait_turn_go side turn s t, wait_ready-any side turns (wait_turn side turn s).0 t)

-- A round whose wait succeeds and whose system call moved this many bytes.
abbrev pub is_transfer : ℕ → Round → Bool
is_transfer count round =
    any is_go_turn round.turns && (elim round.answer [ ok n ↦ n == count | err e ↦ false ])

transfer-any :
    (side : Side) (message : Bytes) (rounds : List Round) (s t : State) (count : ℕ)
    → transfer side message rounds s ≡ (t, some (ok count))
    → any (is_transfer count) rounds ≡ true
unfolding transfer
transfer-any side message [] s t count h = cc
transfer-any side message (round ∷ rounds) s t count h = ground (
  arith,
  wait_ready-any side round.turns s (wait_ready side round.turns s).0,
  transfer-any side message rounds (wait_ready side round.turns s).0 t count,
)

-- With a buffer that is not empty, a read or write that reports a count moved that many bytes in one
-- system call, on an endpoint that was ready while no stop was seen.
pub read_write-any :
    (guarded : Bool) (size : ℕ) (rounds : List Round) (s t : State) (count : ℕ)
    → (size == 0) ≡ false
    → (read_some size rounds s ≡ (t, some (ok count)))
      ⊎ (write_some guarded size rounds s ≡ (t, some (ok count)))
    → any (is_transfer count) rounds ≡ true
unfolding read_some write_some
read_write-any guarded size rounds s t count nonempty h = ground (
  arith,
  transfer-any reading (ascii "Native input read failed") rounds s t count,
  transfer-any writing (ascii "Native output write failed") rounds s t count,
)
