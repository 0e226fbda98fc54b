-- ===== src/Native/Defs.antt =====
-- include/synapse/detail/stdio_posix.hpp: waiting, reading and writing. What the system calls return
-- is an argument, in the order of the calls; where the answers end, the call still waits (`none`).
use synapse_mcp.Base.{
  ℕ, Bool, true, false, not, List, [], ◌∷◌, Option, none, some, Bytes, ascii, ◌==◌, if◌then◌else◌,
  Expected, ok, err,
}
use synapse_mcp.Handlers.{SdkError, io_error, invalid_state}

-- The values of `errno` that the code tells apart; EWOULDBLOCK is EAGAIN.
pub data Errno : Type 0 where
  eintr eagain epipe other : Errno

abbrev pub failure {ℓ} : {A : Type ℓ} → Bytes → Expected A SdkError
failure message = err (record { code = io_error; message = message })

abbrev pub cancelled {ℓ} : {A : Type ℓ} → Expected A SdkError
cancelled = err (record { code = invalid_state; message = ascii "Native I/O stopped" })

-- The descriptors and what was changed in them; a wake pipe is its two ends, and whether it is
-- readable.
pub record State : Type 0 where
  pub input : ℕ
  pub output : ℕ
  pub stopped : Bool
  pub read_wake : Bool
  pub write_wake : Bool

pub data Side : Type 0 where
  reading writing : Side

abbrev pub set_wake : Side → Bool → State → State
set_wake reading b s = record s { read_wake = b }
set_wake writing b s = record s { write_wake = b }

-- `wake` writes a byte, `drain` reads until the pipe is empty.
unfoldable pub wake : Side → State → State
wake side s = set_wake side true s

unfoldable pub drain : Side → State → State
drain side s = set_wake side false s

unfoldable pub cancel_pending : State → State
unfolding wake
cancel_pending s = wake writing (wake reading s)

unfoldable pub request_stop : State → State
unfolding cancel_pending
request_stop s = cancel_pending (record s { stopped = true })

-- What `poll` reports: the wake pipe is readable, the endpoint is invalid (POLLNVAL), it is ready
-- (the events asked for, POLLHUP or POLLERR).
pub record Ready : Type 0 where
  pub woken : Bool
  pub invalid : Bool
  pub ready : Bool

-- A turn of the loop: what the two tests of `stopped` and the token see, and the answer of `poll`.
pub record Turn : Type 0 where
  pub stop_before : Bool
  pub poll : Expected Ready Errno
  pub stop_after : Bool

-- What a turn decides; `none` is another turn.
abbrev pub polled : Side → Turn → Ready → State → State × Option (Expected (Unit {0}) SdkError)
polled side turn r s =
    let drained = if r.woken then drain side s else s in
    if turn.stop_after
    then (drained, some cancelled)
    else if r.invalid
    then (drained, some (failure (ascii "Native I/O endpoint invalid")))
    else if r.ready
    then (drained, some (ok tt))
    else (drained, none)

abbrev pub answered :
    Side → Turn → Expected Ready Errno → State → State × Option (Expected (Unit {0}) SdkError)
answered side turn (err eintr) s = (s, none)
answered side turn (err _) s = (s, some (failure (ascii "Native I/O poll failed")))
answered side turn (ok r) s = polled side turn r s

unfoldable pub wait_turn : Side → Turn → State → State × Option (Expected (Unit {0}) SdkError)
unfolding drain
wait_turn side turn s =
    if turn.stop_before then (s, some cancelled) else answered side turn turn.poll s

unfoldable pub wait_ready : Side → List Turn → State → State × Option (Expected (Unit {0}) SdkError)
unfolding wait_turn
wait_ready side [] s = (s, none)
wait_ready side (turn ∷ turns) s =
    let (t, result) = wait_turn side turn s in
    elim result [ some r ↦ (t, some r) | none ↦ wait_ready side turns t ]

-- A round of `read_some` or `write_some`: the turns of its wait, and what the system call returns.
pub record Round : Type 0 where
  pub turns : List Turn
  pub answer : Expected ℕ Errno

abbrev pub is_transient : Errno → Bool
is_transient eintr = true
is_transient eagain = true
is_transient _ = false

abbrev pub is_epipe : Errno → Bool
is_epipe epipe = true
is_epipe _ = false

-- The count of a call, its error, or another round.
abbrev pub transferred : Bytes → Expected ℕ Errno → Option (Expected ℕ SdkError)
transferred message (ok count) = some (ok count)
transferred message (err e) = if is_transient e then none else some (failure message)

abbrev pub round_result :
    Bytes
    → Expected ℕ Errno
    → Option (Expected (Unit {0}) SdkError)
    → Option (Option (Expected ℕ SdkError))
round_result message answer none = none
round_result message answer (some (err e)) = some (some (err e))
round_result message answer (some (ok _)) = some (transferred message answer)

unfoldable pub transfer : Side → Bytes → List Round → State → State × Option (Expected ℕ SdkError)
transfer side message [] s = (s, none)
transfer side message (round ∷ rounds) s =
    let (t, waited) = wait_ready side round.turns s in
    elim (round_result message round.answer waited) [
      | none ↦ (t, none)
      | some (some r) ↦ (t, some r)
      | some none ↦ transfer side message rounds t
    ]

-- `size` is the size of the buffer.
unfoldable pub read_some : ℕ → List Round → State → State × Option (Expected ℕ SdkError)
unfolding transfer
read_some size rounds s =
    if size == 0
    then (s, some (ok 0))
    else transfer reading (ascii "Native input read failed") rounds s

-- `guarded`: SIGPIPE could be blocked for the thread.
unfoldable pub write_some : Bool → ℕ → List Round → State → State × Option (Expected ℕ SdkError)
unfolding transfer
write_some guarded size rounds s =
    if size == 0
    then (s, some (ok 0))
    else if not guarded
    then (s, some (failure (ascii "Cannot protect native output signal")))
    else transfer writing (ascii "Native output write failed") rounds s
