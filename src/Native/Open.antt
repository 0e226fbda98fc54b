-- ===== src/Native/Open.antt =====
-- include/synapse/detail/stdio_posix.hpp: `open`, and the destructor of the state. A descriptor of -1
-- is `none`.
use synapse_mcp.Base.{
  ℕ, Bool, true, false, ◌&&◌, Option, none, some, Bytes, ascii, is_some, ◌==◌, if◌then◌else◌,
  Expected, ok, err,
}
use Prim.Native.Nat.{bit_and, bit_or}
use synapse_mcp.Handlers.{SdkError}
use synapse_mcp.Native.Defs.{failure}
use synapse_mcp.Native.Kernel.{
  Answer, M, pure, ◌>>=◌, ◌>>◌, call, give_two, duplicate, get_flags, set_flags, set_cloexec, close,
}

pub record Endpoints : Type 0 where
  pub input : Option ℕ
  pub output : Option ℕ
  pub input_flags : Option ℕ
  pub output_flags : Option ℕ
  pub input_changed : Bool
  pub output_changed : Bool
  pub read_wake : Option (ℕ × ℕ)
  pub write_wake : Option (ℕ × ℕ)

abbrev pub no_endpoints : Endpoints
no_endpoints = record {
  input = none;
  output = none;
  input_flags = none;
  output_flags = none;
  input_changed = false;
  output_changed = false;
  read_wake = none;
  write_wake = none;
}

-- A step of `open`: what the state becomes, and the message of the failure.
abbrev pub Outcome : Type 0
Outcome = Endpoints × Option Bytes

abbrev pub message_unless : Bool → Bytes → Option Bytes
message_unless true message = none
message_unless false message = some message

unfoldable pub open_input : Endpoints → M Outcome
open_input v = do
  fd ← duplicate
  pure
      (record v { input = fd }, message_unless (is_some fd) (ascii "Cannot duplicate native input"))

unfoldable pub open_output : Endpoints → M Outcome
open_output v = do
  fd ← duplicate
  pure (
    record v { output = fd },
    message_unless (is_some fd) (ascii "Cannot duplicate native output"),
  )

unfoldable pub read_flags : Endpoints → M Outcome
read_flags v = do
  input ← get_flags
  output ← get_flags
  pure (
    record v { input_flags = input; output_flags = output },
    message_unless (is_some input && is_some output) (ascii "Cannot configure native I/O"),
  )

-- `nonblock` is O_NONBLOCK.
unfoldable pub mark_end : ℕ → ℕ → M Bool
mark_end nonblock fd = do marked ← set_cloexec; if marked then set_flags fd nonblock else pure false

abbrev pub mark_ends : ℕ → Answer → M (Option (ℕ × ℕ) × Bool)
mark_ends nonblock (err _) = pure (none, false)
mark_ends nonblock (ok (a, b)) = do
  first ← mark_end nonblock a
  second ← if first then mark_end nonblock b else pure false
  pure (some (a, b), second)

unfoldable pub make_wake : ℕ → M (Option (ℕ × ℕ) × Bool)
unfolding mark_end
make_wake nonblock = do answer ← call give_two; mark_ends nonblock answer

unfoldable pub open_read_wake : ℕ → Endpoints → M Outcome
open_read_wake nonblock v = do
  made ← make_wake nonblock
  pure
      (record v { read_wake = made.0 }, message_unless made.1 (ascii "Cannot configure native I/O"))

unfoldable pub open_write_wake : ℕ → Endpoints → M Outcome
open_write_wake nonblock v = do
  made ← make_wake nonblock
  pure (
    record v { write_wake = made.0 },
    message_unless made.1 (ascii "Cannot configure native I/O"),
  )

-- Whether it succeeded, and whether the flags were changed. `fcntl` fails on -1.
unfoldable pub set_nonblock : ℕ → Option ℕ → Option ℕ → M (Bool × Bool)
set_nonblock nonblock (some fd) (some flags) =
    if bit_and flags nonblock == 0
    then (do done ← set_flags fd (bit_or flags nonblock); pure (done, done))
    else pure (true, false)
set_nonblock nonblock _ _ = pure (false, false)

unfoldable pub unblock_input : ℕ → Endpoints → M Outcome
unblock_input nonblock v = do
  done ← set_nonblock nonblock v.input v.input_flags
  pure (
    record v { input_changed = done.1 },
    message_unless done.0 (ascii "Cannot configure native input"),
  )

unfoldable pub unblock_output : ℕ → Endpoints → M Outcome
unblock_output nonblock v = do
  done ← set_nonblock nonblock v.output v.output_flags
  pure (
    record v { output_changed = done.1 },
    message_unless done.0 (ascii "Cannot configure native output"),
  )

-- A failure ends `open`.
abbrev pub proceed : (Endpoints → M Outcome) → Outcome → M Outcome
proceed next (v, none) = next v
proceed next (v, some message) = pure (v, some message)

unfoldable pub configure : ℕ → M Outcome
configure nonblock = do
  r₁ ← open_input no_endpoints
  r₂ ← proceed open_output r₁
  r₃ ← proceed read_flags r₂
  r₄ ← proceed (open_read_wake nonblock) r₃
  r₅ ← proceed (open_write_wake nonblock) r₄
  r₆ ← proceed (unblock_input nonblock) r₅
  proceed (unblock_output nonblock) r₆

unfoldable pub restore : Bool → Option ℕ → Option ℕ → M (Unit {0})
restore true (some fd) (some flags) = do done ← set_flags fd flags; pure tt
restore _ _ _ = pure tt

abbrev pub close_one : Option ℕ → M (Unit {0})
close_one none = pure tt
close_one (some fd) = close fd

abbrev pub close_two : Option (ℕ × ℕ) → M (Unit {0})
close_two none = pure tt
close_two (some (a, b)) = do close a; close b

-- `~state`.
unfoldable pub destroy : Endpoints → M (Unit {0})
unfolding restore
destroy v = do
  restore v.input_changed v.input v.input_flags
  restore v.output_changed v.output v.output_flags
  close_one v.input
  close_one v.output
  close_two v.read_wake
  close_two v.write_wake

-- A failure destroys what `open` has made so far.
abbrev pub finish : Outcome → M (Expected Endpoints SdkError)
finish (v, none) = pure (ok v)
finish (v, some message) = do destroy v; pure (failure message)

unfoldable pub open_endpoints : ℕ → M (Expected Endpoints SdkError)
unfolding configure destroy
open_endpoints nonblock = do r ← configure nonblock; finish r

-- `~posix_stdio`.
abbrev pub dispose : Expected Endpoints SdkError → M (Unit {0})
dispose (ok v) = destroy v
dispose (err e) = pure tt
