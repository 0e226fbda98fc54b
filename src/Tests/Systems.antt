-- ===== src/Tests/Systems.antt =====
-- The endpoints and the child process: theorems applied to concrete answers of the system.
use synapse_mcp.Base.{
  ℕ, count, ◌≢◌, ◌++◌, ◌+◌, ◌≡◌, ◌≤◌, refl, true, false, [], ◌∷◌, none, some, ascii, ok, err,
  Expected, arith,
}
use synapse_mcp.Handlers.{SdkError}
use synapse_mcp.Native.{Errno, eintr, eagain, epipe, State, Round, failure, wait_ready}
use synapse_mcp.Native.Kernel.{Kernel, duplicate}
use synapse_mcp.Native.Open.{Endpoints, open_input, open_output, open_endpoints}
use synapse_mcp.Native.Guard.{Signals, signals_after}
use synapse_mcp.Native
use synapse_mcp.Windows.{Side, open_pipes, new_system, request_stop}
use synapse_mcp.Windows
use synapse_mcp.Process.{read_loop, stop, new_process, Process}
use synapse_mcp.Process.Spawn.{spawn}
use synapse_mcp.Process.Handles.{open_child, stop_child, command_line}
use synapse_mcp.Process
use synapse_mcp.Tests.Fixtures.{lib, letter}

-- `dup` is interrupted once, gives out 5, and then fails for the output.
abbrev refusing : Kernel
refusing = record {
  answers = err eintr ∷ ok (5, 0) ∷ err eagain ∷ [];
  given = [];
  closed = [];
  changes = [];
}

abbrev refused : Kernel
refused = record { answers = []; given = 5 ∷ []; closed = 5 ∷ []; changes = [] }

open_endpoints-dispose_example : Native.Giving.Balanced Native.Open.no_endpoints refused
unfolding open_endpoints open_input duplicate open_output
open_endpoints-dispose_example =
    Native.Ownership.open_endpoints-dispose 2048 (failure (ascii "Cannot duplicate native output"))
      refusing refused refused (λ d. refl) refl refl

abbrev calm : Kernel
calm = record {
  answers =
      ok (5, 0)
      ∷ ok (6, 0)
      ∷ ok (0, 0)
      ∷ ok (0, 0)
      ∷ ok (7, 8)
      ∷ ok (0, 0)
      ∷ ok (0, 0)
      ∷ ok (0, 0)
      ∷ ok (0, 0)
      ∷ ok (9, 10)
      ∷ ok (0, 0)
      ∷ ok (0, 0)
      ∷ ok (0, 0)
      ∷ ok (0, 0)
      ∷ ok (0, 0)
      ∷ ok (0, 0)
      ∷ ok (0, 0)
      ∷ ok (0, 0)
      ∷ [];
  given = [];
  closed = [];
  changes = [];
}

open_endpoints_returns_example :
    (result : Expected Endpoints SdkError) × (l : Kernel) × (open_endpoints 2048 calm
      ≡ some (result, l))
    × (18 ≤ Native.Calls.usable l.answers + 18)
open_endpoints_returns_example = Native.Returning.open_endpoints_returns 2048 calm (omega arith)

abbrev quiet : Signals
quiet = record { blocked = false; pending = false }

abbrev streams : State
streams = record { input = 3; output = 4; stopped = false; read_wake = false; write_wake = false }

abbrev broken : Round
broken = record {
  turns =
      record {
        stop_before = false;
        poll = ok (record { woken = false; invalid = false; ready = true });
        stop_after = false;
      }
      ∷ [];
  answer = err epipe;
}

signals_after_lem_example : signals_after true true 8 (broken ∷ []) streams quiet ≡ some quiet
signals_after_lem_example = Native.Guard.signals_after_lem true true 8 (broken ∷ []) streams quiet

abbrev pipes : Windows.System
pipes = new_system (open_pipes true true (some 4) (some 8)).0

open_pipes-IsSafe_example :
    Windows.Safety.IsSafe (record pipes { owner = request_stop pipes.owner })
open_pipes-IsSafe_example =
    Windows.Safety.open_pipes-IsSafe true true (some 4) (some 8)
      (record pipes { owner = request_stop pipes.owner })
      (Windows.Reach.next Windows.Reach.here (Windows.Step.stops pipes))

spawn-held_example : (spawn (some (3, 4)) none (some 9)).0.closed ≡ []
unfolding spawn
spawn-held_example = Process.Spawn.spawn-held (some (3, 4)) none (some 9) 3

abbrev child : Process
child = record new_process { running = true }

read_loop-stop_example :
    Process.Ending.IsUntouched child (stop (read_loop lib ((false, none) ∷ []) child))
unfolding read_loop new_process
read_loop-stop_example = Process.Ending.read_loop-stop lib ((false, none) ∷ []) child refl

seven_not_null : ◌≢◌ {A = ℕ} 7 0
seven_not_null h = absurd (omega arith)

open_child-stop_child_example :
    1
    ≡ count 7
        (stop_child child
          (open_child
            (some (5, 6))
            true
            (some (7, 8))
            true
            (λ line. some (9, 10))
            letter
            (letter ∷ [])).0).1.closed
unfolding open_child stop_child new_process
open_child-stop_child_example =
    Process.Handles.open_child-stop_child (some (5, 6)) (some (7, 8)) true true
      (λ line. some (9, 10)) letter (letter ∷ []) 7 child seven_not_null refl

command_line-split_example :
    command_line letter ((letter ++ ascii " " ++ letter) ∷ [])
    ≡ command_line letter (letter ∷ letter ∷ [])
command_line-split_example = Process.Handles.command_line-split letter letter letter []
