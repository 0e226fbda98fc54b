-- ===== src/Native/Guard.antt =====
-- include/synapse/detail/stdio_posix.hpp: `sigpipe_guard`, and what `write_some` does to the signals
-- of its thread.
use synapse_mcp.Base.{
  ℕ, ◌≡◌, Bool, true, false, not, List, [], ◌∷◌, Option, none, some, arith, ◌==◌, if◌then◌else◌,
  Expected, ok, err, ◌>>=◌,
}
use synapse_mcp.Handlers.{SdkError}
use synapse_mcp.Native.Defs.{Errno, State, writing, is_epipe, is_transient, wait_ready, Round}

-- SIGPIPE in a thread: whether the mask blocks it, and whether one is pending.
pub record Signals : Type 0 where
  pub blocked : Bool
  pub pending : Bool

pub record SigpipeGuard : Type 0 where
  pub active : Bool
  pub pending_before : Bool
  pub previous : Bool  -- whether the mask blocked it

abbrev pub inactive : SigpipeGuard
inactive = record { active = false; pending_before = false; previous = false }

-- The constructor; `masks` and `lists` say whether `pthread_sigmask` and `sigpending` succeed.
unfoldable pub protect : Bool → Bool → Signals → Signals × SigpipeGuard
protect masks lists s = if not masks then (s, inactive) else if not lists then (s, inactive) else (
  record s { blocked = true },
  record { active = true; pending_before = s.pending; previous = s.blocked },
)

unfoldable pub consume_new_signal : SigpipeGuard → Signals → Signals
consume_new_signal g s = if g.pending_before then s else record s { pending = false }

-- The destructor.
unfoldable pub release : SigpipeGuard → Signals → Signals
release g s = if g.active then record s { blocked = g.previous } else s

-- The system sends SIGPIPE to a thread whose write has no reader; `none`: it ends the process.
abbrev pub send_sigpipe : Signals → Option Signals
send_sigpipe s = if s.blocked then some (record s { pending = true }) else none

abbrev pub reaches : Option (Expected (Unit {0}) SdkError) → Expected ℕ Errno → Bool → Bool
reaches (some (ok _)) (err e) rest = if is_transient e then rest else is_epipe e
reaches _ _ rest = false

-- Whether a `write` of the loop answers EPIPE.
unfoldable pub meets_epipe : List Round → State → Bool
meets_epipe [] s = false
meets_epipe (round ∷ rounds) s =
    let (t, waited) = wait_ready writing round.turns s in
    reaches waited round.answer (meets_epipe rounds t)

abbrev pub written : SigpipeGuard → Bool → Signals → Option Signals
written g broken s =
    if broken
    then (do after ← send_sigpipe s; some (release g (consume_new_signal g after)))
    else some (release g s)

-- The signals behind `write_some`.
unfoldable pub signals_after : Bool → Bool → ℕ → List Round → State → Signals → Option Signals
unfolding protect consume_new_signal release meets_epipe
signals_after masks lists size rounds s signals =
    let (guarded, g) = protect masks lists signals in
    if size == 0
    then some signals
    else if not g.active
    then some (release g guarded)
    else written g (meets_epipe rounds s) guarded

-- A write never ends the process by SIGPIPE, and it leaves the mask of its thread and a signal that
-- was pending before as they were; a signal of its own is gone.
pub signals_after_lem :
    (masks lists : Bool) (size : ℕ) (rounds : List Round) (s : State) (signals : Signals)
    → signals_after masks lists size rounds s signals ≡ some signals
unfolding signals_after
signals_after_lem masks lists size rounds s signals = ground arith
