-- ===== src/Windows/Defs.antt =====
-- include/synapse/detail/stdio_windows.hpp: the state, the critical sections of a transfer, and
-- cancelling. A handle is a number; what the system answers is an argument.
use synapse_mcp.Base.{
  ℕ, ◌-◌, ◌^◌, suc, min, Bool, true, false, not, ◌||◌, List, [], ◌∷◌, Option, none, some, Bytes,
  ascii, ◌==◌, if◌then◌else◌, Expected, ok, err, any, is_some,
}
use synapse_mcp.Handlers.{SdkErrc, SdkError, io_error, invalid_state, unsupported_stdio}

abbrev pub failure {ℓ} : {A : Type ℓ} → SdkErrc → Bytes → Expected A SdkError
failure code message = err (record { code = code; message = message })

abbrev pub cancelled {ℓ} : {A : Type ℓ} → Expected A SdkError
cancelled = failure invalid_state (ascii "Native I/O stopped")

pub data Side : Type 0 where
  reading writing : Side

pub record Operation : Type 0 where
  pub thread : Option ℕ
  pub cancelled : Bool

-- `threads` are the thread handles that are open, `faults` counts the calls of CancelSynchronousIo
-- with any other, and `closed` lists the pipe handles that were closed.
pub record State : Type 0 where
  pub input : Option ℕ
  pub output : Option ℕ
  pub reader : Operation
  pub writer : Operation
  pub stopped : Bool
  pub threads : List ℕ
  pub cancels : List ℕ
  pub faults : ℕ
  pub closed : List ℕ

abbrev pub no_operation : Operation
no_operation = record { thread = none; cancelled = false }

abbrev pub no_state : State
no_state = record {
  input = none;
  output = none;
  reader = no_operation;
  writer = no_operation;
  stopped = false;
  threads = [];
  cancels = [];
  faults = 0;
  closed = [];
}

abbrev pub pending : Side → State → Operation
pending reading s = s.reader
pending writing s = s.writer

abbrev pub set_pending : Side → Operation → State → State
set_pending reading op s = record s { reader = op }
set_pending writing op s = record s { writer = op }

abbrev pub is_open : ℕ → State → Bool
is_open h s = any (λ i. i == h) s.threads

-- `CancelSynchronousIo`.
unfoldable pub cancel_io : ℕ → State → State
cancel_io h s = record s {
  cancels = h ∷ s.cancels;
  faults = if is_open h s then s.faults else suc s.faults;
}

abbrev pub cancel_thread : Option ℕ → State → State
cancel_thread none s = s
cancel_thread (some h) s = cancel_io h s

abbrev pub cancel_operation : Operation → State → State
cancel_operation op s = if s.stopped || op.cancelled then cancel_thread op.thread s else s

unfoldable pub cancel_locked : State → State
unfolding cancel_io
cancel_locked s = cancel_operation s.writer (cancel_operation s.reader s)

unfoldable pub request_stop : State → State
unfolding cancel_locked
request_stop s = cancel_locked (record s { stopped = true })

unfoldable pub cancel_pending : State → State
unfolding cancel_locked
cancel_pending s = cancel_locked s

-- The first critical section of `transfer`: `token` is `token.stop_requested()`, `handle` the answer
-- of DuplicateHandle.
unfoldable pub begin_transfer :
    Side → Bool → Option ℕ → State → State × Expected (Unit {0}) SdkError
begin_transfer side token handle s =
    if s.stopped || token
    then (s, cancelled)
    else if is_some (pending side s).thread
    then (s, failure invalid_state (ascii "Native I/O direction already active"))
    else elim handle [
      | none ↦ (s, failure io_error (ascii "Cannot duplicate native I/O thread"))
      | some h ↦ (
        set_pending side (record { thread = some h; cancelled = (pending side s).cancelled })
            (record s { threads = h ∷ s.threads }),
        ok tt,
      )
    ]

-- The stop callback.
unfoldable pub notify : Side → State → State
unfolding cancel_io
notify side s =
    cancel_thread (pending side s).thread
      (set_pending side (record { thread = (pending side s).thread; cancelled = true }) s)

-- The second critical section: whether the I/O is not made.
unfoldable pub is_refused : Side → Bool → State → Bool
is_refused side token s = s.stopped || (pending side s).cancelled || token

abbrev pub erase : ℕ → List ℕ → List ℕ
erase h [] = []
erase h (i ∷ is) = let rest = erase h is in if i == h then rest else i ∷ rest

abbrev pub close_thread : Option ℕ → State → State
close_thread none s = s
close_thread (some h) s = record s { threads = erase h s.threads }

-- `~complete_operation`.
unfoldable pub complete : Side → State → State
complete side s = set_pending side no_operation (close_thread (pending side s).thread s)

-- The errors that the code tells apart.
pub data WinError : Type 0 where
  operation_aborted broken_pipe pipe_not_connected more_data other : WinError

abbrev pub max_dword : ℕ
max_dword = 2 ^ 32 - 1

-- How much is asked for, of a buffer of `size` bytes.
unfoldable pub request_size : ℕ → ℕ
request_size size = min size max_dword

-- What `transfer` makes of the answer of ReadFile or WriteFile.
unfoldable pub transferred : Side → ℕ → Option WinError → Expected ℕ SdkError
transferred side count none = ok count
transferred side count (some operation_aborted) = cancelled
transferred reading count (some broken_pipe) = ok 0
transferred reading count (some pipe_not_connected) = ok 0
transferred reading count (some more_data) =
    if count == 0 then failure io_error (ascii "Native input read failed") else ok count
transferred reading count (some other) = failure io_error (ascii "Native input read failed")
transferred writing count (some _) = failure io_error (ascii "Native output write failed")

-- `transfer` with no other thread between its critical sections: what the token says at each, and the
-- answers of DuplicateHandle and of ReadFile or WriteFile.
unfoldable pub transfer :
    Side → ℕ → Bool → Bool → Option ℕ → ℕ × Option WinError → State → State × Expected ℕ SdkError
unfolding begin_transfer is_refused complete transferred
transfer side size token token' handle (count, error) s =
    let (t, begun) = begin_transfer side token handle s in
    if size == 0 then (s, ok 0) else elim begun [
      | err e ↦ (t, err e)
      | ok _ ↦ (
        complete side t,
        if is_refused side token' t then cancelled else transferred side count error,
      )
    ]

abbrev pub close_pipe : Option ℕ → State → State
close_pipe none s = s
close_pipe (some h) s = record s { closed = h ∷ s.closed }

abbrev pub is_active : State → Bool
is_active s = is_some s.reader.thread || is_some s.writer.thread

-- A round of the destructor: it cancels and waits again while an operation is active; then the
-- handles are closed, and it has ended (`true`).
unfoldable pub destroy_round : State → State × Bool
unfolding cancel_locked
destroy_round s =
    let stopping = record s { stopped = true } in
    if is_active stopping
    then (cancel_locked stopping, false)
    else (close_pipe s.output (close_pipe s.input stopping), true)

-- `open`: whether both streams are pipes, and the answers of DuplicateHandle. A failure destroys what
-- was made.
unfoldable pub open_pipes : Bool → Bool → Option ℕ → Option ℕ → State × Expected (Unit {0}) SdkError
unfolding destroy_round
open_pipes is_pipe_in is_pipe_out input output =
    if not is_pipe_in || not is_pipe_out
    then (no_state, failure unsupported_stdio (ascii "Native standard streams must be pipes"))
    else if not (is_some input)
    then ((destroy_round no_state).0, failure io_error (ascii "Cannot duplicate native input"))
    else if not (is_some output)
    then (
      (destroy_round (record no_state { input = input })).0,
      failure io_error (ascii "Cannot duplicate native output"),
    )
    else (record no_state { input = input; output = output }, ok tt)
