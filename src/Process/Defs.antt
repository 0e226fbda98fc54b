-- ===== src/Process/Defs.antt =====
-- include/synapse/process_transport.hpp: the reader, `send` and `stop` behind a successful start on
-- POSIX. What `read` returns is an argument; what the program does is in the state.
use synapse_mcp.Base.{
  ℕ, Bool, true, false, List, [], ◌∷◌, ◌++◌, Option, none, some, Bytes, ascii, ◌==◌, if◌then◌else◌,
  is_empty, Expected, ok, err, ◌>>=◌,
}
use synapse_mcp.Json.{Json, JsonLibrary, dump, ParseError}

pub record Process : Type 0 where
  pub running : Bool
  pub has_callback : Bool
  pub line : Bytes
  pub delivered : List Json  -- what the callback was given
  pub stop_requested : Bool
  pub stdin_open : Bool
  pub stdout_open : Bool
  pub child_running : Bool
  pub written : Bytes  -- what `write` was given

-- The constructor, in the parent: `pipe` and `fork` succeeded.
unfoldable pub new_process : Process
new_process = record {
  running = false;
  has_callback = false;
  line = [];
  delivered = [];
  stop_requested = false;
  stdin_open = true;
  stdout_open = true;
  child_running = true;
  written = [];
}

-- A second start, while the first one runs, does nothing. The flag says that a reader is started.
unfoldable pub start : Bool → Process → Process × Bool
start has_callback s = if s.running then (s, false) else (
  record s { running = true; has_callback = has_callback; stop_requested = false; line = [] },
  true,
)

-- A line that does not parse is dropped; the callback is one that returns.
abbrev pub deliver : Expected Json ParseError → Process → Process
deliver (err _) s = s
deliver (ok j) s = if s.has_callback then record s { delivered = s.delivered ++ j ∷ [] } else s

unfoldable pub end_line : JsonLibrary → Process → Process
end_line lib s = if is_empty s.line then s else record (deliver (lib.parse s.line) s) { line = [] }

-- One character.
unfoldable pub read_char : JsonLibrary → ℕ → Process → Process
unfolding end_line
read_char lib c s =
    if c == b'\n'
    then end_line lib s
    else if c == b'\r'
    then s
    else record s { line = s.line ++ c ∷ [] }

-- The reader, over the answers of `read`: `none` is the end of the file or an error. The stop flag is
-- what the loop's test sees; where the answers end, the reader waits.
unfoldable pub read_loop : JsonLibrary → List (Bool × Option ℕ) → Process → Process
unfolding read_char
read_loop lib [] s = s
read_loop lib ((stop, answer) ∷ answers) s =
    let ended = record s { running = false } in
    elim answer [
      | none ↦ ended
      | some c ↦ if stop then ended else read_loop lib answers (read_char lib c s)
    ]

unfoldable pub stop : Process → Process
stop s =
    if s.running
    then record s {
      running = false;
      stop_requested = true;
      stdin_open = false;
      stdout_open = false;
      child_running = false;
    }
    else s

-- `none` where `dump` throws.
unfoldable pub send : JsonLibrary → Json → Process → Option Process
send lib message s = do
  text ← dump lib message
  some (record s { written = s.written ++ text ++ ascii "\n" })
