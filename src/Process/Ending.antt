-- ===== src/Process/Ending.antt =====
-- include/synapse/process_transport.hpp: `stop` behind the end of the reader.
use synapse_mcp.Base.{
  ℕ, ◌≡◌, refl, Bool, false, List, [], ◌∷◌, Option, none, some, arith, Expected, ok, err,
}
use synapse_mcp.Json.{Json, JsonLibrary, ParseError}
use synapse_mcp.Process.Defs.{Process, deliver, read_char, read_loop, stop}

-- The child and the two descriptors are as they were.
abbrev pub IsUntouched : Process → Process → Type 0
IsUntouched s t =
    (t.child_running ≡ s.child_running)
    × (t.stdin_open ≡ s.stdin_open)
    × (t.stdout_open ≡ s.stdout_open)

deliver-IsUntouched : (r : Expected Json ParseError) (s : Process) → IsUntouched s (deliver r s)
deliver-IsUntouched (err e) s = (refl, refl, refl)
deliver-IsUntouched (ok j) s = ground arith

read_char-IsUntouched :
    (lib : JsonLibrary) (c : ℕ) (s : Process) → IsUntouched s (read_char lib c s)
unfolding read_char
read_char-IsUntouched lib c s = ground (arith, deliver-IsUntouched (lib.parse s.line) s)

read_loop-IsUntouched :
    (lib : JsonLibrary) (answers : List (Bool × Option ℕ)) (s : Process)
    → IsUntouched s (read_loop lib answers s)
unfolding read_loop
read_loop-IsUntouched lib [] s = (refl, refl, refl)
read_loop-IsUntouched lib ((stop, none) ∷ answers) s = (refl, refl, refl)
read_loop-IsUntouched lib ((stop, some c) ∷ answers) s =
    ground
      (arith, read_loop-IsUntouched lib answers (read_char lib c s), read_char-IsUntouched lib c s)

-- Once the reader has ended by itself, `stop` neither ends the child nor waits for it, and it leaves
-- both descriptors open.
pub read_loop-stop :
    (lib : JsonLibrary) (answers : List (Bool × Option ℕ)) (s : Process)
    → (read_loop lib answers s).running ≡ false
    → IsUntouched s (stop (read_loop lib answers s))
unfolding stop
read_loop-stop lib answers s ended = ground (arith, read_loop-IsUntouched lib answers s)
