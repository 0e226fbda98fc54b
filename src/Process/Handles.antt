-- ===== src/Process/Handles.antt =====
-- include/synapse/process_transport.hpp on Windows: the constructor, `stop` and `send`. What the system
-- calls answer is an argument; `none` and `false` are failures. A handle is a number, and NULL is 0.
use synapse_mcp.Base.{
  take, count, ℕ, ◌+◌, ◌%◌, ◌^◌, ◌≡◌, ◌≢◌, refl, sym, ap, ◌∙◌, Bool, true, false, List, [], ◌∷◌,
  ◌++◌, Option, none, some, Bytes, ascii, length, ◌==◌, if◌then◌else◌, Expected, ok, err, arith,
  is_ok, append_assoc, ◌>>=◌,
}
use synapse_mcp.Json.{Json, JsonLibrary, dump}
use synapse_mcp.Process.Defs.{Process}

-- The members of the object, and the handles that the system gave out and that were given to
-- `CloseHandle`.
pub record Handles : Type 0 where
  pub in_write : ℕ
  pub in_read : ℕ
  pub out_write : ℕ
  pub out_read : ℕ
  pub given : List ℕ
  pub closed : List ℕ

abbrev pub no_handles : Handles
no_handles = record {
  in_write = 0;
  in_read = 0;
  out_write = 0;
  out_read = 0;
  given = [];
  closed = [];
}

unfoldable pub command_line : Bytes → List Bytes → Bytes
command_line cmdline [] = cmdline
command_line cmdline (arg ∷ args) = command_line (cmdline ++ ascii " " ++ arg) args

abbrev pub close_handle : ℕ → Handles → Handles
close_handle h s = record s { closed = h ∷ s.closed }

-- `CreateProcessA`, which gives out a handle of the process and one of its thread.
abbrev pub create_process : Option (ℕ × ℕ) → Handles → Handles × Expected (Unit {0}) Bytes
create_process none s = (s, err (ascii "CreateProcess failed"))
create_process (some (process, thread)) s =
    let created = record s { given = process ∷ thread ∷ s.given } in
    (
      close_handle s.in_read
          (close_handle s.out_write (close_handle thread (close_handle process created))),
      ok tt,
    )

abbrev pub open_input :
    Option (ℕ × ℕ) → Bool → Option (ℕ × ℕ) → Handles → Handles × Expected (Unit {0}) Bytes
open_input none inherits created s = (s, err (ascii "Stdin CreatePipe failed"))
open_input (some (read, write)) inherits created s =
    let opened = record s { in_read = read; in_write = write; given = read ∷ write ∷ s.given } in
    if inherits
    then create_process created opened
    else (opened, err (ascii "Stdin SetHandleInformation failed"))

abbrev pub open_output :
    Option (ℕ × ℕ)
    → Bool
    → Option (ℕ × ℕ)
    → Bool
    → Option (ℕ × ℕ)
    → Handles
    → Handles × Expected (Unit {0}) Bytes
open_output none inherits input input_inherits created s =
    (s, err (ascii "StdoutRd CreatePipe failed"))
open_output (some (read, write)) inherits input input_inherits created s =
    let opened = record s { out_read = read; out_write = write; given = read ∷ write ∷ s.given } in
    if inherits
    then open_input input input_inherits created opened
    else (opened, err (ascii "Stdout SetHandleInformation failed"))

-- The constructor: the pipes with their `SetHandleInformation`, and what `CreateProcessA` answers for a
-- command line.
unfoldable pub open_child :
    Option (ℕ × ℕ)
    → Bool
    → Option (ℕ × ℕ)
    → Bool
    → (Bytes → Option (ℕ × ℕ))
    → Bytes
    → List Bytes
    → Handles × Expected (Unit {0}) Bytes
unfolding command_line
open_child output output_inherits input input_inherits create command args =
    open_output output output_inherits input input_inherits (create (command_line command args))
      no_handles

abbrev pub close_output : Handles → Handles
close_output s = if s.out_read == 0 then s else record (close_handle s.out_read s) { out_read = 0 }

abbrev pub close_input : Handles → Handles
close_input s = if s.in_write == 0 then s else record (close_handle s.in_write s) { in_write = 0 }

-- `stop` closes the handles, and leaves the child to itself.
unfoldable pub stop_child : Process → Handles → Process × Handles
stop_child s h =
    if s.running
    then (
      record s { running = false; stop_requested = true; stdin_open = false; stdout_open = false },
      close_input (close_output h),
    )
    else (s, h)

-- What `WriteFile` is given: the length is cast to a `DWORD` of 32 bits. `none` where `dump` throws.
unfoldable pub send_child : JsonLibrary → Json → Process → Option Process
send_child lib message s = do
  text ← dump lib message
  let payload = text ++ ascii "\n"
  some (record s { written = s.written ++ take (length payload % 2 ^ 32) payload })

-- A child gets the same command line whether an argument has a space in it or is two arguments.
pub command_line-split :
    (command a b : Bytes) (args : List Bytes)
    → command_line command ((a ++ ascii " " ++ b) ∷ args) ≡ command_line command (a ∷ b ∷ args)
unfolding command_line
command_line-split command a b args =
    let gap = ascii " " in
    let front = command ++ gap in
    ap (λ cmdline. command_line cmdline args)
      (sym (append_assoc front (a ++ gap) b) ∙ ap (λ l. l ++ b) (sym (append_assoc front a gap)))

count-close :
    (d : ℕ) (s : Handles)
    → d ≢ 0
    → count d (close_input (close_output s)).closed
      ≡ (if d == s.in_write then 1 else 0) + (if d == s.out_read then 1 else 0) + count d s.closed
count-close d s nonzero = ground arith

-- What the constructor leaves, and `stop` behind a start.
abbrev pub IsClosed : ℕ → Handles × Expected (Unit {0}) Bytes → Type 0
IsClosed d (h, ok _) = count d h.given ≡ count d (close_input (close_output h)).closed
IsClosed d (h, err _) = h.closed ≡ []

open_output-IsClosed :
    (output input created : Option (ℕ × ℕ)) (out_ok in_ok : Bool) (d : ℕ)
    → d ≢ 0
    → IsClosed d (open_output output out_ok input in_ok created no_handles)
open_output-IsClosed none input created out_ok in_ok d nonzero = refl
open_output-IsClosed (some (a, b)) input created false in_ok d nonzero = refl
open_output-IsClosed (some (a, b)) none created true in_ok d nonzero = refl
open_output-IsClosed (some (a, b)) (some (c, e)) created true false d nonzero = refl
open_output-IsClosed (some (a, b)) (some (c, e)) none true true d nonzero = refl
open_output-IsClosed (some (a, b)) (some (c, e)) (some (p, t)) true true d nonzero =
    let h = (open_output (some (a, b)) true (some (c, e)) true (some (p, t)) no_handles).0 in
    omega (arith, count-close d h nonzero)

stop_child-running :
    (s : Process) (h : Handles)
    → s.running ≡ true
    → (stop_child s h).1 ≡ close_input (close_output h)
unfolding stop_child
stop_child-running s h running = ground arith

IsClosed-stop_child :
    (d : ℕ) (s : Process) (x : Handles × Expected (Unit {0}) Bytes)
    → s.running ≡ true
    → IsClosed d x
    → if is_ok x.1 then count d x.0.given ≡ count d (stop_child s x.0).1.closed else x.0.closed ≡ []
IsClosed-stop_child d s (h, ok _) running all =
    all ∙ ap (λ t. count d t.closed) (sym (stop_child-running s h running))
IsClosed-stop_child d s (h, err _) running all = all

-- A constructor that throws has closed no handle. One that succeeds, with a start and a `stop` behind
-- it while the reader runs, has closed each handle (other than NULL) as often as the system gave it out.
pub open_child-stop_child :
    (output input : Option (ℕ × ℕ)) (out_ok in_ok : Bool) (create : Bytes → Option (ℕ × ℕ))
    (command : Bytes) (args : List Bytes) (d : ℕ) (s : Process)
    → d ≢ 0
    → s.running ≡ true
    → let (h, r) = open_child output out_ok input in_ok create command args in
      if is_ok r then count d h.given ≡ count d (stop_child s h).1.closed else h.closed ≡ []
unfolding open_child
open_child-stop_child output input out_ok in_ok create command args d s nonzero running =
    IsClosed-stop_child d s (open_child output out_ok input in_ok create command args) running (
      open_output-IsClosed output input (create (command_line command args)) out_ok in_ok d nonzero)
