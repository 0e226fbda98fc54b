-- ===== src/Native/Returning.antt =====
-- include/synapse/detail/stdio_posix.hpp: `open` returns, and so does the destructor, once the system
-- answers eighteen calls without an interruption.
use synapse_mcp.Base.{
  ℕ, ◌+◌, ◌≤◌, ◌≡◌, refl, Bool, true, false, ◌∷◌, Option, none, some, arith, ◌==◌, Expected, ok,
}
use Prim.Native.Nat.{bit_and, bit_or}
use synapse_mcp.Handlers.{SdkError}
use synapse_mcp.Native.Kernel.{
  Kernel, M, pure, ◌>>=◌, call, give_two, duplicate, get_flags, set_flags, close,
}
use synapse_mcp.Native.Open.{
  Endpoints, no_endpoints, Outcome, proceed, open_input, open_output, read_flags, make_wake,
  open_read_wake, open_write_wake, set_nonblock, unblock_input, unblock_output, configure, restore,
  destroy, finish, open_endpoints, close_one, close_two,
}
use synapse_mcp.Native.Calls.{
  usable, Returns, pure-Returns, >>=-Returns, call-Returns, give_two-answers, duplicate-Returns,
  get_flags-Returns, set_flags-Returns, if-Returns, mark_ends-Returns,
}

make_wake-Returns : (nonblock : ℕ) → Returns 5 (make_wake nonblock)
unfolding make_wake
make_wake-Returns nonblock =
    >>=-Returns 1 4 5 (call give_two) _ (omega arith) (call-Returns give_two give_two-answers)
      (mark_ends-Returns nonblock)

set_nonblock-Returns :
    (nonblock : ℕ) (fd flags : Option ℕ) → Returns 1 (set_nonblock nonblock fd flags)
unfolding set_nonblock
set_nonblock-Returns nonblock none flags = pure-Returns (false, false) 1
set_nonblock-Returns nonblock (some fd) none = pure-Returns (false, false) 1
set_nonblock-Returns nonblock (some fd) (some flags) =
    if-Returns 1 (bit_and flags nonblock == 0) _ _
      (>>=-Returns 1 0 1 (set_flags fd (bit_or flags nonblock)) _ (omega arith)
        (set_flags-Returns fd (bit_or flags nonblock)) (λ done. pure-Returns _ 0))
      (pure-Returns (true, false) 1)

proceed-Returns :
    (n : ℕ) (stage : Endpoints → M Outcome) (r : Outcome)
    → ((v : Endpoints) → Returns n (stage v))
    → Returns n (proceed stage r)
proceed-Returns n stage (v, none) s = s v
proceed-Returns n stage (v, some message) s = pure-Returns (v, some message) n

mapped-Returns :
    {A B : Type 0} (n : ℕ) (m : M A) (f : A → B) → Returns n m → Returns n (m >>= λ a. pure (f a))
mapped-Returns n m f r = >>=-Returns n 0 n m _ (omega arith) r (λ a. pure-Returns (f a) 0)

read_flags-Returns : (v : Endpoints) → Returns 2 (read_flags v)
unfolding read_flags
read_flags-Returns v =
    >>=-Returns 1 1 2 get_flags _ (omega arith) get_flags-Returns
      (λ input. mapped-Returns 1 get_flags _ get_flags-Returns)

configure-Returns : (nonblock : ℕ) → Returns 16 (configure nonblock)
unfolding configure open_input open_output open_read_wake open_write_wake unblock_input
    unblock_output
configure-Returns nonblock =
    >>=-Returns 1 15 16 (open_input no_endpoints) _ (omega arith)
      (mapped-Returns 1 duplicate _ duplicate-Returns)
      λ r₁.
        >>=-Returns 1 14 15 (proceed open_output r₁) _ (omega arith)
          (proceed-Returns 1 open_output r₁ (λ v. mapped-Returns 1 duplicate _ duplicate-Returns))
          λ r₂.
            >>=-Returns 2 12 14 (proceed read_flags r₂) _ (omega arith)
              (proceed-Returns 2 read_flags r₂ read_flags-Returns)
              λ r₃.
                >>=-Returns 5 7 12 (proceed (open_read_wake nonblock) r₃) _ (omega arith)
                  (proceed-Returns 5 (open_read_wake nonblock) r₃
                    (λ v. mapped-Returns 5 (make_wake nonblock) _ (make_wake-Returns nonblock)))
                  λ r₄.
                    >>=-Returns 5 2 7 (proceed (open_write_wake nonblock) r₄) _ (omega arith)
                      (proceed-Returns 5 (open_write_wake nonblock) r₄
                        (λ v. mapped-Returns 5 (make_wake nonblock) _ (make_wake-Returns nonblock)))
                      λ r₅.
                        >>=-Returns 1 1 2 (proceed (unblock_input nonblock) r₅) _ (omega arith)
                          (proceed-Returns 1 (unblock_input nonblock) r₅ (λ v.
                            mapped-Returns 1 (set_nonblock nonblock v.input v.input_flags) _
                              (set_nonblock-Returns nonblock v.input v.input_flags)))
                          λ r₆. proceed-Returns 1 (unblock_output nonblock) r₆ (λ v.
                            mapped-Returns 1 (set_nonblock nonblock v.output v.output_flags) _
                              (set_nonblock-Returns nonblock v.output v.output_flags))

restore-Returns : (changed : Bool) (fd flags : Option ℕ) → Returns 1 (restore changed fd flags)
unfolding restore
restore-Returns false fd flags = pure-Returns tt 1
restore-Returns true none flags = pure-Returns tt 1
restore-Returns true (some fd) none = pure-Returns tt 1
restore-Returns true (some fd) (some flags) =
    mapped-Returns 1 (set_flags fd flags) _ (set_flags-Returns fd flags)

close-Returns : (fd : ℕ) → Returns 0 (close fd)
close-Returns fd k h = (tt, record k { closed = fd ∷ k.closed }, refl, omega arith)

close_one-Returns : (fd : Option ℕ) → Returns 0 (close_one fd)
close_one-Returns none = pure-Returns tt 0
close_one-Returns (some fd) = close-Returns fd

close_two-Returns : (ends : Option (ℕ × ℕ)) → Returns 0 (close_two ends)
close_two-Returns none = pure-Returns tt 0
close_two-Returns (some (a, b)) =
    >>=-Returns 0 0 0 (close a) _ (omega arith) (close-Returns a) (λ _. close-Returns b)

destroy-Returns : (v : Endpoints) → Returns 2 (destroy v)
unfolding destroy
destroy-Returns v =
    >>=-Returns 1 1 2 (restore v.input_changed v.input v.input_flags) _ (omega arith)
      (restore-Returns v.input_changed v.input v.input_flags)
      λ _.
        >>=-Returns 1 0 1 (restore v.output_changed v.output v.output_flags) _ (omega arith)
          (restore-Returns v.output_changed v.output v.output_flags)
          λ _.
            >>=-Returns 0 0 0 (close_one v.input) _ (omega arith) (close_one-Returns v.input) λ _.
              >>=-Returns 0 0 0 (close_one v.output) _ (omega arith) (close_one-Returns v.output)
                λ _.
                  >>=-Returns 0 0 0 (close_two v.read_wake) _ (omega arith)
                    (close_two-Returns v.read_wake) λ _. close_two-Returns v.write_wake

finish-Returns : (r : Outcome) → Returns 2 (finish r)
finish-Returns (v, none) = pure-Returns (ok v) 2
finish-Returns (v, some message) = mapped-Returns 2 (destroy v) _ (destroy-Returns v)

open_endpoints-Returns : (nonblock : ℕ) → Returns 18 (open_endpoints nonblock)
unfolding open_endpoints
open_endpoints-Returns nonblock =
    >>=-Returns 16 2 18 (configure nonblock) _ (omega arith) (configure-Returns nonblock)
      finish-Returns

-- `open` returns once the system answers eighteen calls without an interruption, however often it
-- interrupts them; and it uses up no more of these answers.
pub open_endpoints_returns :
    (nonblock : ℕ) (k : Kernel)
    → 18 ≤ usable k.answers
    → (result : Expected Endpoints SdkError) × (l : Kernel) × (open_endpoints nonblock k
        ≡ some (result, l))
      × (usable k.answers ≤ usable l.answers + 18)
open_endpoints_returns nonblock k h = open_endpoints-Returns nonblock k h
