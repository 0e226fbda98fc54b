-- ===== src/Native/Kernel.antt =====
-- include/synapse/detail/stdio_posix.hpp: the calls of the system that set up and take down the
-- endpoints. What the calls answer is an argument, in their order; the descriptors that they gave
-- out, and those that were given to `close`, are counted in the state.
use synapse_mcp.Base.{ℕ, List, [], ◌∷◌, Option, none, some, Expected, ok, err, Bool, true, false}
use synapse_mcp.Native.Defs.{Errno, eintr}

-- What a call answers: one number, or the two ends of a pipe. A call that answers one number is read
-- in the first.
abbrev pub Answer : Type 0
Answer = Expected (ℕ × ℕ) Errno

pub record Kernel : Type 0 where
  pub answers : List Answer
  pub given : List ℕ  -- descriptors that a call answered
  pub closed : List ℕ
  pub changes : List (ℕ × ℕ)  -- flags that were set, the last change first

-- `none`: a call does not return.
abbrev pub M : Type 0 → Type 0
M A = Kernel → Option (A × Kernel)

abbrev pub pure : {A : Type 0} → A → M A
pure a k = some (a, k)

infixl 5 ◌>>=◌ ◌>>◌
abbrev pub ◌>>=◌ : {A B : Type 0} → M A → (A → M B) → M B
◌>>=◌ m f k = elim (m k) [ none ↦ none | some (a, k') ↦ f a k' ]

abbrev pub ◌>>◌ : {B : Type 0} → M (Unit {0}) → M B → M B
m >> n = m >>= λ _. n

-- `do { ... } while (result < 0 && errno == EINTR)`.
unfoldable pub retried : List Answer → Option (Answer × List Answer)
retried [] = none
retried (err eintr ∷ answers) = retried answers
retried (answer ∷ answers) = some (answer, answers)

abbrev pub after :
    (Answer → Kernel → Kernel) → Kernel → Option (Answer × List Answer) → Option (Answer × Kernel)
after effect k none = none
after effect k (some (answer, answers)) =
    some (answer, effect answer (record k { answers = answers }))

-- A call that is made until it is not interrupted, and its effect.
unfoldable pub call : (Answer → Kernel → Kernel) → M Answer
unfolding retried
call effect k = after effect k (retried k.answers)

abbrev pub give_one : Answer → Kernel → Kernel
give_one (ok (fd, _)) k = record k { given = fd ∷ k.given }
give_one (err _) k = k

abbrev pub give_two : Answer → Kernel → Kernel
give_two (ok (a, b)) k = record k { given = a ∷ b ∷ k.given }
give_two (err _) k = k

abbrev pub change : ℕ → ℕ → Answer → Kernel → Kernel
change fd flags (ok _) k = record k { changes = (fd, flags) ∷ k.changes }
change fd flags (err _) k = k

abbrev pub nothing : Answer → Kernel → Kernel
nothing _ k = k

abbrev pub number : Answer → Option ℕ
number (ok (n, _)) = some n
number (err _) = none

abbrev pub succeeded : Answer → Bool
succeeded (ok _) = true
succeeded (err _) = false

-- `none` is a negative result.
unfoldable pub duplicate : M (Option ℕ)
unfolding call
duplicate = do answer ← call give_one; pure (number answer)

unfoldable pub get_flags : M (Option ℕ)
unfolding call
get_flags = do answer ← call nothing; pure (number answer)

unfoldable pub set_flags : ℕ → ℕ → M Bool
unfolding call
set_flags fd flags = do answer ← call (change fd flags); pure (succeeded answer)

-- `fcntl(fd, F_SETFD, FD_CLOEXEC)`.
unfoldable pub set_cloexec : M Bool
unfolding call
set_cloexec = do answer ← call nothing; pure (succeeded answer)

abbrev pub close : ℕ → M (Unit {0})
close fd k = some (tt, record k { closed = fd ∷ k.closed })
