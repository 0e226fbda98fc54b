-- ===== src/Native/Calls.antt =====
-- include/synapse/detail/stdio_posix.hpp: calls that return once the system answers often enough without
-- an interruption.
use synapse_mcp.Base.{
  ℕ, suc, ◌+◌, ◌≤◌, ◌≡◌, refl, Bool, true, false, List, [], ◌∷◌, none, some, arith, if◌then◌else◌,
  ok, err,
}
use synapse_mcp.Native.Defs.{eintr, eagain, epipe, other}
use synapse_mcp.Native.Kernel.{
  Answer, Kernel, M, pure, ◌>>=◌, retried, after, call, nothing, give_one, give_two, change,
  duplicate, get_flags, set_flags, set_cloexec,
}
use synapse_mcp.Native.Open.{mark_end, mark_ends}

-- How many answers are not interruptions.
abbrev pub usable : List Answer → ℕ
usable [] = 0
usable (err eintr ∷ answers) = usable answers
usable (_ ∷ answers) = suc (usable answers)

-- With `n` usable answers left, the calls return, and use up no more than these.
abbrev pub Returns : {A : Type 0} → ℕ → M A → Type 0
Returns {A} n m =
    (k : Kernel)
    → n ≤ usable k.answers
    → (a : A) × (l : Kernel) × (m k ≡ some (a, l)) × (usable k.answers ≤ usable l.answers + n)

pub pure-Returns : {A : Type 0} (a : A) (n : ℕ) → Returns n (pure a)
pure-Returns a n k h = (a, k, refl, omega arith)

pub >>=-Returns :
    {A B : Type 0} (n p q : ℕ) (m : M A) (f : A → M B)
    → n + p ≤ q
    → Returns n m
    → ((a : A) → Returns p (f a))
    → Returns q (m >>= f)
>>=-Returns n p q m f sum r s k h =
    let (a, j, e, left) = r k (omega arith) in
    let (b, l, g, left') = s a j (omega arith) in (b, l, rw (e, ◌>>=◌) g, omega arith)

pub retried-some :
    (answers : List Answer)
    → 1 ≤ usable answers
    → (answer : Answer) × (rest : List Answer) × (retried answers ≡ some (answer, rest))
      × (usable answers ≡ suc (usable rest))
unfolding retried
retried-some [] h = absurd (omega arith)
retried-some (err eintr ∷ answers) h = retried-some answers h
retried-some (err eagain ∷ answers) h = (err eagain, answers, refl, refl)
retried-some (err epipe ∷ answers) h = (err epipe, answers, refl, refl)
retried-some (err other ∷ answers) h = (err other, answers, refl, refl)
retried-some (ok a ∷ answers) h = (ok a, answers, refl, refl)

pub call-Returns :
    (effect : Answer → Kernel → Kernel)
    → ((answer : Answer) (k : Kernel) → (effect answer k).answers ≡ k.answers)
    → Returns 1 (call effect)
unfolding call
call-Returns effect same k h =
    let (answer, rest, e, one_less) = retried-some k.answers h in
    (
      answer,
      effect answer (record k { answers = rest }),
      rw (e, after),
      rw (same answer (record k { answers = rest })) (omega arith),
    )

pub give_one-answers : (answer : Answer) (k : Kernel) → (give_one answer k).answers ≡ k.answers
give_one-answers (ok (a, b)) k = refl
give_one-answers (err e) k = refl

pub give_two-answers : (answer : Answer) (k : Kernel) → (give_two answer k).answers ≡ k.answers
give_two-answers (ok (a, b)) k = refl
give_two-answers (err e) k = refl

pub change-answers :
    (fd flags : ℕ) (answer : Answer) (k : Kernel) → (change fd flags answer k).answers ≡ k.answers
change-answers fd flags (ok (a, b)) k = refl
change-answers fd flags (err e) k = refl

pub duplicate-Returns : Returns 1 duplicate
unfolding duplicate
duplicate-Returns =
    >>=-Returns 1 0 1 (call give_one) _ (omega arith) (call-Returns give_one give_one-answers)
      (λ a. pure-Returns _ 0)

pub get_flags-Returns : Returns 1 get_flags
unfolding get_flags
get_flags-Returns =
    >>=-Returns 1 0 1 (call nothing) _ (omega arith) (call-Returns nothing (λ a k. refl))
      (λ a. pure-Returns _ 0)

pub set_cloexec-Returns : Returns 1 set_cloexec
unfolding set_cloexec
set_cloexec-Returns =
    >>=-Returns 1 0 1 (call nothing) _ (omega arith) (call-Returns nothing (λ a k. refl))
      (λ a. pure-Returns _ 0)

pub set_flags-Returns : (fd flags : ℕ) → Returns 1 (set_flags fd flags)
unfolding set_flags
set_flags-Returns fd flags =
    >>=-Returns 1 0 1 (call (change fd flags)) _ (omega arith)
      (call-Returns (change fd flags) (change-answers fd flags)) (λ a. pure-Returns _ 0)

pub if-Returns :
    {A : Type 0} (n : ℕ) (b : Bool) (x y : M A)
    → Returns n x
    → Returns n y
    → Returns n (if b then x else y)
if-Returns n true x y r s = r
if-Returns n false x y r s = s

pub mark_end-Returns : (nonblock fd : ℕ) → Returns 2 (mark_end nonblock fd)
unfolding mark_end
mark_end-Returns nonblock fd =
    >>=-Returns 1 1 2 set_cloexec _ (omega arith) set_cloexec-Returns
      (λ marked. if-Returns 1 marked _ _ (set_flags-Returns fd nonblock) (pure-Returns false 1))

pub mark_ends-Returns : (nonblock : ℕ) (answer : Answer) → Returns 4 (mark_ends nonblock answer)
mark_ends-Returns nonblock (err e) = pure-Returns (none, false) 4
mark_ends-Returns nonblock (ok (a, b)) =
    >>=-Returns 2 2 4 (mark_end nonblock a) _ (omega arith) (mark_end-Returns nonblock a) (λ first.
      >>=-Returns 2 0 2 (if first then mark_end nonblock b else pure false) _ (omega arith)
        (if-Returns 2 first _ _ (mark_end-Returns nonblock b) (pure-Returns false 2))
        (λ second. pure-Returns _ 0))
