-- ===== src/Native/Giving.antt =====
-- include/synapse/detail/stdio_posix.hpp: the descriptors that the calls of `open` give out.
use synapse_mcp.Base.{
  count, ℕ, ◌+◌, ◌≡◌, inl, inr, Bool, Option, none, some, arith, ◌==◌, if◌then◌else◌, Option-cases,
}
use synapse_mcp.Native.Kernel.{Kernel, M, ◌>>=◌, call, duplicate, get_flags, set_flags, set_cloexec}
use synapse_mcp.Native.Open.{Endpoints, mark_end, make_wake, set_nonblock}

-- How often the endpoints hold a descriptor.
abbrev pub one : ℕ → Option ℕ → ℕ
one d none = 0
one d (some fd) = if d == fd then 1 else 0

abbrev pub two : ℕ → Option (ℕ × ℕ) → ℕ
two d none = 0
two d (some (a, b)) = (if d == a then 1 else 0) + (if d == b then 1 else 0)

abbrev pub held : ℕ → Endpoints → ℕ
held d v = one d v.input + one d v.output + two d v.read_wake + two d v.write_wake

abbrev pub Balanced : Endpoints → Kernel → Type 0
Balanced v k = (d : ℕ) → count d k.given ≡ count d k.closed + held d v

-- A call that gives out `n d` times the descriptor `d`, and closes none.
abbrev pub Gives : (ℕ → ℕ) → Kernel → Kernel → Type 0
Gives n k l =
    (d : ℕ) → (count d l.given ≡ n d + count d k.given) × (count d l.closed ≡ count d k.closed)

pub >>=-eq-some :
    {A B : Type 0} (m : M A) (f : A → M B) (k l : Kernel) {b : B}
    → (m >>= f) k ≡ some (b, l)
    → (a : A) × (j : Kernel) × (m k ≡ some (a, j)) × (f a j ≡ some (b, l))
>>=-eq-some m f k l h = elim (Option-cases (m k)) [
  | inl stuck ↦ absurd (ground arith)
  | inr ((a, j), e) ↦ (a, j, e, ground arith)
]

pub duplicate-Gives :
    (fd : Option ℕ) (k l : Kernel) → duplicate k ≡ some (fd, l) → Gives (λ d. one d fd) k l
unfolding duplicate
duplicate-Gives fd k l h d = ground arith

pub get_flags-Gives :
    (flags : Option ℕ) (k l : Kernel) → get_flags k ≡ some (flags, l) → Gives (λ d. 0) k l
unfolding get_flags
get_flags-Gives flags k l h d = ground arith

pub set_flags-Gives :
    (fd flags : ℕ) (done : Bool) (k l : Kernel)
    → set_flags fd flags k ≡ some (done, l)
    → Gives (λ d. 0) k l
unfolding set_flags
set_flags-Gives fd flags done k l h d = ground arith

pub mark_end-Gives :
    (nonblock fd : ℕ) (done : Bool) (k l : Kernel)
    → mark_end nonblock fd k ≡ some (done, l)
    → Gives (λ d. 0) k l
unfolding mark_end set_cloexec set_flags
mark_end-Gives nonblock fd done k l h d = ground arith

pub make_wake-Gives :
    (nonblock : ℕ) (wake : Option (ℕ × ℕ)) (done : Bool) (k l : Kernel)
    → make_wake nonblock k ≡ some ((wake, done), l)
    → Gives (λ d. two d wake) k l
unfolding make_wake call set_cloexec set_flags
make_wake-Gives nonblock wake done k l h d = ground arith

pub set_nonblock-Gives :
    (nonblock : ℕ) (fd flags : Option ℕ) (done changed : Bool) (k l : Kernel)
    → set_nonblock nonblock fd flags k ≡ some ((done, changed), l)
    → Gives (λ d. 0) k l
unfolding set_nonblock set_flags
set_nonblock-Gives nonblock none flags done changed k l h d = ground arith
set_nonblock-Gives nonblock (some fd) none done changed k l h d = ground arith
set_nonblock-Gives nonblock (some fd) (some flags) done changed k l h d = ground arith
