-- ===== src/Base/Results.antt =====
-- `std::expected<A, E>`, and the chaining of calls that may fail.
use mathlib.Core.Path.{◌≡◌, refl}
use mathlib.Core.Logic.{◌⊎◌, inl, inr}
use mathlib.Core.Bool.{Bool, true, false}
use mathlib.Core.Option.{Option, none, some}

pub data Expected {ℓ κ} (A : Type ℓ) (E : Type κ) : Type (ℓ ⊔ κ) where
  ok : A → Expected A E
  err : E → Expected A E

-- `result.has_value()`.
abbrev pub is_ok {ℓ κ} : {A : Type ℓ} {E : Type κ} → Expected A E → Bool
is_ok (ok a) = true
is_ok (err e) = false

-- Calls that may throw return an `Option`; `none` is the exception.
infixl 5 ◌>>=◌
abbrev pub ◌>>=◌ {ℓ κ} : {A : Type ℓ} {B : Type κ} → Option A → (A → Option B) → Option B
none >>= f = none
some a >>= f = f a

-- Inversion of a chain that succeeds.
pub >>=-eq-some {ℓ κ} :
    {A : Type ℓ} {B : Type κ} (m : Option A) (f : A → Option B) {b : B}
    → (m >>= f) ≡ some b
    → (a : A) × (m ≡ some a) × (f a ≡ some b)
>>=-eq-some none f h = cc
>>=-eq-some (some a) f h = (a, refl, h)

-- To split on a computed result and keep the equation.
pub Expected-cases {ℓ κ} :
    {A : Type ℓ} {E : Type κ} (r : Expected A E) → ((a : A) × (r ≡ ok a)) ⊎ ((e : E) × (r ≡ err e))
Expected-cases (ok a) = inl (a, refl)
Expected-cases (err e) = inr (e, refl)
