-- ===== src/Policy/Double.antt =====
-- The arithmetic of `double` that include/synapse/detail/server_policy.hpp uses. The language fixes
-- no more of it than a type with operations: a parameter, with its laws apart.
use synapse_mcp.Base.{ℕ, suc, ◌≤◌, ◌≡◌, Bool, true, false}

pub record DoubleOps (D : Type 0) : Type 0 where
  pub of_size : ℕ → D  -- static_cast<double>
  pub seconds : ℕ → D  -- std::chrono::duration<double>(ticks).count()
  pub add : D → D → D
  pub mul : D → D → D
  pub sub : D → D → D
  pub lt : D → D → Bool
  pub is_finite : D → Bool

-- `std::min(a, b)`.
abbrev pub min_double : {D : Type 0} → DoubleOps D → D → D → D
min_double ops a b = elim (ops.lt b a) [ true ↦ b | false ↦ a ]

-- Whole numbers up to 2^53 are doubles, and subtracting 1 from one is exact (IEEE 754).
pub record ExactLaws {D : Type 0} (ops : DoubleOps D) : Type 0 where
  pub below_one : ops.lt (ops.of_size 0) (ops.of_size 1) ≡ true
  pub not_below_one :
      (n : ℕ) → suc n ≤ 9007199254740992 → ops.lt (ops.of_size (suc n)) (ops.of_size 1) ≡ false
  pub sub_one :
      (n : ℕ)
      → suc n ≤ 9007199254740992
      → ops.sub (ops.of_size (suc n)) (ops.of_size 1) ≡ ops.of_size n

-- The order is asymmetric, and taking 1 off a number does not raise it above a bound.
pub record OrderLaws {D : Type 0} (ops : DoubleOps D) : Type 0 where
  pub asymm : (a b : D) → ops.lt a b ≡ true → ops.lt b a ≡ false
  pub sub_le : (a b : D) → ops.lt b a ≡ false → ops.lt b (ops.sub a (ops.of_size 1)) ≡ false
