-- ===== src/Policy/Bucket.antt =====
-- include/synapse/detail/server_policy.hpp: how many calls `consume` admits.
use synapse_mcp.Base.{ℕ, zero, suc, ◌-◌, ◌≤◌, ◌≡◌, refl, ◌∙◌, min, true, false, arith, ltb}
use synapse_mcp.Handlers.{ServerOptions}
use synapse_mcp.Policy.Double.{DoubleOps, ExactLaws, OrderLaws}
use synapse_mcp.Policy.Defs.{ServerPolicy, new_policy, start_clock, refill, take_token, consume}

module _ {D : Type 0} (ops : DoubleOps D) (options : ServerOptions D) where
  -- How many of `m` calls are admitted while the clock shows `now`.
  unfoldable pub admitted : ℕ → ℕ → ServerPolicy D → ℕ
  admitted now zero p = 0
  admitted now (suc m) p =
      let (q, granted) = consume ops options now p in
      elim granted [ true ↦ suc (admitted now m q) | false ↦ admitted now m q ]

  -- The tokens are at most the burst.
  abbrev pub IsCapped : ServerPolicy D → Type 0
  IsCapped p = ops.lt (ops.of_size options.tool_burst) p.tokens ≡ false

  start_clock-IsCapped :
      (now : ℕ) (p : ServerPolicy D) → IsCapped p → IsCapped (start_clock ops now p)
  start_clock-IsCapped now p h = ground arith

  refill-IsCapped :
      OrderLaws ops
      → (now : ℕ) (p : ServerPolicy D) → IsCapped p
      → IsCapped (refill ops options now p)
  refill-IsCapped laws now p h =
      let full = ops.of_size options.tool_burst in
      let more =
        ops.add p.tokens (ops.mul (ops.seconds (now - p.last)) options.tool_requests_per_second) in
      ground (arith, laws.asymm full full, laws.asymm more full)

  take_token-IsCapped :
      OrderLaws ops → (p : ServerPolicy D) → IsCapped p → IsCapped (take_token ops p).0
  take_token-IsCapped laws p h =
      ground (arith, laws.sub_le p.tokens (ops.of_size options.tool_burst))

  -- No time has passed since the last call, if there was one.
  abbrev IsFrozen : ℕ → ServerPolicy D → Type 0
  IsFrozen now p = ltb (start_clock ops now p).last now ≡ false

  consume_frozen :
      (now : ℕ) (p : ServerPolicy D)
      → IsFrozen now p
      → consume ops options now p ≡ take_token ops (start_clock ops now p)
  unfolding consume
  consume_frozen now p t = ground arith

  IsFrozen-step :
      (now : ℕ) (p : ServerPolicy D)
      → IsFrozen now p
      → IsFrozen now (take_token ops (start_clock ops now p)).0
  IsFrozen-step now p t = ground arith

  -- Whatever the clock does, and over a `double` whose order and subtraction of one behave, the bucket
  -- starts with at most the burst, and a call leaves it so.
  pub consume-IsCapped :
      OrderLaws ops
      → (now : ℕ) (p : ServerPolicy D) → IsCapped p
      → IsCapped (new_policy ops options) × IsCapped (consume ops options now p).0
  unfolding new_policy consume
  consume-IsCapped laws now p h = (
    ground (arith, laws.asymm full full),
    take_token-IsCapped laws _ (refill-IsCapped laws now _ (start_clock-IsCapped now p h)),
  )
    where
      full : D
      full = ops.of_size options.tool_burst

  admitted_frozen :
      ExactLaws ops
      → (now n m : ℕ) (p : ServerPolicy D) → n ≤ 9007199254740992
      → p.tokens ≡ ops.of_size n
      → IsFrozen now p
      → admitted now m p ≡ min m n
  unfolding admitted
  admitted_frozen laws now n zero p small e t = omega arith
  admitted_frozen laws now zero (suc m) p small e t =
      let s = start_clock ops now p in
      let step : consume ops options now p ≡ (s, false) =
        consume_frozen now p t ∙ ground (arith, laws.below_one) in
      rw (step, admitted)
        (rw step
          (omega (arith, admitted_frozen laws now zero m s small (ground arith) (ground arith))))
  admitted_frozen laws now (suc n) (suc m) p small e t =
      let s = start_clock ops now p in
      let q : ServerPolicy D = record s { tokens = ops.of_size n } in
      let step : consume ops options now p ≡ (q, true) =
        consume_frozen now p t ∙ ground (arith, laws.not_below_one n small, laws.sub_one n small) in
      rw (step, admitted)
        (rw step (omega (arith, admitted_frozen laws now n m q (omega arith) refl (ground arith))))

  -- While the clock stands still a new bucket admits the burst and not one call more, for a burst of
  -- at most 2 ^ 53 and a `double` that is exact on whole numbers up to it.
  pub admitted-new_policy :
      ExactLaws ops
      → (now m : ℕ) → options.tool_burst ≤ 9007199254740992
      → admitted now m (new_policy ops options) ≡ min m options.tool_burst
  unfolding new_policy
  admitted-new_policy laws now m small =
      admitted_frozen laws now options.tool_burst m (new_policy ops options) small refl
        (ground arith)
