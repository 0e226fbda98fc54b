-- ===== src/Native/Ownership.antt =====
-- include/synapse/detail/stdio_posix.hpp: every descriptor that the calls of `open` give out is closed
-- once, or held by the endpoints until they are destroyed.
use synapse_mcp.Base.{
  ℕ, ◌≡◌, refl, subst, Bool, true, false, Option, none, some, Bytes, arith, Expected, ok,
}
use synapse_mcp.Handlers.{SdkError}
use synapse_mcp.Native.Kernel.{Kernel, M, duplicate, get_flags, set_flags}
use synapse_mcp.Native.Open.{
  Endpoints, no_endpoints, Outcome, proceed, open_input, open_output, read_flags, make_wake,
  open_read_wake, open_write_wake, set_nonblock, unblock_input, unblock_output, configure, restore,
  destroy, finish, open_endpoints, dispose,
}
use synapse_mcp.Native.Giving.{Balanced, Gives, >>=-eq-some, make_wake-Gives, set_nonblock-Gives}

-- What is still to be opened.
abbrev Unopened : Endpoints → Type 0
Unopened v = (v.output ≡ none) × (v.read_wake ≡ none) × (v.write_wake ≡ none)

abbrev NoWakes : Endpoints → Type 0
NoWakes v = (v.read_wake ≡ none) × (v.write_wake ≡ none)

abbrev Opened : (Endpoints → Type 0) → (Endpoints → Type 0) → (Endpoints → M Outcome) → Type 0
Opened P Q stage =
    (v w : Endpoints) (failed : Option Bytes) (k l : Kernel)
    → stage v k ≡ some ((w, failed), l)
    → P v
    → Balanced v k
    → Q w × Balanced w l

open_input-Opened : Opened (λ v. Unopened v × (v.input ≡ none)) Unopened open_input
unfolding open_input duplicate
open_input-Opened v w failed k l h (u, e) b = (ground arith, λ d. ground (arith, b d))

open_output-Opened : Opened Unopened NoWakes open_output
unfolding open_output duplicate
open_output-Opened v w failed k l h u b = (ground arith, λ d. ground (arith, b d))

read_flags-Opened : Opened NoWakes NoWakes read_flags
unfolding read_flags get_flags
read_flags-Opened v w failed k l h u b = (ground arith, λ d. ground (arith, b d))

open_read_wake-Opened :
    (nonblock : ℕ) → Opened NoWakes (λ v. v.write_wake ≡ none) (open_read_wake nonblock)
unfolding open_read_wake
open_read_wake-Opened nonblock v w failed k l h u b =
    let ((wake, done), j, made, rest) = >>=-eq-some (make_wake nonblock) _ k l h in
    (ground arith, λ d. ground (arith, b d, make_wake-Gives nonblock wake done k j made d))

open_write_wake-Opened :
    (nonblock : ℕ) → Opened (λ v. v.write_wake ≡ none) (λ v. Unit {0}) (open_write_wake nonblock)
unfolding open_write_wake
open_write_wake-Opened nonblock v w failed k l h u b =
    let ((wake, done), j, made, rest) = >>=-eq-some (make_wake nonblock) _ k l h in
    (tt, λ d. ground (arith, b d, make_wake-Gives nonblock wake done k j made d))

unblock_input-Opened :
    (nonblock : ℕ) → Opened (λ v. Unit {0}) (λ v. Unit {0}) (unblock_input nonblock)
unfolding unblock_input
unblock_input-Opened nonblock v w failed k l h u b =
    let ((done, changed), j, made, rest) =
      >>=-eq-some (set_nonblock nonblock v.input v.input_flags) _ k l h in
    (
      tt,
      λ d.
          ground
            (arith, b d, set_nonblock-Gives nonblock v.input v.input_flags done changed k j made d),
    )

unblock_output-Opened :
    (nonblock : ℕ) → Opened (λ v. Unit {0}) (λ v. Unit {0}) (unblock_output nonblock)
unfolding unblock_output
unblock_output-Opened nonblock v w failed k l h u b =
    let ((done, changed), j, made, rest) =
      >>=-eq-some (set_nonblock nonblock v.output v.output_flags) _ k l h in
    (
      tt,
      λ d.
          ground (
            arith,
            b d,
            set_nonblock-Gives nonblock v.output v.output_flags done changed k j made d,
          ),
    )

proceed-Opened :
    (P Q : Endpoints → Type 0) (stage : Endpoints → M Outcome)
    → Opened P Q stage
    → ((v : Endpoints) → P v → Q v)
    → (r s : Outcome) (k l : Kernel) → proceed stage r k ≡ some (s, l)
    → P r.0 × Balanced r.0 k
    → Q s.0 × Balanced s.0 l
proceed-Opened P Q stage step weaken (v, none) (w, failed) k l h (p, b) = step v w failed k l h p b
proceed-Opened P Q stage step weaken (v, some message) s k l h (p, b) =
    let e : v ≡ s.0 = cc in
    let f : k ≡ l = cc in
    subst (λ u. Q u × Balanced u l) e (subst (λ j. Q v × Balanced v j) f (weaken v p, b))

configure-Balanced :
    (nonblock : ℕ) (r : Outcome) (k l : Kernel)
    → configure nonblock k ≡ some (r, l)
    → Balanced no_endpoints k
    → Balanced r.0 l
unfolding configure
configure-Balanced nonblock r k l h b =
    let (r₁, k₁, e₁, h₁) = >>=-eq-some (open_input no_endpoints) _ k l h in
    let (r₂, k₂, e₂, h₂) = >>=-eq-some (proceed open_output r₁) _ k₁ l h₁ in
    let (r₃, k₃, e₃, h₃) = >>=-eq-some (proceed read_flags r₂) _ k₂ l h₂ in
    let (r₄, k₄, e₄, h₄) = >>=-eq-some (proceed (open_read_wake nonblock) r₃) _ k₃ l h₃ in
    let (r₅, k₅, e₅, h₅) = >>=-eq-some (proceed (open_write_wake nonblock) r₄) _ k₄ l h₄ in
    let (r₆, k₆, e₆, h₆) = >>=-eq-some (proceed (unblock_input nonblock) r₅) _ k₅ l h₅ in
    let b₁ = open_input-Opened no_endpoints r₁.0 r₁.1 k k₁ e₁ ((refl, refl, refl), refl) b in
    let b₂ =
      proceed-Opened Unopened NoWakes open_output open_output-Opened (λ v u. (u.1, u.2)) r₁ r₂ k₁ k₂
        e₂ b₁ in
    let b₃ =
      proceed-Opened NoWakes NoWakes read_flags read_flags-Opened (λ v u. u) r₂ r₃ k₂ k₃ e₃ b₂ in
    let b₄ =
      proceed-Opened NoWakes (λ v. v.write_wake ≡ none) (open_read_wake nonblock)
        (open_read_wake-Opened nonblock) (λ v u. u.1) r₃ r₄ k₃ k₄ e₄ b₃ in
    let b₅ =
      proceed-Opened (λ v. v.write_wake ≡ none) (λ v. Unit {0}) (open_write_wake nonblock)
        (open_write_wake-Opened nonblock) (λ v u. tt) r₄ r₅ k₄ k₅ e₅ b₄ in
    let b₆ =
      proceed-Opened (λ v. Unit {0}) (λ v. Unit {0}) (unblock_input nonblock)
        (unblock_input-Opened nonblock) (λ v u. tt) r₅ r₆ k₅ k₆ e₆ b₅ in
    (proceed-Opened (λ v. Unit {0}) (λ v. Unit {0}) (unblock_output nonblock)
      (unblock_output-Opened nonblock) (λ v u. tt) r₆ r k₆ l h₆ b₆).1

restore-Gives :
    (changed : Bool) (fd flags : Option ℕ) (k l : Kernel)
    → restore changed fd flags k ≡ some (tt, l)
    → Gives (λ d. 0) k l
unfolding restore set_flags
restore-Gives false fd flags k l h d = ground arith
restore-Gives true none flags k l h d = ground arith
restore-Gives true (some fd) none k l h d = ground arith
restore-Gives true (some fd) (some flags) k l h d = ground arith

destroy-Balanced :
    (v : Endpoints) (k l : Kernel)
    → destroy v k ≡ some (tt, l)
    → Balanced v k
    → Balanced no_endpoints l
unfolding destroy
destroy-Balanced v k l h b d =
    let (_, i, e, rest) = >>=-eq-some (restore v.input_changed v.input v.input_flags) _ k l h in
    let (_, j, f, closes) =
      >>=-eq-some (restore v.output_changed v.output v.output_flags) _ i l rest in
    ground (
      arith,
      b d,
      restore-Gives v.input_changed v.input v.input_flags k i e d,
      restore-Gives v.output_changed v.output v.output_flags i j f d,
    )

finish-Balanced :
    (r : Outcome) (result : Expected Endpoints SdkError) (k l m : Kernel)
    → finish r k ≡ some (result, l)
    → dispose result l ≡ some (tt, m)
    → Balanced r.0 k
    → Balanced no_endpoints m
finish-Balanced (v, none) result k l m h g b =
    let e : result ≡ ok v = cc in
    let f : k ≡ l = cc in destroy-Balanced v l m (rw e at g) (subst (Balanced v) f b)
finish-Balanced (v, some message) result k l m h g b =
    let (_, j, e, rest) = >>=-eq-some (destroy v) _ k l h in
    let same : j ≡ m = ground arith in
    subst (Balanced no_endpoints) same (destroy-Balanced v k j e b)

-- Whatever the system answers to each call of `open` and of the destructor: if no descriptor is lost
-- before, then each that `open` got is closed exactly as often as it was given out, by `open` itself
-- when it fails and by the destructor when it succeeds.
pub open_endpoints-dispose :
    (nonblock : ℕ) (result : Expected Endpoints SdkError) (k l m : Kernel)
    → Balanced no_endpoints k
    → open_endpoints nonblock k ≡ some (result, l)
    → dispose result l ≡ some (tt, m)
    → Balanced no_endpoints m
unfolding open_endpoints
open_endpoints-dispose nonblock result k l m b h g =
    let (r, j, e, rest) = >>=-eq-some (configure nonblock) _ k l h in
    finish-Balanced r result j l m rest g (configure-Balanced nonblock r k j e b)
