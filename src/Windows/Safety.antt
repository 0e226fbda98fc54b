-- ===== src/Windows/Safety.antt =====
-- include/synapse/detail/stdio_windows.hpp: no cancellation meets a thread handle that is closed.
use synapse_mcp.Base.{
  ℕ, ◌≡◌, refl, subst, Bool, true, false, not, List, [], ◌∷◌, Option, none, some, arith, ◌==◌, any,
  is_ok, if◌then◌else◌, is_some, Bool-cases, inl, inr,
}
use synapse_mcp.Windows.Defs.{
  Side, reading, writing, is_open, erase, cancel_locked, request_stop, cancel_pending,
  begin_transfer, notify, is_refused, complete, destroy_round, open_pipes,
}
use synapse_mcp.Windows.Steps.{
  Phase, idle, begun, in_io, completing, System, phase, set_phase, can_notify, Step, begins,
  notifies, checks, answers, completes, stops, cancels, destroys, new_system, Reach, here, next,
}

abbrev pub is_idle : Phase → Bool
is_idle idle = true
is_idle _ = false

-- The handle of an operation is open.
abbrev pub IsHeld : Option ℕ → List ℕ → Type 0
IsHeld none hs = Unit
IsHeld (some h) hs = any (λ i. i == h) hs ≡ true

abbrev pub AreApart : Option ℕ → Option ℕ → Type 0
AreApart (some h) (some i) = (h == i) ≡ false
AreApart _ _ = Unit

pub record IsSafe (t : System) : Type 0 where
  pub reader_active : is_some t.owner.reader.thread ≡ not (is_idle t.reader_phase)
  pub writer_active : is_some t.owner.writer.thread ≡ not (is_idle t.writer_phase)
  pub reader_held : IsHeld t.owner.reader.thread t.owner.threads
  pub writer_held : IsHeld t.owner.writer.thread t.owner.threads
  pub apart : AreApart t.owner.reader.thread t.owner.writer.thread
  pub no_faults : t.owner.faults ≡ 0

any-erase :
    (h i : ℕ) (hs : List ℕ)
    → any (λ j. j == i) (erase h hs) ≡ (if i == h then false else any (λ j. j == i) hs)
any-erase h i [] = ground arith
any-erase h i (j ∷ hs) = ground (arith, any-erase h i hs)

cancel_locked-IsSafe : (t : System) → IsSafe t → IsSafe (record t { owner = cancel_locked t.owner })
unfolding cancel_locked
cancel_locked-IsSafe t v = ground arith

open-apart :
    (h i : ℕ) (hs : List ℕ)
    → any (λ j. j == h) hs ≡ false
    → any (λ j. j == i) hs ≡ true
    → (h == i) ≡ false
open-apart h i hs fresh held = elim (Bool-cases (h == i)) [
  | inl same ↦ absurd (
      ground
        (arith, subst (λ n. any (λ j. j == n) hs ≡ false) {x = h} {y = i} (ground arith) fresh))
  | inr apart ↦ apart
]

-- What a new handle, and one that is closed, leave of the other direction.
abbrev Opened : ℕ → Option ℕ → List ℕ → Type 0
Opened h other hs = AreApart (some h) other × AreApart other (some h) × IsHeld other (h ∷ hs)

Opened_lem :
    (h : ℕ) (other : Option ℕ) (hs : List ℕ)
    → any (λ j. j == h) hs ≡ false
    → IsHeld other hs
    → Opened h other hs
Opened_lem h none hs fresh held = (tt, tt, tt)
Opened_lem h (some i) hs fresh held =
    let e = open-apart h i hs fresh held in (e, ground (arith, e), ground arith)

erase-IsHeld :
    (h i : ℕ) (hs : List ℕ) → (i == h) ≡ false → IsHeld (some i) hs → IsHeld (some i) (erase h hs)
erase-IsHeld h i hs e held = ground (arith, any-erase h i hs)

module _ (t : System) (v : IsSafe t) where
  begins-IsSafe :
      (side : Side) (token : Bool) (h : ℕ)
      → phase side t ≡ idle
      → is_open h t.owner ≡ false
      → IsSafe (
          set_phase side
            (if is_ok (begin_transfer side token (some h) t.owner).1 then begun else idle)
            (record t { owner = (begin_transfer side token (some h) t.owner).0 }))
  unfolding begin_transfer
  begins-IsSafe reading token h p fresh =
      ground (arith, Opened_lem h t.owner.writer.thread t.owner.threads fresh v.writer_held)
  begins-IsSafe writing token h p fresh =
      ground (arith, Opened_lem h t.owner.reader.thread t.owner.threads fresh v.reader_held)

  notifies-IsSafe :
      (side : Side)
      → can_notify (phase side t) ≡ true
      → IsSafe (record t { owner = notify side t.owner })
  unfolding notify
  notifies-IsSafe reading p = ground arith
  notifies-IsSafe writing p = ground arith

  completes-IsSafe :
      (side : Side)
      → phase side t ≡ completing
      → IsSafe (set_phase side idle (record t { owner = complete side t.owner }))
  unfolding complete
  completes-IsSafe reading p = completed t.owner.reader.thread t.owner.writer.thread refl refl
    where
      completed :
          (own other : Option ℕ)
          → t.owner.reader.thread ≡ own
          → t.owner.writer.thread ≡ other
          → IsSafe (set_phase reading idle (record t { owner = complete reading t.owner }))
      completed none other e f = ground arith
      completed (some h) none e f = ground arith
      completed (some h) (some i) e f = ground (arith, any-erase h i t.owner.threads)
  completes-IsSafe writing p = completed t.owner.writer.thread t.owner.reader.thread refl refl
    where
      completed :
          (own other : Option ℕ)
          → t.owner.writer.thread ≡ own
          → t.owner.reader.thread ≡ other
          → IsSafe (set_phase writing idle (record t { owner = complete writing t.owner }))
      completed none other e f = ground arith
      completed (some h) none e f = ground arith
      completed (some h) (some i) e f = ground (arith, any-erase h i t.owner.threads)

  destroys-IsSafe : IsSafe (record t { owner = (destroy_round t.owner).0 })
  unfolding destroy_round
  destroys-IsSafe = ground arith

  checks-IsSafe :
      (side : Side) (token : Bool)
      → phase side t ≡ begun
      → IsSafe (set_phase side (if is_refused side token t.owner then completing else in_io) t)
  checks-IsSafe reading token p = ground arith
  checks-IsSafe writing token p = ground arith

  answers-IsSafe : (side : Side) → phase side t ≡ in_io → IsSafe (set_phase side completing t)
  answers-IsSafe reading p = ground arith
  answers-IsSafe writing p = ground arith

  stops-IsSafe : IsSafe (record t { owner = request_stop t.owner })
  unfolding request_stop
  stops-IsSafe = ground arith

  cancels-IsSafe : IsSafe (record t { owner = cancel_pending t.owner })
  unfolding cancel_pending
  cancels-IsSafe = ground arith

Step-IsSafe : {t u : System} → Step t u → IsSafe t → IsSafe u
Step-IsSafe (begins t side token h p fresh) v = begins-IsSafe t v side token h p fresh
Step-IsSafe (notifies t side p) v = notifies-IsSafe t v side p
Step-IsSafe (checks t side token p) v = checks-IsSafe t v side token p
Step-IsSafe (answers t side p) v = answers-IsSafe t v side p
Step-IsSafe (completes t side p) v = completes-IsSafe t v side p
Step-IsSafe (stops t) v = stops-IsSafe t v
Step-IsSafe (cancels t) v = cancels-IsSafe t v
Step-IsSafe (destroys t) v = destroys-IsSafe t v

Reach-IsSafe : {t u : System} → Reach t u → IsSafe t → IsSafe u
Reach-IsSafe here v = v
Reach-IsSafe (next r step) v = Step-IsSafe step (Reach-IsSafe r v)

opened-IsSafe :
    (is_pipe_in is_pipe_out : Bool) (input output : Option ℕ)
    → IsSafe (new_system (open_pipes is_pipe_in is_pipe_out input output).0)
unfolding open_pipes
opened-IsSafe is_pipe_in is_pipe_out input output = ground arith

-- Whatever the reader, the writer and the threads that stop and cancel do, from `open` on: every
-- CancelSynchronousIo was given a thread handle that was open, and a direction has an open handle of
-- its own exactly while a transfer of it is active.
pub open_pipes-IsSafe :
    (is_pipe_in is_pipe_out : Bool) (input output : Option ℕ) (u : System)
    → Reach (new_system (open_pipes is_pipe_in is_pipe_out input output).0) u
    → IsSafe u
open_pipes-IsSafe is_pipe_in is_pipe_out input output u r =
    Reach-IsSafe r (opened-IsSafe is_pipe_in is_pipe_out input output)
