-- ===== src/Windows/Steps.antt =====
-- include/synapse/detail/stdio_windows.hpp: one reader, one writer, and any threads that stop and
-- cancel. The stop callback of a transfer is registered behind its first critical section and removed
-- in front of its completion.
use synapse_mcp.Base.{ℕ, ◌≡◌, Bool, true, false, some, if◌then◌else◌, is_ok}
use synapse_mcp.Windows.Defs.{
  Side, reading, writing, State, is_open, request_stop, cancel_pending, begin_transfer, notify,
  is_refused, complete, destroy_round,
}

-- Where a direction is: outside `transfer`, between its critical sections, in ReadFile or WriteFile,
-- or at its completion.
pub data Phase : Type 0 where
  idle begun in_io completing : Phase

pub record System : Type 0 where
  pub owner : State
  pub reader_phase : Phase
  pub writer_phase : Phase

abbrev pub new_system : State → System
new_system owner = record { owner = owner; reader_phase = idle; writer_phase = idle }

abbrev pub phase : Side → System → Phase
phase reading t = t.reader_phase
phase writing t = t.writer_phase

abbrev pub set_phase : Side → Phase → System → System
set_phase reading p t = record t { reader_phase = p }
set_phase writing p t = record t { writer_phase = p }

abbrev pub can_notify : Phase → Bool
can_notify begun = true
can_notify in_io = true
can_notify _ = false

-- The system does not give out a handle that is open.
pub data Step : System → System → Type 0 where
  begins :
      (t : System) (side : Side) (token : Bool) (h : ℕ)
      → phase side t ≡ idle
      → is_open h t.owner ≡ false
      → Step t (
          set_phase side
            (if is_ok (begin_transfer side token (some h) t.owner).1 then begun else idle)
            (record t { owner = (begin_transfer side token (some h) t.owner).0 }))
  notifies :
      (t : System) (side : Side)
      → can_notify (phase side t) ≡ true
      → Step t (record t { owner = notify side t.owner })
  checks :
      (t : System) (side : Side) (token : Bool)
      → phase side t ≡ begun
      → Step t (set_phase side (if is_refused side token t.owner then completing else in_io) t)
  answers : (t : System) (side : Side) → phase side t ≡ in_io → Step t (set_phase side completing t)
  completes :
      (t : System) (side : Side)
      → phase side t ≡ completing
      → Step t (set_phase side idle (record t { owner = complete side t.owner }))
  stops : (t : System) → Step t (record t { owner = request_stop t.owner })
  cancels : (t : System) → Step t (record t { owner = cancel_pending t.owner })
  destroys : (t : System) → Step t (record t { owner = (destroy_round t.owner).0 })

pub data Reach (s : System) : System → Type 0 where
  here : Reach s s
  next : {t u : System} → Reach s t → Step t u → Reach s u
