-- ===== src/Windows/Alone.antt =====
-- include/synapse/detail/stdio_windows.hpp: a transfer that no other thread meets.
use synapse_mcp.Base.{
  ℕ, ◌≡◌, ◌≤◌, refl, Bool, false, List, [], ◌∷◌, Option, none, some, arith, ◌==◌, any, Expected, ok,
  err,
}
use synapse_mcp.Handlers.{SdkError}
use synapse_mcp.Windows.Defs.{
  Side, reading, writing, no_operation, State, pending, erase, is_open, WinError, operation_aborted,
  broken_pipe, pipe_not_connected, more_data, other, request_size, transferred, transfer,
}

-- A count of bytes is within a bound.
abbrev pub Within : ℕ → Expected ℕ SdkError → Type 0
Within bound (ok count) = count ≤ bound
Within bound (err e) = Unit

erase-fresh : (h : ℕ) (hs : List ℕ) → any (λ i. i == h) hs ≡ false → erase h hs ≡ hs
erase-fresh h [] fresh = refl
erase-fresh h (i ∷ hs) fresh = ground (arith, erase-fresh h hs)

transferred-Within :
    (side : Side) (size count : ℕ) (error : Option WinError)
    → count ≤ request_size size
    → Within (request_size size) (transferred side count error)
unfolding transferred
transferred-Within side size count none h = h
transferred-Within reading size count (some operation_aborted) h = tt
transferred-Within writing size count (some operation_aborted) h = tt
transferred-Within reading size count (some broken_pipe) h = omega arith
transferred-Within reading size count (some pipe_not_connected) h = omega arith
transferred-Within reading size count (some more_data) h = ground arith
transferred-Within reading size count (some other) h = tt
transferred-Within writing size count (some broken_pipe) h = tt
transferred-Within writing size count (some pipe_not_connected) h = tt
transferred-Within writing size count (some more_data) h = tt
transferred-Within writing size count (some other) h = tt

-- When a direction is not active, and DuplicateHandle gives a handle that is not open, a transfer that
-- no other thread meets leaves the state as it was, on every path; and the count that it reports is
-- within the buffer and within a DWORD, as the system's count is.
pub transfer_alone :
    (side : Side) (size : ℕ) (token token' : Bool) (h count : ℕ) (error : Option WinError)
    (s : State)
    → pending side s ≡ no_operation
    → is_open h s ≡ false
    → count ≤ request_size size
    → ((transfer side size token token' (some h) (count, error) s).0 ≡ s)
      × Within (request_size size) (transfer side size token token' (some h) (count, error) s).1
unfolding transfer
transfer_alone reading size token token' h count error s p fresh small =
    ground (arith, erase-fresh h s.threads fresh, transferred-Within reading size count error small)
transfer_alone writing size token token' h count error s p fresh small =
    ground (arith, erase-fresh h s.threads fresh, transferred-Within writing size count error small)
