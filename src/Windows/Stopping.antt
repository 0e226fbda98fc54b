-- ===== src/Windows/Stopping.antt =====
-- include/synapse/detail/stdio_windows.hpp: what a stop ends, and how the destructor ends.
use synapse_mcp.Base.{◌≡◌, Bool, true, false}
use synapse_mcp.Windows.Defs.{Side}
use synapse_mcp.Windows.Steps.{Phase, in_io, System, phase}

abbrev pub is_in_io : Phase → Bool
is_in_io in_io = true
is_in_io _ = false

-- A stopped state, with the direction outside ReadFile and WriteFile.
abbrev Barred : Side → System → Type 0
Barred side t = (t.owner.stopped ≡ true) × (is_in_io (phase side t) ≡ false)
