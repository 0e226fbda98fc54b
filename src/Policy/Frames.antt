-- ===== src/Policy/Frames.antt =====
-- include/synapse/detail/server_policy.hpp: `frame_fits` measures the encoded value.
use synapse_mcp.Base.{
  ℕ, ◌+◌, ◌≤◌, ◌≡◌, ◌↔◌, true, List, [], ◌∷◌, some, arith, length, length-append, is_some,
}
use synapse_mcp.Json.{Json, JsonLibrary, Write, put, write, bytes_of}
use synapse_mcp.Policy.Defs.{count_writes, frame_fits}

count_writes_fit :
    (limit size : ℕ) (ws : List Write)
    → size ≤ limit
    → size + length (bytes_of ws) ≤ limit
    → count_writes limit size ws ≡ some (size + length (bytes_of ws))
unfolding count_writes
count_writes_fit limit size [] h k = ground arith
count_writes_fit limit size (put c ∷ ws) h k = ground (arith, count_writes_fit limit (size + 1) ws)
count_writes_fit limit size (write s ∷ ws) h k =
    ground (arith, count_writes_fit limit (size + length s) ws, length-append s (bytes_of ws))

count_writes_over :
    (limit size : ℕ) (ws : List Write)
    → size ≤ limit
    → is_some (count_writes limit size ws) ≡ true
    → size + length (bytes_of ws) ≤ limit
unfolding count_writes
count_writes_over limit size [] h k = omega arith
count_writes_over limit size (put c ∷ ws) h k =
    ground (arith, count_writes_over limit (size + 1) ws)
count_writes_over limit size (write s ∷ ws) h k =
    ground (arith, count_writes_over limit (size + length s) ws, length-append s (bytes_of ws))

-- A frame fits exactly when the value can be encoded and its encoding is no longer than the limit.
pub frame_fits_iff :
    (lib : JsonLibrary) (value : Json) (limit : ℕ)
    → (frame_fits lib value limit ≡ true)
      ↔ (((lib.serialize value).1 ≡ true) × (length (bytes_of (lib.serialize value).0) ≤ limit))
unfolding frame_fits
frame_fits_iff lib value limit = (
  λ h. (ground arith, ground (arith, count_writes_over limit 0 (lib.serialize value).0)),
  λ h. ground (arith, count_writes_fit limit 0 (lib.serialize value).0),
)
