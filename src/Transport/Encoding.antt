-- ===== src/Transport/Encoding.antt =====
-- include/synapse/transport.hpp: what the bounded buffer makes of a message.
use synapse_mcp.Base.{
  ℕ, ◌+◌, ◌^◌, ◌≤◌, ◌<◌, ◌≡◌, ◌↔◌, true, List, [], ◌∷◌, ◌++◌, some, Bytes, arith, ok, is_some,
  length, length-append, append_assoc, append-nil,
}
use synapse_mcp.Json.{Json, JsonLibrary, Write, put, write, bytes_of}
use synapse_mcp.Policy.{frame_fits}
use synapse_mcp.Policy.Frames.{frame_fits_iff}
use synapse_mcp.Transport.Send.{buffer_writes, newline, encode}

buffer_writes_fit :
    (limit : ℕ) (bytes : Bytes) (ws : List Write)
    → limit < 2 ^ 64
    → length bytes + length (bytes_of ws) ≤ limit
    → buffer_writes limit bytes ws ≡ some (bytes ++ bytes_of ws)
unfolding buffer_writes
buffer_writes_fit limit bytes [] s h = ground (arith, append-nil bytes)
buffer_writes_fit limit bytes (put c ∷ ws) s h = ground (
  arith,
  buffer_writes_fit limit (bytes ++ c ∷ []) ws s,
  length-append bytes (c ∷ []),
  append_assoc bytes (c ∷ []) (bytes_of ws),
)
buffer_writes_fit limit bytes (write x ∷ ws) s h = ground (
  arith,
  buffer_writes_fit limit (bytes ++ x) ws s,
  length-append bytes x,
  length-append x (bytes_of ws),
  append_assoc bytes x (bytes_of ws),
)

buffer_writes_over :
    (limit : ℕ) (bytes : Bytes) (ws : List Write)
    → limit < 2 ^ 64
    → length bytes ≤ limit
    → is_some (buffer_writes limit bytes ws) ≡ true
    → length bytes + length (bytes_of ws) ≤ limit
unfolding buffer_writes
buffer_writes_over limit bytes [] s h k = omega arith
buffer_writes_over limit bytes (put c ∷ ws) s h k =
    ground (arith, buffer_writes_over limit (bytes ++ c ∷ []) ws s, length-append bytes (c ∷ []))
buffer_writes_over limit bytes (write x ∷ ws) s h k = ground (
  arith,
  buffer_writes_over limit (bytes ++ x) ws s,
  length-append bytes x,
  length-append x (bytes_of ws),
)

-- For a limit of 64 bits, a message is encoded exactly when the measure of
-- include/synapse/detail/server_policy.hpp lets it through, and the frame is its encoding and a
-- newline.
pub encode-frame_fits :
    (lib : JsonLibrary) (limit : ℕ) (message : Json) (f : Bytes)
    → limit < 2 ^ 64
    → (encode lib limit message ≡ ok f) ↔ (
        (frame_fits lib message limit ≡ true)
        × (f ≡ bytes_of (lib.serialize message).0 ++ newline ∷ []))
unfolding encode
encode-frame_fits lib limit message f s =
    let ws = (lib.serialize message).0 in
    (
      λ h. (
        ground (arith, buffer_writes_over limit [] ws s, (frame_fits_iff lib message limit).1),
        ground (arith, buffer_writes_over limit [] ws s, buffer_writes_fit limit [] ws s),
      ),
      λ h.
          ground (arith, (frame_fits_iff lib message limit).0 h.0, buffer_writes_fit limit [] ws s),
    )
