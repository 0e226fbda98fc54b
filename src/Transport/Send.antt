-- ===== src/Transport/Send.antt =====
-- include/synapse/transport.hpp: `bounded_buffer` and `send`.
use synapse_mcp.Base.{
  ℕ, ◌+◌, ◌%◌, ◌^◌, min, not, ◌||◌, List, [], ◌∷◌, ◌++◌, Option, none, some, Bytes, ascii, ltb,
  if◌then◌else◌, Expected, ok, err, length,
}
use synapse_mcp.Json.{Json, JsonLibrary, Write, put, write}
use synapse_mcp.Handlers.{SdkError, invalid_state, resource_exhausted}
use synapse_mcp.Transport.Defs.{Transport, size_sub, failure}

-- `xsputn`: the whole block or nothing; `none` is the full buffer.
unfoldable pub buffer_block : ℕ → Bytes → Bytes → Option Bytes
buffer_block limit bytes block =
    if ltb (size_sub limit (length bytes)) (length block) then none else some (bytes ++ block)

-- `overflow` hands its character to `xsputn`.
unfoldable pub buffer_write : ℕ → Bytes → Write → Option Bytes
unfolding buffer_block
buffer_write limit bytes (put c) = buffer_block limit bytes (c ∷ [])
buffer_write limit bytes (write s) = buffer_block limit bytes s

unfoldable pub buffer_writes : ℕ → Bytes → List Write → Option Bytes
unfolding buffer_write
buffer_writes limit bytes [] = some bytes
buffer_writes limit bytes (w ∷ ws) = elim (buffer_write limit bytes w) [
  | none ↦ none
  | some bytes' ↦ buffer_writes limit bytes' ws
]

abbrev pub newline : ℕ
newline = b'\n'

-- `stream << message`: the frame, or the failure. A full buffer is told from an exception of the
-- serialiser.
unfoldable pub encode : JsonLibrary → ℕ → Json → Expected Bytes SdkError
unfolding buffer_writes
encode lib limit message = elim (buffer_writes limit [] (lib.serialize message).0) [
  | none ↦ failure resource_exhausted (ascii "Encoded frame limit exceeded")
  | some bytes ↦
      if (lib.serialize message).1
      then ok (bytes ++ newline ∷ [])
      else failure invalid_state (ascii "Cannot encode JSON frame")
]

-- The part of `send` behind the encoding.
abbrev pub enqueue_frame : Bytes → Transport → Transport × Expected (Unit {0}) SdkError
enqueue_frame bytes t =
    if ltb (size_sub t.options.max_outbound_bytes t.queued_bytes) (length bytes)
    then (t, failure resource_exhausted (ascii "Writer queue is full"))
    else (
      record t {
        queue = t.queue ++ bytes ∷ [];
        queued_bytes = (t.queued_bytes + length bytes) % 2 ^ 64;
      },
      ok tt,
    )

unfoldable pub send : JsonLibrary → Json → Transport → Transport × Expected (Unit {0}) SdkError
send lib message t =
    let limit = min t.options.max_frame_bytes (size_sub t.options.max_outbound_bytes 1) in
    if not t.started || t.closing
    then (t, failure invalid_state (ascii "Transport is not running"))
    else elim (encode lib limit message) [ err e ↦ (t, err e) | ok bytes ↦ enqueue_frame bytes t ]
