-- ===== src/Transport/Queue.antt =====
-- include/synapse/transport.hpp: the accounting of outgoing frames.
use synapse_mcp.Base.{
  ascii, Expected-cases, ℕ, ◌+◌, ◌-◌, ◌^◌, ◌≤◌, ◌<◌, ◌≡◌, ◌∙◌, ap, sym, subst, min, true, false,
  List, [], ◌∷◌, ◌++◌, Option, none, some, Bytes, arith, ok, err, length, length-append, All,
  All-append, Bool-cases, inl, inr,
}
use synapse_mcp.Json.{Json, JsonLibrary, bytes_of}
use synapse_mcp.Handlers.{SdkError, invalid_state, resource_exhausted, StdioOptions}
use native.Mathlib.Decide.{dec_le}
use synapse_mcp.Policy.Frames.{frame_fits_iff}
use synapse_mcp.Transport.Defs.{Transport, size_sub}
use synapse_mcp.Transport.Send.{newline, encode, enqueue_frame, send}
use synapse_mcp.Transport.Encoding.{encode-frame_fits}

-- The bytes of the frames that are queued, and of the one that is being written.
abbrev pub total : List Bytes → ℕ
total [] = 0
total (f ∷ fs) = length f + total fs

abbrev pub held : Option (Bytes × ℕ) → ℕ
held none = 0
held (some (f, offset)) = length f

-- The frame limit, as `send` reads it.
abbrev pub frame_limit : StdioOptions → ℕ
frame_limit o = min o.max_frame_bytes (o.max_outbound_bytes - 1)

-- A frame is not empty, and no longer than the limit and its newline.
abbrev pub IsFrame : StdioOptions → Bytes → Type 0
IsFrame o f = (0 < length f) × (length f ≤ frame_limit o + 1)

abbrev pub IsWriting : StdioOptions → Option (Bytes × ℕ) → Type 0
IsWriting o none = Unit
IsWriting o (some (f, offset)) = IsFrame o f × (offset < length f)

pub record IsAccounted (o : StdioOptions) (t : Transport) : Type 0 where
  pub same_options : t.options ≡ o
  pub exact : t.queued_bytes ≡ total t.queue + held t.writing
  pub bounded : t.queued_bytes ≤ o.max_outbound_bytes
  pub frames : All (IsFrame o) t.queue
  pub writing : IsWriting o t.writing

-- What a transport that has been started knows of its limits.
pub record AreLimits (o : StdioOptions) : Type 0 where
  pub outbound_pos : 0 < o.max_outbound_bytes
  pub outbound_size : o.max_outbound_bytes < 2 ^ 64
  pub frame_size : o.max_frame_bytes < 2 ^ 64

total-append : (fs : List Bytes) (f : Bytes) → total (fs ++ f ∷ []) ≡ total fs + length f
total-append [] f = omega arith
total-append (g ∷ fs) f = omega (arith, total-append fs f)

pub size_sub_lem : (a b : ℕ) → b ≤ a → a < 2 ^ 64 → size_sub a b ≡ a - b
size_sub_lem a b h k = omega arith

encode-IsFrame :
    (lib : JsonLibrary) (o : StdioOptions) (message : Json) (f : Bytes)
    → AreLimits o
    → encode lib (frame_limit o) message ≡ ok f
    → IsFrame o f
encode-IsFrame lib o message f l e =
    let (fits, shape) = (encode-frame_fits lib (frame_limit o) message f (omega arith)).0 e in
    let (_, small) = (frame_fits_iff lib message (frame_limit o)).0 fits in
    let body = bytes_of (lib.serialize message).0 in
    let n : length f ≡ length body + 1 = ap length shape ∙ length-append body (newline ∷ []) in
    (omega arith, omega arith)

-- What a call of `send` comes to.
pub data Sent (lib : JsonLibrary) (message : Json) (t : Transport) : Type 0 where
  queued :
      (f : Bytes)
      → encode lib (frame_limit t.options) message ≡ ok f
      → t.started ≡ true
      → t.closing ≡ false
      → t.queued_bytes + length f ≤ t.options.max_outbound_bytes
      → send lib message t
        ≡ (record t { queue = t.queue ++ f ∷ []; queued_bytes = t.queued_bytes + length f }, ok tt)
      → Sent lib message t
  refused : (e : SdkError) → send lib message t ≡ (t, err e) → Sent lib message t

enqueue_frame-Sent :
    (lib : JsonLibrary) (message : Json) (t : Transport) (f : Bytes)
    → AreLimits t.options
    → t.queued_bytes ≤ t.options.max_outbound_bytes
    → encode lib (frame_limit t.options) message ≡ ok f
    → t.started ≡ true
    → t.closing ≡ false
    → send lib message t ≡ enqueue_frame f t
    → Sent lib message t
enqueue_frame-Sent lib message t f l b e st c h =
    let s = size_sub_lem t.options.max_outbound_bytes t.queued_bytes b l.outbound_size in
    elim (dec_le (t.queued_bytes + length f) t.options.max_outbound_bytes) [
      | yes fits ↦ queued f e st c fits (h ∙ ground (arith, s))
      | no full ↦
          refused (record { code = resource_exhausted; message = ascii "Writer queue is full" })
            (h ∙ ground (arith, s))
    ]

-- With limits that `start` accepts and that fit in 64 bits, and with no more bytes queued than the
-- limit, a message is queued whole, at the end of the queue and within the byte limit, or the call
-- reports an error and changes nothing.
pub send-Sent :
    (lib : JsonLibrary) (message : Json) (t : Transport)
    → AreLimits t.options
    → t.queued_bytes ≤ t.options.max_outbound_bytes
    → Sent lib message t
unfolding send
send-Sent lib message t l b = elim (Bool-cases (t.started)) [
  | inr st ↦ refused not_running (ground arith)
  | inl st ↦ elim (Bool-cases t.closing) [
    | inl c ↦ refused not_running (ground arith)
    | inr c ↦ elim (Expected-cases (encode lib (frame_limit t.options) message)) [
      | inl (f, e) ↦ enqueue_frame-Sent lib message t f l b e st c (ground (arith, e, same_limit))
      | inr (x, e) ↦ refused x (ground (arith, e, same_limit))
    ]
  ]
]
  where
    not_running : SdkError
    not_running = record { code = invalid_state; message = ascii "Transport is not running" }

    same_limit :
        min t.options.max_frame_bytes (size_sub t.options.max_outbound_bytes 1)
        ≡ frame_limit t.options
    same_limit = omega arith

pub send-IsAccounted :
    (lib : JsonLibrary) (o : StdioOptions) (message : Json) (t : Transport)
    → AreLimits o
    → IsAccounted o t
    → IsAccounted o (send lib message t).0
send-IsAccounted lib o message t l a =
    let l' = subst AreLimits (sym a.same_options) l in
    elim (send-Sent lib message t l' (rw a.same_options a.bounded)) [
      | queued f e st c room s ↦ rw s (record {
        same_options = a.same_options;
        exact = omega (arith, total-append t.queue f, a.exact);
        bounded = subst (λ x. t.queued_bytes + length f ≤ x.max_outbound_bytes) a.same_options room;
        frames = All-append (IsFrame o) t.queue (f ∷ []) a.frames (
          encode-IsFrame lib o message f l
              (subst (λ x. encode lib (frame_limit x) message ≡ ok f) a.same_options e),
          tt,
        );
        writing = a.writing;
      })
      | refused e s ↦ rw s a
    ]
