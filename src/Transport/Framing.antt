-- ===== src/Transport/Framing.antt =====
-- include/synapse/transport.hpp: how the reader cuts the stream into lines.
use synapse_mcp.Base.{
  ℕ, ◌+◌, ◌≤◌, ◌<◌, ◌≡◌, refl, ◌∙◌, ap, sym, subst, Bool, true, false, List, [], ◌∷◌, ◌++◌, Bytes,
  arith, Expected, ok, err, length, length-append, All, append_assoc, append-nil, ◌==◌, Bool-cases,
  inl, inr, if◌then◌else◌,
}
use synapse_mcp.Json.{Json, JsonLibrary, ParseError, parse_error, out_of_range}
use synapse_mcp.Transport.Defs.{CloseReason, io_error, protocol_limit, Transport, begin_close}
use synapse_mcp.Transport.Send.{newline, send}
use synapse_mcp.Transport.Reader.{
  MessageCallback, send_diagnostic, handle_parsed, frame, read_byte, read_bytes,
}

-- A line's body: no newline in it.
abbrev pub IsBody : Bytes → Type 0
IsBody = All (λ b. (b == newline) ≡ false)

module _ (lib : JsonLibrary) (on_message : MessageCallback) (now : ℕ) where
  -- What the loop does next with the result of a part of the bytes.
  abbrev pub continue_with : Bytes → Transport × Bytes × Bool → Transport × Bytes × Bool
  continue_with bytes (t, line, true) = read_bytes lib on_message now bytes line t
  continue_with bytes (t, line, false) = (t, line, false)

  -- It does not matter how the stream is cut into reads.
  pub read_bytes-append :
      (xs ys line : Bytes) (t : Transport)
      → read_bytes lib on_message now (xs ++ ys) line t
        ≡ continue_with ys (read_bytes lib on_message now xs line t)
  unfolding read_bytes
  read_bytes-append [] ys line t = refl
  read_bytes-append (x ∷ xs) ys line t =
      let (u, line', more) = read_byte lib on_message now x line t in
      elim (Bool-cases more) [
        | inl e ↦ rw (e, read_bytes) (read_bytes-append xs ys line' u)
        | inr e ↦ rw (e, read_bytes) refl
      ]

  read_body :
      (body line : Bytes) (t : Transport)
      → IsBody body
      → t.reader_stop ≡ false
      → length line + length body ≤ t.options.max_frame_bytes
      → read_bytes lib on_message now body line t ≡ (t, line ++ body, true)
  unfolding read_bytes read_byte
  read_body [] line t b s h = ground (arith, append-nil line)
  read_body (x ∷ xs) line t b s h = ground (
    arith,
    read_body xs (line ++ x ∷ []) t b.1 s,
    length-append line (x ∷ []),
    append_assoc line (x ∷ []) xs,
  )

  read_newline :
      (body rest : Bytes) (t : Transport)
      → t.reader_stop ≡ false
      → read_bytes lib on_message now (newline ∷ rest) body t ≡ (
          let (u, more) = frame lib on_message now body t in
          if more then read_bytes lib on_message now rest [] u else (u, body, false))
  unfolding read_bytes read_byte
  read_newline body rest t s = ground arith

  -- A line that fits is handed on whole at its newline, and the reader goes on with an empty line
  -- while the frame was handled.
  pub read_line :
      (body rest : Bytes) (t : Transport)
      → IsBody body
      → t.reader_stop ≡ false
      → length body ≤ t.options.max_frame_bytes
      → read_bytes lib on_message now (body ++ newline ∷ rest) [] t ≡ (
          let (u, more) = frame lib on_message now body t in
          if more then read_bytes lib on_message now rest [] u else (u, body, false))
  read_line body rest t b s h =
      read_bytes-append body (newline ∷ rest) [] t
      ∙ ap (continue_with (newline ∷ rest)) (read_body body [] t b s (omega arith))
      ∙ read_newline body rest t s

  -- A line that does not fit closes the transport as soon as its first byte past the limit is read.
  -- Nothing of it is handed on.
  pub read_bytes-too_long :
      (body line : Bytes) (t : Transport)
      → IsBody body
      → t.reader_stop ≡ false
      → length line ≤ t.options.max_frame_bytes
      → t.options.max_frame_bytes < length line + length body
      → let (u, _, more) = read_bytes lib on_message now body line t in
        (u ≡ begin_close protocol_limit now t) × (more ≡ false)
  unfolding read_bytes read_byte
  read_bytes-too_long [] line t b s h k = absurd (omega arith)
  read_bytes-too_long (x ∷ xs) line t b s h k =
      ground (arith, read_bytes-too_long xs (line ++ x ∷ []) t b.1 s, length-append line (x ∷ []))

  -- The lines of a stream, one after the other, until the reader is stopped or a frame ends it.
  unfoldable pub handle_lines : List Bytes → Transport → Transport × Bool
  handle_lines [] t = (t, true)
  handle_lines (body ∷ bodies) t =
      let (u, more) = frame lib on_message now body t in
      let rest = handle_lines bodies u in
      if t.reader_stop then (t, false) else if more then rest else (u, false)

  -- The stream that carries them.
  abbrev pub stream : List Bytes → Bytes
  stream [] = []
  stream (body ∷ bodies) = body ++ newline ∷ stream bodies

  abbrev pub FitsIn : ℕ → Bytes → Type 0
  FitsIn limit body = IsBody body × (length body ≤ limit)

  read_stopped :
      (bytes : Bytes) (t : Transport)
      → 0 < length bytes
      → t.reader_stop ≡ true
      → read_bytes lib on_message now bytes [] t ≡ (t, [], false)
  unfolding read_bytes read_byte
  read_stopped [] t h s = absurd (omega arith)
  read_stopped (b ∷ bytes) t h s = ground arith

  stream_nonempty : (body : Bytes) (bodies : List Bytes) → 0 < length (stream (body ∷ bodies))
  stream_nonempty body bodies = omega (arith, length-append body (newline ∷ stream bodies))

  -- The message callback leaves the limits alone.
  abbrev pub KeepsOptions : Type 0
  KeepsOptions = (v : Json) (t : Transport) → (on_message v t).0.options ≡ t.options

  send_diagnostic-options :
      (t : Transport) → (send_diagnostic lib on_message now t).0.options ≡ t.options
  unfolding send begin_close
  send_diagnostic-options t = ground arith

  begin_close-options :
      (reason : CloseReason) (t : Transport) → (begin_close reason now t).options ≡ t.options
  unfolding begin_close
  begin_close-options reason t = ground arith

  handle_parsed-options :
      KeepsOptions
      → (parsed : Expected Json ParseError) (t : Transport)
      → (handle_parsed lib on_message now parsed t).0.options ≡ t.options
  handle_parsed-options keep (ok v) t =
      ground (arith, keep v t, begin_close-options io_error (on_message v t).0)
  handle_parsed-options keep (err parse_error) t = send_diagnostic-options t
  handle_parsed-options keep (err (out_of_range id)) t =
      ground (arith, send_diagnostic-options t, begin_close-options io_error t)

  frame-options :
      KeepsOptions
      → (body : Bytes) (t : Transport) → (frame lib on_message now body t).0.options ≡ t.options
  unfolding frame
  frame-options keep body t =
      ground
        (arith, begin_close-options protocol_limit t, handle_parsed-options keep (lib.parse body) t)

  -- When the message callback leaves the options alone, and every line is free of newlines and fits
  -- the frame limit, reading the stream of these lines is the same as handling the lines one after
  -- the other, each whole and in order, until the reader is told to stop or the handling of a line
  -- ends the loop. Nothing behind that line is handled.
  pub read_bytes-stream :
      KeepsOptions
      → (bodies : List Bytes) (t : Transport) → All (FitsIn t.options.max_frame_bytes) bodies
      → let (u, _, more) = read_bytes lib on_message now (stream bodies) [] t in
        ◌≡◌ {A = Transport × Bool} (u, more) (handle_lines bodies t)
  unfolding handle_lines
  read_bytes-stream keep [] t f = unfold read_bytes in refl
  read_bytes-stream keep (body ∷ bodies) t f = elim (Bool-cases t.reader_stop) [
    | inl s ↦ rw (read_stopped (stream (body ∷ bodies)) t (stream_nonempty body bodies) s) (rw s)
    | inr s ↦
        let (u, more) = frame lib on_message now body t in
        let o : t.options ≡ u.options = sym (frame-options keep body t) in
        let rest =
          read_bytes-stream keep bodies u
            (subst (λ x. All (FitsIn x.max_frame_bytes) bodies) o f.1) in
        rw (read_line body (stream bodies) t f.0.0 s f.0.1)
          (elim (Bool-cases more) [ inl m ↦ simp (s, m) rest | inr m ↦ simp (s, m) ])
  ]
