-- ===== src/Transport/Reader.antt =====
-- include/synapse/transport.hpp: the reader thread, from bytes to messages.
use synapse_mcp.Base.{
  ℕ, ◌+◌, ◌-◌, Bool, true, false, not, ◌&&◌, ◌||◌, List, [], ◌∷◌, ◌++◌, Option, none, some, Bytes,
  ascii, neg, ◌==◌, if◌then◌else◌, Expected, ok, err, length, is_empty, is_ok,
}
use synapse_mcp.Json.{
  Json, null, number_integer, string, object, object_of, JsonLibrary, ParseError, parse_error,
  out_of_range,
}
use synapse_mcp.Transport.Defs.{eof, io_error, protocol_limit, Transport, begin_close}
use synapse_mcp.Transport.Send.{send, newline}

-- The loop of `excessive_depth`, over its variables.
unfoldable pub depth_exceeds : ℕ → ℕ → Bool → Bool → Bytes → Bool
depth_exceeds limit depth quoted escaped [] = false
depth_exceeds limit depth true true (ch ∷ line) = depth_exceeds limit depth true false line
depth_exceeds limit depth true false (ch ∷ line) =
    depth_exceeds limit depth (not (ch == b'"')) (ch == b'\\') line
depth_exceeds limit depth false escaped (ch ∷ line) =
    let quote = depth_exceeds limit depth true escaped line in
    let deeper = depth_exceeds limit (depth + 1) false escaped line in
    let shallower = depth_exceeds limit (depth - 1) false escaped line in
    let same = depth_exceeds limit depth false escaped line in
    if ch == b'"'
    then quote
    else if ch == b'{' || ch == b'['
    then (if depth == limit then true else deeper)
    else if (ch == b'}' || ch == b']') && not (depth == 0)
    then shallower
    else same

unfoldable pub excessive_depth : ℕ → Bytes → Bool
unfolding depth_exceeds
excessive_depth limit line = depth_exceeds limit 0 false false line

-- What is sent for a line that is no JSON.
unfoldable pub parse_diagnostic : Json
parse_diagnostic = object (
    object_of (
      (ascii "jsonrpc", string (ascii "2.0"))
      ∷ (ascii "id", null)
      ∷ (
        ascii "error",
        object (
            object_of (
              (ascii "code", number_integer (neg 32700))
              ∷ (ascii "message", string (ascii "Parse error"))
              ∷ [])),
      )
      ∷ []))

-- What the message callback does: to the transport, which it may send on or stop, and whether it
-- returns or throws.
abbrev pub MessageCallback : Type 0
MessageCallback = Json → Transport → Transport × Bool

-- `now` is the clock at the calls of `begin_close`.
module _ (lib : JsonLibrary) (on_message : MessageCallback) (now : ℕ) where
  abbrev pub deliver : Json → Transport → Transport × Bool
  deliver v t =
      if t.has_message
      then (let (u, returned) = on_message v t in
          if returned then (u, true) else (begin_close io_error now u, false))
      else (t, true)

  abbrev pub send_diagnostic : Transport → Transport × Bool
  send_diagnostic t =
      let (u, sent) = send lib parse_diagnostic t in
      if is_ok sent then (u, true) else (begin_close protocol_limit now u, false)

  -- An exception that is no parse failure leaves `read_loop`, and `worker` closes.
  abbrev pub handle_parsed : Expected Json ParseError → Transport → Transport × Bool
  handle_parsed (ok v) t = deliver v t
  handle_parsed (err parse_error) t = send_diagnostic t
  handle_parsed (err (out_of_range id)) t =
      if id == 406 then send_diagnostic t else (begin_close io_error now t, false)

  unfoldable pub frame : Bytes → Transport → Transport × Bool
  frame line t =
      if is_empty line
      then (t, true)
      else if excessive_depth t.options.max_json_depth line
      then (begin_close protocol_limit now t, false)
      else handle_parsed (lib.parse line) t

  -- One byte; the flag says that the loop goes on.
  unfoldable pub read_byte : ℕ → Bytes → Transport → Transport × Bytes × Bool
  read_byte byte line t =
      if t.reader_stop
      then (t, line, false)
      else if byte == newline
      then (let (u, more) = frame line t in if more then (u, [], true) else (u, line, false))
      else if length line == t.options.max_frame_bytes
      then (begin_close protocol_limit now t, line, false)
      else (t, line ++ byte ∷ [], true)

  -- The `for` loop over a buffer.
  unfoldable pub read_bytes : Bytes → Bytes → Transport → Transport × Bytes × Bool
  read_bytes [] line t = (t, line, true)
  read_bytes (b ∷ bytes) line t =
      let (u, line', more) = read_byte b line t in
      elim more [ true ↦ read_bytes bytes line' u | false ↦ (u, line', false) ]

  -- What follows one answer of `read_some`: `none` is an error, no bytes the end of the stream.
  unfoldable pub read_answer : Option Bytes → Bytes → Transport → Transport × Bytes × Bool
  unfolding read_bytes
  read_answer none line t = (if t.reader_stop then t else begin_close io_error now t, line, false)
  read_answer (some []) line t =
      if is_empty line
      then (begin_close eof now t, line, false)
      else (let (u, more) = frame line t in
          (if more then begin_close eof now u else u, line, false))
  read_answer (some (b ∷ bytes)) line t = read_bytes (b ∷ bytes) line t

  -- The loop over the answers; the flag says that it waits for another.
  unfoldable pub read_loop : List (Option Bytes) → Bytes → Transport → Transport × Bytes × Bool
  unfolding read_answer
  read_loop [] line t = (t, line, not t.reader_stop)
  read_loop (a ∷ answers) line t = elim t.reader_stop [
    | true ↦ (t, line, false)
    | false ↦
        let (u, line', more) = read_answer a line t in
        elim more [ true ↦ read_loop answers line' u | false ↦ (u, line', false) ]
  ]
