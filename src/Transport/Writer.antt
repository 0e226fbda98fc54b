-- ===== src/Transport/Writer.antt =====
-- include/synapse/transport.hpp: the writer thread, the frame of both threads, and every
-- interleaving of the critical sections.
use synapse_mcp.Base.{
  ℕ, ◌+◌, ◌≡◌, Bool, true, false, not, ◌&&◌, List, [], ◌∷◌, Option, none, some, Bytes, leb, ltb,
  ◌==◌, if◌then◌else◌, length,
}
use synapse_mcp.Json.{Json, JsonLibrary}
use synapse_mcp.Transport.Defs.{
  CloseReason, io_error, Transport, size_sub, begin_close, claim_close, finish_close,
}
use synapse_mcp.Transport.Send.{send}

-- What the writer does when it looks at the queue.
pub data Take : Type 0 where
  blocked : Take
  returns : Take
  takes : Transport → Take

abbrev pub take_front : ℕ → Transport → List Bytes → Take
take_front now t [] = if t.closing then returns else blocked
take_front now t (bytes ∷ queue) =
    if t.closing && leb t.flush_deadline now
    then returns
    else takes (record t { queue = queue; writing = some (bytes, 0) })

unfoldable pub write_take : ℕ → Transport → Take
write_take now t = take_front now t t.queue

-- The accounting once a frame is written.
abbrev pub release_frame : Bytes → Transport → Transport
release_frame bytes t = record t {
  queued_bytes = size_sub t.queued_bytes (length bytes);
  writing = none;
}

-- One answer of `write_some` to the rest of the frame: an error, or a count; no count and the count
-- zero close the transport, and the frame stays accounted for.
abbrev pub write_count : ℕ → Option ℕ → Option (Bytes × ℕ) → Transport → Transport
write_count now count none t = t
write_count now none (some (bytes, offset)) t = begin_close io_error now t
write_count now (some n) (some (bytes, offset)) t =
    if n == 0
    then begin_close io_error now t
    else if ltb (offset + n) (length bytes)
    then record t { writing = some (bytes, offset + n) }
    else release_frame bytes t

unfoldable pub write_answer : ℕ → Option ℕ → Transport → Transport
write_answer now count t = write_count now count t.writing t

-- The wait at the head of `worker`: `none` until `start` has decided; a thread of a failed start
-- ends at once.
unfoldable pub worker_enter : Bool → Transport → Option (Transport × Bool)
worker_enter reading t =
    if not t.released
    then none
    else if t.started
    then some (t, true)
    else some (
      if reading then record t { reader_done = true } else record t { writer_done = true },
      false,
    )

-- Its end, when the loop has returned and the close is published.
unfoldable pub worker_leave : Bool → Transport → Transport
worker_leave reading t =
    if reading then record t { reader_done = true } else record t { writer_done = true }

-- Any thread may send and close; the writer takes and writes frames; both publish and leave.
pub data Step (lib : JsonLibrary) : Transport → Transport → Type 0 where
  sends : (t : Transport) (message : Json) → Step lib t (send lib message t).0
  closes : (t : Transport) (reason : CloseReason) (now : ℕ) → Step lib t (begin_close reason now t)
  claims : (t : Transport) → Step lib t (claim_close t).0
  finishes : (t : Transport) → t.close_claimed ≡ true → Step lib t (finish_close t)
  takes_frame :
      (t u : Transport) (now : ℕ) → t.writing ≡ none → write_take now t ≡ takes u → Step lib t u
  writes : (t : Transport) (count : Option ℕ) (now : ℕ) → Step lib t (write_answer now count t)
  leaves : (t : Transport) (reading : Bool) → Step lib t (worker_leave reading t)

pub data Reach (lib : JsonLibrary) (s : Transport) : Transport → Type 0 where
  here : Reach lib s s
  next : {t u : Transport} → Reach lib s t → Step lib t u → Reach lib s u
