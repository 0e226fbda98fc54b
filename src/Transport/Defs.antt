-- ===== src/Transport/Defs.antt =====
-- include/synapse/transport.hpp: the state, start, the closing protocol, and joining.
use synapse_mcp.Base.{
  ℕ, ◌+◌, ◌-◌, ◌%◌, ◌^◌, min, Bool, true, false, not, ◌&&◌, ◌||◌, List, [], Option, none, some,
  Bytes, ascii, leb, ◌==◌, if◌then◌else◌, Expected, ok, err, is_some,
}
use synapse_mcp.Handlers.{SdkErrc, SdkError, invalid_state, resource_exhausted, StdioOptions}

pub data CloseReason : Type 0 where
  eof requested_stop io_error protocol_limit : CloseReason

-- `writing` is what the writer has taken off the queue, and how much of it is written. `has_message`
-- and `has_close` say whether the callbacks are set.
pub record Transport : Type 0 where
  pub options : StdioOptions
  pub open options use *
  pub has_io : Bool
  pub has_message : Bool
  pub has_close : Bool
  pub queue : List Bytes
  pub queued_bytes : ℕ
  pub writing : Option (Bytes × ℕ)
  pub consumed : Bool
  pub started : Bool
  pub released : Bool
  pub closing : Bool
  pub reader_done : Bool
  pub writer_done : Bool
  pub close_done : Bool
  pub close_claimed : Bool
  pub reason : Option CloseReason
  pub flush_deadline : ℕ
  pub reader_stop : Bool

-- Subtraction of `std::size_t`.
abbrev pub size_sub : ℕ → ℕ → ℕ
size_sub a b = (a + 2 ^ 64 - b) % 2 ^ 64

abbrev pub failure {ℓ} : {A : Type ℓ} → SdkErrc → Bytes → Expected A SdkError
failure code text = err (record { code = code; message = text })

unfoldable pub new_transport : StdioOptions → Transport
new_transport options = record {
  options = options;
  has_io = false;
  has_message = false;
  has_close = false;
  queue = [];
  queued_bytes = 0;
  writing = none;
  consumed = false;
  started = false;
  released = false;
  closing = false;
  reader_done = true;
  writer_done = true;
  close_done = true;
  close_claimed = false;
  reason = none;
  flush_deadline = 0;
  reader_stop = false;
}

-- The limits that `start` accepts; a flush budget is counted in milliseconds.
unfoldable pub valid_limits : StdioOptions → Bool
valid_limits o =
    not (o.max_frame_bytes == 0)
    && not (o.max_json_depth == 0)
    && not (o.max_outbound_bytes == 0)
    && not (o.flush_budget == 0)
    && leb o.flush_budget 250

-- The `catch` of `start`: the threads that were created see `started_` unset, end, and are joined.
abbrev pub abandon : Transport → Transport
abandon t = record t {
  closing = true;
  released = true;
  reader_done = true;
  writer_done = true;
  has_io = false;
}

-- `opened` is the answer of `native_stdio::open`, `threads` whether both threads could be created.
unfoldable pub start :
    Expected (Unit {0}) SdkError
    → Bool
    → Bool
    → Bool
    → Transport
    → Transport × Expected (Unit {0}) SdkError
unfolding valid_limits
start opened threads message close t =
    let used = record t { consumed = true } in
    let ready = record used { has_io = true; has_message = message; has_close = close } in
    if t.consumed
    then (t, failure invalid_state (ascii "Transport already started or stopped"))
    else if not (valid_limits t.options)
    then (used, failure invalid_state (ascii "Invalid stdio limits"))
    else elim opened [
      | err e ↦ (used, err e)
      | ok _ ↦
          if threads
          then (
            record ready {
              writer_done = false;
              reader_done = false;
              started = true;
              released = true;
            },
            ok tt,
          )
          else (abandon ready, failure resource_exhausted (ascii "Cannot start stdio work"))
    ]

-- The first reason to close is the one that counts. The reader is told outside the lock.
unfoldable pub begin_close : CloseReason → ℕ → Transport → Transport
begin_close reason now t = if t.closing then record t { consumed = true } else record t {
  consumed = true;
  closing = true;
  reason = some reason;
  flush_deadline = now + t.options.flush_budget;
  close_done = not t.started;
  reader_stop = true;
}

unfoldable pub stop : ℕ → Transport → Transport
unfolding begin_close
stop now t = begin_close requested_stop now t

-- The first critical section of `publish_close`: the reason to call back with, for one caller only.
unfoldable pub claim_close : Transport → Transport × Option CloseReason
claim_close t =
    if not t.started || not (is_some t.reason) || t.close_claimed
    then (t, none)
    else (record t { close_claimed = true }, t.reason)

-- The second, when the callback has returned or thrown.
unfoldable pub finish_close : Transport → Transport
finish_close t = record t { close_done = true }

-- One round of the loop of `join_until`, at time `now`; `none`: it waits another millisecond at
-- most. `inside` says that the caller stands in a callback of this transport.
unfoldable pub join_round : Bool → Option ℕ → ℕ → Transport → Option (Expected Bool SdkError)
join_round inside deadline now t =
    if inside
    then some (failure invalid_state (ascii "Cannot wait inside transport callback"))
    else if t.reader_done && t.writer_done && t.close_done
    then some (ok true)
    else elim deadline [ none ↦ none | some d ↦ if leb d now then some (ok false) else none ]

-- What a round asks of the native streams: to stop for good, and to cancel what is pending.
unfoldable pub join_requests : ℕ → Transport → Bool × Bool
join_requests now t = (t.has_io && t.closing && leb t.flush_deadline now, t.has_io && t.closing)

-- Largest JSON frame that can be admitted, excluding the newline delimiter.
unfoldable pub max_encoded_frame_bytes : Transport → ℕ
max_encoded_frame_bytes t =
    if t.options.max_outbound_bytes == 0
    then 0
    else min t.options.max_frame_bytes (size_sub t.options.max_outbound_bytes 1)
