-- ===== src/Tests/Threads.antt =====
-- The executor, the stdio transport and native I/O: theorems applied to concrete runs.
use synapse_mcp.Base.{
  ◌≡◌, refl, ◌⊎◌, inl, ◌↔◌, ltb, pos, Bool, true, false, [], ◌∷◌, none, some, any, ok, is_ok, arith,
  ◌++◌,
}
use synapse_mcp.Json.{string}
use synapse_mcp.Protocol.{signed}
use synapse_mcp.Policy.{frame_fits}
use synapse_mcp.Executor.{Executor, Work, waiting, new_executor, enqueue, wait, join}
use synapse_mcp.Executor
use synapse_mcp.Transport.{
  start, new_transport, valid_limits, Transport, eof, io_error, requested_stop, protocol_limit,
  send, encode, newline, read_bytes, begin_close, claim_close, join_round, excessive_depth, frame,
}
use synapse_mcp.Transport
use synapse_mcp.Native.{State, Turn, Round, read_some, write_some, reading, wait_ready}
use synapse_mcp.Native
use synapse_mcp.Server.{Call}
use synapse_mcp.Tests.Fixtures.{
  frame_of_nothing, lib, stdio, limits, transport, executor, call, context,
}

Reach-new_executor-IsValid_example :
    Executor.Validity.IsValid {C = Call} (enqueue (signed (pos 1)) (some call) (new_executor 2)).0
Reach-new_executor-IsValid_example = Executor.Invariant.Reach-new_executor-IsValid 2 _ (
    Executor.Reach.next Executor.Reach.here
      (Executor.Step.enqueues (new_executor 2) (signed (pos 1)) (some call)))

abbrev loaded : Executor Call
loaded = record executor { pending = record { context = context; call = call } ∷ [] }

started-pending_example :
    Executor.Shutdown.started 2 loaded ≡ record { context = context; call = call } ∷ []
started-pending_example = Executor.Shutdown.started-pending loaded refl refl

Reach-stop_example :
    ((Executor.stop loaded).0.stopping ≡ true)
    × ((Executor.stop loaded).0.pending ≡ [])
    × (((Executor.stop loaded).0.active ≡ none) ⊎ ((Executor.stop loaded).0.active ≡ none))
Reach-stop_example =
    Executor.Shutdown.Reach-stop loaded (Executor.stop loaded).0 Executor.Reach.here

stop-wait_example :
    ((Executor.Shutdown.turns 3 (Executor.stop (new_executor {C = Call} 2)).0).finished ≡ true)
    × (wait false true (Executor.Shutdown.turns 3 (Executor.stop (new_executor {C = Call} 2)).0)
        ≡ some (join true))
stop-wait_example =
    Executor.Shutdown.stop-wait (new_executor 2) true (Executor.Validity.new_executor-IsValid 2)

send-Sent_example : Transport.Queue.Sent lib (string []) transport
send-Sent_example = Transport.Queue.send-Sent lib (string []) transport limits (omega arith)

-- A message is sent, the writer takes its frame, and the stream takes one byte of it.
abbrev sent : Transport
sent = (send lib (string []) transport).0

abbrev writing : Transport
writing = record sent { queue = []; writing = some (frame_of_nothing, 0) }

abbrev one_byte : Transport.Reach lib transport (Transport.write_answer 0 (some 1) writing)
unfolding send encode Transport.write_take
one_byte =
    Transport.Reach.next
      (Transport.Reach.next
        (Transport.Reach.next Transport.Reach.here (Transport.Step.sends transport (string [])))
        (Transport.Step.takes_frame sent writing 0 refl refl))
      (Transport.Step.writes writing (some 1) 0)

start-IsAccounted_example :
    Transport.Queue.IsAccounted stdio (Transport.write_answer 0 (some 1) writing)
    × (Transport.Output.joined (Transport.Output.accepted_frames one_byte)
        ≡ Transport.Output.output one_byte
          ++ Transport.Output.outstanding (Transport.write_answer 0 (some 1) writing))
unfolding start new_transport valid_limits
start-IsAccounted_example =
    Transport.Accounts.start-IsAccounted lib (ok tt) true true true stdio transport
      (Transport.write_answer 0 (some 1) writing) (omega arith) (omega arith) refl one_byte

encode-frame_fits_example :
    (encode lib 64 (string []) ≡ ok (frame_of_nothing))
    ↔ ((frame_fits lib (string []) 64 ≡ true) × (frame_of_nothing ≡ frame_of_nothing))
encode-frame_fits_example =
    Transport.Encoding.encode-frame_fits lib 64 (string []) frame_of_nothing (omega arith)

-- A callback that lets every message pass.
abbrev pass : Transport.MessageCallback
pass message t = (t, true)

read_bytes-stream_example :
    ◌≡◌ {A = Transport × Bool}
      (
        (read_bytes lib pass 0
            (Transport.Framing.stream lib pass 0 ((65 ∷ []) ∷ []))
            []
            transport).0,
        (read_bytes lib pass 0
            (Transport.Framing.stream lib pass 0 ((65 ∷ []) ∷ []))
            []
            transport).2,
      )
      (Transport.Framing.handle_lines lib pass 0 ((65 ∷ []) ∷ []) transport)
read_bytes-stream_example =
    Transport.Framing.read_bytes-stream lib pass 0 (λ v t. refl) ((65 ∷ []) ∷ []) transport
      (((refl, tt), omega arith), tt)

excessive_depth-peak_example :
    excessive_depth 1 (91 ∷ 91 ∷ [])
    ≡ ltb 1 (Transport.Depth.peak 0 (Transport.Depth.outside (91 ∷ 91 ∷ [])))
excessive_depth-peak_example = Transport.Depth.excessive_depth-peak 1 (91 ∷ 91 ∷ [])

abbrev closed : Transport
closed = record transport { closing = true; reason = some eof }

Reach-closing_example :
    (closed.closing ≡ true)
    × (closed.reason ≡ closed.reason)
    × ((begin_close io_error 3 closed).reason ≡ closed.reason)
    × (is_ok (send lib (string []) closed).1 ≡ false)
Reach-closing_example =
    Transport.Closing.Reach-closing lib closed closed io_error 3 (string []) refl
      Transport.Reach.here

abbrev turn : Turn
turn = record {
  stop_before = false;
  poll = ok (record { woken = false; invalid = false; ready = true });
  stop_after = false;
}

abbrev streams : State
streams = record { input = 3; output = 4; stopped = false; read_wake = false; write_wake = false }

read_write-any_example :
    any (Native.Waiting.is_transfer 5) (record { turns = turn ∷ []; answer = ok 5 } ∷ []) ≡ true
unfolding read_some Native.transfer wait_ready Native.wait_turn
read_write-any_example =
    Native.Waiting.read_write-any true 8 (record { turns = turn ∷ []; answer = ok 5 } ∷ []) streams
      streams 5 refl (inl refl)
