-- ===== src/Transport/Accounts.antt =====
-- include/synapse/transport.hpp: the accounting of outgoing frames, between all threads.
use synapse_mcp.Base.{
  Bool, Expected, Expected-cases, ℕ, ◌^◌, ◌<◌, ◌≡◌, refl, subst, true, false, List, [], ◌∷◌, Option,
  none, some, Bytes, arith, ok, length, Bool-cases, inl, inr, ap, sym, ◌∙◌, ◌++◌,
}
use synapse_mcp.Json.{JsonLibrary}
use synapse_mcp.Handlers.{SdkError, StdioOptions}
use synapse_mcp.Transport.Defs.{
  CloseReason, io_error, Transport, begin_close, claim_close, finish_close,
}
use synapse_mcp.Transport.Writer.{
  takes, take_front, write_take, write_count, write_answer, worker_leave, Step, sends, closes,
  claims, finishes, takes_frame, writes, leaves,
}
use synapse_mcp.Transport.Queue.{IsAccounted, AreLimits, size_sub_lem, send-IsAccounted}
use synapse_mcp.Transport.Defs.{start, new_transport, valid_limits}
use synapse_mcp.Transport.Writer.{Reach, here, next}
use synapse_mcp.Transport.Output.{joined, outstanding, accepted_frames, output, Reach-outstanding}

begin_close-IsAccounted :
    (o : StdioOptions) (reason : CloseReason) (now : ℕ) (t : Transport)
    → IsAccounted o t
    → IsAccounted o (begin_close reason now t)
unfolding begin_close
begin_close-IsAccounted o reason now t a = ground arith

take_front-IsAccounted :
    (o : StdioOptions) (now : ℕ) (t u : Transport) (fs : List Bytes)
    → t.queue ≡ fs
    → t.writing ≡ none
    → take_front now t fs ≡ takes u
    → IsAccounted o t
    → IsAccounted o u
take_front-IsAccounted o now t u [] e w h a = ground arith
take_front-IsAccounted o now t u (f ∷ fs) e w h a = ground arith

write_count-IsAccounted :
    (o : StdioOptions) (now : ℕ) (count : Option ℕ) (held_frame : Option (Bytes × ℕ))
    (t : Transport)
    → AreLimits o
    → t.writing ≡ held_frame
    → IsAccounted o t
    → IsAccounted o (write_count now count held_frame t)
write_count-IsAccounted o now count none t l e a = a
write_count-IsAccounted o now none (some (f, offset)) t l e a =
    begin_close-IsAccounted o io_error now t a
write_count-IsAccounted o now (some n) (some (f, offset)) t l e a = ground (
  arith,
  begin_close-IsAccounted o io_error now t a,
  size_sub_lem t.queued_bytes (length f),
  l.outbound_size,
)

pub Step-IsAccounted :
    {lib : JsonLibrary} {t u : Transport} (o : StdioOptions)
    → AreLimits o
    → Step lib t u
    → IsAccounted o t
    → IsAccounted o u
unfolding claim_close finish_close write_take write_answer worker_leave
Step-IsAccounted {lib} o l (sends t message) a = send-IsAccounted lib o message t l a
Step-IsAccounted o l (closes t reason now) a = begin_close-IsAccounted o reason now t a
Step-IsAccounted o l (claims t) a = ground arith
Step-IsAccounted o l (finishes t h) a = ground arith
Step-IsAccounted o l (takes_frame t u now w h) a =
    take_front-IsAccounted o now t u t.queue refl w h a
Step-IsAccounted o l (writes t count now) a =
    write_count-IsAccounted o now count t.writing t l refl a
Step-IsAccounted o l (leaves t reading) a = ground arith

Reach-IsAccounted :
    {lib : JsonLibrary} {t u : Transport} (o : StdioOptions)
    → AreLimits o
    → IsAccounted o t
    → Reach lib t u
    → IsAccounted o u
Reach-IsAccounted o l a here = a
Reach-IsAccounted o l a (next r s) = Step-IsAccounted o l s (Reach-IsAccounted o l a r)

-- What a start that succeeds leaves.
abbrev begun : Bool → Bool → StdioOptions → Transport
begun message close o = record (new_transport o) {
  consumed = true;
  has_io = true;
  has_message = message;
  has_close = close;
  writer_done = false;
  reader_done = false;
  started = true;
  released = true;
}

begun-IsAccounted :
    (message close : Bool) (o : StdioOptions) → IsAccounted o (begun message close o)
unfolding new_transport
begun-IsAccounted message close o = ground arith

start-Begun :
    (opened : Expected (Unit {0}) SdkError) (threads message close : Bool) (o : StdioOptions)
    (t : Transport)
    → start opened threads message close (new_transport o) ≡ (t, ok tt)
    → (valid_limits o ≡ true) × (t ≡ begun message close o)
unfolding start new_transport
start-Begun opened threads message close o t h = elim (Bool-cases (valid_limits o)) [
  | inr bad ↦ absurd (ground arith)
  | inl valid ↦ elim (Expected-cases opened) [
    | inr (e, failed) ↦ absurd (ground arith)
    | inl (u, fine) ↦ elim (Bool-cases threads) [
      | inr none_made ↦ absurd (ground arith)
      | inl made ↦ (valid, ground arith)
    ]
  ]
]

-- From a start that succeeds with limits of 64 bits, whatever the threads do, the counter of queued
-- bytes is the sum of the frames that are queued or being written, so no subtraction wraps; it stays
-- within the outbound limit; each of these frames is not empty and within the frame limit; and the
-- bytes written so far, followed by what is outstanding (the rest of the frame being written and
-- the queued frames), are exactly the frames that `send` accepted, each whole and in the order in
-- which it accepted them.
pub start-IsAccounted :
    (lib : JsonLibrary) (opened : Expected (Unit {0}) SdkError) (threads message close : Bool)
    (o : StdioOptions) (t u : Transport)
    → o.max_outbound_bytes < 2 ^ 64
    → o.max_frame_bytes < 2 ^ 64
    → start opened threads message close (new_transport o) ≡ (t, ok tt)
    → (run : Reach lib t u)
    → IsAccounted o u × (joined (accepted_frames run) ≡ output run ++ outstanding u)
unfolding valid_limits new_transport
start-IsAccounted lib opened threads message close o t u outbound frame h run =
    let (valid, e) = start-Begun opened threads message close o t h in
    let limits : AreLimits o = record {
      outbound_pos = ground arith;
      outbound_size = outbound;
      frame_size = frame;
    } in
    let fresh : outstanding t ≡ [] = ap outstanding e in
    let a = subst (IsAccounted o) (sym e) (begun-IsAccounted message close o) in
    (
      Reach-IsAccounted o limits a run,
      ap (λ l. l ++ joined (accepted_frames run)) (sym fresh) ∙ Reach-outstanding run,
    )
