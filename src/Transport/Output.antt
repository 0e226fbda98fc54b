-- ===== src/Transport/Output.antt =====
-- include/synapse/transport.hpp: the bytes that the writer writes, and the frames that `send` accepts.
use synapse_mcp.Base.{
  ◌≡◌, refl, sym, ap, ◌∙◌, ℕ, ◌+◌, ◌≤◌, Bool, true, false, not, ◌||◌, List, [], ◌∷◌, ◌++◌,
  append_assoc, append-nil, Option, none, some, Bytes, ltb, ◌==◌, is_ok, Expected, Expected-cases,
  ok, err, min, length, take, drop, take-drop, drop-drop, drop_all, arith, Bool-cases, inl, inr,
  zero, suc, leb, ◌&&◌,
}
use synapse_mcp.Json.{Json, JsonLibrary}
use synapse_mcp.Handlers.{SdkError}
use synapse_mcp.Transport.Defs.{
  CloseReason, io_error, Transport, size_sub, begin_close, claim_close, finish_close,
}
use synapse_mcp.Transport.Send.{encode, enqueue_frame, send}
use synapse_mcp.Transport.Writer.{
  takes, take_front, write_take, write_count, write_answer, worker_leave, Step, sends, closes,
  claims, finishes, takes_frame, writes, leaves, Reach, here, next,
}

-- The frames, one behind the other.
abbrev pub joined : List Bytes → Bytes
joined [] = []
joined (f ∷ fs) = f ++ joined fs

-- What an answer of `write_some` says to be written.
abbrev pub written_part : Option ℕ → Option (Bytes × ℕ) → Bytes
written_part none writing = []
written_part (some n) none = []
written_part (some n) (some (f, offset)) = take n (drop offset f)

abbrev pub rest : Option (Bytes × ℕ) → Bytes
rest none = []
rest (some (f, offset)) = drop offset f

-- What is still to be written.
abbrev pub outstanding : Transport → Bytes
outstanding t = rest t.writing ++ joined t.queue

abbrev pub kept : Expected Bytes SdkError → Bool → List Bytes
kept (err e) taken = []
kept (ok f) true = f ∷ []
kept (ok f) false = []

-- The frame of a message, when `send` takes it.
abbrev pub accepted : JsonLibrary → Json → Transport → List Bytes
accepted lib message t =
    let limit = min t.options.max_frame_bytes (size_sub t.options.max_outbound_bytes 1) in
    kept (encode lib limit message) (is_ok (send lib message t).1)

module _ {lib : JsonLibrary} where
  unfoldable pub step_accepted : {t u : Transport} → Step lib t u → List Bytes
  step_accepted (sends t message) = accepted lib message t
  step_accepted _ = []

  unfoldable pub step_output : {t u : Transport} → Step lib t u → Bytes
  step_output (writes t count now) = written_part count t.writing
  step_output _ = []

  -- The frames that were accepted on the way, in their order, and the bytes that were written.
  unfoldable pub accepted_frames : {s t : Transport} → Reach lib s t → List Bytes
  unfolding step_accepted
  accepted_frames here = []
  accepted_frames (next run step) = accepted_frames run ++ step_accepted step

  unfoldable pub output : {s t : Transport} → Reach lib s t → Bytes
  unfolding step_output
  output here = []
  output (next run step) = output run ++ step_output step

joined-append : (fs gs : List Bytes) → joined (fs ++ gs) ≡ joined fs ++ joined gs
joined-append [] gs = refl
joined-append (f ∷ fs) gs =
    ap (λ l. f ++ l) (joined-append fs gs) ∙ sym (append_assoc f (joined fs) (joined gs))

kept_none : (r : Expected Bytes SdkError) → kept r false ≡ []
kept_none (ok f) = refl
kept_none (err e) = refl

enqueue_frame-outstanding :
    (f : Bytes) (t : Transport)
    → outstanding (enqueue_frame f t).0
      ≡ outstanding t ++ joined (kept (ok f) (is_ok (enqueue_frame f t).1))
enqueue_frame-outstanding f t =
    elim (Bool-cases (ltb (size_sub t.options.max_outbound_bytes t.queued_bytes) (length f))) [
      | inl full ↦ rw full (sym (append-nil (outstanding t)))
      | inr room ↦ rw room (
          ap (λ l. rest t.writing ++ l) (joined-append t.queue (f ∷ []))
          ∙ sym (append_assoc (rest t.writing) (joined t.queue) (joined (f ∷ []))))
    ]

send-outstanding :
    (lib : JsonLibrary) (message : Json) (t : Transport)
    → outstanding (send lib message t).0 ≡ outstanding t ++ joined (accepted lib message t)
unfolding send
send-outstanding lib message t =
    let limit = min t.options.max_frame_bytes (size_sub t.options.max_outbound_bytes 1) in
    elim (Bool-cases (not t.started || t.closing)) [
      | inl idle ↦
          rw (idle, kept_none (encode lib limit message)) (sym (append-nil (outstanding t)))
      | inr running ↦ elim (Expected-cases (encode lib limit message)) [
        | inl (f, e) ↦ rw (running, e) (enqueue_frame-outstanding f t)
        | inr (x, e) ↦ rw (running, e) (sym (append-nil (outstanding t)))
      ]
    ]

begin_close-outstanding :
    (reason : CloseReason) (now : ℕ) (t : Transport)
    → outstanding (begin_close reason now t) ≡ outstanding t
unfolding begin_close
begin_close-outstanding reason now t = ground arith

take_front-outstanding :
    (now : ℕ) (t u : Transport) (fs : List Bytes)
    → t.queue ≡ fs
    → t.writing ≡ none
    → take_front now t fs ≡ takes u
    → outstanding u ≡ outstanding t
take_front-outstanding now t u [] e w h = ground arith
take_front-outstanding now t u (f ∷ fs) e w h =
    elim (Bool-cases (t.closing && leb t.flush_deadline now)) [
      | inl late ↦ absurd (ground arith)
      | inr early ↦ ground (arith, e, w)
    ]

written-rest :
    (n offset : ℕ) (f : Bytes) → take n (drop offset f) ++ drop (offset + n) f ≡ drop offset f
written-rest n offset f =
    ap (λ l. take n (drop offset f) ++ l) (sym (drop-drop offset n f)) ∙ take-drop n (drop offset f)

last_part :
    (n offset : ℕ) (f : Bytes) → length f ≤ offset + n → take n (drop offset f) ≡ drop offset f
last_part n offset f h =
    sym (append-nil (take n (drop offset f)))
    ∙ ap (λ l. take n (drop offset f) ++ l) (sym (drop_all (offset + n) f h))
    ∙ written-rest n offset f

write_count-outstanding :
    (now : ℕ) (count : Option ℕ) (writing : Option (Bytes × ℕ)) (t : Transport)
    → t.writing ≡ writing
    → written_part count writing ++ outstanding (write_count now count writing t) ≡ outstanding t
write_count-outstanding now none none t e = refl
write_count-outstanding now (some n) none t e = refl
write_count-outstanding now none (some (f, offset)) t e = begin_close-outstanding io_error now t
write_count-outstanding now (some zero) (some (f, offset)) t e =
    begin_close-outstanding io_error now t
write_count-outstanding now (some (suc m)) (some (f, offset)) t e =
    let positive : (suc m == 0) ≡ false = ground arith in
    let whole = sym (ap (λ w. rest w ++ joined t.queue) e) in
    elim (Bool-cases (ltb (offset + suc m) (length f))) [
      | inl part ↦
          rw (positive, part)
            (sym (
                append_assoc (take (suc m) (drop offset f)) (drop (offset + suc m) f)
                  (joined t.queue))
              ∙ ap (λ l. l ++ joined t.queue) (written-rest (suc m) offset f)
              ∙ whole)
      | inr all ↦
          rw (positive, all)
            (ap (λ l. l ++ joined t.queue) (last_part (suc m) offset f (ground arith)) ∙ whole)
    ]

Step-outstanding :
    {lib : JsonLibrary} {t u : Transport} (step : Step lib t u)
    → step_output step ++ outstanding u ≡ outstanding t ++ joined (step_accepted step)
unfolding step_output step_accepted claim_close finish_close write_take write_answer worker_leave
Step-outstanding {lib} (sends t message) = send-outstanding lib message t
Step-outstanding (closes t reason now) =
    begin_close-outstanding reason now t ∙ sym (append-nil (outstanding t))
Step-outstanding (claims t) = ground (arith, append-nil (outstanding t))
Step-outstanding (finishes t h) = sym (append-nil (outstanding t))
Step-outstanding (takes_frame t u now w h) =
    take_front-outstanding now t u t.queue refl w h ∙ sym (append-nil (outstanding t))
Step-outstanding (writes t count now) =
    write_count-outstanding now count t.writing t refl ∙ sym (append-nil (outstanding t))
Step-outstanding (leaves t reading) = ground (arith, append-nil (outstanding t))

-- What was accepted is what was outstanding before, and what was written and is outstanding now.
pub Reach-outstanding :
    {lib : JsonLibrary} {s t : Transport} (run : Reach lib s t)
    → outstanding s ++ joined (accepted_frames run) ≡ output run ++ outstanding t
unfolding accepted_frames output
Reach-outstanding {s = s} here = append-nil (outstanding s)
Reach-outstanding {s = s} (next {t = t} {u = u} run step) =
    ap (λ l. outstanding s ++ l) (joined-append (accepted_frames run) (step_accepted step))
    ∙ sym
        (append_assoc (outstanding s) (joined (accepted_frames run)) (joined (step_accepted step)))
    ∙ ap (λ l. l ++ joined (step_accepted step)) (Reach-outstanding run)
    ∙ append_assoc (output run) (outstanding t) (joined (step_accepted step))
    ∙ ap (λ l. output run ++ l) (sym (Step-outstanding step))
    ∙ sym (append_assoc (output run) (step_output step) (outstanding u))
