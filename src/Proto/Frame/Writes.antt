-- ===== src/Proto/Frame/Writes.antt =====
-- The loop of `writeAll` and the frames that `WriteFrame` sends.
use persea_terminal.Base.{
  ℕ, ◌-◌, ◌≤◌, ◌<◌, ◌≡◌, refl, sym, ap, ◌∙◌, ◌≢◌, ◌⊎◌, inl, inr, true, List, [], ◌∷◌, ◌++◌,
  append-nil, append_assoc, arith, ltb, ◌==◌, Bool-cases, length, take, drop, length-drop,
  take-append-drop, subst,
}
use persea_terminal.Proto.Frame.{
  then_payload, header_of, limit_for, WriteAnswer, accepts, fails, WriteOutcome, written,
  write_failed, short_write, blocked, panics, bad_type, bad_length, Sent, write_all, write_frame,
}

-- Whatever the writer answers, what has gone out is a prefix of the bytes given, and all of them if
-- `writeAll` succeeds.
pub record SentPrefix (p out : List ℕ) (s : Sent) : Type 0 where
  pub sent : List ℕ
  pub unsent : List ℕ
  pub split : p ≡ sent ++ unsent
  pub out_now : s.1 ≡ out ++ sent
  pub all_sent : s.0 ≡ written → unsent ≡ []

stuck :
    (p out : List ℕ) (outcome : WriteOutcome) (answers : List WriteAnswer)
    → outcome ≢ written
    → SentPrefix p out (outcome, out, answers)
stuck p out outcome answers h = record {
  sent = [];
  unsent = p;
  split = refl;
  out_now = sym (append-nil out);
  all_sent = λ e. absurd (h e);
}

pub write_all-SentPrefix :
    (answers : List WriteAnswer) (p out : List ℕ) → SentPrefix p out (write_all answers p out)
unfolding write_all
write_all-SentPrefix answers [] out = record {
  sent = [];
  unsent = [];
  split = refl;
  out_now = sym (append-nil out);
  all_sent = λ _. refl;
}
write_all-SentPrefix [] (b ∷ p) out = stuck (b ∷ p) out blocked [] (λ e. cc)
write_all-SentPrefix (fails ∷ answers) (b ∷ p) out =
    stuck (b ∷ p) out write_failed answers (λ e. cc)
write_all-SentPrefix (accepts n ∷ answers) (b ∷ p) out = elim (Bool-cases (n == 0)) [
  | inl none_taken ↦ rw none_taken (stuck (b ∷ p) out short_write answers (λ e. cc))
  | inr some_taken ↦ elim (Bool-cases (ltb (length (b ∷ p)) n)) [
    | inl too_many ↦ rw (some_taken, too_many) (stuck (b ∷ p) out panics answers (λ e. cc))
    | inr fits ↦
        let rest = write_all-SentPrefix answers (drop n (b ∷ p)) (out ++ take n (b ∷ p)) in
        rw (some_taken, fits)
          (record {
            sent = take n (b ∷ p) ++ rest.sent;
            unsent = rest.unsent;
            split =
                sym (take-append-drop n (b ∷ p))
                ∙ ap (◌++◌ (take n (b ∷ p))) rest.split
                ∙ sym (append_assoc (take n (b ∷ p)) rest.sent rest.unsent);
            out_now = rest.out_now ∙ append_assoc out (take n (b ∷ p)) rest.sent;
            all_sent = rest.all_sent;
          })
  ]
]

-- A writer that keeps the contract of io.Writer and does not fail: each call accepts at least one of
-- the bytes that are left, until none is left.
abbrev pub Serves : List WriteAnswer → ℕ → Type 0
Serves [] r = r ≡ 0
Serves (fails ∷ answers) r = r ≡ 0
Serves (accepts n ∷ answers) r = (r ≡ 0) ⊎ ((0 < n) × (n ≤ r) × Serves answers (r - n))

write_all_written :
    (answers : List WriteAnswer) (p out : List ℕ)
    → (write_all answers p out).0 ≡ written
    → (write_all answers p out).1 ≡ out ++ p
write_all_written answers p out h =
    let s = write_all-SentPrefix answers p out in
    s.out_now
    ∙ ap (◌++◌ out) (sym (append-nil s.sent) ∙ ap (◌++◌ s.sent) (sym (s.all_sent h)) ∙ sym s.split)

Serves-written :
    (answers : List WriteAnswer) (p out : List ℕ)
    → Serves answers (length p)
    → (write_all answers p out).0 ≡ written
unfolding write_all
Serves-written answers [] out h = refl
Serves-written [] (b ∷ p) out h = absurd (omega arith)
Serves-written (fails ∷ answers) (b ∷ p) out h = absurd (omega arith)
Serves-written (accepts n ∷ answers) (b ∷ p) out (inl h) = absurd (omega arith)
Serves-written (accepts n ∷ answers) (b ∷ p) out (inr (some_taken, fits, h)) = ground (
  arith,
  Serves-written answers (drop n (b ∷ p)) (out ++ take n (b ∷ p))
      (subst (Serves answers) (sym (length-drop n (b ∷ p))) h),
)

-- Through a writer that serves, in however many pieces, `writeAll` succeeds, and what has gone out
-- behind what went out before is exactly the bytes given.
pub write_all-Serves :
    (answers : List WriteAnswer) (p out : List ℕ)
    → Serves answers (length p)
    → ((write_all answers p out).0 ≡ written) × ((write_all answers p out).1 ≡ out ++ p)
write_all-Serves answers p out h =
    let done = Serves-written answers p out h in (done, write_all_written answers p out done)

-- What `WriteFrame` has sent when it succeeds: a known type, a payload within its limit, and the
-- header and the payload, whole.
pub record FrameSent (t : ℕ) (payload out : List ℕ) : Type 0 where
  pub known : (limit_for t).1 ≡ true
  pub within : length payload ≤ (limit_for t).0
  pub bytes : out ≡ header_of t (length payload) ++ payload

then_payload_written :
    (r : Sent) (payload : List ℕ)
    → (then_payload r payload).0 ≡ written
    → (r.0 ≡ written) × ((then_payload r payload).1 ≡ r.1 ++ payload)
unfolding then_payload
then_payload_written (written, out, answers) payload h =
    (refl, write_all_written answers payload out h)
then_payload_written (write_failed, out, answers) payload h = cc
then_payload_written (short_write, out, answers) payload h = cc
then_payload_written (blocked, out, answers) payload h = cc
then_payload_written (panics, out, answers) payload h = cc
then_payload_written (bad_type, out, answers) payload h = cc
then_payload_written (bad_length, out, answers) payload h = cc

pub write_frame-FrameSent :
    (answers : List WriteAnswer) (t : ℕ) (payload : List ℕ)
    → (write_frame answers t payload).0 ≡ written
    → FrameSent t payload (write_frame answers t payload).1
unfolding write_frame
write_frame-FrameSent answers t payload h = elim (Bool-cases (limit_for t).1) [
  | inr unknown ↦ ground (arith, unknown)
  | inl known ↦ elim (Bool-cases (ltb (limit_for t).0 (length payload))) [
    | inl over ↦ ground (arith, known, over)
    | inr fits ↦
        let sent = write_all answers (header_of t (length payload)) [] in
        let (head_sent, all_sent) =
          then_payload_written sent payload (
            let e : (then_payload sent payload).0 ≡ written = ground (arith, known, fits, h) in
            e) in
        record {
          known = known;
          within = ground (arith, fits);
          bytes = ground (
            arith,
            known,
            fits,
            all_sent,
            write_all_written answers (header_of t (length payload)) [] head_sent,
          );
        }
  ]
]
