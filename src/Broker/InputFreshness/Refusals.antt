-- ===== src/Broker/InputFreshness/Refusals.antt =====
-- What a refusal means for the inputs behind it.
use persea_terminal.Base.{
  ℕ, zero, suc, ◌+◌, ◌-◌, ◌%◌, ◌≤◌, ◌≡◌, refl, inl, inr, Bool, true, false, ◌||◌, Option, arith,
  ltb, leb, ◌==◌, if◌then◌else◌, Bool-cases, subst,
}
use persea_terminal.Broker.InputFreshness.{
  delivered_marks, DeliveredMark, InputFreshness, mark_at, apply_receipted, push_mark, delivered,
  receipt, is_current, admit,
}
use persea_terminal.Broker.InputFreshness.Admission.{
  Answered, not_live, resumes, stays_paused, pauses, passes, admit-Answered,
}

-- Any calls after a refusal at a time, up to the next input that is accepted: marks that are
-- delivered, receipts, and inputs that are refused, no earlier than the refusal.
pub data Later (since : ℕ) (refused : InputFreshness) : InputFreshness → Type 0 where
  refused_now : Later since refused refused
  delivers :
      {fresh : InputFreshness} (frames sequence : ℕ)
      → Later since refused fresh
      → Later since refused (delivered fresh frames sequence)
  receipts :
      {fresh : InputFreshness} (frames written : ℕ)
      → Later since refused fresh
      → Later since refused (receipt fresh frames written).1
  refuses :
      {fresh : InputFreshness} (now quiet : ℕ) (required : Option ℕ)
      → Later since refused fresh
      → since ≤ now
      → (admit fresh now quiet required).0 ≡ false
      → Later since refused (admit fresh now quiet required).2

-- A gate that was refused at this time or later, and not opened again.
record IsPaused (since : ℕ) (fresh : InputFreshness) : Type 0 where
  live : fresh.live ≡ true
  paused : fresh.paused ≡ true
  late : since ≤ fresh.refused_at

either-IsPaused :
    (since : ℕ) (b : Bool) (x y : InputFreshness)
    → IsPaused since x
    → IsPaused since y
    → IsPaused since (if b then x else y)
either-IsPaused since true x y f g = f
either-IsPaused since false x y f g = g

apply_receipted-IsPaused :
    (since left : ℕ) (fresh : InputFreshness)
    → IsPaused since fresh
    → IsPaused since (apply_receipted left fresh)
unfolding apply_receipted
apply_receipted-IsPaused since zero fresh p = p
apply_receipted-IsPaused since (suc left) fresh p =
    either-IsPaused since (leb (mark_at fresh.marks fresh.head).frames fresh.receipted) _ fresh
      (apply_receipted-IsPaused since left
        (record fresh {
          consumed = (mark_at fresh.marks fresh.head).sequence;
          head = (fresh.head + 1) % delivered_marks;
          count = fresh.count - 1;
        })
        (record { live = p.live; paused = p.paused; late = p.late }))
      p

push_mark-IsPaused :
    (since : ℕ) (fresh : InputFreshness) (m : DeliveredMark)
    → IsPaused since fresh
    → IsPaused since (push_mark fresh m)
unfolding push_mark
push_mark-IsPaused since fresh m p =
    either-IsPaused since (fresh.count == delivered_marks) _ _
      (record { live = p.live; paused = p.paused; late = p.late })
      (record { live = p.live; paused = p.paused; late = p.late })

delivered-IsPaused :
    (since : ℕ) (fresh : InputFreshness) (frames sequence : ℕ)
    → IsPaused since fresh
    → IsPaused since (delivered fresh frames sequence)
unfolding delivered
delivered-IsPaused since fresh frames sequence p =
    let m : DeliveredMark = record { frames = frames; sequence = sequence } in
    either-IsPaused since _ fresh _ p (
      apply_receipted-IsPaused since (push_mark fresh m).count (push_mark fresh m)
        (push_mark-IsPaused since fresh m p))

receipt-IsPaused :
    (since : ℕ) (fresh : InputFreshness) (frames written : ℕ)
    → IsPaused since fresh
    → IsPaused since (receipt fresh frames written).1
unfolding receipt
receipt-IsPaused since fresh frames written p =
    elim (Bool-cases (leb frames fresh.receipted || ltb written frames)) [
      | inl bad ↦
          subst (IsPaused since)
            (let e : fresh ≡ (receipt fresh frames written).1 = ground (arith, bad) in e) p
      | inr good ↦
          subst (IsPaused since)
            (let e : apply_receipted fresh.count (record fresh { receipted = frames })
                  ≡ (receipt fresh frames written).1 =
                ground (arith, good) in
              e)
            (apply_receipted-IsPaused since fresh.count (record fresh { receipted = frames })
              (record { live = p.live; paused = p.paused; late = p.late }))
    ]

-- A refusal pauses, whatever the gate was.
refused-IsPaused :
    (since : ℕ) (fresh : InputFreshness) (now quiet : ℕ) (required : Option ℕ)
    → since ≤ now
    → (admit fresh now quiet required).0 ≡ false
    → IsPaused since (admit fresh now quiet required).2
refused-IsPaused since fresh now quiet required h refused =
    paused (admit-Answered fresh now quiet required) refused
  where
    paused :
        {x : Bool × Bool × InputFreshness}
        → Answered fresh now quiet required x
        → x.0 ≡ false
        → IsPaused since x.2
    paused (not_live d) e = cc
    paused (resumes a b c) e = cc
    paused (stays_paused l p) e = record { live = l; paused = p; late = h }
    paused (pauses l p) e = record { live = l; paused = refl; late = h }
    paused (passes a b) e = cc

Later-IsPaused :
    (since : ℕ) (refused : InputFreshness) {fresh : InputFreshness}
    → IsPaused since refused
    → Later since refused fresh
    → IsPaused since fresh
Later-IsPaused since refused p refused_now = p
Later-IsPaused since refused p (delivers {fresh} frames sequence r) =
    delivered-IsPaused since fresh frames sequence (Later-IsPaused since refused p r)
Later-IsPaused since refused p (receipts {fresh} frames written r) =
    receipt-IsPaused since fresh frames written (Later-IsPaused since refused p r)
Later-IsPaused since refused p (refuses {fresh} now quiet required r h denied) =
    refused-IsPaused since fresh now quiet required h denied

-- After an input was refused, and any marks, receipts and refused inputs behind it: the next input is
-- accepted only if the quiet time has passed since the refusal and the page is current by then.
pub Later-resumes :
    (fresh : InputFreshness) (now quiet : ℕ) (required : Option ℕ) {later : InputFreshness}
    (now' quiet' : ℕ) (required' : Option ℕ)
    → (admit fresh now quiet required).0 ≡ false
    → Later now (admit fresh now quiet required).2 later
    → (admit later now' quiet' required').0 ≡ true
    → (now + quiet' ≤ now') × (is_current later required' ≡ true)
Later-resumes fresh now quiet required {later} now' quiet' required' refused r accepted =
    let p =
      Later-IsPaused now (admit fresh now quiet required).2
        (refused-IsPaused now fresh now quiet required (omega arith) refused) r in
    opened p (admit-Answered later now' quiet' required') accepted
  where
    opened :
        {x : Bool × Bool × InputFreshness}
        → IsPaused now later
        → Answered later now' quiet' required' x
        → x.0 ≡ true
        → (now + quiet' ≤ now') × (is_current later required' ≡ true)
    opened p (not_live d) e = absurd (let l = p.live in cc)
    opened p (resumes a b c) e = (omega (arith, p.late, c), b)
    opened p (stays_paused a b) e = cc
    opened p (pauses a b) e = absurd (let l = p.paused in cc)
    opened p (passes a b) e = absurd (let l = p.paused in cc)
