-- ===== src/Broker/InputFreshness/Admission.antt =====
-- When the input of a page is accepted.
use persea_terminal.Base.{
  ℕ, zero, suc, ◌+◌, ◌≤◌, ◌≡◌, refl, ap, ◌∙◌, inl, inr, Bool, true, false, ◌&&◌, ◌||◌, Option, some,
  List, [], ◌∷◌, arith, ltb, leb, Bool-cases, replicate, subst,
}
use persea_terminal.Broker.InputFreshness.{
  delivered_marks, FrontierClock, Clocks, required_consumption, DeliveredMark, InputFreshness,
  no_mark, start, apply_receipted, push_mark, last_mark, delivered, receipt, is_current, admit,
}
use persea_terminal.Broker.InputFreshness.Clocks.{Publication, Published, Observed}
use persea_terminal.Broker.InputFreshness.Requirement.{clock_at-requires}
use persea_terminal.Broker.InputFreshness.Pauses.{
  last, Reach, starts, goes_live, delivers, receipts, admits, AllMarks, IsJustified, IsSound,
  AllMarks-later, IsJustified-later, IsJustified-more, apply_receipted-IsSound, push_mark-IsSound,
}

replicate-AllMarks : (n : ℕ) → AllMarks [] (replicate n no_mark)
replicate-AllMarks zero = tt
replicate-AllMarks (suc n) = (inl refl, replicate-AllMarks n)

later-IsSound :
    (history : List DeliveredMark) (o : DeliveredMark) (fresh : InputFreshness)
    → IsSound history fresh
    → IsSound (o ∷ history) fresh
later-IsSound history o fresh v = record {
  marks = AllMarks-later history fresh.marks o v.marks;
  justified = IsJustified-later history o fresh.receipted fresh.consumed v.justified;
}

delivered-IsSound :
    (history : List DeliveredMark) (m : DeliveredMark) (fresh : InputFreshness)
    → IsSound history fresh
    → IsSound (m ∷ history) (delivered fresh m.frames m.sequence)
unfolding delivered
delivered-IsSound history m fresh v =
    let v' = later-IsSound history m fresh v in
    elim (Bool-cases (
      (ltb 0 fresh.count && leb m.sequence (last_mark fresh).sequence)
      || leb m.sequence fresh.consumed)) [
        | inl known ↦
            subst (IsSound (m ∷ history))
              (let e : fresh ≡ delivered fresh m.frames m.sequence = ground (arith, known) in e) v'
        | inr new ↦
            subst (IsSound (m ∷ history))
              (let e : apply_receipted (push_mark fresh m).count (push_mark fresh m)
                    ≡ delivered fresh m.frames m.sequence =
                  ground (arith, new) in
                e)
              (apply_receipted-IsSound (m ∷ history) (push_mark fresh m).count (push_mark fresh m)
                (push_mark-IsSound (m ∷ history) fresh m v' last))
      ]

receipt-IsSound :
    (history : List DeliveredMark) (frames written : ℕ) (fresh : InputFreshness)
    → IsSound history fresh
    → IsSound history (receipt fresh frames written).1
unfolding receipt
receipt-IsSound history frames written fresh v =
    elim (Bool-cases (leb frames fresh.receipted || ltb written frames)) [
      | inl bad ↦
          subst (IsSound history)
            (let e : fresh ≡ (receipt fresh frames written).1 = ground (arith, bad) in e) v
      | inr good ↦
          subst (IsSound history)
            (let e : apply_receipted fresh.count (record fresh { receipted = frames })
                  ≡ (receipt fresh frames written).1 =
                ground (arith, good) in
              e)
            (apply_receipted-IsSound history fresh.count (record fresh { receipted = frames })
              (record {
                marks = v.marks;
                justified =
                    IsJustified-more history fresh.receipted frames fresh.consumed
                      (ground (arith, good)) v.justified;
              }))
    ]

-- How an input is answered.
pub data Answered (fresh : InputFreshness) (now quiet : ℕ) (required : Option ℕ)
    : Bool × Bool × InputFreshness → Type 0 where
  not_live : fresh.live ≡ false → Answered fresh now quiet required (true, false, fresh)
  resumes :
      fresh.paused ≡ true
      → is_current fresh required ≡ true
      → fresh.refused_at + quiet ≤ now
      → Answered fresh now quiet required (true, false, record fresh { paused = false })
  stays_paused :
      fresh.live ≡ true
      → fresh.paused ≡ true
      → Answered fresh now quiet required (false, false, record fresh { refused_at = now })
  pauses :
      fresh.live ≡ true
      → fresh.paused ≡ false
      → Answered fresh now quiet required
          (false, true, record fresh { paused = true; refused_at = now })
  passes :
      fresh.paused ≡ false
      → is_current fresh required ≡ true
      → Answered fresh now quiet required (true, false, fresh)

pub admit-Answered :
    (fresh : InputFreshness) (now quiet : ℕ) (required : Option ℕ)
    → Answered fresh now quiet required (admit fresh now quiet required)
unfolding admit
admit-Answered fresh now quiet required = elim (Bool-cases fresh.live) [
  | inr dead ↦
      subst (Answered fresh now quiet required)
        (let e : (true, false, fresh) ≡ admit fresh now quiet required = ground (arith, dead) in e)
        (not_live dead)
  | inl live ↦ elim (Bool-cases fresh.paused) [
    | inl paused ↦
        elim (Bool-cases (is_current fresh required && leb (fresh.refused_at + quiet) now)) [
          | inl quiet' ↦
              subst (Answered fresh now quiet required)
                (let e : (true, false, record fresh { paused = false })
                      ≡ admit fresh now quiet required =
                    ground (arith, live, paused, quiet') in
                  e)
                (resumes paused (ground (arith, quiet')) (ground (arith, quiet')))
          | inr busy ↦
              subst (Answered fresh now quiet required)
                (let e : (false, false, record fresh { refused_at = now })
                      ≡ admit fresh now quiet required =
                    ground (arith, live, paused, busy) in
                  e)
                (stays_paused live paused)
        ]
    | inr running ↦ elim (Bool-cases (is_current fresh required)) [
      | inl current ↦
          subst (Answered fresh now quiet required)
            (let e : (true, false, fresh) ≡ admit fresh now quiet required =
                ground (arith, live, running, current) in
              e)
            (passes running current)
      | inr stale ↦
          subst (Answered fresh now quiet required)
            (let e : (false, true, record fresh { paused = true; refused_at = now })
                  ≡ admit fresh now quiet required =
                ground (arith, live, running, stale) in
              e)
            (pauses live running)
    ]
  ]
]

Reach-IsSound :
    {fresh : InputFreshness} {history : List DeliveredMark}
    → Reach fresh history
    → IsSound history fresh
unfolding start
Reach-IsSound starts = record { marks = replicate-AllMarks delivered_marks; justified = inl refl }
Reach-IsSound (goes_live {fresh} {history} key r) =
    let v = Reach-IsSound r in record { marks = v.marks; justified = v.justified }
Reach-IsSound (delivers {fresh} {history} m r) = delivered-IsSound history m fresh (Reach-IsSound r)
Reach-IsSound (receipts {fresh} {history} frames written r) =
    receipt-IsSound history frames written fresh (Reach-IsSound r)
Reach-IsSound (admits {fresh} {history} now quiet required r) =
    kept (Reach-IsSound r) (admit-Answered fresh now quiet required)
  where
    kept :
        {x : Bool × Bool × InputFreshness}
        → IsSound history fresh
        → Answered fresh now quiet required x
        → IsSound history x.2
    kept v (not_live h) = v
    kept v (resumes h k l) = record { marks = v.marks; justified = v.justified }
    kept v (stays_paused h k) = record { marks = v.marks; justified = v.justified }
    kept v (pauses h k) = record { marks = v.marks; justified = v.justified }
    kept v (passes h k) = v

-- Why an input was accepted.
pub record Fresh (fresh : InputFreshness) (history : List DeliveredMark) (p : Publication)
    : Type 0 where
  pub consumed : p.sequence ≤ fresh.consumed
  pub justified : IsJustified history fresh.receipted fresh.consumed

-- An input that a live gate accepts, where the generation's clock has observed a history and the gate
-- was driven by any calls: the page has consumed whatever was published a window before `now` or
-- earlier, and what it is taken to have consumed is nothing or was completed by frames of which it has
-- sent a receipt.
pub admit-Fresh :
    {window : ℕ} {clock : FrontierClock} {published : List Publication} {fresh : InputFreshness}
    {history : List DeliveredMark} (clocks : Clocks) (p : Publication) (now quiet : ℕ)
    → Reach fresh history
    → Observed window clock published
    → Published p published
    → p.time + window ≤ now
    → clocks fresh.key ≡ some clock
    → fresh.live ≡ true
    → (admit fresh now quiet (required_consumption clocks fresh.key now window)).0 ≡ true
    → Fresh fresh history p
unfolding required_consumption
admit-Fresh {window} {clock} {published} {fresh} {history} clocks p now quiet r o is_published old
      there live accepted =
    answer (admit-Answered fresh now quiet (required_consumption clocks fresh.key now window)) refl
  where
    current :
        is_current fresh (required_consumption clocks fresh.key now window) ≡ true
        → Fresh fresh history p
    current h =
        let need = clock_at-requires p now o is_published old in
        record {
          consumed = ground (arith, h, there, need);
          justified = (Reach-IsSound r).justified;
        }

    answer :
        {x : Bool × Bool × InputFreshness}
        → Answered fresh now quiet (required_consumption clocks fresh.key now window) x
        → x ≡ admit fresh now quiet (required_consumption clocks fresh.key now window)
        → Fresh fresh history p
    answer (not_live h) e = ground (arith, h, live)
    answer (resumes h k l) e = current k
    answer (stays_paused h k) e = absurd (let e' = ap (λ x. x.0) e ∙ accepted in cc)
    answer (pauses h k) e = absurd (let e' = ap (λ x. x.0) e ∙ accepted in cc)
    answer (passes h k) e = current k
