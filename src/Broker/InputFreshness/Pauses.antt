-- ===== src/Broker/InputFreshness/Pauses.antt =====
-- What a page is taken to have consumed.
use persea_terminal.Base.{
  ℕ, zero, suc, ◌+◌, ◌-◌, ◌%◌, ◌≤◌, ◌≡◌, refl, ◌⊎◌, inl, inr, Option, List, [], ◌∷◌, arith, leb,
  ◌==◌, Bool-cases, set, subst,
}
use persea_terminal.Broker.InputFreshness.{
  delivered_marks, DeliveredMark, InputFreshness, new_freshness, start, mark_at, apply_receipted,
  push_mark, delivered, receipt, admit,
}

-- What was delivered, with the number of frames that completed it.
pub data Completed (mark : DeliveredMark) : List DeliveredMark → Type 0 where
  last : {history : List DeliveredMark} → Completed mark (mark ∷ history)
  completed_before :
      {other : DeliveredMark} {history : List DeliveredMark}
      → Completed mark history
      → Completed mark (other ∷ history)

-- Any calls on a new gate, with the marks that were delivered, the latest first.
pub data Reach : InputFreshness → List DeliveredMark → Type 0 where
  starts : Reach new_freshness []
  goes_live :
      {fresh : InputFreshness} {history : List DeliveredMark} (key : ℕ)
      → Reach fresh history
      → Reach (start fresh key) history
  delivers :
      {fresh : InputFreshness} {history : List DeliveredMark} (mark : DeliveredMark)
      → Reach fresh history
      → Reach (delivered fresh mark.frames mark.sequence) (mark ∷ history)
  receipts :
      {fresh : InputFreshness} {history : List DeliveredMark} (frames written : ℕ)
      → Reach fresh history
      → Reach (receipt fresh frames written).1 history
  admits :
      {fresh : InputFreshness} {history : List DeliveredMark} (now quiet : ℕ) (required : Option ℕ)
      → Reach fresh history
      → Reach (admit fresh now quiet required).2 history

-- A cell of the ring is empty or holds a mark that was delivered.
abbrev pub IsMark : List DeliveredMark → DeliveredMark → Type 0
IsMark history m = (m.sequence ≡ 0) ⊎ Completed m history

abbrev pub AllMarks : List DeliveredMark → List DeliveredMark → Type 0
AllMarks history [] = Unit
AllMarks history (m ∷ marks) = IsMark history m × AllMarks history marks

-- What is consumed is nothing, or what frames that have a receipt completed.
abbrev pub IsJustified : List DeliveredMark → ℕ → ℕ → Type 0
IsJustified history receipted consumed =
    (consumed ≡ 0)
    ⊎ ((mark : DeliveredMark) × Completed mark history
        × (mark.sequence ≡ consumed)
        × (mark.frames ≤ receipted))

pub record IsSound (history : List DeliveredMark) (fresh : InputFreshness) : Type 0 where
  pub marks : AllMarks history fresh.marks
  pub justified : IsJustified history fresh.receipted fresh.consumed

mark_at-IsMark :
    (history marks : List DeliveredMark) (i : ℕ)
    → AllMarks history marks
    → IsMark history (mark_at marks i)
mark_at-IsMark history [] i a = inl refl
mark_at-IsMark history (m ∷ marks) zero (a, b) = a
mark_at-IsMark history (m ∷ marks) (suc i) (a, b) = mark_at-IsMark history marks i b

set-AllMarks :
    (history marks : List DeliveredMark) (i : ℕ) (m : DeliveredMark)
    → AllMarks history marks
    → IsMark history m
    → AllMarks history (set marks i m)
set-AllMarks history [] i m a h = tt
set-AllMarks history (x ∷ marks) zero m (a, b) h = (h, b)
set-AllMarks history (x ∷ marks) (suc i) m (a, b) h = (a, set-AllMarks history marks i m b h)

IsMark-later :
    (history : List DeliveredMark) (m o : DeliveredMark) → IsMark history m → IsMark (o ∷ history) m
IsMark-later history m o (inl e) = inl e
IsMark-later history m o (inr c) = inr (completed_before c)

pub AllMarks-later :
    (history marks : List DeliveredMark) (o : DeliveredMark)
    → AllMarks history marks
    → AllMarks (o ∷ history) marks
AllMarks-later history [] o a = tt
AllMarks-later history (m ∷ marks) o (a, b) =
    (IsMark-later history m o a, AllMarks-later history marks o b)

pub IsJustified-later :
    (history : List DeliveredMark) (o : DeliveredMark) (receipted consumed : ℕ)
    → IsJustified history receipted consumed
    → IsJustified (o ∷ history) receipted consumed
IsJustified-later history o receipted consumed (inl e) = inl e
IsJustified-later history o receipted consumed (inr (m, c, e, h)) =
    inr (m, completed_before c, e, h)

pub IsJustified-more :
    (history : List DeliveredMark) (receipted more consumed : ℕ)
    → receipted ≤ more
    → IsJustified history receipted consumed
    → IsJustified history more consumed
IsJustified-more history receipted more consumed h (inl e) = inl e
IsJustified-more history receipted more consumed h (inr (m, c, e, k)) =
    inr (m, c, e, omega (arith, h, k))

consumed-IsJustified :
    (history : List DeliveredMark) (m : DeliveredMark) (receipted : ℕ)
    → IsMark history m
    → m.frames ≤ receipted
    → IsJustified history receipted m.sequence
consumed-IsJustified history m receipted (inl e) h = inl e
consumed-IsJustified history m receipted (inr c) h = inr (m, c, refl, h)

pub apply_receipted-IsSound :
    (history : List DeliveredMark) (left : ℕ) (fresh : InputFreshness)
    → IsSound history fresh
    → IsSound history (apply_receipted left fresh)
unfolding apply_receipted
apply_receipted-IsSound history zero fresh v = v
apply_receipted-IsSound history (suc left) fresh v =
    let m = mark_at fresh.marks fresh.head in
    let next : InputFreshness = record fresh {
      consumed = (mark_at fresh.marks fresh.head).sequence;
      head = (fresh.head + 1) % delivered_marks;
      count = fresh.count - 1;
    } in
    elim (Bool-cases (leb (mark_at fresh.marks fresh.head).frames fresh.receipted)) [
      | inr stop ↦
          subst (IsSound history)
            (let e : fresh ≡ apply_receipted (suc left) fresh = ground (arith, stop) in e) v
      | inl go ↦
          subst (IsSound history)
            (let e : apply_receipted left next ≡ apply_receipted (suc left) fresh =
                ground (arith, go) in
              e)
            (apply_receipted-IsSound history left next (record {
              marks = v.marks;
              justified =
                  consumed-IsJustified history m fresh.receipted
                    (mark_at-IsMark history fresh.marks fresh.head v.marks) (ground (arith, go));
            }))
    ]

pub push_mark-IsSound :
    (history : List DeliveredMark) (fresh : InputFreshness) (m : DeliveredMark)
    → IsSound history fresh
    → Completed m history
    → IsSound history (push_mark fresh m)
unfolding push_mark
push_mark-IsSound history fresh m v c = elim (Bool-cases (fresh.count == delivered_marks)) [
  | inl full ↦
      let i = ((fresh.head + 1) % delivered_marks + (fresh.count - 1)) % delivered_marks in
      subst (IsSound history)
        (let e : record fresh {
          head = (fresh.head + 1) % delivered_marks;
          marks =
              set fresh.marks
                (((fresh.head + 1) % delivered_marks + (fresh.count - 1)) % delivered_marks) m;
        }
              ≡ push_mark fresh m =
            ground (arith, full) in
          e)
        (record {
          marks = set-AllMarks history fresh.marks i m v.marks (inr c);
          justified = v.justified;
        })
  | inr room ↦
      let i = (fresh.head + fresh.count) % delivered_marks in
      subst (IsSound history)
        (let e : record fresh {
          marks = set fresh.marks ((fresh.head + fresh.count) % delivered_marks) m;
          count = fresh.count + 1;
        }
              ≡ push_mark fresh m =
            ground (arith, room) in
          e)
        (record {
          marks = set-AllMarks history fresh.marks i m v.marks (inr c);
          justified = v.justified;
        })
]
