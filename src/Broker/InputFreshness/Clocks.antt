-- ===== src/Broker/InputFreshness/Clocks.antt =====
-- The marks of a frontier clock.
use persea_terminal.Base.{
  ℕ, zero, suc, ◌+◌, ◌≤◌, ◌<◌, ◌≡◌, refl, ◌⊎◌, inl, inr, List, [], ◌∷◌, arith, ltb, Bool-cases,
  length, drop, subst,
}
use persea_terminal.Broker.InputFreshness.{
  FrontierMark, FrontierClock, new_clock, mark_publication, old_marks, dropped_marks, observe,
  first_sequence,
}

pub record Publication : Type 0 where
  pub time : ℕ
  pub sequence : ℕ

-- A history has its latest publication first.
pub data Published (p : Publication) : List Publication → Type 0 where
  latest : {history : List Publication} → Published p (p ∷ history)
  earlier :
      {o : Publication} {history : List Publication}
      → Published p history
      → Published p (o ∷ history)

abbrev pub last_time : List Publication → ℕ
last_time [] = 0
last_time (p ∷ history) = p.time

abbrev pub last_sequence : List Publication → ℕ
last_sequence [] = 0
last_sequence (p ∷ history) = p.sequence

-- A clock that has observed a history, whose times and sequences do not go back.
pub data Observed (window : ℕ) : FrontierClock → List Publication → Type 0 where
  starts : Observed window new_clock []
  observes :
      {clock : FrontierClock} {history : List Publication} (p : Publication)
      → Observed window clock history
      → last_time history ≤ p.time
      → last_sequence history ≤ p.sequence
      → Observed window (observe clock p.time p.sequence window) (p ∷ history)

-- The sequences of the marks do not go back, and none is beyond a time and a sequence.
abbrev pub IsSorted : List FrontierMark → ℕ → ℕ → Type 0
IsSorted [] time sequence = Unit
IsSorted (m ∷ marks) time sequence =
    (m.at ≤ time)
    × (m.sequence ≤ sequence)
    × (marks ≡ [] ⊎ (m.sequence ≤ first_sequence marks))
    × IsSorted marks time sequence

-- Some mark that is not later has a sequence that is not less.
abbrev pub HasMark : List FrontierMark → ℕ → ℕ → Type 0
HasMark [] time sequence = ⊥
HasMark (m ∷ marks) time sequence =
    ((m.at ≤ time) × (sequence ≤ m.sequence)) ⊎ HasMark marks time sequence

pub IsSorted-weaken :
    (marks : List FrontierMark) (time sequence time' sequence' : ℕ)
    → time ≤ time'
    → sequence ≤ sequence'
    → IsSorted marks time sequence
    → IsSorted marks time' sequence'
IsSorted-weaken [] time sequence time' sequence' h k s = tt
IsSorted-weaken (m ∷ marks) time sequence time' sequence' h k (a, b, c, d) = (
  omega (arith, a),
  omega (arith, b),
  c,
  IsSorted-weaken marks time sequence time' sequence' h k d,
)

pub first_sequence-mark :
    (m : FrontierMark) (marks : List FrontierMark) (now sequence resolution : ℕ)
    → m.sequence ≤ first_sequence (mark_publication (m ∷ marks) now sequence resolution)
unfolding mark_publication
first_sequence-mark m [] now sequence resolution = ground arith
first_sequence-mark m (n ∷ marks) now sequence resolution = ground arith

-- How a publication is marked behind one mark.
data Marked (m : FrontierMark) (now sequence : ℕ) : List FrontierMark → Type 0 where
  merged :
      (both : ℕ)
      → m.sequence ≤ both
      → sequence ≤ both
      → (both ≡ m.sequence) ⊎ (both ≡ sequence)
      → Marked m now sequence (record m { sequence = both } ∷ [])
  appended : Marked m now sequence (m ∷ record { at = now; sequence = sequence } ∷ [])

mark-Marked :
    (m : FrontierMark) (now sequence resolution : ℕ)
    → Marked m now sequence (mark_publication (m ∷ []) now sequence resolution)
unfolding mark_publication
mark-Marked m now sequence resolution = elim (Bool-cases (ltb now (m.at + resolution))) [
  | inr far ↦
      subst (Marked m now sequence)
        (let e : m ∷ record { at = now; sequence = sequence } ∷ []
              ≡ mark_publication (m ∷ []) now sequence resolution =
            ground (arith, far) in
          e)
        appended
  | inl near ↦ elim (Bool-cases (ltb m.sequence sequence)) [
    | inl more ↦
        subst (Marked m now sequence)
          (let e : record m { sequence = sequence } ∷ []
                ≡ mark_publication (m ∷ []) now sequence resolution =
              ground (arith, near, more) in
            e)
          (merged sequence (ground (arith, more)) (omega arith) (inr refl))
    | inr less ↦
        subst (Marked m now sequence)
          (let e : m ∷ [] ≡ mark_publication (m ∷ []) now sequence resolution =
              ground (arith, near, less) in
            e)
          (merged m.sequence (omega arith) (ground (arith, less)) (inl refl))
  ]
]

pub mark-IsSorted :
    (marks : List FrontierMark) (now sequence resolution : ℕ)
    → IsSorted marks now sequence
    → IsSorted (mark_publication marks now sequence resolution) now sequence
unfolding mark_publication
mark-IsSorted [] now sequence resolution s = (omega arith, omega arith, inl refl, tt)
mark-IsSorted (m ∷ []) now sequence resolution (a, b, c, d) =
    one (mark-Marked m now sequence resolution)
  where
    one : {marks : List FrontierMark} → Marked m now sequence marks → IsSorted marks now sequence
    one (merged both x y (inl e)) = (a, omega (arith, b, e), inl refl, tt)
    one (merged both x y (inr e)) = (a, omega (arith, e), inl refl, tt)
    one appended = (a, b, inr b, (omega arith, omega arith, inl refl, tt))
mark-IsSorted (m ∷ n ∷ marks) now sequence resolution (a, b, inl c, d) = cc
mark-IsSorted (m ∷ n ∷ marks) now sequence resolution (a, b, inr c, d) = (
  a,
  b,
  inr (omega (arith, c, first_sequence-mark n marks now sequence resolution)),
  mark-IsSorted (n ∷ marks) now sequence resolution d,
)

pub mark-HasMark :
    (marks : List FrontierMark) (now sequence resolution time old : ℕ)
    → HasMark marks time old
    → HasMark (mark_publication marks now sequence resolution) time old
unfolding mark_publication
mark-HasMark [] now sequence resolution time old h = absurd h
mark-HasMark (m ∷ []) now sequence resolution time old (inr h) = absurd h
mark-HasMark (m ∷ []) now sequence resolution time old (inl (h, k)) =
    one (mark-Marked m now sequence resolution)
  where
    one : {marks : List FrontierMark} → Marked m now sequence marks → HasMark marks time old
    one (merged both x y e) = inl (h, omega (arith, k, x))
    one appended = inl (h, k)
mark-HasMark (m ∷ n ∷ marks) now sequence resolution time old (inl h) = inl h
mark-HasMark (m ∷ n ∷ marks) now sequence resolution time old (inr h) =
    inr (mark-HasMark (n ∷ marks) now sequence resolution time old h)

-- The publication that is marked has a mark.
pub mark-HasMark_new :
    (marks : List FrontierMark) (now sequence resolution : ℕ)
    → IsSorted marks now sequence
    → HasMark (mark_publication marks now sequence resolution) now sequence
unfolding mark_publication
mark-HasMark_new [] now sequence resolution s = inl (omega arith, omega arith)
mark-HasMark_new (m ∷ []) now sequence resolution (a, b, c, d) =
    one (mark-Marked m now sequence resolution)
  where
    one : {marks : List FrontierMark} → Marked m now sequence marks → HasMark marks now sequence
    one (merged both x y e) = inl (a, y)
    one appended = inr (inl (omega arith, omega arith))
mark-HasMark_new (m ∷ n ∷ marks) now sequence resolution (a, b, c, d) =
    inr (mark-HasMark_new (n ∷ marks) now sequence resolution d)

pub drop-IsSorted :
    (n : ℕ) (marks : List FrontierMark) (time sequence : ℕ)
    → IsSorted marks time sequence
    → IsSorted (drop n marks) time sequence
drop-IsSorted zero marks time sequence s = s
drop-IsSorted (suc n) [] time sequence s = s
drop-IsSorted (suc n) (m ∷ marks) time sequence (a, b, c, d) = drop-IsSorted n marks time sequence d

pub first_sequence-drop :
    (n : ℕ) (marks : List FrontierMark) (time sequence : ℕ)
    → IsSorted marks time sequence
    → n < length marks
    → first_sequence marks ≤ first_sequence (drop n marks)
first_sequence-drop zero marks time sequence s h = omega arith
first_sequence-drop (suc n) [] time sequence s h = absurd (omega (arith, h))
first_sequence-drop (suc n) (m ∷ []) time sequence s h = absurd (omega (arith, h))
first_sequence-drop (suc n) (m ∷ k ∷ marks) time sequence (a, b, inl c, d) h = cc
first_sequence-drop (suc n) (m ∷ k ∷ marks) time sequence (a, b, inr c, d) h =
    omega (arith, c, first_sequence-drop n (k ∷ marks) time sequence d (omega (arith, h)))

pub drop-HasMark :
    (n : ℕ) (marks : List FrontierMark) (time sequence t q : ℕ)
    → IsSorted marks time sequence
    → n < length marks
    → HasMark marks t q
    → HasMark (drop n marks) t q ⊎ (q ≤ first_sequence (drop n marks))
drop-HasMark zero marks time sequence t q s h k = inl k
drop-HasMark (suc n) [] time sequence t q s h k = absurd k
drop-HasMark (suc n) (m ∷ marks) time sequence t q s h (inl (k, k')) =
    inr (omega (arith, k', first_sequence-drop (suc n) (m ∷ marks) time sequence s h))
drop-HasMark (suc n) (m ∷ marks) time sequence t q (a, b, c, d) h (inr k) =
    drop-HasMark n marks time sequence t q d (omega (arith, h)) k

old_marks-lt :
    (m : FrontierMark) (marks : List FrontierMark) (now window : ℕ)
    → old_marks (m ∷ marks) now window < length (m ∷ marks)
unfolding old_marks
old_marks-lt m [] now window = omega arith
old_marks-lt m (n ∷ marks) now window = ground (arith, old_marks-lt n marks now window)

pub dropped_marks-lt :
    (marks : List FrontierMark) (now window : ℕ)
    → 0 < length marks
    → dropped_marks marks now window < length marks
unfolding dropped_marks
dropped_marks-lt [] now window h = absurd (omega (arith, h))
dropped_marks-lt (m ∷ marks) now window h = omega (arith, old_marks-lt m marks now window)
