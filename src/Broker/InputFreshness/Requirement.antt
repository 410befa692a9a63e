-- ===== src/Broker/InputFreshness/Requirement.antt =====
-- What a clock requires a page to have consumed.
use persea_terminal.Base.{
  ℕ, ◌+◌, ◌/◌, ◌≤◌, ◌<◌, ◌≡◌, refl, sym, ap, ◌∙◌, ◌⊎◌, inl, inr, true, false, none, some, List, [],
  ◌∷◌, arith, ltb, Bool-cases, Option-cases, length, drop, length-drop, subst,
}
use persea_terminal.Broker.InputFreshness.{
  frontier_clock_resolution, FrontierMark, FrontierClock, mark_publication, dropped_marks, observe,
  last_before, first_sequence, clock_at,
}
use persea_terminal.Broker.InputFreshness.Clocks.{
  Publication, Published, latest, earlier, last_time, last_sequence, Observed, starts, observes,
  IsSorted, HasMark, IsSorted-weaken, first_sequence-mark, mark-IsSorted, mark-HasMark,
  mark-HasMark_new, drop-IsSorted, first_sequence-drop, drop-HasMark, dropped_marks-lt,
}

-- A publication has a mark, or what was dropped is not beyond the first mark.
abbrev IsCovered : FrontierClock → ℕ → ℕ → Type 0
IsCovered clock time sequence =
    HasMark clock.marks time sequence
    ⊎ ((clock.pruned ≡ true) × (0 < length clock.marks) × (sequence ≤ first_sequence clock.marks))

length-mark :
    (marks : List FrontierMark) (now sequence resolution : ℕ)
    → 0 < length (mark_publication marks now sequence resolution)
unfolding mark_publication
length-mark [] now sequence resolution = omega arith
length-mark (m ∷ []) now sequence resolution = ground arith
length-mark (m ∷ n ∷ marks) now sequence resolution = ground arith

first-mark :
    (marks : List FrontierMark) (now sequence resolution old : ℕ)
    → 0 < length marks
    → old ≤ first_sequence marks
    → old ≤ first_sequence (mark_publication marks now sequence resolution)
first-mark [] now sequence resolution old h k = absurd (omega (arith, h))
first-mark (m ∷ marks) now sequence resolution old h k =
    omega (arith, k, first_sequence-mark m marks now sequence resolution)

-- The marks after a publication, before some are dropped.
module _ (clock : FrontierClock) (now sequence window : ℕ)
    (sorted : IsSorted clock.marks now sequence) where
  marked : List FrontierMark
  marked = mark_publication clock.marks now sequence (window / frontier_clock_resolution)

  count : ℕ
  count = dropped_marks marked now window

  few : count < length marked
  unfolding count marked
  few =
      dropped_marks-lt marked now window
        (length-mark clock.marks now sequence (window / frontier_clock_resolution))

  kept-IsSorted : IsSorted marked now sequence
  unfolding marked
  kept-IsSorted = mark-IsSorted clock.marks now sequence (window / frontier_clock_resolution) sorted

  observe-kept :
      ltb 0 count ≡ false
      → observe clock now sequence window ≡ record { marks = marked; pruned = clock.pruned }
  unfolding observe count marked
  observe-kept h = ground (arith, h)

  observe-dropped :
      ltb 0 count ≡ true
      → observe clock now sequence window ≡ record { marks = drop count marked; pruned = true }
  unfolding observe count marked
  observe-dropped h = ground (arith, h)

  observe-IsSorted : IsSorted (observe clock now sequence window).marks now sequence
  observe-IsSorted = elim (Bool-cases (ltb 0 count)) [
    | inl some' ↦
        subst (λ c. IsSorted c.marks now sequence) (sym (observe-dropped some'))
          (drop-IsSorted count marked now sequence kept-IsSorted)
    | inr none' ↦
        subst (λ c. IsSorted c.marks now sequence) (sym (observe-kept none')) kept-IsSorted
  ]

  length-dropped : 0 < length (drop count marked)
  length-dropped = omega (arith, length-drop count marked, few)

  observe-IsCovered :
      (t q : ℕ)
      → HasMark marked t q ⊎ ((clock.pruned ≡ true) × (q ≤ first_sequence marked))
      → IsCovered (observe clock now sequence window) t q
  observe-IsCovered t q h = elim (Bool-cases (ltb 0 count)) [
    | inl some' ↦ subst (λ c. IsCovered c t q) (sym (observe-dropped some')) (cut h)
    | inr none' ↦ subst (λ c. IsCovered c t q) (sym (observe-kept none')) (whole h)
  ]
    where
      cut :
          HasMark marked t q ⊎ ((clock.pruned ≡ true) × (q ≤ first_sequence marked))
          → IsCovered (record { marks = drop count marked; pruned = true }) t q
      cut (inl m) = elim (drop-HasMark count marked now sequence t q kept-IsSorted few m) [
        | inl m' ↦ inl m'
        | inr f ↦ inr (refl, length-dropped, f)
      ]
      cut (inr (p, f)) = inr (
        refl,
        length-dropped,
        omega (arith, f, first_sequence-drop count marked now sequence kept-IsSorted few),
      )

      whole :
          HasMark marked t q ⊎ ((clock.pruned ≡ true) × (q ≤ first_sequence marked))
          → IsCovered (record { marks = marked; pruned = clock.pruned }) t q
      whole (inl m) = inl m
      whole (inr (p, f)) = inr (p, omega (arith, few), f)

  observe-IsCovered_old :
      (t q : ℕ) → IsCovered clock t q → IsCovered (observe clock now sequence window) t q
  unfolding marked
  observe-IsCovered_old t q (inl m) =
      observe-IsCovered t q
        (inl (mark-HasMark clock.marks now sequence (window / frontier_clock_resolution) t q m))
  observe-IsCovered_old t q (inr (p, some', f)) =
      observe-IsCovered t q (
        inr (p, first-mark clock.marks now sequence (window / frontier_clock_resolution) q some' f))

  observe-IsCovered_new : IsCovered (observe clock now sequence window) now sequence
  unfolding marked
  observe-IsCovered_new =
      observe-IsCovered now sequence (
        inl (mark-HasMark_new clock.marks now sequence (window / frontier_clock_resolution) sorted))

Observed-IsSorted :
    {window : ℕ} {clock : FrontierClock} {history : List Publication}
    → Observed window clock history
    → IsSorted clock.marks (last_time history) (last_sequence history)
Observed-IsSorted starts = tt
Observed-IsSorted {window} (observes {clock} {history} p o h k) =
    observe-IsSorted clock p.time p.sequence window (
      IsSorted-weaken clock.marks (last_time history) (last_sequence history) p.time p.sequence h k
        (Observed-IsSorted o))

Observed-IsCovered :
    {window : ℕ} {clock : FrontierClock} {history : List Publication} (p : Publication)
    → Observed window clock history
    → Published p history
    → IsCovered clock p.time p.sequence
Observed-IsCovered {window} p starts published = elim published [ ]
Observed-IsCovered {window} p (observes {clock} {history} p' o h k) latest =
    observe-IsCovered_new clock p.time p.sequence window (
      IsSorted-weaken clock.marks (last_time history) (last_sequence history) p.time p.sequence h k
        (Observed-IsSorted o))
Observed-IsCovered {window} p (observes {clock} {history} p' o h k) (earlier published) =
    observe-IsCovered_old clock p'.time p'.sequence window
      (IsSorted-weaken clock.marks (last_time history) (last_sequence history) p'.time p'.sequence h
        k (Observed-IsSorted o))
      p.time p.sequence (Observed-IsCovered p o published)

-- The mark that a query finds is not before the first.
last_before-first :
    (marks : List FrontierMark) (time sequence now window found : ℕ)
    → IsSorted marks time sequence
    → last_before marks now window ≡ some found
    → first_sequence marks ≤ found
unfolding last_before
last_before-first [] time sequence now window found s h = omega arith
last_before-first (m ∷ []) time sequence now window found s h = ground (arith, h)
last_before-first (m ∷ n ∷ marks) time sequence now window found (a, b, inl c, d) h = cc
last_before-first (m ∷ n ∷ marks) time sequence now window found (a, b, inr c, d) h =
    elim (Option-cases (last_before (n ∷ marks) now window)) [
      | inl gone ↦ ground (arith, gone, h)
      | inr (x, e) ↦
          let l = last_before-first (n ∷ marks) time sequence now window x d e in
          ground (arith, e, h, l, c)
    ]

last_before-HasMark :
    (marks : List FrontierMark) (time sequence now window t q : ℕ)
    → IsSorted marks time sequence
    → HasMark marks t q
    → t + window ≤ now
    → (found : ℕ) × (last_before marks now window ≡ some found) × (q ≤ found)
unfolding last_before
last_before-HasMark [] time sequence now window t q s m h = absurd m
last_before-HasMark (m ∷ marks) time sequence now window t q (a, b, c, d) (inr k) h =
    let (found, e, l) = last_before-HasMark marks time sequence now window t q d k h in
    (found, ground (arith, e), l)
last_before-HasMark (m ∷ marks) time sequence now window t q (a, b, c, d) (inl (k, k')) h =
    elim (Option-cases (last_before marks now window)) [
      | inl gone ↦ (m.sequence, ground (arith, gone, k, h), k')
      | inr (x, e) ↦
          (x, ground (arith, e), later c (last_before-first marks time sequence now window x d e) e)
    ]
  where
    later :
        {x : ℕ}
        → (marks ≡ []) ⊎ (m.sequence ≤ first_sequence marks)
        → first_sequence marks ≤ x
        → last_before marks now window ≡ some x
        → q ≤ x
    later {x} (inl nothing) l e =
        let absent : none ≡ some x = ap (λ ms. last_before ms now window) (sym nothing) ∙ e in
        absurd (cc)
    later (inr c) l e = omega (arith, k', c, l)

-- The clock of a generation that has observed a history: whatever was published a window before `now`
-- or earlier is required of a page, so that dropped and merged marks never require less.
pub clock_at-requires :
    {window : ℕ} {clock : FrontierClock} {history : List Publication} (p : Publication) (now : ℕ)
    → Observed window clock history
    → Published p history
    → p.time + window ≤ now
    → p.sequence ≤ clock_at clock now window
unfolding clock_at
clock_at-requires {window} {clock} {history} p now o published h =
    let s = Observed-IsSorted o in
    elim (Observed-IsCovered p o published) [
      | inl m ↦
          let (found, e, l) =
            last_before-HasMark clock.marks (last_time history) (last_sequence history) now window
              p.time p.sequence s m h in
          ground (arith, e, l)
      | inr (pruned, some', f) ↦ elim (Option-cases (last_before clock.marks now window)) [
        | inl gone ↦ ground (arith, gone, pruned, f)
        | inr (found, e) ↦
            let l =
              last_before-first clock.marks (last_time history) (last_sequence history) now window
                found s e in
            ground (arith, e, l, f)
      ]
    ]
