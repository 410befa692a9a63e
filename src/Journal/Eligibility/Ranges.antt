-- ===== src/Journal/Eligibility/Ranges.antt =====
-- The ranges that a tracker accepts.
use persea_terminal.Base.{
  ℕ, ◌≤◌, ◌≡◌, refl, sym, true, false, none, some, List, [], ◌∷◌, ◌++◌, arith, subst,
}
use persea_terminal.Journal.Eligibility.{
  EligibilityTracker, InvalidationReason, AdmissionKind, RangeError, new_eligibility,
  is_unified_eligible, invalidate, observe_committed_range, is_observed_first,
}

-- Ranges that begin where the last one ended, from one offset to another.
abbrev pub IsChain : ℕ → List (ℕ × ℕ) → ℕ → Type 0
IsChain a [] b = a ≡ b
IsChain a ((first, last) ∷ ranges) b = (first ≡ a) × (first ≤ last) × IsChain last ranges b

-- A tracker after any calls, with the ranges that it accepted.
pub data Reach (kind : AdmissionKind) (journal_start : ℕ)
    : EligibilityTracker → List (ℕ × ℕ) → Type 0 where
  admits : Reach kind journal_start (new_eligibility kind journal_start) []
  invalidates :
      {t : EligibilityTracker} {ranges : List (ℕ × ℕ)} (cause : InvalidationReason)
      → Reach kind journal_start t ranges
      → Reach kind journal_start (invalidate t cause) ranges
  accepts :
      {t t' : EligibilityTracker} {ranges : List (ℕ × ℕ)} (first last : ℕ)
      → Reach kind journal_start t ranges
      → observe_committed_range t first last ≡ (none, t')
      → Reach kind journal_start t' (ranges ++ ((first, last) ∷ []))
  refuses :
      {t t' : EligibilityTracker} {ranges : List (ℕ × ℕ)} {e : RangeError} (first last : ℕ)
      → Reach kind journal_start t ranges
      → observe_committed_range t first last ≡ (some e, t')
      → Reach kind journal_start t' ranges

pub record IsTracked (kind : AdmissionKind) (journal_start : ℕ) (t : EligibilityTracker)
    (ranges : List (ℕ × ℕ)) : Type 0 where
  pub is_chain : IsChain journal_start ranges t.committed
  pub from_birth :
      is_unified_eligible t ≡ true → (is_observed_first kind ≡ true) × (journal_start ≡ 0)

IsChain-append :
    (a b c : ℕ) (ranges : List (ℕ × ℕ))
    → IsChain a ranges b
    → b ≤ c
    → IsChain a (ranges ++ ((b, c) ∷ [])) c
IsChain-append a b c [] h le = (sym h, le, refl)
IsChain-append a b c ((first, last) ∷ ranges) h le =
    (h.0, h.1, IsChain-append last b c ranges h.2 le)

invalidate-keeps :
    (t : EligibilityTracker) (cause : InvalidationReason)
    → ((invalidate t cause).committed ≡ t.committed)
      × (is_unified_eligible (invalidate t cause) ≡ true → is_unified_eligible t ≡ true)
unfolding invalidate is_unified_eligible
invalidate-keeps t cause = (ground arith, ground arith)

observe-accepts :
    (t t' : EligibilityTracker) (first last : ℕ)
    → observe_committed_range t first last ≡ (none, t')
    → (first ≡ t.committed)
      × (first ≤ last)
      × (t'.committed ≡ last)
      × (is_unified_eligible t ≡ true)
unfolding observe_committed_range is_unified_eligible
observe-accepts t t' first last h = (ground arith, ground arith, ground arith, ground arith)

observe-refuses :
    (t t' : EligibilityTracker) (e : RangeError) (first last : ℕ)
    → observe_committed_range t first last ≡ (some e, t')
    → (t'.committed ≡ t.committed) × (is_unified_eligible t' ≡ false)
unfolding observe_committed_range is_unified_eligible invalidate
observe-refuses t t' e first last h = (ground arith, ground arith)

-- After any calls on a new tracker: the ranges that it accepted go on from one to the next, from the
-- start of the journal to the committed offset; and it is eligible only if its pane was observed before
-- the first byte and its journal starts at 0.
pub Reach-IsTracked :
    {kind : AdmissionKind} {journal_start : ℕ} {t : EligibilityTracker} {ranges : List (ℕ × ℕ)}
    → Reach kind journal_start t ranges
    → IsTracked kind journal_start t ranges
unfolding new_eligibility is_unified_eligible
Reach-IsTracked {kind} {journal_start} admits = record {
  is_chain = refl;
  from_birth = λ h. (ground (arith, h), ground (arith, h));
}
Reach-IsTracked {kind} {journal_start} (invalidates {t} {ranges} cause reach) =
    let old = Reach-IsTracked reach in
    let (same, eligible) = invalidate-keeps t cause in
    record {
      is_chain = subst (IsChain journal_start ranges) (sym same) old.is_chain;
      from_birth = λ h. old.from_birth (eligible h);
    }
Reach-IsTracked {kind} {journal_start} (accepts {t} {t'} {ranges} first last reach h) =
    let old = Reach-IsTracked reach in
    let (begins, ordered, ends, eligible) = observe-accepts t t' first last h in
    record {
      is_chain = subst (IsChain journal_start (ranges ++ ((first, last) ∷ []))) (sym ends) (
          IsChain-append journal_start first last ranges
            (subst (IsChain journal_start ranges) (sym begins) old.is_chain) ordered);
      from_birth = λ k. old.from_birth eligible;
    }
Reach-IsTracked {kind} {journal_start} (refuses {t} {t'} {ranges} {e} first last reach h) =
    let old = Reach-IsTracked reach in
    let (same, lost) = observe-refuses t t' e first last h in
    record {
      is_chain = subst (IsChain journal_start ranges) (sym same) old.is_chain;
      from_birth = λ k. absurd (ground (arith, k, lost));
    }
