-- ===== src/Attachment/Transport/Reserved.antt =====
-- A namespace of reserved frames: its prefix, and what is read behind it.
use persea_terminal.Base.{
  ℕ, ◌≡◌, refl, sym, ap, ◌∙◌, inl, inr, Bool, true, not, Option, none, some, List, [], ◌∷◌, ◌++◌,
  arith, if◌then◌else◌, Bool-cases, length, drop, drop-append,
}
use persea_terminal.ControlMode.Bytes.{has_prefix}
use persea_terminal.Attachment.Transport.{Recognized, ordinary, frame, frame_or_violation}

pub has_prefix-append : (p s : List ℕ) → has_prefix (p ++ s) p ≡ true
has_prefix-append [] s = refl
has_prefix-append (c ∷ p) s = ground (arith, has_prefix-append p s)

pub has_prefix_split : (s p : List ℕ) → has_prefix s p ≡ true → s ≡ p ++ drop (length p) s
has_prefix_split s [] h = refl
has_prefix_split [] (c ∷ p) h = cc
has_prefix_split (b ∷ s) (c ∷ p) h = ground (arith, has_prefix_split s p)

-- A namespace: its prefix, and what is read behind it.
abbrev pub reserved {ℓ} : {A : Type ℓ} → List ℕ → (List ℕ → Option A) → List ℕ → Recognized A
reserved prefix read raw =
    if not (has_prefix raw prefix)
    then ordinary
    else frame_or_violation (read (drop (length prefix) raw))

pub frame_or_violation_lem {ℓ} :
    {A : Type ℓ} (o : Option A) (a : A) → frame_or_violation o ≡ frame a → o ≡ some a
frame_or_violation_lem none a h = cc
frame_or_violation_lem (some b) a h = cc

pub reserved-frame {ℓ} :
    {A : Type ℓ} (prefix : List ℕ) (read : List ℕ → Option A) (raw : List ℕ) (a : A)
    → reserved prefix read raw ≡ frame a
    → (raw ≡ prefix ++ drop (length prefix) raw) × (read (drop (length prefix) raw) ≡ some a)
reserved-frame prefix read raw a h = elim (Bool-cases (has_prefix raw prefix)) [
  | inl here ↦
      let e =
        ap
          (λ (b : Bool).
            if not b then ordinary else frame_or_violation (read (drop (length prefix) raw)))
          (sym here) in
      (
        has_prefix_split raw prefix here,
        frame_or_violation_lem (read (drop (length prefix) raw)) a (e ∙ h),
      )
  | inr other ↦ absurd (ground (arith, other, h))
]

pub frame-reserved {ℓ} :
    {A : Type ℓ} (prefix : List ℕ) (read : List ℕ → Option A) (body : List ℕ) (a : A)
    → read body ≡ some a
    → reserved prefix read (prefix ++ body) ≡ frame a
frame-reserved prefix read body a h =
    rw (has_prefix-append prefix body, drop-append prefix body, h) refl
