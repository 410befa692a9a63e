-- ===== src/Base/Maps.antt =====
-- Maps with numbers for keys, as association lists, under the library's names.
use Prim.Native.Nat.{ℕ, ◌+◌}
use mathlib.Core.Path.{◌≡◌, refl, subst}
use mathlib.Core.Logic.{inl, inr}
use mathlib.Core.Bool.{Bool, true, false}
use mathlib.Core.List.{List, [], ◌∷◌}
use mathlib.Core.Option.{Option, none, some}
use native.Mathlib.Omega.{arith}
use persea_terminal.Base.Tests.{Bool-cases, ◌==◌, if◌then◌else◌}
use persea_terminal.Base.Lists.{length}

module _ {ℓ} {A : Type ℓ} where
  abbrev pub lookup : ℕ → List (ℕ × A) → Option A
  lookup k [] = none
  lookup k ((j, a) ∷ m) = if k == j then some a else lookup k m

  abbrev pub delete : ℕ → List (ℕ × A) → List (ℕ × A)
  delete k [] = []
  delete k ((j, a) ∷ m) = if k == j then delete k m else (j, a) ∷ delete k m

  -- What was under the key is replaced.
  abbrev pub put : ℕ → A → List (ℕ × A) → List (ℕ × A)
  put k a m = (k, a) ∷ delete k m

  abbrev pub has_key : ℕ → List (ℕ × A) → Bool
  has_key k [] = false
  has_key k ((j, a) ∷ m) = if k == j then true else has_key k m

  -- No key stands twice.
  abbrev pub HasUniqueKeys : List (ℕ × A) → Type 0
  HasUniqueKeys [] = Unit
  HasUniqueKeys ((j, a) ∷ m) = (has_key j m ≡ false) × HasUniqueKeys m

  pub lookup-has_key : (k : ℕ) (m : List (ℕ × A)) → has_key k m ≡ false → lookup k m ≡ none
  lookup-has_key k [] h = refl
  lookup-has_key k ((j, a) ∷ m) h = ground (arith, lookup-has_key k m, h)

  pub has_key-lookup : (k : ℕ) (m : List (ℕ × A)) → lookup k m ≡ none → has_key k m ≡ false
  has_key-lookup k [] h = refl
  has_key-lookup k ((j, a) ∷ m) h = ground (arith, has_key-lookup k m, h)

  has_key-delete :
      (k i : ℕ) (m : List (ℕ × A))
      → has_key i (delete k m) ≡ (if i == k then false else has_key i m)
  has_key-delete k i [] = ground arith
  has_key-delete k i ((j, a) ∷ m) = ground (arith, has_key-delete k i m)

  pub lookup-delete :
      (k i : ℕ) (m : List (ℕ × A)) → lookup i (delete k m) ≡ (if i == k then none else lookup i m)
  lookup-delete k i [] = ground arith
  lookup-delete k i ((j, a) ∷ m) = ground (arith, lookup-delete k i m)

  pub delete-missing : (k : ℕ) (m : List (ℕ × A)) → has_key k m ≡ false → delete k m ≡ m
  delete-missing k [] h = refl
  delete-missing k ((j, a) ∷ m) h = ground (arith, delete-missing k m, h)

  pub length-delete :
      (k : ℕ) (m : List (ℕ × A)) (a : A)
      → HasUniqueKeys m
      → lookup k m ≡ some a
      → length (delete k m) + 1 ≡ length m
  length-delete k [] a u h = cc
  length-delete k ((j, b) ∷ m) a u h = elim (Bool-cases (k == j)) [
    | inl same ↦
        let gone : has_key k m ≡ false = ground (arith, same, u.0) in
        ground (arith, same, delete-missing k m gone)
    | inr other ↦ ground (arith, other, h, length-delete k m a u.1)
  ]

  pub delete-HasUniqueKeys :
      (k : ℕ) (m : List (ℕ × A)) → HasUniqueKeys m → HasUniqueKeys (delete k m)
  delete-HasUniqueKeys k [] u = u
  delete-HasUniqueKeys k ((j, a) ∷ m) u = elim (Bool-cases (k == j)) [
    | inl same ↦
        subst HasUniqueKeys (let e : delete k m ≡ delete k ((j, a) ∷ m) = ground (arith, same) in e)
          (delete-HasUniqueKeys k m u.1)
    | inr other ↦
        subst HasUniqueKeys
          (let e : (j, a) ∷ delete k m ≡ delete k ((j, a) ∷ m) = ground (arith, other) in e)
          (ground (arith, has_key-delete k j m, u.0), delete-HasUniqueKeys k m u.1)
  ]

  pub put-HasUniqueKeys :
      (k : ℕ) (a : A) (m : List (ℕ × A)) → HasUniqueKeys m → HasUniqueKeys (put k a m)
  put-HasUniqueKeys k a m u = (ground (arith, has_key-delete k k m), delete-HasUniqueKeys k m u)
