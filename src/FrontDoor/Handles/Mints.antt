-- ===== src/FrontDoor/Handles/Mints.antt =====
-- The eviction of handles, and what a prune keeps.
use persea_terminal.Base.{
  ℕ, zero, suc, ◌+◌, ◌-◌, ◌^◌, ◌≤◌, ◌<◌, ◌≡◌, refl, ap, ◌∙◌, ◌⊎◌, inl, inr, Bool, true, false,
  Option, none, some, List, [], ◌∷◌, arith, ltb, ◌==◌, Bool-cases, length, subst,
}
use persea_terminal.Base.Maps.{
  lookup, delete, has_key, HasUniqueKeys, length-delete, delete-HasUniqueKeys,
}
use persea_terminal.FrontDoor.Handles.{
  keep, HandleEntry, oldest, delete_found, evict_oldest, evict_until,
}

-- Every entry has a serial below the greatest, which is the value that evictOldest starts from.
abbrev pub AllOlder : List (ℕ × HandleEntry) → Type 0
AllOlder [] = Unit
AllOlder ((h, e) ∷ m) = (e.created < 2 ^ 64 - 1) × AllOlder m

lookup_present :
    {A : Type 0} (k : ℕ) (m : List (ℕ × A)) → has_key k m ≡ true → (a : A) × (lookup k m ≡ some a)
lookup_present k [] h = cc
lookup_present k ((j, a) ∷ m) h = elim (Bool-cases (k == j)) [
  | inl same ↦ (a, ground (arith, same))
  | inr other ↦
      let (b, e) = lookup_present k m (ground (arith, other, h)) in (b, ground (arith, other, e))
]

oldest-found :
    (m : List (ℕ × HandleEntry)) (best serial : ℕ)
    → (k : ℕ) × (oldest m (some best) serial ≡ some k) × ((k ≡ best) ⊎ (has_key k m ≡ true))
unfolding oldest
oldest-found [] best serial = (best, refl, inl refl)
oldest-found ((h, e) ∷ m) best serial = elim (Bool-cases (ltb e.created serial)) [
  | inl older ↦
      let (k, found, where') = oldest-found m h e.created in
      (
        k,
        ground (arith, older, found),
        inr (elim where' [ inl same ↦ ground (arith, same) | inr inside ↦ ground (arith, inside) ]),
      )
  | inr newer ↦
      let (k, found, where') = oldest-found m best serial in
      (
        k,
        ground (arith, newer, found),
        (elim where' [ inl same ↦ inl same | inr inside ↦ inr (ground (arith, inside)) ]),
      )
]

-- One eviction takes one entry away.
length-evict_oldest :
    (h : ℕ) (e : HandleEntry) (m : List (ℕ × HandleEntry))
    → HasUniqueKeys ((h, e) ∷ m)
    → e.created < 2 ^ 64 - 1
    → length (evict_oldest ((h, e) ∷ m)) + 1 ≡ length ((h, e) ∷ m)
unfolding evict_oldest oldest
length-evict_oldest h e m u old =
    let (k, found, where') = oldest-found m h e.created in
    let present : has_key k ((h, e) ∷ m) ≡ true = elim where' [
      | inl same ↦ ground (arith, same)
      | inr inside ↦ ground (arith, inside)
    ] in
    let (a, there) = lookup_present k ((h, e) ∷ m) present in
    let less = length-delete k ((h, e) ∷ m) a u there in
    let chosen : oldest ((h, e) ∷ m) none (2 ^ 64 - 1) ≡ some k = ground (arith, old, found) in
    ap (λ o. length (delete_found o ((h, e) ∷ m)) + 1) chosen ∙ less

delete_found-HasUniqueKeys :
    (o : Option ℕ) (m : List (ℕ × HandleEntry)) → HasUniqueKeys m → HasUniqueKeys (delete_found o m)
delete_found-HasUniqueKeys none m u = u
delete_found-HasUniqueKeys (some k) m u = delete-HasUniqueKeys k m u

pub evict_oldest-HasUniqueKeys :
    (m : List (ℕ × HandleEntry)) → HasUniqueKeys m → HasUniqueKeys (evict_oldest m)
unfolding evict_oldest
evict_oldest-HasUniqueKeys m u = delete_found-HasUniqueKeys (oldest m none (2 ^ 64 - 1)) m u

delete-AllOlder : (k : ℕ) (m : List (ℕ × HandleEntry)) → AllOlder m → AllOlder (delete k m)
delete-AllOlder k [] a = a
delete-AllOlder k ((j, e) ∷ m) (a, b) = elim (Bool-cases (k == j)) [
  | inl same ↦
      subst AllOlder (let x : delete k m ≡ delete k ((j, e) ∷ m) = ground (arith, same) in x)
        (delete-AllOlder k m b)
  | inr other ↦
      subst AllOlder
        (let x : (j, e) ∷ delete k m ≡ delete k ((j, e) ∷ m) = ground (arith, other) in x)
        (a, delete-AllOlder k m b)
]

delete_found-AllOlder :
    (o : Option ℕ) (m : List (ℕ × HandleEntry)) → AllOlder m → AllOlder (delete_found o m)
delete_found-AllOlder none m a = a
delete_found-AllOlder (some k) m a = delete-AllOlder k m a

-- As much fuel as there are entries is enough, where the capacity is positive.
pub evict_until-some :
    (fuel capacity : ℕ) (m : List (ℕ × HandleEntry))
    → 0 < capacity
    → length m ≤ fuel
    → HasUniqueKeys m
    → AllOlder m
    → (m' : List (ℕ × HandleEntry)) × (evict_until fuel capacity m ≡ some m')
      × (length m' < capacity)
unfolding evict_until evict_oldest
evict_until-some zero capacity m h few u a = (m, ground (arith, h, few), omega (arith, h, few))
evict_until-some (suc fuel) capacity [] h few u a = ([], ground (arith, h), h)
evict_until-some (suc fuel) capacity ((k, e) ∷ m) h few u a =
    elim (Bool-cases (ltb (length ((k, e) ∷ m)) capacity)) [
      | inl room ↦ ((k, e) ∷ m, ground (arith, room), ground (arith, room))
      | inr full ↦
          let less = length-evict_oldest k e m u a.0 in
          let (m', done, short) =
            evict_until-some fuel capacity (evict_oldest ((k, e) ∷ m)) h (omega (arith, less, few))
              (delete_found-HasUniqueKeys (oldest ((k, e) ∷ m) none (2 ^ 64 - 1)) ((k, e) ∷ m) u)
              (delete_found-AllOlder (oldest ((k, e) ∷ m) none (2 ^ 64 - 1)) ((k, e) ∷ m) a) in
          (m', ground (arith, full, done), short)
    ]

pub has_key-keep :
    {A : Type 0} (test : A → Bool) (k : ℕ) (m : List (ℕ × A))
    → has_key k m ≡ false
    → has_key k (keep test m) ≡ false
has_key-keep test k [] h = refl
has_key-keep test k ((j, a) ∷ m) h = ground (arith, h, has_key-keep test k m)

pub keep-HasUniqueKeys :
    {A : Type 0} (test : A → Bool) (m : List (ℕ × A))
    → HasUniqueKeys m
    → HasUniqueKeys (keep test m)
keep-HasUniqueKeys test [] u = u
keep-HasUniqueKeys test ((j, a) ∷ m) (h, u) = elim (Bool-cases (test a)) [
  | inl kept ↦
      subst HasUniqueKeys
        (let x : (j, a) ∷ keep test m ≡ keep test ((j, a) ∷ m) = ground (arith, kept) in x)
        (has_key-keep test j m h, keep-HasUniqueKeys test m u)
  | inr gone ↦
      subst HasUniqueKeys (let x : keep test m ≡ keep test ((j, a) ∷ m) = ground (arith, gone) in x)
        (keep-HasUniqueKeys test m u)
]

pub keep-AllOlder :
    (test : HandleEntry → Bool) (m : List (ℕ × HandleEntry)) → AllOlder m → AllOlder (keep test m)
keep-AllOlder test [] a = a
keep-AllOlder test ((j, e) ∷ m) (h, a) = elim (Bool-cases (test e)) [
  | inl kept ↦
      subst AllOlder
        (let x : (j, e) ∷ keep test m ≡ keep test ((j, e) ∷ m) = ground (arith, kept) in x)
        (h, keep-AllOlder test m a)
  | inr gone ↦
      subst AllOlder (let x : keep test m ≡ keep test ((j, e) ∷ m) = ground (arith, gone) in x)
        (keep-AllOlder test m a)
]
