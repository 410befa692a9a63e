-- ===== src/FrontDoor/Handles/Evictions.antt =====
-- Which handles an eviction takes: the oldest.
use persea_terminal.Base.{
  ℕ, zero, suc, ◌-◌, ◌^◌, ◌≤◌, ◌<◌, ◌≡◌, refl, sym, inl, inr, Option, none, some, List, [], ◌∷◌,
  arith, ltb, ◌==◌, Bool-cases, Option-cases, length, subst,
}
use persea_terminal.Base.Maps.{lookup, delete, HasUniqueKeys, lookup-has_key, lookup-delete}
use persea_terminal.FrontDoor.Handles.{HandleEntry, oldest, delete_found, evict_oldest, evict_until}
use persea_terminal.FrontDoor.Handles.Mints.{evict_oldest-HasUniqueKeys}

-- What the loop of evictOldest finds, from a key and a serial on.
data Least (m : List (ℕ × HandleEntry)) (key : Option ℕ) (serial : ℕ) (r : Option ℕ) : Type 0 where
  stays :
      r ≡ key
      → ((j : ℕ) (x : HandleEntry) → lookup j m ≡ some x → serial ≤ x.created)
      → Least m key serial r
  finds :
      (k : ℕ) (e : HandleEntry)
      → r ≡ some k
      → lookup k m ≡ some e
      → e.created < serial
      → ((j : ℕ) (x : HandleEntry) → lookup j m ≡ some x → e.created ≤ x.created)
      → Least m key serial r

at_head :
    (h bound : ℕ) (e : HandleEntry) (m : List (ℕ × HandleEntry))
    → bound ≤ e.created
    → ((j : ℕ) (x : HandleEntry) → lookup j m ≡ some x → bound ≤ x.created)
    → (j : ℕ) (x : HandleEntry) → lookup j ((h, e) ∷ m) ≡ some x
    → bound ≤ x.created
at_head h bound e m low rest j x there = elim (Bool-cases (j == h)) [
  | inl same ↦
      let here : e ≡ x = ground (arith, same, there) in
      subst (λ (y : HandleEntry). bound ≤ y.created) here low
  | inr other ↦ rest j x (ground (arith, other, there))
]

behind_head :
    (h k : ℕ) (e c : HandleEntry) (m : List (ℕ × HandleEntry))
    → HasUniqueKeys ((h, e) ∷ m)
    → lookup k m ≡ some c
    → lookup k ((h, e) ∷ m) ≡ some c
behind_head h k e c m u there = elim (Bool-cases (k == h)) [
  | inr other ↦ ground (arith, other, there)
  | inl same ↦
      let alike : k ≡ h = ground (arith, same) in
      let none_there : lookup k m ≡ none = rw alike (lookup-has_key h m u.0) in absurd (cc)
]

oldest-Least :
    (m : List (ℕ × HandleEntry)) (key : Option ℕ) (serial : ℕ)
    → HasUniqueKeys m
    → Least m key serial (oldest m key serial)
unfolding oldest
oldest-Least [] key serial u = stays refl (λ j x there. cc)
oldest-Least ((h, e) ∷ m) key serial u = elim (Bool-cases (ltb e.created serial)) [
  | inl older ↦ (elim (oldest-Least m (some h) e.created u.1) [
    | stays same least ↦
        finds h e (ground (arith, older, same)) (ground arith) (ground (arith, older))
          (at_head h e.created e m (omega arith) least)
    | finds k c found there less least ↦
        finds k c (ground (arith, older, found)) (behind_head h k e c m u there)
          (ground (arith, older, less)) (at_head h c.created e m (omega arith) least)
  ])
  | inr newer ↦ (elim (oldest-Least m key serial u.1) [
    | stays same least ↦
        stays (ground (arith, newer, same)) (at_head h serial e m (ground (arith, newer)) least)
    | finds k c found there less least ↦
        finds k c (ground (arith, newer, found)) (behind_head h k e c m u there) less
          (at_head h c.created e m (ground (arith, newer, less)) least)
  ])
]

-- What was taken from a store is no newer than anything that is left, and nothing else changed.
pub record Evicted (m m' : List (ℕ × HandleEntry)) : Type 0 where
  pub kept : (k : ℕ) (y : HandleEntry) → lookup k m' ≡ some y → lookup k m ≡ some y
  pub older :
      (j k : ℕ) (x y : HandleEntry)
      → lookup j m ≡ some x
      → lookup j m' ≡ none
      → lookup k m' ≡ some y
      → x.created ≤ y.created

same-Evicted : (m : List (ℕ × HandleEntry)) → Evicted m m
same-Evicted m = record { kept = λ k y e. e; older = λ j k x y e f g. cc }

delete-kept :
    (d k : ℕ) (y : HandleEntry) (m : List (ℕ × HandleEntry))
    → lookup k (delete d m) ≡ some y
    → lookup k m ≡ some y
delete-kept d k y m e = ground (arith, lookup-delete d k m, e)

deleted :
    (d j : ℕ) (x : HandleEntry) (m : List (ℕ × HandleEntry))
    → lookup j m ≡ some x
    → lookup j (delete d m) ≡ none
    → j ≡ d
deleted d j x m e f = ground (arith, lookup-delete d j m, e, f)

evict_oldest-Evicted : (m : List (ℕ × HandleEntry)) → HasUniqueKeys m → Evicted m (evict_oldest m)
unfolding evict_oldest
evict_oldest-Evicted m u = elim (oldest-Least m none (2 ^ 64 - 1) u) [
  | stays same least ↦ subst (λ o. Evicted m (delete_found o m)) (sym same) (same-Evicted m)
  | finds d e found there less least ↦
      subst (λ o. Evicted m (delete_found o m)) (sym found)
        (record {
          kept = λ k y f. delete-kept d k y m f;
          older = λ j k x y f gone g.
              let at : j ≡ d = deleted d j x m f gone in
              let here : lookup d m ≡ some x = subst (λ i. lookup i m ≡ some x) at f in
              let alike : e ≡ x = ground (arith, there, here) in
              subst (λ (z : HandleEntry). z.created ≤ y.created) alike
                (least k y (delete-kept d k y m g));
        })
]

two-Evicted : (m n m' : List (ℕ × HandleEntry)) → Evicted m n → Evicted n m' → Evicted m m'
two-Evicted m n m' a b = record {
  kept = λ k y e. a.kept k y (b.kept k y e);
  older = λ j k x y e f g. elim (Option-cases (lookup j n)) [
    | inl gone ↦ a.older j k x y e gone (b.kept k y g)
    | inr (z, there) ↦
        let alike : z ≡ x = ground (arith, a.kept j z there, e) in
        b.older j k x y (subst (λ (w : HandleEntry). lookup j n ≡ some w) alike there) f g
  ];
}

pub evict_until-Evicted :
    (fuel capacity : ℕ) (m m' : List (ℕ × HandleEntry))
    → HasUniqueKeys m
    → evict_until fuel capacity m ≡ some m'
    → Evicted m m'
unfolding evict_until
evict_until-Evicted zero capacity m m' u e =
    subst (Evicted m) (let k : m ≡ m' = ground (arith, e) in k) (same-Evicted m)
evict_until-Evicted (suc fuel) capacity m m' u e = elim (Bool-cases (ltb (length m) capacity)) [
  | inl short ↦ subst (Evicted m) (let k : m ≡ m' = ground (arith, short, e) in k) (same-Evicted m)
  | inr long ↦ two-Evicted m (evict_oldest m) m' (evict_oldest-Evicted m u) (
      evict_until-Evicted fuel capacity (evict_oldest m) m' (evict_oldest-HasUniqueKeys m u)
        (ground (arith, long, e)))
]
