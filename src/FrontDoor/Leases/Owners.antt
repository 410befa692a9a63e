-- ===== src/FrontDoor/Leases/Owners.antt =====
-- What the calls with an owner keep.
use persea_terminal.Base.{
  ℕ, ◌+◌, ◌<◌, ◌≡◌, refl, inl, inr, Bool, true, false, not, ◌||◌, none, arith, ◌==◌, Bool-cases,
  Option-cases, subst,
}
use persea_terminal.FrontDoor.Leases.{
  set_at, is_live, is_held_by, prolonged, renew, release_lease, new_owner, install, is_exact,
  renew_owner, release_owner, renew_owner_gated,
}
use persea_terminal.FrontDoor.Leases.Steps.{World, IsSound, prolong-IsSound, disown-IsSound}

pub renew-IsSound :
    (w : World) (key holder now : ℕ)
    → IsSound w
    → IsSound (record w { store = (renew w.store key holder now).1 })
unfolding renew
renew-IsSound w key holder now v = elim (Bool-cases (is_held_by (w.store.entries key) holder)) [
  | inr other ↦
      subst (λ s. IsSound (record w { store = s }))
        (let e : w.store ≡ (renew w.store key holder now).1 = ground (arith, other) in e) v
  | inl own ↦ elim (Bool-cases (is_live (w.store.entries key) now)) [
    | inr late ↦
        subst (λ s. IsSound (record w { store = s }))
          (let e : record w.store { entries = set_at key none w.store.entries }
                ≡ (renew w.store key holder now).1 =
              ground (arith, own, late) in
            e)
          (disown-IsSound w key w.store.serial none v refl)
    | inl live ↦
        subst (λ s. IsSound (record w { store = s }))
          (let e : record w.store {
            entries =
                set_at key (prolonged (w.store.entries key) (now + w.store.ttl)) w.store.entries;
          }
                ≡ (renew w.store key holder now).1 =
              ground (arith, own, live) in
            e)
          (prolong-IsSound w key (now + w.store.ttl) v)
  ]
]

pub release_lease-IsSound :
    (w : World) (key holder : ℕ)
    → IsSound w
    → IsSound (record w { store = release_lease w.store key holder })
unfolding release_lease
release_lease-IsSound w key holder v = elim (Bool-cases (is_held_by (w.store.entries key) holder)) [
  | inr other ↦
      subst (λ s. IsSound (record w { store = s }))
        (let e : w.store ≡ release_lease w.store key holder = ground (arith, other) in e) v
  | inl own ↦
      subst (λ s. IsSound (record w { store = s }))
        (let e : record w.store { entries = set_at key none w.store.entries }
              ≡ release_lease w.store key holder =
            ground (arith, own) in
          e)
        (disown-IsSound w key w.store.serial none v refl)
]

pub release_owner-IsSound :
    (w : World) (p : ℕ) → IsSound w → IsSound (record w { store = (release_owner w.store p).1 })
unfolding release_owner
release_owner-IsSound w p v =
    elim (Bool-cases (is_exact w.store p (w.store.entries (w.store.owners p).authority))) [
      | inr other ↦
          subst (λ s. IsSound (record w { store = s }))
            (let e : w.store ≡ (release_owner w.store p).1 = ground (arith, other) in e) v
      | inl own ↦
          subst (λ s. IsSound (record w { store = s }))
            (let e : record w.store {
              entries = set_at (w.store.owners p).authority none w.store.entries;
            }
                  ≡ (release_owner w.store p).1 =
                ground (arith, own) in
              e)
            (disown-IsSound w (w.store.owners p).authority w.store.serial none v refl)
    ]

pub renew_owner-IsSound :
    (w : World) (p now : ℕ)
    → IsSound w
    → IsSound (record w { store = (renew_owner w.store p now).1 })
unfolding renew_owner
renew_owner-IsSound w p now v =
    elim (Bool-cases (
      not (is_exact w.store p (w.store.entries (w.store.owners p).authority))
      || (w.store.owners p).fenced
      || not (is_live (w.store.entries (w.store.owners p).authority) now))) [
        | inl refused ↦
            subst (λ s. IsSound (record w { store = s }))
              (let e : w.store ≡ (renew_owner w.store p now).1 = ground (arith, refused) in e) v
        | inr renewed ↦
            subst (λ s. IsSound (record w { store = s }))
              (let e : record w.store {
                entries =
                    set_at (w.store.owners p).authority
                      (prolonged (w.store.entries (w.store.owners p).authority) (now + w.store.ttl))
                      w.store.entries;
              }
                    ≡ (renew_owner w.store p now).1 =
                  ground (arith, renewed) in
                e)
              (prolong-IsSound w (w.store.owners p).authority (now + w.store.ttl) v)
      ]

pub renew_owner_gated-IsSound :
    (w : World) (p now : ℕ)
    → IsSound w
    → IsSound (record w { store = (renew_owner_gated w.store p now).1 })
unfolding renew_owner_gated
renew_owner_gated-IsSound w p now v = elim (Bool-cases (w.store.owners p).fenced) [
  | inl out ↦
      subst (λ s. IsSound (record w { store = s }))
        (let e : w.store ≡ (renew_owner_gated w.store p now).1 = ground (arith, out) in e) v
  | inr inside ↦
      subst (λ s. IsSound (record w { store = s }))
        (let e : (renew_owner w.store p now).1 ≡ (renew_owner_gated w.store p now).1 =
            ground (arith, inside) in
          e)
        (renew_owner-IsSound w p now v)
]

pub new_owner-IsSound :
    (w : World) (authority holder : ℕ) (takeover : Bool)
    → IsSound w
    → IsSound (record w { store = (new_owner w.store authority holder takeover).1 })
unfolding new_owner
new_owner-IsSound w authority holder takeover v = record {
  current = λ key p h.
      let c = v.current key p h in
      record {
        exists = omega (arith, c.exists);
        unfenced = ground (arith, c.exists, c.unfenced);
        untold = ground (arith, c.exists, c.untold);
        own_key = ground (arith, c.exists, c.own_key);
        is_installed = c.is_installed;
      };
  quiet = λ p h. ground (arith, v.quiet p);
  told = λ p r h. ground (arith, v.told p r);
  marked = λ p h. ground (arith, v.marked p);
  fresh = λ p h. v.fresh p (omega (arith, h));
}

-- An owner that was never installed was not told anything.
pub installed_not_told :
    (w : World) (p : ℕ) → IsSound w → w.installed p ≡ false → (w.store.owners p).displaced ≡ none
installed_not_told w p v new = elim (Option-cases (w.store.owners p).displaced) [
  | inl untold ↦ untold
  | inr (r, h) ↦ absurd (ground (arith, v.marked p (v.told p r h), new))
]

pub install-IsSound :
    (w : World) (p now : ℕ)
    → IsSound w
    → p < w.store.allocated
    → w.installed p ≡ false
    → IsSound (record { store = install w.store p now; installed = set_at p true w.installed })
install-IsSound w p now v exists new = record {
  current = λ key q h. elim (Bool-cases (key == (w.store.owners p).authority)) [
    | inl at ↦
        let same : p ≡ q = ground (arith, at, h) in
        record {
          exists = ground (arith, same, exists);
          unfenced = ground (arith, same, new, v.marked p);
          untold = ground (arith, same, installed_not_told w p v new);
          own_key = ground (arith, same, at);
          is_installed = ground (arith, same);
        }
    | inr away ↦
        let c = v.current key q (ground (arith, away, h)) in
        record {
          exists = c.exists;
          unfenced = ground (arith, c.unfenced);
          untold = ground (arith, c.untold);
          own_key = ground (arith, c.own_key);
          is_installed = ground (arith, c.is_installed);
        }
  ];
  quiet = λ q h. ground (arith, v.quiet q);
  told = λ q r h. ground (arith, v.told q r);
  marked = λ q h. ground (arith, v.marked q);
  fresh = λ q h. ground (arith, v.fresh q h, exists);
}
