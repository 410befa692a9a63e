-- ===== src/FrontDoor/Leases/Steps.antt =====
-- The calls on a store of leases as steps, and what they keep. A connection that is made an owner
-- acquires or transfers its lease once: `installed` says for which it has succeeded.
use persea_terminal.Base.{
  ℕ, ◌+◌, ◌≤◌, ◌<◌, ◌≡◌, refl, sym, ap, ◌∙◌, inl, inr, Bool, true, false, not, ◌&&◌, Option, none,
  some, arith, ◌==◌, Bool-cases, add64, subst,
}
use persea_terminal.FrontDoor.Leases.{
  Reason, LeaseEntry, LeaseStore, set_at, is_live, is_held_by, prolonged, acquire, renew,
  release_lease, new_owner, acquire_owner, release_owner, owner_of, transfer_starts,
  transfer_commits, input_begins, input_ends, renew_owner_gated, control_displacement,
}

pub record World : Type 0 where
  pub store : LeaseStore
  pub installed : ℕ → Bool

abbrev pub after_acquire : World → ℕ → ℕ × Bool × LeaseStore → World
after_acquire w p (since, true, s) = record { store = s; installed = set_at p true w.installed }
after_acquire w p (since, false, s) = record { store = s; installed = w.installed }

abbrev pub after_start : World → ℕ → Option ℕ × LeaseStore → World
after_start w p (none, s) = record { store = s; installed = set_at p true w.installed }
after_start w p (some old, s) = record { store = s; installed = w.installed }

-- One call under its locks: a gate that a call locks is free.
pub data Step (w : World) : World → Type 0 where
  acquires : (key holder now : ℕ) → Step w (record w { store = (acquire w.store key holder now).2 })
  renews : (key holder now : ℕ) → Step w (record w { store = (renew w.store key holder now).1 })
  releases : (key holder : ℕ) → Step w (record w { store = release_lease w.store key holder })
  allocates :
      (authority holder : ℕ) (takeover : Bool)
      → Step w (record w { store = (new_owner w.store authority holder takeover).1 })
  owner_acquires :
      (p now : ℕ)
      → p < w.store.allocated
      → w.installed p ≡ false
      → Step w (after_acquire w p (acquire_owner w.store p now))
  owner_renews :
      (p now : ℕ)
      → (w.store.owners p).gate ≡ false
      → Step w (record w { store = (renew_owner_gated w.store p now).1 })
  owner_releases : (p : ℕ) → Step w (record w { store = (release_owner w.store p).1 })
  transfer_opens :
      (p now : ℕ)
      → p < w.store.allocated
      → w.installed p ≡ false
      → Step w (after_start w p (transfer_starts w.store p now))
  transfer_ends :
      (p old now : ℕ) (s : LeaseStore)
      → p < w.store.allocated
      → w.installed p ≡ false
      → (w.store.owners old).gate ≡ false
      → transfer_commits w.store p old now ≡ some s
      → Step w (record { store = s; installed = set_at p true w.installed })
  begins :
      (p now : ℕ)
      → (w.store.owners p).gate ≡ false
      → Step w (record w { store = (input_begins w.store p now).1 })
  ends : (p : ℕ) → Step w (record w { store = input_ends w.store p })
  receives : (p : ℕ) → Step w (record w { store = (control_displacement w.store p).1 })

-- What an entry says of its owner.
pub record IsCurrent (w : World) (key p : ℕ) : Type 0 where
  pub exists : p < w.store.allocated
  pub unfenced : (w.store.owners p).fenced ≡ false
  pub untold : (w.store.owners p).displaced ≡ none
  pub own_key : (w.store.owners p).authority ≡ key
  pub is_installed : w.installed p ≡ true

pub record IsSound (w : World) : Type 0 where
  pub current : (key p : ℕ) → owner_of (w.store.entries key) ≡ some p → IsCurrent w key p
  pub quiet : (p : ℕ) → (w.store.owners p).gate ≡ true → (w.store.owners p).fenced ≡ false
  pub told :
      (p : ℕ) (r : Reason)
      → (w.store.owners p).displaced ≡ some r
      → (w.store.owners p).fenced ≡ true
  pub marked : (p : ℕ) → (w.store.owners p).fenced ≡ true → w.installed p ≡ true
  pub fresh : (p : ℕ) → w.store.allocated ≤ p → w.installed p ≡ false

-- Entries that name no owner but the one they named before.
pub entries-IsSound :
    (w : World) (serial : ℕ) (entries : ℕ → Option LeaseEntry)
    → IsSound w
    → ((key p : ℕ) → owner_of (entries key) ≡ some p → owner_of (w.store.entries key) ≡ some p)
    → IsSound (record w { store = record w.store { entries = entries; serial = serial } })
entries-IsSound w serial entries v same = record {
  current = λ key p h.
      let c = v.current key p (same key p h) in
      record {
        exists = c.exists;
        unfenced = c.unfenced;
        untold = c.untold;
        own_key = c.own_key;
        is_installed = c.is_installed;
      };
  quiet = v.quiet;
  told = v.told;
  marked = v.marked;
  fresh = v.fresh;
}

owner_of-prolonged :
    (e : Option LeaseEntry) (expires : ℕ) → owner_of (prolonged e expires) ≡ owner_of e
owner_of-prolonged none expires = refl
owner_of-prolonged (some e) expires = refl

pub prolong-IsSound :
    (w : World) (key expires : ℕ)
    → IsSound w
    → IsSound (record w {
      store = record w.store {
        entries = set_at key (prolonged (w.store.entries key) expires) w.store.entries;
      };
    })
prolong-IsSound w key expires v =
    entries-IsSound w w.store.serial
      (set_at key (prolonged (w.store.entries key) expires) w.store.entries) v
      λ k p h. elim (Bool-cases (k == key)) [
        | inl at ↦
            let there : k ≡ key = ground (arith, at) in
            let h' : owner_of (prolonged (w.store.entries key) expires) ≡ some p =
              ground (arith, at, h) in
            ap (λ k. owner_of (w.store.entries k)) there
            ∙ sym (owner_of-prolonged (w.store.entries key) expires)
            ∙ h'
        | inr away ↦ ground (arith, away, h)
      ]

-- An entry without an owner, or none.
pub disown-IsSound :
    (w : World) (key serial : ℕ) (e : Option LeaseEntry)
    → IsSound w
    → owner_of e ≡ none
    → IsSound (record w {
      store = record w.store { entries = set_at key e w.store.entries; serial = serial };
    })
disown-IsSound w key serial e v nobody =
    entries-IsSound w serial (set_at key e w.store.entries) v λ k p h.
      elim (Bool-cases (k == key)) [
        | inl at ↦ ground (arith, at, h, nobody)
        | inr away ↦ ground (arith, away, h)
      ]

pub acquire-IsSound :
    (w : World) (key holder now : ℕ)
    → IsSound w
    → IsSound (record w { store = (acquire w.store key holder now).2 })
unfolding acquire
acquire-IsSound w key holder now v =
    elim (Bool-cases
      (is_live (w.store.entries key) now && not (is_held_by (w.store.entries key) holder))) [
        | inl held ↦
            subst (λ s. IsSound (record w { store = s }))
              (let e : w.store ≡ (acquire w.store key holder now).2 = ground (arith, held) in e) v
        | inr free ↦
            elim (Bool-cases
              (is_held_by (w.store.entries key) holder && is_live (w.store.entries key) now)) [
                | inl own ↦
                    subst (λ s. IsSound (record w { store = s }))
                      (let e : record w.store {
                        entries =
                            set_at key (prolonged (w.store.entries key) (now + w.store.ttl))
                              w.store.entries;
                      }
                            ≡ (acquire w.store key holder now).2 =
                          ground (arith, free, own) in
                        e)
                      (prolong-IsSound w key (now + w.store.ttl) v)
                | inr nobody ↦
                    subst (λ s. IsSound (record w { store = s }))
                      (let e : record w.store {
                        serial = add64 w.store.serial 1;
                        entries =
                            set_at key
                              (some (record {
                                generation = add64 w.store.serial 1;
                                holder = holder;
                                since = now;
                                expires = now + w.store.ttl;
                                owner = none;
                              }))
                              w.store.entries;
                      }
                            ≡ (acquire w.store key holder now).2 =
                          ground (arith, free, nobody) in
                        e)
                      (disown-IsSound w key (add64 w.store.serial 1)
                        (some (record {
                          generation = add64 w.store.serial 1;
                          holder = holder;
                          since = now;
                          expires = now + w.store.ttl;
                          owner = none;
                        }))
                        v refl)
              ]
      ]
