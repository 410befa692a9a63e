-- ===== src/FrontDoor/Leases/Fences.antt =====
-- What a store of leases promises its owners.
use persea_terminal.Base.{
  ℕ, ◌<◌, ◌≡◌, refl, sym, ap, ◌∙◌, inl, inr, true, false, none, some, arith, ◌==◌, Bool-cases,
  Option-cases, subst,
}
use persea_terminal.FrontDoor.Leases.{
  LeaseStore, new_lease_store, set_at, is_live, since_of, acquire, renew, release_lease, new_owner,
  install, acquire_owner, is_exact, renew_owner, release_owner, owner_of, transfer_starts,
  displacing, fence, transfer_commits, owner_fenced, input_begins, input_ends, renew_owner_gated,
  control_displacement,
}
use persea_terminal.FrontDoor.Leases.Steps.{
  World, after_acquire, after_start, Step, acquires, renews, releases, allocates, owner_acquires,
  owner_renews, owner_releases, transfer_opens, transfer_ends, begins, ends, receives, IsSound,
  acquire-IsSound,
}
use persea_terminal.FrontDoor.Leases.Owners.{
  install-IsSound, renew-IsSound, release_lease-IsSound, release_owner-IsSound,
  renew_owner_gated-IsSound, new_owner-IsSound,
}
use persea_terminal.FrontDoor.Leases.Transfers.{
  is_exact-owner, commit-IsSound, begins-IsSound, ends-IsSound, receives-IsSound,
}

owner_acquires-IsSound :
    (w : World) (p now : ℕ)
    → IsSound w
    → p < w.store.allocated
    → w.installed p ≡ false
    → IsSound (after_acquire w p (acquire_owner w.store p now))
unfolding acquire_owner
owner_acquires-IsSound w p now v exists new =
    elim (Bool-cases (is_live (w.store.entries (w.store.owners p).authority) now)) [
      | inl held ↦
          subst (λ x. IsSound (after_acquire w p x))
            (let e : (since_of (w.store.entries (w.store.owners p).authority), false, w.store)
                  ≡ acquire_owner w.store p now =
                ground (arith, held) in
              e)
            v
      | inr free ↦
          subst (λ x. IsSound (after_acquire w p x))
            (let e : (now, true, install w.store p now) ≡ acquire_owner w.store p now =
                ground (arith, free) in
              e)
            (install-IsSound w p now v exists new)
    ]

transfer_opens-IsSound :
    (w : World) (p now : ℕ)
    → IsSound w
    → p < w.store.allocated
    → w.installed p ≡ false
    → IsSound (after_start w p (transfer_starts w.store p now))
unfolding transfer_starts
transfer_opens-IsSound w p now v exists new =
    elim (Option-cases (owner_of (w.store.entries (w.store.owners p).authority))) [
      | inl nobody ↦
          subst (λ x. IsSound (after_start w p x))
            (let e : (none, install w.store p now) ≡ transfer_starts w.store p now =
                ground (arith, nobody) in
              e)
            (install-IsSound w p now v exists new)
      | inr (old, holds) ↦
          elim (Bool-cases (is_live (w.store.entries (w.store.owners p).authority) now)) [
            | inr late ↦
                subst (λ x. IsSound (after_start w p x))
                  (let e : (none, install w.store p now) ≡ transfer_starts w.store p now =
                      ground (arith, holds, late) in
                    e)
                  (install-IsSound w p now v exists new)
            | inl live ↦
                subst (λ x. IsSound (after_start w p x))
                  (let e : (some old, w.store) ≡ transfer_starts w.store p now =
                      ground (arith, holds, live) in
                    e)
                  v
          ]
    ]

transfer_ends-IsSound :
    (w : World) (p old now : ℕ) (s : LeaseStore)
    → IsSound w
    → p < w.store.allocated
    → w.installed p ≡ false
    → (w.store.owners old).gate ≡ false
    → transfer_commits w.store p old now ≡ some s
    → IsSound (record { store = s; installed = set_at p true w.installed })
unfolding transfer_commits
transfer_ends-IsSound w p old now s v exists new free h =
    elim (Bool-cases (is_exact w.store old (w.store.entries (w.store.owners p).authority))) [
      | inr stale ↦ ground (arith, stale, h)
      | inl exact ↦
          subst (λ s. IsSound (record { store = s; installed = set_at p true w.installed }))
            (let e : install (fence w.store old) p now ≡ s = ground (arith, exact, h) in e)
            (commit-IsSound w p old now v exists new free
              (is_exact-owner w.store old (w.store.entries (w.store.owners p).authority) exact))
    ]

Step-IsSound : {w w' : World} → Step w w' → IsSound w → IsSound w'
Step-IsSound {w} (acquires key holder now) v = acquire-IsSound w key holder now v
Step-IsSound {w} (renews key holder now) v = renew-IsSound w key holder now v
Step-IsSound {w} (releases key holder) v = release_lease-IsSound w key holder v
Step-IsSound {w} (allocates authority holder takeover) v =
    new_owner-IsSound w authority holder takeover v
Step-IsSound {w} (owner_acquires p now exists new) v = owner_acquires-IsSound w p now v exists new
Step-IsSound {w} (owner_renews p now free) v = renew_owner_gated-IsSound w p now v
Step-IsSound {w} (owner_releases p) v = release_owner-IsSound w p v
Step-IsSound {w} (transfer_opens p now exists new) v = transfer_opens-IsSound w p now v exists new
Step-IsSound {w} (transfer_ends p old now s exists new free h) v =
    transfer_ends-IsSound w p old now s v exists new free h
Step-IsSound {w} (begins p now free) v = begins-IsSound w p now v
Step-IsSound {w} (ends p) v = ends-IsSound w p v
Step-IsSound {w} (receives p) v = receives-IsSound w p v

abbrev pub starting : ℕ → World
starting ttl = record { store = new_lease_store ttl; installed = λ p. false }

pub data Reach (ttl : ℕ) : World → Type 0 where
  starts : Reach ttl (starting ttl)
  steps : {w w' : World} → Reach ttl w → Step w w' → Reach ttl w'

Reach-IsSound : {ttl : ℕ} {w : World} → Reach ttl w → IsSound w
Reach-IsSound starts = record {
  current = λ key p h. cc;
  quiet = λ p h. cc;
  told = λ p r h. cc;
  marked = λ p h. cc;
  fresh = λ p h. refl;
}
Reach-IsSound (steps reach step) = Step-IsSound step (Reach-IsSound reach)

-- In a store that is driven by any calls, an owner is not fenced while an input of its is being
-- written.
pub Reach-quiet :
    {ttl : ℕ} {w : World} (p : ℕ)
    → Reach ttl w
    → (w.store.owners p).gate ≡ true
    → owner_fenced w.store p ≡ false
unfolding owner_fenced
Reach-quiet p reach h = (Reach-IsSound reach).quiet p h

-- What the transfer from one owner to another does.
pub record Displaced (s : LeaseStore) (p old : ℕ) (s' : LeaseStore) : Type 0 where
  pub has_room : (s.owners old).displaced ≡ none
  pub fenced : owner_fenced s' old ≡ true
  pub told : (control_displacement s' old).0 ≡ some (displacing (s.owners old))
  pub holds : owner_of (s'.entries (s.owners p).authority) ≡ some p
  pub not_fenced : owner_fenced s' p ≡ false

-- In a store that is driven by any calls: a transfer that commits finds the old owner's channel
-- empty, so that its send does not block under the locks; it fences the old owner and tells it why,
-- and gives the lease to the new owner, who is not fenced.
pub transfer_commits-Displaced :
    {ttl : ℕ} {w : World} (p old now : ℕ) (s : LeaseStore)
    → Reach ttl w
    → w.installed p ≡ false
    → transfer_commits w.store p old now ≡ some s
    → Displaced w.store p old s
unfolding transfer_commits owner_fenced control_displacement
transfer_commits-Displaced {ttl} {w} p old now s reach new h =
    elim (Bool-cases (is_exact w.store old (w.store.entries (w.store.owners p).authority))) [
      | inr stale ↦ ground (arith, stale, h)
      | inl exact ↦
          let v = Reach-IsSound reach in
          let c =
            v.current (w.store.owners p).authority old
              (is_exact-owner w.store old (w.store.entries (w.store.owners p).authority) exact) in
          let other : (p == old) ≡ false = ground (arith, new, c.is_installed) in
          subst (Displaced w.store p old)
            (let e : install (fence w.store old) p now ≡ s = ground (arith, exact, h) in e)
            (record {
              has_room = c.untold;
              fenced = ground (arith, other);
              told = ground (arith, other);
              holds = ground (arith, other);
              not_fenced = ground (arith, other, new, v.marked p);
            })
    ]

begun :
    (s : LeaseStore) (r time : ℕ)
    → (input_begins s r time).0 ≡ true
    → (is_exact s r (s.entries (s.owners r).authority) ≡ true) × ((s.owners r).fenced ≡ false)
unfolding input_begins renew_owner
begun s r time h = elim (Bool-cases (s.owners r).fenced) [
  | inl out ↦ ground (arith, out, h)
  | inr inside ↦ elim (Bool-cases (is_exact s r (s.entries (s.owners r).authority))) [
    | inl exact ↦ (exact, inside)
    | inr stale ↦ ground (arith, inside, stale, h)
  ]
]

-- At one time, at most one owner of an authority can begin an input, and only one that is not fenced.
pub input_begins-exclusive :
    (s : LeaseStore) (p q now now' : ℕ)
    → (s.owners p).authority ≡ (s.owners q).authority
    → (input_begins s p now).0 ≡ true
    → (input_begins s q now').0 ≡ true
    → (p ≡ q) × (owner_fenced s p ≡ false)
unfolding input_begins owner_fenced
input_begins-exclusive s p q now now' same h k =
    let e = begun s p now h in
    let e' = begun s q now' k in
    let pointers : some p ≡ some q =
      sym (is_exact-owner s p (s.entries (s.owners p).authority) e.0)
      ∙ ap (λ a. owner_of (s.entries a)) same
      ∙ is_exact-owner s q (s.entries (s.owners q).authority) e'.0 in
    ((cc), e.1)

-- Every call leaves an owner that exists as fenced as it was.
Step-fenced :
    {w w' : World} (p : ℕ)
    → IsSound w
    → Step w w'
    → (w.store.owners p).fenced ≡ true
    → (w'.store.owners p).fenced ≡ true
unfolding acquire renew release_lease new_owner acquire_owner renew_owner release_owner
    transfer_starts transfer_commits input_begins input_ends renew_owner_gated control_displacement
Step-fenced {w} p v (acquires key holder now) h = ground (arith, h)
Step-fenced {w} p v (renews key holder now) h = ground (arith, h)
Step-fenced {w} p v (releases key holder) h = ground (arith, h)
Step-fenced {w} p v (allocates authority holder takeover) h =
    ground (arith, h, v.fresh p, v.marked p h)
Step-fenced {w} p v (owner_acquires q now exists new) h =
    elim (Bool-cases (is_live (w.store.entries (w.store.owners q).authority) now)) [
      | inl held ↦ ground (arith, held, h)
      | inr late ↦ ground (arith, late, h)
    ]
Step-fenced {w} p v (owner_renews q now free) h = ground (arith, h)
Step-fenced {w} p v (owner_releases q) h = ground (arith, h)
Step-fenced {w} p v (transfer_opens q now exists new) h =
    elim (Option-cases (owner_of (w.store.entries (w.store.owners q).authority))) [
      | inl nobody ↦ ground (arith, nobody, h)
      | inr (old, holds) ↦
          elim (Bool-cases (is_live (w.store.entries (w.store.owners q).authority) now)) [
            | inl live ↦ ground (arith, holds, live, h)
            | inr late ↦ ground (arith, holds, late, h)
          ]
    ]
Step-fenced {w} p v (transfer_ends q old now s exists new free e) h =
    elim (Bool-cases (is_exact w.store old (w.store.entries (w.store.owners q).authority))) [
      | inr stale ↦ ground (arith, stale, e)
      | inl exact ↦
          subst (λ s. (s.owners p).fenced ≡ true)
            (let same : install (fence w.store old) q now ≡ s = ground (arith, exact, e) in same)
            (ground (arith, h))
    ]
Step-fenced {w} p v (begins q now free) h = ground (arith, h)
Step-fenced {w} p v (ends q) h = ground (arith, h)
Step-fenced {w} p v (receives q) h = ground (arith, h)

pub data Later (w : World) : World → Type 0 where
  now_still : Later w w
  step_later : {w' w'' : World} → Later w w' → Step w' w'' → Later w w''

Later-fenced :
    {w w' : World} (p : ℕ)
    → IsSound w
    → Later w w'
    → (w.store.owners p).fenced ≡ true
    → IsSound w' × ((w'.store.owners p).fenced ≡ true)
Later-fenced p v now_still h = (v, h)
Later-fenced p v (step_later later step) h =
    let (v', h') = Later-fenced p v later h in (Step-IsSound step v', Step-fenced p v' step h')

-- In a store that is driven by any calls, an owner that is fenced stays fenced whatever is called
-- afterwards: no input of its begins any more, and its lease is not renewed.
pub Later-refused :
    {ttl : ℕ} {w w' : World} (p now : ℕ)
    → Reach ttl w
    → Later w w'
    → owner_fenced w.store p ≡ true
    → ((input_begins w'.store p now).0 ≡ false) × ((renew_owner_gated w'.store p now).0 ≡ false)
unfolding owner_fenced input_begins renew_owner_gated
Later-refused p now reach later h =
    let (_, out) = Later-fenced p (Reach-IsSound reach) later h in
    (ground (arith, out), ground (arith, out))
