-- ===== src/FrontDoor/Leases/Transfers.antt =====
-- What a transfer, an input and the receive of a displacement keep.
use persea_terminal.Base.{
  ℕ, ◌<◌, ◌≡◌, sym, ap, ◌∙◌, inl, inr, Bool, true, false, Option, none, some, arith, ◌==◌,
  Bool-cases, Option-cases, subst,
}
use persea_terminal.FrontDoor.Leases.{
  LeaseEntry, LeaseStore, set_at, install, is_exact, renew_owner, owner_of, fence, input_begins,
  input_ends, control_displacement,
}
use persea_terminal.FrontDoor.Leases.Steps.{World, IsSound}
use persea_terminal.FrontDoor.Leases.Owners.{installed_not_told, renew_owner-IsSound}

pub is_exact-owner :
    (s : LeaseStore) (p : ℕ) (e : Option LeaseEntry) → is_exact s p e ≡ true → owner_of e ≡ some p
is_exact-owner s p none h = cc
is_exact-owner s p (some e) h = elim (Option-cases e.owner) [
  | inl nobody ↦ ground (arith, h, nobody)
  | inr (q, h') ↦ ground (arith, h, h')
]

pub commit-IsSound :
    (w : World) (p old now : ℕ)
    → IsSound w
    → p < w.store.allocated
    → w.installed p ≡ false
    → (w.store.owners old).gate ≡ false
    → owner_of (w.store.entries (w.store.owners p).authority) ≡ some old
    → IsSound (record {
      store = install (fence w.store old) p now;
      installed = set_at p true w.installed;
    })
commit-IsSound w p old now v exists new free holds =
    let c = v.current (w.store.owners p).authority old holds in
    let other : (p == old) ≡ false = ground (arith, new, c.is_installed) in
    record {
      current = λ key q h. elim (Bool-cases (key == (w.store.owners p).authority)) [
        | inl at ↦
            let same : p ≡ q = ground (arith, at, h, other) in
            record {
              exists = ground (arith, same, exists);
              unfenced = ground (arith, same, other, new, v.marked p);
              untold = ground (arith, same, other, installed_not_told w p v new);
              own_key = ground (arith, same, other, at);
              is_installed = ground (arith, same);
            }
        | inr away ↦
            let d = v.current key q (ground (arith, away, h, other)) in
            let apart : (q == old) ≡ false = elim (Bool-cases (q == old)) [
              | inl both ↦
                  let e : q ≡ old = ground (arith, both) in
                  let keys : key ≡ (w.store.owners p).authority =
                    sym d.own_key ∙ ap (λ x. (w.store.owners x).authority) e ∙ c.own_key in
                  absurd (ground (arith, keys, away))
              | inr x ↦ x
            ] in
            record {
              exists = d.exists;
              unfenced = ground (arith, d.unfenced, apart);
              untold = ground (arith, d.untold, apart);
              own_key = ground (arith, d.own_key, apart);
              is_installed = ground (arith, d.is_installed);
            }
      ];
      quiet = λ q h. ground (arith, v.quiet q, free);
      told = λ q r h. ground (arith, v.told q r);
      marked = λ q h. ground (arith, v.marked q, c.is_installed);
      fresh = λ q h. ground (arith, v.fresh q h, exists);
    }

gate-IsSound :
    (w : World) (p : ℕ) (gate : Bool)
    → IsSound w
    → (gate ≡ true → (w.store.owners p).fenced ≡ false)
    → IsSound (record w {
      store = record w.store {
        owners = set_at p (record (w.store.owners p) { gate = gate }) w.store.owners;
      };
    })
gate-IsSound w p gate v free = record {
  current = λ key q h.
      let c = v.current key q h in
      record {
        exists = c.exists;
        unfenced = ground (arith, c.unfenced);
        untold = ground (arith, c.untold);
        own_key = ground (arith, c.own_key);
        is_installed = c.is_installed;
      };
  quiet = λ q h. ground (arith, v.quiet q, free);
  told = λ q r h. ground (arith, v.told q r);
  marked = λ q h. ground (arith, v.marked q);
  fresh = v.fresh;
}

renew_owner-owners : (s : LeaseStore) (p now : ℕ) → (renew_owner s p now).1.owners ≡ s.owners
unfolding renew_owner
renew_owner-owners s p now = ground arith

pub begins-IsSound :
    (w : World) (p now : ℕ)
    → IsSound w
    → IsSound (record w { store = (input_begins w.store p now).1 })
unfolding input_begins
begins-IsSound w p now v = elim (Bool-cases (w.store.owners p).fenced) [
  | inl out ↦
      subst (λ s. IsSound (record w { store = s }))
        (let e : w.store ≡ (input_begins w.store p now).1 = ground (arith, out) in e) v
  | inr inside ↦
      let w' : World = record w { store = (renew_owner w.store p now).1 } in
      let v' : IsSound w' = renew_owner-IsSound w p now v in
      elim (Bool-cases (renew_owner w.store p now).0) [
        | inr refused ↦
            subst (λ s. IsSound (record w { store = s }))
              (let e : (renew_owner w.store p now).1 ≡ (input_begins w.store p now).1 =
                  ground (arith, inside, refused) in
                e)
              v'
        | inl renewed ↦
            subst (λ s. IsSound (record w { store = s }))
              (let e : record (renew_owner w.store p now).1 {
                owners =
                    set_at p (record ((renew_owner w.store p now).1.owners p) { gate = true })
                      (renew_owner w.store p now).1.owners;
              }
                    ≡ (input_begins w.store p now).1 =
                  ground (arith, inside, renewed) in
                e)
              (gate-IsSound w' p true v'
                (λ h. ap (λ f. (f p).fenced) (renew_owner-owners w.store p now) ∙ inside))
      ]
]

pub ends-IsSound :
    (w : World) (p : ℕ) → IsSound w → IsSound (record w { store = input_ends w.store p })
unfolding input_ends
ends-IsSound w p v = gate-IsSound w p false v (λ h. cc)

pub receives-IsSound :
    (w : World) (p : ℕ)
    → IsSound w
    → IsSound (record w { store = (control_displacement w.store p).1 })
unfolding control_displacement
receives-IsSound w p v = record {
  current = λ key q h.
      let c = v.current key q h in
      record {
        exists = c.exists;
        unfenced = ground (arith, c.unfenced);
        untold = ground (arith, c.untold);
        own_key = ground (arith, c.own_key);
        is_installed = c.is_installed;
      };
  quiet = λ q h. ground (arith, v.quiet q);
  told = λ q r h. ground (arith, v.told q r);
  marked = λ q h. ground (arith, v.marked q);
  fresh = v.fresh;
}
