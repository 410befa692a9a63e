-- ===== src/Journal/SourceQuota/Usage.antt =====
-- What the quota promises its realm after any operations.
use persea_terminal.Base.{
  ℕ, ◌+◌, ◌*◌, ◌≤◌, ◌≡◌, refl, ap, ◌≢◌, inl, inr, true, false, ◌||◌, Option, none, some, List,
  arith, ◌==◌, Bool-cases, Option-cases, length, subst,
}
use persea_terminal.Base.Maps.{lookup, put}
use persea_terminal.Journal.SourceQuota.{
  done, Lease, SourceQuota, PaneFile, count_of, reserve_new, configure_source_quota, reserve_source,
  attribute_recovered_source, transfer_source_reservation, source_claim_create, source_unlinked,
  cancel_source_reservation,
}
use persea_terminal.Journal.SourceQuota.Counts.{count_leases, IsCounted}
use persea_terminal.Journal.SourceQuota.Operations.{
  AllCounted, reserve_source-AllCounted, attribute-AllCounted, transfer-AllCounted,
  claim_create-AllCounted, unlinked-AllCounted, cancel-AllCounted,
}
use persea_terminal.Journal.SourceQuota.Panes.{IsRealm, configure-AllCounted}

-- The quota of a realm after any calls.
pub data Reach : Option SourceQuota → Type 0 where
  starts : Reach none
  configures :
      {r : Option SourceQuota} (per_source max_sources : ℕ) (panes : List PaneFile)
      → IsRealm panes
      → Reach r
      → Reach (configure_source_quota r per_source max_sources panes).1
  reserves : {r : Option SourceQuota} (key id : ℕ) → Reach r → Reach (reserve_source r key id).1
  attributes :
      {r : Option SourceQuota} (key id : ℕ)
      → Reach r
      → Reach (attribute_recovered_source r key id).1
  transfers :
      {r : Option SourceQuota} (from to : ℕ)
      → Reach r
      → Reach (transfer_source_reservation r from to).1
  claims : {r : Option SourceQuota} (key : ℕ) → Reach r → Reach (source_claim_create r key).1
  unlinks : {r : Option SourceQuota} (key : ℕ) → Reach r → Reach (source_unlinked r key)
  cancels : {r : Option SourceQuota} (key : ℕ) → Reach r → Reach (cancel_source_reservation r key)

Reach-AllCounted : {r : Option SourceQuota} → Reach r → AllCounted r
Reach-AllCounted starts = tt
Reach-AllCounted (configures {r} per_source max_sources panes u reach) =
    configure-AllCounted r per_source max_sources panes u (Reach-AllCounted reach)
Reach-AllCounted (reserves {r} key id reach) =
    reserve_source-AllCounted r key id (Reach-AllCounted reach)
Reach-AllCounted (attributes {r} key id reach) =
    attribute-AllCounted r key id (Reach-AllCounted reach)
Reach-AllCounted (transfers {r} from to reach) =
    transfer-AllCounted r from to (Reach-AllCounted reach)
Reach-AllCounted (claims {r} key reach) = claim_create-AllCounted r key (Reach-AllCounted reach)
Reach-AllCounted (unlinks {r} key reach) = unlinked-AllCounted r key (Reach-AllCounted reach)
Reach-AllCounted (cancels {r} key reach) = cancel-AllCounted r key (Reach-AllCounted reach)

-- What a quota counts is what its leases are.
pub record Usage (q : SourceQuota) (id : ℕ) : Type 0 where
  pub of_source : count_of (lookup id q.used) ≡ count_leases id q.leases
  pub of_nobody : q.unknown ≡ count_leases 0 q.leases
  pub files : length q.leases ≤ q.per_source * q.max_sources
  pub identities : length q.used ≤ q.max_sources

-- After any calls on a realm that has no quota at first, its panes being a map when one is
-- configured: every source but 0 is counted with exactly its leases, the unknown are those of source
-- 0, the leases are no more than the sources' allowances together, and the sources that are counted
-- no more than the limit.
pub Reach-Usage : (q : SourceQuota) (id : ℕ) → id ≢ 0 → Reach (some q) → Usage q id
Reach-Usage q id known reach =
    let c : IsCounted q = Reach-AllCounted reach in
    record {
      of_source = c.counted id known;
      of_nobody = c.uncounted;
      files = c.files;
      identities = c.identities;
    }

-- What it takes that a source's reservation is granted.
pub data Granted (q : SourceQuota) (key id : ℕ) (r : Option SourceQuota) : Type 0 where
  held :
      (lease : Lease)
      → lookup key q.leases ≡ some lease
      → lease.source ≡ id
      → r ≡ some q
      → Granted q key id r
  fresh :
      (q' : SourceQuota)
      → r ≡ some q'
      → lookup key q.leases ≡ none
      → lookup key q'.leases ≡ some (record { source = id; materialized = false })
      → count_of (lookup id q'.used) + q'.unknown ≤ q'.per_source
      → Granted q key id r

-- A reservation is granted only to a source other than 0. Either it has the lease already, and
-- nothing changes; or the key had none, it is unwritten now, and the files of the source and those of
-- nobody are no more than the allowance.
pub reserve_source-Granted :
    (q : SourceQuota) (key id : ℕ) (r : Option SourceQuota)
    → reserve_source (some q) key id ≡ (done, r)
    → (id ≢ 0) × Granted q key id r
unfolding reserve_source
reserve_source-Granted q key id r h = elim (Bool-cases (id == 0)) [
  | inl zero' ↦ ground (arith, zero', h)
  | inr known ↦ (
    ground (arith, known),
    (elim (Option-cases (lookup key q.leases)) [
      | inr (lease, here) ↦
          held lease here (ground (arith, known, here, h)) (ground (arith, known, here, h))
      | inl gone ↦
          fresh (reserve_new q key id) (ground (arith, known, gone, h)) gone (ground arith)
            (ground (arith, known, gone, h))
    ]),
  )
]

-- Once the creation of a file was claimed, cancelling its reservation refunds nothing.
pub source_claim_create-cancel :
    (r r' : Option SourceQuota) (key : ℕ)
    → source_claim_create r key ≡ (true, r')
    → cancel_source_reservation r' key ≡ r'
unfolding source_claim_create cancel_source_reservation
source_claim_create-cancel none r' key h =
    subst (λ r. cancel_source_reservation r key ≡ r) (ap (λ x. x.1) h) refl
source_claim_create-cancel (some q) r' key h = elim (Option-cases (lookup key q.leases)) [
  | inl gone ↦ ground (arith, gone, h)
  | inr (lease, here) ↦ elim (Bool-cases (lease.source == 0 || lease.materialized)) [
    | inl refused ↦ ground (arith, here, refused, h)
    | inr claimed ↦
        subst (λ r. cancel_source_reservation r key ≡ r)
          (let e : some
                  (record q { leases = put key (record lease { materialized = true }) q.leases })
                ≡ r' =
              ground (arith, here, claimed, h) in
            e)
          (ground arith)
  ]
]
