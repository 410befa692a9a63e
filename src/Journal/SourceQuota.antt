-- ===== src/Journal/SourceQuota.antt =====
-- internal/unifiedjournal/source_quota.go: how many journal files each source may own. A PaneKey and a
-- SourceID are only compared, and are a number each; 0 is the zero SourceID, of an unknown source. A
-- map is an association list, and a realm without a quota is `none`.
pub mod Counts
pub mod Releases
pub mod Operations
pub mod Panes
pub mod Usage
mod Tests
use persea_terminal.Base.{
  ℕ, ◌+◌, ◌-◌, ◌*◌, Bool, true, false, not, ◌&&◌, ◌||◌, Option, none, some, List, [], ◌∷◌, ltb, leb,
  ◌==◌, if◌then◌else◌, length,
}
use persea_terminal.Base.Maps.{lookup, delete, put}

pub data Answer : Type 0 where
  done err_invalid_record err_invalidated err_source_quota : Answer

pub record Lease : Type 0 where
  pub source : ℕ
  pub materialized : Bool

pub record SourceQuota : Type 0 where
  pub per_source : ℕ
  pub max_sources : ℕ
  pub leases : List (ℕ × Lease)
  pub used : List (ℕ × ℕ)
  pub unknown : ℕ

-- A map of counts: what it has under a key, and the count of a key put up or down.
abbrev pub count_of : Option ℕ → ℕ
count_of none = 0
count_of (some n) = n

abbrev pub add_one : ℕ → List (ℕ × ℕ) → List (ℕ × ℕ)
add_one id m = put id (count_of (lookup id m) + 1) m

-- A count that comes to 0 is deleted. That of a source with a lease is positive, so `-` does not stop.
abbrev pub take_one : ℕ → List (ℕ × ℕ) → List (ℕ × ℕ)
take_one id m =
    if count_of (lookup id m) - 1 == 0 then delete id m else put id (count_of (lookup id m) - 1) m

-- A pane as ConfigureSourceQuota sees it, with the source that is known for its key, or 0.
pub record PaneFile : Type 0 where
  pub key : ℕ
  pub projection_released : Bool
  pub physical : ℕ
  pub source : ℕ

-- The body of the loop of ConfigureSourceQuota.
unfoldable pub count_pane : PaneFile → SourceQuota → SourceQuota
count_pane pane q =
    if pane.projection_released && pane.physical == 0
    then q
    else if pane.source == 0
    then record q {
      leases = put pane.key (record { source = pane.source; materialized = true }) q.leases;
      unknown = q.unknown + 1;
    }
    else record q {
      leases = put pane.key (record { source = pane.source; materialized = true }) q.leases;
      used = add_one pane.source q.used;
    }

-- The loop, from the last pane of the list to the first: the order of the panes of a map is not fixed.
unfoldable pub count_panes : List PaneFile → SourceQuota → SourceQuota
count_panes [] q = q
count_panes (pane ∷ panes) q = count_pane pane (count_panes panes q)

-- The quota is set if the answer is `done`. The product of the two limits, which are an int each, is
-- taken not to pass 2 ^ 63 - 1; the limits that the program configures are small constants.
unfoldable pub configure_source_quota :
    Option SourceQuota → ℕ → ℕ → List PaneFile → Answer × Option SourceQuota
configure_source_quota (some q) per_source max_sources panes = (err_invalid_record, some q)
configure_source_quota none per_source max_sources panes =
    if ltb per_source 2 || ltb max_sources 1
    then (err_invalid_record, none)
    else let q = count_panes panes (record {
      per_source = per_source;
      max_sources = max_sources;
      leases = [];
      used = [];
      unknown = 0;
    }) in
      if ltb (per_source * max_sources) (length q.leases) || ltb max_sources (length q.used)
      then (err_source_quota, none)
      else (done, some q)

abbrev pub is_full : SourceQuota → ℕ → Bool
is_full q id =
    leb q.per_source (count_of (lookup id q.used) + q.unknown)
    || leb (q.per_source * q.max_sources) (length q.leases)
    || (count_of (lookup id q.used) == 0 && leb q.max_sources (length q.used))

abbrev pub reserve_new : SourceQuota → ℕ → ℕ → SourceQuota
reserve_new q key id = record q {
  leases = put key (record { source = id; materialized = false }) q.leases;
  used = add_one id q.used;
}

unfoldable pub reserve_source : Option SourceQuota → ℕ → ℕ → Answer × Option SourceQuota
reserve_source none key id = (done, none)
reserve_source (some q) key id =
    if id == 0 then (err_invalid_record, some q) else (elim (lookup key q.leases) [
      | some lease ↦ if lease.source == id then (done, some q) else (err_invalidated, some q)
      | none ↦
          if is_full q id then (err_source_quota, some q) else (done, some (reserve_new q key id))
    ])

unfoldable pub attribute_recovered_source : Option SourceQuota → ℕ → ℕ → Answer × Option SourceQuota
attribute_recovered_source none key id = (done, none)
attribute_recovered_source (some q) key id = elim (lookup key q.leases) [
  | none ↦ (done, some q)
  | some lease ↦
      if id == 0 || (not (lease.source == 0) && not (lease.source == id))
      then (err_invalidated, some q)
      else if lease.source == id
      then (done, some q)
      else if count_of (lookup id q.used) == 0 && leb q.max_sources (length q.used)
      then (err_source_quota, some q)
      else (
        done,
        some (record q {
          unknown = q.unknown - 1;
          used = add_one id q.used;
          leases = put key (record lease { source = id }) q.leases;
        }),
      )
]

unfoldable pub transfer_source_reservation :
    Option SourceQuota → ℕ → ℕ → Answer × Option SourceQuota
transfer_source_reservation none from to = (done, none)
transfer_source_reservation (some q) from to =
    if from == to then (done, some q) else (elim (lookup from q.leases) [
      | none ↦ (err_invalidated, some q)
      | some lease ↦
          if lease.materialized then (err_invalidated, some q) else (elim (lookup to q.leases) [
            | some other ↦ (err_invalidated, some q)
            | none ↦ (done, some (record q { leases = put to lease (delete from q.leases) }))
          ])
    ])

unfoldable pub source_claim_create : Option SourceQuota → ℕ → Bool × Option SourceQuota
source_claim_create none key = (true, none)
source_claim_create (some q) key = elim (lookup key q.leases) [
  | none ↦ (false, some q)
  | some lease ↦ if lease.source == 0 || lease.materialized then (false, some q) else (
    true,
    some (record q { leases = put key (record lease { materialized = true }) q.leases }),
  )
]

unfoldable pub release_locked : SourceQuota → ℕ → SourceQuota
release_locked q key = elim (lookup key q.leases) [
  | none ↦ q
  | some lease ↦
      if lease.source == 0
      then record q { leases = delete key q.leases; unknown = q.unknown - 1 }
      else record q { leases = delete key q.leases; used = take_one lease.source q.used }
]

unfoldable pub source_unlinked : Option SourceQuota → ℕ → Option SourceQuota
source_unlinked none key = none
source_unlinked (some q) key = some (release_locked q key)

unfoldable pub cancel_source_reservation : Option SourceQuota → ℕ → Option SourceQuota
cancel_source_reservation none key = none
cancel_source_reservation (some q) key = elim (lookup key q.leases) [
  | none ↦ some q
  | some lease ↦ if lease.materialized then some q else some (release_locked q key)
]
