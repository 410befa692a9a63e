-- ===== src/Journal/SourceQuota/Operations.antt =====
-- The counts after each operation of a realm.
use persea_terminal.Base.{
  ℕ, ◌-◌, ◌≡◌, refl, inl, inr, true, not, ◌&&◌, ◌||◌, Option, none, some, arith, leb, ◌==◌,
  Bool-cases, Option-cases, length, subst,
}
use persea_terminal.Base.Maps.{lookup, delete, put}
use persea_terminal.Journal.SourceQuota.{
  SourceQuota, count_of, add_one, is_full, reserve_new, reserve_source, attribute_recovered_source,
  transfer_source_reservation, source_claim_create, release_locked, source_unlinked,
  cancel_source_reservation,
}
use persea_terminal.Journal.SourceQuota.Counts.{
  IsCounted, reserve_new-IsCounted, attributed-IsCounted, rewritten-IsCounted,
}
use persea_terminal.Journal.SourceQuota.Releases.{release_locked-IsCounted, moved-IsCounted}

-- A realm's quota, if it has one.
abbrev pub AllCounted : Option SourceQuota → Type 0
AllCounted none = Unit
AllCounted (some q) = IsCounted q

pub reserve_source-AllCounted :
    (r : Option SourceQuota) (key id : ℕ) → AllCounted r → AllCounted (reserve_source r key id).1
unfolding reserve_source
reserve_source-AllCounted none key id c = c
reserve_source-AllCounted (some q) key id c = elim (Bool-cases (id == 0)) [
  | inl zero' ↦
      subst AllCounted
        (let e : some q ≡ (reserve_source (some q) key id).1 = ground (arith, zero') in e) c
  | inr known ↦ elim (Option-cases (lookup key q.leases)) [
    | inr (lease, here) ↦
        subst AllCounted
          (let e : some q ≡ (reserve_source (some q) key id).1 = ground (arith, known, here) in e) c
    | inl gone ↦ elim (Bool-cases (is_full q id)) [
      | inl full ↦
          subst AllCounted
            (let e : some q ≡ (reserve_source (some q) key id).1 =
                ground (arith, known, gone, full) in
              e)
            c
      | inr room ↦
          subst AllCounted
            (let e : some (reserve_new q key id) ≡ (reserve_source (some q) key id).1 =
                ground (arith, known, gone, room) in
              e)
            (reserve_new-IsCounted q key id c (ground (arith, known)) gone room)
    ]
  ]
]

pub attribute-AllCounted :
    (r : Option SourceQuota) (key id : ℕ)
    → AllCounted r
    → AllCounted (attribute_recovered_source r key id).1
unfolding attribute_recovered_source
attribute-AllCounted none key id c = c
attribute-AllCounted (some q) key id c = elim (Option-cases (lookup key q.leases)) [
  | inl gone ↦
      subst AllCounted
        (let e : some q ≡ (attribute_recovered_source (some q) key id).1 = ground (arith, gone) in
          e)
        c
  | inr (lease, here) ↦
      elim (Bool-cases (
        (id == 0 || (not (lease.source == 0) && not (lease.source == id)))
        || lease.source == id
        || (count_of (lookup id q.used) == 0 && leb q.max_sources (length q.used)))) [
          | inl stays ↦
              subst AllCounted
                (let e : some q ≡ (attribute_recovered_source (some q) key id).1 =
                    ground (arith, here, stays) in
                  e)
                c
          | inr moves ↦
              subst AllCounted
                (let e : some (record q {
                  unknown = q.unknown - 1;
                  used = add_one id q.used;
                  leases = put key (record lease { source = id }) q.leases;
                })
                      ≡ (attribute_recovered_source (some q) key id).1 =
                    ground (arith, here, moves) in
                  e)
                (attributed-IsCounted q key id lease c (ground (arith, moves)) here
                  (ground (arith, moves)) (ground (arith, moves)))
        ]
]

pub transfer-AllCounted :
    (r : Option SourceQuota) (from to : ℕ)
    → AllCounted r
    → AllCounted (transfer_source_reservation r from to).1
unfolding transfer_source_reservation
transfer-AllCounted none from to c = c
transfer-AllCounted (some q) from to c = elim (Bool-cases (from == to)) [
  | inl same ↦
      subst AllCounted
        (let e : some q ≡ (transfer_source_reservation (some q) from to).1 = ground (arith, same) in
          e)
        c
  | inr different ↦ elim (Option-cases (lookup from q.leases)) [
    | inl gone ↦
        subst AllCounted
          (let e : some q ≡ (transfer_source_reservation (some q) from to).1 =
              ground (arith, different, gone) in
            e)
          c
    | inr (lease, here) ↦ elim (Option-cases (lookup to q.leases)) [
      | inr (other, taken) ↦
          subst AllCounted
            (let e : some q ≡ (transfer_source_reservation (some q) from to).1 =
                ground (arith, different, here, taken) in
              e)
            c
      | inl free ↦ elim (Bool-cases lease.materialized) [
        | inl written ↦
            subst AllCounted
              (let e : some q ≡ (transfer_source_reservation (some q) from to).1 =
                  ground (arith, different, here, free, written) in
                e)
              c
        | inr unwritten ↦
            subst AllCounted
              (let e : some (record q { leases = put to lease (delete from q.leases) })
                    ≡ (transfer_source_reservation (some q) from to).1 =
                  ground (arith, different, here, free, unwritten) in
                e)
              (moved-IsCounted q from to lease c (ground (arith, different)) here free)
      ]
    ]
  ]
]

pub claim_create-AllCounted :
    (r : Option SourceQuota) (key : ℕ) → AllCounted r → AllCounted (source_claim_create r key).1
unfolding source_claim_create
claim_create-AllCounted none key c = c
claim_create-AllCounted (some q) key c = elim (Option-cases (lookup key q.leases)) [
  | inl gone ↦
      subst AllCounted
        (let e : some q ≡ (source_claim_create (some q) key).1 = ground (arith, gone) in e) c
  | inr (lease, here) ↦ elim (Bool-cases (lease.source == 0 || lease.materialized)) [
    | inl refused ↦
        subst AllCounted
          (let e : some q ≡ (source_claim_create (some q) key).1 = ground (arith, here, refused) in
            e)
          c
    | inr claimed ↦
        subst AllCounted
          (let e : some
                  (record q { leases = put key (record lease { materialized = true }) q.leases })
                ≡ (source_claim_create (some q) key).1 =
              ground (arith, here, claimed) in
            e)
          (rewritten-IsCounted q key (record lease { materialized = true }) lease c here refl)
  ]
]

pub unlinked-AllCounted :
    (r : Option SourceQuota) (key : ℕ) → AllCounted r → AllCounted (source_unlinked r key)
unfolding source_unlinked
unlinked-AllCounted none key c = c
unlinked-AllCounted (some q) key c = release_locked-IsCounted q key c

pub cancel-AllCounted :
    (r : Option SourceQuota) (key : ℕ) → AllCounted r → AllCounted (cancel_source_reservation r key)
unfolding cancel_source_reservation
cancel-AllCounted none key c = c
cancel-AllCounted (some q) key c = elim (Option-cases (lookup key q.leases)) [
  | inl gone ↦
      subst AllCounted
        (let e : some q ≡ cancel_source_reservation (some q) key = ground (arith, gone) in e) c
  | inr (lease, here) ↦ elim (Bool-cases lease.materialized) [
    | inl written ↦
        subst AllCounted
          (let e : some q ≡ cancel_source_reservation (some q) key =
              ground (arith, here, written) in
            e)
          c
    | inr unwritten ↦
        subst AllCounted
          (let e : some (release_locked q key) ≡ cancel_source_reservation (some q) key =
              ground (arith, here, unwritten) in
            e)
          (release_locked-IsCounted q key c)
  ]
]
