-- ===== src/Journal/SourceQuota/Releases.antt =====
-- The counts after a lease is released or moved.
use persea_terminal.Base.{
  ℕ, ◌-◌, ◌≤◌, ◌<◌, ◌≡◌, ◌≢◌, inl, inr, none, some, List, arith, ◌==◌, if◌then◌else◌, Bool-cases,
  Option-cases, length, subst,
}
use persea_terminal.Base.Maps.{
  lookup, delete, put, HasUniqueKeys, lookup-delete, length-delete, delete-HasUniqueKeys,
  put-HasUniqueKeys,
}
use persea_terminal.Journal.SourceQuota.{Lease, SourceQuota, count_of, take_one, release_locked}
use persea_terminal.Journal.SourceQuota.Counts.{
  count_leases-delete, count_leases-put_new, length-put_new, length-put_old, IsCounted,
}

lookup-take_one :
    (id i : ℕ) (m : List (ℕ × ℕ))
    → lookup i (take_one id m) ≡ (
        if i == id
        then (if count_of (lookup id m) - 1 == 0 then none else some (count_of (lookup id m) - 1))
        else lookup i m)
lookup-take_one id i m = ground (arith, lookup-delete id i m)

take_one-HasUniqueKeys :
    (id : ℕ) (m : List (ℕ × ℕ)) → HasUniqueKeys m → HasUniqueKeys (take_one id m)
take_one-HasUniqueKeys id m u = elim (Bool-cases (count_of (lookup id m) - 1 == 0)) [
  | inl last ↦
      subst HasUniqueKeys (let e : delete id m ≡ take_one id m = ground (arith, last) in e)
        (delete-HasUniqueKeys id m u)
  | inr more ↦
      subst HasUniqueKeys
        (let e : put id (count_of (lookup id m) - 1) m ≡ take_one id m = ground (arith, more) in e)
        (put-HasUniqueKeys id (count_of (lookup id m) - 1) m u)
]

length-take_one :
    (id : ℕ) (m : List (ℕ × ℕ))
    → HasUniqueKeys m
    → 0 < count_of (lookup id m)
    → length (take_one id m) ≤ length m
length-take_one id m u h = elim (Option-cases (lookup id m)) [
  | inl gone ↦ ground (arith, gone, h)
  | inr (n, here) ↦ ground (
    arith,
    length-delete id m n u here,
    length-put_old id (count_of (lookup id m) - 1) n m u here,
  )
]

-- Without the lease, before the count of its source is put down.
released_unknown-IsCounted :
    (q : SourceQuota) (key : ℕ) (lease : Lease)
    → IsCounted q
    → lookup key q.leases ≡ some lease
    → lease.source ≡ 0
    → IsCounted (record q { leases = delete key q.leases; unknown = q.unknown - 1 })
released_unknown-IsCounted q key lease c here zero' =
    let counts = λ (i : ℕ). count_leases-delete i key q.leases lease c.keys here in
    record {
      keys = delete-HasUniqueKeys key q.leases c.keys;
      sources = c.sources;
      counted = λ i h. ground (arith, counts i, c.counted i h, zero');
      uncounted = ground (arith, counts 0, c.uncounted, zero');
      positive = c.positive;
      files = ground (arith, length-delete key q.leases lease c.keys here, c.files);
      identities = c.identities;
    }

released_known-IsCounted :
    (q : SourceQuota) (key : ℕ) (lease : Lease)
    → IsCounted q
    → lookup key q.leases ≡ some lease
    → lease.source ≢ 0
    → IsCounted (record q { leases = delete key q.leases; used = take_one lease.source q.used })
released_known-IsCounted q key lease c here known =
    let counts = λ (i : ℕ). count_leases-delete i key q.leases lease c.keys here in
    let some_left : 0 < count_of (lookup lease.source q.used) =
      ground (arith, counts lease.source, c.counted lease.source known) in
    record {
      keys = delete-HasUniqueKeys key q.leases c.keys;
      sources = take_one-HasUniqueKeys lease.source q.used c.sources;
      counted = λ i h.
          ground (arith, lookup-take_one lease.source i q.used, counts i, c.counted i h, some_left);
      uncounted = ground (arith, counts 0, c.uncounted, known);
      positive = λ i. ground (arith, lookup-take_one lease.source i q.used, c.positive i);
      files = ground (arith, length-delete key q.leases lease c.keys here, c.files);
      identities =
          ground (arith, length-take_one lease.source q.used c.sources some_left, c.identities);
    }

pub release_locked-IsCounted :
    (q : SourceQuota) (key : ℕ) → IsCounted q → IsCounted (release_locked q key)
unfolding release_locked
release_locked-IsCounted q key c = elim (Option-cases (lookup key q.leases)) [
  | inl gone ↦ subst IsCounted (let e : q ≡ release_locked q key = ground (arith, gone) in e) c
  | inr (lease, here) ↦ elim (Bool-cases (lease.source == 0)) [
    | inl unknown ↦
        subst IsCounted
          (let e : record q { leases = delete key q.leases; unknown = q.unknown - 1 }
                ≡ release_locked q key =
              ground (arith, here, unknown) in
            e)
          (released_unknown-IsCounted q key lease c here (ground (arith, unknown)))
    | inr known ↦
        subst IsCounted
          (let e : record q { leases = delete key q.leases; used = take_one lease.source q.used }
                ≡ release_locked q key =
              ground (arith, here, known) in
            e)
          (released_known-IsCounted q key lease c here (ground (arith, known)))
  ]
]

pub moved-IsCounted :
    (q : SourceQuota) (from to : ℕ) (lease : Lease)
    → IsCounted q
    → from ≢ to
    → lookup from q.leases ≡ some lease
    → lookup to q.leases ≡ none
    → IsCounted (record q { leases = put to lease (delete from q.leases) })
moved-IsCounted q from to lease c different here free =
    let counts = λ (i : ℕ). count_leases-delete i from q.leases lease c.keys here in
    let free' : lookup to (delete from q.leases) ≡ none =
      ground (arith, lookup-delete from to q.leases, free) in
    let counts' = λ (i : ℕ). count_leases-put_new i to lease (delete from q.leases) free' in
    record {
      keys =
          put-HasUniqueKeys to lease (delete from q.leases)
            (delete-HasUniqueKeys from q.leases c.keys);
      sources = c.sources;
      counted = λ i h. ground (arith, counts i, counts' i, c.counted i h);
      uncounted = ground (arith, counts 0, counts' 0, c.uncounted);
      positive = c.positive;
      files = ground (
        arith,
        length-put_new to lease (delete from q.leases) free',
        length-delete from q.leases lease c.keys here,
        c.files,
      );
      identities = c.identities;
    }
