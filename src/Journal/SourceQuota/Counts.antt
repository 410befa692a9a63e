-- ===== src/Journal/SourceQuota/Counts.antt =====
-- The counts of a quota against its leases.
use persea_terminal.Base.{
  ℕ, zero, suc, ◌+◌, ◌-◌, ◌*◌, ◌≤◌, ◌≡◌, ◌≢◌, inl, inr, Bool, true, false, ◌&&◌, none, some, List,
  [], ◌∷◌, arith, leb, ◌==◌, if◌then◌else◌, Bool-cases, Option-cases, length,
}
use persea_terminal.Base.Maps.{
  lookup, delete, put, has_key, HasUniqueKeys, has_key-lookup, lookup-delete, delete-missing,
  length-delete, put-HasUniqueKeys,
}
use persea_terminal.Journal.SourceQuota.{
  Lease, SourceQuota, count_of, add_one, is_full, reserve_new,
}

abbrev pub one : Bool → ℕ
one true = 1
one false = 0

-- How many leases a source has.
abbrev pub count_leases : ℕ → List (ℕ × Lease) → ℕ
count_leases id [] = 0
count_leases id ((key, lease) ∷ m) = one (lease.source == id) + count_leases id m

pub count_leases-delete :
    (id key : ℕ) (m : List (ℕ × Lease)) (lease : Lease)
    → HasUniqueKeys m
    → lookup key m ≡ some lease
    → count_leases id (delete key m) + one (lease.source == id) ≡ count_leases id m
count_leases-delete id key [] lease u h = cc
count_leases-delete id key ((j, other) ∷ m) lease u h = elim (Bool-cases (key == j)) [
  | inl same ↦
      let gone : has_key key m ≡ false = ground (arith, same, u.0) in
      let it : other ≡ lease = ground (arith, same, h) in
      ground (arith, same, it, delete-missing key m gone)
  | inr different ↦ ground (arith, different, h, count_leases-delete id key m lease u.1)
]

-- Every source but 0 is counted in `used` and source 0 in `unknown`, with so many leases and sources
-- at most.
pub record IsWithin (most_leases most_sources : ℕ) (q : SourceQuota) : Type 0 where
  pub keys : HasUniqueKeys q.leases
  pub sources : HasUniqueKeys q.used
  pub counted : (id : ℕ) → id ≢ 0 → count_of (lookup id q.used) ≡ count_leases id q.leases
  pub uncounted : q.unknown ≡ count_leases 0 q.leases
  pub positive : (id : ℕ) → lookup id q.used ≢ some 0
  pub files : length q.leases ≤ most_leases
  pub identities : length q.used ≤ most_sources

abbrev pub IsCounted : SourceQuota → Type 0
IsCounted q = IsWithin (q.per_source * q.max_sources) q.max_sources q

lookup-add_one :
    (id i : ℕ) (m : List (ℕ × ℕ))
    → lookup i (add_one id m) ≡ (if i == id then some (count_of (lookup id m) + 1) else lookup i m)
lookup-add_one id i m = ground (arith, lookup-delete id i m)

pub length-put_new :
    {A : Type 0} (k : ℕ) (a : A) (m : List (ℕ × A))
    → lookup k m ≡ none
    → length (put k a m) ≡ length m + 1
length-put_new k a m gone = ground (arith, delete-missing k m (has_key-lookup k m gone))

pub length-put_old :
    {A : Type 0} (k : ℕ) (a b : A) (m : List (ℕ × A))
    → HasUniqueKeys m
    → lookup k m ≡ some b
    → length (put k a m) ≡ length m
length-put_old k a b m u here = ground (arith, length-delete k m b u here)

length-add_one :
    (id : ℕ) (m : List (ℕ × ℕ))
    → HasUniqueKeys m
    → lookup id m ≢ some 0
    → length (add_one id m) ≡ length m + one (count_of (lookup id m) == 0)
length-add_one id m u positive = elim (Option-cases (lookup id m)) [
  | inl gone ↦ ground (arith, gone, length-put_new id (count_of (lookup id m) + 1) m gone)
  | inr (zero, here) ↦ absurd (positive here)
  | inr (suc n, here) ↦
      ground (arith, here, length-put_old id (count_of (lookup id m) + 1) (suc n) m u here)
]

pub count_leases-put_new :
    (id key : ℕ) (lease : Lease) (m : List (ℕ × Lease))
    → lookup key m ≡ none
    → count_leases id (put key lease m) ≡ count_leases id m + one (lease.source == id)
count_leases-put_new id key lease m gone =
    ground (arith, delete-missing key m (has_key-lookup key m gone))

-- A pane of a known source that has no lease yet.
pub leased-IsWithin :
    (q : SourceQuota) (key : ℕ) (lease : Lease) (files identities : ℕ)
    → IsWithin files identities q
    → lease.source ≢ 0
    → lookup key q.leases ≡ none
    → IsWithin
        (files + 1)
        (identities + 1)
        (record q { leases = put key lease q.leases; used = add_one lease.source q.used })
leased-IsWithin q key lease files identities c known gone = record {
  keys = put-HasUniqueKeys key lease q.leases c.keys;
  sources =
      put-HasUniqueKeys lease.source (count_of (lookup lease.source q.used) + 1) q.used c.sources;
  counted = λ i h. ground (
    arith,
    lookup-add_one lease.source i q.used,
    count_leases-put_new i key lease q.leases gone,
    c.counted i h,
    known,
  );
  uncounted = ground (arith, count_leases-put_new 0 key lease q.leases gone, c.uncounted, known);
  positive = λ i. ground (arith, lookup-add_one lease.source i q.used, c.positive i);
  files = ground (arith, length-put_new key lease q.leases gone, c.files);
  identities =
      ground (
        arith,
        length-add_one lease.source q.used c.sources (c.positive lease.source),
        c.identities,
      );
}

-- A pane of no known source.
pub unknown-IsWithin :
    (q : SourceQuota) (key : ℕ) (lease : Lease) (files identities : ℕ)
    → IsWithin files identities q
    → lease.source ≡ 0
    → lookup key q.leases ≡ none
    → IsWithin
        (files + 1)
        (identities + 1)
        (record q { leases = put key lease q.leases; unknown = q.unknown + 1 })
unknown-IsWithin q key lease files identities c zero' gone = record {
  keys = put-HasUniqueKeys key lease q.leases c.keys;
  sources = c.sources;
  counted =
      λ i h. ground (arith, count_leases-put_new i key lease q.leases gone, c.counted i h, zero');
  uncounted = ground (arith, count_leases-put_new 0 key lease q.leases gone, c.uncounted, zero');
  positive = c.positive;
  files = ground (arith, length-put_new key lease q.leases gone, c.files);
  identities = omega (arith, c.identities);
}

pub reserve_new-IsCounted :
    (q : SourceQuota) (key id : ℕ)
    → IsCounted q
    → id ≢ 0
    → lookup key q.leases ≡ none
    → is_full q id ≡ false
    → IsCounted (reserve_new q key id)
reserve_new-IsCounted q key id c known gone room = record {
  keys = put-HasUniqueKeys key (record { source = id; materialized = false }) q.leases c.keys;
  sources = put-HasUniqueKeys id (count_of (lookup id q.used) + 1) q.used c.sources;
  counted = λ i h. ground (
    arith,
    lookup-add_one id i q.used,
    count_leases-put_new i key (record { source = id; materialized = false }) q.leases gone,
    c.counted i h,
    known,
  );
  uncounted = ground (
    arith,
    count_leases-put_new 0 key (record { source = id; materialized = false }) q.leases gone,
    c.uncounted,
    known,
  );
  positive = λ i. ground (arith, lookup-add_one id i q.used, c.positive i);
  files = ground (
    arith,
    length-put_new key (record { source = id; materialized = false }) q.leases gone,
    room,
    c.files,
  );
  identities =
      ground (arith, length-add_one id q.used c.sources (c.positive id), room, c.identities);
}

-- A lease that stays with its source, or whose source becomes known.
count_leases-put_old :
    (id key : ℕ) (lease old : Lease) (m : List (ℕ × Lease))
    → HasUniqueKeys m
    → lookup key m ≡ some old
    → count_leases id (put key lease m) + one (old.source == id)
      ≡ count_leases id m + one (lease.source == id)
count_leases-put_old id key lease old m u here =
    ground (arith, count_leases-delete id key m old u here)

pub attributed-IsCounted :
    (q : SourceQuota) (key id : ℕ) (lease : Lease)
    → IsCounted q
    → id ≢ 0
    → lookup key q.leases ≡ some lease
    → lease.source ≡ 0
    → (count_of (lookup id q.used) == 0 && leb q.max_sources (length q.used)) ≡ false
    → IsCounted (record q {
      unknown = q.unknown - 1;
      used = add_one id q.used;
      leases = put key (record lease { source = id }) q.leases;
    })
attributed-IsCounted q key id lease c known here zero' room =
    let counts = λ (i : ℕ).
      count_leases-put_old i key (record lease { source = id }) lease q.leases c.keys here in
    record {
      keys = put-HasUniqueKeys key (record lease { source = id }) q.leases c.keys;
      sources = put-HasUniqueKeys id (count_of (lookup id q.used) + 1) q.used c.sources;
      counted =
          λ i h. ground (arith, lookup-add_one id i q.used, counts i, c.counted i h, known, zero');
      uncounted = ground (arith, counts 0, c.uncounted, known, zero');
      positive = λ i. ground (arith, lookup-add_one id i q.used, c.positive i);
      files = ground (
        arith,
        length-put_old key (record lease { source = id }) lease q.leases c.keys here,
        c.files,
      );
      identities =
          ground (arith, length-add_one id q.used c.sources (c.positive id), room, c.identities);
    }

-- A lease that is written anew with the source it had.
pub rewritten-IsCounted :
    (q : SourceQuota) (key : ℕ) (lease old : Lease)
    → IsCounted q
    → lookup key q.leases ≡ some old
    → lease.source ≡ old.source
    → IsCounted (record q { leases = put key lease q.leases })
rewritten-IsCounted q key lease old c here same =
    let counts = λ (i : ℕ). count_leases-put_old i key lease old q.leases c.keys here in
    record {
      keys = put-HasUniqueKeys key lease q.leases c.keys;
      sources = c.sources;
      counted = λ i h. ground (arith, counts i, c.counted i h, same);
      uncounted = ground (arith, counts 0, c.uncounted, same);
      positive = c.positive;
      files = ground (arith, length-put_old key lease old q.leases c.keys here, c.files);
      identities = c.identities;
    }
