-- ===== src/Journal/SourceQuota/Panes.antt =====
-- The quota that ConfigureSourceQuota sets.
use persea_terminal.Base.{
  ℕ, ◌+◌, ◌*◌, ◌≡◌, refl, sym, ap, ◌∙◌, inl, inr, Bool, true, false, ◌&&◌, ◌||◌, Option, none, some,
  List, [], ◌∷◌, arith, ltb, ◌==◌, Bool-cases, length, subst, ap₂,
}
use persea_terminal.Base.Maps.{lookup, put, lookup-delete}
use persea_terminal.Journal.SourceQuota.{
  Lease, SourceQuota, PaneFile, add_one, count_pane, count_panes, configure_source_quota,
}
use persea_terminal.Journal.SourceQuota.Counts.{
  IsWithin, IsCounted, leased-IsWithin, unknown-IsWithin,
}
use persea_terminal.Journal.SourceQuota.Operations.{AllCounted}

abbrev pub is_pane : ℕ → List PaneFile → Bool
is_pane key [] = false
is_pane key (pane ∷ panes) = key == pane.key || is_pane key panes

-- The panes of a realm are a map: no key stands twice.
abbrev pub IsRealm : List PaneFile → Type 0
IsRealm [] = Unit
IsRealm (pane ∷ panes) = (is_pane pane.key panes ≡ false) × IsRealm panes

abbrev pub no_leases : ℕ → ℕ → SourceQuota
no_leases per_source max_sources = record {
  per_source = per_source;
  max_sources = max_sources;
  leases = [];
  used = [];
  unknown = 0;
}

count_panes-lookup :
    (key : ℕ) (panes : List PaneFile) (per_source max_sources : ℕ)
    → is_pane key panes ≡ false
    → lookup key (count_panes panes (no_leases per_source max_sources)).leases ≡ none
unfolding count_panes count_pane
count_panes-lookup key [] per_source max_sources h = refl
count_panes-lookup key (pane ∷ panes) per_source max_sources h = ground (
  arith,
  h,
  count_panes-lookup key panes per_source max_sources,
  lookup-delete pane.key key (count_panes panes (no_leases per_source max_sources)).leases,
)

count_panes-limits :
    (panes : List PaneFile) (per_source max_sources : ℕ)
    → ((count_panes panes (no_leases per_source max_sources)).per_source ≡ per_source)
      × ((count_panes panes (no_leases per_source max_sources)).max_sources ≡ max_sources)
unfolding count_panes count_pane
count_panes-limits [] per_source max_sources = (refl, refl)
count_panes-limits (pane ∷ panes) per_source max_sources =
    let (a, b) = count_panes-limits panes per_source max_sources in
    (ground (arith, a), ground (arith, b))

count_pane-IsWithin :
    (pane : PaneFile) (q : SourceQuota) (files identities : ℕ)
    → IsWithin files identities q
    → lookup pane.key q.leases ≡ none
    → IsWithin (files + 1) (identities + 1) (count_pane pane q)
unfolding count_pane
count_pane-IsWithin pane q files identities c gone =
    elim (Bool-cases (pane.projection_released && pane.physical == 0)) [
      | inl released ↦
          subst (IsWithin (files + 1) (identities + 1))
            (let e : q ≡ count_pane pane q = ground (arith, released) in e)
            (record {
              keys = c.keys;
              sources = c.sources;
              counted = c.counted;
              uncounted = c.uncounted;
              positive = c.positive;
              files = omega (arith, c.files);
              identities = omega (arith, c.identities);
            })
      | inr owned ↦
          let lease : Lease = record { source = pane.source; materialized = true } in
          elim (Bool-cases (pane.source == 0)) [
            | inl unknown ↦
                subst (IsWithin (files + 1) (identities + 1))
                  (let e : record q {
                    leases =
                        put pane.key (record { source = pane.source; materialized = true })
                          q.leases;
                    unknown = q.unknown + 1;
                  }
                        ≡ count_pane pane q =
                      ground (arith, owned, unknown) in
                    e)
                  (unknown-IsWithin q pane.key lease files identities c (ground (arith, unknown))
                    gone)
            | inr known ↦
                subst (IsWithin (files + 1) (identities + 1))
                  (let e : record q {
                    leases =
                        put pane.key (record { source = pane.source; materialized = true })
                          q.leases;
                    used = add_one pane.source q.used;
                  }
                        ≡ count_pane pane q =
                      ground (arith, owned, known) in
                    e)
                  (leased-IsWithin q pane.key lease files identities c (ground (arith, known)) gone)
          ]
    ]

count_panes-IsWithin :
    (panes : List PaneFile) (per_source max_sources : ℕ)
    → IsRealm panes
    → IsWithin (length panes) (length panes) (count_panes panes (no_leases per_source max_sources))
unfolding count_panes
count_panes-IsWithin [] per_source max_sources u = record {
  keys = tt;
  sources = tt;
  counted = λ i h. refl;
  uncounted = refl;
  positive = λ i. cc;
  files = omega arith;
  identities = omega arith;
}
count_panes-IsWithin (pane ∷ panes) per_source max_sources u =
    subst (λ n. IsWithin n n (count_panes (pane ∷ panes) (no_leases per_source max_sources)))
      (let e : length panes + 1 ≡ length (pane ∷ panes) = omega arith in e)
      (count_pane-IsWithin pane (count_panes panes (no_leases per_source max_sources))
        (length panes) (length panes) (count_panes-IsWithin panes per_source max_sources u.1)
        (count_panes-lookup pane.key panes per_source max_sources u.0))

configured-IsCounted :
    (panes : List PaneFile) (per_source max_sources : ℕ) (q : SourceQuota)
    → count_panes panes (no_leases per_source max_sources) ≡ q
    → IsRealm panes
    → (ltb (per_source * max_sources) (length q.leases) || ltb max_sources (length q.used)) ≡ false
    → IsCounted q
configured-IsCounted panes per_source max_sources q e u room =
    let c : IsWithin (length panes) (length panes) q =
      subst (IsWithin (length panes) (length panes)) e
        (count_panes-IsWithin panes per_source max_sources u) in
    let (per, most) = count_panes-limits panes per_source max_sources in
    let per' : q.per_source ≡ per_source = ap (λ q. q.per_source) (sym e) ∙ per in
    let most' : q.max_sources ≡ max_sources = ap (λ q. q.max_sources) (sym e) ∙ most in
    let total : q.per_source * q.max_sources ≡ per_source * max_sources =
      ap₂ (λ a b. a * b) per' most' in
    record {
      keys = c.keys;
      sources = c.sources;
      counted = c.counted;
      uncounted = c.uncounted;
      positive = c.positive;
      files = ground (arith, room, total);
      identities = ground (arith, room, most');
    }

pub configure-AllCounted :
    (r : Option SourceQuota) (per_source max_sources : ℕ) (panes : List PaneFile)
    → IsRealm panes
    → AllCounted r
    → AllCounted (configure_source_quota r per_source max_sources panes).1
unfolding configure_source_quota
configure-AllCounted (some q) per_source max_sources panes u c = c
configure-AllCounted none per_source max_sources panes u c =
    let q = count_panes panes (no_leases per_source max_sources) in
    elim (Bool-cases (
      (ltb per_source 2 || ltb max_sources 1)
      || (ltb (per_source * max_sources) (length q.leases) || ltb max_sources (length q.used)))) [
        | inl refused ↦
            subst AllCounted
              (let e : none ≡ (configure_source_quota none per_source max_sources panes).1 =
                  ground (arith, refused) in
                e)
              tt
        | inr room ↦
            subst AllCounted
              (let e : some q ≡ (configure_source_quota none per_source max_sources panes).1 =
                  ground (arith, room) in
                e)
              (configured-IsCounted panes per_source max_sources q refl u (ground (arith, room)))
      ]
