-- ===== src/Journal/SourceQuota/Tests.antt =====
-- A quota of two files for each of two sources.
use persea_terminal.Base.{ℕ, ◌≡◌, refl, ◌≢◌, true, false, none, some, [], ◌∷◌}
use persea_terminal.Journal.SourceQuota.{
  done, err_source_quota, SourceQuota, PaneFile, configure_source_quota, count_panes, count_pane,
  reserve_source, source_claim_create, cancel_source_reservation,
}
use persea_terminal.Journal.SourceQuota.Usage.{
  Reach, starts, configures, reserves, claims, Usage, Reach-Usage, Granted, reserve_source-Granted,
  source_claim_create-cancel,
}

-- A file that survived, of an unknown source, under the key 7.
abbrev survivor : PaneFile
survivor = record { key = 7; projection_released = false; physical = 100; source = 0 }

abbrev recovered : SourceQuota
recovered = record {
  per_source = 2;
  max_sources = 2;
  leases = (7, record { source = 0; materialized = true }) ∷ [];
  used = [];
  unknown = 1;
}

abbrev reserved_one : SourceQuota
reserved_one = record recovered {
  leases =
      (8, record { source = 3; materialized = false })
      ∷ (7, record { source = 0; materialized = true })
      ∷ [];
  used = (3, 1) ∷ [];
}

abbrev claimed_one : SourceQuota
claimed_one = record reserved_one {
  leases =
      (8, record { source = 3; materialized = true })
      ∷ (7, record { source = 0; materialized = true })
      ∷ [];
}

configured : configure_source_quota none 2 2 (survivor ∷ []) ≡ (done, some recovered)
unfolding configure_source_quota count_panes count_pane
configured = refl

reserved_once : reserve_source (some recovered) 8 3 ≡ (done, some reserved_one)
unfolding reserve_source
reserved_once = refl

-- The unknown file counts against every source.
refused_second : (reserve_source (some reserved_one) 9 3).0 ≡ err_source_quota
unfolding reserve_source
refused_second = refl

claimed_once : source_claim_create (some reserved_one) 8 ≡ (true, some claimed_one)
unfolding source_claim_create
claimed_once = refl

claimed_one-Reach : Reach (some claimed_one)
unfolding configure_source_quota count_panes count_pane reserve_source source_claim_create
claimed_one-Reach = claims 8 (reserves 8 3 (configures 2 2 (survivor ∷ []) (refl, tt) starts))

Reach-Usage_example : Usage claimed_one 3
Reach-Usage_example = Reach-Usage claimed_one 3 (λ e. cc) claimed_one-Reach

abbrev known_source : ℕ
known_source = 3

reserve_granted : (known_source ≢ 0) × Granted recovered 8 known_source (some reserved_one)
reserve_granted = reserve_source-Granted recovered 8 3 (some reserved_one) reserved_once

cancels_nothing_claimed : cancel_source_reservation (some claimed_one) 8 ≡ some claimed_one
cancels_nothing_claimed =
    source_claim_create-cancel (some reserved_one) (some claimed_one) 8 claimed_once
