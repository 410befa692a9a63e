-- ===== src/Journal/Retention.antt =====
-- internal/unifiedjournal/retention.go: pane slots, and journal admission in the order of tickets.
-- Each method but `enter` runs under the ledger's mutex, so it is one step; `enter` waits between two
-- such steps, and is three functions here: `take_ticket`, the test that ends the wait, and `sleep`.
pub mod Slots
pub mod Tickets
pub mod Wakes
mod Tests
use persea_terminal.Base.{
  ℕ, ◌+◌, ◌-◌, ◌/◌, Bool, true, false, not, ◌&&◌, ◌||◌, Option, none, some, List, [], ◌∷◌, ltb, leb,
  ◌==◌, if◌then◌else◌, add64, ℤ, pos, negsuc,
}

abbrev pub default_complete_pane_slots : ℕ
default_complete_pane_slots = 9

-- The fields are int64 and may be configured negative.
pub record RetentionPolicy : Type 0 where
  pub maximum_complete_panes : ℤ
  pub complete_pane_units : ℤ
  pub complete_realm_units : ℤ

-- The limit that a policy gives, never negative.
unfoldable pub policy_limit : ℤ → ℤ → ℤ → ℕ
policy_limit (pos maximum) (pos units) (pos realm) =
    if units == 0
    then 0
    else let slots = realm / units in if ltb slots maximum then slots else maximum
policy_limit _ _ _ = 0

-- The configured number of slots, if it is positive, in place of the default.
unfoldable pub configured_slots : ℤ → ℤ
configured_slots (pos n) = if ltb 0 n then pos n else pos default_complete_pane_slots
configured_slots (negsuc n) = pos default_complete_pane_slots

unfoldable pub slots_policy : ℤ → RetentionPolicy
unfolding configured_slots
slots_policy configured = record {
  maximum_complete_panes = configured_slots configured;
  complete_pane_units = pos 1;
  complete_realm_units = configured_slots configured;
}

-- `asleep` has the tickets of the goroutines in `ready.Wait`.
pub record RetentionLedger : Type 0 where
  pub next : ℕ
  pub serving : ℕ
  pub reserved : ℕ
  pub limit : ℕ
  pub wake_pending : Bool
  pub asleep : List ℕ

unfoldable pub new_retention_ledger : ℤ → Option RetentionPolicy → ℕ → RetentionLedger
new_retention_ledger configured override occupied =
    let policy : RetentionPolicy = elim override [ none ↦ slots_policy configured | some p ↦ p ] in
    record {
      next = 0;
      serving = 0;
      reserved = occupied;
      limit =
          policy_limit policy.maximum_complete_panes policy.complete_pane_units
            policy.complete_realm_units;
      wake_pending = false;
      asleep = [];
    }

unfoldable pub take_ticket : RetentionLedger → ℕ × RetentionLedger
take_ticket l = (l.next, record l { next = add64 l.next 1 })

-- The wait of `enter` ends when this holds.
unfoldable pub is_served : RetentionLedger → ℕ → Bool
is_served l ticket = ticket == l.serving

-- `ready.Wait`, which gives the mutex back until a wake-up.
unfoldable pub sleep : RetentionLedger → ℕ → RetentionLedger
sleep l ticket = record l { asleep = ticket ∷ l.asleep }

unfoldable pub is_asleep : List ℕ → ℕ → Bool
is_asleep [] ticket = false
is_asleep (sleeper ∷ sleepers) ticket =
    let rest = is_asleep sleepers ticket in if sleeper == ticket then true else rest

-- `Broadcast` wakes every goroutine that is asleep. The second part is whether the wake function is
-- called, after the mutex is given back.
unfoldable pub leave : RetentionLedger → RetentionLedger × Bool
leave l =
    (record l { serving = add64 l.serving 1; wake_pending = false; asleep = [] }, l.wake_pending)

-- `false` stands for ErrQuota.
unfoldable pub reserve_complete_pane : RetentionLedger → Bool → RetentionLedger × Bool
reserve_complete_pane l reserve_last =
    if (reserve_last && l.limit == 0)
      || leb (if reserve_last then l.limit - 1 else l.limit) l.reserved
    then (l, false)
    else (record l { reserved = l.reserved + 1 }, true)

unfoldable pub release_complete_pane : RetentionLedger → RetentionLedger
release_complete_pane l =
    if ltb 0 l.reserved then record l { reserved = l.reserved - 1; wake_pending = true } else l

unfoldable pub retire_complete_pane : RetentionLedger → RetentionLedger × Bool
retire_complete_pane l =
    if l.reserved == 0
    then (l, false)
    else (record l { reserved = l.reserved - 1; wake_pending = true }, true)

unfoldable pub release_proven_capacity : RetentionLedger → Bool → RetentionLedger
release_proven_capacity l released = if not released then l else record l { wake_pending = true }

unfoldable pub available_complete_panes : RetentionLedger → ℕ
available_complete_panes l =
    if l.limit == 0 || leb (l.limit - 1) l.reserved then 0 else l.limit - 1 - l.reserved
