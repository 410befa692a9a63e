-- ===== src/Journal/Retention/Tests.antt =====
-- A ledger of three slots with one pane.
use persea_terminal.Base.{
  ◌≤◌, ℕ, ◌+◌, ◌<◌, ◌≡◌, refl, ◌↔◌, ◌⊎◌, true, false, none, [], ◌∷◌, arith, pos,
}
use persea_terminal.Journal.Retention.{
  RetentionLedger, new_retention_ledger, policy_limit, slots_policy, take_ticket, is_served, sleep,
  is_asleep, leave, reserve_complete_pane, retire_complete_pane, available_complete_panes,
}
use persea_terminal.Journal.Retention.Slots.{
  admits, begins, ends, retires, tickets, step, Reach, starts, steps, Reach-rotations,
  admits-available,
}
use persea_terminal.Journal.Retention.Wakes.{run, leave_wakes}
use persea_terminal.Journal.Retention.Tickets

abbrev three : RetentionLedger
three = record { next = 0; serving = 0; reserved = 1; limit = 3; wake_pending = false; asleep = [] }

new_three : new_retention_ledger (pos 3) none 1 ≡ three
unfolding new_retention_ledger slots_policy policy_limit
new_three = refl

abbrev full : RetentionLedger
full = record three { reserved = 2 }

denies_last : step full admits ≡ (full, false, false)
unfolding step reserve_complete_pane
denies_last = refl

-- One pane is admitted, and a rotation takes the last slot.
abbrev rotating : RetentionLedger
rotating = record three { reserved = 3 }

rotating-Reach : Reach three rotating 1
unfolding step reserve_complete_pane
rotating-Reach = steps begins (λ e. cc) (steps admits (λ e. cc) starts)

Reach-rotations_example :
    (3 ≤ 3)
    × ((step rotating begins).1 ≡ false → (0 < 1) × (◌≡◌ {A = ℕ} 3 3))
    × ((step (step rotating ends).0 begins).1 ≡ true)
Reach-rotations_example = Reach-rotations three (omega arith) rotating-Reach

admits_while_available :
    (((step three admits).1 ≡ true) ↔ (0 < available_complete_panes three))
    × ((step three admits).1 ≡ true
        → available_complete_panes three ≡ available_complete_panes (step three admits).0 + 1)
    × ((step three admits).1 ≡ false → (step three admits).0 ≡ three)
admits_while_available = admits-available three

wakes_on_leave :
    let m = run (step three retires).0 (admits ∷ tickets ∷ []) in
    ((leave m).1 ≡ true) × ((leave (leave m).0).1 ≡ false)
unfolding step retire_complete_pane
wakes_on_leave = leave_wakes three retires (admits ∷ tickets ∷ []) refl ((λ e. cc), ((λ e. cc), tt))

-- Goroutine 1 inside with ticket 0, goroutine 2 waiting with ticket 1.
abbrev world : Tickets.World
world = record {
  ledger = record three { next = 2 };
  phase =
      Tickets.update
        (Tickets.update (Tickets.update (λ i. Tickets.outside) 1 (Tickets.waits 0)) 2
          (Tickets.waits 1))
        1 (Tickets.inside 0);
}

world-Reach : Tickets.Reach three world
unfolding take_ticket is_served is_asleep
world-Reach =
    Tickets.steps
      (Tickets.steps (Tickets.steps Tickets.starts (Tickets.calls 1 refl (omega arith) refl))
        (Tickets.calls 2 refl (omega arith) refl))
      (Tickets.enters 1 0 refl refl refl refl)

inside-first_example : (world.phase 2 ≡ Tickets.waits 1) × (0 < 1)
inside-first_example =
    Tickets.inside-first three 1 2 0 1 refl (omega arith) world-Reach refl refl (omega arith)

-- Goroutine 2 goes to sleep, and goroutine 1 leaves: the ticket of 2 is served, and it is awake.
abbrev left_world : Tickets.World
left_world = record {
  ledger = record three { next = 2; serving = 1 };
  phase = Tickets.update world.phase 1 Tickets.outside;
}

left_world-Reach : Tickets.Reach three left_world
unfolding leave is_served is_asleep sleep
left_world-Reach =
    Tickets.steps (Tickets.steps world-Reach (Tickets.rests 2 1 refl refl refl refl))
      (Tickets.exits 1 0 refl refl)

waits-progress_example :
    (j : ℕ) × ((left_world.phase j ≡ Tickets.inside 1)
      ⊎ ((left_world.phase j ≡ Tickets.waits 1)
          × (is_served left_world.ledger 1 ≡ true)
          × (is_asleep [] 1 ≡ false)))
waits-progress_example =
    Tickets.waits-progress three 2 1 refl (omega arith) refl left_world-Reach refl
