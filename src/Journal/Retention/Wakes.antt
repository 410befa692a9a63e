-- ===== src/Journal/Retention/Wakes.antt =====
-- The wake of `leave`: capacity that is given back is announced, once, after the ledger is unlocked.
use persea_terminal.Base.{◌<◌, ◌≡◌, refl, ◌≢◌, true, false, List, [], ◌∷◌, arith}
use persea_terminal.Journal.Retention.{
  RetentionLedger, take_ticket, leave, reserve_complete_pane, release_complete_pane,
  retire_complete_pane, release_proven_capacity,
}
use persea_terminal.Journal.Retention.Slots.{
  Op, admits, begins, ends, closes, retires, leaves, tickets, refunds, step,
}

unfoldable pub run : RetentionLedger → List Op → RetentionLedger
run l [] = l
run l (op ∷ ops) = run (step l op).0 ops

abbrev pub NoLeave : List Op → Type 0
NoLeave [] = Unit {0}
NoLeave (op ∷ ops) = (op ≢ leaves) × NoLeave ops

step-pending :
    (l : RetentionLedger) (op : Op)
    → op ≢ leaves
    → l.wake_pending ≡ true
    → (step l op).0.wake_pending ≡ true
unfolding step reserve_complete_pane release_complete_pane retire_complete_pane
    release_proven_capacity take_ticket
step-pending l admits h p = ground arith
step-pending l begins h p = ground arith
step-pending l ends h p = ground arith
step-pending l closes h p = ground arith
step-pending l retires h p = ground arith
step-pending l leaves h p = absurd (h refl)
step-pending l tickets h p = ground arith
step-pending l (refunds released) h p = ground arith

run-pending :
    (l : RetentionLedger) (ops : List Op)
    → NoLeave ops
    → l.wake_pending ≡ true
    → (run l ops).wake_pending ≡ true
unfolding run
run-pending l [] h p = p
run-pending l (op ∷ ops) h p = run-pending (step l op).0 ops h.1 (step-pending l op h.0 p)

-- The calls that may announce capacity: a slot or proven bytes were given back.
abbrev pub GivesBack : RetentionLedger → Op → Type 0
GivesBack l admits = ⊥
GivesBack l begins = ⊥
GivesBack l ends = 0 < l.reserved
GivesBack l closes = 0 < l.reserved
GivesBack l retires = (step l retires).1 ≡ true
GivesBack l leaves = ⊥
GivesBack l tickets = ⊥
GivesBack l (refunds released) = released ≡ true

step-GivesBack :
    (l : RetentionLedger) (op : Op) → GivesBack l op → (step l op).0.wake_pending ≡ true
unfolding step reserve_complete_pane release_complete_pane retire_complete_pane
    release_proven_capacity
step-GivesBack l admits h = absurd h
step-GivesBack l begins h = absurd h
step-GivesBack l ends h = ground arith
step-GivesBack l closes h = ground arith
step-GivesBack l retires h = ground arith
step-GivesBack l leaves h = absurd h
step-GivesBack l tickets h = absurd h
step-GivesBack l (refunds released) h = ground arith

-- When capacity was given back, whatever calls follow, the next `leave` calls the wake function, and
-- a `leave` right after that one does not.
pub leave_wakes :
    (l : RetentionLedger) (op : Op) (ops : List Op)
    → GivesBack l op
    → NoLeave ops
    → let m = run (step l op).0 ops in ((leave m).1 ≡ true) × ((leave (leave m).0).1 ≡ false)
unfolding leave
leave_wakes l op ops g h = (run-pending (step l op).0 ops h (step-GivesBack l op g), refl)
