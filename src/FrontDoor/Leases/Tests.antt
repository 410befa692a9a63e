-- ===== src/FrontDoor/Leases/Tests.antt =====
-- A takeover of the lease of authority 7.
use persea_terminal.Base.{ℕ, ◌≡◌, refl, true, false, some, arith}
use persea_terminal.FrontDoor.Leases.{
  control_displaced, LeaseStore, new_lease_store, set_at, new_owner, install, acquire_owner,
  renew_owner, transfer_starts, fence, transfer_commits, owner_fenced, input_begins,
  renew_owner_gated, control_displacement,
}
use persea_terminal.FrontDoor.Leases.Steps.{
  World, allocates, owner_acquires, transfer_ends, begins, receives,
}
use persea_terminal.FrontDoor.Leases.Fences.{
  Reach, starts, steps, Reach-quiet, Displaced, transfer_commits-Displaced, input_begins-exclusive,
  now_still, step_later, Later-refused,
}

-- Two owners, of which the first has acquired the lease at 100 for a time of 30.
abbrev acquired : World
acquired = record {
  store = install (new_owner (new_owner (new_lease_store 30) 7 1 false).1 7 2 true).1 0 100;
  installed = set_at 0 true (λ p. false);
}

acquired-Reach : Reach 30 acquired
unfolding new_owner acquire_owner
acquired-Reach =
    steps (steps (steps starts (allocates 7 1 false)) (allocates 7 2 true))
      (owner_acquires 0 100 (omega arith) refl)

abbrev taken : LeaseStore
taken = install (fence acquired.store 0) 1 110

waits_for_gate : (transfer_starts acquired.store 1 110).0 ≡ some 0
unfolding new_owner transfer_starts
waits_for_gate = refl

commits : transfer_commits acquired.store 1 0 110 ≡ some taken
unfolding new_owner transfer_commits
commits = refl

told_why : (control_displacement taken 0).0 ≡ some control_displaced
unfolding new_owner control_displacement
told_why = refl

transfer_commits-Displaced_example : Displaced acquired.store 1 0 taken
transfer_commits-Displaced_example =
    transfer_commits-Displaced 1 0 110 taken acquired-Reach refl commits

abbrev taken_world : World
taken_world = record { store = taken; installed = set_at 1 true (set_at 0 true (λ p. false)) }

taken-Reach : Reach 30 taken_world
unfolding new_owner
taken-Reach = steps acquired-Reach (transfer_ends 1 0 110 taken (omega arith) refl refl commits)

first_fenced : owner_fenced taken 0 ≡ true
unfolding new_owner owner_fenced
first_fenced = refl

Later-refused_example :
    ((input_begins (control_displacement taken 0).1 0 112).0 ≡ false)
    × ((renew_owner_gated (control_displacement taken 0).1 0 112).0 ≡ false)
Later-refused_example =
    Later-refused 0 112 taken-Reach (step_later now_still (receives 0)) first_fenced

begins_second : (input_begins taken 1 112).0 ≡ true
unfolding new_owner input_begins renew_owner
begins_second = refl

begins_second_later : (input_begins taken 1 113).0 ≡ true
unfolding new_owner input_begins renew_owner
begins_second_later = refl

abbrev second : ℕ
second = 1

begins_alone : (second ≡ 1) × (owner_fenced taken 1 ≡ false)
begins_alone = input_begins-exclusive taken 1 1 112 113 refl begins_second begins_second_later

free_gate : (taken.owners 1).gate ≡ false
unfolding new_owner
free_gate = refl

locked_gate : ((input_begins taken 1 112).1.owners 1).gate ≡ true
unfolding new_owner input_begins renew_owner
locked_gate = refl

stays_quiet : owner_fenced (input_begins taken 1 112).1 1 ≡ false
stays_quiet = Reach-quiet 1 (steps taken-Reach (begins 1 112 free_gate)) locked_gate
