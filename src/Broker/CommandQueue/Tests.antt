-- ===== src/Broker/CommandQueue/Tests.antt =====
-- A run of the ring, and the theorem at it.
use persea_terminal.Base.{ℕ, ◌≡◌, refl, true, false, none, some, List, [], ◌∷◌}
use persea_terminal.Broker.CommandQueue.{back, front, pop, push, new_command_queue}
use persea_terminal.Broker.CommandQueue.Runs.{
  Call, pushes, pops, fronts, backs, accepts, gives, run, run_list, run-run_list,
}

-- A queue of three cells that is filled, overfilled and goes round.
abbrev around : List (Call ℕ)
around =
    pushes 1
    ∷ pushes 2
    ∷ pushes 3
    ∷ pushes 4
    ∷ pops
    ∷ pushes 5
    ∷ backs
    ∷ fronts
    ∷ pops
    ∷ pops
    ∷ pops
    ∷ pops
    ∷ []

goes_around :
    run around (new_command_queue 0 0)
    ≡ some (
        accepts true
        ∷ accepts true
        ∷ accepts true
        ∷ accepts false
        ∷ gives (some 1)
        ∷ accepts true
        ∷ gives (some 5)
        ∷ gives (some 2)
        ∷ gives (some 2)
        ∷ gives (some 3)
        ∷ gives (some 5)
        ∷ gives none
        ∷ [])
unfolding run push pop front back
goes_around = refl

run-run_list_example : run around (new_command_queue 0 0) ≡ some (run_list 3 around [])
run-run_list_example = run-run_list 0 0 around
