-- ===== src/Broker/InputLedger/Tests.antt =====
-- Three frames: the first two written, the third not yet settled.
use persea_terminal.Base.{ℕ, ◌+◌, ◌<◌, ◌≡◌, refl, ◌⊎◌, true, false, some, [], ◌∷◌, arith}
use persea_terminal.Broker.InputLedger.{
  unsettled, written, paused, refused, InputLedger, new_input_ledger, receive, settle, add_run,
  take_runs, take_settled, confirming, report_wakes, report_takes, report_writes,
}
use persea_terminal.Broker.InputLedger.Numbers.{
  IsValid, receive_lem, Settling, settle_lem, Taken, take_settled_lem,
}
use persea_terminal.Broker.InputLedger.Outcomes.{spec_settle}
use persea_terminal.Broker.InputLedger.Reporting.{
  State, receives, settles, wakes, takes, writes, Reach, starts, steps, fresh, Agrees,
}
use persea_terminal.Broker.InputLedger.History.{Reach-Agrees}

abbrev three : InputLedger
three = record {
  received = 3;
  reported = 0;
  written_through = 0;
  window = written ∷ written ∷ unsettled ∷ [];
  wake = true;
}

three-IsValid : IsValid three
three-IsValid = omega arith

takes_one_run : take_settled three ≡ (
  record { through = 2; result = written } ∷ [],
  record three { window = unsettled ∷ []; reported = 2 },
)
unfolding take_settled take_runs add_run
takes_one_run = refl

keeps_first : settle three 2 paused ≡ some three
unfolding settle
keeps_first = refl

settle_lem_example : Settling three 3 refused
settle_lem_example = settle_lem three 3 refused three-IsValid

take_settled_lem_example : Taken three (take_settled three).0 (take_settled three).1
take_settled_lem_example = take_settled_lem three three-IsValid

receives_first :
    ((3 < 0 + 1024)
      × (receive three ≡ (
        4,
        true,
        record three { received = 4; window = written ∷ written ∷ unsettled ∷ unsettled ∷ [] },
      ))
      × IsValid (receive three).2)
    ⊎ ((◌≡◌ {A = ℕ} 3 (0 + 1024)) × (receive three ≡ (0, false, three)))
receives_first = receive_lem three three-IsValid (omega arith)

abbrev one_frame : State
one_frame = record fresh {
  ledger = record new_input_ledger { received = 1; window = unsettled ∷ [] };
  outcomes = unsettled ∷ [];
}

abbrev one_outcome : State
one_outcome = record one_frame {
  ledger = record new_input_ledger { received = 1; window = paused ∷ []; wake = true };
  outcomes = paused ∷ [];
}

one_outcome-Reach : Reach one_outcome
unfolding receive settle spec_settle
one_outcome-Reach =
    steps (steps starts (receives 1 one_frame.ledger (omega arith) refl refl))
      (settles 1 paused one_outcome.ledger refl refl)

-- A second frame is received between the write of the first result and `wrote`.
abbrev heard_one : State
heard_one = record one_outcome {
  ledger = record {
    received = 2;
    reported = 1;
    written_through = 0;
    window = unsettled ∷ [];
    wake = false;
  };
  reporter = confirming (record { through = 1; result = paused }) [];
  outcomes = paused ∷ unsettled ∷ [];
  heard = paused ∷ [];
}

heard_one-Reach : Reach heard_one
unfolding receive report_wakes report_takes report_writes take_settled take_runs add_run
heard_one-Reach =
    steps
      (steps (steps (steps one_outcome-Reach (wakes refl refl)) (takes refl refl))
        (writes (record { through = 1; result = paused }) [] refl refl))
      (receives 2 heard_one.ledger (omega arith) refl refl)

Reach-Agrees_example : Agrees heard_one
Reach-Agrees_example = Reach-Agrees heard_one-Reach
