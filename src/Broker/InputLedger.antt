-- ===== src/Broker/InputLedger.antt =====
-- internal/broker/input_results.go: the outcome of each INPUT frame of one attachment, reported in
-- frame order. The mutex makes each operation one step, so an operation is a function on the state.
-- A result of `none` is a run-time panic (an index out of range).
pub mod Runs
pub mod Numbers
pub mod Outcomes
pub mod Reporting
pub mod History
mod Tests
use persea_terminal.Base.{
  ℕ, ◌+◌, ◌-◌, Bool, true, false, ◌&&◌, Option, none, some, List, [], ◌∷◌, ◌++◌, ltb, leb, ◌==◌,
  if◌then◌else◌, get_elem?, drop, set, add64, sub64,
}

pub data InputResult : Type 0 where
  unsettled written paused refused dropped partial : InputResult

-- The values of the Go constants, by which the code compares results.
abbrev pub rank : InputResult → ℕ
rank unsettled = 0
rank written = 1
rank paused = 2
rank refused = 3
rank dropped = 4
rank partial = 5

abbrev pub max_input_backlog : ℕ
max_input_backlog = 1024

pub record InputRun : Type 0 where
  pub through : ℕ
  pub result : InputResult

-- `wake` is the token of the channel of that name, which holds one at most.
pub record InputLedger : Type 0 where
  pub received : ℕ
  pub reported : ℕ
  pub written_through : ℕ
  pub window : List InputResult
  pub wake : Bool

abbrev pub new_input_ledger : InputLedger
new_input_ledger = record {
  received = 0;
  reported = 0;
  written_through = 0;
  window = [];
  wake = false;
}

unfoldable pub receive : InputLedger → ℕ × Bool × InputLedger
receive l = if leb max_input_backlog (sub64 l.received l.written_through) then (0, false, l) else (
  add64 l.received 1,
  true,
  record l { received = add64 l.received 1; window = l.window ++ (unsettled ∷ []) },
)

unfoldable pub settle : InputLedger → ℕ → InputResult → Option InputLedger
settle l id result =
    if ltb l.reported id && leb id l.received
    then (elim (get_elem? l.window (id - l.reported - 1)) [
      | none ↦ none
      | some slot ↦ some (
          if rank slot == rank unsettled
          then record l { window = set l.window (id - l.reported - 1) result; wake = true }
          else l)
    ])
    else some l

unfoldable pub wrote : InputLedger → ℕ → InputLedger
wrote l through = record l { written_through = through }

-- The body of the loop of `take`: the last run is prolonged, or a new one is appended.
unfoldable pub add_run : List InputRun → ℕ → InputResult → List InputRun
add_run [] through result = record { through = through; result = result } ∷ []
add_run (run ∷ []) through result =
    if rank run.result == rank result
    then record run { through = through } ∷ []
    else run ∷ record { through = through; result = result } ∷ []
add_run (run ∷ next ∷ runs) through result = run ∷ add_run (next ∷ runs) through result

-- The loop of `take` from frame `reported + n + 1` on; the list is what is left of the window.
unfoldable pub take_runs : ℕ → ℕ → List InputResult → List InputRun → ℕ × List InputRun
take_runs reported n [] runs = (n, runs)
take_runs reported n (slot ∷ slots) runs =
    let more = take_runs reported (n + 1) slots (add_run runs (add64 (add64 reported n) 1) slot) in
    if rank slot == rank unsettled then (n, runs) else more

unfoldable pub take_settled : InputLedger → List InputRun × InputLedger
take_settled l =
    let (n, runs) = take_runs l.reported 0 l.window [] in
    (runs, record l { window = drop n l.window; reported = add64 l.reported n })

-- Where the goroutine of `report` is: at its select, behind the receive of the token and before
-- `take`, at the write of the first of some runs, behind a write and before `wrote`, or returned,
-- with the runs that it took and could not write.
pub data Reporter : Type 0 where
  selecting taking : Reporter
  writing ended : List InputRun → Reporter
  confirming : InputRun → List InputRun → Reporter

-- The receive from `wake`.
unfoldable pub report_wakes : InputLedger → Reporter × InputLedger
report_wakes l = (taking, record l { wake = false })

unfoldable pub report_takes : InputLedger → Reporter × InputLedger
report_takes l = let (runs, l') = take_settled l in (writing runs, l')

-- The head of the loop over the runs; the write of a run succeeds or not, and the attachment is
-- ended if not. This runs outside the mutex.
unfoldable pub report_writes : Bool → List InputRun → Reporter
report_writes sent [] = selecting
report_writes sent (run ∷ runs) = if sent then confirming run runs else ended (run ∷ runs)

unfoldable pub report_confirms : InputLedger → InputRun → List InputRun → Reporter × InputLedger
report_confirms l run runs = (writing runs, wrote l run.through)
