-- ===== src/Terminal/Scheduler.antt =====
-- internal/terminal/scheduler.go: the goroutine of the cut scheduler as a step function on its
-- variables. Times are numbers on the scheduler's clock; `now` is what the clock shows at a step.
pub mod Timing
pub mod Steps
pub mod Cuts
pub mod Waits
mod Tests
use persea_terminal.Base.{
  ℕ, ◌+◌, ◌-◌, min, Bool, true, false, not, ◌&&◌, ◌||◌, Option, none, some, ltb, ◌==◌,
  if◌then◌else◌,
}

-- `timer` is when the armed timer fires, `none` where `timerC` is nil; `notified` counts what was sent
-- on the channel `due`.
pub record Scheduler : Type 0 where
  pub quiet : ℕ
  pub maximum : ℕ
  pub dirty : Bool
  pub in_flight : Bool
  pub first : ℕ
  pub latest : ℕ
  pub timer : Option ℕ
  pub notified : ℕ
  pub stopped : Bool

-- `none` stands for ErrMalformed. A clock is given.
unfoldable pub new_scheduler : ℕ → ℕ → Option Scheduler
new_scheduler quiet maximum =
    if quiet == 0 || ltb maximum quiet
    then none
    else some (record {
      quiet = quiet;
      maximum = maximum;
      dirty = false;
      in_flight = false;
      first = 0;
      latest = 0;
      timer = none;
      notified = 0;
      stopped = false;
    })

-- The delay is never negative: `-` stops at 0.
unfoldable pub arm : Scheduler → ℕ → Scheduler
arm s now =
    if not s.dirty || s.in_flight
    then record s { timer = none }
    else record s { timer = some (now + (min (s.latest + s.quiet) (s.first + s.maximum) - now)) }

pub data Command : Type 0 where
  activity begin_external stop malformed : Command
  complete : Bool → Command

pub data Answer : Type 0 where
  ok out_of_state err_malformed err_closed : Answer

-- The first activity since the last cut also sets `first`.
unfoldable pub mark : Scheduler → ℕ → Scheduler
mark s now = record s { dirty = true; first = if s.dirty then s.first else now; latest = now }

unfoldable pub run_command : Scheduler → ℕ → Command → Answer × Scheduler
run_command s now activity = (ok, arm (mark s now) now)
run_command s now begin_external =
    if s.in_flight then (out_of_state, s) else (ok, arm (record s { in_flight = true }) now)
run_command s now (complete retry) = if not s.in_flight then (out_of_state, s) else (
  ok,
  arm
      (if retry && not s.dirty
        then record s { in_flight = false; dirty = true; first = now; latest = now }
        else record s { in_flight = false })
      now,
)
run_command s now stop = (ok, record s { timer = none; stopped = true })
run_command s now malformed = (err_malformed, s)

-- `command`: a goroutine that has returned answers nothing.
unfoldable pub command : Scheduler → ℕ → Command → Answer × Scheduler
command s now c = if s.stopped then (err_closed, s) else run_command s now c

-- The case of the timer.
unfoldable pub fire : Scheduler → Scheduler
fire s =
    if s.dirty && not s.in_flight
    then record s { timer = none; dirty = false; in_flight = true; notified = s.notified + 1 }
    else record s { timer = none }
