-- ===== src/Terminal/Scheduler/Tests.antt =====
-- A scheduler with a quiet time of 5 and a maximum of 20.
use persea_terminal.Base.{ℕ, ◌+◌, ◌≤◌, ◌≡◌, refl, ◌⊎◌, true, false, Option, none, some, arith}
use persea_terminal.Terminal.Scheduler.{
  Scheduler, new_scheduler, arm, activity, begin_external, out_of_state, mark, run_command, command,
  fire,
}
use persea_terminal.Terminal.Scheduler.Timing.{
  starting, World, Step, commands, fires, count_in_flight,
}
use persea_terminal.Terminal.Scheduler.Cuts.{Reach, starts, steps, Reach-balanced, keeps_dirty}
use persea_terminal.Terminal.Scheduler.Waits.{Since, Since-armed}

abbrev made : Scheduler
made = record {
  quiet = 5;
  maximum = 20;
  dirty = false;
  in_flight = false;
  first = 0;
  latest = 0;
  timer = none;
  notified = 0;
  stopped = false;
}

-- Activity at 3 and at 6: the cut is due at 11.
abbrev active_once : World
active_once = record {
  scheduler = record made { dirty = true; first = 3; latest = 3; timer = some 8 };
  clock = 3;
  externals = 0;
  completions = 0;
}

abbrev active_twice : World
active_twice = record {
  scheduler = record made { dirty = true; first = 3; latest = 6; timer = some 11 };
  clock = 6;
  externals = 0;
  completions = 0;
}

abbrev fired : World
fired = record {
  scheduler = record made { first = 3; latest = 6; in_flight = true; notified = 1 };
  clock = 12;
  externals = 0;
  completions = 0;
}

made_new : new_scheduler 5 20 ≡ some made
unfolding new_scheduler
made_new = refl

refused_new : new_scheduler 5 4 ≡ none
unfolding new_scheduler
refused_new = refl

active_twice-Reach : Reach active_twice
unfolding command run_command arm mark
active_twice-Reach =
    steps active_twice
      (steps active_once (starts 5 20 made made_new) (commands 3 activity (omega arith) refl))
      (commands 6 activity (omega arith) refl)

fires_late : Step active_twice fired
unfolding fire
fires_late = fires 12 11 (omega arith) refl (omega arith) refl

fired-Reach : Reach fired
fired-Reach = steps fired active_twice-Reach fires_late

overlap_refused : (command fired.scheduler 13 begin_external).0 ≡ out_of_state
unfolding command run_command
overlap_refused = refl

Reach-balanced_example :
    fired.scheduler.notified + fired.externals
    ≡ fired.completions + count_in_flight fired.scheduler.in_flight
Reach-balanced_example = Reach-balanced fired-Reach

active_twice-Since : Since active_twice (some 3)
unfolding command run_command arm mark
active_twice-Since =
    Since.answers {w = active_once} 6 activity
      (Since.answers {w = starting made} 3 activity (Since.begins 5 20 made made_new) (omega arith))
      (omega arith)

Since-armed_example :
    ((first : ℕ)
      → ◌≡◌ {A = Option ℕ} (some 3) (some first)
      → (at : ℕ) × (active_twice.scheduler.timer ≡ some at)
        × ((at ≤ active_twice.clock) ⊎ (at ≤ first + active_twice.scheduler.maximum)))
    × (◌≡◌ {A = Option ℕ} (some 3) none → active_twice.scheduler.timer ≡ none)
Since-armed_example = Since-armed active_twice-Since refl refl

late_timer_keeps_dirty :
    (fired.scheduler.dirty ≡ true)
    ⊎ ((fired.scheduler.notified ≡ active_twice.scheduler.notified + 1)
        × (fired.scheduler.in_flight ≡ true))
late_timer_keeps_dirty = keeps_dirty active_twice-Reach fires_late refl
