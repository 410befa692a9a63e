-- ===== src/Terminal/Scheduler/Timing.antt =====
-- What a scheduler, its clock and its owner keep, and that the commands keep it.
use persea_terminal.Base.{
  ℕ, ◌+◌, ◌-◌, ◌≤◌, ◌<◌, min, ◌≡◌, sym, ◌⊎◌, inl, inr, Bool, true, false, not, ◌&&◌, ◌||◌, none,
  some, arith, if◌then◌else◌, Bool-cases, subst,
}
use persea_terminal.Terminal.Scheduler.{
  Scheduler, arm, Command, activity, begin_external, complete, stop, malformed, Answer, ok,
  out_of_state, err_malformed, err_closed, mark, command, fire,
}

-- A scheduler with the clock, and what its owner has seen: the cuts begun outside, and those completed.
pub record World : Type 0 where
  pub scheduler : Scheduler
  pub clock : ℕ
  pub externals : ℕ
  pub completions : ℕ

abbrev pub starting : Scheduler → World
starting s = record { scheduler = s; clock = 0; externals = 0; completions = 0 }

abbrev pub is_ok : Answer → ℕ
is_ok ok = 1
is_ok out_of_state = 0
is_ok err_malformed = 0
is_ok err_closed = 0

-- How often a command that was answered begins a cut from outside, or completes one.
abbrev pub begins : Command → Answer → ℕ
begins begin_external a = is_ok a
begins activity a = 0
begins (complete retry) a = 0
begins stop a = 0
begins malformed a = 0

abbrev pub completes : Command → Answer → ℕ
completes (complete retry) a = is_ok a
completes activity a = 0
completes begin_external a = 0
completes stop a = 0
completes malformed a = 0

-- A scheduler within a world.
abbrev pub at_time : World → ℕ → Scheduler → ℕ → ℕ → World
at_time w now s begun completed = record {
  scheduler = s;
  clock = now;
  externals = w.externals + begun;
  completions = w.completions + completed;
}

-- The answer to a command as a world.
abbrev pub answered : World → ℕ → Command → Answer × Scheduler → World
answered w now c r = at_time w now r.1 (begins c r.0) (completes c r.0)

-- A command at a time that is not before the last step's, or the timer at its time or later.
pub data Step (w w' : World) : Type 0 where
  commands :
      (now : ℕ) (c : Command)
      → w.clock ≤ now
      → w' ≡ answered w now c (command w.scheduler now c)
      → Step w w'
  fires :
      (now at : ℕ)
      → w.clock ≤ now
      → w.scheduler.timer ≡ some at
      → at ≤ now
      → w' ≡ record w { scheduler = fire w.scheduler; clock = now }
      → Step w w'

abbrev pub count_in_flight : Bool → ℕ
count_in_flight true = 1
count_in_flight false = 0

pub record IsValid (w : World) : Type 0 where
  pub positive : 0 < w.scheduler.quiet
  pub quiet_first : w.scheduler.quiet ≤ w.scheduler.maximum
  pub ordered :
      w.scheduler.dirty ≡ true
      → (w.scheduler.first ≤ w.scheduler.latest) × (w.scheduler.latest ≤ w.clock)
  pub armed :
      w.scheduler.stopped ≡ false
      → w.scheduler.dirty ≡ true
      → w.scheduler.in_flight ≡ false
      → (at : ℕ) × (w.scheduler.timer ≡ some at)
  pub armed_for :
      (at : ℕ)
      → w.scheduler.timer ≡ some at
      → (w.scheduler.dirty ≡ true)
        × (w.scheduler.in_flight ≡ false)
        × (w.scheduler.stopped ≡ false)
        × ((at ≤ w.clock) ⊎ (at ≤ w.scheduler.first + w.scheduler.maximum))
  pub balanced :
      w.scheduler.notified + w.externals ≡ w.completions + count_in_flight w.scheduler.in_flight

later-IsValid :
    (w : World) (now : ℕ) → IsValid w → w.clock ≤ now → IsValid (at_time w now w.scheduler 0 0)
later-IsValid w now v h = record {
  positive = v.positive;
  quiet_first = v.quiet_first;
  ordered = λ d. ground (arith, v.ordered d);
  armed = v.armed;
  armed_for = λ at e. ground (arith, v.armed_for at e);
  balanced = ground (arith, v.balanced);
}

-- What `arm` needs.
record IsArmable (w : World) : Type 0 where
  positive : 0 < w.scheduler.quiet
  quiet_first : w.scheduler.quiet ≤ w.scheduler.maximum
  ordered :
      w.scheduler.dirty ≡ true
      → (w.scheduler.first ≤ w.scheduler.latest) × (w.scheduler.latest ≤ w.clock)
  running : w.scheduler.stopped ≡ false
  balanced :
      w.scheduler.notified + w.externals ≡ w.completions + count_in_flight w.scheduler.in_flight

arm-IsValid :
    (s : Scheduler) (now externals completions : ℕ)
    → IsArmable
        (record { scheduler = s; clock = now; externals = externals; completions = completions })
    → IsValid (record {
      scheduler = arm s now;
      clock = now;
      externals = externals;
      completions = completions;
    })
unfolding arm
arm-IsValid s now externals completions a = elim (Bool-cases (not s.dirty || s.in_flight)) [
  | inl idle ↦ record {
    positive = ground (arith, idle, a.positive);
    quiet_first = ground (arith, idle, a.quiet_first);
    ordered = λ d. ground (arith, idle, a.ordered);
    armed = λ u d f. ground (arith, idle);
    armed_for = λ at e. ground (arith, idle);
    balanced = ground (arith, idle, a.balanced);
  }
  | inr due ↦ record {
    positive = ground (arith, due, a.positive);
    quiet_first = ground (arith, due, a.quiet_first);
    ordered = λ d. ground (arith, due, a.ordered);
    armed = λ u d f.
        (now + (min (s.latest + s.quiet) (s.first + s.maximum) - now), ground (arith, due));
    armed_for = λ at e. ground (arith, due, a.running);
    balanced = ground (arith, due, a.balanced);
  }
]

pub refused-IsValid :
    (w : World) (now : ℕ) (c : Command) (a : Answer)
    → IsValid w
    → w.clock ≤ now
    → is_ok a ≡ 0
    → IsValid (answered w now c (a, w.scheduler))
refused-IsValid w now activity a v h e = later-IsValid w now v h
refused-IsValid w now begin_external a v h e =
    subst (λ n. IsValid (at_time w now w.scheduler n 0)) (sym e) (later-IsValid w now v h)
refused-IsValid w now (complete retry) a v h e =
    subst (λ n. IsValid (at_time w now w.scheduler 0 n)) (sym e) (later-IsValid w now v h)
refused-IsValid w now stop a v h e = later-IsValid w now v h
refused-IsValid w now malformed a v h e = later-IsValid w now v h

pub activity-IsValid :
    (w : World) (now : ℕ)
    → IsValid w
    → w.clock ≤ now
    → w.scheduler.stopped ≡ false
    → IsValid (answered w now activity (ok, arm (mark w.scheduler now) now))
unfolding mark
activity-IsValid w now v h up =
    arm-IsValid (mark w.scheduler now) now (w.externals + 0) (w.completions + 0) (record {
      positive = v.positive;
      quiet_first = v.quiet_first;
      ordered = λ d. ground (arith, v.ordered);
      running = up;
      balanced = ground (arith, v.balanced);
    })

pub begin-IsValid :
    (w : World) (now : ℕ)
    → IsValid w
    → w.clock ≤ now
    → w.scheduler.stopped ≡ false
    → w.scheduler.in_flight ≡ false
    → IsValid
        (answered w now begin_external (ok, arm (record w.scheduler { in_flight = true }) now))
begin-IsValid w now v h up e =
    arm-IsValid (record w.scheduler { in_flight = true }) now (w.externals + 1) (w.completions + 0)
      (record {
        positive = v.positive;
        quiet_first = v.quiet_first;
        ordered = λ d. ground (arith, v.ordered d);
        running = up;
        balanced = ground (arith, v.balanced, e);
      })

-- What completing a cut leaves to arm.
abbrev pub completed : Scheduler → ℕ → Bool → Scheduler
completed s now retry =
    if retry && not s.dirty
    then record s { in_flight = false; dirty = true; first = now; latest = now }
    else record s { in_flight = false }

pub complete-IsValid :
    (w : World) (now : ℕ) (retry : Bool)
    → IsValid w
    → w.clock ≤ now
    → w.scheduler.stopped ≡ false
    → w.scheduler.in_flight ≡ true
    → IsValid (answered w now (complete retry) (ok, arm (completed w.scheduler now retry) now))
complete-IsValid w now retry v h up e =
    arm-IsValid (completed w.scheduler now retry) now (w.externals + 0) (w.completions + 1)
      (record {
        positive = ground (arith, v.positive);
        quiet_first = ground (arith, v.quiet_first);
        ordered = λ d. ground (arith, v.ordered);
        running = ground (arith, up);
        balanced = ground (arith, v.balanced, e);
      })

pub stop-IsValid :
    (w : World) (now : ℕ)
    → IsValid w
    → w.clock ≤ now
    → IsValid (answered w now stop (ok, record w.scheduler { timer = none; stopped = true }))
stop-IsValid w now v h = record {
  positive = v.positive;
  quiet_first = v.quiet_first;
  ordered = λ d. ground (arith, v.ordered d);
  armed = λ u d f. cc;
  armed_for = λ at e. cc;
  balanced = ground (arith, v.balanced);
}
