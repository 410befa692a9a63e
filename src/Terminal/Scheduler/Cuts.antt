-- ===== src/Terminal/Scheduler/Cuts.antt =====
-- The cuts of a scheduler: none overlap, none waits longer than the maximum, and no activity is lost.
use persea_terminal.Base.{
  ℕ, ◌+◌, ◌≤◌, ◌≡◌, refl, sym, ap, ◌∙◌, ◌⊎◌, inl, inr, true, false, not, ◌&&◌, none, some, arith,
  if◌then◌else◌, subst,
}
use persea_terminal.Terminal.Scheduler.{
  Scheduler, new_scheduler, arm, Command, activity, begin_external, complete, stop, malformed, mark,
  run_command, command, fire,
}
use persea_terminal.Terminal.Scheduler.Timing.{
  World, starting, Step, commands, fires, count_in_flight, IsValid,
}
use persea_terminal.Terminal.Scheduler.Steps.{command-IsValid, fire-IsValid}

pub data Reach : World → Type 0 where
  starts :
      (quiet maximum : ℕ) (s : Scheduler)
      → new_scheduler quiet maximum ≡ some s
      → Reach (starting s)
  steps : {w : World} (w' : World) → Reach w → Step w w' → Reach w'

-- A scheduler that is made anew.
abbrev fresh : ℕ → ℕ → Scheduler
fresh quiet maximum = record {
  quiet = quiet;
  maximum = maximum;
  dirty = false;
  in_flight = false;
  first = 0;
  latest = 0;
  timer = none;
  notified = 0;
  stopped = false;
}

starting-IsValid :
    (quiet maximum : ℕ) (s : Scheduler)
    → new_scheduler quiet maximum ≡ some s
    → IsValid (starting s)
unfolding new_scheduler
starting-IsValid quiet maximum s e =
    subst (λ s. IsValid (starting s))
      (let same : fresh quiet maximum ≡ s = ground (arith, e) in same)
      (record {
        positive = ground (arith, e);
        quiet_first = ground (arith, e);
        ordered = λ d. cc;
        armed = λ u d f. cc;
        armed_for = λ at k. cc;
        balanced = refl;
      })

pub Reach-IsValid : {w : World} → Reach w → IsValid w
Reach-IsValid (starts quiet maximum s e) = starting-IsValid quiet maximum s e
Reach-IsValid (steps {w} w' r (commands now c h e)) =
    subst IsValid (sym e) (command-IsValid w now c (Reach-IsValid r) h)
Reach-IsValid (steps {w} w' r (fires now at h timer late e)) =
    subst IsValid (sym e) (fire-IsValid w now at (Reach-IsValid r) h timer)

-- After any steps, the cuts that were notified or begun outside are those that were completed, and
-- one more exactly while a cut is in flight.
pub Reach-balanced :
    {w : World}
    → Reach w
    → w.scheduler.notified + w.externals ≡ w.completions + count_in_flight w.scheduler.in_flight
Reach-balanced r = (Reach-IsValid r).balanced

-- After any steps of a scheduler that was not stopped: if there is activity since the last cut and no
-- cut is in flight, a timer is armed, for a time that has come or is no later than the maximum after
-- the first such activity.
pub Reach-armed :
    {w : World}
    → Reach w
    → w.scheduler.stopped ≡ false
    → w.scheduler.dirty ≡ true
    → w.scheduler.in_flight ≡ false
    → (at : ℕ) × (w.scheduler.timer ≡ some at)
      × ((at ≤ w.clock) ⊎ (at ≤ w.scheduler.first + w.scheduler.maximum))
Reach-armed r up dirty idle =
    let v = Reach-IsValid r in
    let (at, timer) = v.armed up dirty idle in
    let (_, _, _, bound) = v.armed_for at timer in (at, timer, bound)

arm-dirty : (s : Scheduler) (now : ℕ) → (arm s now).dirty ≡ s.dirty
unfolding arm
arm-dirty s now = ground arith

run-dirty :
    (s : Scheduler) (now : ℕ) (c : Command) → s.dirty ≡ true → (run_command s now c).1.dirty ≡ true
unfolding run_command mark
run-dirty s now activity d = arm-dirty (mark s now) now
run-dirty s now begin_external d = ground (arith, d, arm-dirty (record s { in_flight = true }) now)
run-dirty s now (complete retry) d = ground (
  arith,
  d,
  arm-dirty
      (if retry && not s.dirty
        then record s { in_flight = false; dirty = true; first = now; latest = now }
        else record s { in_flight = false })
      now,
)
run-dirty s now stop d = d
run-dirty s now malformed d = d

command-dirty :
    (s : Scheduler) (now : ℕ) (c : Command) → s.dirty ≡ true → (command s now c).1.dirty ≡ true
unfolding command
command-dirty s now c d = ground (arith, d, run-dirty s now c d)

-- A step keeps the mark of activity, or it is the timer's, which notifies a cut and puts it in flight.
pub keeps_dirty :
    {w w' : World}
    → Reach w
    → Step w w'
    → w.scheduler.dirty ≡ true
    → (w'.scheduler.dirty ≡ true)
      ⊎ ((w'.scheduler.notified ≡ w.scheduler.notified + 1) × (w'.scheduler.in_flight ≡ true))
unfolding fire
keeps_dirty {w} r (fires now at h timer late e) dirty =
    let v = Reach-IsValid r in
    let (_, idle, _, _) = v.armed_for at timer in
    inr (
      ap (λ u. u.scheduler.notified) e
          ∙ (let k : (fire w.scheduler).notified ≡ w.scheduler.notified + 1 =
                ground (arith, dirty, idle) in
              k),
      ap (λ u. u.scheduler.in_flight) e
          ∙ (let k : (fire w.scheduler).in_flight ≡ true = ground (arith, dirty, idle) in k),
    )
keeps_dirty {w} r (commands now c h e) dirty =
    inl (ap (λ u. u.scheduler.dirty) e ∙ command-dirty w.scheduler now c dirty)
