-- ===== src/Terminal/Scheduler/Waits.antt =====
-- How long activity waits for a cut, by what the callers of the scheduler have seen.
use persea_terminal.Base.{
  ℕ, ◌+◌, ◌≤◌, ◌≡◌, refl, sym, ap, ◌∙◌, ◌⊎◌, inl, inr, Bool, true, false, not, Option, none, some,
  arith, if◌then◌else◌, Bool-cases, Option-cases, subst,
}
use persea_terminal.Terminal.Scheduler.{
  Scheduler, new_scheduler, arm, Command, activity, begin_external, complete, stop, malformed, mark,
  Answer, ok, err_closed, run_command, command, fire,
}
use persea_terminal.Terminal.Scheduler.Timing.{World, starting, commands, fires, answered}
use persea_terminal.Terminal.Scheduler.Cuts.{Reach, starts, steps, Reach-armed, Reach-IsValid}

-- The time of the first activity since the last cut that was notified, `none` without any. A cut
-- that is completed with a retry counts as activity.
abbrev pub first_of : Option ℕ → ℕ → Option ℕ
first_of none now = some now
first_of (some at) now = some at

abbrev pub noted : Option ℕ → ℕ → Command → Answer → Option ℕ
noted since now activity ok = first_of since now
noted since now (complete true) ok = first_of since now
noted since now activity _ = since
noted since now (complete true) _ = since
noted since now (complete false) _ = since
noted since now begin_external _ = since
noted since now stop _ = since
noted since now malformed _ = since

-- The worlds that are reached, with that time.
pub data Since : World → Option ℕ → Type 0 where
  begins :
      (quiet maximum : ℕ) (s : Scheduler)
      → new_scheduler quiet maximum ≡ some s
      → Since (starting s) none
  answers :
      {w : World} {since : Option ℕ} (now : ℕ) (c : Command)
      → Since w since
      → w.clock ≤ now
      → Since
          (answered w now c (command w.scheduler now c))
          (noted since now c (command w.scheduler now c).0)
  notifies :
      {w : World} {since : Option ℕ} (now at : ℕ)
      → Since w since
      → w.clock ≤ now
      → w.scheduler.timer ≡ some at
      → at ≤ now
      → Since (record w { scheduler = fire w.scheduler; clock = now }) none

Since-Reach : {w : World} {since : Option ℕ} → Since w since → Reach w
Since-Reach (begins quiet maximum s e) = starts quiet maximum s e
Since-Reach (answers {w} now c r h) =
    steps (answered w now c (command w.scheduler now c)) (Since-Reach r) (commands now c h refl)
Since-Reach (notifies {w} now at r h timer late) =
    steps (record w { scheduler = fire w.scheduler; clock = now }) (Since-Reach r)
      (fires now at h timer late refl)

-- The scheduler's own note of that time.
pub record IsNoted (s : Scheduler) (since : Option ℕ) : Type 0 where
  pub noted_first : s.dirty ≡ true → since ≡ some s.first
  pub nothing_noted : s.dirty ≡ false → since ≡ none

new-IsNoted :
    (quiet maximum : ℕ) (s : Scheduler) → new_scheduler quiet maximum ≡ some s → IsNoted s none
unfolding new_scheduler
new-IsNoted quiet maximum s e = record {
  noted_first = λ d. ground (arith, e, d);
  nothing_noted = λ d. refl;
}

arm-IsNoted :
    (s : Scheduler) (now : ℕ) (since : Option ℕ) → IsNoted s since → IsNoted (arm s now) since
unfolding arm
arm-IsNoted s now since n = record {
  noted_first = λ d. ground (arith, n.noted_first, d);
  nothing_noted = λ d. ground (arith, n.nothing_noted, d);
}

mark-IsNoted :
    (s : Scheduler) (now : ℕ) (since : Option ℕ)
    → IsNoted s since
    → IsNoted (mark s now) (first_of since now)
unfolding mark
mark-IsNoted s now since n = elim (Bool-cases s.dirty) [
  | inl d ↦ record {
    noted_first = λ x. ground (arith, ap (λ o. first_of o now) (n.noted_first d), d);
    nothing_noted = λ x. cc;
  }
  | inr d ↦ record {
    noted_first = λ x. ground (arith, ap (λ o. first_of o now) (n.nothing_noted d), d);
    nothing_noted = λ x. cc;
  }
]

-- A command that is refused notes nothing.
refused-noted : (since : Option ℕ) (now : ℕ) (c : Command) → noted since now c err_closed ≡ since
refused-noted since now activity = refl
refused-noted since now (complete true) = refl
refused-noted since now (complete false) = refl
refused-noted since now begin_external = refl
refused-noted since now stop = refl
refused-noted since now malformed = refl

branches-IsNoted :
    (since : Option ℕ) (now : ℕ) (c : Command) (b : Bool) (x y : Answer × Scheduler)
    → (b ≡ true → IsNoted x.1 (noted since now c x.0))
    → (b ≡ false → IsNoted y.1 (noted since now c y.0))
    → IsNoted (if b then x else y).1 (noted since now c (if b then x else y).0)
branches-IsNoted since now c true x y f g = f refl
branches-IsNoted since now c false x y f g = g refl

begun-IsNoted :
    (s : Scheduler) (now : ℕ) (since : Option ℕ)
    → IsNoted s since
    → IsNoted (arm (record s { in_flight = true }) now) since
begun-IsNoted s now since n =
    arm-IsNoted (record s { in_flight = true }) now since
      (record { noted_first = n.noted_first; nothing_noted = n.nothing_noted })

completed-IsNoted :
    (s : Scheduler) (now : ℕ) (since : Option ℕ)
    → IsNoted s since
    → IsNoted (arm (record s { in_flight = false }) now) since
completed-IsNoted s now since n =
    arm-IsNoted (record s { in_flight = false }) now since
      (record { noted_first = n.noted_first; nothing_noted = n.nothing_noted })

retried-IsNoted :
    (s : Scheduler) (now : ℕ) (since : Option ℕ)
    → IsNoted s since
    → IsNoted
        (if not s.dirty
          then record s { in_flight = false; dirty = true; first = now; latest = now }
          else record s { in_flight = false })
        (first_of since now)
retried-IsNoted s now since n = elim (Bool-cases s.dirty) [
  | inl d ↦ record {
    noted_first = λ x. ground (arith, ap (λ o. first_of o now) (n.noted_first d), d);
    nothing_noted = λ x. ground (arith, d, x);
  }
  | inr d ↦ record {
    noted_first = λ x. ground (arith, ap (λ o. first_of o now) (n.nothing_noted d), d);
    nothing_noted = λ x. ground (arith, d, x);
  }
]

run-IsNoted :
    (s : Scheduler) (now : ℕ) (since : Option ℕ) (c : Command)
    → IsNoted s since
    → IsNoted (run_command s now c).1 (noted since now c (run_command s now c).0)
unfolding run_command
run-IsNoted s now since activity n =
    arm-IsNoted (mark s now) now (first_of since now) (mark-IsNoted s now since n)
run-IsNoted s now since begin_external n =
    branches-IsNoted since now begin_external s.in_flight _ _ (λ busy. n)
      (λ idle. begun-IsNoted s now since n)
run-IsNoted s now since (complete true) n =
    branches-IsNoted since now (complete true) (not s.in_flight) _ _ (λ idle. n)
      (λ busy. arm-IsNoted _ now (first_of since now) (retried-IsNoted s now since n))
run-IsNoted s now since (complete false) n =
    branches-IsNoted since now (complete false) (not s.in_flight) _ _ (λ idle. n)
      (λ busy. completed-IsNoted s now since n)
run-IsNoted s now since stop n = record {
  noted_first = n.noted_first;
  nothing_noted = n.nothing_noted;
}
run-IsNoted s now since malformed n = n

command-IsNoted :
    (s : Scheduler) (now : ℕ) (since : Option ℕ) (c : Command)
    → IsNoted s since
    → IsNoted (command s now c).1 (noted since now c (command s now c).0)
unfolding command
command-IsNoted s now since c n =
    branches-IsNoted since now c s.stopped (err_closed, s) (run_command s now c)
      (λ down. subst (IsNoted s) (sym (refused-noted since now c)) n)
      (λ up. run-IsNoted s now since c n)

fire-IsNoted : (s : Scheduler) → s.dirty ≡ true → s.in_flight ≡ false → IsNoted (fire s) none
unfolding fire
fire-IsNoted s dirty idle = record {
  noted_first = λ d. ground (arith, dirty, idle, d);
  nothing_noted = λ d. refl;
}

Since-IsNoted : {w : World} {since : Option ℕ} → Since w since → IsNoted w.scheduler since
Since-IsNoted (begins quiet maximum s e) = new-IsNoted quiet maximum s e
Since-IsNoted (answers {w} {since} now c r h) =
    command-IsNoted w.scheduler now since c (Since-IsNoted r)
Since-IsNoted (notifies {w} now at r h timer late) =
    let (dirty, idle, _, _) = (Reach-IsValid (Since-Reach r)).armed_for at timer in
    fire-IsNoted w.scheduler dirty idle

-- After any steps of a scheduler that was not stopped, with no cut in flight: if there was activity
-- since the last cut that was notified, a timer is armed, for a time that has come or is no later than
-- the maximum after the first such activity; and if there was none, none is armed.
pub Since-armed :
    {w : World} {since : Option ℕ}
    → Since w since
    → w.scheduler.stopped ≡ false
    → w.scheduler.in_flight ≡ false
    → ((first : ℕ)
        → since ≡ some first
        → (at : ℕ) × (w.scheduler.timer ≡ some at)
          × ((at ≤ w.clock) ⊎ (at ≤ first + w.scheduler.maximum)))
      × (since ≡ none → w.scheduler.timer ≡ none)
Since-armed {w} {since} r up idle =
    let v = Reach-IsValid (Since-Reach r) in
    let n = Since-IsNoted r in
    (
      λ first e. elim (Bool-cases w.scheduler.dirty) [
        | inr clean ↦ absurd (let e' = sym (n.nothing_noted clean) ∙ e in cc)
        | inl dirty ↦
            let (at, timer, bound) = Reach-armed (Since-Reach r) up dirty idle in
            let same : w.scheduler.first ≡ first = some_injective (sym (n.noted_first dirty) ∙ e) in
            (
              at,
              timer,
              subst (λ (f : ℕ). (at ≤ w.clock) ⊎ (at ≤ f + w.scheduler.maximum)) same bound,
            )
      ],
      λ e. elim (Option-cases w.scheduler.timer) [
        | inl unarmed ↦ unarmed
        | inr (at, timer) ↦
            let (dirty, _, _, _) = v.armed_for at timer in
            absurd (let e' = sym (n.noted_first dirty) ∙ e in cc)
      ],
    )
  where
    some_injective : {a b : ℕ} → some a ≡ some b → a ≡ b
    some_injective h = cc
