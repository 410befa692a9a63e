-- ===== src/Terminal/Scheduler/Steps.antt =====
-- Every step of the cut scheduler keeps its invariant.
use persea_terminal.Base.{
  ℕ, ◌≤◌, ◌≡◌, refl, inl, inr, true, false, not, some, arith, if◌then◌else◌, Bool-cases, subst,
}
use persea_terminal.Terminal.Scheduler.{
  arm, Command, activity, begin_external, complete, stop, malformed, ok, out_of_state,
  err_malformed, err_closed, run_command, command, fire,
}
use persea_terminal.Terminal.Scheduler.Timing.{
  World, answered, IsValid, refused-IsValid, activity-IsValid, begin-IsValid, completed,
  complete-IsValid, stop-IsValid,
}

run_command-IsValid :
    (w : World) (now : ℕ) (c : Command)
    → IsValid w
    → w.clock ≤ now
    → w.scheduler.stopped ≡ false
    → IsValid (answered w now c (run_command w.scheduler now c))
unfolding run_command
run_command-IsValid w now activity v h up = activity-IsValid w now v h up
run_command-IsValid w now begin_external v h up = elim (Bool-cases w.scheduler.in_flight) [
  | inl busy ↦
      subst (λ r. IsValid (answered w now begin_external r))
        (let same : (out_of_state, w.scheduler) ≡ (
              if w.scheduler.in_flight
              then (out_of_state, w.scheduler)
              else (ok, arm (record w.scheduler { in_flight = true }) now)) =
            ground (arith, busy) in
          same)
        (refused-IsValid w now begin_external out_of_state v h refl)
  | inr idle ↦
      subst (λ r. IsValid (answered w now begin_external r))
        (let same : (ok, arm (record w.scheduler { in_flight = true }) now) ≡ (
              if w.scheduler.in_flight
              then (out_of_state, w.scheduler)
              else (ok, arm (record w.scheduler { in_flight = true }) now)) =
            ground (arith, idle) in
          same)
        (begin-IsValid w now v h up idle)
]
run_command-IsValid w now (complete retry) v h up = elim (Bool-cases w.scheduler.in_flight) [
  | inl busy ↦
      subst (λ r. IsValid (answered w now (complete retry) r))
        (let same : (ok, arm (completed w.scheduler now retry) now) ≡ (
              if not w.scheduler.in_flight
              then (out_of_state, w.scheduler)
              else (ok, arm (completed w.scheduler now retry) now)) =
            ground (arith, busy) in
          same)
        (complete-IsValid w now retry v h up busy)
  | inr idle ↦
      subst (λ r. IsValid (answered w now (complete retry) r))
        (let same : (out_of_state, w.scheduler) ≡ (
              if not w.scheduler.in_flight
              then (out_of_state, w.scheduler)
              else (ok, arm (completed w.scheduler now retry) now)) =
            ground (arith, idle) in
          same)
        (refused-IsValid w now (complete retry) out_of_state v h refl)
]
run_command-IsValid w now stop v h up = stop-IsValid w now v h
run_command-IsValid w now malformed v h up = refused-IsValid w now malformed err_malformed v h refl

pub command-IsValid :
    (w : World) (now : ℕ) (c : Command)
    → IsValid w
    → w.clock ≤ now
    → IsValid (answered w now c (command w.scheduler now c))
unfolding command
command-IsValid w now c v h = elim (Bool-cases w.scheduler.stopped) [
  | inl down ↦
      subst (λ r. IsValid (answered w now c r))
        (let same : (err_closed, w.scheduler) ≡ (
              if w.scheduler.stopped
              then (err_closed, w.scheduler)
              else run_command w.scheduler now c) =
            ground (arith, down) in
          same)
        (refused-IsValid w now c err_closed v h refl)
  | inr up ↦
      subst (λ r. IsValid (answered w now c r))
        (let same : run_command w.scheduler now c ≡ (
              if w.scheduler.stopped
              then (err_closed, w.scheduler)
              else run_command w.scheduler now c) =
            ground (arith, up) in
          same)
        (run_command-IsValid w now c v h up)
]

pub fire-IsValid :
    (w : World) (now at : ℕ)
    → IsValid w
    → w.clock ≤ now
    → w.scheduler.timer ≡ some at
    → IsValid (record w { scheduler = fire w.scheduler; clock = now })
unfolding fire
fire-IsValid w now at v h e =
    let (dirty, idle, up, _) = v.armed_for at e in
    record {
      positive = ground (arith, v.positive);
      quiet_first = ground (arith, v.quiet_first);
      ordered = λ d. ground (arith, dirty, idle);
      armed = λ u d f. ground (arith, dirty, idle);
      armed_for = λ t k. ground (arith, dirty, idle);
      balanced = ground (arith, v.balanced, dirty, idle);
    }
