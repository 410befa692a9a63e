-- ===== src/Broker/InputFreshness/Tests.antt =====
-- A page that has consumed the publication of time 100, with a window of 640.
use persea_terminal.Base.{ℕ, ◌+◌, ◌≤◌, ◌≡◌, refl, true, false, none, some, [], ◌∷◌, arith}
use persea_terminal.Broker.InputFreshness.{
  is_current, FrontierClock, new_clock, mark_publication, old_marks, dropped_marks, observe,
  last_before, clock_at, Clocks, set_clock, required_consumption, DeliveredMark, InputFreshness,
  new_freshness, start, apply_receipted, push_mark, delivered, receipt, admit,
}
use persea_terminal.Broker.InputFreshness.Clocks.{Publication, latest, Observed, starts, observes}
use persea_terminal.Broker.InputFreshness.Requirement.{clock_at-requires}
use persea_terminal.Broker.InputFreshness.Pauses.{Reach, goes_live, delivers, receipts}
use persea_terminal.Broker.InputFreshness.Admission.{Fresh, admit-Fresh}
use persea_terminal.Broker.InputFreshness.Refusals.{Later, Later-resumes}

abbrev hello : Publication
hello = record { time = 100; sequence = 5 }

abbrev clock : FrontierClock
clock = observe new_clock 100 5 640

clock-Observed : Observed 640 clock (hello ∷ [])
clock-Observed = observes hello starts (omega arith) (omega arith)

requires_five : clock_at clock 740 640 ≡ 5
unfolding clock_at observe last_before mark_publication dropped_marks old_marks
requires_five = refl

requires_nothing : clock_at clock 739 640 ≡ 0
unfolding clock_at observe last_before mark_publication dropped_marks old_marks
requires_nothing = refl

clock_at-requires_example : hello.sequence ≤ clock_at clock 800 640
clock_at-requires_example = clock_at-requires hello 800 clock-Observed latest (omega arith)

abbrev caught_up_mark : DeliveredMark
caught_up_mark = record { frames = 3; sequence = 5 }

-- Three frames complete the publication, and the page has a receipt for them.
abbrev caught_up : InputFreshness
caught_up = (receipt (delivered (start new_freshness 1) 3 5) 3 4).1

caught_up-Reach : Reach caught_up (caught_up_mark ∷ [])
caught_up-Reach = receipts 3 4 (delivers caught_up_mark (goes_live 1 Reach.starts))

abbrev one_clock : Clocks
one_clock = set_clock 1 (some clock) (λ key. none)

caught_up_key : one_clock caught_up.key ≡ some clock
unfolding receipt delivered start apply_receipted push_mark
caught_up_key = refl

caught_up_live : caught_up.live ≡ true
unfolding receipt delivered start apply_receipted push_mark
caught_up_live = refl

accepts : (admit caught_up 800 2 (required_consumption one_clock caught_up.key 800 640)).0 ≡ true
unfolding receipt delivered start apply_receipted push_mark admit required_consumption clock_at
    observe last_before mark_publication dropped_marks old_marks
accepts = refl

admit-Fresh_example : Fresh caught_up (caught_up_mark ∷ []) hello
admit-Fresh_example =
    admit-Fresh one_clock hello 800 2 caught_up-Reach clock-Observed latest (omega arith)
      caught_up_key caught_up_live accepts

-- A page that has consumed nothing of it.
abbrev behind : InputFreshness
behind = start new_freshness 1

refuses : (admit behind 900 2 (some 5)).0 ≡ false
unfolding start admit
refuses = refl

-- The page sends a receipt for the frames that were written to it.
abbrev received : InputFreshness
received = (receipt (delivered (admit behind 900 2 (some 5)).2 3 5) 3 4).1

received-Later : Later 900 (admit behind 900 2 (some 5)).2 received
received-Later = Later.receipts 3 4 (Later.delivers 3 5 Later.refused_now)

accepts_again : (admit received 903 2 (some 5)).0 ≡ true
unfolding receipt delivered start apply_receipted push_mark admit
accepts_again = refl

abbrev second_time : ℕ
second_time = 903

Later-resumes_example : (900 + 2 ≤ second_time) × (is_current received (some 5) ≡ true)
Later-resumes_example =
    Later-resumes behind 900 2 (some 5) 903 2 (some 5) refuses received-Later accepts_again
