-- ===== src/Broker/InputLedger/Reporting.antt =====
-- The reporter beside the ledger: what the page hears, in steps that interleave with the operations.
use persea_terminal.Base.{
  ℕ, ◌+◌, ◌-◌, ◌^◌, ◌≤◌, ◌<◌, ◌≡◌, sym, ap, ◌∙◌, true, false, some, List, [], ◌∷◌, ◌++◌, append-nil,
  append_assoc, arith, length, length-append, replicate, subst, length-replicate, ap₂,
}
use persea_terminal.Broker.InputLedger.{
  InputRun, InputLedger, InputResult, new_input_ledger, receive, settle, wrote, take_settled,
  Reporter, selecting, taking, writing, ended, confirming, report_wakes, report_takes,
  report_writes, report_confirms,
}
use persea_terminal.Broker.InputLedger.Runs.{expand, Spans, settled_prefix, settled-append-rest}
use persea_terminal.Broker.InputLedger.Numbers.{IsValid, Taken, take_settled_lem}
use persea_terminal.Broker.InputLedger.Outcomes.{
  Outcomes, spec_receive, spec_settle, AllSettled, AllSettled-append, settled_prefix-AllSettled,
}

-- `heard` is what the page has read from the runs that were written, a result for each frame.
pub record State : Type 0 where
  pub ledger : InputLedger
  pub reporter : Reporter
  pub outcomes : Outcomes
  pub heard : List InputResult

abbrev pub fresh : State
fresh = record { ledger = new_input_ledger; reporter = selecting; outcomes = []; heard = [] }

-- A run tells the page the result of the frames behind those it has heard of, through its last.
abbrev pub hears : List InputResult → InputRun → List InputResult
hears heard run = heard ++ replicate (run.through - length heard) run.result

-- Any caller may receive or settle between any two steps of the reporter. `wakes` has no premise on
-- the token, which `settle` sends behind its mutex: the reporter may find it at any time.
pub data Step (s s' : State) : Type 0 where
  receives :
      (id : ℕ) (l' : InputLedger)
      → s.ledger.received + 1 < 2 ^ 64
      → receive s.ledger ≡ (id, true, l')
      → s' ≡ record s { ledger = l'; outcomes = spec_receive s.outcomes }
      → Step s s'
  settles :
      (id : ℕ) (result : InputResult) (l' : InputLedger)
      → settle s.ledger id result ≡ some l'
      → s' ≡ record s { ledger = l'; outcomes = spec_settle s.outcomes id result }
      → Step s s'
  wakes :
      s.reporter ≡ selecting
      → s' ≡ record s { reporter = (report_wakes s.ledger).0; ledger = (report_wakes s.ledger).1 }
      → Step s s'
  takes :
      s.reporter ≡ taking
      → s' ≡ record s { reporter = (report_takes s.ledger).0; ledger = (report_takes s.ledger).1 }
      → Step s s'
  loops : s.reporter ≡ writing [] → s' ≡ record s { reporter = selecting } → Step s s'
  writes :
      (run : InputRun) (runs : List InputRun)
      → s.reporter ≡ writing (run ∷ runs)
      → s' ≡ record s { reporter = report_writes true (run ∷ runs); heard = hears s.heard run }
      → Step s s'
  fails :
      (run : InputRun) (runs : List InputRun)
      → s.reporter ≡ writing (run ∷ runs)
      → s' ≡ record s { reporter = report_writes false (run ∷ runs) }
      → Step s s'
  confirms :
      (run : InputRun) (runs : List InputRun)
      → s.reporter ≡ confirming run runs
      → s' ≡ record s {
        reporter = (report_confirms s.ledger run runs).0;
        ledger = (report_confirms s.ledger run runs).1;
      }
      → Step s s'
  stops : s.reporter ≡ selecting → s' ≡ record s { reporter = ended [] } → Step s s'

pub data Reach : State → Type 0 where
  starts : Reach fresh
  steps : {s s' : State} → Reach s → Step s s' → Reach s'

-- The runs that were taken and that the page has not heard.
abbrev pub unheard : Reporter → List InputRun
unheard selecting = []
unheard taking = []
unheard (writing runs) = runs
unheard (confirming run runs) = runs
unheard (ended runs) = runs

-- `written_through` is what the page has heard of, but between a write and `wrote`, where it is less.
abbrev pub IsConfirmed : Reporter → ℕ → ℕ → Type 0
IsConfirmed selecting through heard = through ≡ heard
IsConfirmed taking through heard = through ≡ heard
IsConfirmed (writing runs) through heard = through ≡ heard
IsConfirmed (ended runs) through heard = through ≡ heard
IsConfirmed (confirming run runs) through heard = (through < heard) × (run.through ≡ heard)

-- All that was taken from the window: what the page has heard, and the runs that it has not.
abbrev pub told : State → List InputResult
told s = s.heard ++ expand (length s.heard) (unheard s.reporter)

pub record Agrees (s : State) : Type 0 where
  pub valid : IsValid s.ledger
  pub split : s.outcomes ≡ told s ++ s.ledger.window
  pub spans : Spans (length s.heard) (unheard s.reporter) s.ledger.reported
  pub confirmed : IsConfirmed s.reporter s.ledger.written_through (length s.heard)
  pub settled : AllSettled (told s)

length-expand :
    (from last : ℕ) (runs : List InputRun)
    → Spans from runs last
    → from + length (expand from runs) ≡ last
length-expand from last [] s = omega arith
length-expand from last (run ∷ runs) s = omega (
  arith,
  length-expand run.through last runs s.1,
  length-append (replicate (run.through - from) run.result) (expand run.through runs),
  length-replicate (run.through - from) run.result,
)

pub told_count : (s : State) → Agrees s → length (told s) ≡ s.ledger.reported
told_count s a = omega (
  arith,
  length-append s.heard (expand (length s.heard) (unheard s.reporter)),
  length-expand (length s.heard) s.ledger.reported (unheard s.reporter) a.spans,
)

-- A step of the reporter that changes neither the ledger nor the runs that it holds.
pub turns-Agrees :
    (s : State) (r : Reporter)
    → Agrees s
    → unheard s.reporter ≡ unheard r
    → IsConfirmed r s.ledger.written_through (length s.heard)
    → Agrees (record s { reporter = r })
turns-Agrees s r a e c = record {
  valid = a.valid;
  split = a.split ∙ ap (λ q. (s.heard ++ expand (length s.heard) q) ++ s.ledger.window) e;
  spans = subst (λ q. Spans (length s.heard) q s.ledger.reported) e a.spans;
  confirmed = c;
  settled = subst (λ q. AllSettled (s.heard ++ expand (length s.heard) q)) e a.settled;
}

pub wakes-Agrees :
    (s : State)
    → Agrees s
    → s.reporter ≡ selecting
    → Agrees (record s { reporter = (report_wakes s.ledger).0; ledger = (report_wakes s.ledger).1 })
unfolding report_wakes
wakes-Agrees s a at =
    let b =
      turns-Agrees s taking a (ap unheard at)
        (subst (λ q. IsConfirmed q s.ledger.written_through (length s.heard)) at a.confirmed) in
    record {
      valid = omega (arith, a.valid);
      split = b.split;
      spans = b.spans;
      confirmed = b.confirmed;
      settled = b.settled;
    }

pub takes-Agrees :
    (s : State)
    → Agrees s
    → s.reporter ≡ taking
    → Agrees (record s { reporter = (report_takes s.ledger).0; ledger = (report_takes s.ledger).1 })
unfolding report_takes
takes-Agrees s a at = record {
  valid = t.valid;
  split =
      b.split
      ∙ ap₂ ◌++◌ (append-nil s.heard) whole
      ∙ sym (append_assoc s.heard (expand (length s.heard) runs) (take_settled s.ledger).1.window);
  spans = subst (λ k. Spans k runs (take_settled s.ledger).1.reported) (sym b.spans) t.spans;
  confirmed = t.written_same ∙ b.confirmed;
  settled =
      AllSettled-append s.heard (expand (length s.heard) runs)
        (subst AllSettled (append-nil s.heard) b.settled)
        (subst AllSettled (sym fits) (settled_prefix-AllSettled s.ledger.window));
}
  where
    b : Agrees (record s { reporter = taking })
    b =
        turns-Agrees s taking a (ap unheard at)
          (subst (λ q. IsConfirmed q s.ledger.written_through (length s.heard)) at a.confirmed)

    runs : List InputRun
    runs = (take_settled s.ledger).0

    t : Taken s.ledger runs (take_settled s.ledger).1
    t = take_settled_lem s.ledger a.valid

    fits : expand (length s.heard) runs ≡ settled_prefix s.ledger.window
    fits = ap (λ k. expand k runs) b.spans ∙ t.told

    whole : s.ledger.window ≡ expand (length s.heard) runs ++ (take_settled s.ledger).1.window
    whole = sym (settled-append-rest s.ledger.window) ∙ ap₂ ◌++◌ (sym fits) (sym t.left)

length-hears :
    (heard : List InputResult) (run : InputRun)
    → length heard ≤ run.through
    → length (hears heard run) ≡ run.through
length-hears heard run h = omega (
  arith,
  length-append heard (replicate (run.through - length heard) run.result),
  length-replicate (run.through - length heard) run.result,
)

pub writes-Agrees :
    (s : State) (run : InputRun) (runs : List InputRun)
    → Agrees s
    → s.reporter ≡ writing (run ∷ runs)
    → Agrees (record s { reporter = report_writes true (run ∷ runs); heard = hears s.heard run })
unfolding report_writes
writes-Agrees s run runs a at = record {
  valid = a.valid;
  split = b.split ∙ ap (λ o. o ++ s.ledger.window) same;
  spans = subst (λ k. Spans k runs s.ledger.reported) (sym long) b.spans.1;
  confirmed = (omega (arith, long, b.confirmed, b.spans.0), sym long);
  settled = subst AllSettled same b.settled;
}
  where
    b : Agrees (record s { reporter = writing (run ∷ runs) })
    b =
        turns-Agrees s (writing (run ∷ runs)) a (ap unheard at)
          (subst (λ q. IsConfirmed q s.ledger.written_through (length s.heard)) at a.confirmed)

    long : length (hears s.heard run) ≡ run.through
    long = length-hears s.heard run (omega (arith, b.spans.0))

    same :
        s.heard ++ expand (length s.heard) (run ∷ runs)
        ≡ hears s.heard run ++ expand (length (hears s.heard run)) runs
    same =
        sym (
          append_assoc s.heard (replicate (run.through - length s.heard) run.result)
            (expand run.through runs))
        ∙ ap (λ k. hears s.heard run ++ expand k runs) (sym long)

pub confirms-Agrees :
    (s : State) (run : InputRun) (runs : List InputRun)
    → Agrees s
    → s.reporter ≡ confirming run runs
    → Agrees (record s {
      reporter = (report_confirms s.ledger run runs).0;
      ledger = (report_confirms s.ledger run runs).1;
    })
unfolding report_confirms wrote
confirms-Agrees s run runs a at =
    let (less, here) =
      subst (λ q. IsConfirmed q s.ledger.written_through (length s.heard)) at a.confirmed in
    let b = turns-Agrees s (confirming run runs) a (ap unheard at) (less, here) in
    record {
      valid = omega (
        arith,
        a.valid,
        told_count s a,
        length-append s.heard (expand (length s.heard) (unheard s.reporter)),
      );
      split = b.split;
      spans = b.spans;
      confirmed = here;
      settled = b.settled;
    }
