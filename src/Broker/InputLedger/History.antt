-- ===== src/Broker/InputLedger/History.antt =====
-- The ledger and its reporter against the specification: one outcome for each frame, the first that
-- was recorded, and a page that hears them in frame order.
use persea_terminal.Base.{
  ℕ, ◌+◌, ◌^◌, ◌<◌, ◌≡◌, refl, sym, ap, inl, inr, true, false, some, List, [], ◌∷◌, ◌++◌,
  append_assoc, arith, length, length-append, set, length-set, subst,
}
use persea_terminal.Broker.InputLedger.{
  InputRun, InputLedger, InputResult, unsettled, receive, settle, Reporter, selecting, writing,
  ended, report_writes,
}
use persea_terminal.Broker.InputLedger.Numbers.{Settling, IsValid, receive_lem, settle_lem}
use persea_terminal.Broker.InputLedger.Outcomes.{
  Outcomes, spec_receive, spec_settle, spec_settle_told, spec_settle_window, spec_settle_standing,
  spec_settle_beyond,
}
use persea_terminal.Broker.InputLedger.Reporting.{
  State, Step, receives, settles, wakes, takes, loops, writes, fails, confirms, stops, Reach,
  starts, steps, told, told_count, unheard, IsConfirmed, Agrees, turns-Agrees, wakes-Agrees,
  takes-Agrees, writes-Agrees, confirms-Agrees,
}

receives-Agrees :
    (s : State) (id : ℕ) (l' : InputLedger)
    → Agrees s
    → s.ledger.received + 1 < 2 ^ 64
    → receive s.ledger ≡ (id, true, l')
    → Agrees (record s { ledger = l'; outcomes = spec_receive s.outcomes })
receives-Agrees s id l' a h e = elim (receive_lem s.ledger a.valid h) [
  | inl (room, granted, v) ↦
      let moved : l' ≡ record s.ledger {
        received = s.ledger.received + 1;
        window = s.ledger.window ++ (unsettled ∷ []);
      } =
        cc in
      record {
        valid = subst IsValid (let e' : (receive s.ledger).2 ≡ l' = cc in e') v;
        split = ground (arith, append_assoc (told s) s.ledger.window (unsettled ∷ []));
        spans = rw moved a.spans;
        confirmed = rw moved a.confirmed;
        settled = a.settled;
      }
  | inr (full, refused) ↦ cc
]

-- An outcome that the ledger ignores, and the specification too.
ignored-Agrees :
    (s : State) (l' : InputLedger) (o : Outcomes)
    → Agrees s
    → l' ≡ s.ledger
    → o ≡ s.outcomes
    → Agrees (record s { ledger = l'; outcomes = o })
ignored-Agrees s l' o a e f = rw (e, f) a

settles-Agrees :
    (s : State) (id : ℕ) (result : InputResult) (l' : InputLedger)
    → Agrees s
    → settle s.ledger id result ≡ some l'
    → Agrees (record s { ledger = l'; outcomes = spec_settle s.outcomes id result })
settles-Agrees s id result l' a e = elim (settle_lem s.ledger id result a.valid) [
  | Settling.outside (inl h) same ↦ ignored-Agrees s l' _ a (cc) (
      rw a.split (
        spec_settle_told (told s) s.ledger.window id result a.settled
          (omega (arith, told_count s a))))
  | Settling.outside (inr h) same ↦ ignored-Agrees s l' _ a (cc) (
      spec_settle_beyond s.outcomes id result
        (omega (arith, told_count s a, ap length a.split, length-append (told s) s.ledger.window)))
  | Settling.stands i slot at hit other same ↦
      let place : id ≡ length (told s) + i + 1 = omega (arith, told_count s a) in
      ignored-Agrees s l' _ a (cc) (
        rw (a.split, place) (spec_settle_standing (told s) s.ledger.window i slot result hit other))
  | Settling.settles i at hit done ↦
      let place : id ≡ length (told s) + i + 1 = omega (arith, told_count s a) in
      let moved : l' ≡ record s.ledger { window = set s.ledger.window i result; wake = true } =
        cc in
      rw (a.split, moved, place)
        (record {
          valid = record {
            counted = omega (arith, length-set s.ledger.window i result);
            in_order = a.valid.in_order;
            backlog = a.valid.backlog;
            in_range = a.valid.in_range;
          };
          split = spec_settle_window (told s) s.ledger.window i result hit;
          spans = a.spans;
          confirmed = a.confirmed;
          settled = a.settled;
        })
]

IsConfirmed-at :
    (s : State) (r : Reporter)
    → Agrees s
    → s.reporter ≡ r
    → IsConfirmed r s.ledger.written_through (length s.heard)
IsConfirmed-at s r a e =
    subst (λ q. IsConfirmed q s.ledger.written_through (length s.heard)) e a.confirmed

fails-Agrees :
    (s : State) (run : InputRun) (runs : List InputRun)
    → Agrees s
    → s.reporter ≡ writing (run ∷ runs)
    → Agrees (record s { reporter = report_writes false (run ∷ runs) })
unfolding report_writes
fails-Agrees s run runs a at =
    turns-Agrees s (ended (run ∷ runs)) a (ap unheard at) (IsConfirmed-at s _ a at)

Step-Agrees : {s s' : State} → Step s s' → Agrees s → Agrees s'
Step-Agrees (receives id l' h e m) a = subst Agrees (sym m) (receives-Agrees _ id l' a h e)
Step-Agrees (settles id result l' e m) a = subst Agrees (sym m) (settles-Agrees _ id result l' a e)
Step-Agrees (wakes at m) a = subst Agrees (sym m) (wakes-Agrees _ a at)
Step-Agrees (takes at m) a = subst Agrees (sym m) (takes-Agrees _ a at)
Step-Agrees (loops at m) a =
    subst Agrees (sym m) (turns-Agrees _ selecting a (ap unheard at) (IsConfirmed-at _ _ a at))
Step-Agrees (writes run runs at m) a = subst Agrees (sym m) (writes-Agrees _ run runs a at)
Step-Agrees (fails run runs at m) a = subst Agrees (sym m) (fails-Agrees _ run runs a at)
Step-Agrees (confirms run runs at m) a = subst Agrees (sym m) (confirms-Agrees _ run runs a at)
Step-Agrees (stops at m) a =
    subst Agrees (sym m) (turns-Agrees _ (ended []) a (ap unheard at) (IsConfirmed-at _ _ a at))

-- After any operations on a new ledger and any steps of its reporter, in any order, with any writes
-- failing: the outcomes of all frames, the first that was recorded for each, are what the page has
-- heard, then the runs that the reporter holds and the page has not heard, which are lost if the
-- reporter has ended, and then the window; all but the window are settled; and `written_through`
-- counts what the page has heard, except between a write and its `wrote`, where it is less.
pub Reach-Agrees : {s : State} → Reach s → Agrees s
Reach-Agrees starts = record {
  valid = omega arith;
  split = refl;
  spans = refl;
  confirmed = refl;
  settled = tt;
}
Reach-Agrees (steps r st) = Step-Agrees st (Reach-Agrees r)
