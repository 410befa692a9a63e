-- ===== src/Broker/InputLedger/Numbers.antt =====
-- The counters of the ledger and what each operation keeps of them.
use persea_terminal.Base.{
  subst, ℕ, ◌+◌, ◌-◌, ◌^◌, ◌≤◌, ◌<◌, ◌≡◌, refl, ap, ◌∙◌, ◌≢◌, ◌⊎◌, inl, inr, true, false, ◌&&◌,
  some, List, [], ◌∷◌, ◌++◌, arith, ltb, leb, ◌==◌, Bool-cases, length, get_elem?, drop,
  length-append, drop-cons, set, sub64,
}
use persea_terminal.Broker.InputLedger.{
  InputResult, unsettled, rank, max_input_backlog, InputRun, InputLedger, receive, settle,
  take_runs, take_settled,
}
use persea_terminal.Broker.InputLedger.Runs.{
  length-settled-rest, Scanned, rank-injective, expand, Spans, IsCoalesced, settled_prefix,
  unsettled_rest, unsettled_rest-drop, take_runs-Scanned,
}

pub record IsValid (l : InputLedger) : Type 0 where
  pub counted : l.received ≡ l.reported + length l.window
  pub in_order : l.written_through ≤ l.reported
  pub backlog : l.received ≤ l.written_through + max_input_backlog
  pub in_range : l.received < 2 ^ 64

-- `receive` gives the frame the next number and an unsettled slot at the end of the window, unless
-- 1024 frames wait for a result to be written: then it refuses and changes nothing.
pub receive_lem :
    (l : InputLedger)
    → IsValid l
    → l.received + 1 < 2 ^ 64
    → ((l.received < l.written_through + max_input_backlog)
        × (receive l ≡ (
          l.received + 1,
          true,
          record l { received = l.received + 1; window = l.window ++ (unsettled ∷ []) },
        ))
        × IsValid (receive l).2)
      ⊎ ((l.received ≡ l.written_through + max_input_backlog) × (receive l ≡ (0, false, l)))
unfolding receive
receive_lem l v h = elim (Bool-cases (leb max_input_backlog (sub64 l.received l.written_through))) [
  | inl full ↦ inr (ground arith, ground arith)
  | inr room ↦
      inl (ground arith, ground arith, ground (arith, length-append l.window (unsettled ∷ [])))
]

-- What `settle` does with an outcome: nothing for a frame that was reported or never received, nothing
-- where an outcome stands already, and otherwise it is written, with a wake.
pub data Settling (l : InputLedger) (id : ℕ) (result : InputResult) : Type 0 where
  outside :
      (id ≤ l.reported) ⊎ (l.received < id) → settle l id result ≡ some l → Settling l id result
  stands :
      (i : ℕ) (slot : InputResult)
      → id ≡ l.reported + i + 1
      → get_elem? l.window i ≡ some slot
      → rank slot ≢ rank unsettled
      → settle l id result ≡ some l
      → Settling l id result
  settles :
      (i : ℕ)
      → id ≡ l.reported + i + 1
      → get_elem? l.window i ≡ some unsettled
      → settle l id result ≡ some (record l { window = set l.window i result; wake = true })
      → Settling l id result

settle_waiting :
    (l : InputLedger) (id : ℕ) (result : InputResult)
    → IsValid l
    → (ltb l.reported id && leb id l.received) ≡ true
    → Settling l id result
unfolding settle
settle_waiting l id result v waits =
    let i = id - l.reported - 1 in
    let within : (l.reported < id) × (id ≤ l.received) = ground arith in
    let (slot, hit, _) = drop-cons i l.window (omega arith) in
    elim (Bool-cases (rank slot == rank unsettled)) [
      | inl free ↦
          Settling.settles i (omega arith) (ground (arith, hit, rank-injective slot unsettled))
            (ground (arith, hit))
      | inr taken ↦ Settling.stands i slot (omega arith) hit (ground arith) (ground (arith, hit))
    ]

-- On a valid ledger `settle` never panics, and it settles a frame exactly if the frame was received,
-- was not reported and has no outcome yet: the first outcome stands.
pub settle_lem :
    (l : InputLedger) (id : ℕ) (result : InputResult) → IsValid l → Settling l id result
unfolding settle
settle_lem l id result v = elim (Bool-cases (ltb l.reported id && leb id l.received)) [
  | inl waits ↦ settle_waiting l id result v waits
  | inr over ↦ Settling.outside (ground arith) (rw over)
]

-- The results that `take` reads off the window.
pub record Taken (l : InputLedger) (runs : List InputRun) (l' : InputLedger) : Type 0 where
  pub spans : Spans l.reported runs l'.reported
  pub coalesced : IsCoalesced runs
  pub told : expand l.reported runs ≡ settled_prefix l.window
  pub left : l'.window ≡ unsettled_rest l.window
  pub valid : IsValid l'
  pub written_same : l'.written_through ≡ l.written_through
  pub received_same : l'.received ≡ l.received

-- `take` removes the results before the first unsettled frame, returns them as runs in frame order
-- that go on from the last frame reported, with no two neighbours alike, and keeps the rest.
pub take_settled_lem : (l : InputLedger) → IsValid l → Taken l (take_settled l).0 (take_settled l).1
unfolding take_settled
take_settled_lem l v = record {
  spans =
      subst (Spans l.reported runs) (omega (arith, scanned.count, length-settled-rest l.window))
        scanned.spans;
  coalesced = scanned.coalesced;
  told = scanned.expands;
  left = rest;
  valid = record {
    counted = omega (arith, ap length rest, length-settled-rest l.window, scanned.count);
    in_order = omega (arith, scanned.count, length-settled-rest l.window);
    backlog = v.backlog;
    in_range = v.in_range;
  };
  written_same = refl;
  received_same = refl;
}
  where
    runs : List InputRun
    runs = (take_runs l.reported 0 l.window []).1

    scanned : Scanned l.reported 0 l.window [] l.reported (take_runs l.reported 0 l.window [])
    scanned = take_runs-Scanned l.reported l.reported 0 l.window [] (omega arith) (omega arith) tt

    rest : drop (take_runs l.reported 0 l.window []).0 l.window ≡ unsettled_rest l.window
    rest = ap (λ k. drop k l.window) (omega (arith, scanned.count)) ∙ unsettled_rest-drop l.window
