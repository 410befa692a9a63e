-- ===== src/Broker/InputLedger/Runs.antt =====
-- What the runs of `take` say of the frames.
use persea_terminal.Base.{
  length-append, add64, ◌^◌, append-nil, ℕ, suc, ◌+◌, ◌-◌, ◌≤◌, ◌<◌, ◌≡◌, refl, sym, ap, ◌∙◌, ◌≢◌,
  inl, inr, List, [], ◌∷◌, ◌++◌, append_assoc, arith, ◌==◌, if◌then◌else◌, Bool-cases, length, drop,
  replicate, replicate-suc,
}
use mathlib.Core.Path.{subst}
use persea_terminal.Broker.InputLedger.{
  take_runs, InputResult, unsettled, written, paused, refused, dropped, partial, rank, InputRun,
  add_run,
}

-- What a page that has the results up to frame `from` reads from runs: a result for each frame.
abbrev pub expand : ℕ → List InputRun → List InputResult
expand from [] = []
expand from (run ∷ runs) = replicate (run.through - from) run.result ++ expand run.through runs

-- The runs go on from frame `from`, each for at least one frame, and end with frame `last`.
abbrev pub Spans : ℕ → List InputRun → ℕ → Type 0
Spans from [] last = from ≡ last
Spans from (run ∷ runs) last = (from < run.through) × Spans run.through runs last

abbrev pub Differs : InputRun → List InputRun → Type 0
Differs run [] = Unit {0}
Differs run (next ∷ runs) = rank run.result ≢ rank next.result

-- No two neighbours have the same result: the runs are as long as they can be.
abbrev pub IsCoalesced : List InputRun → Type 0
IsCoalesced [] = Unit {0}
IsCoalesced (run ∷ runs) = Differs run runs × IsCoalesced runs

-- The results before the first frame that is not settled, and what follows them.
abbrev pub settled_prefix : List InputResult → List InputResult
settled_prefix [] = []
settled_prefix (slot ∷ slots) =
    if rank slot == rank unsettled then [] else slot ∷ settled_prefix slots

abbrev pub unsettled_rest : List InputResult → List InputResult
unsettled_rest [] = []
unsettled_rest (slot ∷ slots) =
    if rank slot == rank unsettled then slot ∷ slots else unsettled_rest slots

pub rank-injective : (a b : InputResult) → rank a ≡ rank b → a ≡ b
rank-injective unsettled b h = ground arith
rank-injective written b h = ground arith
rank-injective paused b h = ground arith
rank-injective refused b h = ground arith
rank-injective dropped b h = ground arith
rank-injective partial b h = ground arith

record Added (from : ℕ) (runs : List InputRun) (last : ℕ) (r : InputResult) (after : List InputRun)
    : Type 0 where
  spans : Spans from after (last + 1)
  coalesced : IsCoalesced after
  expands : expand from after ≡ expand from runs ++ (r ∷ [])

one_more :
    (from last : ℕ) (r : InputResult)
    → from ≤ last
    → replicate (last + 1 - from) r ≡ replicate (last - from) r ++ (r ∷ [])
one_more from last r h =
    ap (λ k. replicate k r) (let e : last + 1 - from ≡ suc (last - from) = omega arith in e)
    ∙ sym (replicate-suc (last - from) r)

only_one : (last : ℕ) (r : InputResult) → replicate (last + 1 - last) r ≡ r ∷ []
only_one last r = ap (λ k. replicate k r) (let e : last + 1 - last ≡ 1 = omega arith in e)

add_run-Differs :
    (run next : InputRun) (runs : List InputRun) (through : ℕ) (r : InputResult)
    → rank run.result ≢ rank next.result
    → Differs run (add_run (next ∷ runs) through r)
unfolding add_run
add_run-Differs run next [] through r d = ground arith
add_run-Differs run next (x ∷ runs) through r d = d

add_run-Added :
    (from last : ℕ) (runs : List InputRun) (r : InputResult)
    → Spans from runs last
    → IsCoalesced runs
    → Added from runs last r (add_run runs (last + 1) r)
unfolding add_run
add_run-Added from last [] r s c = record {
  spans = omega arith;
  coalesced = (tt, tt);
  expands = ground (arith, one_more from last r);
}
add_run-Added from last (run ∷ []) r s c = elim (Bool-cases (rank run.result == rank r)) [
  | inl same ↦ rw same (record {
    spans = omega arith;
    coalesced = (tt, tt);
    expands = ground (
      arith,
      one_more from last run.result,
      rank-injective run.result r,
      append-nil (replicate (last + 1 - from) run.result),
      append-nil (replicate (last - from) run.result),
    );
  })
  | inr other ↦ rw other (record {
    spans = ground arith;
    coalesced = (ground arith, (tt, tt));
    expands =
        ground (arith, only_one last r, append-nil (replicate (run.through - from) run.result));
  })
]
add_run-Added from last (run ∷ next ∷ runs) r s c =
    let rest = add_run-Added run.through last (next ∷ runs) r s.1 c.1 in
    record {
      spans = (s.0, rest.spans);
      coalesced = (add_run-Differs run next runs (last + 1) r c.0, rest.coalesced);
      expands =
          ap (λ l. replicate (run.through - from) run.result ++ l) rest.expands
          ∙ sym (
              append_assoc (replicate (run.through - from) run.result)
                (expand run.through (next ∷ runs)) (r ∷ []));
    }

pub unsettled_rest-drop :
    (slots : List InputResult) → drop (length (settled_prefix slots)) slots ≡ unsettled_rest slots
unsettled_rest-drop [] = refl
unsettled_rest-drop (slot ∷ slots) = ground (arith, unsettled_rest-drop slots)

pub settled-append-rest :
    (slots : List InputResult) → settled_prefix slots ++ unsettled_rest slots ≡ slots
settled-append-rest [] = refl
settled-append-rest (slot ∷ slots) = ground (arith, settled-append-rest slots)

pub length-settled-rest :
    (slots : List InputResult)
    → length (settled_prefix slots) + length (unsettled_rest slots) ≡ length slots
length-settled-rest slots =
    sym (length-append (settled_prefix slots) (unsettled_rest slots))
    ∙ ap length (settled-append-rest slots)

pub record Scanned (from n : ℕ) (slots : List InputResult) (runs : List InputRun) (reported : ℕ)
    (out : ℕ × List InputRun) : Type 0 where
  pub count : out.0 ≡ n + length (settled_prefix slots)
  pub spans : Spans from out.1 (reported + out.0)
  pub coalesced : IsCoalesced out.1
  pub expands : expand from out.1 ≡ expand from runs ++ settled_prefix slots

pub take_runs-Scanned :
    (from reported n : ℕ) (slots : List InputResult) (runs : List InputRun)
    → reported + n + length slots < 2 ^ 64
    → Spans from runs (reported + n)
    → IsCoalesced runs
    → Scanned from n slots runs reported (take_runs reported n slots runs)
unfolding take_runs
take_runs-Scanned from reported n [] runs h s c = record {
  count = omega arith;
  spans = s;
  coalesced = c;
  expands = sym (append-nil (expand from runs));
}
take_runs-Scanned from reported n (slot ∷ slots) runs h s c =
    elim (Bool-cases (rank slot == rank unsettled)) [
      | inl stop ↦ rw stop (record {
        count = ground arith;
        spans = s;
        coalesced = c;
        expands = ground (arith, append-nil (expand from runs));
      })
      | inr go_on ↦
          let fits : add64 (add64 reported n) 1 ≡ reported + n + 1 = omega arith in
          let added = add_run-Added from (reported + n) runs slot s c in
          let rest =
            take_runs-Scanned from reported (n + 1) slots (add_run runs (reported + n + 1) slot)
              (omega arith)
              (subst (Spans from (add_run runs (reported + n + 1) slot)) (omega arith) added.spans)
              added.coalesced in
          rw (go_on, fits)
            (record {
              count = ground (arith, rest.count);
              spans = rest.spans;
              coalesced = rest.coalesced;
              expands = ground (
                arith,
                rest.expands,
                added.expands,
                append_assoc (expand from runs) (slot ∷ []) (settled_prefix slots),
              );
            })
    ]
