-- ===== src/Broker/InputLedger/Outcomes.antt =====
-- The specification of the ledger: the outcomes of all frames received, the first outcome of each.
use persea_terminal.Base.{
  ℕ, zero, suc, ◌+◌, ◌≤◌, ◌<◌, ◌≡◌, refl, ap, ◌≢◌, none, some, List, [], ◌∷◌, ◌++◌, arith, ◌==◌,
  if◌then◌else◌, length, get_elem?, drop-cons, set, get_elem?-append_left, get_elem?-append_right,
  zero-add, suc-add, get_elem?-none_of_le,
}
use persea_terminal.Broker.InputLedger.{InputResult, unsettled, rank}
use persea_terminal.Broker.InputLedger.Runs.{settled_prefix}

-- The specification: the outcomes of all frames received, by number.
abbrev pub Outcomes : Type 0
Outcomes = List InputResult

abbrev pub spec_receive : Outcomes → Outcomes
spec_receive o = o ++ (unsettled ∷ [])

-- The first outcome stands; frames are numbered from 1.
unfoldable pub spec_settle : Outcomes → ℕ → InputResult → Outcomes
spec_settle o zero result = o
spec_settle o (suc i) result = elim (get_elem? o i) [
  | none ↦ o
  | some slot ↦ if rank slot == rank unsettled then set o i result else o
]

abbrev pub AllSettled : List InputResult → Type 0
AllSettled [] = Unit {0}
AllSettled (r ∷ rs) = (rank r ≢ rank unsettled) × AllSettled rs

pub AllSettled-append :
    (xs ys : List InputResult) → AllSettled xs → AllSettled ys → AllSettled (xs ++ ys)
AllSettled-append [] ys a b = b
AllSettled-append (x ∷ xs) ys a b = (a.0, AllSettled-append xs ys a.1 b)

pub settled_prefix-AllSettled : (slots : List InputResult) → AllSettled (settled_prefix slots)
settled_prefix-AllSettled [] = tt
settled_prefix-AllSettled (slot ∷ slots) = ground (arith, settled_prefix-AllSettled slots)

set-append_right :
    (xs ys : List InputResult) (i : ℕ) (r : InputResult)
    → set (xs ++ ys) (length xs + i) r ≡ xs ++ set ys i r
set-append_right [] ys i r = rw zero-add
set-append_right (x ∷ xs) ys i r = rw suc-add (ap (◌∷◌ x) (set-append_right xs ys i r))

AllSettled-get_elem? :
    (xs : List InputResult) (i : ℕ) (r : InputResult)
    → AllSettled xs
    → get_elem? xs i ≡ some r
    → rank r ≢ rank unsettled
AllSettled-get_elem? [] i r a e = cc
AllSettled-get_elem? (x ∷ xs) zero r a e = ground (arith, a.0)
AllSettled-get_elem? (x ∷ xs) (suc i) r a e = AllSettled-get_elem? xs i r a.1 e

-- The specification ignores a frame that is settled already, and any number out of range.
pub spec_settle_told :
    (told window : List InputResult) (id : ℕ) (result : InputResult)
    → AllSettled told
    → id ≤ length told
    → spec_settle (told ++ window) id result ≡ told ++ window
unfolding spec_settle
spec_settle_told told window zero result a h = refl
spec_settle_told told window (suc i) result a h =
    let (slot, hit, _) = drop-cons i told h in
    ground (arith, hit, AllSettled-get_elem? told i slot a, get_elem?-append_left told window i)

pub spec_settle_window :
    (told window : List InputResult) (i : ℕ) (result : InputResult)
    → get_elem? window i ≡ some unsettled
    → spec_settle (told ++ window) (length told + i + 1) result ≡ told ++ set window i result
unfolding spec_settle
spec_settle_window told window i result e =
    let at : length told + i + 1 ≡ suc (length told + i) = omega arith in
    rw at
      (ground (arith, get_elem?-append_right told window i, set-append_right told window i result))

pub spec_settle_standing :
    (told window : List InputResult) (i : ℕ) (slot result : InputResult)
    → get_elem? window i ≡ some slot
    → rank slot ≢ rank unsettled
    → spec_settle (told ++ window) (length told + i + 1) result ≡ told ++ window
unfolding spec_settle
spec_settle_standing told window i slot result e other =
    let at : length told + i + 1 ≡ suc (length told + i) = omega arith in
    rw at (ground (arith, get_elem?-append_right told window i))

pub spec_settle_beyond :
    (o : Outcomes) (id : ℕ) (result : InputResult) → length o < id → spec_settle o id result ≡ o
unfolding spec_settle
spec_settle_beyond o zero result h = refl
spec_settle_beyond o (suc i) result h = rw (get_elem?-none_of_le o i (omega arith), spec_settle)
