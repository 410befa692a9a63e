-- ===== src/Broker/InputFreshness.antt =====
-- internal/broker/input_freshness.go: which publications a page must have consumed, what it has
-- consumed, and the pause of its input. Times and durations are numbers, and an instant that lies
-- `window` before `now` is given by the two, since it may be before the beginning. A sequence is a
-- number that is not negative, and the key of a generation is a number.
pub mod Clocks
pub mod Requirement
pub mod Pauses
pub mod Admission
pub mod Refusals
mod Tests
use persea_terminal.Base.{
  ℕ, zero, suc, ◌+◌, ◌-◌, ◌/◌, ◌%◌, Bool, true, false, not, ◌&&◌, ◌||◌, Option, none, some, List,
  [], ◌∷◌, ltb, leb, ◌==◌, if◌then◌else◌, length, drop, set, replicate,
}

abbrev pub frontier_clock_resolution : ℕ
frontier_clock_resolution = 64

abbrev pub frontier_clock_marks : ℕ
frontier_clock_marks = frontier_clock_resolution + 8

abbrev pub delivered_marks : ℕ
delivered_marks = 128

pub record FrontierMark : Type 0 where
  pub at : ℕ
  pub sequence : ℕ

pub record FrontierClock : Type 0 where
  pub marks : List FrontierMark
  pub pruned : Bool

abbrev pub new_clock : FrontierClock
new_clock = record { marks = []; pruned = false }

-- The last mark takes the sequence if it is within the resolution, or a mark is appended.
unfoldable pub mark_publication : List FrontierMark → ℕ → ℕ → ℕ → List FrontierMark
mark_publication [] now sequence resolution = record { at = now; sequence = sequence } ∷ []
mark_publication (m ∷ []) now sequence resolution =
    if ltb now (m.at + resolution)
    then (if ltb m.sequence sequence then record m { sequence = sequence } ∷ [] else m ∷ [])
    else m ∷ record { at = now; sequence = sequence } ∷ []
mark_publication (m ∷ n ∷ marks) now sequence resolution =
    m ∷ mark_publication (n ∷ marks) now sequence resolution

-- The loop over `drop`: how many marks have a next one that is a window old.
unfoldable pub old_marks : List FrontierMark → ℕ → ℕ → ℕ
old_marks [] now window = 0
old_marks (m ∷ []) now window = 0
old_marks (m ∷ n ∷ marks) now window =
    let rest = old_marks (n ∷ marks) now window in if leb (n.at + window) now then suc rest else 0

-- How many marks are dropped.
unfoldable pub dropped_marks : List FrontierMark → ℕ → ℕ → ℕ
dropped_marks marks now window =
    old_marks marks now window + (length marks - old_marks marks now window - frontier_clock_marks)

unfoldable pub observe : FrontierClock → ℕ → ℕ → ℕ → FrontierClock
observe clock now sequence window =
    let marks = mark_publication clock.marks now sequence (window / frontier_clock_resolution) in
    let n = dropped_marks marks now window in
    if ltb 0 n
    then record { marks = drop n marks; pruned = true }
    else record { marks = marks; pruned = clock.pruned }

-- The loop of `at`, from the last mark to the first.
unfoldable pub last_before : List FrontierMark → ℕ → ℕ → Option ℕ
last_before [] now window = none
last_before (m ∷ marks) now window = elim (last_before marks now window) [
  | some sequence ↦ some sequence
  | none ↦ if leb (m.at + window) now then some m.sequence else none
]

abbrev pub first_sequence : List FrontierMark → ℕ
first_sequence [] = 0
first_sequence (m ∷ marks) = m.sequence

-- `at` for the instant `window` before `now`.
unfoldable pub clock_at : FrontierClock → ℕ → ℕ → ℕ
clock_at clock now window = elim (last_before clock.marks now window) [
  | some sequence ↦ sequence
  | none ↦ if clock.pruned then first_sequence clock.marks else 0
]

-- The provider's clocks, by the key of the generation.
abbrev pub Clocks : Type 0
Clocks = ℕ → Option FrontierClock

abbrev pub set_clock : ℕ → Option FrontierClock → Clocks → Clocks
set_clock key clock clocks j = if j == key then clock else clocks j

abbrev pub clock_or_new : Option FrontierClock → FrontierClock
clock_or_new none = new_clock
clock_or_new (some clock) = clock

unfoldable pub observe_frontier : Clocks → ℕ → ℕ → ℕ → ℕ → Clocks
observe_frontier clocks key now sequence window =
    set_clock key (some (observe (clock_or_new (clocks key)) now sequence window)) clocks

unfoldable pub track_frontier : Clocks → ℕ → Clocks
track_frontier clocks key = set_clock key (some (clock_or_new (clocks key))) clocks

unfoldable pub required_consumption : Clocks → ℕ → ℕ → ℕ → Option ℕ
required_consumption clocks key now window = elim (clocks key) [
  | none ↦ none
  | some clock ↦ some (clock_at clock now window)
]

unfoldable pub forget_published : Clocks → ℕ → Clocks
forget_published clocks key = set_clock key none clocks

pub record DeliveredMark : Type 0 where
  pub frames : ℕ
  pub sequence : ℕ

-- `marks` is the array of the source, a ring of `delivered_marks` cells.
pub record InputFreshness : Type 0 where
  pub live : Bool
  pub key : ℕ
  pub marks : List DeliveredMark
  pub head : ℕ
  pub count : ℕ
  pub receipted : ℕ
  pub consumed : ℕ
  pub paused : Bool
  pub refused_at : ℕ

abbrev pub no_mark : DeliveredMark
no_mark = record { frames = 0; sequence = 0 }

abbrev pub new_freshness : InputFreshness
new_freshness = record {
  live = false;
  key = 0;
  marks = replicate delivered_marks no_mark;
  head = 0;
  count = 0;
  receipted = 0;
  consumed = 0;
  paused = false;
  refused_at = 0;
}

unfoldable pub start : InputFreshness → ℕ → InputFreshness
start fresh key = record fresh { live = true; key = key }

-- The cell at an index, which the callers keep below the size of the array.
abbrev pub mark_at : List DeliveredMark → ℕ → DeliveredMark
mark_at [] i = no_mark
mark_at (m ∷ marks) zero = m
mark_at (m ∷ marks) (suc i) = mark_at marks i

-- The loop of applyReceiptedLocked by the marks that are left: there are `count` at first.
unfoldable pub apply_receipted : ℕ → InputFreshness → InputFreshness
apply_receipted zero fresh = fresh
apply_receipted (suc left) fresh =
    let rest = apply_receipted left (record fresh {
      consumed = (mark_at fresh.marks fresh.head).sequence;
      head = (fresh.head + 1) % delivered_marks;
      count = fresh.count - 1;
    }) in
    if leb (mark_at fresh.marks fresh.head).frames fresh.receipted then rest else fresh

-- A mark behind the others, the oldest of which gives way where the ring is full.
unfoldable pub push_mark : InputFreshness → DeliveredMark → InputFreshness
push_mark fresh mark =
    if fresh.count == delivered_marks
    then record fresh {
      head = (fresh.head + 1) % delivered_marks;
      marks =
          set fresh.marks
            (((fresh.head + 1) % delivered_marks + (fresh.count - 1)) % delivered_marks) mark;
    }
    else record fresh {
      marks = set fresh.marks ((fresh.head + fresh.count) % delivered_marks) mark;
      count = fresh.count + 1;
    }

abbrev pub last_mark : InputFreshness → DeliveredMark
last_mark fresh = mark_at fresh.marks ((fresh.head + fresh.count - 1) % delivered_marks)

unfoldable pub delivered : InputFreshness → ℕ → ℕ → InputFreshness
delivered fresh frames sequence =
    if (ltb 0 fresh.count && leb sequence (last_mark fresh).sequence) || leb sequence fresh.consumed
    then fresh
    else let fresh' = push_mark fresh (record { frames = frames; sequence = sequence }) in
      apply_receipted fresh'.count fresh'

unfoldable pub receipt : InputFreshness → ℕ → ℕ → Bool × InputFreshness
receipt fresh frames written =
    if leb frames fresh.receipted || ltb written frames
    then (false, fresh)
    else (true, apply_receipted fresh.count (record fresh { receipted = frames }))

abbrev pub is_current : InputFreshness → Option ℕ → Bool
is_current fresh none = false
is_current fresh (some sequence) = leb sequence fresh.consumed

-- `admit`, with what `required` returns for the key: whether the input is accepted, and whether this
-- refusal began a pause.
unfoldable pub admit : InputFreshness → ℕ → ℕ → Option ℕ → Bool × Bool × InputFreshness
admit fresh now quiet required =
    if not fresh.live
    then (true, false, fresh)
    else if fresh.paused
    then (if is_current fresh required && leb (fresh.refused_at + quiet) now
        then (true, false, record fresh { paused = false })
        else (false, false, record fresh { refused_at = now }))
    else if not (is_current fresh required)
    then (false, true, record fresh { paused = true; refused_at = now })
    else (true, false, fresh)
