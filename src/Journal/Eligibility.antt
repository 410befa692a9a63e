-- ===== src/Journal/Eligibility.antt =====
-- internal/unifiedjournal/eligibility.go: the tracker of a pane's committed bytes, and the sequencer in
-- front of a journal. Offsets are natural numbers. The sink and the feed of a sequencer are parameters:
-- what they do to the state of the journal and of the reader, of a type that is a parameter too, and
-- `none` or false for an error.
pub mod Ranges
pub mod Writes
mod Tests
use persea_terminal.Base.{
  ℕ, Bool, true, false, not, ◌&&◌, ◌||◌, Option, none, some, List, ltb, ◌==◌, if◌then◌else◌,
}

pub data EligibilityState : Type 0 where
  legacy continuous untrusted : EligibilityState

pub data InvalidationReason : Type 0 where
  no_reason control_paused control_disconnected decoder_ambiguous source_replacement :
      InvalidationReason
  quota no_space corrupt_journal volatile_restart journal_gap : InvalidationReason
  adoption_aborted physical_quota : InvalidationReason

-- A kind of admission, or any other value of its type.
pub data AdmissionKind : Type 0 where
  observed_before_first_byte existing_pane reconstructed_pane : AdmissionKind
  after_broker_restart other_admission : AdmissionKind

pub record EligibilityTracker : Type 0 where
  pub state : EligibilityState
  pub reason : InvalidationReason
  pub committed : ℕ

abbrev pub is_observed_first : AdmissionKind → Bool
is_observed_first observed_before_first_byte = true
is_observed_first existing_pane = false
is_observed_first reconstructed_pane = false
is_observed_first after_broker_restart = false
is_observed_first other_admission = false

abbrev pub is_continuous : EligibilityState → Bool
is_continuous continuous = true
is_continuous legacy = false
is_continuous untrusted = false

abbrev pub is_untrusted : EligibilityState → Bool
is_untrusted untrusted = true
is_untrusted legacy = false
is_untrusted continuous = false

-- The kind and the start of an admission, whose key nothing reads.
unfoldable pub new_eligibility : AdmissionKind → ℕ → EligibilityTracker
new_eligibility kind journal_start = record {
  state = if is_observed_first kind && journal_start == 0 then continuous else legacy;
  reason = no_reason;
  committed = journal_start;
}

unfoldable pub is_unified_eligible : EligibilityTracker → Bool
is_unified_eligible t = is_continuous t.state

unfoldable pub invalidate : EligibilityTracker → InvalidationReason → EligibilityTracker
invalidate t reason =
    if is_untrusted t.state then t else record t { state = untrusted; reason = reason }

pub data RangeError : Type 0 where
  range_invalidated range_gap : RangeError

unfoldable pub observe_committed_range :
    EligibilityTracker → ℕ → ℕ → Option RangeError × EligibilityTracker
observe_committed_range t first last =
    if is_untrusted t.state
    then (some range_invalidated, t)
    else if not (is_continuous t.state) || not (first == t.committed) || ltb last first
    then (some range_gap, invalidate t journal_gap)
    else (none, record t { committed = last })

-- The interface WriteAhead on a state S, with records R and keys K.
pub record WriteAhead (S K R : Type 0) : Type 0 where
  pub append : S → K → List ℕ → Option R × S
  pub sync : S → K → Bool × S
  pub advance_committed : S → K → R → Bool × S

abbrev pub FeedFunc : Type 0 → Type 0 → Type 0 → Type 0
FeedFunc S K R = S → K → R → List ℕ → Bool × S

pub record Sequencer (S K R : Type 0) : Type 0 where
  pub sink : Option (WriteAhead S K R)
  pub feed : Option (FeedFunc S K R)
  pub failed : Bool

pub data WriteError : Type 0 where
  write_invalidated write_storage : WriteError

-- What a write returns.
pub data Written (R : Type 0) : Type 0 where
  fails : WriteError → Written R
  returns : R → Written R

-- A call that is skipped after an error.
abbrev pub if_ok : {S : Type 0} → Bool × S → (S → Bool × S) → Bool × S
if_ok (false, s) call = (false, s)
if_ok (true, s) call = call s

abbrev pub record_if : {S R : Type 0} → R → Bool × S → Option R × S
record_if r (true, s) = (some r, s)
record_if r (false, s) = (none, s)

abbrev pub with_record : {S R : Type 0} → Option R × S → (R → S → Bool × S) → Option R × S
with_record (none, s) calls = (none, s)
with_record (some r, s) calls = record_if r (calls r s)

module _ {S K R : Type 0} where
  abbrev pub new_sequencer : Option (WriteAhead S K R) → Option (FeedFunc S K R) → Sequencer S K R
  new_sequencer sink feed = record { sink = sink; feed = feed; failed = false }

  -- The four calls of a write.
  unfoldable pub write_through : WriteAhead S K R → FeedFunc S K R → S → K → List ℕ → Option R × S
  write_through sink feed s key payload = with_record (sink.append s key payload) (λ r s'.
      if_ok (if_ok (sink.sync s' key) (λ s''. sink.advance_committed s'' key r))
        (λ s''. feed s'' key r payload))

  abbrev pub settled : Sequencer S K R → Option R × S → Written R × Sequencer S K R × S
  settled q (none, s) = (fails write_storage, record q { failed = true }, s)
  settled q (some r, s) = (returns r, q, s)

  abbrev pub write_configured :
      Sequencer S K R
      → Option (WriteAhead S K R)
      → Option (FeedFunc S K R)
      → S
      → K
      → List ℕ
      → Written R × Sequencer S K R × S
  write_configured q none feed s key payload = (fails write_storage, record q { failed = true }, s)
  write_configured q (some sink) none s key payload =
      (fails write_storage, record q { failed = true }, s)
  write_configured q (some sink) (some feed) s key payload =
      settled q (write_through sink feed s key payload)

  unfoldable pub write_record : Sequencer S K R → S → K → List ℕ → Written R × Sequencer S K R × S
  write_record q s key payload =
      if q.failed
      then (fails write_invalidated, q, s)
      else write_configured q q.sink q.feed s key payload
