-- ===== src/Journal/Eligibility/Tests.antt =====
-- A tracker and a sequencer on a journal that is a list, and the theorems at them.
use persea_terminal.Base.{ℕ, ◌≡◌, refl, true, false, none, some, List, [], ◌∷◌, length}
use persea_terminal.Journal.Eligibility.{
  write_through, EligibilityTracker, observed_before_first_byte, new_eligibility,
  observe_committed_range, is_unified_eligible, invalidate, WriteAhead, FeedFunc, Sequencer,
  returns, fails, write_storage, new_sequencer, write_record, continuous, no_reason,
}
use persea_terminal.Journal.Eligibility.Ranges.{Reach, IsTracked, Reach-IsTracked}
use persea_terminal.Journal.Eligibility.Writes.{Succeeds, write_record-Succeeds}

abbrev at_seven : EligibilityTracker
at_seven = record { state = continuous; reason = no_reason; committed = 7 }

commits_seven :
    observe_committed_range (new_eligibility observed_before_first_byte 0) 0 7 ≡ (none, at_seven)
unfolding observe_committed_range new_eligibility
commits_seven = refl

gap_invalidates : is_unified_eligible (observe_committed_range at_seven 8 9).1 ≡ false
unfolding is_unified_eligible observe_committed_range invalidate
gap_invalidates = refl

Reach-IsTracked_example : IsTracked observed_before_first_byte 0 at_seven ((0, 7) ∷ [])
Reach-IsTracked_example = Reach-IsTracked (Reach.accepts 0 7 Reach.admits commits_seven)

-- A journal of payloads whose record is its length, and a feed that takes everything.
abbrev list_journal : WriteAhead (List (List ℕ)) ℕ ℕ
list_journal = record {
  append = λ s key payload. (some (length s), payload ∷ s);
  sync = λ s key. (true, s);
  advance_committed = λ s key r. (true, s);
}

abbrev open_feed : FeedFunc (List (List ℕ)) ℕ ℕ
open_feed s key r payload = (true, s)

abbrev closed_feed : FeedFunc (List (List ℕ)) ℕ ℕ
closed_feed s key r payload = (false, s)

abbrev healthy : Sequencer (List (List ℕ)) ℕ ℕ
healthy = new_sequencer (some list_journal) (some open_feed)

writes_payload : write_record healthy [] 1 (5 ∷ []) ≡ (returns 0, healthy, (5 ∷ []) ∷ [])
unfolding write_record write_through
writes_payload = refl

feed_error_fails :
    (write_record (new_sequencer (some list_journal) (some closed_feed)) [] 1 (5 ∷ [])).0
    ≡ fails write_storage
unfolding write_record write_through
feed_error_fails = refl

write_record-Succeeds_example :
    (healthy.failed ≡ false)
    × Succeeds healthy [] 1 (5 ∷ []) 0 ((5 ∷ []) ∷ [])
    × (healthy ≡ healthy)
write_record-Succeeds_example =
    write_record-Succeeds healthy healthy [] ((5 ∷ []) ∷ []) 1 (5 ∷ []) 0 writes_payload
