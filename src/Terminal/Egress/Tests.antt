-- ===== src/Terminal/Egress/Tests.antt =====
-- An egress that admits two payloads and writes the first.
use persea_terminal.Base.{
  ℕ, ◌+◌, ◌≤◌, ◌≡◌, refl, Bool, true, false, Option, none, some, List, [], ◌∷◌, ◌++◌, ltb, ◌==◌,
  if◌then◌else◌, length,
}
use persea_terminal.Terminal.Egress.{
  max_egress_frames, max_egress_queue_bytes, invalid, running, new_egress, frames_in_flight,
  total_bytes, admit, signal, encode_frames, enqueue_batch, pump_wakes, pump_takes, pump_settles,
}
use persea_terminal.Terminal.Egress.World.{
  World, Reach, starts, admits, signals, wakes, takes, settles, payloads_in_flight,
}
use persea_terminal.Terminal.Egress.Order.{Reach-prefix, Reach-fifo, Reach-limits, Reach-awake}

-- Frames are numbers: those above 9 are invalid, and 5 is LIVE.
abbrev is_valid : ℕ → Option ℕ
is_valid n = if ltb 9 n then some 1 else none

abbrev five : ℕ → Bool
five n = n == 5

abbrev wire : ℕ → Option (List ℕ)
wire n = some (n ∷ n ∷ [])

batch_skips_live :
    (enqueue_batch is_valid five wire (new_egress true) (1 ∷ 5 ∷ 2 ∷ [])).1.queue
    ≡ (1 ∷ 1 ∷ []) ∷ (2 ∷ 2 ∷ []) ∷ []
unfolding enqueue_batch encode_frames admit
batch_skips_live = refl

batch_all_or_none :
    enqueue_batch is_valid five wire (new_egress false) (1 ∷ 12 ∷ [])
    ≡ (some (invalid 1), new_egress false)
unfolding enqueue_batch encode_frames admit
batch_all_or_none = refl

abbrev half_written : World
half_written = record {
  egress = record (new_egress false) {
    queue = (2 ∷ 2 ∷ []) ∷ [];
    queued_bytes = 2;
    pump = running;
  };
  admitted = (1 ∷ 1 ∷ []) ∷ (2 ∷ 2 ∷ []) ∷ [];
  written = (1 ∷ 1 ∷ []) ∷ [];
  owed = 0;
}

half_written-Reach : Reach half_written
unfolding admit signal pump_wakes pump_takes pump_settles
half_written-Reach =
    settles (1 ∷ 1 ∷ []) false
      (takes
        (wakes (signals 0 (admits ((1 ∷ 1 ∷ []) ∷ (2 ∷ 2 ∷ []) ∷ []) (starts false)) refl) refl
          refl)
        refl)
      refl

abbrev all_written : World
all_written = record {
  egress = new_egress false;
  admitted = (1 ∷ 1 ∷ []) ∷ (2 ∷ 2 ∷ []) ∷ [];
  written = (1 ∷ 1 ∷ []) ∷ (2 ∷ 2 ∷ []) ∷ [];
  owed = 0;
}

all_written-Reach : Reach all_written
unfolding pump_takes pump_settles
all_written-Reach = takes (settles (2 ∷ 2 ∷ []) false (takes half_written-Reach refl) refl) refl

writes_a_prefix : (rest : List (List ℕ)) × (half_written.admitted ≡ half_written.written ++ rest)
writes_a_prefix = Reach-prefix half_written-Reach

Reach-fifo_example :
    half_written.admitted
    ≡ half_written.written
      ++ (payloads_in_flight half_written.egress.pump ++ half_written.egress.queue)
Reach-fifo_example = Reach-fifo half_written-Reach refl

stays_limited :
    (half_written.egress.queued_bytes
      ≡ total_bytes half_written.egress.queue
        + total_bytes (payloads_in_flight half_written.egress.pump))
    × (half_written.egress.queued_bytes ≤ max_egress_queue_bytes)
    × (length half_written.egress.queue + frames_in_flight half_written.egress.pump
        ≤ max_egress_frames)
stays_limited = Reach-limits half_written-Reach

Reach-awake_example : (all_written.egress.queue ≡ []) × (all_written.egress.closing ≡ false)
Reach-awake_example = Reach-awake all_written-Reach refl refl refl
