-- ===== src/Terminal/Egress.antt =====
-- internal/terminal/egress.go: the queue of encoded frames, and the goroutine of `pump` as steps
-- between its locks. Validate and json.Marshal are parameters, as is which frames are LIVE. The
-- contexts, the deadlines and the closing of the writer are left out.
pub mod World
pub mod Order
mod Tests
use persea_terminal.Base.{
  ℕ, ◌+◌, ◌-◌, ◌*◌, Bool, true, false, ◌&&◌, ◌||◌, Option, none, some, List, [], ◌∷◌, ◌++◌, ltb,
  ◌==◌, if◌then◌else◌, length,
}

abbrev pub max_egress_frames : ℕ
max_egress_frames = 64

abbrev pub max_egress_queue_bytes : ℕ
max_egress_queue_bytes = 16 * 1024 * 1024

pub data EgressError : Type 0 where
  malformed closed_egress saturated marshal_failed : EgressError
  invalid : ℕ → EgressError

-- Where `pump` is: at the receive of `wake`, at the top of its inner loop, in WriteFrame with a
-- payload, or returned.
pub data Pump : Type 0 where
  waiting running stopped : Pump
  writing : List ℕ → Pump

-- `wake` is the token of the channel of that name, and `in_flight` of the source holds exactly while
-- the pump is writing.
pub record Egress : Type 0 where
  pub owns_output : Bool
  pub queue : List (List ℕ)
  pub queued_bytes : ℕ
  pub closed : Bool
  pub closing : Bool
  pub failed : Bool
  pub wake : Bool
  pub pump : Pump

abbrev pub new_egress : Bool → Egress
new_egress owns_output = record {
  owns_output = owns_output;
  queue = [];
  queued_bytes = 0;
  closed = false;
  closing = false;
  failed = false;
  wake = false;
  pump = waiting;
}

abbrev pub frames_in_flight : Pump → ℕ
frames_in_flight (writing payload) = 1
frames_in_flight waiting = 0
frames_in_flight running = 0
frames_in_flight stopped = 0

abbrev pub total_bytes : List (List ℕ) → ℕ
total_bytes [] = 0
total_bytes (payload ∷ payloads) = length payload + total_bytes payloads

unfoldable pub admit : Egress → List (List ℕ) → Option EgressError × Egress
admit e [] = if e.closed then (some closed_egress, e) else (none, e)
admit e (payload ∷ payloads) =
    if e.closed
    then (some closed_egress, e)
    else if ltb (max_egress_queue_bytes - e.queued_bytes) (total_bytes (payload ∷ payloads))
        || ltb max_egress_frames
            (length e.queue + frames_in_flight e.pump + length (payload ∷ payloads))
    then (some saturated, e)
    else (
      none,
      record e {
        queue = e.queue ++ (payload ∷ payloads);
        queued_bytes = e.queued_bytes + total_bytes (payload ∷ payloads);
      },
    )

module _ {Frame : Type 0} (validate : Frame → Option ℕ) (is_live : Frame → Bool)
    (marshal : Frame → Option (List ℕ)) where
  -- The payloads of the frames, or the error of the first that fails.
  unfoldable pub encode_frames : Bool → List Frame → Option EgressError × List (List ℕ)
  encode_frames owns_output [] = (none, [])
  encode_frames owns_output (f ∷ frames) =
      let (error, payloads) = encode_frames owns_output frames in
      elim (validate f) [
        | some code ↦ (some (invalid code), [])
        | none ↦ if owns_output && is_live f then (error, payloads) else (elim (marshal f) [
          | none ↦ (some marshal_failed, [])
          | some payload ↦ (error, payload ∷ payloads)
        ])
      ]

  unfoldable pub enqueue_batch : Egress → List Frame → Option EgressError × Egress
  enqueue_batch e frames =
      if length frames == 0 || ltb max_egress_frames (length frames)
      then (some malformed, e)
      else let (error, payloads) = encode_frames e.owns_output frames in
        elim error [ some code ↦ (some code, e) | none ↦ admit e payloads ]

-- The lock at the beginning of `finishAndWait`.
unfoldable pub finish : Egress → Egress
finish e = record e { closed = true; closing = true }

-- Called by `admit` for some payloads, and by `finish`, when they have given their lock back.
unfoldable pub signal : Egress → Egress
signal e = record e { wake = true }

-- The receive of a token.
unfoldable pub pump_wakes : Egress → Egress
pump_wakes e = record e { wake = false; pump = running }

-- The first lock of the inner loop.
unfoldable pub pump_takes : Egress → Egress
pump_takes e = elim e.queue [
  | [] ↦ record e { pump = if e.closing then stopped else waiting }
  | payload ∷ payloads ↦ record e { queue = payloads; pump = writing payload }
]

-- The second lock, behind WriteFrame, which returned an error or not.
unfoldable pub pump_settles : Egress → List ℕ → Bool → Egress
pump_settles e payload false = record e {
  queued_bytes = e.queued_bytes - length payload;
  pump = running;
}
pump_settles e payload true = record e {
  queued_bytes = e.queued_bytes - length payload - total_bytes e.queue;
  queue = [];
  closed = true;
  closing = true;
  failed = true;
  pump = stopped;
}
