-- ===== src/ControlMode/Decoder.antt =====
-- `Decoder` of internal/controlmode/decoder.go as `NewDecoder` makes it: without a Memory. The
-- capacity of its buffer, which only a Memory is told of, is left out.
pub mod Chunks
pub mod Stream
mod Tests
use persea_terminal.Base.{
  ℕ, zero, suc, ◌+◌, ◌-◌, ◌^◌, Bool, true, false, not, ◌||◌, Option, none, some, List, [], ◌∷◌,
  ◌++◌, ltb, if◌then◌else◌, length, take, drop,
}
use persea_terminal.ControlMode.Bytes.{index_byte}
use persea_terminal.ControlMode.Line.{Event, CommandWitness, Decoded, decode_line}

abbrev pub max_control_record_bytes : ℕ
max_control_record_bytes = 16777216

-- The greatest int.
abbrev pub max_int : ℕ
max_int = 2 ^ 63 - 1

pub record Decoder : Type 0 where
  pub buffer : List ℕ
  pub failed : Bool
  pub command : Option CommandWitness

abbrev pub new_decoder : Decoder
new_decoder = record { buffer = []; failed = false; command = none }

unfoldable pub fail : Decoder → Decoder
fail d = record d { failed = true; buffer = [] }

-- How the loop of `feed` ends: with the events, the open command and what is left of the buffer, or
-- with a failure and the command that was open then.
pub data Scan : Type 0 where
  scanned : List Event → Option CommandWitness → List ℕ → Scan
  broken : Option CommandWitness → Scan

abbrev pub before : List Event → Scan → Scan
before events (scanned more command rest) = scanned (events ++ more) command rest
before events (broken command) = broken command

-- One round of the loop behind a line: its event goes before those of the rest.
abbrev pub decoded_then : Option CommandWitness → Decoded → (Option CommandWitness → Scan) → Scan
decoded_then command none rest = broken command
decoded_then command (some (event, next)) rest = before (event ∷ []) (rest next)

-- The loop of `feed` over the buffer, on fuel that `Chunks.scan_fuel` shows to be enough when there
-- is more of it than bytes.
unfoldable pub scan : ℕ → Option CommandWitness → List ℕ → Scan
scan zero command buffer = broken command
scan (suc fuel) command buffer = elim (index_byte buffer 10) [
  | none ↦
      if ltb max_control_record_bytes (length buffer)
      then broken command
      else scanned [] command buffer
  | some newline ↦
      let rest : Scan =
        decoded_then command (decode_line command (take newline buffer))
          (λ next. scan fuel next (drop (newline + 1) buffer)) in
      if ltb max_control_record_bytes newline then broken command else rest
]

-- `none` stands for ErrDecoderFailed.
unfoldable pub settle_scan : Decoder → Scan → Option (List Event) × Decoder
settle_scan d (scanned events command rest) =
    (some events, record d { buffer = rest; command = command })
settle_scan d (broken command) = (none, fail (record d { command = command }))

unfoldable pub feed : Decoder → List ℕ → Option (List Event) × Decoder
feed d input =
    if d.failed
    then (none, d)
    else if ltb (max_int - length d.buffer) (length input)
    then (none, fail d)
    else settle_scan d (scan (length (d.buffer ++ input) + 1) d.command (d.buffer ++ input))

abbrev pub is_empty : List ℕ → Bool
is_empty [] = true
is_empty (b ∷ s) = false

abbrev pub is_open : Option CommandWitness → Bool
is_open none = false
is_open (some w) = true

-- Whether `Close` returns no error, and the decoder after it.
unfoldable pub close : Decoder → Bool × Decoder
close d =
    if d.failed
    then (false, d)
    else if not (is_empty d.buffer) || is_open d.command
    then (false, fail d)
    else (true, d)
