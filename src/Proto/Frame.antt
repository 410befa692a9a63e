-- ===== src/Proto/Frame.antt =====
-- internal/proto/frame.go: frames of one type byte, a big-endian length and a payload.
-- A reader is the list of the bytes that it still delivers before its end. A writer is the list of
-- its answers to the calls of Write that follow: how many bytes it accepts, or a failure.
pub mod Writes
pub mod Reads
pub mod RoundTrip
mod Tests
use persea_terminal.Base.{
  ℕ, ◌+◌, ◌*◌, ◌/◌, ◌%◌, ◌^◌, Bool, true, false, not, Option, none, some, List, [], ◌∷◌, ◌++◌, ltb,
  leb, ◌==◌, if◌then◌else◌, length, take, drop, get_or,
}

pub record Frame : Type 0 where
  pub frame_type : ℕ
  pub payload : List ℕ

abbrev pub frame_control : ℕ
frame_control = 0x01

abbrev pub frame_data : ℕ
frame_data = 0x02

abbrev pub frame_input : ℕ
frame_input = 0x03

abbrev pub frame_attachment : ℕ
frame_attachment = 0x04

abbrev pub frame_image : ℕ
frame_image = 0x05

abbrev pub max_control : ℕ
max_control = 64 * 1024

abbrev pub max_data : ℕ
max_data = 32 * 1024

abbrev pub max_input : ℕ
max_input = 8 * 1024

abbrev pub max_attachment : ℕ
max_attachment = 16777216

abbrev pub max_image : ℕ
max_image = 10485760

unfoldable pub limit_for : ℕ → ℕ × Bool
limit_for t =
    if t == frame_control
    then (max_control, true)
    else if t == frame_data
    then (max_data, true)
    else if t == frame_input
    then (max_input, true)
    else if t == frame_attachment
    then (max_attachment, true)
    else if t == frame_image
    then (max_image, true)
    else (0, false)

-- `binary.BigEndian.Uint32` and `PutUint32`.
unfoldable pub be_uint32 : List ℕ → ℕ
be_uint32 b = get_or b 0 0 * 2 ^ 24 + get_or b 1 0 * 2 ^ 16 + get_or b 2 0 * 2 ^ 8 + get_or b 3 0

unfoldable pub put_uint32 : ℕ → List ℕ
put_uint32 n = (n / 2 ^ 24 % 256) ∷ (n / 2 ^ 16 % 256) ∷ (n / 2 ^ 8 % 256) ∷ (n % 256) ∷ []

pub data ReadError : Type 0 where
  eof unexpected_eof unknown_type too_long : ReadError
  not_admitted reader_failed : ℕ → ReadError

pub data Result {ℓ} (E : Type 0) (A : Type ℓ) : Type ℓ where
  ok : A → Result E A
  err : E → Result E A

-- A reader is the bytes that it still delivers, and how it answers behind them: `none` is the end of
-- the stream, `some e` another error, such as a deadline that passes.
abbrev pub Failure : Type 0
Failure = Option ℕ

-- The error of `io.ReadFull` for a reader that delivers too few bytes.
abbrev pub short_read : Failure → List ℕ → ReadError
short_read (some e) s = reader_failed e
short_read none [] = eof
short_read none (b ∷ s) = unexpected_eof

-- `io.ReadFull` for `n` bytes, with what the reader delivers afterwards.
unfoldable pub read_full : Failure → ℕ → List ℕ → Result ReadError (List ℕ) × List ℕ
read_full failure n s =
    if leb n (length s) then (ok (take n s), drop n s) else (err (short_read failure s), [])

-- `admit` is the receiver's admission, if there is one; its error is a number.
abbrev pub Admission : Type 0
Admission = Option (ℕ → ℕ → Option ℕ)

abbrev pub admission : Admission → ℕ → ℕ → Option ℕ
admission none t n = none
admission (some admit) t n = admit t n

-- The second half of `ReadFrameWithAdmission`: the payload, once the header is admitted.
unfoldable pub read_payload : Failure → ℕ → ℕ → List ℕ → Result ReadError Frame × List ℕ
read_payload failure t n s =
    let (body, s') = read_full failure n s in
    (
      (elim body [
        | ok payload ↦ ok (record { frame_type = t; payload = payload })
        | err e ↦ err e
      ]),
      s',
    )

-- The first half, on a header that was read.
unfoldable pub read_checked :
    Failure → Admission → List ℕ → List ℕ → Result ReadError Frame × List ℕ
read_checked failure admit header s =
    let t = get_or header 0 0 in
    let (limit, known) = limit_for t in
    let n = be_uint32 (drop 1 header) in
    if not known
    then (err unknown_type, s)
    else if ltb limit n
    then (err too_long, s)
    else (elim (admission admit t n) [
      | some e ↦ (err (not_admitted e), s)
      | none ↦ read_payload failure t n s
    ])

unfoldable pub read_frame_with_admission :
    Failure → Admission → List ℕ → Result ReadError Frame × List ℕ
read_frame_with_admission failure admit s =
    let (head, s') = read_full failure 5 s in
    elim head [ ok header ↦ read_checked failure admit header s' | err e ↦ (err e, s') ]

unfoldable pub read_frame : Failure → List ℕ → Result ReadError Frame × List ℕ
unfolding read_frame_with_admission
read_frame failure s = read_frame_with_admission failure none s

-- An answer of `Write`: a count of bytes accepted, or an error.
pub data WriteAnswer : Type 0 where
  accepts : ℕ → WriteAnswer
  fails : WriteAnswer

-- `blocked` is a writer with no answer left, `panics` one that accepts more than it was given.
pub data WriteOutcome : Type 0 where
  written write_failed short_write blocked panics bad_type bad_length : WriteOutcome

-- What came of it, the bytes that went out, and the answers that are left.
abbrev pub Sent : Type 0
Sent = WriteOutcome × List ℕ × List WriteAnswer

-- The loop of `writeAll`, by the writer's answers; `out` is what it has sent.
unfoldable pub write_all : List WriteAnswer → List ℕ → List ℕ → Sent
write_all answers [] out = (written, out, answers)
write_all [] (b ∷ p) out = (blocked, out, [])
write_all (fails ∷ answers) (b ∷ p) out = (write_failed, out, answers)
write_all (accepts n ∷ answers) (b ∷ p) out =
    let rest = write_all answers (drop n (b ∷ p)) (out ++ take n (b ∷ p)) in
    if n == 0
    then (short_write, out, answers)
    else if ltb (length (b ∷ p)) n
    then (panics, out, answers)
    else rest

-- `WriteFrame` after the header: the payload follows if the header went out.
unfoldable pub then_payload : Sent → List ℕ → Sent
then_payload (written, out, answers) payload = write_all answers payload out
then_payload (other, out, answers) payload = (other, out, answers)

abbrev pub header_of : ℕ → ℕ → List ℕ
header_of t n = t ∷ put_uint32 (n % 2 ^ 32)

unfoldable pub write_frame : List WriteAnswer → ℕ → List ℕ → Sent
write_frame answers t payload =
    let (limit, known) = limit_for t in
    if not known
    then (bad_type, [], answers)
    else if ltb limit (length payload)
    then (bad_length, [], answers)
    else then_payload (write_all answers (header_of t (length payload)) []) payload
