-- ===== src/Proto/Frame/Tests.antt =====
-- Concrete frames.
use persea_terminal.Base.{ℕ, ◌≡◌, refl, ap, inr, none, some, List, [], ◌∷◌, ◌++◌, arith}
use persea_terminal.Proto.Frame.{
  limit_for, put_uint32, be_uint32, too_long, reader_failed, ok, err, read_full, read_payload,
  read_checked, read_frame, read_frame_with_admission, WriteAnswer, accepts, fails, written,
  write_all, then_payload, write_frame,
}
use persea_terminal.Proto.Frame.Reads.{
  FrameRead, ReadFailure, read_frame-FrameRead, read_frame-ReadFailure,
}
use persea_terminal.Proto.Frame.Writes.{write_all-Serves, FrameSent, write_frame-FrameSent}
use persea_terminal.Proto.Frame.RoundTrip.{read_frame-write_frame}

-- Two bytes of data in two pieces for the header and one for the payload.
abbrev pieces : List WriteAnswer
pieces = accepts 3 ∷ accepts 2 ∷ accepts 2 ∷ fails ∷ []

abbrev wire : List ℕ
wire = 2 ∷ 0 ∷ 0 ∷ 0 ∷ 2 ∷ 104 ∷ 105 ∷ []

abbrev greeting : List ℕ
greeting = 104 ∷ 105 ∷ []

sends_greeting : write_frame pieces 2 greeting ≡ (written, wire, fails ∷ [])
unfolding write_frame limit_for put_uint32 write_all then_payload
sends_greeting = refl

reads_greeting :
    read_frame none (wire ++ (9 ∷ []))
    ≡ (ok (record { frame_type = 2; payload = greeting }), 9 ∷ [])
unfolding read_frame read_frame_with_admission read_full read_checked read_payload limit_for
    be_uint32
reads_greeting = refl

-- Input frames hold 8 KiB at most.
rejects_long : read_frame none (3 ∷ 0 ∷ 0 ∷ 32 ∷ 1 ∷ 7 ∷ []) ≡ (err too_long, 7 ∷ [])
unfolding read_frame read_frame_with_admission read_full read_checked read_payload limit_for
    be_uint32
rejects_long = refl

read_frame-write_frame_example :
    read_frame_with_admission none none ((write_frame pieces 2 greeting).1 ++ (9 ∷ []))
    ≡ (ok (record { frame_type = 2; payload = greeting }), 9 ∷ [])
unfolding write_frame limit_for put_uint32 write_all then_payload
read_frame-write_frame_example =
    read_frame-write_frame none none pieces 2 greeting (9 ∷ []) refl refl

read_frame-FrameRead_example :
    FrameRead none (wire ++ (9 ∷ [])) (record { frame_type = 2; payload = greeting }) (9 ∷ [])
unfolding read_frame
read_frame-FrameRead_example =
    read_frame-FrameRead none none (wire ++ (9 ∷ []))
      (record { frame_type = 2; payload = greeting }) (9 ∷ []) reads_greeting

-- A deadline passes in the middle of a body of two bytes.
deadline_in_body : read_frame (some 7) (2 ∷ 0 ∷ 0 ∷ 0 ∷ 2 ∷ 104 ∷ []) ≡ (err (reader_failed 7), [])
unfolding read_frame read_frame_with_admission read_full read_checked read_payload limit_for
    be_uint32
deadline_in_body = refl

read_frame-ReadFailure_example :
    ReadFailure (some 7) none (2 ∷ 0 ∷ 0 ∷ 0 ∷ 2 ∷ 104 ∷ []) (reader_failed 7) []
unfolding read_frame
read_frame-ReadFailure_example =
    read_frame-ReadFailure (some 7) none (2 ∷ 0 ∷ 0 ∷ 0 ∷ 2 ∷ 104 ∷ []) (reader_failed 7) []
      deadline_in_body

write_all-Serves_example :
    ((write_all pieces wire []).0 ≡ written) × ((write_all pieces wire []).1 ≡ [] ++ wire)
write_all-Serves_example = write_all-Serves pieces wire [] (
    inr (
      omega arith,
      omega arith,
      inr (omega arith, omega arith, inr (omega arith, omega arith, omega arith)),
    ))

write_frame-FrameSent_example : FrameSent 2 greeting (write_frame pieces 2 greeting).1
write_frame-FrameSent_example =
    write_frame-FrameSent pieces 2 greeting (ap (λ s. s.0) sends_greeting)
