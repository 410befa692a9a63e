-- ===== src/Proto/Frame/RoundTrip.antt =====
-- What one end writes, the other reads.
use persea_terminal.Base.{
  ℕ, ◌%◌, ◌^◌, ◌≤◌, ◌<◌, ◌≡◌, true, none, List, ◌++◌, append_assoc, arith, length,
}
use persea_terminal.Proto.Frame.{
  Failure, limit_for, put_uint32, ok, Admission, admission, read_full, read_payload, read_checked,
  read_frame_with_admission, WriteAnswer, written, write_frame, header_of,
}
use persea_terminal.Proto.Frame.Reads.{limit_for-lt, be_uint32-put_uint32, read_full-append}
use persea_terminal.Proto.Frame.Writes.{write_frame-FrameSent}

read_full-header :
    (failure : Failure) (t n : ℕ) (s : List ℕ)
    → read_full failure 5 (header_of t n ++ s) ≡ (ok (header_of t n), s)
unfolding put_uint32
read_full-header failure t n s = read_full-append failure (header_of t n) s

read_checked-header :
    (failure : Failure) (admit : Admission) (t : ℕ) (payload rest : List ℕ)
    → (limit_for t).1 ≡ true
    → length payload ≤ (limit_for t).0
    → admission admit t (length payload) ≡ none
    → read_checked failure admit (header_of t (length payload)) (payload ++ rest)
      ≡ (ok (record { frame_type = t; payload = payload }), rest)
unfolding read_checked read_payload
read_checked-header failure admit t payload rest known within admitted =
    let fits : length payload < 2 ^ 32 = omega (arith, limit_for-lt t) in
    let same : length payload % 2 ^ 32 ≡ length payload = omega arith in
    ground (
      arith,
      same,
      be_uint32-put_uint32 (length payload) fits,
      read_full-append failure payload rest,
    )

-- A frame that `WriteFrame` reports as written, through whatever pieces the writer accepts, is read
-- back whole by `ReadFrameWithAdmission` when its admission passes, with the reader left just behind
-- it.
pub read_frame-write_frame :
    (failure : Failure) (admit : Admission) (answers : List WriteAnswer) (t : ℕ)
    (payload rest : List ℕ)
    → (write_frame answers t payload).0 ≡ written
    → admission admit t (length payload) ≡ none
    → read_frame_with_admission failure admit ((write_frame answers t payload).1 ++ rest)
      ≡ (ok (record { frame_type = t; payload = payload }), rest)
unfolding read_frame_with_admission
read_frame-write_frame failure admit answers t payload rest h admitted =
    let sent = write_frame-FrameSent answers t payload h in
    rw (sent.bytes, append_assoc (header_of t (length payload)) payload rest)
      (ground (
        arith,
        read_full-header failure t (length payload) (payload ++ rest),
        read_checked-header failure admit t payload rest sent.known sent.within admitted,
      ))
