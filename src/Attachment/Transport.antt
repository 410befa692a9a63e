-- ===== src/Attachment/Transport.antt =====
-- The reserved frames of internal/attachmentwire (transport_flow.go, transport_input.go,
-- transport_liveness.go, transport_refusal.go), and the codes of internal/proto/attachment_errors.go
-- that they carry. A byte string is the list of its bytes. What Go's bytes, strconv and regexp do for
-- these calls is written out here and in ControlMode.Bytes.
pub mod Decimals
pub mod Reserved
pub mod Acks
pub mod Inputs
mod Tests
use persea_terminal.Base.{
  ℕ, zero, suc, ◌+◌, ◌/◌, ◌%◌, Bool, true, false, not, ◌&&◌, ◌||◌, Option, none, some, List, [],
  ◌∷◌, ◌++◌, ltb, leb, ◌==◌, if◌then◌else◌, length, take, drop, get_or,
}
use persea_terminal.ControlMode.Bytes.{codes, bytes_equal, has_prefix, index_byte, parse_uint64}

-- A direction, or any other value of its type.
pub data Direction : Type 0 where
  server_to_browser browser_to_server other_direction : Direction

abbrev pub is_server_to_browser : Direction → Bool
is_server_to_browser server_to_browser = true
is_server_to_browser browser_to_server = false
is_server_to_browser other_direction = false

abbrev pub is_browser_to_server : Direction → Bool
is_browser_to_server server_to_browser = false
is_browser_to_server browser_to_server = true
is_browser_to_server other_direction = false

-- What a decoder returns: the frame is not one of its namespace, it is and breaks the protocol, or it
-- is and says something.
pub data Recognized {ℓ} (A : Type ℓ) : Type ℓ where
  ordinary violation : Recognized A
  frame : A → Recognized A

abbrev pub frame_or_violation {ℓ} : {A : Type ℓ} → Option A → Recognized A
frame_or_violation none = violation
frame_or_violation (some a) = frame a

-- `strconv.FormatUint(n, 10)`, on fuel for the digits.
unfoldable pub format_digits : ℕ → ℕ → List ℕ
format_digits zero n = []
format_digits (suc fuel) n =
    let rest = format_digits fuel (n / 10) in
    if ltb n 10 then (48 + n) ∷ [] else rest ++ ((48 + n % 10) ∷ [])

abbrev pub transport_flow_digits : ℕ
transport_flow_digits = 20

unfoldable pub format_uint64 : ℕ → List ℕ
format_uint64 n = format_digits transport_flow_digits n

unfoldable pub all_digits : List ℕ → Bool
all_digits [] = true
all_digits (digit ∷ digits) = leb 48 digit && leb digit 57 && all_digits digits

-- The checks that the two decoders of a count make, and its value.
unfoldable pub parse_count : List ℕ → Option ℕ
parse_count digits =
    if length digits == 0 || ltb transport_flow_digits (length digits) || get_or digits 0 0 == 48
    then none
    else if all_digits digits
    then parse_uint64 digits
    else none

abbrev pub transport_flow_prefix : List ℕ
transport_flow_prefix = codes "PERSEA-FLOW/1 "

abbrev pub transport_flow_ack : List ℕ
transport_flow_ack = codes "ACK "

unfoldable pub encode_transport_flow_ack : ℕ → Direction → Option (List ℕ)
encode_transport_flow_ack count direction =
    if not (is_browser_to_server direction) || count == 0
    then none
    else some (transport_flow_prefix ++ (transport_flow_ack ++ format_uint64 count))

abbrev pub ack_body : List ℕ → Direction → Option ℕ
ack_body body direction =
    if not (has_prefix body transport_flow_ack)
    then none
    else if not (is_browser_to_server direction)
    then none
    else parse_count (drop (length transport_flow_ack) body)

unfoldable pub decode_transport_flow_ack : List ℕ → Direction → Recognized ℕ
decode_transport_flow_ack raw direction =
    if not (has_prefix raw transport_flow_prefix)
    then ordinary
    else frame_or_violation (ack_body (drop (length transport_flow_prefix) raw) direction)

-- A set of codes, as a list.
unfoldable pub has_code : List (List ℕ) → List ℕ → Bool
has_code [] code = false
has_code (c ∷ others) code = bytes_equal c code || has_code others code

abbrev pub input_result_codes : List (List ℕ)
input_result_codes =
    codes ""
    ∷ codes "input_paused"
    ∷ codes "input_refused"
    ∷ codes "input_dropped"
    ∷ codes "input_partial"
    ∷ []

unfoldable pub is_valid_input_result_code : List ℕ → Bool
is_valid_input_result_code code = has_code input_result_codes code

abbrev pub transport_input_prefix : List ℕ
transport_input_prefix = codes "PERSEA-INPUT/1 "

abbrev pub coded : List ℕ → List ℕ
coded [] = []
coded (c ∷ code) = 32 ∷ c ∷ code

unfoldable pub encode_transport_input : ℕ → List ℕ → Direction → Option (List ℕ)
encode_transport_input through code direction =
    if not (is_server_to_browser direction) || through == 0 || not (is_valid_input_result_code code)
    then none
    else some (transport_input_prefix ++ (format_uint64 through ++ coded code))

-- `bytes.Cut` at a space: what stands before it, what behind it, and whether there is one.
abbrev pub cut_at : List ℕ → Option ℕ → List ℕ × List ℕ × Bool
cut_at s none = (s, [], false)
cut_at s (some i) = (take i s, drop (suc i) s, true)

abbrev pub cut_code : List ℕ → List ℕ × List ℕ × Bool
cut_code s = cut_at s (index_byte s 32)

abbrev pub labelled : List ℕ → Option ℕ → Option (ℕ × List ℕ)
labelled code none = none
labelled code (some through) = some (through, code)

abbrev pub input_body : List ℕ × List ℕ × Bool → Direction → Option (ℕ × List ℕ)
input_body (digits, code, has_space) direction =
    if not (is_server_to_browser direction)
      || (has_space && length code == 0)
      || not (is_valid_input_result_code code)
    then none
    else labelled code (parse_count digits)

unfoldable pub decode_transport_input : List ℕ → Direction → Recognized (ℕ × List ℕ)
decode_transport_input raw direction =
    if not (has_prefix raw transport_input_prefix)
    then ordinary
    else frame_or_violation
        (input_body (cut_code (drop (length transport_input_prefix) raw)) direction)
