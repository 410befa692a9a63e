-- ===== src/Attachment/Transport/Tests.antt =====
-- Runs of the decoders, and the theorems at concrete frames.
use persea_terminal.Base.{ℕ, ◌≡◌, refl, ◌↔◌, some, List, arith}
use persea_terminal.ControlMode.Bytes.{codes}
use persea_terminal.Attachment.Transport.{
  has_code, is_valid_input_result_code, format_digits, format_uint64, parse_count,
  server_to_browser, browser_to_server, violation, frame, encode_transport_flow_ack,
  decode_transport_flow_ack, encode_transport_input, decode_transport_input,
}
use persea_terminal.Attachment.Transport.Acks.{decode_transport_flow_ack-encode}
use persea_terminal.Attachment.Transport.Inputs.{decode_transport_input-encode}

abbrev ack_seven : List ℕ
ack_seven = codes "PERSEA-FLOW/1 ACK 70"

encodes : encode_transport_flow_ack 70 browser_to_server ≡ some ack_seven
unfolding encode_transport_flow_ack format_uint64 format_digits
encodes = refl

leading_zero_refused :
    decode_transport_flow_ack (codes "PERSEA-FLOW/1 ACK 07") browser_to_server ≡ violation
unfolding decode_transport_flow_ack parse_count
leading_zero_refused = refl

wrong_direction_refused : decode_transport_flow_ack ack_seven server_to_browser ≡ violation
unfolding decode_transport_flow_ack
wrong_direction_refused = refl

decode_transport_flow_ack-encode_example :
    (decode_transport_flow_ack ack_seven browser_to_server ≡ frame 70)
    ↔ (encode_transport_flow_ack 70 browser_to_server ≡ some ack_seven)
decode_transport_flow_ack-encode_example =
    decode_transport_flow_ack-encode ack_seven browser_to_server 70 (omega arith)

abbrev paused_nine : List ℕ
paused_nine = codes "PERSEA-INPUT/1 9 input_paused"

pauses : encode_transport_input 9 (codes "input_paused") server_to_browser ≡ some paused_nine
unfolding encode_transport_input format_uint64 format_digits is_valid_input_result_code has_code
pauses = refl

decode_transport_input-encode_example :
    (decode_transport_input paused_nine server_to_browser ≡ frame (9, codes "input_paused"))
    ↔ (encode_transport_input 9 (codes "input_paused") server_to_browser ≡ some paused_nine)
decode_transport_input-encode_example =
    decode_transport_input-encode paused_nine server_to_browser 9 (codes "input_paused")
      (omega arith)
