-- ===== src/ControlMode/Decoder/Tests.antt =====
-- Concrete streams.
use persea_terminal.Base.{
  ℕ, ◌≤◌, ◌≡◌, refl, Bool, ◌||◌, none, some, List, [], ◌∷◌, ◌++◌, arith, ltb, ◌==◌,
}
use persea_terminal.ControlMode.Bytes.{Lacks, codes, index_byte, space_width, fields_from}
use persea_terminal.ControlMode.Payload.{backslash, encode_payload, decode_payload, decode-encode}
use persea_terminal.ControlMode.Line.{
  output, command_begin, command_response, command_end, Event, bare, CommandWitness, command_fields,
  close_command, decode_in_command, open_command, decode_outside, decode_line,
}
use persea_terminal.ControlMode.Line.Commands.{Reply, decode_line-Reply}
use persea_terminal.ControlMode.Line.Outputs.{IsPane}
use persea_terminal.ControlMode.Decoder.{Decoder, new_decoder, scan, settle_scan, feed}
use persea_terminal.ControlMode.Decoder.Chunks.{after_events, feed-append}
use persea_terminal.ControlMode.Decoder.Stream.{Trace, feed-Trace, feed-output_line}

abbrev controls_escaped : ℕ → Bool
controls_escaped b = ltb b 32 || b == backslash

abbrev greeting : List ℕ
greeting = 104 ∷ 10 ∷ 92 ∷ []

encodes_greeting : encode_payload controls_escaped greeting ≡ codes "h\\012\\134"
encodes_greeting = refl

decodes_what_was_escaped : decode_payload (encode_payload controls_escaped greeting) ≡ some greeting
decodes_what_was_escaped = decode-encode controls_escaped greeting refl (omega arith)

-- An octal escape beyond a byte is taken modulo 256.
wide_escape : decode_payload (codes "\\541") ≡ some (codes "a")
unfolding decode_payload
wide_escape = refl

abbrev reply_stream : List ℕ
reply_stream =
    codes "%begin 5 1 0" ++ (10 ∷ codes "ok") ++ (10 ∷ codes "%end 5 1 0") ++ (10 ∷ codes "%ou")

abbrev reply_events : List Event
reply_events =
    bare command_begin
    ∷ record (bare command_response) { payload = codes "ok" ++ (10 ∷ []) }
    ∷ bare command_end
    ∷ []

abbrev waiting : Decoder
waiting = record new_decoder { buffer = codes "%ou" }

feeds_reply : feed new_decoder reply_stream ≡ (some reply_events, waiting)
unfolding feed settle_scan scan decode_line decode_outside decode_in_command open_command
    close_command command_fields fields_from space_width index_byte
feeds_reply = refl

feed-Trace_example : Trace none none reply_events × Lacks 10 (codes "%ou") × (3 ≤ 16777216)
feed-Trace_example = feed-Trace new_decoder reply_stream reply_events waiting feeds_reply

abbrev rest_of_output : List ℕ
rest_of_output = codes "tput %3 hi" ++ (10 ∷ [])

feed-append_example :
    feed new_decoder (reply_stream ++ rest_of_output)
    ≡ after_events reply_events (feed waiting rest_of_output)
feed-append_example =
    feed-append new_decoder reply_stream rest_of_output reply_events waiting (omega arith)
      feeds_reply

abbrev pane : List ℕ
pane = codes "%3"

pane-IsPane : IsPane pane
pane-IsPane = omega arith

feed-output_line_example :
    feed new_decoder ((codes "%output " ++ (pane ++ (32 ∷ codes "h\\012\\134"))) ++ (10 ∷ []))
    ≡ (some (record (bare output) { pane_id = pane; payload = greeting } ∷ []), new_decoder)
feed-output_line_example =
    feed-output_line controls_escaped pane greeting refl refl pane-IsPane (omega arith)
      (omega arith)

abbrev open_witness : CommandWitness
open_witness = record { time = codes "5"; number = codes "1"; flags = codes "0" }

decodes_end : decode_line (some open_witness) (codes "%end 5 1 0") ≡ some (bare command_end, none)
unfolding decode_line decode_in_command close_command command_fields fields_from space_width
decodes_end = refl

end_replies : Reply open_witness (codes "%end 5 1 0") (bare command_end) none
end_replies =
    decode_line-Reply open_witness (codes "%end 5 1 0") (bare command_end) none decodes_end
