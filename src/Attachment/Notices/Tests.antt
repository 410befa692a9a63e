-- ===== src/Attachment/Notices/Tests.antt =====
-- Runs of the decoders, and the theorems at concrete frames.
use persea_terminal.Base.{ℕ, ◌≡◌, refl, ◌↔◌, some, List}
use persea_terminal.ControlMode.Bytes.{codes}
use persea_terminal.Attachment.Transport.{
  server_to_browser, browser_to_server, violation, frame, has_code,
}
use persea_terminal.Attachment.Notices.{
  all_hex, is_valid_nonce, liveness_body, is_refusal_code, ping, decode_transport_liveness,
  encode_transport_liveness, decode_transport_refusal, encode_transport_refusal, operational,
  classify_attachment_error,
}
use persea_terminal.Attachment.Notices.Heartbeats.{decode_transport_liveness-encode}
use persea_terminal.Attachment.Notices.Refusals.{
  decode_transport_refusal-encode, classify_attachment_error-refusal,
}

abbrev nonce : List ℕ
nonce = codes "0123456789abcdef0123456789abcdef"

abbrev ping_text : List ℕ
ping_text = codes "PERSEA-LIVENESS/1 PING 0123456789abcdef0123456789abcdef"

pings :
    decode_transport_liveness ping_text browser_to_server
    ≡ frame (record { kind = ping; nonce = nonce })
unfolding decode_transport_liveness liveness_body is_valid_nonce all_hex
pings = refl

ping_back_refused : decode_transport_liveness ping_text server_to_browser ≡ violation
unfolding decode_transport_liveness liveness_body is_valid_nonce all_hex
ping_back_refused = refl

decode_transport_liveness-encode_example :
    (decode_transport_liveness ping_text browser_to_server
      ≡ frame (record { kind = ping; nonce = nonce }))
    ↔ (encode_transport_liveness (record { kind = ping; nonce = nonce }) browser_to_server
        ≡ some ping_text)
decode_transport_liveness-encode_example =
    decode_transport_liveness-encode ping_text browser_to_server ping nonce

abbrev refusal : List ℕ
refusal = codes "PERSEA-REFUSAL/1 resize_failed"

upper_case_refused :
    decode_transport_refusal (codes "PERSEA-REFUSAL/1 Resize") server_to_browser ≡ violation
unfolding decode_transport_refusal is_refusal_code
upper_case_refused = refl

decode_transport_refusal-encode_example :
    (decode_transport_refusal refusal server_to_browser ≡ frame (codes "resize_failed"))
    ↔ (encode_transport_refusal (codes "resize_failed") server_to_browser ≡ some refusal)
decode_transport_refusal-encode_example =
    decode_transport_refusal-encode refusal server_to_browser (codes "resize_failed")

resize_failed_operational : classify_attachment_error (codes "resize_failed") ≡ operational
unfolding classify_attachment_error has_code
resize_failed_operational = refl

classify_attachment_error-refusal_example :
    (raw : List ℕ) × (encode_transport_refusal (codes "resize_failed") server_to_browser ≡ some raw)
    × (decode_transport_refusal raw server_to_browser ≡ frame (codes "resize_failed"))
classify_attachment_error-refusal_example =
    classify_attachment_error-refusal (codes "resize_failed") resize_failed_operational
