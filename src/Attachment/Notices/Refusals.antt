-- ===== src/Attachment/Notices/Refusals.antt =====
-- transport_refusal.go: decoding and encoding are one relation, which takes the operational codes of
-- internal/proto/attachment_errors.go.
use persea_terminal.Base.{
  ℕ, ◌≡◌, refl, sym, ap, ◌∙◌, ◌↔◌, inl, inr, Bool, true, false, ◌&&◌, some, List, [], ◌∷◌, ◌++◌,
  arith, Bool-cases, drop, subst,
}
use persea_terminal.ControlMode.Bytes.{bytes_equal, has_prefix, bytes_equal_sound}
use persea_terminal.Attachment.Transport.{
  Direction, server_to_browser, is_server_to_browser, frame, has_code,
}
use persea_terminal.Attachment.Transport.Reserved.{has_prefix_split}
use persea_terminal.Attachment.Notices.{
  transport_refusal_prefix, is_refusal_code, encode_transport_refusal, decode_transport_refusal,
  AttachmentErrorClass, operational, unknown, fatal, operational_attachment_codes,
  subscriber_close_reasons, is_subscriber_close_reason, classify_attachment_error, all_code_bytes,
}

refusal-frame :
    (raw : List ℕ) (d : Direction) (code : List ℕ)
    → decode_transport_refusal raw d ≡ frame code
    → (has_prefix raw transport_refusal_prefix ≡ true)
      × (is_server_to_browser d ≡ true)
      × (is_refusal_code (drop 17 raw) ≡ true)
      × (drop 17 raw ≡ code)
unfolding decode_transport_refusal
refusal-frame raw d code h = (ground arith, ground arith, ground arith, ground arith)

encode_refusal :
    (code : List ℕ) (d : Direction)
    → is_server_to_browser d ≡ true
    → is_refusal_code code ≡ true
    → encode_transport_refusal code d ≡ some (transport_refusal_prefix ++ code)
unfolding encode_transport_refusal
encode_refusal code d allowed valid = rw (allowed, valid) refl

refusal-some :
    (raw : List ℕ) (d : Direction) (code : List ℕ)
    → encode_transport_refusal code d ≡ some raw
    → (is_server_to_browser d ≡ true)
      × (is_refusal_code code ≡ true)
      × (transport_refusal_prefix ++ code ≡ raw)
unfolding encode_transport_refusal
refusal-some raw d code h = (ground arith, ground arith, ground arith)

decode_refusal :
    (code : List ℕ) (d : Direction)
    → is_server_to_browser d ≡ true
    → is_refusal_code code ≡ true
    → decode_transport_refusal (transport_refusal_prefix ++ code) d ≡ frame code
unfolding decode_transport_refusal
decode_refusal code d allowed valid = rw (allowed, valid) refl

decoded_refusal :
    (raw : List ℕ) (d : Direction) (code : List ℕ)
    → decode_transport_refusal raw d ≡ frame code
    → encode_transport_refusal code d ≡ some raw
decoded_refusal raw d code h =
    let (reserves, allowed, valid, got) = refusal-frame raw d code h in
    encode_refusal code d allowed (subst (λ (c : List ℕ). is_refusal_code c ≡ true) got valid)
    ∙ ap some (
        ap (◌++◌ transport_refusal_prefix) (sym got)
        ∙ sym (has_prefix_split raw transport_refusal_prefix reserves))

encoded_refusal :
    (raw : List ℕ) (d : Direction) (code : List ℕ)
    → encode_transport_refusal code d ≡ some raw
    → decode_transport_refusal raw d ≡ frame code
encoded_refusal raw d code h =
    let (allowed, valid, e) = refusal-some raw d code h in
    ap (λ (r : List ℕ). decode_transport_refusal r d) (sym e) ∙ decode_refusal code d allowed valid

-- A frame is decoded as a refusal with a code exactly if it is the one text that encodes this code,
-- in the same direction.
pub decode_transport_refusal-encode :
    (raw : List ℕ) (d : Direction) (code : List ℕ)
    → (decode_transport_refusal raw d ≡ frame code) ↔ (encode_transport_refusal code d ≡ some raw)
decode_transport_refusal-encode raw d code =
    (decoded_refusal raw d code, encoded_refusal raw d code)

unfoldable all_codes : (List ℕ → Bool) → List (List ℕ) → Bool
all_codes test [] = true
all_codes test (c ∷ others) = test c && all_codes test others

has_code-all_codes :
    (test : List ℕ → Bool) (others : List (List ℕ)) (code : List ℕ)
    → all_codes test others ≡ true
    → has_code others code ≡ true
    → test code ≡ true
unfolding all_codes has_code
has_code-all_codes test [] code all h = cc
has_code-all_codes test (c ∷ others) code all h = elim (Bool-cases (bytes_equal c code)) [
  | inl same ↦
      subst (λ (c : List ℕ). test c ≡ true) (bytes_equal_sound c code same) (ground (arith, all))
  | inr differs ↦
      has_code-all_codes test others code (ground (arith, all)) (ground (arith, differs, h))
]

classified_operational :
    (code : List ℕ)
    → classify_attachment_error code ≡ operational
    → has_code operational_attachment_codes code ≡ true
unfolding classify_attachment_error
classified_operational code h = ground arith

operational-is_refusal_code : all_codes is_refusal_code operational_attachment_codes ≡ true
unfolding all_codes is_refusal_code all_code_bytes
operational-is_refusal_code = refl

-- Every code that is classified as operational can be carried in-band: its refusal is encoded to the
-- browser, and decoded there as the same code.
pub classify_attachment_error-refusal :
    (code : List ℕ)
    → classify_attachment_error code ≡ operational
    → (raw : List ℕ) × (encode_transport_refusal code server_to_browser ≡ some raw)
      × (decode_transport_refusal raw server_to_browser ≡ frame code)
classify_attachment_error-refusal code h =
    let valid =
      has_code-all_codes is_refusal_code operational_attachment_codes code
        operational-is_refusal_code (classified_operational code h) in
    (
      transport_refusal_prefix ++ code,
      encode_refusal code server_to_browser refl valid,
      decode_refusal code server_to_browser refl valid,
    )

abbrev is_fatal : AttachmentErrorClass → Bool
is_fatal unknown = false
is_fatal operational = false
is_fatal fatal = true

close_reasons-are_fatal :
    all_codes (λ c. is_fatal (classify_attachment_error c)) subscriber_close_reasons ≡ true
unfolding all_codes classify_attachment_error has_code
close_reasons-are_fatal = refl

-- Every reason for closing a subscriber is classified as fatal.
is_subscriber_close_reason-fatal :
    (reason : List ℕ)
    → is_subscriber_close_reason reason ≡ true
    → is_fatal (classify_attachment_error reason) ≡ true
unfolding is_subscriber_close_reason
is_subscriber_close_reason-fatal reason h =
    has_code-all_codes (λ c. is_fatal (classify_attachment_error c)) subscriber_close_reasons reason
      close_reasons-are_fatal h
