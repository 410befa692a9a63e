-- ===== src/Attachment/Transport/Acks.antt =====
-- transport_flow.go: decoding and encoding are one relation.
use persea_terminal.Base.{
  ℕ, ◌^◌, ◌<◌, ◌≡◌, refl, sym, ap, ◌∙◌, ◌↔◌, true, some, List, ◌++◌, arith, length, drop,
}
use persea_terminal.ControlMode.Bytes.{has_prefix}
use persea_terminal.Attachment.Transport.{
  Direction, frame, is_browser_to_server, format_uint64, parse_count, transport_flow_prefix,
  transport_flow_ack, encode_transport_flow_ack, ack_body, decode_transport_flow_ack,
}
use persea_terminal.Attachment.Transport.Decimals.{
  parse_count-format_uint64, counted, parse_count-Counted,
}
use persea_terminal.Attachment.Transport.Reserved.{
  reserved, reserved-frame, frame-reserved, has_prefix_split,
}

ack_body-some :
    (body : List ℕ) (d : Direction) (n : ℕ)
    → ack_body body d ≡ some n
    → (has_prefix body transport_flow_ack ≡ true)
      × (is_browser_to_server d ≡ true)
      × (parse_count (drop 4 body) ≡ some n)
ack_body-some body d n h = (ground arith, ground arith, ground arith)

encode_ack-some :
    (n : ℕ) (d : Direction) (raw : List ℕ)
    → encode_transport_flow_ack n d ≡ some raw
    → (is_browser_to_server d ≡ true)
      × (0 < n)
      × (transport_flow_prefix ++ (transport_flow_ack ++ format_uint64 n) ≡ raw)
unfolding encode_transport_flow_ack
encode_ack-some n d raw h = (ground arith, ground arith, ground arith)

some-encode_ack :
    (n : ℕ) (d : Direction)
    → is_browser_to_server d ≡ true
    → 0 < n
    → encode_transport_flow_ack n d
      ≡ some (transport_flow_prefix ++ (transport_flow_ack ++ format_uint64 n))
unfolding encode_transport_flow_ack
some-encode_ack n d ok pos_n = ground arith

ack_namespace :
    (raw : List ℕ) (d : Direction)
    → decode_transport_flow_ack raw d ≡ reserved transport_flow_prefix (λ b. ack_body b d) raw
unfolding decode_transport_flow_ack
ack_namespace raw d = refl

decoded_ack :
    (raw : List ℕ) (d : Direction) (n : ℕ)
    → decode_transport_flow_ack raw d ≡ frame n
    → encode_transport_flow_ack n d ≡ some raw
decoded_ack raw d n h =
    let body = drop (length transport_flow_prefix) raw in
    let (split, got) =
      reserved-frame transport_flow_prefix (λ b. ack_body b d) raw n
        (sym (ack_namespace raw d) ∙ h) in
    let (ack, allowed, count) = ack_body-some body d n got in
    elim (parse_count-Counted (drop 4 body) n count) [
      | counted pos_n digits ↦
          some-encode_ack n d allowed pos_n
          ∙ ap some (
              ap (λ (s : List ℕ). transport_flow_prefix ++ (transport_flow_ack ++ s)) digits
              ∙ ap (◌++◌ transport_flow_prefix) (sym (has_prefix_split body transport_flow_ack ack))
              ∙ sym split)
    ]

encoded_ack :
    (raw : List ℕ) (d : Direction) (n : ℕ)
    → n < 2 ^ 64
    → encode_transport_flow_ack n d ≡ some raw
    → decode_transport_flow_ack raw d ≡ frame n
encoded_ack raw d n small h =
    let (allowed, pos_n, e) = encode_ack-some n d raw h in
    ack_namespace raw d
    ∙ ap (reserved transport_flow_prefix (λ b. ack_body b d)) (sym e)
    ∙ frame-reserved transport_flow_prefix (λ b. ack_body b d)
        (transport_flow_ack ++ format_uint64 n) n (read n d allowed pos_n small)
  where
    read :
        (n : ℕ) (d : Direction)
        → is_browser_to_server d ≡ true
        → 0 < n
        → n < 2 ^ 64
        → ack_body (transport_flow_ack ++ format_uint64 n) d ≡ some n
    read n d allowed pos_n small = rw allowed (parse_count-format_uint64 n pos_n small)

-- For any count that fits 64 bits: an acknowledgement is decoded as this count exactly if it is the
-- one text that encodes the count, in the same direction.
pub decode_transport_flow_ack-encode :
    (raw : List ℕ) (d : Direction) (n : ℕ)
    → n < 2 ^ 64
    → (decode_transport_flow_ack raw d ≡ frame n) ↔ (encode_transport_flow_ack n d ≡ some raw)
decode_transport_flow_ack-encode raw d n small = (decoded_ack raw d n, encoded_ack raw d n small)
