-- ===== src/Attachment/Transport/Inputs.antt =====
-- transport_input.go: decoding and encoding are one relation.
use persea_terminal.Base.{
  ℕ, suc, ◌^◌, ◌<◌, ◌≡◌, refl, sym, ap, ◌∙◌, ◌↔◌, Bool, true, false, ◌&&◌, Option, none, some, List,
  [], ◌∷◌, ◌++◌, append-nil, arith, ◌==◌, length, drop, take-append, subst, ap₂,
}
use persea_terminal.ControlMode.Bytes.{
  Lacks, index_byte-append, index_byte-none, index_byte-Found, absent, present,
}
use persea_terminal.Attachment.Transport.{
  Direction, frame, is_server_to_browser, format_uint64, parse_count, is_valid_input_result_code,
  transport_input_prefix, coded, encode_transport_input, cut_at, cut_code, labelled, input_body,
  decode_transport_input,
}
use persea_terminal.Attachment.Transport.Decimals.{
  format_uint64-Lacks, parse_count-format_uint64, counted, parse_count-Counted,
}
use persea_terminal.Attachment.Transport.Reserved.{reserved, reserved-frame, frame-reserved}

labelled-some :
    (code : List ℕ) (o : Option ℕ) (n : ℕ) (label : List ℕ)
    → labelled code o ≡ some (n, label)
    → (code ≡ label) × (o ≡ some n)
labelled-some code none n label h = cc
labelled-some code (some m) n label h = (cc, cc)

input_body-some :
    (s code : List ℕ) (spaced : Bool) (d : Direction) (n : ℕ) (label : List ℕ)
    → input_body (s, code, spaced) d ≡ some (n, label)
    → (is_server_to_browser d ≡ true)
      × ((spaced && length code == 0) ≡ false)
      × (is_valid_input_result_code code ≡ true)
      × (labelled code (parse_count s) ≡ some (n, label))
input_body-some s code spaced d n label h = (ground arith, ground arith, ground arith, ground arith)

some-input_body :
    (s code : List ℕ) (spaced : Bool) (d : Direction) (n : ℕ)
    → is_server_to_browser d ≡ true
    → (spaced && length code == 0) ≡ false
    → is_valid_input_result_code code ≡ true
    → parse_count s ≡ some n
    → input_body (s, code, spaced) d ≡ some (n, code)
some-input_body s code spaced d n allowed filled valid count =
    rw (allowed, filled, valid, count) refl

coded_filled : (code : List ℕ) → (length code == 0) ≡ false → coded code ≡ 32 ∷ code
coded_filled [] h = cc
coded_filled (c ∷ code) h = refl

drop-behind : (p rest : List ℕ) (c : ℕ) → drop (suc (length p)) (p ++ (c ∷ rest)) ≡ rest
drop-behind [] rest c = refl
drop-behind (b ∷ p) rest c = drop-behind p rest c

cut_code_absent : (s : List ℕ) → Lacks 32 s → cut_code s ≡ (s, [], false)
cut_code_absent s lacks = ap (cut_at s) (index_byte-none s 32 lacks)

cut_code_present : (p rest : List ℕ) → Lacks 32 p → cut_code (p ++ (32 ∷ rest)) ≡ (p, rest, true)
cut_code_present p rest lacks =
    ap (cut_at (p ++ (32 ∷ rest))) (index_byte-append p rest 32 lacks)
    ∙ ap₂ (λ (a b : List ℕ). (a, b, true)) (take-append p (32 ∷ rest)) (drop-behind p rest 32)

data Labelled (s : List ℕ) (d : Direction) (n : ℕ) (label : List ℕ) : Type 0 where
  is_labelled :
      is_server_to_browser d ≡ true
      → is_valid_input_result_code label ≡ true
      → 0 < n
      → format_uint64 n ++ coded label ≡ s
      → Labelled s d n label

-- A cut that is accepted is put together again.
Labelled-parts :
    (s digits code : List ℕ) (spaced : Bool) (d : Direction) (n : ℕ) (label : List ℕ)
    → ((spaced && length code == 0) ≡ false → digits ++ coded code ≡ s)
    → input_body (digits, code, spaced) d ≡ some (n, label)
    → Labelled s d n label
Labelled-parts s digits code spaced d n label whole h =
    let (allowed, filled, valid, got) = input_body-some digits code spaced d n label h in
    let (same, count) = labelled-some code (parse_count digits) n label got in
    elim (parse_count-Counted digits n count) [
      | counted pos_n e ↦
          is_labelled allowed
            (subst (λ (c : List ℕ). is_valid_input_result_code c ≡ true) same valid) pos_n
            (ap₂ (λ (a c : List ℕ). a ++ coded c) e (sym same) ∙ whole filled)
    ]

input_body-Labelled :
    (s : List ℕ) (d : Direction) (n : ℕ) (label : List ℕ)
    → input_body (cut_code s) d ≡ some (n, label)
    → Labelled s d n label
input_body-Labelled s d n label h = elim (index_byte-Found s 32) [
  | absent lacks i ↦
      Labelled-parts s s [] false d n label (λ filled. append-nil s)
        (ap (λ (t : List ℕ × List ℕ × Bool). input_body t d) (sym (cut_code_absent s lacks)) ∙ h)
  | present p rest lacks split i ↦
      Labelled-parts s p rest true d n label
        (λ filled. ap (◌++◌ p) (coded_filled rest filled) ∙ sym split)
        (ap (λ (t : List ℕ × List ℕ × Bool). input_body t d)
            (sym (ap cut_code split ∙ cut_code_present p rest lacks))
          ∙ h)
]

Labelled-input_body :
    (digits code : List ℕ) (d : Direction) (n : ℕ)
    → Lacks 32 digits
    → is_server_to_browser d ≡ true
    → is_valid_input_result_code code ≡ true
    → parse_count digits ≡ some n
    → input_body (cut_code (digits ++ coded code)) d ≡ some (n, code)
Labelled-input_body digits [] d n lacks allowed valid count =
    ap (λ (t : List ℕ × List ℕ × Bool). input_body t d)
      (ap cut_code (append-nil digits) ∙ cut_code_absent digits lacks)
    ∙ some-input_body digits [] false d n allowed refl valid count
Labelled-input_body digits (c ∷ code) d n lacks allowed valid count =
    ap (λ (t : List ℕ × List ℕ × Bool). input_body t d) (cut_code_present digits (c ∷ code) lacks)
    ∙ some-input_body digits (c ∷ code) true d n allowed (ground arith) valid count

encode_input-some :
    (n : ℕ) (code : List ℕ) (d : Direction) (raw : List ℕ)
    → encode_transport_input n code d ≡ some raw
    → (is_server_to_browser d ≡ true)
      × (0 < n)
      × (is_valid_input_result_code code ≡ true)
      × (transport_input_prefix ++ (format_uint64 n ++ coded code) ≡ raw)
unfolding encode_transport_input
encode_input-some n code d raw h = (ground arith, ground arith, ground arith, ground arith)

input_namespace :
    (raw : List ℕ) (d : Direction)
    → decode_transport_input raw d
      ≡ reserved transport_input_prefix (λ b. input_body (cut_code b) d) raw
unfolding decode_transport_input
input_namespace raw d = refl

some-encode_input :
    (n : ℕ) (code : List ℕ) (d : Direction)
    → is_server_to_browser d ≡ true
    → is_valid_input_result_code code ≡ true
    → 0 < n
    → encode_transport_input n code d
      ≡ some (transport_input_prefix ++ (format_uint64 n ++ coded code))
unfolding encode_transport_input
some-encode_input n code d allowed valid pos_n = ground arith

decoded_input :
    (raw : List ℕ) (d : Direction) (n : ℕ) (code : List ℕ)
    → decode_transport_input raw d ≡ frame (n, code)
    → encode_transport_input n code d ≡ some raw
decoded_input raw d n code h =
    let read = (λ (b : List ℕ). input_body (cut_code b) d) in
    let (split, got) =
      reserved-frame transport_input_prefix read raw (n, code) (sym (input_namespace raw d) ∙ h) in
    elim (input_body-Labelled (drop (length transport_input_prefix) raw) d n code got) [
      | is_labelled allowed valid pos_n e ↦
          some-encode_input n code d allowed valid pos_n
          ∙ ap some (ap (◌++◌ transport_input_prefix) e ∙ sym split)
    ]

encoded_input :
    (raw : List ℕ) (d : Direction) (n : ℕ) (code : List ℕ)
    → n < 2 ^ 64
    → encode_transport_input n code d ≡ some raw
    → decode_transport_input raw d ≡ frame (n, code)
encoded_input raw d n code small h =
    let read = (λ (b : List ℕ). input_body (cut_code b) d) in
    let (allowed, pos_n, valid, e) = encode_input-some n code d raw h in
    input_namespace raw d
    ∙ ap (reserved transport_input_prefix read) (sym e)
    ∙ frame-reserved transport_input_prefix read (format_uint64 n ++ coded code) (n, code)
        (Labelled-input_body (format_uint64 n) code d n (format_uint64-Lacks n small) allowed valid
          (parse_count-format_uint64 n pos_n small))

-- For any count that fits 64 bits and any code: a frame is decoded as this result exactly if it is
-- the one text that encodes the result, in the same direction.
pub decode_transport_input-encode :
    (raw : List ℕ) (d : Direction) (n : ℕ) (code : List ℕ)
    → n < 2 ^ 64
    → (decode_transport_input raw d ≡ frame (n, code))
      ↔ (encode_transport_input n code d ≡ some raw)
decode_transport_input-encode raw d n code small =
    (decoded_input raw d n code, encoded_input raw d n code small)
