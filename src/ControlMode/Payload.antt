-- ===== src/ControlMode/Payload.antt =====
-- `decodePayload` of internal/controlmode/decoder.go: octal escapes in the data of an output record.
use persea_terminal.Base.{
  ℕ, ◌+◌, ◌-◌, ◌*◌, ◌/◌, ◌%◌, ◌<◌, ◌≡◌, refl, ap, ◌∙◌, ◌≢◌, inl, inr, Bool, true, false, ◌&&◌,
  Option, none, some, List, [], ◌∷◌, ◌++◌, arith, leb, ◌==◌, if◌then◌else◌, Bool-cases,
}

abbrev pub backslash : ℕ
backslash = 92

abbrev pub is_octal : ℕ → Bool
is_octal c = leb 48 c && leb c 55

-- `value*8 + digit - '0'` three times, on a byte.
abbrev pub octal_value : ℕ → ℕ → ℕ → ℕ
octal_value x y z = (((x - 48) * 8 + (y - 48)) * 8 + (z - 48)) % 256

abbrev pub prepend : ℕ → Option (List ℕ) → Option (List ℕ)
prepend b none = none
prepend b (some s) = some (b ∷ s)

-- An escape needs three bytes behind the backslash.
unfoldable pub decode_payload : List ℕ → Option (List ℕ)
decode_payload [] = some []
decode_payload (b ∷ x ∷ y ∷ z ∷ s) = elim (b == backslash) [
  | true ↦ (elim (is_octal x && is_octal y && is_octal z) [
    | true ↦ prepend (octal_value x y z) (decode_payload s)
    | false ↦ none
  ])
  | false ↦ prepend b (decode_payload (x ∷ y ∷ z ∷ s))
]
decode_payload (b ∷ s) = elim (b == backslash) [
  | true ↦ none
  | false ↦ prepend b (decode_payload s)
]

-- A writer of payloads that chooses which bytes to escape.
abbrev pub escape : ℕ → List ℕ
escape b = backslash ∷ (b / 64 + 48) ∷ (b / 8 % 8 + 48) ∷ (b % 8 + 48) ∷ []

abbrev pub encode_payload : (ℕ → Bool) → List ℕ → List ℕ
encode_payload escapes [] = []
encode_payload escapes (b ∷ s) =
    (if escapes b then escape b else b ∷ []) ++ encode_payload escapes s

abbrev pub AllBytes : List ℕ → Type 0
AllBytes [] = Unit {0}
AllBytes (b ∷ s) = (b < 256) × AllBytes s

decode_payload-nil : decode_payload [] ≡ some []
unfolding decode_payload
decode_payload-nil = refl

decode_payload-octal :
    (x y z : ℕ) (s : List ℕ)
    → (is_octal x && is_octal y && is_octal z) ≡ true
    → decode_payload (backslash ∷ x ∷ y ∷ z ∷ s) ≡ prepend (octal_value x y z) (decode_payload s)
unfolding decode_payload
decode_payload-octal x y z s h = rw (h, decode_payload)

decode_payload-escape :
    (b : ℕ) (s : List ℕ) → b < 256 → decode_payload (escape b ++ s) ≡ prepend b (decode_payload s)
decode_payload-escape b s h =
    decode_payload-octal (b / 64 + 48) (b / 8 % 8 + 48) (b % 8 + 48) s digits
    ∙ ap (λ v. prepend v (decode_payload s)) value
  where
    digits : (is_octal (b / 64 + 48) && is_octal (b / 8 % 8 + 48) && is_octal (b % 8 + 48)) ≡ true
    digits = ground arith

    value : octal_value (b / 64 + 48) (b / 8 % 8 + 48) (b % 8 + 48) ≡ b
    value = omega arith

decode_payload-plain :
    (b : ℕ) (s : List ℕ) → b ≢ backslash → decode_payload (b ∷ s) ≡ prepend b (decode_payload s)
unfolding decode_payload
decode_payload-plain b [] h = ground arith
decode_payload-plain b (x ∷ []) h = ground arith
decode_payload-plain b (x ∷ y ∷ []) h = ground arith
decode_payload-plain b (x ∷ y ∷ z ∷ s) h = ground arith

-- Whatever bytes a writer escapes besides the backslash, its payload is decoded to the bytes that it
-- was written from.
pub decode-encode :
    (escapes : ℕ → Bool) (s : List ℕ)
    → escapes backslash ≡ true
    → AllBytes s
    → decode_payload (encode_payload escapes s) ≡ some s
decode-encode escapes [] h all = decode_payload-nil
decode-encode escapes (b ∷ s) h all = elim (Bool-cases (escapes b)) [
  | inl escaped ↦ ground (
    arith,
    escaped,
    decode_payload-escape b (encode_payload escapes s) all.0,
    decode-encode escapes s h all.1,
  )
  | inr plain ↦ ground (
    arith,
    plain,
    decode_payload-plain b (encode_payload escapes s),
    decode-encode escapes s h all.1,
  )
]
