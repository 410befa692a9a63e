-- ===== src/ControlMode/Bytes.antt =====
-- What internal/controlmode/decoder.go uses of Go's bytes, strings and strconv. A byte string is the
-- list of its bytes.
use Prim.Native.Char.{code}
use Prim.Native.String.{String}
use persea_terminal.Base.{
  ℕ, zero, suc, ◌+◌, ◌-◌, ◌*◌, ◌^◌, ◌≡◌, refl, ap, ◌≢◌, inl, inr, Bool, true, false, ◌&&◌, ◌||◌,
  Option, none, some, List, [], ◌∷◌, ◌++◌, arith, ltb, leb, ◌==◌, if◌then◌else◌, Bool-cases, length,
  get_or,
}

-- The bytes of an ASCII text.
abbrev pub codes : String → List ℕ
codes String.[] = []
codes (String.◌∷◌ c s) = code c ∷ codes s

abbrev pub bytes_equal : List ℕ → List ℕ → Bool
bytes_equal [] [] = true
bytes_equal [] (y ∷ ys) = false
bytes_equal (x ∷ xs) [] = false
bytes_equal (x ∷ xs) (y ∷ ys) = x == y && bytes_equal xs ys

abbrev pub has_prefix : List ℕ → List ℕ → Bool
has_prefix s [] = true
has_prefix [] (p ∷ prefix) = false
has_prefix (b ∷ s) (p ∷ prefix) = b == p && has_prefix s prefix

-- `bytes.IndexByte`; `none` is -1.
unfoldable pub index_byte : List ℕ → ℕ → Option ℕ
index_byte [] c = none
index_byte (b ∷ s) c =
    if b == c then some 0 else (elim (index_byte s c) [ none ↦ none | some i ↦ some (suc i) ])

-- `bytes.Index`.
unfoldable pub index_of : List ℕ → List ℕ → Option ℕ
index_of [] pattern = if has_prefix [] pattern then some 0 else none
index_of (b ∷ s) pattern =
    if has_prefix (b ∷ s) pattern
    then some 0
    else (elim (index_of s pattern) [ none ↦ none | some i ↦ some (suc i) ])

-- `strconv.ParseUint(s, 10, 64)` behind the first digit, in the value so far; `none` is an error.
unfoldable pub parse_digits : ℕ → List ℕ → Option ℕ
parse_digits n [] = some n
parse_digits n (c ∷ s) =
    let rest = parse_digits (n * 10 + (c - 48)) s in
    if leb 48 c && leb c 57 && ltb (n * 10 + (c - 48)) (2 ^ 64) then rest else none

unfoldable pub parse_uint64 : List ℕ → Option ℕ
parse_uint64 [] = none
parse_uint64 (c ∷ s) = parse_digits 0 (c ∷ s)

-- The width of the Unicode space that a text begins with, 0 if it begins with none. Every encoding
-- begins with a byte that continues no other, so the test needs no decoding of what stands before.
unfoldable pub space_width : List ℕ → ℕ
space_width [] = 0
space_width (b ∷ s) =
    if (leb 9 b && leb b 13) || b == 32
    then 1
    else if b == 0xc2
    then (let c = get_or s 0 0 in if c == 0x85 || c == 0xa0 then 2 else 0)
    else (let c = get_or s 0 0 in
        let e = get_or s 1 0 in
        if (b == 0xe1 && c == 0x9a && e == 0x80)
          || (b == 0xe2
              && c == 0x80
              && ((leb 0x80 e && leb e 0x8a) || e == 0xa8 || e == 0xa9 || e == 0xaf))
          || (b == 0xe2 && c == 0x81 && e == 0x9f)
          || (b == 0xe3 && c == 0x80 && e == 0x80)
        then 3
        else 0)

abbrev pub emit : List ℕ → List (List ℕ) → List (List ℕ)
emit [] fields = fields
emit (b ∷ field) fields = (b ∷ field) ∷ fields

-- `strings.FieldsSeq`: `skip` bytes of a space are still to pass, `field` was read so far.
unfoldable pub fields_from : ℕ → List ℕ → List ℕ → List (List ℕ)
fields_from skip field [] = emit field []
fields_from zero field (b ∷ s) =
    let width = space_width (b ∷ s) in
    if width == 0
    then fields_from zero (field ++ (b ∷ [])) s
    else emit field (fields_from (width - 1) [] s)
fields_from (suc skip) field (b ∷ s) = fields_from skip field s

pub bytes_equal_sound : (xs ys : List ℕ) → bytes_equal xs ys ≡ true → xs ≡ ys
bytes_equal_sound [] [] h = refl
bytes_equal_sound [] (y ∷ ys) h = cc
bytes_equal_sound (x ∷ xs) [] h = cc
bytes_equal_sound (x ∷ xs) (y ∷ ys) h = ground (arith, bytes_equal_sound xs ys)

pub bytes_equal_self : (xs : List ℕ) → bytes_equal xs xs ≡ true
bytes_equal_self [] = refl
bytes_equal_self (x ∷ xs) = ground (arith, bytes_equal_self xs)

-- A byte that a text does not hold.
abbrev pub Lacks : ℕ → List ℕ → Type 0
Lacks c [] = Unit {0}
Lacks c (b ∷ s) = (b ≢ c) × Lacks c s

pub index_byte-append :
    (p s : List ℕ) (c : ℕ) → Lacks c p → index_byte (p ++ (c ∷ s)) c ≡ some (length p)
unfolding index_byte
index_byte-append [] s c h = ground arith
index_byte-append (b ∷ p) s c h = ground (arith, index_byte-append p s c h.1)

pub index_byte-none : (s : List ℕ) (c : ℕ) → Lacks c s → index_byte s c ≡ none
unfolding index_byte
index_byte-none [] c h = refl
index_byte-none (b ∷ s) c h = ground (arith, index_byte-none s c h.1)

-- The first occurrence splits a text.
pub data Found (s : List ℕ) (c : ℕ) : Type 0 where
  absent : Lacks c s → index_byte s c ≡ none → Found s c
  present :
      (p rest : List ℕ)
      → Lacks c p
      → s ≡ p ++ (c ∷ rest)
      → index_byte s c ≡ some (length p)
      → Found s c

pub index_byte-Found : (s : List ℕ) (c : ℕ) → Found s c
unfolding index_byte
index_byte-Found [] c = absent tt refl
index_byte-Found (b ∷ s) c = elim (Bool-cases (b == c)) [
  | inl here ↦ present [] s tt (ground arith) (ground arith)
  | inr later ↦ elim (index_byte-Found s c) [
    | absent h e ↦ absent (ground arith, h) (ground (arith, e))
    | present p rest h split e ↦
        present (b ∷ p) rest (ground arith, h) (ap (◌∷◌ b) split) (ground (arith, e))
  ]
]

pub Lacks-append : (xs ys : List ℕ) (c : ℕ) → Lacks c xs → Lacks c ys → Lacks c (xs ++ ys)
Lacks-append [] ys c h k = k
Lacks-append (x ∷ xs) ys c h k = (h.0, Lacks-append xs ys c h.1 k)
