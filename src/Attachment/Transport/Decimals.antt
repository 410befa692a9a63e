-- ===== src/Attachment/Transport/Decimals.antt =====
-- Counts in decimal: what `format_uint64` writes is what `parse_count` reads.
use persea_terminal.Base.{
  ℕ, zero, suc, ◌+◌, ◌-◌, ◌*◌, ◌/◌, ◌%◌, ◌^◌, ◌≤◌, ◌<◌, ◌≡◌, refl, sym, ap, ◌∙◌, ◌≢◌, inl, inr,
  true, ◌&&◌, some, List, [], ◌∷◌, ◌++◌, append-nil, append_assoc, arith, ltb, leb, ltb→lt,
  Bool-cases, length, length-append, subst, suc-add, ap₂,
}
use native.Mathlib.Nat.{pow-suc}
use persea_terminal.ControlMode.Bytes.{parse_digits, parse_uint64, Lacks}
use persea_terminal.Attachment.Transport.{format_digits, format_uint64, all_digits, parse_count}

parse_digits-snoc :
    (a : ℕ) (s : List ℕ) (n c : ℕ)
    → parse_digits a s ≡ some n
    → (leb 48 c && leb c 57 && ltb (n * 10 + (c - 48)) (2 ^ 64)) ≡ true
    → parse_digits a (s ++ (c ∷ [])) ≡ some (n * 10 + (c - 48))
unfolding parse_digits
parse_digits-snoc a [] n c h ok = ground arith
parse_digits-snoc a (b ∷ s) n c h ok = ground (arith, parse_digits-snoc (a * 10 + (b - 48)) s n c)

format_digits-step :
    (f n : ℕ) → 10 ≤ n → format_digits (suc f) n ≡ format_digits f (n / 10) ++ ((48 + n % 10) ∷ [])
unfolding format_digits
format_digits-step f n h = ground arith

format_digits-one : (f n : ℕ) → n < 10 → format_digits (suc f) n ≡ (48 + n) ∷ []
unfolding format_digits
format_digits-one f n h = ground arith

parse_digits-one : (n : ℕ) → n < 10 → parse_digits 0 ((48 + n) ∷ []) ≡ some n
unfolding parse_digits
parse_digits-one n h = ground arith

shorter : (f n : ℕ) → n < 10 ^ suc (suc f) → n / 10 < 10 ^ suc f
shorter f n h = omega (arith, pow-suc 10 (suc f))

-- Enough fuel prints a number that is read again.
parse_digits-format :
    (f n : ℕ) → n < 10 ^ suc f → n < 2 ^ 64 → parse_digits 0 (format_digits (suc f) n) ≡ some n
parse_digits-format zero n fits small =
    rw (format_digits-one 0 n (omega (arith, fits))) (parse_digits-one n (omega (arith, fits)))
parse_digits-format (suc f) n fits small = elim (Bool-cases (ltb n 10)) [
  | inl short ↦
      rw (format_digits-one (suc f) n (ltb→lt n 10 short)) (parse_digits-one n (ltb→lt n 10 short))
  | inr long ↦ rw (format_digits-step (suc f) n (ground arith)) (
      parse_digits-snoc 0 (format_digits (suc f) (n / 10)) (n / 10) (48 + n % 10)
        (parse_digits-format f (n / 10) (shorter f n fits) (omega arith)) (digit n small)
      ∙ ap some (omega arith))
]
  where
    digit :
        (n : ℕ)
        → n < 2 ^ 64
        → (leb 48 (48 + n % 10)
            && leb (48 + n % 10) 57
            && ltb (n / 10 * 10 + (48 + n % 10 - 48)) (2 ^ 64))
          ≡ true
    digit n h = ground arith

parse_digits-nil : (a n : ℕ) → parse_digits a [] ≡ some n → n ≡ a
unfolding parse_digits
parse_digits-nil a n h = cc

parse_digits-cons :
    (a c : ℕ) (s : List ℕ) (n : ℕ)
    → parse_digits a (c ∷ s) ≡ some n
    → (48 ≤ c) × (c ≤ 57) × (parse_digits (a * 10 + (c - 48)) s ≡ some n)
unfolding parse_digits
parse_digits-cons a c s n h = (ground arith, ground arith, ground arith)

format_digits-grows :
    (a f c : ℕ) (p : List ℕ)
    → 0 < a
    → 48 ≤ c
    → c ≤ 57
    → ((k : ℕ) → format_digits (f + k) a ≡ p)
    → (k : ℕ) → format_digits (suc f + k) (a * 10 + (c - 48)) ≡ p ++ (c ∷ [])
format_digits-grows a f c p pos_a low high e k = rw suc-add (
    format_digits-step (f + k) (a * 10 + (c - 48)) (omega arith)
    ∙ ap₂ (λ (m d : ℕ). format_digits (f + k) m ++ (d ∷ [])) (omega arith) (omega arith)
    ∙ ap (λ (q : List ℕ). q ++ (c ∷ [])) (e k))

-- Reading on from a number whose digits were `p` reads the digits behind `p`.
format-parse_digits :
    (a f : ℕ) (s p : List ℕ) (n : ℕ)
    → 0 < a
    → parse_digits a s ≡ some n
    → ((k : ℕ) → format_digits (f + k) a ≡ p)
    → (k : ℕ) → format_digits (f + length s + k) n ≡ p ++ s
format-parse_digits a f [] p n pos_a h e k =
    ap₂ (λ (j m : ℕ). format_digits j m) (omega arith) (parse_digits-nil a n h)
    ∙ e k
    ∙ sym (append-nil p)
format-parse_digits a f (c ∷ s) p n pos_a h e k =
    let (low, high, rest) = parse_digits-cons a c s n h in
    ap (λ (j : ℕ). format_digits j n) (omega arith)
    ∙ format-parse_digits (a * 10 + (c - 48)) (suc f) s (p ++ (c ∷ [])) n (omega arith) rest
        (format_digits-grows a f c p pos_a low high e) k
    ∙ append_assoc p (c ∷ []) s

length-format_digits : (f n : ℕ) → length (format_digits f n) ≤ f
unfolding format_digits
length-format_digits zero n = omega arith
length-format_digits (suc f) n = ground (
  arith,
  length-format_digits f (n / 10),
  length-append (format_digits f (n / 10)) ((48 + n % 10) ∷ []),
)

-- A positive number is printed with a digit other than 0 first.
data Leads (s : List ℕ) : Type 0 where
  leads : (c : ℕ) (rest : List ℕ) → s ≡ c ∷ rest → c ≢ 48 → Leads s

format_digits-Leads : (f n : ℕ) → 0 < n → n < 10 ^ suc f → Leads (format_digits (suc f) n)
format_digits-Leads zero n pos_n fits =
    leads (48 + n) [] (format_digits-one 0 n (omega (arith, fits))) (omega arith)
format_digits-Leads (suc f) n pos_n fits = elim (Bool-cases (ltb n 10)) [
  | inl short ↦ leads (48 + n) [] (format_digits-one (suc f) n (ltb→lt n 10 short)) (omega arith)
  | inr long ↦ elim (format_digits-Leads f (n / 10) (ground arith) (shorter f n fits)) [
    | leads c rest e differs ↦
        leads c (rest ++ ((48 + n % 10) ∷ []))
          (format_digits-step (suc f) n (ground arith)
            ∙ ap (λ (s : List ℕ). s ++ ((48 + n % 10) ∷ [])) e)
          differs
  ]
]

parse_digits-digits : (a n : ℕ) (s : List ℕ) → parse_digits a s ≡ some n → all_digits s ≡ true
unfolding parse_digits all_digits
parse_digits-digits a n [] h = refl
parse_digits-digits a n (c ∷ s) h = ground (arith, parse_digits-digits (a * 10 + (c - 48)) n s)

parse_digits_le : (a n : ℕ) (s : List ℕ) → parse_digits a s ≡ some n → a ≤ n
parse_digits_le a n [] h = omega (arith, parse_digits-nil a n h)
parse_digits_le a n (c ∷ s) h =
    omega (arith, parse_digits_le (a * 10 + (c - 48)) n s (parse_digits-cons a c s n h).2)

all_digits-Lacks : (s : List ℕ) → all_digits s ≡ true → Lacks 32 s
unfolding all_digits
all_digits-Lacks [] h = tt
all_digits-Lacks (c ∷ s) h = (ground arith, all_digits-Lacks s (ground arith))

parse_format : (n : ℕ) → n < 2 ^ 64 → parse_digits 0 (format_uint64 n) ≡ some n
unfolding format_uint64
parse_format n small = parse_digits-format 19 n (omega arith) small

pub format_uint64-Lacks : (n : ℕ) → n < 2 ^ 64 → Lacks 32 (format_uint64 n)
format_uint64-Lacks n small =
    all_digits-Lacks (format_uint64 n)
      (parse_digits-digits 0 n (format_uint64 n) (parse_format n small))

parse_count-cons :
    (c : ℕ) (s : List ℕ) (n : ℕ)
    → c ≢ 48
    → suc (length s) ≤ 20
    → parse_digits 0 (c ∷ s) ≡ some n
    → parse_count (c ∷ s) ≡ some n
unfolding parse_count parse_uint64
parse_count-cons c s n differs short h = ground (arith, parse_digits-digits 0 n (c ∷ s))

cons-parse_count :
    (c : ℕ) (s : List ℕ) (n : ℕ)
    → parse_count (c ∷ s) ≡ some n
    → (c ≢ 48) × (suc (length s) ≤ 20) × (parse_digits 0 (c ∷ s) ≡ some n)
unfolding parse_count parse_uint64
cons-parse_count c s n h = (ground arith, ground arith, ground arith)

parse_count-nil : (n : ℕ) → parse_count [] ≡ some n → ⊥
unfolding parse_count
parse_count-nil n h = cc

printed : (n : ℕ) → format_uint64 n ≡ format_digits 20 n
unfolding format_uint64
printed n = refl

pub parse_count-format_uint64 :
    (n : ℕ) → 0 < n → n < 2 ^ 64 → parse_count (format_uint64 n) ≡ some n
parse_count-format_uint64 n pos_n small = elim (format_digits-Leads 19 n pos_n (omega arith)) [
  | leads c rest e differs ↦
      rw (printed n, e)
        (parse_count-cons c rest n differs
          (subst (λ (s : List ℕ). length s ≤ 20) e (length-format_digits 20 n))
          (subst (λ (s : List ℕ). parse_digits 0 s ≡ some n) (printed n ∙ e)
            (parse_format n small)))
]

pub data Counted (s : List ℕ) (n : ℕ) : Type 0 where
  counted : 0 < n → format_uint64 n ≡ s → Counted s n

pub parse_count-Counted : (s : List ℕ) (n : ℕ) → parse_count s ≡ some n → Counted s n
parse_count-Counted [] n h = absurd (parse_count-nil n h)
parse_count-Counted (c ∷ s) n h =
    let (differs, short, value) = cons-parse_count c s n h in
    let (low, high, rest) = parse_digits-cons 0 c s n value in
    counted (omega (arith, parse_digits_le (0 * 10 + (c - 48)) n s rest, differs)) (
      printed n
      ∙ ap (λ (j : ℕ). format_digits j n) (omega arith)
      ∙ format-parse_digits (0 * 10 + (c - 48)) 1 s (c ∷ []) n (omega (arith, differs)) rest
          (λ k.
            ap (λ (j : ℕ). format_digits j (0 * 10 + (c - 48))) (omega arith)
            ∙ format_digits-one k (0 * 10 + (c - 48)) (omega arith)
            ∙ ap (λ (d : ℕ). d ∷ []) (omega arith))
          (19 - length s))
