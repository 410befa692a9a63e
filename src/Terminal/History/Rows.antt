-- ===== src/Terminal/History/Rows.antt =====
-- The rows that a capture keeps: the newest ones that fit.
use persea_terminal.Base.{
  ℕ, zero, suc, ◌+◌, ◌-◌, ◌≤◌, ◌<◌, ◌≡◌, refl, sym, ap, ◌∙◌, ◌↔◌, ◌⊎◌, inl, inr, Bool, true, false,
  not, ◌||◌, List, [], ◌∷◌, arith, ltb, if◌then◌else◌, ltb→lt, Bool-cases, length, drop,
  length-drop, drop-drop, drop-nil_of_le, subst, ap₂, get_or,
}
use persea_terminal.Terminal.History.{
  history_byte_cap, newest, CaptureError, Capture, fails, rows_of, newest_rows, bounded_rows,
  bounded_offscreen_rows, is_valid_history_rows, has_byte, is_utf8, drop_empty_last, split_rows,
  has_long_row,
}

-- What rows cost: their bytes, and a newline each.
abbrev pub cost : List (List ℕ) → ℕ
cost [] = 0
cost (row ∷ rows) = length row + 1 + cost rows

-- Where the loop stops: at the oldest row, or at the last place from where the rows fit.
data Stops (rows : List (List ℕ)) : ℕ × Bool → Type 0 where
  takes_all : cost rows ≤ history_byte_cap → Stops rows (0, false)
  breaks :
      (start : ℕ)
      → start < length rows
      → cost (drop (suc start) rows) ≤ history_byte_cap
      → history_byte_cap < cost (drop start rows)
      → Stops rows (suc start, true)

cost-drop :
    (start : ℕ) (rows : List (List ℕ))
    → start < length rows
    → cost (drop start rows) ≡ cost (drop (suc start) rows) + length (get_or rows start []) + 1
cost-drop start [] h = absurd (omega (arith, h))
cost-drop zero (row ∷ rows) h = omega arith
cost-drop (suc start) (row ∷ rows) h = cost-drop start rows (omega (arith, h))

newest-Stops :
    (start used : ℕ) (rows : List (List ℕ))
    → start ≤ length rows
    → used ≡ cost (drop start rows)
    → used ≤ history_byte_cap
    → Stops rows (newest rows start used)
unfolding newest
newest-Stops zero used rows h e fits = takes_all (omega (arith, e))
newest-Stops (suc start) used rows h e fits =
    let spent = used + length (get_or rows start []) + 1 in
    let more = cost-drop start rows (omega (arith, h)) in
    elim (Bool-cases (ltb history_byte_cap spent)) [
      | inl over ↦
          subst (Stops rows)
            (ap (λ (b : Bool). if b then (suc start, true) else newest rows start spent) (sym over))
            (breaks start (omega (arith, h)) (omega (arith, e, fits))
              (omega (arith, e, more, ltb→lt history_byte_cap spent over)))
      | inr under ↦
          subst (Stops rows)
            (ap (λ (b : Bool). if b then (suc start, true) else newest rows start spent)
              (sym under))
            (newest-Stops start spent rows (omega (arith, h)) (omega (arith, e, more))
              (ground (arith, under)))
    ]

-- The capture of rows: it keeps the rows from one place on, within both limits; it says that it is
-- truncated exactly if that place is not the first; and one row more would be over a limit.
pub record Keeps (physical : List (List ℕ)) (line_cap : ℕ) (c : Capture) : Type 0 where
  pub start : ℕ
  pub truncated : Bool
  pub is_suffix : c ≡ rows_of (drop start physical) truncated
  pub start_in_range : start ≤ length physical
  pub row_limit : length (drop start physical) ≤ line_cap
  pub byte_limit : cost (drop start physical) ≤ history_byte_cap
  pub says_truncated : (truncated ≡ true) ↔ (0 < start)
  pub is_longest :
      (j : ℕ)
      → suc j ≡ start
      → (line_cap < length (drop j physical)) ⊎ (history_byte_cap < cost (drop j physical))

or_true : (b : Bool) → (b || true) ≡ true
or_true b = ground arith

branches :
    (P : Capture → Type 0) (b : Bool) (x y : Capture)
    → (b ≡ true → P x)
    → (b ≡ false → P y)
    → P (if b then x else y)
branches P true x y f g = f refl
branches P false x y f g = g refl

-- Behind `k` rows that the limit of rows drops, `s` rows that the limit of bytes drops.
Stops-Keeps :
    (physical : List (List ℕ)) (line_cap k : ℕ) (dropped : Bool)
    → k ≤ length physical
    → length physical - k ≤ line_cap
    → ((j : ℕ) → suc j ≡ k → line_cap < length physical - j)
    → ((dropped ≡ true) ↔ (0 < k))
    → (r : ℕ × Bool) → Stops (drop k physical) r
    → Keeps physical line_cap (rows_of (drop r.0 (drop k physical)) (dropped || r.1))
Stops-Keeps physical line_cap k dropped inside within over says r (takes_all fits) = record {
  start = k;
  truncated = dropped;
  is_suffix = ground arith;
  start_in_range = inside;
  row_limit = omega (arith, length-drop k physical, within);
  byte_limit = fits;
  says_truncated = says;
  is_longest = λ j e. inl (omega (arith, length-drop j physical, over j e));
}
Stops-Keeps physical line_cap k dropped inside within over says r (breaks start h fits more) =
    record {
      start = k + suc start;
      truncated = true;
      is_suffix = ap₂ rows_of (sym (drop-drop k (suc start) physical)) (or_true dropped);
      start_in_range = omega (arith, inside, h, length-drop k physical);
      row_limit = omega (arith, length-drop (k + suc start) physical, within);
      byte_limit =
          subst (λ (rows : List (List ℕ)). cost rows ≤ history_byte_cap)
            (sym (drop-drop k (suc start) physical)) fits;
      says_truncated = (λ e. omega arith, λ e. refl);
      is_longest = λ j e. inr (
          subst (λ (rows : List (List ℕ)). history_byte_cap < cost rows)
            (sym (drop-drop k start physical) ∙ ap (λ (i : ℕ). drop i physical) (omega (arith, e)))
            more);
    }

newest_rows-Keeps :
    (physical : List (List ℕ)) (line_cap k : ℕ) (dropped : Bool)
    → k ≤ length physical
    → length physical - k ≤ line_cap
    → ((j : ℕ) → suc j ≡ k → line_cap < length physical - j)
    → ((dropped ≡ true) ↔ (0 < k))
    → Keeps physical line_cap (newest_rows (drop k physical) dropped)
newest_rows-Keeps physical line_cap k dropped inside within over says =
    Stops-Keeps physical line_cap k dropped inside within over says
      (newest (drop k physical) (length (drop k physical)) 0)
      (newest-Stops (length (drop k physical)) 0 (drop k physical) (omega arith)
        (ap cost (sym (drop-nil_of_le (length (drop k physical)) (drop k physical) (omega arith))))
        (omega arith))

-- What passes the checks of the whole capture.
pub record IsReadable (captured : List ℕ) (line_cap : ℕ) : Type 0 where
  pub limit : is_valid_history_rows line_cap ≡ true
  pub no_nul : has_byte captured 0 ≡ false
  pub utf8 : is_utf8 captured ≡ true

-- What is said of a capture: why it is refused, or which of its rows are kept. The checks are made in
-- this order, and no two of these hold of one capture.
pub data Captured (captured : List ℕ) (line_cap : ℕ) : Capture → Type 0 where
  bad_limit :
      is_valid_history_rows line_cap ≡ false
      → Captured captured line_cap (fails CaptureError.invalid_limit)
  has_nul :
      is_valid_history_rows line_cap ≡ true
      → has_byte captured 0 ≡ true
      → Captured captured line_cap (fails CaptureError.nul_row)
  not_utf8 :
      is_valid_history_rows line_cap ≡ true
      → has_byte captured 0 ≡ false
      → is_utf8 captured ≡ false
      → Captured captured line_cap (fails CaptureError.invalid_utf8)
  too_long :
      IsReadable captured line_cap
      → has_long_row (drop_empty_last (split_rows captured)) ≡ true
      → Captured captured line_cap (fails CaptureError.row_too_long)
  keeps :
      {c : Capture}
      → IsReadable captured line_cap
      → has_long_row (drop_empty_last (split_rows captured)) ≡ false
      → Keeps (drop_empty_last (split_rows captured)) line_cap c
      → Captured captured line_cap c

bounded_rows-Captured :
    (captured : List ℕ) (line_cap : ℕ)
    → IsReadable captured line_cap
    → Captured captured line_cap (bounded_rows (drop_empty_last (split_rows captured)) line_cap)
bounded_rows-Captured captured line_cap readable =
    let physical = drop_empty_last (split_rows captured) in
    branches (Captured captured line_cap) (has_long_row physical) (fails CaptureError.row_too_long)
      _ (too_long readable)
      (λ short.
        branches (Captured captured line_cap) (ltb line_cap (length physical))
          (newest_rows (drop (length physical - line_cap) physical) true)
          (newest_rows physical false)
          (λ over. keeps readable short (
            newest_rows-Keeps physical line_cap (length physical - line_cap) true (omega arith)
              (omega arith) (λ j e. omega (arith, e))
              (λ t. omega (arith, ltb→lt line_cap (length physical) over), λ t. refl)))
          (λ within. keeps readable short (
            newest_rows-Keeps physical line_cap 0 false (omega arith) (ground (arith, within))
              (λ j e. absurd (omega (arith, e)))
              (λ t. absurd (cc), λ t. absurd (omega (arith, t))))))

-- A capture is refused exactly for a limit that is not one of the choices, for a NUL, for bytes that
-- are not UTF-8, or for a row over the limit of a row, whichever comes first. Otherwise its newest rows are kept, from the first place
-- from where they are within the limits of rows and of bytes, and it is called truncated exactly if a
-- row is left out.
pub bounded_offscreen_rows-Captured :
    (captured : List ℕ) (line_cap : ℕ)
    → Captured captured line_cap (bounded_offscreen_rows captured line_cap)
unfolding bounded_offscreen_rows
bounded_offscreen_rows-Captured captured line_cap =
    branches (Captured captured line_cap) (not (is_valid_history_rows line_cap))
      (fails CaptureError.invalid_limit) _ (λ h. bad_limit (ground (arith, h)))
      (λ bad.
        let limit : is_valid_history_rows line_cap ≡ true = ground (arith, bad) in
        branches (Captured captured line_cap) (has_byte captured 0) (fails CaptureError.nul_row) _
          (has_nul limit)
          (λ no_nul.
            branches (Captured captured line_cap) (not (is_utf8 captured))
              (fails CaptureError.invalid_utf8) _ (λ h. not_utf8 limit no_nul (ground (arith, h)))
              (λ h.
                bounded_rows-Captured captured line_cap
                  (record { limit = limit; no_nul = no_nul; utf8 = ground (arith, h) }))))
