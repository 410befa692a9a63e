-- ===== src/Terminal/History.antt =====
-- internal/terminal/history.go: the rows of a capture, and the cut. A byte string is the list of its
-- bytes. Its errors carry no detail.
pub mod Rows
pub mod Cuts
mod Tests
use persea_terminal.Base.{
  ℕ, zero, suc, ◌+◌, ◌-◌, ◌*◌, Bool, true, false, not, ◌&&◌, ◌||◌, Option, none, some, List, [],
  ◌∷◌, ◌++◌, ltb, leb, ◌==◌, if◌then◌else◌, length, drop, get_or,
}
use persea_terminal.ControlMode.Bytes.{bytes_equal}

abbrev pub history_byte_cap : ℕ
history_byte_cap = 2 * 1024 * 1024

abbrev pub history_row_byte_cap : ℕ
history_row_byte_cap = 8 * 1024

abbrev pub held_byte_cap : ℕ
held_byte_cap = 256 * 1024

abbrev pub replay_byte_cap : ℕ
replay_byte_cap = 256 * 1024

unfoldable pub is_valid_history_rows : ℕ → Bool
is_valid_history_rows rows =
    rows == 0
    || rows == 500
    || rows == 1000
    || rows == 2000
    || rows == 5000
    || rows == 7500
    || rows == 10000

unfoldable pub has_byte : List ℕ → ℕ → Bool
has_byte [] c = false
has_byte (b ∷ s) c = b == c || has_byte s c

abbrev pub between : ℕ → ℕ → ℕ → Bool
between low b high = leb low b && leb b high

-- `utf8.Valid`: so many continuation bytes are still to come, the first of them in the bounds.
unfoldable pub is_utf8_from : ℕ → ℕ → ℕ → List ℕ → Bool
is_utf8_from zero low high [] = true
is_utf8_from (suc more) low high [] = false
is_utf8_from (suc more) low high (b ∷ s) =
    let rest = is_utf8_from more 0x80 0xbf s in between low b high && rest
is_utf8_from zero low high (b ∷ s) =
    let ascii = is_utf8_from 0 0x80 0xbf s in
    let two = is_utf8_from 1 0x80 0xbf s in
    let three_e0 = is_utf8_from 2 0xa0 0xbf s in
    let three = is_utf8_from 2 0x80 0xbf s in
    let three_ed = is_utf8_from 2 0x80 0x9f s in
    let four_f0 = is_utf8_from 3 0x90 0xbf s in
    let four = is_utf8_from 3 0x80 0xbf s in
    let four_f4 = is_utf8_from 3 0x80 0x8f s in
    if ltb b 0x80
    then ascii
    else if between 0xc2 b 0xdf
    then two
    else if b == 0xe0
    then three_e0
    else if b == 0xed
    then three_ed
    else if between 0xe1 b 0xef
    then three
    else if b == 0xf0
    then four_f0
    else if between 0xf1 b 0xf3
    then four
    else if b == 0xf4
    then four_f4
    else false

abbrev pub is_utf8 : List ℕ → Bool
is_utf8 s = is_utf8_from 0 0x80 0xbf s

abbrev pub extend_first : ℕ → List (List ℕ) → List (List ℕ)
extend_first b [] = (b ∷ []) ∷ []
extend_first b (row ∷ rows) = (b ∷ row) ∷ rows

-- `bytes.Split` at newlines.
unfoldable pub split_rows : List ℕ → List (List ℕ)
split_rows [] = [] ∷ []
split_rows (b ∷ s) = let rows = split_rows s in if b == 10 then [] ∷ rows else extend_first b rows

-- Without a last row that is empty.
unfoldable pub drop_empty_last : List (List ℕ) → List (List ℕ)
drop_empty_last [] = []
drop_empty_last (row ∷ []) = if length row == 0 then [] else row ∷ []
drop_empty_last (row ∷ next ∷ rows) = row ∷ drop_empty_last (next ∷ rows)

unfoldable pub has_long_row : List (List ℕ) → Bool
has_long_row [] = false
has_long_row (row ∷ rows) = ltb history_row_byte_cap (length row) || has_long_row rows

-- The loop from the newest row: where the rows that fit start, and whether it broke.
unfoldable pub newest : List (List ℕ) → ℕ → ℕ → ℕ × Bool
newest rows zero used = (0, false)
newest rows (suc start) used =
    let cost = used + length (get_or rows start []) + 1 in
    let rest = newest rows start cost in
    if ltb history_byte_cap cost then (suc start, true) else rest

pub data CaptureError : Type 0 where
  invalid_limit nul_row invalid_utf8 row_too_long : CaptureError

pub data Capture : Type 0 where
  fails : CaptureError → Capture
  rows_of : List (List ℕ) → Bool → Capture

abbrev pub newest_rows : List (List ℕ) → Bool → Capture
newest_rows physical truncated =
    let (start, broke) = newest physical (length physical) 0 in
    rows_of (drop start physical) (truncated || broke)

abbrev pub bounded_rows : List (List ℕ) → ℕ → Capture
bounded_rows physical line_cap =
    if has_long_row physical
    then fails row_too_long
    else if ltb line_cap (length physical)
    then newest_rows (drop (length physical - line_cap) physical) true
    else newest_rows physical false

unfoldable pub bounded_offscreen_rows : List ℕ → ℕ → Capture
bounded_offscreen_rows captured line_cap =
    if not (is_valid_history_rows line_cap)
    then fails invalid_limit
    else if has_byte captured 0
    then fails nul_row
    else if not (is_utf8 captured)
    then fails invalid_utf8
    else bounded_rows (drop_empty_last (split_rows captured)) line_cap

-- A kind of cut, or any other value of its type.
pub data CutKind : Type 0 where
  initial reconnect ongoing resize history other_kind : CutKind

pub record Cut : Type 0 where
  pub id : ℕ
  pub kind : CutKind
  pub marker_payload : List ℕ
  pub marker_seen : Bool
  pub pre : List ℕ
  pub held : List ℕ

pub data CutError : Type 0 where
  malformed invariant_broken saturated duplicate_marker stale_marker : CutError

abbrev pub is_known : CutKind → Bool
is_known other_kind = false
is_known initial = true
is_known reconnect = true
is_known ongoing = true
is_known resize = true
is_known history = true

-- ONGOING and HISTORY cuts, which keep no replay.
abbrev pub is_live_kind : CutKind → Bool
is_live_kind ongoing = true
is_live_kind history = true
is_live_kind initial = false
is_live_kind reconnect = false
is_live_kind resize = false
is_live_kind other_kind = false

unfoldable pub new_cut : ℕ → CutKind → List ℕ → Option Cut
new_cut id kind marker_payload =
    if id == 0 || not (is_known kind) || length marker_payload == 0
    then none
    else some (record {
      id = id;
      kind = kind;
      marker_payload = marker_payload;
      marker_seen = false;
      pre = [];
      held = [];
    })

-- The cut, and the replay buffer that it adopts; none is an adoption that failed.
unfoldable pub adopt_pre_marker : Cut → Option (List ℕ) → Option (Cut × List ℕ)
adopt_pre_marker c none = none
adopt_pre_marker c (some replay) =
    if is_live_kind c.kind
      || c.marker_seen
      || not (length c.pre == 0)
      || ltb replay_byte_cap (length replay)
    then none
    else some (record c { pre = replay }, [])

-- What a chunk is: output that goes on at once, and whether it is activity.
pub record CutRoute : Type 0 where
  pub live : List ℕ
  pub activity : Bool

unfoldable pub feed_ordinary : Cut → List ℕ → Option (CutRoute × Cut)
feed_ordinary c chunk =
    if not c.marker_seen
    then (if is_live_kind c.kind
        then some (record { live = chunk; activity = false }, c)
        else if ltb replay_byte_cap (length c.pre + length chunk)
        then none
        else some (record { live = []; activity = false }, record c { pre = c.pre ++ chunk }))
    else if ltb held_byte_cap (length c.held + length chunk)
    then none
    else some
        (record { live = []; activity = ltb 0 (length chunk) }, record c { held = c.held ++ chunk })

unfoldable pub accept_marker : Cut → List ℕ → Option CutError × Cut
accept_marker c payload =
    if c.marker_seen
    then (some duplicate_marker, c)
    else if not (bytes_equal payload c.marker_payload)
    then (some stale_marker, c)
    else (none, record c { marker_seen = true })

unfoldable pub discard_held : Cut → Cut
discard_held c = record c { held = [] }

unfoldable pub discard_all : Cut → Cut
discard_all c = discard_held (record c { pre = [] })
