-- ===== src/Terminal/History/Tests.antt =====
-- A capture, a cut that is fed around its marker, and the theorems at them.
use persea_terminal.Base.{ℕ, ◌≡◌, refl, true, false, some, List, [], ◌∷◌}
use persea_terminal.ControlMode.Bytes.{codes}
use persea_terminal.Terminal.History.{
  newest, has_long_row, split_rows, drop_empty_last, has_byte, is_valid_history_rows, is_utf8_from,
  rows_of, bounded_offscreen_rows, Cut, initial, new_cut, CutRoute, feed_ordinary, adopt_pre_marker,
  is_utf8,
}
use persea_terminal.Terminal.History.Rows.{Captured, bounded_offscreen_rows-Captured}
use persea_terminal.Terminal.History.Cuts.{Fed, Reach, IsSplit, Reach-IsSplit}

-- Two rows, and an empty one between them.
abbrev two_rows : List ℕ
two_rows = 97 ∷ 10 ∷ 10 ∷ 0xc3 ∷ 0xa9 ∷ 10 ∷ []

keeps_rows :
    bounded_offscreen_rows two_rows 500 ≡ rows_of ((97 ∷ []) ∷ [] ∷ (0xc3 ∷ 0xa9 ∷ []) ∷ []) false
unfolding bounded_offscreen_rows is_valid_history_rows has_byte is_utf8_from drop_empty_last
    split_rows has_long_row newest
keeps_rows = refl

keeps_none : bounded_offscreen_rows two_rows 0 ≡ rows_of [] true
unfolding bounded_offscreen_rows is_valid_history_rows has_byte is_utf8_from drop_empty_last
    split_rows has_long_row newest
keeps_none = refl

surrogate_refused : is_utf8 (0xed ∷ 0xa0 ∷ 0x80 ∷ []) ≡ false
unfolding is_utf8_from
surrogate_refused = refl

bounded_offscreen_rows-Captured_example :
    Captured two_rows 500 (bounded_offscreen_rows two_rows 500)
bounded_offscreen_rows-Captured_example = bounded_offscreen_rows-Captured two_rows 500

abbrev marker : List ℕ
marker = codes "persea:v1:x"

abbrev first_cut : Cut
first_cut = record {
  id = 1;
  kind = initial;
  marker_payload = marker;
  marker_seen = false;
  pre = [];
  held = [];
}

creates_first : new_cut 1 initial marker ≡ some first_cut
unfolding new_cut
creates_first = refl

abbrev adopted : Cut
adopted = record first_cut { pre = codes "ab" }

adopts_replay : adopt_pre_marker first_cut (some (codes "ab")) ≡ some (adopted, [])
unfolding adopt_pre_marker
adopts_replay = refl

abbrev quiet : CutRoute
quiet = record { live = []; activity = false }

feeds_before :
    feed_ordinary adopted (codes "c") ≡ some (quiet, record adopted { pre = codes "abc" })
unfolding feed_ordinary
feeds_before = refl

abbrev fed_once : Fed
fed_once = record {
  cut = record adopted { pre = codes "abc" };
  adopted = codes "ab";
  before = codes "c";
  behind = [];
  live = [];
  active = false;
}

fed_once-Reach : Reach fed_once
fed_once-Reach =
    Reach.feeds (codes "c")
      (Reach.adopts (codes "ab") [] (Reach.creates 1 initial marker creates_first) adopts_replay)
      feeds_before

Reach-IsSplit_example : IsSplit fed_once
Reach-IsSplit_example = Reach-IsSplit fed_once-Reach
