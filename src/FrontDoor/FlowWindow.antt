-- ===== src/FrontDoor/FlowWindow.antt =====
-- internal/frontdoor/flow_window.go: the attachment frames written to one WebSocket that the
-- browser has not acknowledged yet. A result of `none` is a run-time panic (an index out of range).
-- `inflight` is a Go int, here a ℕ: the subtraction of `drain` never goes below 0 from a window
-- that satisfies `Bounds.IsValid`.
pub mod Bounds
pub mod Reach
mod Tests
use persea_terminal.Base.{
  ℕ, zero, suc, ◌+◌, ◌-◌, ◌*◌, ◌/◌, ◌%◌, ◌^◌, Bool, true, false, ◌||◌, List, [], ◌∷◌, ◌++◌, Option,
  none, some, ltb, leb, ◌==◌, if◌then◌else◌, length, get_elem?, drop, ◌>>=◌,
}

abbrev pub flow_window_bytes : ℕ
flow_window_bytes = 131072

pub record FlowWindow : Type 0 where
  pub sizes : List ℕ
  pub head : ℕ
  pub sent : ℕ
  pub acked : ℕ
  pub inflight : ℕ

abbrev pub empty : FlowWindow
empty = record { sizes = []; head = 0; sent = 0; acked = 0; inflight = 0 }

unfoldable pub is_open : FlowWindow → Bool
is_open w = ltb w.inflight flow_window_bytes

-- `sent` is a uint64.
unfoldable pub record_frame : FlowWindow → ℕ → FlowWindow
record_frame w size = record w {
  sizes = w.sizes ++ (size ∷ []);
  sent = (w.sent + 1) % 2 ^ 64;
  inflight = w.inflight + size;
}

-- The loop of `ack`, by the rounds that are left.
unfoldable pub drain : ℕ → FlowWindow → Option FlowWindow
drain zero w = some w
drain (suc n) w = elim (get_elem? w.sizes w.head) [
  | none ↦ none
  | some size ↦
      drain n (record w { inflight = w.inflight - size; head = w.head + 1; acked = w.acked + 1 })
]

unfoldable pub compact : FlowWindow → FlowWindow
compact w =
    if w.head == length w.sizes
    then record w { sizes = []; head = 0 }
    else if ltb (length w.sizes / 2) w.head
    then record w { sizes = drop w.head w.sizes; head = 0 }
    else w

unfoldable pub ack : FlowWindow → ℕ → Option (Bool × FlowWindow)
ack w count =
    if leb count w.acked || ltb w.sent count
    then some (false, w)
    else (drain (count - w.acked) w >>= λ w'. some (true, compact w'))
