-- ===== src/FrontDoor/FlowWindow/Reach.antt =====
-- The window under the relay loop of internal/frontdoor/server.go: a frame is relayed only while the
-- window is open, and acknowledgements come from the browser, right or wrong.
use persea_terminal.Base.{
  ℕ, zero, suc, ◌+◌, ◌-◌, ◌^◌, ◌≤◌, ◌<◌, ◌≡◌, ap, inl, inr, Bool, true, some, List, [], ◌∷◌, arith,
  drop,
}
use persea_terminal.FrontDoor.FlowWindow.{
  FlowWindow, empty, flow_window_bytes, is_open, record_frame, ack,
}
use persea_terminal.FrontDoor.FlowWindow.Bounds.{
  IsValid, pending, sum, record_frame-IsValid, ack_lem, Advanced,
}

-- `limit` bounds the size of one frame.
pub data Step (limit : ℕ) (w : FlowWindow) (w' : FlowWindow) : Type 0 where
  relays :
      (size : ℕ)
      → is_open w ≡ true
      → size ≤ limit
      → w.sent + 1 < 2 ^ 64
      → w' ≡ record_frame w size
      → Step limit w w'
  acknowledges : (count : ℕ) (verdict : Bool) → ack w count ≡ some (verdict, w') → Step limit w w'

pub data Reach (limit : ℕ) : FlowWindow → Type 0 where
  starts : Reach limit empty
  steps : {w w' : FlowWindow} → Reach limit w → Step limit w w' → Reach limit w'

abbrev pub IsBounded : ℕ → FlowWindow → Type 0
IsBounded limit w = IsValid w × (w.inflight < flow_window_bytes + limit)

sum-drop-le : (n : ℕ) (xs : List ℕ) → sum (drop n xs) ≤ sum xs
sum-drop-le zero xs = omega arith
sum-drop-le (suc n) [] = omega arith
sum-drop-le (suc n) (x ∷ xs) = omega (arith, sum-drop-le n xs)

inflight-Advanced :
    {w w' : FlowWindow} (count : ℕ) → IsValid w → Advanced w count w' → w'.inflight ≤ w.inflight
inflight-Advanced {w} count v a = omega (
  arith,
  a.valid.measured,
  ap sum a.pending_now,
  sum-drop-le (count - w.acked) (pending w),
  v.measured,
)

Step-IsBounded :
    (limit : ℕ) (w w' : FlowWindow) → IsBounded limit w → Step limit w w' → IsBounded limit w'
unfolding is_open record_frame
Step-IsBounded limit w w' (v, b) (relays size opened small fresh e) =
    rw e ((record_frame-IsValid w size v fresh).0, ground arith)
Step-IsBounded limit w w' (v, b) (acknowledges count verdict e) = elim (ack_lem w count v) [
  | inl (_, same) ↦ ground (arith, e, same)
  | inr (next, done, a) ↦
      let moved : w' ≡ next = ground arith in
      rw moved (a.valid, omega (arith, inflight-Advanced count v a))
]

-- Whatever the browser acknowledges, a window whose frames are at most `limit` bytes long stays
-- valid, and less than the window and one frame are in flight.
pub Reach-IsBounded : (limit : ℕ) {w : FlowWindow} → Reach limit w → IsBounded limit w
Reach-IsBounded limit starts = (omega arith, omega arith)
Reach-IsBounded limit (steps {w} {w'} r s) = Step-IsBounded limit w w' (Reach-IsBounded limit r) s
