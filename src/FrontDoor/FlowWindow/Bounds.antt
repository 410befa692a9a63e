-- ===== src/FrontDoor/FlowWindow/Bounds.antt =====
-- What flow_window.go keeps true of the window, and its view as a queue of unacknowledged frames.
use persea_terminal.Base.{
  ℕ, zero, suc, ◌+◌, ◌-◌, ◌*◌, ◌^◌, ◌≤◌, ◌<◌, ◌≡◌, refl, ap, ◌∙◌, true, false, List, [], ◌∷◌, ◌++◌,
  some, inl, inr, ◌⊎◌, arith, drop-drop, drop-nil_of_le, Bool-cases, ◌||◌, leb, ltb, length, drop,
  length-append, length-drop, drop-append_le, drop-cons,
}
use native.Mathlib.Nat.{add-zero}
use persea_terminal.FrontDoor.FlowWindow.{FlowWindow, record_frame, drain, compact, ack}

abbrev pub sum : List ℕ → ℕ
sum [] = 0
sum (x ∷ xs) = x + sum xs

-- The sizes of the frames that are not acknowledged, oldest first.
abbrev pub pending : FlowWindow → List ℕ
pending w = drop w.head w.sizes

pub record IsValid (w : FlowWindow) : Type 0 where
  pub in_sizes : w.head ≤ length w.sizes
  pub counted : w.sent ≡ w.acked + length (pending w)
  pub measured : w.inflight ≡ sum (pending w)
  pub compacted : 2 * w.head ≤ length w.sizes

sum-append : (xs ys : List ℕ) → sum (xs ++ ys) ≡ sum xs + sum ys
sum-append [] ys = omega arith
sum-append (x ∷ xs) ys = omega (arith, sum-append xs ys)

-- A frame that is written joins the end of the queue of unacknowledged frames, the window stays
-- valid, and `sent` does not wrap.
pub record_frame-IsValid :
    (w : FlowWindow) (size : ℕ)
    → IsValid w
    → w.sent + 1 < 2 ^ 64
    → IsValid (record_frame w size)
      × (pending (record_frame w size) ≡ pending w ++ (size ∷ []))
      × ((record_frame w size).sent ≡ w.sent + 1)
      × ((record_frame w size).acked ≡ w.acked)
unfolding record_frame
record_frame-IsValid w size v h = (
  record {
    in_sizes = omega (arith, length-append w.sizes (size ∷ []));
    counted = omega (arith, ap length joined, length-append (pending w) (size ∷ []));
    measured = omega (arith, ap sum joined, sum-append (pending w) (size ∷ []));
    compacted = omega (arith, length-append w.sizes (size ∷ []));
  },
  joined,
  omega arith,
  refl,
)
  where
    joined : drop w.head (w.sizes ++ (size ∷ [])) ≡ drop w.head w.sizes ++ (size ∷ [])
    joined = drop-append_le w.head w.sizes (size ∷ []) v.in_sizes

-- The window after `k` rounds of the loop of `ack`.
abbrev drained : FlowWindow → ℕ → FlowWindow
drained w k = record w {
  inflight = sum (drop (w.head + k) w.sizes);
  head = w.head + k;
  acked = w.acked + k;
}

drain_lem :
    (k : ℕ) (w : FlowWindow)
    → w.head + k ≤ length w.sizes
    → w.inflight ≡ sum (pending w)
    → drain k w ≡ some (drained w k)
unfolding drain
drain_lem zero w h e = rw (add-zero, add-zero, e)
drain_lem (suc k) w h e =
    let (x, hit, rest) = drop-cons w.head w.sizes (omega arith) in
    ground (
      arith,
      drain_lem k (record w { head = w.head + 1; acked = w.acked + 1; inflight = w.inflight - x }),
      ap sum rest,
    )

-- All of `IsValid` but the compaction, which the loop of `ack` breaks for a while.
record IsCounted (w : FlowWindow) : Type 0 where
  in_sizes : w.head ≤ length w.sizes
  counted : w.sent ≡ w.acked + length (pending w)
  measured : w.inflight ≡ sum (pending w)

compact-IsValid :
    (w : FlowWindow) → IsCounted w → IsValid (compact w) × (pending (compact w) ≡ pending w)
unfolding compact
compact-IsValid w c = ground (arith, drop-nil_of_le w.head w.sizes, length-drop w.head w.sizes)

compact-counts : (w : FlowWindow) → ((compact w).acked ≡ w.acked) × ((compact w).sent ≡ w.sent)
unfolding compact
compact-counts w = ground arith

-- What an acknowledgement that is accepted does.
pub record Advanced (w : FlowWindow) (count : ℕ) (w' : FlowWindow) : Type 0 where
  pub advances : w.acked < count
  pub was_sent : count ≤ w.sent
  pub valid : IsValid w'
  pub acked_now : w'.acked ≡ count
  pub sent_same : w'.sent ≡ w.sent
  pub pending_now : pending w' ≡ drop (count - w.acked) (pending w)

-- `ack` never panics on a valid window. It refuses a count that repeats, goes back or runs ahead and
-- leaves the window as it was; it accepts any other count, and then the window is valid and holds
-- exactly the frames after that count.
pub ack_lem :
    (w : FlowWindow) (count : ℕ)
    → IsValid w
    → (((count ≤ w.acked) ⊎ (w.sent < count)) × (ack w count ≡ some (false, w)))
      ⊎ ((w' : FlowWindow) × (ack w count ≡ some (true, w')) × Advanced w count w')
unfolding ack
ack_lem w count v = elim (Bool-cases (leb count w.acked || ltb w.sent count)) [
  | inl refused ↦ inl (ground arith, rw refused)
  | inr passed ↦
      let bounds : (w.acked < count) × (count ≤ w.sent) = ground arith in
      let fits : w.head + (count - w.acked) ≤ length w.sizes =
        omega (arith, length-drop w.head w.sizes) in
      let rest : drop (w.head + (count - w.acked)) w.sizes ≡ drop (count - w.acked) (pending w) =
        drop-drop w.head (count - w.acked) w.sizes in
      let done = compact-IsValid (drained w (count - w.acked)) (record {
        in_sizes = fits;
        counted =
            omega
              (arith, length-drop w.head w.sizes, length-drop (w.head + (count - w.acked)) w.sizes);
        measured = refl;
      }) in
      inr (
        compact (drained w (count - w.acked)),
        rw (passed, drain_lem _ w fits v.measured),
        record {
          advances = bounds.0;
          was_sent = bounds.1;
          valid = done.0;
          acked_now = (compact-counts _).0 ∙ omega arith;
          sent_same = (compact-counts _).1;
          pending_now = done.1 ∙ rest;
        },
      )
]
