-- ===== src/Journal/Retention/Slots.antt =====
-- The slots: what is admitted, and the last slot, which rotation alone may take.
use persea_terminal.Base.{
  ◌-◌, ◌≤◌, ℕ, ◌+◌, ◌<◌, ◌≡◌, ◌↔◌, Bool, true, false, none, arith, ltb, if◌then◌else◌, pos,
}
use persea_terminal.Journal.Retention.{
  policy_limit, slots_policy, RetentionLedger, new_retention_ledger, take_ticket, leave,
  reserve_complete_pane, release_complete_pane, retire_complete_pane, release_proven_capacity,
  available_complete_panes,
}

-- The calls that change the ledger. `begins` is BeginRotationCapacity, which reserves the slot of the
-- successor, and `ends` the release of a slot of that rotation: of the predecessor's in Commit, of
-- the successor's when the rotation is given up. `closes` is the release of any other pane's slot.
pub data Op : Type 0 where
  admits begins ends closes retires leaves tickets : Op
  refunds : Bool → Op

-- The new ledger, whether the call succeeded, and whether the wake function was called.
unfoldable pub step : RetentionLedger → Op → RetentionLedger × Bool × Bool
step l admits = let (l', done) = reserve_complete_pane l true in (l', done, false)
step l begins = let (l', done) = reserve_complete_pane l false in (l', done, false)
step l ends = (release_complete_pane l, true, false)
step l closes = (release_complete_pane l, true, false)
step l retires = let (l', done) = retire_complete_pane l in (l', done, false)
step l leaves = let (l', woke) = leave l in (l', true, woke)
step l tickets = ((take_ticket l).1, true, false)
step l (refunds released) = (release_proven_capacity l released, true, false)

-- How many rotations are open behind a call that succeeded or not.
abbrev pub opened : ℕ → Op → Bool → ℕ
opened n begins true = n + 1
opened n begins false = n
opened n ends done = n - 1
opened n admits done = n
opened n closes done = n
opened n retires done = n
opened n leaves done = n
opened n tickets done = n
opened n (refunds released) done = n

-- The calls in any order, a rotation that is open ending once.
pub data Reach (from : RetentionLedger) : RetentionLedger → ℕ → Type 0 where
  starts : Reach from from 0
  steps :
      {l : RetentionLedger} {n : ℕ} (op : Op)
      → (op ≡ ends → 0 < n)
      → Reach from l n
      → Reach from (step l op).0 (opened n op (step l op).1)

-- The last slot is in use only while a rotation is open.
abbrev pub KeepsLast : RetentionLedger → ℕ → Type 0
KeepsLast l n = (0 < l.limit) × (l.reserved ≤ l.limit) × (n ≡ 0 → l.reserved < l.limit)

step-KeepsLast :
    (l : RetentionLedger) (n : ℕ) (op : Op)
    → (op ≡ ends → 0 < n)
    → KeepsLast l n
    → KeepsLast (step l op).0 (opened n op (step l op).1)
unfolding step reserve_complete_pane release_complete_pane retire_complete_pane
    release_proven_capacity leave take_ticket
step-KeepsLast l n admits o h = ground (arith, h.2)
step-KeepsLast l n begins o h = ground (arith, h.2)
step-KeepsLast l n ends o h = ground (arith, h.2)
step-KeepsLast l n closes o h = ground (arith, h.2)
step-KeepsLast l n retires o h = ground (arith, h.2)
step-KeepsLast l n leaves o h = ground (arith, h.2)
step-KeepsLast l n tickets o h = ground (arith, h.2)
step-KeepsLast l n (refunds released) o h = ground (arith, h.2)

pub Reach-KeepsLast :
    (l : RetentionLedger) {m : RetentionLedger} {n : ℕ}
    → l.reserved < l.limit
    → Reach l m n
    → KeepsLast m n
Reach-KeepsLast l h starts = (omega arith, omega arith, λ e. h)
Reach-KeepsLast l h (steps {l = m} {n} op o r) = step-KeepsLast m n op o (Reach-KeepsLast l h r)

-- After any calls on a ledger that starts with a free slot, in any order, no more slots are reserved
-- than there are; a rotation that is denied finds another one open and every slot reserved; and when
-- a rotation ends, a slot is free for the next.
pub Reach-rotations :
    (l : RetentionLedger) {m : RetentionLedger} {n : ℕ}
    → l.reserved < l.limit
    → Reach l m n
    → (m.reserved ≤ m.limit)
      × ((step m begins).1 ≡ false → (0 < n) × (m.reserved ≡ m.limit))
      × ((step (step m ends).0 begins).1 ≡ true)
unfolding step reserve_complete_pane release_complete_pane
Reach-rotations l {m} {n} h r =
    let (some_slot, within, free) = Reach-KeepsLast l h r in
    (within, (λ denied. (ground (arith, free), ground arith)), ground arith)

-- An ordinary admission succeeds exactly while the advertised headroom is positive; it takes one
-- slot of the headroom, and a denial changes nothing.
pub admits-available :
    (l : RetentionLedger)
    → (((step l admits).1 ≡ true) ↔ (0 < available_complete_panes l))
      × ((step l admits).1 ≡ true
          → available_complete_panes l ≡ available_complete_panes (step l admits).0 + 1)
      × ((step l admits).1 ≡ false → (step l admits).0 ≡ l)
unfolding step reserve_complete_pane available_complete_panes
admits-available l = ground arith

-- The limit of a new ledger is the configured number of slots, nine if none is configured.
pub limit-new_retention_ledger :
    (configured : ℕ) (occupied : ℕ)
    → (new_retention_ledger (pos configured) none occupied).limit
      ≡ (if ltb 0 configured then configured else 9)
unfolding new_retention_ledger slots_policy policy_limit
limit-new_retention_ledger configured occupied = ground arith
