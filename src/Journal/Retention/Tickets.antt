-- ===== src/Journal/Retention/Tickets.antt =====
-- `enter` and `leave` by any number of goroutines: the ledger's critical section has one owner at a
-- time, and is entered in the order of the calls of `enter`.
use persea_terminal.Base.{
  refl, false, [], ℕ, ◌+◌, ◌^◌, ◌≤◌, ◌<◌, ◌≡◌, sym, ◌≢◌, ◌⊎◌, inl, inr, true, Option, none, some,
  arith, ◌==◌, if◌then◌else◌, Bool-cases, subst,
}
use persea_terminal.Journal.Retention.{
  RetentionLedger, take_ticket, is_served, sleep, is_asleep, leave,
}

-- Where a goroutine is, with its ticket. One that waits is asleep if the ledger has its ticket there,
-- and goes on to its test only when it is awake.
pub data Phase : Type 0 where
  outside : Phase
  waits inside : ℕ → Phase

pub record World : Type 0 where
  pub ledger : RetentionLedger
  pub phase : ℕ → Phase

abbrev pub update : (ℕ → Phase) → ℕ → Phase → ℕ → Phase
update f i p j = if i == j then p else f j

pub data Step (w w' : World) : Type 0 where
  calls :
      (i : ℕ)
      → w.phase i ≡ outside
      → w.ledger.next + 1 < 2 ^ 64
      → w' ≡ record {
        ledger = (take_ticket w.ledger).1;
        phase = update w.phase i (waits (take_ticket w.ledger).0);
      }
      → Step w w'
  enters :
      (i ticket : ℕ)
      → w.phase i ≡ waits ticket
      → is_asleep w.ledger.asleep ticket ≡ false
      → is_served w.ledger ticket ≡ true
      → w' ≡ record w { phase = update w.phase i (inside ticket) }
      → Step w w'
  rests :
      (i ticket : ℕ)
      → w.phase i ≡ waits ticket
      → is_asleep w.ledger.asleep ticket ≡ false
      → is_served w.ledger ticket ≡ false
      → w' ≡ record w { ledger = sleep w.ledger ticket }
      → Step w w'
  exits :
      (i ticket : ℕ)
      → w.phase i ≡ inside ticket
      → w' ≡ record { ledger = (leave w.ledger).0; phase = update w.phase i outside }
      → Step w w'

abbrev pub idle : RetentionLedger → World
idle l = record { ledger = l; phase = λ i. outside }

pub data Reach (l : RetentionLedger) : World → Type 0 where
  starts : Reach l (idle l)
  steps : {w w' : World} → Reach l w → Step w w' → Reach l w'

-- The ticket of a goroutine in `enter` or behind it.
abbrev pub ticket_of : Phase → Option ℕ
ticket_of outside = none
ticket_of (waits t) = some t
ticket_of (inside t) = some t

pub record IsOrderly (w : World) : Type 0 where
  pub issued :
      (i t : ℕ) → ticket_of (w.phase i) ≡ some t → (w.ledger.serving ≤ t) × (t < w.ledger.next)
  pub unique : (i j t : ℕ) → ticket_of (w.phase i) ≡ some t → ticket_of (w.phase j) ≡ some t → i ≡ j
  pub served : (i t : ℕ) → w.phase i ≡ inside t → t ≡ w.ledger.serving
  pub held :
      (t : ℕ)
      → w.ledger.serving ≤ t
      → t < w.ledger.next
      → (i : ℕ) × (ticket_of (w.phase i) ≡ some t)
  pub ordered : w.ledger.serving ≤ w.ledger.next
  pub in_range : w.ledger.next < 2 ^ 64

calls-held :
    (w : World) (i t : ℕ)
    → IsOrderly w
    → w.phase i ≡ outside
    → w.ledger.serving ≤ t
    → t < w.ledger.next + 1
    → (j : ℕ) × (ticket_of (update w.phase i (waits w.ledger.next) j) ≡ some t)
calls-held w i t o out low high = elim (Bool-cases (t == w.ledger.next)) [
  | inl new ↦ (i, ground arith)
  | inr old ↦ let (j, e) = o.held t low (ground arith) in (j, ground (arith, out, e))
]

calls-IsOrderly :
    (w : World) (i : ℕ)
    → IsOrderly w
    → w.phase i ≡ outside
    → w.ledger.next + 1 < 2 ^ 64
    → IsOrderly (record {
      ledger = (take_ticket w.ledger).1;
      phase = update w.phase i (waits (take_ticket w.ledger).0);
    })
unfolding take_ticket
calls-IsOrderly w i o out fresh = record {
  issued = λ j t e. ground (arith, o.issued j t);
  unique = λ j k t e f. ground (arith, o.unique j k t, o.issued j t, o.issued k t);
  served = λ j t e. ground (arith, o.served j t);
  held = λ t low high. calls-held w i t o out low (ground arith);
  ordered = ground (arith, o.ordered);
  in_range = ground arith;
}

enters-IsOrderly :
    (w : World) (i ticket : ℕ)
    → IsOrderly w
    → w.phase i ≡ waits ticket
    → is_served w.ledger ticket ≡ true
    → IsOrderly (record w { phase = update w.phase i (inside ticket) })
unfolding is_served
enters-IsOrderly w i ticket o at turn = record {
  issued = λ j t e. ground (arith, o.issued j t, o.issued i ticket);
  unique = λ j k t e f. ground (arith, o.unique j k t, o.unique i k t, o.unique j i t);
  served = λ j t e. ground (arith, o.served j t);
  held = λ t low high. let (j, e) = o.held t low high in (j, ground (arith, at, e));
  ordered = o.ordered;
  in_range = o.in_range;
}

rests-IsOrderly :
    (w : World) (ticket : ℕ) → IsOrderly w → IsOrderly (record w { ledger = sleep w.ledger ticket })
unfolding sleep
rests-IsOrderly w ticket o = record {
  issued = o.issued;
  unique = o.unique;
  served = o.served;
  held = o.held;
  ordered = o.ordered;
  in_range = o.in_range;
}

exits-IsOrderly :
    (w : World) (i ticket : ℕ)
    → IsOrderly w
    → w.phase i ≡ inside ticket
    → IsOrderly (record { ledger = (leave w.ledger).0; phase = update w.phase i outside })
unfolding leave
exits-IsOrderly w i ticket o at =
    let mine = o.issued i ticket (ground (arith, at)) in
    let turn = o.served i ticket at in
    record {
      issued = λ j t e. ground (arith, o.issued j t, o.unique i j t);
      unique = λ j k t e f. ground (arith, o.unique j k t);
      served = λ j t e. ground (arith, o.served j t, o.unique i j t);
      held = λ t low high.
          let (j, e) = o.held t (ground arith) high in
          (j, ground (arith, at, e, o.served i ticket at));
      ordered = ground arith;
      in_range = o.in_range;
    }

Step-IsOrderly : (w w' : World) → Step w w' → IsOrderly w → IsOrderly w'
Step-IsOrderly w w' (calls i out fresh e) o =
    subst IsOrderly (sym e) (calls-IsOrderly w i o out fresh)
Step-IsOrderly w w' (enters i t at up turn e) o =
    subst IsOrderly (sym e) (enters-IsOrderly w i t o at turn)
Step-IsOrderly w w' (rests i t at up later e) o = subst IsOrderly (sym e) (rests-IsOrderly w t o)
Step-IsOrderly w w' (exits i t at e) o = subst IsOrderly (sym e) (exits-IsOrderly w i t o at)

Reach-IsOrderly :
    (l : RetentionLedger) {w : World}
    → l.serving ≡ l.next
    → l.next < 2 ^ 64
    → Reach l w
    → IsOrderly w
Reach-IsOrderly l h k starts = record {
  issued = λ i t e. cc;
  unique = λ i j t e f. cc;
  served = λ i t e. cc;
  held = λ t low high. absurd (omega arith);
  ordered = omega arith;
  in_range = k;
}
Reach-IsOrderly l h k (steps {w} {w'} r s) = Step-IsOrderly w w' s (Reach-IsOrderly l h k r)

-- From a ledger that nobody has entered, two goroutines are never inside at once, and one that is
-- inside has a smaller ticket than any that waits: the section is entered in the order of the calls.
pub inside-first :
    (l : RetentionLedger) {w : World} (i j s t : ℕ)
    → l.serving ≡ l.next
    → l.next < 2 ^ 64
    → Reach l w
    → w.phase i ≡ inside s
    → ticket_of (w.phase j) ≡ some t
    → (i ≢ j)
    → (w.phase j ≡ waits t) × (s < t)
inside-first l {w} i j s t h k r p q other =
    let o = Reach-IsOrderly l h k r in
    (
      ground (arith, o.served i s p, o.served j t, o.unique i j s, q, p),
      ground (arith, o.served i s p, o.issued j t q, o.unique i j s, p, q),
    )

-- Nobody sleeps whose ticket is being served.
abbrev IsAwake : World → Type 0
IsAwake w = is_asleep w.ledger.asleep w.ledger.serving ≡ false

Step-IsAwake : (w w' : World) → Step w w' → IsAwake w → IsAwake w'
unfolding take_ticket is_served sleep is_asleep leave
Step-IsAwake w w' (calls i out fresh e) a = subst IsAwake (sym e) a
Step-IsAwake w w' (enters i t at up turn e) a = subst IsAwake (sym e) a
Step-IsAwake w w' (rests i t at up later e) a = subst IsAwake (sym e) (ground (arith, later, a))
Step-IsAwake w w' (exits i t at e) a = subst IsAwake (sym e) refl

Reach-IsAwake : (l : RetentionLedger) {w : World} → l.asleep ≡ [] → Reach l w → IsAwake w
unfolding is_asleep
Reach-IsAwake l none_asleep starts = rw none_asleep refl
Reach-IsAwake l none_asleep (steps {w} {w'} r s) =
    Step-IsAwake w w' s (Reach-IsAwake l none_asleep r)

-- From a ledger that nobody has entered, the section is never stuck: while somebody waits, somebody
-- is inside, or there is a waiting goroutine whose ticket is being served and that is not asleep.
pub waits-progress :
    (l : RetentionLedger) {w : World} (i t : ℕ)
    → l.serving ≡ l.next
    → l.next < 2 ^ 64
    → l.asleep ≡ []
    → Reach l w
    → w.phase i ≡ waits t
    → (j : ℕ) × ((w.phase j ≡ inside w.ledger.serving)
        ⊎ ((w.phase j ≡ waits w.ledger.serving)
            × (is_served w.ledger w.ledger.serving ≡ true)
            × (is_asleep w.ledger.asleep w.ledger.serving ≡ false)))
unfolding is_served
waits-progress l {w} i t h k none_asleep r p =
    let o = Reach-IsOrderly l h k r in
    let mine = o.issued i t (ground (arith, p)) in
    let (j, e) = o.held w.ledger.serving (omega arith) (omega arith) in
    (j, progress (w.phase j) w.ledger.serving e)
  where
    progress :
        (q : Phase) (n : ℕ)
        → ticket_of q ≡ some n
        → (q ≡ inside n)
          ⊎ ((q ≡ waits n)
              × ((n == n) ≡ true)
              × (is_asleep w.ledger.asleep w.ledger.serving ≡ false))
    progress outside n e = cc
    progress (waits m) n e = inr (ground arith, ground arith, Reach-IsAwake l none_asleep r)
    progress (inside m) n e = inl (ground arith)
