-- ===== src/Terminal/Egress/World.antt =====
-- The egress with what was admitted and written, its invariant, and the admission that keeps it.
use persea_terminal.Base.{
  ℕ, ◌+◌, ◌-◌, ◌≤◌, ◌≡◌, sym, ap, ◌∙◌, inl, inr, Bool, true, false, ◌||◌, Option, none, some, List,
  [], ◌∷◌, ◌++◌, append-nil, append_assoc, arith, ltb, Bool-cases, length, length-append, subst,
}
use persea_terminal.Terminal.Egress.{
  max_egress_frames, max_egress_queue_bytes, EgressError, closed_egress, saturated, Pump, waiting,
  running, stopped, writing, Egress, new_egress, frames_in_flight, total_bytes, admit, finish,
  signal, pump_wakes, pump_takes, pump_settles,
}

-- An egress with the payloads that were admitted, and those that were written without an error, and
-- the number of callers that have given their lock back and have not called `signal`.
pub record World : Type 0 where
  pub egress : Egress
  pub admitted : List (List ℕ)
  pub written : List (List ℕ)
  pub owed : ℕ

abbrev pub starting : Bool → World
starting owns_output = record {
  egress = new_egress owns_output;
  admitted = [];
  written = [];
  owed = 0;
}

-- Only an admission of some payloads signals.
abbrev pub owing : List (List ℕ) → ℕ → ℕ
owing [] n = n
owing (payload ∷ payloads) n = n + 1

-- The payloads count as admitted if the answer is no error.
abbrev pub admitting : World → List (List ℕ) → Option EgressError × Egress → World
admitting w payloads (none, e) = record w {
  egress = e;
  admitted = w.admitted ++ payloads;
  owed = owing payloads w.owed;
}
admitting w payloads (some error, e) = record w { egress = e }

abbrev pub settling : World → List ℕ → Bool → World
settling w payload false = record w {
  egress = pump_settles w.egress payload false;
  written = w.written ++ (payload ∷ []);
}
settling w payload true = record w { egress = pump_settles w.egress payload true }

pub data Reach : World → Type 0 where
  starts : (owns_output : Bool) → Reach (starting owns_output)
  admits :
      {w : World} (payloads : List (List ℕ))
      → Reach w
      → Reach (admitting w payloads (admit w.egress payloads))
  finishes :
      {w : World} → Reach w → Reach (record w { egress = finish w.egress; owed = w.owed + 1 })
  signals :
      {w : World} (owed : ℕ)
      → Reach w
      → w.owed ≡ owed + 1
      → Reach (record w { egress = signal w.egress; owed = owed })
  wakes :
      {w : World}
      → Reach w
      → w.egress.pump ≡ waiting
      → w.egress.wake ≡ true
      → Reach (record w { egress = pump_wakes w.egress })
  takes :
      {w : World}
      → Reach w
      → w.egress.pump ≡ running
      → Reach (record w { egress = pump_takes w.egress })
  settles :
      {w : World} (payload : List ℕ) (error : Bool)
      → Reach w
      → w.egress.pump ≡ writing payload
      → Reach (settling w payload error)

abbrev pub payloads_in_flight : Pump → List (List ℕ)
payloads_in_flight (writing payload) = payload ∷ []
payloads_in_flight waiting = []
payloads_in_flight running = []
payloads_in_flight stopped = []

pub record IsValid (w : World) : Type 0 where
  pub bytes :
      w.egress.queued_bytes
      ≡ total_bytes w.egress.queue + total_bytes (payloads_in_flight w.egress.pump)
  pub few_bytes : w.egress.queued_bytes ≤ max_egress_queue_bytes
  pub few_frames : length w.egress.queue + frames_in_flight w.egress.pump ≤ max_egress_frames
  pub fifo :
      w.egress.failed ≡ false
      → w.admitted ≡ w.written ++ (payloads_in_flight w.egress.pump ++ w.egress.queue)
  pub prefix : (rest : List (List ℕ)) × (w.admitted ≡ w.written ++ rest)
  pub failure : w.egress.failed ≡ true → w.egress.pump ≡ stopped
  pub awake :
      w.egress.pump ≡ waiting
      → w.egress.wake ≡ false
      → w.owed ≡ 0
      → (w.egress.queue ≡ []) × (w.egress.closing ≡ false)
  pub ended : w.egress.pump ≡ stopped → (w.egress.queue ≡ []) × (w.egress.closed ≡ true)
  pub together : w.egress.closed ≡ w.egress.closing

total_bytes-append : (a b : List (List ℕ)) → total_bytes (a ++ b) ≡ total_bytes a + total_bytes b
total_bytes-append [] b = omega arith
total_bytes-append (p ∷ a) b = omega (arith, total_bytes-append a b)

-- What an admission of some payloads leaves.
abbrev pub grown : World → List (List ℕ) → World
grown w payloads = record w {
  egress = record w.egress {
    queue = w.egress.queue ++ payloads;
    queued_bytes = w.egress.queued_bytes + total_bytes payloads;
  };
  admitted = w.admitted ++ payloads;
  owed = w.owed + 1;
}

longer :
    (a written flight queue payloads : List (List ℕ))
    → a ≡ written ++ (flight ++ queue)
    → a ++ payloads ≡ written ++ (flight ++ (queue ++ payloads))
longer a written flight queue payloads e =
    ap (λ x. x ++ payloads) e
    ∙ append_assoc written (flight ++ queue) payloads
    ∙ ap (λ x. written ++ x) (append_assoc flight queue payloads)

grown-IsValid :
    (w : World) (payloads : List (List ℕ))
    → IsValid w
    → w.egress.closed ≡ false
    → (ltb (max_egress_queue_bytes - w.egress.queued_bytes) (total_bytes payloads)
        || ltb max_egress_frames
            (length w.egress.queue + frames_in_flight w.egress.pump + length payloads))
      ≡ false
    → IsValid (grown w payloads)
grown-IsValid w payloads v up room = record {
  bytes = omega (arith, v.bytes, total_bytes-append w.egress.queue payloads);
  few_bytes = ground (arith, room, v.few_bytes);
  few_frames = ground (arith, room, length-append w.egress.queue payloads);
  fifo = λ ok'.
      longer w.admitted w.written (payloads_in_flight w.egress.pump) w.egress.queue payloads
        (v.fifo ok');
  prefix =
      let (rest, e) = v.prefix in
      (rest ++ payloads, ap (λ x. x ++ payloads) e ∙ append_assoc w.written rest payloads);
  failure = v.failure;
  awake = λ idle h none_owed. absurd (omega arith);
  ended = λ h. ground (arith, v.ended h, up);
  together = v.together;
}

nothing-IsValid : (w : World) → IsValid w → IsValid (record w { admitted = w.admitted ++ [] })
nothing-IsValid w v =
    subst (λ a. IsValid (record w { admitted = a })) (sym (append-nil w.admitted)) v

pub admit-IsValid :
    (w : World) (payloads : List (List ℕ))
    → IsValid w
    → IsValid (admitting w payloads (admit w.egress payloads))
unfolding admit
admit-IsValid w payloads v = elim (Bool-cases w.egress.closed) [
  | inl down ↦
      subst (λ r. IsValid (admitting w payloads r))
        (let e : (some closed_egress, w.egress) ≡ admit w.egress payloads =
            closed_answer payloads down in
          e)
        v
  | inr up ↦ open_case payloads up
]
  where
    closed_answer :
        (ps : List (List ℕ))
        → w.egress.closed ≡ true
        → (some closed_egress, w.egress) ≡ admit w.egress ps
    closed_answer [] down = ground (arith, down)
    closed_answer (p ∷ ps) down = ground (arith, down)

    open_case :
        (ps : List (List ℕ))
        → w.egress.closed ≡ false
        → IsValid (admitting w ps (admit w.egress ps))
    open_case [] up =
        subst (λ r. IsValid (admitting w [] r))
          (let e : (none, w.egress) ≡ admit w.egress [] = ground (arith, up) in e)
          (nothing-IsValid w v)
    open_case (p ∷ ps) up =
        elim (Bool-cases (
          ltb (max_egress_queue_bytes - w.egress.queued_bytes) (total_bytes (p ∷ ps))
          || ltb max_egress_frames
              (length w.egress.queue + frames_in_flight w.egress.pump + length (p ∷ ps)))) [
                | inl full ↦
                    subst (λ r. IsValid (admitting w (p ∷ ps) r))
                      (let e : (some saturated, w.egress) ≡ admit w.egress (p ∷ ps) =
                          ground (arith, up, full) in
                        e)
                      v
                | inr room ↦
                    subst (λ r. IsValid (admitting w (p ∷ ps) r))
                      (let e : (none, (grown w (p ∷ ps)).egress) ≡ admit w.egress (p ∷ ps) =
                          ground (arith, up, room) in
                        e)
                      (grown-IsValid w (p ∷ ps) v up room)
              ]
