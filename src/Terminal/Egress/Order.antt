-- ===== src/Terminal/Egress/Order.antt =====
-- The egress is a queue within its limits, and its pump misses nothing.
use persea_terminal.Base.{
  ℕ, ◌+◌, ◌≤◌, ◌≡◌, refl, sym, ap, ◌∙◌, inl, inr, Bool, true, false, List, [], ◌∷◌, ◌++◌,
  append_assoc, arith, if◌then◌else◌, Bool-cases, length, subst,
}
use persea_terminal.Terminal.Egress.{
  max_egress_frames, max_egress_queue_bytes, Pump, waiting, running, stopped, writing,
  frames_in_flight, total_bytes, finish, signal, pump_wakes, pump_takes, pump_settles,
}
use persea_terminal.Terminal.Egress.World.{
  World, settling, Reach, starts, admits, finishes, signals, wakes, takes, settles,
  payloads_in_flight, IsValid, admit-IsValid,
}

abbrev is_stopped : Pump → Bool
is_stopped stopped = true
is_stopped waiting = false
is_stopped running = false
is_stopped (writing payload) = false

busy : {p : Pump} → p ≡ stopped → is_stopped p ≡ false → ⊥
busy e h = ground (arith, ap is_stopped e, h)

finish-IsValid :
    (w : World) → IsValid w → IsValid (record w { egress = finish w.egress; owed = w.owed + 1 })
unfolding finish
finish-IsValid w v = record {
  bytes = v.bytes;
  few_bytes = v.few_bytes;
  few_frames = v.few_frames;
  fifo = v.fifo;
  prefix = v.prefix;
  failure = v.failure;
  awake = λ idle h none_owed. absurd (omega arith);
  ended = λ h. ((v.ended h).0, refl);
  together = refl;
}

signals-IsValid :
    (w : World) (owed : ℕ)
    → IsValid w
    → IsValid (record w { egress = signal w.egress; owed = owed })
unfolding signal
signals-IsValid w owed v = record {
  bytes = v.bytes;
  few_bytes = v.few_bytes;
  few_frames = v.few_frames;
  fifo = v.fifo;
  prefix = v.prefix;
  failure = v.failure;
  awake = λ idle h none_owed. cc;
  ended = v.ended;
  together = v.together;
}

wakes-IsValid :
    (w : World)
    → IsValid w
    → w.egress.pump ≡ waiting
    → IsValid (record w { egress = pump_wakes w.egress })
unfolding pump_wakes
wakes-IsValid w v at = record {
  bytes = ground (arith, v.bytes, at);
  few_bytes = v.few_bytes;
  few_frames = ground (arith, v.few_frames, at);
  fifo = λ h. ground (arith, v.fifo h, at);
  prefix = v.prefix;
  failure = λ h. absurd (busy (sym at ∙ v.failure h) refl);
  awake = λ idle h none_owed. cc;
  ended = λ h. cc;
  together = v.together;
}

-- The pump returns, or waits again.
idle-IsValid :
    (w : World)
    → IsValid w
    → w.egress.pump ≡ running
    → w.egress.queue ≡ []
    → IsValid (record w {
      egress = record w.egress { pump = if w.egress.closing then stopped else waiting };
    })
idle-IsValid w v at none' = elim (Bool-cases w.egress.closing) [
  | inl down ↦
      subst (λ p. IsValid (record w { egress = record w.egress { pump = p } }))
        (let e : stopped ≡ (if w.egress.closing then stopped else waiting) = ground (arith, down) in
          e)
        (record {
          bytes = ground (arith, v.bytes, at);
          few_bytes = v.few_bytes;
          few_frames = ground (arith, v.few_frames, at);
          fifo = λ h. ground (arith, v.fifo h, at);
          prefix = v.prefix;
          failure = λ h. absurd (busy (sym at ∙ v.failure h) refl);
          awake = λ idle h none_owed. cc;
          ended = λ h. (none', v.together ∙ down);
          together = v.together;
        })
  | inr up ↦
      subst (λ p. IsValid (record w { egress = record w.egress { pump = p } }))
        (let e : waiting ≡ (if w.egress.closing then stopped else waiting) = ground (arith, up) in
          e)
        (record {
          bytes = ground (arith, v.bytes, at);
          few_bytes = v.few_bytes;
          few_frames = ground (arith, v.few_frames, at);
          fifo = λ h. ground (arith, v.fifo h, at);
          prefix = v.prefix;
          failure = λ h. absurd (busy (sym at ∙ v.failure h) refl);
          awake = λ idle h none_owed. (none', up);
          ended = λ h. cc;
          together = v.together;
        })
]

begun-IsValid :
    (w : World) (payload : List ℕ) (payloads : List (List ℕ))
    → IsValid w
    → w.egress.pump ≡ running
    → w.egress.queue ≡ payload ∷ payloads
    → IsValid (record w { egress = record w.egress { queue = payloads; pump = writing payload } })
begun-IsValid w payload payloads v at full = record {
  bytes = ground (arith, v.bytes, at, full);
  few_bytes = v.few_bytes;
  few_frames = ground (arith, v.few_frames, at, full);
  fifo = λ h. ground (arith, v.fifo h, at, full);
  prefix = v.prefix;
  failure = λ h. absurd (busy (sym at ∙ v.failure h) refl);
  awake = λ idle h none_owed. cc;
  ended = λ h. cc;
  together = v.together;
}

takes-IsValid :
    (w : World)
    → IsValid w
    → w.egress.pump ≡ running
    → IsValid (record w { egress = pump_takes w.egress })
unfolding pump_takes
takes-IsValid w v at = go w.egress.queue refl
  where
    go :
        (q : List (List ℕ))
        → w.egress.queue ≡ q
        → IsValid (record w { egress = pump_takes w.egress })
    go [] e =
        subst (λ s. IsValid (record w { egress = s }))
          (let same : record w.egress { pump = if w.egress.closing then stopped else waiting }
                ≡ pump_takes w.egress =
              ground (arith, e) in
            same)
          (idle-IsValid w v at e)
    go (payload ∷ payloads) e =
        subst (λ s. IsValid (record w { egress = s }))
          (let same : record w.egress { queue = payloads; pump = writing payload }
                ≡ pump_takes w.egress =
              ground (arith, e) in
            same)
          (begun-IsValid w payload payloads v at e)

settles-IsValid :
    (w : World) (payload : List ℕ) (error : Bool)
    → IsValid w
    → w.egress.pump ≡ writing payload
    → IsValid (settling w payload error)
unfolding pump_settles
settles-IsValid w payload false v at = record {
  bytes = ground (arith, v.bytes, at);
  few_bytes = omega (arith, v.few_bytes);
  few_frames = ground (arith, v.few_frames, at);
  fifo = λ h.
      v.fifo h
      ∙ ap (λ p. w.written ++ (payloads_in_flight p ++ w.egress.queue)) at
      ∙ sym (append_assoc w.written (payload ∷ []) w.egress.queue);
  prefix = elim (Bool-cases w.egress.failed) [
    | inl bad ↦ absurd (busy (sym at ∙ v.failure bad) refl)
    | inr good ↦ (
      w.egress.queue,
      v.fifo good
          ∙ ap (λ p. w.written ++ (payloads_in_flight p ++ w.egress.queue)) at
          ∙ sym (append_assoc w.written (payload ∷ []) w.egress.queue),
    )
  ];
  failure = λ h. absurd (busy (sym at ∙ v.failure h) refl);
  awake = λ idle h none_owed. cc;
  ended = λ h. cc;
  together = v.together;
}
settles-IsValid w payload true v at = record {
  bytes = ground (arith, v.bytes, at);
  few_bytes = omega (arith, v.few_bytes);
  few_frames = omega arith;
  fifo = λ h. cc;
  prefix = v.prefix;
  failure = λ h. refl;
  awake = λ idle h none_owed. cc;
  ended = λ h. (refl, refl);
  together = refl;
}

Reach-IsValid : {w : World} → Reach w → IsValid w
Reach-IsValid (starts owns_output) = record {
  bytes = omega arith;
  few_bytes = omega arith;
  few_frames = omega arith;
  fifo = λ h. refl;
  prefix = ([], refl);
  failure = λ h. cc;
  awake = λ idle h none_owed. (refl, refl);
  ended = λ h. cc;
  together = refl;
}
Reach-IsValid (admits {w} payloads r) = admit-IsValid w payloads (Reach-IsValid r)
Reach-IsValid (finishes {w} r) = finish-IsValid w (Reach-IsValid r)
Reach-IsValid (signals {w} owed r e) = signals-IsValid w owed (Reach-IsValid r)
Reach-IsValid (wakes {w} r at token) = wakes-IsValid w (Reach-IsValid r) at
Reach-IsValid (takes {w} r at) = takes-IsValid w (Reach-IsValid r) at
Reach-IsValid (settles {w} payload error r at) =
    settles-IsValid w payload error (Reach-IsValid r) at

-- After any steps, what was written is the beginning of what was admitted, in its order.
pub Reach-prefix : {w : World} → Reach w → (rest : List (List ℕ)) × (w.admitted ≡ w.written ++ rest)
Reach-prefix r = (Reach-IsValid r).prefix

-- After any steps of which no write failed, what was admitted is what was written, then what is in
-- flight, and then what is queued.
pub Reach-fifo :
    {w : World}
    → Reach w
    → w.egress.failed ≡ false
    → w.admitted ≡ w.written ++ (payloads_in_flight w.egress.pump ++ w.egress.queue)
Reach-fifo r = (Reach-IsValid r).fifo

-- After any steps, the bytes that are counted are those queued and in flight, no more than the limit,
-- and so are the frames.
pub Reach-limits :
    {w : World}
    → Reach w
    → (w.egress.queued_bytes
        ≡ total_bytes w.egress.queue + total_bytes (payloads_in_flight w.egress.pump))
      × (w.egress.queued_bytes ≤ max_egress_queue_bytes)
      × (length w.egress.queue + frames_in_flight w.egress.pump ≤ max_egress_frames)
Reach-limits r = let v = Reach-IsValid r in (v.bytes, v.few_bytes, v.few_frames)

-- After any steps, a pump that waits without a token, while no caller has yet to signal what it did
-- under its lock, has nothing to do: the queue is empty and the egress is not closing.
pub Reach-awake :
    {w : World}
    → Reach w
    → w.egress.pump ≡ waiting
    → w.egress.wake ≡ false
    → w.owed ≡ 0
    → (w.egress.queue ≡ []) × (w.egress.closing ≡ false)
Reach-awake r = (Reach-IsValid r).awake
