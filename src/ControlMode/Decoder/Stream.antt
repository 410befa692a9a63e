-- ===== src/ControlMode/Decoder/Stream.antt =====
-- What the decoder makes of a whole stream.
use persea_terminal.Base.{
  ℕ, zero, suc, ◌+◌, ◌≤◌, ◌<◌, ◌≡◌, refl, sym, ap, ◌∙◌, ◌⊎◌, inl, inr, Bool, true, false, Option,
  none, some, List, [], ◌∷◌, ◌++◌, arith, Bool-cases, length, length-append, subst,
}
use persea_terminal.ControlMode.Bytes.{
  codes, Lacks, Lacks-append, absent, present, index_byte-Found, index_byte-none,
}
use persea_terminal.ControlMode.Payload.{backslash, escape, encode_payload, AllBytes}
use persea_terminal.ControlMode.Line.{
  output, command_begin, command_response, command_end, command_error, Event, bare, CommandWitness,
  decode_line,
}
use persea_terminal.ControlMode.Line.Commands.{
  responds, closes, is_reply, decode_line-Reply, decode_line-Outside,
}
use persea_terminal.ControlMode.Line.Outputs.{IsPane, output_line, decode_line-output_line}
use persea_terminal.ControlMode.Decoder.{
  max_control_record_bytes, Decoder, new_decoder, scanned, scan, settle_scan, feed,
}
use persea_terminal.ControlMode.Decoder.Chunks.{
  scan-line, scan-partial, shorter, scan-line-scanned, scan-Rest, feed_settled, feed-good,
  scan_fuel,
}

-- The events of a stream on which the commands are bracketed: outside a command there are a begin and
-- events of no command, inside there are responses and one end or error.
pub data Trace (final : Option CommandWitness) : Option CommandWitness → List Event → Type 0 where
  done : Trace final final []
  begins :
      (w : CommandWitness) (e : Event) (events : List Event)
      → e.kind ≡ command_begin
      → Trace final (some w) events
      → Trace final none (e ∷ events)
  notes :
      (e : Event) (events : List Event)
      → is_reply e.kind ≡ false
      → Trace final none events
      → Trace final none (e ∷ events)
  answers :
      (w : CommandWitness) (e : Event) (events : List Event)
      → e.kind ≡ command_response
      → Trace final (some w) events
      → Trace final (some w) (e ∷ events)
  finishes :
      (w : CommandWitness) (e : Event) (events : List Event)
      → (e.kind ≡ command_end) ⊎ (e.kind ≡ command_error)
      → Trace final none events
      → Trace final (some w) (e ∷ events)

Trace-cons :
    (final c : Option CommandWitness) (line : List ℕ) (e : Event) (next : Option CommandWitness)
    (events : List Event)
    → decode_line c line ≡ some (e, next)
    → Trace final next events
    → Trace final c (e ∷ events)
Trace-cons final none line e next events h t = elim (decode_line-Outside line e next h) [
  | inl (kind, w, opened) ↦ begins w e events kind (subst (λ n. Trace final n events) opened t)
  | inr (kind, outside) ↦ notes e events kind (subst (λ n. Trace final n events) outside t)
]
Trace-cons final (some w) line e next events h t = elim (decode_line-Reply w line e next h) [
  | responds kind _ same _ ↦ answers w e events kind (subst (λ n. Trace final n events) same t)
  | closes _ kind closed _ ↦ finishes w e events kind (subst (λ n. Trace final n events) closed t)
]

scan-Trace :
    (f : ℕ) (c : Option CommandWitness) (x : List ℕ) (events : List Event)
    (c' : Option CommandWitness) (rest : List ℕ)
    → length x < f
    → scan f c x ≡ scanned events c' rest
    → Trace c' c events
scan-Trace zero c x events c' rest small h = absurd (omega arith)
scan-Trace (suc f) c x events c' rest small h = elim (index_byte-Found x 10) [
  | absent lacks e ↦
      let none' : events ≡ [] = ground (arith, scan-partial f c x e, h) in
      let same : c' ≡ c = ground (arith, scan-partial f c x e, h) in rw (none', same) done
  | present p s lacks split e ↦
      let size : length x ≡ length p + length s + 1 = ap length split ∙ shorter p s in
      let (ev, next, more, line, scan', all) =
        scan-line-scanned f c p s events c' rest lacks (ap (scan (suc f) c) (sym split) ∙ h) in
      rw all
        (Trace-cons c' c p ev next more line (scan-Trace f next s more c' rest (omega arith) scan'))
]

-- The events of a chunk that is accepted are bracketed, from the command that was open before it to
-- the one that is open after it; and what stays buffered is the part of one line, within the limit of
-- a record.
pub feed-Trace :
    (d : Decoder) (input : List ℕ) (events : List Event) (d' : Decoder)
    → feed d input ≡ (some events, d')
    → Trace d'.command d.command events
      × Lacks 10 d'.buffer
      × (length d'.buffer ≤ max_control_record_bytes)
feed-Trace d input events d' h =
    let (c, rest, e, same) = feed_settled d input events d' h in
    let r =
      scan-Rest (length (d.buffer ++ input) + 1) d.command (d.buffer ++ input) events c rest
        (omega arith) e in
    rw same (
      scan-Trace (length (d.buffer ++ input) + 1) d.command (d.buffer ++ input) events c rest
          (omega arith) e,
      r.no_newline,
      r.within,
    )

Lacks-escape : (b : ℕ) → Lacks 10 (escape b)
Lacks-escape b = omega arith

Lacks-encode_payload :
    (escapes : ℕ → Bool) (s : List ℕ) → escapes 10 ≡ true → Lacks 10 (encode_payload escapes s)
Lacks-encode_payload escapes [] h = tt
Lacks-encode_payload escapes (b ∷ s) h = elim (Bool-cases (escapes b)) [
  | inl escaped ↦ rw escaped (
      Lacks-append (escape b) (encode_payload escapes s) 10 (Lacks-escape b)
        (Lacks-encode_payload escapes s h))
  | inr plain ↦ rw plain (ground (arith, h, plain), Lacks-encode_payload escapes s h)
]

scan-nil : (fuel : ℕ) (c : Option CommandWitness) → 0 < fuel → scan fuel c [] ≡ scanned [] c []
scan-nil fuel c h =
    scan_fuel fuel 1 c [] h (omega arith) ∙ scan-partial 0 c [] (index_byte-none [] 10 tt)

-- A buffer of one whole line.
scan-one_line :
    (c : Option CommandWitness) (line : List ℕ) (e : Event) (next : Option CommandWitness)
    → Lacks 10 line
    → length line ≤ max_control_record_bytes
    → decode_line c line ≡ some (e, next)
    → scan (length (line ++ (10 ∷ [])) + 1) c (line ++ (10 ∷ [])) ≡ scanned (e ∷ []) next []
scan-one_line c line e next lacks small h =
    scan_fuel (length (line ++ (10 ∷ [])) + 1) (suc (length (line ++ (10 ∷ [])))) c
      (line ++ (10 ∷ [])) (omega arith) (omega arith)
    ∙ scan-line (length (line ++ (10 ∷ []))) c line [] lacks
    ∙ ground (
      arith,
      h,
      scan-nil (length (line ++ (10 ∷ []))) next (omega (arith, length-append line (10 ∷ []))),
    )

-- A new decoder that is fed an output record and its newline, with the backslash and the newline
-- escaped and any other bytes, returns the one event of the record and is as new.
pub feed-output_line :
    (escapes : ℕ → Bool) (pane s : List ℕ)
    → escapes backslash ≡ true
    → escapes 10 ≡ true
    → IsPane pane
    → AllBytes s
    → length (output_line escapes pane s) ≤ max_control_record_bytes
    → feed new_decoder (output_line escapes pane s ++ (10 ∷ []))
      ≡ (some (record (bare output) { pane_id = pane; payload = s } ∷ []), new_decoder)
unfolding settle_scan
feed-output_line escapes pane s h k p all small =
    feed-good new_decoder (line ++ (10 ∷ [])) refl (omega (arith, length-append line (10 ∷ [])))
    ∙ ap (settle_scan new_decoder) whole
    ∙ settled
  where
    line : List ℕ
    line = output_line escapes pane s

    lacks : Lacks 10 line
    lacks =
        Lacks-append (codes "%output ") (pane ++ (32 ∷ encode_payload escapes s)) 10 (omega arith) (
          Lacks-append pane (32 ∷ encode_payload escapes s) 10 p.no_newline
            (omega arith, Lacks-encode_payload escapes s k))

    event : Event
    event = record (bare output) { pane_id = pane; payload = s }

    whole :
        scan (length (line ++ (10 ∷ [])) + 1) none (line ++ (10 ∷ []))
        ≡ scanned (event ∷ []) none []
    whole =
        scan-one_line none line event none lacks small
          (decode_line-output_line escapes pane s h p all)

    settled :
        settle_scan new_decoder (scanned (event ∷ []) none []) ≡ (some (event ∷ []), new_decoder)
    settled = refl
