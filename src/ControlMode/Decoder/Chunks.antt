-- ===== src/ControlMode/Decoder/Chunks.antt =====
-- The chunks in which the stream arrives do not matter.
use persea_terminal.Base.{
  ℕ, zero, suc, ◌+◌, ◌-◌, ◌≤◌, ◌<◌, ◌≡◌, refl, sym, ap, ◌∙◌, inl, inr, Bool, true, false, Option,
  none, some, List, [], ◌∷◌, ◌++◌, append_assoc, arith, ltb, if◌then◌else◌, Bool-cases, length,
  take, drop, length-append, take-append, drop-append, drop-drop,
}
use persea_terminal.ControlMode.Bytes.{
  index_byte, Lacks, absent, present, index_byte-Found, index_byte-append,
}
use persea_terminal.ControlMode.Line.{Event, CommandWitness, Decoded, decode_line}
use persea_terminal.ControlMode.Decoder.{
  max_control_record_bytes, max_int, Decoder, fail, Scan, scanned, broken, before, decoded_then,
  scan, settle_scan, feed,
}

take_line : (p rest : List ℕ) → take (length p) (p ++ (10 ∷ rest)) ≡ p
take_line p rest = take-append p (10 ∷ rest)

drop_line : (p rest : List ℕ) → drop (length p + 1) (p ++ (10 ∷ rest)) ≡ rest
drop_line p rest =
    drop-drop (length p) 1 (p ++ (10 ∷ rest)) ∙ ap (drop 1) (drop-append p (10 ∷ rest))

-- One round on a buffer that begins with a whole line.
pub scan-line :
    (fuel : ℕ) (c : Option CommandWitness) (p rest : List ℕ)
    → Lacks 10 p
    → scan (suc fuel) c (p ++ (10 ∷ rest)) ≡ (
        if ltb max_control_record_bytes (length p)
        then broken c
        else decoded_then c (decode_line c p) (λ next. scan fuel next rest))
unfolding scan
scan-line fuel c p rest h =
    rw (index_byte-append p rest 10 h, take_line p rest, drop_line p rest, scan)

pub scan-partial :
    (fuel : ℕ) (c : Option CommandWitness) (s : List ℕ)
    → index_byte s 10 ≡ none
    → scan (suc fuel) c s
      ≡ (if ltb max_control_record_bytes (length s) then broken c else scanned [] c s)
unfolding scan
scan-partial fuel c s e = rw (e, scan)

-- The rounds that a line leaves agree if those of every next command do.
decoded_then-ext :
    (c : Option CommandWitness) (d : Decoded) (f g : Option CommandWitness → Scan)
    → ((next : Option CommandWitness) → f next ≡ g next)
    → decoded_then c d f ≡ decoded_then c d g
decoded_then-ext c none f g h = refl
decoded_then-ext c (some (e, next)) f g h = ap (before (e ∷ [])) (h next)

pub shorter : (p rest : List ℕ) → length (p ++ (10 ∷ rest)) ≡ length p + length rest + 1
shorter p rest = omega (arith, length-append p (10 ∷ rest))

-- More fuel than bytes is enough: any such amount gives the same result.
pub scan_fuel :
    (f g : ℕ) (c : Option CommandWitness) (s : List ℕ)
    → length s < f
    → length s < g
    → scan f c s ≡ scan g c s
scan_fuel zero g c s h k = absurd (omega arith)
scan_fuel (suc f) zero c s h k = absurd (omega arith)
scan_fuel (suc f) (suc g) c s h k = elim (index_byte-Found s 10) [
  | absent none' e ↦ scan-partial f c s e ∙ sym (scan-partial g c s e)
  | present p rest lacks split e ↦
      let size : length s ≡ length p + length rest + 1 = ap length split ∙ shorter p rest in
      rw split (
        scan-line f c p rest lacks
        ∙ ap (λ r. if ltb max_control_record_bytes (length p) then broken c else r)
            (decoded_then-ext c (decode_line c p) _ _
              (λ next. scan_fuel f g next rest (omega arith) (omega arith)))
        ∙ sym (scan-line g c p rest lacks))
]

-- The scan of more bytes after a scan.
abbrev pub continue_scan : Scan → List ℕ → Scan
continue_scan (scanned events c rest) b =
    before events (scan (length (rest ++ b) + 1) c (rest ++ b))
continue_scan (broken c) b = broken c

before-nil : (s : Scan) → before [] s ≡ s
before-nil (scanned events c rest) = refl
before-nil (broken c) = refl

before-before : (xs ys : List Event) (s : Scan) → before xs (before ys s) ≡ before (xs ++ ys) s
before-before xs ys (scanned events c rest) =
    ap (λ l. scanned l c rest) (sym (append_assoc xs ys events))
before-before xs ys (broken c) = refl

continue-before :
    (xs : List Event) (s : Scan) (b : List ℕ)
    → before xs (continue_scan s b) ≡ continue_scan (before xs s) b
continue-before xs (scanned events c rest) b =
    before-before xs events (scan (length (rest ++ b) + 1) c (rest ++ b))
continue-before xs (broken c) b = refl

continue-decoded_then :
    (c : Option CommandWitness) (d : Decoded) (f : Option CommandWitness → Scan) (b : List ℕ)
    → decoded_then c d (λ next. continue_scan (f next) b) ≡ continue_scan (decoded_then c d f) b
continue-decoded_then c none f b = refl
continue-decoded_then c (some (e, next)) f b = continue-before (e ∷ []) (f next) b

newline_behind :
    (x b p rest : List ℕ) → Lacks 10 x → x ++ b ≡ p ++ (10 ∷ rest) → length x ≤ length p
newline_behind [] b p rest h e = omega arith
newline_behind (y ∷ x) b [] rest h e = absurd (h.0 (let same : y ≡ 10 = cc in same))
newline_behind (y ∷ x) b (z ∷ p) rest h e =
    omega (arith, newline_behind x b p rest h.1 (let same : x ++ b ≡ p ++ (10 ∷ rest) = cc in same))

scan-too_long :
    (g : ℕ) (c : Option CommandWitness) (x b : List ℕ)
    → Lacks 10 x
    → max_control_record_bytes < length x
    → scan (suc g) c (x ++ b) ≡ broken c
scan-too_long g c x b lacks long = elim (index_byte-Found (x ++ b) 10) [
  | absent none' e ↦ scan-partial g c (x ++ b) e ∙ ground (arith, length-append x b)
  | present p rest h split e ↦
      rw split (scan-line g c p rest h ∙ ground (arith, newline_behind x b p rest lacks split))
]

distribute :
    (t : Bool) (c : Option CommandWitness) (s : Scan) (b : List ℕ)
    → (if t then broken c else continue_scan s b) ≡ continue_scan (if t then broken c else s) b
distribute true c s b = refl
distribute false c s b = refl

scan-append :
    (f g : ℕ) (c : Option CommandWitness) (x b : List ℕ)
    → length x < f
    → length (x ++ b) < g
    → scan g c (x ++ b) ≡ continue_scan (scan f c x) b
scan-append zero g c x b h k = absurd (omega arith)
scan-append (suc f) zero c x b h k = absurd (omega arith)
scan-append (suc f) (suc g) c x b h k = elim (index_byte-Found x 10) [
  | absent lacks e ↦ elim (Bool-cases (ltb max_control_record_bytes (length x))) [
    | inl long ↦
        scan-too_long g c x b lacks (ground (arith, long))
        ∙ ap (λ s. continue_scan s b)
            (sym (
              let stop : scan (suc f) c x ≡ broken c =
                scan-partial f c x e ∙ ground (arith, long) in
              stop))
    | inr fits ↦
        scan_fuel (suc g) (length (x ++ b) + 1) c (x ++ b) k (omega arith)
        ∙ sym (before-nil (scan (length (x ++ b) + 1) c (x ++ b)))
        ∙ ap (λ s. continue_scan s b)
            (sym (
              let stop : scan (suc f) c x ≡ scanned [] c x =
                scan-partial f c x e ∙ ground (arith, fits) in
              stop))
  ]
  | present p rest lacks split e ↦
      let size : length x ≡ length p + length rest + 1 = ap length split ∙ shorter p rest in
      let joined : x ++ b ≡ p ++ (10 ∷ (rest ++ b)) =
        ap (λ l. l ++ b) split ∙ append_assoc p (10 ∷ rest) b in
      let size' : length (x ++ b) ≡ length p + length (rest ++ b) + 1 =
        ap length joined ∙ shorter p (rest ++ b) in
      ap (scan (suc g) c) joined
      ∙ scan-line g c p (rest ++ b) lacks
      ∙ ap (λ r. if ltb max_control_record_bytes (length p) then broken c else r)
          (decoded_then-ext c (decode_line c p) (λ next. scan g next (rest ++ b))
              (λ next. continue_scan (scan f next rest) b)
              (λ next. scan-append f g next rest b (omega arith) (omega arith))
            ∙ continue-decoded_then c (decode_line c p) (λ next. scan f next rest) b)
      ∙ distribute (ltb max_control_record_bytes (length p)) c
          (decoded_then c (decode_line c p) (λ next. scan f next rest)) b
      ∙ ap (λ s. continue_scan s b) (sym (ap (scan (suc f) c) split ∙ scan-line f c p rest lacks))
]

-- What a scan leaves in the buffer: the part of a line, within the limit of a record.
pub record Rest (x rest : List ℕ) : Type 0 where
  pub shorter : length rest ≤ length x
  pub no_newline : Lacks 10 rest
  pub within : length rest ≤ max_control_record_bytes

decoded_then-scanned :
    (c : Option CommandWitness) (d : Decoded) (f : Option CommandWitness → Scan)
    (events : List Event) (c' : Option CommandWitness) (rest : List ℕ)
    → decoded_then c d f ≡ scanned events c' rest
    → (e : Event) × (next : Option CommandWitness) × (more : List Event) × (d ≡ some (e, next))
      × (f next ≡ scanned more c' rest)
      × (events ≡ e ∷ more)
decoded_then-scanned c none f events c' rest h = cc
decoded_then-scanned c (some (e, next)) f events c' rest h = go (f next) refl h
  where
    go :
        (s : Scan)
        → f next ≡ s
        → before (e ∷ []) s ≡ scanned events c' rest
        → (e' : Event) × (next' : Option CommandWitness) × (more : List Event) × (◌≡◌ {A = Decoded}
            (some (e, next))
            (some (e', next')))
          × (f next' ≡ scanned more c' rest)
          × (events ≡ e' ∷ more)
    go (scanned more c1 r1) same h' = (e, next, more, refl, same ∙ cc, cc)
    go (broken c1) same h' = cc

-- A scan that succeeds on a buffer with a whole line: the line was accepted, and so was the rest.
pub scan-line-scanned :
    (fuel : ℕ) (c : Option CommandWitness) (p s : List ℕ) (events : List Event)
    (c' : Option CommandWitness) (rest : List ℕ)
    → Lacks 10 p
    → scan (suc fuel) c (p ++ (10 ∷ s)) ≡ scanned events c' rest
    → (e : Event) × (next : Option CommandWitness) × (more : List Event) × (decode_line c p
        ≡ some (e, next))
      × (scan fuel next s ≡ scanned more c' rest)
      × (events ≡ e ∷ more)
scan-line-scanned fuel c p s events c' rest lacks h =
    decoded_then-scanned c (decode_line c p) (λ next. scan fuel next s) events c' rest
      (ground (arith, h, scan-line fuel c p s lacks))

pub scan-Rest :
    (f : ℕ) (c : Option CommandWitness) (x : List ℕ) (events : List Event)
    (c' : Option CommandWitness) (rest : List ℕ)
    → length x < f
    → scan f c x ≡ scanned events c' rest
    → Rest x rest
scan-Rest zero c x events c' rest small h = absurd (omega arith)
scan-Rest (suc f) c x events c' rest small h = elim (index_byte-Found x 10) [
  | absent lacks e ↦
      let same : rest ≡ x = ground (arith, scan-partial f c x e, h) in
      rw same (record {
        shorter = omega arith;
        no_newline = lacks;
        within = ground (arith, scan-partial f c x e, h);
      })
  | present p s lacks split e ↦
      let size : length x ≡ length p + length s + 1 = ap length split ∙ shorter p s in
      let (ev, next, more, line, scan', all) =
        scan-line-scanned f c p s events c' rest lacks (ap (scan (suc f) c) (sym split) ∙ h) in
      let r = scan-Rest f next s more c' rest (omega arith) scan' in
      record { shorter = omega (arith, r.shorter); no_newline = r.no_newline; within = r.within }
]

abbrev pub after_events : List Event → Option (List Event) × Decoder → Option (List Event) × Decoder
after_events events (none, d) = (none, d)
after_events events (some more, d) = (some (events ++ more), d)

pub feed-good :
    (d : Decoder) (input : List ℕ)
    → d.failed ≡ false
    → length input ≤ max_int - length d.buffer
    → feed d input
      ≡ settle_scan d (scan (length (d.buffer ++ input) + 1) d.command (d.buffer ++ input))
unfolding feed
feed-good d input good room = ground (arith, good)

settle_scan-before :
    (d : Decoder) (rest : List ℕ) (c : Option CommandWitness) (events : List Event) (s : Scan)
    → settle_scan d (before events s)
      ≡ after_events events (settle_scan (record d { buffer = rest; command = c }) s)
unfolding settle_scan fail
settle_scan-before d rest c events (scanned more c' rest') = refl
settle_scan-before d rest c events (broken c') = refl

-- `feed` after a chunk that was accepted.
feed_scanned :
    (d : Decoder) (a b rest : List ℕ) (events : List Event) (c : Option CommandWitness)
    → d.failed ≡ false
    → length d.buffer + length (a ++ b) ≤ max_int
    → scan (length (d.buffer ++ a) + 1) d.command (d.buffer ++ a) ≡ scanned events c rest
    → feed d (a ++ b) ≡ after_events events (feed (record d { buffer = rest; command = c }) b)
feed_scanned d a b rest events c good fits e =
    feed-good d (a ++ b) good (omega arith)
    ∙ ap (settle_scan d) (
        ap (λ x. scan (length x + 1) d.command x) (sym (append_assoc d.buffer a b))
        ∙ scan-append (length (d.buffer ++ a) + 1) (length ((d.buffer ++ a) ++ b) + 1) d.command
            (d.buffer ++ a) b (omega arith) (omega arith)
        ∙ ap (λ s. continue_scan s b) e)
    ∙ settle_scan-before d rest c events (scan (length (rest ++ b) + 1) c (rest ++ b))
    ∙ ap (after_events events) (
        sym (
          feed-good (record d { buffer = rest; command = c }) b good
            (omega (
              arith,
              (scan-Rest (length (d.buffer ++ a) + 1) d.command (d.buffer ++ a) events c rest
                  (omega arith) e).shorter,
              length-append d.buffer a,
              length-append a b,
            ))))

-- A chunk that is accepted was scanned, on a decoder that had not failed.
pub feed_settled :
    (d : Decoder) (input : List ℕ) (events : List Event) (d' : Decoder)
    → feed d input ≡ (some events, d')
    → (c : Option CommandWitness) × (rest : List ℕ) × (scan
          (length (d.buffer ++ input) + 1)
          d.command
          (d.buffer ++ input)
        ≡ scanned events c rest)
      × (d' ≡ record d { buffer = rest; command = c })
unfolding feed settle_scan
feed_settled d input events d' h = elim (Bool-cases d.failed) [
  | inl bad ↦ ground (arith, bad)
  | inr good ↦ elim (Bool-cases (ltb (max_int - length d.buffer) (length input))) [
    | inl over ↦ ground (arith, good, over)
    | inr room ↦
        go (scan (length (d.buffer ++ input) + 1) d.command (d.buffer ++ input)) refl
          (sym (feed-good d input good (ground (arith, room))) ∙ h)
  ]
]
  where
    go :
        (s : Scan)
        → scan (length (d.buffer ++ input) + 1) d.command (d.buffer ++ input) ≡ s
        → settle_scan d (scan (length (d.buffer ++ input) + 1) d.command (d.buffer ++ input))
          ≡ (some events, d')
        → (c : Option CommandWitness) × (rest : List ℕ) × (scan
              (length (d.buffer ++ input) + 1)
              d.command
              (d.buffer ++ input)
            ≡ scanned events c rest)
          × (d' ≡ record d { buffer = rest; command = c })
    go (broken c) e k = let k' = ap (settle_scan d) (sym e) ∙ k in cc
    go (scanned ev c rest) e k = let k' = ap (settle_scan d) (sym e) ∙ k in (c, rest, e ∙ cc, cc)

-- A stream fed in two chunks gives what it gives in one: if the first chunk is accepted, feeding both
-- at once returns its events followed by those of the second, or the failure of the second, and leaves
-- the decoder as the second does. The two chunks and what is buffered must fit an int.
pub feed-append :
    (d : Decoder) (a b : List ℕ) (events : List Event) (d' : Decoder)
    → length d.buffer + length (a ++ b) ≤ max_int
    → feed d a ≡ (some events, d')
    → feed d (a ++ b) ≡ after_events events (feed d' b)
unfolding feed settle_scan
feed-append d a b events d' fits h = elim (Bool-cases d.failed) [
  | inl bad ↦ ground (arith, bad)
  | inr good ↦
      let (c, rest, e, same) = feed_settled d a events d' h in
      rw same (feed_scanned d a b rest events c good fits e)
]
