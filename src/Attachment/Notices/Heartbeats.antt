-- ===== src/Attachment/Notices/Heartbeats.antt =====
-- transport_liveness.go: decoding and encoding are one relation.
use persea_terminal.Base.{
  ℕ, ◌≡◌, refl, sym, ap, ◌∙◌, ◌↔◌, inl, inr, true, some, List, [], ◌∷◌, ◌++◌, arith, Bool-cases,
  length, take, drop, length-drop, subst, get_or,
}
use persea_terminal.ControlMode.Bytes.{codes, bytes_equal, has_prefix, bytes_equal_sound}
use persea_terminal.Attachment.Transport.{
  Direction, server_to_browser, browser_to_server, other_direction, frame,
}
use persea_terminal.Attachment.Transport.Reserved.{has_prefix_split, frame_or_violation_lem}
use persea_terminal.Attachment.Notices.{
  transport_liveness_prefix, TransportLivenessKind, ping, pong, other_kind, TransportLivenessFrame,
  is_valid_nonce, liveness_verb, verb_kind, allowed_frame, liveness_body, decode_transport_liveness,
  liveness_with, encode_transport_liveness,
}

abbrev heartbeat : TransportLivenessKind → List ℕ → TransportLivenessFrame
heartbeat kind nonce = record { kind = kind; nonce = nonce }

allowed_ping :
    (nonce : List ℕ) (d : Direction) (kind : TransportLivenessKind) (n : List ℕ)
    → allowed_frame nonce d (some ping) ≡ some (heartbeat kind n)
    → (nonce ≡ n) × (liveness_verb kind d ≡ some (codes "PING"))
allowed_ping nonce server_to_browser kind n h = cc
allowed_ping nonce other_direction kind n h = cc
allowed_ping nonce browser_to_server kind n h =
    (cc, ap (λ (k : TransportLivenessKind). liveness_verb k browser_to_server) (kind_of kind n h))
  where
    kind_of :
        (kind : TransportLivenessKind) (n : List ℕ)
        → some (heartbeat ping nonce) ≡ some (heartbeat kind n)
        → kind ≡ ping
    kind_of kind n h = cc

allowed_pong :
    (nonce : List ℕ) (d : Direction) (kind : TransportLivenessKind) (n : List ℕ)
    → allowed_frame nonce d (some pong) ≡ some (heartbeat kind n)
    → (nonce ≡ n) × (liveness_verb kind d ≡ some (codes "PONG"))
allowed_pong nonce browser_to_server kind n h = cc
allowed_pong nonce other_direction kind n h = cc
allowed_pong nonce server_to_browser kind n h =
    (cc, ap (λ (k : TransportLivenessKind). liveness_verb k server_to_browser) (kind_of kind n h))
  where
    kind_of :
        (kind : TransportLivenessKind) (n : List ℕ)
        → some (heartbeat pong nonce) ≡ some (heartbeat kind n)
        → kind ≡ pong
    kind_of kind n h = cc

-- A frame that is allowed has the verb of its kind.
allowed_verb :
    (verb nonce : List ℕ) (d : Direction) (kind : TransportLivenessKind) (n : List ℕ)
    → allowed_frame nonce d (verb_kind verb) ≡ some (heartbeat kind n)
    → (nonce ≡ n) × (liveness_verb kind d ≡ some verb)
allowed_verb verb nonce d kind n h = elim (Bool-cases (bytes_equal verb (codes "PING"))) [
  | inl is_ping ↦
      let (same, e) = allowed_ping nonce d kind n (ground (arith, is_ping, h)) in
      (same, e ∙ ap some (sym (bytes_equal_sound verb (codes "PING") is_ping)))
  | inr no_ping ↦ elim (Bool-cases (bytes_equal verb (codes "PONG"))) [
    | inl is_pong ↦
        let (same, e) = allowed_pong nonce d kind n (ground (arith, no_ping, is_pong, h)) in
        (same, e ∙ ap some (sym (bytes_equal_sound verb (codes "PONG") is_pong)))
    | inr no_pong ↦ absurd (ground (arith, no_ping, no_pong, h))
  ]
]

liveness_body-some :
    (body : List ℕ) (d : Direction) (kind : TransportLivenessKind) (n : List ℕ)
    → liveness_body body d ≡ some (heartbeat kind n)
    → (get_or body 4 0 ≡ 32)
      × (is_valid_nonce (drop 5 body) ≡ true)
      × (allowed_frame (drop 5 body) d (verb_kind (take 4 body)) ≡ some (heartbeat kind n))
unfolding liveness_body
liveness_body-some body d kind n h = (ground arith, ground arith, ground arith)

liveness-frame :
    (raw : List ℕ) (d : Direction) (f : TransportLivenessFrame)
    → decode_transport_liveness raw d ≡ frame f
    → (has_prefix raw transport_liveness_prefix ≡ true)
      × (length raw ≡ 55)
      × (liveness_body (drop 18 raw) d ≡ some f)
unfolding decode_transport_liveness
liveness-frame raw d f h = (
  ground arith,
  ground arith,
  frame_or_violation_lem (liveness_body (drop 18 raw) d) f (ground arith),
)

nonce_length : (n : List ℕ) → is_valid_nonce n ≡ true → length n ≡ 32
unfolding is_valid_nonce
nonce_length n h = ground arith

liveness_with-some :
    (n verb raw : List ℕ)
    → liveness_with n (some verb) ≡ some raw
    → (is_valid_nonce n ≡ true) × (transport_liveness_prefix ++ (verb ++ (32 ∷ n)) ≡ raw)
liveness_with-some n verb raw h = (ground arith, ground arith)

decode_ping :
    (n : List ℕ)
    → is_valid_nonce n ≡ true
    → decode_transport_liveness
        (transport_liveness_prefix ++ (codes "PING" ++ (32 ∷ n)))
        browser_to_server
      ≡ frame (heartbeat ping n)
unfolding decode_transport_liveness liveness_body
decode_ping n h = rw (nonce_length n h, h) refl

decode_pong :
    (n : List ℕ)
    → is_valid_nonce n ≡ true
    → decode_transport_liveness
        (transport_liveness_prefix ++ (codes "PONG" ++ (32 ∷ n)))
        server_to_browser
      ≡ frame (heartbeat pong n)
unfolding decode_transport_liveness liveness_body
decode_pong n h = rw (nonce_length n h, h) refl

encoded_liveness :
    (raw : List ℕ) (d : Direction) (kind : TransportLivenessKind) (n : List ℕ)
    → encode_transport_liveness (heartbeat kind n) d ≡ some raw
    → decode_transport_liveness raw d ≡ frame (heartbeat kind n)
unfolding encode_transport_liveness
encoded_liveness raw browser_to_server ping n h =
    let (valid, e) = liveness_with-some n (codes "PING") raw h in
    ap (λ (r : List ℕ). decode_transport_liveness r browser_to_server) (sym e) ∙ decode_ping n valid
encoded_liveness raw server_to_browser pong n h =
    let (valid, e) = liveness_with-some n (codes "PONG") raw h in
    ap (λ (r : List ℕ). decode_transport_liveness r server_to_browser) (sym e) ∙ decode_pong n valid
encoded_liveness raw server_to_browser ping n h = cc
encoded_liveness raw other_direction ping n h = cc
encoded_liveness raw browser_to_server pong n h = cc
encoded_liveness raw other_direction pong n h = cc
encoded_liveness raw d other_kind n h = cc

-- What stands behind the prefix, in its three parts.
liveness_parts :
    (body : List ℕ)
    → length body ≡ 37
    → get_or body 4 0 ≡ 32
    → take 4 body ++ (32 ∷ drop 5 body) ≡ body
liveness_parts (a ∷ b ∷ c ∷ d ∷ e ∷ s) h space = ap (λ (x : ℕ). a ∷ b ∷ c ∷ d ∷ x ∷ s) (sym space)
liveness_parts (a ∷ b ∷ c ∷ d ∷ []) h space = absurd (omega (arith, h))
liveness_parts (a ∷ b ∷ c ∷ []) h space = absurd (omega (arith, h))
liveness_parts (a ∷ b ∷ []) h space = absurd (omega (arith, h))
liveness_parts (a ∷ []) h space = absurd (omega (arith, h))
liveness_parts [] h space = absurd (omega (arith, h))

encode_with :
    (kind : TransportLivenessKind) (d : Direction) (n verb : List ℕ)
    → liveness_verb kind d ≡ some verb
    → is_valid_nonce n ≡ true
    → encode_transport_liveness (heartbeat kind n) d
      ≡ some (transport_liveness_prefix ++ (verb ++ (32 ∷ n)))
unfolding encode_transport_liveness
encode_with kind d n verb e h = ap (liveness_with n) e ∙ rw h refl

decoded_liveness :
    (raw : List ℕ) (d : Direction) (kind : TransportLivenessKind) (n : List ℕ)
    → decode_transport_liveness raw d ≡ frame (heartbeat kind n)
    → encode_transport_liveness (heartbeat kind n) d ≡ some raw
decoded_liveness raw d kind n h =
    let body = drop 18 raw in
    let (reserves, size, got) = liveness-frame raw d (heartbeat kind n) h in
    let (space, valid, allowed) = liveness_body-some body d kind n got in
    let (same, verb) = allowed_verb (take 4 body) (drop 5 body) d kind n allowed in
    encode_with kind d n (take 4 body) verb
      (subst (λ (x : List ℕ). is_valid_nonce x ≡ true) same valid)
    ∙ ap some (
        ap (λ (x : List ℕ). transport_liveness_prefix ++ (take 4 body ++ (32 ∷ x))) (sym same)
        ∙ ap (◌++◌ transport_liveness_prefix)
            (liveness_parts body (length-drop 18 raw ∙ omega (arith, size)) space)
        ∙ sym (has_prefix_split raw transport_liveness_prefix reserves))

-- For any kind and nonce: a frame is decoded as this heartbeat exactly if it is the one text that
-- encodes it, in the same direction.
pub decode_transport_liveness-encode :
    (raw : List ℕ) (d : Direction) (kind : TransportLivenessKind) (n : List ℕ)
    → (decode_transport_liveness raw d ≡ frame (record { kind = kind; nonce = n }))
      ↔ (encode_transport_liveness (record { kind = kind; nonce = n }) d ≡ some raw)
decode_transport_liveness-encode raw d kind n =
    (decoded_liveness raw d kind n, encoded_liveness raw d kind n)
