-- ===== src/FrontDoor/Takeovers/Requests.antt =====
-- A takeover request is authorized once and used once.
use persea_terminal.Base.{
  ℕ, ◌+◌, ◌<◌, ◌≡◌, refl, sym, ap, ◌∙◌, inl, inr, Bool, true, false, Option, none, some, List, [],
  ◌∷◌, arith, ltb, leb, ◌==◌, Bool-cases, Option-cases, length, subst,
}
use persea_terminal.Base.Maps.{lookup, delete, put, lookup-delete}
use persea_terminal.FrontDoor.Handles.{keep}
use persea_terminal.FrontDoor.Takeovers.{
  Claim, TakeoverRequest, TakeoverStore, Authorized, authorized, refused, same_kind, delete_handles,
  prune_takeovers, claim_authority, authorized_before, authorize_new, authorize, mark_used,
  consume_takeover,
}

pub same_kind_refl : (b : Bool) → same_kind b b ≡ true
same_kind_refl true = refl
same_kind_refl false = refl

-- A request that is in the store and has not expired.
pub record Holds (s : TakeoverStore) (key : ℕ) (claim : Claim) (handle : ℕ) (used : Bool)
    (expires : ℕ) : Type 0 where
  pub stored :
      lookup key s.requests
      ≡ some (record { claim = claim; handle = handle; used = used; expires = expires })

lookup-keep :
    {A : Type 0} (test : A → Bool) (k : ℕ) (m : List (ℕ × A)) (a : A)
    → lookup k m ≡ some a
    → test a ≡ true
    → lookup k (keep test m) ≡ some a
lookup-keep test k [] a h t = cc
lookup-keep test k ((j, b) ∷ m) a h t = elim (Bool-cases (k == j)) [
  | inl same ↦
      let e : b ≡ a = ground (arith, same, h) in
      let t' : test b ≡ true = ap test e ∙ t in ground (arith, same, t', e)
  | inr other ↦
      let ih = lookup-keep test k m a (ground (arith, other, h)) t in
      elim (Bool-cases (test b)) [
        | inl kept ↦ ground (arith, other, kept, ih)
        | inr gone ↦ ground (arith, gone, ih)
      ]
]

pub lookup-delete_handles :
    (requests : List (ℕ × TakeoverRequest)) (now h key : ℕ) (handles : List (ℕ × ℕ))
    → lookup h (delete_handles requests now handles) ≡ some key
    → lookup h handles ≡ some key
unfolding delete_handles
lookup-delete_handles [] now h key handles e = e
lookup-delete_handles ((k, r) ∷ m) now h key handles e = elim (Bool-cases (ltb now r.expires)) [
  | inl alive ↦ lookup-delete_handles m now h key handles (ground (arith, alive, e))
  | inr late ↦
      let inner =
        lookup-delete_handles m now h key (delete r.handle handles) (ground (arith, late, e)) in
      ground (arith, inner, lookup-delete r.handle h handles)
]

pub prune-Holds :
    (s : TakeoverStore) (key : ℕ) (claim : Claim) (handle : ℕ) (used : Bool) (expires now : ℕ)
    → Holds s key claim handle used expires
    → now < expires
    → Holds (prune_takeovers s now) key claim handle used expires
unfolding prune_takeovers
prune-Holds s key claim handle used expires now h soon = record {
  stored =
      lookup-keep (λ r. ltb now r.expires) key s.requests
        (record { claim = claim; handle = handle; used = used; expires = expires }) h.stored
        (ground (arith, soon));
}

pub claim_authority-ttl :
    (s : TakeoverStore) (operator request_id : ℕ) (claim : Claim) (source : Option ℕ)
    → (claim_authority s operator request_id claim source).1.ttl ≡ s.ttl
unfolding claim_authority
claim_authority-ttl s operator request_id claim source = elim (Bool-cases claim.is_offer) [
  | inr of_source ↦ ground (arith, of_source)
  | inl offered ↦ elim (Option-cases (lookup claim.claim s.offers)) [
    | inl gone ↦ ground (arith, offered, gone)
    | inr (o, there) ↦ ground (arith, offered, there)
  ]
]

abbrev granted : TakeoverStore → ℕ → Claim → ℕ → ℕ → TakeoverStore
granted s key claim handle now = record s {
  requests =
      put key (record { claim = claim; handle = handle; used = false; expires = now + s.ttl })
        s.requests;
  handles = put handle key s.handles;
}

granted-Holds :
    (s : TakeoverStore) (key : ℕ) (claim : Claim) (handle now : ℕ)
    → Holds (granted s key claim handle now) key claim handle false (now + s.ttl)
      × (lookup handle (granted s key claim handle now).handles ≡ some key)
granted-Holds s key claim handle now = (record { stored = ground arith }, ground arith)

abbrev same_handle : Authorized → ℕ → ℕ
same_handle (authorized h replay) other = h
same_handle (refused error) other = other

-- A request that is authorized anew is in the store.
authorize_new-Holds :
    (s s' : TakeoverStore) (key operator request_id : ℕ) (claim : Claim) (source minted : Option ℕ)
    (now handle : ℕ)
    → authorize_new s key operator request_id claim source minted now
      ≡ (authorized handle false, s')
    → Holds s' key claim handle false (now + s.ttl) × (lookup handle s'.handles ≡ some key)
unfolding authorize_new
authorize_new-Holds s s' key operator request_id claim source minted now handle e =
    elim (Bool-cases (leb s.capacity (length s.requests))) [
      | inl full ↦ ground (arith, full, e)
      | inr room ↦ elim (Option-cases (claim_authority s operator request_id claim source).0) [
        | inl nobody ↦ ground (arith, room, nobody, e)
        | inr (a, found) ↦ elim (Option-cases minted) [
          | inl failed ↦ ground (arith, room, found, failed, e)
          | inr (h, made) ↦
              let s1 = (claim_authority s operator request_id claim source).1 in
              let all : (authorized h false, granted s1 key claim h now)
                  ≡ (authorized handle false, s') =
                answer a h room found made ∙ e in
              let same : h ≡ handle = ap (λ x. same_handle x.0 0) all in
              let (stored, there) = granted-Holds s1 key claim h now in
              let ttl : s1.ttl ≡ s.ttl = claim_authority-ttl s operator request_id claim source in
              let at : granted s1 key claim h now ≡ s' = ap (λ x. x.1) all in
              (
                subst (λ t. Holds s' key claim handle false (now + t)) ttl
                    (subst (λ h. Holds s' key claim h false (now + s1.ttl)) same
                      (subst (λ x. Holds x key claim h false (now + s1.ttl)) at stored)),
                subst (λ h. lookup h s'.handles ≡ some key) same
                    (subst (λ x. lookup h x.handles ≡ some key) at there),
              )
        ]
      ]
    ]
  where
    answer :
        (a h : ℕ)
        → leb s.capacity (length s.requests) ≡ false
        → (claim_authority s operator request_id claim source).0 ≡ some a
        → minted ≡ some h
        → (
          authorized h false,
          granted (claim_authority s operator request_id claim source).1 key claim h now,
        )
          ≡ authorize_new s key operator request_id claim source minted now
    answer a h room found made = ground (arith, room, found, made)

pub authorize-Holds :
    (request_key : ℕ → ℕ → ℕ) (s s' : TakeoverStore) (operator request_id : ℕ) (claim : Claim)
    (source minted : Option ℕ) (now handle : ℕ)
    → authorize request_key s operator request_id claim source minted now
      ≡ (authorized handle false, s')
    → Holds s' (request_key operator request_id) claim handle false (now + s.ttl)
      × (lookup handle s'.handles ≡ some (request_key operator request_id))
unfolding authorize authorized_before prune_takeovers
authorize-Holds request_key s s' operator request_id claim source minted now handle e =
    elim (Option-cases
      (lookup (request_key operator request_id) (prune_takeovers s now).requests)) [
        | inl new ↦
            authorize_new-Holds (prune_takeovers s now) s' (request_key operator request_id)
              operator request_id claim source minted now handle (ground (arith, new, e))
        | inr (prior, there) ↦ ground (arith, there, e)
      ]

pub pruned_handles :
    (s : TakeoverStore) (now handle k : ℕ)
    → lookup handle (prune_takeovers s now).handles ≡ some k
    → lookup handle (delete_handles s.requests now s.handles) ≡ some k
unfolding prune_takeovers
pruned_handles s now handle k e = e

abbrev taken_by : TakeoverStore → ℕ → ℕ → TakeoverStore
taken_by p key handle = record p {
  requests = put key (mark_used (lookup key p.requests)) p.requests;
  handles = delete handle p.handles;
}

taken_by-Holds :
    (p : TakeoverStore) (key : ℕ) (claim : Claim) (handle expires : ℕ)
    → Holds p key claim handle false expires
    → Holds (taken_by p key handle) key claim handle true expires
      × (lookup handle (taken_by p key handle).handles ≡ none)
taken_by-Holds p key claim handle expires h = (
  record { stored = ground (arith, h.stored) },
  ground (arith, lookup-delete handle handle p.handles),
)

pub consumed-Holds :
    (s' s'' : TakeoverStore) (key : ℕ) (claim : Claim) (handle expires : ℕ) (consumed : Option ℕ)
    (authority between : ℕ)
    → consume_takeover s' handle consumed between ≡ (some authority, s'')
    → Holds s' key claim handle false expires
    → lookup handle s'.handles ≡ some key
    → between < expires
    → Holds s'' key claim handle true expires × (lookup handle s''.handles ≡ none)
unfolding consume_takeover prune_takeovers
consumed-Holds s' s'' key claim handle expires consumed authority between taken h there soon =
    let p = prune_takeovers s' between in
    elim (Option-cases (lookup handle (prune_takeovers s' between).handles)) [
      | inl gone ↦ ground (arith, gone, taken)
      | inr (k, found) ↦
          let inner = lookup-delete_handles s'.requests between handle k s'.handles found in
          let same : k ≡ key = ground (arith, inner, there) in
          elim (Option-cases consumed) [
            | inl failed ↦ ground (arith, found, failed, taken)
            | inr (a, got) ↦
                let at : taken_by (prune_takeovers s' between) k handle ≡ s'' =
                  ground (arith, found, got, taken) in
                subst
                  (λ x. Holds x key claim handle true expires × (lookup handle x.handles ≡ none)) at
                  (subst
                    (λ k.
                      Holds (taken_by (prune_takeovers s' between) k handle) key claim handle true
                        expires
                      × (lookup handle (taken_by (prune_takeovers s' between) k handle).handles
                          ≡ none))
                    (sym same)
                    (taken_by-Holds (prune_takeovers s' between) key claim handle expires
                      (prune-Holds s' key claim handle false expires between h soon)))
          ]
    ]
