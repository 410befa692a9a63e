-- ===== src/FrontDoor/Takeovers.antt =====
-- `controlTakeoverStore` of internal/frontdoor/control_takeover.go. Tokens, operators, request ids and authorities are numbers, since they
-- are only compared; so the concatenation of two strings to a key is a parameter, a function of two
-- numbers. The functions that `authorize` and `consume` are given are arguments: what they return, or
-- `none` for their error.
pub mod Requests
pub mod Replays
mod Tests
use persea_terminal.Base.{
  ℕ, ◌+◌, Bool, true, false, not, ◌&&◌, Option, none, some, List, [], ◌∷◌, ltb, leb, ◌==◌,
  if◌then◌else◌, length, add64,
}
use persea_terminal.Base.Maps.{lookup, delete, put}
use persea_terminal.FrontDoor.Handles.{keep, delete_found}

pub record TakeoverOffer : Type 0 where
  pub authority : ℕ
  pub operator : ℕ
  pub expires : ℕ
  pub serial : ℕ
  pub request_id : Option ℕ

-- A claim with its kind: of an offer, or of a source.
pub record Claim : Type 0 where
  pub is_offer : Bool
  pub claim : ℕ

pub record TakeoverRequest : Type 0 where
  pub claim : Claim
  pub handle : ℕ
  pub used : Bool
  pub expires : ℕ

pub record TakeoverStore : Type 0 where
  pub ttl : ℕ
  pub capacity : ℕ
  pub serial : ℕ
  pub offers : List (ℕ × TakeoverOffer)
  pub requests : List (ℕ × TakeoverRequest)
  pub handles : List (ℕ × ℕ)

pub data TakeoverError : Type 0 where
  unavailable conflict used_request capacity_exhausted service invalid_handle : TakeoverError
  consume_failed : TakeoverError

-- What `authorize` returns: a handle, and whether it is that of an earlier request; or an error.
pub data Authorized : Type 0 where
  authorized : ℕ → Bool → Authorized
  refused : TakeoverError → Authorized

abbrev pub same_kind : Bool → Bool → Bool
same_kind true b = b
same_kind false b = not b

abbrev pub same_claim : Claim → Claim → Bool
same_claim a b = same_kind a.is_offer b.is_offer && a.claim == b.claim

-- The handles of the requests that have expired are deleted.
unfoldable pub delete_handles : List (ℕ × TakeoverRequest) → ℕ → List (ℕ × ℕ) → List (ℕ × ℕ)
delete_handles [] now handles = handles
delete_handles ((k, r) ∷ m) now handles =
    if ltb now r.expires
    then delete_handles m now handles
    else delete_handles m now (delete r.handle handles)

unfoldable pub prune_takeovers : TakeoverStore → ℕ → TakeoverStore
prune_takeovers s now = record s {
  offers = keep (λ o. ltb now o.expires) s.offers;
  handles = delete_handles s.requests now s.handles;
  requests = keep (λ r. ltb now r.expires) s.requests;
}

abbrev pub is_present {ℓ} : {A : Type ℓ} → Option A → Bool
is_present none = false
is_present (some a) = true

unfoldable pub record_offer : TakeoverStore → ℕ → ℕ → ℕ → ℕ → Bool × TakeoverStore
record_offer s token operator authority now =
    let s' = prune_takeovers s now in
    if is_present (lookup token s'.offers)
    then (true, s')
    else if leb s'.capacity (length s'.offers)
    then (false, s')
    else (
      true,
      record s' {
        serial = add64 s'.serial 1;
        offers =
            put token
              (record {
                authority = authority;
                operator = operator;
                expires = now + s'.ttl;
                serial = add64 s'.serial 1;
                request_id = none;
              })
              s'.offers;
      },
    )

-- An offer that `authorize` may take: of the same operator, and not yet taken.
abbrev pub is_open_offer : TakeoverOffer → ℕ → Bool
is_open_offer o operator = o.operator == operator && not (is_present o.request_id)

-- The authority of a claim, with the store in which an offer is taken by the request.
unfoldable pub claim_authority : TakeoverStore → ℕ → ℕ → Claim → Option ℕ → Option ℕ × TakeoverStore
claim_authority s operator request_id claim source =
    if claim.is_offer
    then (elim (lookup claim.claim s.offers) [
      | none ↦ (none, s)
      | some o ↦
          if is_open_offer o operator
          then (
            some o.authority,
            record s {
              offers = put claim.claim (record o { request_id = some request_id }) s.offers;
            },
          )
          else (none, s)
    ])
    else (source, s)

-- After an error of the mint, an offer is open again.
unfoldable pub reopen : TakeoverStore → Claim → TakeoverStore
reopen s claim =
    if claim.is_offer
    then (elim (lookup claim.claim s.offers) [
      | none ↦ s
      | some o ↦ record s { offers = put claim.claim (record o { request_id = none }) s.offers }
    ])
    else s

-- The answer to a request that was authorized before.
unfoldable pub authorized_before : TakeoverRequest → Claim → Authorized
authorized_before prior claim =
    if not (same_claim prior.claim claim)
    then refused conflict
    else if prior.used
    then refused used_request
    else authorized prior.handle true

unfoldable pub authorize_new :
    TakeoverStore → ℕ → ℕ → ℕ → Claim → Option ℕ → Option ℕ → ℕ → Authorized × TakeoverStore
authorize_new s key operator request_id claim source minted now =
    if leb s.capacity (length s.requests)
    then (refused capacity_exhausted, s)
    else let (authority, s') = claim_authority s operator request_id claim source in
      elim authority [
        | none ↦ (refused unavailable, s')
        | some a ↦ (elim minted [
          | none ↦ (refused service, reopen s' claim)
          | some handle ↦ (
            authorized handle false,
            record s' {
              requests =
                  put key
                    (record {
                      claim = claim;
                      handle = handle;
                      used = false;
                      expires = now + s'.ttl;
                    })
                    s'.requests;
              handles = put handle key s'.handles;
            },
          )
        ])
      ]

module _ (request_key : ℕ → ℕ → ℕ) where
  unfoldable pub authorize :
      TakeoverStore → ℕ → ℕ → Claim → Option ℕ → Option ℕ → ℕ → Authorized × TakeoverStore
  authorize s operator request_id claim source minted now =
      let s' = prune_takeovers s now in
      elim (lookup (request_key operator request_id) s'.requests) [
        | some prior ↦ (authorized_before prior claim, s')
        | none ↦
            authorize_new s' (request_key operator request_id) operator request_id claim source
              minted now
      ]

-- A request is marked as used; one that is missing becomes a zero request that is.
abbrev pub mark_used : Option TakeoverRequest → TakeoverRequest
mark_used none = record {
  claim = record { is_offer = false; claim = 0 };
  handle = 0;
  used = true;
  expires = 0;
}
mark_used (some r) = record r { used = true }

unfoldable pub consume_takeover : TakeoverStore → ℕ → Option ℕ → ℕ → Option ℕ × TakeoverStore
consume_takeover s handle consumed now =
    let s' = prune_takeovers s now in
    elim (lookup handle s'.handles) [
      | none ↦ (none, s')
      | some key ↦ (elim consumed [
        | none ↦ (none, s')
        | some authority ↦ (
          some authority,
          record s' {
            requests = put key (mark_used (lookup key s'.requests)) s'.requests;
            handles = delete handle s'.handles;
          },
        )
      ])
    ]
