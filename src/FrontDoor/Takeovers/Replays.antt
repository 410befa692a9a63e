-- ===== src/FrontDoor/Takeovers/Replays.antt =====
-- What any later calls find of a request until it expires.
use persea_terminal.Base.{ℕ, ◌<◌, ◌≡◌, ◌≢◌, Bool, true, false, ◌||◌, Option, none, some}
use persea_terminal.Base.Maps.{lookup, delete, put}
use persea_terminal.FrontDoor.Takeovers.{
  Claim, TakeoverRequest, TakeoverStore, is_present, record_offer, authorize, mark_used,
  consume_takeover,
}
use persea_terminal.FrontDoor.Takeovers.Requests.{Holds}

-- Any later calls before a time, of which no mint gives the handle anew; the Boolean is whether one of
-- them has consumed a handle.
pub data Later (request_key : ℕ → ℕ → ℕ) (handle expires : ℕ) (s : TakeoverStore)
    : TakeoverStore → Bool → Type 0 where
  same_store : Later request_key handle expires s s false
  offers :
      {t : TakeoverStore} {taken : Bool} (token operator authority now : ℕ)
      → Later request_key handle expires s t taken
      → now < expires
      → Later request_key handle expires s (record_offer t token operator authority now).1 taken
  authorizes :
      {t : TakeoverStore} {taken : Bool} (operator request_id : ℕ) (claim : Claim)
      (source minted : Option ℕ) (now : ℕ)
      → Later request_key handle expires s t taken
      → minted ≢ some handle
      → now < expires
      → Later request_key handle expires s
          (authorize request_key t operator request_id claim source minted now).1
          taken
  consumes :
      {t : TakeoverStore} {taken : Bool} (k : ℕ) (consumed : Option ℕ) (now : ℕ)
      → Later request_key handle expires s t taken
      → now < expires
      → Later request_key handle expires s
          (consume_takeover t k consumed now).1
          (taken || is_present (consume_takeover t k consumed now).0)

-- What a call does to the requests and the handles that are left by the prune.
data Changes (p : TakeoverStore) (handle : ℕ) : TakeoverStore → Bool → Type 0 where
  nothing :
      {t : TakeoverStore}
      → t.requests ≡ p.requests
      → t.handles ≡ p.handles
      → Changes p handle t false
  grants :
      {t : TakeoverStore} (h k : ℕ) (r : TakeoverRequest)
      → h ≢ handle
      → lookup k p.requests ≡ none
      → t.requests ≡ put k r p.requests
      → t.handles ≡ put h k p.handles
      → Changes p handle t false
  takes :
      {t : TakeoverStore} (h k : ℕ)
      → t.requests ≡ put k (mark_used (lookup k p.requests)) p.requests
      → t.handles ≡ delete h p.handles
      → Changes p handle t true

-- A request and its handle in a later store.
record IsKept (t : TakeoverStore) (key : ℕ) (claim : Claim) (handle expires : ℕ) (used taken : Bool)
    : Type 0 where
  used_now : Bool
  held : Holds t key claim handle used_now expires
  unused : taken ≡ false → used_now ≡ used
  spent : used ≡ true → (used_now ≡ true) × (lookup handle t.handles ≡ none)
