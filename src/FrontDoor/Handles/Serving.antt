-- ===== src/FrontDoor/Handles/Serving.antt =====
-- A handle that was minted serves its binding, through the calls that leave it alone.
use persea_terminal.Base.{ℕ, ◌+◌, ◌≤◌, ◌<◌, ◌≡◌, ◌≢◌, ◌⊎◌, none, some, length}
use persea_terminal.Base.Maps.{lookup}
use persea_terminal.FrontDoor.Handles.{
  HandleEntry, HandleStore, prune, Binding, resolve, consume, consume_legacy,
}

-- Calls before a time that mint nothing, and of which none consumes the handle.
pub data Calls (h before : ℕ) (s : HandleStore) : HandleStore → Type 0 where
  same_store : Calls h before s s
  resolves :
      {t : HandleStore} (k : ℕ) (binding : Binding) (now : ℕ)
      → Calls h before s t
      → now < before
      → Calls h before s (resolve t k binding now).1
  consumes :
      {t : HandleStore} (k operator purpose now : ℕ)
      → Calls h before s t
      → now < before
      → (k ≢ h) ⊎ ((consume t k operator purpose now).0 ≡ none)
      → Calls h before s (consume t k operator purpose now).1
  consumes_legacy :
      {t : HandleStore} (k now : ℕ)
      → Calls h before s t
      → now < before
      → (k ≢ h) ⊎ ((consume_legacy t k now).0 ≡ none)
      → Calls h before s (consume_legacy t k now).1

abbrev Holds : ℕ → HandleEntry → HandleStore → Type 0
Holds h x s = lookup h s.entries ≡ some x

-- What a mint of a handle makes of a store: room for it, at the cost of the oldest handles alone, and
-- a handle that its operator can use for its purpose.
pub record Minted (s s' : HandleStore) (authority operator purpose h now : ℕ) : Type 0 where
  pub few : length s'.entries ≤ s.capacity
  pub kept :
      (k : ℕ) (y : HandleEntry)
      → k ≢ h
      → lookup k s'.entries ≡ some y
      → lookup k (prune s.entries now) ≡ some y
  pub oldest_first :
      (j k : ℕ) (x y : HandleEntry)
      → j ≢ h
      → k ≢ h
      → lookup j (prune s.entries now) ≡ some x
      → lookup j s'.entries ≡ none
      → lookup k s'.entries ≡ some y
      → x.created ≤ y.created
  pub serves :
      (t : HandleStore) (later : ℕ)
      → Calls h (now + s.ttl) s' t
      → later < now + s.ttl
      → ((consume t h operator purpose later).0 ≡ some authority)
        × ((resolve t h (Binding.with_purpose operator purpose) later).0 ≡ some authority)
