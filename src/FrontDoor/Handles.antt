-- ===== src/FrontDoor/Handles.antt =====
-- The handles and the source bindings of internal/frontdoor/state.go. A token, an operator, a purpose
-- and an authority are numbers, since they are only compared, and a time is a number. A map is an
-- association list. What crypto/rand returns is an argument, `none` for its error.
pub mod Mints
pub mod Evictions
pub mod Serving
pub mod Uses
pub mod Spent
mod Tests
use persea_terminal.Base.{
  ℕ, zero, suc, ◌+◌, ◌-◌, ◌^◌, Bool, ◌&&◌, ◌||◌, Option, none, some, List, [], ◌∷◌, ltb, ◌==◌,
  if◌then◌else◌, ◌>>=◌, length, add64,
}
use persea_terminal.Base.Maps.{lookup, delete, put}

-- A map without the entries that fail a test.
abbrev pub keep {ℓ} : {A : Type ℓ} → (A → Bool) → List (ℕ × A) → List (ℕ × A)
keep test [] = []
keep test ((k, a) ∷ m) = if test a then (k, a) ∷ keep test m else keep test m

pub record HandleEntry : Type 0 where
  pub authority : ℕ
  pub operator : ℕ
  pub purpose : ℕ
  pub expires : ℕ
  pub created : ℕ

pub record HandleStore : Type 0 where
  pub ttl : ℕ
  pub capacity : ℕ
  pub serial : ℕ
  pub entries : List (ℕ × HandleEntry)

abbrev pub new_handle_store : ℕ → ℕ → HandleStore
new_handle_store ttl capacity = record { ttl = ttl; capacity = capacity; serial = 0; entries = [] }

-- The loop of evictOldest: the key that is the oldest so far, and its serial.
unfoldable pub oldest : List (ℕ × HandleEntry) → Option ℕ → ℕ → Option ℕ
oldest [] key serial = key
oldest ((h, e) ∷ m) key serial =
    if ltb e.created serial then oldest m (some h) e.created else oldest m key serial

-- Without a key, the empty one is deleted, under which there is nothing.
abbrev pub delete_found {ℓ} : {A : Type ℓ} → Option ℕ → List (ℕ × A) → List (ℕ × A)
delete_found none m = m
delete_found (some key) m = delete key m

unfoldable pub evict_oldest : List (ℕ × HandleEntry) → List (ℕ × HandleEntry)
evict_oldest m = delete_found (oldest m none (2 ^ 64 - 1)) m

unfoldable pub prune : List (ℕ × HandleEntry) → ℕ → List (ℕ × HandleEntry)
prune m now = keep (λ e. ltb now e.expires) m

-- The loop of `mint`, on fuel: `none` is a loop that goes on.
unfoldable pub evict_until : ℕ → ℕ → List (ℕ × HandleEntry) → Option (List (ℕ × HandleEntry))
evict_until zero capacity m = if ltb (length m) capacity then some m else none
evict_until (suc fuel) capacity m =
    let rest = evict_until fuel capacity (evict_oldest m) in
    if ltb (length m) capacity then some m else rest

-- `none` is a loop that goes on; the handle is `none` for the error of the random source. Operator
-- and purpose are those of the binding, or the defaults.
unfoldable pub mint : HandleStore → ℕ → ℕ → ℕ → Option ℕ → ℕ → Option (Option ℕ × HandleStore)
mint s authority operator purpose token now =
    evict_until (length (prune s.entries now)) s.capacity (prune s.entries now) >>= λ m.
    some (elim token [
      | none ↦ (none, record s { entries = m })
      | some h ↦ (
        some h,
        record s {
          serial = add64 s.serial 1;
          entries =
              put h
                (record {
                  authority = authority;
                  operator = operator;
                  purpose = purpose;
                  expires = now + s.ttl;
                  created = add64 s.serial 1;
                })
                m;
        },
      )
    ])

-- What `resolve` is called with besides the handle.
pub data Binding : Type 0 where
  unbound : Binding
  with_operator : ℕ → Binding
  with_purpose : ℕ → ℕ → Binding

-- The purposes that need no binding.
abbrev pub legacy : ℕ
legacy = 0

abbrev pub alias_purpose : ℕ
alias_purpose = 1

abbrev pub observe_purpose : ℕ
observe_purpose = 2

abbrev pub control_purpose : ℕ
control_purpose = 3

unfoldable pub is_bound : Binding → HandleEntry → Bool
is_bound unbound e =
    e.purpose == legacy
    || e.purpose == alias_purpose
    || e.purpose == observe_purpose
    || e.purpose == control_purpose
is_bound (with_operator operator) e = e.operator == operator
is_bound (with_purpose operator purpose) e = e.operator == operator && e.purpose == purpose

-- `none` stands for errInvalidHandle.
unfoldable pub resolve : HandleStore → ℕ → Binding → ℕ → Option ℕ × HandleStore
resolve s h binding now =
    let s' = record s { entries = prune s.entries now } in
    elim (lookup h (prune s.entries now)) [
      | none ↦ (none, s')
      | some e ↦ if is_bound binding e then (some e.authority, s') else (none, s')
    ]

-- A handle that passes a test is deleted.
unfoldable pub consume_if : HandleStore → ℕ → (HandleEntry → Bool) → ℕ → Option ℕ × HandleStore
consume_if s h test now =
    let s' = record s { entries = prune s.entries now } in
    elim (lookup h (prune s.entries now)) [
      | none ↦ (none, s')
      | some e ↦
          if test e
          then (some e.authority, record s { entries = delete h (prune s.entries now) })
          else (none, s')
    ]

unfoldable pub consume : HandleStore → ℕ → ℕ → ℕ → ℕ → Option ℕ × HandleStore
consume s h operator purpose now =
    consume_if s h (λ e. e.operator == operator && e.purpose == purpose) now

unfoldable pub consume_legacy : HandleStore → ℕ → ℕ → Option ℕ × HandleStore
consume_legacy s h now = consume_if s h (λ e. e.purpose == legacy) now
