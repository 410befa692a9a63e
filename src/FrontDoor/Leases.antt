-- ===== src/FrontDoor/Leases.antt =====
-- The leases of control: `leaseStore` of internal/frontdoor/state.go and its owners of
-- internal/frontdoor/control_takeover.go. An authority stands for its key and a holder for its token,
-- both of which are only compared. A pointer to an owner is its number in the order of allocation. A
-- time is a number; `now` is what the clock shows in a call.
pub mod Steps
pub mod Owners
pub mod Transfers
pub mod Fences
mod Tests
use persea_terminal.Base.{
  ℕ, ◌+◌, Bool, true, false, not, ◌&&◌, ◌||◌, Option, none, some, ltb, ◌==◌, if◌then◌else◌, add64,
}

pub data Reason : Type 0 where
  control_displaced takeover_superseded : Reason

-- `gate` says whether `inputGate` is locked by an input; `displaced` is what the channel of that name
-- holds, which is one reason at most.
pub record Owner : Type 0 where
  pub ref : ℕ
  pub authority : ℕ
  pub holder : ℕ
  pub generation : ℕ
  pub gate : Bool
  pub fenced : Bool
  pub takeover : Bool
  pub displaced : Option Reason

pub record LeaseEntry : Type 0 where
  pub generation : ℕ
  pub holder : ℕ
  pub since : ℕ
  pub expires : ℕ
  pub owner : Option ℕ

-- The heap of owners is part of the state: those below `allocated` exist.
pub record LeaseStore : Type 0 where
  pub ttl : ℕ
  pub serial : ℕ
  pub entries : ℕ → Option LeaseEntry
  pub owners : ℕ → Owner
  pub allocated : ℕ

abbrev pub no_owner : Owner
no_owner = record {
  ref = 0;
  authority = 0;
  holder = 0;
  generation = 0;
  gate = false;
  fenced = false;
  takeover = false;
  displaced = none;
}

abbrev pub new_lease_store : ℕ → LeaseStore
new_lease_store ttl = record {
  ttl = ttl;
  serial = 0;
  entries = λ key. none;
  owners = λ p. no_owner;
  allocated = 0;
}

abbrev pub set_at {ℓ} : {A : Type ℓ} → ℕ → A → (ℕ → A) → ℕ → A
set_at k a f j = if j == k then a else f j

-- An entry that is there and has not expired.
abbrev pub is_live : Option LeaseEntry → ℕ → Bool
is_live none now = false
is_live (some e) now = ltb now e.expires

abbrev pub since_of : Option LeaseEntry → ℕ
since_of none = 0
since_of (some e) = e.since

abbrev pub is_held_by : Option LeaseEntry → ℕ → Bool
is_held_by none holder = false
is_held_by (some e) holder = e.holder == holder

-- An entry whose lease runs anew from `now`.
abbrev pub prolonged : Option LeaseEntry → ℕ → Option LeaseEntry
prolonged none expires = none
prolonged (some e) expires = some (record e { expires = expires })

-- `acquire`, `renew` and `release` of state.go, for a holder without an owner.
unfoldable pub acquire : LeaseStore → ℕ → ℕ → ℕ → ℕ × Bool × LeaseStore
acquire s key holder now =
    if is_live (s.entries key) now && not (is_held_by (s.entries key) holder)
    then (since_of (s.entries key), false, s)
    else if is_held_by (s.entries key) holder && is_live (s.entries key) now
    then (
      since_of (s.entries key),
      true,
      record s { entries = set_at key (prolonged (s.entries key) (now + s.ttl)) s.entries },
    )
    else (
      now,
      true,
      record s {
        serial = add64 s.serial 1;
        entries =
            set_at key
              (some (record {
                generation = add64 s.serial 1;
                holder = holder;
                since = now;
                expires = now + s.ttl;
                owner = none;
              }))
              s.entries;
      },
    )

unfoldable pub renew : LeaseStore → ℕ → ℕ → ℕ → Bool × LeaseStore
renew s key holder now =
    if not (is_held_by (s.entries key) holder)
    then (false, s)
    else if not (is_live (s.entries key) now)
    then (false, record s { entries = set_at key none s.entries })
    else (
      true,
      record s { entries = set_at key (prolonged (s.entries key) (now + s.ttl)) s.entries },
    )

unfoldable pub release_lease : LeaseStore → ℕ → ℕ → LeaseStore
release_lease s key holder =
    if is_held_by (s.entries key) holder
    then record s { entries = set_at key none s.entries }
    else s

-- The pointer to the new owner, and the store with it.
unfoldable pub new_owner : LeaseStore → ℕ → ℕ → Bool → ℕ × LeaseStore
new_owner s authority holder takeover = (
  s.allocated,
  record s {
    serial = add64 s.serial 1;
    owners =
        set_at s.allocated
          (record no_owner {
            ref = add64 s.serial 1;
            authority = authority;
            holder = holder;
            takeover = takeover;
          })
          s.owners;
    allocated = s.allocated + 1;
  },
)

-- The owner gets a generation and the entry of its authority.
abbrev pub install : LeaseStore → ℕ → ℕ → LeaseStore
install s p now = record s {
  serial = add64 s.serial 1;
  owners = set_at p (record (s.owners p) { generation = add64 s.serial 1 }) s.owners;
  entries =
      set_at (s.owners p).authority
        (some (record {
          generation = add64 s.serial 1;
          holder = (s.owners p).holder;
          since = now;
          expires = now + s.ttl;
          owner = some p;
        }))
        s.entries;
}

unfoldable pub acquire_owner : LeaseStore → ℕ → ℕ → ℕ × Bool × LeaseStore
acquire_owner s p now =
    if is_live (s.entries (s.owners p).authority) now
    then (since_of (s.entries (s.owners p).authority), false, s)
    else (now, true, install s p now)

abbrev pub is_pointer : Option ℕ → ℕ → Bool
is_pointer none p = false
is_pointer (some q) p = q == p

-- `exactLocked`, on an entry that is there.
abbrev pub is_exact : LeaseStore → ℕ → Option LeaseEntry → Bool
is_exact s p none = false
is_exact s p (some e) =
    e.generation == (s.owners p).generation
    && e.holder == (s.owners p).holder
    && is_pointer e.owner p

unfoldable pub renew_owner : LeaseStore → ℕ → ℕ → Bool × LeaseStore
renew_owner s p now =
    let key = (s.owners p).authority in
    if not (is_exact s p (s.entries key))
      || (s.owners p).fenced
      || not (is_live (s.entries key) now)
    then (false, s)
    else (
      true,
      record s { entries = set_at key (prolonged (s.entries key) (now + s.ttl)) s.entries },
    )

unfoldable pub release_owner : LeaseStore → ℕ → Bool × LeaseStore
release_owner s p =
    let key = (s.owners p).authority in
    if not (is_exact s p (s.entries key))
    then (false, s)
    else (true, record s { entries = set_at key none s.entries })

abbrev pub owner_of : Option LeaseEntry → Option ℕ
owner_of none = none
owner_of (some e) = e.owner

-- A round of the loop of `transfer` up to the lock of the incumbent's gate: the owner is installed, or
-- the pointer to the incumbent is what the loop waits for.
unfoldable pub transfer_starts : LeaseStore → ℕ → ℕ → Option ℕ × LeaseStore
transfer_starts s p now =
    let incumbent = s.entries (s.owners p).authority in
    elim (owner_of incumbent) [
      | none ↦ (none, install s p now)
      | some old ↦ if not (is_live incumbent now) then (none, install s p now) else (some old, s)
    ]

abbrev pub displacing : Owner → Reason
displacing old = if old.takeover then takeover_superseded else control_displaced

-- The old owner is fenced and told why.
abbrev pub fence : LeaseStore → ℕ → LeaseStore
fence s old = record s {
  owners =
      set_at old
        (record (s.owners old) { fenced = true; displaced = some (displacing (s.owners old)) })
        s.owners;
}

-- The rest of the round, with the gate of the incumbent locked: `none` where the loop begins again.
unfoldable pub transfer_commits : LeaseStore → ℕ → ℕ → ℕ → Option LeaseStore
transfer_commits s p old now =
    if not (is_exact s old (s.entries (s.owners p).authority))
    then none
    else some (install (fence s old) p now)

unfoldable pub owner_fenced : LeaseStore → ℕ → Bool
owner_fenced s p = (s.owners p).fenced

-- `useOwnerInput` up to the action, which runs with the gate locked, and its end.
unfoldable pub input_begins : LeaseStore → ℕ → ℕ → Bool × LeaseStore
input_begins s p now =
    if (s.owners p).fenced
    then (false, s)
    else let (renewed, s') = renew_owner s p now in
      if renewed
      then (true, record s' { owners = set_at p (record (s'.owners p) { gate = true }) s'.owners })
      else (false, s')

unfoldable pub input_ends : LeaseStore → ℕ → LeaseStore
input_ends s p = record s { owners = set_at p (record (s.owners p) { gate = false }) s.owners }

unfoldable pub renew_owner_gated : LeaseStore → ℕ → ℕ → Bool × LeaseStore
renew_owner_gated s p now = if (s.owners p).fenced then (false, s) else renew_owner s p now

-- The receive of `controlDisplacement`.
unfoldable pub control_displacement : LeaseStore → ℕ → Option Reason × LeaseStore
control_displacement s p = (
  (s.owners p).displaced,
  record s { owners = set_at p (record (s.owners p) { displaced = none }) s.owners },
)
