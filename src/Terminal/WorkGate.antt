-- ===== src/Terminal/WorkGate.antt =====
-- internal/terminal/work_gate.go: claims of work, and the channel that is closed when the gate is
-- sealed and no claim is left. The claims are numbered in the order of their allocation. A result of
-- `none` is a panic: of `release`, or of closing a closed channel.
pub mod Claims
mod Tests
use persea_terminal.Base.{
  ℕ, ◌+◌, Bool, true, false, not, ◌&&◌, ◌||◌, Option, none, some, List, [], ◌∷◌, ◌==◌,
  if◌then◌else◌,
}

abbrev pub holds : ℕ → List ℕ → Bool
holds id [] = false
holds id (x ∷ xs) = id == x || holds id xs

-- `delete` on a map's keys.
abbrev pub remove : ℕ → List ℕ → List ℕ
remove id [] = []
remove id (x ∷ xs) = if id == x then remove id xs else x ∷ remove id xs

abbrev pub is_empty : List ℕ → Bool
is_empty [] = true
is_empty (x ∷ xs) = false

-- `released` are the claims whose field of that name is set, `channel_closed` is the state of
-- `quiescent`, and `allocated` the number of claims made.
pub record WorkGate : Type 0 where
  pub sealed : Bool
  pub active : List ℕ
  pub channel_closed : Bool
  pub closed : Bool
  pub allocated : ℕ
  pub released : List ℕ

abbrev pub new_work_gate : WorkGate
new_work_gate = record {
  sealed = false;
  active = [];
  channel_closed = false;
  closed = false;
  allocated = 0;
  released = [];
}

-- A claim, or `none` for ErrClosed.
unfoldable pub claim : WorkGate → Option ℕ × WorkGate
claim g = if g.sealed then (none, g) else (
  some g.allocated,
  record g { active = g.allocated ∷ g.active; allocated = g.allocated + 1 },
)

unfoldable pub close_if_ready : WorkGate → Option WorkGate
close_if_ready g =
    if g.sealed && is_empty g.active && not g.closed
    then (if g.channel_closed
        then none
        else some (record g { channel_closed = true; closed = true }))
    else some g

unfoldable pub release : WorkGate → ℕ → Option WorkGate
release g id =
    if holds id g.released
    then none
    else if not (holds id g.active)
    then none
    else close_if_ready (record g { active = remove id g.active; released = id ∷ g.released })

unfoldable pub seal : WorkGate → Option WorkGate
seal g = close_if_ready (record g { sealed = true })
