-- ===== src/Terminal/WorkGate/Tests.antt =====
-- The gate on concrete claims.
use persea_terminal.Base.{◌≡◌, refl, ◌≢◌, ◌↔◌, true, false, ◌&&◌, none, [], ◌∷◌}
use persea_terminal.Terminal.WorkGate.{
  WorkGate, new_work_gate, holds, is_empty, claim, close_if_ready, release, seal,
}
use persea_terminal.Terminal.WorkGate.Claims.{
  Reach, starts, claims, releases, seals, Reach-quiescent,
}

-- Two claims, sealed, and the first of them released.
abbrev claimed_twice : WorkGate
claimed_twice = (claim (claim new_work_gate).1).1

abbrev sealed_now : WorkGate
sealed_now = record claimed_twice { sealed = true }

abbrev one_left : WorkGate
one_left = record sealed_now { active = 1 ∷ []; released = 0 ∷ [] }

one_left-Reach : Reach one_left
unfolding claim seal release close_if_ready
one_left-Reach = releases 0 one_left (seals sealed_now (claims (claims starts)) refl) refl

refused : claim one_left ≡ (none, one_left)
unfolding claim seal release close_if_ready
refused = refl

Reach-quiescent_example :
    (one_left.channel_closed ≡ (one_left.sealed && is_empty one_left.active))
    × (seal one_left ≢ none)
    × ((release one_left 1 ≡ none) ↔ (holds 1 one_left.active ≡ false))
Reach-quiescent_example = Reach-quiescent 1 one_left-Reach
