-- ===== src/FrontDoor/FlowWindow/Tests.antt =====
-- A window of three frames.
use persea_terminal.Base.{◌≤◌, ◌<◌, ◌≡◌, refl, ◌⊎◌, true, false, some, [], ◌∷◌, arith}
use persea_terminal.FrontDoor.FlowWindow.{
  FlowWindow, empty, is_open, record_frame, drain, compact, ack,
}
use persea_terminal.FrontDoor.FlowWindow.Bounds.{
  IsValid, Advanced, pending, record_frame-IsValid, ack_lem,
}
use persea_terminal.FrontDoor.FlowWindow.Reach.{
  relays, Reach, starts, steps, IsBounded, Reach-IsBounded,
}

abbrev three : FlowWindow
three = record { sizes = 10 ∷ 20 ∷ 30 ∷ []; head = 1; sent = 7; acked = 5; inflight = 50 }

three-IsValid : IsValid three
three-IsValid = omega arith

acks_two : ack three 7 ≡ some (true, record three { sizes = []; head = 0; acked = 7; inflight = 0 })
unfolding ack drain compact
acks_two = refl

refuses_early : ack three 5 ≡ some (false, three)
unfolding ack
refuses_early = refl

ack_lem_example :
    (((6 ≤ 5) ⊎ (7 < 6)) × (ack three 6 ≡ some (false, three)))
    ⊎ ((w' : FlowWindow) × (ack three 6 ≡ some (true, w')) × Advanced three 6 w')
ack_lem_example = ack_lem three 6 three-IsValid

record_frame-IsValid_example :
    IsValid (record_frame three 4)
    × (pending (record_frame three 4) ≡ 20 ∷ 30 ∷ 4 ∷ [])
    × ((record_frame three 4).sent ≡ 8)
    × ((record_frame three 4).acked ≡ 5)
record_frame-IsValid_example = record_frame-IsValid three 4 three-IsValid (omega arith)

opened : is_open empty ≡ true
unfolding is_open
opened = refl

one_frame : Reach 16 (record_frame empty 16)
one_frame = steps starts (relays 16 opened (omega arith) (omega arith) refl)

Reach-IsBounded_example : IsBounded 16 (record_frame empty 16)
Reach-IsBounded_example = Reach-IsBounded 16 one_frame
