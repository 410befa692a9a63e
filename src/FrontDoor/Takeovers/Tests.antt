-- ===== src/FrontDoor/Takeovers/Tests.antt =====
-- An operator who asks for the control that an offer stands for.
use persea_terminal.Base.{ℕ, ◌+◌, ◌*◌, true, false, none, some, [], ◌∷◌}
use persea_terminal.FrontDoor.Takeovers.{Claim, TakeoverStore}

-- Ids below 1000 give keys that differ.
abbrev key : ℕ → ℕ → ℕ
key operator request_id = operator * 1000 + request_id

abbrev offered : TakeoverStore
offered = record {
  ttl = 60;
  capacity = 4;
  serial = 1;
  offers =
      (70, record { authority = 8; operator = 5; expires = 200; serial = 1; request_id = none })
      ∷ [];
  requests = [];
  handles = [];
}

abbrev claim_offer : Claim
claim_offer = record { is_offer = true; claim = 70 }

abbrev claim_source : Claim
claim_source = record { is_offer = false; claim = 70 }

abbrev granted_once : TakeoverStore
granted_once = record {
  ttl = 60;
  capacity = 4;
  serial = 1;
  offers =
      (70, record { authority = 8; operator = 5; expires = 200; serial = 1; request_id = some 33 })
      ∷ [];
  requests = (5033, record { claim = claim_offer; handle = 90; used = false; expires = 160 }) ∷ [];
  handles = (90, 5033) ∷ [];
}

abbrev used_once : TakeoverStore
used_once = record granted_once {
  requests = (5033, record { claim = claim_offer; handle = 90; used = true; expires = 160 }) ∷ [];
  handles = [];
}
