-- ===== src/FrontDoor/Handles/Tests.antt =====
-- A store of one handle that is full.
use persea_terminal.Base.{◌≡◌, refl, none, [], ◌∷◌}
use persea_terminal.FrontDoor.Handles.{HandleStore, prune, consume_if, consume}

abbrev full : HandleStore
full = record {
  ttl = 60;
  capacity = 1;
  serial = 1;
  entries =
      (11, record { authority = 4; operator = 5; purpose = 3; expires = 100; created = 1 }) ∷ [];
}

abbrev spent : HandleStore
spent = record full { entries = [] }

expired : (consume full 11 5 3 100).0 ≡ none
unfolding consume consume_if prune
expired = refl

-- The handle 12 is minted behind it.
abbrev reminted : HandleStore
reminted = record full {
  serial = 2;
  entries =
      (12, record { authority = 6; operator = 5; purpose = 3; expires = 159; created = 2 }) ∷ [];
}
