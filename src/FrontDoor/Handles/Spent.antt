-- ===== src/FrontDoor/Handles/Spent.antt =====
-- A handle that was consumed stays so.
use persea_terminal.Base.{ℕ, ◌≡◌, ◌≢◌, Option, none, some, List}
use persea_terminal.Base.Maps.{lookup}
use persea_terminal.FrontDoor.Handles.{
  HandleEntry, HandleStore, mint, Binding, resolve, consume, consume_legacy,
}

-- Any later calls on a store, except that no mint draws the handle anew: the random source does not
-- repeat itself.
pub data Later (h : ℕ) (s : HandleStore) : HandleStore → Type 0 where
  same_store : Later h s s
  mints :
      {t t' : HandleStore} (authority operator purpose now : ℕ) (token answer : Option ℕ)
      → Later h s t
      → token ≢ some h
      → mint t authority operator purpose token now ≡ some (answer, t')
      → Later h s t'
  resolves :
      {t : HandleStore} (k : ℕ) (binding : Binding) (now : ℕ)
      → Later h s t
      → Later h s (resolve t k binding now).1
  consumes :
      {t : HandleStore} (k operator purpose now : ℕ)
      → Later h s t
      → Later h s (consume t k operator purpose now).1
  consumes_legacy :
      {t : HandleStore} (k now : ℕ) → Later h s t → Later h s (consume_legacy t k now).1

abbrev pub Absent : ℕ → List (ℕ × HandleEntry) → Type 0
Absent h m = lookup h m ≡ none
