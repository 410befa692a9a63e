-- ===== src/FrontDoor/Handles/Uses.antt =====
-- A handle that was consumed is absent, and stays so when the store is pruned.
use persea_terminal.Base.{
  ℕ, ◌≡◌, inl, inr, Bool, none, some, List, arith, ltb, Bool-cases, Option-cases, subst,
}
use persea_terminal.Base.Maps.{lookup, delete, lookup-has_key, has_key-lookup, lookup-delete}
use persea_terminal.FrontDoor.Handles.{keep, HandleEntry, HandleStore, prune, consume_if}
use persea_terminal.FrontDoor.Handles.Mints.{has_key-keep}

pub consumed-absent :
    (s s' : HandleStore) (h authority : ℕ) (test : HandleEntry → Bool) (now : ℕ)
    → consume_if s h test now ≡ (some authority, s')
    → lookup h s'.entries ≡ none
unfolding consume_if
consumed-absent s s' h authority test now e = elim (Option-cases (lookup h (prune s.entries now))) [
  | inl gone ↦ ground (arith, gone, e)
  | inr (x, there) ↦ elim (Bool-cases (test x)) [
    | inr fails ↦ ground (arith, there, fails, e)
    | inl passes ↦
        subst (λ s'. lookup h s'.entries ≡ none)
          (let same : record s { entries = delete h (prune s.entries now) } ≡ s' =
              ground (arith, there, passes, e) in
            same)
          (ground (arith, lookup-delete h h (prune s.entries now)))
  ]
]

pub pruned-absent :
    (m : List (ℕ × HandleEntry)) (h now : ℕ) → lookup h m ≡ none → lookup h (prune m now) ≡ none
unfolding prune
pruned-absent m h now e =
    lookup-has_key h (keep (λ e. ltb now e.expires) m)
      (has_key-keep (λ e. ltb now e.expires) h m (has_key-lookup h m e))
