-- ===== src/Broker/CommandQueue/Rings.antt =====
-- The ring of commands as a queue with a capacity.
use persea_terminal.Base.{
  ℕ, suc, ◌+◌, ◌-◌, ◌%◌, ◌≤◌, ◌<◌, ◌≡◌, refl, sym, ap, ◌∙◌, ◌≢◌, ◌⊎◌, inl, inr, true, false, Option,
  none, some, List, [], ◌∷◌, ◌++◌, arith, ltb, ◌==◌, ltb→lt, lt→ltb, Bool-cases, length, get_elem?,
  length-append, set, length-set, get_elem?-set_self, get_elem?-set_ne, get_elem?-append_left,
  get_elem?-append_right, subst, add-zero,
}
use native.Mathlib.Nat.{mod-eq_of_lt, add-mod_right, mod-add-mod, mod-lt}
use persea_terminal.Broker.CommandQueue.{CommandQueue, write_cell, front, pushed, push, popped, pop}

wraps : (a n : ℕ) → a < n + n → ((a < n) × (a % n ≡ a)) ⊎ ((n ≤ a) × (a % n ≡ a - n))
wraps a n h = elim (Bool-cases (ltb a n)) [
  | inl inside ↦ inl (ltb→lt a n inside, mod-eq_of_lt (ltb→lt a n inside))
  | inr beyond ↦ inr (
    ground (arith, beyond),
    ap (λ (k : ℕ). k % n) (ground (arith, beyond))
        ∙ add-mod_right (a - n) n
        ∙ mod-eq_of_lt (ground (arith, beyond)),
  )
]

-- Two places of a queue stand in two cells.
places_ne : (head n i j : ℕ) → head < n → i < n → j < n → i ≢ j → (head + i) % n ≢ (head + j) % n
places_ne head n i j h hi hj differs = elim (wraps (head + i) n (omega arith)) [
  | inl (a, e) ↦ elim (wraps (head + j) n (omega arith)) [
    | inl (b, f) ↦ omega (arith, e, f, differs)
    | inr (b, f) ↦ omega (arith, e, f, differs)
  ]
  | inr (a, e) ↦ elim (wraps (head + j) n (omega arith)) [
    | inl (b, f) ↦ omega (arith, e, f, differs)
    | inr (b, f) ↦ omega (arith, e, f, differs)
  ]
]

module _ {ℓ} {A : Type ℓ} where
  -- The queue holds these commands, in this order.
  pub record Represents (q : CommandQueue A) (xs : List A) : Type ℓ where
    pub in_ring : q.head < length q.cells
    pub counts : q.count ≡ length xs
    pub fits : q.count ≤ length q.cells
    pub stored :
        (i : ℕ)
        → i < length xs
        → get_elem? q.cells ((q.head + i) % length q.cells) ≡ some (get_elem? xs i)

  write_cell-inside :
      (cells : List (Option A)) (i : ℕ) (v : Option A)
      → i < length cells
      → write_cell cells i v ≡ some (set cells i v)
  write_cell-inside cells i v h = rw (lt→ltb i (length cells) h) refl

  abbrev pub after_push : CommandQueue A → A → CommandQueue A
  after_push q x = pushed q (set q.cells ((q.head + q.count) % length q.cells) (some x))

  abbrev pub after_pop : CommandQueue A → CommandQueue A
  after_pop q = popped q (set q.cells q.head none)

  pub push-full :
      (q : CommandQueue A) (x : A) → q.count ≡ length q.cells → push q x ≡ some (false, q)
  unfolding push
  push-full q x h = ground (arith, h)

  pub push-room :
      (q : CommandQueue A) (x : A)
      → q.count < length q.cells
      → push q x ≡ some (true, after_push q x)
  unfolding push
  push-room q x h =
      rw
        (
          differ q h,
          write_cell-inside q.cells ((q.head + q.count) % length q.cells) (some x)
              (mod-lt (q.head + q.count) (omega (arith, h))),
        )
        refl
    where
      differ : (q : CommandQueue A) → q.count < length q.cells → (q.count == length q.cells) ≡ false
      differ q h = ground (arith, h)

  stored_push :
      (cells : List (Option A)) (head : ℕ) (xs : List A) (x : A)
      → head < length cells
      → length xs < length cells
      → ((i : ℕ)
          → i < length xs
          → get_elem? cells ((head + i) % length cells) ≡ some (get_elem? xs i))
      → (i : ℕ) → i < length (xs ++ (x ∷ []))
      → get_elem?
          (set cells ((head + length xs) % length cells) (some x))
          ((head + i) % length cells)
        ≡ some (get_elem? (xs ++ (x ∷ [])) i)
  stored_push cells head xs x h room old i hi = elim (Bool-cases (ltb i (length xs))) [
    | inl before ↦
        let below = ltb→lt i (length xs) before in
        get_elem?-set_ne cells (some x) (
          places_ne head (length cells) (length xs) i h room (omega (arith, below))
            (omega (arith, below)))
        ∙ old i below
        ∙ ap some (sym (get_elem?-append_left xs (x ∷ []) i below))
    | inr behind ↦
        let last = same i hi (ground (arith, behind)) in
        ap
          (λ (j : ℕ).
            get_elem? (set cells ((head + length xs) % length cells) (some x))
              ((head + j) % length cells))
          last
        ∙ get_elem?-set_self cells ((head + length xs) % length cells) (some x)
            (mod-lt (head + length xs) (omega (arith, h)))
        ∙ ap some (
            sym (get_elem?-append_right xs (x ∷ []) 0)
            ∙ ap (get_elem? (xs ++ (x ∷ []))) (omega (arith, last)))
  ]
    where
      same : (i : ℕ) → i < length (xs ++ (x ∷ [])) → length xs ≤ i → i ≡ length xs
      same i hi low = omega (arith, length-append xs (x ∷ []))

  stored_pop :
      (cells : List (Option A)) (head : ℕ) (x : A) (xs : List A)
      → head < length cells
      → suc (length xs) ≤ length cells
      → ((i : ℕ)
          → i < suc (length xs)
          → get_elem? cells ((head + i) % length cells) ≡ some (get_elem? (x ∷ xs) i))
      → (i : ℕ) → i < length xs
      → get_elem? (set cells head none) (((head + 1) % length cells + i) % length cells)
        ≡ some (get_elem? xs i)
  stored_pop cells head x xs h fits old i hi =
      ap (get_elem? (set cells head none))
        (mod-add-mod (head + 1) (length cells) i ∙ ap (λ (k : ℕ). k % length cells) (omega arith))
      ∙ get_elem?-set_ne cells none (λ e.
        places_ne head (length cells) 0 (suc i) h (omega (arith, h)) (omega (arith, hi, fits))
          (omega arith) (ap (λ (k : ℕ). k % length cells) (add-zero head) ∙ mod-eq_of_lt h ∙ e))
      ∙ old (suc i) (omega (arith, hi))

  pub head_cell :
      (q : CommandQueue A) (x : A) (xs : List A)
      → Represents q (x ∷ xs)
      → get_elem? q.cells q.head ≡ some (some x)
  head_cell q x xs r =
      ap (get_elem? q.cells)
        (sym (ap (λ (k : ℕ). k % length q.cells) (add-zero q.head) ∙ mod-eq_of_lt r.in_ring))
      ∙ r.stored 0 (omega arith)

  pub after_push-Represents :
      (q : CommandQueue A) (xs : List A) (x : A)
      → Represents q xs
      → q.count < length q.cells
      → Represents (after_push q x) (xs ++ (x ∷ []))
  after_push-Represents q xs x r room = record {
    in_ring = subst (λ (n : ℕ). q.head < n) (sym size) r.in_ring;
    counts = omega (arith, r.counts, length-append xs (x ∷ []));
    fits = omega (arith, size, room);
    stored = λ i hi.
        ap (λ (n : ℕ). get_elem? (after_push q x).cells ((q.head + i) % n)) size
        ∙ ap
            (λ (k : ℕ).
              get_elem? (set q.cells ((q.head + k) % length q.cells) (some x))
                ((q.head + i) % length q.cells))
            r.counts
        ∙ stored_push q.cells q.head xs x r.in_ring (omega (arith, r.counts, room)) r.stored i hi;
  }
    where
      size : length (set q.cells ((q.head + q.count) % length q.cells) (some x)) ≡ length q.cells
      size = length-set q.cells ((q.head + q.count) % length q.cells) (some x)

  pub pop-empty : (q : CommandQueue A) → q.count ≡ 0 → pop q ≡ some (none, q)
  unfolding pop front
  pop-empty q h = ground (arith, h)

  pub pop-some :
      (q : CommandQueue A) (x : A) (xs : List A)
      → Represents q (x ∷ xs)
      → pop q ≡ some (some x, after_pop q)
  unfolding pop front
  pop-some q x xs r =
      rw (filled q r, head_cell q x xs r, write_cell-inside q.cells q.head none r.in_ring) refl
    where
      filled : (q : CommandQueue A) → Represents q (x ∷ xs) → (q.count == 0) ≡ false
      filled q r = ground (arith, r.counts)

  pub after_pop-Represents :
      (q : CommandQueue A) (x : A) (xs : List A)
      → Represents q (x ∷ xs)
      → Represents (after_pop q) xs
  after_pop-Represents q x xs r = record {
    in_ring =
        subst (λ (n : ℕ). (q.head + 1) % n < n) (sym size)
          (mod-lt (q.head + 1) (omega (arith, r.in_ring)));
    counts = omega (arith, r.counts);
    fits = omega (arith, size, r.fits);
    stored = λ i hi.
        ap (λ (n : ℕ). get_elem? (set q.cells q.head none) (((q.head + 1) % n + i) % n)) size
        ∙ stored_pop q.cells q.head x xs r.in_ring (omega (arith, r.counts, r.fits)) r.stored i hi;
  }
    where
      size : length (set q.cells q.head none) ≡ length q.cells
      size = length-set q.cells q.head none
