-- ===== src/Broker/CommandQueue/Runs.antt =====
-- Any calls of the ring of commands against a queue with a capacity.
use persea_terminal.Base.{
  ℕ, ◌+◌, ◌-◌, ◌*◌, ◌%◌, ◌≤◌, ◌≡◌, refl, ap, ◌∙◌, inl, inr, Bool, true, false, Option, none, some,
  List, [], ◌∷◌, ◌++◌, arith, ltb, ◌==◌, if◌then◌else◌, ltb→lt, Bool-cases, ◌>>=◌, length,
  get_elem?, replicate, length-set, length-replicate,
}
use persea_terminal.Broker.CommandQueue.{CommandQueue, new_command_queue, front, back, push, pop}
use persea_terminal.Broker.CommandQueue.Rings.{
  Represents, after_push, after_pop, push-full, push-room, after_push-Represents, pop-empty,
  pop-some, after_pop-Represents, head_cell,
}

pub data Call {ℓ} (A : Type ℓ) : Type ℓ where
  pushes : A → Call A
  pops fronts backs : Call A

pub data Said {ℓ} (A : Type ℓ) : Type ℓ where
  accepts : Bool → Said A
  gives : Option A → Said A

module _ {ℓ} {A : Type ℓ} where
  abbrev pub then_says : Said A → Option (List (Said A)) → Option (List (Said A))
  then_says answer rest = rest >>= λ answers. some (answer ∷ answers)

  -- What the calls on the ring answer, one after the other; none is a panic.
  unfoldable pub run : List (Call A) → CommandQueue A → Option (List (Said A))
  run [] q = some []
  run (pushes x ∷ calls) q = push q x >>= λ r. then_says (accepts r.0) (run calls r.1)
  run (pops ∷ calls) q = pop q >>= λ r. then_says (gives r.0) (run calls r.1)
  run (fronts ∷ calls) q = front q >>= λ x. then_says (gives x) (run calls q)
  run (backs ∷ calls) q = back q >>= λ x. then_says (gives x) (run calls q)

  -- The same calls on a list that takes no more than `capacity` commands.
  unfoldable pub run_list : ℕ → List (Call A) → List A → List (Said A)
  run_list capacity [] xs = []
  run_list capacity (pushes x ∷ calls) xs =
      let full = run_list capacity calls xs in
      let more = run_list capacity calls (xs ++ (x ∷ [])) in
      if length xs == capacity then accepts false ∷ full else accepts true ∷ more
  run_list capacity (pops ∷ calls) [] = gives none ∷ run_list capacity calls []
  run_list capacity (pops ∷ calls) (x ∷ xs) = gives (some x) ∷ run_list capacity calls xs
  run_list capacity (fronts ∷ calls) xs = gives (get_elem? xs 0) ∷ run_list capacity calls xs
  run_list capacity (backs ∷ calls) xs =
      gives (get_elem? xs (length xs - 1)) ∷ run_list capacity calls xs

  Represents-front :
      (q : CommandQueue A) (xs : List A) → Represents q xs → front q ≡ some (get_elem? xs 0)
  unfolding front
  Represents-front q [] r = ground (arith, r.counts)
  Represents-front q (x ∷ xs) r = ground (arith, r.counts, head_cell q x xs r)

  Represents-back :
      (q : CommandQueue A) (xs : List A)
      → Represents q xs
      → back q ≡ some (get_elem? xs (length xs - 1))
  unfolding back
  Represents-back q [] r = ground (arith, r.counts)
  Represents-back q (x ∷ xs) r =
      rw (filled r.counts, place r.counts) (r.stored (length (x ∷ xs) - 1) (omega arith))
    where
      filled : q.count ≡ length (x ∷ xs) → (q.count == 0) ≡ false
      filled e = ground (arith, e)

      place : q.count ≡ length (x ∷ xs) → q.head + q.count - 1 ≡ q.head + (length (x ∷ xs) - 1)
      place e = omega (arith, e)

  run-Represents :
      (calls : List (Call A)) (q : CommandQueue A) (xs : List A)
      → Represents q xs
      → run calls q ≡ some (run_list (length q.cells) calls xs)
  unfolding run run_list
  run-Represents [] q xs r = refl
  run-Represents (pushes x ∷ calls) q xs r = elim (Bool-cases (ltb (length xs) (length q.cells))) [
    | inl room ↦
        rw
          (
            push-room q x (omega (arith, r.counts, ltb→lt (length xs) (length q.cells) room)),
            run-Represents calls (after_push q x) (xs ++ (x ∷ [])) (
                after_push-Represents q xs x r
                  (omega (arith, r.counts, ltb→lt (length xs) (length q.cells) room))),
            length-set q.cells ((q.head + q.count) % length q.cells) (some x),
            not_full (length xs) (length q.cells) room,
          )
          refl
    | inr full ↦
        rw
          (
            push-full q x (ground (arith, r.counts, r.fits, full)),
            run-Represents calls q xs r,
            is_full (length xs) (length q.cells) (omega (arith, r.counts, r.fits)) full,
          )
          refl
  ]
    where
      not_full : (a b : ℕ) → ltb a b ≡ true → (a == b) ≡ false
      not_full a b h = ground (arith, h)

      is_full : (a b : ℕ) → a ≤ b → ltb a b ≡ false → (a == b) ≡ true
      is_full a b h k = ground (arith, h, k)
  run-Represents (pops ∷ calls) q [] r = rw (pop-empty q r.counts, run-Represents calls q [] r) refl
  run-Represents (pops ∷ calls) q (x ∷ xs) r =
      rw (pop-some q x xs r, run-Represents calls (after_pop q) xs (after_pop-Represents q x xs r))
        (rw (length-set q.cells q.head none) refl)
  run-Represents (fronts ∷ calls) q xs r =
      rw (Represents-front q xs r, run-Represents calls q xs r) refl
  run-Represents (backs ∷ calls) q xs r =
      rw (Represents-back q xs r, run-Represents calls q xs r) refl

  -- Whatever calls are made of a new queue, none panics, and they answer what a list answers that
  -- takes no more commands than the queue has cells: the first command that was accepted and not
  -- taken yet is the next one taken.
  pub run-run_list :
      (commands generations : ℕ) (calls : List (Call A))
      → run calls (new_command_queue commands generations)
        ≡ some (run_list (2 * (commands + generations + 1) + 1) calls [])
  run-run_list commands generations calls =
      run-Represents calls (new_command_queue commands generations) [] (record {
        in_ring = omega (arith, size);
        counts = refl;
        fits = omega arith;
        stored = λ i h. absurd (omega (arith, h));
      })
      ∙ ap (λ (n : ℕ). some (run_list n calls [])) size
    where
      size :
          length (replicate {A = Option A} (2 * (commands + generations + 1) + 1) none)
          ≡ 2 * (commands + generations + 1) + 1
      size = length-replicate (2 * (commands + generations + 1) + 1) none
