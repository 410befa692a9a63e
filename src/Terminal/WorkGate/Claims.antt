-- ===== src/Terminal/WorkGate/Claims.antt =====
-- What the gate promises its owner.
use persea_terminal.Base.{
  ℕ, ◌+◌, ◌<◌, ◌≡◌, refl, sym, ◌∙◌, ◌≢◌, ◌↔◌, ◌⊎◌, inl, inr, true, false, not, ◌&&◌, ◌||◌, none,
  some, List, [], ◌∷◌, arith, ◌==◌, if◌then◌else◌, Bool-cases, subst,
}
use persea_terminal.Terminal.WorkGate.{
  WorkGate, new_work_gate, holds, remove, is_empty, claim, close_if_ready, release, seal,
}

-- Every claim that was made is either active or released, and not both.
pub record IsCounted (g : WorkGate) : Type 0 where
  pub known : (id : ℕ) → holds id g.active ≡ true → id < g.allocated
  pub once : (id : ℕ) → holds id g.active ≡ true → holds id g.released ≡ false
  pub settled : (id : ℕ) → id < g.allocated → (holds id g.active || holds id g.released) ≡ true
  pub gone : (id : ℕ) → holds id g.released ≡ true → id < g.allocated

-- The gate as its methods leave it: the channel is closed exactly when the gate is sealed and no
-- claim is active.
pub record IsValid (g : WorkGate) : Type 0 where
  pub claims : IsCounted g
  pub closed_iff : g.closed ≡ (g.sealed && is_empty g.active)
  pub channel : g.channel_closed ≡ g.closed

holds-is_empty : (id : ℕ) (xs : List ℕ) → holds id xs ≡ true → is_empty xs ≡ false
holds-is_empty id [] h = cc
holds-is_empty id (x ∷ xs) h = refl

holds-remove :
    (id j : ℕ) (xs : List ℕ) → holds j (remove id xs) ≡ (if id == j then false else holds j xs)
holds-remove id j [] = ground arith
holds-remove id j (x ∷ xs) = ground (arith, holds-remove id j xs)

claim_sealed : (g : WorkGate) → g.sealed ≡ true → claim g ≡ (none, g)
unfolding claim
claim_sealed g h = ground (arith, h)

abbrev claimed : WorkGate → WorkGate
claimed g = record g { active = g.allocated ∷ g.active; allocated = g.allocated + 1 }

claim_unsealed : (g : WorkGate) → g.sealed ≡ false → claim g ≡ (some g.allocated, claimed g)
unfolding claim
claim_unsealed g h = ground (arith, h)

claimed-IsValid : (g : WorkGate) → g.sealed ≡ false → IsValid g → IsValid (claimed g)
claimed-IsValid g up v = record {
  claims = record {
    known = λ id h. ground (arith, v.claims.known id);
    once = λ id h. ground (arith, v.claims.once id, v.claims.gone id);
    settled = λ id h. ground (arith, v.claims.settled id);
    gone = λ id h. ground (arith, v.claims.gone id);
  };
  closed_iff = ground (arith, v.closed_iff);
  channel = v.channel;
}

claim-IsValid : (g : WorkGate) → IsValid g → IsValid (claim g).1
claim-IsValid g v = elim (Bool-cases g.sealed) [
  | inl shut ↦ subst (λ r. IsValid r.1) (sym (claim_sealed g shut)) v
  | inr up ↦ subst (λ r. IsValid r.1) (sym (claim_unsealed g up)) (claimed-IsValid g up v)
]

-- What `close_if_ready` does to a gate that is valid but for a close that is due.
record Closing (g g' : WorkGate) : Type 0 where
  done : close_if_ready g ≡ some g'
  valid : IsValid g'
  sealed_same : g'.sealed ≡ g.sealed
  active_same : g'.active ≡ g.active
  released_same : g'.released ≡ g.released

close_if_ready-Closing :
    (g : WorkGate)
    → IsCounted g
    → g.channel_closed ≡ g.closed
    → (g.closed ≡ true → (g.sealed && is_empty g.active) ≡ true)
    → (g' : WorkGate) × Closing g g'
unfolding close_if_ready
close_if_ready-Closing g c same due =
    elim (Bool-cases (g.sealed && is_empty g.active && not g.closed)) [
      | inl ready ↦ (
        record g { channel_closed = true; closed = true },
        record {
          done = ground (arith, ready, same);
          valid = record {
            claims = record { known = c.known; once = c.once; settled = c.settled; gone = c.gone };
            closed_iff = ground (arith, ready);
            channel = refl;
          };
          sealed_same = refl;
          active_same = refl;
          released_same = refl;
        },
      )
      | inr unready ↦ (
        g,
        record {
          done = ground (arith, unready);
          valid = record { claims = c; closed_iff = ground (arith, unready, due); channel = same };
          sealed_same = refl;
          active_same = refl;
          released_same = refl;
        },
      )
    ]

abbrev released_one : WorkGate → ℕ → WorkGate
released_one g id = record g { active = remove id g.active; released = id ∷ g.released }

released_one-IsCounted :
    (g : WorkGate) (id : ℕ) → IsCounted g → holds id g.active ≡ true → IsCounted (released_one g id)
released_one-IsCounted g id c h = record {
  known = λ j k. ground (arith, holds-remove id j g.active, c.known j);
  once = λ j k. ground (arith, holds-remove id j g.active, c.once j);
  settled = λ j k. ground (arith, holds-remove id j g.active, c.settled j);
  gone = λ j k. ground (arith, c.gone j, c.known id h);
}

-- A claim that is active is released without a panic, and is active no more; a claim that was
-- released, or was never made, panics.
pub record Released (g : WorkGate) (id : ℕ) (g' : WorkGate) : Type 0 where
  pub done : release g id ≡ some g'
  pub valid : IsValid g'
  pub sealed_same : g'.sealed ≡ g.sealed
  pub active_now : g'.active ≡ remove id g.active
  pub again : release g' id ≡ none

pub release-Released :
    (g : WorkGate) (id : ℕ)
    → IsValid g
    → ((holds id g.active ≡ true) × (g' : WorkGate) × Released g id g')
      ⊎ ((holds id g.active ≡ false) × (release g id ≡ none))
unfolding release
release-Released g id v = elim (Bool-cases (holds id g.active)) [
  | inr idle ↦ inr (idle, ground (arith, idle))
  | inl live ↦
      let (g', c) =
        close_if_ready-Closing (released_one g id) (released_one-IsCounted g id v.claims live)
          v.channel (λ h. ground (arith, h, v.closed_iff, holds-is_empty id g.active live)) in
      inl (
        live,
        g',
        record {
          done = ground (arith, live, c.done, v.claims.once id live);
          valid = c.valid;
          sealed_same = c.sealed_same;
          active_now = c.active_same;
          again = ground (arith, c.released_same);
        },
      )
]

pub seal-IsValid :
    (g : WorkGate)
    → IsValid g
    → (g' : WorkGate) × (seal g ≡ some g')
      × IsValid g'
      × (g'.sealed ≡ true)
      × (g'.active ≡ g.active)
unfolding seal
seal-IsValid g v =
    let (g', c) =
      close_if_ready-Closing (record g { sealed = true })
        (record {
          known = v.claims.known;
          once = v.claims.once;
          settled = v.claims.settled;
          gone = v.claims.gone;
        })
        v.channel (λ h. ground (arith, h, v.closed_iff)) in
    (g', c.done, c.valid, c.sealed_same, c.active_same)

-- The calls of the methods, with what `release` names.
pub data Reach : WorkGate → Type 0 where
  starts : Reach new_work_gate
  claims : {g : WorkGate} → Reach g → Reach (claim g).1
  releases : {g : WorkGate} (id : ℕ) (g' : WorkGate) → Reach g → release g id ≡ some g' → Reach g'
  seals : {g : WorkGate} (g' : WorkGate) → Reach g → seal g ≡ some g' → Reach g'

Reach-IsValid : {g : WorkGate} → Reach g → IsValid g
Reach-IsValid starts = record {
  claims = record {
    known = λ id h. cc;
    once = λ id h. cc;
    settled = λ id h. absurd (omega arith);
    gone = λ id h. cc;
  };
  closed_iff = refl;
  channel = refl;
}
Reach-IsValid (claims {g} r) = claim-IsValid g (Reach-IsValid r)
Reach-IsValid (releases {g} id g' r e) = elim (release-Released g id (Reach-IsValid r)) [
  | inl (live, h, d) ↦ subst IsValid (let same : h ≡ g' = ground (arith, d.done, e) in same) d.valid
  | inr (idle, panic) ↦ ground (arith, panic, e)
]
Reach-IsValid (seals {g} g' r e) =
    let (h, done, v, _, _) = seal-IsValid g (Reach-IsValid r) in
    subst IsValid (let same : h ≡ g' = ground (arith, done, e) in same) v

-- After any calls that did not panic: the channel is closed exactly if the gate is sealed and no
-- claim is active; sealing never panics; and releasing a claim panics exactly
-- if the claim is not active.
pub Reach-quiescent :
    {g : WorkGate} (id : ℕ)
    → Reach g
    → (g.channel_closed ≡ (g.sealed && is_empty g.active))
      × (seal g ≢ none)
      × ((release g id ≡ none) ↔ (holds id g.active ≡ false))
Reach-quiescent {g} id r =
    let v = Reach-IsValid r in
    let (g', sealed', _, _, _) = seal-IsValid g v in
    (v.channel ∙ v.closed_iff, (λ e. ground (arith, e, sealed')), releasable v)
  where
    releasable : IsValid g → (release g id ≡ none) ↔ (holds id g.active ≡ false)
    releasable v = elim (release-Released g id v) [
      | inl (live, g', d) ↦ ((λ e. ground (arith, e, d.done)), λ e. ground (arith, e, live))
      | inr (idle, panic) ↦ ((λ e. idle), λ e. panic)
    ]
