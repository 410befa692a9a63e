-- ===== src/Terminal/History/Cuts.antt =====
-- A cut from its creation on: what becomes of the bytes that it is fed, and its bounds.
use persea_terminal.Base.{
  ℕ, ◌+◌, ◌≤◌, ◌≡◌, refl, sym, ap, ◌∙◌, ◌⊎◌, inl, inr, Bool, true, false, ◌||◌, some, List, [], ◌∷◌,
  ◌++◌, append-nil, append_assoc, arith, ltb, Bool-cases, length, length-append, subst,
}
use persea_terminal.Terminal.History.{
  held_byte_cap, replay_byte_cap, Cut, CutKind, is_live_kind, new_cut, adopt_pre_marker, CutRoute,
  feed_ordinary, accept_marker,
}

-- A cut with what it adopted, what it was fed before and behind its marker, and what of that went on
-- live.
pub record Fed : Type 0 where
  pub cut : Cut
  pub adopted : List ℕ
  pub before : List ℕ
  pub behind : List ℕ
  pub live : List ℕ
  pub active : Bool

abbrev pub fresh : Cut → Fed
fresh c = record { cut = c; adopted = []; before = []; behind = []; live = []; active = false }

-- The chunk counts as behind the marker if that was seen.
abbrev pub fed : Bool → Fed → List ℕ → CutRoute → Cut → Fed
fed true w chunk route c = record w {
  cut = c;
  behind = w.behind ++ chunk;
  live = w.live ++ route.live;
  active = w.active || route.activity;
}
fed false w chunk route c = record w {
  cut = c;
  before = w.before ++ chunk;
  live = w.live ++ route.live;
  active = w.active || route.activity;
}

abbrev pub feeding : Fed → List ℕ → CutRoute → Cut → Fed
feeding w chunk route c = fed w.cut.marker_seen w chunk route c

-- Any calls on a new cut, in any order, that succeed or not.
pub data Reach : Fed → Type 0 where
  creates :
      (id : ℕ) (kind : CutKind) (payload : List ℕ) {c : Cut}
      → new_cut id kind payload ≡ some c
      → Reach (fresh c)
  adopts :
      {w : Fed} {c : Cut} (replay rest : List ℕ)
      → Reach w
      → adopt_pre_marker w.cut (some replay) ≡ some (c, rest)
      → Reach (record w { cut = c; adopted = replay })
  feeds :
      {w : Fed} {c : Cut} {route : CutRoute} (chunk : List ℕ)
      → Reach w
      → feed_ordinary w.cut chunk ≡ some (route, c)
      → Reach (feeding w chunk route c)
  marks :
      {w : Fed} (payload : List ℕ)
      → Reach w
      → Reach (record w { cut = (accept_marker w.cut payload).1 })

-- A live cut has passed everything on before its marker; another keeps it behind what it adopted.
pub record IsSplit (w : Fed) : Type 0 where
  pub live_passes :
      is_live_kind w.cut.kind ≡ true → (w.live ≡ w.before) × (w.cut.pre ≡ []) × (w.adopted ≡ [])
  pub replay_keeps :
      is_live_kind w.cut.kind ≡ false → (w.live ≡ []) × (w.cut.pre ≡ w.adopted ++ w.before)
  pub holds_behind : w.cut.held ≡ w.behind
  pub marker_first : w.cut.marker_seen ≡ false → w.behind ≡ []
  pub shows_activity : w.active ≡ ltb 0 (length w.behind)
  pub replay_fits : length w.cut.pre ≤ replay_byte_cap
  pub held_fits : length w.cut.held ≤ held_byte_cap

new_cut-some :
    (id : ℕ) (kind : CutKind) (payload : List ℕ) (c : Cut)
    → new_cut id kind payload ≡ some c
    → (c.marker_seen ≡ false) × (c.pre ≡ []) × (c.held ≡ [])
unfolding new_cut
new_cut-some id kind payload c h = (ground arith, ground arith, ground arith)

adopt-some :
    (c c' : Cut) (replay rest : List ℕ)
    → adopt_pre_marker c (some replay) ≡ some (c', rest)
    → (is_live_kind c.kind ≡ false)
      × (c.marker_seen ≡ false)
      × (length c.pre ≡ 0)
      × (length replay ≤ replay_byte_cap)
      × (c' ≡ record c { pre = replay })
unfolding adopt_pre_marker
adopt-some c c' replay rest h =
    (ground arith, ground arith, ground arith, ground arith, ground arith)

-- What a chunk does that is accepted.
data Accepts (c : Cut) (chunk : List ℕ) : CutRoute → Cut → Type 0 where
  passes :
      c.marker_seen ≡ false
      → is_live_kind c.kind ≡ true
      → Accepts c chunk (record { live = chunk; activity = false }) c
  keeps :
      c.marker_seen ≡ false
      → is_live_kind c.kind ≡ false
      → length c.pre + length chunk ≤ replay_byte_cap
      → Accepts c chunk (record { live = []; activity = false }) (record c { pre = c.pre ++ chunk })
  holds :
      c.marker_seen ≡ true
      → length c.held + length chunk ≤ held_byte_cap
      → Accepts c chunk
          (record { live = []; activity = ltb 0 (length chunk) })
          (record c { held = c.held ++ chunk })

feed_ordinary-Accepts :
    (c : Cut) (chunk : List ℕ) (route : CutRoute) (c' : Cut)
    → feed_ordinary c chunk ≡ some (route, c')
    → Accepts c chunk route c'
unfolding feed_ordinary
feed_ordinary-Accepts c chunk route c' h = elim (Bool-cases c.marker_seen) [
  | inl seen ↦
      accepted c chunk (record { live = []; activity = ltb 0 (length chunk) })
        (record c { held = c.held ++ chunk }) (holds seen (ground (arith, seen, h)))
        (ground (arith, seen, h))
  | inr unseen ↦ elim (Bool-cases (is_live_kind c.kind)) [
    | inl live ↦
        accepted c chunk (record { live = chunk; activity = false }) c (passes unseen live)
          (ground (arith, unseen, live, h))
    | inr replayed ↦
        accepted c chunk (record { live = []; activity = false })
          (record c { pre = c.pre ++ chunk })
          (keeps unseen replayed (ground (arith, unseen, replayed, h)))
          (ground (arith, unseen, replayed, h))
  ]
]
  where
    accepted :
        (c : Cut) (chunk : List ℕ) (r : CutRoute) (d : Cut)
        → Accepts c chunk r d
        → (route ≡ r) × (c' ≡ d)
        → Accepts c chunk route c'
    accepted c chunk r d a (e, f) =
        subst (λ (x : CutRoute). Accepts c chunk x c') (sym e)
          (subst (λ (x : Cut). Accepts c chunk r x) (sym f) a)

fresh-IsSplit : (c : Cut) → c.marker_seen ≡ false → c.pre ≡ [] → c.held ≡ [] → IsSplit (fresh c)
fresh-IsSplit c unseen no_pre no_held = record {
  live_passes = λ l. (refl, no_pre, refl);
  replay_keeps = λ l. (refl, no_pre);
  holds_behind = no_held;
  marker_first = λ l. refl;
  shows_activity = refl;
  replay_fits = omega (arith, ap length no_pre);
  held_fits = omega (arith, ap length no_held);
}

adopted-IsSplit :
    (w : Fed) (replay : List ℕ)
    → IsSplit w
    → is_live_kind w.cut.kind ≡ false
    → length w.cut.pre ≡ 0
    → length replay ≤ replay_byte_cap
    → IsSplit (record w { cut = record (w.cut) { pre = replay }; adopted = replay })
adopted-IsSplit w replay r replayed no_pre fits = record {
  live_passes = λ l. absurd (ground (arith, l, replayed));
  replay_keeps = λ l. ((r.replay_keeps replayed).0, (nothing w replay r replayed no_pre));
  holds_behind = r.holds_behind;
  marker_first = r.marker_first;
  shows_activity = r.shows_activity;
  replay_fits = fits;
  held_fits = r.held_fits;
}
  where
    append_nil_of : (xs ys : List ℕ) → length (xs ++ ys) ≡ 0 → ys ≡ []
    append_nil_of [] [] h = refl
    append_nil_of [] (y ∷ ys) h = absurd (omega (arith, h))
    append_nil_of (x ∷ xs) ys h = absurd (omega (arith, h))

    nothing :
        (w : Fed) (replay : List ℕ)
        → IsSplit w
        → is_live_kind w.cut.kind ≡ false
        → length w.cut.pre ≡ 0
        → replay ≡ replay ++ w.before
    nothing w replay r replayed no_pre = sym (
        ap (◌++◌ replay)
          (append_nil_of w.adopted w.before (sym (ap length (r.replay_keeps replayed).1) ∙ no_pre))
        ∙ append-nil replay)

or_false : (b : Bool) → (b || false) ≡ b
or_false b = ground arith

any_bytes : (m n : ℕ) → (ltb 0 m || ltb 0 n) ≡ ltb 0 (m + n)
any_bytes m n = ground arith

accepts-IsSplit :
    (w : Fed) (chunk : List ℕ) (route : CutRoute) (c : Cut)
    → IsSplit w
    → Accepts w.cut chunk route c
    → IsSplit (feeding w chunk route c)
accepts-IsSplit w chunk route c r (passes unseen live) =
    subst (λ (b : Bool). IsSplit (fed b w chunk route c)) (sym unseen)
      (record {
        live_passes = λ l.
            let (same, no_pre, no_replay) = r.live_passes l in
            (ap (λ (s : List ℕ). s ++ chunk) same, no_pre, no_replay);
        replay_keeps = λ l. absurd (ground (arith, l, live));
        holds_behind = r.holds_behind;
        marker_first = r.marker_first;
        shows_activity = or_false w.active ∙ r.shows_activity;
        replay_fits = r.replay_fits;
        held_fits = r.held_fits;
      })
accepts-IsSplit w chunk route c r (keeps unseen replayed fits) =
    subst (λ (b : Bool). IsSplit (fed b w chunk route c)) (sym unseen)
      (record {
        live_passes = λ l. absurd (ground (arith, l, replayed));
        replay_keeps = λ l.
            let (no_live, pre) = r.replay_keeps l in
            (
              append-nil w.live ∙ no_live,
              ap (λ (s : List ℕ). s ++ chunk) pre ∙ append_assoc w.adopted w.before chunk,
            );
        holds_behind = r.holds_behind;
        marker_first = r.marker_first;
        shows_activity = or_false w.active ∙ r.shows_activity;
        replay_fits = omega (arith, length-append w.cut.pre chunk, fits);
        held_fits = r.held_fits;
      })
accepts-IsSplit w chunk route c r (holds seen fits) =
    subst (λ (b : Bool). IsSplit (fed b w chunk route c)) (sym seen)
      (record {
        live_passes = λ l.
            let (same, no_pre, no_replay) = r.live_passes l in
            (append-nil w.live ∙ same, no_pre, no_replay);
        replay_keeps =
            λ l. let (no_live, pre) = r.replay_keeps l in (append-nil w.live ∙ no_live, pre);
        holds_behind = ap (λ (s : List ℕ). s ++ chunk) r.holds_behind;
        marker_first = λ l. absurd (ground (arith, l, seen));
        shows_activity =
            ap (λ (b : Bool). b || ltb 0 (length chunk)) r.shows_activity
            ∙ any_bytes (length w.behind) (length chunk)
            ∙ ap (ltb 0) (sym (length-append w.behind chunk));
        replay_fits = r.replay_fits;
        held_fits = omega (arith, length-append w.cut.held chunk, fits);
      })

accept_marker-cases :
    (c : Cut) (payload : List ℕ)
    → ((accept_marker c payload).1 ≡ c)
      ⊎ ((accept_marker c payload).1 ≡ record c { marker_seen = true })
unfolding accept_marker
accept_marker-cases c payload = ground arith

marked-IsSplit :
    (w : Fed) → IsSplit w → IsSplit (record w { cut = record (w.cut) { marker_seen = true } })
marked-IsSplit w r = record {
  live_passes = r.live_passes;
  replay_keeps = r.replay_keeps;
  holds_behind = r.holds_behind;
  marker_first = λ l. absurd (ground (arith, l));
  shows_activity = r.shows_activity;
  replay_fits = r.replay_fits;
  held_fits = r.held_fits;
}

-- After any calls on a new cut, and before its bytes are discarded: a live cut has passed on exactly
-- what came before the marker, and any other keeps it, behind the replay that it adopted, within the
-- limit of a replay; either holds exactly what came behind the marker, within its limit; and there was
-- activity exactly if something came behind the marker.
pub Reach-IsSplit : {w : Fed} → Reach w → IsSplit w
Reach-IsSplit (creates id kind payload {c} h) =
    let (unseen, no_pre, no_held) = new_cut-some id kind payload c h in
    fresh-IsSplit c unseen no_pre no_held
Reach-IsSplit (adopts {w} {c} replay rest reach h) =
    let (replayed, unseen, no_pre, fits, e) = adopt-some w.cut c replay rest h in
    subst (λ (d : Cut). IsSplit (record w { cut = d; adopted = replay })) (sym e)
      (adopted-IsSplit w replay (Reach-IsSplit reach) replayed no_pre fits)
Reach-IsSplit (feeds {w} {c} {route} chunk reach h) =
    accepts-IsSplit w chunk route c (Reach-IsSplit reach)
      (feed_ordinary-Accepts w.cut chunk route c h)
Reach-IsSplit (marks {w} payload reach) = elim (accept_marker-cases w.cut payload) [
  | inl e ↦ subst (λ (d : Cut). IsSplit (record w { cut = d })) (sym e) (Reach-IsSplit reach)
  | inr e ↦
      subst (λ (d : Cut). IsSplit (record w { cut = d })) (sym e)
        (marked-IsSplit w (Reach-IsSplit reach))
]
