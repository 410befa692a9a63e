-- ===== src/ControlMode/Router/Routes.antt =====
-- What each operation of a router does with its witnesses.
use persea_terminal.Base.{
  ℕ, ◌≡◌, refl, ◌∙◌, inl, inr, true, false, ◌&&◌, Option, none, some, arith, ◌==◌, Bool-cases,
  subst, ap₂,
}
use persea_terminal.ControlMode.Router.{
  owner_gone_route, control_generation_changed, decoder_ambiguous, control_paused, server_restarted,
  control_disconnected, other_session, SessionWitness, PaneWitness, ObservationKind, output, rename,
  replacement, disconnect, pause, decoder_ambiguity, server_restart, foreign_pipe, owner_gone,
  unknown, Observation, ignore, invalidate, RouteReason, missed_first_byte, already_invalid,
  pane_incarnation_changed, source_replacement, RouteResult, SessionRouter, same_session, set_key,
  is_invalid, drop_pane, differs, admit, invalidate_all, result, all_invalid, observe_kind,
  reincarnated, observe,
}

-- Every witness that is stored is of the router's session, and under its own key.
pub record IsValid (r : SessionRouter) : Type 0 where
  pub exact :
      (window pane : ℕ) (w : PaneWitness)
      → r.panes window pane ≡ some w
      → (w.window ≡ window) × (w.pane ≡ pane) × (w.of_session ≡ r.session)
  pub apart :
      (window pane : ℕ) (w : PaneWitness)
      → r.panes window pane ≡ some w
      → (r.invalid window pane ≡ none) × (r.failed ≡ false)

drop_pane-IsValid :
    (r : SessionRouter) (w : PaneWitness) (reason : RouteReason)
    → IsValid r
    → IsValid (drop_pane r w reason)
drop_pane-IsValid r w reason v = record {
  exact = λ window pane x h. ground (arith, v.exact window pane x);
  apart = λ window pane x h. ground (arith, v.apart window pane x);
}

invalidate_all-IsValid :
    (r : SessionRouter) (reason : RouteReason) → IsValid (invalidate_all r reason)
unfolding invalidate_all
invalidate_all-IsValid r reason = record {
  exact = λ window pane x h. cc;
  apart = λ window pane x h. cc;
}

same_session_sound : (a b : SessionWitness) → same_session a b ≡ true → a ≡ b
same_session_sound a b h =
    let e : a.server ≡ b.server = ground (arith, h) in
    let e' : a.session ≡ b.session = ground (arith, h) in
    let e'' : a.control_generation ≡ b.control_generation = ground (arith, h) in
    λ i. record { server = e i; session = e' i; control_generation = e'' i }

admitted-IsValid :
    (r : SessionRouter) (w : PaneWitness)
    → IsValid r
    → w.of_session ≡ r.session
    → is_invalid r w ≡ false
    → IsValid (record r { panes = set_key w (some w) r.panes })
admitted-IsValid r w v same live = record {
  exact = λ window pane x h. ground (arith, v.exact window pane x, same);
  apart = λ window pane x h. ground (arith, v.apart window pane x, live);
}

-- `admit` on a router that is not changed by it.
pub admit-IsValid : (r : SessionRouter) (w : PaneWitness) → IsValid r → IsValid (admit r w).1
unfolding admit
admit-IsValid r w v = elim (Bool-cases (same_session w.of_session r.session)) [
  | inr foreign ↦ subst IsValid (let e : r ≡ (admit r w).1 = ground (arith, foreign) in e) v
  | inl own ↦ elim (Bool-cases (is_invalid r w)) [
    | inl dead ↦ subst IsValid (let e : r ≡ (admit r w).1 = ground (arith, own, dead) in e) v
    | inr live ↦ elim (Bool-cases (differs (r.panes w.window w.pane) w)) [
      | inl other ↦
          subst IsValid
            (let e : drop_pane r w pane_incarnation_changed ≡ (admit r w).1 =
                ground (arith, own, live, other) in
              e)
            (drop_pane-IsValid r w pane_incarnation_changed v)
      | inr same ↦
          subst IsValid
            (let e : record r { panes = set_key w (some w) r.panes } ≡ (admit r w).1 =
                ground (arith, own, live, same) in
              e)
            (admitted-IsValid r w v (same_session_sound w.of_session r.session own) live)
    ]
  ]
]

missed-IsValid :
    (r : SessionRouter) (w : PaneWitness)
    → IsValid r
    → r.panes w.window w.pane ≡ none
    → IsValid (record r { invalid = set_key w (some missed_first_byte) r.invalid })
missed-IsValid r w v gone = record {
  exact = v.exact;
  apart = λ window pane x h. elim (Bool-cases (window == w.window && pane == w.pane)) [
    | inl at ↦
        let same : window ≡ w.window = ground (arith, at) in
        let same' : pane ≡ w.pane = ground (arith, at) in
        let there : r.panes window pane ≡ none = ap₂ r.panes same same' ∙ gone in
        ground (arith, there, h)
    | inr away ↦ ground (arith, away, v.apart window pane x h)
  ];
}

observe_kind-IsValid :
    (r : SessionRouter) (o : Observation) (kind : ObservationKind) (stored : Option PaneWitness)
    → IsValid r
    → r.panes o.witness.window o.witness.pane ≡ stored
    → IsValid (observe_kind stored r o kind).1
unfolding observe_kind
observe_kind-IsValid r o output none v e = missed-IsValid r o.witness v e
observe_kind-IsValid r o output (some existing) v e = v
observe_kind-IsValid r o rename stored v e = v
observe_kind-IsValid r o replacement stored v e =
    drop_pane-IsValid (drop_pane r o.witness source_replacement) o.replaced_by source_replacement
      (drop_pane-IsValid r o.witness source_replacement v)
observe_kind-IsValid r o disconnect stored v e = invalidate_all-IsValid r control_disconnected
observe_kind-IsValid r o pause stored v e = invalidate_all-IsValid r control_paused
observe_kind-IsValid r o decoder_ambiguity stored v e = invalidate_all-IsValid r decoder_ambiguous
observe_kind-IsValid r o server_restart stored v e = invalidate_all-IsValid r server_restarted
observe_kind-IsValid r o foreign_pipe stored v e = v
observe_kind-IsValid r o owner_gone stored v e = invalidate_all-IsValid r owner_gone_route
observe_kind-IsValid r o unknown stored v e = invalidate_all-IsValid r decoder_ambiguous

-- How an observation goes: it is passed over, it ends what the router has, or it comes to the switch.
pub data Observed (r : SessionRouter) (o : Observation) : RouteResult × SessionRouter → Type 0 where
  passed : (reason : RouteReason) → Observed r o (result ignore reason, r)
  ended : (reason : RouteReason) → Observed r o (all_invalid r reason)
  replaced :
      Observed r o
        (result invalidate pane_incarnation_changed, drop_pane r o.witness pane_incarnation_changed)
  switched :
      o.witness.of_session ≡ r.session
      → is_invalid r o.witness ≡ false
      → reincarnated (r.panes o.witness.window o.witness.pane) o.witness ≡ false
      → Observed r o (observe_kind (r.panes o.witness.window o.witness.pane) r o o.kind)

pub observe-Observed : (r : SessionRouter) (o : Observation) → Observed r o (observe r o)
unfolding observe
observe-Observed r o = elim (Bool-cases (o.witness.of_session.session == r.session.session)) [
  | inr other ↦
      subst (Observed r o)
        (let e : (result ignore other_session, r) ≡ observe r o = ground (arith, other) in e)
        (passed other_session)
  | inl own ↦ elim (Bool-cases (o.witness.of_session.server == r.session.server)) [
    | inr restarted ↦
        subst (Observed r o)
          (let e : all_invalid r server_restarted ≡ observe r o = ground (arith, own, restarted) in
            e)
          (ended server_restarted)
    | inl running ↦
        elim (Bool-cases
          (o.witness.of_session.control_generation == r.session.control_generation)) [
            | inr stale ↦
                subst (Observed r o)
                  (let e : all_invalid r control_generation_changed ≡ observe r o =
                      ground (arith, own, running, stale) in
                    e)
                  (ended control_generation_changed)
            | inl current ↦ elim (Bool-cases (is_invalid r o.witness)) [
              | inl dead ↦
                  subst (Observed r o)
                    (let e : (result ignore already_invalid, r) ≡ observe r o =
                        ground (arith, own, running, current, dead) in
                      e)
                    (passed already_invalid)
              | inr live ↦
                  elim (Bool-cases
                    (reincarnated (r.panes o.witness.window o.witness.pane) o.witness)) [
                      | inl other ↦
                          subst (Observed r o)
                            (let e : (
                              result invalidate pane_incarnation_changed,
                              drop_pane r o.witness pane_incarnation_changed,
                            )
                                  ≡ observe r o =
                                ground (arith, own, running, current, live, other) in
                              e)
                            replaced
                      | inr same ↦
                          subst (Observed r o)
                            (let e : observe_kind (r.panes o.witness.window o.witness.pane) r o
                                    o.kind
                                  ≡ observe r o =
                                ground (arith, own, running, current, live, same) in
                              e)
                            (switched
                              (same_session_sound o.witness.of_session r.session
                                (ground (arith, own, running, current)))
                              live same)
                    ]
            ]
          ]
  ]
]

pub observe-IsValid : (r : SessionRouter) (o : Observation) → IsValid r → IsValid (observe r o).1
observe-IsValid r o v = kept (observe-Observed r o)
  where
    kept : {x : RouteResult × SessionRouter} → Observed r o x → IsValid x.1
    kept (passed reason) = v
    kept (ended reason) = invalidate_all-IsValid r reason
    kept replaced = drop_pane-IsValid r o.witness pane_incarnation_changed v
    kept (switched own live same) =
        observe_kind-IsValid r o o.kind (r.panes o.witness.window o.witness.pane) v refl
