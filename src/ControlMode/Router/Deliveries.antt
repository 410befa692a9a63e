-- ===== src/ControlMode/Router/Deliveries.antt =====
-- What a router delivers, and that what it has invalidated stays so.
use persea_terminal.Base.{◌≡◌, refl, sym, ap, ◌∙◌, false, Option, none, some, arith}
use persea_terminal.ControlMode.Router.{
  SessionWitness, PaneWitness, ObservationKind, output, rename, replacement, disconnect, pause,
  decoder_ambiguity, server_restart, foreign_pipe, owner_gone, unknown, Observation, Delivery,
  RouteResult, SessionRouter, new_session_router, admit, observe_kind, reincarnated, observe,
}
use persea_terminal.ControlMode.Router.Routes.{
  IsValid, admit-IsValid, Observed, passed, ended, replaced, switched, observe-Observed,
  observe-IsValid,
}

pub data Reach (session : SessionWitness) : SessionRouter → Type 0 where
  starts : Reach session (new_session_router session)
  admits : {r : SessionRouter} (w : PaneWitness) → Reach session r → Reach session (admit r w).1
  observes : {r : SessionRouter} (o : Observation) → Reach session r → Reach session (observe r o).1

Reach-IsValid : {session : SessionWitness} {r : SessionRouter} → Reach session r → IsValid r
Reach-IsValid starts = record { exact = λ window pane w h. cc; apart = λ window pane w h. cc }
Reach-IsValid (admits {r} w reach) = admit-IsValid r w (Reach-IsValid reach)
Reach-IsValid (observes {r} o reach) = observe-IsValid r o (Reach-IsValid reach)

-- What a delivery says.
pub record Delivered (r : SessionRouter) (o : Observation) (d : Delivery) : Type 0 where
  pub is_output : o.kind ≡ output
  pub witness : d.witness ≡ o.witness
  pub payload : d.payload ≡ o.payload
  pub stored : r.panes o.witness.window o.witness.pane ≡ some d.witness
  pub unchanged : (observe r o).1 ≡ r

data Switched (r : SessionRouter) (o : Observation) (stored : Option PaneWitness)
    (kind : ObservationKind) (d : Delivery) : Type 0 where
  delivers :
      (existing : PaneWitness)
      → kind ≡ output
      → stored ≡ some existing
      → d ≡ record { witness = existing; payload = o.payload }
      → (observe_kind stored r o kind).1 ≡ r
      → Switched r o stored kind d

observe_kind-Switched :
    (r : SessionRouter) (o : Observation) (kind : ObservationKind) (stored : Option PaneWitness)
    (d : Delivery)
    → (observe_kind stored r o kind).0.delivery ≡ some d
    → Switched r o stored kind d
unfolding observe_kind
observe_kind-Switched r o output none d h = cc
observe_kind-Switched r o output (some existing) d h = delivers existing refl refl (cc) refl
observe_kind-Switched r o rename stored d h = cc
observe_kind-Switched r o replacement stored d h = cc
observe_kind-Switched r o disconnect stored d h = cc
observe_kind-Switched r o pause stored d h = cc
observe_kind-Switched r o decoder_ambiguity stored d h = cc
observe_kind-Switched r o server_restart stored d h = cc
observe_kind-Switched r o foreign_pipe stored d h = cc
observe_kind-Switched r o owner_gone stored d h = cc
observe_kind-Switched r o unknown stored d h = cc

-- In a router that was made for a session and driven by any calls: what is delivered is the payload of
-- an output, for exactly the witness that was observed, which is the one stored; and the delivery
-- changes nothing.
pub observe-Delivered :
    {session : SessionWitness} {r : SessionRouter} (o : Observation) (d : Delivery)
    → Reach session r
    → (observe r o).0.delivery ≡ some d
    → Delivered r o d
observe-Delivered {session} {r} o d reach h = kept (observe-Observed r o) refl h
  where
    v : IsValid r
    v = Reach-IsValid reach

    at_switch :
        o.witness.of_session ≡ r.session
        → reincarnated (r.panes o.witness.window o.witness.pane) o.witness ≡ false
        → observe_kind (r.panes o.witness.window o.witness.pane) r o o.kind ≡ observe r o
        → Switched r o (r.panes o.witness.window o.witness.pane) o.kind d
        → Delivered r o d
    at_switch own same e (delivers existing is_output stored payload unchanged) =
        let (a, b, c) = v.exact o.witness.window o.witness.pane existing stored in
        let i : existing.incarnation ≡ o.witness.incarnation = ground (arith, same, stored) in
        let c' = c ∙ sym own in
        record {
          is_output = is_output;
          witness =
              ap (λ x. x.witness) payload
              ∙ (λ t. record { of_session = c' t; window = a t; pane = b t; incarnation = i t });
          payload = ap (λ x. x.payload) payload;
          stored = stored ∙ ap (λ x. some x.witness) (sym payload);
          unchanged = ap (λ x. x.1) (sym e) ∙ unchanged;
        }

    kept :
        {x : RouteResult × SessionRouter}
        → Observed r o x
        → x ≡ observe r o
        → (observe r o).0.delivery ≡ some d
        → Delivered r o d
    kept (passed reason) e k = absurd (let k' = ap (λ x. x.0.delivery) e ∙ k in cc)
    kept (ended reason) e k = absurd (let k' = ap (λ x. x.0.delivery) e ∙ k in cc)
    kept replaced e k = absurd (let k' = ap (λ x. x.0.delivery) e ∙ k in cc)
    kept (switched own live same) e k = at_switch own same e (
        observe_kind-Switched r o o.kind (r.panes o.witness.window o.witness.pane) d
          (ap (λ x. x.0.delivery) e ∙ k))

-- Calls that follow on a router.
pub data Later (r : SessionRouter) : SessionRouter → Type 0 where
  now : Later r r
  admits_later : {r' : SessionRouter} (w : PaneWitness) → Later r r' → Later r (admit r' w).1
  observes_later : {r' : SessionRouter} (o : Observation) → Later r r' → Later r (observe r' o).1
