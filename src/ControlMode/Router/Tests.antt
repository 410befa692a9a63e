-- ===== src/ControlMode/Router/Tests.antt =====
-- A router of one pane.
use persea_terminal.Base.{◌≡◌, refl, some, [], ◌∷◌}
use persea_terminal.ControlMode.Router.{
  SessionWitness, PaneWitness, output, disconnect, Observation, Delivery, SessionRouter,
  new_session_router, admit, observe, observe_kind,
}
use persea_terminal.ControlMode.Router.Deliveries.{starts, admits, Delivered, observe-Delivered}

abbrev main_session : SessionWitness
main_session = record { server = 1; session = 2; control_generation = 1 }

abbrev first_pane : PaneWitness
first_pane = record { of_session = main_session; window = 4; pane = 5; incarnation = 6 }

abbrev admitted : SessionRouter
admitted = (admit (new_session_router main_session) first_pane).1

abbrev hello : Observation
hello = record {
  kind = output;
  witness = first_pane;
  replaced_by = first_pane;
  payload = 104 ∷ 105 ∷ [];
}

abbrev gone : Observation
gone = record hello { kind = disconnect }

abbrev delivery : Delivery
delivery = record { witness = first_pane; payload = 104 ∷ 105 ∷ [] }

delivers_hello : (observe admitted hello).0.delivery ≡ some delivery
unfolding admit observe observe_kind
delivers_hello = refl

observe-Delivered_example : Delivered admitted hello delivery
observe-Delivered_example =
    observe-Delivered hello delivery (admits first_pane starts) delivers_hello
