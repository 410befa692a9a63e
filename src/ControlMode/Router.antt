-- ===== src/ControlMode/Router.antt =====
-- internal/controlmode/router.go. Names of servers, sessions, windows, panes and incarnations are only
-- compared, and are a number each. A map with a window and a pane for a key is a function of the two,
-- `none` where the key is missing.
pub mod Routes
pub mod Deliveries
mod Tests
use persea_terminal.Base.{
  ℕ, Bool, true, false, not, ◌&&◌, ◌||◌, Option, none, some, List, ◌==◌, if◌then◌else◌,
}

pub record SessionWitness : Type 0 where
  pub server : ℕ
  pub session : ℕ
  pub control_generation : ℕ

pub record PaneWitness : Type 0 where
  pub of_session : SessionWitness
  pub window : ℕ
  pub pane : ℕ
  pub incarnation : ℕ

-- `unknown` is any other value of the type.
pub data ObservationKind : Type 0 where
  output rename replacement disconnect pause decoder_ambiguity server_restart : ObservationKind
  foreign_pipe owner_gone unknown : ObservationKind

pub record Observation : Type 0 where
  pub kind : ObservationKind
  pub witness : PaneWitness
  pub replaced_by : PaneWitness
  pub payload : List ℕ

pub data RouteDisposition : Type 0 where
  deliver retain ignore invalidate : RouteDisposition

pub data RouteReason : Type 0 where
  exact_witness identity_unchanged other_session missed_first_byte already_invalid : RouteReason
  source_replacement pane_incarnation_changed control_disconnected control_paused : RouteReason
  decoder_ambiguous server_restarted foreign_observer_coexists : RouteReason
  control_generation_changed owner_gone_route : RouteReason

pub record Delivery : Type 0 where
  pub witness : PaneWitness
  pub payload : List ℕ

pub record RouteResult : Type 0 where
  pub disposition : RouteDisposition
  pub reason : RouteReason
  pub delivery : Option Delivery

pub record SessionRouter : Type 0 where
  pub session : SessionWitness
  pub panes : ℕ → ℕ → Option PaneWitness
  pub invalid : ℕ → ℕ → Option RouteReason
  pub failed : Bool

abbrev pub new_session_router : SessionWitness → SessionRouter
new_session_router session = record {
  session = session;
  panes = λ window pane. none;
  invalid = λ window pane. none;
  failed = false;
}

abbrev pub same_session : SessionWitness → SessionWitness → Bool
same_session a b =
    a.server == b.server && a.session == b.session && a.control_generation == b.control_generation

abbrev pub same_witness : PaneWitness → PaneWitness → Bool
same_witness a b =
    same_session a.of_session b.of_session
    && a.window == b.window
    && a.pane == b.pane
    && a.incarnation == b.incarnation

abbrev pub is_some {ℓ} : {A : Type ℓ} → Option A → Bool
is_some none = false
is_some (some a) = true

-- A map with another value, or none, under the key of a witness.
abbrev pub set_key {ℓ} :
    {A : Type ℓ} → PaneWitness → Option A → (ℕ → ℕ → Option A) → ℕ → ℕ → Option A
set_key w value m window pane =
    if window == w.window && pane == w.pane then value else m window pane

abbrev pub is_invalid : SessionRouter → PaneWitness → Bool
is_invalid r w = is_some (r.invalid w.window w.pane) || r.failed

abbrev pub drop_pane : SessionRouter → PaneWitness → RouteReason → SessionRouter
drop_pane r w reason = record r {
  invalid = set_key w (some reason) r.invalid;
  panes = set_key w none r.panes;
}

abbrev pub differs : Option PaneWitness → PaneWitness → Bool
differs none w = false
differs (some existing) w = not (same_witness existing w)

pub data AdmitError : Type 0 where
  foreign_session missed : AdmitError

-- `none` is no error.
unfoldable pub admit : SessionRouter → PaneWitness → Option AdmitError × SessionRouter
admit r w =
    if not (same_session w.of_session r.session)
    then (some foreign_session, r)
    else if is_invalid r w
    then (some missed, r)
    else if differs (r.panes w.window w.pane) w
    then (some missed, drop_pane r w pane_incarnation_changed)
    else (none, record r { panes = set_key w (some w) r.panes })

unfoldable pub invalidate_all : SessionRouter → RouteReason → SessionRouter
invalidate_all r reason = record r {
  failed = true;
  invalid =
      λ window pane. if is_some (r.panes window pane) then some reason else r.invalid window pane;
  panes = λ window pane. none;
}

abbrev pub result : RouteDisposition → RouteReason → RouteResult
result disposition reason = record { disposition = disposition; reason = reason; delivery = none }

abbrev pub all_invalid : SessionRouter → RouteReason → RouteResult × SessionRouter
all_invalid r reason = (result invalidate reason, invalidate_all r reason)

-- The switch at the end of Observe; the first argument is the witness that is stored, if any.
unfoldable pub observe_kind :
    Option PaneWitness → SessionRouter → Observation → ObservationKind → RouteResult × SessionRouter
observe_kind none r o output = (
  result ignore missed_first_byte,
  record r { invalid = set_key o.witness (some missed_first_byte) r.invalid },
)
observe_kind (some existing) r o output = (
  record {
    disposition = deliver;
    reason = exact_witness;
    delivery = some (record { witness = existing; payload = o.payload });
  },
  r,
)
observe_kind existing r o rename = (result retain identity_unchanged, r)
observe_kind existing r o replacement = (
  result invalidate source_replacement,
  drop_pane (drop_pane r o.witness source_replacement) o.replaced_by source_replacement,
)
observe_kind existing r o disconnect = all_invalid r control_disconnected
observe_kind existing r o owner_gone = all_invalid r owner_gone_route
observe_kind existing r o pause = all_invalid r control_paused
observe_kind existing r o decoder_ambiguity = all_invalid r decoder_ambiguous
observe_kind existing r o server_restart = all_invalid r server_restarted
observe_kind existing r o foreign_pipe = (result retain foreign_observer_coexists, r)
observe_kind existing r o unknown = all_invalid r decoder_ambiguous

abbrev pub reincarnated : Option PaneWitness → PaneWitness → Bool
reincarnated none w = false
reincarnated (some existing) w = not (existing.incarnation == w.incarnation)

unfoldable pub observe : SessionRouter → Observation → RouteResult × SessionRouter
observe r o =
    if not (o.witness.of_session.session == r.session.session)
    then (result ignore other_session, r)
    else if not (o.witness.of_session.server == r.session.server)
    then all_invalid r server_restarted
    else if not (o.witness.of_session.control_generation == r.session.control_generation)
    then all_invalid r control_generation_changed
    else if is_invalid r o.witness
    then (result ignore already_invalid, r)
    else if reincarnated (r.panes o.witness.window o.witness.pane) o.witness
    then (
      result invalidate pane_incarnation_changed,
      drop_pane r o.witness pane_incarnation_changed,
    )
    else observe_kind (r.panes o.witness.window o.witness.pane) r o o.kind

abbrev pub is_stored : Option PaneWitness → PaneWitness → Bool
is_stored none w = false
is_stored (some stored) w = same_witness stored w

unfoldable pub unified_eligible : SessionRouter → PaneWitness → Bool
unified_eligible r w =
    if r.failed || not (same_session w.of_session r.session)
    then false
    else is_stored (r.panes w.window w.pane) w
