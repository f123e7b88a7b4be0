-- ===== src/ServerState/Snapshot.antt =====
-- The guards of commands, `snapshot` and the remaining methods of ServerState that only read it.
-- A client id is a text here, so that its `decode` is itself.
-- In the body of a guard `none` is the call that is not allowed: the user reads a message.
use text.Mathlib.Text.{◌==◌ as str_eq}
use multi_daq.Prelude.{
  Bool, true, false, not, Option, none, some, ℕ, String, List, [], ◌∷◌, if◌then◌else◌, ◌||◌,
  is_empty,
}
use multi_daq.Prelude.Dict.{Dict, find, keys_where}
use multi_daq.ServerState.Fsm.{AcquisitionMode, ServerFsm, ServerFsmEvent, ClientFsm, same_server}
use multi_daq.ServerState.Records.{
  ClientId, Identity, EventContext, ClientRecord, ServerState, common_ids, operational_ids,
}
use multi_daq.ServerState.Queries.{
  Configuration, configuration_identity_of, get_configuration_identity,
}

abbrev pub same_mode : AcquisitionMode → AcquisitionMode → Bool
same_mode AcquisitionMode.test AcquisitionMode.test = true
same_mode AcquisitionMode.calibration AcquisitionMode.calibration = true
same_mode AcquisitionMode.multipmt AcquisitionMode.multipmt = true
same_mode _ _ = false

-- `AcquisitionMode(text)`: ValueError for a text that is no mode.
unfoldable pub acquisition_mode : String → Option AcquisitionMode
acquisition_mode t =
    if str_eq t "test"
    then some AcquisitionMode.test
    else if str_eq t "calibration"
    then some AcquisitionMode.calibration
    else if str_eq t "multipmt"
    then some AcquisitionMode.multipmt
    else none

-- `state in allowed_states`
unfoldable pub allows : ServerFsm → List ServerFsm → Bool
allows st [] = false
allows st (a ∷ l) = same_server st a || allows st l

-- `mode in allowed_modes`
unfoldable pub allows_mode : AcquisitionMode → List AcquisitionMode → Bool
allows_mode mode [] = false
allows_mode mode (a ∷ l) = same_mode mode a || allows_mode mode l

module _ {ℓ} {A : Type ℓ} where
  -- The decorated function: what `command_guard` makes of `func`. ValueError without a state.
  unfoldable pub command_guard :
      List ServerFsm → (ServerState → A) → Option (ServerState → Option A)
  unfolding allows
  command_guard [] func = none
  command_guard (a ∷ l) func =
      some (λ s. if allows s.run_state (a ∷ l) then some (func s) else none)

  -- The outer `none` of a call is the ValueError of a mode that is no AcquisitionMode.
  unfoldable pub acquisition_guard :
      List AcquisitionMode → (ServerState → A) → Option (ServerState → Option (Option A))
  unfolding allows_mode acquisition_mode
  acquisition_guard [] func = none
  acquisition_guard (a ∷ l) func = some (λ s. elim (acquisition_mode s.acq_mode) [
    | none ↦ none
    | some mode ↦ some (if allows_mode mode (a ∷ l) then some (func s) else none)
  ])

unfoldable pub has_common_plane_client : ServerState → Bool
has_common_plane_client s = not (is_empty (common_ids s.clients))

unfoldable pub get_pending_transition :
    ServerState → Option ServerFsm × Option ServerFsmEvent × Option EventContext
get_pending_transition s = (s.pending_terminal_state, s.pending_event, s.pending_context)

module _ {V : Type 0} (of : ClientRecord → V) where
  unfoldable pub value_of_all : Dict ClientRecord → Dict V
  value_of_all [] = []
  value_of_all ((k, r) ∷ m) = (k, of r) ∷ value_of_all m

unfoldable pub get_client_states : ServerState → Dict ClientFsm
unfolding value_of_all
get_client_states s = value_of_all (λ r. r.state) s.clients

unfoldable pub get_identity : ServerState → ClientId → Option Identity
get_identity s k = elim (find k s.clients) [ none ↦ none | some r ↦ r.identity ]

unfoldable pub get_client_connected_since : ServerState → ClientId → Option ℕ
get_client_connected_since s k = elim (find k s.clients) [
  | none ↦ none
  | some r ↦ some r.connected_at
]

-- The two parts of "multipmt_id:batch_id", if neither is missing nor empty.
abbrev pub both_ids : Option Configuration → Option (String × String)
both_ids (some (some m, some b)) = if str_eq m "" || str_eq b "" then none else some (m, b)
both_ids _ = none

unfoldable pub get_configuration_id : ServerState → ClientId → Option (String × String)
unfolding get_configuration_identity configuration_identity_of
get_configuration_id s k = both_ids (get_configuration_identity s k)

pub record Snapshot : Type 0 where
  pub mode : String
  pub state : ServerFsm
  pub previous_state : Option ServerFsm
  pub control_clients : List ClientId
  pub acquisition_clients : List ClientId
  pub monitoring_clients : List ClientId
  pub common_clients : List ClientId
  pub operational_clients : List ClientId
  pub pending_terminal_state : Option ServerFsm
  pub pending_event : Option ServerFsmEvent
  pub last_event_context : Option EventContext
  pub error_context : Option (EventContext × ServerFsm)
  pub client_states : Dict ClientFsm
  pub configuration_identities : Dict (Option Configuration)

unfoldable pub snapshot : ServerState → Snapshot
unfolding value_of_all configuration_identity_of
snapshot s = record {
  mode = s.acq_mode;
  state = s.run_state;
  previous_state = s.previous_state;
  control_clients = keys_where (λ r. r.on_control_plane) s.clients;
  acquisition_clients = keys_where (λ r. r.on_acquisition_plane) s.clients;
  monitoring_clients = keys_where (λ r. r.on_monitoring_plane) s.clients;
  common_clients = common_ids s.clients;
  operational_clients = operational_ids s.clients;
  pending_terminal_state = s.pending_terminal_state;
  pending_event = s.pending_event;
  last_event_context = s.last_event_context;
  error_context = s.error_context;
  client_states = value_of_all (λ r. r.state) s.clients;
  configuration_identities = value_of_all configuration_identity_of s.clients;
}
