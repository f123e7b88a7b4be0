-- ===== src/ServerState/History/Calls.antt =====
-- Every call that changes a ServerState (server/core/server_state.py), and runs of them.
use multi_daq.Prelude.{Option, none, some, ℕ, String, List, [], ◌∷◌}
use multi_daq.ServerState.Records.{ClientId, HvParameters, Identity, ServerState}
use multi_daq.ServerState.Event.{Request, process_event}
use multi_daq.ServerState.Methods.{
  set_mode, ClientRequest, process_client_event, reset_to_disconnected, clear_pending_transition,
  add_control_client, remove_acquisition_client, clear_acquisition_clients, add_acquisition_client,
  add_monitoring_client, remove_monitoring_client, clear_monitoring_clients, remove_client,
  set_operational_clients, remove_operational_client, clear_operational_clients,
  set_client_hv_parameters, set_calibration_excluded_channels, set_configuration_identity,
}

pub data Call : Type 0 where
  changes_mode : String → Call
  event : Request → Call
  client_event : ClientRequest → Call
  resets : String → String → ℕ → Call
  clears_pending : Call
  adds_control : ClientId → Option Identity → ℕ → Call
  adds_acquisition removes_acquisition : ClientId → Call
  clears_acquisition : Call
  adds_monitoring removes_monitoring : ClientId → Call
  clears_monitoring : Call
  removes : ClientId → Call
  sets_operational : List ClientId → Call
  removes_operational : ClientId → Call
  clears_operational : Call
  sets_parameters : ClientId → List (ℕ × HvParameters) → Call
  sets_excluded : ClientId → List ℕ → Call
  sets_identity : ClientId → String → String → Call

abbrev pub or_same : ServerState → Option ServerState → ServerState
or_same s none = s
or_same s (some t) = t

unfoldable pub step : ServerState → Call → ServerState
step s (changes_mode mode) = or_same s (set_mode mode s)
step s (event q) = (process_event s q).0
step s (client_event q) = (process_client_event s q).0
step s (resets reason source now) = reset_to_disconnected reason source now s
step s clears_pending = clear_pending_transition s
step s (adds_control k identity now) = or_same s (add_control_client k identity now s)
step s (adds_acquisition k) = or_same s (add_acquisition_client k s)
step s (removes_acquisition k) = remove_acquisition_client k s
step s clears_acquisition = clear_acquisition_clients s
step s (adds_monitoring k) = or_same s (add_monitoring_client k s)
step s (removes_monitoring k) = remove_monitoring_client k s
step s clears_monitoring = clear_monitoring_clients s
step s (removes k) = remove_client k s
step s (sets_operational ks) = or_same s (set_operational_clients ks s)
step s (removes_operational k) = remove_operational_client k s
step s clears_operational = clear_operational_clients s
step s (sets_parameters k info) = set_client_hv_parameters k info s
step s (sets_excluded k channels) = set_calibration_excluded_channels k channels s
step s (sets_identity k m b) = (set_configuration_identity k m b s).0

unfoldable pub run : ServerState → List Call → ServerState
run s [] = s
run s (c ∷ cs) = run (step s c) cs
