-- ===== src/ServerState/Queries.antt =====
-- The methods of ServerState that only read it.
use text.Mathlib.Text.{◌==◌ as str_eq}
use multi_daq.Prelude.{
  Bool, true, false, not, Option, none, some, String, List, [], ◌∷◌, if◌then◌else◌, ◌&&◌, is_some,
  is_empty, all_in, get_or,
}
use multi_daq.Prelude.Text.{spells}
use multi_daq.Prelude.Dict.{find, keys_where, any_value}
use multi_daq.Prelude.Dict.Laws.{holds}
use multi_daq.ServerState.Fsm.{ServerFsm, ClientFsm, same_server}
use multi_daq.ServerState.Records.{
  ClientId, Identity, ClientRecord, Clients, ServerState, common_ids, operational_ids,
}

abbrev pub state_of : Option ClientRecord → Option ClientFsm
state_of none = none
state_of (some r) = some r.state

abbrev pub state_at : ClientId → Clients → Option ClientFsm
state_at k m = state_of (find k m)

abbrev pub operational_at : ClientId → Clients → Bool
operational_at k m = holds (λ r. r.operational) (find k m)

-- `get_client_state`
unfoldable pub get_client_state : ServerState → ClientId → Option ClientFsm
get_client_state s k = state_at k s.clients

-- `is_client_operational`
unfoldable pub is_client_operational : ServerState → ClientId → Bool
is_client_operational s k = operational_at k s.clients

-- `is_client_on_plane`
unfoldable pub is_client_on_plane : ServerState → ClientId → String → Bool
is_client_on_plane s k plane = elim (find k s.clients) [
  | none ↦ false
  | some r ↦
      if spells "control" plane
      then r.on_control_plane
      else if spells "acquisition" plane
      then r.on_acquisition_plane
      else if spells "monitoring" plane
      then r.on_monitoring_plane
      else false
]

unfoldable pub has_control_clients : ServerState → Bool
has_control_clients s = any_value (λ r. r.on_control_plane) s.clients

unfoldable pub has_acquisition_clients : ServerState → Bool
has_acquisition_clients s = any_value (λ r. r.on_acquisition_plane) s.clients

-- `list_connected_clients`
unfoldable pub list_connected_clients : ServerState → List ClientId
list_connected_clients s = keys_where (λ r. r.on_control_plane) s.clients

unfoldable pub list_acquisition_clients : ServerState → List ClientId
list_acquisition_clients s = keys_where (λ r. r.on_acquisition_plane) s.clients

unfoldable pub list_monitoring_clients : ServerState → List ClientId
list_monitoring_clients s = keys_where (λ r. r.on_monitoring_plane) s.clients

unfoldable pub list_common_plane_clients : ServerState → List ClientId
list_common_plane_clients s = common_ids s.clients

-- `list_operational_clients` and `get_operational_clients`
unfoldable pub list_operational_clients : ServerState → List ClientId
list_operational_clients s = operational_ids s.clients

unfoldable pub can_start_acquisition : ServerState → Bool
can_start_acquisition s =
    same_server s.run_state ServerFsm.ready
    && not (is_empty (operational_ids s.clients))
    && all_in (operational_ids s.clients) (common_ids s.clients)

-- CONTROL_PLANE_AVAILABLE_STATES
abbrev pub control_available : ServerFsm → Bool
control_available ServerFsm.disconnected = false
control_available _ = true

-- ACQUISITION_PLANE_AVAILABLE_STATES
abbrev pub acquisition_available : ServerFsm → Bool
acquisition_available ServerFsm.disconnected = false
acquisition_available ServerFsm.control_connected = false
acquisition_available _ = true

unfoldable pub is_control_plane_available : ServerState → Bool
unfolding has_control_clients
is_control_plane_available s = has_control_clients s && control_available s.run_state

unfoldable pub is_acquisition_plane_available : ServerState → Bool
is_acquisition_plane_available s =
    not (is_empty (common_ids s.clients)) && acquisition_available s.run_state

-- The states in which acquisition commands have targets.
abbrev pub takes_commands : ServerFsm → Bool
takes_commands ServerFsm.ready = true
takes_commands ServerFsm.acquiring = true
takes_commands ServerFsm.finalizing = true
takes_commands _ = false

unfoldable pub get_acquisition_command_clients : ServerState → List ClientId
get_acquisition_command_clients s =
    if takes_commands s.run_state then operational_ids s.clients else []

unfoldable pub get_client_id_by_mac : ServerState → String → Option ClientId
get_client_id_by_mac s mac = find mac s.client_id_by_mac

-- `str(identity.get(key))`: a missing key reads as the text of None.
abbrev pub identity_text : String → Identity → String
identity_text key i = get_or (find key i) "None"

abbrev matches : String → String → Option Identity → Bool
matches key target none = false
matches key target (some i) = not (is_empty i) && str_eq (identity_text key i) target

-- The loop of `get_client_id_by_multipmt_id` and `get_client_id_by_batch_id`, by the key.
unfoldable pub find_by_identity : String → String → Clients → Option ClientId
find_by_identity key target [] = none
find_by_identity key target ((k, r) ∷ m) =
    if matches key target r.identity then some k else find_by_identity key target m

unfoldable pub get_client_id_by_multipmt_id : ServerState → String → Option ClientId
unfolding find_by_identity
get_client_id_by_multipmt_id s id = find_by_identity "multipmt_id" id s.clients

unfoldable pub get_client_id_by_batch_id : ServerState → String → Option ClientId
unfolding find_by_identity
get_client_id_by_batch_id s id = find_by_identity "batch_id" id s.clients

-- `resolve_client_id`: exactly one of the three must be given.
unfoldable pub resolve_client_id :
    ServerState → Option ClientId → Option String → Option String → Option ClientId
unfolding get_client_id_by_multipmt_id get_client_id_by_batch_id
resolve_client_id s (some k) none none = if is_some (find k s.clients) then some k else none
resolve_client_id s none (some m) none = get_client_id_by_multipmt_id s m
resolve_client_id s none none (some b) = get_client_id_by_batch_id s b
resolve_client_id s _ _ _ = none

abbrev pub Configuration : Type 0
Configuration = Option String × Option String

-- `_configuration_identity_locked`: the pair of multipmt_id and batch_id.
unfoldable pub configuration_identity_of : ClientRecord → Option Configuration
configuration_identity_of r = elim r.configuration_identity [
  | some (m, b) ↦ some (some m, some b)
  | none ↦ elim r.identity [ none ↦ none | some i ↦ some (find "multipmt_id" i, find "batch_id" i) ]
]

unfoldable pub get_configuration_identity : ServerState → ClientId → Option Configuration
unfolding configuration_identity_of
get_configuration_identity s k = elim (find k s.clients) [
  | none ↦ none
  | some r ↦ configuration_identity_of r
]
