-- ===== src/ServerState/Records.antt =====
-- ClientRecord, the event contexts and the fields of ServerState, with the helpers that the methods
-- share. A client id is non-empty bytes in the source and a text here; a time is a number. What
-- `isinstance` tests in the source is the typing of the arguments here.
use multi_daq.Prelude.{
  Bool, true, false, Option, none, some, ℕ, String, List, [], ◌∷◌, if◌then◌else◌, ◌&&◌, contains,
  dedup,
}
use multi_daq.Prelude.Dict.{Dict, modify, update_where, keys_where}
use multi_daq.ServerState.Fsm.{ServerFsm, ServerFsmEvent, ClientFsm, ClientFsmEvent, same_client}

abbrev pub ClientId : Type 0
ClientId = String

-- The entries of an event's metadata that the state machine reads. A key may be missing, hold None,
-- or hold a list of client ids.
pub data IdsEntry : Type 0 where
  missing null : IdsEntry
  ids : List ClientId → IdsEntry

pub record Metadata : Type 0 where
  pub target_clients : IdsEntry
  pub successful_clients : IdsEntry
  pub failed_clients : IdsEntry
  pub active_clients : IdsEntry
  pub partial : Bool

abbrev pub no_metadata : Metadata
no_metadata = record {
  target_clients = missing;
  successful_clients = missing;
  failed_clients = missing;
  active_clients = missing;
  partial = false;
}

-- `metadata.get(key, default)`, where the value may be None.
abbrev pub entry_or : IdsEntry → List ClientId → Option (List ClientId)
entry_or missing d = some d
entry_or null d = none
entry_or (ids l) d = some l

-- `metadata.get(key)`.
abbrev pub entry : IdsEntry → Option (List ClientId)
entry missing = none
entry null = none
entry (ids l) = some l

pub data AnyEvent : Type 0 where
  no_event : AnyEvent
  server_event : ServerFsmEvent → AnyEvent
  client_event : ClientFsmEvent → AnyEvent

pub record EventContext : Type 0 where
  pub event : AnyEvent
  pub reason : String
  pub source : String
  pub client_id : Option ClientId
  pub error : Option String
  pub metadata : Metadata
  pub timestamp : ℕ

-- The values of one HV channel are stored and never read: they are texts.
pub record HvParameters : Type 0 where
  pub voltage : Option String
  pub threshold : Option String
  pub power_state : Option String

abbrev pub Identity : Type 0
Identity = Dict String

pub record ClientRecord : Type 0 where
  pub state : ClientFsm
  pub previous_state : Option ClientFsm
  pub last_event_context : Option EventContext
  pub error_context : Option (EventContext × ClientFsm)
  pub identity : Option Identity
  pub configuration_identity : Option (String × String)
  pub hv_parameters : List (ℕ × HvParameters)
  pub calibration_excluded_channels : List ℕ
  pub connected_at : ℕ
  pub on_control_plane : Bool
  pub on_acquisition_plane : Bool
  pub on_monitoring_plane : Bool
  pub operational : Bool

-- `ClientRecord()` made at time `now`.
unfoldable pub new_record : ℕ → ClientRecord
new_record now = record {
  state = ClientFsm.connected;
  previous_state = none;
  last_event_context = none;
  error_context = none;
  identity = none;
  configuration_identity = none;
  hv_parameters = [];
  calibration_excluded_channels = [];
  connected_at = now;
  on_control_plane = false;
  on_acquisition_plane = false;
  on_monitoring_plane = false;
  operational = false;
}

abbrev pub Clients : Type 0
Clients = Dict ClientRecord

pub record ServerState : Type 0 where
  pub acq_mode : String
  pub clients : Clients
  pub run_state : ServerFsm
  pub previous_state : Option ServerFsm
  pub pending_event : Option ServerFsmEvent
  pub pending_terminal_state : Option ServerFsm
  pub pending_context : Option EventContext
  pub pending_configuration_source : Option ServerFsm
  pub pending_configuration_partial : Bool
  pub last_event_context : Option EventContext
  pub error_context : Option (EventContext × ServerFsm)
  pub client_id_by_mac : Dict ClientId

-- `ServerState(initial_mode)`.
unfoldable pub init : String → ServerState
init mode = record {
  acq_mode = mode;
  clients = [];
  run_state = ServerFsm.disconnected;
  previous_state = none;
  pending_event = none;
  pending_terminal_state = none;
  pending_context = none;
  pending_configuration_source = none;
  pending_configuration_partial = false;
  last_event_context = none;
  error_context = none;
  client_id_by_mac = [];
}

abbrev pub on_both_planes : ClientRecord → Bool
on_both_planes r = r.on_control_plane && r.on_acquisition_plane

abbrev pub in_state : ClientFsm → ClientRecord → Bool
in_state st r = same_client r.state st

-- `_common_plane_client_ids_locked`
abbrev pub common_ids : Clients → List ClientId
common_ids = keys_where on_both_planes

-- `_operational_client_ids_locked`
abbrev pub operational_ids : Clients → List ClientId
operational_ids = keys_where (λ r. r.operational)

-- `list_clients_in_state`
abbrev pub ids_in_state : ClientFsm → Clients → List ClientId
ids_in_state st = keys_where (in_state st)

abbrev pub with_operational : Bool → ClientRecord → ClientRecord
with_operational b r = record r { operational = b }

-- `_set_operational_locked`: true for the ids given, false for all others.
unfoldable pub set_operational : List ClientId → Clients → Clients
set_operational target [] = []
set_operational target ((k, r) ∷ m) =
    (k, with_operational (contains k target) r) ∷ set_operational target m

-- `_clear_operational_locked`
unfoldable pub clear_operational : Clients → Clients
clear_operational = update_where (λ k. true) (with_operational false)

-- `None` for a list that holds an empty id: the source raises ValueError.
unfoldable pub normalize_client_ids : Option (List ClientId) → Option (List ClientId)
normalize_client_ids none = some []
normalize_client_ids (some l) = let d = dedup l in if contains "" d then none else some d

abbrev pub enter_state : ClientFsm → EventContext → ClientRecord → ClientRecord
enter_state st ctx r = record r {
  previous_state = some r.state;
  state = st;
  last_event_context = some ctx;
  error_context = if same_client st ClientFsm.error then some (ctx, r.state) else none;
}

-- `_set_client_state_locked`: an unknown client is ignored.
unfoldable pub set_client_state : ClientFsm → EventContext → ClientId → Clients → Clients
set_client_state st ctx k m = modify k (enter_state st ctx) m

-- `for client in ids: self._set_client_state_locked(client, st, ctx)`
unfoldable pub set_client_states : ClientFsm → EventContext → List ClientId → Clients → Clients
set_client_states st ctx [] m = m
set_client_states st ctx (k ∷ ks) m = set_client_states st ctx ks (set_client_state st ctx k m)
