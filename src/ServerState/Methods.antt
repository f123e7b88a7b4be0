-- ===== src/ServerState/Methods.antt =====
-- The other methods of ServerState that change it. A method that raises ValueError returns `none`.
mod Registration
mod Parameters
use text.Mathlib.Text.{◌==◌ as str_eq}
use multi_daq.Prelude.{
  both, Bool, true, false, not, Option, none, some, ℕ, String, List, [], ◌∷◌, if◌then◌else◌, ◌==◌,
  ◌||◌, is_some, all_in, dedup,
}
use multi_daq.Prelude.Text.{strip, is_blank, spells}
use multi_daq.Prelude.Dict.{Dict, find, insert, erase, modify, update_where}
use multi_daq.ServerState.Fsm.{ServerFsm, ClientFsm, ClientFsmEvent, client_transition, same_client}
use multi_daq.ServerState.Records.{
  ClientId, Metadata, no_metadata, no_event, client_event, EventContext, HvParameters, Identity,
  ClientRecord, ServerState, new_record, common_ids, with_operational, set_operational,
  clear_operational,
}
unfoldable pub use Registration.*
unfoldable pub use Parameters.*

-- `set_mode`
unfoldable pub set_mode : String → ServerState → Option ServerState
set_mode mode s =
    if spells "test" mode
    then some (record s { acq_mode = "test" })
    else if spells "calibration" mode
    then some (record s { acq_mode = "calibration" })
    else if spells "multipmt" mode
    then some (record s { acq_mode = "multipmt" })
    else none

pub record ClientRequest : Type 0 where
  pub client_id : ClientId
  pub event : ClientFsmEvent
  pub reason : String
  pub source : String
  pub error : Option String
  pub metadata : Metadata
  pub now : ℕ

abbrev pub client_context : ClientRequest → EventContext
client_context q = record {
  event = client_event q.event;
  reason = strip q.reason;
  source = strip q.source;
  client_id = some q.client_id;
  error = q.error;
  metadata = q.metadata;
  timestamp = q.now;
}

-- The record after its own event; the error context of an earlier error is kept.
unfoldable pub client_moved : ClientRequest → ClientFsm → ClientRecord → ClientRecord
client_moved q next r = record r {
  previous_state = some r.state;
  state = next;
  last_event_context = some (client_context q);
  error_context =
      if same_client next ClientFsm.error
      then some (client_context q, r.state)
      else r.error_context;
}

-- `record` and its transition, if both are there.
unfoldable pub client_target : ServerState → ClientRequest → Option ClientFsm
client_target s q = elim (find q.client_id s.clients) [
  | none ↦ none
  | some r ↦ client_transition r.state q.event
]

-- `process_client_event`
unfoldable pub process_client_event : ServerState → ClientRequest → ServerState × Bool
process_client_event s q =
    if str_eq q.client_id "" || is_blank q.reason || is_blank q.source
    then (s, false)
    else elim (client_target s q) [
      | none ↦ (s, false)
      | some next ↦
          (record s { clients = modify q.client_id (client_moved q next) s.clients }, true)
    ]

-- `reset_to_disconnected`
unfoldable pub reset_to_disconnected : String → String → ℕ → ServerState → ServerState
reset_to_disconnected reason source now s = record s {
  previous_state = some s.run_state;
  run_state = ServerFsm.disconnected;
  clients = clear_operational s.clients;
  pending_event = none;
  pending_terminal_state = none;
  pending_context = none;
  last_event_context = some (record {
    event = no_event;
    reason = reason;
    source = source;
    client_id = none;
    error = none;
    metadata = no_metadata;
    timestamp = now;
  });
}

-- `clear_pending_transition`
unfoldable pub clear_pending_transition : ServerState → ServerState
clear_pending_transition s = record s {
  pending_terminal_state = none;
  pending_event = none;
  pending_context = none;
}

-- `set_operational_clients`
unfoldable pub set_operational_clients : List ClientId → ServerState → Option ServerState
set_operational_clients ks s =
    if all_in (dedup ks) (common_ids s.clients)
    then some (record s { clients = set_operational (dedup ks) s.clients })
    else none

-- `remove_operational_client`
unfoldable pub remove_operational_client : ClientId → ServerState → ServerState
remove_operational_client k s = record s { clients = modify k (with_operational false) s.clients }

-- `clear_operational_clients`
unfoldable pub clear_operational_clients : ServerState → ServerState
clear_operational_clients s = record s { clients = clear_operational s.clients }
