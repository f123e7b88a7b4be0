-- ===== src/ServerState/Event/Arguments.antt =====
-- A call of `process_event`, its tests on the arguments, and what it does to a configuration result
-- that names clients lost meanwhile (server/core/server_state.py).
use multi_daq.Prelude.{
  Bool, true, false, not, Option, none, some, ℕ, String, List, [], if◌then◌else◌, ◌&&◌, both,
  is_empty, contains, all_in, select,
}
use multi_daq.Prelude.Text.{strip, is_blank}
use multi_daq.ServerState.Fsm.{
  ServerFsm, ServerFsmEvent, ClientFsm, same_server, is_configuration_failed,
  is_configuration_result,
}
use multi_daq.ServerState.Records.{
  ClientId, ids, entry_or, Metadata, server_event, EventContext, ServerState, ids_in_state,
  normalize_client_ids,
}

-- The arguments of one call, and the time at which it is made.
pub record Request : Type 0 where
  pub event : ServerFsmEvent
  pub reason : String
  pub source : String
  pub client_id : Option ClientId
  pub error : Option String
  pub metadata : Metadata
  pub requested_terminal_state : Option ServerFsm
  pub now : ℕ

-- _ALLOWED_PENDING_TERMINAL_STATES
abbrev pub is_allowed_terminal : ServerFsm → Bool
is_allowed_terminal ServerFsm.ready = true
is_allowed_terminal ServerFsm.disconnected = true
is_allowed_terminal ServerFsm.control_connected = true
is_allowed_terminal ServerFsm.connected = true
is_allowed_terminal ServerFsm.error = true
is_allowed_terminal _ = false

abbrev pub terminal_ok : Option ServerFsm → Bool
terminal_ok none = true
terminal_ok (some t) = is_allowed_terminal t

-- The tests on the arguments, before the lock is taken.
unfoldable pub is_valid_request : Request → Bool
is_valid_request q =
    not (is_blank q.reason) && not (is_blank q.source) && terminal_ok q.requested_terminal_state

-- `_build_event_context`
unfoldable pub build_event_context : Request → EventContext
build_event_context q = record {
  event = server_event q.event;
  reason = strip q.reason;
  source = strip q.source;
  client_id = q.client_id;
  error = q.error;
  metadata = q.metadata;
  timestamp = q.now;
}

-- The event under way: it may be replaced while it is processed.
pub record Pending : Type 0 where
  pub event : ServerFsmEvent
  pub context : EventContext
  pub next_state : ServerFsm

-- The result of a configuration without the clients that are no longer under configuration.
unfoldable pub without_lost : Pending → List ClientId → List ClientId → List ClientId → Pending
without_lost p expected successful failed =
    let kept = select (λ c. contains c expected) successful in
    let kept_failed = select (λ c. contains c expected) failed in
    let trimmed = record p.context.metadata {
      successful_clients = ids kept;
      failed_clients = ids kept_failed;
    } in
    let ctx = record p.context { metadata = trimmed } in
    if is_empty kept && not (is_configuration_failed p.event)
    then record {
      event = ServerFsmEvent.configuration_failed;
      context = record ctx { event = server_event ServerFsmEvent.configuration_failed };
      next_state = ServerFsm.connected;
    }
    else record p { context = ctx }

-- Whether no client of the result has been lost.
unfoldable pub trim_result :
    Pending → List ClientId → Option (List ClientId × List ClientId) → Option Pending
trim_result p expected none = none
trim_result p expected (some (successful, failed)) =
    if all_in successful expected && all_in failed expected
    then some p
    else some (without_lost p expected successful failed)

-- `none`: an invalid client id was given.
unfoldable pub drop_lost : ServerState → Pending → Option Pending
drop_lost s p =
    if same_server s.run_state ServerFsm.configuring && is_configuration_result p.event
    then trim_result p (ids_in_state ClientFsm.configuring s.clients) (
        both (normalize_client_ids (entry_or p.context.metadata.successful_clients []))
          (normalize_client_ids (entry_or p.context.metadata.failed_clients [])))
    else some p
