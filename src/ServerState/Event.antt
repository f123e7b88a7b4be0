-- ===== src/ServerState/Event.antt =====
-- `process_event` of server/core/server_state.py. It returns the state and whether the event was
-- accepted; what was written before a refusal stays written.
mod Arguments
mod Branches
use multi_daq.Prelude.{
  Bool, true, false, not, Option, none, some, ℕ, String, List, [], ◌∷◌, ◌++◌, if◌then◌else◌, ◌&&◌,
  ◌||◌, get_or, is_some, is_empty, contains, all_in, same_set, overlaps, select,
}
use multi_daq.Prelude.Text.{strip, is_blank}
use multi_daq.Prelude.Dict.{find, modify, update_where}
use multi_daq.ServerState.Fsm.{
  ServerFsm, ServerFsmEvent, ClientFsm, transition, same_server, is_configuration_started,
  is_configuration_failed, is_configuration_result, is_finalization,
}
use multi_daq.ServerState.Records.{
  ClientId, ids, entry, entry_or, Metadata, server_event, EventContext, ClientRecord, Clients,
  ServerState, common_ids, operational_ids, ids_in_state, in_state, with_operational,
  set_operational, clear_operational, normalize_client_ids, set_client_state, set_client_states,
}
unfoldable pub use Arguments.*
unfoldable pub use Branches.*

-- The state that a finalization ends in.
unfoldable pub terminal_state : ServerFsmEvent → Option ServerFsm → ServerFsm
terminal_state ServerFsmEvent.disconnect_requested requested = ServerFsm.disconnected
terminal_state ServerFsmEvent.control_connection_lost requested = ServerFsm.disconnected
terminal_state ServerFsmEvent.acquisition_connection_lost requested = ServerFsm.control_connected
terminal_state _ requested = get_or requested ServerFsm.ready

-- The state of a client that leaves a finalization which does not end in READY.
unfoldable pub settled_state : ServerFsm → ClientRecord → ClientFsm
settled_state ServerFsm.control_connected r =
    if r.on_control_plane then ClientFsm.connected else ClientFsm.disconnected
settled_state ServerFsm.connected r = ClientFsm.connected
settled_state ServerFsm.error r = ClientFsm.error
settled_state _ r = ClientFsm.disconnected

-- One turn of the loops that dismiss the operational clients.
unfoldable pub dismiss : ServerFsm → EventContext → ClientId → Clients → Clients
unfolding settled_state
dismiss t ctx k m = elim (find k m) [
  | none ↦ m
  | some r ↦ set_client_state (settled_state t r) ctx k (modify k (with_operational false) m)
]

unfoldable pub dismiss_all : ServerFsm → EventContext → List ClientId → Clients → Clients
unfolding dismiss
dismiss_all t ctx [] m = m
dismiss_all t ctx (k ∷ ks) m = dismiss_all t ctx ks (dismiss t ctx k m)

-- FINALIZATION_SUCCEEDED and FINALIZATION_FAILED, by the terminal state.
unfoldable pub settle : ServerFsm → EventContext → Clients → Clients
unfolding dismiss_all
settle ServerFsm.ready ctx m = set_client_states ClientFsm.ready ctx (operational_ids m) m
settle ServerFsm.disconnected ctx m = dismiss_all ServerFsm.disconnected ctx (operational_ids m) m
settle ServerFsm.control_connected ctx m =
    dismiss_all ServerFsm.control_connected ctx (operational_ids m) m
settle ServerFsm.connected ctx m = dismiss_all ServerFsm.connected ctx (operational_ids m) m
settle ServerFsm.error ctx m = dismiss_all ServerFsm.error ctx (operational_ids m) m
settle _ ctx m = m

-- The events that have no branch of their own.
unfoldable pub other_event : ServerState → ServerFsmEvent → EventContext → ServerFsm → Clients
other_event s e ctx next =
    if same_server next ServerFsm.finalizing
    then set_client_states ClientFsm.finalizing ctx (operational_ids s.clients) s.clients
    else if same_server s.run_state ServerFsm.finalizing && is_finalization e
    then settle (get_or s.pending_terminal_state ServerFsm.ready) ctx s.clients
    else s.clients

-- The effect of an event on the clients; `none` refuses it.
unfoldable pub apply_event :
    ServerState → ServerFsmEvent → EventContext → ServerFsm → Option ServerState
apply_event s ServerFsmEvent.configuration_started ctx next = start_configuration s ctx
apply_event s ServerFsmEvent.configuration_succeeded ctx next = succeed_configuration s ctx
apply_event s ServerFsmEvent.configuration_failed ctx next = fail_configuration s ctx
apply_event s ServerFsmEvent.acquisition_started ctx next = start_acquisition s ctx
apply_event s ServerFsmEvent.fatal_error ctx next =
    some (record s { clients = fail_all ctx s.clients })
apply_event s e ctx next = some (record s { clients = other_event s e ctx next })

-- What ends the pending finalization.
abbrev ends_finalization : ServerFsmEvent → Bool
ends_finalization ServerFsmEvent.fatal_error = true
ends_finalization e = is_finalization e

-- The assignments at the end, once the event is accepted.
unfoldable pub commit : ServerState → ServerFsmEvent → EventContext → ServerFsm → ServerState
commit s e ctx next =
    let moved = record s {
      previous_state = some s.run_state;
      run_state = next;
      last_event_context = some ctx;
      error_context =
          if same_server next ServerFsm.error then some (ctx, s.run_state) else s.error_context;
    } in
    let settled =
      if same_server s.run_state ServerFsm.finalizing && ends_finalization e
      then record moved {
        pending_event = none;
        pending_terminal_state = none;
        pending_context = none;
      }
      else moved in
    if same_server s.run_state ServerFsm.configuring && is_configuration_result e
    then record settled {
      pending_configuration_source = none;
      pending_configuration_partial = false;
    }
    else settled

-- The state that replaces the table's target, from the fields that pend.
unfoldable pub resolve_next : ServerState → ServerFsmEvent → ServerFsm → ServerFsm
resolve_next s e next =
    if same_server s.run_state ServerFsm.configuring && is_configuration_failed e
    then get_or s.pending_configuration_source ServerFsm.connected
    else if same_server s.run_state ServerFsm.finalizing && is_finalization e
    then get_or s.pending_terminal_state next
    else next

-- The fields that an event leaves pending before it is applied; `none` refuses the event.
unfoldable pub set_pending : ServerState → Pending → Option ServerFsm → Option ServerState
unfolding terminal_state
set_pending s p requested =
    if same_server p.next_state ServerFsm.finalizing
    then some (record s {
      pending_event = some p.event;
      pending_terminal_state = some (terminal_state p.event requested);
      pending_context = some p.context;
    })
    else if is_some requested
    then none
    else if is_configuration_started p.event && same_server p.next_state ServerFsm.configuring
    then some (record s { pending_configuration_source = some s.run_state })
    else some s

-- The event is applied to the clients and the new state is entered.
unfoldable pub finish : ServerState → Pending → ServerState × Bool
finish s p =
    let next = resolve_next s p.event p.next_state in
    elim (apply_event s p.event p.context next) [
      | none ↦ (s, false)
      | some s' ↦ (commit s' p.event p.context next, true)
    ]

abbrev pub start : Request → ServerFsm → Pending
start q next = record { event = q.event; context = build_event_context q; next_state = next }

-- From the entry of the transition table on.
unfoldable pub advance : ServerState → Request → ServerFsm → ServerState × Bool
advance s q next = elim (drop_lost s (start q next)) [
  | none ↦ (s, false)
  | some p ↦ elim (set_pending s p q.requested_terminal_state) [
    | none ↦ (s, false)
    | some s' ↦ finish s' p
  ]
]

unfoldable pub process_event : ServerState → Request → ServerState × Bool
process_event s q =
    if is_valid_request q
    then elim (transition s.run_state q.event) [ none ↦ (s, false) | some next ↦ advance s q next ]
    else (s, false)
