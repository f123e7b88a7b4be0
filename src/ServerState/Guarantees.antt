-- ===== src/ServerState/Guarantees.antt =====
-- What the state promises to the services that use it: fatal errors, command targets, the index of
-- MAC addresses, and the events of single clients.
use mathlib.Core.Path.{subst}
use text.Mathlib.Text.{◌==◌ as str_eq}
use multi_daq.Prelude.{
  ◌||◌, ◌&&◌, true, false, none, some, ℕ, String, ◌≡◌, ◌≢◌, ◌⊎◌, inl, inr, arith, if◌then◌else◌,
  contains, eq_iff, is_some, Option-cases,
}
use multi_daq.Prelude.Text.{spells}
use multi_daq.Prelude.Dict.{find, insert, modify}
use multi_daq.Prelude.Dict.Laws.{
  Distinct, find-modify, find-insert, find-erase, contains-keys_where,
}
use multi_daq.ServerState.Fsm.{
  same_server, ServerFsm, ServerFsm, ServerFsmEvent, ClientFsm, transition,
}
use multi_daq.ServerState.Records.{
  ClientId, EventContext, Clients, Identity, ServerState, operational_ids, set_client_states,
  new_record,
}
use multi_daq.ServerState.Event.{
  Request, process_event, advance, drop_lost, set_pending, finish, apply_event, resolve_next,
  commit, fail_all, is_valid_request, build_event_context,
}
use multi_daq.ServerState.Methods.{
  ClientRequest, process_client_event, client_target, client_moved, add_control_client,
  remove_client, note_mac, forget_mac, mac_of, identity_of, on_control, identified,
}
use multi_daq.ServerState.Queries.{
  is_client_operational, state_at, operational_at, get_client_state,
  get_acquisition_command_clients, is_client_on_plane, get_client_id_by_mac,
}
use multi_daq.ServerState.Views.{state_at-set_client_states, operational_at-clear, state_at-clear}
use multi_daq.ServerState.Invariant.{IsWellFormed}
use multi_daq.ServerState.History.Effects.{process_client_event_cases}
use multi_daq.ServerState.History.{step, or_same, adds_control, step-IsWellFormed}

fatal_effect :
    (s : ServerState) (q : Request)
    → is_valid_request q ≡ true
    → q.event ≡ ServerFsmEvent.fatal_error
    → q.requested_terminal_state ≡ none
    → ((process_event s q).1 ≡ true)
      × ((process_event s q).0.run_state ≡ ServerFsm.error)
      × ((process_event s q).0.pending_terminal_state ≡ none ⊎ s.run_state ≢ ServerFsm.finalizing)
      × ((process_event s q).0.clients ≡ fail_all (build_event_context q) s.clients)
unfolding process_event advance drop_lost set_pending finish apply_event resolve_next transition
    commit
fatal_effect s q v e n = ground arith

fail_all-clients :
    (ctx : EventContext) (m : Clients) (k : ClientId)
    → Distinct m
    → (operational_at k (fail_all ctx m) ≡ false)
      × (state_at k (fail_all ctx m)
          ≡ (if operational_at k m then some ClientFsm.error else state_at k m))
unfolding fail_all
fail_all-clients ctx m k d = (
  operational_at-clear k _,
  ground (
    arith,
    state_at-clear k (set_client_states ClientFsm.error ctx (operational_ids m) m),
    state_at-set_client_states k ClientFsm.error ctx (operational_ids m) m,
    contains-keys_where k (λ r. r.operational) m d,
  ),
)

-- In a well-formed state a valid FATAL_ERROR with no requested terminal state is accepted, whatever
-- the state of the server: the server enters ERROR, no client stays operational, the clients that
-- were go to ERROR, and the others keep their state.
pub fatal_error_stops :
    (s : ServerState) (q : Request)
    → IsWellFormed s
    → is_valid_request q ≡ true
    → q.event ≡ ServerFsmEvent.fatal_error
    → q.requested_terminal_state ≡ none
    → ((process_event s q).1 ≡ true)
      × ((process_event s q).0.run_state ≡ ServerFsm.error)
      × ((k : ClientId)
          → (operational_at k (process_event s q).0.clients ≡ false)
            × (state_at k (process_event s q).0.clients ≡ (
                if operational_at k s.clients then some ClientFsm.error else state_at k s.clients)))
fatal_error_stops s q w v e n =
    let (ok, state, _, clients) = fatal_effect s q v e n in
    (
      ok,
      state,
      λ k. rw clients (fail_all-clients (build_event_context q) s.clients k w.registry.distinct),
    )

-- In a well-formed state acquisition commands target a client exactly if the server is READY, ACQUIRING
-- or FINALIZING and the client is operational, on the control plane and on the acquisition plane.
pub command_clients_connected :
    (s : ServerState) (k : ClientId)
    → IsWellFormed s
    → contains k (get_acquisition_command_clients s) ≡ (
        (same_server s.run_state ServerFsm.ready
          || same_server s.run_state ServerFsm.acquiring
          || same_server s.run_state ServerFsm.finalizing)
        && is_client_operational s k
        && is_client_on_plane s k "control"
        && is_client_on_plane s k "acquisition")
unfolding get_acquisition_command_clients is_client_on_plane is_client_operational contains spells
command_clients_connected s k w = elim (Option-cases (find k s.clients)) [
  | inl e ↦ ground (arith, contains-keys_where k (λ r. r.operational) s.clients w.registry.distinct)
  | inr (r, e) ↦ ground (
    arith,
    w.registry.admitted k r e,
    contains-keys_where k (λ r. r.operational) s.clients w.registry.distinct,
  )
]

-- The record of a client that has just been registered.
added_identity :
    (k : ClientId) (i : Identity) (now : ℕ) (s t : ServerState)
    → add_control_client k (some i) now s ≡ some t
    → identity_of (find k t.clients) ≡ some i
unfolding add_control_client
added_identity k i now s t e = ground (
  arith,
  eq_iff k k,
  find-modify k k (λ r. identified (some i) (on_control r))
      (if is_some (find k s.clients) then s.clients else insert k (new_record now) s.clients),
  find-insert k k (new_record now) s.clients,
)

added_macs :
    (k : ClientId) (i : Identity) (now : ℕ) (s t : ServerState)
    → add_control_client k (some i) now s ≡ some t
    → t.client_id_by_mac ≡ note_mac (mac_of (some i)) k s.client_id_by_mac
unfolding add_control_client
added_macs k i now s t e = ground arith

added-IsWellFormed :
    (s t : ServerState) (k : ClientId) (i : Identity) (now : ℕ)
    → IsWellFormed s
    → add_control_client k (some i) now s ≡ some t
    → IsWellFormed t
unfolding step
added-IsWellFormed s t k i now w e =
    subst (λ o. IsWellFormed (or_same s o)) e (step-IsWellFormed s w (adds_control k (some i) now))

found_mac :
    (k : ClientId) (mac : String) (s t : ServerState)
    → t.client_id_by_mac ≡ note_mac (some mac) k s.client_id_by_mac
    → get_client_id_by_mac t mac ≡ some k
unfolding get_client_id_by_mac note_mac
found_mac k mac s t e = ground (arith, find-insert mac mac k s.client_id_by_mac, eq_iff mac mac)

forgotten :
    (k : ClientId) (mac : String) (i : Identity) (t : ServerState)
    → IsWellFormed t
    → identity_of (find k t.clients) ≡ some i
    → mac_of (some i) ≡ some mac
    → get_client_id_by_mac t mac ≡ some k
    → get_client_id_by_mac (remove_client k t) mac ≡ none
unfolding get_client_id_by_mac remove_client forget_mac
forgotten k mac i t w own m owner =
    ground (arith, eq_iff k k, eq_iff mac mac, find-erase mac mac t.client_id_by_mac w.macs)

-- In a well-formed state, registering a client under a MAC address makes the address lead to the
-- client, and forgetting the client removes the address from the index and the client from the
-- registry.
pub mac_index :
    (s t : ServerState) (k : ClientId) (i : Identity) (mac : String) (now : ℕ)
    → IsWellFormed s
    → mac_of (some i) ≡ some mac
    → add_control_client k (some i) now s ≡ some t
    → (get_client_id_by_mac t mac ≡ some k)
      × (get_client_id_by_mac (remove_client k t) mac ≡ none)
      × (get_client_state (remove_client k t) k ≡ none)
mac_index s t k i mac now w m e =
    let wt = added-IsWellFormed s t k i now w e in
    let index = rw m at (added_macs k i now s t e) in
    let owner = found_mac k mac s t index in
    (
      owner,
      forgotten k mac i t wt (added_identity k i now s t e) m owner,
      unfold get_client_state remove_client in
          ground (arith, eq_iff k k, find-erase k k t.clients wt.registry.distinct),
    )

moved_state :
    (s : ServerState) (q : ClientRequest) (k : ClientId) (next : ClientFsm)
    → client_target s q ≡ some next
    → process_client_event s q
      ≡ (record s { clients = modify q.client_id (client_moved q next) s.clients }, true)
    → get_client_state (process_client_event s q).0 k
      ≡ (if str_eq q.client_id k then some next else get_client_state s k)
unfolding get_client_state client_target client_moved
moved_state s q k next target moved =
    ground (arith, eq_iff q.client_id k, find-modify k q.client_id (client_moved q next) s.clients)

-- An accepted event of a client moves that client to the target of the table, and changes the state
-- of no other client, nor any operational flag.
pub client_event_moves :
    (s : ServerState) (q : ClientRequest) (k : ClientId)
    → (process_client_event s q).1 ≡ true
    → ((next : ClientFsm) × (client_target s q ≡ some next)
        × (get_client_state (process_client_event s q).0 k
            ≡ (if str_eq q.client_id k then some next else get_client_state s k)))
      × (operational_at k (process_client_event s q).0.clients ≡ operational_at k s.clients)
unfolding client_moved
client_event_moves s q k e = elim (process_client_event_cases s q) [
  | inl no_move ↦ ground arith
  | inr (next, target, moved) ↦ (
    (next, target, moved_state s q k next target moved),
    ground (arith, find-modify k q.client_id (client_moved q next) s.clients),
  )
]
