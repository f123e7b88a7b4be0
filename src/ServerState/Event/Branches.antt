-- ===== src/ServerState/Event/Branches.antt =====
-- The branches of `process_event` with an event of their own (server/core/server_state.py).
use multi_daq.Prelude.{
  Bool, true, false, not, Option, none, some, List, [], ◌∷◌, ◌++◌, if◌then◌else◌, ◌&&◌, ◌||◌, both,
  is_empty, contains, all_in, same_set, overlaps,
}
use multi_daq.Prelude.Dict.{find, update_where}
use multi_daq.ServerState.Fsm.{ClientFsm}
use multi_daq.ServerState.Records.{
  ClientId, entry, entry_or, EventContext, Clients, ServerState, common_ids, operational_ids,
  ids_in_state, in_state, with_operational, set_operational, clear_operational,
  normalize_client_ids, set_client_states,
}

-- The clients when a configuration starts: the previous operational set is no longer valid, as a
-- whole or for the targets of a partial configuration.
unfoldable pub begin_configuring : ServerState → EventContext → List ClientId → Clients
begin_configuring s ctx targets = set_client_states ClientFsm.configuring ctx targets (
    if ctx.metadata.partial
    then update_where (λ c. contains c targets) (with_operational false) s.clients
    else clear_operational s.clients)

-- CONFIGURATION_STARTED
unfoldable pub start_configuration : ServerState → EventContext → Option ServerState
start_configuration s ctx =
    elim (normalize_client_ids (entry_or ctx.metadata.target_clients (common_ids s.clients))) [
      | none ↦ none
      | some targets ↦
          if not (all_in targets (common_ids s.clients)) || is_empty targets
          then none
          else some (record s {
            pending_configuration_partial = ctx.metadata.partial;
            clients = begin_configuring s ctx targets;
          })
    ]

-- The operational set after a configuration: only the clients of the result change if it is partial.
unfoldable pub admit_successful : ServerState → List ClientId → Clients
admit_successful s successful =
    if s.pending_configuration_partial
    then update_where (λ c. contains c successful) (with_operational true) s.clients
    else set_operational successful s.clients

unfoldable pub configured_clients :
    ServerState → EventContext → List ClientId → List ClientId → Clients
configured_clients s ctx successful failed =
    set_client_states ClientFsm.error ctx failed
      (set_client_states ClientFsm.ready ctx successful (admit_successful s successful))

-- CONFIGURATION_SUCCEEDED
unfoldable pub succeed_configuration : ServerState → EventContext → Option ServerState
succeed_configuration s ctx =
    let results =
      both (normalize_client_ids (entry ctx.metadata.successful_clients))
        (normalize_client_ids (entry_or ctx.metadata.failed_clients [])) in
    elim results [
      | none ↦ none
      | some (successful, failed) ↦
          if is_empty successful
            || overlaps successful failed
            || not (same_set (successful ++ failed) (ids_in_state ClientFsm.configuring s.clients))
            || not (all_in successful (common_ids s.clients))
          then none
          else some (record s { clients = configured_clients s ctx successful failed })
    ]

unfoldable pub unconfigured_clients : ServerState → EventContext → List ClientId → Clients
unconfigured_clients s ctx failed = set_client_states ClientFsm.error ctx failed (
    if s.pending_configuration_partial
    then update_where (λ c. contains c failed) (with_operational false) s.clients
    else clear_operational s.clients)

-- CONFIGURATION_FAILED
unfoldable pub fail_configuration : ServerState → EventContext → Option ServerState
fail_configuration s ctx =
    let expected = ids_in_state ClientFsm.configuring s.clients in
    elim (normalize_client_ids (entry_or ctx.metadata.failed_clients expected)) [
      | none ↦ none
      | some failed ↦
          if not (same_set failed expected)
          then none
          else some (record s { clients = unconfigured_clients s ctx failed })
    ]

-- Whether every id is operational and in the READY state.
unfoldable pub all_ready : Clients → List ClientId → Bool
all_ready m [] = true
all_ready m (k ∷ ks) =
    contains k (operational_ids m)
    && elim (find k m) [ none ↦ false | some r ↦ in_state ClientFsm.ready r ]
    && all_ready m ks

unfoldable pub acquiring_clients : ServerState → EventContext → List ClientId → Clients
acquiring_clients s ctx active =
    set_client_states ClientFsm.acquiring ctx active (set_operational active s.clients)

-- ACQUISITION_STARTED
unfoldable pub start_acquisition : ServerState → EventContext → Option ServerState
start_acquisition s ctx =
    elim (normalize_client_ids (entry_or ctx.metadata.active_clients (operational_ids s.clients))) [
      | none ↦ none
      | some active ↦
          if is_empty active || not (all_ready s.clients active)
          then none
          else some (record s { clients = acquiring_clients s ctx active })
    ]

-- FATAL_ERROR
unfoldable pub fail_all : EventContext → Clients → Clients
fail_all ctx m = clear_operational (set_client_states ClientFsm.error ctx (operational_ids m) m)
