-- ===== src/ServerState/Tests.antt =====
-- Runs of ServerState on small inputs, and the theorems about it at concrete inputs.
use multi_daq.Prelude.{
  ◌||◌, ◌&&◌, Option, true, false, none, some, List, [], ◌∷◌, ◌++◌, ◌≡◌, refl, inl, inr, contains,
  all_in, same_set, overlaps, is_empty, select, dedup, arith, Bool-cases, if◌then◌else◌, get_or,
  false,
}
use text.Mathlib.Text.{◌==◌ as str_eq}
use multi_daq.Prelude.Text.{is_blank, spells, strip, lower_is}
use multi_daq.Prelude.Dict.{find, insert, erase, modify, update_where, keys_where}
use multi_daq.ServerState.Fsm.{
  same_server, AcquisitionMode, ServerFsm, ServerFsmEvent, ClientFsm, ClientFsmEvent, transition,
  client_transition,
}
use multi_daq.ServerState.Records.{
  ClientId, ids, Metadata, no_metadata, ServerState, Identity, init, new_record, set_operational,
  clear_operational, set_client_state, set_client_states, normalize_client_ids,
}
use multi_daq.ServerState.Event.{
  Request, process_event, advance, drop_lost, trim_result, without_lost, set_pending, finish,
  apply_event, resolve_next, commit, start_configuration, begin_configuring, succeed_configuration,
  configured_clients, admit_successful, fail_configuration, unconfigured_clients, start_acquisition,
  acquiring_clients, all_ready, fail_all, other_event, settle, terminal_state, is_valid_request,
  build_event_context,
}
use multi_daq.ServerState.Methods.{
  ClientRequest, process_client_event, client_target, client_moved, add_control_client,
  add_acquisition_client, is_on_control, note_mac, forget_mac, remove_client,
}
use multi_daq.ServerState.Queries.{
  is_client_operational, can_start_acquisition, get_acquisition_command_clients, is_client_on_plane,
  get_client_id_by_mac, get_client_state, operational_at, state_at,
}
use multi_daq.ServerState.Refusal.{Untouched, process_event_refused}
use multi_daq.ServerState.Invariant.{IsWellFormed}
use multi_daq.ServerState.History.{
  Call, changes_mode, event, adds_control, adds_acquisition, step, run, run-IsWellFormed,
}
use multi_daq.ServerState.Configuration.{Resolved, Admits}
use multi_daq.ServerState.Results.{configuration_resolves, configuration-Admits}
use multi_daq.ServerState.Acquisition.{Starts, acquisition-Starts}
use multi_daq.ServerState.CanStart.{can_start_accepted}
use multi_daq.ServerState.Finalization.{both_accepted, after_both}
use multi_daq.ServerState.Landing.{stop_target, Settled, finalization_lands, finalization_settles}
use multi_daq.ServerState.Guarantees.{
  fatal_error_stops, command_clients_connected, mac_index, client_event_moves,
}
use multi_daq.ServerState.Snapshot.{acquisition_mode}
use multi_daq.ServerState.Modes.{chosen, decorated, called, run-Guarded}
use multi_daq.ServerState.Safety.{process_all, is_configured, acquires_only_configured}

abbrev request_with : ServerFsmEvent → Metadata → Request
request_with e m = record {
  event = e;
  reason = "test";
  source = " unit ";
  client_id = none;
  error = none;
  metadata = m;
  requested_terminal_state = none;
  now = 7;
}

abbrev request : ServerFsmEvent → Request
request e = request_with e no_metadata

abbrev results : Metadata
results = record no_metadata {
  successful_clients = ids ("a" ∷ []);
  failed_clients = ids ("b" ∷ []);
}

abbrev identity : Identity
identity = ("mac_address", "00:11") ∷ []

abbrev connected_calls : List Call
connected_calls =
    adds_control "a" (some identity) 1
    ∷ adds_control "b" none 2
    ∷ adds_acquisition "a"
    ∷ adds_acquisition "b"
    ∷ event (request ServerFsmEvent.control_connection_succeeded)
    ∷ event (request ServerFsmEvent.acquisition_connection_succeeded)
    ∷ []

abbrev configuring_calls : List Call
configuring_calls = connected_calls ++ event (request ServerFsmEvent.configuration_started) ∷ []

abbrev ready_calls : List Call
ready_calls =
    configuring_calls ++ event (request_with ServerFsmEvent.configuration_succeeded results) ∷ []

abbrev acquiring_calls : List Call
acquiring_calls = ready_calls ++ event (request ServerFsmEvent.acquisition_started) ∷ []

-- To unfold this is to unfold all that a run computes with.
after_calls : List Call → ServerState
unfolding run step init new_record find insert erase modify update_where keys_where contains all_in
    same_set overlaps is_empty select dedup is_blank transition process_event advance drop_lost
    trim_result without_lost set_pending finish apply_event resolve_next commit start_configuration
    begin_configuring succeed_configuration configured_clients admit_successful fail_configuration
    unconfigured_clients start_acquisition acquiring_clients all_ready fail_all other_event settle
    terminal_state is_valid_request build_event_context add_control_client add_acquisition_client
    is_on_control note_mac forget_mac remove_client set_operational clear_operational
    set_client_state set_client_states normalize_client_ids can_start_acquisition
    process_client_event client_target client_moved client_transition
    get_acquisition_command_clients
after_calls cs = run (init "test") cs

run_acquiring : (after_calls acquiring_calls).run_state ≡ ServerFsm.acquiring
unfolding after_calls
run_acquiring = refl

abbrev connected : ServerState
connected = run (init "test") connected_calls

abbrev configuring : ServerState
configuring = run (init "test") configuring_calls

abbrev ready : ServerState
ready = run (init "test") ready_calls

abbrev acquiring : ServerState
acquiring = run (init "test") acquiring_calls

-- No client has that id, so the configuration is refused.
abbrev stray : Request
stray =
    request_with ServerFsmEvent.configuration_started
      (record no_metadata { target_clients = ids ("z" ∷ []) })

process_event_refused_example : Untouched connected stray (process_event connected stray).0
unfolding after_calls
process_event_refused_example = process_event_refused connected stray refl

run-IsWellFormed_example : IsWellFormed (run (init "test") acquiring_calls)
run-IsWellFormed_example = run-IsWellFormed "test" acquiring_calls

configuration_resolves_example :
    Resolved "b" configuring.clients
      (process_event configuring
        (request_with ServerFsmEvent.configuration_succeeded results)).0.clients
unfolding after_calls
configuration_resolves_example =
    configuration_resolves configuring (request_with ServerFsmEvent.configuration_succeeded results)
      (run-IsWellFormed "test" configuring_calls) refl refl "b"

configuration-Admits_example :
    Admits "a" configuring.clients
      (process_event configuring
        (request_with ServerFsmEvent.configuration_succeeded results)).0.clients
unfolding after_calls
configuration-Admits_example =
    configuration-Admits configuring (request_with ServerFsmEvent.configuration_succeeded results)
      (run-IsWellFormed "test" configuring_calls) refl refl "a" refl

acquisition-Starts_example :
    Starts ready.clients
      (process_event ready (request ServerFsmEvent.acquisition_started)).0.clients
unfolding after_calls
acquisition-Starts_example =
    acquisition-Starts ready (request ServerFsmEvent.acquisition_started)
      (run-IsWellFormed "test" ready_calls) refl refl

ready_operational :
    (k : ClientId)
    → operational_at k ready.clients ≡ true
    → state_at k ready.clients ≡ some ClientFsm.ready
unfolding after_calls
ready_operational k o = elim (Bool-cases (str_eq "a" k)) [
  | inl e ↦ ground arith
  | inr e ↦ elim (Bool-cases (str_eq "b" k)) [ inl f ↦ ground arith | inr f ↦ ground arith ]
]

can_start_accepted_example :
    ((process_event ready (request ServerFsmEvent.acquisition_started)).1 ≡ true)
    × ((process_event ready (request ServerFsmEvent.acquisition_started)).0.run_state
        ≡ ServerFsm.acquiring)
unfolding after_calls
can_start_accepted_example =
    can_start_accepted ready (request ServerFsmEvent.acquisition_started)
      (run-IsWellFormed "test" ready_calls) refl ready_operational refl refl refl refl

-- The acquisition plane is lost; then the finalization completes.
abbrev stopping : Request
stopping = request ServerFsmEvent.acquisition_connection_lost

abbrev finalized : Request
finalized = request ServerFsmEvent.finalization_succeeded

finalization_lands_example :
    (both_accepted acquiring stopping finalized ≡ true)
    × ((after_both acquiring stopping finalized).run_state ≡ ServerFsm.control_connected)
    × ((after_both acquiring stopping finalized).pending_terminal_state ≡ none)
unfolding after_calls stop_target
finalization_lands_example =
    finalization_lands acquiring stopping finalized refl refl refl refl refl refl

finalization_settles_example :
    Settled ServerFsm.control_connected "a" acquiring.clients
      (after_both acquiring stopping finalized).clients
unfolding after_calls stop_target
finalization_settles_example =
    finalization_settles acquiring stopping finalized refl refl refl refl refl refl
      (run-IsWellFormed "test" acquiring_calls) "a"

fatal_error_stops_example :
    ((process_event acquiring (request ServerFsmEvent.fatal_error)).1 ≡ true)
    × ((process_event acquiring (request ServerFsmEvent.fatal_error)).0.run_state ≡ ServerFsm.error)
    × ((k : ClientId)
        → (operational_at k (process_event acquiring (request ServerFsmEvent.fatal_error)).0.clients
            ≡ false)
          × (state_at k (process_event acquiring (request ServerFsmEvent.fatal_error)).0.clients ≡ (
              if operational_at k acquiring.clients
              then some ClientFsm.error
              else state_at k acquiring.clients)))
unfolding after_calls
fatal_error_stops_example =
    fatal_error_stops acquiring (request ServerFsmEvent.fatal_error)
      (run-IsWellFormed "test" acquiring_calls) refl refl refl

command_clients_connected_example : contains "a" (get_acquisition_command_clients acquiring) ≡ (
    (same_server acquiring.run_state ServerFsm.ready
      || same_server acquiring.run_state ServerFsm.acquiring
      || same_server acquiring.run_state ServerFsm.finalizing)
    && is_client_operational acquiring "a"
    && is_client_on_plane acquiring "a" "control"
    && is_client_on_plane acquiring "a" "acquisition")
command_clients_connected_example =
    command_clients_connected acquiring "a" (run-IsWellFormed "test" acquiring_calls)

abbrev registered : ServerState
registered = get_or (add_control_client "a" (some identity) 1 (init "test")) (init "test")

mac_index_example :
    (get_client_id_by_mac registered "00:11" ≡ some "a")
    × (get_client_id_by_mac (remove_client "a" registered) "00:11" ≡ none)
    × (get_client_state (remove_client "a" registered) "a" ≡ none)
unfolding after_calls
mac_index_example =
    mac_index (init "test") registered "a" identity "00:11" 1 (run-IsWellFormed "test" []) refl refl

abbrev client_fails : ClientRequest
client_fails = record {
  client_id = "a";
  event = ClientFsmEvent.fatal_error;
  reason = "hardware";
  source = "client";
  error = some "no answer";
  metadata = no_metadata;
  now = 9;
}

client_event_moves_example :
    ((next : ClientFsm) × (client_target acquiring client_fails ≡ some next)
      × (get_client_state (process_client_event acquiring client_fails).0 "a"
          ≡ (if str_eq "a" "a" then some next else get_client_state acquiring "a")))
    × (operational_at "a" (process_client_event acquiring client_fails).0.clients
        ≡ operational_at "a" acquiring.clients)
unfolding after_calls
client_event_moves_example = client_event_moves acquiring client_fails "a" refl

abbrev unconfigured : List Request
unconfigured =
    request ServerFsmEvent.control_connection_succeeded
    ∷ request ServerFsmEvent.acquisition_connection_succeeded
    ∷ request ServerFsmEvent.acquisition_started
    ∷ []

acquires_only_configured_example :
    is_configured (process_all (init "test") unconfigured).run_state ≡ false
unfolding after_calls
acquires_only_configured_example = acquires_only_configured "test" unconfigured refl

-- `set_mode` refuses the second text.
abbrev mode_calls : List Call
mode_calls = changes_mode " MultiPMT " ∷ changes_mode "fast" ∷ acquiring_calls

run-Guarded_example :
    (acquisition_mode (run (init "test") mode_calls).acq_mode
      ≡ some (chosen AcquisitionMode.test mode_calls))
    × (g : ServerState → Option (Option (Option ServerFsm))) × (decorated
          (λ s. s.run_state)
          (ServerFsm.ready ∷ ServerFsm.acquiring ∷ [])
          (AcquisitionMode.test ∷ AcquisitionMode.multipmt ∷ [])
        ≡ some g)
    × (g (run (init "test") mode_calls)
        ≡ called
            (λ s. s.run_state)
            (run (init "test") mode_calls)
            (chosen AcquisitionMode.test mode_calls)
            (ServerFsm.ready ∷ ServerFsm.acquiring ∷ [])
            (AcquisitionMode.test ∷ AcquisitionMode.multipmt ∷ []))
run-Guarded_example =
    run-Guarded (λ s. s.run_state) AcquisitionMode.test mode_calls ServerFsm.ready
      (ServerFsm.acquiring ∷ []) AcquisitionMode.test (AcquisitionMode.multipmt ∷ [])

mode_chosen : chosen AcquisitionMode.test mode_calls ≡ AcquisitionMode.multipmt
unfolding chosen spells strip lower_is
mode_chosen = refl
