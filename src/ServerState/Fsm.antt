-- ===== src/ServerState/Fsm.antt =====
-- The states, the events and the transition tables of server/core/server_state.py.
use multi_daq.Prelude.{Bool, true, false, Option, none, some, ℕ, ◌==◌}

pub data ServerFsm : Type 0 where
  disconnected control_connected connected configuring ready acquiring finalizing error : ServerFsm

pub data ServerFsmEvent : Type 0 where
  control_connection_succeeded control_connection_failed control_connection_lost : ServerFsmEvent
  acquisition_connection_succeeded acquisition_connection_failed : ServerFsmEvent
  acquisition_connection_lost disconnect_requested : ServerFsmEvent
  configuration_started configuration_succeeded configuration_failed : ServerFsmEvent
  acquisition_started stop_requested receiver_completed : ServerFsmEvent
  finalization_succeeded finalization_failed fatal_error : ServerFsmEvent
  recovery_started recovery_succeeded recovery_failed : ServerFsmEvent

pub data ClientFsm : Type 0 where
  disconnected connected configuring ready acquiring finalizing error : ClientFsm

pub data ClientFsmEvent : Type 0 where
  connect_succeeded disconnected : ClientFsmEvent
  configuration_started configuration_succeeded configuration_failed : ClientFsmEvent
  acquisition_started stop_requested receiver_completed acquisition_plane_lost : ClientFsmEvent
  finalization_succeeded finalization_failed fatal_error : ClientFsmEvent

pub data AcquisitionMode : Type 0 where
  test calibration multipmt : AcquisitionMode

-- TRANSITION_TABLE, one function of the event for each state.
unfoldable pub from_disconnected : ServerFsmEvent → Option ServerFsm
from_disconnected control_connection_succeeded = some ServerFsm.control_connected
from_disconnected control_connection_failed = some ServerFsm.disconnected
from_disconnected acquisition_connection_failed = some ServerFsm.disconnected
from_disconnected disconnect_requested = some ServerFsm.disconnected
from_disconnected ServerFsmEvent.fatal_error = some ServerFsm.error
from_disconnected _ = none

unfoldable pub from_control_connected : ServerFsmEvent → Option ServerFsm
from_control_connected acquisition_connection_succeeded = some ServerFsm.connected
from_control_connected acquisition_connection_failed = some ServerFsm.control_connected
from_control_connected control_connection_lost = some ServerFsm.disconnected
from_control_connected disconnect_requested = some ServerFsm.disconnected
from_control_connected ServerFsmEvent.fatal_error = some ServerFsm.error
from_control_connected _ = none

unfoldable pub from_connected : ServerFsmEvent → Option ServerFsm
from_connected ServerFsmEvent.configuration_started = some ServerFsm.configuring
from_connected control_connection_lost = some ServerFsm.disconnected
from_connected acquisition_connection_lost = some ServerFsm.control_connected
from_connected disconnect_requested = some ServerFsm.disconnected
from_connected ServerFsmEvent.fatal_error = some ServerFsm.error
from_connected _ = none

unfoldable pub from_configuring : ServerFsmEvent → Option ServerFsm
from_configuring ServerFsmEvent.configuration_succeeded = some ServerFsm.ready
from_configuring ServerFsmEvent.configuration_failed = some ServerFsm.connected
from_configuring recovery_succeeded = some ServerFsm.ready
from_configuring recovery_failed = some ServerFsm.error
from_configuring control_connection_lost = some ServerFsm.error
from_configuring acquisition_connection_lost = some ServerFsm.error
from_configuring disconnect_requested = some ServerFsm.disconnected
from_configuring ServerFsmEvent.fatal_error = some ServerFsm.error
from_configuring _ = none

unfoldable pub from_ready : ServerFsmEvent → Option ServerFsm
from_ready ServerFsmEvent.configuration_started = some ServerFsm.configuring
from_ready ServerFsmEvent.acquisition_started = some ServerFsm.acquiring
from_ready control_connection_lost = some ServerFsm.disconnected
from_ready acquisition_connection_lost = some ServerFsm.control_connected
from_ready disconnect_requested = some ServerFsm.disconnected
from_ready ServerFsmEvent.fatal_error = some ServerFsm.error
from_ready _ = none

unfoldable pub from_acquiring : ServerFsmEvent → Option ServerFsm
from_acquiring ServerFsmEvent.stop_requested = some ServerFsm.finalizing
from_acquiring ServerFsmEvent.receiver_completed = some ServerFsm.finalizing
from_acquiring disconnect_requested = some ServerFsm.finalizing
from_acquiring control_connection_lost = some ServerFsm.finalizing
from_acquiring acquisition_connection_lost = some ServerFsm.finalizing
from_acquiring ServerFsmEvent.fatal_error = some ServerFsm.error
from_acquiring _ = none

unfoldable pub from_finalizing : ServerFsmEvent → Option ServerFsm
from_finalizing ServerFsmEvent.finalization_succeeded = some ServerFsm.ready
from_finalizing ServerFsmEvent.finalization_failed = some ServerFsm.ready
from_finalizing disconnect_requested = some ServerFsm.finalizing
from_finalizing ServerFsmEvent.fatal_error = some ServerFsm.error
from_finalizing _ = none

unfoldable pub from_error : ServerFsmEvent → Option ServerFsm
from_error recovery_started = some ServerFsm.configuring
from_error disconnect_requested = some ServerFsm.disconnected
from_error ServerFsmEvent.fatal_error = some ServerFsm.error
from_error _ = none

-- `TRANSITION_TABLE.get((state, event))`.
unfoldable pub transition : ServerFsm → ServerFsmEvent → Option ServerFsm
unfolding from_disconnected from_control_connected from_connected from_configuring from_ready
    from_acquiring from_finalizing from_error
transition disconnected e = from_disconnected e
transition control_connected e = from_control_connected e
transition connected e = from_connected e
transition configuring e = from_configuring e
transition ready e = from_ready e
transition acquiring e = from_acquiring e
transition finalizing e = from_finalizing e
transition error e = from_error e

-- `TRANSITION_TABLE_CLIENT.get((state, event))`, with the entries that the loop below the table
-- adds: every state goes to ERROR on FATAL_ERROR.
unfoldable pub client_transition : ClientFsm → ClientFsmEvent → Option ClientFsm
client_transition s fatal_error = some error
client_transition disconnected connect_succeeded = some connected
client_transition connected configuration_started = some configuring
client_transition configuring configuration_succeeded = some ready
client_transition configuring configuration_failed = some error
client_transition ready configuration_started = some configuring
client_transition ready acquisition_started = some acquiring
client_transition acquiring stop_requested = some finalizing
client_transition acquiring receiver_completed = some finalizing
client_transition finalizing finalization_succeeded = some ready
client_transition finalizing finalization_failed = some error
client_transition connected disconnected = some disconnected
client_transition configuring disconnected = some disconnected
client_transition ready disconnected = some disconnected
client_transition acquiring disconnected = some error
client_transition finalizing disconnected = some error
client_transition error disconnected = some disconnected
client_transition connected acquisition_plane_lost = some connected
client_transition configuring acquisition_plane_lost = some error
client_transition ready acquisition_plane_lost = some connected
client_transition acquiring acquisition_plane_lost = some error
client_transition finalizing acquisition_plane_lost = some error
client_transition error acquisition_plane_lost = some error
client_transition _ _ = none

-- The tests `state == ServerFSM.X` that the code makes, over the position of the state.
abbrev server_code : ServerFsm → ℕ
server_code disconnected = 0
server_code control_connected = 1
server_code connected = 2
server_code configuring = 3
server_code ready = 4
server_code acquiring = 5
server_code finalizing = 6
server_code error = 7

abbrev client_code : ClientFsm → ℕ
client_code disconnected = 0
client_code connected = 1
client_code configuring = 2
client_code ready = 3
client_code acquiring = 4
client_code finalizing = 5
client_code error = 6

abbrev pub same_server : ServerFsm → ServerFsm → Bool
same_server a b = server_code a == server_code b

abbrev pub same_client : ClientFsm → ClientFsm → Bool
same_client a b = client_code a == client_code b

abbrev pub is_configuration_started : ServerFsmEvent → Bool
is_configuration_started ServerFsmEvent.configuration_started = true
is_configuration_started _ = false

abbrev pub is_configuration_failed : ServerFsmEvent → Bool
is_configuration_failed ServerFsmEvent.configuration_failed = true
is_configuration_failed _ = false

-- `event in {CONFIGURATION_SUCCEEDED, CONFIGURATION_FAILED}`.
abbrev pub is_configuration_result : ServerFsmEvent → Bool
is_configuration_result ServerFsmEvent.configuration_succeeded = true
is_configuration_result ServerFsmEvent.configuration_failed = true
is_configuration_result _ = false

-- `event in {FINALIZATION_SUCCEEDED, FINALIZATION_FAILED}`.
abbrev pub is_finalization : ServerFsmEvent → Bool
is_finalization ServerFsmEvent.finalization_succeeded = true
is_finalization ServerFsmEvent.finalization_failed = true
is_finalization _ = false
