-- ===== src/Liveness/Tests.antt =====
-- Runs of ClientLivenessService, and the theorems about it at concrete inputs.
use multi_daq.Liveness.Kept.{IsKept}
use multi_daq.Liveness.Runs.{started, run-LossHandled}
use multi_daq.Prelude.{true, false, not, none, ◌+◌, ◌≤◌, List, [], ◌∷◌, ◌≡◌, refl, contains, select}
use multi_daq.Prelude.Text.{is_blank, spells}
use multi_daq.Prelude.Numbers.{bit}
use multi_daq.Prelude.Dict.{find, insert, modify}
use multi_daq.ServerState.Records.{ServerState, init, new_record}
use multi_daq.ServerState.Queries.{is_client_on_plane}
use multi_daq.ServerState.Methods.{
  add_control_client, add_acquisition_client, add_monitoring_client, is_on_control, note_mac,
  remove_acquisition_client, process_client_event, client_target, client_moved,
}
use multi_daq.ServerState.History.{
  adds_control, adds_acquisition, adds_monitoring, step as server_step, run as server_run,
}
use multi_daq.ServerState.Fsm.{client_transition}
use multi_daq.Replies.Handler.{ReplyHandler, empty, register_pending_reply}
use multi_daq.Replies.Waiters.{register}
use multi_daq.Liveness.Service.{
  acquisition, lost, new_client, Liveness, handle_client_lost, handle_client_plane_connected,
  reported, same_plane, plane_value,
}
use multi_daq.Liveness.Loss.{LossHandled}
use multi_daq.Liveness.Counts.{losses}
use multi_daq.Liveness.Reports.{
  reply, Call, loses, connects, server, run, all_quiet, loss_told_once,
}

-- Two clients on every plane.
registry : ServerState
unfolding server_run server_step add_control_client add_acquisition_client add_monitoring_client
    is_on_control note_mac insert modify find
registry = server_run (init "test") (
    adds_control "a" none 1
    ∷ adds_control "b" none 2
    ∷ adds_acquisition "a"
    ∷ adds_acquisition "b"
    ∷ adds_monitoring "a"
    ∷ adds_monitoring "b"
    ∷ [])

-- Somebody waits for a reply of client a.
waiting : ReplyHandler
unfolding register_pending_reply
waiting = (register_pending_reply ("a", "r1") empty).0

abbrev world : Liveness
world = record {
  state = registry;
  control_replies = empty;
  acquisition_replies = waiting;
  monitoring_replies = empty;
  listeners = "orchestrator" ∷ [];
  connecting = false;
  client_announced = [];
  client_seen = [];
  loss_reported = [];
  output = [];
  calls = [];
}

abbrev calls : List Call
calls =
    loses "a" "acquisition" 3
    ∷ loses "a" "acquisition" 4
    ∷ server (adds_acquisition "a")
    ∷ loses "a" "acquisition" 5
    ∷ []

told :
    (run world (connects "a" "monitoring" ∷ calls)).output
    ≡ new_client "a" ∷ lost "a" acquisition ∷ []
unfolding registry run handle_client_lost is_client_on_plane handle_client_plane_connected init
    spells contains remove_acquisition_client process_client_event is_blank client_target
    client_transition new_record client_moved select
told = refl

loss_told_once_example :
    losses ("a", acquisition) (run world calls).output
    ≤ losses ("a", acquisition) world.output
      + bit (not (reported ("a", acquisition) world.loss_reported))
unfolding all_quiet same_plane
loss_told_once_example = loss_told_once "a" acquisition calls world refl

-- The two clients of `registry` register, somebody waits for client a, which is then lost.
abbrev beginning : List Call
beginning =
    server (adds_control "a" none 1)
    ∷ server (adds_control "b" none 2)
    ∷ server (adds_acquisition "a")
    ∷ reply acquisition (register ("a", "r1"))
    ∷ []

run-LossHandled_example :
    IsKept (run (started "test") beginning)
    × ((handle_client_lost "a" "acquisition" 7 (run (started "test") beginning)).1 ≡ true)
    × LossHandled acquisition "a"
        (run (started "test") beginning)
        (handle_client_lost "a" "acquisition" 7 (run (started "test") beginning)).0
unfolding run is_client_on_plane init spells plane_value find server_step add_acquisition_client
    is_on_control add_control_client modify insert
run-LossHandled_example = run-LossHandled "test" beginning acquisition "a" 7 refl
