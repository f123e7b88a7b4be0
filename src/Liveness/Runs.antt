-- ===== src/Liveness/Runs.antt =====
-- The service from the start of the server on (server/services/client_liveness_service.py).
use multi_daq.Prelude.{true, false, ℕ, String, List, [], ◌≡◌, refl}
use multi_daq.ServerState.Records.{init, ClientId}
use multi_daq.ServerState.Queries.{is_client_on_plane}
use multi_daq.ServerState.History.{init-IsWellFormed}
use multi_daq.Replies.Handler.{empty}
use multi_daq.Replies.Waiters.{is_orderly}
use multi_daq.Replies.Guarantees.{IsOrderly}
use multi_daq.Liveness.Service.{
  Plane, control, acquisition, monitoring, plane_value, Liveness, handle_client_lost,
}
use multi_daq.Liveness.Loss.{LossHandled, loss_handled, replies}
use multi_daq.Liveness.Reports.{Call, run}
use multi_daq.Liveness.Kept.{IsKept, run-IsKept}

-- The server at its start.
abbrev pub started : String → Liveness
started mode = record {
  state = init mode;
  control_replies = empty;
  acquisition_replies = empty;
  monitoring_replies = empty;
  listeners = [];
  connecting = false;
  client_announced = [];
  client_seen = [];
  loss_reported = [];
  output = [];
  calls = [];
}

started-IsKept : (mode : String) → IsKept (started mode)
unfolding is_orderly
started-IsKept mode = record {
  well_formed = init-IsWellFormed mode;
  on_control = refl;
  on_acquisition = refl;
  on_monitoring = refl;
}

-- From the start of the server, whatever is reported to the service, and whatever else changes the
-- state of the server or calls the managers of replies, in whatever order: the state of the server
-- is well formed, the keys and the objects of the waiters of each plane are unique, and a loss that
-- is then reported of a client on a plane is handled in full: the client is no longer on the plane
-- (after a loss of control it is not registered at all), is not operational unless the plane is
-- monitoring, and is no longer announced; its registration on the other planes (unless control was
-- lost), and the other clients, are as before; whoever waits for a reply of the client on the plane
-- (after a loss of control, on any plane) is woken, and the waiters of the other planes are left
-- alone; and each listener is called once.
pub run-LossHandled :
    (mode : String) (cs : List Call) (p : Plane) (k : ClientId) (now : ℕ)
    → is_client_on_plane (run (started mode) cs).state k (plane_value p) ≡ true
    → IsKept (run (started mode) cs)
      × ((handle_client_lost k (plane_value p) now (run (started mode) cs)).1 ≡ true)
      × LossHandled p k
          (run (started mode) cs)
          (handle_client_lost k (plane_value p) now (run (started mode) cs)).0
run-LossHandled mode cs p k now e =
    let v = run-IsKept (started mode) cs (started-IsKept mode) in
    let h =
      loss_handled p k now (run (started mode) cs) v.well_formed.registry.distinct (orderly v) e in
    (v, h.0, h.1)
  where
    orderly :
        IsKept (run (started mode) cs) → (q : Plane) → IsOrderly (replies q (run (started mode) cs))
    orderly v control = v.on_control
    orderly v acquisition = v.on_acquisition
    orderly v monitoring = v.on_monitoring
