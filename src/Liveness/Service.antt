-- ===== src/Liveness/Service.antt =====
-- ClientLivenessService (server/services/client_liveness_service.py), with the parts of the server that
-- it changes: the state of the server and the waiters of the three managers. The calls are run one
-- after another. What the user is told and what the listeners are called with is kept in lists. The
-- time synchronisation and the streams that the monitoring manager stops are left out.
use multi_daq.Prelude.{
  Bool, true, false, not, Option, none, some, ℕ, String, List, [], ◌∷◌, ◌++◌, map, if◌then◌else◌,
  ◌&&◌, ◌||◌, str_eq, contains, select,
}
use Prim.Native.String.{◌++◌ as append}
use multi_daq.ServerState.Fsm.{ClientFsmEvent}
use multi_daq.ServerState.Records.{ClientId, ServerState, no_metadata}
use multi_daq.ServerState.Queries.{is_client_on_plane}
use multi_daq.ServerState.Methods.{
  process_client_event, remove_acquisition_client, remove_monitoring_client, remove_client,
  remove_operational_client,
}
use multi_daq.Replies.Handler.{ReplyHandler, cancel_client}

-- CommandPlane of server/services/client_command_service.py.
pub data Plane : Type 0 where
  control acquisition monitoring : Plane

unfoldable pub plane_value : Plane → String
plane_value control = "control"
plane_value acquisition = "acquisition"
plane_value monitoring = "monitoring"

-- `CommandPlane(plane)`; `none` is ValueError.
unfoldable pub plane_named : String → Option Plane
plane_named s =
    if str_eq s "control"
    then some control
    else if str_eq s "acquisition"
    then some acquisition
    else if str_eq s "monitoring"
    then some monitoring
    else none

unfoldable pub same_plane : Plane → Plane → Bool
same_plane control control = true
same_plane acquisition acquisition = true
same_plane monitoring monitoring = true
same_plane _ _ = false

-- What the user is told.
pub data Notice : Type 0 where
  lost : ClientId → Plane → Notice
  new_client returned : ClientId → Notice

abbrev pub Loss : Type 0
Loss = ClientId × Plane

unfoldable pub same_loss : Loss → Loss → Bool
unfolding same_plane
same_loss (j, p) (k, q) = str_eq j k && same_plane p q

-- `key in self._loss_reported`
unfoldable pub reported : Loss → List Loss → Bool
unfolding same_loss
reported k [] = false
reported k (l ∷ ls) = same_loss l k || reported k ls

pub record Liveness : Type 0 where
  pub state : ServerState
  pub control_replies : ReplyHandler
  pub acquisition_replies : ReplyHandler
  pub monitoring_replies : ReplyHandler
  pub listeners : List String
  pub connecting : Bool
  pub client_announced : List ClientId
  pub client_seen : List ClientId
  pub loss_reported : List Loss
  pub output : List Notice
  pub calls : List (String × Loss)

-- `set.discard`
abbrev pub without : ClientId → List ClientId → List ClientId
without k ks = select (λ j. not (str_eq j k)) ks

abbrev pub without_loss : Loss → List Loss → List Loss
without_loss l ls = select (λ m. not (same_loss m l)) ls

-- `if not repeated: self.poutput(...)`
abbrev pub tell : Bool → Notice → List Notice → List Notice
tell true n output = output
tell false n output = output ++ n ∷ []

-- `_remove_from_every_plane`
unfoldable pub remove_from_every_plane : ClientId → ServerState → ServerState
remove_from_every_plane k s =
    let s1 = if is_client_on_plane s k "monitoring" then remove_monitoring_client k s else s in
    let s2 = if is_client_on_plane s1 k "acquisition" then remove_acquisition_client k s1 else s1 in
    remove_client k (remove_operational_client k s2)

-- `_cancel_pending_replies`, on the waiters of one manager.
unfoldable pub cancel_on : Plane → ClientId → ReplyHandler → ReplyHandler
unfolding plane_value
cancel_on p k h =
    (cancel_client k (append "client lost on the " (append (plane_value p) " plane")) h).0

-- The part of `handle_client_lost` for each plane.
unfoldable pub drop_client : Plane → Bool → ClientId → ℕ → Liveness → Liveness
unfolding remove_from_every_plane cancel_on same_loss
drop_client control repeated k now s = record s {
  state = remove_from_every_plane k s.state;
  control_replies = cancel_on control k s.control_replies;
  acquisition_replies = cancel_on acquisition k s.acquisition_replies;
  monitoring_replies = cancel_on monitoring k s.monitoring_replies;
  client_announced = without k s.client_announced;
  loss_reported = without_loss (k, monitoring) (without_loss (k, acquisition) s.loss_reported);
  output = tell repeated (lost k control) s.output;
}
drop_client acquisition repeated k now s =
    let moved = process_client_event s.state (record {
      client_id = k;
      event = ClientFsmEvent.acquisition_plane_lost;
      reason = append "client " (append k " lost on the acquisition plane");
      source = "client_liveness_service";
      error = none;
      metadata = no_metadata;
      now = now;
    }) in
    record s {
      state = remove_acquisition_client k moved.0;
      acquisition_replies = cancel_on acquisition k s.acquisition_replies;
      client_announced = without k s.client_announced;
      output = tell repeated (lost k acquisition) s.output;
    }
drop_client monitoring repeated k now s = record s {
  state = remove_monitoring_client k s.state;
  monitoring_replies = cancel_on monitoring k s.monitoring_replies;
  client_announced = without k s.client_announced;
  output = tell repeated (lost k monitoring) s.output;
}

-- `_notify_listeners`: what a listener raises is caught.
unfoldable pub notify_listeners : Loss → Liveness → Liveness
notify_listeners l s = record s { calls = s.calls ++ map (λ f. (f, l)) s.listeners }

abbrev pub note_loss : Loss → List Loss → List Loss
note_loss l ls = if reported l ls then ls else ls ++ l ∷ []

abbrev pub handle_loss : Plane → ClientId → ℕ → Liveness → Liveness × Bool
handle_loss p k now s =
    let noted = record s { loss_reported = note_loss (k, p) s.loss_reported } in
    if is_client_on_plane s.state k (plane_value p)
    then (
      notify_listeners (k, p) (drop_client p (reported (k, p) s.loss_reported) k now noted),
      true,
    )
    else (noted, false)

-- `handle_client_lost`
unfoldable pub handle_client_lost : ClientId → String → ℕ → Liveness → Liveness × Bool
unfolding plane_named reported drop_client notify_listeners plane_value
handle_client_lost k plane now s = elim (plane_named plane) [
  | none ↦ (s, false)
  | some p ↦ handle_loss p k now s
]

-- No plane is missing.
unfoldable pub is_complete : ClientId → ServerState → Bool
is_complete k s =
    is_client_on_plane s k "control"
    && is_client_on_plane s k "acquisition"
    && is_client_on_plane s k "monitoring"

-- What is told of a client that is complete.
abbrev pub welcome : Bool → Bool → ClientId → List Notice → List Notice
welcome true returning k output = output
welcome false true k output = output ++ returned k ∷ []
welcome false false k output = output ++ new_client k ∷ []

abbrev pub announce : ClientId → Liveness → Liveness
announce k s = record s {
  client_announced = s.client_announced ++ k ∷ [];
  loss_reported = select (λ l. not (str_eq l.0 k)) s.loss_reported;
  client_seen = if contains k s.client_seen then s.client_seen else s.client_seen ++ k ∷ [];
  output = welcome s.connecting (contains k s.client_seen) k s.output;
}

abbrev pub greet : ClientId → Liveness → Liveness × Bool
greet k s =
    if not (is_complete k s.state) || contains k s.client_announced
    then (s, false)
    else (announce k s, true)

-- `handle_client_plane_connected`
unfoldable pub handle_client_plane_connected : ClientId → String → Liveness → Liveness × Bool
unfolding plane_named is_complete
handle_client_plane_connected k plane s = elim (plane_named plane) [
  | none ↦ (s, false)
  | some p ↦ greet k s
]

-- `register_listener`
unfoldable pub register_listener : String → Liveness → Liveness
register_listener f s =
    if contains f s.listeners then s else record s { listeners = s.listeners ++ f ∷ [] }

-- `begin_connect` and `end_connect`
unfoldable pub begin_connect : Liveness → Liveness
begin_connect s = record s { connecting = true }

unfoldable pub end_connect : Liveness → Liveness
end_connect s = record s { connecting = false }
