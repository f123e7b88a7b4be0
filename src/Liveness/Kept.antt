-- ===== src/Liveness/Kept.antt =====
-- What the service keeps of the parts of the server that it changes
-- (server/services/client_liveness_service.py).
use mathlib.Core.Path.{subst}
use multi_daq.Prelude.{
  not, ◌||◌, ◌++◌, contains, sym, Bool, true, false, ℕ, String, List, [], ◌∷◌, ◌≡◌, refl,
  if◌then◌else◌, Bool-cases, Option-cases, inl, inr,
}
use multi_daq.ServerState.Records.{ClientId, ServerState}
use multi_daq.ServerState.Queries.{is_client_on_plane}
use multi_daq.ServerState.Methods.{
  remove_operational_client, remove_monitoring_client, remove_acquisition_client,
}
use multi_daq.ServerState.Invariant.{IsWellFormed}
use multi_daq.ServerState.History.{
  client_event, removes_monitoring, removes_acquisition, removes_operational, removes,
  step as server_step, step-IsWellFormed,
}
use multi_daq.Replies.Handler.{ReplyHandler}
use multi_daq.Replies.Waiters.{cancel_of, step as reply_step}
use multi_daq.Replies.Guarantees.{IsOrderly, step-IsOrderly}
use multi_daq.Liveness.Service.{
  Plane, control, acquisition, monitoring, plane_value, plane_named, Liveness, handle_client_lost,
  handle_loss, drop_client, remove_from_every_plane, notify_listeners, cancel_on, reported,
  note_loss, handle_client_plane_connected, greet, announce, is_complete, register_listener,
  begin_connect, end_connect,
}
use multi_daq.Liveness.Reports.{
  Call, loses, connects, listens, begins, ends, server, reply, step, run,
}

-- The state of the server is well formed, and so are the waiters of each manager.
pub record IsKept (s : Liveness) : Type 0 where
  pub well_formed : IsWellFormed s.state
  pub on_control : IsOrderly s.control_replies
  pub on_acquisition : IsOrderly s.acquisition_replies
  pub on_monitoring : IsOrderly s.monitoring_replies

-- Where only the rest of the state differs.
same_parts :
    (s t : Liveness)
    → IsKept s
    → t ≡ record t {
      state = s.state;
      control_replies = s.control_replies;
      acquisition_replies = s.acquisition_replies;
      monitoring_replies = s.monitoring_replies;
    }
    → IsKept t
same_parts s t v e = subst IsKept (sym e) (record {
  well_formed = v.well_formed;
  on_control = v.on_control;
  on_acquisition = v.on_acquisition;
  on_monitoring = v.on_monitoring;
})

if-IsWellFormed :
    (b : Bool) (s t : ServerState)
    → IsWellFormed s
    → IsWellFormed t
    → IsWellFormed (if b then s else t)
if-IsWellFormed true s t v w = v
if-IsWellFormed false s t v w = w

remove_from_every_plane-IsWellFormed :
    (k : ClientId) (s : ServerState) → IsWellFormed s → IsWellFormed (remove_from_every_plane k s)
unfolding remove_from_every_plane server_step
remove_from_every_plane-IsWellFormed k s w =
    let s1 = if is_client_on_plane s k "monitoring" then remove_monitoring_client k s else s in
    let w1 =
      if-IsWellFormed (is_client_on_plane s k "monitoring") (remove_monitoring_client k s) s
        (step-IsWellFormed s w (removes_monitoring k)) w in
    let s2 = if is_client_on_plane s1 k "acquisition" then remove_acquisition_client k s1 else s1 in
    let w2 =
      if-IsWellFormed (is_client_on_plane s1 k "acquisition") (remove_acquisition_client k s1) s1
        (step-IsWellFormed s1 w1 (removes_acquisition k)) w1 in
    step-IsWellFormed (remove_operational_client k s2)
      (step-IsWellFormed s2 w2 (removes_operational k)) (removes k)

cancel_on-IsOrderly :
    (p : Plane) (k : ClientId) (h : ReplyHandler) → IsOrderly h → IsOrderly (cancel_on p k h)
unfolding cancel_on reply_step
cancel_on-IsOrderly p k h o = step-IsOrderly h (cancel_of k _) o

drop_client-IsKept :
    (p : Plane) (b : Bool) (k : ClientId) (now : ℕ) (s : Liveness)
    → IsKept s
    → IsKept (drop_client p b k now s)
unfolding drop_client server_step
drop_client-IsKept control b k now s v = record {
  well_formed = remove_from_every_plane-IsWellFormed k s.state v.well_formed;
  on_control = cancel_on-IsOrderly control k s.control_replies v.on_control;
  on_acquisition = cancel_on-IsOrderly acquisition k s.acquisition_replies v.on_acquisition;
  on_monitoring = cancel_on-IsOrderly monitoring k s.monitoring_replies v.on_monitoring;
}
drop_client-IsKept acquisition b k now s v = record {
  well_formed =
      step-IsWellFormed _ (step-IsWellFormed s.state v.well_formed (client_event _))
        (removes_acquisition k);
  on_control = v.on_control;
  on_acquisition = cancel_on-IsOrderly acquisition k s.acquisition_replies v.on_acquisition;
  on_monitoring = v.on_monitoring;
}
drop_client-IsKept monitoring b k now s v = record {
  well_formed = step-IsWellFormed s.state v.well_formed (removes_monitoring k);
  on_control = v.on_control;
  on_acquisition = v.on_acquisition;
  on_monitoring = cancel_on-IsOrderly monitoring k s.monitoring_replies v.on_monitoring;
}

handle_loss-IsKept :
    (p : Plane) (k : ClientId) (now : ℕ) (s : Liveness)
    → IsKept s
    → IsKept (handle_loss p k now s).0
unfolding notify_listeners
handle_loss-IsKept p k now s v = elim (Bool-cases (is_client_on_plane s.state k (plane_value p))) [
  | inl e ↦ rw e (same_parts _ _ dropped refl)
  | inr e ↦ rw e (same_parts s before v refl)
]
  where
    before : Liveness
    before = record s { loss_reported = note_loss (k, p) s.loss_reported }

    dropped : IsKept (drop_client p (reported (k, p) s.loss_reported) k now before)
    dropped =
        drop_client-IsKept p (reported (k, p) s.loss_reported) k now before
          (same_parts s before v refl)

greet-IsKept : (k : ClientId) (s : Liveness) → IsKept s → IsKept (greet k s).0
greet-IsKept k s v =
    elim (Bool-cases (not (is_complete k s.state) || contains k s.client_announced)) [
      | inl e ↦ rw e v
      | inr e ↦ rw e (same_parts s (announce k s) v refl)
    ]

lost-IsKept :
    (k : ClientId) (plane : String) (now : ℕ) (s : Liveness)
    → IsKept s
    → IsKept (handle_client_lost k plane now s).0
unfolding handle_client_lost
lost-IsKept k plane now s v = elim (Option-cases (plane_named plane)) [
  | inl e ↦ rw (e, handle_client_lost) v
  | inr (p, e) ↦ rw (e, handle_client_lost) (handle_loss-IsKept p k now s v)
]

connected-IsKept :
    (k : ClientId) (plane : String) (s : Liveness)
    → IsKept s
    → IsKept (handle_client_plane_connected k plane s).0
unfolding handle_client_plane_connected
connected-IsKept k plane s v = elim (Option-cases (plane_named plane)) [
  | inl e ↦ rw (e, handle_client_plane_connected) v
  | inr (p, e) ↦ rw (e, handle_client_plane_connected) (greet-IsKept k s v)
]

step-IsKept : (s : Liveness) (c : Call) → IsKept s → IsKept (step s c)
unfolding step register_listener begin_connect end_connect
step-IsKept s (loses k plane now) v = lost-IsKept k plane now s v
step-IsKept s (connects k plane) v = connected-IsKept k plane s v
step-IsKept s (listens f) v = elim (Bool-cases (contains f s.listeners)) [
  | inl e ↦ rw e v
  | inr e ↦ rw e (same_parts s (record s { listeners = s.listeners ++ f ∷ [] }) v refl)
]
step-IsKept s begins v = same_parts s (begin_connect s) v refl
step-IsKept s ends v = same_parts s (end_connect s) v refl
step-IsKept s (server c) v = record {
  well_formed = step-IsWellFormed s.state v.well_formed c;
  on_control = v.on_control;
  on_acquisition = v.on_acquisition;
  on_monitoring = v.on_monitoring;
}
step-IsKept s (reply p c) v = by_plane p
  where
    by_plane : (p : Plane) → IsKept (step s (reply p c))
    by_plane control = record {
      well_formed = v.well_formed;
      on_control = step-IsOrderly s.control_replies c v.on_control;
      on_acquisition = v.on_acquisition;
      on_monitoring = v.on_monitoring;
    }
    by_plane acquisition = record {
      well_formed = v.well_formed;
      on_control = v.on_control;
      on_acquisition = step-IsOrderly s.acquisition_replies c v.on_acquisition;
      on_monitoring = v.on_monitoring;
    }
    by_plane monitoring = record {
      well_formed = v.well_formed;
      on_control = v.on_control;
      on_acquisition = v.on_acquisition;
      on_monitoring = step-IsOrderly s.monitoring_replies c v.on_monitoring;
    }

pub run-IsKept : (s : Liveness) (cs : List Call) → IsKept s → IsKept (run s cs)
unfolding run
run-IsKept s [] v = v
run-IsKept s (c ∷ cs) v = run-IsKept (step s c) cs (step-IsKept s c v)
