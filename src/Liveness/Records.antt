-- ===== src/Liveness/Records.antt =====
-- The records of the clients after a loss (server/services/client_liveness_service.py).
use multi_daq.ServerState.Fsm.{ClientFsm}
use multi_daq.Prelude.{
  sym, Bool, true, false, Option, none, some, ℕ, ◌≡◌, refl, ap, ◌∙◌, arith, if◌then◌else◌, str_eq,
  eq_iff, Option-cases, inl, inr,
}
use multi_daq.Prelude.Text.{spells, lower_is, strip}
use multi_daq.Prelude.Dict.{find, modify}
use multi_daq.Prelude.Dict.Laws.{Distinct, find-modify, find-erase, modify-Distinct, change, holds}
use multi_daq.ServerState.Records.{ClientId, ClientRecord, Clients, ServerState, with_operational}
use multi_daq.ServerState.Queries.{is_client_on_plane, operational_at}
use multi_daq.ServerState.Methods.{
  ClientRequest, off_acquisition, process_client_event, client_moved, client_target,
  remove_acquisition_client, remove_monitoring_client, remove_client, remove_operational_client,
}
use multi_daq.ServerState.History.Effects.{process_client_event_cases}
use multi_daq.Liveness.Service.{
  Plane, control, acquisition, monitoring, plane_value, Liveness, drop_client,
  remove_from_every_plane, same_plane,
}

-- The planes of a record.
abbrev pub registered : Plane → ClientRecord → Bool
registered control r = r.on_control_plane
registered acquisition r = r.on_acquisition_plane
registered monitoring r = r.on_monitoring_plane

-- A client that is registered on a plane.
abbrev pub on_plane : Plane → Option ClientRecord → Bool
on_plane p none = false
on_plane p (some r) = registered p r

pub is_client_on_plane-on_plane :
    (s : ServerState) (k : ClientId) (p : Plane)
    → is_client_on_plane s k (plane_value p) ≡ on_plane p (find k s.clients)
unfolding is_client_on_plane plane_value spells lower_is strip
is_client_on_plane-on_plane s k p = by_plane p (find k s.clients)
  where
    by_plane :
        (p : Plane) (o : Option ClientRecord)
        → elim o [
          | none ↦ false
          | some r ↦
              if spells "control" (plane_value p)
              then r.on_control_plane
              else if spells "acquisition" (plane_value p)
              then r.on_acquisition_plane
              else if spells "monitoring" (plane_value p)
              then r.on_monitoring_plane
              else false
        ]
          ≡ on_plane p o
    by_plane p none = refl
    by_plane control (some r) = refl
    by_plane acquisition (some r) = refl
    by_plane monitoring (some r) = refl

-- The state of the server after the part for each plane.
abbrev pub state_of : Plane → ClientId → ℕ → Liveness → ServerState
state_of p k now s = (drop_client p false k now s).state

find-modified :
    (k : ClientId) (f : ClientRecord → ClientRecord) (m : Clients)
    → find k (modify k f m) ≡ change f (find k m)
find-modified k f m = ground (arith, find-modify k k f m, eq_iff k k)

-- What is left of the client, and that the others are untouched.
pub record Dropped (p : Plane) (k : ClientId) (m n : Clients) : Type 0 where
  pub gone : on_plane p (find k n) ≡ false
  pub everywhere : same_plane p control ≡ true → find k n ≡ none
  pub elsewhere :
      (q : Plane)
      → same_plane p control ≡ false
      → same_plane p q ≡ false
      → on_plane q (find k n) ≡ on_plane q (find k m)
  pub idle : same_plane p monitoring ≡ false → operational_at k n ≡ false
  pub others : (j : ClientId) → str_eq k j ≡ false → find j n ≡ find j m

-- A client that leaves one plane.
left_plane :
    (k : ClientId) (f : ClientRecord → ClientRecord) (p : Plane) (m : Clients)
    → ((r : ClientRecord) → registered p (f r) ≡ false)
    → (on_plane p (find k (modify k f m)) ≡ false)
      × ((j : ClientId) → str_eq k j ≡ false → find j (modify k f m) ≡ find j m)
left_plane k f p m h = (
  ap (on_plane p) (find-modified k f m) ∙ changed (find k m),
  λ j e. ground (arith, find-modify j k f m, e),
)
  where
    changed : (o : Option ClientRecord) → on_plane p (change f o) ≡ false
    changed none = refl
    changed (some r) = h r

-- A change of the record that keeps its registration on a plane.
kept_plane :
    (k : ClientId) (f : ClientRecord → ClientRecord) (q : Plane) (m : Clients)
    → ((r : ClientRecord) → registered q (f r) ≡ registered q r)
    → on_plane q (find k (modify k f m)) ≡ on_plane q (find k m)
kept_plane k f q m h = ap (on_plane q) (find-modified k f m) ∙ kept (find k m)
  where
    kept : (o : Option ClientRecord) → on_plane q (change f o) ≡ on_plane q o
    kept none = refl
    kept (some r) = h r

pub monitoring-Dropped :
    (k : ClientId) (s : ServerState)
    → Dropped monitoring k s.clients (remove_monitoring_client k s).clients
unfolding remove_monitoring_client same_plane
monitoring-Dropped k s =
    let left =
      left_plane k (λ r. record r { on_monitoring_plane = false }) monitoring s.clients
        (λ r. refl) in
    record {
      gone = left.0;
      elsewhere = λ q c e.
          kept_plane k (λ r. record r { on_monitoring_plane = false }) q s.clients
            (λ r. untouched q r e);
      everywhere = λ e. ground (arith, e);
      idle = λ e. ground (arith, e);
      others = left.1;
    }
  where
    untouched :
        (q : Plane) (r : ClientRecord)
        → same_plane monitoring q ≡ false
        → registered q (record r { on_monitoring_plane = false }) ≡ registered q r
    untouched control r e = refl
    untouched acquisition r e = refl
    untouched monitoring r e = ground (arith, e)

-- The event of the client keeps its planes.
moved_planes :
    (s : ServerState) (q : ClientRequest) (p : Plane)
    → on_plane p (find q.client_id (process_client_event s q).0.clients)
      ≡ on_plane p (find q.client_id s.clients)
unfolding client_moved
moved_planes s q p = elim (process_client_event_cases s q) [
  | inl e ↦ ap (λ x. on_plane p (find q.client_id (x.0).clients)) e
  | inr (next, _, e) ↦
      ap (λ x. on_plane p (find q.client_id (x.0).clients)) e
      ∙ kept_plane q.client_id (client_moved q next) p s.clients (λ r. same_planes p r next)
]
  where
    same_planes :
        (p : Plane) (r : ClientRecord) (next : ClientFsm)
        → registered p (client_moved q next r) ≡ registered p r
    same_planes control r next = refl
    same_planes acquisition r next = refl
    same_planes monitoring r next = refl

-- The event of the client changes at most its own record.
moved_others :
    (s : ServerState) (q : ClientRequest) (j : ClientId)
    → str_eq q.client_id j ≡ false
    → find j (process_client_event s q).0.clients ≡ find j s.clients
unfolding process_client_event
moved_others s q j h = elim (Option-cases (client_target s q)) [
  | inl e ↦ ground (arith, e)
  | inr (next, e) ↦ ground (arith, e, find-modify j q.client_id (client_moved q next) s.clients, h)
]

pub acquisition-Dropped :
    (k : ClientId) (s : ServerState) (q : ClientRequest)
    → q.client_id ≡ k
    → Dropped acquisition k s.clients
        (remove_acquisition_client k (process_client_event s q).0).clients
unfolding remove_acquisition_client same_plane
acquisition-Dropped k s q e =
    let m = (process_client_event s q).0.clients in
    let left = left_plane k off_acquisition acquisition m (λ r. refl) in
    record {
      gone = left.0;
      elsewhere = λ p c h.
          kept_plane k off_acquisition p m (λ r. untouched p r h)
          ∙ ap (λ x. on_plane p (find x m)) (sym e)
          ∙ moved_planes s q p
          ∙ ap (λ x. on_plane p (find x s.clients)) e;
      everywhere = λ h. ground (arith, h);
      idle = λ h.
          ap (holds (λ r. r.operational)) (find-modified k off_acquisition m)
          ∙ off_changed (find k m);
      others = λ j h. left.1 j h ∙ moved_others s q j (ap (λ x. str_eq x j) e ∙ h);
    }
  where
    untouched :
        (p : Plane) (r : ClientRecord)
        → same_plane acquisition p ≡ false
        → registered p (off_acquisition r) ≡ registered p r
    untouched control r h = refl
    untouched acquisition r h = ground (arith, h)
    untouched monitoring r h = refl

    off_changed :
        (o : Option ClientRecord) → holds (λ r. r.operational) (change off_acquisition o) ≡ false
    off_changed none = refl
    off_changed (some r) = refl

-- What a removal from one plane keeps, made or not.
record Keeps (k : ClientId) (s t : ServerState) : Type 0 where
  distinct : Distinct t.clients
  others : (j : ClientId) → str_eq k j ≡ false → find j t.clients ≡ find j s.clients

kept_if :
    (b : Bool) (k : ClientId) (f : ClientRecord → ClientRecord) (s : ServerState)
    → Distinct s.clients
    → Keeps k s (if b then record s { clients = modify k f s.clients } else s)
kept_if true k f s d = record {
  distinct = modify-Distinct k f s.clients d;
  others = λ j h. ground (arith, find-modify j k f s.clients, h);
}
kept_if false k f s d = record { distinct = d; others = λ j h. refl }

erased :
    (k : ClientId) (s : ServerState)
    → Distinct s.clients
    → (find k (remove_client k (remove_operational_client k s)).clients ≡ none)
      × ((j : ClientId)
          → str_eq k j ≡ false
          → find j (remove_client k (remove_operational_client k s)).clients ≡ find j s.clients)
unfolding remove_client remove_operational_client
erased k s d =
    let m = modify k (with_operational false) s.clients in
    let distinct = modify-Distinct k (with_operational false) s.clients d in
    (
      ground (arith, find-erase k k m distinct, eq_iff k k),
      λ j h.
          ground (
            arith,
            find-erase j k m distinct,
            find-modify j k (with_operational false) s.clients,
            h,
          ),
    )

pub control-Dropped :
    (k : ClientId) (s : ServerState)
    → Distinct s.clients
    → Dropped control k s.clients (remove_from_every_plane k s).clients
unfolding remove_from_every_plane remove_monitoring_client remove_acquisition_client same_plane
control-Dropped k s d =
    let b1 = is_client_on_plane s k "monitoring" in
    let first = kept_if b1 k (λ r. record r { on_monitoring_plane = false }) s d in
    let s1 = if b1 then remove_monitoring_client k s else s in
    let b2 = is_client_on_plane s1 k "acquisition" in
    let second = kept_if b2 k off_acquisition s1 first.distinct in
    let last = erased k (if b2 then remove_acquisition_client k s1 else s1) second.distinct in
    record {
      gone = ap (on_plane control) last.0;
      elsewhere = λ q c h. ground (arith, c);
      everywhere = λ h. last.0;
      idle = λ h. ap (holds (λ r. r.operational)) last.0;
      others = λ j h. last.1 j h ∙ second.others j h ∙ first.others j h;
    }
