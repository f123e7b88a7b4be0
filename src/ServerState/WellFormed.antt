-- ===== src/ServerState/WellFormed.antt =====
-- `process_event` keeps the registry well formed, whatever the event and its metadata.
use multi_daq.Prelude.{
  if◌then◌else◌, Bool, true, false, some, List, [], ◌∷◌, ◌≡◌, inl, inr, arith, contains, eq_iff,
  all_in, Option-cases,
}
use multi_daq.Prelude.Dict.{find}
use multi_daq.Prelude.Dict.Laws.{contains-keys_where}
use multi_daq.ServerState.Fsm.{ServerFsm, ServerFsmEvent}
use multi_daq.ServerState.Records.{
  ClientId, EventContext, ClientRecord, Clients, ServerState, common_ids, operational_ids,
}
use multi_daq.ServerState.Event.{
  begin_configuring, configured_clients, unconfigured_clients, acquiring_clients, all_ready,
  admit_successful, fail_all, dismiss, dismiss_all, settle, other_event, apply_event,
}
use mathlib.Core.Path.{subst}
use mathlib.Core.Option.{some-injective}
use multi_daq.ServerState.Inversion.{
  start_configuration_inv, succeed_configuration_inv, fail_configuration_inv, start_acquisition_inv,
}
use multi_daq.ServerState.Clients.{
  IsRegistry, common_client, clear_operational-IsRegistry, exclude-IsRegistry,
  set_client_state-IsRegistry, set_client_states-IsRegistry, set_operational-IsRegistry,
  include-IsRegistry, modify-IsRegistry, with_operational-false,
}

ready_client :
    (k : ClientId) (ks : List ClientId) (m : Clients) (r : ClientRecord)
    → all_ready m ks ≡ true
    → contains k ks ≡ true
    → find k m ≡ some r
    → contains k (operational_ids m) ≡ true
unfolding all_ready contains
ready_client k [] m r a c e = cc
ready_client k (j ∷ ks) m r a c e = ground (arith, ready_client k ks m r, eq_iff j k)

dismiss-IsRegistry :
    (t : ServerFsm) (ctx : EventContext) (k : ClientId) {m : Clients}
    → IsRegistry m
    → IsRegistry (dismiss t ctx k m)
unfolding dismiss
dismiss-IsRegistry t ctx k {m} h = elim (Option-cases (find k m)) [
  | inl e ↦ rw (e, dismiss) h
  | inr (r, e) ↦
      rw (e, dismiss)
        (set_client_state-IsRegistry _ ctx k (modify-IsRegistry h k _ with_operational-false))
]

dismiss_all-IsRegistry :
    (t : ServerFsm) (ctx : EventContext) (ks : List ClientId) {m : Clients}
    → IsRegistry m
    → IsRegistry (dismiss_all t ctx ks m)
unfolding dismiss_all
dismiss_all-IsRegistry t ctx [] h = h
dismiss_all-IsRegistry t ctx (k ∷ ks) h =
    dismiss_all-IsRegistry t ctx ks (dismiss-IsRegistry t ctx k h)

settle-IsRegistry :
    (t : ServerFsm) (ctx : EventContext) {m : Clients} → IsRegistry m → IsRegistry (settle t ctx m)
unfolding settle
settle-IsRegistry ServerFsm.ready ctx h = set_client_states-IsRegistry _ ctx _ h
settle-IsRegistry ServerFsm.acquiring ctx h = h
settle-IsRegistry ServerFsm.configuring ctx h = h
settle-IsRegistry ServerFsm.finalizing ctx h = h
settle-IsRegistry t ctx {m} h = dismiss_all-IsRegistry t ctx (operational_ids m) h

-- A choice between two registries.
if-IsRegistry :
    (b : Bool) {m n : Clients} → IsRegistry m → IsRegistry n → IsRegistry (if b then m else n)
if-IsRegistry true hm hn = hm
if-IsRegistry false hm hn = hn

module _ (s : ServerState) (ctx : EventContext) (h : IsRegistry s.clients) where
  other_event-IsRegistry :
      (e : ServerFsmEvent) (next : ServerFsm) → IsRegistry (other_event s e ctx next)
  unfolding other_event
  other_event-IsRegistry e next =
      if-IsRegistry _ (set_client_states-IsRegistry _ ctx _ h)
        (if-IsRegistry _ (settle-IsRegistry _ ctx h) h)

  begin_configuring-IsRegistry :
      (targets : List ClientId) → IsRegistry (begin_configuring s ctx targets)
  unfolding begin_configuring
  begin_configuring-IsRegistry targets =
      set_client_states-IsRegistry _ ctx targets
        (if-IsRegistry _ (exclude-IsRegistry _ h) (clear_operational-IsRegistry h))

  unconfigured_clients-IsRegistry :
      (failed : List ClientId) → IsRegistry (unconfigured_clients s ctx failed)
  unfolding unconfigured_clients
  unconfigured_clients-IsRegistry failed =
      set_client_states-IsRegistry _ ctx failed
        (if-IsRegistry _ (exclude-IsRegistry _ h) (clear_operational-IsRegistry h))

  configured_clients-IsRegistry :
      (successful failed : List ClientId)
      → all_in successful (common_ids s.clients) ≡ true
      → IsRegistry (configured_clients s ctx successful failed)
  unfolding configured_clients admit_successful
  configured_clients-IsRegistry successful failed sub = set_client_states-IsRegistry _ ctx failed (
      set_client_states-IsRegistry _ ctx successful (
        if-IsRegistry _ (include-IsRegistry successful h may)
          (set_operational-IsRegistry successful h may)))
    where
      may :
          (k : ClientId) (r : ClientRecord)
          → contains k successful ≡ true
          → find k s.clients ≡ some r
          → r.on_acquisition_plane ≡ true
      may k r c e = ground (arith, common_client k successful s.clients r h.distinct sub c e)

  acquiring_clients-IsRegistry :
      (active : List ClientId)
      → all_ready s.clients active ≡ true
      → IsRegistry (acquiring_clients s ctx active)
  unfolding acquiring_clients
  acquiring_clients-IsRegistry active ready =
      set_client_states-IsRegistry _ ctx active (set_operational-IsRegistry active h may)
    where
      may :
          (k : ClientId) (r : ClientRecord)
          → contains k active ≡ true
          → find k s.clients ≡ some r
          → r.on_acquisition_plane ≡ true
      may k r c e = ground (
        arith,
        ready_client k active s.clients r ready c e,
        contains-keys_where k (λ r. r.operational) s.clients h.distinct,
        h.admitted k r e,
      )

  -- Whatever branch an event takes, the clients that it leaves form a registry.
  pub apply_event-IsRegistry :
      (e : ServerFsmEvent) (next : ServerFsm) {t : ServerState}
      → apply_event s e ctx next ≡ some t
      → IsRegistry t.clients
  unfolding apply_event fail_all
  apply_event-IsRegistry ServerFsmEvent.configuration_started next eq =
      let (targets, _, _, _, p) = start_configuration_inv s ctx eq in
      rw p (begin_configuring-IsRegistry targets)
  apply_event-IsRegistry ServerFsmEvent.configuration_succeeded next eq =
      let (successful, failed, _, _, _, _, _, sub, p) = succeed_configuration_inv s ctx eq in
      rw p (configured_clients-IsRegistry successful failed sub)
  apply_event-IsRegistry ServerFsmEvent.configuration_failed next eq =
      let (failed, _, _, p) = fail_configuration_inv s ctx eq in
      rw p (unconfigured_clients-IsRegistry failed)
  apply_event-IsRegistry ServerFsmEvent.acquisition_started next eq =
      let (active, _, _, ready, p) = start_acquisition_inv s ctx eq in
      rw p (acquiring_clients-IsRegistry active ready)
  apply_event-IsRegistry ServerFsmEvent.fatal_error next eq =
      subst (λ x. IsRegistry x.clients) (some-injective _ _ eq)
        (clear_operational-IsRegistry (set_client_states-IsRegistry _ ctx _ h))
  apply_event-IsRegistry e next eq =
      subst (λ x. IsRegistry x.clients) (some-injective _ _ eq) (other_event-IsRegistry e next)
