-- ===== src/ServerState/History.antt =====
-- Every sequence of calls of the methods of ServerState, from its construction on. A call that
-- raises leaves the state as it was.
mod Calls
pub mod Effects
use multi_daq.Prelude.{
  true, false, Option, none, some, ℕ, String, List, [], ◌∷◌, ◌≡◌, refl, ◌⊎◌, inl, inr, arith,
  eq_iff, is_some, not, ◌||◌, all_in, dedup, Bool-cases, Option-cases,
}
use text.Mathlib.Text.{◌==◌ as str_eq}
use multi_daq.Prelude.Text.{spells}
use multi_daq.Prelude.Dict.{Dict, find, insert, modify}
use multi_daq.Prelude.Dict.Laws.{
  Distinct, find-insert, find-modify, find-erase, insert-Distinct, modify-Distinct, erase-Distinct,
}
use multi_daq.ServerState.Fsm.{ClientFsm}
use multi_daq.ServerState.Records.{
  ClientId, HvParameters, Identity, ClientRecord, Clients, ServerState, init, new_record,
  common_ids,
}
use multi_daq.ServerState.Event.{Request, process_event}
use multi_daq.ServerState.Methods.{
  note_mac, forget_mac, mac_of, registered_mac, identity_of, set_mode, ClientRequest, client_moved,
  client_target, process_client_event, reset_to_disconnected, clear_pending_transition, on_control,
  identified, add_control_client, remove_acquisition_client, clear_acquisition,
  clear_acquisition_clients, add_acquisition_client, is_on_control, add_monitoring_client,
  remove_monitoring_client, clear_monitoring_clients, remove_client, set_operational_clients,
  remove_operational_client, clear_operational_clients, set_client_hv_parameters,
  set_calibration_excluded_channels, set_configuration_identity,
}
use multi_daq.ServerState.Clients.{
  IsRegistry, Keeps, modify-IsRegistry, update_where-IsRegistry, clear_operational-IsRegistry,
  set_operational-IsRegistry, with_operational-false, common_client,
}
use multi_daq.ServerState.Invariant.{IsWellFormed, process_event-IsWellFormed}
unfoldable pub use Calls.*
use Effects.*

module _ (s : ServerState) (w : IsWellFormed s) where
  with_clients : {m : Clients} → IsRegistry m → IsWellFormed (record s { clients = m })
  with_clients h = record {
    registry = h;
    pending = w.pending;
    allowed = w.allowed;
    source = w.source;
    macs = w.macs;
  }

  modified :
      (k : ClientId) (f : ClientRecord → ClientRecord)
      → Keeps f
      → IsWellFormed (record s { clients = modify k f s.clients })
  modified k f kf = with_clients (modify-IsRegistry w.registry k f kf)

  added_new :
      (k : ClientId) (identity : Option Identity) (now : ℕ)
      → str_eq k "" ≡ false
      → IsRegistry
          (modify k (λ r. identified identity (on_control r)) (insert k (new_record now) s.clients))
  unfolding new_record
  added_new k identity now full = record {
    distinct = modify-Distinct k _ _ (insert-Distinct k _ _ w.registry.distinct);
    named = ground (
      arith,
      find-modify "" k (λ r. identified identity (on_control r))
          (insert k (new_record now) s.clients),
      find-insert "" k (new_record now) s.clients,
      w.registry.named,
      eq_iff k "",
    );
    admitted = λ j r e. ground (
      arith,
      find-modify j k (λ r. identified identity (on_control r))
          (insert k (new_record now) s.clients),
      find-insert j k (new_record now) s.clients,
      eq_iff k j,
      w.registry.admitted j r,
    );
  }

  step_client_event : (q : ClientRequest) → IsWellFormed (process_client_event s q).0
  step_client_event q = elim (process_client_event_cases s q) [
    | inl e ↦ rw e w
    | inr (next, _, e) ↦
        rw e (modified q.client_id (client_moved q next) (client_moved-Keeps q next))
  ]

  step_reset :
      (reason source : String) (now : ℕ) → IsWellFormed (reset_to_disconnected reason source now s)
  unfolding reset_to_disconnected
  step_reset reason source now = record {
    registry = clear_operational-IsRegistry w.registry;
    pending = inr refl;
    allowed = refl;
    source = w.source;
    macs = w.macs;
  }

  step_pending : IsWellFormed (clear_pending_transition s)
  unfolding clear_pending_transition
  step_pending = record {
    registry = w.registry;
    pending = inr refl;
    allowed = refl;
    source = w.source;
    macs = w.macs;
  }

  step_add_control :
      (k : ClientId) (identity : Option Identity) (now : ℕ)
      → IsWellFormed (or_same s (add_control_client k identity now s))
  unfolding add_control_client
  step_add_control k identity now = elim (Bool-cases (str_eq k "")) [
    | inl e ↦ rw e w
    | inr e ↦ rw e (record {
      registry = elim (Bool-cases (is_some (find k s.clients))) [
        | inl known ↦ rw known (modify-IsRegistry w.registry k _ (identified-Keeps identity))
        | inr new ↦ rw new (added_new k identity now e)
      ];
      pending = w.pending;
      allowed = w.allowed;
      source = w.source;
      macs = note_mac-Distinct (mac_of identity) k _ w.macs;
    })
  ]

  step_remove : (k : ClientId) → IsWellFormed (remove_client k s)
  unfolding remove_client
  step_remove k = record {
    registry = record {
      distinct = erase-Distinct k s.clients w.registry.distinct;
      named = ground (arith, find-erase "" k s.clients w.registry.distinct, w.registry.named);
      admitted = λ j r e.
          ground (arith, find-erase j k s.clients w.registry.distinct, w.registry.admitted j r);
    };
    pending = w.pending;
    allowed = w.allowed;
    source = w.source;
    macs = forget_mac-Distinct (registered_mac (identity_of (find k s.clients))) k _ w.macs;
  }

  step_operational : (ks : List ClientId) → IsWellFormed (or_same s (set_operational_clients ks s))
  unfolding set_operational_clients
  step_operational ks = elim (Bool-cases (all_in (dedup ks) (common_ids s.clients))) [
    | inl sub ↦ rw sub (
        with_clients (
          set_operational-IsRegistry (dedup ks) w.registry (λ k r c e.
            ground (arith, common_client k (dedup ks) s.clients r w.registry.distinct sub c e))))
    | inr e ↦ rw e w
  ]

  step_mode : (mode : String) → IsWellFormed (or_same s (set_mode mode s))
  step_mode mode = elim (set_mode_cases mode s) [
    | inl e ↦ rw e w
    | inr (m, e) ↦ rw e (record {
      registry = w.registry;
      pending = w.pending;
      allowed = w.allowed;
      source = w.source;
      macs = w.macs;
    })
  ]

  step_add_acquisition : (k : ClientId) → IsWellFormed (or_same s (add_acquisition_client k s))
  unfolding add_acquisition_client
  step_add_acquisition k = elim (Bool-cases (str_eq k "" || not (is_on_control k s))) [
    | inl e ↦ rw e w
    | inr e ↦ rw e (modified k _ (λ r a. (a.0, inr refl)))
  ]

  step_add_monitoring : (k : ClientId) → IsWellFormed (or_same s (add_monitoring_client k s))
  unfolding add_monitoring_client
  step_add_monitoring k = elim (Bool-cases (str_eq k "" || not (is_on_control k s))) [
    | inl e ↦ rw e w
    | inr e ↦ rw e (modified k _ (λ r a. a))
  ]

  step_identity :
      (k : ClientId) (m b : String) → IsWellFormed (set_configuration_identity k m b s).0
  unfolding set_configuration_identity
  step_identity k m b =
      elim (Bool-cases (str_eq m "" || str_eq b "" || not (is_some (find k s.clients)))) [
        | inl e ↦ rw e w
        | inr e ↦ rw e (modified k _ (λ r a. a))
      ]

  -- One call of any method keeps the state well formed.
  pub step-IsWellFormed : (c : Call) → IsWellFormed (step s c)
  unfolding step
  step-IsWellFormed (changes_mode mode) = step_mode mode
  step-IsWellFormed (event q) = process_event-IsWellFormed s q w
  step-IsWellFormed (client_event q) = step_client_event q
  step-IsWellFormed (resets reason source now) = step_reset reason source now
  step-IsWellFormed clears_pending = step_pending
  step-IsWellFormed (adds_control k identity now) = step_add_control k identity now
  step-IsWellFormed (adds_acquisition k) = step_add_acquisition k
  step-IsWellFormed (removes_acquisition k) =
      unfold remove_acquisition_client in modified k _ (λ r a. (a.0, inl refl))
  step-IsWellFormed clears_acquisition =
      unfold clear_acquisition_clients in
      with_clients (update_where-IsRegistry w.registry _ _ clear_acquisition-Keeps)
  step-IsWellFormed (adds_monitoring k) = step_add_monitoring k
  step-IsWellFormed (removes_monitoring k) =
      unfold remove_monitoring_client in modified k _ (λ r a. a)
  step-IsWellFormed clears_monitoring =
      unfold clear_monitoring_clients in
      with_clients (update_where-IsRegistry w.registry _ _ (λ r a. a))
  step-IsWellFormed (removes k) = step_remove k
  step-IsWellFormed (sets_operational ks) = step_operational ks
  step-IsWellFormed (removes_operational k) =
      unfold remove_operational_client in modified k _ with_operational-false
  step-IsWellFormed clears_operational =
      unfold clear_operational_clients in with_clients (clear_operational-IsRegistry w.registry)
  step-IsWellFormed (sets_parameters k info) =
      unfold set_client_hv_parameters in modified k _ (λ r a. a)
  step-IsWellFormed (sets_excluded k channels) =
      unfold set_calibration_excluded_channels in modified k _ (λ r a. a)
  step-IsWellFormed (sets_identity k m b) = step_identity k m b

pub init-IsWellFormed : (mode : String) → IsWellFormed (init mode)
unfolding init find
init-IsWellFormed mode = record {
  registry = record { distinct = tt; named = refl; admitted = λ k r e. cc };
  pending = inr refl;
  allowed = refl;
  source = refl;
  macs = tt;
}

pub run_keeps : (s : ServerState) (cs : List Call) → IsWellFormed s → IsWellFormed (run s cs)
unfolding run
run_keeps s [] w = w
run_keeps s (c ∷ cs) w = run_keeps (step s c) cs (step-IsWellFormed s w c)

-- Whatever methods are called, in whatever order and with whatever arguments: client ids stay
-- unique and not empty, the MAC addresses of the index stay unique, every registered client is on
-- the control plane, operational clients are on the acquisition plane too, a terminal
-- state pends only during a finalization and is one that may follow it, and the source of a
-- configuration is CONNECTED or READY.
pub run-IsWellFormed : (mode : String) (cs : List Call) → IsWellFormed (run (init mode) cs)
run-IsWellFormed mode cs = run_keeps (init mode) cs (init-IsWellFormed mode)
