-- ===== src/ServerState/Modes.antt =====
-- The acquisition mode over the calls of ServerState, and the commands that it guards
-- (server/core/server_state.py; the decorators as server/commands/acq_commands.py stacks them).
use multi_daq.Prelude.{
  Option, none, some, String, List, [], ◌∷◌, ◌≡◌, refl, ◌∙◌, ap, inl, inr, arith, if◌then◌else◌,
  Option-cases, get_or,
}
use multi_daq.Prelude.Text.{spells}
use multi_daq.ServerState.Fsm.{AcquisitionMode, ServerFsm, ServerFsmEvent, transition}
use multi_daq.ServerState.Records.{EventContext, ServerState, init}
use multi_daq.ServerState.Event.{
  Request, Pending, start, drop_lost, process_event, advance, finish, set_pending, apply_event,
  commit, resolve_next, start_configuration, succeed_configuration, fail_configuration,
  start_acquisition,
}
use multi_daq.ServerState.Methods.{
  set_mode, process_client_event, reset_to_disconnected, clear_pending_transition,
  add_control_client, remove_acquisition_client, clear_acquisition_clients, add_acquisition_client,
  add_monitoring_client, remove_monitoring_client, clear_monitoring_clients, remove_client,
  set_operational_clients, remove_operational_client, clear_operational_clients,
  set_client_hv_parameters, set_calibration_excluded_channels, set_configuration_identity,
}
use multi_daq.ServerState.History.{
  Call, changes_mode, event, client_event, resets, clears_pending, adds_control, adds_acquisition,
  removes_acquisition, clears_acquisition, adds_monitoring, removes_monitoring, clears_monitoring,
  removes, sets_operational, removes_operational, clears_operational, sets_parameters,
  sets_excluded, sets_identity, step, run, or_same,
}
use multi_daq.ServerState.Snapshot.{
  acquisition_mode, acquisition_guard, command_guard, allows, allows_mode,
}

-- The value of a mode.
abbrev pub mode_text : AcquisitionMode → String
mode_text AcquisitionMode.test = "test"
mode_text AcquisitionMode.calibration = "calibration"
mode_text AcquisitionMode.multipmt = "multipmt"

-- The mode that a text of the user names.
abbrev pub named_mode : String → Option AcquisitionMode
named_mode t =
    if spells "test" t
    then some AcquisitionMode.test
    else if spells "calibration" t
    then some AcquisitionMode.calibration
    else if spells "multipmt" t
    then some AcquisitionMode.multipmt
    else none

-- The mode that the calls choose, from the mode before them.
unfoldable pub chosen : AcquisitionMode → List Call → AcquisitionMode
chosen m [] = m
chosen m (changes_mode t ∷ cs) = chosen (get_or (named_mode t) m) cs
chosen m (_ ∷ cs) = chosen m cs

apply_event-acq_mode :
    (s : ServerState) (e : ServerFsmEvent) (ctx : EventContext) (next : ServerFsm) (t : ServerState)
    → apply_event s e ctx next ≡ some t
    → t.acq_mode ≡ s.acq_mode
unfolding apply_event start_configuration succeed_configuration fail_configuration start_acquisition
apply_event-acq_mode s e ctx next t h = ground arith

set_pending-acq_mode :
    (s : ServerState) (p : Pending) (requested : Option ServerFsm) (t : ServerState)
    → set_pending s p requested ≡ some t
    → t.acq_mode ≡ s.acq_mode
unfolding set_pending
set_pending-acq_mode s p requested t h = ground arith

commit-acq_mode :
    (s : ServerState) (e : ServerFsmEvent) (ctx : EventContext) (next : ServerFsm)
    → (commit s e ctx next).acq_mode ≡ s.acq_mode
unfolding commit
commit-acq_mode s e ctx next = ground arith

finish-acq_mode : (s : ServerState) (p : Pending) → (finish s p).0.acq_mode ≡ s.acq_mode
unfolding finish
finish-acq_mode s p =
    let next = resolve_next s p.event p.next_state in
    elim (Option-cases (apply_event s p.event p.context next)) [
      | inl e ↦ rw (finish, e) refl
      | inr (t, e) ↦
          rw
            (
              finish,
              e,
              commit-acq_mode t p.event p.context next,
              apply_event-acq_mode s p.event p.context next t e,
            )
            refl
    ]

advance-acq_mode :
    (s : ServerState) (q : Request) (next : ServerFsm) → (advance s q next).0.acq_mode ≡ s.acq_mode
unfolding advance
advance-acq_mode s q next = elim (Option-cases (drop_lost s (start q next))) [
  | inl e ↦ rw (advance, e) refl
  | inr (p, e) ↦ elim (Option-cases (set_pending s p q.requested_terminal_state)) [
    | inl f ↦ rw (advance, e, f) refl
    | inr (t, f) ↦
        rw
          (
            advance,
            e,
            f,
            finish-acq_mode t p,
            set_pending-acq_mode s p q.requested_terminal_state t f,
          )
          refl
  ]
]

process_event-acq_mode :
    (s : ServerState) (q : Request) → (process_event s q).0.acq_mode ≡ s.acq_mode
unfolding process_event
process_event-acq_mode s q = elim (Option-cases (transition s.run_state q.event)) [
  | inl e ↦ ground arith
  | inr (next, e) ↦ ground (arith, advance-acq_mode s q next)
]

set_mode-chosen :
    (s : ServerState) (m : AcquisitionMode) (t : String)
    → s.acq_mode ≡ mode_text m
    → (or_same s (set_mode t s)).acq_mode ≡ mode_text (get_or (named_mode t) m)
unfolding set_mode
set_mode-chosen s m t e = ground arith

-- One call keeps the mode, or chooses it.
step-chosen :
    (s : ServerState) (m : AcquisitionMode) (c : Call)
    → s.acq_mode ≡ mode_text m
    → (step s c).acq_mode ≡ mode_text (chosen m (c ∷ []))
unfolding step chosen
step-chosen s m (changes_mode t) e = set_mode-chosen s m t e
step-chosen s m (event q) e = process_event-acq_mode s q ∙ e
step-chosen s m (client_event q) e = unfold process_client_event in ground arith
step-chosen s m (resets reason source now) e = unfold reset_to_disconnected in e
step-chosen s m clears_pending e = unfold clear_pending_transition in e
step-chosen s m (adds_control k identity now) e = unfold add_control_client in ground arith
step-chosen s m (adds_acquisition k) e = unfold add_acquisition_client in ground arith
step-chosen s m (removes_acquisition k) e = unfold remove_acquisition_client in e
step-chosen s m clears_acquisition e = unfold clear_acquisition_clients in e
step-chosen s m (adds_monitoring k) e = unfold add_monitoring_client in ground arith
step-chosen s m (removes_monitoring k) e = unfold remove_monitoring_client in e
step-chosen s m clears_monitoring e = unfold clear_monitoring_clients in e
step-chosen s m (removes k) e = unfold remove_client in e
step-chosen s m (sets_operational ks) e = unfold set_operational_clients in ground arith
step-chosen s m (removes_operational k) e = unfold remove_operational_client in e
step-chosen s m clears_operational e = unfold clear_operational_clients in e
step-chosen s m (sets_parameters k info) e = unfold set_client_hv_parameters in e
step-chosen s m (sets_excluded k channels) e = unfold set_calibration_excluded_channels in e
step-chosen s m (sets_identity k a b) e = unfold set_configuration_identity in ground arith

chosen-cons :
    (m : AcquisitionMode) (c : Call) (cs : List Call)
    → chosen (chosen m (c ∷ [])) cs ≡ chosen m (c ∷ cs)
unfolding chosen
chosen-cons m (changes_mode t) cs = refl
chosen-cons m _ cs = refl

run-chosen :
    (s : ServerState) (m : AcquisitionMode) (cs : List Call)
    → s.acq_mode ≡ mode_text m
    → (run s cs).acq_mode ≡ mode_text (chosen m cs)
unfolding run chosen
run-chosen s m [] e = e
run-chosen s m (c ∷ cs) e =
    run-chosen (step s c) (chosen m (c ∷ [])) cs (step-chosen s m c e)
    ∙ ap mode_text (chosen-cons m c cs)

acquisition_mode-mode_text : (m : AcquisitionMode) → acquisition_mode (mode_text m) ≡ some m
unfolding acquisition_mode
acquisition_mode-mode_text AcquisitionMode.test = refl
acquisition_mode-mode_text AcquisitionMode.calibration = refl
acquisition_mode-mode_text AcquisitionMode.multipmt = refl

module _ {ℓ} {A : Type ℓ} (func : ServerState → A) where
  -- A command under both guards, as `do_acquisition` and `do_calibration` are.
  unfoldable pub decorated :
      List ServerFsm → List AcquisitionMode → Option (ServerState → Option (Option (Option A)))
  unfolding command_guard acquisition_guard
  decorated states modes = elim (acquisition_guard modes func) [
    | none ↦ none
    | some g ↦ command_guard states g
  ]

  abbrev pub called :
      (s : ServerState) (m : AcquisitionMode) (states : List ServerFsm)
      (modes : List AcquisitionMode)
      → Option (Option (Option A))
  called s m states modes =
      if allows s.run_state states
      then some (some (if allows_mode m modes then some (func s) else none))
      else none

  -- The history of a server that starts in a mode always has a mode of the three: the one that
  -- the last accepted `set_mode` chose, or the first. So a command under both guards never raises for
  -- its mode: it runs exactly if the state is allowed and that mode is.
  pub run-Guarded :
      (m : AcquisitionMode) (cs : List Call) (a : ServerFsm) (states : List ServerFsm)
      (b : AcquisitionMode) (modes : List AcquisitionMode)
      → (acquisition_mode (run (init (mode_text m)) cs).acq_mode ≡ some (chosen m cs))
        × (g : ServerState → Option (Option (Option A))) × (decorated (a ∷ states) (b ∷ modes)
            ≡ some g)
        × (g (run (init (mode_text m)) cs)
            ≡ called (run (init (mode_text m)) cs) (chosen m cs) (a ∷ states) (b ∷ modes))
  unfolding decorated command_guard acquisition_guard
  run-Guarded m cs a states b modes =
      let e : acquisition_mode (run (init (mode_text m)) cs).acq_mode ≡ some (chosen m cs) =
        ap acquisition_mode (run-chosen (init (mode_text m)) m cs (unfold init in refl))
        ∙ acquisition_mode-mode_text (chosen m cs) in
      (e, _, refl, rw e refl)
