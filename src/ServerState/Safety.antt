-- ===== src/ServerState/Safety.antt =====
-- No acquisition without a configuration: what a history of events can reach.
use multi_daq.Prelude.{
  Bool, true, false, not, Option, none, some, String, List, [], ◌∷◌, ◌≡◌, refl, inl, inr, arith,
  ◌&&◌, Bool-cases,
}
use multi_daq.ServerState.Fsm.{ServerFsm, ServerFsmEvent, transition}
use multi_daq.ServerState.Records.{EventContext, ServerState, init}
use multi_daq.ServerState.Event.{Request, process_event, start, resolve_next, commit}
use multi_daq.ServerState.Inversion.{Accepted, process_event_inv}
use multi_daq.ServerState.Refusal.{drop_lost_inv, process_event_refused}
use multi_daq.ServerState.Invariant.{set_pending_cases, apply_event_frame}

-- The events that report a complete configuration.
abbrev pub configures : ServerFsmEvent → Bool
configures ServerFsmEvent.configuration_succeeded = true
configures ServerFsmEvent.recovery_succeeded = true
configures _ = false

-- The states in which the detector has been configured.
abbrev pub is_configured : ServerFsm → Bool
is_configured ServerFsm.ready = true
is_configured ServerFsm.acquiring = true
is_configured ServerFsm.finalizing = true
is_configured _ = false

abbrev from_ready : Option ServerFsm → Bool
from_ready none = false
from_ready (some r) = is_configured r

abbrev pub process_all : ServerState → List Request → ServerState
process_all s [] = s
process_all s (q ∷ qs) = process_all (process_event s q).0 qs

abbrev pub none_configures : List Request → Bool
none_configures [] = true
none_configures (q ∷ qs) = not (configures q.event) && none_configures qs

record IsUnready (s : ServerState) : Type 0 where
  state : is_configured s.run_state ≡ false
  source : from_ready s.pending_configuration_source ≡ false

unready_target :
    (r : ServerFsm) (e : ServerFsmEvent) (n : ServerFsm)
    → is_configured r ≡ false
    → configures e ≡ false
    → transition r e ≡ some n
    → is_configured n ≡ false
unfolding transition
unready_target r e n u c h = ground arith

unready_next :
    (s : ServerState) (e : ServerFsmEvent) (n : ServerFsm)
    → is_configured s.run_state ≡ false
    → from_ready s.pending_configuration_source ≡ false
    → is_configured n ≡ false
    → is_configured (resolve_next s e n) ≡ false
unfolding resolve_next
unready_next s e n u f c = ground arith

commit_unready :
    (x : ServerState) (e : ServerFsmEvent) (ctx : EventContext) (n : ServerFsm)
    → from_ready x.pending_configuration_source ≡ false
    → ((commit x e ctx n).run_state ≡ n)
      × (from_ready (commit x e ctx n).pending_configuration_source ≡ false)
unfolding commit
commit_unready x e ctx n h = ground arith

module _ {s t : ServerState} {q : Request} (u : IsUnready s) (c : configures q.event ≡ false)
    (a : Accepted s q t) where
  prepared-IsUnready : IsUnready a.prepared
  prepared-IsUnready =
      ground (arith, set_pending_cases s a.pending q.requested_terminal_state a.prepared a.set_up)

  next_unready :
      is_configured (resolve_next a.prepared a.pending.event a.pending.next_state) ≡ false
  next_unready = ground (
    arith,
    prepared-IsUnready,
    drop_lost_inv s (start q a.next) a.pending a.trimmed,
    unready_target s.run_state q.event a.next,
    unready_next a.prepared a.pending.event a.pending.next_state,
  )

  accepted-IsUnready : IsUnready t
  accepted-IsUnready = rw a.result (
      ground (
        arith,
        next_unready,
        prepared-IsUnready,
        apply_event_frame _ _ _ _ a.applied a.effect,
        commit_unready a.applied a.pending.event a.pending.context
            (resolve_next a.prepared a.pending.event a.pending.next_state),
      ))

process_event-IsUnready :
    (s : ServerState) (q : Request)
    → IsUnready s
    → configures q.event ≡ false
    → IsUnready (process_event s q).0
process_event-IsUnready s q u c = elim (Bool-cases (process_event s q).1) [
  | inl e ↦ accepted-IsUnready u c (process_event_inv s q (λ i. ((process_event s q).0, e i)))
  | inr e ↦ ground (arith, process_event_refused s q e)
]

process_all-IsUnready :
    (s : ServerState) (qs : List Request)
    → IsUnready s
    → none_configures qs ≡ true
    → IsUnready (process_all s qs)
process_all-IsUnready s [] u c = u
process_all-IsUnready s (q ∷ qs) u c =
    process_all-IsUnready (process_event s q).0 qs (process_event-IsUnready s q u (ground arith))
      (ground arith)

-- From the start of the server, a history of events with no CONFIGURATION_SUCCEEDED and no
-- RECOVERY_SUCCEEDED never leads to READY, ACQUIRING or FINALIZING: nothing is acquired before a
-- configuration has succeeded.
pub acquires_only_configured :
    (mode : String) (qs : List Request)
    → none_configures qs ≡ true
    → is_configured (process_all (init mode) qs).run_state ≡ false
unfolding init
acquires_only_configured mode qs c =
    (process_all-IsUnready (init mode) qs (record { state = refl; source = refl }) c).state
