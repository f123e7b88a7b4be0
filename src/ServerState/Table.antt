-- ===== src/ServerState/Table.antt =====
-- Facts about the transition table that the method relies on.
use multi_daq.Prelude.{Bool, true, false, some, ◌≡◌, ◌≢◌, ◌⊎◌, arith}
use multi_daq.ServerState.Fsm.{
  ServerFsm, ServerFsmEvent, transition, is_configuration_failed, is_finalization,
}

-- The events whose branch can refuse them after the table has been consulted.
abbrev pub may_refuse : ServerFsmEvent → Bool
may_refuse ServerFsmEvent.configuration_started = true
may_refuse ServerFsmEvent.configuration_succeeded = true
may_refuse ServerFsmEvent.configuration_failed = true
may_refuse ServerFsmEvent.acquisition_started = true
may_refuse _ = false

pub to_finalizing :
    (r : ServerFsm) (e : ServerFsmEvent)
    → transition r e ≡ some ServerFsm.finalizing
    → may_refuse e ≡ false
unfolding transition
to_finalizing r e h = ground arith

pub from_finalizing_events :
    (e : ServerFsmEvent) (n : ServerFsm)
    → transition ServerFsm.finalizing e ≡ some n
    → (n ≡ ServerFsm.finalizing) ⊎ (is_finalization e ≡ true) ⊎ (e ≡ ServerFsmEvent.fatal_error)
unfolding transition
from_finalizing_events e n h = ground arith

pub from_configuring_events :
    (e : ServerFsmEvent) (n : ServerFsm)
    → transition ServerFsm.configuring e ≡ some n
    → n ≢ ServerFsm.finalizing
unfolding transition
from_configuring_events e n h = ground arith

-- An event that the table sends to FINALIZING is not one whose target is replaced.
pub to_finalizing_plain :
    (r : ServerFsm) (e : ServerFsmEvent)
    → transition r e ≡ some ServerFsm.finalizing
    → (is_configuration_failed e ≡ false) × (is_finalization e ≡ false)
unfolding transition
to_finalizing_plain r e h = ground arith

-- A configuration starts from CONNECTED or READY.
pub started_from :
    (r n : ServerFsm)
    → transition r ServerFsmEvent.configuration_started ≡ some n
    → (r ≡ ServerFsm.connected) ⊎ (r ≡ ServerFsm.ready)
unfolding transition
started_from r n h = ground arith
