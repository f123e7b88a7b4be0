-- ===== src/ServerState/Configuration.antt =====
-- What the result of a configuration does to each client.
use multi_daq.Prelude.{
  true, false, some, List, ◌++◌, ◌≡◌, ◌≢◌, ◌⊎◌, ◌∙◌, ◌↔◌, ◌&&◌, if◌then◌else◌, inl, inr, arith,
  contains, contains-append, contains-same_set, not-contains-overlaps, same_set, overlaps, is_some,
  Bool-cases,
}
use multi_daq.Prelude.Dict.{find}
use multi_daq.Prelude.Dict.Laws.{Distinct, contains-keys_where}
use multi_daq.ServerState.Fsm.{ClientFsm}
use multi_daq.ServerState.Records.{
  ClientId, EventContext, Clients, ServerState, ids_in_state, in_state,
}
use multi_daq.ServerState.Event.{configured_clients, unconfigured_clients, admit_successful}
use multi_daq.ServerState.Queries.{state_at, operational_at}
use multi_daq.ServerState.Views.{
  sent, state_at-set_client_states, operational_at-set_client_states, state_at-set_operational,
  operational_at-set_operational, state_at-mark, operational_at-mark, state_at-clear,
  operational_at-clear,
}

-- One client before and after the result: a client under configuration becomes READY or ERROR, and
-- the others keep their state.
abbrev pub Resolved : ClientId → Clients → Clients → Type 0
Resolved k m n =
    ((state_at k m ≡ some ClientFsm.configuring)
      × ((state_at k n ≡ some ClientFsm.ready) ⊎ (state_at k n ≡ some ClientFsm.error)))
    ⊎ ((state_at k m ≢ some ClientFsm.configuring) × (state_at k n ≡ state_at k m))

under_configuration :
    (k : ClientId) (m : Clients)
    → Distinct m
    → ((contains k (ids_in_state ClientFsm.configuring m) ≡ true)
        × (state_at k m ≡ some ClientFsm.configuring))
      ⊎ ((contains k (ids_in_state ClientFsm.configuring m) ≡ false)
          × (state_at k m ≢ some ClientFsm.configuring))
under_configuration k m d =
    ground (arith, contains-keys_where k (in_state ClientFsm.configuring) m d)

-- The state and the flag of a client after each result, by the list that names it.
module _ (s : ServerState) (ctx : EventContext) (k : ClientId) where
  state_at-unconfigured :
      (failed : List ClientId)
      → state_at k (unconfigured_clients s ctx failed) ≡ (
          if contains k failed
          then sent ClientFsm.error (state_at k s.clients)
          else state_at k s.clients)
  unfolding unconfigured_clients
  state_at-unconfigured failed = elim (Bool-cases s.pending_configuration_partial) [
    | inl e ↦ rw (e, state_at-set_client_states, state_at-mark)
    | inr e ↦ rw (e, state_at-set_client_states, state_at-clear)
  ]

  operational_at-unconfigured :
      (failed : List ClientId)
      → operational_at k (unconfigured_clients s ctx failed) ≡ (
          if s.pending_configuration_partial
          then (if contains k failed then false else operational_at k s.clients)
          else false)
  unfolding unconfigured_clients
  operational_at-unconfigured failed = elim (Bool-cases s.pending_configuration_partial) [
    | inl e ↦ rw (e, operational_at-set_client_states, operational_at-mark)
    | inr e ↦ rw (e, operational_at-set_client_states, operational_at-clear)
  ]

  state_at-admitted :
      (successful : List ClientId)
      → state_at k (admit_successful s successful) ≡ state_at k s.clients
  unfolding admit_successful
  state_at-admitted successful = elim (Bool-cases s.pending_configuration_partial) [
    | inl e ↦ rw (e, state_at-mark)
    | inr e ↦ rw (e, state_at-set_operational)
  ]

  operational_at-admitted :
      (successful : List ClientId)
      → operational_at k (admit_successful s successful) ≡ (
          if s.pending_configuration_partial
          then (if contains k successful
              then is_some (find k s.clients)
              else operational_at k s.clients)
          else contains k successful && is_some (find k s.clients))
  unfolding admit_successful
  operational_at-admitted successful = elim (Bool-cases s.pending_configuration_partial) [
    | inl e ↦ rw (e, operational_at-mark)
    | inr e ↦ rw (e, operational_at-set_operational)
  ]

  state_at-configured :
      (successful failed : List ClientId)
      → state_at k (configured_clients s ctx successful failed) ≡ (
          if contains k failed
          then sent ClientFsm.error (
              if contains k successful
              then sent ClientFsm.ready (state_at k s.clients)
              else state_at k s.clients)
          else if contains k successful
          then sent ClientFsm.ready (state_at k s.clients)
          else state_at k s.clients)
  unfolding configured_clients
  state_at-configured successful failed =
      rw (state_at-set_client_states, state_at-set_client_states, state_at-admitted)

  operational_at-configured :
      (successful failed : List ClientId)
      → operational_at k (configured_clients s ctx successful failed)
        ≡ operational_at k (admit_successful s successful)
  unfolding configured_clients
  operational_at-configured successful failed =
      operational_at-set_client_states k _ ctx failed _
      ∙ operational_at-set_client_states k _ ctx successful _

-- One client after a full configuration: it is operational exactly if it came through.
abbrev pub Admits : ClientId → Clients → Clients → Type 0
Admits k m n =
    (operational_at k n ≡ true)
    ↔ ((state_at k m ≡ some ClientFsm.configuring) × (state_at k n ≡ some ClientFsm.ready))

module _ (s : ServerState) (ctx : EventContext) (k : ClientId) (d : Distinct s.clients) where
  pub unconfigured-Resolved :
      (failed : List ClientId)
      → same_set failed (ids_in_state ClientFsm.configuring s.clients) ≡ true
      → Resolved k s.clients (unconfigured_clients s ctx failed)
  unconfigured-Resolved failed h = ground (
    arith,
    state_at-unconfigured s ctx k failed,
    under_configuration k s.clients d,
    contains-same_set k failed _ h,
  )

  pub configured-Resolved :
      (successful failed : List ClientId)
      → same_set (successful ++ failed) (ids_in_state ClientFsm.configuring s.clients) ≡ true
      → Resolved k s.clients (configured_clients s ctx successful failed)
  configured-Resolved successful failed h = ground (
    arith,
    state_at-configured s ctx k successful failed,
    under_configuration k s.clients d,
    contains-append k successful failed,
    contains-same_set k (successful ++ failed) _ h,
  )

  pub configured-Admits :
      (successful failed : List ClientId)
      → same_set (successful ++ failed) (ids_in_state ClientFsm.configuring s.clients) ≡ true
      → overlaps successful failed ≡ false
      → s.pending_configuration_partial ≡ false
      → Admits k s.clients (configured_clients s ctx successful failed)
  configured-Admits successful failed h o p = (
    λ op. ground (
      arith,
      state_at-configured s ctx k successful failed,
      operational_at-configured s ctx k successful failed,
      operational_at-admitted s ctx k successful,
      under_configuration k s.clients d,
      contains-append k successful failed,
      contains-same_set k (successful ++ failed) _ h,
      not-contains-overlaps k successful failed o,
    ),
    λ r. ground (
      arith,
      state_at-configured s ctx k successful failed,
      operational_at-configured s ctx k successful failed,
      operational_at-admitted s ctx k successful,
      under_configuration k s.clients d,
      contains-append k successful failed,
      contains-same_set k (successful ++ failed) _ h,
    ),
  )

  pub unconfigured-Admits :
      (failed : List ClientId)
      → same_set failed (ids_in_state ClientFsm.configuring s.clients) ≡ true
      → s.pending_configuration_partial ≡ false
      → Admits k s.clients (unconfigured_clients s ctx failed)
  unconfigured-Admits failed h p = (
    λ op. ground (arith, operational_at-unconfigured s ctx k failed),
    λ r. ground (
      arith,
      state_at-unconfigured s ctx k failed,
      under_configuration k s.clients d,
      contains-same_set k failed _ h,
    ),
  )
