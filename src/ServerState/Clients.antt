-- ===== src/ServerState/Clients.antt =====
-- What the helpers of server_state.py on `self.clients` do, client by client, and the invariant of
-- the registry that they keep.
use multi_daq.Prelude.{
  Bool, true, false, Option, none, some, List, [], ◌∷◌, ◌≡◌, refl, sym, ◌∙◌, ◌⊎◌, inl, inr,
  Bool-cases, String, arith, contains, all_in, contains-all_in, eq_iff,
}
use multi_daq.Prelude.Dict.{find, modify, update_where}
use multi_daq.Prelude.Dict.Laws.{
  Distinct, change, find-modify, find-update_where, modify-Distinct, update_where-Distinct,
  contains-keys_where,
}
use multi_daq.ServerState.Fsm.{ClientFsm}
use multi_daq.ServerState.Records.{
  ClientId, EventContext, ClientRecord, Clients, common_ids, on_both_planes, with_operational,
  set_operational, clear_operational, enter_state, set_client_state, set_client_states,
}

-- A registered client is on the control plane, and an operational one on both planes.
abbrev pub IsAdmitted : ClientRecord → Type 0
IsAdmitted r =
    (r.on_control_plane ≡ true) × ((r.operational ≡ false) ⊎ (r.on_acquisition_plane ≡ true))

pub record IsRegistry (m : Clients) : Type 0 where
  pub distinct : Distinct m
  pub named : find "" m ≡ none
  pub admitted : (k : ClientId) (r : ClientRecord) → find k m ≡ some r → IsAdmitted r

pub find-set_operational :
    (k : ClientId) (t : List ClientId) (m : Clients)
    → find k (set_operational t m) ≡ change (with_operational (contains k t)) (find k m)
unfolding find set_operational
find-set_operational k t [] = refl
find-set_operational k t ((i, r) ∷ m) = ground (arith, eq_iff i k, find-set_operational k t m)

set_operational-Distinct :
    (t : List ClientId) (m : Clients) → Distinct m → Distinct (set_operational t m)
unfolding set_operational
set_operational-Distinct t [] d = tt
set_operational-Distinct t ((i, r) ∷ m) d =
    ground (arith, set_operational-Distinct t m d.1, find-set_operational i t m)

-- An admitted record stays admitted under `f`.
abbrev pub Keeps : (ClientRecord → ClientRecord) → Type 0
Keeps f = (r : ClientRecord) → IsAdmitted r → IsAdmitted (f r)

change-admitted :
    (f : ClientRecord → ClientRecord) (o : Option ClientRecord)
    → Keeps f
    → ((r : ClientRecord) → o ≡ some r → IsAdmitted r)
    → (r : ClientRecord) → change f o ≡ some r
    → IsAdmitted r
change-admitted f none kf h r e = cc
change-admitted f (some x) kf h r e = ground (arith, kf x (h x refl))

module _ {m : Clients} (h : IsRegistry m) where
  pub modify-IsRegistry :
      (k : ClientId) (f : ClientRecord → ClientRecord) → Keeps f → IsRegistry (modify k f m)
  modify-IsRegistry k f kf = record {
    distinct = modify-Distinct k f m h.distinct;
    named = ground (arith, find-modify "" k f m, h.named);
    admitted = λ j r e. ground (
      arith,
      find-modify j k f m,
      change-admitted f (find j m) kf (h.admitted j) r,
      h.admitted j r,
    );
  }

  pub update_where-IsRegistry :
      (t : String → Bool) (f : ClientRecord → ClientRecord)
      → Keeps f
      → IsRegistry (update_where t f m)
  update_where-IsRegistry t f kf = record {
    distinct = update_where-Distinct t f m h.distinct;
    named = ground (arith, find-update_where "" t f m, h.named);
    admitted = λ j r e. ground (
      arith,
      find-update_where j t f m,
      change-admitted f (find j m) kf (h.admitted j) r,
      h.admitted j r,
    );
  }

pub with_operational-false : Keeps (with_operational false)
with_operational-false r a = (a.0, inl refl)

enter_state-Keeps : (st : ClientFsm) (ctx : EventContext) → Keeps (enter_state st ctx)
enter_state-Keeps st ctx r a = a

pub clear_operational-IsRegistry : {m : Clients} → IsRegistry m → IsRegistry (clear_operational m)
unfolding clear_operational
clear_operational-IsRegistry h = update_where-IsRegistry h _ _ with_operational-false

pub exclude-IsRegistry :
    (t : String → Bool) {m : Clients}
    → IsRegistry m
    → IsRegistry (update_where t (with_operational false) m)
exclude-IsRegistry t h = update_where-IsRegistry h t _ with_operational-false

pub set_client_state-IsRegistry :
    (st : ClientFsm) (ctx : EventContext) (k : ClientId) {m : Clients}
    → IsRegistry m
    → IsRegistry (set_client_state st ctx k m)
unfolding set_client_state
set_client_state-IsRegistry st ctx k h = modify-IsRegistry h k _ (enter_state-Keeps st ctx)

pub set_client_states-IsRegistry :
    (st : ClientFsm) (ctx : EventContext) (ks : List ClientId) {m : Clients}
    → IsRegistry m
    → IsRegistry (set_client_states st ctx ks m)
unfolding set_client_states
set_client_states-IsRegistry st ctx [] h = h
set_client_states-IsRegistry st ctx (k ∷ ks) h =
    set_client_states-IsRegistry st ctx ks (set_client_state-IsRegistry st ctx k h)

-- A client of a list of common clients is on both planes.
pub common_client :
    (k : ClientId) (t : List ClientId) (m : Clients) (r : ClientRecord)
    → Distinct m
    → all_in t (common_ids m) ≡ true
    → contains k t ≡ true
    → find k m ≡ some r
    → on_both_planes r ≡ true
common_client k t m r d sub c e =
    ground
      (arith, contains-all_in k t (common_ids m) sub c, contains-keys_where k on_both_planes m d)

-- Marking operational only clients that may be keeps the registry.
module _ (t : List ClientId) {m : Clients} (h : IsRegistry m)
    (may : (k : ClientId) (r : ClientRecord)
      → contains k t ≡ true
      → find k m ≡ some r
      → r.on_acquisition_plane ≡ true) where
  marked :
      (k : ClientId) (b : Bool) (o : Option ClientRecord) (r : ClientRecord)
      → find k m ≡ o
      → contains k t ≡ b
      → change (with_operational b) o ≡ some r
      → IsAdmitted r
  marked k b none r e c i = cc
  marked k false (some x) r e c i = ground (arith, h.admitted k x e)
  marked k true (some x) r e c i = ground (arith, h.admitted k x e, may k x c e)

  pub set_operational-IsRegistry : IsRegistry (set_operational t m)
  set_operational-IsRegistry = record {
    distinct = set_operational-Distinct t m h.distinct;
    named = ground (arith, find-set_operational "" t m, h.named);
    admitted = λ k r e.
        marked k (contains k t) (find k m) r refl refl (sym (find-set_operational k t m) ∙ e);
  }

  pub include-IsRegistry : IsRegistry (update_where (λ c. contains c t) (with_operational true) m)
  include-IsRegistry = record {
    distinct = update_where-Distinct _ _ m h.distinct;
    named =
        ground (arith, find-update_where "" (λ c. contains c t) (with_operational true) m, h.named);
    admitted = λ k r e. elim (Bool-cases (contains k t)) [
      | inl c ↦
          marked k true (find k m) r refl c
            (ground (arith, find-update_where k (λ c. contains c t) (with_operational true) m))
      | inr c ↦
          h.admitted k r
            (ground (arith, find-update_where k (λ c. contains c t) (with_operational true) m))
    ];
  }
