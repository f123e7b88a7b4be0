-- ===== src/Liveness/Counts.antt =====
-- How often losses are reported and noted (server/services/client_liveness_service.py).
use multi_daq.Prelude.{
  Bool, true, false, not, ℕ, ◌+◌, List, [], ◌∷◌, ◌++◌, ◌≡◌, refl, ap, arith, if◌then◌else◌, ◌&&◌,
  ◌||◌, str_eq, eq_iff, select, Bool-cases, inl, inr,
}
use multi_daq.Prelude.Numbers.{bit}
use multi_daq.ServerState.Records.{ClientId}
use multi_daq.Liveness.Service.{
  Plane, control, acquisition, monitoring, same_plane, Notice, lost, new_client, returned, Loss,
  same_loss, reported, Liveness, without_loss, note_loss, tell, welcome,
}

abbrev pub is_loss : Loss → Notice → Bool
is_loss l (lost k p) = same_loss (k, p) l
is_loss l _ = false

-- How often the user was told of the loss of a client on a plane.
unfoldable pub losses : Loss → List Notice → ℕ
losses l [] = 0
losses l (n ∷ ns) = bit (is_loss l n) + losses l ns

pub same_plane_eq : (p q : Plane) → same_plane p q ≡ true → p ≡ q
unfolding same_plane
same_plane_eq control control h = refl
same_plane_eq acquisition acquisition h = refl
same_plane_eq monitoring monitoring h = refl
same_plane_eq control acquisition h = absurd (ground (arith, h))
same_plane_eq control monitoring h = absurd (ground (arith, h))
same_plane_eq acquisition control h = absurd (ground (arith, h))
same_plane_eq acquisition monitoring h = absurd (ground (arith, h))
same_plane_eq monitoring control h = absurd (ground (arith, h))
same_plane_eq monitoring acquisition h = absurd (ground (arith, h))

pub same_loss_eq : (l m : Loss) → same_loss l m ≡ true → l ≡ m
unfolding same_loss
same_loss_eq (j, p) (k, q) h = ground (arith, eq_iff j k, same_plane_eq p q (ground (arith, h)), h)

module _ (l : Loss) where
  pub losses-append : (ns ms : List Notice) → losses l (ns ++ ms) ≡ losses l ns + losses l ms
  unfolding losses
  losses-append [] ms = ground arith
  losses-append (n ∷ ns) ms = ground (arith, losses-append ns ms)

  pub reported-append :
      (ls ms : List Loss) → reported l (ls ++ ms) ≡ (reported l ls || reported l ms)
  unfolding reported
  reported-append [] ms = refl
  reported-append (m ∷ ls) ms = ground (arith, reported-append ls ms)

  pub reported-select :
      (p : Loss → Bool) (ls : List Loss)
      → ((m : Loss) → same_loss m l ≡ true → p m ≡ true)
      → reported l (select p ls) ≡ reported l ls
  unfolding reported select
  reported-select p [] h = refl
  reported-select p (m ∷ ls) h = ground (arith, reported-select p ls h, h m)

  pub reported-note_loss :
      (m : Loss) (ls : List Loss) → reported l (note_loss m ls) ≡ (reported l ls || same_loss m l)
  unfolding reported
  reported-note_loss m ls = elim (Bool-cases (same_loss m l)) [
    | inl e ↦ ground (
      arith,
      e,
      reported-append ls (m ∷ []),
      ap (λ (x : Loss). reported x ls) (same_loss_eq m l e),
    )
    | inr e ↦ ground (arith, e, reported-append ls (m ∷ []))
  ]

  -- What may still be told of the loss, with what has been told.
  unfoldable pub bound : Liveness → ℕ
  bound s = losses l s.output + bit (not (reported l s.loss_reported))

  -- Dropping other losses.
  pub reported-without_loss :
      (m : Loss) (ls : List Loss)
      → same_loss l m ≡ false
      → reported l (without_loss m ls) ≡ reported l ls
  reported-without_loss m ls h =
      reported-select (λ n. not (same_loss n m)) ls
        (λ n e. ground (arith, h, ap (λ (x : Loss). same_loss x m) (same_loss_eq n l e)))

  pub losses-tell :
      (b : Bool) (m : Loss) (ns : List Notice)
      → losses l (tell b (lost m.0 m.1) ns) ≡ losses l ns + (if b then 0 else bit (same_loss m l))
  unfolding losses
  losses-tell true m ns = ground arith
  losses-tell false m ns = ground (arith, losses-append ns (lost m.0 m.1 ∷ []))

  pub losses-welcome :
      (b r : Bool) (k : ClientId) (ns : List Notice) → losses l (welcome b r k ns) ≡ losses l ns
  unfolding losses
  losses-welcome true r k ns = refl
  losses-welcome false true k ns = ground (arith, losses-append ns (returned k ∷ []))
  losses-welcome false false k ns = ground (arith, losses-append ns (new_client k ∷ []))

-- A loss of control of another client, or with control itself asked for, drops no such loss.
pub excluded :
    (p q : Plane) (j k : ClientId)
    → same_plane q control ≡ false
    → (same_plane p control || not (str_eq j k && true)) ≡ true
    → same_loss (k, p) (j, q) ≡ false
unfolding same_loss same_plane
excluded control acquisition j k g h = ground arith
excluded control monitoring j k g h = ground arith
excluded p control j k g h = absurd (ground (arith, g))
excluded acquisition q j k g h = ground (arith, h, eq_iff j k, eq_iff k j)
excluded monitoring q j k g h = ground (arith, h, eq_iff j k, eq_iff k j)
