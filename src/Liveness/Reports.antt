-- ===== src/Liveness/Reports.antt =====
-- How often the user is told of a loss (server/services/client_liveness_service.py).
use multi_daq.Prelude.{
  Bool, true, false, not, some, ℕ, ◌+◌, ◌≤◌, String, List, [], ◌∷◌, ◌≡◌, refl, ap, ◌∙◌, arith, ◌&&◌,
  ◌||◌, str_eq, eq_iff, contains, Bool-cases, Option-cases, inl, inr,
}
use multi_daq.Prelude.Numbers.{bit}
use multi_daq.ServerState.Records.{ClientId}
use multi_daq.ServerState.History.{Call as ServerCall, step as server_step}
use multi_daq.Replies.Waiters.{Call as ReplyCall, step as reply_step}
use multi_daq.Liveness.Service.{
  Plane, control, acquisition, monitoring, plane_named, same_plane, lost, Loss, same_loss, reported,
  Liveness, without_loss, note_loss, tell, drop_client, notify_listeners, handle_loss,
  handle_client_lost, is_complete, greet, handle_client_plane_connected, register_listener,
  begin_connect, end_connect,
}
use multi_daq.Liveness.Counts.{
  losses, same_loss_eq, excluded, reported-select, reported-note_loss, reported-without_loss,
  losses-tell, losses-welcome, bound,
}

-- A call of the service, or a call that another part makes of the state of the server or of the waiters
-- of a plane.
pub data Call : Type 0 where
  loses : ClientId → String → ℕ → Call
  connects : ClientId → String → Call
  listens : String → Call
  begins ends : Call
  server : ServerCall → Call
  reply : Plane → ReplyCall → Call

unfoldable pub step : Liveness → Call → Liveness
step s (loses k plane now) = (handle_client_lost k plane now s).0
step s (connects k plane) = (handle_client_plane_connected k plane s).0
step s (listens f) = register_listener f s
step s begins = begin_connect s
step s ends = end_connect s
step s (server c) = record s { state = server_step s.state c }
step s (reply control c) = record s { control_replies = reply_step s.control_replies c }
step s (reply acquisition c) = record s { acquisition_replies = reply_step s.acquisition_replies c }
step s (reply monitoring c) = record s { monitoring_replies = reply_step s.monitoring_replies c }

unfoldable pub run : Liveness → List Call → Liveness
unfolding step
run s [] = s
run s (c ∷ cs) = run (step s c) cs

-- A call that does not make the client start again: it is not found complete again, nor is its control
-- plane lost, when another plane is asked for.
unfoldable pub is_quiet : Loss → Liveness → Call → Bool
is_quiet (k, p) s (loses j plane now) =
    same_plane p control || not (str_eq j k && str_eq plane "control")
is_quiet (k, p) s (connects j plane) =
    not (str_eq j k && (handle_client_plane_connected j plane s).1)
is_quiet l s _ = true

unfoldable pub all_quiet : Loss → Liveness → List Call → Bool
unfolding is_quiet step
all_quiet l s [] = true
all_quiet l s (c ∷ cs) = is_quiet l s c && all_quiet l (step s c) cs

module _ (k : ClientId) (p : Plane) (s : Liveness) where
  -- What the handling of a loss writes to the two lists.
  dropped_output :
      (q : Plane) (b : Bool) (j : ClientId) (now : ℕ) (t : Liveness)
      → (drop_client q b j now t).output ≡ tell b (lost j q) t.output
  unfolding drop_client
  dropped_output control b j now t = refl
  dropped_output acquisition b j now t = refl
  dropped_output monitoring b j now t = refl

  dropped_reported :
      (q : Plane) (b : Bool) (j : ClientId) (now : ℕ) (t : Liveness)
      → (same_plane p control || not (str_eq j k && same_plane q control)) ≡ true
      → reported (k, p) (drop_client q b j now t).loss_reported ≡ reported (k, p) t.loss_reported
  unfolding drop_client same_plane same_loss
  dropped_reported acquisition b j now t h = refl
  dropped_reported monitoring b j now t h = refl
  dropped_reported control b j now t h =
      reported-without_loss (k, p) (j, monitoring) (without_loss (j, acquisition) t.loss_reported)
        (excluded p monitoring j k refl h)
      ∙ reported-without_loss (k, p) (j, acquisition) t.loss_reported
          (excluded p acquisition j k refl h)

  lost_bound :
      (q : Plane) (j : ClientId) (now : ℕ)
      → (same_plane p control || not (str_eq j k && same_plane q control)) ≡ true
      → bound (k, p) (handle_loss q j now s).0 ≤ bound (k, p) s
  unfolding notify_listeners bound
  lost_bound q j now h =
      let noted = record s { loss_reported = note_loss (j, q) s.loss_reported } in
      ground (
        arith,
        dropped_output q (reported (j, q) s.loss_reported) j now noted,
        dropped_reported q (reported (j, q) s.loss_reported) j now noted h,
        losses-tell (k, p) (reported (j, q) s.loss_reported) (j, q) s.output,
        reported-note_loss (k, p) (j, q) s.loss_reported,
        same_reported,
      )
    where
      same_reported :
          same_loss (j, q) (k, p) ≡ true
          → reported (j, q) s.loss_reported ≡ reported (k, p) s.loss_reported
      same_reported e = ap (λ (x : Loss). reported x s.loss_reported) (same_loss_eq (j, q) (k, p) e)

  announced_bound :
      (j : ClientId)
      → (str_eq j k && (greet j s).1) ≡ false
      → bound (k, p) (greet j s).0 ≡ bound (k, p) s
  unfolding bound
  announced_bound j h =
      elim (Bool-cases (not (is_complete j s.state) || contains j s.client_announced)) [
        | inl e ↦ ground (arith, e)
        | inr e ↦
            let different : str_eq j k ≡ false = ground (arith, e, h) in
            ground (
              arith,
              e,
              losses-welcome (k, p) s.connecting (contains j s.client_seen) j s.output,
              reported-select (k, p) (λ l. not (str_eq l.0 j)) s.loss_reported (other j different),
            )
      ]
    where
      other :
          (j : ClientId)
          → str_eq j k ≡ false
          → (m : Loss) → same_loss m (k, p) ≡ true
          → not (str_eq m.0 j) ≡ true
      other j g m e = ground (
        arith,
        g,
        eq_iff j k,
        eq_iff k j,
        ap (λ (x : Loss). not (str_eq x.0 j)) (same_loss_eq m (k, p) e),
      )

plane_named-control :
    (t : String) (q : Plane) → plane_named t ≡ some q → same_plane q control ≡ str_eq t "control"
unfolding plane_named same_plane
plane_named-control t q e = by_name q e
  where
    by_name : (q : Plane) → plane_named t ≡ some q → same_plane q control ≡ str_eq t "control"
    by_name control e = ground (arith, e)
    by_name acquisition e = ground (arith, e)
    by_name monitoring e = ground (arith, e)

bound-step :
    (k : ClientId) (p : Plane) (s : Liveness) (c : Call)
    → is_quiet (k, p) s c ≡ true
    → bound (k, p) (step s c) ≤ bound (k, p) s
unfolding step is_quiet handle_client_lost handle_client_plane_connected register_listener
    begin_connect end_connect bound
bound-step k p s (loses j plane now) h = elim (Option-cases (plane_named plane)) [
  | inl e ↦ ground (arith, e)
  | inr (q, e) ↦ ground (
    arith,
    e,
    lost_bound k p s q j now (
        ap (λ b. same_plane p control || not (str_eq j k && b)) (plane_named-control plane q e)
        ∙ h),
  )
]
bound-step k p s (connects j plane) h = elim (Option-cases (plane_named plane)) [
  | inl e ↦ ground (arith, e)
  | inr (q, e) ↦ ground (arith, e, announced_bound k p s j (ground (arith, h)))
]
bound-step k p s (listens f) h = ground arith
bound-step k p s begins h = ground arith
bound-step k p s ends h = ground arith
bound-step k p s (server c) h = ground arith
bound-step k p s (reply control c) h = ground arith
bound-step k p s (reply acquisition c) h = ground arith
bound-step k p s (reply monitoring c) h = ground arith

bound-run :
    (k : ClientId) (p : Plane) (cs : List Call) (s : Liveness)
    → all_quiet (k, p) s cs ≡ true
    → bound (k, p) (run s cs) ≤ bound (k, p) s
unfolding run all_quiet
bound-run k p [] s h = omega arith
bound-run k p (c ∷ cs) s h =
    omega (
      arith,
      bound-run k p cs (step s c) (ground (arith, h)),
      bound-step k p s c (ground (arith, h)),
    )

-- In a run in which the client is not found complete again and, for the acquisition and the monitoring
-- plane, its control plane is not lost, the user is told at most once of its loss on a plane, however
-- often the loss is reported; and not at all if it had been reported before.
pub loss_told_once :
    (k : ClientId) (p : Plane) (cs : List Call) (s : Liveness)
    → all_quiet (k, p) s cs ≡ true
    → losses (k, p) (run s cs).output
      ≤ losses (k, p) s.output + bit (not (reported (k, p) s.loss_reported))
unfolding bound
loss_told_once k p cs s h = omega (arith, bound-run k p cs s h)
