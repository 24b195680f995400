-- ===== src/Autoscaling/Verify/Outcome/Whole.antt =====
-- What a whole run of VerifyAutoscalingReplicas has seen when it ends.
use nanolab.Prelude.{
  ℕ, zero, suc, ◌+◌, ◌≤◌, ◌<◌, ◌≡◌, refl, sym, subst, true, false, none, some, if◌then◌else◌, leb,
  ◌==◌, number_equality, String, Result, ok, err, arith, inl, inr, if_ind, nat_beq_iff, leb→le,
  leb_false→lt,
}
use nanolab.Autoscaling.Verify.{
  Probe, no_scale_up, no_scale_down, Verify, AutoscalingSummary, Peak, Settled, poll_down, run,
  watched, complete, peak, settle, after_peak, settled_summary,
}
use nanolab.Autoscaling.Verify.Outcome.{
  ScaledUp, Still, Off, Failed, Rise, never, seen, raised, at_or_after, poll_up-Rise,
}

data Settle (probe : Probe) (floor : ℕ) : ℕ → ℕ → Result String Settled → Type 0 where
  settled :
      {from n : ℕ} (s : Settled) (i : ℕ)
      → s.reached ≡ true
      → s.final_desired ≡ floor
      → from ≤ i
      → i < from + n
      → probe.desired_replicas i ≡ ok floor
      → Settle probe floor from n (ok s)
  unsettled :
      {from n : ℕ} (s : Settled)
      → s.reached ≡ false
      → ((i : ℕ) → from ≤ i → i < from + n → Off probe floor i)
      → Settle probe floor from n (ok s)
  halted :
      {from n : ℕ} (e : String) (i : ℕ)
      → from ≤ i
      → i < from + n
      → Failed probe e i
      → Settle probe floor from n (err e)

Settle-earlier :
    (probe : Probe) (floor from n : ℕ) (r : Result String Settled)
    → Off probe floor from
    → Settle probe floor (from + 1) n r
    → Settle probe floor from (suc n) r
Settle-earlier probe floor from n r off (settled s i a b c d e) =
    settled s i a b (omega arith) (omega arith) e
Settle-earlier probe floor from n r off (unsettled s a all) = unsettled s a all_off
  where
    all_off : (i : ℕ) → from ≤ i → i < from + suc n → Off probe floor i
    all_off i a b = elim (at_or_after from i a) [
      | inl here ↦ subst (Off probe floor) here off
      | inr later ↦ all i later (omega arith)
    ]
Settle-earlier probe floor from n r off (halted e i a b f) =
    halted e i (omega arith) (omega arith) f

-- One reading, then the rest.
reading-Settle :
    (probe : Probe) (floor from n : ℕ) (d : Result String ℕ) (rest : ℕ → Result String Settled)
    → probe.desired_replicas from ≡ d
    → ((desired : ℕ) → Settle probe floor (from + 1) n (rest desired))
    → Settle probe floor from (suc n) (elim d [
      | err e ↦ err e
      | ok desired ↦
          if desired == floor
          then ok (record { final_desired = desired; reached = true })
          else rest desired
    ])
reading-Settle probe floor from n (err e) rest h later =
    halted e from (omega arith) (omega arith) (inr h)
reading-Settle probe floor from n (ok desired) rest h later =
    if_ind (Settle probe floor from (suc n)) (desired == floor)
      (λ same.
        settled _ from refl ((nat_beq_iff desired floor).0 same) (omega arith) (omega arith)
          (subst (λ k. probe.desired_replicas from ≡ ok k) ((nat_beq_iff desired floor).0 same) h))
      (λ differs.
        Settle-earlier probe floor from n (rest desired) (desired, h, (λ e. ground arith))
          (later desired))

poll_down-Settle :
    (probe : Probe) (floor n last at : ℕ)
    → Settle probe floor at n (poll_down probe floor n last at)
unfolding poll_down
poll_down-Settle probe floor zero last at = unsettled _ refl (λ i a b. absurd (omega arith))
poll_down-Settle probe floor (suc n) last at =
    reading-Settle probe floor at n (probe.desired_replicas at)
      (λ desired. poll_down probe floor n desired (at + 1)) refl
      (λ desired. poll_down-Settle probe floor n desired (at + 1))

-- The scale-up was watched under load, or seen by a poll just before the scale-down.
pub data Rose {F : Type 0} (probe : Probe) (v : Verify F) : ℕ → Type 0 where
  under_load : 1 < watched v.watcher → Rose probe v 0
  by_poll :
      (i : ℕ)
      → watched v.watcher ≤ 1
      → i < v.scale_up_polls
      → ScaledUp probe i
      → Rose probe v (i + 1)

-- How a run ends. The readings of the scale-down are those of the polls from `from` on.
pub data Outcome {F : Type 0} (probe : Probe) (v : Verify F)
    : Result String (AutoscalingSummary F) → Type 0 where
  broke : (e : String) (i : ℕ) → Failed probe e i → Outcome probe v (err e)
  not_scaled_up :
      (s : AutoscalingSummary F)
      → s.verdict_error ≡ some no_scale_up
      → watched v.watcher ≤ 1
      → ((i : ℕ) → i < v.scale_up_polls → Still probe i)
      → Outcome probe v (ok s)
  not_scaled_down :
      (s : AutoscalingSummary F) (from : ℕ)
      → s.verdict_error ≡ some no_scale_down
      → Rose probe v from
      → ((i : ℕ) → from ≤ i → i ≤ from + v.scale_down_polls → Off probe v.expected_final_replicas i)
      → Outcome probe v (ok s)
  passed :
      (s : AutoscalingSummary F) (from i : ℕ)
      → s.verdict_error ≡ none
      → Rose probe v from
      → from ≤ i
      → i ≤ from + v.scale_down_polls
      → probe.desired_replicas i ≡ ok v.expected_final_replicas
      → s.final_desired_replicas ≡ v.expected_final_replicas
      → Outcome probe v (ok s)

module _ {F : Type 0} (probe : Probe) (v : Verify F) where
  settle-Outcome :
      (p : Peak) (r : Result String Settled)
      → Rose probe v p.polls
      → Settle probe v.expected_final_replicas p.polls (suc v.scale_down_polls) r
      → Outcome probe v (settled_summary v p r)
  unfolding complete
  settle-Outcome p r rose (settled s i a b c d e) =
      passed _ p.polls i (rw a refl) rose c (omega arith) e b
  settle-Outcome p r rose (unsettled s a all) =
      not_scaled_down _ p.polls (rw a refl) rose (λ i x y. all i x (omega arith))
  settle-Outcome p r rose (halted e i a b f) = broke e i f

  down-Outcome :
      (p : Peak)
      → Rose probe v p.polls
      → Outcome probe v
          (settled_summary v p (settle probe v.expected_final_replicas v.scale_down_polls p.polls))
  down-Outcome p rose =
      settle-Outcome p (settle probe v.expected_final_replicas v.scale_down_polls p.polls) rose (
        reading-Settle probe v.expected_final_replicas p.polls v.scale_down_polls
          (probe.desired_replicas p.polls)
          (λ desired.
            poll_down probe v.expected_final_replicas v.scale_down_polls desired (p.polls + 1))
          refl
          (λ desired.
            poll_down-Settle probe v.expected_final_replicas v.scale_down_polls desired
              (p.polls + 1)))

  peak-Outcome :
      (r : Result String Peak)
      → watched v.watcher ≤ 1
      → Rise probe 0 v.scale_up_polls r
      → Outcome probe v (after_peak probe v r)
  unfolding after_peak complete
  peak-Outcome r low (never p still all) =
      if_ind (Outcome probe v) (leb p.max_replicas 1)
        (λ h. not_scaled_up _ refl low (λ i below. all i (omega arith) (omega arith)))
        (λ h. absurd (ground arith))
  peak-Outcome r low (seen p i up a b polls s) =
      if_ind (Outcome probe v) (leb p.max_replicas 1) (λ h. absurd (ground arith))
        (λ h. down-Outcome p (subst (Rose probe v) (sym polls) (by_poll i low (omega arith) s)))
  peak-Outcome r low (raised e i a b f) = broke e i f

  -- Every run ends in one of four ways, and the summary says which: a query of the probe raised, and
  -- so does the run; no count above one was seen, neither by the watcher nor at any of the scale-up
  -- polls; the scale-up was seen but every one of the scale-down readings was off the floor; or both
  -- were seen, and the final desired count is the floor.
  pub run-Outcome : Outcome probe v (run probe v)
  unfolding run after_peak peak
  run-Outcome =
      if_ind (λ r. Outcome probe v (after_peak probe v r)) (leb (watched v.watcher) 1)
        (λ h. peak-Outcome _ (leb→le _ _ h) (
          poll_up-Rise probe v.scale_up_polls
            (record { max_replicas = watched v.watcher; last_desired = 0; polls = 0 })
            (leb→le _ _ h)))
        (λ h.
          if_ind (Outcome probe v) (leb (watched v.watcher) 1) (λ k. absurd (ground arith))
            (λ k.
              down-Outcome
                (record { max_replicas = watched v.watcher; last_desired = 0; polls = 0 })
                (under_load (leb_false→lt _ _ h))))
