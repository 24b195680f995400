-- ===== src/Autoscaling/Verify.antt =====
-- `VerifyAutoscalingReplicas.run` and `VerifyInitialAutoscalingReplicas.run` of autoscaling.py. The probe is
-- an argument: what each of the two queries answers at the n-th poll. A query that raises ends the run.
pub mod Outcome
use nanolab.Prelude.{
  ℕ, zero, suc, ◌+◌, Bool, true, false, ◌&&◌, ◌||◌, not, Option, none, some, List, [], ◌∷◌,
  if◌then◌else◌, ltb, leb, ◌==◌, number_equality, max, String, Result, ok, err, ◌>>=◌, ◌>>◌,
}
use nanolab.Autoscaling.Releases.{ReplicaSample, releases_under_load, max_observed}

pub record Probe : Type 0 where
  pub ready_replicas : ℕ → Result String ℕ
  pub desired_replicas : ℕ → Result String ℕ

pub data Verdict : Type 0 where
  no_scale_up no_scale_down : Verdict

pub record Verify (F : Type 0) : Type 0 where
  pub scale_up_polls : ℕ
  pub scale_down_polls : ℕ
  pub expected_final_replicas : ℕ
  pub watcher : Option (List (ReplicaSample F))

pub record AutoscalingSummary (F : Type 0) : Type 0 where
  pub max_replicas_observed : ℕ
  pub final_desired_replicas : ℕ
  pub replica_samples : List (ReplicaSample F)
  pub releases : ℕ
  pub verdict_error : Option Verdict

-- What the fallback loop leaves: the peak, the last desired count, the number of polls made.
pub record Peak : Type 0 where
  pub max_replicas : ℕ
  pub last_desired : ℕ
  pub polls : ℕ

-- The counts of one poll, taken into the peak.
abbrev pub tally : Peak → Result String ℕ → Result String ℕ → Result String Peak
tally p (err e) desired = err e
tally p (ok ready) (err e) = err e
tally p (ok ready) (ok desired) = ok (record {
  max_replicas = max (max p.max_replicas ready) desired;
  last_desired = desired;
  polls = p.polls + 1;
})

-- `for _ in range(self.scale_up_polls)`, from a poll on.
unfoldable pub poll_up : Probe → ℕ → Peak → Result String Peak
poll_up probe zero p = ok p
poll_up probe (suc n) p =
    elim (tally p (probe.ready_replicas p.polls) (probe.desired_replicas p.polls)) [
      | err e ↦ err e
      | ok q ↦ if ltb 1 q.max_replicas then ok q else poll_up probe n q
    ]

-- What the scale-down reads: the last desired count, and whether it was the floor.
pub record Settled : Type 0 where
  pub final_desired : ℕ
  pub reached : Bool

-- The loop `for _ in range(self.scale_down_polls)` after a reading that was off the floor.
unfoldable pub poll_down : Probe → ℕ → ℕ → ℕ → ℕ → Result String Settled
poll_down probe floor zero last at = ok (record { final_desired = last; reached = false })
poll_down probe floor (suc n) last at = elim (probe.desired_replicas at) [
  | err e ↦ err e
  | ok desired ↦
      if desired == floor
      then ok (record { final_desired = desired; reached = true })
      else poll_down probe floor n desired (at + 1)
]

-- The reading after the initial delay, then the loop.
abbrev pub settle : Probe → ℕ → ℕ → ℕ → Result String Settled
settle probe floor polls at = elim (probe.desired_replicas at) [
  | err e ↦ err e
  | ok desired ↦
      if desired == floor
      then ok (record { final_desired = desired; reached = true })
      else poll_down probe floor polls desired (at + 1)
]

-- VerifyInitialAutoscalingReplicas.run
unfoldable pub verify_initial : Probe → ℕ → Result String Bool
verify_initial probe expected = elim (probe.desired_replicas 0) [
  | err e ↦ err e
  | ok desired ↦ elim (probe.ready_replicas 0) [
    | err e ↦ err e
    | ok ready ↦ ok (desired == expected && ready == expected)
  ]
]

module _ {F : Type 0} where
  abbrev pub samples_of : Option (List (ReplicaSample F)) → List (ReplicaSample F)
  samples_of none = []
  samples_of (some samples) = samples

  -- `self.watcher.max_observed if self.watcher is not None else 0`
  unfoldable pub watched : Option (List (ReplicaSample F)) → ℕ
  unfolding max_observed
  watched none = 0
  watched (some samples) = max_observed samples

  -- `_complete`
  unfoldable pub complete : Verify F → ℕ → ℕ → Option Verdict → AutoscalingSummary F
  unfolding releases_under_load
  complete v max_replicas final_desired verdict_error = record {
    max_replicas_observed = max_replicas;
    final_desired_replicas = final_desired;
    replica_samples = samples_of v.watcher;
    releases = releases_under_load (samples_of v.watcher);
    verdict_error = verdict_error;
  }

  -- The fallback, entered where the watcher saw no scale-up.
  unfoldable pub peak : Probe → Verify F → Result String Peak
  unfolding poll_up
  peak probe v =
      if leb (watched v.watcher) 1
      then poll_up probe v.scale_up_polls
          (record { max_replicas = watched v.watcher; last_desired = 0; polls = 0 })
      else ok (record { max_replicas = watched v.watcher; last_desired = 0; polls = 0 })

  abbrev pub settled_summary :
      Verify F → Peak → Result String Settled → Result String (AutoscalingSummary F)
  settled_summary v p (err e) = err e
  settled_summary v p (ok s) =
      ok
        (complete v p.max_replicas s.final_desired (if s.reached then none else some no_scale_down))

  unfoldable pub after_peak :
      Probe → Verify F → Result String Peak → Result String (AutoscalingSummary F)
  unfolding poll_down
  after_peak probe v (err e) = err e
  after_peak probe v (ok p) =
      if leb p.max_replicas 1
      then ok (complete v p.max_replicas p.last_desired (some no_scale_up))
      else settled_summary v p (settle probe v.expected_final_replicas v.scale_down_polls p.polls)

  unfoldable pub run : Probe → Verify F → Result String (AutoscalingSummary F)
  run probe v = after_peak probe v (peak probe v)
