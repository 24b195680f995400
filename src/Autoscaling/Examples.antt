-- ===== src/Autoscaling/Examples.antt =====
-- Runs of the autoscaling check against scripted probes.
use nanolab.Prelude.{
  true, err, some, ◌-◌, ℕ, ◌+◌, ◌≡◌, refl, none, List, [], ◌∷◌, ok, if◌then◌else◌, ltb,
  number_equality,
}
use nanolab.Autoscaling.Releases.{max_observed, ReplicaSample, releases_under_load}
use nanolab.Autoscaling.Releases.Rises.{rises_from, releases_under_load-rises}
use nanolab.Autoscaling.Watching.{
  ReplicaWatcher, ReplicaPoll, watch_replicas, max_observed-watch_replicas,
}
use nanolab.Autoscaling.Verify.{
  Probe, Verify, run, after_peak, peak, complete, watched, poll_up, poll_down,
}
use nanolab.Autoscaling.Verify.Outcome.Whole.{Outcome, run-Outcome}

abbrev desired_of : ℕ → ReplicaSample ℕ
desired_of n = record { elapsed_seconds = 0; desired = n; ready = n }

-- A parked start, then one release under load.
abbrev released_once : List (ReplicaSample ℕ)
released_once = desired_of 0 ∷ desired_of 2 ∷ desired_of 0 ∷ desired_of 1 ∷ []

releases_under_load_test : releases_under_load released_once ≡ 1
unfolding releases_under_load
releases_under_load_test = refl

releases_under_load-rises_example :
    rises_from none released_once ≡ releases_under_load released_once + 1
releases_under_load-rises_example = releases_under_load-rises released_once

-- Scales up at the third poll, down at the sixth.
abbrev scripted : Probe
scripted = record {
  ready_replicas = λ i. ok (if ltb i 2 then 1 else 3);
  desired_replicas = λ i. ok (if ltb i 5 then 3 - i else 0);
}

abbrev unwatched : Verify ℕ
unwatched = record {
  scale_up_polls = 24;
  scale_down_polls = 24;
  expected_final_replicas = 0;
  watcher = none;
}

run_test :
    run scripted unwatched
    ≡ ok (record {
      max_replicas_observed = 3;
      final_desired_replicas = 0;
      replica_samples = [];
      releases = 0;
      verdict_error = none;
    })
unfolding run after_peak peak complete watched poll_up poll_down releases_under_load
run_test = refl

run-Outcome_example : Outcome scripted unwatched (run scripted unwatched)
run-Outcome_example = run-Outcome scripted unwatched

-- The second poll fails, the third sees three replicas.
abbrev three_polls : List (ReplicaPoll ℕ)
three_polls =
    record { now = 1; ready = ok 1; desired = ok 1 }
    ∷ record { now = 3; ready = err "timeout"; desired = ok 9 }
    ∷ record { now = 5; ready = ok 2; desired = ok 3 }
    ∷ []

abbrev idle_watcher : ReplicaWatcher ℕ
idle_watcher = record { samples = []; started_at = some 1; errors = []; running = true }

max_observed-watch_replicas_example :
    max_observed (watch_replicas (λ started now. now) three_polls idle_watcher).samples ≡ 3
unfolding max_observed
max_observed-watch_replicas_example =
    max_observed-watch_replicas (λ started now. now) three_polls idle_watcher
