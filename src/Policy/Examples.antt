-- ===== src/Policy/Examples.antt =====
-- Drains of ten minutes and of a half hour, and a co-tenancy run.
use nanolab.Prelude.{
  ℕ, String, true, false, none, some, if◌then◌else◌, ◌==◌, number_equality, ◌≡◌, refl, [], ◌∷◌,
}
use nanolab.Prelude.Dicts.{get}
use nanolab.Policy.{
  ScenarioConfig, medium, drain_checkpoints, load_script_name, is_co_tenancy, burst_peak_vus,
}
use nanolab.Policy.Environment.{k6_environment}
use nanolab.Policy.Environment.Thresholds.{k6_environment-p95}
use nanolab.Policy.Drain.{IsDrain, drain_checkpoints-IsDrain}

ten_minutes_test : drain_checkpoints 10 ≡ 0 ∷ 30 ∷ 300 ∷ 600 ∷ []
unfolding drain_checkpoints
ten_minutes_test = refl

half_hour_test : drain_checkpoints 30 ≡ 0 ∷ 30 ∷ 300 ∷ 1800 ∷ []
unfolding drain_checkpoints
half_hour_test = refl

drain_checkpoints-IsDrain_example : IsDrain 600 (drain_checkpoints 10)
drain_checkpoints-IsDrain_example = drain_checkpoints-IsDrain 10

-- A co-tenancy run on the medium corpus.
abbrev pair_config : ScenarioConfig
pair_config = record {
  concurrency_control = true;
  autoscaling = false;
  functions = "word-stats-java" ∷ "word-stats-python" ∷ [];
  load_profile = none;
  payload_profile = some medium;
  soak_minutes = none;
  load_scale = none;
  load_vus = some 200;
}

abbrev print : ℕ → String
print n = if n == 120 then "120" else "?"

load_script_name_test : load_script_name pair_config ≡ "co-tenancy.js"
unfolding load_script_name is_co_tenancy
load_script_name_test = refl

burst_peak_vus_test : burst_peak_vus pair_config ≡ 103
unfolding burst_peak_vus is_co_tenancy
burst_peak_vus_test = refl

k6_environment-p95_example :
    get "K6_MAX_P95_MS" (k6_environment print pair_config "http://cp" "word-stats-java")
    ≡ some "120"
k6_environment-p95_example = k6_environment-p95 print pair_config "http://cp" "word-stats-java"
