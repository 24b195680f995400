-- ===== src/Policy/Environment.antt =====
-- `k6_environment` of loadtest_policy.py: what the load generator is told. `text_of` stands for `str` on
-- integers.
pub mod Thresholds
use nanolab.Prelude.{
  ℕ, ◌*◌, ◌≡◌, refl, Bool, true, false, not, ◌&&◌, ◌||◌, Option, none, some, List, [], ◌∷◌,
  if◌then◌else◌, String, Dict, get_elem?,
}
use nanolab.Prelude.Dicts.{get, put, remove}
use nanolab.Policy.{
  ScenarioConfig, PayloadProfile, small, medium, large, is_profile, is_co_tenancy, burst_peak_vus,
}

abbrev pub end_to_end_p95_budget_ms : Option PayloadProfile → ℕ
end_to_end_p95_budget_ms none = 50
end_to_end_p95_budget_ms (some small) = 60
end_to_end_p95_budget_ms (some medium) = 120
end_to_end_p95_budget_ms (some large) = 600

abbrev pub open_loop_peak_rps : ℕ
open_loop_peak_rps = 1_800

abbrev pub Env : Type 0
Env = Dict String

module _ (text_of : ℕ → String) where
  abbrev pub tell_soak : Option ℕ → Env → Env
  tell_soak none env = env
  tell_soak (some minutes) env = put "K6_SOAK_SECONDS" (text_of (minutes * 60)) env

  abbrev pub tell_concurrency : Bool → ℕ → Env → Env
  tell_concurrency controlled budget env =
      if controlled
      then put "K6_MAX_P95_MS" (text_of budget) (put "K6_THINK_SECONDS" "0" env)
      else env

  -- The profiles that waive the latency threshold.
  abbrev pub tell_saturation : Option String → Env → Env
  tell_saturation profile env =
      if is_profile "saturation" profile
      then remove "K6_MAX_P95_MS" (put "K6_MAX_FAILED_RATE" "0.99" env)
      else env

  abbrev pub tell_openloop : Option String → Env → Env
  tell_openloop profile env =
      if is_profile "openloop" profile
      then remove "K6_MAX_P95_MS" (put "K6_PEAK_RPS" (text_of open_loop_peak_rps) env)
      else env

  abbrev pub tell_burst : Option String → ℕ → Env → Env
  tell_burst profile peak env =
      if is_profile "burst" profile
      then remove "K6_MAX_P95_MS" (put "K6_PEAK_VUS" (text_of peak) env)
      else env

  abbrev pub tell_scale : Option String → Env → Env
  tell_scale none env = env
  tell_scale (some scale) env = put "K6_RATE_SCALE" scale env

  abbrev pub tell_vus : Option ℕ → Env → Env
  tell_vus none env = env
  tell_vus (some vus) env = put "K6_MAX_VUS" (text_of vus) env

  -- A co-tenancy run has a second function.
  abbrev pub tell_neighbour : Bool → Option String → Env → Env
  tell_neighbour true (some name) env = put "NANOFAAS_NEIGHBOUR" name env
  tell_neighbour _ _ env = env

  unfoldable pub k6_environment : ScenarioConfig → String → String → Env
  unfolding is_co_tenancy burst_peak_vus put remove
  k6_environment config control_plane_url function_name =
      tell_neighbour (is_co_tenancy config) (get_elem? config.functions 1) (
        tell_vus config.load_vus (
          tell_scale config.load_scale (
            tell_burst config.load_profile (burst_peak_vus config) (
              tell_openloop config.load_profile (
                tell_saturation config.load_profile (
                  tell_concurrency config.concurrency_control
                    (end_to_end_p95_budget_ms config.payload_profile)
                    (tell_soak config.soak_minutes (
                      put "NANOFAAS_FUNCTION" function_name
                        (put "NANOFAAS_URL" control_plane_url [])))))))))
