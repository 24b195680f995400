-- ===== src/Policy/Environment/Thresholds.antt =====
-- When the load generator is held to a latency threshold.
use nanolab.Prelude.{
  ℕ, ◌≡◌, refl, ap, ◌∙◌, Bool, true, false, not, ◌&&◌, ◌||◌, Option, none, some, [], if◌then◌else◌,
  String, get_elem?, arith,
}
use nanolab.Prelude.Dicts.{get, put, remove, get-put, get-remove}
use nanolab.Policy.{ScenarioConfig, is_profile, is_co_tenancy, burst_peak_vus}
use nanolab.Policy.Environment.{
  Env, end_to_end_p95_budget_ms, open_loop_peak_rps, tell_soak, tell_concurrency, tell_saturation,
  tell_openloop, tell_scale, tell_vus, tell_neighbour, k6_environment,
}

abbrev p95 : String
p95 = "K6_MAX_P95_MS"

-- The profiles under which the threshold on latency is waived.
abbrev pub waives : Option String → Bool
waives profile =
    is_profile "saturation" profile || is_profile "openloop" profile || is_profile "burst" profile

get-waived :
    (waive : Bool) (key value : String) (env : Env)
    → get p95 (if waive then remove p95 (put key value env) else env)
      ≡ (if waive then none else get p95 env)
get-waived true key value env = get-remove p95 p95 (put key value env)
get-waived false key value env = refl

merge :
    (controlled saturation openloop burst : Bool) (t : String)
    → (if burst
        then none
        else if openloop
        then none
        else if saturation
        then none
        else if controlled
        then some t
        else none)
      ≡ (if controlled && not (saturation || openloop || burst) then some t else none)
merge controlled saturation openloop burst t = ground arith

module _ (text_of : ℕ → String) where
  -- The generator is held to the end-to-end budget of the payload exactly in a run under concurrency
  -- control whose profile does not waive it; otherwise no latency threshold is set.
  pub k6_environment-p95 :
      (config : ScenarioConfig) (control_plane_url function_name : String)
      → get "K6_MAX_P95_MS" (k6_environment text_of config control_plane_url function_name) ≡ (
          if config.concurrency_control && not (waives config.load_profile)
          then some (text_of (end_to_end_p95_budget_ms config.payload_profile))
          else none)
  unfolding k6_environment get
  k6_environment-p95 config url name =
      neighbour (is_co_tenancy config) (get_elem? config.functions 1) _
      ∙ vus config.load_vus _
      ∙ scale config.load_scale _
      ∙ get-waived (is_profile "burst" config.load_profile) "K6_PEAK_VUS"
          (text_of (burst_peak_vus config)) (tell_openloop text_of config.load_profile saturated)
      ∙ ap (λ o. if is_profile "burst" config.load_profile then none else o)
          (get-waived (is_profile "openloop" config.load_profile) "K6_PEAK_RPS"
              (text_of open_loop_peak_rps) saturated
            ∙ ap (λ o. if is_profile "openloop" config.load_profile then none else o)
                (get-waived (is_profile "saturation" config.load_profile) "K6_MAX_FAILED_RATE"
                    "0.99" controlled
                  ∙ ap (λ o. if is_profile "saturation" config.load_profile then none else o)
                      (concurrency config.concurrency_control config.soak_minutes)))
      ∙ merge config.concurrency_control (is_profile "saturation" config.load_profile)
          (is_profile "openloop" config.load_profile) (is_profile "burst" config.load_profile)
          budget
    where
      budget : String
      budget = text_of (end_to_end_p95_budget_ms config.payload_profile)

      base : Option ℕ → Env
      base o = tell_soak text_of o (put "NANOFAAS_FUNCTION" name (put "NANOFAAS_URL" url []))

      controlled : Env
      controlled =
          tell_concurrency text_of config.concurrency_control
            (end_to_end_p95_budget_ms config.payload_profile) (base config.soak_minutes)

      saturated : Env
      saturated = tell_saturation text_of config.load_profile controlled

      neighbour :
          (b : Bool) (o : Option String) (env : Env)
          → get p95 (tell_neighbour text_of b o env) ≡ get p95 env
      neighbour true (some n) env = get-put "NANOFAAS_NEIGHBOUR" p95 n env
      neighbour true none env = refl
      neighbour false o env = refl

      vus : (o : Option ℕ) (env : Env) → get p95 (tell_vus text_of o env) ≡ get p95 env
      vus none env = refl
      vus (some n) env = get-put "K6_MAX_VUS" p95 (text_of n) env

      scale : (o : Option String) (env : Env) → get p95 (tell_scale text_of o env) ≡ get p95 env
      scale none env = refl
      scale (some s) env = get-put "K6_RATE_SCALE" p95 s env

      soak : (o : Option ℕ) → get p95 (base o) ≡ none
      soak none = refl
      soak (some m) = refl

      concurrency :
          (controlled : Bool) (o : Option ℕ)
          → get p95 (
              tell_concurrency text_of controlled
                (end_to_end_p95_budget_ms config.payload_profile)
                (base o))
            ≡ (if controlled then some budget else none)
      concurrency true o = get-put p95 p95 budget (put "K6_THINK_SECONDS" "0" (base o))
      concurrency false o = soak o
