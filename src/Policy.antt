-- ===== src/Policy.antt =====
-- Decisions of packages/nanolab/src/nanolab/application/loadtest_policy.py: which moments of a drain
-- are sampled, which script drives a function, and how hard a burst presses.
pub mod Drain
pub mod Environment
mod Examples
use nanolab.Prelude.{
  ℕ, zero, suc, ◌+◌, ◌-◌, ◌*◌, ◌/◌, Bool, true, false, not, ◌&&◌, ◌||◌, Option, none, some, List,
  [], ◌∷◌, ◌++◌, if◌then◌else◌, leb, keep, String, length, min, ◌==◌, text_equality,
  number_equality,
}

pub data PayloadProfile : Type 0 where
  small medium large : PayloadProfile

-- The fields of ScenarioConfig that these decisions read.
pub record ScenarioConfig : Type 0 where
  pub concurrency_control : Bool
  pub autoscaling : Bool
  pub functions : List String
  pub load_profile : Option String
  pub payload_profile : Option PayloadProfile
  pub soak_minutes : Option ℕ
  -- `str(load_scale)`, unless the scale is close to 1
  pub load_scale : Option String
  pub load_vus : Option ℕ

-- `inside[-1]`, for a list that begins with `first`.
abbrev pub last_of : ℕ → List ℕ → ℕ
last_of first [] = first
last_of first (x ∷ xs) = last_of x xs

abbrev close_window : ℕ → List ℕ → List ℕ
close_window limit [] = []
close_window limit (x ∷ xs) = if last_of x xs == limit then x ∷ xs else (x ∷ xs) ++ limit ∷ []

-- The list is never empty, since 0 is within every window.
unfoldable pub drain_checkpoints : ℕ → List ℕ
drain_checkpoints drain_minutes =
    close_window (drain_minutes * 60)
      (keep (λ c. leb c (drain_minutes * 60)) (0 ∷ 30 ∷ 300 ∷ 1800 ∷ []))

unfoldable pub is_co_tenancy : ScenarioConfig → Bool
is_co_tenancy config = config.concurrency_control && leb 2 (length config.functions)

abbrev pub is_profile : String → Option String → Bool
is_profile name none = false
is_profile name (some profile) = profile == name

unfoldable pub load_script_name : ScenarioConfig → String
unfolding is_co_tenancy
load_script_name config =
    if is_co_tenancy config
    then (if is_profile "burst" config.load_profile
        then "co-tenancy-burst.js"
        else if is_profile "openloop" config.load_profile
        then "open-loop.js"
        else "co-tenancy.js")
    else if config.autoscaling || config.concurrency_control
    then "autoscaling.js"
    else "two-vm-function-invoke.js"

abbrev pub concurrency_ceiling : ℕ
concurrency_ceiling = 8

abbrev pub concurrency_queue_size : ℕ
concurrency_queue_size = 100

abbrev pub burst_total_budget : ℕ
burst_total_budget = 12

-- The limit that a burst is calibrated against.
abbrev pub burst_limit : ScenarioConfig → ℕ
burst_limit config =
    if is_co_tenancy config
    then min concurrency_ceiling (burst_total_budget / length config.functions)
    else concurrency_ceiling

unfoldable pub burst_peak_vus : ScenarioConfig → ℕ
unfolding is_co_tenancy
burst_peak_vus config = burst_limit config + concurrency_queue_size - 3
