-- ===== src/Offload.antt =====
-- `evaluate_conservation` of packages/nanolab/src/nanolab/tasks/loadtest/offload_conservation.py. What the
-- readers of the k6 summary and of the metric texts give is an argument: a counter, which is a natural
-- number, or the text of the ValueError. A counter that could not be read is NaN, here `none`, and no
-- comparison with NaN holds.
pub mod Reconciled
mod Examples
use nanolab.Prelude.{
  ℕ, zero, suc, ◌+◌, ◌-◌, Bool, true, false, ◌||◌, Option, none, some, List, [], ◌∷◌, ◌++◌,
  if◌then◌else◌, ltb, String, Result, ok, err, length, ◌==◌, number_equality,
}

pub record Readings : Type 0 where
  pub k6_offloadable_requests : Result String ℕ
  pub edge_success_offloadable : Result String ℕ
  pub k6_offloaded_requests : Result String ℕ
  pub edge_offload_total : Result String ℕ
  pub cloud_success_offloadable : Result String ℕ
  pub edge_offload_control : Result String ℕ
  pub edge_retries_offloadable : Result String ℕ
  pub edge_retries_control : Result String ℕ
  -- `control in cloud_metrics`, and "nanofaas_offload_failure_total" in edge_metrics
  pub cloud_mentions_control : Bool
  pub edge_exposes_failures : Bool

pub data OffloadFailure : Type 0 where
  unread : String → OffloadFailure
  diverges : ℕ → ℕ → OffloadFailure
  nothing_offloaded control_offloaded control_in_cloud offload_failed retried : OffloadFailure

-- The value that `record` returns, and the failure that it adds.
abbrev pub value_of : Result String ℕ → Option ℕ
value_of (ok n) = some n
value_of (err e) = none

abbrev pub unread_of : Result String ℕ → List OffloadFailure
unread_of (ok n) = []
unread_of (err e) = unread e ∷ []

-- `check_close`: `abs(a - b) > tolerance`
abbrev pub check_close : ℕ → Option ℕ → Option ℕ → List OffloadFailure
check_close tolerance (some a) (some b) =
    if ltb tolerance (a - b) || ltb tolerance (b - a) then diverges a b ∷ [] else []
check_close tolerance _ _ = []

abbrev pub check_some : Option ℕ → List OffloadFailure
check_some none = []
check_some (some n) = if n == 0 then nothing_offloaded ∷ [] else []

abbrev pub check_at_most : ℕ → OffloadFailure → Option ℕ → List OffloadFailure
check_at_most tolerance failure none = []
check_at_most tolerance failure (some n) = if ltb tolerance n then failure ∷ [] else []

abbrev pub check_absent : OffloadFailure → Bool → List OffloadFailure
check_absent failure there = if there then failure ∷ [] else []

unfoldable pub collect : List (List OffloadFailure) → List OffloadFailure
collect [] = []
collect (fs ∷ more) = fs ++ collect more

-- The checks, in the order of the code, with the failures that each one appends.
abbrev pub checks_of : ℕ → Readings → List (List OffloadFailure)
checks_of tolerance r =
    unread_of r.k6_offloadable_requests
    ∷ unread_of r.edge_success_offloadable
    ∷ check_close tolerance (value_of r.k6_offloadable_requests)
        (value_of r.edge_success_offloadable)
    ∷ unread_of r.k6_offloaded_requests
    ∷ check_some (value_of r.k6_offloaded_requests)
    ∷ unread_of r.edge_offload_total
    ∷ unread_of r.cloud_success_offloadable
    ∷ check_close tolerance (value_of r.k6_offloaded_requests) (value_of r.edge_offload_total)
    ∷ check_close tolerance (value_of r.edge_offload_total) (value_of r.cloud_success_offloadable)
    ∷ check_close tolerance (value_of r.k6_offloaded_requests)
        (value_of r.cloud_success_offloadable)
    ∷ unread_of r.edge_offload_control
    ∷ check_at_most tolerance control_offloaded (value_of r.edge_offload_control)
    ∷ check_absent control_in_cloud r.cloud_mentions_control
    ∷ check_absent offload_failed r.edge_exposes_failures
    ∷ unread_of r.edge_retries_offloadable
    ∷ check_at_most tolerance retried (value_of r.edge_retries_offloadable)
    ∷ unread_of r.edge_retries_control
    ∷ check_at_most tolerance retried (value_of r.edge_retries_control)
    ∷ []

-- `failures`
unfoldable pub failures_of : ℕ → Readings → List OffloadFailure
unfolding collect
failures_of tolerance r = collect (checks_of tolerance r)

unfoldable pub passed : ℕ → Readings → Bool
unfolding failures_of
passed tolerance r = length (failures_of tolerance r) == 0
