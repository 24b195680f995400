-- ===== src/Autoscaling/Releases.antt =====
-- `ReplicaSample` and `releases_under_load` of autoscaling.py.
pub mod Rises
use nanolab.Prelude.{
  ℕ, zero, suc, ◌+◌, Bool, true, false, ◌&&◌, ◌||◌, Option, none, some, List, [], ◌∷◌,
  if◌then◌else◌, ltb, Equality, ◌==◌, number_equality, max,
}

pub record ReplicaSample (F : Type 0) : Type 0 where
  pub elapsed_seconds : F
  pub desired : ℕ
  pub ready : ℕ

abbrev pub was_zero : Option ℕ → Bool
was_zero none = false
was_zero (some desired) = desired == 0

-- The state of the loop.
pub record Count : Type 0 where
  pub releases : ℕ
  pub seen_running : Bool
  pub previous : Option ℕ

module _ {F : Type 0} where
  abbrev pub observe : Count → ReplicaSample F → Count
  observe c s = record {
    releases =
        if was_zero c.previous && ltb 0 s.desired && c.seen_running
        then c.releases + 1
        else c.releases;
    seen_running = c.seen_running || ltb 0 s.desired;
    previous = some s.desired;
  }

  unfoldable pub count : Count → List (ReplicaSample F) → Count
  count c [] = c
  count c (s ∷ ss) = count (observe c s) ss

  unfoldable pub releases_under_load : List (ReplicaSample F) → ℕ
  unfolding count
  releases_under_load samples =
      (count (record { releases = 0; seen_running = false; previous = none }) samples).releases

  -- ReplicaWatcher.max_observed
  unfoldable pub max_observed : List (ReplicaSample F) → ℕ
  max_observed [] = 0
  max_observed (s ∷ ss) = max (max s.desired s.ready) (max_observed ss)
