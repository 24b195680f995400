-- ===== src/Autoscaling/Watching.antt =====
-- ReplicaWatcher of autoscaling.py. One poll is the time that the clock read, and what the probe gave for
-- the two counts; `elapsed` stands for the rounded difference of two times.
use nanolab.Prelude.{
  ℕ, ◌≡◌, Bool, true, false, Option, some, List, [], ◌∷◌, ◌++◌, if◌then◌else◌, String, Result, ok,
  err, max, arith,
}
use nanolab.Autoscaling.Releases.{ReplicaSample, max_observed}

pub record ReplicaWatcher (F : Type 0) : Type 0 where
  pub samples : List (ReplicaSample F)
  pub started_at : Option F
  pub errors : List String
  pub running : Bool

pub record ReplicaPoll (F : Type 0) : Type 0 where
  pub now : F
  pub ready : Result String ℕ
  pub desired : Result String ℕ

pub data AlreadyStarted : Type 0 where
  already_started : AlreadyStarted

module _ {F : Type 0} (elapsed : Option F → F → F) where
  -- The ready count is read first; a query that raises leaves its text only.
  abbrev pub take_counts :
      F → Result String ℕ → Result String ℕ → ReplicaWatcher F → ReplicaWatcher F
  take_counts now (err e) desired w = record w { errors = w.errors ++ e ∷ [] }
  take_counts now (ok ready) (err e) w = record w { errors = w.errors ++ e ∷ [] }
  take_counts now (ok ready) (ok desired) w = record w {
    samples =
        w.samples
        ++ record { elapsed_seconds = elapsed w.started_at now; desired = desired; ready = ready }
          ∷ [];
  }

  -- `_sample`
  abbrev pub sample_replicas : ReplicaPoll F → ReplicaWatcher F → ReplicaWatcher F
  sample_replicas poll w = take_counts poll.now poll.ready poll.desired w

  -- `_loop`, for the polls until the stop event is set.
  unfoldable pub watch_replicas : List (ReplicaPoll F) → ReplicaWatcher F → ReplicaWatcher F
  watch_replicas [] w = w
  watch_replicas (poll ∷ polls) w = watch_replicas polls (sample_replicas poll w)

  unfoldable pub start_watching :
      F → ReplicaPoll F → ReplicaWatcher F → Result AlreadyStarted (ReplicaWatcher F)
  start_watching now opening w =
      if w.running
      then err already_started
      else ok
          (record (sample_replicas opening (record w { started_at = some now })) { running = true })

  unfoldable pub stop_watching : ReplicaWatcher F → ReplicaWatcher F
  stop_watching w = record w { running = false }

-- The higher count of a poll that gave both, otherwise 0.
abbrev pub higher_count : Result String ℕ → Result String ℕ → ℕ
higher_count (ok ready) (ok desired) = max desired ready
higher_count _ _ = 0

-- The highest count that any of the polls gave.
abbrev pub highest_count : {F : Type 0} → List (ReplicaPoll F) → ℕ
highest_count [] = 0
highest_count (p ∷ ps) = max (higher_count p.ready p.desired) (highest_count ps)

max_observed-snoc :
    {F : Type 0} (ss : List (ReplicaSample F)) (s : ReplicaSample F)
    → max_observed (ss ++ s ∷ []) ≡ max (max_observed ss) (max s.desired s.ready)
unfolding max_observed
max_observed-snoc [] s = omega arith
max_observed-snoc (x ∷ ss) s = let later = max_observed-snoc ss s in omega arith

module _ {F : Type 0} (elapsed : Option F → F → F) where
  max_observed-take_counts :
      (now : F) (ready desired : Result String ℕ) (w : ReplicaWatcher F)
      → max_observed (take_counts elapsed now ready desired w).samples
        ≡ max (max_observed w.samples) (higher_count ready desired)
  max_observed-take_counts now (err e) desired w = omega arith
  max_observed-take_counts now (ok ready) (err e) w = omega arith
  max_observed-take_counts now (ok ready) (ok desired) w = max_observed-snoc w.samples _

  -- What a watcher reports as the highest count is the highest that its samples so far and any of its
  -- polls gave: a query that raises hides only its own poll.
  pub max_observed-watch_replicas :
      (polls : List (ReplicaPoll F)) (w : ReplicaWatcher F)
      → max_observed (watch_replicas elapsed polls w).samples
        ≡ max (max_observed w.samples) (highest_count polls)
  unfolding watch_replicas
  max_observed-watch_replicas [] w = omega arith
  max_observed-watch_replicas (p ∷ ps) w =
      let here = max_observed-take_counts p.now p.ready p.desired w in
      let later = max_observed-watch_replicas ps (sample_replicas elapsed p w) in omega arith
