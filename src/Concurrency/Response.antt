-- ===== src/Concurrency/Response.antt =====
-- The verdict of concurrency.py on a run: `measure_response`, ConcurrencySummary with the watcher's
-- `summary`, `verify_observable` and `verify_concurrency_cycle`.
pub mod Verdict
use nanolab.Prelude.{
  ℕ, String, Bool, true, false, not, ◌&&◌, Option, none, some, List, [], ◌∷◌, if◌then◌else◌, ltb,
  leb, maximum, minimum, Result, ok, err, ◌>>=◌, ◌>>◌,
}
use nanolab.Concurrency.Samples.{ConcurrencySample, governed_samples}
use nanolab.Concurrency.Dip.{ConcurrencyDip, find_dip, values_of}

pub record ConcurrencyResponse : Type 0 where
  pub idle_peak : ℕ
  pub loaded_floor : ℕ

abbrev pub gave_ground : ConcurrencyResponse → Bool
gave_ground r = ltb r.loaded_floor r.idle_peak

pub record ConcurrencySummary (F : Type 0) : Type 0 where
  pub function_name : String
  pub samples : List (ConcurrencySample F)
  pub dip : Option ConcurrencyDip
  pub response : Option ConcurrencyResponse
  pub errors : List String

pub data Failure : Type 0 where
  no_readings never_both never_gave_ground : Failure

-- `max(idle)` and `min(loaded)`, or None where one of them is empty.
abbrev respond : List ℕ → List ℕ → Option ConcurrencyResponse
respond (i ∷ is) (l ∷ ls) = some (record { idle_peak = maximum i is; loaded_floor = minimum l ls })
respond _ _ = none

abbrev judge : Result Failure ConcurrencyResponse → Result Failure (Unit {0})
judge (err e) = err e
judge (ok r) = if gave_ground r then ok tt else err never_gave_ground

-- `min(…, default=0)` and `max(…, default=0)`
abbrev lowest : List ℕ → ℕ
lowest [] = 0
lowest (x ∷ xs) = minimum x xs

abbrev highest : List ℕ → ℕ
highest [] = 0
highest (x ∷ xs) = maximum x xs

module _ {F : Type 0} where
  abbrev pub is_idle : ConcurrencySample F → Bool
  is_idle s = ltb s.in_flight s.effective

  abbrev pub is_loaded : ConcurrencySample F → Bool
  is_loaded s = leb 1 s.effective && leb s.effective s.in_flight

  -- `[s.effective for s in samples if test(s)]`
  limits : (ConcurrencySample F → Bool) → List (ConcurrencySample F) → List ℕ
  limits test [] = []
  limits test (s ∷ ss) = if test s then s.effective ∷ limits test ss else limits test ss

  unfoldable pub measure_response : List (ConcurrencySample F) → Option ConcurrencyResponse
  unfolding limits maximum minimum
  measure_response samples = respond (limits is_idle samples) (limits is_loaded samples)

  -- ConcurrencyWatcher.summary
  unfoldable pub summary : String → List (ConcurrencySample F) → List String → ConcurrencySummary F
  unfolding governed_samples find_dip measure_response
  summary function_name samples errors = record {
    function_name = function_name;
    samples = samples;
    dip = find_dip (governed_samples samples);
    response = measure_response (governed_samples samples);
    errors = errors;
  }

  pub min_observed : ConcurrencySummary F → ℕ
  min_observed s = lowest (values_of s.samples)

  pub max_observed : ConcurrencySummary F → ℕ
  max_observed s = highest (values_of s.samples)

  abbrev observed :
      List (ConcurrencySample F) → Option ConcurrencyResponse → Result Failure ConcurrencyResponse
  observed [] response = err no_readings
  observed (s ∷ ss) none = err never_both
  observed (s ∷ ss) (some r) = ok r

  -- `verify_observable`, with the response that it has shown to be there.
  unfoldable pub verify_observable : ConcurrencySummary F → Result Failure ConcurrencyResponse
  verify_observable s = observed s.samples s.response

  unfoldable pub verify_concurrency_cycle : ConcurrencySummary F → Result Failure (Unit {0})
  unfolding verify_observable
  verify_concurrency_cycle s = judge (verify_observable s)
