-- ===== src/Concurrency/Examples.antt =====
-- Runs of the concurrency check on small series.
use nanolab.Prelude.{
  maximum, All, ℕ, ◌+◌, ◌-◌, ◌≤◌, ◌≡◌, ◌↔◌, refl, true, false, none, some, List, [], ◌∷◌, ltb, ◌==◌,
  number_equality, arith, ok, err, length, ◌⊎◌,
}
use nanolab.Concurrency.Samples.{
  ConcurrencyReading, ConcurrencySample, governed_samples, governed_samples-Cut, Cut, IsAt,
}
use nanolab.Concurrency.Dip.{ConcurrencyDip, find_dip, values_of, weaker_side}
use nanolab.Concurrency.Dip.Best.{IsExcursion, find_dip-IsExcursion, find_dip-best}
use nanolab.Concurrency.Response.{
  ConcurrencyResponse, measure_response, summary, verify_concurrency_cycle,
}
use nanolab.Concurrency.Response.Verdict.{
  IsResponse, measure_response-IsResponse, Ground, verify_concurrency_cycle_iff,
}
use nanolab.Concurrency.Trajectory.{
  trajectory, expand, all_latencies, Alternates, trajectory-expand,
}
use nanolab.Concurrency.Watcher.{Floats, Watcher, Poll, loop}
use nanolab.Concurrency.Watcher.Series.{loop-length, loop-rejected, total_rejected}

abbrev sample_at : ℕ → ℕ → ConcurrencySample ℕ
sample_at effective in_flight = record {
  elapsed_seconds = 0;
  effective = effective;
  in_flight = in_flight;
  mean_latency_ms = some effective;
  throughput_rps = none;
  queue_depth = 0;
  mean_queue_wait_ms = none;
  rejected = 0;
}

-- The governor opens on 8, decides on 6, climbs to 7, backs off to 3 and recovers to 5.
abbrev series : List (ConcurrencySample ℕ)
series =
    sample_at 8 0
    ∷ sample_at 8 1
    ∷ sample_at 6 1
    ∷ sample_at 7 2
    ∷ sample_at 3 3
    ∷ sample_at 5 1
    ∷ []

abbrev clearest : ConcurrencyDip
clearest = record { peak_before = 8; trough = 3; recovery_after = 5 }

find_dip_test : find_dip series ≡ some clearest
unfolding find_dip maximum
find_dip_test = refl

governed_test : values_of (governed_samples series) ≡ 6 ∷ 7 ∷ 3 ∷ 5 ∷ []
unfolding governed_samples
governed_test = refl

response : ConcurrencyResponse
response = record { idle_peak = 8; loaded_floor = 3 }

governed_samples-Cut_example :
    (All (IsAt 8) series × (governed_samples series ≡ series))
    ⊎ Cut 8 series (governed_samples series)
governed_samples-Cut_example = governed_samples-Cut (sample_at 8 0) _

find_dip-IsExcursion_example : IsExcursion (values_of series) clearest
find_dip-IsExcursion_example = find_dip-IsExcursion series clearest find_dip_test

-- A shallower excursion of the series, 8 to 6 and back to 7.
shallow : ConcurrencyDip
shallow = record { peak_before = 8; trough = 6; recovery_after = 7 }

shallow-IsExcursion : IsExcursion (values_of series) shallow
unfolding shallow
shallow-IsExcursion = record {
  first = 8;
  before = 8 ∷ [];
  next = 7;
  after = 3 ∷ 5 ∷ [];
  split = refl;
  peak = unfold maximum in refl;
  recovery = unfold maximum in refl;
  fell = omega arith;
  rose = omega arith;
}

find_dip-best_example :
    (d : ConcurrencyDip) × (find_dip series ≡ some d) × (weaker_side shallow ≤ weaker_side d)
find_dip-best_example = find_dip-best series shallow shallow-IsExcursion

response_test : IsResponse series response
unfolding response measure_response
response_test = measure_response-IsResponse series response refl

verify_concurrency_cycle_iff_example :
    (verify_concurrency_cycle (summary "f" series []) ≡ ok tt) ↔ Ground (governed_samples series)
verify_concurrency_cycle_iff_example = verify_concurrency_cycle_iff "f" series []

trajectory-expand_example :
    (expand (trajectory series) ≡ 8 ∷ 8 ∷ 6 ∷ 7 ∷ 3 ∷ 5 ∷ [])
    × (all_latencies (trajectory series) ≡ 8 ∷ 8 ∷ 6 ∷ 7 ∷ 3 ∷ 5 ∷ [])
    × Alternates (trajectory series)
trajectory-expand_example = trajectory-expand series

-- Whole milliseconds in place of floats.
abbrev whole : Floats ℕ
whole = record {
  minus = ◌-◌;
  over_count = λ total n. total;
  count_over = λ n t. n;
  is_positive = λ x. ltb 0 x;
  is_negative = λ x. false;
  is_zero = λ x. x == 0;
  round_to = λ x digits. x;
}

abbrev reading_at : ℕ → ConcurrencyReading ℕ
reading_at refused = record {
  effective = 4;
  in_flight = 2;
  latency_count = refused;
  latency_total_ms = refused;
  queue_depth = 0;
  queue_wait_count = 0;
  queue_wait_total_ms = 0;
  rejected = refused;
}

abbrev watching : Watcher ℕ
watching = record {
  samples = [];
  previous = some (reading_at 3);
  previous_at = some 1;
  started_at = some 1;
  errors = [];
  running = true;
}

abbrev polls : List (Poll ℕ)
polls =
    record { now = 3; scrape = ok (reading_at 5) }
    ∷ record { now = 5; scrape = err "HTTP 503" }
    ∷ record { now = 7; scrape = ok (reading_at 9) }
    ∷ []

every_poll_counted :
    length (loop whole watching polls).samples + length (loop whole watching polls).errors ≡ 3
every_poll_counted = loop-length whole watching polls

loop-rejected_example : total_rejected (loop whole watching polls).samples + 3 ≡ 9
loop-rejected_example =
    loop-rejected whole watching (reading_at 3) polls refl
      (omega arith, (omega arith, (omega arith, tt)))
