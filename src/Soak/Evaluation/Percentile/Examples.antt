-- ===== src/Soak/Evaluation/Percentile/Examples.antt =====
-- Quantiles of small families, and a percentile over a stored window.
use nanolab.Prelude.{
  ℕ, ◌+◌, ◌-◌, ◌*◌, ◌/◌, Bool, true, false, Option, none, some, List, [], ◌∷◌, String, ◌≡◌, ◌≢◌,
  refl, arith, All, ok, err, leb, text_equality,
}
use nanolab.Prelude.Dicts.{get, put}
use nanolab.Soak.Evaluation.Fixture.{leb_trans, leb_total}
use nanolab.Soak.Evaluation.{pass}
use nanolab.Soak.Evaluation.Index.{Stored}
use nanolab.Soak.Evaluation.Criteria.{
  Numbers, maximum_of, Criterion, Sampling, window, series_from, selected, visit_samples,
  required_sample_count, median_of,
}
use nanolab.Soak.Evaluation.Percentile.{
  bucket_quantile, find_bucket, no_bucket, no_observation, open_ended, percentile, gather, gathered,
  nothing_gathered, Gathered, read_bound, worst,
}
use nanolab.Soak.Evaluation.Percentile.Families.{bucket_quantile-ends, AllWithin}
use nanolab.Soak.Evaluation.Percentile.Reached.{percentile-AllWithin, gathering}

-- Counts where a quantile is one half: its share of a total is the half of it.
abbrev halves : Numbers ℕ
halves = record {
  leq = leb;
  zero_value = 0;
  plus = λ a b. a + b;
  minus = λ a b. a - b;
  times = λ a b. a * b / 2;
  half = λ a. a / 2;
  absolute = λ a. a;
  floor_ratio = λ a b. a / b;
  leq_trans = leb_trans;
  leq_total = leb_total;
}

abbrev top_bound : ℕ
top_bound = 1000

abbrev ratio : ℕ → ℕ → ℕ
ratio a b = a * 2 / b

share_of_total : (t : ℕ) → leb t 0 ≡ false → leb (1 * t / 2) t ≡ true
share_of_total t h = ground arith

placed : bucket_quantile halves top_bound ratio 1 ((1000, 10) ∷ (5, 4) ∷ (10, 8) ∷ []) ≡ ok 6
unfolding bucket_quantile find_bucket
placed = refl

nothing_seen :
    bucket_quantile halves top_bound ratio 1 ((5, 0) ∷ (1000, 0) ∷ []) ≡ err no_observation
unfolding bucket_quantile find_bucket
nothing_seen = refl

one_bucket : bucket_quantile halves top_bound ratio 1 ((1000, 3) ∷ []) ≡ err open_ended
unfolding bucket_quantile find_bucket
one_bucket = refl

bucket_quantile-ends_example :
    bucket_quantile halves top_bound ratio 1 ((1000, 10) ∷ (5, 4) ∷ (10, 8) ∷ []) ≢ err no_bucket
bucket_quantile-ends_example =
    bucket_quantile-ends halves top_bound ratio 1 ((1000, 10) ∷ (5, 4) ∷ (10, 8) ∷ [])
      share_of_total

abbrev bucket_at : String → ℕ → ℕ → Stored ℕ
bucket_at le at count = record {
  role = "api";
  phase = "steady";
  scheduled = at;
  metric = "switch_bucket";
  labels = le;
  unit = "count";
  value = some count;
}

abbrev stored : List (Stored ℕ)
stored = bucket_at "5" 0 1 ∷ bucket_at "5" 10 5 ∷ bucket_at "+Inf" 0 1 ∷ bucket_at "+Inf" 10 6 ∷ []

abbrev switch_criterion : Criterion ℕ
switch_criterion = record {
  role = "api";
  metric = "switch_bucket";
  unit = "count";
  phase = "steady";
  operation = maximum_of 0;
  window_s = 10;
  deadline_s = none;
}

abbrev sampling : Sampling ℕ
sampling = record { sample_interval_s = 10; max_observation_gap_s = 10 }

abbrev float_of : String → Option ℕ
float_of s = some 5

abbrev bound_of : String → Option String
bound_of labels = some labels

abbrev family_of : String → String
family_of labels = ""

abbrev every : String → Bool
every labels = true

passes :
    percentile halves top_bound ratio float_of bound_of family_of stored switch_criterion sampling
      every 1 5 0 10
    ≡ ok pass
unfolding percentile gather window selected visit_samples required_sample_count median_of read_bound
    worst bucket_quantile find_bucket get put
passes = refl

percentile-AllWithin_example :
    (g : Gathered ℕ) × (g.families ≢ [])
    × AllWithin halves top_bound ratio 1 5 g.families
    × All
        (λ l. (window halves stored switch_criterion sampling l "steady" 0 10).complete ≡ true)
        (series_from switch_criterion every stored)
    × (gathering halves top_bound ratio float_of bound_of family_of
          (λ l. window halves stored switch_criterion sampling l "steady" 0 10)
          (series_from switch_criterion every stored)
          (gathered (nothing_gathered halves top_bound ratio float_of bound_of family_of))
        ≡ gathered g)
percentile-AllWithin_example =
    percentile-AllWithin halves top_bound ratio float_of bound_of family_of stored switch_criterion
      sampling every 1 5 0 10 passes
