-- ===== src/Soak/Evaluation/Whole/Examples.antt =====
-- An evaluation of a small stream as a whole.
use nanolab.Prelude.{
  ℕ, ◌/◌, true, false, Option, none, some, List, [], ◌∷◌, text_equality, number_equality, ◌≡◌, In,
  inl, inr, refl, leb,
}
use nanolab.Prelude.Dicts.{get, put, remove}
use nanolab.Soak.Evaluation.Fixture.{
  numbers, canonical, policy, targets, rows, stored_at, at_most, sampling, drain, baseline, every,
}
use nanolab.Soak.Evaluation.{pass, CriterionResult, combine_results, merge_results, merge_loop}
use nanolab.Soak.Evaluation.Index.{
  torn, crosses, malformed, same_target, valid_labels, stored_value, timing, content, index_row,
  index_rows, index,
}
use nanolab.Soak.Evaluation.Index.Complete.{window_samples}
use nanolab.Soak.Evaluation.Criteria.{
  required_sample_count, visit_samples, median_of, any_nonzero, selected, window, judge_all,
}
use nanolab.Soak.Evaluation.Whole.{Rule, Reader, result_of, integrity, judge_rules, evaluate_run}
use nanolab.Soak.Evaluation.Whole.Firm.{evaluate_run-Allowed}

abbrev reader : Reader ℕ
reader = record {
  canonical = canonical;
  infinity = 1000;
  ratio = λ a b. a / b;
  float_of = λ s. none;
  bound_of = λ s. none;
  family_of = λ s. s;
}

abbrev rule : Rule ℕ
rule = record { id = "rss"; criterion = at_most 5; selects = every; quantile = none }

abbrev accept_nothing : List CriterionResult → Option (List CriterionResult)
accept_nothing results = some []

abbrev accept_unbound : List CriterionResult → List CriterionResult
accept_unbound results = []

abbrev results : List CriterionResult
results =
    result_of "rss" pass "numerical window checks passed; not full-run acceptance"
    ∷ integrity []
    ∷ []

evaluated :
    evaluate_run accept_nothing accept_unbound numbers reader sampling policy targets
      (rule ∷ [])
      rows
      false
    ≡ some results
unfolding evaluate_run judge_rules judge_all window visit_samples required_sample_count median_of
    selected any_nonzero index index_rows index_row same_target timing valid_labels stored_value
    content get put merge_results merge_loop remove
evaluated = refl

-- The texts of the issues that were met, each once, in their order.
joined_reasons :
    (integrity (torn ∷ crosses ∷ torn ∷ malformed ∷ [])).reason
    ≡ "malformed, nonfinite or duplicate sample; sample crosses natural phase boundary; torn sample stream"
joined_reasons = refl

results_pass : combine_results results false ≡ pass
unfolding combine_results
results_pass = refl

sampled : In (stored_at "drain" 35 5) (window_samples leb canonical policy targets rows [])
unfolding timing content valid_labels stored_value get
sampled = inr (inl refl)

evaluate_run-Allowed_example :
    (v : ℕ) × ((stored_at "drain" 35 5).value ≡ some v)
    × ((stored_at "drain" 35 5).unit ≡ "bytes")
    × (leb v 5 ≡ true)
unfolding get
evaluate_run-Allowed_example =
    evaluate_run-Allowed accept_nothing accept_unbound numbers reader sampling policy targets
      (rule ∷ []) rows false results rule drain baseline (stored_at "drain" 35 5) evaluated
      results_pass (inl refl) refl tt refl refl sampled (refl, refl, refl) refl refl refl
