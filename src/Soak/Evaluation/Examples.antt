-- ===== src/Soak/Evaluation/Examples.antt =====
-- A small stream, its index and the criteria over it, and the theorems at them.
use nanolab.Prelude.{
  ℕ, Bool, true, false, some, List, [], ◌∷◌, String, ◌==◌, text_equality, number_equality, ◌≡◌, In,
  All, inl, inr, refl, leb, ◌↔◌,
}
use nanolab.Prelude.Dicts.{get, put, remove}
use nanolab.Soak.Evaluation.Fixture.{
  numbers, canonical, row, policy, targets, rows, stored_at, at_most, sampling, drain, baseline,
  every,
}
use nanolab.Soak.Evaluation.{
  Status, pass, fail, inconclusive, CriterionResult, is_empty, combine_results, by_id_from,
  merge_loop, merge_results,
}
use nanolab.Soak.Evaluation.Merged.{
  Passed, combine_results-pass, Cleared, merge_results-Cleared, merge_results-accepted,
}
use nanolab.Soak.Evaluation.Index.{
  same_target, Stored, identity, non_monotone, crosses, corrupt, Index, valid_labels, stored_value,
  timing, content, index_row, index_rows, index,
}
use nanolab.Soak.Evaluation.Index.Sound.{Inv, index-Inv}
use nanolab.Soak.Evaluation.Index.Complete.{window_samples, index-window_samples}
use nanolab.Soak.Evaluation.Criteria.{
  required_sample_count, visit_samples, median_of, any_nonzero, selected, window, judge_all,
  criterion,
}
use nanolab.Soak.Evaluation.Criteria.Passed.{criterion-Allowed, criterion-judged}

abbrev indexed : Index ℕ
indexed = index leb canonical policy targets rows false

indexed_clean : indexed.issues ≡ []
unfolding index index_rows index_row same_target timing valid_labels stored_value content get put
indexed_clean = refl

index-Inv_example : Inv leb canonical policy targets rows indexed
index-Inv_example = index-Inv leb canonical policy targets rows false

index-window_samples_example : indexed.stored ≡ window_samples leb canonical policy targets rows []
index-window_samples_example =
    index-window_samples leb canonical policy targets rows false indexed_clean

-- A role that is not bound, and a sample out of its window.
strange_issues :
    (index leb canonical policy [] rows false).issues
    ≡ identity ∷ identity ∷ identity ∷ identity ∷ identity ∷ identity ∷ []
unfolding index index_rows index_row same_target timing valid_labels stored_value content get put
strange_issues = refl

crossing_issues :
    (index leb canonical policy targets (row "drain" 29 1 ∷ row "drain" 28 1 ∷ []) true).issues
    ≡ corrupt ∷ non_monotone ∷ crosses ∷ []
unfolding index index_rows index_row same_target timing valid_labels stored_value content get put
crossing_issues = refl

abbrev stored : List (Stored ℕ)
stored =
    stored_at "drain" 40 3
    ∷ stored_at "drain" 35 5
    ∷ stored_at "drain" 30 4
    ∷ stored_at "baseline" 20 4
    ∷ stored_at "baseline" 10 3
    ∷ []

passes : criterion numbers stored (at_most 5) sampling drain baseline every ≡ pass
unfolding criterion judge_all window visit_samples required_sample_count median_of selected
    any_nonzero
passes = refl

fails : criterion numbers stored (at_most 4) sampling drain baseline every ≡ fail
unfolding criterion judge_all window visit_samples required_sample_count median_of selected
    any_nonzero
fails = refl

criterion-Allowed_example :
    (v : ℕ) × ((stored_at "drain" 35 5).value ≡ some v)
    × ((stored_at "drain" 35 5).unit ≡ "bytes")
    × (leb v 5 ≡ true)
criterion-Allowed_example =
    criterion-Allowed numbers stored (at_most 5) sampling drain baseline every
      (stored_at "drain" 35 5) passes (inr (inl refl)) (refl, refl, refl) refl refl refl

criterion-judged_example :
    (l : String) × In l ("[]" ∷ [])
    × (s : Stored ℕ) × In s (selected numbers stored (at_most 5) l "drain" 30 40)
criterion-judged_example =
    criterion-judged numbers stored (at_most 5) sampling drain baseline every passes

abbrev result : String → Status → String → CriterionResult
result id status reason = record {
  criterion_id = id;
  status = status;
  reason = reason;
  evidence = [];
}

abbrev is_growth : String → Bool
is_growth reason = reason == "growth"

abbrev results : List CriterionResult
results = result "rss" inconclusive "growth" ∷ result "errors" pass "checked" ∷ []

abbrev acceptance : List CriterionResult
acceptance = result "rss" pass "attributed" ∷ result "receipts" pass "bound" ∷ []

merged_pass : combine_results (merge_results is_growth results acceptance) false ≡ pass
unfolding combine_results merge_results merge_loop get put remove
merged_pass = refl

combine_results-pass_example :
    (combine_results results false ≡ pass)
    ↔ ((false ≡ false) × (is_empty results ≡ false) × All Passed results)
combine_results-pass_example = combine_results-pass results false

merge_results-Cleared_example : All (Cleared is_growth (by_id_from [] acceptance)) results
merge_results-Cleared_example = merge_results-Cleared is_growth results acceptance merged_pass

accepted_receipts : Passed (result "receipts" pass "bound")
accepted_receipts =
    merge_results-accepted is_growth results acceptance "receipts" (result "receipts" pass "bound")
      merged_pass (unfold get put in refl)
