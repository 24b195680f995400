-- ===== src/Soak/Evaluation.antt =====
-- evaluate.py: the verdict of a list of results, and how the results of the acceptance are merged into
-- those of the criteria. `starts_with_growth` stands for the test of a reason's first words.
pub mod Merged
pub mod Index
pub mod Criteria
pub mod Percentile
pub mod Whole
pub mod Fixture
mod Examples
use nanolab.Prelude.{
  Bool, true, false, not, ◌&&◌, ◌||◌, Option, none, some, List, [], ◌∷◌, ◌++◌, if◌then◌else◌,
  String, ◌≡◌, ◌<>◌, Dict, values,
}
use nanolab.Prelude.Dicts.{get, put, remove}

pub data Status : Type 0 where
  pass fail inconclusive aborted : Status

pub record CriterionResult : Type 0 where
  pub criterion_id : String
  pub status : Status
  pub reason : String
  pub evidence : List String

abbrev pub is_pass : Status → Bool
is_pass pass = true
is_pass _ = false

abbrev pub is_fail : Status → Bool
is_fail fail = true
is_fail _ = false

abbrev pub is_aborted : Status → Bool
is_aborted aborted = true
is_aborted _ = false

abbrev pub is_inconclusive : Status → Bool
is_inconclusive inconclusive = true
is_inconclusive _ = false

abbrev pub any_status : (Status → Bool) → List CriterionResult → Bool
any_status p [] = false
any_status p (r ∷ rs) = p r.status || any_status p rs

abbrev pub is_empty : List CriterionResult → Bool
is_empty [] = true
is_empty (_ ∷ _) = false

unfoldable pub combine_results : List CriterionResult → Bool → Status
combine_results results was_aborted =
    if was_aborted || any_status is_aborted results
    then aborted
    else if any_status is_fail results
    then fail
    else if is_empty results || any_status (λ s. not (is_pass s)) results
    then inconclusive
    else pass

-- `{item.criterion_id: item for item in acceptance}`: the last of an id wins.
abbrev pub by_id_from : Dict CriterionResult → List CriterionResult → Dict CriterionResult
by_id_from d [] = d
by_id_from d (r ∷ rs) = by_id_from (put r.criterion_id r d) rs

abbrev pub as_acceptance : CriterionResult → CriterionResult
as_acceptance r = record r { criterion_id = "acceptance." <> r.criterion_id }

module _ (starts_with_growth : String → Bool) where
  -- A replacement stands for a growth that needed review, where it passed.
  abbrev pub replaces : CriterionResult → CriterionResult → Bool
  replaces r item =
      is_inconclusive item.status && starts_with_growth item.reason && is_pass r.status

  abbrev pub merge_item : CriterionResult → Option CriterionResult → List CriterionResult
  merge_item item none = item ∷ []
  merge_item item (some r) = if replaces r item then r ∷ [] else item ∷ as_acceptance r ∷ []

  -- The loop over the results, then the replacements that no result has taken.
  unfoldable pub merge_loop : List CriterionResult → Dict CriterionResult → List CriterionResult
  merge_loop [] d = values d
  merge_loop (item ∷ items) d =
      merge_item item (get item.criterion_id d) ++ merge_loop items (remove item.criterion_id d)

  unfoldable pub merge_results : List CriterionResult → List CriterionResult → List CriterionResult
  merge_results results acceptance = merge_loop results (by_id_from [] acceptance)
