-- ===== src/Soak/Evaluation/Whole.antt =====
-- evaluate.py: `evaluate_run`, from the rows of the stream and the validated input. The acceptance of
-- acceptance.py is an argument: `accept` is what it gives for the policy, `none` where it raises, and
-- `accept_unbound` what it gives without one.
pub mod Growth
pub mod Joined
pub mod Firm
mod Examples
use nanolab.Prelude.{
  ◌<>◌, ◌||◌, ◌==◌, text_equality, not, Bool, true, false, Option, none, some, List, [], ◌∷◌, ◌++◌,
  if◌then◌else◌, String, Dict, Result, ok, err,
}
use text.Mathlib.Text.{starts_with}
use nanolab.Prelude.Dicts.{get}
use nanolab.Soak.Evaluation.{Status, pass, fail, inconclusive, CriterionResult, merge_results}
use nanolab.Soak.Evaluation.Index.{
  torn, malformed, identity, non_monotone, crosses, overlaps, corrupt, Stored, Window, Policy,
  Target, Row, Index, Issue, index,
}
use nanolab.Soak.Evaluation.Criteria.{
  Numbers, Criterion, Sampling, Flags, no_flags, status_of_flags, judge_all, series_from, high, low,
}
use nanolab.Soak.Evaluation.Percentile.{percentile, Unreadable, bad_bound, search_ended}

-- A criterion with its id and the test of its label selector; a percentile has a quantile and its
-- threshold.
pub record Rule (V : Type 0) : Type 0 where
  pub id : String
  pub criterion : Criterion V
  pub selects : String → Bool
  pub quantile : Option (V × V)

-- What the libraries give: the text of labels, the floats, and the labels of a text.
pub record Reader (V : Type 0) : Type 0 where
  pub canonical : List (String × String) → String
  pub infinity : V
  pub ratio : V → V → V
  pub float_of : String → Option V
  pub bound_of : String → Option String
  pub family_of : String → String

abbrev pub reason_of_flags : Flags → String
reason_of_flags f =
    if not f.seen
    then "required role/metric/label series absent"
    else if f.failed
    then "observed numerical limit violation"
    else if f.incomplete
    then "missing reference/final samples, units or excessive observation gap"
    else if f.growth
    then "growth exceeds review threshold; equal-work evidence and attribution required"
    else "numerical window checks passed; not full-run acceptance"

abbrev pub starts_with_growth : String → Bool
starts_with_growth reason = starts_with reason "growth exceeds review threshold"

abbrev pub result_of : String → Status → String → CriterionResult
result_of id status reason = record {
  criterion_id = id;
  status = status;
  reason = reason;
  evidence = "evaluation-input.json" ∷ "samples.jsonl" ∷ [];
}

abbrev pub issue_text : Issue → String
issue_text torn = "torn sample stream"
issue_text malformed = "malformed, nonfinite or duplicate sample"
issue_text identity = "process/container identity changed or unbound"
issue_text non_monotone = "non-monotone phase/sample timeline"
issue_text crosses = "sample crosses natural phase boundary"
issue_text overlaps = "natural sample overlaps diagnostic perturbation"
issue_text corrupt = "unreadable or corrupt sample stream"

abbrev pub integrity_result : Status → String → CriterionResult
integrity_result status reason = record {
  criterion_id = "sample-integrity";
  status = status;
  reason = reason;
  evidence = "samples.jsonl" ∷ [];
}

-- The issues in the order of their texts.
abbrev pub sorted_issues : List Issue
sorted_issues = malformed ∷ overlaps ∷ non_monotone ∷ identity ∷ crosses ∷ torn ∷ corrupt ∷ []

abbrev pub has_text : String → List Issue → Bool
has_text text [] = false
has_text text (i ∷ issues) = issue_text i == text || has_text text issues

abbrev pub met : List Issue → List Issue → List Issue
met issues [] = []
met issues (i ∷ candidates) =
    let rest = met issues candidates in if has_text (issue_text i) issues then i ∷ rest else rest

-- `"; ".join`
abbrev pub joined : Issue → List Issue → String
joined i [] = issue_text i
joined i (j ∷ issues) = issue_text i <> ("; " <> joined j issues)

abbrev pub join_issues : List Issue → String
join_issues [] = ""
join_issues (i ∷ issues) = joined i issues

abbrev pub integrity : List Issue → CriterionResult
integrity [] = integrity_result pass "indexed sample identities/timelines valid"
integrity (i ∷ issues) =
    integrity_result inconclusive (join_issues (met (i ∷ issues) sorted_issues))

abbrev pub unreadable_input : CriterionResult
unreadable_input = result_of "evaluation-input" inconclusive "unreadable evaluation input"

-- The results up to a rule that raised, with what it raised.
pub record Judged : Type 0 where
  pub results : List CriterionResult
  pub stopped : Option Unreadable

abbrev pub with_result : CriterionResult → Judged → Judged
with_result r j = record j { results = r ∷ j.results }

module _ {V : Type 0} (n : Numbers V) (reader : Reader V) (sampling : Sampling V) where
  module _ (stored : List (Stored V)) where
    abbrev pub flags_of : Criterion V → (String → Bool) → Window V → Window V → Flags
    flags_of c selects final baseline =
        judge_all n stored c sampling final baseline (series_from c selects stored) no_flags

    -- The text of a percentile's reason is left out.
    abbrev percentile_result : String → Result Unreadable Status → Result Unreadable CriterionResult
    percentile_result id (err e) = err e
    percentile_result id (ok status) = ok (result_of id status "")

    abbrev pub judge_in :
        Rule V
        → Option (V × V)
        → Option (Window V)
        → Option (Window V)
        → Result Unreadable CriterionResult
    judge_in rule none (some final) (some baseline) =
        let f = flags_of rule.criterion rule.selects final baseline in
        ok (result_of rule.id (status_of_flags f) (reason_of_flags f))
    judge_in rule (some (quantile, threshold)) (some final) _ = percentile_result rule.id (
        percentile n reader.infinity reader.ratio reader.float_of reader.bound_of reader.family_of
          stored rule.criterion sampling rule.selects quantile threshold
          (low n rule.criterion final) (high n rule.criterion final))
    judge_in rule q _ _ = err bad_bound

    abbrev pub judge_rule : Dict (Window V) → Rule V → Result Unreadable CriterionResult
    judge_rule windows rule =
        judge_in rule rule.quantile (get rule.criterion.phase windows) (get "baseline" windows)

    abbrev pub judge_next : Result Unreadable CriterionResult → Judged → Judged
    judge_next (err e) rest = record { results = []; stopped = some e }
    judge_next (ok r) rest = with_result r rest

    unfoldable pub judge_rules : Dict (Window V) → List (Rule V) → Judged
    judge_rules windows [] = record { results = []; stopped = none }
    judge_rules windows (rule ∷ rules) =
        judge_next (judge_rule windows rule) (judge_rules windows rules)

module _ (accept : List CriterionResult → Option (List CriterionResult))
    (accept_unbound : List CriterionResult → List CriterionResult) where
  abbrev pub merge_unbound : List CriterionResult → List CriterionResult
  merge_unbound results = merge_results starts_with_growth results (accept_unbound results)

  abbrev pub merge_accepted :
      List CriterionResult → Option (List CriterionResult) → List CriterionResult
  merge_accepted results (some acceptance) = merge_results starts_with_growth results acceptance
  merge_accepted results none = merge_unbound (results ++ unreadable_input ∷ [])

  -- A search that ends without a bucket is no error that the evaluation catches.
  abbrev pub conclude_run :
      List Issue → List CriterionResult → Option Unreadable → Option (List CriterionResult)
  conclude_run issues results none =
      let whole = results ++ integrity issues ∷ [] in some (merge_accepted whole (accept whole))
  conclude_run issues results (some bad_bound) =
      some (merge_unbound (results ++ unreadable_input ∷ []))
  conclude_run issues results (some search_ended) = none

  module _ {V : Type 0} (n : Numbers V) (reader : Reader V) (sampling : Sampling V) where
    unfoldable pub evaluate_run :
        Policy V → Dict Target → List (Rule V) → List (Row V) → Bool → Option (List CriterionResult)
    evaluate_run policy targets rules rows broken =
        let x = index n.leq reader.canonical policy targets rows broken in
        let j = judge_rules n reader sampling x.stored policy.windows rules in
        conclude_run x.issues j.results j.stopped
