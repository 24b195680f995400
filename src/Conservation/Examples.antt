-- ===== src/Conservation/Examples.antt =====
-- A small run of one-shot load that conserves its originals.
use nanolab.Prelude.{
  ◌≤◌, ◌≡◌, refl, true, false, not, ◌&&◌, some, List, [], ◌∷◌, String, text_equality, contains,
}
use nanolab.Conservation.IdSets.{distinct}
use nanolab.Conservation.Evidence.{
  Planned, Emitted, Attempt, Outcome, evaluate_conservation, valid, times, attempt_ids, outcome_ids,
  error_ids, success_ids, released_ids, sets_of, violations_of,
}
use nanolab.Conservation.Evidence.Valid.{
  Conserved, evaluate_conservation-Conserved, evaluate_conservation-ended,
  evaluate_conservation-unplanned,
}

abbrev as_written : String → String
as_written s = s

abbrev two_planned : List Planned
two_planned =
    record { original_id = "a"; origin = "edge"; function = "f"; epoch = 0 }
    ∷ record { original_id = "b"; origin = "edge"; function = "f"; epoch = 0 }
    ∷ []

abbrev two_emitted : List Emitted
two_emitted = record { original_id = "b" } ∷ record { original_id = "a" } ∷ []

abbrev attempt_of : String → String → Attempt
attempt_of id execution = record {
  original_id = id;
  handler_started = true;
  state = "RELEASED";
  response_status = "SUCCESS";
  execution_id = execution;
  incarnation = "i";
  dispatch_attempt = some 1;
}

abbrev one_attempt : List Attempt
one_attempt = attempt_of "a" "x" ∷ []

-- "a" completes, "b" ends in an error without an attempt.
abbrev two_outcomes : List Outcome
two_outcomes =
    record { original_id = "a"; success = true; terminal_error = false }
    ∷ record { original_id = "b"; success = false; terminal_error = true }
    ∷ []

valid_test :
    valid (evaluate_conservation as_written two_planned two_emitted one_attempt two_outcomes) ≡ true
unfolding evaluate_conservation sets_of violations_of distinct
valid_test = refl

evaluate_conservation-Conserved_example :
    Conserved as_written two_planned two_emitted one_attempt two_outcomes
      (evaluate_conservation as_written two_planned two_emitted one_attempt two_outcomes)
evaluate_conservation-Conserved_example =
    evaluate_conservation-Conserved as_written two_planned two_emitted one_attempt two_outcomes
      valid_test

evaluate_conservation-ended_example :
    (times "a" (attempt_ids one_attempt) ≤ 1)
    × (times "a" (outcome_ids two_outcomes) ≤ 1)
    × (contains "a" (error_ids two_outcomes)
        ≡ not (
            contains "a" (success_ids two_outcomes)
            && contains "a" (released_ids as_written one_attempt)))
evaluate_conservation-ended_example =
    evaluate_conservation-ended as_written two_planned two_emitted one_attempt two_outcomes "a"
      valid_test refl

evaluate_conservation-unplanned_example :
    (times "c" (attempt_ids one_attempt) ≡ 0) × (times "c" (outcome_ids two_outcomes) ≡ 0)
evaluate_conservation-unplanned_example =
    evaluate_conservation-unplanned as_written two_planned two_emitted one_attempt two_outcomes "c"
      valid_test refl
