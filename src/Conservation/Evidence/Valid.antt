-- ===== src/Conservation/Evidence/Valid.antt =====
-- What a valid run has conserved.
use nanolab.Prelude.{
  ◌+◌, ◌≤◌, ◌<◌, ◌≡◌, true, false, not, ◌&&◌, List, String, length, contains, text_equality,
  number_equality,
}
use nanolab.Conservation.Evidence.{
  Planned, Emitted, Attempt, Outcome, RunEvidence, valid, planned_ids, attempt_ids, outcome_ids,
  success_ids, error_ids, released_ids, times, sets_of, evaluate_conservation,
}
use nanolab.Conservation.Evidence.Rows.{empty, times-absent, times_one, Once-times}
use nanolab.Conservation.Evidence.Counted.{
  Tested, violations_of-Tested, one_result_each, ended, sent_length, ended_length, censored_length,
  deficit_length, no_attempt, no_outcome, lengths_planned, lengths_emitted, planned_some,
}

module _ (upper : String → String) (planned : List Planned) (emitted : List Emitted)
    (attempts : List Attempt) (results : List Outcome) where
  -- The counts of a run that lost nothing.
  pub record Conserved (e : RunEvidence) : Type 0 where
    pub some_load : 0 < e.planned
    pub each_planned_once : e.planned ≡ length planned
    pub each_emitted_once : e.emitted ≡ length emitted
    pub all_emitted : e.emitted ≡ e.planned
    pub all_ended : e.completed + e.errors ≡ e.planned
    pub none_censored : e.censored ≡ 0
    pub no_deficit : e.generator_deficit ≡ 0

  Tested-valid :
      valid (evaluate_conservation upper planned emitted attempts results) ≡ true
      → Tested planned emitted attempts results (sets_of upper planned emitted attempts results)
  unfolding evaluate_conservation
  Tested-valid h =
      violations_of-Tested upper planned emitted attempts results
        (sets_of upper planned emitted attempts results) (empty _ h)

  -- In a valid run every planned original was planned once and emitted once, each of them
  -- completed or ended in a terminal error and none in both, and nothing is censored or missing.
  pub evaluate_conservation-Conserved :
      valid (evaluate_conservation upper planned emitted attempts results) ≡ true
      → Conserved (evaluate_conservation upper planned emitted attempts results)
  unfolding evaluate_conservation sets_of
  evaluate_conservation-Conserved h =
      let t = Tested-valid h in
      record {
        some_load = planned_some upper planned emitted attempts results t;
        each_planned_once = lengths_planned upper planned emitted attempts results t;
        each_emitted_once = lengths_emitted upper planned emitted attempts results t;
        all_emitted = sent_length upper planned emitted attempts results t;
        all_ended = ended_length upper planned emitted attempts results t;
        none_censored = censored_length upper planned emitted attempts results t;
        no_deficit = deficit_length upper planned emitted attempts results t;
      }

  -- In a valid run a planned original has at most one physical attempt and one result, and either
  -- completed - a successful result, and a released attempt whose handler started and succeeded - or
  -- has a result with a terminal error, never both.
  pub evaluate_conservation-ended :
      (a : String)
      → valid (evaluate_conservation upper planned emitted attempts results) ≡ true
      → contains a (planned_ids planned) ≡ true
      → (times a (attempt_ids attempts) ≤ 1)
        × (times a (outcome_ids results) ≤ 1)
        × (contains a (error_ids results)
            ≡ not (contains a (success_ids results) && contains a (released_ids upper attempts)))
  evaluate_conservation-ended a h there =
      let t = Tested-valid h in
      (
        times_one (attempt_ids attempts) a t.single,
        Once-times (outcome_ids results) a
            (one_result_each upper planned emitted attempts results t),
        ended upper planned emitted attempts results t a there,
      )

  -- In a valid run an id that was not planned has neither an attempt nor a result.
  pub evaluate_conservation-unplanned :
      (a : String)
      → valid (evaluate_conservation upper planned emitted attempts results) ≡ true
      → contains a (planned_ids planned) ≡ false
      → (times a (attempt_ids attempts) ≡ 0) × (times a (outcome_ids results) ≡ 0)
  evaluate_conservation-unplanned a h absent = (
    times-absent a (attempt_ids attempts)
        (no_attempt upper planned emitted attempts results (Tested-valid h) a absent),
    times-absent a (outcome_ids results)
        (no_outcome upper planned emitted attempts results (Tested-valid h) a absent),
  )
