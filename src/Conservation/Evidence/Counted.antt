-- ===== src/Conservation/Evidence/Counted.antt =====
-- What follows from the tests of `evaluate_conservation` that found nothing.
use nanolab.Prelude.{
  ◌+◌, ◌<◌, ◌≡◌, sym, ap, ◌∙◌, Bool, true, false, not, ◌&&◌, ◌||◌, List, [], ◌++◌, String, length,
  contains, ◌==◌, text_equality, number_equality, arith,
}
use nanolab.Conservation.IdSets.{
  Ids, distinct, subset, same_ids, common, without, union, Once, distinct-Once, contains-distinct,
  Once-distinct, contains-append, keep-keep, subset-contains, contains-keep, length-keep_two,
  length-keep_none, Once-length,
}
use nanolab.Conservation.Evidence.{
  Planned, Emitted, Attempt, Outcome, planned_ids, emitted_ids, attempt_ids, outcome_ids,
  success_ids, error_ids, released_ids, repeats, reused, Sets, sets_of, violations_of,
}
use nanolab.Conservation.Evidence.Rows.{
  append_flags-empty, successes-disjoint, length-map, length-keep_zero,
}

-- What the tests of `evaluate_conservation` have found when no violation is on the list.
pub record Tested (planned : List Planned) (emitted : List Emitted) (attempts : List Attempt)
    (results : List Outcome) (s : Sets) : Type 0 where
  pub loaded : (length s.expected == 0 || length s.sent == 0) ≡ false
  pub whole :
      (not (length s.expected == length planned) || not (length s.sent == length emitted)) ≡ false
  pub same : not (same_ids s.sent s.expected) ≡ false
  pub single : repeats (attempt_ids attempts) (attempt_ids attempts) ≡ false
  pub resolved :
      (not (subset s.completed s.received)
        || not (same_ids (union s.completed s.terminal_errors) s.expected))
      ≡ false
  pub one_result : not (length s.outcomes == length results) ≡ false
  pub no_other :
      (not (length (without (distinct (attempt_ids attempts)) s.expected) == 0)
        || not (length (without s.outcomes s.expected) == 0))
      ≡ false

module _ (upper : String → String) (planned : List Planned) (emitted : List Emitted)
    (attempts : List Attempt) (results : List Outcome) where
  pub violations_of-Tested :
      (s : Sets)
      → violations_of upper planned emitted attempts results s ≡ []
      → Tested planned emitted attempts results s
  unfolding violations_of
  violations_of-Tested s h =
      let (loaded, whole, same, single, resolved, one_result, no_other) =
        append_flags-empty _ _ _ _ (reused attempts []) _ _ _ h in
      record {
        loaded = loaded;
        whole = whole;
        same = same;
        single = single;
        resolved = resolved;
        one_result = one_result;
        no_other = no_other;
      }

  module _
      (t : Tested planned emitted attempts results
        (sets_of upper planned emitted attempts results)) where
    same_as_planned :
        (a : String) → contains a (emitted_ids emitted) ≡ contains a (planned_ids planned)
    unfolding sets_of
    same_as_planned a =
        let e = contains-distinct a (planned_ids planned) in
        let s = contains-distinct a (emitted_ids emitted) in
        let same = t.same in
        let forth =
          subset-contains (distinct (emitted_ids emitted)) (distinct (planned_ids planned))
            (ground arith) a in
        let back =
          subset-contains (distinct (planned_ids planned)) (distinct (emitted_ids emitted))
            (ground arith) a in
        ground arith

    pub one_result_each : Once (outcome_ids results)
    unfolding sets_of
    one_result_each =
        let one = t.one_result in
        let size = length-map (λ (o : Outcome). o.original_id) results in
        distinct-Once (outcome_ids results) (ground arith)

    pub ended :
        (a : String)
        → contains a (planned_ids planned) ≡ true
        → contains a (error_ids results)
          ≡ not (contains a (success_ids results) && contains a (released_ids upper attempts))
    unfolding sets_of
    ended a there =
        let e = contains-distinct a (planned_ids planned) in
        let resolved = t.resolved in
        let disjoint = successes-disjoint results a one_result_each in
        let inside =
          subset-contains (distinct (planned_ids planned))
            (union
              (common (common (distinct (planned_ids planned)) (success_ids results))
                (released_ids upper attempts))
              (common (distinct (planned_ids planned)) (error_ids results)))
            (ground arith) a (ground arith) in
        let joined = contains-distinct a (
          common (common (distinct (planned_ids planned)) (success_ids results))
            (released_ids upper attempts)
          ++ common (distinct (planned_ids planned)) (error_ids results)) in
        let split =
          contains-append a
            (common (common (distinct (planned_ids planned)) (success_ids results))
              (released_ids upper attempts))
            (common (distinct (planned_ids planned)) (error_ids results)) in
        let c1 =
          contains-keep (λ x. contains x (released_ids upper attempts)) a
            (common (distinct (planned_ids planned)) (success_ids results)) in
        let c2 =
          contains-keep (λ x. contains x (success_ids results)) a
            (distinct (planned_ids planned)) in
        let c3 =
          contains-keep (λ x. contains x (error_ids results)) a (distinct (planned_ids planned)) in
        ground arith

    pub sent_length :
        length (distinct (emitted_ids emitted)) ≡ length (distinct (planned_ids planned))
    sent_length =
        let forth =
          Once-length (distinct (emitted_ids emitted)) (distinct (planned_ids planned))
            (Once-distinct (emitted_ids emitted)) (λ a there. moved a there) in
        let back =
          Once-length (distinct (planned_ids planned)) (distinct (emitted_ids emitted))
            (Once-distinct (planned_ids planned)) (λ a there. moved_back a there) in
        omega arith
      where
        moved :
            (a : String)
            → contains a (distinct (emitted_ids emitted)) ≡ true
            → contains a (distinct (planned_ids planned)) ≡ true
        moved a there =
            contains-distinct a (planned_ids planned)
            ∙ sym (same_as_planned a)
            ∙ sym (contains-distinct a (emitted_ids emitted))
            ∙ there

        moved_back :
            (a : String)
            → contains a (distinct (planned_ids planned)) ≡ true
            → contains a (distinct (emitted_ids emitted)) ≡ true
        moved_back a there =
            contains-distinct a (emitted_ids emitted)
            ∙ same_as_planned a
            ∙ sym (contains-distinct a (planned_ids planned))
            ∙ there

    abbrev is_completed : String → Bool
    is_completed a = contains a (success_ids results) && contains a (released_ids upper attempts)

    pub ended_length :
        length (sets_of upper planned emitted attempts results).completed
          + length (sets_of upper planned emitted attempts results).terminal_errors
        ≡ length (distinct (planned_ids planned))
    unfolding sets_of
    ended_length =
        ap (λ xs. length xs + length (common (distinct (planned_ids planned)) (error_ids results)))
          (keep-keep (λ a. contains a (success_ids results))
            (λ a. contains a (released_ids upper attempts)) (distinct (planned_ids planned)))
        ∙ length-keep_two is_completed (λ a. contains a (error_ids results))
            (distinct (planned_ids planned))
            (λ a there. ended a (sym (contains-distinct a (planned_ids planned)) ∙ there))

    abbrev completed : Ids
    completed =
        common (common (distinct (planned_ids planned)) (success_ids results))
          (released_ids upper attempts)

    abbrev failed : Ids
    failed = common (distinct (planned_ids planned)) (error_ids results)

    pub censored_length :
        length (
          without
            (without
              (sets_of upper planned emitted attempts results).sent
              (sets_of upper planned emitted attempts results).completed)
            (sets_of upper planned emitted attempts results).terminal_errors)
        ≡ 0
    unfolding sets_of
    censored_length = length-keep_none _ _ (λ a there. ended_too a there)
      where
        ended_too :
            (a : String)
            → contains a (without (distinct (emitted_ids emitted)) completed) ≡ true
            → not (contains a failed) ≡ false
        ended_too a there =
            let kept =
              contains-keep (λ x. not (contains x completed)) a (distinct (emitted_ids emitted)) in
            let s = contains-distinct a (emitted_ids emitted) in
            let e = contains-distinct a (planned_ids planned) in
            let same = same_as_planned a in
            let whole = ended a (ground arith) in
            let c1 =
              contains-keep (λ x. contains x (released_ids upper attempts)) a
                (common (distinct (planned_ids planned)) (success_ids results)) in
            let c2 =
              contains-keep (λ x. contains x (success_ids results)) a
                (distinct (planned_ids planned)) in
            let c3 =
              contains-keep (λ x. contains x (error_ids results)) a
                (distinct (planned_ids planned)) in
            ground arith

    pub deficit_length :
        length (
          without
            (sets_of upper planned emitted attempts results).expected
            (sets_of upper planned emitted attempts results).sent)
        ≡ 0
    unfolding sets_of
    deficit_length = length-keep_none _ (distinct (planned_ids planned)) (λ a there.
        let s = contains-distinct a (emitted_ids emitted) in
        let e = contains-distinct a (planned_ids planned) in
        let same = same_as_planned a in ground arith)

    pub no_attempt :
        (a : String)
        → contains a (planned_ids planned) ≡ false
        → contains a (attempt_ids attempts) ≡ false
    unfolding sets_of
    no_attempt a absent =
        let none_left = t.no_other in
        let e = contains-distinct a (planned_ids planned) in
        let d = contains-distinct a (attempt_ids attempts) in
        let zero =
          length-keep_zero (λ x. not (contains x (distinct (planned_ids planned))))
            (distinct (attempt_ids attempts)) a (ground arith) in
        ground arith

    pub no_outcome :
        (a : String)
        → contains a (planned_ids planned) ≡ false
        → contains a (outcome_ids results) ≡ false
    unfolding sets_of
    no_outcome a absent =
        let none_left = t.no_other in
        let e = contains-distinct a (planned_ids planned) in
        let d = contains-distinct a (outcome_ids results) in
        let zero =
          length-keep_zero (λ x. not (contains x (distinct (planned_ids planned))))
            (distinct (outcome_ids results)) a (ground arith) in
        ground arith

    pub lengths_planned : length (distinct (planned_ids planned)) ≡ length planned
    unfolding sets_of
    lengths_planned = let whole = t.whole in ground arith

    pub lengths_emitted : length (distinct (emitted_ids emitted)) ≡ length emitted
    unfolding sets_of
    lengths_emitted = let whole = t.whole in ground arith

    pub planned_some : 0 < length (distinct (planned_ids planned))
    unfolding sets_of
    planned_some = let loaded = t.loaded in ground arith
