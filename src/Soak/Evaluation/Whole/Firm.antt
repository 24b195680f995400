-- ===== src/Soak/Evaluation/Whole/Firm.antt =====
-- What a verdict of PASS says of the stream of samples itself.
use nanolab.Prelude.{
  Bool, true, false, Option, none, some, List, [], ◌∷◌, ◌++◌, Dict, Result, ok, err, ◌≡◌, refl, sym,
  ◌∙◌, ap, subst, arith, In, In-All, inl, inr, some-injective, In-append_left, In-append_right,
  false≢true,
}
use nanolab.Prelude.Dicts.{get}
use nanolab.Soak.Evaluation.{pass, CriterionResult, merge_results, combine_results, by_id_from}
use nanolab.Soak.Evaluation.Merged.{Passed, Cleared, merge_results-Cleared}
use nanolab.Soak.Evaluation.Index.{Target, Row, Window, Policy, Stored, Issue, index}
use nanolab.Soak.Evaluation.Index.Complete.{window_samples, index-window_samples}
use nanolab.Soak.Evaluation.Criteria.{
  Numbers, Sampling, no_flags, status_of_flags, series_from, high, low, reference_of, judge_all,
  criterion,
}
use nanolab.Soak.Evaluation.Criteria.Series.{IsJudged}
use nanolab.Soak.Evaluation.Criteria.Passed.{Allowed, criterion-Allowed}
use nanolab.Soak.Evaluation.Percentile.{bad_bound, search_ended, Unreadable}
use nanolab.Soak.Evaluation.Whole.Joined.{integrity-growth}
use nanolab.Soak.Evaluation.Whole.Growth.{IsFirm, reason_of_flags-growth, judge_all-growth}
use nanolab.Soak.Evaluation.Whole.{
  Rule, Reader, reason_of_flags, starts_with_growth, result_of, integrity, unreadable_input, Judged,
  flags_of, judge_in, judge_rule, judge_next, judge_rules, merge_accepted, conclude_run,
  evaluate_run,
}

-- A result that is no growth to review passes in a merge that passes.
merged-Passed :
    (results acceptance : List CriterionResult) (r : CriterionResult)
    → combine_results (merge_results starts_with_growth results acceptance) false ≡ pass
    → In r results
    → starts_with_growth r.reason ≡ false
    → Passed r
merged-Passed results acceptance r h there plain =
    elim (In-All (Cleared starts_with_growth (by_id_from [] acceptance)) r results
      (merge_results-Cleared starts_with_growth results acceptance h) there) [
        | inl passed ↦ passed
        | inr (_, _, _, _, growth) ↦ absurd (false≢true (sym plain ∙ growth))
      ]

-- A merge that holds the unreadable input does not pass.
unreadable-fails :
    (results acceptance : List CriterionResult)
    → combine_results
        (merge_results starts_with_growth (results ++ unreadable_input ∷ []) acceptance)
        false
      ≡ pass
    → ⊥
unreadable-fails results acceptance h =
    let passed =
      merged-Passed (results ++ unreadable_input ∷ []) acceptance unreadable_input h
        (In-append_right unreadable_input results (unreadable_input ∷ []) (inl refl)) refl in
    ground arith

module _ (accept : List CriterionResult → Option (List CriterionResult))
    (accept_unbound : List CriterionResult → List CriterionResult) where
  -- A run that passes read its whole input and had an acceptance.
  conclude_run-pass :
      (issues : List Issue) (judged results : List CriterionResult) (stopped : Option Unreadable)
      → conclude_run accept accept_unbound issues judged stopped ≡ some results
      → combine_results results false ≡ pass
      → (stopped ≡ none)
        × (acceptance : List CriterionResult) × (combine_results
              (merge_results starts_with_growth (judged ++ integrity issues ∷ []) acceptance)
              false
            ≡ pass)
  conclude_run-pass issues judged results (some search_ended) h k = ground arith
  conclude_run-pass issues judged results (some bad_bound) h k = absurd (
      unreadable-fails judged (accept_unbound (judged ++ unreadable_input ∷ []))
        (ap (λ rs. combine_results rs false) (some-injective _ results h) ∙ k))
  conclude_run-pass issues judged results none h k =
      let whole = judged ++ integrity issues ∷ [] in
      let (acceptance, passed) =
        go (accept whole) (ap (λ rs. combine_results rs false) (some-injective _ results h) ∙ k) in
      (refl, acceptance, passed)
    where
      go :
          (o : Option (List CriterionResult))
          → combine_results
              (merge_accepted accept accept_unbound (judged ++ integrity issues ∷ []) o)
              false
            ≡ pass
          → (acceptance : List CriterionResult) × (combine_results
                (merge_results starts_with_growth (judged ++ integrity issues ∷ []) acceptance)
                false
              ≡ pass)
      go (some acceptance) h = (acceptance, h)
      go none h = absurd (
          unreadable-fails (judged ++ integrity issues ∷ [])
            (accept_unbound ((judged ++ integrity issues ∷ []) ++ unreadable_input ∷ [])) h)

integrity-issues : (issues : List Issue) → Passed (integrity issues) → issues ≡ []
integrity-issues [] h = refl
integrity-issues (i ∷ is) h = ground arith

module _ {V : Type 0} (n : Numbers V) (reader : Reader V) (sampling : Sampling V)
    (stored : List (Stored V)) where
  judge_next-ok :
      (o : Result Unreadable CriterionResult) (rest : Judged)
      → (judge_next n reader sampling stored o rest).stopped ≡ none
      → (r : CriterionResult) × (o ≡ ok r)
        × (rest.stopped ≡ none)
        × ((judge_next n reader sampling stored o rest).results ≡ r ∷ rest.results)
  judge_next-ok (err e) rest h = ground arith
  judge_next-ok (ok r) rest h = (r, refl, h, refl)

  judge_rules-In :
      (windows : Dict (Window V)) (rules : List (Rule V)) (rule : Rule V)
      → (judge_rules n reader sampling stored windows rules).stopped ≡ none
      → In rule rules
      → (r : CriterionResult) × (judge_rule n reader sampling stored windows rule ≡ ok r)
        × In r (judge_rules n reader sampling stored windows rules).results
  unfolding judge_rules
  judge_rules-In windows [] rule h there = absurd there
  judge_rules-In windows (q ∷ rules) rule h there =
      let rest = judge_rules n reader sampling stored windows rules in
      let (r, e, fine, shape) =
        judge_next-ok (judge_rule n reader sampling stored windows q) rest h in
      elim there [
        | inl here ↦ (
          r,
          ap (judge_rule n reader sampling stored windows) here ∙ e,
          subst (In r) (sym shape) (inl refl),
        )
        | inr later ↦
            let (r', e', found) = judge_rules-In windows rules rule fine later in
            (r', e', subst (In r') (sym shape) (inr found))
      ]

  or_result : CriterionResult → Result Unreadable CriterionResult → CriterionResult
  or_result r (ok v) = v
  or_result r (err e) = r

  -- The result of a rule that is no percentile, where both windows are known.
  judge_rule-result :
      (windows : Dict (Window V)) (rule : Rule V) (final baseline : Window V) (r : CriterionResult)
      → rule.quantile ≡ none
      → get rule.criterion.phase windows ≡ some final
      → get "baseline" windows ≡ some baseline
      → judge_rule n reader sampling stored windows rule ≡ ok r
      → let f = flags_of n reader sampling stored rule.criterion rule.selects final baseline in
        result_of rule.id (status_of_flags f) (reason_of_flags f) ≡ r
  unfolding or_result
  judge_rule-result windows rule final baseline r q a b h =
      let judge = judge_in n reader sampling stored rule in
      let known =
        ap (λ o. judge o (get rule.criterion.phase windows) (get "baseline" windows)) q
        ∙ ap (λ o. judge none o (get "baseline" windows)) a
        ∙ ap (λ o. judge none (some final) o) b in
      ap (or_result r) (sym known ∙ h)

module _ (accept : List CriterionResult → Option (List CriterionResult))
    (accept_unbound : List CriterionResult → List CriterionResult) {V : Type 0} (n : Numbers V)
    (reader : Reader V) (sampling : Sampling V) where
  -- Where an evaluation passes, every sample of the stream, in a phase with a window, that a rule
  -- selects by its role, metric, labels, phase and window has a value in the rule's unit that its
  -- operation allows; the rule is no percentile and its operation needs no review.
  pub evaluate_run-Allowed :
      (policy : Policy V) (targets : Dict Target) (rules : List (Rule V)) (rows : List (Row V))
      (broken : Bool) (results : List CriterionResult) (rule : Rule V) (final baseline : Window V)
      (s : Stored V)
      → evaluate_run accept accept_unbound n reader sampling policy targets rules rows broken
        ≡ some results
      → combine_results results false ≡ pass
      → In rule rules
      → rule.quantile ≡ none
      → IsFirm rule.criterion.operation
      → get rule.criterion.phase policy.windows ≡ some final
      → get "baseline" policy.windows ≡ some baseline
      → In s (window_samples n.leq reader.canonical policy targets rows [])
      → IsJudged rule.criterion rule.selects s
      → s.phase ≡ rule.criterion.phase
      → n.leq (low n rule.criterion final) s.scheduled ≡ true
      → n.leq s.scheduled (high n rule.criterion final) ≡ true
      → (v : V) × (s.value ≡ some v)
        × (s.unit ≡ rule.criterion.unit)
        × Allowed n rule.criterion.operation
            (reference_of n
              (window_samples n.leq reader.canonical policy targets rows [])
              rule.criterion
              sampling
              final
              baseline
              s.labels).median
            v
  unfolding evaluate_run criterion
  evaluate_run-Allowed policy targets rules rows broken results rule final baseline s h passes there
        q firm a b sampled judged phase after before =
      let x = index n.leq reader.canonical policy targets rows broken in
      let j = judge_rules n reader sampling x.stored policy.windows rules in
      let (whole, acceptance, merged) =
        conclude_run-pass accept accept_unbound x.issues j.results results j.stopped h passes in
      let all = j.results ++ integrity x.issues ∷ [] in
      let sound =
        merged-Passed all acceptance (integrity x.issues) merged
          (In-append_right (integrity x.issues) j.results (integrity x.issues ∷ []) (inl refl))
          (integrity-growth x.issues) in
      let same =
        index-window_samples n.leq reader.canonical policy targets rows broken
          (integrity-issues x.issues sound) in
      let (r, e, found) =
        judge_rules-In n reader sampling x.stored policy.windows rules rule whole there in
      let shape =
        judge_rule-result n reader sampling x.stored policy.windows rule final baseline r q a b e in
      let calm =
        judge_all-growth n sampling x.stored rule.criterion final baseline
          (series_from rule.criterion rule.selects x.stored) no_flags firm refl in
      let passed =
        merged-Passed all acceptance r merged
          (In-append_left r j.results (integrity x.issues ∷ []) found)
          (ap (λ t. starts_with_growth t.reason) (sym shape) ∙ reason_of_flags-growth _ calm) in
      let stored = window_samples n.leq reader.canonical policy targets rows [] in
      let holds =
        subst
          (λ held.
            status_of_flags (
              judge_all n held rule.criterion sampling final baseline
                (series_from rule.criterion rule.selects held) no_flags)
            ≡ pass)
          same (ap (λ t. t.status) shape ∙ passed) in
      criterion-Allowed n stored rule.criterion sampling final baseline rule.selects s holds sampled
        judged phase after before
