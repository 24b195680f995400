-- ===== src/Soak/Evaluation/Whole/Growth.antt =====
-- Only a growth review asks for the review of a growth.
use nanolab.Prelude.{
  true, false, not, ◌||◌, Option, none, some, List, [], ◌∷◌, String, ◌≡◌, refl, sym, ◌∙◌, if_ind,
  false≢true,
}
use nanolab.Soak.Evaluation.Index.{Window, Stored}
use nanolab.Soak.Evaluation.Criteria.{
  judge_top, compare_top, compare_median, Numbers, Operation, maximum_of, expected_zero,
  return_to_reference, growth_review, Criterion, Sampling, Reading, Flags, compare_median,
  compare_top, judge_top, judge_series, final_of, reference_of, series_values, judge_all,
}
use nanolab.Soak.Evaluation.Whole.{reason_of_flags, starts_with_growth}

-- An operation that gives a verdict of its own, without a review.
abbrev pub IsFirm : {V : Type 0} → Operation V → Type 0
IsFirm (growth_review threshold) = ⊥
IsFirm _ = Unit

pub reason_of_flags-growth :
    (f : Flags) → f.growth ≡ false → starts_with_growth (reason_of_flags f) ≡ false
reason_of_flags-growth f h =
    if_ind Plain (not f.seen) (λ _. refl)
      λ _.
        if_ind Plain f.failed (λ _. refl)
          λ _.
            if_ind Plain f.incomplete (λ _. refl)
              λ _. if_ind Plain f.growth (λ k. absurd (false≢true (sym h ∙ k))) (λ _. refl)
  where
    Plain : String → Type 0
    Plain reason = starts_with_growth reason ≡ false

module _ {V : Type 0} (n : Numbers V) where
  compare_median-growth :
      (a r top : V) (o : Option V) (f : Flags)
      → f.growth ≡ false
      → (compare_median n (return_to_reference a r) top o f).growth ≡ false
  compare_median-growth a r top none f h = h
  compare_median-growth a r top (some m) f h = h

  compare_top-growth :
      (operation : Operation V) (top : V) (values : List V) (reference : Reading V) (f : Flags)
      → IsFirm operation
      → f.growth ≡ false
      → (compare_top n operation top values reference f).growth ≡ false
  compare_top-growth (maximum_of t) top values reference f firm h = h
  compare_top-growth expected_zero top values reference f firm h = h
  compare_top-growth (return_to_reference a r) top values reference f firm h =
      if_ind {A = Flags} (λ g. g.growth ≡ false) reference.complete
        (λ _. compare_median-growth a r top reference.median _ h) (λ _. h)
  compare_top-growth (growth_review t) top values reference f firm h = absurd firm

  judge_series-growth :
      (operation : Operation V) (final : Reading V) (values : List V) (reference : Reading V)
      (f : Flags)
      → IsFirm operation
      → f.growth ≡ false
      → (judge_series n operation final values reference f).growth ≡ false
  judge_series-growth operation final values reference f firm h = go final.top
    where
      marked : Flags
      marked = record f { seen = true; incomplete = f.incomplete || not final.complete }

      go : (o : Option V) → (judge_top n operation o values reference marked).growth ≡ false
      go none = h
      go (some top) = compare_top-growth operation top values reference marked firm h

  module _ (sampling : Sampling V) (stored : List (Stored V)) where
    pub judge_all-growth :
        (c : Criterion V) (final baseline : Window V) (ls : List String) (f : Flags)
        → IsFirm c.operation
        → f.growth ≡ false
        → (judge_all n stored c sampling final baseline ls f).growth ≡ false
    unfolding judge_all
    judge_all-growth c final baseline [] f firm h = h
    judge_all-growth c final baseline (l ∷ ls) f firm h =
        judge_all-growth c final baseline ls _ firm (
          judge_series-growth c.operation (final_of n stored c sampling final baseline l)
            (series_values n stored c sampling final baseline l)
            (reference_of n stored c sampling final baseline l) f firm h)
