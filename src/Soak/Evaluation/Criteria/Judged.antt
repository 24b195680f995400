-- ===== src/Soak/Evaluation/Criteria/Judged.antt =====
-- What a PASS of a criterion says of the samples.
use nanolab.Prelude.{
  Bool, true, false, not, ◌||◌, Option, none, some, List, if◌then◌else◌, text_equality, ◌≡◌, refl,
  arith,
}
use nanolab.Soak.Evaluation.{pass}
use nanolab.Soak.Evaluation.Criteria.{
  Numbers, Operation, maximum_of, expected_zero, return_to_reference, growth_review, Reading, Flags,
  status_of_flags, any_nonzero, tolerance, compare_median, compare_reference, compare_top,
  judge_top, judge_series,
}

abbrev pub Clean : Flags → Type 0
Clean f = (f.failed ≡ false) × (f.incomplete ≡ false) × (f.growth ≡ false)

pub status_of_flags-pass : (f : Flags) → status_of_flags f ≡ pass → (f.seen ≡ true) × Clean f
status_of_flags-pass f h = (ground arith, (ground arith, ground arith, ground arith))

module _ {V : Type 0} (n : Numbers V) where
  -- The maximum against a median, and against the reading of the reference.
  abbrev pub MeetsMedian : Operation V → V → Option V → Type 0
  MeetsMedian (return_to_reference absolute relative) top (some m) =
      n.leq top (n.plus m (tolerance n absolute relative m)) ≡ true
  MeetsMedian (growth_review threshold) top (some m) = n.leq (n.minus top m) threshold ≡ true
  MeetsMedian _ top _ = Unit

  abbrev pub MeetsReference : Operation V → V → Reading V → Type 0
  MeetsReference operation top reference =
      (reference.complete ≡ true) × MeetsMedian operation top reference.median

  abbrev pub Meets : Operation V → V → List V → Reading V → Type 0
  Meets (maximum_of threshold) top values reference = n.leq top threshold ≡ true
  Meets expected_zero top values reference = any_nonzero n values ≡ false
  Meets (return_to_reference absolute relative) top values reference =
      MeetsReference (return_to_reference absolute relative) top reference
  Meets (growth_review threshold) top values reference =
      MeetsReference (growth_review threshold) top reference

  abbrev pub MeetsTop : Operation V → Option V → List V → Reading V → Type 0
  MeetsTop operation none values reference = Unit
  MeetsTop operation (some top) values reference = Meets operation top values reference

  compare_median-Clean :
      (operation : Operation V) (top : V) (o : Option V) (f : Flags)
      → Clean (compare_median n operation top o f)
      → Clean f × MeetsMedian operation top o
  compare_median-Clean (maximum_of t) top none f h = (h, tt)
  compare_median-Clean expected_zero top none f h = (h, tt)
  compare_median-Clean (return_to_reference a r) top none f h = (h, tt)
  compare_median-Clean (growth_review t) top none f h = (h, tt)
  compare_median-Clean (maximum_of t) top (some m) f h = (h, tt)
  compare_median-Clean expected_zero top (some m) f h = (h, tt)
  compare_median-Clean (return_to_reference a r) top (some m) f h =
      let k = h.0 in ((ground arith, h.1, h.2), ground arith)
  compare_median-Clean (growth_review t) top (some m) f h =
      let k = h.2 in ((h.0, h.1, ground arith), ground arith)

  compare_reference-Clean :
      (operation : Operation V) (top : V) (reference : Reading V) (f : Flags)
      → Clean (compare_reference n operation top reference f)
      → Clean f × MeetsReference operation top reference
  compare_reference-Clean operation top reference f h = go reference.complete refl h
    where
      marked : Flags
      marked = record f { incomplete = f.incomplete || not reference.complete }

      go :
          (b : Bool)
          → reference.complete ≡ b
          → Clean (if b then compare_median n operation top reference.median marked else marked)
          → Clean f × MeetsReference operation top reference
      go true e h =
          let k = compare_median-Clean operation top reference.median marked h in
          let i = k.0.1 in ((k.0.0, ground arith, k.0.2), (e, k.1))
      go false e h = let i = h.1 in ground arith

  compare_top-Clean :
      (operation : Operation V) (top : V) (values : List V) (reference : Reading V) (f : Flags)
      → Clean (compare_top n operation top values reference f)
      → Clean f × Meets operation top values reference
  compare_top-Clean (maximum_of t) top values reference f h =
      let k = h.0 in ((ground arith, h.1, h.2), ground arith)
  compare_top-Clean expected_zero top values reference f h =
      let k = h.0 in ((ground arith, h.1, h.2), ground arith)
  compare_top-Clean (return_to_reference a r) top values reference f h =
      compare_reference-Clean (return_to_reference a r) top reference f h
  compare_top-Clean (growth_review t) top values reference f h =
      compare_reference-Clean (growth_review t) top reference f h

  -- A step that leaves no flag found none, over a complete window that meets the criterion.
  pub judge_series-Clean :
      (operation : Operation V) (final : Reading V) (values : List V) (reference : Reading V)
      (f : Flags)
      → Clean (judge_series n operation final values reference f)
      → Clean f × (final.complete ≡ true) × MeetsTop operation final.top values reference
  judge_series-Clean operation final values reference f h = go final.top h
    where
      marked : Flags
      marked = record f { seen = true; incomplete = f.incomplete || not final.complete }

      unmarked : Clean marked → Clean f × (final.complete ≡ true)
      unmarked h = let i = h.1 in ((h.0, ground arith, h.2), ground arith)

      go :
          (o : Option V)
          → Clean (judge_top n operation o values reference marked)
          → Clean f × (final.complete ≡ true) × MeetsTop operation o values reference
      go none h = let k = unmarked h in (k.0, k.1, tt)
      go (some top) h =
          let rest = compare_top-Clean operation top values reference marked h in
          let k = unmarked rest.0 in (k.0, k.1, rest.1)
