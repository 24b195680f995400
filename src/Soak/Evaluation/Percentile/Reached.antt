-- ===== src/Soak/Evaluation/Percentile/Reached.antt =====
-- The search for a bucket ends, and what a PASS of a percentile says.
use nanolab.Soak.Evaluation.Percentile.{
  no_infinity, open_ended, not_cumulative, no_observation, no_bucket, refused, raised, gathered,
  Refusal, Loop, Gathered, worst, verdict_of, conclude_percentile, percentile, nothing_gathered,
  gather, add_series, add_values, add_reading, add_bucket,
}
use nanolab.Prelude.{
  Bool, true, false, not, ◌||◌, Option, none, some, List, [], ◌∷◌, String, Dict, text_equality,
  Result, ok, err, ◌≡◌, ◌≢◌, refl, sym, ◌∙◌, ap, subst, arith, All, number_equality,
}
use nanolab.Soak.Evaluation.{pass}
use nanolab.Soak.Evaluation.Index.{Stored}
use nanolab.Soak.Evaluation.Criteria.{Numbers, Criterion, Sampling, Reading, window, series_from}
use nanolab.Soak.Evaluation.Percentile.Families.{AllWithin, worst-AllWithin}

module _ {V : Type 0} (n : Numbers V) (infinity : V) (ratio : V → V → V)
    (float_of : String → Option V) (bound_of : String → Option String)
    (family_of : String → String) where
  abbrev pub gathering : (String → Reading V) → List String → Loop V → Loop V
  gathering = gather n infinity ratio float_of bound_of family_of

  -- The state after a series, where the loop went on, has kept its mark of incompleteness.
  IsMarked : Bool → Loop V → Type 0
  IsMarked mark (gathered g) = g.incomplete ≡ mark
  IsMarked mark _ = Unit

  add_bucket-IsMarked :
      (labels : String) (growth : V) (o : Option V) (g : Gathered V)
      → IsMarked g.incomplete
          (add_bucket n infinity ratio float_of bound_of family_of labels growth o g)
  unfolding IsMarked
  add_bucket-IsMarked labels growth none g = tt
  add_bucket-IsMarked labels growth (some b) g = refl

  add_values-IsMarked :
      (labels : String) (decreased : Bool) (first top : Option V) (g : Gathered V)
      → IsMarked g.incomplete
          (add_values n infinity ratio float_of bound_of family_of labels decreased first top g)
  unfolding IsMarked
  add_values-IsMarked labels decreased none top g = refl
  add_values-IsMarked labels decreased (some f) none g = refl
  add_values-IsMarked labels decreased (some f) (some t) g = go (bound_of labels) decreased
    where
      go :
          (o : Option String) (d : Bool)
          → IsMarked g.incomplete
              (add_reading n infinity ratio float_of bound_of family_of labels o d f t g)
      go none d = tt
      go (some le) true = tt
      go (some le) false = add_bucket-IsMarked labels (n.minus t f) _ g

  gather-stopped :
      (read : String → Reading V) (ls : List String) (state : Loop V) (h : Gathered V)
      → gathering read ls state ≡ gathered h
      → (g : Gathered V) × (state ≡ gathered g)
  unfolding gather
  gather-stopped read ls (gathered g) h e = (g, refl)
  gather-stopped read [] refused h e = ground arith
  gather-stopped read (l ∷ ls) refused h e = ground arith
  gather-stopped read [] (raised x) h e = ground arith
  gather-stopped read (l ∷ ls) (raised x) h e = ground arith

  gather-complete :
      (read : String → Reading V) (ls : List String) (g h : Gathered V)
      → gathering read ls (gathered g) ≡ gathered h
      → h.incomplete ≡ false
      → (g.incomplete ≡ false) × All (λ l. (read l).complete ≡ true) ls
  unfolding gather IsMarked
  gather-complete read [] g h e k = (ground arith, tt)
  gather-complete read (l ∷ ls) g h e k =
      let r = read l in
      let marked = record g { incomplete = g.incomplete || not r.complete } in
      let next = add_series n infinity ratio float_of bound_of family_of l r g in
      let (m, same) = gather-stopped read ls next h e in
      let later = gather-complete read ls m h (ap (gathering read ls) (sym same) ∙ e) k in
      let kept : m.incomplete ≡ marked.incomplete =
        subst (IsMarked marked.incomplete) same
          (add_values-IsMarked l r.decreased r.first r.top marked) in
      let fine = sym kept ∙ later.0 in (ground arith, (ground arith, later.1))

  worst-families :
      (quantile top : V) (families : Dict (List (V × V)))
      → worst n infinity ratio quantile families none ≡ ok (some top)
      → families ≢ []
  unfolding worst
  worst-families quantile top [] h = λ _. ground arith
  worst-families quantile top (f ∷ fs) h = λ k. ground arith

  conclude-AllWithin :
      (quantile threshold : V) (state : Loop V)
      → conclude_percentile n infinity ratio float_of bound_of family_of quantile threshold state
        ≡ ok pass
      → (g : Gathered V) × (state ≡ gathered g)
        × (g.incomplete ≡ false)
        × (g.families ≢ [])
        × AllWithin n infinity ratio quantile threshold g.families
  conclude-AllWithin quantile threshold refused h = ground arith
  conclude-AllWithin quantile threshold (raised e) h = ground arith
  conclude-AllWithin quantile threshold (gathered g) h =
      go (worst n infinity ratio quantile g.families none) refl h
    where
      go :
          (r : Result Refusal (Option V))
          → worst n infinity ratio quantile g.families none ≡ r
          → verdict_of n infinity ratio threshold g.incomplete r ≡ ok pass
          → (h : Gathered V) × (gathered g ≡ gathered h)
            × (h.incomplete ≡ false)
            × (h.families ≢ [])
            × AllWithin n infinity ratio quantile threshold h.families
      go (err no_bucket) e h = ground arith
      go (err no_infinity) e h = ground arith
      go (err open_ended) e h = ground arith
      go (err not_cumulative) e h = ground arith
      go (err no_observation) e h = ground arith
      go (ok none) e h = ground arith
      go (ok (some top)) e h = (
        g,
        refl,
        ground arith,
        worst-families quantile top g.families e,
        worst-AllWithin n infinity ratio quantile threshold g.families none top e (ground arith),
      )

  -- Where a percentile passes, the series it selects form at least one family, their windows are all
  -- complete, and each family has a quantile that is within the threshold.
  pub percentile-AllWithin :
      (stored : List (Stored V)) (c : Criterion V) (sampling : Sampling V) (selects : String → Bool)
      (quantile threshold from to : V)
      → percentile n infinity ratio float_of bound_of family_of stored c sampling selects quantile
          threshold from to
        ≡ ok pass
      → (g : Gathered V) × (g.families ≢ [])
        × AllWithin n infinity ratio quantile threshold g.families
        × All
            (λ l. (window n stored c sampling l c.phase from to).complete ≡ true)
            (series_from c selects stored)
        × (gathering
              (λ l. window n stored c sampling l c.phase from to)
              (series_from c selects stored)
              (gathered (nothing_gathered n infinity ratio float_of bound_of family_of))
            ≡ gathered g)
  unfolding percentile
  percentile-AllWithin stored c sampling selects quantile threshold from to h =
      let (g, e, whole, some_family, within) = conclude-AllWithin quantile threshold _ h in
      (
        g,
        some_family,
        within,
        (gather-complete (λ l. window n stored c sampling l c.phase from to)
            (series_from c selects stored)
            (nothing_gathered n infinity ratio float_of bound_of family_of) g e whole).1,
        e,
      )
