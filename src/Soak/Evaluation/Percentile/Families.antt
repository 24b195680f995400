-- ===== src/Soak/Evaluation/Percentile/Families.antt =====
-- The quantile of each family of buckets.
use nanolab.Soak.Evaluation.Criteria.Readings.{leq_refl, greater_of-left, greater_of-right}
use nanolab.Soak.Evaluation.Percentile.{
  no_bucket, Refusal, worst, worst_with, raise_worst, bucket_quantile, quantile_in, find_bucket,
  by_bound, last_bucket, falls,
}
use nanolab.Prelude.{
  true, false, not, ◌&&◌, Option, none, some, List, [], ◌∷◌, Dict, ltb, text_equality, length,
  Result, ok, err, ◌≡◌, ◌≢◌, refl, ◌∙◌, ap, subst, arith, All, if_ind, some-injective,
  number_equality,
}
use nanolab.Soak.Evaluation.Criteria.{Numbers}

module _ {V : Type 0} (n : Numbers V) (infinity : V) (ratio : V → V → V) where
  find_bucket-ends :
      (rank : V) (before : Option (V × V)) (bs : List (V × V)) (last : V × V)
      → last_bucket n infinity ratio bs ≡ some last
      → n.leq rank last.1 ≡ true
      → find_bucket n infinity ratio rank before bs ≢ err no_bucket
  unfolding find_bucket
  find_bucket-ends rank before [] last h k = ground arith
  find_bucket-ends rank before (b ∷ []) last h k =
      let same = ap (λ x. n.leq rank x.1) (some-injective b last h) ∙ k in ground arith
  find_bucket-ends rank before (b ∷ c ∷ rest) last h k =
      if_ind (λ r. r ≢ err no_bucket) (n.leq rank b.1) (λ _ e. ground arith)
        (λ _. find_bucket-ends rank (some b) (c ∷ rest) last h k)

  quantile_in-ends :
      (quantile : V) (bounds : List (V × V)) (o : Option (V × V))
      → ((t : V) → n.leq t n.zero_value ≡ false → n.leq (n.times quantile t) t ≡ true)
      → last_bucket n infinity ratio bounds ≡ o
      → quantile_in n infinity ratio quantile bounds o ≢ err no_bucket
  quantile_in-ends quantile bounds none share h = λ e. ground arith
  quantile_in-ends quantile bounds (some (bound, total)) share h =
      if_ind (λ r. r ≢ err no_bucket) (not (n.leq bound infinity && n.leq infinity bound))
        (λ _ e. ground arith)
        λ _.
          if_ind (λ r. r ≢ err no_bucket) (ltb (length bounds) 2) (λ _ e. ground arith)
            λ _.
              if_ind (λ r. r ≢ err no_bucket) (falls n infinity ratio bounds) (λ _ e. ground arith)
                λ _.
                  if_ind (λ r. r ≢ err no_bucket) (n.leq total n.zero_value) (λ _ e. ground arith)
                    λ some_total.
                      find_bucket-ends (n.times quantile total) none bounds (bound, total) h
                        (share total some_total)

  -- The search for the bucket of a quantile always finds one: where a share of a positive total is no
  -- more than that total, `bucket_quantile` gives a number or one of its four refusals.
  pub bucket_quantile-ends :
      (quantile : V) (buckets : List (V × V))
      → ((t : V) → n.leq t n.zero_value ≡ false → n.leq (n.times quantile t) t ≡ true)
      → bucket_quantile n infinity ratio quantile buckets ≢ err no_bucket
  unfolding bucket_quantile
  bucket_quantile-ends quantile buckets share =
      quantile_in-ends quantile (by_bound n infinity ratio buckets) _ share refl

  -- A family has a quantile, and it is within the threshold.
  abbrev pub IsWithin : V → V → List (V × V) → Type 0
  IsWithin quantile threshold buckets =
      (v : V) × (bucket_quantile n infinity ratio quantile buckets ≡ ok v)
      × (n.leq v threshold ≡ true)

  abbrev pub AllWithin : V → V → Dict (List (V × V)) → Type 0
  AllWithin quantile threshold = All (λ family. IsWithin quantile threshold family.1)

  raise_worst-old : (t v : V) → n.leq t (raise_worst n infinity ratio (some t) v) ≡ true
  raise_worst-old = greater_of-left n

  raise_worst-new : (o : Option V) (v : V) → n.leq v (raise_worst n infinity ratio o v) ≡ true
  raise_worst-new none v = leq_refl n v
  raise_worst-new (some t) v = greater_of-right n t v

  worst_next :
      (quantile : V) (b : List (V × V)) (o : Option V) (next : Option V → Result Refusal (Option V))
      (top : V)
      → worst_with n infinity ratio (bucket_quantile n infinity ratio quantile b) o next
        ≡ ok (some top)
      → (v : V) × (bucket_quantile n infinity ratio quantile b ≡ ok v)
        × (next (some (raise_worst n infinity ratio o v)) ≡ ok (some top))
  worst_next quantile b o next top h = go (bucket_quantile n infinity ratio quantile b) h
    where
      go :
          (r : Result Refusal V)
          → worst_with n infinity ratio r o next ≡ ok (some top)
          → (v : V) × (r ≡ ok v) × (next (some (raise_worst n infinity ratio o v)) ≡ ok (some top))
      go (err e) h = ground arith
      go (ok v) h = (v, refl, h)

  -- The worst so far stays below the worst of all.
  worst-raises :
      (quantile : V) (families : Dict (List (V × V))) (t top : V)
      → worst n infinity ratio quantile families (some t) ≡ ok (some top)
      → n.leq t top ≡ true
  unfolding worst
  worst-raises quantile [] t top h =
      let same : some t ≡ some top = ground arith in
      subst (λ x. n.leq t x ≡ true) (some-injective t top same) (leq_refl n t)
  worst-raises quantile ((name, b) ∷ families) t top h =
      let (v, placed, rest) = worst_next quantile b (some t) _ top h in
      n.leq_trans t _ top (raise_worst-old t v) (worst-raises quantile families _ top rest)

  pub worst-AllWithin :
      (quantile threshold : V) (families : Dict (List (V × V))) (o : Option V) (top : V)
      → worst n infinity ratio quantile families o ≡ ok (some top)
      → n.leq top threshold ≡ true
      → AllWithin quantile threshold families
  unfolding worst
  worst-AllWithin quantile threshold [] o top h k = tt
  worst-AllWithin quantile threshold ((name, b) ∷ families) o top h k =
      let (v, placed, rest) = worst_next quantile b o _ top h in
      let below =
        n.leq_trans v _ top (raise_worst-new o v) (worst-raises quantile families _ top rest) in
      (
        (v, placed, n.leq_trans v top threshold below k),
        worst-AllWithin quantile threshold families _ top rest k,
      )
