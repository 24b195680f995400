-- ===== src/Soak/Evaluation/Merged.antt =====
-- What a verdict of PASS over merged results means.
use nanolab.Prelude.{
  Bool, true, false, not, ◌&&◌, Option, none, some, List, [], ◌∷◌, ◌++◌, if◌then◌else◌, String, ◌≡◌,
  Dict, values, All, ◌↔◌, ◌⊎◌, inl, inr, arith, refl, some-injective, subst, if_ind, Bool-cases,
  All-map, text_equality, eq_iff, ap, ◌∙◌, ◌==◌,
}
use nanolab.Prelude.Dicts.{get, remove, get-remove}
use nanolab.Soak.Evaluation.{
  Status, pass, fail, inconclusive, aborted, CriterionResult, is_pass, is_fail, is_aborted,
  is_inconclusive, any_status, is_empty, combine_results, by_id_from, replaces, merge_item,
  merge_loop, merge_results,
}

abbrev pub Passed : CriterionResult → Type 0
Passed r = r.status ≡ pass

is_pass_lem : (s : Status) → not (is_pass s) ≡ false → s ≡ pass
is_pass_lem pass h = refl
is_pass_lem fail h = ground arith
is_pass_lem inconclusive h = ground arith
is_pass_lem aborted h = ground arith

any-Passed :
    (rs : List CriterionResult) → any_status (λ s. not (is_pass s)) rs ≡ false → All Passed rs
any-Passed [] h = tt
any-Passed (r ∷ rs) h = (is_pass_lem r.status (ground arith), any-Passed rs (ground arith))

Passed-any :
    (p : Status → Bool) (rs : List CriterionResult)
    → p pass ≡ false
    → All Passed rs
    → any_status p rs ≡ false
Passed-any p [] h k = refl
Passed-any p (r ∷ rs) h k =
    let first = ap p k.0 ∙ h in let others = Passed-any p rs h k.1 in ground arith

-- A verdict of PASS is given exactly to a run that was not aborted, with at least one result, all of
-- which passed.
pub combine_results-pass :
    (rs : List CriterionResult) (was_aborted : Bool)
    → (combine_results rs was_aborted ≡ pass)
      ↔ ((was_aborted ≡ false) × (is_empty rs ≡ false) × All Passed rs)
unfolding combine_results
combine_results-pass rs was_aborted = (
  (λ h. (ground arith, ground arith, any-Passed rs (ground arith))),
  (λ (a, b, c).
      let x = Passed-any is_aborted rs refl c in
      let y = Passed-any is_fail rs refl c in
      let z = Passed-any (λ s. not (is_pass s)) rs refl c in ground arith),
)

All-append_left :
    (xs ys : List CriterionResult) → All Passed (xs ++ ys) → All Passed xs × All Passed ys
All-append_left [] ys h = (tt, h)
All-append_left (x ∷ xs) ys h = let rest = All-append_left xs ys h.1 in ((h.0, rest.0), rest.1)

get-values :
    (d : Dict CriterionResult) (k : String) (r : CriterionResult)
    → All Passed (values d)
    → get k d ≡ some r
    → Passed r
unfolding get
get-values [] k r h g = ground arith
get-values ((j, v) ∷ d) k r h g =
    if_ind (λ o. o ≡ some r → Passed r) (j == k) (λ _ g. subst Passed (some-injective v r g) h.0)
      (λ _ g. get-values d k r h.1 g) g

module _ (starts_with_growth : String → Bool) where
  -- A criterion that passed, or a growth to review whose acceptance under the same id passed.
  abbrev pub Cleared : Dict CriterionResult → CriterionResult → Type 0
  Cleared d item =
      Passed item
      ⊎ ((r : CriterionResult) × (get item.criterion_id d ≡ some r)
          × Passed r
          × (item.status ≡ inconclusive)
          × (starts_with_growth item.reason ≡ true))

  merge_item-Cleared :
      (d : Dict CriterionResult) (item : CriterionResult) (o : Option CriterionResult)
      → get item.criterion_id d ≡ o
      → All Passed (merge_item starts_with_growth item o)
      → Cleared d item
  merge_item-Cleared d item none h k = inl k.0
  merge_item-Cleared d item (some r) h k =
      if_ind (λ rs. All Passed rs → Cleared d item) (replaces starts_with_growth r item)
        (λ t k.
          let fits = replaced item.status r.status (starts_with_growth item.reason) t in
          inr (r, h, k.0, fits.0, fits.1))
        (λ _ k. inl k.0) k
    where
      replaced :
          (s t : Status) (b : Bool)
          → is_inconclusive s && b && is_pass t ≡ true
          → (s ≡ inconclusive) × (b ≡ true)
      replaced inconclusive t true h = (refl, refl)
      replaced pass t b h = ground arith
      replaced fail t b h = ground arith
      replaced aborted t b h = ground arith
      replaced inconclusive t false h = ground arith

  merge_item-accepted :
      (item r : CriterionResult)
      → All Passed (merge_item starts_with_growth item (some r))
      → Passed r
  merge_item-accepted item r k =
      if_ind (λ rs. All Passed rs → Passed r) (replaces starts_with_growth r item) (λ _ k. k.0)
        (λ _ k. k.1.0) k

  Cleared-remove :
      (k : String) (d : Dict CriterionResult) (item : CriterionResult)
      → Cleared (remove k d) item
      → Cleared d item
  Cleared-remove k d item (inl h) = inl h
  Cleared-remove k d item (inr (r, h, passed, open_, growth)) =
      inr (r, there h, passed, open_, growth)
    where
      there : get item.criterion_id (remove k d) ≡ some r → get item.criterion_id d ≡ some r
      there h = ground (arith, get-remove k item.criterion_id d)

  merge_loop-Cleared :
      (items : List CriterionResult) (d : Dict CriterionResult)
      → All Passed (merge_loop starts_with_growth items d)
      → All (Cleared d) items
  unfolding merge_loop
  merge_loop-Cleared [] d h = tt
  merge_loop-Cleared (item ∷ items) d h =
      let parts =
        All-append_left (merge_item starts_with_growth item (get item.criterion_id d)) _ h in
      (
        merge_item-Cleared d item (get item.criterion_id d) refl parts.0,
        All-map (Cleared (remove item.criterion_id d)) (Cleared d) items
            (Cleared-remove item.criterion_id d)
            (merge_loop-Cleared items (remove item.criterion_id d) parts.1),
      )

  merge_loop-accepted :
      (items : List CriterionResult) (d : Dict CriterionResult) (k : String) (r : CriterionResult)
      → All Passed (merge_loop starts_with_growth items d)
      → get k d ≡ some r
      → Passed r
  unfolding merge_loop
  merge_loop-accepted [] d k r h g = get-values d k r h g
  merge_loop-accepted (item ∷ items) d k r h g =
      let o = get item.criterion_id d in
      let parts = All-append_left (merge_item starts_with_growth item o) _ h in
      let later = merge_loop-accepted items (remove item.criterion_id d) k r parts.1 in
      elim (Bool-cases (item.criterion_id == k)) [
        | inl same ↦
            let here = ap (λ j. get j d) ((eq_iff item.criterion_id k).0 same) ∙ g in
            merge_item-accepted item r
              (subst (λ o. All Passed (merge_item starts_with_growth item o)) here parts.0)
        | inr other ↦
            later
              (get-remove item.criterion_id k d ∙ ap (λ b. if b then none else get k d) other ∙ g)
      ]

  -- Where the merged results are given PASS, every criterion passed on its own, or was a growth that
  -- needed review and whose acceptance passed.
  pub merge_results-Cleared :
      (results acceptance : List CriterionResult)
      → combine_results (merge_results starts_with_growth results acceptance) false ≡ pass
      → All (Cleared (by_id_from [] acceptance)) results
  unfolding merge_results
  merge_results-Cleared results acceptance h =
      merge_loop-Cleared results (by_id_from [] acceptance) ((combine_results-pass _ false).0 h).2

  -- Where the merged results are given PASS, every result of the acceptance passed.
  pub merge_results-accepted :
      (results acceptance : List CriterionResult) (k : String) (r : CriterionResult)
      → combine_results (merge_results starts_with_growth results acceptance) false ≡ pass
      → get k (by_id_from [] acceptance) ≡ some r
      → Passed r
  unfolding merge_results
  merge_results-accepted results acceptance k r h =
      merge_loop-accepted results (by_id_from [] acceptance) k r
        ((combine_results-pass _ false).0 h).2
