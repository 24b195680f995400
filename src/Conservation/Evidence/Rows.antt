-- ===== src/Conservation/Evidence/Rows.antt =====
-- Lemmas on the rows that conservation.py reads: their ids, the list of violations, and counts by id.
use nanolab.Prelude.{
  suc, ◌≤◌, ◌≡◌, refl, ap, Bool, true, false, not, ◌&&◌, List, [], ◌∷◌, ◌++◌, String, length, keep,
  contains, map, ◌==◌, text_equality, number_equality, Bool-cases, inl, inr, arith, false≢true,
  eq_iff,
}
use nanolab.Conservation.IdSets.{Ids, Once}
use nanolab.Conservation.Evidence.{
  flag, Outcome, Violation, ids_of, outcome_ids, success_ids, error_ids, times, repeats,
  append_flags, flag, no_load, duplicate_original, generator_deficit, multiple_attempts, unresolved,
  duplicate_result, unplanned,
}

pub append-empty : (xs ys : List Violation) → xs ++ ys ≡ [] → (xs ≡ []) × (ys ≡ [])
append-empty [] ys h = (refl, h)
append-empty (x ∷ xs) ys h = absurd (ground arith)

pub flag-none : (t : Bool) (v : Violation) → flag t v ≡ [] → t ≡ false
flag-none t v h = ground arith

pub append_flags-empty :
    (idle duplicates deficit multiple : Bool) (proofs : List Violation)
    (pending two_results others : Bool)
    → append_flags idle duplicates deficit multiple proofs pending two_results others ≡ []
    → (idle ≡ false)
      × (duplicates ≡ false)
      × (deficit ≡ false)
      × (multiple ≡ false)
      × (pending ≡ false)
      × (two_results ≡ false)
      × (others ≡ false)
append_flags-empty idle duplicates deficit multiple proofs pending two_results others h =
    let (h1, others_false) = append-empty _ (flag others unplanned) h in
    let (h2, two_false) = append-empty _ (flag two_results duplicate_result) h1 in
    let (h3, pending_false) = append-empty _ (flag pending unresolved) h2 in
    let (h4, nothing) = append-empty _ proofs h3 in
    let (h5, multiple_false) = append-empty _ (flag multiple multiple_attempts) h4 in
    let (h6, deficit_false) = append-empty _ (flag deficit generator_deficit) h5 in
    let (idle_false, duplicates_false) =
      append-empty (flag idle no_load) (flag duplicates duplicate_original) h6 in
    (
      flag-none idle no_load idle_false,
      flag-none duplicates duplicate_original duplicates_false,
      flag-none deficit generator_deficit deficit_false,
      flag-none multiple multiple_attempts multiple_false,
      flag-none pending unresolved pending_false,
      flag-none two_results duplicate_result two_false,
      flag-none others unplanned others_false,
    )

pub empty : (xs : List Violation) → (length xs == 0) ≡ true → xs ≡ []
empty [] h = refl
empty (x ∷ xs) h = absurd (ground arith)

pub contains-ids_of :
    {R : Type 0} (id : R → String) (test : R → Bool) (rows : List R) (a : String)
    → contains a (ids_of id test rows) ≡ true
    → contains a (map id rows) ≡ true
contains-ids_of id test [] a h = absurd (false≢true h)
contains-ids_of id test (r ∷ rs) a h = let later = contains-ids_of id test rs a in ground arith

-- With one result per id, no id both succeeds and fails.
pub successes-disjoint :
    (results : List Outcome) (a : String)
    → Once (outcome_ids results)
    → contains a (success_ids results) ≡ true
    → contains a (error_ids results) ≡ false
successes-disjoint [] a once h = refl
successes-disjoint (r ∷ rs) a (fresh, once) h =
    let later = successes-disjoint rs a once in
    let ok_there = contains-ids_of (λ (o : Outcome). o.original_id) (λ o. o.success) rs a in
    let err_there =
      contains-ids_of (λ (o : Outcome). o.original_id) (λ o. not o.success && o.terminal_error) rs
        a in
    elim (Bool-cases (r.original_id == a)) [
      | inl same ↦
          let moved = ap (λ y. contains y (outcome_ids rs)) ((eq_iff r.original_id a).0 same) in
          ground arith
      | inr differs ↦ ground arith
    ]

pub repeats-times :
    (xs all : Ids) (a : String) → repeats xs all ≡ false → contains a xs ≡ true → times a all ≤ 1
repeats-times [] all a h there = absurd (false≢true there)
repeats-times (x ∷ xs) all a h there = elim (Bool-cases (x == a)) [
  | inl same ↦ let moved = ap (λ y. times y all) ((eq_iff x a).0 same) in ground arith
  | inr differs ↦ repeats-times xs all a (ground arith) (ground arith)
]

pub length-map : {R : Type 0} (id : R → String) (rows : List R) → length (map id rows) ≡ length rows
length-map id [] = refl
length-map id (r ∷ rs) = ap suc (length-map id rs)

pub times-absent : (a : String) (xs : Ids) → contains a xs ≡ false → times a xs ≡ 0
times-absent a [] h = refl
times-absent a (x ∷ xs) h = let later = times-absent a xs in ground arith

pub times_one : (xs : Ids) (a : String) → repeats xs xs ≡ false → times a xs ≤ 1
times_one xs a h = elim (Bool-cases (contains a xs)) [
  | inl there ↦ repeats-times xs xs a h there
  | inr absent ↦ let nothing = times-absent a xs absent in omega arith
]

pub Once-times : (xs : Ids) (a : String) → Once xs → times a xs ≤ 1
Once-times [] a h = omega arith
Once-times (x ∷ xs) a (fresh, once) =
    let later = Once-times xs a once in
    let absent = times-absent a xs in
    elim (Bool-cases (x == a)) [
      | inl same ↦ let moved = ap (λ y. contains y xs) ((eq_iff x a).0 same) in ground arith
      | inr differs ↦ ground arith
    ]

pub length-keep_zero :
    (p : String → Bool) (xs : Ids) (a : String)
    → length (keep p xs) ≡ 0
    → contains a xs ≡ true
    → p a ≡ false
length-keep_zero p [] a h there = absurd (false≢true there)
length-keep_zero p (x ∷ xs) a h there = elim (Bool-cases (x == a)) [
  | inl same ↦ let moved = ap p ((eq_iff x a).0 same) in ground arith
  | inr differs ↦ length-keep_zero p xs a (ground arith) (ground arith)
]
