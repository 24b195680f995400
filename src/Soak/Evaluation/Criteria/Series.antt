-- ===== src/Soak/Evaluation/Criteria/Series.antt =====
-- The series that a criterion judges.
use nanolab.Prelude.{
  Bool, true, ◌&&◌, List, [], ◌∷◌, if◌then◌else◌, String, ◌==◌, text_equality, number_equality, ◌≡◌,
  In, inl, inr, refl, sym, ◌∙◌, subst, arith, eq_iff, if_ind, Bool-cases, contains, false≢true,
}
use nanolab.Soak.Evaluation.Index.{Stored}
use nanolab.Soak.Evaluation.Criteria.{Criterion, add_label, series_from}

contains-In : (l : String) (ls : List String) → contains l ls ≡ true → In l ls
contains-In l [] h = ground arith
contains-In l (m ∷ ls) h = elim (Bool-cases (m == l)) [
  | inl same ↦ inl (sym ((eq_iff m l).0 same))
  | inr other ↦ inr (contains-In l ls (ground arith))
]

add_label-here : (l : String) (ls : List String) → In l (add_label l ls)
add_label-here l ls = if_ind (In l) (contains l ls) (contains-In l ls) (λ _. inl refl)

add_label-there : (k l : String) (ls : List String) → In k ls → In k (add_label l ls)
add_label-there k l ls h = if_ind (In k) (contains l ls) (λ _. h) (λ _. inr h)

module _ {V : Type 0} where
  -- A sample of a series that the criterion judges.
  abbrev pub IsJudged : Criterion V → (String → Bool) → Stored V → Type 0
  IsJudged c selects s = (s.role ≡ c.role) × (s.metric ≡ c.metric) × (selects s.labels ≡ true)

  judged_test :
      (c : Criterion V) (selects : String → Bool) (s : Stored V)
      → IsJudged c selects s
      → s.role == c.role && (s.metric == c.metric && selects s.labels) ≡ true
  judged_test c selects s h =
      let role = (eq_iff s.role c.role).1 h.0 in
      let metric = (eq_iff s.metric c.metric).1 h.1 in let chosen = h.2 in ground arith

  pub In-series_from :
      (c : Criterion V) (selects : String → Bool) (ss : List (Stored V)) (s : Stored V)
      → In s ss
      → IsJudged c selects s
      → In s.labels (series_from c selects ss)
  In-series_from c selects [] s there h = absurd there
  In-series_from c selects (t ∷ ss) s (inl here) h =
      let rest = series_from c selects ss in
      subst
        (λ x. In s.labels (
          if x.role == c.role && (x.metric == c.metric && selects x.labels)
          then add_label x.labels rest
          else rest))
        here
        (if_ind (In s.labels) (s.role == c.role && (s.metric == c.metric && selects s.labels))
          (λ _. add_label-here s.labels rest)
          (λ no. absurd (false≢true (sym no ∙ judged_test c selects s h))))
  In-series_from c selects (t ∷ ss) s (inr there) h =
      let rest = In-series_from c selects ss s there h in
      if_ind (In s.labels) (t.role == c.role && (t.metric == c.metric && selects t.labels))
        (λ _. add_label-there s.labels t.labels (series_from c selects ss) rest) (λ _. rest)
