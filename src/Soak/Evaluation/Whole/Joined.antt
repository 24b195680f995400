-- ===== src/Soak/Evaluation/Whole/Joined.antt =====
-- The joined texts of the issues of an index are never the text of a growth to review.
use nanolab.Prelude.{
  false, List, [], ◌∷◌, String, ◌<>◌, ◌==◌, text_equality, ◌≡◌, refl, sym, ◌∙◌, ap, eq_iff,
  Bool-cases, inl, inr, false≢true,
}
use Prim.Native.String.{len, slice}
use text.Mathlib.TextEquality.{starts_with_iff}
use text.Mathlib.TextPositions.{slice-append_left}
use text.Mathlib.TextLemmas.{append_assoc}
use nanolab.Soak.Evaluation.Index.{
  torn, malformed, identity, non_monotone, crosses, overlaps, corrupt, Issue,
}
use nanolab.Soak.Evaluation.Whole.{
  starts_with_growth, issue_text, sorted_issues, met, joined, join_issues, integrity,
}

-- Two texts that begin with a letter begin with the same one where they are equal.
letter : (a b x y : String) → len a ≡ 1 → len b ≡ 1 → a <> x ≡ b <> y → a ≡ b
letter a b x y one also h =
    sym (slice-append_left a x)
    ∙ ap (λ n. slice (a <> x) 0 n) one
    ∙ ap (λ s. slice s 0 1) h
    ∙ ap (λ n. slice (b <> y) 0 n) (sym also)
    ∙ slice-append_left b y

-- A text that begins with another letter is none of a growth.
plain : (c rest : String) → len c ≡ 1 → (c == "g") ≡ false → starts_with_growth (c <> rest) ≡ false
plain c rest one differs = elim (Bool-cases (starts_with_growth (c <> rest))) [
  | inl grows ↦
      let (tail, h) = (starts_with_iff (c <> rest) "growth exceeds review threshold").0 grows in
      let same =
        letter c "g" rest ("rowth exceeds review threshold" <> tail) one refl
          (sym h ∙ append_assoc "g" "rowth exceeds review threshold" tail) in
      absurd (false≢true (sym differs ∙ (eq_iff c "g").1 same))
  | inr not_so ↦ not_so
]

plain_word :
    (c word tail : String)
    → len c ≡ 1
    → (c == "g") ≡ false
    → starts_with_growth ((c <> word) <> tail) ≡ false
plain_word c word tail one differs =
    ap starts_with_growth (append_assoc c word tail) ∙ plain c (word <> tail) one differs

text-growth : (i : Issue) (tail : String) → starts_with_growth (issue_text i <> tail) ≡ false
text-growth torn tail = plain_word "t" "orn sample stream" tail refl refl
text-growth malformed tail = plain_word "m" "alformed, nonfinite or duplicate sample" tail refl refl
text-growth identity tail =
    plain_word "p" "rocess/container identity changed or unbound" tail refl refl
text-growth non_monotone tail = plain_word "n" "on-monotone phase/sample timeline" tail refl refl
text-growth crosses tail = plain_word "s" "ample crosses natural phase boundary" tail refl refl
text-growth overlaps tail =
    plain_word "n" "atural sample overlaps diagnostic perturbation" tail refl refl
text-growth corrupt tail = plain_word "u" "nreadable or corrupt sample stream" tail refl refl

join_issues-growth : (issues : List Issue) → starts_with_growth (join_issues issues) ≡ false
join_issues-growth [] = refl
join_issues-growth (torn ∷ []) = refl
join_issues-growth (malformed ∷ []) = refl
join_issues-growth (identity ∷ []) = refl
join_issues-growth (non_monotone ∷ []) = refl
join_issues-growth (crosses ∷ []) = refl
join_issues-growth (overlaps ∷ []) = refl
join_issues-growth (corrupt ∷ []) = refl
join_issues-growth (i ∷ (j ∷ issues)) = text-growth i ("; " <> joined j issues)

pub integrity-growth : (issues : List Issue) → starts_with_growth (integrity issues).reason ≡ false
integrity-growth [] = refl
integrity-growth (i ∷ issues) = join_issues-growth (met (i ∷ issues) sorted_issues)
