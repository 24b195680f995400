-- ===== src/Matrix.antt =====
-- packages/nanolab/src/nanolab/comparison/matrix.py: the order of the runs of a comparison. Variants are
-- of any type; whether a cell has completed, which the code reads off two files, is an argument.
pub mod Order
mod Examples
use nanolab.Prelude.{
  ℕ, zero, suc, ◌+◌, Bool, true, false, not, List, [], ◌∷◌, ◌++◌, if◌then◌else◌, ltb, keep, map,
  Result, ok, err,
}

pub record ComparisonCell (V : Type 0) : Type 0 where
  pub variant : V
  pub repetition : ℕ

pub data MatrixError : Type 0 where
  no_repetition no_variant : MatrixError

module _ {V : Type 0} where
  -- One pass over the variants.
  abbrev pub round : ℕ → List V → List (ComparisonCell V)
  round repetition variants = map (λ v. record { variant = v; repetition = repetition }) variants

  -- The passes from a repetition on, that many of them.
  unfoldable pub rounds : ℕ → ℕ → List V → List (ComparisonCell V)
  rounds from zero variants = []
  rounds from (suc n) variants = round from variants ++ rounds (suc from) n variants

  abbrev matrix_of : ℕ → List V → Result MatrixError (List (ComparisonCell V))
  matrix_of repetitions [] = err no_variant
  matrix_of repetitions (v ∷ vs) = ok (rounds 1 repetitions (v ∷ vs))

  unfoldable pub build_matrix : List V → ℕ → Result MatrixError (List (ComparisonCell V))
  unfolding rounds
  build_matrix variants repetitions =
      if ltb repetitions 1 then err no_repetition else matrix_of repetitions variants

  unfoldable pub pending :
      (ComparisonCell V → Bool) → List (ComparisonCell V) → List (ComparisonCell V)
  pending completed = keep (λ c. not (completed c))
