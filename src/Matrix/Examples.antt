-- ===== src/Matrix/Examples.antt =====
-- A comparison of two variants in three repetitions.
use nanolab.Prelude.{ℕ, ◌≡◌, refl, some, List, [], ◌∷◌, String, ok, length, get_elem?, arith}
use nanolab.Matrix.{ComparisonCell, build_matrix, rounds}
use nanolab.Matrix.Order.{build_matrix-order}

abbrev cell : String → ℕ → ComparisonCell String
cell variant repetition = record { variant = variant; repetition = repetition }

abbrev cells : List (ComparisonCell String)
cells =
    cell "jvm" 1
    ∷ cell "native" 1
    ∷ cell "jvm" 2
    ∷ cell "native" 2
    ∷ cell "jvm" 3
    ∷ cell "native" 3
    ∷ []

build_matrix_test : build_matrix ("jvm" ∷ "native" ∷ []) 3 ≡ ok cells
unfolding build_matrix rounds
build_matrix_test = refl

build_matrix-order_example : (length cells ≡ 6) × (get_elem? cells 3 ≡ some (cell "native" 2))
build_matrix-order_example =
    build_matrix-order ("jvm" ∷ "native" ∷ []) 3 cells 1 1 build_matrix_test (omega arith)
      (omega arith)
