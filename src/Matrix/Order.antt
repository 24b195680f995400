-- ===== src/Matrix/Order.antt =====
-- The order of the comparison matrix.
use nanolab.Prelude.{
  ℕ, zero, suc, ◌+◌, ◌*◌, ◌<◌, ◌≡◌, refl, sym, ap, ◌∙◌, Option, none, some, List, [], ◌∷◌, ◌++◌,
  length, get_elem?, length-append, ok, arith,
}
use nanolab.Matrix.{ComparisonCell, round, rounds, build_matrix}

get_elem?-append_left :
    {A : Type 0} (xs ys : List A) (i : ℕ) → i < length xs → get_elem? (xs ++ ys) i ≡ get_elem? xs i
get_elem?-append_left [] ys i h = absurd (omega arith)
get_elem?-append_left (x ∷ xs) ys zero h = refl
get_elem?-append_left (x ∷ xs) ys (suc i) h = get_elem?-append_left xs ys i (omega arith)

get_elem?-append_right :
    {A : Type 0} (xs ys : List A) (i k : ℕ)
    → k ≡ length xs + i
    → get_elem? (xs ++ ys) k ≡ get_elem? ys i
get_elem?-append_right [] ys i k h = ap (get_elem? ys) (omega arith)
get_elem?-append_right (x ∷ xs) ys i zero h = absurd (omega arith)
get_elem?-append_right (x ∷ xs) ys i (suc k) h = get_elem?-append_right xs ys i k (omega arith)

suc_times : (n m : ℕ) → suc n * m ≡ m + n * m
suc_times n m = omega arith

module _ {V : Type 0} where
  -- The cell of a repetition, for the variant there, if any.
  abbrev pub cell_of : ℕ → Option V → Option (ComparisonCell V)
  cell_of repetition none = none
  cell_of repetition (some v) = some (record { variant = v; repetition = repetition })

  length-round : (repetition : ℕ) (vs : List V) → length (round repetition vs) ≡ length vs
  length-round repetition [] = refl
  length-round repetition (v ∷ vs) = ap suc (length-round repetition vs)

  get_elem?-round :
      (repetition : ℕ) (vs : List V) (j : ℕ)
      → get_elem? (round repetition vs) j ≡ cell_of repetition (get_elem? vs j)
  get_elem?-round repetition [] j = refl
  get_elem?-round repetition (v ∷ vs) zero = refl
  get_elem?-round repetition (v ∷ vs) (suc j) = get_elem?-round repetition vs j

  length-rounds : (from n : ℕ) (vs : List V) → length (rounds from n vs) ≡ n * length vs
  unfolding rounds
  length-rounds from zero vs = omega arith
  length-rounds from (suc n) vs =
      length-append (round from vs) (rounds (suc from) n vs)
      ∙ let one = length-round from vs in
        let more = length-rounds (suc from) n vs in omega (arith, suc_times n (length vs))

  get_elem?-rounds :
      (from n : ℕ) (vs : List V) (r j k : ℕ)
      → r < n
      → j < length vs
      → k ≡ r * length vs + j
      → get_elem? (rounds from n vs) k ≡ cell_of (from + r) (get_elem? vs j)
  unfolding rounds
  get_elem?-rounds from zero vs r j k low here h = absurd (omega arith)
  get_elem?-rounds from (suc n) vs zero j k low here h =
      ap (get_elem? (round from vs ++ rounds (suc from) n vs)) (let m = suc_times in omega arith)
      ∙ get_elem?-append_left (round from vs) (rounds (suc from) n vs) j
          (let size = length-round from vs in omega arith)
      ∙ get_elem?-round from vs j
      ∙ ap (λ i. cell_of i (get_elem? vs j)) (omega arith)
  get_elem?-rounds from (suc n) vs (suc r) j k low here h =
      get_elem?-append_right (round from vs) (rounds (suc from) n vs) (r * length vs + j) k
        (let size = length-round from vs in omega (arith, suc_times r (length vs)))
      ∙ get_elem?-rounds (suc from) n vs r j (r * length vs + j) (omega arith) here refl
      ∙ ap (λ i. cell_of i (get_elem? vs j)) (omega arith)

  -- The matrix has each variant in each repetition, repetition by repetition: it has as many cells as
  -- repetitions times variants, and the cell at `r * length variants + j` is that of the `j`-th variant
  -- in repetition `r + 1`.
  pub build_matrix-order :
      (variants : List V) (repetitions : ℕ) (cells : List (ComparisonCell V)) (r j : ℕ)
      → build_matrix variants repetitions ≡ ok cells
      → r < repetitions
      → j < length variants
      → (length cells ≡ repetitions * length variants)
        × (get_elem? cells (r * length variants + j) ≡ cell_of (r + 1) (get_elem? variants j))
  unfolding build_matrix
  build_matrix-order [] repetitions cells r j h low here = absurd (omega arith)
  build_matrix-order (v ∷ vs) repetitions cells r j h low here = (
    ap length (sym made) ∙ length-rounds 1 repetitions (v ∷ vs),
    ap (λ cs. get_elem? cs (r * length (v ∷ vs) + j)) (sym made)
        ∙ get_elem?-rounds 1 repetitions (v ∷ vs) r j (r * length (v ∷ vs) + j) low here refl
        ∙ ap (λ i. cell_of i (get_elem? (v ∷ vs) j)) (omega arith),
  )
    where
      made : rounds 1 repetitions (v ∷ vs) ≡ cells
      made = ground arith
