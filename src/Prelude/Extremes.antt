-- ===== src/Prelude/Extremes.antt =====
-- `max` and `min` of a list that is not empty.
use Prim.Native.Nat.{ℕ, ◌≤◌, min, max}
use mathlib.Core.Path.{◌≡◌, refl, ◌∙◌}
use mathlib.Core.Logic.{◌⊎◌, inl, inr}
use mathlib.Core.List.{List, [], ◌∷◌, foldl}
use native.Mathlib.Omega.{arith}
use nanolab.Prelude.Lists.{In}

unfoldable pub maximum : ℕ → List ℕ → ℕ
maximum x xs = foldl max x xs

unfoldable pub minimum : ℕ → List ℕ → ℕ
minimum x xs = foldl min x xs

pub le-maximum : (x : ℕ) (xs : List ℕ) (y : ℕ) → In y (x ∷ xs) → y ≤ maximum x xs
unfolding maximum
le-maximum x [] y (inl here) = omega arith
le-maximum x [] y (inr there) = absurd there
le-maximum x (z ∷ zs) y (inl here) = omega (arith, le-maximum (max x z) zs (max x z) (inl refl))
le-maximum x (z ∷ zs) y (inr (inl here)) =
    omega (arith, le-maximum (max x z) zs (max x z) (inl refl))
le-maximum x (z ∷ zs) y (inr (inr there)) = le-maximum (max x z) zs y (inr there)

max-either : (x z : ℕ) → (max x z ≡ x) ⊎ (max x z ≡ z)
max-either x z = ground arith

pub maximum-In : (x : ℕ) (xs : List ℕ) → In (maximum x xs) (x ∷ xs)
unfolding maximum
maximum-In x [] = inl refl
maximum-In x (z ∷ zs) = elim (maximum-In (max x z) zs) [
  | inl here ↦ elim (max-either x z) [
    | inl first ↦ inl (here ∙ first)
    | inr second ↦ inr (inl (here ∙ second))
  ]
  | inr there ↦ inr (inr there)
]

pub minimum-le : (x : ℕ) (xs : List ℕ) (y : ℕ) → In y (x ∷ xs) → minimum x xs ≤ y
unfolding minimum
minimum-le x [] y (inl here) = omega arith
minimum-le x [] y (inr there) = absurd there
minimum-le x (z ∷ zs) y (inl here) = omega (arith, minimum-le (min x z) zs (min x z) (inl refl))
minimum-le x (z ∷ zs) y (inr (inl here)) =
    omega (arith, minimum-le (min x z) zs (min x z) (inl refl))
minimum-le x (z ∷ zs) y (inr (inr there)) = minimum-le (min x z) zs y (inr there)

min-either : (x z : ℕ) → (min x z ≡ x) ⊎ (min x z ≡ z)
min-either x z = ground arith

pub minimum-In : (x : ℕ) (xs : List ℕ) → In (minimum x xs) (x ∷ xs)
unfolding minimum
minimum-In x [] = inl refl
minimum-In x (z ∷ zs) = elim (minimum-In (min x z) zs) [
  | inl here ↦ elim (min-either x z) [
    | inl first ↦ inl (here ∙ first)
    | inr second ↦ inr (inl (here ∙ second))
  ]
  | inr there ↦ inr (inr there)
]
