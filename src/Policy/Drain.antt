-- ===== src/Policy/Drain.antt =====
-- The checkpoints of a drain.
use nanolab.Prelude.{
  ℕ, ◌*◌, ◌≤◌, ◌<◌, ◌≡◌, ◌⊎◌, inl, inr, refl, sym, List, [], ◌∷◌, ◌++◌, leb, keep, ◌==◌,
  number_equality, arith, if_ind, Bool-cases, In, subst, In-append_left, nat_beq_iff,
}
use nanolab.Policy.{last_of, close_window, drain_checkpoints}

-- Strictly increasing.
abbrev pub Increasing : List ℕ → Type 0
Increasing [] = Unit
Increasing (x ∷ []) = Unit
Increasing (x ∷ y ∷ ys) = (x < y) × Increasing (y ∷ ys)

-- The checkpoints that are wanted.
abbrev pub wanted : List ℕ
wanted = 0 ∷ 30 ∷ 300 ∷ 1800 ∷ []

-- What a drain window is sampled at.
pub record IsDrain (limit : ℕ) (checkpoints : List ℕ) : Type 0 where
  pub later : List ℕ
  pub from_zero : checkpoints ≡ 0 ∷ later
  pub to_limit : last_of 0 later ≡ limit
  pub increasing : Increasing checkpoints
  pub wanted_inside : (c : ℕ) → In c wanted → c ≤ limit → In c checkpoints

last_of-snoc : (x y : ℕ) (xs : List ℕ) → last_of x (xs ++ y ∷ []) ≡ y
last_of-snoc x y [] = refl
last_of-snoc x y (z ∷ xs) = last_of-snoc z y xs

Increasing-snoc :
    (x y : ℕ) (xs : List ℕ)
    → Increasing (x ∷ xs)
    → last_of x xs < y
    → Increasing (x ∷ (xs ++ y ∷ []))
Increasing-snoc x y [] up h = (h, tt)
Increasing-snoc x y (z ∷ xs) (first, up) h = (first, Increasing-snoc z y xs up h)

close_window-IsDrain :
    (limit : ℕ) (xs : List ℕ)
    → Increasing (0 ∷ xs)
    → last_of 0 xs ≤ limit
    → ((c : ℕ) → In c wanted → c ≤ limit → In c (0 ∷ xs))
    → IsDrain limit (close_window limit (0 ∷ xs))
close_window-IsDrain limit xs up below inside =
    if_ind (IsDrain limit) (last_of 0 xs == limit) {x = 0 ∷ xs} {y = (0 ∷ xs) ++ limit ∷ []}
      (λ reached. record {
        later = xs;
        from_zero = refl;
        to_limit = (nat_beq_iff (last_of 0 xs) limit).0 reached;
        increasing = up;
        wanted_inside = inside;
      })
      (λ short. record {
        later = xs ++ limit ∷ [];
        from_zero = refl;
        to_limit = last_of-snoc 0 limit xs;
        increasing = Increasing-snoc 0 limit xs up (ground arith);
        wanted_inside = λ c there h. In-append_left c (0 ∷ xs) (limit ∷ []) (inside c there h);
      })

wanted-cases : (c : ℕ) → In c wanted → (c ≡ 0) ⊎ ((c ≡ 30) ⊎ ((c ≡ 300) ⊎ (c ≡ 1800)))
wanted-cases c (inl h) = inl h
wanted-cases c (inr (inl h)) = inr (inl h)
wanted-cases c (inr (inr (inl h))) = inr (inr (inl h))
wanted-cases c (inr (inr (inr (inl h)))) = inr (inr (inr h))
wanted-cases c (inr (inr (inr (inr h)))) = absurd h

window-IsDrain : (limit : ℕ) → IsDrain limit (close_window limit (keep (λ c. leb c limit) wanted))
window-IsDrain limit = elim (Bool-cases (leb 30 limit)) [
  | inr short ↦
      drained [] (ground arith) tt (omega arith)
        (λ c there h. let cases = wanted-cases c there in grind arith)
  | inl half ↦ elim (Bool-cases (leb 300 limit)) [
    | inr short ↦
        drained (30 ∷ []) (ground arith) (omega arith, tt) (ground arith)
          (λ c there h. let cases = wanted-cases c there in grind arith)
    | inl five ↦ elim (Bool-cases (leb 1800 limit)) [
      | inr short ↦
          drained (30 ∷ 300 ∷ []) (ground arith) (omega arith, (omega arith, tt)) (ground arith)
            (λ c there h. let cases = wanted-cases c there in grind arith)
      | inl whole ↦
          drained (30 ∷ 300 ∷ 1800 ∷ []) (ground arith)
            (omega arith, (omega arith, (omega arith, tt))) (ground arith) (λ c there h. there)
    ]
  ]
]
  where
    drained :
        (xs : List ℕ)
        → keep (λ c. leb c limit) wanted ≡ 0 ∷ xs
        → Increasing (0 ∷ xs)
        → last_of 0 xs ≤ limit
        → ((c : ℕ) → In c wanted → c ≤ limit → In c (0 ∷ xs))
        → IsDrain limit (close_window limit (keep (λ c. leb c limit) wanted))
    drained xs kept up below inside =
        subst (λ cs. IsDrain limit (close_window limit cs)) (sym kept)
          (close_window-IsDrain limit xs up below inside)

-- A drain is sampled at strictly increasing times, from 0 to the end of its window, among them each of
-- 0, 30, 300 and 1800 seconds that the window reaches.
pub drain_checkpoints-IsDrain :
    (drain_minutes : ℕ) → IsDrain (drain_minutes * 60) (drain_checkpoints drain_minutes)
unfolding drain_checkpoints
drain_checkpoints-IsDrain drain_minutes = window-IsDrain (drain_minutes * 60)
