-- ===== src/Concurrency/Trajectory.antt =====
-- ConcurrencySummary.trajectory: the series as blocks of one limit each. The text that it prints is
-- not modelled.
use nanolab.Prelude.{
  ℕ, zero, suc, ◌+◌, ◌<◌, ◌≡◌, ◌≢◌, refl, ap, sym, ◌∙◌, none, some, List, [], ◌∷◌, ◌++◌,
  if◌then◌else◌, ◌==◌, nat_beq_iff, number_equality, arith, subst, if_ind,
}
use mathlib.Core.List.{append_assoc, append-nil}
use nanolab.Concurrency.Samples.{ConcurrencySample}
use nanolab.Concurrency.Dip.{values_of}

pub record Block (F : Type 0) : Type 0 where
  pub value : ℕ
  pub count : ℕ
  pub latencies : List F

-- The series that blocks stand for.
abbrev repeat : ℕ → ℕ → List ℕ
repeat zero v = []
repeat (suc n) v = v ∷ repeat n v

suc-add_one : (n : ℕ) → suc n ≡ n + 1
suc-add_one n = omega arith

repeat-snoc : (n v : ℕ) → v ∷ repeat n v ≡ repeat n v ++ v ∷ []
repeat-snoc zero v = refl
repeat-snoc (suc n) v = ap (◌∷◌ v) (repeat-snoc n v)

repeat-more : (n v : ℕ) → repeat (n + 1) v ≡ repeat n v ++ v ∷ []
repeat-more n v = subst (λ m. repeat m v ≡ repeat n v ++ v ∷ []) (suc-add_one n) (repeat-snoc n v)

module _ {F : Type 0} where
  abbrev latency_of : ConcurrencySample F → List F
  latency_of s = elim s.mean_latency_ms [ none ↦ [] | some x ↦ x ∷ [] ]

  -- One turn of the loop: the last block grows, or a new one is appended.
  push : List (Block F) → ConcurrencySample F → List (Block F)
  push [] s = record { value = s.effective; count = 1; latencies = latency_of s } ∷ []
  push (b ∷ []) s =
      if b.value == s.effective
      then record b { count = b.count + 1; latencies = b.latencies ++ latency_of s } ∷ []
      else b ∷ record { value = s.effective; count = 1; latencies = latency_of s } ∷ []
  push (b ∷ c ∷ bs) s = b ∷ push (c ∷ bs) s

  pub blocks_from : List (Block F) → List (ConcurrencySample F) → List (Block F)
  unfolding push
  blocks_from blocks [] = blocks
  blocks_from blocks (s ∷ ss) = blocks_from (push blocks s) ss

  unfoldable pub trajectory : List (ConcurrencySample F) → List (Block F)
  unfolding blocks_from
  trajectory samples = blocks_from [] samples

  abbrev pub expand : List (Block F) → List ℕ
  expand [] = []
  expand (b ∷ bs) = repeat b.count b.value ++ expand bs

  abbrev pub latencies_of : List (ConcurrencySample F) → List F
  latencies_of [] = []
  latencies_of (s ∷ ss) = latency_of s ++ latencies_of ss

  abbrev pub all_latencies : List (Block F) → List F
  all_latencies [] = []
  all_latencies (b ∷ bs) = b.latencies ++ all_latencies bs

  -- No two neighbours have one limit.
  abbrev pub Alternates : List (Block F) → Type 0
  Alternates [] = Unit
  Alternates (b ∷ []) = 0 < b.count
  Alternates (b ∷ c ∷ bs) = (0 < b.count) × (b.value ≢ c.value) × Alternates (c ∷ bs)

  expand-push :
      (bs : List (Block F)) (s : ConcurrencySample F)
      → expand (push bs s) ≡ expand bs ++ s.effective ∷ []
  unfolding push
  expand-push [] s = refl
  expand-push (b ∷ []) s =
      if_ind (λ blocks. expand blocks ≡ (repeat b.count b.value ++ []) ++ s.effective ∷ [])
        (b.value == s.effective)
        (λ same.
          append-nil (repeat (b.count + 1) b.value)
          ∙ repeat-more b.count b.value
          ∙ ap (λ xs. xs ++ b.value ∷ []) (sym (append-nil (repeat b.count b.value)))
          ∙ ap (λ v. (repeat b.count b.value ++ []) ++ v ∷ [])
              ((nat_beq_iff b.value s.effective).0 same))
        (λ differs. ap (λ xs. xs ++ s.effective ∷ []) (sym (append-nil (repeat b.count b.value))))
  expand-push (b ∷ c ∷ bs) s =
      rw (expand-push (c ∷ bs) s)
        (sym (append_assoc (repeat b.count b.value) (expand (c ∷ bs)) (s.effective ∷ [])))

  expand-blocks_from :
      (bs : List (Block F)) (ss : List (ConcurrencySample F))
      → expand (blocks_from bs ss) ≡ expand bs ++ values_of ss
  unfolding blocks_from
  expand-blocks_from bs [] = sym (append-nil (expand bs))
  expand-blocks_from bs (s ∷ ss) =
      expand-blocks_from (push bs s) ss
      ∙ ap (λ xs. xs ++ values_of ss) (expand-push bs s)
      ∙ append_assoc (expand bs) (s.effective ∷ []) (values_of ss)

  all_latencies-push :
      (bs : List (Block F)) (s : ConcurrencySample F)
      → all_latencies (push bs s) ≡ all_latencies bs ++ latency_of s
  unfolding push
  all_latencies-push [] s = append-nil (latency_of s)
  all_latencies-push (b ∷ []) s =
      if_ind (λ blocks. all_latencies blocks ≡ (b.latencies ++ []) ++ latency_of s)
        (b.value == s.effective)
        (λ same.
          append-nil (b.latencies ++ latency_of s)
          ∙ ap (λ xs. xs ++ latency_of s) (sym (append-nil b.latencies)))
        (λ differs.
          ap (◌++◌ b.latencies) (append-nil (latency_of s))
          ∙ ap (λ xs. xs ++ latency_of s) (sym (append-nil b.latencies)))
  all_latencies-push (b ∷ c ∷ bs) s =
      rw (all_latencies-push (c ∷ bs) s)
        (sym (append_assoc b.latencies (all_latencies (c ∷ bs)) (latency_of s)))

  all_latencies-blocks_from :
      (bs : List (Block F)) (ss : List (ConcurrencySample F))
      → all_latencies (blocks_from bs ss) ≡ all_latencies bs ++ latencies_of ss
  unfolding blocks_from
  all_latencies-blocks_from bs [] = sym (append-nil (all_latencies bs))
  all_latencies-blocks_from bs (s ∷ ss) =
      all_latencies-blocks_from (push bs s) ss
      ∙ ap (λ xs. xs ++ latencies_of ss) (all_latencies-push bs s)
      ∙ append_assoc (all_latencies bs) (latency_of s) (latencies_of ss)

  -- A block stays first when a sample is pushed: only its count and latencies may change.
  Alternates-push :
      (bs : List (Block F)) (s : ConcurrencySample F) → Alternates bs → Alternates (push bs s)
  unfolding push
  Alternates-push [] s a = omega arith
  Alternates-push (b ∷ []) s a =
      if_ind Alternates (b.value == s.effective) (λ same. omega arith)
        (λ differs. (a, (λ e. ground arith), omega arith))
  Alternates-push (b ∷ c ∷ []) s (n, m, a) =
      if_ind (λ blocks. Alternates (b ∷ blocks)) (c.value == s.effective)
        (λ same. (n, m, omega arith)) (λ differs. (n, m, (a, (λ e. ground arith), omega arith)))
  Alternates-push (b ∷ c ∷ d ∷ bs) s (n, m, a) = (n, m, Alternates-push (c ∷ d ∷ bs) s a)

  Alternates-blocks_from :
      (bs : List (Block F)) (ss : List (ConcurrencySample F))
      → Alternates bs
      → Alternates (blocks_from bs ss)
  unfolding blocks_from
  Alternates-blocks_from bs [] a = a
  Alternates-blocks_from bs (s ∷ ss) a =
      Alternates-blocks_from (push bs s) ss (Alternates-push bs s a)

  -- The blocks stand for the series of limits, carry its latencies in order, none is empty, and no two
  -- neighbours have one limit.
  pub trajectory-expand :
      (samples : List (ConcurrencySample F))
      → (expand (trajectory samples) ≡ values_of samples)
        × (all_latencies (trajectory samples) ≡ latencies_of samples)
        × Alternates (trajectory samples)
  unfolding trajectory
  trajectory-expand samples = (
    expand-blocks_from [] samples,
    all_latencies-blocks_from [] samples,
    Alternates-blocks_from [] samples tt,
  )
