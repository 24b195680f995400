-- ===== src/Concurrency/Samples.antt =====
-- The readings of concurrency.py, and `governed_samples`.
use nanolab.Prelude.{
  sym, subst, ap, ℕ, suc, ◌≡◌, ◌≢◌, refl, Option, none, some, List, [], ◌∷◌, ◌++◌, arith,
  if◌then◌else◌, ◌==◌, number_equality, drop, All, ◌⊎◌, inl, inr, Bool-cases,
}

-- One scrape: the limit, and the cumulative counters and timers.
pub record ConcurrencyReading (F : Type 0) : Type 0 where
  pub effective : ℕ
  pub in_flight : ℕ
  pub latency_count : ℕ
  pub latency_total_ms : F
  pub queue_depth : ℕ
  pub queue_wait_count : ℕ
  pub queue_wait_total_ms : F
  pub rejected : ℕ

pub record ConcurrencySample (F : Type 0) : Type 0 where
  pub elapsed_seconds : F
  pub effective : ℕ
  pub in_flight : ℕ
  pub mean_latency_ms : Option F
  pub throughput_rps : Option F
  pub queue_depth : ℕ
  pub mean_queue_wait_ms : Option F
  pub rejected : ℕ

module _ {F : Type 0} where
  -- The index of the first sample whose limit differs from `opening`.
  unfoldable pub first_decision : ℕ → List (ConcurrencySample F) → Option ℕ
  first_decision opening [] = none
  first_decision opening (s ∷ ss) =
      if s.effective == opening
      then elim (first_decision opening ss) [ none ↦ none | some i ↦ some (suc i) ]
      else some 0

  abbrev from_decision : List (ConcurrencySample F) → Option ℕ → List (ConcurrencySample F)
  from_decision samples none = samples
  from_decision samples (some i) = drop i samples

  unfoldable pub governed_samples : List (ConcurrencySample F) → List (ConcurrencySample F)
  unfolding first_decision
  governed_samples [] = []
  governed_samples (s ∷ ss) = from_decision (s ∷ ss) (first_decision s.effective (s ∷ ss))

  abbrev pub IsAt : ℕ → ConcurrencySample F → Type 0
  IsAt limit s = s.effective ≡ limit

  -- A series that `governed_samples` cuts: an opening on one limit, then a sample off it.
  pub record Cut (opening : ℕ) (samples rest : List (ConcurrencySample F)) : Type 0 where
    pub warm_up : List (ConcurrencySample F)
    pub decision : ConcurrencySample F
    pub later : List (ConcurrencySample F)
    pub whole : samples ≡ warm_up ++ rest
    pub begins : rest ≡ decision ∷ later
    pub steady : All (IsAt opening) warm_up
    pub moved : decision.effective ≢ opening

  first_decision-Cut :
      (opening : ℕ) (samples : List (ConcurrencySample F))
      → (All (IsAt opening) samples × (first_decision opening samples ≡ none))
        ⊎ ((i : ℕ) × (first_decision opening samples ≡ some i)
            × Cut opening samples (drop i samples))
  unfolding first_decision
  first_decision-Cut opening [] = inl (tt, refl)
  first_decision-Cut opening (s ∷ ss) = elim (Bool-cases (s.effective == opening)) [
    | inl same ↦ elim (first_decision-Cut opening ss) [
      | inl (all, nothing) ↦ inl ((ground arith, all), rw (same, nothing))
      | inr (i, found, c) ↦ inr (
        suc i,
        rw (same, found) refl,
        record {
          warm_up = s ∷ c.warm_up;
          decision = c.decision;
          later = c.later;
          whole = ap (◌∷◌ s) c.whole;
          begins = c.begins;
          steady = (ground arith, c.steady);
          moved = c.moved;
        },
      )
    ]
    | inr differs ↦ inr (
      0,
      rw differs refl,
      record {
        warm_up = [];
        decision = s;
        later = ss;
        whole = refl;
        begins = refl;
        steady = tt;
        moved = λ e. ground arith;
      },
    )
  ]

  -- The governed part of a series that opens on `s` is the whole series if every sample has the limit
  -- of `s`; otherwise it is what follows the samples at that limit, and begins with one off it.
  pub governed_samples-Cut :
      (s : ConcurrencySample F) (ss : List (ConcurrencySample F))
      → (All (IsAt s.effective) (s ∷ ss) × (governed_samples (s ∷ ss) ≡ s ∷ ss))
        ⊎ Cut s.effective (s ∷ ss) (governed_samples (s ∷ ss))
  unfolding governed_samples
  governed_samples-Cut s ss = elim (first_decision-Cut s.effective (s ∷ ss)) [
    | inl (all, nothing) ↦ inl (all, ap (from_decision (s ∷ ss)) nothing)
    | inr (i, found, c) ↦
        inr (subst (λ o. Cut s.effective (s ∷ ss) (from_decision (s ∷ ss) o)) (sym found) c)
  ]
