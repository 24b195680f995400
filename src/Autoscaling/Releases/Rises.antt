-- ===== src/Autoscaling/Releases/Rises.antt =====
-- `releases_under_load` against the rises from zero of the series.
use nanolab.Prelude.{
  ℕ, ◌+◌, ◌≡◌, refl, Bool, true, false, ◌&&◌, ◌||◌, Option, none, some, List, [], ◌∷◌,
  if◌then◌else◌, ltb, arith, ◌==◌, number_equality, Bool-cases, inl, inr,
}
use nanolab.Autoscaling.Releases.{
  ReplicaSample, releases_under_load, Count, count, observe, was_zero,
}

module _ {F : Type 0} where
  -- The number of neighbours of which the first is at zero and the second above.
  abbrev pub rises_from : Option ℕ → List (ReplicaSample F) → ℕ
  rises_from previous [] = 0
  rises_from previous (s ∷ ss) =
      (if was_zero previous && ltb 0 s.desired then 1 else 0) + rises_from (some s.desired) ss

  abbrev pub ever_running : List (ReplicaSample F) → Bool
  ever_running [] = false
  ever_running (s ∷ ss) = ltb 0 s.desired || ever_running ss

  -- A series that begins at zero, and leaves it.
  abbrev pub parked_start : List (ReplicaSample F) → Bool
  parked_start [] = false
  parked_start (s ∷ ss) = s.desired == 0 && ever_running ss

  count-releases :
      (c : Count) (ss : List (ReplicaSample F))
      → c.seen_running ≡ true
      → (count c ss).releases ≡ c.releases + rises_from c.previous ss
  unfolding count
  count-releases c [] h = omega arith
  count-releases c (s ∷ ss) h =
      let later = count-releases (observe c s) ss (rw h refl) in ground arith

  -- Before anything ran, every reading was zero.
  count-parked :
      (c : Count) (ss : List (ReplicaSample F))
      → c.seen_running ≡ false
      → was_zero c.previous ≡ true
      → (count c ss).releases + (if ever_running ss then 1 else 0)
        ≡ c.releases + rises_from c.previous ss
  unfolding count
  count-parked c [] h z = omega arith
  count-parked c (s ∷ ss) h z = elim (Bool-cases (ltb 0 s.desired)) [
    | inl up ↦ let later = count-releases (observe c s) ss (rw (h, up) refl) in ground arith
    | inr down ↦
        let later = count-parked (observe c s) ss (rw (h, down) refl) (ground arith) in ground arith
  ]

  -- The rises from zero of a series are the releases under load and, where the series begins at zero
  -- and leaves it, the one rise at which the load arrived.
  pub releases_under_load-rises :
      (samples : List (ReplicaSample F))
      → rises_from none samples
        ≡ releases_under_load samples + (if parked_start samples then 1 else 0)
  unfolding releases_under_load
  releases_under_load-rises [] = refl
  releases_under_load-rises (s ∷ ss) = elim (Bool-cases (ltb 0 s.desired)) [
    | inl up ↦
        let later =
          count-releases
            (observe (record { releases = 0; seen_running = false; previous = none }) s) ss up in
        ground arith
    | inr down ↦
        let later =
          count-parked (observe (record { releases = 0; seen_running = false; previous = none }) s)
            ss down (ground arith) in
        ground arith
  ]
