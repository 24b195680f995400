-- ===== src/Concurrency/Dip.antt =====
-- `ConcurrencyDip` and `find_dip` of concurrency.py: the search for the clearest fall and recovery.
pub mod Best
use mathlib.Core.List.{foldl}
use nanolab.Prelude.{
  ℕ, maximum, ◌-◌, Bool, true, false, ◌||◌, Option, none, some, List, [], ◌∷◌, map, if◌then◌else◌,
  ltb, leb, length, min, max,
}
use nanolab.Concurrency.Samples.{ConcurrencySample}

pub record ConcurrencyDip : Type 0 where
  pub peak_before : ℕ
  pub trough : ℕ
  pub recovery_after : ℕ

abbrev pub descent : ConcurrencyDip → ℕ
descent d = d.peak_before - d.trough

abbrev pub ascent : ConcurrencyDip → ℕ
ascent d = d.recovery_after - d.trough

abbrev pub weaker_side : ConcurrencyDip → ℕ
weaker_side d = min (descent d) (ascent d)

abbrev better : Option ConcurrencyDip → ConcurrencyDip → Option ConcurrencyDip
better none candidate = some candidate
better (some best) candidate =
    if ltb (weaker_side best) (weaker_side candidate) then some candidate else some best

-- The body of the loop at one index: the new `best`.
abbrev visit : Option ConcurrencyDip → ℕ → ℕ → ℕ → Option ConcurrencyDip
visit best peak_before trough recovery_after =
    if leb peak_before trough || leb recovery_after trough
    then best
    else better best
        (record { peak_before = peak_before; trough = trough; recovery_after = recovery_after })

-- The loop from an index on: `peak_before` is its value before the turn, `previous` the value at
-- `index - 1`. The last value is no index of the loop.
dip_loop : Option ConcurrencyDip → ℕ → ℕ → List ℕ → Option ConcurrencyDip
dip_loop best peak_before previous [] = best
dip_loop best peak_before previous (trough ∷ []) = best
dip_loop best peak_before previous (trough ∷ next ∷ later) =
    dip_loop (visit best (max peak_before previous) trough (maximum next later))
      (max peak_before previous) trough (next ∷ later)

abbrev search_dip : List ℕ → Option ConcurrencyDip
search_dip [] = none
search_dip (first ∷ rest) = dip_loop none first first rest

abbrev pub values_of : {F : Type 0} → List (ConcurrencySample F) → List ℕ
values_of = map (λ s. s.effective)

unfoldable pub find_dip : {F : Type 0} → List (ConcurrencySample F) → Option ConcurrencyDip
unfolding dip_loop
find_dip samples =
    if ltb (length (values_of samples)) 3 then none else search_dip (values_of samples)
