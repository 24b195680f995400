-- ===== src/Soak/Evaluation/Percentile.antt =====
-- evaluate.py: `bucket_quantile` and `_percentile`. `infinity` and `ratio` are those of floats, `float_of`
-- reads a bound; `bound_of` and `family_of` give the `le` of a series' labels and the labels without it.
pub mod Families
pub mod Reached
mod Examples
use nanolab.Prelude.{
  ℕ, zero, suc, Bool, true, false, not, ◌&&◌, ◌||◌, Option, none, some, List, [], ◌∷◌, ◌++◌,
  if◌then◌else◌, String, Dict, ltb, ◌==◌, text_equality, length, Result, ok, err,
}
use nanolab.Prelude.Dicts.{get, put}
use nanolab.Soak.Evaluation.{Status, pass, fail, inconclusive}
use nanolab.Soak.Evaluation.Index.{Stored, Window}
use nanolab.Soak.Evaluation.Criteria.{
  Numbers, less, greater_of, Criterion, Sampling, Reading, window, series_from, high, low,
}

-- The refusals, and the search that finds no bucket.
pub data Refusal : Type 0 where
  no_infinity open_ended not_cumulative no_observation no_bucket : Refusal

-- What `_percentile` raises.
pub data Unreadable : Type 0 where
  bad_bound search_ended : Unreadable

pub record Gathered (V : Type 0) : Type 0 where
  pub families : Dict (List (V × V))
  pub incomplete : Bool

-- What the loop over the series does next: goes on, or returns INCONCLUSIVE, or raises.
pub data Loop (V : Type 0) : Type 0 where
  gathered : Gathered V → Loop V
  refused : Loop V
  raised : Unreadable → Loop V

module _ {V : Type 0} (n : Numbers V) (infinity : V) (ratio : V → V → V) where
  abbrev equal : V → V → Bool
  equal a b = n.leq a b && n.leq b a

  abbrev pub insert_bound : V × V → List (V × V) → List (V × V)
  insert_bound b [] = b ∷ []
  insert_bound b (c ∷ cs) = if n.leq b.0 c.0 then b ∷ c ∷ cs else c ∷ insert_bound b cs

  -- `sorted(buckets)`, with the counts.
  abbrev pub by_bound : List (V × V) → List (V × V)
  by_bound [] = []
  by_bound (b ∷ bs) = insert_bound b (by_bound bs)

  abbrev pub last_bucket : List (V × V) → Option (V × V)
  last_bucket [] = none
  last_bucket (b ∷ []) = some b
  last_bucket (b ∷ c ∷ rest) = last_bucket (c ∷ rest)

  abbrev pub falls : List (V × V) → Bool
  falls [] = false
  falls (b ∷ []) = false
  falls (b ∷ c ∷ rest) = less n c.1 b.1 || falls (c ∷ rest)

  -- Inside a bucket, between the bound and count below it and its own.
  abbrev interpolate : V → V → V → V × V → V
  interpolate rank lower below (bound, count) =
      if equal count below
      then bound
      else n.plus lower
          (ratio (n.times (n.minus bound lower) (n.minus rank below)) (n.minus count below))

  -- The bucket that is found, after the one before it, if any; the last one is open-ended.
  abbrev place : V → Option (V × V) → V × V → List (V × V) → V
  place rank (some before) b [] = before.0
  place rank (some before) b (_ ∷ _) = interpolate rank before.0 before.1 b
  place rank none b rest =
      if n.leq b.0 n.zero_value then b.0 else interpolate rank n.zero_value n.zero_value b

  -- `next(index for index, count in enumerate(counts) if count >= rank)`
  unfoldable pub find_bucket : V → Option (V × V) → List (V × V) → Result Refusal V
  find_bucket rank before [] = err no_bucket
  find_bucket rank before (b ∷ rest) =
      if n.leq rank b.1 then ok (place rank before b rest) else find_bucket rank (some b) rest

  abbrev pub quantile_in : V → List (V × V) → Option (V × V) → Result Refusal V
  quantile_in quantile bounds none = err no_infinity
  quantile_in quantile bounds (some (bound, total)) =
      if not (equal bound infinity)
      then err no_infinity
      else if ltb (length bounds) 2
      then err open_ended
      else if falls bounds
      then err not_cumulative
      else if n.leq total n.zero_value
      then err no_observation
      else find_bucket (n.times quantile total) none bounds

  unfoldable pub bucket_quantile : V → List (V × V) → Result Refusal V
  bucket_quantile quantile buckets =
      let bounds = by_bound buckets in quantile_in quantile bounds (last_bucket bounds)

  -- family[bound] = count
  abbrev pub set_bucket : V → V → List (V × V) → List (V × V)
  set_bucket bound count [] = (bound, count) ∷ []
  set_bucket bound count (b ∷ bs) =
      if equal b.0 bound then (b.0, count) ∷ bs else b ∷ set_bucket bound count bs

  abbrev pub family_or_new : Option (List (V × V)) → List (V × V)
  family_or_new none = []
  family_or_new (some family) = family

  abbrev pub raise_worst : Option V → V → V
  raise_worst none v = v
  raise_worst (some w) v = greater_of n w v

  abbrev pub worst_with :
      Result Refusal V
      → Option V
      → (Option V → Result Refusal (Option V))
      → Result Refusal (Option V)
  worst_with (err e) top next = err e
  worst_with (ok v) top next = next (some (raise_worst top v))

  -- `bucket_quantile` of each family, with the greatest; only a ValueError is a refusal.
  unfoldable pub worst : V → Dict (List (V × V)) → Option V → Result Refusal (Option V)
  worst quantile [] top = ok top
  worst quantile ((name, buckets) ∷ families) top =
      worst_with (bucket_quantile quantile buckets) top (λ t. worst quantile families t)

  abbrev pub verdict_of : V → Bool → Result Refusal (Option V) → Result Unreadable Status
  verdict_of threshold incomplete (err no_bucket) = err search_ended
  verdict_of threshold incomplete (err e) = ok inconclusive
  verdict_of threshold incomplete (ok none) = ok inconclusive
  verdict_of threshold incomplete (ok (some top)) =
      ok (if less n threshold top then fail else if incomplete then inconclusive else pass)

module _ {V : Type 0} (n : Numbers V) (infinity : V) (ratio : V → V → V)
    (float_of : String → Option V) (bound_of : String → Option String)
    (family_of : String → String) where
  unfoldable pub read_bound : String → Option V
  read_bound value = if value == "+Inf" then some infinity else float_of value

  abbrev pub add_bucket : String → V → Option V → Gathered V → Loop V
  add_bucket labels growth none g = raised bad_bound
  add_bucket labels growth (some bound) g =
      let name = family_of labels in
      gathered (record g {
        families =
            put name
              (set_bucket n infinity ratio bound growth
                (family_or_new n infinity ratio (get name g.families)))
              g.families;
      })

  abbrev pub add_reading : String → Option String → Bool → V → V → Gathered V → Loop V
  add_reading labels none decreased first top g = refused
  add_reading labels (some le) decreased first top g =
      if decreased then refused else add_bucket labels (n.minus top first) (read_bound le) g

  abbrev pub add_values : String → Bool → Option V → Option V → Gathered V → Loop V
  add_values labels decreased (some first) (some top) g =
      add_reading labels (bound_of labels) decreased first top g
  add_values labels decreased _ _ g = gathered g

  abbrev pub add_series : String → Reading V → Gathered V → Loop V
  add_series labels r g =
      add_values labels r.decreased r.first r.top
        (record g { incomplete = g.incomplete || not r.complete })

  -- The loop over the series, whose windows a function reads.
  unfoldable pub gather : (String → Reading V) → List String → Loop V → Loop V
  gather read [] state = state
  gather read (l ∷ ls) (gathered g) = gather read ls (add_series l (read l) g)
  gather read (l ∷ ls) refused = refused
  gather read (l ∷ ls) (raised e) = raised e

  abbrev pub conclude_percentile : V → V → Loop V → Result Unreadable Status
  conclude_percentile quantile threshold refused = ok inconclusive
  conclude_percentile quantile threshold (raised e) = err e
  conclude_percentile quantile threshold (gathered g) =
      verdict_of n infinity ratio threshold g.incomplete
        (worst n infinity ratio quantile g.families none)

  abbrev pub nothing_gathered : Gathered V
  nothing_gathered = record { families = []; incomplete = false }

  unfoldable pub percentile :
      List (Stored V)
      → Criterion V
      → Sampling V
      → (String → Bool)
      → V
      → V
      → V
      → V
      → Result Unreadable Status
  percentile stored c sampling selects quantile threshold from to =
      conclude_percentile quantile threshold (
        gather (λ l. window n stored c sampling l c.phase from to) (series_from c selects stored)
          (gathered nothing_gathered))
