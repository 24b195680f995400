-- ===== src/Soak/Evaluation/Criteria.antt =====
-- evaluate.py: `_window` and `_criterion`, without its text of details, and
-- acceptance.py: `required_sample_count`. Numbers are finite floats, which Numbers stands for; `selects`
-- stands for the test of a series' labels, read from their JSON text.
pub mod Readings
pub mod Judged
pub mod Series
pub mod Passed
use nanolab.Prelude.{
  ℕ, suc, ◌-◌, ◌/◌, ◌%◌, max, Bool, true, false, not, ◌&&◌, ◌||◌, Option, none, some, List, [], ◌∷◌,
  ◌++◌, if◌then◌else◌, String, Dict, leb, ltb, ◌==◌, text_equality, length, contains, map,
  number_equality, drop, ◌≡◌, keep,
}
use nanolab.Soak.Evaluation.{Status, pass, fail, inconclusive}
use nanolab.Soak.Evaluation.Index.{Stored, Window}

-- The order and the arithmetic of finite floats; the order is total.
pub record Numbers (V : Type 0) : Type 0 where
  pub leq : V → V → Bool
  pub zero_value : V
  pub plus : V → V → V
  pub minus : V → V → V
  pub times : V → V → V
  pub half : V → V
  pub absolute : V → V
  pub floor_ratio : V → V → ℕ
  pub leq_trans : (a b c : V) → leq a b ≡ true → leq b c ≡ true → leq a c ≡ true
  pub leq_total : (a b : V) → leq a b ≡ false → leq b a ≡ true

-- The operation with the fields that its criterion must have.
pub data Operation (V : Type 0) : Type 0 where
  maximum_of : V → Operation V
  expected_zero : Operation V
  return_to_reference : V → V → Operation V
  growth_review : V → Operation V

pub record Criterion (V : Type 0) : Type 0 where
  pub role : String
  pub metric : String
  pub unit : String
  pub phase : String
  pub operation : Operation V
  pub window_s : V
  pub deadline_s : Option V

pub record Sampling (V : Type 0) : Type 0 where
  pub sample_interval_s : V
  pub max_observation_gap_s : V

pub record Tally (V : Type 0) : Type 0 where
  pub count : ℕ
  pub top : Option V
  pub first : Option V
  pub prior_value : Option V
  pub decreased : Bool
  pub previous : V
  pub largest_gap : V
  pub is_missing : Bool

pub record Reading (V : Type 0) : Type 0 where
  pub complete : Bool
  pub top : Option V
  pub first : Option V
  pub decreased : Bool
  pub median : Option V

pub record Flags : Type 0 where
  pub seen : Bool
  pub failed : Bool
  pub incomplete : Bool
  pub growth : Bool

abbrev pub no_flags : Flags
no_flags = record { seen = false; failed = false; incomplete = false; growth = false }

abbrev pub status_of_flags : Flags → Status
status_of_flags f =
    if not f.seen
    then inconclusive
    else if f.failed
    then fail
    else if f.incomplete
    then inconclusive
    else if f.growth
    then inconclusive
    else pass

abbrev pub add_label : String → List String → List String
add_label l ls = if contains l ls then ls else l ∷ ls

module _ {V : Type 0} where
  -- SELECT DISTINCT labels, with the labels that the criterion selects.
  abbrev pub series_from : Criterion V → (String → Bool) → List (Stored V) → List String
  series_from c selects [] = []
  series_from c selects (s ∷ ss) =
      let rest = series_from c selects ss in
      if s.role == c.role && (s.metric == c.metric && selects s.labels)
      then add_label s.labels rest
      else rest

module _ {V : Type 0} (n : Numbers V) where
  abbrev pub less : V → V → Bool
  less a b = not (n.leq b a)

  abbrev pub greater_of : V → V → V
  greater_of a b = if n.leq a b then b else a

  unfoldable pub required_sample_count : V → V → ℕ
  required_sample_count duration_s sample_interval_s =
      max 2 (n.floor_ratio duration_s sample_interval_s)

  -- ORDER BY scheduled
  abbrev pub insert_by_time : Stored V → List (Stored V) → List (Stored V)
  insert_by_time s [] = s ∷ []
  insert_by_time s (t ∷ ts) =
      if n.leq s.scheduled t.scheduled then s ∷ t ∷ ts else t ∷ insert_by_time s ts

  abbrev pub by_time : List (Stored V) → List (Stored V)
  by_time [] = []
  by_time (s ∷ ss) = insert_by_time s (by_time ss)

  abbrev insert_value : V → List V → List V
  insert_value v [] = v ∷ []
  insert_value v (w ∷ ws) = if n.leq v w then v ∷ w ∷ ws else w ∷ insert_value v ws

  abbrev by_value : List V → List V
  by_value [] = []
  by_value (v ∷ vs) = insert_value v (by_value vs)

  abbrev pub raise_top : Option V → V → Option V
  raise_top none v = some v
  raise_top (some m) v = some (greater_of m v)

  abbrev fell : Option V → V → Bool
  fell none v = false
  fell (some p) v = less v p

  abbrev first_of_window : Option V → V → Option V
  first_of_window none v = some v
  first_of_window (some f) v = some f

  abbrev pub count_value : V → V → Tally V → Tally V
  count_value scheduled v t = record {
    count = suc t.count;
    top = raise_top t.top v;
    first = first_of_window t.first v;
    prior_value = some v;
    decreased = t.decreased || fell t.prior_value v;
    previous = scheduled;
    largest_gap = greater_of t.largest_gap (n.minus scheduled t.previous);
    is_missing = t.is_missing;
  }

  -- A sample that was unavailable, or of another unit, is missing.
  abbrev pub visit_value : String → Stored V → Option V → Tally V → Tally V
  visit_value unit s none t = record t { is_missing = true }
  visit_value unit s (some v) t =
      if s.unit == unit then count_value s.scheduled v t else record t { is_missing = true }

  unfoldable pub visit_samples : String → List (Stored V) → Tally V → Tally V
  visit_samples unit [] t = t
  visit_samples unit (s ∷ ss) t = visit_samples unit ss (visit_value unit s s.value t)

  abbrev pub value_in : String → Stored V → Option V → List V
  value_in unit s none = []
  value_in unit s (some v) = if s.unit == unit then v ∷ [] else []

  abbrev pub values_in : String → List (Stored V) → List V
  values_in unit [] = []
  values_in unit (s ∷ ss) = value_in unit s s.value ++ values_in unit ss

  -- The mean of the one or two values in the middle.
  abbrev middle : Bool → List V → Option V
  middle even [] = none
  middle even (a ∷ []) = some a
  middle even (a ∷ b ∷ rest) = if even then some (n.half (n.plus a b)) else some a

  unfoldable pub median_of : List V → Option V
  median_of vs = middle (length vs % 2 == 0) (drop ((length vs - 1) / 2) (by_value vs))

  abbrev pub tally_window : Criterion V → List (Stored V) → V → Tally V
  tally_window c rows low = visit_samples c.unit (by_time rows) (record {
    count = 0;
    top = none;
    first = none;
    prior_value = none;
    decreased = false;
    previous = low;
    largest_gap = n.zero_value;
    is_missing = false;
  })

  abbrev pub conclude_window : Sampling V → V → V → Tally V → List V → Reading V
  conclude_window sampling low high t vs = record {
    complete =
        leb (required_sample_count (n.minus high low) sampling.sample_interval_s) t.count
        && (not t.is_missing
            && n.leq (greater_of t.largest_gap (n.minus high t.previous))
                sampling.max_observation_gap_s);
    top = t.top;
    first = t.first;
    decreased = t.decreased;
    median = median_of vs;
  }

  unfoldable pub any_nonzero : List V → Bool
  any_nonzero [] = false
  any_nonzero (v ∷ vs) = not (n.leq v n.zero_value && n.leq n.zero_value v) || any_nonzero vs

  abbrev pub tolerance : V → V → V → V
  tolerance absolute relative median =
      let scaled = n.times (n.absolute median) relative in
      if n.leq absolute scaled then absolute else scaled

  -- The branch of `return_to_reference` and `growth_review` on a complete reference.
  abbrev pub compare_median : Operation V → V → Option V → Flags → Flags
  compare_median operation top none f = f
  compare_median (return_to_reference absolute relative) top (some median) f = record f {
    failed = f.failed || less (n.plus median (tolerance absolute relative median)) top;
  }
  compare_median (growth_review threshold) top (some median) f = record f {
    growth = f.growth || less threshold (n.minus top median);
  }
  compare_median operation top (some median) f = f

  abbrev pub compare_reference : Operation V → V → Reading V → Flags → Flags
  compare_reference operation top reference f =
      let g = record f { incomplete = f.incomplete || not reference.complete } in
      if reference.complete then compare_median operation top reference.median g else g

  -- One series whose window has a value, by its operation.
  abbrev pub compare_top : Operation V → V → List V → Reading V → Flags → Flags
  compare_top (maximum_of threshold) top values reference f = record f {
    failed = f.failed || less threshold top;
  }
  compare_top expected_zero top values reference f = record f {
    failed = f.failed || any_nonzero values;
  }
  compare_top (return_to_reference absolute relative) top values reference f =
      compare_reference (return_to_reference absolute relative) top reference f
  compare_top (growth_review threshold) top values reference f =
      compare_reference (growth_review threshold) top reference f

  abbrev pub judge_top : Operation V → Option V → List V → Reading V → Flags → Flags
  judge_top operation none values reference f = f
  judge_top operation (some top) values reference f = compare_top operation top values reference f

  abbrev pub judge_series : Operation V → Reading V → List V → Reading V → Flags → Flags
  judge_series operation final values reference f =
      judge_top operation final.top values reference
        (record f { seen = true; incomplete = f.incomplete || not final.complete })

  -- The window that a criterion is judged in.
  module _ (c : Criterion V) (phase_window : Window V) where
    abbrev pub high : V
    high = elim c.deadline_s [ none ↦ phase_window.end_s | some d ↦ n.plus phase_window.start_s d ]

    abbrev pub low : V
    low = n.minus high c.window_s

  module _ (stored : List (Stored V)) where
    -- The rows that the queries select.
    unfoldable pub selected : Criterion V → String → String → V → V → List (Stored V)
    selected c labels phase low high =
        keep
          (λ s.
            s.role == c.role
            && (s.metric == c.metric
                && (s.labels == labels
                    && (s.phase == phase && (n.leq low s.scheduled && n.leq s.scheduled high)))))
          stored

    unfoldable pub window : Criterion V → Sampling V → String → String → V → V → Reading V
    window c sampling labels phase low high =
        let rows = selected c labels phase low high in
        conclude_window sampling low high (tally_window c rows low) (values_in c.unit rows)

    module _ (c : Criterion V) (sampling : Sampling V) (phase_window baseline : Window V) where
      abbrev pub final_of : String → Reading V
      final_of labels = window c sampling labels c.phase (low c phase_window) (high c phase_window)

      abbrev pub reference_of : String → Reading V
      reference_of labels = window c sampling labels "baseline" baseline.start_s baseline.end_s

      abbrev pub series_values : String → List V
      series_values labels =
          values_in c.unit (selected c labels c.phase (low c phase_window) (high c phase_window))

      unfoldable pub judge_all : List String → Flags → Flags
      judge_all [] f = f
      judge_all (l ∷ ls) f =
          judge_all ls (judge_series c.operation (final_of l) (series_values l) (reference_of l) f)

      -- A criterion of another operation than percentile, which `judge_in` of Whole passes on.
      unfoldable pub criterion : (String → Bool) → Status
      criterion selects = status_of_flags (judge_all (series_from c selects stored) no_flags)
