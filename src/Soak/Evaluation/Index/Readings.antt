-- ===== src/Soak/Evaluation/Index/Readings.antt =====
-- What a row that gives a timing and columns holds.
use mathlib.Core.Option
use nanolab.Prelude.{
  Bool-cases, subst, ℕ, Bool, Option, none, some, List, String, ◌≡◌, refl, sym, ap, ◌∙◌, ◌⊎◌, inl,
  inr, some-injective, arith, ◌==◌, text_equality, if_ind, eq_iff,
}
use nanolab.Prelude.Dicts.{get}
use nanolab.Soak.Evaluation.Index.{
  Row, RowValue, null, invalid, number, Timing, Content, timing, timing_of, phase_ranks, content,
  content_of, stored_value, valid_labels,
}

module _ {V : Type 0} where
  -- A row has the phase and the three times of a timing.
  pub record Times (row : Row V) (t : Timing V) : Type 0 where
    pub phase : row.phase ≡ some t.phase
    pub scheduled : row.scheduled_s ≡ some t.scheduled
    pub started : row.started_s ≡ some t.started
    pub ended : row.ended_s ≡ some t.ended

module _ {V : Type 0} (leq : V → V → Bool) where
  timing_of-fields :
      (phase : String) (rank : Option ℕ) (a b c : Option V) (t : Timing V)
      → timing_of leq phase rank a b c ≡ some t
      → (phase ≡ t.phase) × (a ≡ some t.scheduled) × (b ≡ some t.started) × (c ≡ some t.ended)
  timing_of-fields phase (some rank) (some a) (some b) (some c) t h = read
    where
      read :
          (phase ≡ t.phase)
          × (some a ≡ some t.scheduled)
          × (some b ≡ some t.started)
          × (some c ≡ some t.ended)
      read = ground arith
  timing_of-fields phase none a b c t h = absurd (ground arith)
  timing_of-fields phase (some _) none b c t h = absurd (ground arith)
  timing_of-fields phase (some _) (some _) none c t h = absurd (ground arith)
  timing_of-fields phase (some _) (some _) (some _) none t h = absurd (ground arith)

  pub timing-Times : (row : Row V) (t : Timing V) → timing leq row ≡ some t → Times row t
  unfolding timing
  timing-Times row t h = go row.phase refl h
    where
      read : Option String → Option (Timing V)
      read o = elim o [
        | none ↦ none
        | some phase ↦
            timing_of leq phase (get phase phase_ranks) row.scheduled_s row.started_s row.ended_s
      ]

      go : (o : Option String) → row.phase ≡ o → read o ≡ some t → Times row t
      go none p k = absurd (ground arith)
      go (some phase) p k =
          let (same, scheduled, started, ended) =
            timing_of-fields phase (get phase phase_ranks) row.scheduled_s row.started_s row.ended_s
              t k in
          record {
            phase = p ∙ ap some same;
            scheduled = scheduled;
            started = started;
            ended = ended;
          }

module _ {V : Type 0} (canonical : List (String × String) → String) where
  -- A value and the availability that allows it, with what is stored for them.
  abbrev pub Fits : RowValue V → String → Option V → Type 0
  Fits (number x) a v = (a ≡ "observed") × (v ≡ some x)
  Fits null a v = ((a ≡ "unavailable") ⊎ (a ≡ "not_applicable")) × (v ≡ none)
  Fits invalid a v = ⊥

  -- A row has the metric and the unit of the columns, and labels of that text; its value is stored as
  -- its availability says.
  pub record Columns (row : Row V) (c : Content V) : Type 0 where
    pub metric : row.metric ≡ some c.metric
    pub unit : row.unit ≡ some c.unit
    pub labels :
        (ls : List (String × String)) × ((row.labels ≡ some ls) × (c.labels ≡ canonical ls))
    pub fits : (a : String) × ((row.availability ≡ some a) × Fits row.value a c.value)

  stored_value-Fits :
      (a : String) (x : RowValue V) (v : Option V) → stored_value a x ≡ some v → Fits x a v
  unfolding stored_value
  stored_value-Fits a (number x) v h = ((eq_iff a "observed").0 (ground arith), ground arith)
  stored_value-Fits a null v h = (
    elim (Bool-cases (a == "unavailable")) [
      | inl here ↦ inl ((eq_iff a "unavailable").0 here)
      | inr differs ↦ inr ((eq_iff a "not_applicable").0 (ground arith))
    ],
    ground arith,
  )
  stored_value-Fits a invalid v h = absurd (ground arith)

  -- Columns that are given come from fields that are there.
  content_of-fields :
      (ls : Option (List (String × String))) (m u a : Option String) (x : RowValue V)
      (c : Content V)
      → content_of canonical ls m u a x ≡ some c
      → (labels : List (String × String)) × (text : String) × (ls ≡ some labels)
        × (c.labels ≡ canonical labels)
        × (m ≡ some c.metric)
        × (u ≡ some c.unit)
        × (a ≡ some text)
        × Fits x text c.value
  content_of-fields (some ls) (some m) (some u) (some a) x c h =
      if_ind (λ o. o ≡ some c → Read) (valid_labels ls) (λ _. go (stored_value a x) refl)
        (λ _ k. absurd (ground arith)) h
    where
      Read : Type 0
      Read =
          (labels : List (String × String)) × (text : String) × (some ls ≡ some labels)
          × (c.labels ≡ canonical labels)
          × (some m ≡ some c.metric)
          × (some u ≡ some c.unit)
          × (some a ≡ some text)
          × Fits x text c.value

      filled : Option V → Content V
      filled v = record { metric = m; labels = canonical ls; unit = u; value = v }

      go : (o : Option (Option V)) → stored_value a x ≡ o → Option.map filled o ≡ some c → Read
      go none fit k = absurd (ground arith)
      go (some v) fit k =
          let same = some-injective (filled v) c k in
          (
            ls,
            a,
            refl,
            ap (λ d. d.labels) (sym same),
            ap (λ d. some d.metric) same,
            ap (λ d. some d.unit) same,
            refl,
            subst (λ d. Fits x a d.value) same (stored_value-Fits a x v fit),
          )
  content_of-fields none m u a x c h = absurd (ground arith)
  content_of-fields (some _) none u a x c h = absurd (ground arith)
  content_of-fields (some _) (some _) none a x c h = absurd (ground arith)
  content_of-fields (some _) (some _) (some _) none x c h = absurd (ground arith)

  pub content-Columns :
      (row : Row V) (c : Content V) → content canonical row ≡ some c → Columns row c
  unfolding content
  content-Columns row c h =
      let (ls, a, labels, text, metric, unit, availability, fits) =
        content_of-fields row.labels row.metric row.unit row.availability row.value c h in
      record {
        metric = metric;
        unit = unit;
        labels = (ls, (labels, text));
        fits = (a, (availability, fits));
      }
