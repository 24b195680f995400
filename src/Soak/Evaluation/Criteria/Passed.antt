-- ===== src/Soak/Evaluation/Criteria/Passed.antt =====
-- A PASS of a criterion, sample by sample.
use nanolab.Prelude.{
  suc, Bool, true, false, ◌&&◌, Option, none, some, List, [], ◌∷◌, String, ◌==◌, text_equality,
  number_equality, ◌≡◌, In, All, In-All, inl, refl, sym, ◌∙◌, ap, subst, arith, eq_iff, if_ind,
  some-injective, length, drop, ◌<◌, ◌/◌, ◌-◌, ◌%◌, length-drop, false≢true,
}
use nanolab.Soak.Evaluation.{pass}
use nanolab.Soak.Evaluation.Index.{Stored, Window}
use nanolab.Soak.Evaluation.Criteria.{
  by_value, middle, insert_value, Numbers, Operation, maximum_of, expected_zero,
  return_to_reference, growth_review, Criterion, Sampling, Reading, Flags, no_flags,
  status_of_flags, series_from, values_in, median_of, tolerance, judge_series, selected, window,
  high, low, final_of, reference_of, series_values, judge_all, criterion,
}
use nanolab.Soak.Evaluation.Criteria.Readings.{
  In-keep, Under, window-IsRead, window-count, In-values_in, any_nonzero-zero,
}
use nanolab.Soak.Evaluation.Criteria.Judged.{
  Clean, status_of_flags-pass, MeetsMedian, Meets, MeetsTop, judge_series-Clean,
}
use nanolab.Soak.Evaluation.Criteria.Series.{IsJudged, In-series_from}

module _ {V : Type 0} (n : Numbers V) where
  length-insert_value : (v : V) (vs : List V) → length (insert_value n v vs) ≡ suc (length vs)
  length-insert_value v [] = refl
  length-insert_value v (w ∷ ws) =
      if_ind (λ us. length us ≡ suc (suc (length ws))) (n.leq v w) (λ _. refl)
        (λ _. ap suc (length-insert_value v ws))

  length-by_value : (vs : List V) → length (by_value n vs) ≡ length vs
  length-by_value [] = refl
  length-by_value (v ∷ vs) = length-insert_value v (by_value n vs) ∙ ap suc (length-by_value vs)

  middle-some : (even : Bool) (vs : List V) → 0 < length vs → (m : V) × (middle n even vs ≡ some m)
  middle-some even [] h = ground arith
  middle-some even (a ∷ []) h = (a, refl)
  middle-some true (a ∷ b ∷ rest) h = (n.half (n.plus a b), refl)
  middle-some false (a ∷ b ∷ rest) h = (a, refl)

  median_of-some : (v : V) (vs : List V) → In v vs → (m : V) × (median_of n vs ≡ some m)
  unfolding median_of
  median_of-some v [] h = absurd h
  median_of-some v (w ∷ vs) h =
      let half = (length (w ∷ vs) - 1) / 2 in
      middle-some (length (w ∷ vs) % 2 == 0) (drop half (by_value n (w ∷ vs)))
        (omega (arith, length-drop half (by_value n (w ∷ vs)), length-by_value (w ∷ vs)))

  -- What a criterion that passed says of a value in its window.
  abbrev pub Allowed : Operation V → Option V → V → Type 0
  Allowed (maximum_of threshold) median v = n.leq v threshold ≡ true
  Allowed expected_zero median v = (n.leq v n.zero_value ≡ true) × (n.leq n.zero_value v ≡ true)
  Allowed (return_to_reference absolute relative) median v =
      (m : V) × (median ≡ some m) × (n.leq v (n.plus m (tolerance n absolute relative m)) ≡ true)
  Allowed (growth_review threshold) median v =
      (m top : V) × (median ≡ some m)
      × (n.leq v top ≡ true)
      × (n.leq (n.minus top m) threshold ≡ true)

  Allowed-Meets :
      (operation : Operation V) (top : V) (vs : List V) (reference : Reading V) (v : V)
      → In v vs
      → n.leq v top ≡ true
      → Meets n operation top vs reference
      → (reference.complete ≡ true → (m : V) × (reference.median ≡ some m))
      → Allowed operation reference.median v
  Allowed-Meets (maximum_of t) top vs reference v there below h has = n.leq_trans v top t below h
  Allowed-Meets expected_zero top vs reference v there below h has = any_nonzero-zero n vs v h there
  Allowed-Meets (return_to_reference a r) top vs reference v there below h has =
      let found = has h.0 in
      let m = found.0 in
      (
        m,
        found.1,
        n.leq_trans v top (n.plus m (tolerance n a r m)) below
            (subst (MeetsMedian n (return_to_reference a r) top) found.1 h.1),
      )
  Allowed-Meets (growth_review t) top vs reference v there below h has =
      let found = has h.0 in
      (found.0, top, found.1, below, subst (MeetsMedian n (growth_review t) top) found.1 h.1)

  Allowed-MeetsTop :
      (operation : Operation V) (o : Option V) (vs : List V) (reference : Reading V) (v : V)
      → In v vs
      → Under n o v
      → MeetsTop n operation o vs reference
      → (reference.complete ≡ true → (m : V) × (reference.median ≡ some m))
      → Allowed operation reference.median v
  Allowed-MeetsTop operation none vs reference v there (m, e, below) h has = ground arith
  Allowed-MeetsTop operation (some top) vs reference v there (m, e, below) h has =
      Allowed-Meets operation top vs reference v there
        (subst (λ x. n.leq v x ≡ true) (sym (some-injective top m e)) below) h has

  selected_test :
      (c : Criterion V) (selects : String → Bool) (s : Stored V) (low high : V)
      → IsJudged c selects s
      → s.phase ≡ c.phase
      → n.leq low s.scheduled ≡ true
      → n.leq s.scheduled high ≡ true
      → s.role == c.role
          && (s.metric == c.metric
              && (s.labels == s.labels
                  && (s.phase == c.phase && (n.leq low s.scheduled && n.leq s.scheduled high))))
        ≡ true
  selected_test c selects s low high judged phase after before =
      let role = (eq_iff s.role c.role).1 judged.0 in
      let metric = (eq_iff s.metric c.metric).1 judged.1 in
      let same = (eq_iff s.labels s.labels).1 refl in
      let in_phase = (eq_iff s.phase c.phase).1 phase in ground arith

  module _ (stored : List (Stored V)) (c : Criterion V) (sampling : Sampling V)
      (final baseline : Window V) where
    abbrev MeetsSeries : String → Type 0
    MeetsSeries l =
        let r = final_of n stored c sampling final baseline l in
        (r.complete ≡ true)
        × MeetsTop n c.operation r.top (series_values n stored c sampling final baseline l)
            (reference_of n stored c sampling final baseline l)

    judge_all-Clean :
        (ls : List String) (f : Flags)
        → Clean (judge_all n stored c sampling final baseline ls f)
        → Clean f × All MeetsSeries ls
    unfolding judge_all
    judge_all-Clean [] f h = (h, tt)
    judge_all-Clean (l ∷ ls) f h =
        let r = final_of n stored c sampling final baseline l in
        let vs = series_values n stored c sampling final baseline l in
        let reference = reference_of n stored c sampling final baseline l in
        let later = judge_all-Clean ls (judge_series n c.operation r vs reference f) h in
        let now = judge_series-Clean n c.operation r vs reference f later.0 in
        (now.0, ((now.1, now.2), later.1))

    window-median :
        (labels phase : String) (low high : V)
        → (window n stored c sampling labels phase low high).complete ≡ true
        → (m : V) × ((window n stored c sampling labels phase low high).median ≡ some m)
    window-median labels phase low high h =
        let (s, there) = window-count n stored c sampling labels phase low high h in
        let (v, value, unit, under) =
          window-IsRead n stored c sampling labels phase low high s h there in
        unfold window in
        median_of-some v (values_in n c.unit (selected n stored c labels phase low high))
          (In-values_in n c.unit (selected n stored c labels phase low high) s v there value unit)

    -- Where a criterion of another operation than percentile passes, every stored sample of a series that it selects, in its phase and its
    -- window, has a value in its unit that its operation allows.
    pub criterion-Allowed :
        (selects : String → Bool) (s : Stored V)
        → criterion n stored c sampling final baseline selects ≡ pass
        → In s stored
        → IsJudged c selects s
        → s.phase ≡ c.phase
        → n.leq (low n c final) s.scheduled ≡ true
        → n.leq s.scheduled (high n c final) ≡ true
        → (v : V) × (s.value ≡ some v)
          × (s.unit ≡ c.unit)
          × Allowed c.operation (reference_of n stored c sampling final baseline s.labels).median v
    unfolding criterion selected window
    criterion-Allowed selects s h there judged phase after before =
        let series = series_from c selects stored in
        let passed =
          status_of_flags-pass (judge_all n stored c sampling final baseline series no_flags) h in
        let met =
          In-All MeetsSeries s.labels series (judge_all-Clean series no_flags passed.1).1
            (In-series_from c selects stored s there judged) in
        let rows = selected n stored c s.labels c.phase (low n c final) (high n c final) in
        let in_rows : In s rows =
          In-keep _ s stored there (selected_test c selects s _ _ judged phase after before) in
        let (v, value, unit, under) =
          window-IsRead n stored c sampling s.labels c.phase (low n c final) (high n c final) s
            met.0 in_rows in
        (
          v,
          value,
          unit,
          Allowed-MeetsTop c.operation _ (series_values n stored c sampling final baseline s.labels)
              (reference_of n stored c sampling final baseline s.labels) v
              (In-values_in n c.unit rows s v in_rows value unit) under met.1
              (window-median s.labels "baseline" baseline.start_s baseline.end_s),
        )

    -- A criterion that passes has judged at least one series, whose window holds a sample.
    pub criterion-judged :
        (selects : String → Bool)
        → criterion n stored c sampling final baseline selects ≡ pass
        → (l : String) × In l (series_from c selects stored)
          × (s : Stored V) × In s (selected n stored c l c.phase (low n c final) (high n c final))
    unfolding criterion judge_all
    criterion-judged selects h = go (series_from c selects stored) h
      where
        go :
            (ls : List String)
            → status_of_flags (judge_all n stored c sampling final baseline ls no_flags) ≡ pass
            → (l : String) × In l ls
              × (s : Stored V) × In s
                  (selected n stored c l c.phase (low n c final) (high n c final))
        go [] h = absurd (false≢true (status_of_flags-pass no_flags h).0)
        go (l ∷ ls) h =
            let clean =
              judge_all-Clean (l ∷ ls) no_flags
                (status_of_flags-pass
                  (judge_all n stored c sampling final baseline (l ∷ ls) no_flags) h).1 in
            let found =
              window-count n stored c sampling l c.phase (low n c final) (high n c final)
                clean.1.0.0 in
            (l, inl refl, found.0, found.1)
