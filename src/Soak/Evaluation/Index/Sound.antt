-- ===== src/Soak/Evaluation/Index/Sound.antt =====
-- Every stored sample comes from a row of the stream that the policy allows, and is stored once.
use nanolab.Prelude.{
  In, ap, inl, inr, eq_iff, nat_beq_iff, number_equality, ℕ, Bool, true, false, not, ◌||◌, Option,
  none, some, List, [], ◌∷◌, String, Dict, ltb, ◌==◌, text_equality, All, ◌≡◌, refl, arith, if_ind,
}
use nanolab.Prelude.Dicts.{get}
use nanolab.Soak.Evaluation.Index.Readings.{Times, timing-Times, Columns, content-Columns}
use nanolab.Soak.Evaluation.Index.{
  same_target, Content, content, bound, stored_row, extent, advance, against, on_timeline, identify,
  check_window, Target, TargetField, missing, foreign, present, Row, Window, Policy, Stored, Index,
  Timing, empty_index, is_stored, timing, stored_row, perturbed, within, insert, extent,
  check_window, against, on_timeline, bound, identify, index_row, index_rows, index,
}

same_target-eq : (s t : Target) → same_target s t ≡ true → t ≡ s
unfolding same_target
same_target-eq s t h =
    let role = (eq_iff s.role t.role).0 (ground arith) in
    let container_id = (eq_iff s.container_id t.container_id).0 (ground arith) in
    let process_id = (nat_beq_iff s.process_id t.process_id).0 (ground arith) in
    let started_at = (eq_iff s.process_started_at t.process_started_at).0 (ground arith) in
    let image_digest = (eq_iff s.image_digest t.image_digest).0 (ground arith) in
    let runtime = (eq_iff s.runtime t.runtime).0 (ground arith) in cc

bound-eq : (t : Target) (o : Option Target) → bound t o ≡ true → o ≡ some t
bound-eq t none h = absurd (ground arith)
bound-eq t (some known) h = ap some (same_target-eq t known h)

module _ {V : Type 0} (leq : V → V → Bool) (canonical : List (String × String) → String)
    (policy : Policy V) (targets : Dict Target) where
  -- A row gives a stored sample: it is no gap and of the known schema; its target is, in every field,
  -- the one registered for its role; its times are ordered, and the sample has their phase and time,
  -- and the columns of the row. The times lie within the extent of the phase, which has a window, and
  -- overlap no perturbation of the role.
  pub record Gives (row : Row V) (s : Stored V) : Type 0 where
    pub target : Target
    pub timed : Timing V
    pub columns : Content V
    pub window : Window V
    pub no_gap : row.is_gap ≡ false
    pub schema : row.schema_known ≡ true
    pub named : row.target ≡ present target
    pub registered : get target.role targets ≡ some target
    pub times : Times row timed
    pub ordered :
        (leq timed.scheduled timed.started ≡ true) × (leq timed.started timed.ended ≡ true)
    pub holds : Columns canonical row columns
    pub kept : s ≡ record {
      role = target.role;
      phase = timed.phase;
      scheduled = timed.scheduled;
      metric = columns.metric;
      labels = columns.labels;
      unit = columns.unit;
      value = columns.value;
    }
    pub opened : get timed.phase policy.windows ≡ some window
    pub inside : within leq (extent policy timed.phase window) timed ≡ true
    pub clear : perturbed leq target.role timed policy.perturbations ≡ false

  abbrev pub Sound : List (Row V) → Stored V → Type 0
  Sound rows s = (row : Row V) × In row rows × Gives row s

  abbrev pub Distinct : List (Stored V) → Type 0
  Distinct [] = Unit
  Distinct (s ∷ ss) = (is_stored leq s ss ≡ false) × Distinct ss

  abbrev pub Inv : List (Row V) → Index V → Type 0
  Inv rows x = All (Sound rows) x.stored × Distinct x.stored

  -- The row that is read, with what has been found out about it.
  module _ (rows : List (Row V)) (row : Row V) (there : In row rows) (no_gap : row.is_gap ≡ false)
      (schema : row.schema_known ≡ true) (target : Target) (named : row.target ≡ present target)
      (registered : get target.role targets ≡ some target) where
    insert-Inv :
        (t : Timing V) (o : Option (Content V)) (x : Index V)
        → content canonical row ≡ o
        → ((c : Content V) → o ≡ some c → Gives row (stored_row target.role t c))
        → Inv rows x
        → Inv rows (insert leq target.role t o x)
    insert-Inv t none x same h inv = inv
    insert-Inv t (some c) x same h inv =
        if_ind (Inv rows) (is_stored leq (stored_row target.role t c) x.stored) (λ _. inv)
          (λ new. (((row, there, h c refl), inv.0), (new, inv.1)))

    module _ (t : Timing V) (ordered : timing leq row ≡ some t) where
      in_window-Inv :
          (o : Option (Window V)) (x : Index V)
          → get t.phase policy.windows ≡ o
          → Inv rows x
          → Inv rows (check_window leq canonical policy target.role t row o x)
      in_window-Inv none x h inv = inv
      in_window-Inv (some w) x h inv =
          if_ind (Inv rows) (not (within leq (extent policy t.phase w) t)) (λ _. inv)
            λ inside.
              if_ind (Inv rows) (perturbed leq target.role t policy.perturbations) (λ _. inv)
                λ clear.
                  insert-Inv t (content canonical row) x refl
                    (λ c filled. record {
                      target = target;
                      timed = t;
                      columns = c;
                      window = w;
                      no_gap = no_gap;
                      schema = schema;
                      named = named;
                      registered = registered;
                      times = timing-Times leq row t ordered;
                      ordered = ground arith;
                      holds = content-Columns canonical row c filled;
                      kept = refl;
                      opened = h;
                      inside = ground arith;
                      clear = clear;
                    })
                    inv

      against-Inv :
          (o : Option (V × ℕ)) (x : Index V)
          → Inv rows x
          → Inv rows (against leq canonical policy target.role t row o x)
      against-Inv none x inv =
          in_window-Inv (get t.phase policy.windows) (advance target.role t x) refl inv
      against-Inv (some (scheduled, rank)) x inv =
          if_ind (Inv rows) (not (leq scheduled t.scheduled) || ltb t.rank rank) (λ _. inv)
            (λ _. in_window-Inv (get t.phase policy.windows) (advance target.role t x) refl inv)

    on_timeline-Inv :
        (o : Option (Timing V)) (x : Index V)
        → timing leq row ≡ o
        → Inv rows x
        → Inv rows (on_timeline leq canonical policy target.role row o x)
    on_timeline-Inv none x same inv = inv
    on_timeline-Inv (some t) x same inv =
        if_ind (Inv rows) (t.phase == "diagnostic")
          (λ _. in_window-Inv t same (get t.phase policy.windows) x refl inv)
          (λ _. against-Inv t same (get target.role x.last) x inv)

  identify-Inv :
      (rows : List (Row V)) (row : Row V) (f : TargetField) (x : Index V)
      → In row rows
      → row.is_gap ≡ false
      → row.schema_known ≡ true
      → row.target ≡ f
      → Inv rows x
      → Inv rows (identify leq canonical policy targets row f x)
  identify-Inv rows row missing x there no_gap schema named inv = inv
  identify-Inv rows row foreign x there no_gap schema named inv = inv
  identify-Inv rows row (present t) x there no_gap schema named inv =
      if_ind (Inv rows) (bound t (get t.role targets))
        (λ known.
          on_timeline-Inv rows row there no_gap schema t named
            (bound-eq t (get t.role targets) known) (timing leq row) x refl inv)
        (λ _. inv)

  index_row-Inv :
      (rows : List (Row V)) (row : Row V) (x : Index V)
      → In row rows
      → Inv rows x
      → Inv rows (index_row leq canonical policy targets row x)
  unfolding index_row
  index_row-Inv rows row x there inv =
      if_ind (Inv rows) row.is_gap (λ _. inv)
        λ no_gap.
          if_ind (Inv rows) (not row.schema_known) (λ _. inv)
            λ schema. identify-Inv rows row row.target x there no_gap (ground arith) refl inv

  index_rows-Inv :
      (all rows : List (Row V)) (x : Index V)
      → ((row : Row V) → In row rows → In row all)
      → Inv all x
      → Inv all (index_rows leq canonical policy targets rows x)
  unfolding index_rows
  index_rows-Inv all [] x among inv = inv
  index_rows-Inv all (row ∷ rows) x among inv =
      index_rows-Inv all rows (index_row leq canonical policy targets row x)
        (λ r there. among r (inr there)) (index_row-Inv all row x (among row (inl refl)) inv)

  -- Each stored sample comes from a row of the stream that is no gap and of the known schema: the row's
  -- target is in every field the one registered for its role, and the sample has the row's role, phase,
  -- scheduled time, metric, labels and unit, and its value where the row says that it was observed. The
  -- row's times are ordered, lie within the extent of a phase that has a window, and overlap no
  -- perturbation of the role. And no key is stored twice.
  pub index-Inv :
      (rows : List (Row V)) (broken : Bool)
      → Inv rows (index leq canonical policy targets rows broken)
  unfolding index
  index-Inv rows broken =
      let kept = index_rows-Inv rows rows empty_index (λ row there. there) (tt, tt) in
      if_ind (Inv rows) broken (λ _. kept) (λ _. kept)
