-- ===== src/Soak/Evaluation/Index/Complete.antt =====
-- Without an issue no sample of a window was left out.
use nanolab.Prelude.{
  ℕ, Bool, true, false, not, ◌||◌, Option, none, some, List, [], ◌∷◌, ◌++◌, String, Dict, ltb, ◌==◌,
  text_equality, ◌≡◌, refl, arith, if_ind, ap, ◌∙◌,
}
use nanolab.Prelude.Dicts.{get}
use nanolab.Soak.Evaluation.Index.{
  advance, Target, TargetField, missing, foreign, present, Row, Window, Policy, Stored, Content,
  Issue, torn, malformed, identity, non_monotone, crosses, overlaps, Index, Timing, empty_index,
  with_issue, stored_row, extent, is_stored, timing, perturbed, within, insert, bound, content,
  check_window, against, on_timeline, identify, index_row, index_rows, index,
}

module _ {V : Type 0} (leq : V → V → Bool) (canonical : List (String × String) → String)
    (policy : Policy V) (targets : Dict Target) where
  abbrev read_content : String → Timing V → Option (Content V) → List (Stored V)
  read_content role t none = []
  read_content role t (some c) = stored_row role t c ∷ []

  abbrev read_window : String → Timing V → Row V → Option (Window V) → List (Stored V)
  read_window role t row none = []
  read_window role t row (some _) = read_content role t (content canonical row)

  abbrev read_phase : String → Row V → Option (Timing V) → List (Stored V)
  read_phase role row none = []
  read_phase role row (some t) = read_window role t row (get t.phase policy.windows)

  abbrev read_row : Row V → TargetField → List (Stored V)
  read_row row (present t) = read_phase t.role row (timing leq row)
  read_row row _ = []

  -- The samples of the phases that have a window, with no check of theirs, the last first.
  abbrev pub window_samples : List (Row V) → List (Stored V) → List (Stored V)
  window_samples [] before = before
  window_samples (row ∷ rows) before = window_samples rows (read_row row row.target ++ before)

  -- What a step added, if it raised no issue.
  abbrev Adds : List (Stored V) → Index V → Index V → Type 0
  Adds new x y = y.issues ≡ [] → (x.issues ≡ []) × (y.stored ≡ new ++ x.stored)

  issue-Adds : (new : List (Stored V)) (i : Issue) (x : Index V) → Adds new x (with_issue i x)
  issue-Adds new i x h = ground arith

  insert-Adds :
      (role : String) (t : Timing V) (o : Option (Content V)) (x : Index V)
      → Adds (read_content role t o) x (insert leq role t o x)
  insert-Adds role t none x = issue-Adds [] malformed x
  insert-Adds role t (some c) x =
      if_ind (Adds (stored_row role t c ∷ []) x) (is_stored leq (stored_row role t c) x.stored)
        (λ _. issue-Adds (stored_row role t c ∷ []) malformed x) (λ _ h. (h, refl))

  check_window-Adds :
      (role : String) (t : Timing V) (row : Row V) (o : Option (Window V)) (x : Index V)
      → Adds (read_window role t row o) x (check_window leq canonical policy role t row o x)
  check_window-Adds role t row none x = λ h. (h, refl)
  check_window-Adds role t row (some w) x =
      let new = read_content role t (content canonical row) in
      if_ind (Adds new x) (not (within leq (extent policy t.phase w) t))
        (λ _. issue-Adds new crosses x)
        λ _.
          if_ind (Adds new x) (perturbed leq role t policy.perturbations)
            (λ _. issue-Adds new overlaps x) (λ _. insert-Adds role t (content canonical row) x)

  against-Adds :
      (role : String) (t : Timing V) (row : Row V) (o : Option (V × ℕ)) (x : Index V)
      → Adds (read_phase role row (some t)) x (against leq canonical policy role t row o x)
  against-Adds role t row none x =
      check_window-Adds role t row (get t.phase policy.windows) (advance role t x)
  against-Adds role t row (some (scheduled, rank)) x =
      let new = read_phase role row (some t) in
      if_ind (Adds new x) (not (leq scheduled t.scheduled) || ltb t.rank rank)
        (λ _. issue-Adds new non_monotone x)
        (λ _ h. check_window-Adds role t row (get t.phase policy.windows) (advance role t x) h)

  on_timeline-Adds :
      (role : String) (row : Row V) (o : Option (Timing V)) (x : Index V)
      → Adds (read_phase role row o) x (on_timeline leq canonical policy role row o x)
  on_timeline-Adds role row none x = issue-Adds [] malformed x
  on_timeline-Adds role row (some t) x =
      if_ind (Adds (read_phase role row (some t)) x) (t.phase == "diagnostic")
        (λ _. check_window-Adds role t row (get t.phase policy.windows) x)
        (λ _. against-Adds role t row (get role x.last) x)

  identify-Adds :
      (row : Row V) (f : TargetField) (x : Index V)
      → Adds (read_row row f) x (identify leq canonical policy targets row f x)
  identify-Adds row missing x = issue-Adds [] malformed x
  identify-Adds row foreign x = issue-Adds [] identity x
  identify-Adds row (present t) x =
      let new = read_row row (present t) in
      if_ind (Adds new x) (bound t (get t.role targets))
        (λ _. on_timeline-Adds t.role row (timing leq row) x) (λ _. issue-Adds new identity x)

  index_row-Adds :
      (row : Row V) (x : Index V)
      → Adds (read_row row row.target) x (index_row leq canonical policy targets row x)
  unfolding index_row
  index_row-Adds row x =
      let new = read_row row row.target in
      if_ind (Adds new x) row.is_gap (λ _. issue-Adds new torn x)
        λ _.
          if_ind (Adds new x) (not row.schema_known) (λ _. issue-Adds new malformed x)
            (λ _. identify-Adds row row.target x)

  index_rows-Adds :
      (rows : List (Row V)) (x : Index V)
      → (index_rows leq canonical policy targets rows x).issues ≡ []
      → (x.issues ≡ [])
        × ((index_rows leq canonical policy targets rows x).stored ≡ window_samples rows x.stored)
  unfolding index_rows
  index_rows-Adds [] x h = (h, refl)
  index_rows-Adds (row ∷ rows) x h =
      let next = index_row leq canonical policy targets row x in
      let later = index_rows-Adds rows next h in
      let now = index_row-Adds row x later.0 in (now.0, later.1 ∙ ap (window_samples rows) now.1)

  -- An index without an issue holds every sample of the stream whose phase has a window, in order,
  -- the last first.
  pub index-window_samples :
      (rows : List (Row V)) (broken : Bool)
      → (index leq canonical policy targets rows broken).issues ≡ []
      → (index leq canonical policy targets rows broken).stored ≡ window_samples rows []
  unfolding index
  index-window_samples rows true h = ground arith
  index-window_samples rows false h = (index_rows-Adds rows empty_index h).1
