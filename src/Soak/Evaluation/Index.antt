-- ===== src/Soak/Evaluation/Index.antt =====
-- evaluate.py: `_index`, the checks that a sample passes before it is stored. A row is what the fields
-- of its JSON object are read as; a number is a finite float, of which only the order is used, and
-- `canonical` stands for the JSON text of the sorted labels.
pub mod Readings
pub mod Sound
pub mod Complete
use nanolab.Prelude.{
  ℕ, Bool, true, false, not, ◌&&◌, ◌||◌, Option, none, some, List, [], ◌∷◌, ◌++◌, if◌then◌else◌,
  String, Dict, leb, ltb, ◌==◌, text_equality, length, contains, map, number_equality,
}
use mathlib.Core.Option
use nanolab.Prelude.Dicts.{get, put}

pub record Target : Type 0 where
  pub role : String
  pub container_id : String
  pub process_id : ℕ
  pub process_started_at : String
  pub image_digest : String
  pub runtime : String

unfoldable pub same_target : Target → Target → Bool
same_target s t =
    s.role == t.role
    && (s.container_id == t.container_id
        && (s.process_id == t.process_id
            && (s.process_started_at == t.process_started_at
                && (s.image_digest == t.image_digest && s.runtime == t.runtime))))

-- `row["target"]`: nothing to take a role from, a mapping that is no target, or a target.
pub data TargetField : Type 0 where
  missing foreign : TargetField
  present : Target → TargetField

pub data RowValue (V : Type 0) : Type 0 where
  null invalid : RowValue V
  number : V → RowValue V

-- `none` is a missing field, or one of another type.
pub record Row (V : Type 0) : Type 0 where
  pub is_gap : Bool
  pub schema_known : Bool
  pub target : TargetField
  pub phase : Option String
  pub scheduled_s : Option V
  pub started_s : Option V
  pub ended_s : Option V
  pub labels : Option (List (String × String))
  pub metric : Option String
  pub unit : Option String
  pub availability : Option String
  pub value : RowValue V

pub record Window (V : Type 0) : Type 0 where
  pub start_s : V
  pub end_s : V

pub record Perturbation (V : Type 0) : Type 0 where
  pub role : String
  pub started_s : V
  pub ended_s : Option V

pub record Policy (V : Type 0) : Type 0 where
  pub windows : Dict (Window V)
  pub phase_extents : Dict (Window V)
  pub perturbations : List (Perturbation V)

pub record Stored (V : Type 0) : Type 0 where
  pub role : String
  pub phase : String
  pub scheduled : V
  pub metric : String
  pub labels : String
  pub unit : String
  pub value : Option V

pub record Content (V : Type 0) : Type 0 where
  pub metric : String
  pub labels : String
  pub unit : String
  pub value : Option V

pub data Issue : Type 0 where
  torn malformed identity non_monotone crosses overlaps corrupt : Issue

pub record Index (V : Type 0) : Type 0 where
  pub issues : List Issue
  pub last : Dict (V × ℕ)
  pub stored : List (Stored V)

pub record Timing (V : Type 0) : Type 0 where
  pub phase : String
  pub rank : ℕ
  pub scheduled : V
  pub started : V
  pub ended : V

abbrev pub phase_ranks : Dict ℕ
phase_ranks =
    ("preflight", 0)
    ∷ ("warmup", 1)
    ∷ ("baseline", 2)
    ∷ ("steady", 3)
    ∷ ("drain", 4)
    ∷ ("diagnostic", 5)
    ∷ []

abbrev pub empty_index : {V : Type 0} → Index V
empty_index = record { issues = []; last = []; stored = [] }

abbrev keys_of : List (String × String) → List String
keys_of = map (λ (k, v). k)

abbrev pub has_duplicate : List String → Bool
has_duplicate [] = false
has_duplicate (k ∷ ks) = contains k ks || has_duplicate ks

unfoldable pub valid_labels : List (String × String) → Bool
valid_labels labels = leb (length labels) 128 && not (has_duplicate (keys_of labels))

module _ {V : Type 0} where
  abbrev pub with_issue : Issue → Index V → Index V
  with_issue i x = record x { issues = i ∷ x.issues }

  -- The value that is stored, where availability and value agree.
  unfoldable pub stored_value : String → RowValue V → Option (Option V)
  stored_value a (number v) = if a == "observed" then some (some v) else none
  stored_value a null = if a == "unavailable" || a == "not_applicable" then some none else none
  stored_value a invalid = none

  abbrev pub stored_row : String → Timing V → Content V → Stored V
  stored_row role t c = record {
    role = role;
    phase = t.phase;
    scheduled = t.scheduled;
    metric = c.metric;
    labels = c.labels;
    unit = c.unit;
    value = c.value;
  }

  abbrev pub extent : Policy V → String → Window V → Window V
  extent policy phase w = elim (get phase policy.phase_extents) [ none ↦ w | some e ↦ e ]

  abbrev advance : String → Timing V → Index V → Index V
  advance role t x = record x { last = put role (t.scheduled, t.rank) x.last }

module _ {V : Type 0} (leq : V → V → Bool) where
  abbrev pub same_key : Stored V → Stored V → Bool
  same_key a b =
      a.role == b.role
      && (a.phase == b.phase
          && (a.metric == b.metric
              && (a.labels == b.labels
                  && (leq a.scheduled b.scheduled && leq b.scheduled a.scheduled))))

  abbrev pub is_stored : Stored V → List (Stored V) → Bool
  is_stored s [] = false
  is_stored s (t ∷ ts) = same_key s t || is_stored s ts

  abbrev timing_of : String → Option ℕ → Option V → Option V → Option V → Option (Timing V)
  timing_of phase (some rank) (some scheduled) (some started) (some ended) =
      if leq scheduled started && leq started ended
      then some (record {
        phase = phase;
        rank = rank;
        scheduled = scheduled;
        started = started;
        ended = ended;
      })
      else none
  timing_of phase _ _ _ _ = none

  unfoldable pub timing : Row V → Option (Timing V)
  timing row = elim row.phase [
    | none ↦ none
    | some phase ↦ timing_of phase (get phase phase_ranks) row.scheduled_s row.started_s row.ended_s
  ]

  abbrev pub ends_before : Option V → V → Bool
  ends_before none started = false
  ends_before (some ended) started = not (leq started ended)

  abbrev pub perturbed : String → Timing V → List (Perturbation V) → Bool
  perturbed role t [] = false
  perturbed role t (p ∷ ps) =
      p.role == role && (leq p.started_s t.ended && not (ends_before p.ended_s t.started))
      || perturbed role t ps

  abbrev pub within : Window V → Timing V → Bool
  within w t =
      leq w.start_s t.scheduled
      && (leq t.scheduled t.started && (leq t.started t.ended && leq t.ended w.end_s))

  -- The INSERT: an equal primary key is refused.
  abbrev pub insert : String → Timing V → Option (Content V) → Index V → Index V
  insert role t none x = with_issue malformed x
  insert role t (some c) x =
      if is_stored (stored_row role t c) x.stored
      then with_issue malformed x
      else record x { stored = stored_row role t c ∷ x.stored }

abbrev pub bound : Target → Option Target → Bool
bound t none = false
bound t (some known) = same_target t known

module _ {V : Type 0} (canonical : List (String × String) → String) where
  -- The columns of a row that may be stored; `none` where a field is not what it must be.
  abbrev content_of :
      Option (List (String × String))
      → Option String
      → Option String
      → Option String
      → RowValue V
      → Option (Content V)
  content_of (some labels) (some metric) (some unit) (some a) value =
      if valid_labels labels
      then Option.map
          (λ v. record { metric = metric; labels = canonical labels; unit = unit; value = v })
          (stored_value a value)
      else none
  content_of _ _ _ _ value = none

  unfoldable pub content : Row V → Option (Content V)
  content row = content_of row.labels row.metric row.unit row.availability row.value

module _ {V : Type 0} (leq : V → V → Bool) (canonical : List (String × String) → String)
    (policy : Policy V) where
  abbrev pub check_window : String → Timing V → Row V → Option (Window V) → Index V → Index V
  check_window role t row none x = x
  check_window role t row (some w) x =
      if not (within leq (extent policy t.phase w) t)
      then with_issue crosses x
      else if perturbed leq role t policy.perturbations
      then with_issue overlaps x
      else insert leq role t (content canonical row) x

  abbrev pub in_window : String → Timing V → Row V → Index V → Index V
  in_window role t row x = check_window role t row (get t.phase policy.windows) x

  abbrev pub against : String → Timing V → Row V → Option (V × ℕ) → Index V → Index V
  against role t row none x = in_window role t row (advance role t x)
  against role t row (some (scheduled, rank)) x =
      if not (leq scheduled t.scheduled) || ltb t.rank rank
      then with_issue non_monotone x
      else in_window role t row (advance role t x)

  -- A diagnostic sample is compared with nothing and moves no cursor.
  abbrev pub on_timeline : String → Row V → Option (Timing V) → Index V → Index V
  on_timeline role row none x = with_issue malformed x
  on_timeline role row (some t) x =
      if t.phase == "diagnostic"
      then in_window role t row x
      else against role t row (get role x.last) x

  module _ (targets : Dict Target) where
    abbrev pub identify : Row V → TargetField → Index V → Index V
    identify row missing x = with_issue malformed x
    identify row foreign x = with_issue identity x
    identify row (present t) x =
        if bound t (get t.role targets)
        then on_timeline t.role row (timing leq row) x
        else with_issue identity x

    unfoldable pub index_row : Row V → Index V → Index V
    index_row row x =
        if row.is_gap
        then with_issue torn x
        else if not row.schema_known
        then with_issue malformed x
        else identify row row.target x

    unfoldable pub index_rows : List (Row V) → Index V → Index V
    index_rows [] x = x
    index_rows (row ∷ rows) x = index_rows rows (index_row row x)

    -- The rows that could be read, and whether the stream broke after them.
    unfoldable pub index : List (Row V) → Bool → Index V
    index rows broken =
        let x = index_rows rows empty_index in if broken then with_issue corrupt x else x
