-- ===== src/Aggregator/Store.antt =====
-- The state of WorkflowEventAggregator, and how it finds or makes the phase of an event.
use nanolab.Prelude.{
  ℕ, zero, suc, Bool, true, ◌&&◌, Option, none, some, List, [], ◌∷◌, ◌++◌, if◌then◌else◌, String,
  text_equality, get_elem?, length, Dict,
}
use nanolab.Prelude.Dicts.{get, put}
use nanolab.Aggregator.Phases.{Phase, truthy, or_else, same_id, assigns, synced}

-- The fields of the engine's event that the aggregator reads; None and "" are one for the texts.
pub data Kind : Type 0 where
  log_line task_started task_passed task_failed task_skipped other_kind : Kind

pub record Event : Type 0 where
  pub kind : Kind
  pub task_id : Option String
  pub parent_task_id : Option String
  pub title : String
  pub detail : String
  pub is_stderr : Bool
  pub line : String

pub record Aggregator (F : Type 0) : Type 0 where
  pub log_limit : ℕ
  pub store : List (Phase F)
  pub phases : List ℕ
  pub phase_by_task_id : Dict ℕ
  pub logs : List String
  pub show_logs : Bool

unfoldable pub set_at {ℓ} : {A : Type ℓ} → ℕ → A → List A → List A
set_at i a [] = []
set_at zero a (x ∷ xs) = a ∷ xs
set_at (suc i) a (x ∷ xs) = x ∷ set_at i a xs

module _ {F : Type 0} where
  -- Write a phase back.
  abbrev pub write : ℕ → Phase F → Aggregator F → Aggregator F
  write a p g = record g { store = set_at a p g.store }

  -- `self._phase_by_task_id[task_id] = phase`, for an id that is there.
  abbrev pub enter : Option String → ℕ → Aggregator F → Aggregator F
  enter none a g = g
  enter (some id) a g = record g { phase_by_task_id = put id a g.phase_by_task_id }

  -- `_sync_phase_metadata`
  abbrev pub sync : ℕ → Phase F → String → Option String → String → Aggregator F → Aggregator F
  sync a p label task_id detail g =
      if assigns task_id p
      then enter task_id a (write a (synced label task_id detail p) g)
      else write a (synced label task_id detail p) g

  -- A new phase, entered by its id if it has one.
  abbrev pub allot : Phase F → Aggregator F → Aggregator F
  allot p g =
      if truthy p.task_id
      then enter p.task_id (length g.store) (record g { store = g.store ++ p ∷ [] })
      else record g { store = g.store ++ p ∷ [] }

  -- One address of a search, by the phase that stands there, before the rest of the search.
  abbrev pub tested :
      (Phase F → Bool) → ℕ → Option (Phase F) → Option (ℕ × Phase F) → Option (ℕ × Phase F)
  tested test a none rest = rest
  tested test a (some p) rest = if test p then some (a, p) else rest

  -- The first of some phases that passes a test, with its address.
  unfoldable pub search_phase : (Phase F → Bool) → List (Phase F) → List ℕ → Option (ℕ × Phase F)
  search_phase test store [] = none
  search_phase test store (a ∷ more) =
      tested test a (get_elem? store a) (search_phase test store more)

  -- The phase under an address that the dictionary gives.
  abbrev pub deref : List (Phase F) → Option ℕ → Option (ℕ × Phase F)
  deref store none = none
  deref store (some a) = tested (λ p. true) a (get_elem? store a) none

  -- `self._phase_by_task_id.get(task_id or "")`
  abbrev pub lookup : Aggregator F → Option String → Option (ℕ × Phase F)
  lookup g task_id = deref g.store (get (or_else task_id "") g.phase_by_task_id)

  abbrev pub is_unassigned : Phase F → Bool
  is_unassigned p = same_id p.parent_task_id none && same_id p.task_id none

  -- `_next_unassigned_top_level_phase`
  abbrev pub next_unassigned : Aggregator F → Option (ℕ × Phase F)
  next_unassigned g = search_phase is_unassigned g.store g.phases

-- The phase of an event, if any, and the state after looking for it.
abbrev pub Found : Type 0 → Type 0
Found F = Option ℕ × Aggregator F
