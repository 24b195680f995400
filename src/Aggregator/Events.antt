-- ===== src/Aggregator/Events.antt =====
-- The events of WorkflowEventAggregator: which phase each one is about, what it does to that phase, and
-- what it logs. The clock is an argument.
pub mod Writes
pub mod Registry
pub mod Log
pub mod Updates
use nanolab.Prelude.{
  ℕ, zero, suc, ◌+◌, ◌-◌, Bool, true, false, not, ◌&&◌, ◌||◌, Option, none, some, List, [], ◌∷◌,
  ◌++◌, if◌then◌else◌, String, ◌==◌, text_equality, get_elem?, length, Dict, drop, ltb,
}
use nanolab.Prelude.Dicts.{get, put}
use nanolab.Aggregator.Phases.{
  Phase, is_text, truthy, or_else, text_or, same_id, new_phase, assigns, synced, mark_running,
  mark_ended, success, failed,
}
use nanolab.Aggregator.Store.{
  Kind, log_line, task_started, task_passed, task_failed, task_skipped, other_kind, Event,
  Aggregator, write, enter, sync, allot, search_phase, deref, lookup, is_unassigned,
  next_unassigned, Found, set_at,
}

-- The last lines: `self._logs[-self.log_limit :]` drops what is too many.
abbrev pub trimmed : ℕ → List String → List String
trimmed limit logs = if ltb limit (length logs) then drop (length logs - limit) logs else logs

module _ {F : Type 0} where
  -- `_existing_phase_for_task`, for the phase that the id gives.
  abbrev pub existing : Option (ℕ × Phase F) → Event → Aggregator F → Found F
  existing none e g = (none, g)
  existing (some (a, p)) e g = (some a, sync a p (text_or e.title p.label) e.task_id e.detail g)

  -- `_ensure_child_phase` without an id under that name: the child by label if the event has no id,
  -- otherwise a new child.
  abbrev pub add_child : ℕ → Phase F → String → Option String → String → Aggregator F → Found F
  add_child a parent label task_id detail g = (
    some (length g.store),
    allot (new_phase label task_id parent.task_id detail)
        (write a (record parent { children = parent.children ++ length g.store ∷ [] }) g),
  )

  abbrev pub resync : String → Option String → String → Aggregator F → ℕ × Phase F → Found F
  resync label task_id detail g (a, p) = (some a, sync a p label task_id detail g)

  -- For an event without an id: the child that the search gave, or a new one.
  abbrev pub chosen : ℕ → Phase F → String → String → Aggregator F → Option (ℕ × Phase F) → Found F
  chosen a parent label detail g none = add_child a parent label none detail g
  chosen a parent label detail g (some c) = resync label none detail g c

  abbrev pub ensure_child : ℕ → Phase F → String → Option String → String → Aggregator F → Found F
  ensure_child a parent label none detail g = chosen a parent label detail g (
      search_phase (λ c. c.label == label && same_id c.parent_task_id parent.task_id) g.store
        parent.children)
  ensure_child a parent label (some id) detail g = add_child a parent label (some id) detail g

  -- `_child_phase_for_event`: the phase under the id first, then the parent's children.
  abbrev pub child_phase :
      Event → Aggregator F → Option (ℕ × Phase F) → Option (ℕ × Phase F) → Found F
  child_phase e g none own = (none, g)
  child_phase e g (some parent) (some own) = existing (some own) e g
  child_phase e g (some (a, p)) none =
      ensure_child a p (text_or e.title (or_else e.task_id "Task")) e.task_id e.detail g

  -- `_upsert_top_level_phase` where no phase is left: a new one at the top level.
  abbrev pub add_top : String → Option String → String → Aggregator F → Found F
  add_top label task_id detail g = (
    some (length g.store),
    (let h = allot (new_phase label task_id none detail) g in
        record h { phases = h.phases ++ length g.store ∷ [] }),
  )

  -- `_top_level_phase_for_event`, by the phase under the id and the next planned phase.
  abbrev pub top_phase :
      Event → Aggregator F → Option (ℕ × Phase F) → Option (ℕ × Phase F) → Found F
  top_phase e g (some own) next = existing (some own) e g
  top_phase e g none none =
      if truthy e.task_id
      then add_top (text_or e.title (or_else e.task_id "")) e.task_id e.detail g
      else (none, g)
  top_phase e g none (some (a, p)) =
      if is_text e.title && not (e.title == p.label)
      then (none, g)
      else resync (text_or e.title p.label) e.task_id e.detail g (a, p)

  -- `_phase_for_event`
  unfoldable pub phase_for_event : Event → Aggregator F → Found F
  unfolding get put search_phase set_at
  phase_for_event e g =
      if truthy e.parent_task_id
      then child_phase e g (lookup g e.parent_task_id) (lookup g e.task_id)
      else top_phase e g (lookup g e.task_id) (next_unassigned g)

  -- `append_log`
  abbrev pub append_log : String → Aggregator F → Aggregator F
  append_log message g = record g { logs = trimmed g.log_limit (g.logs ++ message ∷ []) }

  abbrev pub mark_at : (Phase F → Phase F) → ℕ → Option (Phase F) → Aggregator F → Aggregator F
  mark_at mark a none g = g
  mark_at mark a (some p) g = write a (mark p) g

  abbrev pub mark_found : (Phase F → Phase F) → Found F → Aggregator F
  mark_found mark (none, g) = g
  mark_found mark (some a, g) = mark_at mark a (get_elem? g.store a) g

  -- `_append_task_log`: `format` puts marker, title and detail into a line.
  abbrev pub task_log :
      (String → String → String → String) → String → Event → Bool → Aggregator F → Aggregator F
  task_log format marker e with_detail g =
      append_log
        (format marker (text_or e.title (or_else e.task_id "Task"))
          (if with_detail then e.detail else ""))
        g

  abbrev pub handle_log_line : (String → String) → Event → Aggregator F → Aggregator F
  handle_log_line stderr e g =
      append_log (if e.is_stderr then stderr e.line else e.line)
        (if truthy e.task_id then (phase_for_event e g).1 else g)

unfoldable pub toggle_logs : {F : Type 0} → Aggregator F → Aggregator F
toggle_logs g = record g { show_logs = not g.show_logs }

-- The texts that the aggregator formats, and the truth test on times.
pub record Texts (F : Type 0) : Type 0 where
  pub format : String → String → String → String
  pub stderr : String → String
  pub falsy : F → Bool

module _ {F : Type 0} (texts : Texts F) where
  -- `handle_event` at a time of the clock, by the kind of the event.
  unfoldable pub handle_kind : F → Kind → Event → Aggregator F → Aggregator F
  unfolding phase_for_event
  handle_kind now log_line e g = handle_log_line texts.stderr e g
  handle_kind now task_started e g =
      mark_found (mark_running texts.falsy now)
        (phase_for_event e (task_log texts.format "[step]" e true g))
  handle_kind now task_passed e g =
      mark_found (mark_ended success now e.detail)
        (phase_for_event e (task_log texts.format "[ok]" e true g))
  handle_kind now task_failed e g =
      mark_found (mark_ended failed now e.detail)
        (phase_for_event e (task_log texts.format "[fail]" e true g))
  handle_kind now task_skipped e g =
      (phase_for_event e (task_log texts.format "[skip]" e false g)).1
  handle_kind now other_kind e g = g

  abbrev pub handle_event : F → Event → Aggregator F → Aggregator F
  handle_event now e g = handle_kind now e.kind e g

  unfoldable pub handle_events : List (F × Event) → Aggregator F → Aggregator F
  unfolding handle_kind
  handle_events [] g = g
  handle_events ((now, e) ∷ es) g = handle_events es (handle_event now e g)

-- `__init__`, for a positive limit: a phase for every planned step.
abbrev planned_phases : {F : Type 0} → List String → List (Phase F)
planned_phases [] = []
planned_phases (label ∷ labels) = new_phase label none none "" ∷ planned_phases labels

abbrev addresses : {A : Type 0} → ℕ → List A → List ℕ
addresses from [] = []
addresses from (x ∷ xs) = from ∷ addresses (suc from) xs

unfoldable pub init : {F : Type 0} → List String → ℕ → Option (Aggregator F)
init planned_steps log_limit =
    if ltb 0 log_limit
    then some (record {
      log_limit = log_limit;
      store = planned_phases planned_steps;
      phases = addresses 0 planned_steps;
      phase_by_task_id = [];
      logs = [];
      show_logs = true;
    })
    else none
