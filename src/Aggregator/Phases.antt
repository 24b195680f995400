-- ===== src/Aggregator/Phases.antt =====
-- `TuiPhaseSnapshot`, and the changes that event_aggregator.py makes to one phase.
use nanolab.Prelude.{
  ℕ, Bool, true, false, not, ◌&&◌, ◌||◌, Option, none, some, List, [], if◌then◌else◌, String, ◌==◌,
  text_equality,
}

pub data WorkflowState : Type 0 where
  pending running success failed : WorkflowState

-- Times are of the type `F`; children are addresses.
pub record Phase (F : Type 0) : Type 0 where
  pub label : String
  pub task_id : Option String
  pub parent_task_id : Option String
  pub status : WorkflowState
  pub detail : String
  pub started_at : Option F
  pub finished_at : Option F
  pub children : List ℕ

-- The truth of a text, and of a text or None.
abbrev pub is_text : String → Bool
is_text s = not (s == "")

abbrev pub truthy : Option String → Bool
truthy none = false
truthy (some s) = is_text s

-- `id or default`
abbrev pub or_else : Option String → String → String
or_else none default = default
or_else (some s) default = if is_text s then s else default

abbrev pub text_or : String → String → String
text_or s default = if is_text s then s else default

abbrev pub same_id : Option String → Option String → Bool
same_id none none = true
same_id (some s) (some t) = s == t
same_id _ _ = false

module _ {F : Type 0} where
  abbrev pub new_phase : String → Option String → Option String → String → Phase F
  new_phase label task_id parent_task_id detail = record {
    label = label;
    task_id = task_id;
    parent_task_id = parent_task_id;
    status = pending;
    detail = detail;
    started_at = none;
    finished_at = none;
    children = [];
  }

  -- `_sync_phase_metadata` gives the phase its id.
  abbrev pub assigns : Option String → Phase F → Bool
  assigns task_id p = truthy task_id && not (truthy p.task_id)

  -- The phase after `_sync_phase_metadata`.
  abbrev pub synced : String → Option String → String → Phase F → Phase F
  synced label task_id detail p = record p {
    label =
        if is_text label && (not (is_text p.label) || same_id (some p.label) p.task_id)
        then label
        else p.label;
    task_id = if assigns task_id p then task_id else p.task_id;
    detail = if is_text detail then detail else p.detail;
  }

  -- `_mark_phase_running`: a start time of 0.0 is overwritten, which `falsy` tells.
  abbrev pub mark_running : (F → Bool) → F → Phase F → Phase F
  mark_running falsy now p = record p {
    status = running;
    started_at = elim p.started_at [
      | none ↦ some now
      | some t ↦ if falsy t then some now else some t
    ];
  }

  -- `_mark_phase_success` and `_mark_phase_failed`
  abbrev pub mark_ended : WorkflowState → F → String → Phase F → Phase F
  mark_ended state now detail p = record p {
    status = state;
    detail = if is_text detail then detail else p.detail;
    finished_at = some now;
  }
