-- ===== src/Aggregator/Examples.antt =====
-- A run of two planned steps.
use nanolab.Prelude.{
  ℕ, ◌≡◌, refl, true, false, Option, none, some, List, [], ◌∷◌, String, length, ◌==◌,
  number_equality, map,
}
use nanolab.Prelude.Dicts.{get, put}
use nanolab.Aggregator.Phases.{Phase, success, new_phase}
use nanolab.Aggregator.Store.{
  Kind, log_line, task_started, task_passed, task_skipped, Event, Aggregator, search_phase, set_at,
}
use nanolab.Aggregator.Events.{Texts, init, handle_kind, handle_events, phase_for_event}
use nanolab.Aggregator.Events.Log.{handle_events-logs}
use nanolab.Aggregator.Events.Writes.{Registered}
use nanolab.Aggregator.Events.Registry.{handle_events-Registered}
use nanolab.Aggregator.Events.Updates.{EndedAt, by_pass, handle_kind-EndedAt}

abbrev plain : Texts ℕ
plain = record {
  format = λ marker title detail. marker;
  stderr = λ line. line;
  falsy = λ t. t == 0;
}

abbrev event_of : Kind → Option String → Event
event_of kind task_id = record {
  kind = kind;
  task_id = task_id;
  parent_task_id = none;
  title = "";
  detail = "";
  is_stderr = false;
  line = "booting";
}

abbrev blank : Aggregator ℕ
blank = record {
  log_limit = 2;
  store = new_phase "provision" none none "" ∷ new_phase "load" none none "" ∷ [];
  phases = 0 ∷ 1 ∷ [];
  phase_by_task_id = [];
  logs = [];
  show_logs = true;
}

abbrev two_steps : List String
two_steps = "provision" ∷ "load" ∷ []

abbrev events : List (ℕ × Event)
events =
    (1, event_of task_started (some "t1"))
    ∷ (2, event_of log_line (some "t1"))
    ∷ (3, event_of task_skipped (some "t2"))
    ∷ []

handle_events-logs_example :
    ((handle_events plain events blank).logs ≡ "booting" ∷ "[skip]" ∷ [])
    × (length (handle_events plain events blank).logs ≡ 2)
unfolding init
handle_events-logs_example = handle_events-logs plain two_steps 2 blank events refl

handle_events-Registered_example : Registered (handle_events plain events blank)
unfolding init
handle_events-Registered_example = handle_events-Registered plain two_steps 2 blank events refl

started : Aggregator ℕ
unfolding handle_events handle_kind phase_for_event get put search_phase set_at
started = handle_events plain events blank

started_test : map (λ (p : Phase ℕ). p.task_id) started.store ≡ some "t1" ∷ some "t2" ∷ []
unfolding started handle_events handle_kind phase_for_event get put search_phase set_at
started_test = refl

handle_kind-EndedAt_example :
    EndedAt success 4 0 2
      (handle_kind plain 4 task_passed (event_of task_passed (some "t1")) started)
unfolding started handle_events handle_kind phase_for_event get put search_phase set_at
handle_kind-EndedAt_example =
    handle_kind-EndedAt plain task_passed success 4 (event_of task_passed (some "t1")) started "t1"
      0 _ by_pass refl refl refl refl refl
