-- ===== src/Soak/Measure.antt =====
-- workflow.py: `SoakLifecycle.run`. The steps are run by an external engine, whose contract is Engine.
pub mod Failures
pub mod Actions
pub mod Raised
pub mod Finalizers
pub mod Steady
pub mod Chronology
pub mod Windows
use nanolab.Prelude.{
  ◌<>◌, ℕ, Bool, true, false, Option, none, some, List, [], ◌∷◌, ◌++◌, map, if◌then◌else◌, String,
  ok, err, ◌≡◌,
}
use nanolab.Soak.Lifecycle.{
  perform_and, Failure, Call, preflight, prerequisites, evaluate, report, read_clock, ask_cancelled,
  set_cancelled, baseline_capture, final_capture, driver_stop, observer_stop, wait_until,
  load_and_switch, observer_start, set_phase, driver_factory, driver_run, write_terminal, Side,
  loading, switching, Race, Evaluation, dictionary, other, World, Config, LifecycleState, Lifecycle,
  aborted, new_state, new_lifecycle, Done, Action, and_then, logged, with_window,
  with_workload_receipt, interrupt, error_of, raising, side_error, first_of, outcome, perform,
}
use nanolab.Soak.Lifecycle.Phases.{in_phase, load, natural, stop_generator, stop_observer}

-- `Steps(...).run(inputs)`: the steps in order, up to the first that raises.
pub record Engine : Type 0 where
  pub run_steps : List (String × Action) → Action
  pub none_left : (l : Lifecycle) → run_steps [] l ≡ (ok tt, l)
  pub in_order :
      (name : String) (a : Action) (rest : List (String × Action)) (l : Lifecycle)
      → run_steps ((name, a) ∷ rest) l ≡ and_then (a l) (run_steps rest)

abbrev pub restarted : Failure
restarted = record {
  type_name = "RuntimeError";
  message = "soak lifetime cannot be restarted or resumed";
  is_exception = true;
  notes = [];
}

module _ (w : World) where
  abbrev pub with_evaluation : Lifecycle → Lifecycle
  with_evaluation m = record m { state = record m.state { evaluation = w.evaluation m.calls } }

  abbrev pub with_report : Lifecycle → Lifecycle
  with_report m = record m { state = record m.state { report = some (w.report_path m.calls) } }

module _ (w : World) (config : Config) where
  abbrev pub measured : List (String × Action)
  measured =
      ("preflight", perform w preflight)
      ∷ ("prerequisites", perform w prerequisites)
      ∷ ("warmup", load w config "warmup" config.warmup_s)
      ∷ ("baseline-drain", natural w "baseline" config.baseline_drain_s)
      ∷ ("baseline", natural w "baseline" config.baseline_window_s)
      ∷ ("baseline-diagnostics", perform w (baseline_capture config.diagnostics_timeout_s))
      ∷ ("steady", load w config "steady" config.steady_s)
      ∷ ("drain", natural w "drain" config.drain_s)
      ∷ []

  -- Each step with the window of its phase around it.
  abbrev pub actions : List (String × Action)
  actions = map (λ (name, action). (name, in_phase w name action)) measured

  abbrev pub finalizers : List (String × Action)
  finalizers =
      ("stop-generator", stop_generator w config)
      ∷ ("final-diagnostics", perform w (final_capture config.diagnostics_timeout_s))
      ∷ ("observer-stop", stop_observer w config)
      ∷ ("evaluate", perform_and w evaluate (with_evaluation w))
      ∷ ("report", perform_and w report (with_report w))
      ∷ []

-- The first error is the primary one, a later one is kept beside it.
abbrev pub noting : String → Failure → Option Failure → Lifecycle → Lifecycle
noting name e none l = record l { state = record l.state { primary_error = some e } }
noting name e (some _) l = record l {
  state = record l.state { secondary_errors = l.state.secondary_errors ++ (name, e) ∷ [] };
}

abbrev pub record_error : String → Failure → Lifecycle → Lifecycle
record_error name e l = noting name e l.state.primary_error l

abbrev pub keep_error : String → Done → Lifecycle
keep_error name (ok _, l) = l
keep_error name (err e, l) = record_error name e l

-- The `except` of the measured phases.
abbrev pub set_primary : Done → Lifecycle
set_primary (ok _, l) = l
set_primary (err e, l) = record l { state = record l.state { primary_error = some e } }

abbrev pub note_of : String × Failure → String
note_of (name, e) = name <> ": " <> e.type_name <> ": " <> e.message

abbrev pub with_notes : List (String × Failure) → Failure → Failure
with_notes secondary e = record e { notes = e.notes ++ map note_of secondary }

abbrev pub raise_primary : Option Failure → Lifecycle → Done
raise_primary none l = (ok tt, l)
raise_primary (some e) l =
    let raised = with_notes l.state.secondary_errors e in
    (err raised, record l { state = record l.state { primary_error = some raised } })

unfoldable pub conclude : Lifecycle → Done
conclude l = raise_primary l.state.primary_error l

module _ (engine : Engine) where
  -- Every finalizer is attempted, whatever the others did.
  unfoldable pub finalize : List (String × Action) → Lifecycle → Lifecycle
  finalize [] l = l
  finalize ((name, a) ∷ rest) l =
      finalize rest (keep_error name (engine.run_steps ((name, a) ∷ []) l))

module _ (engine : Engine) (w : World) (config : Config) where
  unfoldable pub measure : Lifecycle → Lifecycle
  measure l =
      finalize engine (finalizers w config)
        (set_primary (engine.run_steps (actions w config) (record l { entered = true })))

  unfoldable pub run : Action
  run l = if l.entered then (err restarted, l) else conclude (measure l)
