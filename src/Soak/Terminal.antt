-- ===== src/Soak/Terminal.antt =====
-- workflow.py: `write_terminal_receipt` and `TerminalSoakLifecycle.run`. The document that is written
-- and how it is published are left to the call.
pub mod Verdict
use nanolab.Prelude.{
  ◌<>◌, Bool, true, false, not, ◌||◌, Option, none, some, List, [], ◌∷◌, ◌++◌, map, if◌then◌else◌,
  String, Result, ok, err, ◌≡◌, ◌==◌, text_equality,
}
use mathlib.Core.Option
use nanolab.Soak.Lifecycle.{
  Failure, Call, preflight, prerequisites, evaluate, report, read_clock, ask_cancelled,
  set_cancelled, baseline_capture, final_capture, driver_stop, observer_stop, wait_until,
  load_and_switch, observer_start, set_phase, driver_factory, driver_run, write_terminal, Side,
  loading, switching, Race, Evaluation, dictionary, other, World, Config, LifecycleState, Lifecycle,
  aborted, new_state, new_lifecycle, Done, Action, and_then, logged, with_window,
  with_workload_receipt, without_driver, with_driver, observer_started, observer_ended, interrupt,
  error_of, raising, side_error, first_of, outcome, perform, perform_and,
}
use nanolab.Soak.Measure.{
  Engine, restarted, with_evaluation, with_report, measured, actions, finalizers, noting,
  record_error, keep_error, set_primary, note_of, with_notes, raise_primary, conclude, finalize,
  measure, run,
}

unfoldable pub supported : String → Bool
supported s = s == "PASS" || (s == "FAIL" || (s == "INCONCLUSIVE" || s == "ABORTED"))

unfoldable pub write_terminal_receipt : World → String → Option String → Option String → Action
write_terminal_receipt w status report_path reason l =
    if supported status then perform w (write_terminal status report_path reason) l else (
      err (record {
        type_name = "ValueError";
        message = "unsupported soak terminal status";
        is_exception = true;
        notes = [];
      }),
      l,
    )

-- A missing or unsupported status is no success.
unfoldable pub status_of : Evaluation → String
status_of (dictionary (some s)) = if supported s then s else "INCONCLUSIVE"
status_of (dictionary none) = "INCONCLUSIVE"
status_of other = "INCONCLUSIVE"

unfoldable pub terminal_status : Option Failure → String → String
terminal_status none s = s
terminal_status (some e) s =
    if not e.is_exception then "ABORTED" else if s == "PASS" then "INCONCLUSIVE" else s

abbrev pub did_not_pass : String → Failure
did_not_pass status = record {
  type_name = "RuntimeError";
  message = status <> ": soak did not pass; see terminal.json";
  is_exception = true;
  notes = [];
}

-- How a run ends whose receipt was written.
unfoldable pub verdict : String → Lifecycle → Done
verdict status l =
    if status == "ABORTED"
    then (err (interrupt "ABORTED: soak interrupted; see terminal.json"), l)
    else if status == "PASS"
    then (ok tt, l)
    else (err (did_not_pass status), l)

-- How the run ends once the receipt was written, or was not.
unfoldable pub surface : Option Failure → String → Done → Done
surface (some e) status (err f, l) =
    (err (record e { notes = e.notes ++ ("terminal receipt unavailable: " <> f.message) ∷ [] }), l)
surface none status (err f, l) = (err f, l)
surface _ status (ok _, l) = verdict status l

abbrev pub freeze : World → Done → Done
freeze w (r, l) =
    let error = error_of r in
    let status = terminal_status error (status_of l.state.evaluation) in
    surface error status
      (write_terminal_receipt w status l.state.report (Option.map (λ e. e.message) error) l)

unfoldable pub run_terminal : Engine → World → Config → Action
run_terminal engine w config l = freeze w (run engine w config l)
