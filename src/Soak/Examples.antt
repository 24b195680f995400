-- ===== src/Soak/Examples.antt =====
-- Runs of the measurement lifetime, and the theorems at them.
use nanolab.Prelude.{
  arith, length, true, false, none, some, List, [], ◌∷◌, ◌++◌, if◌then◌else◌, String, Result, ok,
  err, ◌≡◌, ◌==◌, text_equality, refl, ◌↔◌,
}
use nanolab.Soak.Lifecycle.{
  Failure, Call, evaluate, report, final_capture, driver_run, loading, switching, dictionary, World,
  Config, new_lifecycle, Action, and_then, outcome, perform, perform_and,
}
use nanolab.Soak.Lifecycle.Phases.{
  in_phase, check_cancelled, natural, wait, load, stop_generator, stop_observer,
  load_under_switching, keep_receipts,
}
use nanolab.Soak.Measure.{Engine, conclude, finalize, measure, run}
use nanolab.Soak.Measure.Failures.{first_failure}
use nanolab.Soak.Measure.Finalizers.{started}
use nanolab.Soak.Measure.Finalizers.Order.{stops, run-finalized}
use nanolab.Soak.Measure.Chronology.{Chronological, names_of, phase_names}
use nanolab.Soak.Measure.Windows.{run-Chronological}
use nanolab.Soak.Terminal.{
  supported, write_terminal_receipt, status_of, terminal_status, verdict, surface, run_terminal,
}
use nanolab.Soak.Terminal.Verdict.{
  frozen_status, receipt_call, run_terminal-returns, run_terminal-frozen, run-frozen_pass,
}

abbrev run_in_order : List (String × Action) → Action
run_in_order [] l = (ok tt, l)
run_in_order ((name, a) ∷ rest) l = and_then (a l) (run_in_order rest)

abbrev engine : Engine
engine = record {
  run_steps = run_in_order;
  none_left = λ l. refl;
  in_order = λ name a rest l. refl;
}

abbrev config : Config
config = record {
  warmup_s = 5;
  baseline_drain_s = 3;
  baseline_window_s = 4;
  steady_s = 20;
  drain_s = 6;
  cancellation_timeout_s = 2;
  diagnostics_timeout_s = 9;
  under_load = false;
  workload_receipt = "run/steady/receipt.json";
}

abbrev died : String → Failure
died m = record { type_name = "OSError"; message = m; is_exception = true; notes = [] }

-- A world whose calls fail as told, whose clock counts the calls.
abbrev world : (Call → Result Failure (Unit {0})) → World
world answer = record {
  answer = λ h c. answer c;
  is_set = λ h. false;
  waited = λ h. true;
  monotonic = length;
  race = λ h. record { load = ok "load"; switch = ok "switch"; done = loading ∷ switching ∷ [] };
  receipt = λ h. "receipt";
  receipt_is_file = λ h. true;
  evaluation = λ h. dictionary (some "PASS");
  report_path = λ h. "report";
}

abbrev calm : Call → Result Failure (Unit {0})
calm c = ok tt

-- The driver dies under load, then the evaluation fails too.
abbrev broken : Call → Result Failure (Unit {0})
broken (driver_run phase d) = if phase == "steady" then err (died "driver") else ok tt
broken evaluate = err (died "evaluation")
broken c = ok tt

calm_returns : (run_terminal engine (world calm) config new_lifecycle).0 ≡ ok tt
unfolding run_terminal run measure finalize conclude in_phase check_cancelled natural wait load
    stop_generator stop_observer perform_and perform outcome write_terminal_receipt supported
    status_of terminal_status surface verdict load_under_switching keep_receipts
calm_returns = refl

calm_passes : frozen_status (run engine (world calm) config new_lifecycle) ≡ "PASS"
unfolding run measure finalize conclude in_phase check_cancelled natural wait load stop_generator
    stop_observer perform_and perform outcome supported status_of terminal_status
    load_under_switching keep_receipts
calm_passes = refl

broken_notes :
    (run engine (world broken) config new_lifecycle).0
    ≡ err (record (died "driver") { notes = "evaluate: OSError: evaluation" ∷ [] })
unfolding run measure finalize conclude in_phase check_cancelled natural wait load stop_generator
    stop_observer perform_and perform outcome load_under_switching keep_receipts
broken_notes = refl

run-finalized_example :
    (earlier : List Call) × ((run engine (world broken) config new_lifecycle).1.calls
      ≡ report ∷ evaluate ∷ stops config (started earlier) ++ final_capture 9 ∷ earlier)
run-finalized_example = run-finalized engine (world broken) config

run_terminal-returns_example :
    let d = run_terminal engine (world calm) config new_lifecycle in
    (d.0 ≡ ok tt) ↔ (
      (first_failure (world calm) d.1.calls ≡ none)
      × (d.1.state.evaluation ≡ dictionary (some "PASS")))
run_terminal-returns_example = run_terminal-returns engine (world calm) config

run_terminal-frozen_example :
    let d = run engine (world broken) config new_lifecycle in
    ((run_terminal engine (world broken) config new_lifecycle).1.calls ≡ receipt_call d ∷ d.1.calls)
    × (supported (frozen_status d) ≡ true)
run_terminal-frozen_example = run_terminal-frozen engine (world broken) config

calm_passes_cleanly :
    let d = run engine (world calm) config new_lifecycle in
    (first_failure (world calm) d.1.calls ≡ none)
    × (d.1.state.evaluation ≡ dictionary (some "PASS"))
calm_passes_cleanly = run-frozen_pass engine (world calm) config calm_passes

run-Chronological_example :
    let m = (run engine (world broken) config new_lifecycle).1 in
    (left : List String) × (Chronological 0 m.state.windows (length m.calls)
      × (names_of m.state.windows ++ left ≡ phase_names))
run-Chronological_example = run-Chronological engine (world broken) config (λ h c. omega arith)
