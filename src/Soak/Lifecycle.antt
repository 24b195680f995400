-- ===== src/Soak/Lifecycle.antt =====
-- workflow.py: the state of `SoakLifecycle` and the calls it makes of the parts it is bound to.
-- A call is logged, newest first, and the bound parts are what they answer after each log: the hooks,
-- the observer, the workload driver, the clock and the cancellation event.
pub mod Phases
use nanolab.Prelude.{
  ℕ, Bool, true, false, Option, none, some, List, [], ◌∷◌, if◌then◌else◌, String, Result, ok, err,
  Dict,
}
use nanolab.Prelude.Dicts.{put}

-- An exception; one that is not an `Exception` is an interrupt.
pub record Failure : Type 0 where
  pub type_name : String
  pub message : String
  pub is_exception : Bool
  pub notes : List String

pub data Call : Type 0 where
  preflight prerequisites evaluate report : Call
  read_clock ask_cancelled set_cancelled : Call
  baseline_capture final_capture driver_stop observer_stop wait_until load_and_switch : ℕ → Call
  observer_start set_phase driver_factory : String → Call
  driver_run : String → ℕ → Call
  write_terminal : String → Option String → Option String → Call

-- The two futures of a phase that switches under load.
pub data Side : Type 0 where
  loading switching : Side

-- What they gave, and those done at the first exception, in the order of the set.
pub record Race : Type 0 where
  pub load : Result Failure String
  pub switch : Result Failure String
  pub done : List Side

-- What `evaluate` gives: a dictionary with its status, if that is a text, or anything else.
pub data Evaluation : Type 0 where
  dictionary : Option String → Evaluation
  other : Evaluation

pub record World : Type 0 where
  pub answer : List Call → Call → Result Failure (Unit {0})
  pub is_set : List Call → Bool
  pub waited : List Call → Bool
  pub monotonic : List Call → ℕ
  pub race : List Call → Race
  pub receipt : List Call → String
  pub receipt_is_file : List Call → Bool
  pub evaluation : List Call → Evaluation
  pub report_path : List Call → String

-- `under_load` tells whether a step is to run under the steady load.
pub record Config : Type 0 where
  pub warmup_s : ℕ
  pub baseline_drain_s : ℕ
  pub baseline_window_s : ℕ
  pub steady_s : ℕ
  pub drain_s : ℕ
  pub cancellation_timeout_s : ℕ
  pub diagnostics_timeout_s : ℕ
  pub under_load : Bool
  pub workload_receipt : String

pub record LifecycleState : Type 0 where
  pub phase : String
  pub primary_error : Option Failure
  pub secondary_errors : List (String × Failure)
  pub windows : Dict (ℕ × ℕ)
  pub workload_receipts : Dict String
  pub switch_receipt : Option String
  pub evaluation : Evaluation
  pub report : Option String

-- The object, with the log of its calls; a driver is the phase that it was made for.
pub record Lifecycle : Type 0 where
  pub state : LifecycleState
  pub driver : Option String
  pub entered : Bool
  pub observer_attempted : Bool
  pub observer_stopped : Bool
  pub calls : List Call

unfoldable pub aborted : LifecycleState → Bool
aborted s = elim s.primary_error [ none ↦ false | some e ↦ if e.is_exception then false else true ]

abbrev pub new_state : LifecycleState
new_state = record {
  phase = "preflight";
  primary_error = none;
  secondary_errors = [];
  windows = [];
  workload_receipts = [];
  switch_receipt = none;
  evaluation = other;
  report = none;
}

abbrev pub new_lifecycle : Lifecycle
new_lifecycle = record {
  state = new_state;
  driver = none;
  entered = false;
  observer_attempted = false;
  observer_stopped = false;
  calls = [];
}

abbrev pub Done : Type 0
Done = Result Failure (Unit {0}) × Lifecycle

abbrev pub Action : Type 0
Action = Lifecycle → Done

abbrev pub and_then : Done → Action → Done
and_then (err e, l) next = (err e, l)
and_then (ok _, l) next = next l

abbrev pub logged : Call → Lifecycle → Lifecycle
logged c l = record l { calls = c ∷ l.calls }

abbrev pub with_window : String → ℕ × ℕ → Lifecycle → Lifecycle
with_window name w l = record l { state = record l.state { windows = put name w l.state.windows } }

abbrev pub with_workload_receipt : String → String → Lifecycle → Lifecycle
with_workload_receipt phase path l = record l {
  state = record l.state { workload_receipts = put phase path l.state.workload_receipts };
}

abbrev pub without_driver : Lifecycle → Lifecycle
without_driver l = record l { driver = none }

abbrev pub with_driver : String → Lifecycle → Lifecycle
with_driver phase l = record l { driver = some phase }

abbrev pub observer_started : Lifecycle → Lifecycle
observer_started l = record l { observer_attempted = true }

abbrev pub observer_ended : Lifecycle → Lifecycle
observer_ended l = record l { observer_stopped = true }

abbrev pub interrupt : String → Failure
interrupt m = record {
  type_name = "KeyboardInterrupt";
  message = m;
  is_exception = false;
  notes = [];
}

abbrev pub error_of : {A : Type 0} → Result Failure A → Option Failure
error_of (ok _) = none
error_of (err e) = some e

abbrev pub raising : Option Failure → Result Failure (Unit {0})
raising none = ok tt
raising (some e) = err e

abbrev pub side_error : Race → Side → Option Failure
side_error r loading = error_of r.load
side_error r switching = error_of r.switch

-- `next((f for f in done if f.exception() is not None), None)`
pub first_of : Race → List Side → Option Failure
first_of r [] = none
first_of r (s ∷ ss) = elim (side_error r s) [ none ↦ first_of r ss | some e ↦ some e ]

-- How a call ends after a log.
unfoldable pub outcome : World → List Call → Call → Result Failure (Unit {0})
outcome w h ask_cancelled =
    if w.is_set h then err (interrupt "soak cancelled; continuous run cannot resume") else ok tt
outcome w h (wait_until d) =
    if w.waited h then ok tt else err (interrupt "soak cancelled during natural observation")
outcome w h (load_and_switch d) = raising (first_of (w.race h) (w.race h).done)
outcome w h read_clock = ok tt
outcome w h set_cancelled = ok tt
outcome w h c = w.answer h c

unfoldable pub perform : World → Call → Action
perform w c l = (outcome w l.calls c, logged c l)

-- A call, and what the object keeps of it when it returns.
unfoldable pub perform_and : World → Call → (Lifecycle → Lifecycle) → Action
perform_and w c keep l = and_then (perform w c l) (λ m. (ok tt, keep m))
