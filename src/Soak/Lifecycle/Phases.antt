-- ===== src/Soak/Lifecycle/Phases.antt =====
-- workflow.py: `_check_cancelled`, `_phase`, `_wait`, `_load`, `_load_under_switching`,
-- `_keep_receipts`, `_stop_generator`, `stop_observer` and `_natural`.
use nanolab.Prelude.{
  ℕ, ◌+◌, Bool, not, ◌&&◌, Option, none, some, if◌then◌else◌, String, Result, ok, err, ◌==◌,
  text_equality,
}
use nanolab.Soak.Lifecycle.{
  perform_and, without_driver, with_driver, observer_started, observer_ended, Failure, read_clock,
  ask_cancelled, set_cancelled, driver_stop, observer_stop, wait_until, load_and_switch,
  observer_start, set_phase, driver_factory, driver_run, Race, World, Config, Lifecycle, Done,
  Action, and_then, logged, with_window, with_workload_receipt, raising, first_of, perform,
}

module _ (w : World) where
  unfoldable pub check_cancelled : Action
  check_cancelled = perform w ask_cancelled

  -- The `finally` of a phase.
  abbrev pub end_phase : String → ℕ → Done → Done
  end_phase name started (r, l) =
      (r, with_window name (started, w.monotonic l.calls) (logged read_clock l))

  abbrev pub enter_phase : String → Action → Action
  enter_phase name action l =
      let m = record l { state = record l.state { phase = name } } in
      end_phase name (w.monotonic m.calls) (action (logged read_clock m))

  unfoldable pub in_phase : String → Action → Action
  in_phase name action l = and_then (check_cancelled l) (enter_phase name action)

  unfoldable pub wait : ℕ → Action
  wait duration l = perform w (wait_until (w.monotonic l.calls + duration)) (logged read_clock l)

  unfoldable pub natural : String → ℕ → Action
  natural phase duration l = and_then (perform w (set_phase phase) l) (wait duration)

  abbrev pub observe_load : String → Action
  observe_load phase l =
      if phase == "warmup"
      then perform w (observer_start "warmup") (observer_started l)
      else perform w (set_phase phase) l

  abbrev pub run_driver : String → ℕ → Action
  run_driver phase duration l =
      perform_and w (driver_run phase duration)
        (λ m. with_workload_receipt phase (w.receipt m.calls) m) l

abbrev pub keep_switch : Result Failure String → Lifecycle → Lifecycle
keep_switch (ok path) l = record l { state = record l.state { switch_receipt = some path } }
keep_switch (err _) l = l

-- `self.cancelled.set()` where a side failed.
abbrev pub cancel_on : Option Failure → Lifecycle → Lifecycle
cancel_on none l = l
cancel_on (some _) l = logged set_cancelled l

module _ (config : Config) where
  -- A driver that failed may still have left its receipt on disk.
  abbrev pub keep_load : Bool → Result Failure String → Lifecycle → Lifecycle
  keep_load on_disk (ok path) l = with_workload_receipt "steady" path l
  keep_load on_disk (err _) l =
      if on_disk then with_workload_receipt "steady" config.workload_receipt l else l

  unfoldable pub keep_receipts : Bool → Race → Lifecycle → Lifecycle
  keep_receipts on_disk race l = keep_load on_disk race.load (keep_switch race.switch l)

module _ (w : World) (config : Config) where
  abbrev pub stop_driver : Option String → Action
  stop_driver none l = (ok tt, l)
  stop_driver (some _) l =
      perform_and w (driver_stop config.cancellation_timeout_s) without_driver l

  unfoldable pub stop_generator : Action
  stop_generator l = stop_driver l.driver l

  unfoldable pub stop_observer : Action
  stop_observer l =
      if l.observer_attempted && not l.observer_stopped
      then perform_and w (observer_stop config.cancellation_timeout_s) observer_ended l
      else (ok tt, l)

  unfoldable pub load_under_switching : ℕ → Action
  load_under_switching duration l =
      let race = w.race l.calls in
      let first = first_of race race.done in
      let after = cancel_on first (logged (load_and_switch duration) l) in
      (raising first, keep_receipts config (w.receipt_is_file after.calls) race after)

  abbrev pub generate : String → ℕ → Action
  generate phase duration l =
      if phase == "steady" && config.under_load
      then load_under_switching duration l
      else run_driver w phase duration l

  unfoldable pub load : String → ℕ → Action
  load phase duration l = and_then (observe_load w phase l) λ m.
      and_then (perform w (driver_factory phase) m) λ n.
        and_then (generate phase duration (with_driver phase n))
          λ o. and_then (stop_generator o) (check_cancelled w)
