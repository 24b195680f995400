-- ===== src/Soak/Measure/Actions.antt =====
-- That every step and every finalizer tells its failures.
use nanolab.Prelude.{
  ◌++◌, text_equality, not, ◌&&◌, ◌==◌, ℕ, if_ind, Bool, true, false, Option, none, some, List,
  String, ok, err, ◌≡◌, refl, ◌∙◌, ap, All, Result,
}
use nanolab.Soak.Lifecycle.{
  without_driver, with_driver, observer_started, observer_ended, Failure, evaluate, report,
  ask_cancelled, observer_stop, load_and_switch, observer_start, set_phase, driver_factory,
  driver_run, Race, World, Config, Lifecycle, Action, logged, with_workload_receipt, error_of,
  raising, first_of, outcome,
}
use nanolab.Soak.Lifecycle.Phases.{
  stop_driver, check_cancelled, in_phase, observe_load, keep_switch, cancel_on, stop_generator,
  stop_observer, keep_load, keep_receipts, load_under_switching, generate, load,
}
use nanolab.Soak.Measure.{with_evaluation, with_report, actions, finalizers}
use nanolab.Soak.Measure.Failures.{
  perform_and-Faithful, found, failures, append-none, TellsAs, FaithfulAs, quiet-TellsAs,
  perform-FaithfulAs, perform_and-FaithfulAs, errors, Tells, Faithful, perform-Faithful,
  and_then-Tells, in_phase-Faithful, natural-Faithful,
}

abbrev pub AllFaithful : World → List (String × Action) → Type 0
AllFaithful w = All (λ step. Faithful w step.1)

-- Each step makes the calls that bear its name.
abbrev pub AllNamed : World → List (String × Action) → Type 0
AllNamed w = All (λ step. FaithfulAs w step.0 step.1)

module _ (w : World) (config : Config) where
  stop_generator-FaithfulAs : FaithfulAs w "stop-generator" (stop_generator w config)
  unfolding stop_generator
  stop_generator-FaithfulAs l = go l.driver
    where
      go : (o : Option String) → TellsAs w "stop-generator" l (stop_driver w config o l)
      go none = quiet-TellsAs w "stop-generator" l l refl refl
      go (some _) = perform_and-FaithfulAs w _ without_driver (λ m. (refl, refl)) l

  stop_generator-Faithful : Faithful w (stop_generator w config)
  stop_generator-Faithful l = ("stop-generator", stop_generator-FaithfulAs l)

  stop_observer-FaithfulAs : FaithfulAs w "observer-stop" (stop_observer w config)
  unfolding stop_observer
  stop_observer-FaithfulAs l =
      if_ind (TellsAs w "observer-stop" l) (l.observer_attempted && not l.observer_stopped)
        (λ _.
          perform_and-FaithfulAs w (observer_stop config.cancellation_timeout_s) observer_ended
            (λ m. (refl, refl)) l)
        (λ _. quiet-TellsAs w "observer-stop" l l refl refl)

  keep_receipts-quiet :
      (on_disk : Bool) (race : Race) (l : Lifecycle)
      → ((keep_receipts config on_disk race l).calls ≡ l.calls)
        × (errors (keep_receipts config on_disk race l) ≡ errors l)
  unfolding keep_receipts
  keep_receipts-quiet on_disk race l = go on_disk race.load race.switch
    where
      go :
          (b : Bool) (x y : Result Failure String)
          → ((keep_load config b x (keep_switch y l)).calls ≡ l.calls)
            × (errors (keep_load config b x (keep_switch y l)) ≡ errors l)
      go b (ok p) (ok q) = (refl, refl)
      go b (ok p) (err q) = (refl, refl)
      go true (err p) (ok q) = (refl, refl)
      go true (err p) (err q) = (refl, refl)
      go false (err p) (ok q) = (refl, refl)
      go false (err p) (err q) = (refl, refl)

  load_under_switching-Faithful :
      (duration : ℕ) → Faithful w (load_under_switching w config duration)
  unfolding load_under_switching failures outcome
  load_under_switching-Faithful duration l = go (first_of race race.done) refl
    where
      race : Race
      race = w.race l.calls

      after : Option Failure → Lifecycle
      after o = cancel_on o (logged (load_and_switch duration) l)

      go :
          (o : Option Failure)
          → first_of race race.done ≡ o
          → Tells w l
              (raising o, keep_receipts config (w.receipt_is_file (after o).calls) race (after o))
      go none h =
          let kept = keep_receipts-quiet (w.receipt_is_file (after none).calls) race (after none) in
          (
            "",
            (
              ap (failures w) kept.0
                  ∙ ap (λ o. failures w l.calls ++ found "" (error_of (raising o))) h,
              kept.1,
            ),
          )
      go (some e) h =
          let kept =
            keep_receipts-quiet (w.receipt_is_file (after (some e)).calls) race (after (some e)) in
          (
            "",
            (
              ap (failures w) kept.0
                  ∙ append-none _
                  ∙ ap (λ o. failures w l.calls ++ found "" (error_of (raising o))) h,
              kept.1,
            ),
          )

  observe_load-Faithful : (phase : String) → Faithful w (observe_load w phase)
  observe_load-Faithful phase l =
      if_ind (Tells w l) (phase == "warmup")
        (λ _. perform-Faithful w (observer_start "warmup") (observer_started l))
        (λ _. perform-Faithful w (set_phase phase) l)

  generate-Faithful :
      (phase : String) (duration : ℕ) → Faithful w (generate w config phase duration)
  generate-Faithful phase duration l =
      if_ind (Tells w l) (phase == "steady" && config.under_load)
        (λ _. load_under_switching-Faithful duration l)
        (λ _.
          perform_and-Faithful w (driver_run phase duration)
            (λ m. with_workload_receipt phase (w.receipt m.calls) m) (λ m. (refl, refl)) l)

  load-Faithful : (phase : String) (duration : ℕ) → Faithful w (load w config phase duration)
  unfolding load check_cancelled
  load-Faithful phase duration l = and_then-Tells w l _ _ (observe_load-Faithful phase l) λ m.
      and_then-Tells w m _ _ (perform-Faithful w (driver_factory phase) m) λ n.
        and_then-Tells w n _ _ (generate-Faithful phase duration (with_driver phase n))
          λ o. and_then-Tells w o _ _ (stop_generator-Faithful o) (perform-Faithful w ask_cancelled)

  pub actions-AllFaithful : AllFaithful w (actions w config)
  actions-AllFaithful = (
    phased _ _ (perform-Faithful w _),
    (
      phased _ _ (perform-Faithful w _),
      (
        phased _ _ (load-Faithful _ _),
        (
          phased _ _ (natural-Faithful w _ _),
          (
            phased _ _ (natural-Faithful w _ _),
            (
              phased _ _ (perform-Faithful w _),
              (phased _ _ (load-Faithful _ _), (phased _ _ (natural-Faithful w _ _), tt)),
            ),
          ),
        ),
      ),
    ),
  )
    where
      phased : (name : String) (a : Action) → Faithful w a → Faithful w (in_phase w name a)
      phased = in_phase-Faithful w

  pub finalizers-AllNamed : AllNamed w (finalizers w config)
  finalizers-AllNamed = (
    stop_generator-FaithfulAs,
    (
      perform-FaithfulAs w _,
      (
        stop_observer-FaithfulAs,
        (
          perform_and-FaithfulAs w evaluate (with_evaluation w) (λ m. (refl, refl)),
          (perform_and-FaithfulAs w report (with_report w) (λ m. (refl, refl)), tt),
        ),
      ),
    ),
  )
