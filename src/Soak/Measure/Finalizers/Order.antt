-- ===== src/Soak/Measure/Finalizers/Order.antt =====
-- The order of the last calls of a run.
use nanolab.Prelude.{
  Bool, true, false, not, ◌&&◌, Option, none, some, List, [], ◌∷◌, ◌++◌, String, ok, err, ◌≡◌, refl,
  sym, ◌∙◌, ap, arith, Result, subst, text_equality, if◌then◌else◌,
}
use nanolab.Soak.Lifecycle.{
  observer_ended, perform_and, Failure, Call, evaluate, report, final_capture, observer_stop, World,
  Config, Lifecycle, new_lifecycle, Done, Action, and_then, logged, observer_ended, outcome,
  perform, perform_and,
}
use nanolab.Soak.Lifecycle.Phases.{stop_generator, stop_observer}
use nanolab.Soak.Measure.{
  noting, raise_primary, Engine, with_evaluation, with_report, actions, finalizers, noting,
  keep_error, set_primary, raise_primary, conclude, finalize, measure, run,
}
use nanolab.Soak.Measure.Finalizers.{
  and_then-Watched, stop_generator-Watches, started, Watched, Watches, stop_generator-Watches,
  AllWatch, actions-AllWatch,
}

-- What the finalizers of the observer read.
abbrev seen : Lifecycle → List Call × Bool × Bool
seen l = (l.calls, l.observer_attempted, l.observer_stopped)

noting-seen :
    (name : String) (e : Failure) (o : Option Failure) (l : Lifecycle)
    → seen (noting name e o l) ≡ seen l
noting-seen name e none l = refl
noting-seen name e (some f) l = refl

keep_error-seen : (name : String) (d : Done) → seen (keep_error name d) ≡ seen d.1
keep_error-seen name (ok _, m) = refl
keep_error-seen name (err e, m) = noting-seen name e m.state.primary_error m

set_primary-seen : (d : Done) → seen (set_primary d) ≡ seen d.1
set_primary-seen (ok _, m) = refl
set_primary-seen (err e, m) = refl

raise_primary-seen : (o : Option Failure) (l : Lifecycle) → seen (raise_primary o l).1 ≡ seen l
raise_primary-seen none l = refl
raise_primary-seen (some e) l = refl

abbrev WatchedIn : List Call × Bool × Bool → Type 0
WatchedIn (h, attempted, stopped) = (attempted ≡ started h) × (stopped ≡ false)

-- The call that stops the observer, where it was started.
abbrev pub stops : Config → Bool → List Call
stops config was_started =
    if was_started then observer_stop config.cancellation_timeout_s ∷ [] else []

module _ (engine : Engine) where
  single : (name : String) (a : Action) (l : Lifecycle) → engine.run_steps ((name, a) ∷ []) l ≡ a l
  single name a l = engine.in_order name a [] l ∙ last (a l)
    where
      last : (d : Done) → and_then d (engine.run_steps []) ≡ d
      last (ok _, m) = engine.none_left m
      last (err e, m) = refl

  finalized : String → Action → Lifecycle → Lifecycle
  finalized name a l = keep_error name (engine.run_steps ((name, a) ∷ []) l)

  finalized-seen :
      (name : String) (a : Action) (l : Lifecycle) → seen (finalized name a l) ≡ seen (a l).1
  unfolding finalized
  finalized-seen name a l =
      keep_error-seen name (engine.run_steps ((name, a) ∷ []) l)
      ∙ ap (λ d. seen d.1) (single name a l)

  run_steps-Watches :
      (steps : List (String × Action)) → AllWatch steps → Watches (engine.run_steps steps)
  run_steps-Watches [] h l s = subst (λ d. Watched d.1) (sym (engine.none_left l)) s
  run_steps-Watches ((name, a) ∷ rest) h l s =
      subst (λ d. Watched d.1) (sym (engine.in_order name a rest l))
        (and_then-Watched (a l) (engine.run_steps rest) (h.0 l s) (run_steps-Watches rest h.1))

perform_and-calls :
    (w : World) (c : Call) (keep : Lifecycle → Lifecycle) (l : Lifecycle)
    → ((m : Lifecycle) → (keep m).calls ≡ m.calls)
    → (perform_and w c keep l).1.calls ≡ c ∷ l.calls
unfolding perform_and perform
perform_and-calls w c keep l k = go (outcome w l.calls c)
  where
    go :
        (r : Result Failure (Unit {0}))
        → (and_then (r, logged c l) (λ m. (ok tt, keep m))).1.calls ≡ c ∷ l.calls
    go (ok _) = k (logged c l)
    go (err e) = refl

stop_observer-calls :
    (w : World) (config : Config) (l : Lifecycle)
    → Watched l
    → (stop_observer w config l).1.calls ≡ stops config (started l.calls) ++ l.calls
unfolding stop_observer perform_and perform
stop_observer-calls w config l h = go l.observer_attempted l.observer_stopped _ h.0 h.1
  where
    stop : Done
    stop = perform_and w (observer_stop config.cancellation_timeout_s) observer_ended l

    go :
        (attempted stopped was_started : Bool)
        → attempted ≡ was_started
        → stopped ≡ false
        → (if attempted && not stopped then stop else (ok tt, l)).1.calls
          ≡ stops config was_started ++ l.calls
    go true false true h k = perform_and-calls w _ observer_ended l (λ m. refl)
    go false false false h k = refl
    go true false false h k = ground arith
    go false false true h k = ground arith
    go a true s h k = ground arith

-- The end of a run that had measured up to a lifecycle.
module _ (engine : Engine) (w : World) (config : Config) (l : Lifecycle) (h : Watched l) where
  stopped_generator : Lifecycle
  stopped_generator = finalized engine "stop-generator" (stop_generator w config) l

  stopped_generator-Watched : Watched stopped_generator
  unfolding stopped_generator
  stopped_generator-Watched =
      subst WatchedIn (sym (finalized-seen engine _ (stop_generator w config) l))
        (stop_generator-Watches w config l h)

  captured : Lifecycle
  unfolding stopped_generator
  captured =
      finalized engine "final-diagnostics" (perform w (final_capture config.diagnostics_timeout_s))
        stopped_generator

  captured-seen :
      seen captured ≡ seen (logged (final_capture config.diagnostics_timeout_s) stopped_generator)
  unfolding captured perform
  captured-seen =
      finalized-seen engine _ (perform w (final_capture config.diagnostics_timeout_s))
        stopped_generator

  captured-Watched : Watched captured
  unfolding started
  captured-Watched = subst WatchedIn (sym captured-seen) stopped_generator-Watched

  finalize-calls :
      (finalize engine (finalizers w config) l).calls
      ≡ report ∷ evaluate ∷ stops config (started stopped_generator.calls)
        ++ final_capture config.diagnostics_timeout_s ∷ stopped_generator.calls
  unfolding finalize captured stopped_generator finalized started
  finalize-calls =
      let quiet = finalized engine "observer-stop" (stop_observer w config) captured in
      let evaluated =
        finalized engine "evaluate" (perform_and w evaluate (with_evaluation w)) quiet in
      ap (λ e. e.0)
        (finalized-seen engine "report" (perform_and w report (with_report w)) evaluated)
      ∙ perform_and-calls w report (with_report w) evaluated (λ m. refl)
      ∙ ap (λ h. report ∷ h)
          (ap (λ e. e.0)
              (finalized-seen engine "evaluate" (perform_and w evaluate (with_evaluation w)) quiet)
            ∙ perform_and-calls w evaluate (with_evaluation w) quiet (λ m. refl)
            ∙ ap (λ h. evaluate ∷ h)
                (ap (λ e. e.0)
                    (finalized-seen engine "observer-stop" (stop_observer w config) captured)
                  ∙ stop_observer-calls w config captured captured-Watched
                  ∙ ap (λ h. stops config (started h) ++ h) (ap (λ e. e.0) captured-seen)))

-- Whatever failed before or among them, the last calls of a run are the final capture, then the stop
-- of the observer exactly where the observer was told to start, then the evaluation, then the report.
pub run-finalized :
    (engine : Engine) (w : World) (config : Config)
    → (earlier : List Call) × ((run engine w config new_lifecycle).1.calls
        ≡ report ∷ evaluate ∷ stops config (started earlier)
          ++ final_capture config.diagnostics_timeout_s ∷ earlier)
unfolding run measure conclude started
run-finalized engine w config =
    let begun = record new_lifecycle { entered = true } in
    let measured = engine.run_steps (actions w config) begun in
    let ready = set_primary measured in
    let seen_all = finalize engine (finalizers w config) ready in
    let watched = subst WatchedIn (sym (set_primary-seen measured)) (
      run_steps-Watches engine (actions w config) (actions-AllWatch w config) begun (refl, refl)) in
    (
      (stopped_generator engine w config ready watched).calls,
      ap (λ e. e.0) (raise_primary-seen seen_all.state.primary_error seen_all)
          ∙ finalize-calls engine w config ready watched,
    )
