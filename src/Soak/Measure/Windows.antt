-- ===== src/Soak/Measure/Windows.antt =====
-- The windows of the phases under a clock that never goes back.
use nanolab.Soak.Measure.Chronology.{
  in_phase-InOrder, phase_names, names_of, Went, Steady-InOrder, InSomeOrder, Chronological,
  in_phase-later_name, InOrder,
}
use nanolab.Prelude.{
  map, ◌≤◌, true, false, Option, none, some, List, [], ◌∷◌, ◌++◌, String, ok, err, ◌≡◌, refl, sym,
  arith, All, subst, text_equality, ◌==◌,
}
use nanolab.Prelude.Dicts.{get}
use nanolab.Soak.Lifecycle.{
  Failure, Call, evaluate, report, World, Config, Lifecycle, new_lifecycle, Done, Action, and_then,
}
use nanolab.Soak.Lifecycle.Phases.{in_phase}
use nanolab.Soak.Measure.{
  measured, actions, finalizers, with_evaluation, with_report, Engine, with_evaluation, with_report,
  measured, actions, finalizers, noting, keep_error, set_primary, raise_primary, conclude, finalize,
  measure, run,
}
use nanolab.Soak.Measure.Steady.{
  stop_generator-IsSteady, stop_observer-IsSteady, load-IsSteady, IsSteady, perform-IsSteady,
  perform_and-IsSteady, same, natural-IsSteady,
}
use nanolab.Soak.Measure.Chronology.{
  Chronological, phase_names, names_of, InOrder, Went, InSomeOrder, Steady-InOrder,
  in_phase-InOrder, in_phase-later_name,
}

module _ (w : World)
    (clock : (h : List Call) (c : Call) → w.monotonic h ≤ w.monotonic (c ∷ h)) where
  abbrev Unopened : Lifecycle → List (String × Action) → Type 0
  Unopened l = All (λ step. get step.0 l.state.windows ≡ none)

  abbrev Others : String → List (String × Action) → Type 0
  Others name = All (λ step. (name == step.0) ≡ false)

  abbrev AllDiffer : List (String × Action) → Type 0
  AllDiffer [] = Unit
  AllDiffer (step ∷ rest) = Others step.0 rest × AllDiffer rest

  abbrev AllSteady : List (String × Action) → Type 0
  AllSteady = All (λ step. IsSteady w step.1)

  Unopened-later :
      (name : String) (a : Action) (l : Lifecycle) (rest : List (String × Action))
      → IsSteady w a
      → Others name rest
      → Unopened l rest
      → Unopened (in_phase w name a l).1 rest
  Unopened-later name a l [] steady o u = tt
  Unopened-later name a l (step ∷ rest) steady o u = (
    in_phase-later_name w clock name step.0 a l steady o.0 u.0,
    Unopened-later name a l rest steady o.1 u.1,
  )

  module _ (engine : Engine) where
    run_steps-InOrder :
        (steps : List (String × Action)) (l : Lifecycle)
        → AllSteady steps
        → AllDiffer steps
        → Unopened l steps
        → InOrder w (map (λ step. step.0) steps) l
        → InSomeOrder w
            (engine.run_steps (map (λ (name, action). (name, in_phase w name action)) steps) l).1
    run_steps-InOrder [] l s d u k =
        subst (λ r. InSomeOrder w r.1) (sym (engine.none_left l)) ([], k)
    run_steps-InOrder ((name, a) ∷ rest) l s d u k =
        subst (λ r. InSomeOrder w r.1) (sym (engine.in_order name (in_phase w name a) _ l))
          (go (in_phase w name a l) (in_phase-InOrder w clock name (names rest) a l s.0 k u.0)
            (Unopened-later name a l rest s.0 d.0 u.1) (λ m. run_steps-InOrder rest m s.1 d.1))
      where
        names : List (String × Action) → List String
        names = map (λ step. step.0)

        later : Action
        later = engine.run_steps (map (λ (name, action). (name, in_phase w name action)) rest)

        go :
            (r : Done)
            → Went w (names rest) r
            → Unopened r.1 rest
            → ((m : Lifecycle)
                → Unopened m rest
                → InOrder w (names rest) m
                → InSomeOrder w (later m).1)
            → InSomeOrder w (and_then r later).1
        go (err e, m) k u next = k
        go (ok _, m) k u next = next m u k

    noting-InOrder :
        (name : String) (e : Failure) (o : Option Failure) (l : Lifecycle)
        → InSomeOrder w l
        → InSomeOrder w (noting name e o l)
    noting-InOrder name e none l k = k
    noting-InOrder name e (some f) l k = k

    keep_error-InOrder :
        (name : String) (d : Done) → InSomeOrder w d.1 → InSomeOrder w (keep_error name d)
    keep_error-InOrder name (ok _, m) k = k
    keep_error-InOrder name (err e, m) k = noting-InOrder name e m.state.primary_error m k

    finalize-InOrder :
        (steps : List (String × Action)) (l : Lifecycle)
        → AllSteady steps
        → InSomeOrder w l
        → InSomeOrder w (finalize engine steps l)
    unfolding finalize
    finalize-InOrder [] l s k = k
    finalize-InOrder ((name, a) ∷ rest) l s k =
        finalize-InOrder rest (keep_error name (engine.run_steps ((name, a) ∷ []) l)) s.1 (
          keep_error-InOrder name (engine.run_steps ((name, a) ∷ []) l) (
            subst (λ r. InSomeOrder w r.1) (sym (engine.in_order name a [] l))
              (go (a l) (k.0, Steady-InOrder w clock k.0 l (a l).1 (s.0 l) k.1))))
      where
        go : (r : Done) → InSomeOrder w r.1 → InSomeOrder w (and_then r (engine.run_steps [])).1
        go (err e, m) k = k
        go (ok _, m) k = subst (λ r. InSomeOrder w r.1) (sym (engine.none_left m)) k

    set_primary-InOrder : (d : Done) → InSomeOrder w d.1 → InSomeOrder w (set_primary d)
    set_primary-InOrder (ok _, m) k = k
    set_primary-InOrder (err e, m) k = k

    raise_primary-InOrder :
        (o : Option Failure) (l : Lifecycle) → InSomeOrder w l → InSomeOrder w (raise_primary o l).1
    raise_primary-InOrder none l k = k
    raise_primary-InOrder (some e) l k = k

  measured-AllDiffer : (config : Config) → AllDiffer (measured w config)
  measured-AllDiffer config = (
    ((refl, (refl, (refl, (refl, (refl, (refl, (refl, tt)))))))),
    (
      ((refl, (refl, (refl, (refl, (refl, (refl, tt))))))),
      (
        ((refl, (refl, (refl, (refl, (refl, tt)))))),
        (
          ((refl, (refl, (refl, (refl, tt))))),
          (((refl, (refl, (refl, tt)))), (((refl, (refl, tt))), (((refl, tt)), (tt, tt)))),
        ),
      ),
    ),
  )

  measured-AllSteady : (config : Config) → AllSteady (measured w config)
  measured-AllSteady config = (
    perform-IsSteady w clock _,
    (
      perform-IsSteady w clock _,
      (
        load-IsSteady w clock config _ _,
        (
          natural-IsSteady w clock _ _,
          (
            natural-IsSteady w clock _ _,
            (
              perform-IsSteady w clock _,
              (load-IsSteady w clock config _ _, (natural-IsSteady w clock _ _, tt)),
            ),
          ),
        ),
      ),
    ),
  )

  finalizers-AllSteady : (config : Config) → AllSteady (finalizers w config)
  finalizers-AllSteady config = (
    stop_generator-IsSteady w clock config,
    (
      perform-IsSteady w clock _,
      (
        stop_observer-IsSteady w clock config,
        (
          perform_and-IsSteady w clock evaluate (with_evaluation w) (λ m. same w clock m),
          (perform_and-IsSteady w clock report (with_report w) (λ m. same w clock m), tt),
        ),
      ),
    ),
  )

-- Under a clock that never goes back: the names of the windows that a run has recorded are the names
-- of its first phases, in their order, and each window ends no earlier than it starts and starts no
-- earlier than the one before it ended.
pub run-Chronological :
    (engine : Engine) (w : World) (config : Config)
    → ((h : List Call) (c : Call) → w.monotonic h ≤ w.monotonic (c ∷ h))
    → let m = (run engine w config new_lifecycle).1 in
      (left : List String) × (Chronological 0 m.state.windows (w.monotonic m.calls)
        × (names_of m.state.windows ++ left ≡ phase_names))
unfolding run measure conclude get
run-Chronological engine w config clock =
    let begun = record new_lifecycle { entered = true } in
    let phases = engine.run_steps (actions w config) begun in
    let ready = set_primary phases in
    let ended = finalize engine (finalizers w config) ready in
    raise_primary-InOrder w clock engine ended.state.primary_error ended (
      finalize-InOrder w clock engine (finalizers w config) ready
        (finalizers-AllSteady w clock config)
        (set_primary-InOrder w clock engine phases (
          run_steps-InOrder w clock engine (measured w config) begun
            (measured-AllSteady w clock config) (measured-AllDiffer w clock config)
            (refl, (refl, (refl, (refl, (refl, (refl, (refl, (refl, tt))))))))
            (omega arith, refl))))
