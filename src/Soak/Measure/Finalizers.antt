-- ===== src/Soak/Measure/Finalizers.antt =====
-- The last calls of a run: no failure keeps a finalizer from being attempted.
pub mod Order
use nanolab.Prelude.{
  ℕ, Bool, true, false, not, ◌&&◌, Option, none, some, List, [], ◌∷◌, ◌++◌, map, String, ok, err,
  ◌≡◌, refl, sym, ◌∙◌, ap, arith, All, Result, subst, if_ind, text_equality, ◌==◌, if◌then◌else◌,
}
use nanolab.Soak.Lifecycle.{
  Failure, Call, preflight, prerequisites, evaluate, report, read_clock, ask_cancelled,
  set_cancelled, baseline_capture, final_capture, driver_stop, observer_stop, wait_until,
  load_and_switch, observer_start, set_phase, driver_factory, driver_run, write_terminal, Side,
  loading, switching, Race, Evaluation, dictionary, other, World, Config, LifecycleState, Lifecycle,
  aborted, new_state, new_lifecycle, Done, Action, and_then, logged, with_window,
  with_workload_receipt, without_driver, with_driver, observer_started, observer_ended, interrupt,
  error_of, raising, side_error, first_of, outcome, perform, perform_and,
}
use nanolab.Soak.Lifecycle.Phases.{
  stop_driver, check_cancelled, end_phase, enter_phase, in_phase, wait, natural, observe_load,
  run_driver, keep_switch, cancel_on, keep_load, keep_receipts, stop_generator, stop_observer,
  load_under_switching, generate, load,
}
use nanolab.Soak.Measure.{
  Engine, restarted, with_evaluation, with_report, measured, actions, finalizers, noting,
  record_error, keep_error, set_primary, note_of, with_notes, raise_primary, conclude, finalize,
  measure, run,
}

-- The observer was told to start.
unfoldable pub started : List Call → Bool
started [] = false
started (observer_start phase ∷ h) = true
started (c ∷ h) = started h

-- The flags of the observer say what was called.
abbrev pub Watched : Lifecycle → Type 0
Watched l = (l.observer_attempted ≡ started l.calls) × (l.observer_stopped ≡ false)

abbrev pub Watches : Action → Type 0
Watches a = (l : Lifecycle) → Watched l → Watched (a l).1

abbrev plain : Call → Bool
plain (observer_start phase) = false
plain _ = true

logged-Watched : (c : Call) (l : Lifecycle) → plain c ≡ true → Watched l → Watched (logged c l)
unfolding started
logged-Watched c l p h = ground arith

pub and_then-Watched :
    (d : Done) (next : Action) → Watched d.1 → Watches next → Watched (and_then d next).1
and_then-Watched (err e, m) next h k = h
and_then-Watched (ok _, m) next h k = k m h

module _ (w : World) where
  perform-Watches : (c : Call) → plain c ≡ true → Watches (perform w c)
  unfolding perform
  perform-Watches c p l h = logged-Watched c l p h

  perform_and-Watches :
      (c : Call) (keep : Lifecycle → Lifecycle)
      → plain c ≡ true
      → Watches (λ m. (ok tt, keep m))
      → Watches (perform_and w c keep)
  unfolding perform_and
  perform_and-Watches c keep p k l h =
      and_then-Watched (perform w c l) (λ m. (ok tt, keep m)) (perform-Watches c p l h) k

  in_phase-Watches : (name : String) (a : Action) → Watches a → Watches (in_phase w name a)
  unfolding in_phase check_cancelled
  in_phase-Watches name a k l h =
      and_then-Watched (perform w ask_cancelled l) (enter_phase w name a)
        (perform-Watches ask_cancelled refl l h)
        λ m s.
          let inner = record m { state = record m.state { phase = name } } in
          logged-Watched read_clock (a (logged read_clock inner)).1 refl
            (k (logged read_clock inner) (logged-Watched read_clock inner refl s))

  natural-Watches : (phase : String) (duration : ℕ) → Watches (natural w phase duration)
  unfolding natural wait
  natural-Watches phase duration l h =
      and_then-Watched (perform w (set_phase phase) l) _
        (perform-Watches (set_phase phase) refl l h)
        λ m s. perform-Watches _ refl (logged read_clock m) (logged-Watched read_clock m refl s)

  observe_load-Watches : (phase : String) → Watches (observe_load w phase)
  unfolding perform started
  observe_load-Watches phase l h =
      if_ind (λ d. Watched d.1) (phase == "warmup")
        {x = perform w (observer_start "warmup") (observer_started l)}
        {y = perform w (set_phase phase) l} (λ _. (refl, h.1))
        (λ _. perform-Watches (set_phase phase) refl l h)

module _ (w : World) (config : Config) where
  pub stop_generator-Watches : Watches (stop_generator w config)
  unfolding stop_generator
  stop_generator-Watches l h = go l.driver
    where
      go : (o : Option String) → Watched (stop_driver w config o l).1
      go none = h
      go (some _) = perform_and-Watches w _ without_driver refl (λ m s. s) l h

  keep_receipts-Watched :
      (b : Bool) (r : Race) (l : Lifecycle) → Watched l → Watched (keep_receipts config b r l)
  unfolding keep_receipts
  keep_receipts-Watched b r l h = go b r.load r.switch
    where
      go :
          (b : Bool) (x y : Result Failure String)
          → Watched (keep_load config b x (keep_switch y l))
      go b (ok p) (ok q) = h
      go b (ok p) (err q) = h
      go true (err p) (ok q) = h
      go true (err p) (err q) = h
      go false (err p) (ok q) = h
      go false (err p) (err q) = h

  load_under_switching-Watches : (duration : ℕ) → Watches (load_under_switching w config duration)
  unfolding load_under_switching
  load_under_switching-Watches duration l h =
      keep_receipts-Watched _ (w.race l.calls) _
        (cancelled (first_of (w.race l.calls) (w.race l.calls).done))
    where
      cancelled : (o : Option Failure) → Watched (cancel_on o (logged (load_and_switch duration) l))
      cancelled none = logged-Watched (load_and_switch duration) l refl h
      cancelled (some e) =
          logged-Watched set_cancelled (logged (load_and_switch duration) l) refl
            (logged-Watched (load_and_switch duration) l refl h)

  generate-Watches : (phase : String) (duration : ℕ) → Watches (generate w config phase duration)
  generate-Watches phase duration l h =
      if_ind (λ d. Watched d.1) (phase == "steady" && config.under_load)
        {x = load_under_switching w config duration l} {y = run_driver w phase duration l}
        (λ _. load_under_switching-Watches duration l h)
        (λ _. perform_and-Watches w (driver_run phase duration) _ refl (λ m s. s) l h)

  load-Watches : (phase : String) (duration : ℕ) → Watches (load w config phase duration)
  unfolding load check_cancelled
  load-Watches phase duration l h =
      and_then-Watched (observe_load w phase l) _ (observe_load-Watches w phase l h) λ m s.
        and_then-Watched (perform w (driver_factory phase) m) _ (perform-Watches w _ refl m s)
          λ n s.
            and_then-Watched (generate w config phase duration (with_driver phase n)) _
              (generate-Watches phase duration (with_driver phase n) s)
              λ o s.
                and_then-Watched (stop_generator w config o) _ (stop_generator-Watches o s)
                  (perform-Watches w ask_cancelled refl)

abbrev pub AllWatch : List (String × Action) → Type 0
AllWatch = All (λ step. Watches step.1)

pub actions-AllWatch : (w : World) (config : Config) → AllWatch (actions w config)
actions-AllWatch w config = (
  phased _ _ (perform-Watches w _ refl),
  (
    phased _ _ (perform-Watches w _ refl),
    (
      phased _ _ (load-Watches w config _ _),
      (
        phased _ _ (natural-Watches w _ _),
        (
          phased _ _ (natural-Watches w _ _),
          (
            phased _ _ (perform-Watches w _ refl),
            (phased _ _ (load-Watches w config _ _), (phased _ _ (natural-Watches w _ _), tt)),
          ),
        ),
      ),
    ),
  ),
)
  where
    phased : (name : String) (a : Action) → Watches a → Watches (in_phase w name a)
    phased = in_phase-Watches w
