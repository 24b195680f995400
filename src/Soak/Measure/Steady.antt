-- ===== src/Soak/Measure/Steady.antt =====
-- The actions inside a phase open no window and take no time back.
use nanolab.Prelude.{
  ℕ, ◌≤◌, Bool, true, false, not, ◌&&◌, Option, none, some, List, ◌∷◌, String, Result, ok, err, ◌≡◌,
  refl, ◌∙◌, arith, if_ind, text_equality, ◌==◌,
}
use nanolab.Soak.Lifecycle.{
  Failure, Call, read_clock, ask_cancelled, set_cancelled, observer_stop, load_and_switch,
  observer_start, set_phase, driver_factory, driver_run, Race, World, Config, Lifecycle, Done,
  Action, and_then, logged, with_workload_receipt, without_driver, with_driver, observer_started,
  observer_ended, first_of, perform, perform_and,
}
use nanolab.Soak.Lifecycle.Phases.{
  check_cancelled, wait, natural, observe_load, keep_switch, cancel_on, keep_load, keep_receipts,
  stop_driver, stop_generator, stop_observer, load_under_switching, generate, load,
}

-- An action has opened no window, and its calls took no time back.
abbrev pub Steady : World → Lifecycle → Lifecycle → Type 0
Steady w l m = (m.state.windows ≡ l.state.windows) × (w.monotonic l.calls ≤ w.monotonic m.calls)

abbrev pub IsSteady : World → Action → Type 0
IsSteady w a = (l : Lifecycle) → Steady w l (a l).1

module _ (w : World)
    (clock : (h : List Call) (c : Call) → w.monotonic h ≤ w.monotonic (c ∷ h)) where
  then-Steady : (l m o : Lifecycle) → Steady w l m → Steady w m o → Steady w l o
  then-Steady l m o h k = (k.0 ∙ h.0, omega (arith, h.1, k.1))

  pub perform-IsSteady : (c : Call) → IsSteady w (perform w c)
  unfolding perform
  perform-IsSteady c l = (refl, clock l.calls c)

  and_then-Steady :
      (l : Lifecycle) (d : Done) (next : Action)
      → Steady w l d.1
      → IsSteady w next
      → Steady w l (and_then d next).1
  and_then-Steady l (err e, m) next h k = h
  and_then-Steady l (ok _, m) next h k = then-Steady l m (next m).1 h (k m)

  pub perform_and-IsSteady :
      (c : Call) (keep : Lifecycle → Lifecycle)
      → ((m : Lifecycle) → Steady w m (keep m))
      → IsSteady w (perform_and w c keep)
  unfolding perform_and
  perform_and-IsSteady c keep k l =
      and_then-Steady l (perform w c l) (λ m. (ok tt, keep m)) (perform-IsSteady c l) k

  pub same : (l : Lifecycle) → Steady w l l
  same l = (refl, omega arith)

  pub natural-IsSteady : (phase : String) (duration : ℕ) → IsSteady w (natural w phase duration)
  unfolding natural wait
  natural-IsSteady phase duration l =
      and_then-Steady l (perform w (set_phase phase) l) _ (perform-IsSteady (set_phase phase) l)
        λ m.
          then-Steady m (logged read_clock m) (wait w duration m).1 (refl, clock m.calls read_clock)
            (perform-IsSteady _ (logged read_clock m))

  module _ (config : Config) where
    pub stop_generator-IsSteady : IsSteady w (stop_generator w config)
    unfolding stop_generator
    stop_generator-IsSteady l = go l.driver
      where
        go : (o : Option String) → Steady w l (stop_driver w config o l).1
        go none = same l
        go (some _) = perform_and-IsSteady _ without_driver (λ m. same m) l

    pub stop_observer-IsSteady : IsSteady w (stop_observer w config)
    unfolding stop_observer
    stop_observer-IsSteady l =
        if_ind {A = Done} (λ d. Steady w l d.1) (l.observer_attempted && not l.observer_stopped)
          (λ _.
            perform_and-IsSteady (observer_stop config.cancellation_timeout_s) observer_ended
              (λ m. same m) l)
          (λ _. same l)

    keep_receipts-Steady :
        (b : Bool) (r : Race) (l : Lifecycle) → Steady w l (keep_receipts config b r l)
    unfolding keep_receipts
    keep_receipts-Steady b r l = go b r.load r.switch
      where
        go :
            (b : Bool) (x y : Result Failure String)
            → Steady w l (keep_load config b x (keep_switch y l))
        go b (ok p) (ok q) = same l
        go b (ok p) (err q) = same l
        go true (err p) (ok q) = same l
        go true (err p) (err q) = same l
        go false (err p) (ok q) = same l
        go false (err p) (err q) = same l

    load_under_switching-IsSteady :
        (duration : ℕ) → IsSteady w (load_under_switching w config duration)
    unfolding load_under_switching
    load_under_switching-IsSteady duration l = go (first_of race race.done)
      where
        race : Race
        race = w.race l.calls

        raced : Lifecycle
        raced = logged (load_and_switch duration) l

        kept : Option Failure → Lifecycle
        kept o =
            keep_receipts config (w.receipt_is_file (cancel_on o raced).calls) race
              (cancel_on o raced)

        go : (o : Option Failure) → Steady w l (kept o)
        go none =
            then-Steady l raced (kept none) (refl, clock l.calls (load_and_switch duration))
              (keep_receipts-Steady _ race raced)
        go (some e) =
            then-Steady l raced (kept (some e)) (refl, clock l.calls (load_and_switch duration))
              (then-Steady raced (logged set_cancelled raced) (kept (some e))
                (refl, clock raced.calls set_cancelled)
                (keep_receipts-Steady _ race (logged set_cancelled raced)))

    generate-IsSteady :
        (phase : String) (duration : ℕ) → IsSteady w (generate w config phase duration)
    generate-IsSteady phase duration l =
        if_ind {A = Done} (λ d. Steady w l d.1) (phase == "steady" && config.under_load)
          (λ _. load_under_switching-IsSteady duration l)
          (λ _.
            perform_and-IsSteady (driver_run phase duration)
              (λ m. with_workload_receipt phase (w.receipt m.calls) m) (λ m. same m) l)

    observe_load-IsSteady : (phase : String) → IsSteady w (observe_load w phase)
    observe_load-IsSteady phase l =
        if_ind {A = Done} (λ d. Steady w l d.1) (phase == "warmup")
          (λ _. perform-IsSteady (observer_start "warmup") (observer_started l))
          (λ _. perform-IsSteady (set_phase phase) l)

    pub load-IsSteady : (phase : String) (duration : ℕ) → IsSteady w (load w config phase duration)
    unfolding load check_cancelled
    load-IsSteady phase duration l =
        and_then-Steady l (observe_load w phase l) _ (observe_load-IsSteady phase l) λ m.
          and_then-Steady m (perform w (driver_factory phase) m) _
            (perform-IsSteady (driver_factory phase) m)
            λ n.
              and_then-Steady n (generate w config phase duration (with_driver phase n)) _
                (generate-IsSteady phase duration (with_driver phase n))
                λ o.
                  and_then-Steady o (stop_generator w config o) _ (stop_generator-IsSteady o)
                    (perform-IsSteady ask_cancelled)
