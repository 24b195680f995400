-- ===== src/Soak/Measure/Failures.antt =====
-- The failures of the calls of a run, and that each of its actions tells those of its own.
use nanolab.Prelude.{
  ◌++◌, ◌+◌, ℕ, Option, none, some, List, [], ◌∷◌, String, ok, err, ◌≡◌, refl, sym, ◌∙◌, ap,
}
use nanolab.Soak.Lifecycle.{
  evaluate, report, driver_stop, final_capture, observer_stop, perform_and, Failure, Call,
  read_clock, ask_cancelled, wait_until, set_phase, World, Lifecycle, Done, Action, and_then,
  logged, error_of, outcome, perform,
}
use nanolab.Soak.Lifecycle.Phases.{check_cancelled, enter_phase, in_phase, wait, natural}

abbrev pub or_else : Option Failure → Option Failure → Option Failure
or_else none second = second
or_else (some e) second = some e

-- The first failure of a log, which is newest first.
unfoldable pub first_failure : World → List Call → Option Failure
first_failure w [] = none
first_failure w (c ∷ h) = or_else (first_failure w h) (error_of (outcome w h c))

-- The step among the finalizers that makes a call; no other step has its failures noted by name.
abbrev pub step_of : Call → String
step_of (driver_stop _) = "stop-generator"
step_of (final_capture _) = "final-diagnostics"
step_of (observer_stop _) = "observer-stop"
step_of evaluate = "evaluate"
step_of report = "report"
step_of _ = ""

abbrev pub found : String → Option Failure → List (String × Failure)
found name none = []
found name (some e) = (name, e) ∷ []

-- All the failures of a log, the oldest first, each with the step of its call.
unfoldable pub failures : World → List Call → List (String × Failure)
failures w [] = []
failures w (c ∷ h) = failures w h ++ found (step_of c) (error_of (outcome w h c))

pub append-none : (fs : List (String × Failure)) → fs ++ [] ≡ fs
append-none [] = refl
append-none (f ∷ fs) = ap (λ gs. f ∷ gs) (append-none fs)

abbrev pub first : List (String × Failure) → Option Failure
first [] = none
first ((_, e) ∷ _) = some e

first-append :
    (fs : List (String × Failure)) (name : String) (o : Option Failure)
    → first (fs ++ found name o) ≡ or_else (first fs) o
first-append [] name none = refl
first-append [] name (some e) = refl
first-append (f ∷ fs) name o = refl

pub first-failures : (w : World) (h : List Call) → first (failures w h) ≡ first_failure w h
unfolding failures first_failure
first-failures w [] = refl
first-failures w (c ∷ h) =
    first-append (failures w h) (step_of c) (error_of (outcome w h c))
    ∙ ap (λ o. or_else o (error_of (outcome w h c))) (first-failures w h)

abbrev pub errors : Lifecycle → Option Failure × List (String × Failure)
errors l = (l.state.primary_error, l.state.secondary_errors)

-- What an action leaves after a lifecycle: its failure is that of its calls, made by the step of that
-- name, and the errors noted before stand.
abbrev pub TellsAs : World → String → Lifecycle → Done → Type 0
TellsAs w name l d =
    (failures w d.1.calls ≡ failures w l.calls ++ found name (error_of d.0))
    × (errors d.1 ≡ errors l)

abbrev pub FaithfulAs : World → String → Action → Type 0
FaithfulAs w name a = (l : Lifecycle) → TellsAs w name l (a l)

-- The same of a step whose name is not kept.
abbrev pub Tells : World → Lifecycle → Done → Type 0
Tells w l d = (name : String) × TellsAs w name l d

abbrev pub Faithful : World → Action → Type 0
Faithful w a = (l : Lifecycle) → Tells w l (a l)

module _ (w : World) where
  pub perform-FaithfulAs : (c : Call) → FaithfulAs w (step_of c) (perform w c)
  unfolding perform failures
  perform-FaithfulAs c l = (refl, refl)

  pub perform-Faithful : (c : Call) → Faithful w (perform w c)
  perform-Faithful c l = (step_of c, perform-FaithfulAs c l)

  pub and_then-Tells :
      (l : Lifecycle) (d : Done) (next : Action)
      → Tells w l d
      → Faithful w next
      → Tells w l (and_then d next)
  and_then-Tells l (err e, m) next told follows = told
  and_then-Tells l (ok _, m) next (name, told) follows =
      let (after, tells) = follows m in
      (
        after,
        (
          tells.0 ∙ ap (λ fs. fs ++ found after (error_of (next m).0)) (told.0 ∙ append-none _),
          tells.1 ∙ told.1,
        ),
      )

  pub quiet-TellsAs :
      (name : String) (l m : Lifecycle)
      → failures w m.calls ≡ failures w l.calls
      → errors m ≡ errors l
      → TellsAs w name l (ok tt, m)
  quiet-TellsAs name l m h k = (h ∙ sym (append-none _), k)

  pub quiet-Tells :
      (l m : Lifecycle)
      → failures w m.calls ≡ failures w l.calls
      → errors m ≡ errors l
      → Tells w l (ok tt, m)
  quiet-Tells l m h k = ("", quiet-TellsAs "" l m h k)

  and_then-TellsAs :
      (name : String) (l : Lifecycle) (d : Done) (keep : Lifecycle → Lifecycle)
      → TellsAs w name l d
      → ((m : Lifecycle) → ((keep m).calls ≡ m.calls) × (errors (keep m) ≡ errors m))
      → TellsAs w name l (and_then d (λ m. (ok tt, keep m)))
  and_then-TellsAs name l (err e, m) keep told h = told
  and_then-TellsAs name l (ok _, m) keep told h =
      (ap (failures w) (h m).0 ∙ told.0, (h m).1 ∙ told.1)

  pub perform_and-FaithfulAs :
      (c : Call) (keep : Lifecycle → Lifecycle)
      → ((m : Lifecycle) → ((keep m).calls ≡ m.calls) × (errors (keep m) ≡ errors m))
      → FaithfulAs w (step_of c) (perform_and w c keep)
  unfolding perform_and
  perform_and-FaithfulAs c keep h l =
      and_then-TellsAs (step_of c) l (perform w c l) keep (perform-FaithfulAs c l) h

  pub perform_and-Faithful :
      (c : Call) (keep : Lifecycle → Lifecycle)
      → ((m : Lifecycle) → ((keep m).calls ≡ m.calls) × (errors (keep m) ≡ errors m))
      → Faithful w (perform_and w c keep)
  perform_and-Faithful c keep h l = (step_of c, perform_and-FaithfulAs c keep h l)

  logged_clock : (l : Lifecycle) → failures w (logged read_clock l).calls ≡ failures w l.calls
  unfolding failures outcome
  logged_clock l = append-none _

  pub in_phase-Faithful :
      (name : String) (a : Action) → Faithful w a → Faithful w (in_phase w name a)
  unfolding in_phase check_cancelled
  in_phase-Faithful name a h l =
      and_then-Tells l _ (enter_phase w name a) (perform-Faithful ask_cancelled l) λ m.
        let inner = record m { state = record m.state { phase = name } } in
        let told = h (logged read_clock inner) in
        (
          told.0,
          (
            logged_clock (a (logged read_clock inner)).1
                ∙ told.1.0
                ∙ ap (λ fs. fs ++ found told.0 (error_of (a (logged read_clock inner)).0))
                    (logged_clock inner),
            told.1.1,
          ),
        )

  wait-Faithful : (duration : ℕ) → Faithful w (wait w duration)
  unfolding wait perform
  wait-Faithful duration l =
      let c = wait_until (w.monotonic l.calls + duration) in
      let told = perform-Faithful c (logged read_clock l) in
      (
        told.0,
        (
          told.1.0
              ∙ ap (λ fs. fs ++ found told.0 (error_of (outcome w (read_clock ∷ l.calls) c)))
                  (logged_clock l),
          told.1.1,
        ),
      )

  pub natural-Faithful : (phase : String) (duration : ℕ) → Faithful w (natural w phase duration)
  unfolding natural
  natural-Faithful phase duration l =
      and_then-Tells l _ _ (perform-Faithful (set_phase phase) l) (wait-Faithful duration)
