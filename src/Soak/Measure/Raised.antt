-- ===== src/Soak/Measure/Raised.antt =====
-- The failure of a whole run, and that none is lost.
use nanolab.Prelude.{
  ◌++◌, ◌<>◌, map, Result, text_equality, true, Option, none, some, List, [], ◌∷◌, String, ok, err,
  ◌≡◌, refl, sym, ◌∙◌, ap, subst,
}
use nanolab.Soak.Lifecycle.{
  and_then, Failure, World, Config, Lifecycle, new_lifecycle, Done, Action, raising,
}
use mathlib.Core.Option
use nanolab.Soak.Measure.{
  noting, raise_primary, Engine, actions, finalizers, keep_error, set_primary, with_notes, conclude,
  finalize, measure, run,
}
use nanolab.Soak.Measure.Failures.{
  first-failures, append-none, first, TellsAs, FaithfulAs, failures, errors, first_failure,
  append-none, first, first-failures, failures, found, errors, TellsAs, FaithfulAs, Tells, Faithful,
  and_then-Tells, quiet-Tells,
}
use nanolab.Soak.Measure.Actions.{
  finalizers-AllNamed, AllNamed, AllFaithful, actions-AllFaithful, finalizers-AllNamed, AllNamed,
}

-- The errors that are kept: the first failure, and each later one with its step.
abbrev Kept : Option Failure → List (String × Failure) → List (String × Failure) → Type 0
Kept none later fs = (fs ≡ []) × (later ≡ [])
Kept (some e) later fs = (name : String) × (fs ≡ (name, e) ∷ later)

abbrev Agrees : World → Lifecycle → Type 0
Agrees w l = Kept l.state.primary_error l.state.secondary_errors (failures w l.calls)

module _ (engine : Engine) (w : World) where
  run_steps-Faithful :
      (steps : List (String × Action)) → AllFaithful w steps → Faithful w (engine.run_steps steps)
  run_steps-Faithful [] h l =
      subst (Tells w l) (sym (engine.none_left l)) (quiet-Tells w l l refl refl)
  run_steps-Faithful ((name, a) ∷ rest) h l =
      subst (Tells w l) (sym (engine.in_order name a rest l))
        (and_then-Tells w l (a l) (engine.run_steps rest) (h.0 l) (run_steps-Faithful rest h.1))

  run_steps-FaithfulAs :
      (name : String) (a : Action)
      → FaithfulAs w name a
      → FaithfulAs w name (engine.run_steps ((name, a) ∷ []))
  run_steps-FaithfulAs name a h l =
      subst (TellsAs w name l) (sym (engine.in_order name a [] l)) (go (a l) (h l))
    where
      go : (d : Done) → TellsAs w name l d → TellsAs w name l (and_then d (engine.run_steps []))
      go (err e, m) told = told
      go (ok _, m) told = subst (TellsAs w name l) (sym (engine.none_left m)) told

  Kept-append :
      (name : String) (e : Failure) (o : Option Failure) (later fs : List (String × Failure))
      → Kept (some e) later fs
      → Kept (some e) (later ++ found name o) (fs ++ found name o)
  Kept-append name e o later fs (first_name, h) = (first_name, ap (λ gs. gs ++ found name o) h)

  keep_error-Agrees :
      (name : String) (l : Lifecycle) (d : Done)
      → Agrees w l
      → TellsAs w name l d
      → Agrees w (keep_error name d)
  keep_error-Agrees name l (ok _, m) h told =
      subst (Kept m.state.primary_error m.state.secondary_errors) (sym (told.0 ∙ append-none _))
        (subst (λ e. Kept e.0 e.1 (failures w l.calls)) (sym told.1) h)
  keep_error-Agrees name l (err e, m) h told =
      go m.state.primary_error refl (subst (λ e. Kept e.0 e.1 (failures w l.calls)) (sym told.1) h)
    where
      go :
          (o : Option Failure)
          → m.state.primary_error ≡ o
          → Kept o m.state.secondary_errors (failures w l.calls)
          → Agrees w (noting name e o m)
      go none same (nothing, none_later) = (
        name,
        told.0
            ∙ ap (λ fs. fs ++ (name, e) ∷ []) nothing
            ∙ ap (λ later. (name, e) ∷ later) (sym none_later),
      )
      go (some f) same k =
          subst (λ o. Kept o (m.state.secondary_errors ++ (name, e) ∷ []) (failures w m.calls))
            (sym same)
            (subst (Kept (some f) (m.state.secondary_errors ++ (name, e) ∷ [])) (sym told.0)
              (Kept-append name f (some e) m.state.secondary_errors (failures w l.calls) k))

  finalize-Agrees :
      (steps : List (String × Action)) (l : Lifecycle)
      → AllNamed w steps
      → Agrees w l
      → Agrees w (finalize engine steps l)
  unfolding finalize
  finalize-Agrees [] l h agrees = agrees
  finalize-Agrees ((name, a) ∷ rest) l h agrees =
      let step = (name, a) ∷ [] in
      finalize-Agrees rest (keep_error name (engine.run_steps step l)) h.1 (
        keep_error-Agrees name l (engine.run_steps step l) agrees
          (run_steps-FaithfulAs name a h.0 l))

  set_primary-Agrees :
      (l : Lifecycle) (d : Done)
      → errors l ≡ (none, [])
      → failures w l.calls ≡ []
      → Tells w l d
      → Agrees w (set_primary d)
  set_primary-Agrees l (ok _, m) clean fine (name, told) =
      subst (λ e. Kept e.0 e.1 (failures w m.calls)) (sym (told.1 ∙ clean))
        (told.0 ∙ append-none _ ∙ fine, refl)
  set_primary-Agrees l (err e, m) clean fine (name, told) = (
    name,
    told.0
        ∙ ap (λ fs. fs ++ (name, e) ∷ []) fine
        ∙ ap (λ later. (name, e) ∷ later) (sym (ap (λ e. e.1) (told.1 ∙ clean))),
  )

  measure-Agrees :
      (config : Config) (l : Lifecycle)
      → failures w l.calls ≡ []
      → errors l ≡ (none, [])
      → Agrees w (measure engine w config l)
  unfolding measure
  measure-Agrees config l fine clean =
      let begun = record l { entered = true } in
      let measured = engine.run_steps (actions w config) begun in
      finalize-Agrees (finalizers w config) (set_primary measured) (finalizers-AllNamed w config) (
        set_primary-Agrees begun measured clean fine
          (run_steps-Faithful (actions w config) (actions-AllFaithful w config) begun))

-- What a run raises after its calls: the first failure among them, with a note for each of the
-- secondary errors.
abbrev pub Raises : World → Done → Type 0
Raises w d =
    d.0 ≡ raising (Option.map (with_notes d.1.state.secondary_errors) (first_failure w d.1.calls))

abbrev pub text_of : String × Failure → String
text_of (name, e) = name <> ": " <> e.type_name <> ": " <> e.message

-- How a run ends that met these failures: it raises the first, with a text for each later one under
-- the name of its step behind the notes it has; it returns if there are none.
abbrev pub IsRaised : List (String × Failure) → Result Failure (Unit {0}) → Type 0
IsRaised [] r = r ≡ ok tt
IsRaised ((_, e) ∷ fs) r = r ≡ err (record e { notes = e.notes ++ map text_of fs })

abbrev pub later : List (String × Failure) → List (String × Failure)
later [] = []
later (_ ∷ fs) = fs

module _ (w : World) where
  conclude-Raises : (l : Lifecycle) → Agrees w l → Raises w (conclude l)
  unfolding conclude
  conclude-Raises l h = go l.state.primary_error h
    where
      secondary : List (String × Failure)
      secondary = l.state.secondary_errors

      raises :
          {fs : List (String × Failure)}
          → failures w l.calls ≡ fs
          → raising (Option.map (with_notes secondary) (first fs))
            ≡ raising (Option.map (with_notes secondary) (first_failure w l.calls))
      raises h =
          ap (λ o. raising (Option.map (with_notes secondary) o))
            (sym (ap first h) ∙ first-failures w l.calls)

      go :
          (o : Option Failure)
          → Kept o secondary (failures w l.calls)
          → Raises w (raise_primary o l)
      go none (nothing, _) = raises nothing
      go (some e) (name, h) = raises h

module _ (engine : Engine) (w : World) (config : Config) where
  run-Agrees : Agrees w (measure engine w config new_lifecycle)
  unfolding failures
  run-Agrees = measure-Agrees engine w config new_lifecycle refl refl

  pub run-first : Raises w (run engine w config new_lifecycle)
  unfolding run
  run-first = conclude-Raises w (measure engine w config new_lifecycle) run-Agrees
