-- ===== src/Soak/Terminal/Verdict.antt =====
-- When a terminal run returns, and what it has frozen.
use nanolab.Prelude.{
  true, not, Option, none, some, ◌∷◌, String, Result, ok, err, ◌≡◌, ◌==◌, text_equality, eq_iff,
  arith, if_ind, false≢true, subst, refl, sym, ◌∙◌, ap, ◌↔◌,
}
use mathlib.Core.Option
use nanolab.Soak.Lifecycle.{
  Failure, Call, write_terminal, Evaluation, dictionary, other, World, Config, Lifecycle,
  new_lifecycle, Done, logged, error_of, raising, outcome, perform,
}
use nanolab.Soak.Measure.{Engine, with_notes, run}
use nanolab.Soak.Measure.Failures.{or_else, first_failure}
use nanolab.Soak.Measure.Raised.{Raises, run-first}
use nanolab.Soak.Terminal.{
  verdict, supported, write_terminal_receipt, status_of, terminal_status, surface, freeze,
  run_terminal,
}

status_of-supported : (e : Evaluation) → supported (status_of e) ≡ true
unfolding status_of supported
status_of-supported (dictionary (some s)) =
    if_ind (λ t. supported t ≡ true) (supported s) (λ h. h) (λ _. refl)
status_of-supported (dictionary none) = refl
status_of-supported other = refl

terminal_status-supported :
    (o : Option Failure) (s : String) → supported s ≡ true → supported (terminal_status o s) ≡ true
unfolding terminal_status supported
terminal_status-supported none s h = h
terminal_status-supported (some e) s h =
    if_ind (λ t. supported t ≡ true) (not e.is_exception) (λ _. refl)
      (λ _. if_ind (λ t. supported t ≡ true) (s == "PASS") (λ _. refl) (λ _. h))

status_of-pass : (e : Evaluation) → status_of e ≡ "PASS" → e ≡ dictionary (some "PASS")
unfolding status_of supported
status_of-pass (dictionary (some s)) h =
    if_ind (λ t. t ≡ "PASS" → dictionary (some s) ≡ dictionary (some "PASS")) (supported s)
      (λ _ k. ap (λ t. dictionary (some t)) k)
      (λ _ k. ground (arith, k, eq_iff "INCONCLUSIVE" "PASS")) h
status_of-pass (dictionary none) h = ground (arith, eq_iff "INCONCLUSIVE" "PASS")
status_of-pass other h = ground (arith, eq_iff "INCONCLUSIVE" "PASS")

terminal_status-pass :
    (o : Option Failure) (s : String) → terminal_status o s ≡ "PASS" → (o ≡ none) × (s ≡ "PASS")
unfolding terminal_status
terminal_status-pass none s h = (refl, h)
terminal_status-pass (some e) s h =
    if_ind (λ t. t ≡ "PASS" → (some e ≡ none) × (s ≡ "PASS")) (not e.is_exception)
      (λ _ k. ground (arith, k, eq_iff "ABORTED" "PASS"))
      (λ _.
        if_ind (λ t. t ≡ "PASS" → (some e ≡ none) × (s ≡ "PASS")) (s == "PASS")
          (λ _ k. ground (arith, k, eq_iff "INCONCLUSIVE" "PASS"))
          (λ n k. ground (arith, n, k, eq_iff s "PASS")))
      h

verdict-unchanged : (s : String) (l : Lifecycle) → (verdict s l).1 ≡ l
unfolding verdict
verdict-unchanged s l =
    if_ind {A = Done} (λ d. d.1 ≡ l) (s == "ABORTED") (λ _. refl)
      (λ _. if_ind {A = Done} (λ d. d.1 ≡ l) (s == "PASS") (λ _. refl) (λ _. refl))

verdict-passed : (s : String) (l : Lifecycle) → ((verdict s l).0 ≡ ok tt) ↔ (s ≡ "PASS")
unfolding verdict
verdict-passed s l = (
  if_ind {A = Done} (λ d. d.0 ≡ ok tt → s ≡ "PASS") (s == "ABORTED") (λ _ k. ground arith)
      (λ _.
        if_ind {A = Done} (λ d. d.0 ≡ ok tt → s ≡ "PASS") (s == "PASS")
          (λ p _. (eq_iff s "PASS").0 p) (λ _ k. ground arith)),
  λ k. subst (λ t. (verdict t l).0 ≡ ok tt) (sym k) refl,
)

module _ (w : World) where
  written :
      (s : String) (path reason : Option String) (l : Lifecycle)
      → supported s ≡ true
      → write_terminal_receipt w s path reason l ≡ perform w (write_terminal s path reason) l
  unfolding write_terminal_receipt
  written s path reason l h =
      if_ind (λ d. d ≡ perform w (write_terminal s path reason) l) (supported s) (λ _. refl)
        (λ n. absurd (false≢true (sym n ∙ h)))

  surface-unchanged :
      (o : Option Failure) (s : String) (r : Result Failure (Unit {0})) (l : Lifecycle)
      → (surface o s (r, l)).1 ≡ l
  unfolding surface
  surface-unchanged (some e) s (err f) l = refl
  surface-unchanged none s (err f) l = refl
  surface-unchanged none s (ok _) l = verdict-unchanged s l
  surface-unchanged (some e) s (ok _) l = verdict-unchanged s l

-- A run that raised never returns; another does where the receipt is written and the status is PASS.
surface-returns :
    (r : Result Failure (Unit {0})) (o : Option Failure) (g : Failure → Failure)
    (x : Result Failure (Unit {0})) (s : String) (l : Lifecycle)
    → r ≡ raising (Option.map g o)
    → ((surface (error_of r) (terminal_status (error_of r) s) (x, l)).0 ≡ ok tt)
      ↔ ((or_else o (error_of x) ≡ none) × (s ≡ "PASS"))
unfolding surface terminal_status
surface-returns (ok _) none g (ok _) s l h =
    (λ k. (refl, (verdict-passed s l).0 k), λ k. (verdict-passed s l).1 k.1)
surface-returns (ok _) none g (err f) s l h = (λ k. ground arith, λ k. ground arith)
surface-returns (ok _) (some e) g x s l h = ground arith
surface-returns (err e) none g x s l h = ground arith
surface-returns (err e) (some f) g (err _) s l h = (λ k. ground arith, λ k. ground arith)
surface-returns (err e) (some f) g (ok _) s l h = (λ k. absurd (never k), λ k. ground arith)
  where
    never : (verdict (terminal_status (some e) s) l).0 ≡ ok tt → ⊥
    never k = ground (arith, (terminal_status-pass (some e) s ((verdict-passed _ l).0 k)).0)

-- What a run that ended in (r, l) freezes: the status, where every status is a supported one.
abbrev pub frozen_status : Done → String
frozen_status (r, l) = terminal_status (error_of r) (status_of l.state.evaluation)

frozen_status-supported : (d : Done) → supported (frozen_status d) ≡ true
frozen_status-supported (r, l) =
    terminal_status-supported (error_of r) (status_of l.state.evaluation)
      (status_of-supported l.state.evaluation)

abbrev pub receipt_call : Done → Call
receipt_call (r, l) =
    write_terminal (frozen_status (r, l)) l.state.report (Option.map (λ e. e.message) (error_of r))

module _ (w : World) where
  freeze_lem :
      (d : Done)
      → freeze w d ≡ surface (error_of d.0) (frozen_status d) (perform w (receipt_call d) d.1)
  freeze_lem (r, l) =
      ap (surface (error_of r) (frozen_status (r, l)))
        (written w _ l.state.report _ l (frozen_status-supported (r, l)))

  freeze-logged : (d : Done) → (freeze w d).1 ≡ logged (receipt_call d) d.1
  unfolding perform
  freeze-logged d =
      ap (λ e. e.1) (freeze_lem d) ∙ surface-unchanged w _ _ _ (logged (receipt_call d) d.1)

  freeze-returns :
      (d : Done)
      → Raises w d
      → ((freeze w d).0 ≡ ok tt) ↔ (
          (first_failure w (freeze w d).1.calls ≡ none)
          × ((freeze w d).1.state.evaluation ≡ dictionary (some "PASS")))
  unfolding perform first_failure status_of supported
  freeze-returns d h =
      let l = d.1 in
      let c = receipt_call d in
      let after = freeze-logged d in
      let key =
        surface-returns d.0 (first_failure w l.calls) (with_notes l.state.secondary_errors)
          (outcome w l.calls c) (status_of l.state.evaluation) (logged c l) h in
      (
        (λ k.
            let held = key.0 (sym (ap (λ e. e.0) (freeze_lem d)) ∙ k) in
            (
              ap (λ m. first_failure w m.calls) after ∙ held.0,
              ap (λ m. m.state.evaluation) after ∙ status_of-pass l.state.evaluation held.1,
            )),
        (λ k.
            ap (λ e. e.0) (freeze_lem d)
            ∙ key.1 (
              sym (ap (λ m. first_failure w m.calls) after) ∙ k.0,
              ap status_of (sym (ap (λ m. m.state.evaluation) after) ∙ k.1),
            )),
      )

  frozen_pass :
      (d : Done)
      → Raises w d
      → frozen_status d ≡ "PASS"
      → (first_failure w d.1.calls ≡ none) × (d.1.state.evaluation ≡ dictionary (some "PASS"))
  frozen_pass (r, l) h k =
      let fine = terminal_status-pass (error_of r) (status_of l.state.evaluation) k in
      (go r (first_failure w l.calls) h fine.0, status_of-pass l.state.evaluation fine.1)
    where
      go :
          (r : Result Failure (Unit {0})) (o : Option Failure)
          → r ≡ raising (Option.map (with_notes l.state.secondary_errors) o)
          → error_of r ≡ none
          → o ≡ none
      go r none h k = refl
      go (ok _) (some e) h k = ground arith
      go (err f) (some e) h k = ground arith

module _ (engine : Engine) (w : World) (config : Config) where
  -- A terminal run from the start returns exactly when none of its calls failed, the publication of
  -- its receipt included, and the evaluation says PASS.
  pub run_terminal-returns :
      let d = run_terminal engine w config new_lifecycle in
      (d.0 ≡ ok tt)
      ↔ ((first_failure w d.1.calls ≡ none) × (d.1.state.evaluation ≡ dictionary (some "PASS")))
  unfolding run_terminal
  run_terminal-returns =
      freeze-returns w (run engine w config new_lifecycle) (run-first engine w config)

  -- However a run from the start ends, the last call of the terminal run is one attempt to freeze a
  -- supported status, with the report that was made and the reason of the failure.
  pub run_terminal-frozen :
      let d = run engine w config new_lifecycle in
      ((run_terminal engine w config new_lifecycle).1.calls ≡ receipt_call d ∷ d.1.calls)
      × (supported (frozen_status d) ≡ true)
  unfolding run_terminal
  run_terminal-frozen =
      let d = run engine w config new_lifecycle in
      (ap (λ m. m.calls) (freeze-logged w d), frozen_status-supported d)

  -- PASS is frozen only for a run from the start of whose calls none failed, and whose evaluation says
  -- PASS.
  pub run-frozen_pass :
      let d = run engine w config new_lifecycle in
      frozen_status d ≡ "PASS"
      → (first_failure w d.1.calls ≡ none) × (d.1.state.evaluation ≡ dictionary (some "PASS"))
  run-frozen_pass = frozen_pass w (run engine w config new_lifecycle) (run-first engine w config)
