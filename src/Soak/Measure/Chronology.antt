-- ===== src/Soak/Measure/Chronology.antt =====
-- What a phase adds to the windows of a run, under a clock that never goes back.
use nanolab.Prelude.{
  if◌then◌else◌, ℕ, ◌≤◌, false, none, some, List, [], ◌∷◌, ◌++◌, String, ok, err, ◌≡◌, refl, sym,
  ◌∙◌, ap, arith, subst, text_equality, ◌==◌, Dict,
}
use nanolab.Prelude.Dicts.{get, put, put_fresh, get-put}
use nanolab.Soak.Lifecycle.{
  Call, read_clock, ask_cancelled, World, Lifecycle, Done, Action, and_then, logged, perform,
}
use nanolab.Soak.Lifecycle.Phases.{check_cancelled, enter_phase, in_phase}
use nanolab.Soak.Measure.Steady.{Steady, IsSteady, perform-IsSteady}

-- Each window ends no earlier than it starts and starts no earlier than the one before it ended; the
-- last one has ended by now.
abbrev pub Chronological : ℕ → Dict (ℕ × ℕ) → ℕ → Type 0
Chronological from [] now = from ≤ now
Chronological from ((name, (start, end)) ∷ windows) now =
    (from ≤ start) × (start ≤ end) × Chronological end windows now

pub Chronological-later :
    (from : ℕ) (windows : Dict (ℕ × ℕ)) (now later : ℕ)
    → now ≤ later
    → Chronological from windows now
    → Chronological from windows later
Chronological-later from [] now later h k = omega (arith, h, k)
Chronological-later from ((name, (start, end)) ∷ windows) now later h (a, b, rest) =
    (a, b, Chronological-later end windows now later h rest)

pub Chronological-append :
    (from : ℕ) (windows : Dict (ℕ × ℕ)) (now start end later : ℕ) (name : String)
    → Chronological from windows now
    → now ≤ start
    → start ≤ end
    → end ≤ later
    → Chronological from (windows ++ (name, (start, end)) ∷ []) later
Chronological-append from [] now start end later name h a b c = (omega (arith, h, a), b, c)
Chronological-append from ((k, (s, e)) ∷ windows) now start end later name (x, y, rest) a b c =
    (x, y, Chronological-append e windows now start end later name rest a b c)

-- The phases of a run in their order.
abbrev pub phase_names : List String
phase_names =
    "preflight" ∷ "prerequisites" ∷ "warmup" ∷ "baseline-drain" ∷ "baseline"
    ∷ "baseline-diagnostics" ∷ "steady" ∷ "drain" ∷ []

abbrev pub names_of : Dict (ℕ × ℕ) → List String
names_of [] = []
names_of ((name, _) ∷ windows) = name ∷ names_of windows

pub names_of-append :
    (windows : Dict (ℕ × ℕ)) (name : String) (window : ℕ × ℕ) (rest : List String)
    → names_of (windows ++ (name, window) ∷ []) ++ rest ≡ names_of windows ++ name ∷ rest
names_of-append [] name window rest = refl
names_of-append ((k, v) ∷ windows) name window rest =
    ap (λ names. k ∷ names) (names_of-append windows name window rest)

-- The windows are those of the phases before the ones that are left.
abbrev pub InOrder : World → List String → Lifecycle → Type 0
InOrder w left l =
    Chronological 0 l.state.windows (w.monotonic l.calls)
    × (names_of l.state.windows ++ left ≡ phase_names)

-- Which phases are left is known where nothing was raised.
abbrev pub Went : World → List String → Done → Type 0
Went w left (ok _, m) = InOrder w left m
Went w left (err _, m) = (others : List String) × InOrder w others m

abbrev pub InSomeOrder : World → Lifecycle → Type 0
InSomeOrder w l = (left : List String) × InOrder w left l

pub Went-some : (w : World) (left : List String) (d : Done) → Went w left d → InSomeOrder w d.1
Went-some w left (ok _, m) h = (left, h)
Went-some w left (err _, m) h = h

pub Went-any : (w : World) (left : List String) (d : Done) → InOrder w left d.1 → Went w left d
Went-any w left (ok _, m) h = h
Went-any w left (err _, m) h = (left, h)

module _ (w : World)
    (clock : (h : List Call) (c : Call) → w.monotonic h ≤ w.monotonic (c ∷ h)) where
  pub Steady-InOrder :
      (left : List String) (l m : Lifecycle) → Steady w l m → InOrder w left l → InOrder w left m
  Steady-InOrder left l m h k = (
    subst (λ ws. Chronological 0 ws (w.monotonic m.calls)) (sym h.0)
        (Chronological-later 0 l.state.windows _ _ h.1 k.0),
    ap (λ ws. names_of ws ++ left) h.0 ∙ k.1,
  )

  pub enter_phase-windows :
      (name : String) (left : List String) (a : Action) (l : Lifecycle)
      → IsSteady w a
      → InOrder w (name ∷ left) l
      → get name l.state.windows ≡ none
      → InOrder w left (enter_phase w name a l).1
  enter_phase-windows name left a l steady k new =
      let m = record l { state = record l.state { phase = name } } in
      let inner = logged read_clock m in
      let after = (a inner).1 in
      let s = steady inner in
      subst
        (λ ws.
          Chronological 0 ws (w.monotonic (read_clock ∷ after.calls))
          × (names_of ws ++ left ≡ phase_names))
        (sym (
          ap (put name (w.monotonic l.calls, w.monotonic after.calls)) s.0
          ∙ put_fresh name _ l.state.windows new))
        (
          Chronological-append 0 l.state.windows _ _ _ _ name k.0 (omega arith)
              (omega (arith, s.1, clock l.calls read_clock)) (clock after.calls read_clock),
          names_of-append l.state.windows name _ left ∙ k.1,
        )

  -- The phase has its window afterwards, if it was begun; no other name has.
  pub in_phase-InOrder :
      (name : String) (left : List String) (a : Action) (l : Lifecycle)
      → IsSteady w a
      → InOrder w (name ∷ left) l
      → get name l.state.windows ≡ none
      → Went w left (in_phase w name a l)
  unfolding in_phase check_cancelled
  in_phase-InOrder name left a l steady k new =
      go (perform w ask_cancelled l) (perform-IsSteady w clock ask_cancelled l)
    where
      go : (d : Done) → Steady w l d.1 → Went w left (and_then d (enter_phase w name a))
      go (err e, m) h = (name ∷ left, Steady-InOrder (name ∷ left) l m h k)
      go (ok _, m) h = Went-any w left (enter_phase w name a m) (
          enter_phase-windows name left a m steady (Steady-InOrder (name ∷ left) l m h k)
            (ap (get name) h.0 ∙ new))

  pub in_phase-later_name :
      (name later_name : String) (a : Action) (l : Lifecycle)
      → IsSteady w a
      → (name == later_name) ≡ false
      → get later_name l.state.windows ≡ none
      → get later_name (in_phase w name a l).1.state.windows ≡ none
  unfolding in_phase check_cancelled
  in_phase-later_name name later_name a l steady differ new =
      go (perform w ask_cancelled l) (perform-IsSteady w clock ask_cancelled l)
    where
      go :
          (d : Done)
          → Steady w l d.1
          → get later_name (and_then d (enter_phase w name a)).1.state.windows ≡ none
      go (err e, m) h = ap (get later_name) h.0 ∙ new
      go (ok _, m) h =
          let inner = logged read_clock (record m { state = record m.state { phase = name } }) in
          get-put name later_name (w.monotonic m.calls, w.monotonic (a inner).1.calls)
            (a inner).1.state.windows
          ∙ ap
              (λ b.
                if b
                then some (w.monotonic m.calls, w.monotonic (a inner).1.calls)
                else get later_name (a inner).1.state.windows)
              differ
          ∙ ap (get later_name) ((steady inner).0 ∙ h.0)
          ∙ new
