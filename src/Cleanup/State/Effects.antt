-- ===== src/Cleanup/State/Effects.antt =====
-- What single calls leave behind, and that a failure is never forgotten.
use nanolab.Prelude.{
  ◌||◌, String, ◌≡◌, refl, true, false, Option, none, some, List, [], ◌∷◌, arith, text_equality, ok,
  err, Dict, if_ind,
}
use nanolab.Prelude.Dicts.{get, remove}
use nanolab.Cleanup.Journal.{unknown_acquisition, Value, Entry, File, regular, preserving_platform}
use nanolab.Cleanup.State.{
  length, title_limit, leb, contains, set_failed, World, Outcome, Create, Write, written, failing,
  forget, append_to, make_file, prepare, register, then_register, retain, confirm, released,
  any_other, require_compose_release, Call, prepare_call, retain_call, released_call, unknown_call,
  call, run,
}

pub released-records :
    (io : Write) (title : String) (w : World)
    → (released io title w).0 ≡ ok tt
    → (released io title w).1.records ≡ remove title w.records
unfolding released
released-records io title w h = go (get title w.records) h
  where
    append :
        (o : Write) (f : File) (e : Entry)
        → (forget title (append_to o f e w)).0 ≡ ok tt
        → (forget title (append_to o f e w)).1.records ≡ remove title w.records
    append written (regular lines) e h = refl
    append o f e h = ground arith

    go :
        (o : Option Entry)
        → (confirm io title o w).0 ≡ ok tt
        → (confirm io title o w).1.records ≡ remove title w.records
    go none h = ground arith
    go (some e) h = append io w.file _ h

-- The only record is the platform's own: nothing is left without it.
pub get-remove_only :
    (title : String) (d : Dict Entry) (t : String)
    → any_other title d ≡ false
    → get t (remove title d) ≡ none
unfolding get remove
get-remove_only title [] t h = refl
get-remove_only title ((u, e) ∷ d) t h = ground (arith, get-remove_only title d t)

abbrev HasFailed : Outcome → Type 0
HasFailed (_, w) = w.failed ≡ true

make_file-failed :
    (c : Create) (f : File) (w : World) → w.failed ≡ true → HasFailed (make_file c f w)
unfolding make_file
make_file-failed c f w h = ground arith

append_to-failed :
    (io : Write) (f : File) (e : Entry) (w : World)
    → w.failed ≡ true
    → HasFailed (append_to io f e w)
unfolding append_to
append_to-failed io f e w h = ground arith

failing-failed : (r : Outcome) → HasFailed r → HasFailed (failing r)
failing-failed (ok _, w) h = h
failing-failed (err _, w) h = refl

prepare-failed : (c : Create) (w : World) → w.failed ≡ true → HasFailed (prepare c w)
unfolding prepare
prepare-failed c w h =
    if_ind HasFailed w.replay (λ _. h)
      (λ _. if_ind HasFailed w.prepared (λ _. h) (λ _. make_file-failed c w.file w h))

register-failed :
    (io : Write) (title : String) (value : Value) (w : World)
    → w.failed ≡ true
    → HasFailed (register io title value w)
unfolding register
register-failed io title value w h = ground arith

retain-failed :
    (c : Create) (io : Write) (title : String) (value : Value) (w : World)
    → w.failed ≡ true
    → HasFailed (retain c io title value w)
unfolding retain
retain-failed c io title value w h = go (prepare c w) (prepare-failed c w h)
  where
    go : (r : Outcome) → HasFailed r → HasFailed (then_register io title value r)
    go (ok _, w') h' = register-failed io title value w' h'
    go (err _, w') h' = h'

confirm-failed :
    (io : Write) (title : String) (o : Option Entry) (w : World)
    → w.failed ≡ true
    → HasFailed (confirm io title o w)
unfolding confirm
confirm-failed io title none w h = h
confirm-failed io title (some e) w h = go _ (append_to-failed io w.file _ w h)
  where
    go : (r : Outcome) → HasFailed r → HasFailed (forget title r)
    go (ok _, w') h' = h'
    go (err _, w') h' = refl

call-failed : (c : Call) (w : World) → w.failed ≡ true → HasFailed (call c w)
unfolding call
call-failed (prepare_call c) w h = prepare-failed c w h
call-failed (retain_call c io title value) w h = retain-failed c io title value w h
call-failed (released_call io title) w h = confirm-failed io title (get title w.records) w h
call-failed (unknown_call c io title) w h =
    retain-failed c io title unknown_acquisition (set_failed w) refl

abbrev pub HasRaised : Outcome → Type 0
HasRaised (ok _, w) = ⊥
HasRaised (err _, w) = Unit

-- A call that fails in a world: a registration that raises behind a `prepare` that returned, an
-- acknowledgement of a held title that raises, or an acquisition of unknown outcome.
abbrev pub Fails : Call → World → Type 0
Fails (prepare_call c) w = ⊥
Fails (retain_call c io title value) w =
    ((prepare c w).0 ≡ ok tt) × HasRaised (retain c io title value w)
Fails (released_call io title) w =
    ((e : Entry) × (get title w.records ≡ some e)) × HasRaised (released io title w)
Fails (unknown_call c io title) w = Unit

failing-raised : (r : Outcome) → HasRaised (failing r) → HasFailed (failing r)
failing-raised (ok _, w) h = absurd h
failing-raised (err _, w) h = refl

register-raised :
    (io : Write) (title : String) (value : Value) (w : World)
    → HasRaised (register io title value w)
    → HasFailed (register io title value w)
unfolding register
register-raised io title value w =
    if_ind (λ r. HasRaised r → HasFailed r)
      (contains title w.titles || leb title_limit (length w.titles)) (λ _ _. refl)
      (λ _. failing-raised _)

call-Fails : (c : Call) (w : World) → Fails c w → HasFailed (call c w)
unfolding call confirm
call-Fails (prepare_call c) w h = absurd h
call-Fails (retain_call c io title value) w (prepared, raised) =
    unfold retain in go (prepare c w) prepared (unfold retain in raised)
  where
    go :
        (r : Outcome)
        → r.0 ≡ ok tt
        → HasRaised (then_register io title value r)
        → HasFailed (then_register io title value r)
    go (ok _, w') h raised = register-raised io title value w' raised
    go (err _, w') h raised = absurd (ground arith)
call-Fails (released_call io title) w ((e, held), raised) =
    unfold released in go (get title w.records) held (unfold released in raised)
  where
    forget-raised : (r : Outcome) → HasRaised (forget title r) → HasFailed (forget title r)
    forget-raised (ok _, w') h = absurd h
    forget-raised (err _, w') h = refl

    go :
        (o : Option Entry)
        → o ≡ some e
        → HasRaised (confirm io title o w)
        → HasFailed (confirm io title o w)
    go none h raised = absurd (ground arith)
    go (some f) h raised = forget-raised _ raised
call-Fails (unknown_call c io title) w h =
    retain-failed c io title unknown_acquisition (set_failed w) refl

stays_closed :
    (cs : List Call) (w : World) (title : String)
    → w.failed ≡ true
    → require_compose_release title (run cs w) ≡ err preserving_platform
unfolding run
stays_closed [] w title h = unfold require_compose_release in rw h
stays_closed (c ∷ cs) w title h = stays_closed cs (call c w).1 title (call-failed c w h)

-- After a call that fails, whatever calls follow, `require_compose_release` lets no platform go. A
-- call fails if it is a registration that raises behind a `prepare` that returned, an acknowledgement
-- of a held title that raises, or an acquisition of unknown outcome.
pub require_compose_release-closed :
    (c : Call) (cs : List Call) (w : World) (title : String)
    → Fails c w
    → require_compose_release title (run (c ∷ cs) w) ≡ err preserving_platform
unfolding run
require_compose_release-closed c cs w title h =
    stays_closed cs (call c w).1 title (call-Fails c w h)
