-- ===== src/Cleanup/Compose.antt =====
-- `journaled_compose_resource` of packages/nanolab/src/nanolab/tasks/soak/retention.py. The digest of
-- the Compose file, the wrapped resource and the command are outside: what they yield is an argument.
use nanolab.Prelude.{
  String, ◌≡◌, Bool, true, none, List, arith, if◌then◌else◌, ◌==◌, text_equality, Result, ok, err,
  Option-cases, subst, inl, inr, ℕ,
}
use nanolab.Prelude.Dicts.{get}
use nanolab.Cleanup.Journal.{
  Line, Value, owned_compose, Error, acquisition_failed, identity_differs, compose_file_changed,
  command_failed,
}
use nanolab.Cleanup.State.{
  CleanupState, World, Outcome, Create, Write, set_failed, failing, prepare, retain, released,
  unknown_acquisition_of, require_compose_release, restore,
}
use nanolab.Cleanup.State.Invariant.{Inv, released-Inv}
use nanolab.Cleanup.State.Recovery.{Inv-owned, require_compose_release-only}
use nanolab.Cleanup.State.Effects.{released-records, get-remove_only}

module _ (expected title : String) where
  -- `acquired` tells whether `resource.acquire` returned.
  abbrev acquire_prepared : String → Create → Bool → Write → Outcome → Outcome
  acquire_prepared digest c acquired io (ok _, w) =
      if acquired
      then retain c io title (owned_compose expected digest) w
      else (err acquisition_failed, (unknown_acquisition_of c io title w).1)
  acquire_prepared digest c acquired io (err e, w) = (err e, w)

  unfoldable pub acquire : Result Error String → Create → Bool → Write → World → Outcome
  acquire (err e) c acquired io w = (err e, w)
  acquire (ok digest) c acquired io w = acquire_prepared digest c acquired io (prepare c w)

  -- The two tests of the retained value against the project, and that of the file's digest.
  abbrev verify : Value → Result Error String → Result Error (Unit {0})
  verify (owned_compose retained digest) current =
      if retained == expected
      then elim current [
        | err e ↦ err e
        | ok d ↦ if digest == d then ok tt else err compose_file_changed
      ]
      else err identity_differs
  verify _ current = err identity_differs

  -- `stopped` tells whether the command returned.
  abbrev take_down : Bool → Write → World → Outcome
  take_down stopped io w =
      if stopped then failing (released io title w) else (err command_failed, set_failed w)

  abbrev checked : Result Error (Unit {0}) → World → Outcome → Outcome
  checked (ok _) w rest = rest
  checked (err e) w rest = (err e, w)

  unfoldable pub release : Value → Result Error String → Bool → Write → World → Outcome
  release value current stopped io w =
      checked (require_compose_release title w) w
        (checked (verify value current) w (take_down stopped io w))

  release-cases :
      (value : Value) (current : Result Error String) (stopped : Bool) (io : Write) (w : World)
      → (release value current stopped io w).0 ≡ ok tt
      → (require_compose_release title w ≡ ok tt)
        × (verify value current ≡ ok tt)
        × (stopped ≡ true)
        × ((released io title w).0 ≡ ok tt)
        × ((release value current stopped io w).1 ≡ (released io title w).1)
  unfolding release
  release-cases value current stopped io w h = ground arith

  module _ (value : Value) (current : Result Error String) (stopped : Bool) (io : Write) (w : World)
      (i : Inv w) (done : (release value current stopped io w).0 ≡ ok tt) where
    -- From a state with the ownership invariant that every sequence of calls on named titles keeps: after
    -- a Compose release that returned, a journal that reads back owes nothing at all.
    pub release-owes_nothing :
        (size : List Line → ℕ) (fresh_id : String) (st : CleanupState) (t : String)
        → restore size fresh_id (release value current stopped io w).1.file ≡ ok st
        → get t st.records ≡ none
    release-owes_nothing size fresh_id st t h =
        let (free, _, _, returned, same) = release-cases value current stopped io w done in
        let w' = (released io title w).1 in
        elim (Option-cases (get t st.records)) [
          | inl none_left ↦ none_left
          | inr (e, there) ↦
              let held =
                Inv-owned size w' (released-Inv io title w i) fresh_id st t e
                  (subst (λ (v : World). restore size fresh_id v.file ≡ ok st) same h) there in
              let gone =
                get-remove_only title w.records t (require_compose_release-only title w free) in
              absurd (ground (arith, released-records io title w returned))
        ]
