-- ===== src/Cleanup/Examples.antt =====
-- Small runs of the cleanup journal, and the theorems at them.
use nanolab.Prelude.{
  All, String, ◌≡◌, ◌≢◌, refl, ℕ, ◌*◌, true, false, none, some, List, [], ◌∷◌, arith, reverse,
  values, ok, err, eq_iff, length,
}
use nanolab.Prelude.Dicts.{get, put, remove}
use nanolab.Cleanup.Journal.{
  text, entry, Line, entry_of, owned_function, owned_compose, read_cleanup_records,
  preserving_platform,
}
use nanolab.Cleanup.State.{
  unsynced, World, CleanupState, created, written, Call, retain_call, released_call, run, restore,
  require_compose_release,
}
use nanolab.Cleanup.State.Recovery.{start}
use nanolab.Cleanup.State.Effects.{require_compose_release-closed}
use nanolab.Cleanup.State.Invariant.{IsNamed}
use nanolab.Cleanup.Guarantees.{
  run-read, run-restore, restore-owned, require_compose_release-owed, reached,
}
use nanolab.Cleanup.Compose.{release, release-owes_nothing}

abbrev bytes : List Line → ℕ
bytes lines = 200 * length lines

abbrev two_owned : List Call
two_owned =
    retain_call created written "compose" (owned_compose "project" "digest")
    ∷ retain_call created written "echo" (owned_function "echo")
    ∷ retain_call created written "stats" (owned_function "stats")
    ∷ released_call written "echo"
    ∷ []

machine : Unit {0}
unfolding run get put remove read_cleanup_records restore require_compose_release release
machine = tt

two_owned_read :
    read_cleanup_records bytes (run two_owned (start "r")).file false
    ≡ ok (
        entry_of "r" 999998 "stats" (owned_function "stats")
        ∷ entry_of "r" 1000000 "compose" (owned_compose "project" "digest")
        ∷ [])
unfolding machine
two_owned_read = refl

abbrev one_owned : List Call
one_owned =
    retain_call created written "compose" (owned_compose "project" "digest")
    ∷ retain_call created written "echo" (owned_function "echo")
    ∷ released_call written "echo"
    ∷ []

-- The journal of `one_owned`.
abbrev one_lines : List Line
one_lines =
    entry (entry_of "r" 1000000 "compose" (owned_compose "project" "digest"))
    ∷ entry (entry_of "r" 999999 "echo" (owned_function "echo"))
    ∷ entry (record (entry_of "r" 999999 "echo" (owned_function "echo")) { kind = text "released" })
    ∷ []

run_named : ◌≢◌ {A = String} "r" ""
run_named = ground (arith, eq_iff "r" "")

compose_named : ◌≢◌ {A = String} "compose" ""
compose_named = ground (arith, eq_iff "compose" "")

echo_named : ◌≢◌ {A = String} "echo" ""
echo_named = ground (arith, eq_iff "echo" "")

one_owned-IsNamed : All IsNamed one_owned
one_owned-IsNamed = (compose_named, (echo_named, (tt, tt)))

abbrev one_world : World
one_world = run one_owned (start "r")

abbrev one_state : CleanupState
one_state = record {
  run_id = "s";
  failed = false;
  records = ("compose", entry_of "r" 1000000 "compose" (owned_compose "project" "digest")) ∷ [];
  prepared = true;
  titles = [];
  replay = true;
}

run-read_example :
    read_cleanup_records bytes one_world.file false ≡ ok (reverse (values one_world.records))
unfolding machine
run-read_example =
    run-read bytes "r" one_owned run_named one_owned-IsNamed one_lines refl (omega arith) refl

run-restore_example :
    (st : CleanupState) × (restore bytes "s" one_world.file ≡ ok st)
    × ((t : String) → get t st.records ≡ get t one_world.records)
unfolding machine
run-restore_example =
    run-restore bytes "r" one_owned run_named one_owned-IsNamed "s" one_lines refl (omega arith)
      refl

restore-owned_example :
    get "compose" one_world.records
    ≡ some (entry_of "r" 1000000 "compose" (owned_compose "project" "digest"))
unfolding machine
restore-owned_example =
    restore-owned bytes "r" one_owned run_named one_owned-IsNamed "s" one_state "compose" _ refl
      refl

require_compose_release-owed_example : ◌≡◌ {A = String} "compose" "compose"
unfolding machine
require_compose_release-owed_example =
    require_compose_release-owed bytes "r" one_owned run_named one_owned-IsNamed "s" one_state
      "compose" "compose" (entry_of "r" 1000000 "compose" (owned_compose "project" "digest")) refl
      refl refl

require_compose_release-closed_example :
    require_compose_release "compose" (
      run
        (retain_call created unsynced "compose" (owned_compose "project" "digest") ∷ two_owned)
        (start "r"))
    ≡ err preserving_platform
unfolding machine
require_compose_release-closed_example =
    require_compose_release-closed
      (retain_call created unsynced "compose" (owned_compose "project" "digest")) two_owned
      (start "r") "compose" (refl, tt)

released_state : CleanupState
released_state = record {
  run_id = "s";
  failed = false;
  records = [];
  prepared = true;
  titles = [];
  replay = true;
}

release-owes_nothing_example : get "compose" released_state.records ≡ none
unfolding machine released_state
release-owes_nothing_example =
    release-owes_nothing "project" "compose" (owned_compose "project" "digest") (ok "digest") true
      written one_world (reached bytes "r" one_owned run_named one_owned-IsNamed) refl bytes "s"
      released_state "compose" refl
