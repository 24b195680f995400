-- ===== src/Cleanup/Guarantees.antt =====
-- What the journal of a whole run guarantees to the process that comes after it.
use nanolab.Prelude.{some, String, ◌≡◌, ◌≢◌, ◌≤◌, ℕ, List, All, false, ok, reverse, values}
use nanolab.Prelude.Dicts.{get}
use nanolab.Cleanup.Journal.{Line, Entry, regular, byte_limit, read_cleanup_records}
use nanolab.Cleanup.State.{World, Call, run, CleanupState, restore, require_compose_release}
use nanolab.Cleanup.State.Invariant.{Inv, IsNamed, run-Inv}
use nanolab.Cleanup.State.Recovery.{start, start-Inv, Inv-read, Inv-restore, Inv-owned, Inv-owed}

module _ (size : List Line → ℕ) (run_id : String) (cs : List Call) (named : run_id ≢ "")
    (titles_named : All IsNamed cs) where
  pub reached : Inv (run cs (start run_id))
  reached = run-Inv cs (start run_id) titles_named (start-Inv run_id named)

  abbrev final : World
  final = run cs (start run_id)

  -- If the run id and every title that a call registers are non-empty, the journal exists as a regular
  -- file within the reader's bound of bytes, and no call failed, then the reader returns exactly the
  -- records that the object still holds, the last acquired first.
  pub run-read :
      (lines : List Line)
      → final.file ≡ regular lines
      → size lines ≤ byte_limit
      → final.failed ≡ false
      → read_cleanup_records size final.file false ≡ ok (reverse (values final.records))
  run-read = Inv-read size final reached

  -- If the run id and every title that a call registers are non-empty, the journal exists as a regular
  -- file within the reader's bound of bytes, and no call failed, then `restore` succeeds and gives
  -- every title the record that the object still holds for it, or none where it holds none.
  pub run-restore :
      (fresh_id : String) (lines : List Line)
      → final.file ≡ regular lines
      → size lines ≤ byte_limit
      → final.failed ≡ false
      → (st : CleanupState) × (restore size fresh_id final.file ≡ ok st)
        × ((t : String) → get t st.records ≡ get t final.records)
  run-restore = Inv-restore size final reached

  -- With a non-empty run id and non-empty titles, whatever the system calls did: a record that `restore` reads back is one that the object still
  -- holds under the same title, so nothing that was released is ever cleaned up again.
  pub restore-owned :
      (fresh_id : String) (st : CleanupState) (t : String) (e : Entry)
      → restore size fresh_id final.file ≡ ok st
      → get t st.records ≡ some e
      → get t final.records ≡ some e
  restore-owned = Inv-owned size final reached

  -- With a non-empty run id and non-empty titles: where `require_compose_release` lets the platform
  -- go, whatever the system calls did before, a journal that reads back owes no resource but the platform itself.
  pub require_compose_release-owed :
      (fresh_id : String) (st : CleanupState) (title t : String) (e : Entry)
      → require_compose_release title final ≡ ok tt
      → restore size fresh_id final.file ≡ ok st
      → get t st.records ≡ some e
      → t ≡ title
  require_compose_release-owed = Inv-owed size final reached
