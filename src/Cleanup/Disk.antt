-- ===== src/Cleanup/Disk.antt =====
-- The invariant between memory and file, with a file that may have become unreadable.
use nanolab.Prelude.{
  ℕ, String, ◌-◌, ◌<◌, ◌≡◌, refl, ◌∙◌, ◌≢◌, ◌⊎◌, inl, inr, Bool, true, false, none, some, List, [],
  ◌∷◌, ◌++◌, arith, ◌==◌, text_equality, contains, length, ok, err, Bool-cases, Option-cases, Dict,
  eq_iff,
}
use nanolab.Prelude.Dicts.{get, put, remove, get-put, get-remove}
use nanolab.Cleanup.Journal.{
  text, Value, Entry, entry_of, order_of, Line, entry, corrupt, Error, invalid_json, Scan,
  fresh_scan, scan,
}
use nanolab.Cleanup.Journal.Select.{IsOurs}
use nanolab.Cleanup.Journal.Steps.{
  scan-snoc_ok, scan-snoc_err, scan-corrupt, scan-entry_of, scan-released,
}
use nanolab.Cleanup.State.{title_limit}
use nanolab.Cleanup.Ledger.{
  Agrees, Agrees-fail, Agrees-claim, adopted, Agrees-adopt, dropped, Agrees-unacknowledged,
  Agrees-drop,
}

-- Every record in memory is one that `retain` made, under a title that is not empty and is taken.
abbrev pub AllOurs : String → List String → Dict Entry → Type 0
AllOurs run_id titles records =
    (t : String) (e : Entry)
    → get t records ≡ some e
    → IsOurs run_id t e × (t ≢ "") × (contains t titles ≡ true)

-- Either the journal no longer reads, and the failure is known, or its scan agrees with the memory.
abbrev pub Disk : String → Bool → List String → Dict Entry → List Line → Type 0
Disk run_id failed titles records lines =
    ((x : Error) × (scan fresh_scan lines ≡ err x) × (failed ≡ true))
    ⊎ ((s : Scan) × (scan fresh_scan lines ≡ ok s) × Agrees run_id failed titles records s)

module _ (run_id title : String) (titles : List String) (records : Dict Entry) where
  pub AllOurs-put :
      (n : ℕ) (value : Value)
      → title ≢ ""
      → AllOurs run_id titles records
      → AllOurs run_id (title ∷ titles) (put title (entry_of run_id n title value) records)
  AllOurs-put n value named ours t e h = elim (Bool-cases (title == t)) [
    | inl same ↦
        ground (arith, get-put title t (entry_of run_id n title value) records, eq_iff title t)
    | inr differs ↦
        let h' = rw (get-put title t (entry_of run_id n title value) records, differs) at h in
        ((ours t e h').0, (ours t e h').1, ground (arith, ours t e h'))
  ]

  pub AllOurs-remove : AllOurs run_id titles records → AllOurs run_id titles (remove title records)
  AllOurs-remove ours t e h = ours t e (ground (arith, get-remove title t records))

module _ (run_id : String) (failed : Bool) (titles : List String) (records : Dict Entry)
    (lines : List Line) (disk : Disk run_id failed titles records lines) where
  pub Disk-fail : Disk run_id true titles records lines
  Disk-fail = elim disk [
    | inl (x, bad, _) ↦ inl (x, bad, refl)
    | inr (s, good, a) ↦ inr (s, good, Agrees-fail run_id failed titles records s a)
  ]

  -- A torn line makes the file unreadable, whatever is in memory.
  pub Disk-torn :
      (titles' : List String) (records' : Dict Entry)
      → Disk run_id true titles' records' (lines ++ corrupt ∷ [])
  Disk-torn titles' records' = elim disk [
    | inl (x, bad, _) ↦ inl (x, scan-snoc_err fresh_scan lines corrupt bad, refl)
    | inr (s, good, a) ↦
        inl (invalid_json, scan-snoc_ok fresh_scan lines corrupt good ∙ scan-corrupt s, refl)
  ]

  module _ (title : String) (value : Value) (named : title ≢ "")
      (new : contains title titles ≡ false) (room : length titles < title_limit) where
    abbrev made : Entry
    made = entry_of run_id (title_limit - length titles) title value

    pub Disk-claim : Disk run_id true (title ∷ titles) (put title made records) lines
    Disk-claim = elim disk [
      | inl (x, bad, _) ↦ inl (x, bad, refl)
      | inr (s, good, a) ↦
          inr (s, good, Agrees-claim run_id failed titles records s a title value new room)
    ]

    pub Disk-adopt :
        Disk run_id failed (title ∷ titles) (put title made records) (lines ++ entry made ∷ [])
    Disk-adopt = elim disk [
      | inl (x, bad, known) ↦ inl (x, scan-snoc_err fresh_scan lines (entry made) bad, known)
      | inr (s, good, a) ↦ inr (
        adopted run_id failed titles records s a title value new room,
        scan-snoc_ok fresh_scan lines (entry made) good
            ∙ scan-entry_of s run_id title _ value named (a.free title new).0 (a.free title new).1,
        Agrees-adopt run_id failed titles records s a title value new room,
      )
    ]

  module _ (title : String) (e : Entry) (ours : AllOurs run_id titles records)
      (live : get title records ≡ some e) where
    abbrev line : Line
    line = entry (record e { kind = text "released" })

    held :
        (s : Scan)
        → Agrees run_id failed titles records s
        → (get title s.retained ≡ none)
          ⊎ (get title s.retained ≡ some (entry_of run_id (order_of e) title e.value))
    held s a = elim (Option-cases (get title s.retained)) [
      | inl absent ↦ inl absent
      | inr (f, there) ↦ inr (ground (arith, a.owned title f there, ours title e live))
    ]

    step :
        (s : Scan) (a : Agrees run_id failed titles records s)
        → scan s (line ∷ [])
          ≡ ok (dropped run_id failed titles records s a title (ours title e live).2)
    step s a =
        rw ((ours title e live).0)
          (scan-released s run_id title _ _ (ours title e live).1 (held s a))

    pub Disk-unacknowledged : Disk run_id true titles records (lines ++ line ∷ [])
    Disk-unacknowledged = elim disk [
      | inl (x, bad, _) ↦ inl (x, scan-snoc_err fresh_scan lines line bad, refl)
      | inr (s, good, a) ↦ inr (
        _,
        scan-snoc_ok fresh_scan lines line good ∙ step s a,
        Agrees-unacknowledged run_id failed titles records s a title (ours title e live).2,
      )
    ]

    pub Disk-drop : Disk run_id failed titles (remove title records) (lines ++ line ∷ [])
    Disk-drop = elim disk [
      | inl (x, bad, known) ↦ inl (x, scan-snoc_err fresh_scan lines line bad, known)
      | inr (s, good, a) ↦ inr (
        _,
        scan-snoc_ok fresh_scan lines line good ∙ step s a,
        Agrees-drop run_id failed titles records s a title (ours title e live).2,
      )
    ]
