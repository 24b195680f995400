-- ===== src/Cleanup/Journal/Steps.antt =====
-- What one more line does to the scan of a journal.
use nanolab.Prelude.{
  ℕ, String, ◌≡◌, refl, ◌≢◌, ◌⊎◌, inl, inr, false, none, some, List, [], ◌∷◌, ◌++◌, arith,
  text_equality, contains, ok, err, ◌>>=◌, same?_refl, bind-ok, Result-cases, eq_iff,
}
use nanolab.Prelude.Dicts.{get, put, remove}
use nanolab.Cleanup.Journal.{
  text, Value, Line, entry, corrupt, Error, invalid_json, Scan, entry_of, scan, scan_line,
  scan_retained, scan_released,
}

pub scan-snoc_ok :
    (s : Scan) (ls : List Line) (l : Line) {s' : Scan}
    → scan s ls ≡ ok s'
    → scan s (ls ++ l ∷ []) ≡ scan s' (l ∷ [])
unfolding scan
scan-snoc_ok s [] l h = ground arith
scan-snoc_ok s (k ∷ ls) l h =
    let (a, step, rest) = bind-ok (scan_line s k) (λ a. scan a ls) h in
    rw step (scan-snoc_ok a ls l rest)

pub scan-snoc_err :
    (s : Scan) (ls : List Line) (l : Line) {x : Error}
    → scan s ls ≡ err x
    → scan s (ls ++ l ∷ []) ≡ err x
unfolding scan
scan-snoc_err s [] l h = ground arith
scan-snoc_err s (k ∷ ls) l h = elim (Result-cases (scan_line s k)) [
  | inl (a, step) ↦ rw step (scan-snoc_err a ls l (rw (step, ◌>>=◌) at h))
  | inr (y, step) ↦ ground arith
]

pub scan-nil : (s : Scan) → scan s [] ≡ ok s
unfolding scan
scan-nil s = refl

pub scan-corrupt : (s : Scan) → scan s (corrupt ∷ []) ≡ err invalid_json
unfolding scan scan_line
scan-corrupt s = refl

-- A record of `retain` under a new title is accepted.
pub scan-entry_of :
    (s : Scan) (run_id title : String) (order : ℕ) (value : Value)
    → title ≢ ""
    → contains title s.released ≡ false
    → get title s.retained ≡ none
    → scan s (entry (entry_of run_id order title value) ∷ [])
      ≡ ok (record s {
        retained = put title (entry_of run_id order title value) s.retained;
        history = put title (entry_of run_id order title value) s.history;
      })
unfolding scan scan_line scan_retained
scan-entry_of s run_id title order value named free new = ground (arith, eq_iff title "")

-- So is the release of a record that `retain` wrote, whether or not the journal holds it.
pub scan-released :
    (s : Scan) (run_id title : String) (order : ℕ) (value : Value)
    → title ≢ ""
    → (get title s.retained ≡ none)
      ⊎ (get title s.retained ≡ some (entry_of run_id order title value))
    → scan s (entry (record (entry_of run_id order title value) { kind = text "released" }) ∷ [])
      ≡ ok (record s { released = title ∷ s.released; retained = remove title s.retained })
unfolding scan scan_line scan_released
scan-released s run_id title order value named held =
    ground (arith, eq_iff title "", same?_refl run_id)
