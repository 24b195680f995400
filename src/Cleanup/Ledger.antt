-- ===== src/Cleanup/Ledger.antt =====
-- How the ownership in memory and the ownership on disk stand to each other, and what each change of
-- one or of both does to that.
use nanolab.Prelude.{
  String, ◌-◌, ◌<◌, ◌≡◌, inl, inr, Bool, true, false, none, some, List, ◌∷◌, arith, ◌==◌,
  text_equality, contains, length, Bool-cases, Dict, eq_iff, ap,
}
use nanolab.Prelude.Dicts.{get, put, remove, get-put, get-remove, put_fresh}
use nanolab.Cleanup.Journal.{Value, Entry, entry_of, Scan}
use nanolab.Cleanup.Journal.Select.{Chain, Chain-lower, Chain-snoc, Chain-remove}
use nanolab.Cleanup.State.{title_limit}

-- The scan of the journal against the memory: nothing is on disk that the memory does not own, no
-- new title is taken on disk, and without a failure the two hold the same.
pub record Agrees (run_id : String) (failed : Bool) (titles : List String) (records : Dict Entry)
    (s : Scan) : Type 0 where
  pub free :
      (t : String)
      → contains t titles ≡ false
      → (contains t s.released ≡ false) × (get t s.retained ≡ none)
  pub owned : (t : String) (e : Entry) → get t s.retained ≡ some e → get t records ≡ some e
  pub exact : failed ≡ false → s.retained ≡ records
  pub chain : Chain run_id (title_limit - length titles) s.retained

module _ (run_id : String) (failed : Bool) (titles : List String) (records : Dict Entry) (s : Scan)
    (agrees : Agrees run_id failed titles records s) where
  pub Agrees-fail : Agrees run_id true titles records s
  Agrees-fail = record {
    free = agrees.free;
    owned = agrees.owned;
    exact = λ h. ground arith;
    chain = agrees.chain;
  }

  module _ (title : String) (value : Value) (new : contains title titles ≡ false)
      (room : length titles < title_limit) where
    abbrev made : Entry
    made = entry_of run_id (title_limit - length titles) title value

    free_tail :
        (t : String)
        → contains t (title ∷ titles) ≡ false
        → (contains t titles ≡ false) × ((title == t) ≡ false)
    free_tail t h = ground arith

    -- The record is in memory only.
    pub Agrees-claim : Agrees run_id true (title ∷ titles) (put title made records) s
    Agrees-claim = record {
      free = λ t h. agrees.free t (free_tail t h).0;
      owned = λ t e h. elim (Bool-cases (title == t)) [
        | inl same ↦ absurd (taken t e h ((eq_iff title t).0 same))
        | inr differs ↦ rw (get-put title t made records, differs) (agrees.owned t e h)
      ];
      exact = λ h. ground arith;
      chain = Chain-lower run_id _ _ s.retained (omega arith) agrees.chain;
    }
      where
        taken : (t : String) (e : Entry) → get t s.retained ≡ some e → title ≡ t → ⊥
        taken t e h same = ground (arith, agrees.free title new)

    abbrev pub adopted : Scan
    adopted = record s { retained = put title made s.retained; history = put title made s.history }

    -- The record is in memory and on disk.
    pub Agrees-adopt : Agrees run_id failed (title ∷ titles) (put title made records) adopted
    Agrees-adopt = record {
      free = λ t h.
          let (old, differs) = free_tail t h in
          (
            (agrees.free t old).0,
            rw (get-put title t made s.retained, differs) (agrees.free t old).1,
          );
      owned = λ t e h. elim (Bool-cases (title == t)) [
        | inl same ↦
            rw (get-put title t made records, same)
              (rw (get-put title t made s.retained, same) at h)
        | inr differs ↦
            rw (get-put title t made records, differs)
              (agrees.owned t e (rw (get-put title t made s.retained, differs) at h))
      ];
      exact = λ h. ap (put title made) (agrees.exact h);
      chain =
          rw (put_fresh title made s.retained (agrees.free title new).1)
            (Chain-snoc run_id _ _ title value s.retained (omega arith) agrees.chain);
    }

  module _ (title : String) (live : contains title titles ≡ true) where
    abbrev pub dropped : Scan
    dropped = record s { released = title ∷ s.released; retained = remove title s.retained }

    dropped_free :
        (t : String)
        → contains t titles ≡ false
        → (contains t (title ∷ s.released) ≡ false) × (get t (remove title s.retained) ≡ none)
    dropped_free t h =
        ground (arith, agrees.free t h, eq_iff title t, get-remove title t s.retained)

    -- The release is on disk, and its acknowledgement failed.
    pub Agrees-unacknowledged : Agrees run_id true titles records dropped
    Agrees-unacknowledged = record {
      free = dropped_free;
      owned = λ t e h. ground (arith, get-remove title t s.retained, agrees.owned t e);
      exact = λ h. ground arith;
      chain = Chain-remove run_id _ title s.retained agrees.chain;
    }

    -- The release is on disk and in memory.
    pub Agrees-drop : Agrees run_id failed titles (remove title records) dropped
    Agrees-drop = record {
      free = dropped_free;
      owned = λ t e h.
          ground
            (arith, get-remove title t s.retained, get-remove title t records, agrees.owned t e);
      exact = λ h. ap (remove title) (agrees.exact h);
      chain = Chain-remove run_id _ title s.retained agrees.chain;
    }
