-- ===== src/Cleanup/State/Recovery.antt =====
-- What a later process reads back from the journal of a run.
use mathlib.Core.List.{reverse-cons, foldl-append}
use nanolab.Prelude.{
  eq_iff, sym, bind-ok, inl, ◌≤◌, ℕ, String, ◌≡◌, refl, ◌∙◌, ◌≢◌, inr, true, false, some, List, [],
  ◌∷◌, ◌++◌, arith, if◌then◌else◌, ◌==◌, text_equality, reverse, values, ok, Dict, ap,
}
use nanolab.Prelude.Dicts.{get, put, get-put}
use nanolab.Cleanup.Journal.{
  symlink, Scan, fresh_scan, scan, File, missing, byte_limit, Entry, Line, missing, regular,
  fresh_scan, read_cleanup_records,
}
use nanolab.Cleanup.Journal.Select.{read_cleanup_records-scan, read_cleanup_records-Chain, Chain}
use nanolab.Cleanup.Journal.Steps.{scan-nil}
use nanolab.Cleanup.Ledger.{Agrees}
use nanolab.Cleanup.State.{
  err, any_other, require_compose_release, CleanupState, World, add_title, title_of, by_title,
  restore,
}
use nanolab.Cleanup.State.Invariant.{Inv}

-- A new object on a run directory with no journal.
abbrev pub start : String → World
start run_id = record {
  state = record {
    run_id = run_id;
    failed = false;
    records = [];
    prepared = false;
    titles = [];
    replay = false;
  };
  file = missing;
}

pub start-Inv : (run_id : String) → run_id ≢ "" → Inv (start run_id)
unfolding get
start-Inv run_id named = record {
  named = named;
  ours = λ t e h. ground arith;
  disk = inr (
    fresh_scan,
    scan-nil fresh_scan,
    record { free = λ t h. (refl, refl); owned = λ t e h. h; exact = λ h. refl; chain = tt },
  );
}

by_title-snoc :
    (es : List Entry) (e : Entry) → by_title (es ++ e ∷ []) ≡ put (title_of e) e (by_title es)
unfolding by_title
by_title-snoc es e = foldl-append add_title [] es (e ∷ [])

get-by_title :
    (run_id : String) (low : ℕ) (d : Dict Entry) (t : String)
    → Chain run_id low d
    → get t (by_title (reverse (values d))) ≡ get t d
unfolding get
get-by_title run_id low [] t c = unfold by_title in refl
get-by_title run_id low ((u, e) ∷ d) t c =
    rw (reverse-cons e (values d), by_title-snoc (reverse (values d)) e, titled)
      (get-put u t e (by_title (reverse (values d)))
        ∙ ap (λ o. if u == t then some e else o) (get-by_title run_id low d t c.3))
  where
    titled : title_of e ≡ u
    titled = ground (arith, c.0)

any_other-get :
    (title t : String) (d : Dict Entry) (e : Entry)
    → any_other title d ≡ false
    → get t d ≡ some e
    → t ≡ title
unfolding get
any_other-get title t [] e h there = ground arith
any_other-get title t ((u, f) ∷ d) e h there =
    ground (arith, eq_iff u t, eq_iff u title, any_other-get title t d e)

pub require_compose_release-only :
    (title : String) (w : World)
    → require_compose_release title w ≡ ok tt
    → any_other title w.records ≡ false
unfolding require_compose_release
require_compose_release-only title w h = ground arith

restore-file :
    (size : List Line → ℕ) (fresh_id : String) (f : File) (st : CleanupState)
    → restore size fresh_id f ≡ ok st
    → (lines : List Line) × (f ≡ regular lines)
unfolding restore read_cleanup_records
restore-file size fresh_id (regular lines) st h = (lines, refl)
restore-file size fresh_id missing st h = absurd (ground arith)
restore-file size fresh_id symlink st h = absurd (ground arith)

restore-regular :
    (size : List Line → ℕ) (fresh_id : String) (lines : List Line) (es : List Entry)
    → read_cleanup_records size (regular lines) false ≡ ok es
    → (st : CleanupState) × (restore size fresh_id (regular lines) ≡ ok st)
      × (st.records ≡ by_title es)
unfolding restore
restore-regular size fresh_id lines es h = (
  record {
    run_id = fresh_id;
    failed = false;
    records = by_title es;
    prepared = true;
    titles = [];
    replay = true;
  },
  rw h refl,
  refl,
)

restore-ok :
    (size : List Line → ℕ) (fresh_id : String) (lines : List Line) (st : CleanupState)
    → restore size fresh_id (regular lines) ≡ ok st
    → (es : List Entry) × (read_cleanup_records size (regular lines) false ≡ ok es)
      × (st.records ≡ by_title es)
unfolding restore
restore-ok size fresh_id lines st h =
    let (es, got, made) = bind-ok (read_cleanup_records size (regular lines) false) _ h in
    (es, got, ground arith)

module _ (size : List Line → ℕ) (w : World) (i : Inv w) where
  agreed :
      (lines : List Line)
      → w.file ≡ regular lines
      → w.failed ≡ false
      → (s : Scan) × (scan fresh_scan lines ≡ ok s) × Agrees w.run_id w.failed w.titles w.records s
  agreed lines e sound = elim i.disk [
    | inl (x, bad, failed) ↦ absurd (ground arith)
    | inr (s, good, a) ↦ (s, rw e at good, a)
  ]

  -- If nothing failed and the journal is not too long, the reader returns exactly the records that
  -- the object still holds, the last acquired first.
  pub Inv-read :
      (lines : List Line)
      → w.file ≡ regular lines
      → size lines ≤ byte_limit
      → w.failed ≡ false
      → read_cleanup_records size w.file false ≡ ok (reverse (values w.records))
  Inv-read lines e short sound =
      let (s, good, a) = agreed lines e sound in
      rw (e, ← a.exact sound)
        (read_cleanup_records-Chain w.run_id size _ lines s i.named short good a.chain)

  -- Then a later process restores the same ownership of every title.
  pub Inv-restore :
      (fresh_id : String) (lines : List Line)
      → w.file ≡ regular lines
      → size lines ≤ byte_limit
      → w.failed ≡ false
      → (st : CleanupState) × (restore size fresh_id w.file ≡ ok st)
        × ((t : String) → get t st.records ≡ get t w.records)
  Inv-restore fresh_id lines e short sound =
      let (s, good, a) = agreed lines e sound in
      let (st, restored, holds) =
        restore-regular size fresh_id lines _ (rw e at (Inv-read lines e short sound)) in
      (
        st,
        rw e restored,
        λ t.
            ap (get t) holds
            ∙ ap (λ d. get t (by_title (reverse (values d)))) (sym (a.exact sound))
            ∙ get-by_title w.run_id _ s.retained t a.chain
            ∙ ap (get t) (a.exact sound),
      )

  -- Whatever the system calls did: what a later process restores, the object still holds.
  pub Inv-owned :
      (fresh_id : String) (st : CleanupState) (t : String) (e : Entry)
      → restore size fresh_id w.file ≡ ok st
      → get t st.records ≡ some e
      → get t w.records ≡ some e
  Inv-owned fresh_id st t e h there =
      let (lines, q) = restore-file size fresh_id w.file st h in
      let (es, got, holds) = restore-ok size fresh_id lines st (rw q at h) in
      let (_, scanned, short) = read_cleanup_records-scan size lines got in
      elim i.disk [
        | inl (x, bad, failed) ↦
            absurd (let bad' : scan fresh_scan lines ≡ err x = rw q at bad in ground arith)
        | inr (s, good, a) ↦
            let back =
              read_cleanup_records-Chain w.run_id size _ lines s i.named short (rw q at good)
                a.chain in
            let same : es ≡ reverse (values s.retained) = ground arith in
            a.owned t e (
              sym (get-by_title w.run_id _ s.retained t a.chain)
              ∙ ap (λ l. get t (by_title l)) (sym same)
              ∙ ap (get t) (sym holds)
              ∙ there)
      ]

  -- The platform may be released only if the journal owes no other resource.
  pub Inv-owed :
      (fresh_id : String) (st : CleanupState) (title t : String) (e : Entry)
      → require_compose_release title w ≡ ok tt
      → restore size fresh_id w.file ≡ ok st
      → get t st.records ≡ some e
      → t ≡ title
  unfolding require_compose_release
  Inv-owed fresh_id st title t e free h there =
      any_other-get title t w.records e (ground arith) (Inv-owned fresh_id st t e h there)
