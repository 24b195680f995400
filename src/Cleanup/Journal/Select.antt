-- ===== src/Cleanup/Journal/Select.antt =====
-- The last part of `read_cleanup_records` on the records of one run.
use mathlib.Core.List.{reverse-cons}
use nanolab.Prelude.{
  ℕ, String, ◌≤◌, ltb, le→ltb_false, bind-ok, ◌<◌, ◌≡◌, refl, ◌≢◌, inl, inr, true, false, List, [],
  ◌∷◌, ◌++◌, arith, ◌==◌, text_equality, ok, same?_refl, Bool-cases, All, ap, All-append, reverse,
  Dict, values, tests, eq_iff,
}
use nanolab.Prelude.Dicts.{remove}
use nanolab.Cleanup.Journal.{
  Value, Entry, entry_of, order_of, insert_by_order, Line, Scan, fresh_scan, scan,
  read_cleanup_records, regular, byte_limit, sort_by_order, has_order, orders_differ, same_run,
  single_run, select_records,
}

-- `e` is what `retain` writes for `title`, at its own order and value.
abbrev pub IsOurs : String → String → Entry → Type 0
IsOurs run_id title e = e ≡ entry_of run_id (order_of e) title e.value

-- Records of one run in the order of their acquisition: the orders fall, and stay above `low`.
abbrev pub Chain : String → ℕ → Dict Entry → Type 0
Chain run_id low [] = Unit
Chain run_id low ((t, e) ∷ d) =
    IsOurs run_id t e
    × (low < order_of e)
    × All (λ p. order_of p.1 < order_of e) d
    × Chain run_id low d

module _ (run_id : String) where
  pub Chain-lower :
      (low high : ℕ) (d : Dict Entry) → low < high → Chain run_id high d → Chain run_id low d
  Chain-lower low high [] h c = tt
  Chain-lower low high ((t, e) ∷ d) h c = (c.0, omega arith, c.2, Chain-lower low high d h c.3)

  Chain-All : (low : ℕ) (d : Dict Entry) → Chain run_id low d → All (λ p. low < order_of p.1) d
  Chain-All low [] c = tt
  Chain-All low ((t, e) ∷ d) c = (c.1, Chain-All low d c.3)

  pub Chain-snoc :
      (low order : ℕ) (title : String) (value : Value) (d : Dict Entry)
      → low < order
      → Chain run_id order d
      → Chain run_id low (d ++ (title, entry_of run_id order title value) ∷ [])
  Chain-snoc low order title value [] h c = (refl, h, tt, tt)
  Chain-snoc low order title value ((t, e) ∷ d) h c =
      (c.0, omega arith, All-append _ d _ c.2 (c.1, tt), Chain-snoc low order title value d h c.3)

  All-remove :
      (n : ℕ) (title : String) (d : Dict Entry)
      → All (λ p. order_of p.1 < n) d
      → All (λ p. order_of p.1 < n) (remove title d)
  unfolding remove
  All-remove n title [] h = tt
  All-remove n title ((t, e) ∷ d) h = elim (Bool-cases (t == title)) [
    | inl same ↦ rw same (All-remove n title d h.1)
    | inr differs ↦ rw differs (h.0, All-remove n title d h.1)
  ]

  pub Chain-remove :
      (low : ℕ) (title : String) (d : Dict Entry)
      → Chain run_id low d
      → Chain run_id low (remove title d)
  unfolding remove
  Chain-remove low title [] c = tt
  Chain-remove low title ((t, e) ∷ d) c = elim (Bool-cases (t == title)) [
    | inl same ↦ rw same (Chain-remove low title d c.3)
    | inr differs ↦ rw differs (c.0, c.1, All-remove _ title d c.2, Chain-remove low title d c.3)
  ]

  same_run-Chain :
      (low : ℕ) (t : String) (e : Entry) (d : Dict Entry)
      → IsOurs run_id t e
      → Chain run_id low d
      → same_run e (values d) ≡ true
  unfolding same_run
  same_run-Chain low t e [] h c = refl
  same_run-Chain low t e ((u, f) ∷ d) h c =
      ground (arith, same_run-Chain low t e d h c.3, c.0, same?_refl run_id)

  single_run-Chain :
      (low : ℕ) (d : Dict Entry) → run_id ≢ "" → Chain run_id low d → single_run (values d) ≡ true
  unfolding single_run
  single_run-Chain low [] named c = refl
  single_run-Chain low ((t, e) ∷ d) named c =
      ground (arith, same_run-Chain low t e d c.0 c.3, c.0, eq_iff run_id "")

  has_order-below :
      (n : ℕ) (d : Dict Entry) → All (λ p. order_of p.1 < n) d → has_order n (values d) ≡ false
  unfolding has_order
  has_order-below n [] h = refl
  has_order-below n ((t, e) ∷ d) h = ground (arith, has_order-below n d h.1)

  orders_differ-Chain :
      (low : ℕ) (d : Dict Entry) → Chain run_id low d → orders_differ (values d) ≡ true
  unfolding orders_differ
  orders_differ-Chain low [] c = refl
  orders_differ-Chain low ((t, e) ∷ d) c =
      ground (arith, has_order-below (order_of e) d c.2, orders_differ-Chain low d c.3)

  insert_by_order-last :
      (e : Entry) (es : List Entry)
      → All (λ f. order_of f < order_of e) es
      → insert_by_order e es ≡ es ++ e ∷ []
  unfolding insert_by_order
  insert_by_order-last e [] h = refl
  insert_by_order-last e (f ∷ es) h = ground (arith, insert_by_order-last e es h.1)

  All-reverse :
      (n : ℕ) (d : Dict Entry)
      → All (λ p. order_of p.1 < n) d
      → All (λ f. order_of f < n) (reverse (values d))
  All-reverse n [] h = tt
  All-reverse n ((t, e) ∷ d) h =
      rw (reverse-cons e (values d))
        (All-append _ (reverse (values d)) _ (All-reverse n d h.1) (h.0, tt))

  sort_by_order-Chain :
      (low : ℕ) (d : Dict Entry)
      → Chain run_id low d
      → sort_by_order (values d) ≡ reverse (values d)
  unfolding sort_by_order
  sort_by_order-Chain low [] c = refl
  sort_by_order-Chain low ((t, e) ∷ d) c =
      rw (sort_by_order-Chain low d c.3, reverse-cons e (values d))
        (insert_by_order-last e (reverse (values d)) (All-reverse _ d c.2))

  -- Records of one run are selected in the reverse order of their acquisition.
  select_records-Chain :
      (low : ℕ) (d : Dict Entry)
      → run_id ≢ ""
      → Chain run_id low d
      → select_records (values d) ≡ ok (reverse (values d))
  unfolding select_records
  select_records-Chain low d named c =
      rw (single_run-Chain low d named c, orders_differ-Chain low d c)
        (ap ok (sort_by_order-Chain low d c))

  -- With the journal short enough, a scan that kept such records is what the reader returns.
  pub read_cleanup_records-Chain :
      (size : List Line → ℕ) (low : ℕ) (lines : List Line) (s : Scan)
      → run_id ≢ ""
      → size lines ≤ byte_limit
      → scan fresh_scan lines ≡ ok s
      → Chain run_id low s.retained
      → read_cleanup_records size (regular lines) false ≡ ok (reverse (values s.retained))
  unfolding read_cleanup_records
  read_cleanup_records-Chain size low lines s named short scanned c =
      rw (le→ltb_false _ _ short, scanned) (select_records-Chain low s.retained named c)

-- What the reader returns comes from a scan that went through.
pub read_cleanup_records-scan :
    (size : List Line → ℕ) (lines : List Line) {es : List Entry}
    → read_cleanup_records size (regular lines) false ≡ ok es
    → (s : Scan) × (scan fresh_scan lines ≡ ok s) × (size lines ≤ byte_limit)
unfolding read_cleanup_records
read_cleanup_records-scan size lines h = elim (Bool-cases (ltb byte_limit (size lines))) [
  | inl long ↦ ground arith
  | inr short ↦
      let h' = rw short at h in
      let (s, scanned, _) = bind-ok (scan fresh_scan lines) _ h' in (s, scanned, omega tests)
]
