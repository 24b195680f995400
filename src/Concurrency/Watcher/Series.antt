-- ===== src/Concurrency/Watcher/Series.antt =====
-- What a series of polls of ConcurrencyWatcher records: nothing is lost, and what the queue refused is
-- counted once.
use nanolab.Prelude.{
  ℕ, ◌+◌, ◌≤◌, ◌≡◌, refl, ap, some, List, [], ◌∷◌, ◌++◌, String, arith, length, Result, ok, err,
  length-append,
}
use nanolab.Concurrency.Samples.{ConcurrencyReading, ConcurrencySample}
use nanolab.Concurrency.Watcher.{
  Floats, Watcher, Poll, sample, loop, rejected_since_previous, accept, new_sample, interval,
}

-- The sum of the `rejected` fields of a series.
abbrev pub total_rejected : {F : Type 0} → List (ConcurrencySample F) → ℕ
total_rejected [] = 0
total_rejected (s ∷ ss) = s.rejected + total_rejected ss

-- The reading that the watcher keeps after a scrape.
abbrev pub next_reading :
    {F : Type 0}
    → ConcurrencyReading F
    → Result String (ConcurrencyReading F)
    → ConcurrencyReading F
next_reading reading (err e) = reading
next_reading reading (ok next) = next

-- The last reading, from the one before the polls.
abbrev pub last_reading :
    {F : Type 0}
    → ConcurrencyReading F
    → List (Result String (ConcurrencyReading F))
    → ConcurrencyReading F
last_reading reading [] = reading
last_reading reading (r ∷ rs) = last_reading (next_reading reading r) rs

-- The counter of refused requests never falls from one reading to the next.
abbrev pub NeverFalls :
    {F : Type 0} → ConcurrencyReading F → List (Result String (ConcurrencyReading F)) → Type 0
NeverFalls reading [] = Unit
NeverFalls reading (r ∷ rs) =
    (reading.rejected ≤ (next_reading reading r).rejected) × NeverFalls (next_reading reading r) rs

abbrev pub scrapes : {F : Type 0} → List (Poll F) → List (Result String (ConcurrencyReading F))
scrapes [] = []
scrapes (p ∷ ps) = p.scrape ∷ scrapes ps

total_rejected-snoc :
    {F : Type 0} (ss : List (ConcurrencySample F)) (s : ConcurrencySample F)
    → total_rejected (ss ++ s ∷ []) ≡ total_rejected ss + s.rejected
total_rejected-snoc [] s = omega arith
total_rejected-snoc (x ∷ ss) s = rw (total_rejected-snoc ss s) (omega arith)

length-snoc : {A : Type 0} (xs : List A) (x : A) → length (xs ++ x ∷ []) ≡ length xs + 1
length-snoc xs x = length-append xs (x ∷ [])

module _ {F : Type 0} (floats : Floats F) where
  accept-length :
      (w : Watcher F) (now : F) (r : Result String (ConcurrencyReading F))
      → length (accept floats w now r).samples + length (accept floats w now r).errors
        ≡ length w.samples + length w.errors + 1
  accept-length w now (err e) = let grown = length-snoc w.errors e in omega arith
  accept-length w now (ok reading) =
      let grown =
        length-snoc w.samples (
          new_sample floats w now reading (interval floats w.previous w.previous_at reading now)) in
      omega arith

  -- Every poll of the loop adds one sample or one error.
  pub loop-length :
      (w : Watcher F) (polls : List (Poll F))
      → length (loop floats w polls).samples + length (loop floats w polls).errors
        ≡ length w.samples + length w.errors + length polls
  unfolding loop sample
  loop-length w [] = omega arith
  loop-length w (p ∷ ps) =
      rw (loop-length (sample floats w p) ps, accept-length w p.now p.scrape) (omega arith)

  accept-previous :
      (w : Watcher F) (before : ConcurrencyReading F) (now : F)
      (r : Result String (ConcurrencyReading F))
      → w.previous ≡ some before
      → (accept floats w now r).previous ≡ some (next_reading before r)
  accept-previous w before now (err e) p = p
  accept-previous w before now (ok reading) p = refl

  accept-rejected :
      (w : Watcher F) (before : ConcurrencyReading F) (now : F)
      (r : Result String (ConcurrencyReading F))
      → w.previous ≡ some before
      → before.rejected ≤ (next_reading before r).rejected
      → total_rejected (accept floats w now r).samples + before.rejected
        ≡ total_rejected w.samples + (next_reading before r).rejected
  accept-rejected w before now (err e) p up = refl
  accept-rejected w before now (ok reading) p up =
      let grown =
        total_rejected-snoc w.samples (
          new_sample floats w now reading (interval floats w.previous w.previous_at reading now)) in
      let counted = ap (λ o. rejected_since_previous o reading) p in omega arith

  -- If the counter of refused requests never falls, then the samples of the loop together report
  -- exactly how far it rose from the reading before the loop to the last one, failed scrapes between
  -- them or not.
  pub loop-rejected :
      (w : Watcher F) (before : ConcurrencyReading F) (polls : List (Poll F))
      → w.previous ≡ some before
      → NeverFalls before (scrapes polls)
      → total_rejected (loop floats w polls).samples + before.rejected
        ≡ total_rejected w.samples + (last_reading before (scrapes polls)).rejected
  unfolding loop sample
  loop-rejected w before [] p n = refl
  loop-rejected w before (poll ∷ ps) p (up, n) =
      let later =
        loop-rejected (sample floats w poll) (next_reading before poll.scrape) ps
          (accept-previous w before poll.now poll.scrape p) n in
      let first = accept-rejected w before poll.now poll.scrape p up in omega arith
