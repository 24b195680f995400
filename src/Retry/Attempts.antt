-- ===== src/Retry/Attempts.antt =====
-- How many attempts are made, and how the last of them ends the call.
use nanolab.Prelude.{
  ◌≢◌, false≢true, ℕ, zero, suc, ◌+◌, ◌*◌, ◌≤◌, ◌<◌, ◌≡◌, refl, sym, ap, ◌∙◌, subst, true, false,
  not, ◌&&◌, ◌⊎◌, inl, inr, List, [], ◌∷◌, Result, ok, err, min, ◌==◌, number_equality, arith,
  if_ind, Bool-cases, nat_beq_iff,
}
use nanolab.Retry.{
  ReturnCode, absent, foreign, boolean, integer, pos, negsuc, is_dead, End, returned, raised, Trace,
  after_pause, turn, retry_from, retry_on_connection_death,
}

is_dead-code : (c : ReturnCode) → is_dead c ≡ true → c ≡ integer (negsuc 0)
unfolding is_dead
is_dead-code absent h = absurd (false≢true h)
is_dead-code foreign h = absurd (false≢true h)
is_dead-code (boolean b) h = absurd (false≢true h)
is_dead-code (integer (pos n)) h = absurd (false≢true h)
is_dead-code (integer (negsuc n)) h = ap (λ k. integer (negsuc k)) ((nat_beq_iff n 0).0 h)

alive-code : (c : ReturnCode) → is_dead c ≡ false → c ≢ integer (negsuc 0)
unfolding is_dead
alive-code c h same = false≢true (sym h ∙ ap is_dead same)

module _ {E T : Type 0} (return_code : T → ReturnCode) (operation : ℕ → Result E T) where
  -- The connection died in an attempt: it raised, or its result has the return code -1, as a number.
  abbrev pub Died : ℕ → Type 0
  Died i =
      ((e : E) × (operation i ≡ err e))
      ⊎ ((t : T) × (operation i ≡ ok t) × (return_code t ≡ integer (negsuc 0)))

  -- The pauses after the attempts from a number on, that many of them.
  abbrev pub pauses : ℕ → ℕ → List ℕ
  pauses from zero = []
  pauses from (suc n) = min (5 * from) 30 ∷ pauses (suc from) n

  -- What an attempt gave ends the call.
  abbrev pub end_of : Result E T → End E T
  end_of (err e) = raised e
  end_of (ok t) = returned t

  -- The attempts from a number on that were made: the last of them is `from + made`.
  pub record Made (from n : ℕ) (t : Trace E T) : Type 0 where
    pub made : ℕ
    pub within : made < n
    pub died_before : (i : ℕ) → from ≤ i → i < from + made → Died i
    pub ends : t.end ≡ end_of (operation (from + made))
    pub slept : t.sleeps ≡ pauses from made
    pub last_or_alive :
        (suc made ≡ n)
        ⊎ ((r : T) × (operation (from + made) ≡ ok r) × (return_code r ≢ integer (negsuc 0)))

  Made-later :
      (from n : ℕ) (t : Trace E T)
      → Died from
      → Made (suc from) n t
      → Made from (suc n) (after_pause from t)
  Made-later from n t died m = record {
    made = suc m.made;
    within = ground (arith, m.within);
    died_before = λ i a b. elim (Bool-cases (from == i)) [
      | inl here ↦ subst Died ((nat_beq_iff from i).0 here) died
      | inr later ↦ m.died_before i (ground arith) (omega arith)
    ];
    ends = m.ends ∙ ap (λ i. end_of (operation i)) moved;
    slept = ap (λ ps. min (5 * from) 30 ∷ ps) m.slept;
    last_or_alive = elim m.last_or_alive [
      | inl last ↦ inl (ap suc last)
      | inr (r, gave, alive) ↦ inr (r, ap operation (sym moved) ∙ gave, alive)
    ];
  }
    where
      moved : suc from + m.made ≡ from + suc m.made
      moved = omega arith

  zero_more : {from : ℕ} → from + 0 ≡ from
  zero_more = omega arith

  -- The first attempt is the only one.
  first :
      (from n : ℕ) (r : Result E T)
      → operation from ≡ r
      → (1 ≡ suc n)
        ⊎ ((t : T) × (operation (from + 0) ≡ ok t) × (return_code t ≢ integer (negsuc 0)))
      → Made from (suc n) (record { sleeps = []; end = end_of r })
  first from n r h last = record {
    made = 0;
    within = omega arith;
    died_before = λ i a b. absurd (omega arith);
    ends = ap end_of (sym h) ∙ ap (λ i. end_of (operation i)) (sym zero_more);
    slept = refl;
    last_or_alive = last;
  }

  turn-Made :
      (from n : ℕ) (r : Result E T) (t : Trace E T)
      → operation from ≡ r
      → (0 < n → Made (suc from) n t)
      → Made from (suc n) (turn return_code from (n == 0) r t)
  turn-Made from zero (err e) t h later = first from zero (err e) h (inl refl)
  turn-Made from zero (ok r) t h later =
      if_ind (Made from 1) (is_dead (return_code r) && not true) (λ dead. absurd (ground arith))
        (λ _. first from zero (ok r) h (inl refl))
  turn-Made from (suc n) (err e) t h later =
      if_ind (Made from (suc (suc n))) (suc n == 0) (λ last. absurd (ground arith))
        (λ _. Made-later from (suc n) t (inl (e, h)) (later (omega arith)))
  turn-Made from (suc n) (ok r) t h later =
      if_ind (Made from (suc (suc n))) (is_dead (return_code r) && not (suc n == 0))
        (λ dead.
          Made-later from (suc n) t (inr (r, h, is_dead-code (return_code r) (ground arith)))
            (later (omega arith)))
        (λ alive.
          first from (suc n) (ok r) h
            (inr (r, ap operation zero_more ∙ h, alive-code (return_code r) (ground arith))))

  retry_from-Made : (from n : ℕ) → Made from (suc n) (retry_from return_code operation from (suc n))
  unfolding retry_from
  retry_from-Made from zero =
      turn-Made from zero (operation from) _ refl (λ h. absurd (omega arith))
  retry_from-Made from (suc n) =
      turn-Made from (suc n) (operation from) _ refl (λ _. retry_from-Made (suc from) n)

  -- With at least one attempt, the call makes between one and `attempts` of them, the first being
  -- number 1: every one but the last met a dead connection and was followed by its pause, the last
  -- ends the call with its exception or its result, and unless the attempts are used up its connection
  -- was alive.
  pub retry_on_connection_death-Made :
      (attempts : ℕ)
      → 0 < attempts
      → Made 1 attempts (retry_on_connection_death return_code operation attempts)
  unfolding retry_on_connection_death
  retry_on_connection_death-Made zero h = absurd (omega arith)
  retry_on_connection_death-Made (suc n) h = retry_from-Made 1 n
