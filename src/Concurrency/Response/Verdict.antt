-- ===== src/Concurrency/Response/Verdict.antt =====
-- When a run passes.
use nanolab.Prelude.{
  ℕ, String, ◌≤◌, ◌<◌, ◌≡◌, ◌↔◌, refl, sym, ap, ◌∙◌, inl, inr, Bool, true, Option, none, some, List,
  [], ◌∷◌, In, le-maximum, maximum-In, minimum-le, minimum-In, subst, arith, if_ind, some-injective,
  false≢true, ok,
}
use nanolab.Concurrency.Samples.{ConcurrencySample, governed_samples}
use nanolab.Concurrency.Response.{
  ConcurrencyResponse, respond, observed, judge, is_idle, is_loaded, limits, measure_response,
  summary, verify_concurrency_cycle,
}

respond-cases :
    (is ls : List ℕ) (r : ConcurrencyResponse)
    → respond is ls ≡ some r
    → In r.idle_peak is
      × In r.loaded_floor ls
      × ((v : ℕ) → In v is → v ≤ r.idle_peak)
      × ((v : ℕ) → In v ls → r.loaded_floor ≤ v)
respond-cases [] ls r h = absurd (ground arith)
respond-cases (i ∷ is) [] r h = absurd (ground arith)
respond-cases (i ∷ is) (l ∷ ls) r h =
    subst
      (λ (q : ConcurrencyResponse).
        In q.idle_peak (i ∷ is)
        × In q.loaded_floor (l ∷ ls)
        × ((v : ℕ) → In v (i ∷ is) → v ≤ q.idle_peak)
        × ((v : ℕ) → In v (l ∷ ls) → q.loaded_floor ≤ v))
      (some-injective _ _ h) (maximum-In i is, minimum-In l ls, le-maximum i is, minimum-le l ls)

respond-some :
    (is ls : List ℕ) (i l : ℕ)
    → In i is
    → In l ls
    → (r : ConcurrencyResponse) × (respond is ls ≡ some r)
respond-some [] ls i l h k = absurd h
respond-some (x ∷ is) [] i l h k = absurd k
respond-some (x ∷ is) (y ∷ ls) i l h k = (_, refl)

module _ {F : Type 0} where
  -- A sample with a limit and a test that it passes.
  abbrev Found : (ConcurrencySample F → Bool) → List (ConcurrencySample F) → ℕ → Type 0
  Found test ss v = (s : ConcurrencySample F) × In s ss × (test s ≡ true) × (v ≡ s.effective)

  Found-cons :
      (test : ConcurrencySample F → Bool) (t : ConcurrencySample F)
      (ss : List (ConcurrencySample F)) (v : ℕ)
      → Found test ss v
      → Found test (t ∷ ss) v
  Found-cons test t ss v (s, there, passes, is) = (s, inr there, passes, is)

  limits-Found :
      (test : ConcurrencySample F → Bool) (ss : List (ConcurrencySample F)) (v : ℕ)
      → In v (limits test ss)
      → Found test ss v
  unfolding limits
  limits-Found test [] v h = absurd h
  limits-Found test (t ∷ ss) v h =
      let later =
        λ (k : In v (limits test ss)). Found-cons test t ss v (limits-Found test ss v k) in
      if_ind (λ l. In v l → Found test (t ∷ ss) v) (test t) {x = t.effective ∷ limits test ss}
        (λ passes k. elim k [ inl here ↦ (t, inl refl, passes, here) | inr there ↦ later there ])
        (λ _. later) h

  limits-In :
      (test : ConcurrencySample F → Bool) (ss : List (ConcurrencySample F))
      (s : ConcurrencySample F)
      → In s ss
      → test s ≡ true
      → In s.effective (limits test ss)
  unfolding limits
  limits-In test [] s h passes = absurd h
  limits-In test (t ∷ ss) s (inl here) passes =
      if_ind (In s.effective) (test t) (λ _. inl (ap (λ x. x.effective) here))
        (λ fails. absurd (false≢true (sym fails ∙ ap test (sym here) ∙ passes)))
  limits-In test (t ∷ ss) s (inr there) passes =
      let later = limits-In test ss s there passes in
      if_ind (In s.effective) (test t) (λ _. inr later) (λ _. later)

  -- What a response is made of: the highest limit of the idle samples, and the lowest of the loaded.
  pub record IsResponse (samples : List (ConcurrencySample F)) (r : ConcurrencyResponse)
      : Type 0 where
    pub idle : Found is_idle samples r.idle_peak
    pub loaded : Found is_loaded samples r.loaded_floor
    pub highest :
        (s : ConcurrencySample F) → In s samples → is_idle s ≡ true → s.effective ≤ r.idle_peak
    pub lowest :
        (s : ConcurrencySample F) → In s samples → is_loaded s ≡ true → r.loaded_floor ≤ s.effective

  -- A response is the highest limit of an idle sample and the lowest of a loaded one.
  pub measure_response-IsResponse :
      (samples : List (ConcurrencySample F)) (r : ConcurrencyResponse)
      → measure_response samples ≡ some r
      → IsResponse samples r
  unfolding measure_response
  measure_response-IsResponse samples r h =
      let (idle, loaded, highest, lowest) =
        respond-cases (limits is_idle samples) (limits is_loaded samples) r h in
      record {
        idle = limits-Found is_idle samples _ idle;
        loaded = limits-Found is_loaded samples _ loaded;
        highest = λ s there passes. highest _ (limits-In is_idle samples s there passes);
        lowest = λ s there passes. lowest _ (limits-In is_loaded samples s there passes);
      }

  -- Two samples that show the governor giving ground: an idle one, and a loaded one with a lower limit.
  pub record Ground (samples : List (ConcurrencySample F)) : Type 0 where
    pub idle : ConcurrencySample F
    pub loaded : ConcurrencySample F
    pub idle_in : In idle samples
    pub loaded_in : In loaded samples
    pub is_idle : idle.in_flight < idle.effective
    pub is_loaded : (1 ≤ loaded.effective) × (loaded.effective ≤ loaded.in_flight)
    pub lower : loaded.effective < idle.effective

  passing :
      (ss : List (ConcurrencySample F)) (o : Option ConcurrencyResponse)
      → judge (observed ss o) ≡ ok tt
      → (r : ConcurrencyResponse) × (o ≡ some r) × (r.loaded_floor < r.idle_peak)
  passing [] o h = absurd (ground arith)
  passing (s ∷ ss) none h = absurd (ground arith)
  passing (s ∷ ss) (some r) h = (r, refl, ground arith)

  passes :
      (ss : List (ConcurrencySample F)) (r : ConcurrencyResponse) (o : Option ConcurrencyResponse)
      → o ≡ some r
      → r.loaded_floor < r.idle_peak
      → (ss ≡ [] → ⊥)
      → judge (observed ss o) ≡ ok tt
  passes [] r o h lower some_samples = absurd (some_samples refl)
  passes (s ∷ ss) r o h lower some_samples = ground arith

  -- A run passes exactly when, among its governed samples, some sample at saturation has a limit
  -- strictly below that of some idle sample.
  pub verify_concurrency_cycle_iff :
      (function_name : String) (samples : List (ConcurrencySample F)) (errors : List String)
      → (verify_concurrency_cycle (summary function_name samples errors) ≡ ok tt)
        ↔ Ground (governed_samples samples)
  unfolding verify_concurrency_cycle summary
  verify_concurrency_cycle_iff function_name samples errors = (forth, back)
    where
      forth :
          (verify_concurrency_cycle (summary function_name samples errors) ≡ ok tt)
          → Ground (governed_samples samples)
      forth h =
          let (r, measured, lower) =
            passing samples (measure_response (governed_samples samples)) h in
          let (i, i_in, i_idle, i_is) =
            (measure_response-IsResponse (governed_samples samples) r measured).idle in
          let (l, l_in, l_loaded, l_is) =
            (measure_response-IsResponse (governed_samples samples) r measured).loaded in
          record {
            idle = i;
            loaded = l;
            idle_in = i_in;
            loaded_in = l_in;
            is_idle = ground arith;
            is_loaded = (ground arith, ground arith);
            lower = omega arith;
          }

      back :
          Ground (governed_samples samples)
          → verify_concurrency_cycle (summary function_name samples errors) ≡ ok tt
      back g =
          let (r, measured) =
            respond-some _ _ _ _
              (limits-In is_idle (governed_samples samples) g.idle g.idle_in (ground arith))
              (limits-In is_loaded (governed_samples samples) g.loaded g.loaded_in
                (ground arith)) in
          let m : measure_response (governed_samples samples) ≡ some r =
            unfold measure_response in measured in
          let ir = measure_response-IsResponse (governed_samples samples) r m in
          passes samples r _ m
            (omega (
              arith,
              ir.highest g.idle g.idle_in (ground arith),
              ir.lowest g.loaded g.loaded_in (ground arith),
            ))
            (λ empty.
              unfold governed_samples in
              subst (λ l. In g.idle (governed_samples l)) empty g.idle_in)
