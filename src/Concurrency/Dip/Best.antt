-- ===== src/Concurrency/Dip/Best.antt =====
-- `find_dip` finds an excursion exactly when there is one, and none is clearer than its result.
use mathlib.Core.List.{foldl-append, append_assoc}
use nanolab.Prelude.{
  maximum, ℕ, ◌-◌, ◌≤◌, ◌<◌, ◌≡◌, refl, sym, ap, ◌∙◌, Bool, ◌||◌, Option, none, some, List, [], ◌∷◌,
  ◌++◌, arith, if◌then◌else◌, min, max, ltb, leb, length, length-append, subst, some-injective,
  if_ind, tests, ltb→lt,
}
use nanolab.Concurrency.Samples.{ConcurrencySample}
use nanolab.Concurrency.Dip.{
  ConcurrencyDip, weaker_side, better, visit, dip_loop, search_dip, values_of, find_dip,
}

-- `d` is a fall and a recovery of the series: its trough is one of the values, with the highest value
-- before it and the highest value after it both above.
pub record IsExcursion (values : List ℕ) (d : ConcurrencyDip) : Type 0 where
  pub first : ℕ
  pub before : List ℕ
  pub next : ℕ
  pub after : List ℕ
  pub split : values ≡ (first ∷ before) ++ d.trough ∷ next ∷ after
  pub peak : d.peak_before ≡ maximum first before
  pub recovery : d.recovery_after ≡ maximum next after
  pub fell : d.trough < d.peak_before
  pub rose : d.trough < d.recovery_after

maximum-snoc : (x : ℕ) (xs : List ℕ) (y : ℕ) → maximum x (xs ++ y ∷ []) ≡ max (maximum x xs) y
unfolding maximum
maximum-snoc x xs y = foldl-append max x xs (y ∷ [])

-- A result of at least a given clarity.
abbrev Reaches : ℕ → Option ConcurrencyDip → Type 0
Reaches n o = (d : ConcurrencyDip) × (o ≡ some d) × (n ≤ weaker_side d)

candidate-Reaches :
    (best : Option ConcurrencyDip) (c : ConcurrencyDip) → Reaches (weaker_side c) (better best c)
candidate-Reaches none c = (c, refl, omega arith)
candidate-Reaches (some b) c =
    if_ind (Reaches (weaker_side c)) (ltb (weaker_side b) (weaker_side c))
      (λ _. (c, refl, omega arith)) (λ stays. (b, refl, omega tests))

better-keeps : (n : ℕ) (b c : ConcurrencyDip) → n ≤ weaker_side b → Reaches n (better (some b) c)
better-keeps n b c h =
    if_ind (Reaches n) (ltb (weaker_side b) (weaker_side c)) (λ rises. (c, refl, omega tests))
      (λ _. (b, refl, h))

visit-keeps :
    (n : ℕ) (best : Option ConcurrencyDip) (p t r : ℕ)
    → Reaches n best
    → Reaches n (visit best p t r)
visit-keeps n best p t r (d, is_best, reaches) =
    subst (λ o. Reaches n (visit o p t r)) (sym is_best)
      (if_ind (Reaches n) (leb p t || leb r t) (λ _. (d, refl, reaches))
        (λ _. better-keeps n d _ reaches))

visit-takes :
    (best : Option ConcurrencyDip) (p t r : ℕ)
    → t < p
    → t < r
    → Reaches (min (p - t) (r - t)) (visit best p t r)
visit-takes best p t r fell rose =
    if_ind (Reaches (min (p - t) (r - t))) (leb p t || leb r t) (λ skipped. absurd (ground arith))
      (λ _. candidate-Reaches best _)

-- What is found by an index stays or gives way to a clearer excursion.
dip_loop-keeps :
    (rest : List ℕ) (n : ℕ) (best : Option ConcurrencyDip) (peak previous : ℕ)
    → Reaches n best
    → Reaches n (dip_loop best peak previous rest)
unfolding dip_loop maximum
dip_loop-keeps [] n best peak previous h = h
dip_loop-keeps (t ∷ []) n best peak previous h = h
dip_loop-keeps (t ∷ next ∷ later) n best peak previous h =
    dip_loop-keeps (next ∷ later) n _ _ t (visit-keeps n best _ t _ h)

-- The loop finds each excursion whose trough lies ahead.
dip_loop-finds :
    (xs : List ℕ) (best : Option ConcurrencyDip) (peak previous trough next : ℕ) (after : List ℕ)
    → trough < maximum (max peak previous) xs
    → trough < maximum next after
    → Reaches
        (min (maximum (max peak previous) xs - trough) (maximum next after - trough))
        (dip_loop best peak previous (xs ++ trough ∷ next ∷ after))
unfolding dip_loop maximum
dip_loop-finds [] best peak previous trough next after fell rose =
    dip_loop-keeps (next ∷ after) _ _ _ trough
      (visit-takes best (max peak previous) trough (maximum next after) fell rose)
dip_loop-finds (x ∷ []) best peak previous trough next after fell rose =
    dip_loop-finds [] _ (max peak previous) x trough next after fell rose
dip_loop-finds (x ∷ y ∷ xs) best peak previous trough next after fell rose =
    dip_loop-finds (y ∷ xs) _ (max peak previous) x trough next after fell rose

visit-IsExcursion :
    (values : List ℕ) (best : Option ConcurrencyDip) (p t r : ℕ) (d : ConcurrencyDip)
    → ((b : ConcurrencyDip) → best ≡ some b → IsExcursion values b)
    → (t < p
        → t < r
        → IsExcursion values (record { peak_before = p; trough = t; recovery_after = r }))
    → visit best p t r ≡ some d
    → IsExcursion values d
visit-IsExcursion values best p t r d old new =
    if_ind Sound (leb p t || leb r t) {x = best} (λ _. old d)
      (λ passed. better-IsExcursion best old (new (ground arith) (ground arith)))
  where
    Sound : Option ConcurrencyDip → Type 0
    Sound o = o ≡ some d → IsExcursion values d

    better-IsExcursion :
        (best : Option ConcurrencyDip)
        → ((b : ConcurrencyDip) → best ≡ some b → IsExcursion values b)
        → {c : ConcurrencyDip} → IsExcursion values c
        → Sound (better best c)
    better-IsExcursion none old {c} new h = subst (IsExcursion values) (some-injective _ _ h) new
    better-IsExcursion (some b) old {c} new h =
        if_ind Sound (ltb (weaker_side b) (weaker_side c)) {x = some c} {y = some b}
          (λ _ e. subst (IsExcursion values) (some-injective _ _ e) new) (λ _. old d) h

dip_loop-IsExcursion :
    (values rest : List ℕ) (best : Option ConcurrencyDip) (peak previous first : ℕ)
    (before : List ℕ) (d : ConcurrencyDip)
    → values ≡ (first ∷ before) ++ rest
    → max peak previous ≡ maximum first before
    → ((b : ConcurrencyDip) → best ≡ some b → IsExcursion values b)
    → dip_loop best peak previous rest ≡ some d
    → IsExcursion values d
unfolding dip_loop maximum
dip_loop-IsExcursion values [] best peak previous first before d split seen old h = old d h
dip_loop-IsExcursion values (t ∷ []) best peak previous first before d split seen old h = old d h
dip_loop-IsExcursion values (t ∷ next ∷ later) best peak previous first before d split seen old h =
    dip_loop-IsExcursion values (next ∷ later) _ (max peak previous) t first (before ++ t ∷ []) d
      (split ∙ ap (◌∷◌ first) (sym (append_assoc before (t ∷ []) (next ∷ later))))
      (omega (arith, maximum-snoc first before t))
      (λ b. visit-IsExcursion values best _ t _ b old (λ fell rose. record {
        first = first;
        before = before;
        next = next;
        after = later;
        split = split;
        peak = seen;
        recovery = refl;
        fell = fell;
        rose = rose;
      }))
      h

module _ {F : Type 0} (samples : List (ConcurrencySample F)) where
  -- What `find_dip` returns is an excursion of the series of limits.
  pub find_dip-IsExcursion :
      (d : ConcurrencyDip) → find_dip samples ≡ some d → IsExcursion (values_of samples) d
  unfolding find_dip maximum
  find_dip-IsExcursion d h = go (values_of samples) (unless (ltb (length (values_of samples)) 3) h)
    where
      unless :
          (b : Bool) {o : Option ConcurrencyDip} → (if b then none else o) ≡ some d → o ≡ some d
      unless b h = ground arith

      go : (vs : List ℕ) → search_dip vs ≡ some d → IsExcursion vs d
      go [] h = absurd (ground arith)
      go (v ∷ vs) h =
          dip_loop-IsExcursion (v ∷ vs) vs none v v v [] d refl (omega arith)
            (λ b e. absurd (ground arith)) h

  -- If the series has an excursion, `find_dip` returns one whose weaker side, of fall and recovery,
  -- is at least as large.
  pub find_dip-best :
      (e : ConcurrencyDip)
      → IsExcursion (values_of samples) e
      → (d : ConcurrencyDip) × (find_dip samples ≡ some d) × (weaker_side e ≤ weaker_side d)
  unfolding find_dip maximum
  find_dip-best e x =
      subst (λ vs. Reaches (weaker_side e) (if ltb (length vs) 3 then none else search_dip vs))
        (sym x.split)
        (if_ind (Reaches (weaker_side e))
          (ltb (length ((x.first ∷ x.before) ++ e.trough ∷ x.next ∷ x.after)) 3)
          (λ short.
            absurd (
              omega
                (tests, length-append x.before (e.trough ∷ x.next ∷ x.after), ltb→lt _ _ short)))
          (λ _. found))
    where
      once : max x.first x.first ≡ x.first
      once = omega arith

      found :
          Reaches
            (weaker_side e)
            (dip_loop none x.first x.first (x.before ++ e.trough ∷ x.next ∷ x.after))
      found =
          let fell = x.fell in
          let rose = x.rose in
          let (d, is_d, reaches) =
            dip_loop-finds x.before none x.first x.first e.trough x.next x.after
              (rw (once, ← x.peak) fell) (rw (← x.recovery) rose) in
          (d, is_d, rw (x.peak, x.recovery) (rw once at reaches))
