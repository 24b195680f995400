-- ===== src/Soak/Evaluation/Criteria/Readings.antt =====
-- What the reading of a window says of each sample in it.
use nanolab.Prelude.{
  Bool, true, false, Option, none, some, List, [], ◌∷◌, String, ◌==◌, text_equality, ◌≡◌, keep, In,
  inl, inr, refl, sym, ◌∙◌, ap, subst, arith, eq_iff, if_ind, Bool-cases, some-injective,
  In-append_left, In-append_right,
}
use nanolab.Soak.Evaluation.Index.{Stored}
use nanolab.Soak.Evaluation.Criteria.{
  raise_top, value_in, raise_top, Numbers, Criterion, Sampling, Tally, greater_of,
  required_sample_count, insert_by_time, by_time, visit_value, visit_samples, values_in,
  tally_window, conclude_window, any_nonzero, selected, window, high, low,
}

pub In-keep :
    {A : Type 0} (p : A → Bool) (x : A) (xs : List A) → In x xs → p x ≡ true → In x (keep p xs)
In-keep p x [] h k = absurd h
In-keep p x (y ∷ ys) (inl here) h =
    if_ind (In x) (p y) (λ _. inl here) (λ no. ground (arith, no, h, ap p here))
In-keep p x (y ∷ ys) (inr there) h =
    let rest = In-keep p x ys there h in if_ind (In x) (p y) (λ _. inr rest) (λ _. rest)

module _ {V : Type 0} (n : Numbers V) where
  pub leq_refl : (a : V) → n.leq a a ≡ true
  leq_refl a = elim (Bool-cases (n.leq a a)) [ inl h ↦ h | inr h ↦ n.leq_total a a h ]

  In-insert_by_time_here : (s : Stored V) (ts : List (Stored V)) → In s (insert_by_time n s ts)
  In-insert_by_time_here s [] = inl refl
  In-insert_by_time_here s (t ∷ ts) =
      if_ind (In s) (n.leq s.scheduled t.scheduled) (λ _. inl refl)
        (λ _. inr (In-insert_by_time_here s ts))

  In-insert_by_time :
      (s r : Stored V) (ts : List (Stored V)) → In r ts → In r (insert_by_time n s ts)
  In-insert_by_time s r [] h = absurd h
  In-insert_by_time s r (t ∷ ts) (inl here) =
      if_ind (In r) (n.leq s.scheduled t.scheduled) (λ _. inr (inl here)) (λ _. inl here)
  In-insert_by_time s r (t ∷ ts) (inr there) =
      if_ind (In r) (n.leq s.scheduled t.scheduled) (λ _. inr (inr there))
        (λ _. inr (In-insert_by_time s r ts there))

  In-by_time : (r : Stored V) (ss : List (Stored V)) → In r ss → In r (by_time n ss)
  In-by_time r [] h = absurd h
  In-by_time r (s ∷ ss) (inl here) =
      subst (λ x. In r (insert_by_time n x (by_time n ss))) here
        (In-insert_by_time_here r (by_time n ss))
  In-by_time r (s ∷ ss) (inr there) = In-insert_by_time s r (by_time n ss) (In-by_time r ss there)

  -- The value is no greater than the maximum read so far.
  abbrev pub Under : Option V → V → Type 0
  Under o v = (m : V) × (o ≡ some m) × (n.leq v m ≡ true)

  pub greater_of-left : (a b : V) → n.leq a (greater_of n a b) ≡ true
  greater_of-left a b = if_ind (λ m. n.leq a m ≡ true) (n.leq a b) (λ h. h) (λ _. leq_refl a)

  pub greater_of-right : (a b : V) → n.leq b (greater_of n a b) ≡ true
  greater_of-right a b =
      if_ind (λ m. n.leq b m ≡ true) (n.leq a b) (λ _. leq_refl b) (n.leq_total a b)

  visit_value-Under :
      (unit : String) (s : Stored V) (o : Option V) (t : Tally V) (v : V)
      → Under t.top v
      → Under (visit_value n unit s o t).top v
  visit_value-Under unit s none t v h = h
  visit_value-Under unit s (some w) t v h =
      if_ind {A = Tally V} (λ u. Under u.top v) (s.unit == unit) (λ _. raised t.top h) (λ _. h)
    where
      raised : (o : Option V) → Under o v → Under (raise_top n o w) v
      raised none (m, h, below) = ground arith
      raised (some m) (m', h, below) = (
        greater_of n m w,
        refl,
        n.leq_trans v m (greater_of n m w)
            (subst (λ x. n.leq v x ≡ true) (sym (some-injective m m' h)) below)
            (greater_of-left m w),
      )

  visit_samples-Under :
      (unit : String) (ss : List (Stored V)) (t : Tally V) (v : V)
      → Under t.top v
      → Under (visit_samples n unit ss t).top v
  unfolding visit_samples
  visit_samples-Under unit [] t v h = h
  visit_samples-Under unit (s ∷ ss) t v h =
      visit_samples-Under unit ss (visit_value n unit s s.value t) v
        (visit_value-Under unit s s.value t v h)

  -- A sample was read: it has a value of the unit, which the maximum bounds.
  abbrev pub IsRead : String → Stored V → Tally V → Type 0
  IsRead unit s t = (v : V) × (s.value ≡ some v) × (s.unit ≡ unit) × Under t.top v

  visit_samples-missing :
      (unit : String) (ss : List (Stored V)) (t : Tally V)
      → (visit_samples n unit ss t).is_missing ≡ false
      → t.is_missing ≡ false
  unfolding visit_samples
  visit_samples-missing unit [] t h = h
  visit_samples-missing unit (s ∷ ss) t h =
      visited s.value (visit_samples-missing unit ss (visit_value n unit s s.value t) h)
    where
      visited :
          (o : Option V) → (visit_value n unit s o t).is_missing ≡ false → t.is_missing ≡ false
      visited none h = ground arith
      visited (some v) h =
          if_ind {A = Tally V} (λ u. u.is_missing ≡ false → t.is_missing ≡ false) (s.unit == unit)
            (λ _ h. h) (λ _ h. ground arith) h

  visit_value-IsRead :
      (unit : String) (s : Stored V) (o : Option V) (t : Tally V)
      → s.value ≡ o
      → (visit_value n unit s o t).is_missing ≡ false
      → IsRead unit s (visit_value n unit s o t)
  visit_value-IsRead unit s none t h k = ground arith
  visit_value-IsRead unit s (some v) t h k =
      if_ind {A = Tally V} (λ u. u.is_missing ≡ false → IsRead unit s u) (s.unit == unit)
        (λ e _. (v, h, (eq_iff s.unit unit).0 e, topped t.top)) (λ _ k. ground arith) k
    where
      topped : (o : Option V) → Under (raise_top n o v) v
      topped none = (v, refl, leq_refl v)
      topped (some m) = (greater_of n m v, refl, greater_of-right m v)

  visit_samples-IsRead :
      (unit : String) (ss : List (Stored V)) (t : Tally V) (s : Stored V)
      → (visit_samples n unit ss t).is_missing ≡ false
      → In s ss
      → IsRead unit s (visit_samples n unit ss t)
  unfolding visit_samples
  visit_samples-IsRead unit [] t s h there = absurd there
  visit_samples-IsRead unit (r ∷ ss) t s h (inl here) =
      let next = visit_value n unit r r.value t in
      let now = visit_value-IsRead unit r r.value t refl (visit_samples-missing unit ss next h) in
      subst (λ x. IsRead unit x (visit_samples n unit ss next)) (sym here)
        (now.0, now.1, now.2, visit_samples-Under unit ss next now.0 now.3)
  visit_samples-IsRead unit (r ∷ ss) t s h (inr there) =
      visit_samples-IsRead unit ss (visit_value n unit r r.value t) s h there

  -- In a complete window every selected sample was read.
  pub window-IsRead :
      (stored : List (Stored V)) (c : Criterion V) (sampling : Sampling V) (labels phase : String)
      (low high : V) (s : Stored V)
      → (window n stored c sampling labels phase low high).complete ≡ true
      → In s (selected n stored c labels phase low high)
      → (v : V) × (s.value ≡ some v)
        × (s.unit ≡ c.unit)
        × Under (window n stored c sampling labels phase low high).top v
  unfolding window
  window-IsRead stored c sampling labels phase low high s h there =
      let rows = selected n stored c labels phase low high in
      visit_samples-IsRead c.unit (by_time n rows) _ s (ground arith) (In-by_time s rows there)

  -- And there is a selected sample.
  pub window-count :
      (stored : List (Stored V)) (c : Criterion V) (sampling : Sampling V) (labels phase : String)
      (low high : V)
      → (window n stored c sampling labels phase low high).complete ≡ true
      → (s : Stored V) × In s (selected n stored c labels phase low high)
  unfolding window visit_samples required_sample_count
  window-count stored c sampling labels phase low high h =
      go (selected n stored c labels phase low high) h
    where
      go :
          (rows : List (Stored V))
          → (conclude_window n sampling low high
              (tally_window n c rows low)
              (values_in n c.unit rows)).complete
            ≡ true
          → (s : Stored V) × In s rows
      go (s ∷ rows) h = (s, inl refl)
      go [] h = ground arith

  pub In-values_in :
      (unit : String) (ss : List (Stored V)) (s : Stored V) (v : V)
      → In s ss
      → s.value ≡ some v
      → s.unit ≡ unit
      → In v (values_in n unit ss)
  In-values_in unit [] s v there h k = absurd there
  In-values_in unit (r ∷ ss) s v (inl here) h k =
      In-append_left v (value_in n unit r r.value) (values_in n unit ss)
        (held r.value (sym (ap (λ x. x.value) here) ∙ h) (sym (ap (λ x. x.unit) here) ∙ k))
    where
      held : (o : Option V) → o ≡ some v → r.unit ≡ unit → In v (value_in n unit r o)
      held none h k = ground arith
      held (some w) h k =
          if_ind (In v) (r.unit == unit) (λ _. inl (sym (some-injective w v h)))
            (λ no. ground (arith, no, k, eq_iff r.unit unit))
  In-values_in unit (r ∷ ss) s v (inr there) h k =
      In-append_right v (value_in n unit r r.value) (values_in n unit ss)
        (In-values_in unit ss s v there h k)

  pub any_nonzero-zero :
      (vs : List V) (v : V)
      → any_nonzero n vs ≡ false
      → In v vs
      → (n.leq v n.zero_value ≡ true) × (n.leq n.zero_value v ≡ true)
  unfolding any_nonzero
  any_nonzero-zero [] v h there = absurd there
  any_nonzero-zero (w ∷ vs) v h (inl here) =
      subst (λ x. (n.leq x n.zero_value ≡ true) × (n.leq n.zero_value x ≡ true)) (sym here)
        (ground arith, ground arith)
  any_nonzero-zero (w ∷ vs) v h (inr there) = any_nonzero-zero vs v (ground arith) there
