-- ===== src/Aggregator/Events/Writes.antt =====
-- The dictionary of task ids: each id that is entered leads to a phase that bears it, and the changes
-- of the state keep this.
use nanolab.Prelude.{
  ℕ, zero, suc, ◌≡◌, ◌≢◌, refl, sym, ap, ◌∙◌, subst, Bool, true, not, ◌&&◌, Option, none, some,
  List, [], ◌∷◌, ◌++◌, if◌then◌else◌, String, ◌==◌, text_equality, number_equality, get_elem?,
  length, arith, if_ind, Bool-cases, inl, inr, eq_iff, nat_beq_iff, some-injective, false≢true,
}
use nanolab.Prelude.Dicts.{get, put, get-put}
use nanolab.Aggregator.Phases.{Phase, is_text, truthy, new_phase, assigns, synced}
use nanolab.Aggregator.Store.{Aggregator, write, enter, sync, allot, set_at}

pub get_elem?-set_at_same :
    {A : Type 0} (i : ℕ) (a : A) (xs : List A) (x : A)
    → get_elem? xs i ≡ some x
    → get_elem? (set_at i a xs) i ≡ some a
unfolding set_at
get_elem?-set_at_same i a [] x h = absurd (ground arith)
get_elem?-set_at_same zero a (y ∷ xs) x h = refl
get_elem?-set_at_same (suc i) a (y ∷ xs) x h = get_elem?-set_at_same i a xs x h

pub get_elem?-set_at_other :
    {A : Type 0} (i j : ℕ) (a : A) (xs : List A)
    → i ≢ j
    → get_elem? (set_at i a xs) j ≡ get_elem? xs j
unfolding set_at
get_elem?-set_at_other i j a [] h = refl
get_elem?-set_at_other zero zero a (y ∷ xs) h = absurd (h refl)
get_elem?-set_at_other zero (suc j) a (y ∷ xs) h = refl
get_elem?-set_at_other (suc i) zero a (y ∷ xs) h = refl
get_elem?-set_at_other (suc i) (suc j) a (y ∷ xs) h =
    get_elem?-set_at_other i j a xs (λ e. h (ap suc e))

pub get_elem?-append :
    {A : Type 0} (i : ℕ) (xs ys : List A) (x : A)
    → get_elem? xs i ≡ some x
    → get_elem? (xs ++ ys) i ≡ some x
get_elem?-append i [] ys x h = absurd (ground arith)
get_elem?-append zero (y ∷ xs) ys x h = h
get_elem?-append (suc i) (y ∷ xs) ys x h = get_elem?-append i xs ys x h

pub get_elem?-length :
    {A : Type 0} (xs : List A) (x : A) → get_elem? (xs ++ x ∷ []) (length xs) ≡ some x
get_elem?-length [] x = refl
get_elem?-length (y ∷ xs) x = get_elem?-length xs x

module _ {F : Type 0} where
  -- The phase at an address bears an id.
  abbrev pub Bears : List (Phase F) → String → ℕ → Type 0
  Bears store id a =
      (p : Phase F) × (get_elem? store a ≡ some p) × (p.task_id ≡ some id) × (is_text id ≡ true)

  pub record Registered (g : Aggregator F) : Type 0 where
    pub bears : (id : String) (a : ℕ) → get id g.phase_by_task_id ≡ some a → Bears g.store id a

  -- `q` may stand in the place of `p`: an id that is a text stays.
  abbrev pub Keeps : Phase F → Phase F → Type 0
  Keeps p q = (id : String) → p.task_id ≡ some id → is_text id ≡ true → q.task_id ≡ some id

  write-Bears :
      (store : List (Phase F)) (a : ℕ) (p q : Phase F) (id : String) (b : ℕ)
      → get_elem? store a ≡ some p
      → Keeps p q
      → Bears store id b
      → Bears (set_at a q store) id b
  write-Bears store a p q id b here keeps (r, there, bears, is) = elim (Bool-cases (a == b)) [
    | inl same ↦
        let e = (nat_beq_iff a b).0 same in
        let r_is_p : r ≡ p = some-injective _ _ (sym there ∙ ap (get_elem? store) (sym e) ∙ here) in
        (
          q,
          subst (λ j. get_elem? (set_at a q store) j ≡ some q) e
              (get_elem?-set_at_same a q store p here),
          keeps id (ap (λ x. x.task_id) (sym r_is_p) ∙ bears) is,
          is,
        )
    | inr differs ↦ (
      r,
      get_elem?-set_at_other a b q store (λ e. false≢true (sym differs ∙ (nat_beq_iff a b).1 e))
          ∙ there,
      bears,
      is,
    )
  ]

  pub write-Registered :
      (a : ℕ) (p q : Phase F) (g : Aggregator F)
      → get_elem? g.store a ≡ some p
      → Keeps p q
      → Registered g
      → Registered (write a q g)
  write-Registered a p q g here keeps r = record {
    bears = λ id b h. write-Bears g.store a p q id b here keeps (r.bears id b h);
  }

  enter-Registered :
      (id : String) (a : ℕ) (g : Aggregator F)
      → Bears g.store id a
      → Registered g
      → Registered (enter (some id) a g)
  enter-Registered id a g new r = record { bears = bears }
    where
      bears :
          (j : String) (b : ℕ) → get j (put id a g.phase_by_task_id) ≡ some b → Bears g.store j b
      bears j b h = elim (Bool-cases (id == j)) [
        | inl same ↦
            let a_is_b : a ≡ b =
              some-injective _ _ (ground (arith, get-put id j a g.phase_by_task_id)) in
            subst (λ i. Bears g.store i b) ((eq_iff id j).0 same)
              (subst (Bears g.store id) a_is_b new)
        | inr differs ↦ r.bears j b (ground (arith, get-put id j a g.phase_by_task_id))
      ]

  extend-Registered :
      (p : Phase F) (g : Aggregator F)
      → Registered g
      → Registered (record g { store = g.store ++ p ∷ [] })
  extend-Registered p g r = record {
    bears = λ id a h.
        let (q, there, bears, is) = r.bears id a h in
        (q, get_elem?-append a g.store (p ∷ []) q there, bears, is);
  }

  pub sync-Registered :
      (task_id : Option String) (a : ℕ) (p : Phase F) (label detail : String) (g : Aggregator F)
      → get_elem? g.store a ≡ some p
      → Registered g
      → Registered (sync a p label task_id detail g)
  sync-Registered none a p label detail g here r =
      write-Registered a p (synced label none detail p) g here (λ id h is. h) r
  sync-Registered (some id) a p label detail g here r =
      if_ind Registered (assigns (some id) p)
        {x = enter (some id) a (write a (synced label (some id) detail p) g)}
        {y = write a (synced label (some id) detail p) g}
        (λ new.
          enter-Registered id a (write a (synced label (some id) detail p) g)
            (
              synced label (some id) detail p,
              get_elem?-set_at_same a (synced label (some id) detail p) g.store p here,
              given id p.task_id new,
              text_of (is_text id) (not (truthy p.task_id)) new,
            )
            wrote)
        (λ _. wrote)
    where
      given :
          (i : String) (o : Option String)
          → is_text i && not (truthy o) ≡ true
          → (if is_text i && not (truthy o) then some i else o) ≡ some i
      given i o h = ground arith

      text_of : (b c : Bool) → b && c ≡ true → b ≡ true
      text_of b c h = ground arith

      kept :
          (o : Option String) (j : String)
          → o ≡ some j
          → is_text j ≡ true
          → (if is_text id && not (truthy o) then some id else o) ≡ some j
      kept none j h is = absurd (ground arith)
      kept (some k) j h is = let e = ap is_text (some-injective _ _ h) in ground arith

      wrote : Registered (write a (synced label (some id) detail p) g)
      wrote =
          write-Registered a p (synced label (some id) detail p) g here
            (λ j h is. kept p.task_id j h is) r

  pub allot-Registered :
      (label : String) (task_id parent : Option String) (detail : String) (g : Aggregator F)
      → Registered g
      → Registered (allot (new_phase label task_id parent detail) g)
  allot-Registered label none parent detail g r = extend-Registered _ g r
  allot-Registered label (some id) parent detail g r =
      if_ind Registered (is_text id)
        (λ is.
          enter-Registered id (length g.store)
            (record g { store = g.store ++ new_phase label (some id) parent detail ∷ [] })
            (
              new_phase label (some id) parent detail,
              get_elem?-length g.store (new_phase label (some id) parent detail),
              refl,
              is,
            )
            (extend-Registered (new_phase label (some id) parent detail) g r))
        (λ _. extend-Registered (new_phase label (some id) parent detail) g r)
