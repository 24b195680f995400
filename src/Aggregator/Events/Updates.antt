-- ===== src/Aggregator/Events/Updates.antt =====
-- The end of a task that has a phase already.
use nanolab.Prelude.{
  ℕ, zero, suc, ◌≡◌, refl, sym, ap, ◌∙◌, subst, true, false, Option, none, some, List, [], ◌∷◌,
  if◌then◌else◌, String, text_equality, get_elem?, length, arith, if_ind,
}
use nanolab.Prelude.Dicts.{get}
use nanolab.Aggregator.Phases.{
  WorkflowState, success, failed, Phase, is_text, truthy, or_else, text_or, assigns, synced,
  mark_ended,
}
use nanolab.Aggregator.Store.{
  Kind, task_passed, task_failed, Event, Aggregator, write, enter, sync, tested, deref, lookup,
  next_unassigned, set_at,
}
use nanolab.Aggregator.Events.{
  Texts, handle_kind, phase_for_event, existing, child_phase, top_phase, mark_at, mark_found,
  task_log,
}
use nanolab.Aggregator.Events.Writes.{get_elem?-set_at_same}

length-set_at : {A : Type 0} (i : ℕ) (a : A) (xs : List A) → length (set_at i a xs) ≡ length xs
unfolding set_at
length-set_at i a [] = refl
length-set_at zero a (x ∷ xs) = refl
length-set_at (suc i) a (x ∷ xs) = ap suc (length-set_at i a xs)

-- The kinds of event that end a task, with the state that they leave.
pub data Ending : Kind → WorkflowState → Type 0 where
  by_pass : Ending task_passed success
  by_failure : Ending task_failed failed

module _ {F : Type 0} where
  lookup-found :
      (g : Aggregator F) (task_id : Option String) (id : String) (a : ℕ) (p : Phase F)
      → task_id ≡ some id
      → is_text id ≡ true
      → get id g.phase_by_task_id ≡ some a
      → get_elem? g.store a ≡ some p
      → lookup g task_id ≡ some (a, p)
  lookup-found g none id a p t is there here = absurd (ground arith)
  lookup-found g (some j) id a p t is there here =
      let key : or_else (some j) "" ≡ id = ground arith in
      ap (λ k. deref g.store (get k g.phase_by_task_id)) key
      ∙ ap (deref g.store) there
      ∙ ap (λ o. tested (λ p. true) a o none) here

  phase_for_event-found :
      (e : Event) (g : Aggregator F) (a : ℕ) (p : Phase F)
      → truthy e.parent_task_id ≡ false
      → lookup g e.task_id ≡ some (a, p)
      → phase_for_event e g ≡ existing (some (a, p)) e g
  unfolding phase_for_event
  phase_for_event-found e g a p top found =
      ap
        (λ b.
          if b
          then child_phase e g (lookup g e.parent_task_id) (lookup g e.task_id)
          else top_phase e g (lookup g e.task_id) (next_unassigned g))
        top
      ∙ ap (λ o. top_phase e g o (next_unassigned g)) found

  sync-store :
      (a : ℕ) (p : Phase F) (label : String) (task_id : Option String) (detail : String)
      (g : Aggregator F)
      → (sync a p label task_id detail g).store ≡ set_at a (synced label task_id detail p) g.store
  sync-store a p label none detail g = refl
  sync-store a p label (some id) detail g =
      if_ind (λ h. h.store ≡ set_at a (synced label (some id) detail p) g.store)
        (assigns (some id) p) {x = enter (some id) a (write a (synced label (some id) detail p) g)}
        (λ _. refl) (λ _. refl)

-- The phase of a state that a task has ended in.
pub record EndedAt {F : Type 0} (state : WorkflowState) (now : F) (a size : ℕ) (g : Aggregator F)
    : Type 0 where
  pub phase : Phase F
  pub stands : get_elem? g.store a ≡ some phase
  pub in_state : phase.status ≡ state
  pub ended : phase.finished_at ≡ some now
  pub none_added : length g.store ≡ size

module _ {F : Type 0} where
  mark_found-EndedAt :
      (state : WorkflowState) (now : F) (detail : String) (a : ℕ) (p : Phase F) (e : Event)
      (g : Aggregator F)
      → get_elem? g.store a ≡ some p
      → EndedAt state now a
          (length g.store)
          (mark_found (mark_ended state now detail) (existing (some (a, p)) e g))
  mark_found-EndedAt state now detail a p e g here =
      subst
        (λ o.
          EndedAt state now a (length g.store)
            (mark_at (mark_ended state now detail) a o after_sync))
        (sym there)
        (record {
          phase = mark_ended state now detail q;
          stands = get_elem?-set_at_same a (mark_ended state now detail q) after_sync.store q there;
          in_state = refl;
          ended = refl;
          none_added =
              length-set_at a (mark_ended state now detail q) after_sync.store
              ∙ ap length stored
              ∙ length-set_at a q g.store;
        })
    where
      q : Phase F
      q = synced (text_or e.title p.label) e.task_id e.detail p

      after_sync : Aggregator F
      after_sync = sync a p (text_or e.title p.label) e.task_id e.detail g

      stored : after_sync.store ≡ set_at a q g.store
      stored = sync-store a p (text_or e.title p.label) e.task_id e.detail g

      there : get_elem? after_sync.store a ≡ some q
      there = ap (λ store. get_elem? store a) stored ∙ get_elem?-set_at_same a q g.store p here

  -- Marking what `_phase_for_event` finds, where the id leads to a phase.
  found-EndedAt :
      (state : WorkflowState) (now : F) (e : Event) (g : Aggregator F) (id : String) (a : ℕ)
      (p : Phase F)
      → truthy e.parent_task_id ≡ false
      → e.task_id ≡ some id
      → is_text id ≡ true
      → get id g.phase_by_task_id ≡ some a
      → get_elem? g.store a ≡ some p
      → EndedAt state now a
          (length g.store)
          (mark_found (mark_ended state now e.detail) (phase_for_event e g))
  found-EndedAt state now e g id a p top names is there here =
      subst
        (λ f. EndedAt state now a (length g.store) (mark_found (mark_ended state now e.detail) f))
        (sym
          (phase_for_event-found e g a p top (lookup-found g e.task_id id a p names is there here)))
        (mark_found-EndedAt state now e.detail a p e g here)

module _ {F : Type 0} (texts : Texts F) where
  -- An event that ends a top-level task whose id leads to a phase puts this phase, and no new one, into
  -- the state that the event names, with the time of the event as its end.
  pub handle_kind-EndedAt :
      (kind : Kind) (state : WorkflowState) (now : F) (e : Event) (g : Aggregator F) (id : String)
      (a : ℕ) (p : Phase F)
      → Ending kind state
      → truthy e.parent_task_id ≡ false
      → e.task_id ≡ some id
      → is_text id ≡ true
      → get id g.phase_by_task_id ≡ some a
      → get_elem? g.store a ≡ some p
      → EndedAt state now a (length g.store) (handle_kind texts now kind e g)
  unfolding handle_kind
  handle_kind-EndedAt kind state now e g id a p by_pass top names is there here =
      found-EndedAt success now e (task_log texts.format "[ok]" e true g) id a p top names is there
        here
  handle_kind-EndedAt kind state now e g id a p by_failure top names is there here =
      found-EndedAt failed now e (task_log texts.format "[fail]" e true g) id a p top names is there
        here
