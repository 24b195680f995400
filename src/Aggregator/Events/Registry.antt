-- ===== src/Aggregator/Events/Registry.antt =====
-- The dictionary of task ids over the events of a run.
use nanolab.Prelude.{
  ℕ, ◌≡◌, refl, ap, ◌∙◌, Bool, true, not, ◌&&◌, Option, none, some, List, [], ◌∷◌, ◌++◌,
  if◌then◌else◌, String, ◌==◌, text_equality, number_equality, get_elem?, length, arith, if_ind,
}
use nanolab.Prelude.Dicts.{get}
use nanolab.Aggregator.Phases.{Phase, is_text, truthy, or_else, text_or, same_id}
use nanolab.Aggregator.Store.{
  Kind, log_line, task_started, task_passed, task_failed, task_skipped, other_kind, Event,
  Aggregator, Found, tested, search_phase, deref, lookup, is_unassigned, next_unassigned,
}
use nanolab.Aggregator.Events.{
  Texts, init, handle_kind, handle_events, phase_for_event, existing, add_child, chosen,
  ensure_child, child_phase, top_phase, mark_at, mark_found,
}
use nanolab.Aggregator.Events.Writes.{
  Registered, write-Registered, sync-Registered, allot-Registered,
}

module _ {F : Type 0} where
  -- What a search or a lookup gives stands in the store.
  abbrev pub Stands : List (Phase F) → Option (ℕ × Phase F) → Type 0
  Stands store none = Unit
  Stands store (some (a, p)) = get_elem? store a ≡ some p

  tested-Stands :
      (store : List (Phase F)) (test : Phase F → Bool) (a : ℕ) (o : Option (Phase F))
      (rest : Option (ℕ × Phase F))
      → get_elem? store a ≡ o
      → Stands store rest
      → Stands store (tested test a o rest)
  tested-Stands store test a none rest here later = later
  tested-Stands store test a (some p) rest here later =
      if_ind (Stands store) (test p) {x = some (a, p)} {y = rest} (λ _. here) (λ _. later)

  deref-Stands : (store : List (Phase F)) (o : Option ℕ) → Stands store (deref store o)
  deref-Stands store none = tt
  deref-Stands store (some a) = tested-Stands store (λ p. true) a (get_elem? store a) none refl tt

  search_phase-Stands :
      (test : Phase F → Bool) (store : List (Phase F)) (addresses : List ℕ)
      → Stands store (search_phase test store addresses)
  unfolding search_phase
  search_phase-Stands test store [] = tt
  search_phase-Stands test store (a ∷ more) =
      tested-Stands store test a (get_elem? store a) (search_phase test store more) refl
        (search_phase-Stands test store more)

  existing-Registered :
      (own : Option (ℕ × Phase F)) (e : Event) (g : Aggregator F)
      → Stands g.store own
      → Registered g
      → Registered (existing own e g).1
  existing-Registered none e g here r = r
  existing-Registered (some (a, p)) e g here r =
      sync-Registered e.task_id a p (text_or e.title p.label) e.detail g here r

  add_child-Registered :
      (a : ℕ) (parent : Phase F) (label : String) (task_id : Option String) (detail : String)
      (g : Aggregator F)
      → get_elem? g.store a ≡ some parent
      → Registered g
      → Registered (add_child a parent label task_id detail g).1
  add_child-Registered a parent label task_id detail g here r =
      allot-Registered label task_id parent.task_id detail _ (
        write-Registered a parent
          (record parent { children = parent.children ++ length g.store ∷ [] }) g here
          (λ id h is. h) r)

  ensure_child-Registered :
      (a : ℕ) (parent : Phase F) (label : String) (task_id : Option String) (detail : String)
      (g : Aggregator F)
      → get_elem? g.store a ≡ some parent
      → Registered g
      → Registered (ensure_child a parent label task_id detail g).1
  ensure_child-Registered a parent label (some id) detail g here r =
      add_child-Registered a parent label (some id) detail g here r
  ensure_child-Registered a parent label none detail g here r =
      pick
        (search_phase (λ c. c.label == label && same_id c.parent_task_id parent.task_id) g.store
          parent.children)
        (search_phase-Stands _ g.store parent.children)
    where
      pick :
          (o : Option (ℕ × Phase F))
          → Stands g.store o
          → Registered (chosen a parent label detail g o).1
      pick none stands = add_child-Registered a parent label none detail g here r
      pick (some (b, c)) stands = sync-Registered none b c label detail g stands r

  child_phase-Registered :
      (e : Event) (g : Aggregator F) (parent own : Option (ℕ × Phase F))
      → Stands g.store parent
      → Stands g.store own
      → Registered g
      → Registered (child_phase e g parent own).1
  child_phase-Registered e g none own p o r = r
  child_phase-Registered e g (some parent) (some own) p o r = existing-Registered (some own) e g o r
  child_phase-Registered e g (some (a, q)) none p o r =
      ensure_child-Registered a q (text_or e.title (or_else e.task_id "Task")) e.task_id e.detail g
        p r

  top_phase-Registered :
      (e : Event) (g : Aggregator F) (own next : Option (ℕ × Phase F))
      → Stands g.store own
      → Stands g.store next
      → Registered g
      → Registered (top_phase e g own next).1
  top_phase-Registered e g (some own) next o n r = existing-Registered (some own) e g o r
  top_phase-Registered e g none none o n r =
      if_ind (λ (f : Found F). Registered f.1) (truthy e.task_id)
        (λ _.
          let made =
            allot-Registered (text_or e.title (or_else e.task_id "")) e.task_id none e.detail g r in
          record { bears = made.bears })
        (λ _. r)
  top_phase-Registered e g none (some (a, p)) o n r =
      if_ind (λ (f : Found F). Registered f.1) (is_text e.title && not (e.title == p.label))
        (λ _. r) (λ _. sync-Registered e.task_id a p (text_or e.title p.label) e.detail g n r)

  phase_for_event-Registered :
      (e : Event) (g : Aggregator F) → Registered g → Registered (phase_for_event e g).1
  unfolding phase_for_event
  phase_for_event-Registered e g r =
      if_ind (λ (f : Found F). Registered f.1) (truthy e.parent_task_id)
        (λ _.
          child_phase-Registered e g (lookup g e.parent_task_id) (lookup g e.task_id)
            (deref-Stands g.store _) (deref-Stands g.store _) r)
        (λ _.
          top_phase-Registered e g (lookup g e.task_id) (next_unassigned g) (deref-Stands g.store _)
            (search_phase-Stands is_unassigned g.store g.phases) r)

  mark_found-Registered :
      (mark : Phase F → Phase F) (f : Found F)
      → ((p : Phase F) → (mark p).task_id ≡ p.task_id)
      → Registered f.1
      → Registered (mark_found mark f)
  mark_found-Registered mark (none, g) same r = r
  mark_found-Registered mark (some a, g) same r = at_store (get_elem? g.store a) refl
    where
      at_store : (o : Option (Phase F)) → get_elem? g.store a ≡ o → Registered (mark_at mark a o g)
      at_store none there = r
      at_store (some p) there = write-Registered a p (mark p) g there (λ id h is. same p ∙ h) r

module _ {F : Type 0} (texts : Texts F) where
  logged-Registered :
      (g : Aggregator F) (lines : List String)
      → Registered g
      → Registered (record g { logs = lines })
  logged-Registered g lines r = record { bears = r.bears }

  handle_kind-Registered :
      (now : F) (kind : Kind) (e : Event) (g : Aggregator F)
      → Registered g
      → Registered (handle_kind texts now kind e g)
  unfolding handle_kind
  handle_kind-Registered now log_line e g r =
      logged-Registered (if truthy e.task_id then (phase_for_event e g).1 else g) _
        (if_ind Registered (truthy e.task_id) (λ _. phase_for_event-Registered e g r) (λ _. r))
  handle_kind-Registered now task_started e g r =
      mark_found-Registered _ _ (λ p. refl)
        (phase_for_event-Registered e _ (logged-Registered g _ r))
  handle_kind-Registered now task_passed e g r =
      mark_found-Registered _ _ (λ p. refl)
        (phase_for_event-Registered e _ (logged-Registered g _ r))
  handle_kind-Registered now task_failed e g r =
      mark_found-Registered _ _ (λ p. refl)
        (phase_for_event-Registered e _ (logged-Registered g _ r))
  handle_kind-Registered now task_skipped e g r =
      phase_for_event-Registered e _ (logged-Registered g _ r)
  handle_kind-Registered now other_kind e g r = r

  events-Registered :
      (events : List (F × Event)) (g : Aggregator F)
      → Registered g
      → Registered (handle_events texts events g)
  unfolding handle_events
  events-Registered [] g r = r
  events-Registered ((now, e) ∷ es) g r =
      events-Registered es (handle_kind texts now e.kind e g)
        (handle_kind-Registered now e.kind e g r)

  -- After any events, each task id in the dictionary is a text that is not empty and leads to a phase
  -- that stands in the store and bears this id.
  pub handle_events-Registered :
      (planned_steps : List String) (log_limit : ℕ) (g : Aggregator F) (events : List (F × Event))
      → init planned_steps log_limit ≡ some g
      → Registered (handle_events texts events g)
  unfolding init get
  handle_events-Registered planned_steps log_limit g events h =
      events-Registered events g (record { bears = λ id a there. absurd (nothing id a there) })
    where
      no_ids : g.phase_by_task_id ≡ []
      no_ids = ground arith

      nothing : (id : String) (a : ℕ) → get id g.phase_by_task_id ≡ some a → ⊥
      nothing id a there = absurd (ground (arith, ap (get id) no_ids))
