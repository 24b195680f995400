-- ===== src/Aggregator/Events/Log.antt =====
-- The log of a run: its last lines.
use nanolab.Prelude.{
  ℕ, zero, suc, ◌+◌, ◌-◌, ◌≤◌, ◌≡◌, refl, sym, ap, ◌∙◌, true, false, none, some, List, [], ◌∷◌,
  ◌++◌, if◌then◌else◌, String, length, drop, ltb, arith, length-append, length-drop, if_ind, min,
  ltb→lt, ltb_false→le, tests,
}
use nanolab.Aggregator.Phases.{Phase, or_else, text_or, truthy}
use nanolab.Aggregator.Store.{
  Kind, Event, Aggregator, Found, log_line, task_started, task_passed, task_failed, task_skipped,
  other_kind,
}
use nanolab.Aggregator.Events.{
  Texts, trimmed, handle_kind, handle_event, handle_events, append_log, init, phase_for_event,
  mark_found, task_log,
}
use mathlib.Core.List.{append_assoc, append-nil}

-- The last `limit` lines of a log.
abbrev pub last_lines : ℕ → List String → List String
last_lines limit lines = drop (length lines - limit) lines

module _ {F : Type 0} (texts : Texts F) where
  -- The line that an event writes, if any.
  abbrev pub line_of : Kind → Event → List String
  line_of log_line e = (if e.is_stderr then texts.stderr e.line else e.line) ∷ []
  line_of task_started e =
      texts.format "[step]" (text_or e.title (or_else e.task_id "Task")) e.detail ∷ []
  line_of task_passed e =
      texts.format "[ok]" (text_or e.title (or_else e.task_id "Task")) e.detail ∷ []
  line_of task_failed e =
      texts.format "[fail]" (text_or e.title (or_else e.task_id "Task")) e.detail ∷ []
  line_of task_skipped e =
      texts.format "[skip]" (text_or e.title (or_else e.task_id "Task")) "" ∷ []
  line_of other_kind e = []

  abbrev pub lines_of : List (F × Event) → List String
  lines_of [] = []
  lines_of ((now, e) ∷ es) = line_of e.kind e ++ lines_of es

drop-append :
    {A : Type 0} (n : ℕ) (xs ys : List A) → n ≤ length xs → drop n (xs ++ ys) ≡ drop n xs ++ ys
drop-append zero xs ys h = refl
drop-append (suc n) [] ys h = absurd (omega arith)
drop-append (suc n) (x ∷ xs) ys h = drop-append n xs ys (omega arith)

drop-nil : {A : Type 0} (n : ℕ) → ◌≡◌ {A = List A} (drop n []) []
drop-nil zero = refl
drop-nil (suc n) = refl

drop-drop : {A : Type 0} (m n k : ℕ) (xs : List A) → k ≡ n + m → drop m (drop n xs) ≡ drop k xs
drop-drop m zero k xs h = ap (λ j. drop j xs) (omega arith)
drop-drop m (suc n) k [] h = drop-nil m ∙ sym (drop-nil k)
drop-drop m (suc n) k (x ∷ xs) h =
    let one_more : suc (n + m) ≡ k = omega arith in
    drop-drop m n (n + m) xs refl ∙ ap (λ j. drop j (x ∷ xs)) one_more

-- One more line, then the trim.
last_lines-trimmed :
    (limit : ℕ) (lines : List String) (message : String)
    → trimmed limit (last_lines limit lines ++ message ∷ [])
      ≡ last_lines limit (lines ++ message ∷ [])
last_lines-trimmed limit lines message =
    if_ind (λ log. log ≡ last_lines limit (lines ++ message ∷ []))
      (ltb limit (length (last_lines limit lines ++ message ∷ [])))
      (λ full.
        let one_over : length (last_lines limit lines ++ message ∷ []) - limit ≡ 1 =
          omega (tests, kept, grown, ltb→lt _ _ full) in
        ap (λ n. drop n (last_lines limit lines ++ message ∷ [])) one_over
        ∙ ap (drop 1) (sym (drop-append (length lines - limit) lines (message ∷ []) (omega arith)))
        ∙ drop-drop 1 (length lines - limit) (length (lines ++ message ∷ []) - limit)
            (lines ++ message ∷ []) (omega (tests, kept, grown, longer, ltb→lt _ _ full)))
      (λ short.
        sym (drop-append (length lines - limit) lines (message ∷ []) (omega arith))
        ∙ ap (λ n. drop n (lines ++ message ∷ []))
            (omega (tests, kept, grown, longer, ltb_false→le _ _ short)))
  where
    kept : length (last_lines limit lines) ≡ length lines - (length lines - limit)
    kept = length-drop (length lines - limit) lines

    grown : length (last_lines limit lines ++ message ∷ []) ≡ length (last_lines limit lines) + 1
    grown = length-append (last_lines limit lines) (message ∷ [])

    longer : length (lines ++ message ∷ []) ≡ length lines + 1
    longer = length-append lines (message ∷ [])

module _ {F : Type 0} where
  phase_for_event-logs :
      (e : Event) (g : Aggregator F)
      → ((phase_for_event e g).1.logs ≡ g.logs) × ((phase_for_event e g).1.log_limit ≡ g.log_limit)
  unfolding phase_for_event
  phase_for_event-logs e g = ground arith

  mark_found-logs :
      (mark : Phase F → Phase F) (f : Found F)
      → ((mark_found mark f).logs ≡ f.1.logs) × ((mark_found mark f).log_limit ≡ f.1.log_limit)
  mark_found-logs mark (none, g) = (refl, refl)
  mark_found-logs mark (some a, g) = ground arith

module _ {F : Type 0} (texts : Texts F) where
  -- The log of a state is what is left of some lines.
  abbrev Logged : List String → Aggregator F → Type 0
  Logged lines g = g.logs ≡ last_lines g.log_limit lines

  append_log-Logged :
      (lines : List String) (message : String) (g : Aggregator F)
      → Logged lines g
      → Logged (lines ++ message ∷ []) (append_log message g)
  append_log-Logged lines message g h =
      ap (λ l. trimmed g.log_limit (l ++ message ∷ [])) h
      ∙ last_lines-trimmed g.log_limit lines message

  Logged-same :
      (lines : List String) (g h : Aggregator F)
      → (h.logs ≡ g.logs) × (h.log_limit ≡ g.log_limit)
      → Logged lines g
      → Logged lines h
  Logged-same lines g h (logs, limit) l = logs ∙ l ∙ ap (λ n. last_lines n lines) (sym limit)

  both :
      (g h k : Aggregator F)
      → (k.logs ≡ h.logs) × (k.log_limit ≡ h.log_limit)
      → (h.logs ≡ g.logs) × (h.log_limit ≡ g.log_limit)
      → (k.logs ≡ g.logs) × (k.log_limit ≡ g.log_limit)
  both g h k (a, b) (c, d) = (a ∙ c, b ∙ d)

  -- The log after the phase of an event was marked.
  marked-Logged :
      (lines : List String) (mark : Phase F → Phase F) (e : Event) (g : Aggregator F)
      → Logged lines g
      → Logged lines (mark_found mark (phase_for_event e g))
  marked-Logged lines mark e g h =
      Logged-same lines g (mark_found mark (phase_for_event e g))
        (both g (phase_for_event e g).1 (mark_found mark (phase_for_event e g))
          (mark_found-logs mark (phase_for_event e g)) (phase_for_event-logs e g))
        h

  handle_kind-Logged :
      (lines : List String) (now : F) (kind : Kind) (e : Event) (g : Aggregator F)
      → Logged lines g
      → Logged (lines ++ line_of texts kind e) (handle_kind texts now kind e g)
  unfolding handle_kind
  handle_kind-Logged lines now log_line e g h =
      append_log-Logged lines (if e.is_stderr then texts.stderr e.line else e.line)
        (if truthy e.task_id then (phase_for_event e g).1 else g)
        (if_ind (Logged lines) (truthy e.task_id) {x = (phase_for_event e g).1} {y = g}
          (λ _. Logged-same lines g (phase_for_event e g).1 (phase_for_event-logs e g) h) (λ _. h))
  handle_kind-Logged lines now task_started e g h =
      marked-Logged _ _ e _ (append_log-Logged lines _ g h)
  handle_kind-Logged lines now task_passed e g h =
      marked-Logged _ _ e _ (append_log-Logged lines _ g h)
  handle_kind-Logged lines now task_failed e g h =
      marked-Logged _ _ e _ (append_log-Logged lines _ g h)
  handle_kind-Logged lines now task_skipped e g h =
      Logged-same _ (task_log texts.format "[skip]" e false g)
        (phase_for_event e (task_log texts.format "[skip]" e false g)).1
        (phase_for_event-logs e (task_log texts.format "[skip]" e false g))
        (append_log-Logged lines _ g h)
  handle_kind-Logged lines now other_kind e g h =
      h ∙ ap (λ ls. last_lines g.log_limit ls) (sym (append-nil lines))

  handle_kind-log_limit :
      (now : F) (kind : Kind) (e : Event) (g : Aggregator F)
      → (handle_kind texts now kind e g).log_limit ≡ g.log_limit
  unfolding handle_kind
  handle_kind-log_limit now log_line e g =
      if_ind (λ h. h.log_limit ≡ g.log_limit) (truthy e.task_id) {x = (phase_for_event e g).1}
        {y = g} (λ _. (phase_for_event-logs e g).1) (λ _. refl)
  handle_kind-log_limit now task_started e g =
      (mark_found-logs _ (phase_for_event e (task_log texts.format "[step]" e true g))).1
      ∙ (phase_for_event-logs e (task_log texts.format "[step]" e true g)).1
  handle_kind-log_limit now task_passed e g =
      (mark_found-logs _ (phase_for_event e (task_log texts.format "[ok]" e true g))).1
      ∙ (phase_for_event-logs e (task_log texts.format "[ok]" e true g)).1
  handle_kind-log_limit now task_failed e g =
      (mark_found-logs _ (phase_for_event e (task_log texts.format "[fail]" e true g))).1
      ∙ (phase_for_event-logs e (task_log texts.format "[fail]" e true g)).1
  handle_kind-log_limit now task_skipped e g =
      (phase_for_event-logs e (task_log texts.format "[skip]" e false g)).1
  handle_kind-log_limit now other_kind e g = refl

  handle_events-Logged :
      (lines : List String) (events : List (F × Event)) (g : Aggregator F)
      → Logged lines g
      → ((handle_events texts events g).logs
          ≡ last_lines g.log_limit (lines ++ lines_of texts events))
  unfolding handle_events
  handle_events-Logged lines [] g h = h ∙ ap (last_lines g.log_limit) (sym (append-nil lines))
  handle_events-Logged lines ((now, e) ∷ es) g h =
      handle_events-Logged (lines ++ line_of texts e.kind e) es (handle_event texts now e g)
        (handle_kind-Logged lines now e.kind e g h)
      ∙ ap (λ n. last_lines n ((lines ++ line_of texts e.kind e) ++ lines_of texts es))
          (handle_kind-log_limit now e.kind e g)
      ∙ ap (last_lines g.log_limit)
          (append_assoc lines (line_of texts e.kind e) (lines_of texts es))

  -- After any events the log holds, in order, the last lines that they wrote: all of them while they
  -- are at most `log_limit`, and `log_limit` of them afterwards.
  pub handle_events-logs :
      (planned_steps : List String) (log_limit : ℕ) (g : Aggregator F) (events : List (F × Event))
      → init planned_steps log_limit ≡ some g
      → ((handle_events texts events g).logs ≡ last_lines log_limit (lines_of texts events))
        × (length (handle_events texts events g).logs
            ≡ min log_limit (length (lines_of texts events)))
  unfolding init
  handle_events-logs planned_steps log_limit g events h = (
    same,
    ap length same
        ∙ omega (
          arith,
          length-drop (length (lines_of texts events) - log_limit) (lines_of texts events),
        ),
  )
    where
      started : (g.logs ≡ []) × (g.log_limit ≡ log_limit)
      started = ground arith

      same : (handle_events texts events g).logs ≡ last_lines log_limit (lines_of texts events)
      same =
          handle_events-Logged [] events g
            (started.0 ∙ sym (drop-nil {A = String} (0 - g.log_limit)))
          ∙ ap (λ n. last_lines n (lines_of texts events)) started.1
