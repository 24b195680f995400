-- ===== src/Conservation/Evidence.antt =====
-- `evaluate_conservation` of conservation.py, without its per-cell table. `upper` stands for str.upper.
pub mod Rows
pub mod Counted
pub mod Valid
use nanolab.Prelude.{
  ℕ, zero, suc, ◌+◌, Bool, true, false, not, ◌&&◌, ◌||◌, Option, none, some, List, [], ◌∷◌, ◌++◌,
  if◌then◌else◌, String, length, keep, contains, map, ltb, nat_beq, ◌==◌, text_equality,
  number_equality,
}
use nanolab.Conservation.IdSets.{Ids, distinct, subset, same_ids, common, without, union}

pub record Planned : Type 0 where
  pub original_id : String
  pub origin : String
  pub function : String
  pub epoch : ℕ

pub record Emitted : Type 0 where
  pub original_id : String

-- A missing text is "", as for `row.get` under a truth test.
pub record Attempt : Type 0 where
  pub original_id : String
  pub handler_started : Bool
  pub state : String
  pub response_status : String
  pub execution_id : String
  pub incarnation : String
  pub dispatch_attempt : Option ℕ

pub record Outcome : Type 0 where
  pub original_id : String
  pub success : Bool
  pub terminal_error : Bool

pub data Violation : Type 0 where
  no_load duplicate_original generator_deficit multiple_attempts proof_reused unresolved : Violation
  duplicate_result unplanned : Violation

pub record RunEvidence : Type 0 where
  pub planned : ℕ
  pub emitted : ℕ
  pub received : ℕ
  pub attempts : ℕ
  pub completed : ℕ
  pub errors : ℕ
  pub censored : ℕ
  pub generator_deficit : ℕ
  pub violations : List Violation

abbrev pub valid : RunEvidence → Bool
valid e = length e.violations == 0

-- `{row["originalId"] for row in rows if test}`
abbrev pub ids_of : {R : Type 0} → (R → String) → (R → Bool) → List R → Ids
ids_of id test rows = map id (keep test rows)

abbrev pub planned_ids : List Planned → Ids
planned_ids = map (λ r. r.original_id)

abbrev pub emitted_ids : List Emitted → Ids
emitted_ids = map (λ r. r.original_id)

abbrev pub attempt_ids : List Attempt → Ids
attempt_ids = map (λ r. r.original_id)

abbrev pub outcome_ids : List Outcome → Ids
outcome_ids = map (λ r. r.original_id)

abbrev pub received_ids : List Attempt → Ids
received_ids = ids_of (λ r. r.original_id) (λ r. r.handler_started)

abbrev pub success_ids : List Outcome → Ids
success_ids = ids_of (λ r. r.original_id) (λ r. r.success)

abbrev pub error_ids : List Outcome → Ids
error_ids = ids_of (λ r. r.original_id) (λ r. not r.success && r.terminal_error)

abbrev pub released_ids : (String → String) → List Attempt → Ids
released_ids upper =
    ids_of (λ r. r.original_id)
      (λ r. r.state == "RELEASED" && upper r.response_status == "SUCCESS" && r.handler_started)

-- `counts[id]`
abbrev pub times : String → Ids → ℕ
times a [] = 0
times a (x ∷ xs) = if x == a then suc (times a xs) else times a xs

-- `any(count > 1 for count in counts.values())`, each count looked up by its id.
abbrev pub repeats : Ids → Ids → Bool
repeats [] all = false
repeats (x ∷ xs) all = ltb 1 (times x all) || repeats xs all

-- One entry of `proof_owners`.
record Owner : Type 0 where
  execution_id : String
  incarnation : String
  dispatch_attempt : Option ℕ
  owner : String

abbrev same_attempt : Option ℕ → Option ℕ → Bool
same_attempt none none = true
same_attempt (some i) (some j) = nat_beq i j
same_attempt _ _ = false

-- `proof_owners.setdefault(identity, …)`: the owner there, if any.
abbrev owner_of : Attempt → List Owner → Option String
owner_of row [] = none
owner_of row (o ∷ os) =
    if o.execution_id == row.execution_id
      && o.incarnation == row.incarnation
      && same_attempt o.dispatch_attempt row.dispatch_attempt
    then some o.owner
    else owner_of row os

abbrev claim : Attempt → List Owner → List Owner
claim row os =
    os
    ++ record {
      execution_id = row.execution_id;
      incarnation = row.incarnation;
      dispatch_attempt = row.dispatch_attempt;
      owner = row.original_id;
    }
      ∷ []

-- The loop over the attempts: one violation for each row whose proof another original owns.
reused : List Attempt → List Owner → List Violation
reused [] os = []
reused (row ∷ rows) os =
    if not (row.execution_id == "") && not (row.incarnation == "")
    then elim (owner_of row os) [
      | none ↦ reused rows (claim row os)
      | some owner ↦
          if owner == row.original_id then reused rows os else proof_reused ∷ reused rows os
    ]
    else reused rows os

-- `if test: violations.append(…)`
abbrev pub flag : Bool → Violation → List Violation
flag test v = if test then v ∷ [] else []

-- The list as the tests leave it, in their order.
abbrev pub append_flags :
    Bool → Bool → Bool → Bool → List Violation → Bool → Bool → Bool → List Violation
append_flags idle duplicates deficit multiple proofs pending two_results others =
    flag idle no_load
    ++ flag duplicates duplicate_original
    ++ flag deficit generator_deficit
    ++ flag multiple multiple_attempts
    ++ proofs
    ++ flag pending unresolved
    ++ flag two_results duplicate_result
    ++ flag others unplanned

-- The sets that the counts and the violations are read from.
pub record Sets : Type 0 where
  pub expected : Ids
  pub sent : Ids
  pub received : Ids
  pub completed : Ids
  pub terminal_errors : Ids
  pub outcomes : Ids

module _ (upper : String → String) where
  unfoldable pub sets_of : List Planned → List Emitted → List Attempt → List Outcome → Sets
  unfolding distinct
  sets_of planned emitted attempts results = record {
    expected = distinct (planned_ids planned);
    sent = distinct (emitted_ids emitted);
    received = distinct (received_ids attempts);
    completed =
        common (common (distinct (planned_ids planned)) (success_ids results))
          (released_ids upper attempts);
    terminal_errors = common (distinct (planned_ids planned)) (error_ids results);
    outcomes = distinct (outcome_ids results);
  }

  unfoldable pub violations_of :
      List Planned → List Emitted → List Attempt → List Outcome → Sets → List Violation
  unfolding distinct reused
  violations_of planned emitted attempts results s =
      append_flags (length s.expected == 0 || length s.sent == 0)
        (not (length s.expected == length planned) || not (length s.sent == length emitted))
        (not (same_ids s.sent s.expected)) (repeats (attempt_ids attempts) (attempt_ids attempts))
        (reused attempts [])
        (not (subset s.completed s.received)
          || not (same_ids (union s.completed s.terminal_errors) s.expected))
        (not (length s.outcomes == length results))
        (not (length (without (distinct (attempt_ids attempts)) s.expected) == 0)
          || not (length (without s.outcomes s.expected) == 0))

  unfoldable pub evaluate_conservation :
      List Planned → List Emitted → List Attempt → List Outcome → RunEvidence
  unfolding sets_of violations_of
  evaluate_conservation planned emitted attempts results =
      let s = sets_of planned emitted attempts results in
      record {
        planned = length s.expected;
        emitted = length s.sent;
        received = length s.received;
        attempts = length attempts;
        completed = length s.completed;
        errors = length s.terminal_errors;
        censored = length (without (without s.sent s.completed) s.terminal_errors);
        generator_deficit = length (without s.expected s.sent);
        violations = violations_of planned emitted attempts results s;
      }
