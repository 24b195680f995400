-- ===== src/Autoscaling/Verify/Outcome.antt =====
-- What the scale-up of VerifyAutoscalingReplicas has seen when it ends.
pub mod Whole
use nanolab.Prelude.{
  ltb→lt, ℕ, zero, suc, ◌+◌, ◌≤◌, ◌<◌, ◌≡◌, ◌≢◌, refl, sym, subst, Bool, true, false, Option, none,
  some, List, [], ◌∷◌, if◌then◌else◌, ltb, leb, ◌==◌, number_equality, max, String, Result, ok, err,
  arith, if_ind, Result-cases, inl, inr, le→ltb_false, Bool-cases, ◌⊎◌,
}
use nanolab.Autoscaling.Verify.{
  Probe, Verdict, no_scale_up, no_scale_down, Verify, AutoscalingSummary, Peak, Settled, tally,
  poll_up, poll_down, run, watched, peak, settle, after_peak, settled_summary,
}

-- Some replica count above one was read at a poll.
abbrev pub ScaledUp : Probe → ℕ → Type 0
ScaledUp probe i =
    ((n : ℕ) × (probe.ready_replicas i ≡ ok n) × (1 < n))
    ⊎ ((n : ℕ) × (probe.desired_replicas i ≡ ok n) × (1 < n))

-- Both counts were read at a poll, and neither was above one.
abbrev pub Still : Probe → ℕ → Type 0
Still probe i =
    ((n : ℕ) × (probe.ready_replicas i ≡ ok n) × (n ≤ 1))
    × ((n : ℕ) × (probe.desired_replicas i ≡ ok n) × (n ≤ 1))

-- The desired count was read at a poll, and was off the floor.
abbrev pub Off : Probe → ℕ → ℕ → Type 0
Off probe floor i = (n : ℕ) × (probe.desired_replicas i ≡ ok n) × (n ≢ floor)

-- A query raised at a poll.
abbrev pub Failed : Probe → String → ℕ → Type 0
Failed probe e i = (probe.ready_replicas i ≡ err e) ⊎ (probe.desired_replicas i ≡ err e)

-- How the scale-up ends: watched, or polled from an index on.
pub data Rise (probe : Probe) : ℕ → ℕ → Result String Peak → Type 0 where
  never :
      {from n : ℕ} (p : Peak)
      → p.max_replicas ≤ 1
      → ((i : ℕ) → from ≤ i → i < from + n → Still probe i)
      → Rise probe from n (ok p)
  seen :
      {from n : ℕ} (p : Peak) (i : ℕ)
      → 1 < p.max_replicas
      → from ≤ i
      → i < from + n
      → p.polls ≡ i + 1
      → ScaledUp probe i
      → Rise probe from n (ok p)
  raised :
      {from n : ℕ} (e : String) (i : ℕ)
      → from ≤ i
      → i < from + n
      → Failed probe e i
      → Rise probe from n (err e)

pub at_or_after : (from i : ℕ) → from ≤ i → (from ≡ i) ⊎ (from + 1 ≤ i)
at_or_after from i h = elim (Bool-cases (from == i)) [
  | inl same ↦ inl (ground arith)
  | inr differs ↦ inr (ground arith)
]

Rise-earlier :
    (probe : Probe) (from n : ℕ) (r : Result String Peak)
    → Still probe from
    → Rise probe (from + 1) n r
    → Rise probe from (suc n) r
Rise-earlier probe from n r still (never p low all) = never p low still_all
  where
    still_all : (i : ℕ) → from ≤ i → i < from + suc n → Still probe i
    still_all i a b = elim (at_or_after from i a) [
      | inl here ↦ subst (Still probe) here still
      | inr later ↦ all i later (omega arith)
    ]
Rise-earlier probe from n r still (seen p i up a b c s) =
    seen p i up (omega arith) (omega arith) c s
Rise-earlier probe from n r still (raised e i a b f) = raised e i (omega arith) (omega arith) f

lt→ltb : {b : ℕ} → 1 < b → ltb 1 b ≡ true
lt→ltb h = ground arith

-- What one poll shows, by the answers of the probe.
data Turn (probe : Probe) (p : Peak) : Result String Peak → Type 0 where
  turned_err : (e : String) → Failed probe e p.polls → Turn probe p (err e)
  turned_up :
      (q : Peak)
      → 1 < q.max_replicas
      → q.polls ≡ p.polls + 1
      → ScaledUp probe p.polls
      → Turn probe p (ok q)
  turned_still :
      (q : Peak)
      → q.max_replicas ≤ 1
      → q.polls ≡ p.polls + 1
      → Still probe p.polls
      → Turn probe p (ok q)

tally-Turn :
    (probe : Probe) (p : Peak) (r d : Result String ℕ)
    → probe.ready_replicas p.polls ≡ r
    → probe.desired_replicas p.polls ≡ d
    → p.max_replicas ≤ 1
    → Turn probe p (tally p r d)
tally-Turn probe p (err e) d h k low = turned_err e (inl h)
tally-Turn probe p (ok ready) (err e) h k low = turned_err e (inr k)
tally-Turn probe p (ok ready) (ok desired) h k low = elim (Bool-cases (ltb 1 ready)) [
  | inl up ↦ turned_up _ (ground arith) refl (inl (ready, h, ground arith))
  | inr down ↦ elim (Bool-cases (ltb 1 desired)) [
    | inl up ↦ turned_up _ (ground arith) refl (inr (desired, k, ground arith))
    | inr low_too ↦
        turned_still _ (ground arith) refl ((ready, h, ground arith), (desired, k, ground arith))
  ]
]

pub poll_up-Rise :
    (probe : Probe) (n : ℕ) (p : Peak)
    → p.max_replicas ≤ 1
    → Rise probe p.polls n (poll_up probe n p)
unfolding poll_up
poll_up-Rise probe zero p low = never p low (λ i a b. absurd (omega arith))
poll_up-Rise probe (suc n) p low =
    after_turn (tally p (probe.ready_replicas p.polls) (probe.desired_replicas p.polls))
      (tally-Turn probe p (probe.ready_replicas p.polls) (probe.desired_replicas p.polls) refl refl
        low)
      (λ q low. poll_up-Rise probe n q low)
  where
    after_turn :
        (r : Result String Peak)
        → Turn probe p r
        → ((q : Peak) → q.max_replicas ≤ 1 → Rise probe q.polls n (poll_up probe n q))
        → Rise probe p.polls (suc n) (elim r [
          | err e ↦ err e
          | ok q ↦ if ltb 1 q.max_replicas then ok q else poll_up probe n q
        ])
    after_turn r (turned_err e f) later = raised e p.polls (omega arith) (omega arith) f
    after_turn r (turned_up q up polls s) later =
        rw (lt→ltb up) (seen q p.polls up (omega arith) (omega arith) polls s)
    after_turn r (turned_still q still polls s) later = rw (le→ltb_false _ _ still) (
        Rise-earlier probe p.polls n (poll_up probe n q) s
          (subst (λ from. Rise probe from n (poll_up probe n q)) polls (later q still)))
