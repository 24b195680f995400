-- ===== src/Soak/Evaluation/Fixture.antt =====
-- A role, its policy and a small stream of samples, for the examples of the evaluation.
use nanolab.Prelude.{
  ℕ, ◌+◌, ◌-◌, ◌*◌, ◌/◌, Bool, true, false, none, some, List, [], ◌∷◌, String, ◌≡◌, arith, leb,
  Dict,
}
use nanolab.Soak.Evaluation.Index.{Target, present, number, Row, Window, Policy, Stored}
use nanolab.Soak.Evaluation.Criteria.{Numbers, maximum_of, Criterion, Sampling}

pub leb_trans : (a b c : ℕ) → leb a b ≡ true → leb b c ≡ true → leb a c ≡ true
leb_trans a b c h k = ground arith

pub leb_total : (a b : ℕ) → leb a b ≡ false → leb b a ≡ true
leb_total a b h = ground arith

abbrev pub numbers : Numbers ℕ
numbers = record {
  leq = leb;
  zero_value = 0;
  plus = λ a b. a + b;
  minus = λ a b. a - b;
  times = λ a b. a * b;
  half = λ a. a / 2;
  absolute = λ a. a;
  floor_ratio = λ a b. a / b;
  leq_trans = leb_trans;
  leq_total = leb_total;
}

abbrev pub canonical : List (String × String) → String
canonical labels = "[]"

abbrev pub api : Target
api = record {
  role = "api";
  container_id = "c1";
  process_id = 7;
  process_started_at = "t0";
  image_digest = "sha";
  runtime = "python";
}

abbrev pub row : String → ℕ → ℕ → Row ℕ
row phase at value = record {
  is_gap = false;
  schema_known = true;
  target = present api;
  phase = some phase;
  scheduled_s = some at;
  started_s = some at;
  ended_s = some at;
  labels = some [];
  metric = some "rss";
  unit = some "bytes";
  availability = some "observed";
  value = number value;
}

abbrev pub policy : Policy ℕ
policy = record {
  windows =
      ("baseline", record { start_s = 10; end_s = 20 })
      ∷ ("drain", record { start_s = 30; end_s = 40 })
      ∷ [];
  phase_extents = [];
  perturbations = [];
}

abbrev pub targets : Dict Target
targets = ("api", api) ∷ []

abbrev pub rows : List (Row ℕ)
rows =
    row "warmup" 5 1
    ∷ row "baseline" 10 3
    ∷ row "baseline" 20 4
    ∷ row "drain" 30 4
    ∷ row "drain" 35 5
    ∷ row "drain" 40 3
    ∷ []

abbrev pub stored_at : String → ℕ → ℕ → Stored ℕ
stored_at phase at value = record {
  role = "api";
  phase = phase;
  scheduled = at;
  metric = "rss";
  labels = "[]";
  unit = "bytes";
  value = some value;
}

abbrev pub at_most : ℕ → Criterion ℕ
at_most threshold = record {
  role = "api";
  metric = "rss";
  unit = "bytes";
  phase = "drain";
  operation = maximum_of threshold;
  window_s = 10;
  deadline_s = none;
}

abbrev pub sampling : Sampling ℕ
sampling = record { sample_interval_s = 5; max_observation_gap_s = 6 }

abbrev pub drain : Window ℕ
drain = record { start_s = 30; end_s = 40 }

abbrev pub baseline : Window ℕ
baseline = record { start_s = 10; end_s = 20 }

abbrev pub every : String → Bool
every labels = true
