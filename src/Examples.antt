-- ===== src/Examples.antt =====
-- Test data, and the theorems at concrete plans, items, requests, sessions and runs.
mod Plans
mod Runs
mod Calls
mod Items
mod Decisions
mod Sessions
mod Judging
mod Conducting
mod Verifying
mod Attempts
mod Templates
mod Rates
use murmur_ai_harness.Prelude.{
  ℕ, zero, suc, ◌+◌, ◌-◌, ◌*◌, ◌/◌, ◌%◌, ◌≤◌, ◌<◌, min, max, String, ◌≡◌, refl, sym, ap, ◌∙◌, ◌≢◌,
  ◌↔◌, ◌⊎◌, inl, inr, Bool, true, false, not, ◌&&◌, ◌||◌, Option, none, some, List, [], ◌∷◌, ◌++◌,
  map, arith, ◌==◌, eq_iff, eq_refl, ltb, leb, nat_eq, str_le, if◌then◌else◌, leb→le, le→leb,
  nat_eq_iff, &&_iff, Bool-cases, Option-cases, concat, has_text, join, length, take, drop,
  length-append, take-append-drop, length-take, select, All, all, any, contains, IsUnique, count,
  count-append, contains-append, contains→count, count→contains, length-map, Has, Zip, All-map,
  All-intro, map-cong, All-Has, Has-map, length-select-cons, length-select, Has-select, Has-last,
  Has→contains, append-eq-nil, place, sort, length-sort, sorted, count-sort, count-sorted,
  length-sorted, place-perm, sort-perm, IsSorted, sort-IsSorted, All-sort, Has-sort, Dict, lookup,
  insert, update, keys, lookup-insert, lookup-update, pos_part, is_nonpos, neg_part, sub_ℕ, ◌+ℤ◌,
  leb_ℤ, ℤ, pos, negsuc,
}
use murmur_ai_harness.Flock.Ir.{Node, Params, WorkflowPlan}
use murmur_ai_harness.Flock.Artifact.{Artifact, Texts}
use murmur_ai_harness.Flock.Gateway.{
  Outcome, done, raised, model_fault, ModelReply, Model, Meter, BudgetLedger,
}

abbrev pub no_params : Params
no_params = record { top_k = some (pos 1); max_iters = none; stop = none }

abbrev pub node_of : String → String → List String → String → Node
node_of id op inputs trust = record {
  id = id;
  op = op;
  role = "";
  inputs = inputs;
  model = "fake";
  effort = "low";
  trust = trust;
  params = no_params;
}

-- Two nodes, named against their order.
abbrev pub two_nodes : List Node
two_nodes =
    node_of "merge" "reduce" ("read" ∷ []) "trusted"
    ∷ node_of "read" "map" ("docs" ∷ []) "trusted"
    ∷ []

abbrev pub two_steps : WorkflowPlan
two_steps = record {
  goal = "summarise";
  budget_tokens = pos 100;
  nodes = two_nodes;
  sources = "docs" ∷ [];
}

abbrev pub artifact_of : String → String → String → Artifact
artifact_of id content trust = record {
  id = id;
  content = content;
  score = none;
  meta = [];
  trust = trust;
}

-- A model that answers "A" for seven tokens.
abbrev pub answer_a : ModelReply
answer_a = record {
  text = "A";
  input_tokens = pos 4;
  output_tokens = pos 3;
  cost_usd = pos 2;
  model = "";
}

abbrev pub fake : Model
fake n r = done answer_a

-- Texts that are left as they are.
abbrev pub plain : Texts
plain = record {
  strip = λ s. s;
  upper = λ s. s;
  first_line = λ s. some s;
  first_500 = λ s. s;
  parse_score = λ s. none;
}

abbrev pub meter_of : ℕ → ℕ → Meter
meter_of budget spent = record {
  ledger = record { budget = budget; spent_tokens = spent; spent_cost = 0; calls = 0 };
  log = [];
  asked = 0;
}
