-- ===== src/Flock/Planner.antt =====
-- murmur/flock/planner.py: `template_plan`, the plan that is used where a model gives none.
pub mod Template
use murmur_ai_harness.Prelude.{
  ℕ, zero, suc, ◌+◌, ◌-◌, ◌*◌, ◌/◌, ◌%◌, ◌≤◌, ◌<◌, min, max, String, ◌≡◌, refl, sym, ap, ◌∙◌, ◌≢◌,
  ◌↔◌, ◌⊎◌, inl, inr, Bool, true, false, not, ◌&&◌, ◌||◌, Option, none, some, List, [], ◌∷◌, ◌++◌,
  map, arith, ◌==◌, eq_iff, eq_refl, ltb, leb, nat_eq, str_le, if◌then◌else◌, leb→le, le→leb,
  nat_eq_iff, &&_iff, Bool-cases, Option-cases, concat, has_text, join, length, take, drop,
  length-append, take-append-drop, length-take, select, All, all, any, contains, IsUnique, count,
  count-append, contains-append, contains→count, count→contains, length-map, Has, Zip, All-map,
  All-intro, map-cong, All-Has, Has-map, length-select-cons, length-select, Has-select, Has-last,
  Has→contains, append-eq-nil, place, sort, length-sort, sorted, count-sort, count-sorted,
  length-sorted, place-perm, sort-perm, IsChain, IsSorted, sort-IsChain, sort-IsSorted, All-sort,
  Has-sort, Dict, lookup, insert, update, keys, lookup-insert, lookup-update, pos_part, is_nonpos,
  neg_part, sub_ℕ, ◌+ℤ◌, leb_ℤ, ℤ, pos, negsuc,
}
use murmur_ai_harness.Flock.Ir.{Node, Params, WorkflowPlan, Result, ok, err, ◌>>=◌}
use murmur_ai_harness.Flock.Validation.{validate_plan}

-- sources[0] if sources else "input"
abbrev pub first_source : List String → String
first_source [] = "input"
first_source (s ∷ sources) = s

abbrev pub default_params : Params
default_params = record { top_k = none; max_iters = none; stop = none }

unfoldable pub template_of : (task source : String) (budget_tokens : ℤ) → WorkflowPlan
unfolding concat
template_of task source budget = record {
  goal = task;
  budget_tokens = budget;
  nodes =
      record {
        id = "work";
        op = "map";
        role = concat ("Work on this item toward the goal: " ∷ task ∷ []);
        inputs = source ∷ [];
        model = "deepseek-v4-flash";
        effort = "low";
        trust = "trusted";
        params = default_params;
      }
      ∷ record {
        id = "synthesize";
        op = "reduce";
        role = concat ("Synthesize the items into one final answer for: " ∷ task ∷ []);
        inputs = "work" ∷ [];
        model = "deepseek-v4-pro";
        effort = "high";
        trust = "trusted";
        params = default_params;
      }
      ∷ [];
  sources = source ∷ [];
}

-- `template_plan`
unfoldable pub template_plan :
    (task : String) (sources : List String) (budget_tokens : ℤ) → Result WorkflowPlan
unfolding template_of validate_plan
template_plan task sources budget =
    let plan = template_of task (first_source sources) budget in validate_plan plan >>= λ _. ok plan
