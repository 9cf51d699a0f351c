-- ===== src/Examples/Runs.antt =====
-- Runs of a plan and of a node.
use murmur_ai_harness.Prelude.{
  String, ◌≡◌, refl, ◌⊎◌, true, none, some, List, [], ◌∷◌, ◌==◌, if◌then◌else◌, concat, join,
  select, any, contains, sorted, Dict, lookup, insert, update, pos,
}
use murmur_ai_harness.Examples.{two_steps, node_of, artifact_of, fake, plain, meter_of}
use murmur_ai_harness.Examples.Plans.{valid}
use murmur_ai_harness.Flock.Ir.{Node}
use murmur_ai_harness.Flock.Artifact.{Artifact}
use murmur_ai_harness.Flock.Gateway.Accounts.{
  IsAccounted, complete-IsAccounted, billed_log, cost_log,
}
use murmur_ai_harness.Flock.Operators.{NodeContext, run_operator}
use murmur_ai_harness.Flock.Operators.Effects.{run_operator-meter}
use murmur_ai_harness.Flock.Scheduler.{
  execute_plan, NodeResult, RunReport, reported, run_plan, start_state, restore, mark, run_nodes,
  run_node, run_with, attempt, append_event, finish_run, report_of, terminal_ids, consumed,
  items_of, final_of,
}
use murmur_ai_harness.Flock.EventLog.{completed_nodes}
use murmur_ai_harness.Flock.Artifact.{text, texts}
use murmur_ai_harness.Flock.Gateway.{ModelCall}
use murmur_ai_harness.Flock.Operators.Taint.{AreTrusted}
use murmur_ai_harness.Flock.Scheduler.Quarantine.{execute_plan-AreTrusted}
use murmur_ai_harness.Flock.Ir.{
  topological_order, finish, drain, free_nodes, graph_of, add_nodes, add_inputs, link,
  for_each_node, relax, find_node, nodes_of,
}
use murmur_ai_harness.Flock.Validation.{
  validate_plan, check_ids, check_nodes, check_inputs, check_taint, tainted, trust_of,
}
use murmur_ai_harness.Flock.Operators.{op_map, op_reduce, gather, map_one, call, output_trust}
use murmur_ai_harness.Flock.Gateway.{new_ledger, complete, estimate_tokens, reserve, debit, settle}
use murmur_ai_harness.Flock.Scheduler.Report.{execute_plan-IsRun, IsRun, IsCrash}
use murmur_ai_harness.Flock.Gateway.{Outcome, done, raised, Model, model_fault}

abbrev reader : Node
reader = node_of "read" "map" ("docs" ∷ []) "trusted"

-- A resolver that knows one model.
abbrev only_fake : String → Outcome Model
only_fake name = if name == "fake" then done fake else raised (model_fault name)

abbrev sources : Dict (List Artifact)
sources = ("docs", artifact_of "docs-0" "text" "trusted" ∷ []) ∷ []

execute_plan-IsRun_example :
    IsRun two_steps true (execute_plan only_fake plain two_steps sources [] (some []))
    ⊎ IsCrash only_fake two_steps
        (some [])
        (execute_plan only_fake plain two_steps sources [] (some []))
execute_plan-IsRun_example = execute_plan-IsRun only_fake plain two_steps sources [] (some []) valid

abbrev mapper : NodeContext
mapper = record {
  node = reader;
  items = artifact_of "docs-0" "text" "trusted" ∷ [];
  model = fake;
  py = plain;
}

fresh : IsAccounted (meter_of 100 0)
unfolding billed_log cost_log
fresh = record { tokens = refl; costs = refl; calls = refl }

run_operator-meter_example :
    IsAccounted (run_operator mapper (record { meter = meter_of 100 0; calls = 0 })).1.meter
run_operator-meter_example =
    run_operator-meter IsAccounted mapper (record { meter = meter_of 100 0; calls = 0 })
      (complete-IsAccounted fake "read") fresh

abbrev read_result : NodeResult
read_result = record {
  node_id = "read";
  op = "map";
  output =
      record {
        id = "read:docs-0";
        content = "A";
        score = none;
        meta = ("source_item", text "docs-0") ∷ [];
        trust = "trusted";
      }
      ∷ [];
  calls = 1;
  error = none;
}

abbrev merged : Artifact
merged = record {
  id = "merge";
  content = "A";
  score = none;
  meta = ("merged_from", texts ("read:docs-0" ∷ [])) ∷ [];
  trust = "trusted";
}

abbrev merge_result : NodeResult
merge_result = record {
  node_id = "merge";
  op = "reduce";
  output = merged ∷ [];
  calls = 1;
  error = none;
}

abbrev call_by : String → ModelCall
call_by id = record {
  model = "fake";
  effort = "low";
  input_tokens = pos 4;
  output_tokens = pos 3;
  cost_usd = pos 2;
  node_id = id;
}

abbrev both_reported : RunReport
both_reported = record {
  goal = "summarise";
  results = ("read", read_result) ∷ ("merge", merge_result) ∷ [];
  final = merged ∷ [];
  spent_tokens = 14;
  spent_cost = 4;
  model_calls = 2;
  log = call_by "read" ∷ call_by "merge" ∷ [];
}

two_steps_run : (execute_plan only_fake plain two_steps sources [] none).0 ≡ reported both_reported
unfolding execute_plan validate_plan new_ledger check_ids check_nodes check_inputs check_taint
    tainted trust_of topological_order finish drain free_nodes graph_of add_nodes add_inputs link
    for_each_node relax find_node nodes_of run_operator op_map op_reduce gather map_one call
    output_trust run_plan start_state restore completed_nodes mark run_nodes run_node run_with
    attempt append_event finish_run report_of terminal_ids consumed items_of final_of contains
    sorted update insert lookup select any concat join complete estimate_tokens reserve debit settle
two_steps_run = refl

execute_plan-AreTrusted_example : AreTrusted read_result.output
unfolding lookup contains find_node restore completed_nodes
execute_plan-AreTrusted_example =
    execute_plan-AreTrusted only_fake plain two_steps sources [] none both_reported
      (node_of "read" "map" ("docs" ∷ []) "trusted") read_result two_steps_run refl refl refl refl
