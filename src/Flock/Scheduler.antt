-- ===== src/Flock/Scheduler.antt =====
-- murmur/flock/scheduler.py: running a plan. The nodes run here one after the other in topological
-- order, which is one of the orders that the program's tasks can take: each node waits for its
-- inputs there. Of an exception its class and arguments are kept, not the text. Where the resolver
-- raises, the run ends with that exception, and its log as it is then.
pub mod Runs
pub mod Resume
pub mod Report
pub mod Quarantine
use mathlib.Core.Option
use murmur_ai_harness.Prelude.{
  ℕ, zero, suc, ◌+◌, ◌-◌, ◌*◌, ◌/◌, ◌%◌, ◌≤◌, ◌<◌, min, max, String, ◌≡◌, refl, sym, ap, ◌∙◌, ◌≢◌,
  ◌↔◌, ◌⊎◌, inl, inr, Bool, true, false, not, ◌&&◌, ◌||◌, Option, none, some, List, [], ◌∷◌, ◌++◌,
  map, arith, ◌==◌, eq_iff, eq_refl, ltb, leb, nat_eq, str_le, if◌then◌else◌, leb→le, le→leb,
  nat_eq_iff, &&_iff, Bool-cases, Option-cases, concat, has_text, join, length, take, drop,
  length-append, take-append-drop, length-take, select, All, all, any, contains, IsUnique, count,
  count-append, contains-append, contains→count, count→contains, length-map, Has, Zip, All-map,
  All-intro, map-cong, All-Has, Has-map, length-select-cons, length-select, Has-select, Has-last,
  Has→contains, append-eq-nil, place, sort, length-sort, sorted, count-sort, count-sorted,
  length-sorted, place-perm, sort-perm, IsChain, IsSorted, sort-IsChain, sort-IsSorted, All-sort,
  Has-sort, Dict, lookup, insert, update, keys, lookup-insert, lookup-update, pos_part, is_nonpos,
  neg_part, sub_ℕ, ◌+ℤ◌, leb_ℤ, ℤ, pos, negsuc,
}
use murmur_ai_harness.Flock.Ir.{
  Node, WorkflowPlan, PlanError, Result, ok, err, ids_of, topological_order,
}
use murmur_ai_harness.Flock.Validation.{validate_plan, is_empty}
use murmur_ai_harness.Flock.Artifact.{Artifact, artifact_ids, Texts}
use murmur_ai_harness.Flock.Gateway.{
  Fault, quarantine_violation, Outcome, done, raised, Model, ModelCall, Meter, BudgetLedger,
  new_ledger,
}
use murmur_ai_harness.Flock.Operators.{NodeRun, NodeContext, run_operator, is_tainted}
use murmur_ai_harness.Flock.EventLog.{
  FlockEvent, run_started, node_finished, node_failed, run_finished, CompletedNode, completed_nodes,
}

pub record NodeResult : Type 0 where
  pub node_id : String
  pub op : String
  pub output : List Artifact
  pub calls : ℕ
  pub error : Option Fault

-- `NodeResult.ok`
abbrev pub is_ok : NodeResult → Bool
is_ok r = elim r.error [ none ↦ true | some e ↦ false ]

pub record RunReport : Type 0 where
  pub goal : String
  pub results : Dict NodeResult
  pub final : List Artifact
  pub spent_tokens : ℕ
  pub spent_cost : ℕ
  pub model_calls : ℕ
  pub log : List ModelCall

-- What a run reads: the models by name, where the resolver may raise, the sources as artifacts, the nodes restored from the log,
-- and Python's texts.
pub record Setting : Type 0 where
  pub resolver : String → Outcome Model
  pub sources : Dict (List Artifact)
  pub replayed : List String
  pub py : Texts

-- What the nodes of a run share; `events` is the log, if there is one.
pub record RunState : Type 0 where
  pub outputs : Dict (List Artifact)
  pub results : Dict NodeResult
  pub meter : Meter
  pub events : Option (List FlockEvent)

unfoldable pub append_event : FlockEvent → RunState → RunState
append_event e s = record s { events = Option.map (λ es. es ++ e ∷ []) s.events }

abbrev pub or_empty : Option (List Artifact) → List Artifact
or_empty none = []
or_empty (some xs) = xs

-- The items of one input: what its node put out, or else the source of that name.
abbrev pub input_items : Dict (List Artifact) → Dict (List Artifact) → String → List Artifact
input_items outputs sources name = elim (lookup name outputs) [
  | some xs ↦ xs
  | none ↦ or_empty (lookup name sources)
]

unfoldable pub items_of : Dict (List Artifact) → Dict (List Artifact) → List String → List Artifact
items_of outputs sources [] = []
items_of outputs sources (name ∷ names) =
    input_items outputs sources name ++ items_of outputs sources names

-- The node's work: the quarantine, then its operator.
unfoldable pub attempt : NodeContext → NodeRun → Outcome (List Artifact) × NodeRun
attempt ctx s =
    let bad = select is_tainted ctx.items in
    if ctx.node.trust == "trusted" && not (is_empty bad)
    then (raised (quarantine_violation ctx.node.id (artifact_ids bad)), s)
    else run_operator ctx s

-- What is stored of a node that ended.
abbrev pub store_outcome : Node → Outcome (List Artifact) → NodeRun → RunState → RunState
store_outcome node (done produced) run s =
    append_event (node_finished node.id node.op produced run.calls) (record s {
      outputs = insert node.id produced s.outputs;
      results =
          insert node.id
            (record {
              node_id = node.id;
              op = node.op;
              output = produced;
              calls = run.calls;
              error = none;
            })
            s.results;
      meter = run.meter;
    })
store_outcome node (raised e) run s =
    append_event (node_failed node.id node.op run.calls e) (record s {
      outputs = insert node.id [] s.outputs;
      results =
          insert node.id
            (record {
              node_id = node.id;
              op = node.op;
              output = [];
              calls = run.calls;
              error = some e;
            })
            s.results;
      meter = run.meter;
    })

abbrev pub context_of : Setting → Node → Model → RunState → NodeContext
context_of set node model s = record {
  node = node;
  items = items_of s.outputs set.sources node.inputs;
  model = model;
  py = set.py;
}

-- A node's run with its model, which `run_node` stores.
abbrev pub attempt_in : Setting → Node → Model → RunState → Outcome (List Artifact) × NodeRun
attempt_in set node model s =
    attempt (context_of set node model s) (record { meter = s.meter; calls = 0 })

-- What follows the resolver: its exception leaves the task, as it is not caught.
unfoldable pub run_with : Setting → Node → RunState → Outcome Model → Option Fault × RunState
unfolding attempt items_of append_event
run_with set node s (raised e) = (some e, s)
run_with set node s (done model) =
    let (out, run) = attempt_in set node model s in (none, store_outcome node out run s)

-- The exception that ends the run, if there is one, and the state.
unfoldable pub run_node : Setting → Node → RunState → Option Fault × RunState
unfolding run_with
run_node set node s =
    if contains set.replayed node.id
    then (none, s)
    else run_with set node s (set.resolver node.model)

unfoldable pub run_nodes : Setting → List Node → RunState → Option Fault × RunState
unfolding run_node
run_nodes set [] s = (none, s)
run_nodes set (n ∷ ns) s = elim (run_node set n s).0 [
  | some e ↦ (some e, (run_node set n s).1)
  | none ↦ run_nodes set ns (run_node set n s).1
]

-- The nodes that some node reads.
unfoldable pub consumed : List String → List Node → List String
unfolding contains
consumed ids [] = []
consumed ids (n ∷ ns) = select (contains ids) n.inputs ++ consumed ids ns

-- `_terminal_ids`
unfoldable pub terminal_ids : List Node → List String
unfolding consumed contains
terminal_ids ns = select (λ id. not (contains (consumed (ids_of ns) ns) id)) (ids_of ns)

unfoldable pub final_of : Dict (List Artifact) → List String → List Artifact
final_of outputs [] = []
final_of outputs (id ∷ ids) = or_empty (lookup id outputs) ++ final_of outputs ids

-- The sources, those named as untrusted marked.
unfoldable pub mark : List String → Dict (List Artifact) → Dict (List Artifact)
mark untrusted [] = []
mark untrusted ((name, arts) ∷ sources) =
    (
      name,
      if contains untrusted name
          then map (λ (a : Artifact). record a { trust = "untrusted" }) arts
          else arts,
    )
    ∷ mark untrusted sources

-- The outputs and results of the nodes of the plan that the log has finished.
unfoldable pub restore : List String → Dict CompletedNode → Dict (List Artifact) × Dict NodeResult
restore ids [] = ([], [])
restore ids ((id, n) ∷ ns) =
    let (outputs, results) = restore ids ns in
    if contains ids id
    then (
      (id, n.output) ∷ outputs,
      (id, record { node_id = id; op = n.op; output = n.output; calls = n.calls; error = none })
          ∷ results,
    )
    else (outputs, results)

abbrev pub events_of : Option (List FlockEvent) → List FlockEvent
events_of none = []
events_of (some es) = es

-- Where a run begins: the restored nodes, and `run_started` in the log.
unfoldable pub start_state : WorkflowPlan → BudgetLedger → Option (List FlockEvent) → RunState
unfolding restore completed_nodes append_event
start_state plan ledger events =
    let restored = restore (ids_of plan.nodes) (completed_nodes (events_of events)) in
    append_event (run_started plan.goal) (record {
      outputs = restored.0;
      results = restored.1;
      meter = record { ledger = ledger; log = []; asked = 0 };
      events = events;
    })

unfoldable pub report_of : WorkflowPlan → RunState → RunReport
unfolding final_of terminal_ids
report_of plan s = record {
  goal = plan.goal;
  results = s.results;
  final = final_of s.outputs (terminal_ids plan.nodes);
  spent_tokens = s.meter.ledger.spent_tokens;
  spent_cost = s.meter.ledger.spent_cost;
  model_calls = s.meter.ledger.calls;
  log = s.meter.log;
}

-- `RunReport.ok`
unfoldable pub all_ok : Dict NodeResult → Bool
all_ok [] = true
all_ok ((id, r) ∷ rs) = is_ok r && all_ok rs

-- How `execute_plan` ends.
pub data Executed : Type 0 where
  reported : RunReport → Executed
  plan_rejected : PlanError → Executed
  budget_rejected : Fault → Executed
  crashed : Fault → Executed

abbrev pub setting_of :
    (resolver : String → Outcome Model) (py : Texts) (plan : WorkflowPlan)
    (sources : Dict (List Artifact)) (untrusted : List String) (events : Option (List FlockEvent))
    → Setting
setting_of resolver py plan sources untrusted events = record {
  resolver = resolver;
  sources = mark untrusted sources;
  replayed = keys (restore (ids_of plan.nodes) (completed_nodes (events_of events))).1;
  py = py;
}

-- What follows the nodes.
unfoldable pub finish_run :
    WorkflowPlan → Option Fault × RunState → Executed × Option (List FlockEvent)
unfolding report_of all_ok append_event
finish_run plan (some e, s) = (crashed e, s.events)
finish_run plan (none, s) =
    (reported (report_of plan s), (append_event (run_finished (all_ok s.results)) s).events)

-- What follows the start of a run.
unfoldable pub run_plan :
    Setting → WorkflowPlan → RunState → Result (List Node) → Executed × Option (List FlockEvent)
unfolding run_nodes finish_run
run_plan set plan s (err e) = (plan_rejected e, s.events)
run_plan set plan s (ok order) = finish_run plan (run_nodes set order s)

abbrev pub with_ledger :
    Setting
    → WorkflowPlan
    → Option (List FlockEvent)
    → Outcome BudgetLedger
    → Executed × Option (List FlockEvent)
with_ledger set plan events (raised e) = (budget_rejected e, events)
with_ledger set plan events (done ledger) =
    run_plan set plan (start_state plan ledger events) (topological_order plan.nodes)

abbrev pub with_validation :
    Setting
    → WorkflowPlan
    → Option (List FlockEvent)
    → Result (Unit {0})
    → Executed × Option (List FlockEvent)
with_validation set plan events (err e) = (plan_rejected e, events)
with_validation set plan events (ok _) = with_ledger set plan events (new_ledger plan.budget_tokens)

-- `execute_plan`, which validates the plan.
unfoldable pub execute_plan :
    (resolver : String → Outcome Model) (py : Texts) (plan : WorkflowPlan)
    (sources : Dict (List Artifact)) (untrusted : List String) (events : Option (List FlockEvent))
    → Executed × Option (List FlockEvent)
unfolding validate_plan new_ledger topological_order run_plan start_state mark restore
    completed_nodes
execute_plan resolver py plan sources untrusted events =
    with_validation (setting_of resolver py plan sources untrusted events) plan events
      (validate_plan plan)
