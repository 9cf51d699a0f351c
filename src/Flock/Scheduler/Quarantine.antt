-- ===== src/Flock/Scheduler/Quarantine.antt =====
-- What the quarantine and the operators give together: trusted nodes put out trusted items.
use murmur_ai_harness.Prelude.{
  String, ◌≡◌, refl, sym, ap, ◌∙◌, inl, inr, true, false, Option, none, some, List, [], ◌∷◌, arith,
  ◌==◌, eq_iff, Bool-cases, select, contains, Has, Dict, lookup, keys, lookup-insert,
}
use mathlib.Core.Path.{subst}
use murmur_ai_harness.Flock.Ir.{
  Node, WorkflowPlan, ids_of, find_node, ok, err, ok_inj, Result, topological_order,
}
use murmur_ai_harness.Flock.Ir.Order.{topological_order-IsGoodOrder, IsOwn}
use murmur_ai_harness.Flock.Validation.{validate_plan, is_empty}
use murmur_ai_harness.Flock.Artifact.{Artifact, Texts}
use murmur_ai_harness.Flock.Gateway.{Fault, Outcome, done, raised, Model, BudgetLedger, new_ledger}
use murmur_ai_harness.Flock.EventLog.{FlockEvent, completed_nodes}
use murmur_ai_harness.Flock.Operators.{NodeRun, is_tainted}
use murmur_ai_harness.Flock.Operators.Taint.{AreTrusted, run_operator-AreTrusted}
use murmur_ai_harness.Flock.Scheduler.{
  NodeResult, Setting, RunState, RunReport, append_event, items_of, attempt, attempt_in,
  store_outcome, context_of, run_nodes, run_plan, finish_run, report_of, start_state, restore,
  events_of, setting_of, with_validation, Executed, reported, execute_plan,
}
use murmur_ai_harness.Flock.Scheduler.Runs.{run_node-keep, run_nodes-keep}
use murmur_ai_harness.Flock.Scheduler.Report.{All-at, contains-keys}
use murmur_ai_harness.Flock.Scheduler.Resume.{has}

empty_select :
    (items : List Artifact) → is_empty (select is_tainted items) ≡ true → AreTrusted items
unfolding select
empty_select [] h = tt
empty_select (a ∷ items) h = elim (Bool-cases (is_tainted a)) [
  | inl bad ↦ let no = rw bad at h in absurd (ground arith)
  | inr fine ↦ (fine, empty_select items (rw fine at h))
]

-- The quarantine lets a trusted node run with trusted items alone, and its operator keeps them so.
attempt-AreTrusted :
    (set : Setting) (node : Node) (model : Model) (s : RunState) (out : List Artifact)
    → node.trust ≡ "trusted"
    → (attempt_in set node model s).0 ≡ done out
    → AreTrusted out
unfolding attempt
attempt-AreTrusted set node model s out trusted h =
    let items = items_of s.outputs set.sources node.inputs in
    let named = (eq_iff node.trust "trusted").1 trusted in
    elim (Bool-cases (is_empty (select is_tainted items))) [
      | inl clean ↦
          run_operator-AreTrusted (context_of set node model s) trusted (empty_select items clean)
            (record { meter = s.meter; calls = 0 }) out (rw (named, clean) at h)
      | inr bad ↦ let no = rw (named, bad) at h in cc
    ]

some_inj : {A : Type 0} {a b : A} → some a ≡ some b → a ≡ b
some_inj h = cc

-- What the results hold for an id is trusted.
abbrev IsClean : String → RunState → Type 0
IsClean x s = (r : NodeResult) → lookup x s.results ≡ some r → AreTrusted r.output

store-IsClean :
    (x : String) (node : Node) (out : Outcome (List Artifact)) (run : NodeRun) (s : RunState)
    → (node.id ≡ x → (items : List Artifact) → out ≡ done items → AreTrusted items)
    → IsClean x s
    → IsClean x (store_outcome node out run s)
unfolding append_event
store-IsClean x node (done produced) run s clean before r found = elim (Bool-cases (node.id == x)) [
  | inl here ↦
      let e = rw here at (sym (lookup-insert node.id x _ s.results) ∙ found) in
      subst (λ (q : NodeResult). AreTrusted q.output) (some_inj e)
        (clean ((eq_iff node.id x).0 here) produced refl)
  | inr there ↦ before r (rw there at (sym (lookup-insert node.id x _ s.results) ∙ found))
]
store-IsClean x node (raised e) run s clean before r found = elim (Bool-cases (node.id == x)) [
  | inl here ↦
      let e' = rw here at (sym (lookup-insert node.id x _ s.results) ∙ found) in
      subst (λ (q : NodeResult). AreTrusted q.output) (some_inj e') tt
  | inr there ↦ before r (rw there at (sym (lookup-insert node.id x _ s.results) ∙ found))
]

run_nodes-IsClean :
    (set : Setting) (ns : List Node) (x : String) (s : RunState)
    → ((n : Node) → Has n ns → n.id ≡ x → n.trust ≡ "trusted")
    → IsClean x s
    → IsClean x (run_nodes set ns s).1
run_nodes-IsClean set ns x s trusted before =
    run_nodes-keep (IsClean x) set ns
      (λ n there s' clean.
        run_node-keep (IsClean x) set n s'
          (λ model found.
            store-IsClean x n (attempt_in set n model s').0 (attempt_in set n model s').1 s'
              (λ named items h. attempt-AreTrusted set n model s' items (trusted n there named) h)
              clean)
          clean)
      s before

-- The report of a run, or else `default`.
abbrev report_in : RunReport → Executed → RunReport
report_in default (reported report) = report
report_in default other = default

-- A run that reported came from a sorted plan and a ledger.
reported_run :
    (set : Setting) (plan : WorkflowPlan) (events : Option (List FlockEvent)) (report : RunReport)
    (valid : Result (Unit {0})) (made : Outcome BudgetLedger) (sorted' : Result (List Node))
    → new_ledger plan.budget_tokens ≡ made
    → topological_order plan.nodes ≡ sorted'
    → (with_validation set plan events valid).0 ≡ reported report
    → (ledger : BudgetLedger) × (order : List Node) × (topological_order plan.nodes ≡ ok order)
      × (report.results ≡ (run_nodes set order (start_state plan ledger events)).1.results)
unfolding run_plan finish_run report_of
reported_run set plan events report (err e) made sorted' m t h = cc
reported_run set plan events report (ok u) (raised e) sorted' m t h = let no = rw m at h in cc
reported_run set plan events report (ok u) (done ledger) (err e) m t h =
    let no = rw (m, t) at h in cc
reported_run set plan events report (ok u) (done ledger) (ok order) m t h =
    let ran = rw (m, t) at h in
    (ledger, order, t, results_of (run_nodes set order (start_state plan ledger events)) ran)
  where
    results_of :
        (out : Option Fault × RunState)
        → (finish_run plan out).0 ≡ reported report
        → report.results ≡ out.1.results
    results_of (some e, s) k = cc
    results_of (none, s) k = ap (λ e. (report_in report e).results) (sym k)

-- In the report of a run, a node of the plan that is trusted, and that the log did not restore, has
-- no untrusted item in its result, whatever the sources, the models and the other nodes put out.
pub execute_plan-AreTrusted :
    (resolver : String → Outcome Model) (py : Texts) (plan : WorkflowPlan)
    (sources : Dict (List Artifact)) (untrusted : List String) (events : Option (List FlockEvent))
    (report : RunReport) (node : Node) (r : NodeResult)
    → (execute_plan resolver py plan sources untrusted events).0 ≡ reported report
    → find_node plan.nodes node.id ≡ ok node
    → node.trust ≡ "trusted"
    → contains (keys (restore (ids_of plan.nodes) (completed_nodes (events_of events))).1) node.id
      ≡ false
    → lookup node.id report.results ≡ some r
    → AreTrusted r.output
unfolding execute_plan start_state append_event
execute_plan-AreTrusted resolver py plan sources untrusted events report node r h own trusted fresh
      found =
    let set = setting_of resolver py plan sources untrusted events in
    let (ledger, order, sorts, same) =
      reported_run set plan events report (validate_plan plan) (new_ledger plan.budget_tokens)
        (topological_order plan.nodes) refl refl h in
    run_nodes-IsClean set order node.id (start_state plan ledger events)
      (λ n there named.
        let own' =
          All-at (IsOwn plan.nodes) n order
            (topological_order-IsGoodOrder plan.nodes order sorts).own there in
        let e : node ≡ n = ok_inj (sym own ∙ ap (find_node plan.nodes) (sym named) ∙ own') in
        ap (λ (m : Node). m.trust) (sym e) ∙ trusted)
      (λ q stands.
        let known = ap has stands in
        let in_keys =
          contains-keys (restore (ids_of plan.nodes) (completed_nodes (events_of events))).1
            node.id in
        let no : false ≡ true = sym fresh ∙ in_keys ∙ known in absurd (ground arith))
      r (ap (lookup node.id) (sym same) ∙ found)
