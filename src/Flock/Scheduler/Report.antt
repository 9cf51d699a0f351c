-- ===== src/Flock/Scheduler/Report.antt =====
-- What `execute_plan` reports of a valid plan.
use mathlib.Core.Path.{subst}
use murmur_ai_harness.Prelude.{
  String, ◌≡◌, refl, sym, ap, ◌∙◌, ◌⊎◌, inl, inr, Bool, true, false, Option, none, some, List, [],
  ◌∷◌, arith, ◌==◌, Bool-cases, length, All, contains, count→contains, Has, Dict, lookup, keys,
  pos_part, is_nonpos, ℤ,
}
use murmur_ai_harness.Flock.Ir.{Node, WorkflowPlan, ids_of, node_ids, ok, topological_order}
use murmur_ai_harness.Flock.Ir.Order.{topological_order-IsGoodOrder, IsOwn}
use murmur_ai_harness.Flock.Ir.Acyclic.{topological_order_iff}
use murmur_ai_harness.Flock.Validation.{validate_plan}
use murmur_ai_harness.Flock.Validation.Exact.{validate_plan_iff}
use murmur_ai_harness.Flock.Artifact.{Artifact, Texts}
use murmur_ai_harness.Flock.Gateway.{Outcome, done, raised, Fault, Model, BudgetLedger, new_ledger}
use murmur_ai_harness.Flock.Gateway.Accounts.{
  IsAccounted, complete-IsAccounted, billed_log, cost_log,
}
use murmur_ai_harness.Flock.EventLog.{FlockEvent, run_finished, completed_nodes, complete_with}
use murmur_ai_harness.Flock.Scheduler.{
  NodeResult, Setting, RunState, append_event, attempt_in, run_nodes, restore, start_state,
  events_of, execute_plan, Executed, reported, RunReport, report_of, run_plan, with_ledger,
  with_validation, crashed, finish_run, setting_of, all_ok,
}
use murmur_ai_harness.Flock.Scheduler.Runs.{run_nodes-meter, run_node-keep, run_nodes-keep}
use murmur_ai_harness.Flock.Scheduler.Resume.{
  has, completed, IsLogged, log_other, start-IsLogged, run_nodes-IsLogged, run_nodes-results,
  run_nodes-crash, store-results,
}

pub contains-keys : {V : Type 0} (d : Dict V) (x : String) → contains (keys d) x ≡ has (lookup x d)
unfolding contains lookup
contains-keys [] x = refl
contains-keys ((k, v) ∷ d) x = elim (Bool-cases (k == x)) [
  | inl e ↦ rw e refl
  | inr e ↦ rw e (contains-keys d x)
]

pub All-at : {A : Type 0} (P : A → Type 0) (a : A) (xs : List A) → All P xs → Has a xs → P a
All-at P a [] h m = elim m [ ]
All-at P a (x ∷ xs) h (inl e) = subst P e h.0
All-at P a (x ∷ xs) h (inr m) = All-at P a xs h.1 m

run_nodes-known :
    (set : Setting) (ns : List Node) (s : RunState) (x : String)
    → has (lookup x s.results) ≡ true
    → has (lookup x (run_nodes set ns s).1.results) ≡ true
run_nodes-known set ns s x h =
    run_nodes-keep (λ s'. has (lookup x s'.results) ≡ true) set ns
      (λ n there s' known.
        run_node-keep (λ s''. has (lookup x s''.results) ≡ true) set n s'
          (λ model found.
            store-results n (attempt_in set n model s').0 (attempt_in set n model s').1 s' x
            ∙ rw known (ground arith))
          known)
      s h

-- A report covers each node of the plan, and its spending is what the logged calls cost.
pub record IsReport (plan : WorkflowPlan) (r : RunReport) : Type 0 where
  pub every_node :
      (x : String) → contains (node_ids plan) x ≡ true → has (lookup x r.results) ≡ true
  pub tokens : r.spent_tokens ≡ billed_log r.log
  pub costs : r.spent_cost ≡ cost_log r.log
  pub calls : r.model_calls ≡ length r.log

module _ (set : Setting) (plan : WorkflowPlan) (ledger : BudgetLedger)
    (events : Option (List FlockEvent)) (order : List Node)
    (fresh_ledger : IsAccounted (record { ledger = ledger; log = []; asked = 0 }))
    (replays : set.replayed
      ≡ keys (restore (ids_of plan.nodes) (completed_nodes (events_of events))).1)
    (sorts : topological_order plan.nodes ≡ ok order) where
  ended : Option Fault × RunState
  ended = run_nodes set order (start_state plan ledger events)

  in_order : (x : String) → contains (node_ids plan) x ≡ true → contains (ids_of order) x ≡ true
  in_order x known =
      count→contains x (ids_of order)
        (ground (arith, (topological_order-IsGoodOrder plan.nodes order sorts).once x))

  report_of-IsReport : ended.0 ≡ none → IsReport plan (report_of plan ended.1)
  unfolding report_of ended start_state append_event
  report_of-IsReport went =
      let a =
        run_nodes-meter IsAccounted set (λ n model r m q. complete-IsAccounted model n.id r m q)
          order (start_state plan ledger events) fresh_ledger in
      record {
        every_node = λ x known. elim (Bool-cases (contains set.replayed x)) [
          | inl old ↦ run_nodes-known set order (start_state plan ledger events) x (
              sym (
                contains-keys (restore (ids_of plan.nodes) (completed_nodes (events_of events))).1
                  x)
              ∙ ap (λ l. contains l x) (sym replays)
              ∙ old)
          | inr new ↦
              run_nodes-results set order (start_state plan ledger events) x new went
              ∙ rw (in_order x known) refl
        ];
        tokens = a.tokens;
        costs = a.costs;
        calls = a.calls;
      }

-- What a valid plan comes to: a report and, where there is a log, a log from which each node that
-- the report calls ok is restored.
pub record IsRun (plan : WorkflowPlan) (has_log : Bool) (out : Executed × Option (List FlockEvent))
    : Type 0 where
  pub report : RunReport
  pub is_reported : out.0 ≡ reported report
  pub reported_all : IsReport plan report
  pub resumable :
      has_log ≡ true
      → (es : List FlockEvent) × (out.1 ≡ some es)
        × ((x : String) (r : NodeResult)
            → lookup x report.results ≡ some r
            → r.error ≡ none
            → lookup x (completed_nodes es) ≡ some (completed r))

log_end : (b : Bool) (s : RunState) → IsLogged s → IsLogged (append_event (run_finished b) s)
unfolding complete_with
log_end b s l = log_other (run_finished b) s (λ d. refl) l

-- What a valid plan comes to where the resolver raises, for a node that the log did not restore.
pub record IsCrash (resolver : String → Outcome Model) (plan : WorkflowPlan)
    (events : Option (List FlockEvent)) (out : Executed × Option (List FlockEvent)) : Type 0 where
  pub error : Fault
  pub node : Node
  pub is_crashed : out.0 ≡ crashed error
  pub own : IsOwn plan.nodes node
  pub not_restored :
      contains (keys (restore (ids_of plan.nodes) (completed_nodes (events_of events))).1) node.id
      ≡ false
  pub why : resolver node.model ≡ raised error

module _ (set : Setting) (plan : WorkflowPlan) (ledger : BudgetLedger)
    (events : Option (List FlockEvent)) (order : List Node)
    (fresh_ledger : IsAccounted (record { ledger = ledger; log = []; asked = 0 }))
    (replays : set.replayed
      ≡ keys (restore (ids_of plan.nodes) (completed_nodes (events_of events))).1)
    (sorts : topological_order plan.nodes ≡ ok order) where
  logged :
      (started : Option (List FlockEvent))
      → events ≡ started
      → has started ≡ true
      → IsLogged (run_nodes set order (start_state plan ledger events)).1
  logged none e h = absurd (ground arith)
  logged (some es) e h =
      run_nodes-IsLogged set order (start_state plan ledger events)
        (rw e (start-IsLogged plan ledger es))

  ended-IsRun :
      (out : Option Fault × RunState)
      → run_nodes set order (start_state plan ledger events) ≡ out
      → IsRun plan (has events) (finish_run plan out)
        ⊎ IsCrash set.resolver plan events (finish_run plan out)
  unfolding finish_run report_of ended
  ended-IsRun (some e, s) ran =
      let (n, stands, new, why) =
        run_nodes-crash set order (start_state plan ledger events) e (ap (λ o. o.0) ran) in
      inr (record {
        error = e;
        node = n;
        is_crashed = refl;
        own =
            All-at (IsOwn plan.nodes) n order
              (topological_order-IsGoodOrder plan.nodes order sorts).own stands;
        not_restored = ap (λ l. contains l n.id) (sym replays) ∙ new;
        why = why;
      })
  ended-IsRun (none, s) ran = inl (record {
    report = report_of plan s;
    is_reported = refl;
    reported_all =
        subst (λ (o : Option Fault × RunState). IsReport plan (report_of plan o.1)) ran
          (report_of-IsReport set plan ledger events order fresh_ledger replays sorts
            (ap (λ o. o.0) ran));
    resumable = λ h.
        let l =
          log_end (all_ok s.results) s
            (subst (λ (o : Option Fault × RunState). IsLogged o.1) ran (logged events refl h)) in
        (l.es, l.has_log, l.restored);
  })

fresh_ledger :
    (budget : ℤ)
    → is_nonpos budget ≡ false
    → (l : BudgetLedger) × (new_ledger budget ≡ done l)
      × IsAccounted (record { ledger = l; log = []; asked = 0 })
unfolding new_ledger billed_log cost_log
fresh_ledger budget h = (
  record { budget = pos_part budget; spent_tokens = 0; spent_cost = 0; calls = 0 },
  rw h refl,
  record { tokens = refl; costs = refl; calls = refl },
)

-- A plan that passes the validation runs to a report, or ends with what the resolver raised for the
-- model of one of its nodes that the log did not restore; nothing that a model does ends it. The
-- report has a result for every node; its tokens, cost and number of calls are those of the calls
-- in its log. If there is an event log, then each node with a result without an error is restored
-- from it with the same output by the next run.
pub execute_plan-IsRun :
    (resolver : String → Outcome Model) (py : Texts) (plan : WorkflowPlan)
    (sources : Dict (List Artifact)) (untrusted : List String) (events : Option (List FlockEvent))
    → validate_plan plan ≡ ok tt
    → IsRun plan (has events) (execute_plan resolver py plan sources untrusted events)
      ⊎ IsCrash resolver plan events (execute_plan resolver py plan sources untrusted events)
unfolding execute_plan run_plan
execute_plan-IsRun resolver py plan sources untrusted events valid =
    let v = (validate_plan_iff plan).0 valid in
    let (order, sorts) = (topological_order_iff plan.nodes v.unique).1 v.acyclic in
    let (ledger, made, a) = fresh_ledger plan.budget_tokens v.budget in
    let set = setting_of resolver py plan sources untrusted events in
    let e =
      ap (with_validation set plan events) valid
      ∙ ap (with_ledger set plan events) made
      ∙ ap (run_plan set plan (start_state plan ledger events)) sorts in
    subst (λ out. IsRun plan (has events) out ⊎ IsCrash resolver plan events out) (sym e)
      (ended-IsRun set plan ledger events order a refl sorts _ refl)
