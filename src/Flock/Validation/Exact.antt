-- ===== src/Flock/Validation/Exact.antt =====
-- `validate_plan` passes exactly the plans that its rules allow.
use murmur_ai_harness.Prelude.{
  ℕ, String, ◌≡◌, refl, sym, ◌↔◌, Bool, true, false, not, List, [], ◌∷◌, arith, All, all, contains,
  IsUnique, is_nonpos,
}
use murmur_ai_harness.Flock.Ir.{
  Node, WorkflowPlan, PlanError, Result, ok, err, ◌>>=◌, node_ids, topological_order,
}
use murmur_ai_harness.Flock.Ir.Acyclic.{IsRank, topological_order_iff}
use murmur_ai_harness.Flock.Validation.{guard, check_ids, check_nodes, is_empty, validate_plan}
use murmur_ai_harness.Flock.Validation.Checks.{
  AreNamed, AreFresh, check_ids-ok, check_ids_passes, AreKnown, IsWellFormed, check_nodes_iff,
  IsClean, taint_rule,
}

-- The rules for a plan, none of which speaks of an order of checks or of a data structure.
pub record IsValid (plan : WorkflowPlan) : Type 0 where
  pub budget : is_nonpos plan.budget_tokens ≡ false
  pub some_node : is_empty plan.nodes ≡ false
  pub named : AreNamed plan.nodes
  pub unique : IsUnique (node_ids plan)
  pub well_formed : All (IsWellFormed (node_ids plan) plan.sources) plan.nodes
  pub acyclic : (rank : String → ℕ) × IsRank plan.nodes rank
  pub clean : All (IsClean plan.nodes) plan.nodes

-- Only the members of `seen` matter.
AreKnown-congr :
    (s t sources : List String) (id : String) (deps : List String)
    → ((d : String) → contains s d ≡ contains t d)
    → AreKnown s sources id deps
    → AreKnown t sources id deps
AreKnown-congr s t sources id [] same h = tt
AreKnown-congr s t sources id (d ∷ deps) same h =
    (ground (arith, same d, h.0), AreKnown-congr s t sources id deps same h.1)

IsWellFormed-congr :
    (s t sources : List String) (ns : List Node)
    → ((d : String) → contains s d ≡ contains t d)
    → All (IsWellFormed s sources) ns
    → All (IsWellFormed t sources) ns
IsWellFormed-congr s t sources [] same h = tt
IsWellFormed-congr s t sources (n ∷ ns) same h = (
  record {
    op = h.0.op;
    effort = h.0.effort;
    trust = h.0.trust;
    inputs = AreKnown-congr s t sources n.id n.inputs same h.0.inputs;
  },
  IsWellFormed-congr s t sources ns same h.1,
)

AreFresh-nil : (ns : List Node) → AreFresh [] ns
unfolding contains
AreFresh-nil [] = tt
AreFresh-nil (n ∷ ns) = (refl, AreFresh-nil ns)

-- A method that returns has returned at each of its steps.
>>=-eq-ok {κ μ} :
    {X : Type κ} {Y : Type μ} {y : Y} (step : Result X) (next : X → Result Y)
    (all : (step >>= next) ≡ ok y)
    → (x : X) × (step ≡ ok x) × (next x ≡ ok y)
>>=-eq-ok (err e) next all = cc
>>=-eq-ok (ok x) next all = (x, refl, all)

guard-ok : (b : Bool) (e : PlanError) (u : Unit {0}) → guard b e ≡ ok u → b ≡ true
guard-ok b e u h = ground arith

validate_plan-IsValid : (plan : WorkflowPlan) → validate_plan plan ≡ ok tt → IsValid plan
unfolding validate_plan contains
validate_plan-IsValid plan h =
    let (u₁, budget, h₁) = >>=-eq-ok (guard (not (is_nonpos plan.budget_tokens)) _) _ h in
    let (u₂, some_node, h₂) = >>=-eq-ok (guard (not (is_empty plan.nodes)) _) _ h₁ in
    let (seen, ids, h₃) = >>=-eq-ok (check_ids [] plan.nodes) _ h₂ in
    let (u₄, nodes, h₄) = >>=-eq-ok (check_nodes seen plan.sources plan.nodes) _ h₃ in
    let (ordered, sorts, clean) = >>=-eq-ok (topological_order plan.nodes) _ h₄ in
    let (named, unique, _, holds) = check_ids-ok [] plan.nodes seen ids in
    record {
      budget = ground (arith, guard-ok _ _ u₁ budget);
      some_node = ground (arith, guard-ok _ _ u₂ some_node);
      named = named;
      unique = unique;
      well_formed =
          IsWellFormed-congr seen (node_ids plan) plan.sources plan.nodes holds
            ((check_nodes_iff seen plan.sources plan.nodes).0 nodes);
      acyclic = (topological_order_iff plan.nodes unique).0 (ordered, sorts);
      clean = (taint_rule plan.nodes unique).0 clean;
    }

IsValid-validate_plan : (plan : WorkflowPlan) → IsValid plan → validate_plan plan ≡ ok tt
unfolding validate_plan contains
IsValid-validate_plan plan v =
    let (seen, ids, holds) =
      check_ids_passes [] plan.nodes v.named v.unique (AreFresh-nil plan.nodes) in
    let nodes = (check_nodes_iff seen plan.sources plan.nodes).1 (
      IsWellFormed-congr (node_ids plan) seen plan.sources plan.nodes (λ d. sym (holds d))
        v.well_formed) in
    let (ordered, sorts) = (topological_order_iff plan.nodes v.unique).1 v.acyclic in
    rw (v.budget, v.some_node, ids, nodes, sorts) ((taint_rule plan.nodes v.unique).1 v.clean)

-- A plan passes the validation exactly if it keeps all rules: a positive budget, at least one node,
-- ids that are named and unique, known values and inputs in each node, no cycle, and no trusted
-- node that reads an untrusted one.
pub validate_plan_iff : (plan : WorkflowPlan) → (validate_plan plan ≡ ok tt) ↔ IsValid plan
validate_plan_iff plan = (validate_plan-IsValid plan, IsValid-validate_plan plan)
