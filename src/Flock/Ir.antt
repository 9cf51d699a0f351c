-- ===== src/Flock/Ir.antt =====
-- murmur/flock/ir.py: the plan and its order of execution (Kahn's algorithm).
pub mod Degrees
pub mod Edges
pub mod Queue
pub mod Order
pub mod Acyclic
use murmur_ai_harness.Prelude.{
  ℕ, zero, suc, ◌+◌, ◌-◌, ◌*◌, ◌/◌, ◌%◌, ◌≤◌, ◌<◌, min, max, String, ◌≡◌, refl, sym, ap, ◌∙◌, ◌≢◌,
  ◌↔◌, ◌⊎◌, inl, inr, Bool, true, false, not, ◌&&◌, ◌||◌, Option, none, some, List, [], ◌∷◌, ◌++◌,
  map, arith, ◌==◌, eq_iff, eq_refl, ltb, leb, nat_eq, str_le, if◌then◌else◌, leb→le, le→leb,
  nat_eq_iff, &&_iff, Bool-cases, Option-cases, concat, has_text, join, length, take, drop,
  length-append, take-append-drop, length-take, select, All, all, any, contains, IsUnique, count,
  count-append, contains-append, contains→count, count→contains, length-map, Has, Zip, All-map,
  All-intro, map-cong, All-Has, Has-map, length-select-cons, length-select, Has-select, Has-last,
  Has→contains, append-eq-nil, place, sort, length-sort, sorted, count-sort, count-sorted,
  length-sorted, IsChain, place-perm, sort-perm, IsSorted, sort-IsChain, sort-IsSorted, All-sort,
  Has-sort, Dict, lookup, insert, update, keys, lookup-insert, lookup-update, pos_part, is_nonpos,
  neg_part, sub_ℕ, ◌+ℤ◌, leb_ℤ, ℤ, pos, negsuc,
}

-- The values of `params` that the operators read, behind their calls of `int` and `str`.
pub record Params : Type 0 where
  pub top_k : Option ℤ
  pub max_iters : Option ℤ
  pub stop : Option String

pub record Node : Type 0 where
  pub id : String
  pub op : String
  pub role : String
  pub inputs : List String
  pub model : String
  pub effort : String
  pub trust : String
  pub params : Params

pub record WorkflowPlan : Type 0 where
  pub goal : String
  pub budget_tokens : ℤ
  pub nodes : List Node
  pub sources : List String

-- A `PlanValidationError`, by the place that raises it; `key_error` is the `KeyError` of `node`.
-- `out_of_fuel` stands for a loop that does not end.
pub data PlanError : Type 0 where
  budget_not_positive no_nodes empty_id out_of_fuel : PlanError
  duplicate_id unknown_op unknown_effort unknown_trust self_dependency : String → PlanError
  unknown_input : (id dep : String) → PlanError
  dependency_cycle : List String → PlanError
  tainted_inputs : (id : String) → List String → PlanError
  key_error : String → PlanError

pub data Result {ℓ} (A : Type ℓ) : Type ℓ where
  ok : A → Result A
  err : PlanError → Result A

-- The first error ends the method.
infixl 5 ◌>>◌
infixl 5 ◌>>=◌
abbrev pub ◌>>=◌ {κ μ} : {X : Type κ} {Y : Type μ} → Result X → (X → Result Y) → Result Y
step >>= next = elim step [ err e ↦ err e | ok x ↦ next x ]

abbrev pub ◌>>◌ {κ} : {Y : Type κ} → Result (Unit {0}) → Result Y → Result Y
check >> next = check >>= (λ _. next)

abbrev pub ids_of : List Node → List String
ids_of ns = map (λ (n : Node). n.id) ns

abbrev pub node_ids : WorkflowPlan → List String
node_ids plan = ids_of plan.nodes

-- `WorkflowPlan.node`
unfoldable pub find_node : List Node → String → Result Node
find_node [] id = err (key_error id)
find_node (n ∷ ns) id = if n.id == id then ok n else find_node ns id

-- The two dictionaries that `topological_order` builds first.
pub record Graph : Type 0 where
  pub indegree : Dict ℕ
  pub dependents : Dict (List String)

-- A dictionary with one value for all nodes.
unfoldable pub for_each_node {ℓ} : {V : Type ℓ} → V → List Node → Dict V → Dict V
for_each_node v [] d = d
for_each_node v (n ∷ ns) d = for_each_node v ns (insert n.id v d)

-- One edge, from `dep` to the node `id`. Both are keys.
unfoldable pub add_edge : String → String → Graph → Graph
add_edge id dep g = record {
  indegree = update id (λ d. d + 1) g.indegree;
  dependents = update dep (λ l. l ++ id ∷ []) g.dependents;
}

-- A source is no scheduling dependency.
unfoldable pub link : List String → String → String → Graph → Graph
unfolding add_edge
link ids id dep g = if contains ids dep then add_edge id dep g else g

unfoldable pub add_inputs : List String → String → List String → Graph → Graph
add_inputs ids id [] g = g
add_inputs ids id (dep ∷ deps) g = add_inputs ids id deps (link ids id dep g)

unfoldable pub add_nodes : List String → List Node → Graph → Graph
add_nodes ids [] g = g
add_nodes ids (n ∷ ns) g = add_nodes ids ns (add_inputs ids n.id n.inputs g)

unfoldable pub graph_of : List Node → Graph
graph_of ns =
    add_nodes (ids_of ns) ns
      (record { indegree = for_each_node 0 ns []; dependents = for_each_node [] ns [] })

-- [nid for nid, d in indegree.items() if d == 0]
unfoldable pub free_nodes : Dict ℕ → List String
free_nodes [] = []
free_nodes ((id, d) ∷ rest) = if nat_eq d 0 then id ∷ free_nodes rest else free_nodes rest

abbrev pub dependents_of : String → Dict (List String) → List String
dependents_of id d = elim (lookup id d) [ none ↦ [] | some l ↦ l ]

-- Whether taking one off makes the degree zero. (A degree below zero never gets there, so that
-- `- 1` on ℕ, which stops at zero, queues the same nodes as the program.)
abbrev pub is_last : Option ℕ → Bool
is_last none = false
is_last (some d) = nat_eq d 1

-- The inner loop, over the sorted dependents of the node taken.
unfoldable pub relax : List String → Dict ℕ → List String → Dict ℕ × List String
relax [] degrees ready = (degrees, ready)
relax (child ∷ rest) degrees ready =
    relax rest (update child (λ d. d - 1) degrees)
      (if is_last (lookup child degrees) then ready ++ child ∷ [] else ready)

-- The loop `while ready`.
unfoldable pub drain :
    ℕ → Dict (List String) → Dict ℕ → List String → List String → Option (List String)
drain zero dependents degrees [] ordered = some ordered
drain zero dependents degrees (id ∷ ready) ordered = none
drain (suc fuel) dependents degrees [] ordered = some ordered
drain (suc fuel) dependents degrees (id ∷ ready) ordered =
    let (degrees', ready') = relax (sorted (dependents_of id dependents)) degrees ready in
    drain fuel dependents degrees' ready' (ordered ++ id ∷ [])

unfoldable pub nodes_of : List Node → List String → Result (List Node)
nodes_of ns [] = ok []
nodes_of ns (id ∷ ids) = do n ← find_node ns id; rest ← nodes_of ns ids; ok (n ∷ rest)

-- set(ids): each id once.
unfoldable pub distinct_of : List String → List String
unfolding contains
distinct_of [] = []
distinct_of (id ∷ ids) = let rest = distinct_of ids in if contains ids id then rest else id ∷ rest

-- What follows the loop.
unfoldable pub finish : List Node → Option (List String) → Result (List Node)
finish ns none = err out_of_fuel
finish ns (some ordered) =
    if nat_eq (length ordered) (length ns)
    then nodes_of ns ordered
    else err (
        dependency_cycle
          (sorted (distinct_of (select (λ id. not (contains ordered id)) (ids_of ns)))))

unfoldable pub topological_order : List Node → Result (List Node)
topological_order ns =
    let g = graph_of ns in
    finish ns (drain (length ns) g.dependents g.indegree (sorted (free_nodes g.indegree)) [])

pub ok_inj {ℓ} : {A : Type ℓ} {a b : A} → ok a ≡ ok b → a ≡ b
ok_inj h = cc
