-- ===== src/Flock/Validation.antt =====
-- murmur/flock/ir.py: `validate_plan`, check by check, in its order.
pub mod Checks
pub mod Exact
use murmur_ai_harness.Prelude.{
  ℕ, zero, suc, ◌+◌, ◌-◌, ◌*◌, ◌/◌, ◌%◌, ◌≤◌, ◌<◌, min, max, String, ◌≡◌, refl, sym, ap, ◌∙◌, ◌≢◌,
  ◌↔◌, ◌⊎◌, inl, inr, Bool, true, false, not, ◌&&◌, ◌||◌, Option, none, some, List, [], ◌∷◌, ◌++◌,
  map, arith, ◌==◌, eq_iff, eq_refl, ltb, leb, nat_eq, str_le, if◌then◌else◌, leb→le, le→leb,
  nat_eq_iff, &&_iff, Bool-cases, Option-cases, concat, has_text, join, length, take, drop,
  length-append, take-append-drop, length-take, select, All, all, any, contains, IsUnique, count,
  count-append, contains-append, contains→count, count→contains, length-map, Has, Zip, All-map,
  All-intro, map-cong, All-Has, Has-map, length-select-cons, length-select, Has-select, Has-last,
  Has→contains, append-eq-nil, place, sort, length-sort, sorted, count-sort, count-sorted,
  length-sorted, place-perm, sort-perm, IsSorted, sort-IsSorted, All-sort, Has-sort, Dict, lookup,
  insert, update, keys, lookup-insert, lookup-update, pos_part, is_nonpos, neg_part, sub_ℕ, ◌+ℤ◌,
  leb_ℤ, ℤ, pos, negsuc,
}
use murmur_ai_harness.Flock.Ir.{
  Node, WorkflowPlan, PlanError, budget_not_positive, no_nodes, empty_id, duplicate_id, unknown_op,
  unknown_effort, unknown_trust, self_dependency, unknown_input, tainted_inputs, Result, ok, err,
  ◌>>=◌, ◌>>◌, ids_of, topological_order,
}

abbrev pub ops : List String
ops = "classify" ∷ "map" ∷ "reduce" ∷ "tournament" ∷ "verify" ∷ "filter" ∷ "loop" ∷ []

abbrev pub efforts : List String
efforts = "low" ∷ "high" ∷ []

abbrev pub trust_levels : List String
trust_levels = "trusted" ∷ "untrusted" ∷ []

-- `if not test: raise error`
abbrev pub guard : Bool → PlanError → Result (Unit {0})
guard b e = if b then ok tt else err e

-- The loop that fills `seen`.
unfoldable pub check_ids : List String → List Node → Result (List String)
check_ids seen [] = ok seen
check_ids seen (n ∷ ns) = do
  guard (not (n.id == "")) empty_id
  guard (not (contains seen n.id)) (duplicate_id n.id)
  check_ids (n.id ∷ seen) ns

unfoldable pub check_inputs : List String → List String → String → List String → Result (Unit {0})
check_inputs seen sources id [] = ok tt
check_inputs seen sources id (dep ∷ deps) = do
  guard (not (dep == id)) (self_dependency id)
  guard (contains seen dep || contains sources dep) (unknown_input id dep)
  check_inputs seen sources id deps

unfoldable pub check_nodes : List String → List String → List Node → Result (Unit {0})
check_nodes seen sources [] = ok tt
check_nodes seen sources (n ∷ ns) = do
  guard (contains ops n.op) (unknown_op n.id)
  guard (contains efforts n.effort) (unknown_effort n.id)
  guard (contains trust_levels n.trust) (unknown_trust n.id)
  check_inputs seen sources n.id n.inputs
  check_nodes seen sources ns

-- {n.id: n.trust for n in plan.nodes}
unfoldable pub trust_of : List Node → Dict String → Dict String
trust_of [] d = d
trust_of (n ∷ ns) d = trust_of ns (insert n.id n.trust d)

abbrev pub is_untrusted : Option String → Bool
is_untrusted none = false
is_untrusted (some t) = t == "untrusted"

unfoldable pub tainted : Dict String → Node → List String
tainted trusts n = select (λ d. is_untrusted (lookup d trusts)) n.inputs

abbrev pub is_empty {ℓ} : {A : Type ℓ} → List A → Bool
is_empty [] = true
is_empty (x ∷ xs) = false

unfoldable pub check_taint : Dict String → List Node → Result (Unit {0})
check_taint trusts [] = ok tt
check_taint trusts (n ∷ ns) = do
  guard (not (n.trust == "trusted" && not (is_empty (tainted trusts n))))
      (tainted_inputs n.id (tainted trusts n))
  check_taint trusts ns

unfoldable pub validate_plan : WorkflowPlan → Result (Unit {0})
validate_plan plan = do
  guard (not (is_nonpos plan.budget_tokens)) budget_not_positive
  guard (not (is_empty plan.nodes)) no_nodes
  seen ← check_ids [] plan.nodes
  check_nodes seen plan.sources plan.nodes
  _ ← topological_order plan.nodes
  check_taint (trust_of plan.nodes []) plan.nodes
