-- ===== src/Examples/Plans.antt =====
-- Plans that are validated and put in order.
use murmur_ai_harness.Prelude.{
  ℕ, String, ◌≡◌, refl, ◌≢◌, ◌↔◌, List, [], ◌∷◌, select, contains, sorted, lookup, insert, update,
}
use murmur_ai_harness.Examples.{two_nodes, two_steps}
use murmur_ai_harness.Flock.Ir.{
  Node, ok, err, out_of_fuel, topological_order, finish, drain, free_nodes, graph_of, add_nodes,
  add_inputs, link, for_each_node, relax, nodes_of, find_node,
}
use murmur_ai_harness.Flock.Ir.Order.{
  topological_order-terminates, topological_order-IsGoodOrder, IsGoodOrder,
}
use murmur_ai_harness.Flock.Ir.Acyclic.{topological_order_iff, IsRank}
use murmur_ai_harness.Flock.Validation.{
  validate_plan, check_ids, check_nodes, check_inputs, check_taint, tainted, trust_of,
}
use murmur_ai_harness.Flock.Validation.Exact.{validate_plan_iff, IsValid}

abbrev reversed : List Node → List Node
reversed (a ∷ b ∷ []) = b ∷ a ∷ []
reversed ns = ns

sorts : topological_order two_nodes ≡ ok (reversed two_nodes)
unfolding topological_order finish drain sorted free_nodes graph_of add_nodes add_inputs link
    contains update for_each_node insert relax lookup nodes_of find_node
sorts = refl

topological_order-terminates_example : topological_order two_nodes ≢ err out_of_fuel
topological_order-terminates_example = topological_order-terminates two_nodes

topological_order-IsGoodOrder_example : IsGoodOrder two_nodes (reversed two_nodes)
topological_order-IsGoodOrder_example =
    topological_order-IsGoodOrder two_nodes (reversed two_nodes) sorts

topological_order_iff_example :
    ((ordered : List Node) × (topological_order two_nodes ≡ ok ordered))
    ↔ ((rank : String → ℕ) × IsRank two_nodes rank)
unfolding contains
topological_order_iff_example = topological_order_iff two_nodes (refl, (refl, tt))

validate_plan_iff_example : (validate_plan two_steps ≡ ok tt) ↔ IsValid two_steps
validate_plan_iff_example = validate_plan_iff two_steps

pub valid : validate_plan two_steps ≡ ok tt
unfolding validate_plan check_ids contains check_nodes check_inputs topological_order finish drain
    sorted free_nodes graph_of add_nodes add_inputs link update for_each_node insert relax find_node
    nodes_of check_taint tainted trust_of lookup select
valid = refl
