-- ===== src/Flock/Ir/Order.antt =====
-- What `topological_order` returns, and when.
use murmur_ai_harness.Prelude.{
  ℕ, ◌+◌, ◌≤◌, String, ◌≡◌, refl, sym, ap, ◌∙◌, ◌≢◌, ◌⊎◌, inl, inr, true, not, some, List, [], ◌∷◌,
  arith, ◌==◌, eq_iff, eq_refl, nat_eq, if◌then◌else◌, nat_eq_iff, Bool-cases, length, select, All,
  contains, IsUnique, count, contains→count, length-map, sorted, count-sorted, length-sorted, Dict,
  lookup, keys,
}
use mathlib.Core.Path.{ap₂, subst}
use murmur_ai_harness.Flock.Ir.{
  distinct_of, Node, ok, err, out_of_fuel, dependency_cycle, ids_of, graph_of, free_nodes,
  find_node, nodes_of, drain, finish, topological_order, for_each_node, ok_inj,
}
use murmur_ai_harness.Flock.Ir.Degrees.{
  positives, waits, IsUnique-for_each_node, length-for_each_node, length-free-add-positives,
  count-free_nodes,
}
use murmur_ai_harness.Flock.Ir.Edges.{inputs_of, needs, graph-indegree, keys-indegree}
use murmur_ai_harness.Flock.Ir.Queue.{pending-nil, IsOrdered, Inv, drain_total}

module _ (ns : List Node) where
  abbrev pub degrees : Dict ℕ
  degrees = (graph_of ns).indegree

  abbrev queue : List String
  queue = sorted (free_nodes degrees)

  pub IsUnique-keys : IsUnique (keys degrees)
  IsUnique-keys = rw keys-indegree (IsUnique-for_each_node {V = ℕ} 0 ns [] tt)

  pub length-degrees : length degrees ≡ length (for_each_node {V = ℕ} 0 ns [])
  length-degrees =
      sym (length-map degrees (λ e. e.0))
      ∙ ap length (keys-indegree ns)
      ∙ length-map (for_each_node {V = ℕ} 0 ns []) (λ e. e.0)

  Inv-start : Inv ns degrees queue []
  unfolding count needs
  Inv-start = record {
    degree = λ x. ground (arith, graph-indegree ns x, pending-nil (ids_of ns) (inputs_of x ns));
    parts = λ x. ground (
      arith,
      graph-indegree ns x,
      count-sorted x (free_nodes degrees),
      count-free_nodes x degrees IsUnique-keys,
    );
    served = tt;
    same_keys = refl;
    size = omega (arith, length-sorted (free_nodes degrees), length-free-add-positives degrees);
  }

  fuel_fits : length queue + positives degrees ≤ length ns
  fuel_fits = omega (
    arith,
    length-sorted (free_nodes degrees),
    length-free-add-positives degrees,
    length-degrees,
    length-for_each_node {V = ℕ} 0 ns [],
  )

  -- The loop ends.
  pub loop_total :
      (final : List String) × (last : Dict ℕ) × (drain
          (length ns)
          (graph_of ns).dependents
          degrees
          queue
          []
        ≡ some final)
      × Inv ns last [] final
  loop_total = drain_total ns (length ns) degrees queue [] Inv-start fuel_fits

abbrev pub IsOwn : List Node → Node → Type 0
IsOwn ns n = find_node ns n.id ≡ ok n

find_node_known :
    (ns : List Node) (x : String)
    → contains (ids_of ns) x ≡ true
    → (n : Node) × (find_node ns x ≡ ok n) × (n.id ≡ x)
unfolding find_node contains
find_node_known [] x h = cc
find_node_known (n ∷ ns) x h = elim (Bool-cases (n.id == x)) [
  | inl same ↦ (n, rw same, (eq_iff n.id x).0 same)
  | inr other ↦
      let (m, found, named) = find_node_known ns x (ground arith) in (m, rw other found, named)
]

nodes_of_known :
    (ns : List Node) (xs : List String)
    → ((x : String) → contains xs x ≡ true → contains (ids_of ns) x ≡ true)
    → (l : List Node) × (nodes_of ns xs ≡ ok l) × (ids_of l ≡ xs) × All (IsOwn ns) l
unfolding nodes_of contains
nodes_of_known ns [] h = ([], refl, refl, tt)
nodes_of_known ns (x ∷ xs) h =
    let (n, found, named) = find_node_known ns x (h x (ground (arith, eq_refl x))) in
    let (l, rest, same, own) = nodes_of_known ns xs (λ y m. h y (ground arith)) in
    (n ∷ l, rw (found, rest), ap₂ (λ y ys. y ∷ ys) named same, (rw named found, own))

waits-le-positives : (x : String) (d : Dict ℕ) → waits (lookup x d) ≤ positives d
unfolding lookup
waits-le-positives x [] = omega arith
waits-le-positives x ((k, v) ∷ d) = ground (arith, waits-le-positives x d)

-- The nodes in the order found, as `finish` gives them.
module _ (ns : List Node) {final : List String} {last : Dict ℕ} (inv : Inv ns last [] final) where
  final_known : (x : String) → contains final x ≡ true → contains (ids_of ns) x ≡ true
  unfolding count
  final_known x m = ground (arith, inv.parts x, contains→count x final)

  final_nodes : (l : List Node) × (nodes_of ns final ≡ ok l) × (ids_of l ≡ final) × All (IsOwn ns) l
  final_nodes = nodes_of_known ns final final_known

  no_waiting : length final ≡ length ns → positives last ≡ 0
  no_waiting h = omega (arith, inv.size, length-degrees ns, length-for_each_node {V = ℕ} 0 ns [])

  final_once :
      length final ≡ length ns
      → (x : String) → count x final ≡ (if contains (ids_of ns) x then 1 else 0)
  unfolding count
  final_once h x = ground (arith, inv.parts x, no_waiting h, waits-le-positives x last)

-- A result of `topological_order` is a good order.
pub record IsGoodOrder (ns ordered : List Node) : Type 0 where
  pub once : (x : String) → count x (ids_of ordered) ≡ (if contains (ids_of ns) x then 1 else 0)
  pub own : All (IsOwn ns) ordered
  pub behind_inputs : IsOrdered ns [] (ids_of ordered)

-- What the loop leaves decides what `topological_order` gives.
pub topological_order_cases :
    (ns : List Node)
    → ((ordered : List Node) × (topological_order ns ≡ ok ordered) × IsGoodOrder ns ordered)
      ⊎ ((final : List String) × (last : Dict ℕ) × (topological_order ns
            ≡ err (
                dependency_cycle
                  (sorted (distinct_of (select (λ id. not (contains final id)) (ids_of ns))))))
          × Inv ns last [] final
          × (length final ≢ length ns))
unfolding topological_order finish
topological_order_cases ns =
    let (final, last, ran, inv) = loop_total ns in
    elim (Bool-cases (nat_eq (length final) (length ns))) [
      | inl full ↦
          let (l, found, same, own) = final_nodes ns inv in
          let as_long : length final ≡ length ns = (nat_eq_iff _ _).0 full in
          inl (
            l,
            rw (ran, full) found,
            record {
              once = λ x. rw same (final_once ns inv as_long x);
              own = own;
              behind_inputs = rw same inv.served;
            },
          )
      | inr short ↦ inr (
        final,
        last,
        rw (ran, short),
        inv,
        λ e. ground (arith, (nat_eq_iff (length final) (length ns)).1),
      )
    ]

-- The loop of Kahn's algorithm never runs out of its fuel, the number of nodes.
pub topological_order-terminates : (ns : List Node) → topological_order ns ≢ err out_of_fuel
topological_order-terminates ns = elim (topological_order_cases ns) [
  | inl (l, e, _) ↦ λ h. ground arith
  | inr (final, last, e, _, _) ↦ λ h. ground arith
]

-- A returned order names each node id once and no other, holds the plan's own nodes, and puts each
-- node behind all of its inputs that are nodes.
pub topological_order-IsGoodOrder :
    (ns ordered : List Node) → topological_order ns ≡ ok ordered → IsGoodOrder ns ordered
topological_order-IsGoodOrder ns ordered h = elim (topological_order_cases ns) [
  | inl (l, e, good) ↦ subst (IsGoodOrder ns) (ok_inj (sym e ∙ h)) good
  | inr (final, last, e, _, _) ↦ absurd (ground arith)
]
