-- ===== src/Flock/Ir/Edges.antt =====
-- What `graph_of` builds: the degree of a node counts its inputs that are nodes, and the
-- dependents of a node name each node as often as it names that input.
use murmur_ai_harness.Prelude.{
  ℕ, ◌+◌, String, ◌≡◌, refl, ◌∙◌, inl, inr, Bool, true, ◌&&◌, none, some, List, [], ◌∷◌, ◌++◌,
  arith, ◌==◌, eq_iff, if◌then◌else◌, Bool-cases, length, select, contains, count, count-append,
  lookup, keys, lookup-update,
}
use murmur_ai_harness.Flock.Ir.{
  Node, Graph, link, add_inputs, add_nodes, graph_of, for_each_node, dependents_of, ids_of,
}
use murmur_ai_harness.Flock.Ir.Degrees.{
  keys-update, lookup-for_each_node, lookup_absent, contains-keys-for_each_node,
}

-- The inputs of the node with this id.
unfoldable pub inputs_of : String → List Node → List String
inputs_of x [] = []
inputs_of x (n ∷ ns) = if n.id == x then n.inputs ++ inputs_of x ns else inputs_of x ns

-- How many of the inputs are nodes.
unfoldable pub needs : List String → List String → ℕ
needs ids deps = length (select (contains ids) deps)

needs-append : (ids xs ys : List String) → needs ids (xs ++ ys) ≡ needs ids xs + needs ids ys
unfolding needs select
needs-append ids [] ys = omega arith
needs-append ids (x ∷ xs) ys = ground (arith, needs-append ids xs ys)

abbrev pub one_if : Bool → ℕ
one_if b = if b then 1 else 0

module _ (ids : List String) (id dep : String) (g : Graph) where
  link-indegree :
      (x : String) (d : ℕ)
      → lookup x g.indegree ≡ some d
      → lookup x (link ids id dep g).indegree ≡ some (d + one_if (contains ids dep && id == x))
  unfolding link
  link-indegree x d h = ground (arith, lookup-update id x (λ d. d + 1) g.indegree)

  link-dependents :
      (m : String) (l : List String)
      → lookup m g.dependents ≡ some l
      → lookup m (link ids id dep g).dependents
        ≡ some (if contains ids dep && dep == m then l ++ id ∷ [] else l)
  unfolding link
  link-dependents m l h = ground (arith, lookup-update dep m (λ l. l ++ id ∷ []) g.dependents)

add_inputs-indegree :
    (ids : List String) (id : String) (deps : List String) (g : Graph) (x : String) (d : ℕ)
    → lookup x g.indegree ≡ some d
    → lookup x (add_inputs ids id deps g).indegree
      ≡ some (d + (if id == x then needs ids deps else 0))
unfolding add_inputs needs select
add_inputs-indegree ids id [] g x d h = ground arith
add_inputs-indegree ids id (dep ∷ deps) g x d h = ground (
  arith,
  link-indegree ids id dep g x d,
  add_inputs-indegree ids id deps (link ids id dep g) x (d + one_if (contains ids dep && id == x)),
)

-- The dependents of `m` after the inputs of one node, and of all nodes, are in.
fan : List String → String → String → List String → List String → List String
fan ids id m [] l = l
fan ids id m (dep ∷ deps) l =
    fan ids id m deps (if contains ids dep && dep == m then l ++ id ∷ [] else l)

fan_all : List String → String → List Node → List String → List String
fan_all ids m [] l = l
fan_all ids m (n ∷ ns) l = fan_all ids m ns (fan ids n.id m n.inputs l)

count-fan :
    (ids : List String) (id m x : String) (deps l : List String)
    → contains ids m ≡ true
    → count x (fan ids id m deps l) ≡ count x l + (if id == x then count m deps else 0)
unfolding fan count
count-fan ids id m x [] l h = ground arith
count-fan ids id m x (dep ∷ deps) l h = ground (
  arith,
  eq_iff dep m,
  count-append x l (id ∷ []),
  count-fan ids id m x deps (if contains ids dep && dep == m then l ++ id ∷ [] else l),
)

count-fan_all :
    (ids : List String) (m x : String) (ns : List Node) (l : List String)
    → contains ids m ≡ true
    → count x (fan_all ids m ns l) ≡ count x l + count m (inputs_of x ns)
unfolding fan_all inputs_of count
count-fan_all ids m x [] l h = omega arith
count-fan_all ids m x (n ∷ ns) l h = ground (
  arith,
  count-fan ids n.id m x n.inputs l,
  count-append m n.inputs (inputs_of x ns),
  count-fan_all ids m x ns (fan ids n.id m n.inputs l),
)

add_inputs-dependents :
    (ids : List String) (id : String) (deps : List String) (g : Graph) (m : String)
    (l : List String)
    → lookup m g.dependents ≡ some l
    → lookup m (add_inputs ids id deps g).dependents ≡ some (fan ids id m deps l)
unfolding add_inputs fan
add_inputs-dependents ids id [] g m l h = h
add_inputs-dependents ids id (dep ∷ deps) g m l h =
    add_inputs-dependents ids id deps (link ids id dep g) m _ (link-dependents ids id dep g m l h)

add_nodes-dependents :
    (ids : List String) (ns : List Node) (g : Graph) (m : String) (l : List String)
    → lookup m g.dependents ≡ some l
    → lookup m (add_nodes ids ns g).dependents ≡ some (fan_all ids m ns l)
unfolding add_nodes fan_all
add_nodes-dependents ids [] g m l h = h
add_nodes-dependents ids (n ∷ ns) g m l h =
    add_nodes-dependents ids ns (add_inputs ids n.id n.inputs g) m _
      (add_inputs-dependents ids n.id n.inputs g m l h)

add_nodes-indegree :
    (ids : List String) (ns : List Node) (g : Graph) (x : String) (d : ℕ)
    → lookup x g.indegree ≡ some d
    → lookup x (add_nodes ids ns g).indegree ≡ some (d + needs ids (inputs_of x ns))
unfolding add_nodes inputs_of
add_nodes-indegree ids [] g x d h = unfold needs select in ground arith
add_nodes-indegree ids (n ∷ ns) g x d h = ground (
  arith,
  add_inputs-indegree ids n.id n.inputs g x d,
  needs-append ids n.inputs (inputs_of x ns),
  add_nodes-indegree ids ns (add_inputs ids n.id n.inputs g) x
      (d + (if n.id == x then needs ids n.inputs else 0)),
)

keys-add_inputs :
    (ids : List String) (id : String) (deps : List String) (g : Graph)
    → keys (add_inputs ids id deps g).indegree ≡ keys g.indegree
unfolding add_inputs link
keys-add_inputs ids id [] g = refl
keys-add_inputs ids id (dep ∷ deps) g =
    keys-add_inputs ids id deps (link ids id dep g) ∙ elim (Bool-cases (contains ids dep)) [
      | inl known ↦ rw known (keys-update id (λ d. d + 1) g.indegree)
      | inr other ↦ rw other
    ]

keys-add_nodes :
    (ids : List String) (ns : List Node) (g : Graph)
    → keys (add_nodes ids ns g).indegree ≡ keys g.indegree
unfolding add_nodes
keys-add_nodes ids [] g = refl
keys-add_nodes ids (n ∷ ns) g =
    keys-add_nodes ids ns (add_inputs ids n.id n.inputs g) ∙ keys-add_inputs ids n.id n.inputs g

module _ (ns : List Node) where
  -- The keys of the degrees are the nodes, each once.
  pub keys-indegree : keys (graph_of ns).indegree ≡ keys (for_each_node {V = ℕ} 0 ns [])
  unfolding graph_of
  keys-indegree = keys-add_nodes (ids_of ns) ns _

  abbrev bare : Graph
  bare = record { indegree = for_each_node 0 ns []; dependents = for_each_node [] ns [] }

  indegree_known :
      (x : String)
      → contains (ids_of ns) x ≡ true
      → lookup x (graph_of ns).indegree ≡ some (needs (ids_of ns) (inputs_of x ns))
  unfolding graph_of
  indegree_known x known =
      ground
        (arith, lookup-for_each_node {V = ℕ} 0 ns [] x, add_nodes-indegree (ids_of ns) ns bare x 0)

  pub graph-indegree :
      (x : String)
      → lookup x (graph_of ns).indegree
        ≡ (if contains (ids_of ns) x then some (needs (ids_of ns) (inputs_of x ns)) else none)
  graph-indegree x = elim (Bool-cases (contains (ids_of ns) x)) [
    | inl known ↦ rw known (indegree_known x known)
    | inr other ↦ rw other (
        lookup_absent x (graph_of ns).indegree (
          rw (keys-indegree, contains-keys-for_each_node {V = ℕ} 0 ns [] x, other)
            (unfold contains in refl)))
  ]

  pub graph-dependents :
      (m x : String)
      → contains (ids_of ns) m ≡ true
      → count x (dependents_of m (graph_of ns).dependents) ≡ count m (inputs_of x ns)
  unfolding graph_of count
  graph-dependents m x known = ground (
    arith,
    lookup-for_each_node {V = List String} [] ns [] m,
    add_nodes-dependents (ids_of ns) ns bare m [],
    count-fan_all (ids_of ns) m x ns [],
  )
