-- ===== src/Flock/Ir/Acyclic.antt =====
-- `topological_order` succeeds exactly on plans without a dependency cycle.
use murmur_ai_harness.Prelude.{
  ℕ, zero, suc, ◌≤◌, ◌<◌, String, ◌≡◌, sym, ◌↔◌, inl, inr, true, false, List, [], ◌∷◌, ◌++◌, arith,
  ◌==◌, eq_iff, eq_refl, if◌then◌else◌, Bool-cases, length, contains, IsUnique, count, count-append,
  contains→count, count→contains, Dict, lookup,
}
use mathlib.Core.Path.{subst}
use mathlib.Core.List.{append_assoc}
use murmur_ai_harness.Flock.Ir.{Node, ok, ids_of, topological_order}
use murmur_ai_harness.Flock.Ir.Degrees.{
  waits, AreNew-nil, length-for_each_node_unique, positives-eq-zero,
}
use murmur_ai_harness.Flock.Ir.Edges.{inputs_of}
use murmur_ai_harness.Flock.Ir.Queue.{pending_served, IsServed, IsOrdered, Inv}
use murmur_ai_harness.Flock.Ir.Order.{
  IsUnique-keys, length-degrees, topological_order_cases, topological_order-IsGoodOrder,
}

-- `d` is a node that the node `x` takes its input from.
abbrev pub IsEdge : List Node → String → String → Type 0
IsEdge ns d x =
    (contains (ids_of ns) x ≡ true)
    × (contains (inputs_of x ns) d ≡ true)
    × (contains (ids_of ns) d ≡ true)

-- A rank that grows along each edge. A finite graph has one exactly if it has no cycle.
abbrev pub IsRank : List Node → (String → ℕ) → Type 0
IsRank ns rank = (d x : String) → IsEdge ns d x → rank d < rank x

module _ (ns : List Node) (rank : String → ℕ) (ranked : IsRank ns rank) {final : List String}
    {last : Dict ℕ} (inv : Inv ns last [] final) where
  -- By induction on the rank every node was taken from the queue.
  all_done :
      (bound : ℕ) (x : String)
      → rank x < bound
      → contains (ids_of ns) x ≡ true
      → contains final x ≡ true
  unfolding count
  all_done zero x h known = absurd (omega arith)
  all_done (suc bound) x h known =
      let served : IsServed ns final x =
        λ d m k. all_done bound d (omega (arith, ranked d x (known, m, k))) k in
      count→contains x final (
        ground (
          arith,
          inv.parts x,
          inv.degree x,
          pending_served (ids_of ns) final (inputs_of x ns) served,
        ))

  none_waits : (x : String) → waits (lookup x last) ≡ 0
  unfolding count
  none_waits x = elim (Bool-cases (contains (ids_of ns) x)) [
    | inl known ↦
        ground (
          arith,
          inv.parts x,
          contains→count x final (all_done (suc (rank x)) x (omega arith) known),
        )
    | inr other ↦ ground (arith, inv.degree x)
  ]

  all_final : IsUnique (ids_of ns) → length final ≡ length ns
  all_final unique = omega (
    arith,
    inv.size,
    length-degrees ns,
    length-for_each_node_unique {V = ℕ} 0 ns [] unique (AreNew-nil ℕ ns),
    positives-eq-zero last (subst IsUnique (sym inv.same_keys) (IsUnique-keys ns)) none_waits,
  )

-- The place of a text in a list.
index_of : String → List String → ℕ
index_of x [] = 0
index_of x (y ∷ ys) = if y == x then 0 else suc (index_of x ys)

index-append_left :
    (x : String) (xs ys : List String) → contains xs x ≡ true → index_of x (xs ++ ys) < length xs
unfolding index_of contains
index-append_left x [] ys h = cc
index-append_left x (y ∷ xs) ys h = ground (arith, index-append_left x xs ys)

index-append_right :
    (x : String) (xs ys : List String)
    → contains xs x ≡ false
    → index_of x (xs ++ x ∷ ys) ≡ length xs
unfolding index_of contains
index-append_right x [] ys h = ground (arith, eq_refl x)
index-append_right x (y ∷ xs) ys h = ground (arith, index-append_right x xs ys)

module _ (ns : List Node) where
  served-index :
      (seen xs : List String) (d x : String)
      → IsServed ns seen x
      → count x (seen ++ x ∷ xs) ≤ 1
      → IsEdge ns d x
      → index_of d (seen ++ x ∷ xs) < index_of x (seen ++ x ∷ xs)
  unfolding count
  served-index seen xs d x served once e = omega (
    arith,
    index-append_left d seen (x ∷ xs) (served d e.1 e.2),
    index-append_right x seen xs
        (ground (arith, contains→count x seen, count-append x seen (x ∷ xs), eq_refl x, once)),
  )

  -- In an order the inputs of a node stand before it.
  IsOrdered-index :
      (seen xs : List String) (d x : String)
      → IsOrdered ns seen xs
      → count x (seen ++ xs) ≤ 1
      → contains xs x ≡ true
      → IsEdge ns d x
      → index_of d (seen ++ xs) < index_of x (seen ++ xs)
  unfolding contains count
  IsOrdered-index seen [] d x o once m e = cc
  IsOrdered-index seen (y ∷ xs) d x o once m e = elim (Bool-cases (y == x)) [
    | inl same ↦
        let p = (eq_iff y x).0 same in
        rw p (served-index seen xs d x (rw p at o.0) (rw p at once) e)
    | inr other ↦ rw (← append_assoc seen (y ∷ []) xs) (
        IsOrdered-index (seen ++ y ∷ []) xs d x o.1 (rw (append_assoc seen (y ∷ []) xs) once)
          (ground arith) e)
  ]

-- On a plan with unique ids the sort succeeds exactly if the inputs form no cycle.
pub topological_order_iff :
    (ns : List Node)
    → IsUnique (ids_of ns)
    → ((ordered : List Node) × (topological_order ns ≡ ok ordered))
      ↔ ((rank : String → ℕ) × IsRank ns rank)
topological_order_iff ns unique = (to, from)
  where
    to :
        (ordered : List Node) × (topological_order ns ≡ ok ordered)
        → (rank : String → ℕ) × IsRank ns rank
    to (ordered, h) =
        let good = topological_order-IsGoodOrder ns ordered h in
        (
          λ x. index_of x (ids_of ordered),
          λ d x e.
              IsOrdered-index ns [] (ids_of ordered) d x good.behind_inputs
                (ground (arith, good.once x))
                (count→contains x (ids_of ordered) (ground (arith, good.once x, e.0))) e,
        )

    from :
        (rank : String → ℕ) × IsRank ns rank
        → (ordered : List Node) × (topological_order ns ≡ ok ordered)
    from (rank, ranked) = elim (topological_order_cases ns) [
      | inl (l, e, _) ↦ (l, e)
      | inr (final, last, e, inv, short) ↦ absurd (short (all_final ns rank ranked inv unique))
    ]
