-- ===== src/Flock/Ir/Degrees.antt =====
-- The dictionary of degrees: its size, its positive entries and its keys.
use murmur_ai_harness.Prelude.{
  ℕ, suc, ◌+◌, ◌≤◌, String, ◌≡◌, refl, true, false, ◌||◌, Option, none, some, List, [], ◌∷◌, arith,
  ◌==◌, eq_iff, eq_refl, nat_eq, if◌then◌else◌, length, contains, IsUnique, count, Dict, lookup,
  insert, update, keys, lookup-insert,
}
use murmur_ai_harness.Flock.Ir.{Node, ids_of, for_each_node, free_nodes}

abbrev pub is_positive : ℕ → ℕ
is_positive d = if nat_eq d 0 then 0 else 1

-- How many entries are positive.
abbrev pub positives : Dict ℕ → ℕ
positives [] = 0
positives ((id, d) ∷ rest) = is_positive d + positives rest

-- One where the key has a positive degree, zero where it has not or is missing.
abbrev pub waits : Option ℕ → ℕ
waits none = 0
waits (some d) = is_positive d

-- One where the key is there with degree zero.
abbrev pub is_free : Option ℕ → ℕ
is_free none = 0
is_free (some d) = if nat_eq d 0 then 1 else 0

pub length-free-add-positives : (d : Dict ℕ) → length (free_nodes d) + positives d ≡ length d
unfolding free_nodes
length-free-add-positives [] = refl
length-free-add-positives ((id, v) ∷ d) = ground (arith, length-free-add-positives d)

module _ {ℓ} {V : Type ℓ} where
  pub contains-keys-insert :
      (k j : String) (v : V) (d : Dict V)
      → contains (keys (insert k v d)) j ≡ (if k == j then true else contains (keys d) j)
  unfolding insert contains
  contains-keys-insert k j v [] = ground arith
  contains-keys-insert k j v ((i, w) ∷ d) =
      ground (arith, contains-keys-insert k j v d, eq_iff k j, eq_iff i k, eq_iff i j)

  pub IsUnique-insert :
      (k : String) (v : V) (d : Dict V) → IsUnique (keys d) → IsUnique (keys (insert k v d))
  unfolding insert contains
  IsUnique-insert k v [] u = ground arith
  IsUnique-insert k v ((i, w) ∷ d) u =
      ground (arith, IsUnique-insert k v d, contains-keys-insert k i v d, eq_iff i k, eq_iff k i)

  pub keys-update : (k : String) (f : V → V) (d : Dict V) → keys (update k f d) ≡ keys d
  unfolding update
  keys-update k f [] = refl
  keys-update k f ((i, w) ∷ d) = ground (arith, keys-update k f d)

  pub lookup_absent : (k : String) (d : Dict V) → contains (keys d) k ≡ false → lookup k d ≡ none
  unfolding lookup contains
  lookup_absent k [] h = refl
  lookup_absent k ((i, w) ∷ d) h = ground (arith, lookup_absent k d)

  length-insert : (k : String) (v : V) (d : Dict V) → length (insert k v d) ≤ suc (length d)
  unfolding insert
  length-insert k v [] = omega arith
  length-insert k v ((i, w) ∷ d) = ground (arith, length-insert k v d)

  length-insert_new :
      (k : String) (v : V) (d : Dict V)
      → contains (keys d) k ≡ false
      → length (insert k v d) ≡ suc (length d)
  unfolding insert contains
  length-insert_new k v [] h = refl
  length-insert_new k v ((i, w) ∷ d) h = ground (arith, length-insert_new k v d)

  pub IsUnique-for_each_node :
      (v : V) (ns : List Node) (d : Dict V)
      → IsUnique (keys d)
      → IsUnique (keys (for_each_node v ns d))
  unfolding for_each_node
  IsUnique-for_each_node v [] d u = u
  IsUnique-for_each_node v (n ∷ ns) d u =
      IsUnique-for_each_node v ns (insert n.id v d) (IsUnique-insert n.id v d u)

  pub length-for_each_node :
      (v : V) (ns : List Node) (d : Dict V) → length (for_each_node v ns d) ≤ length ns + length d
  unfolding for_each_node
  length-for_each_node v [] d = omega arith
  length-for_each_node v (n ∷ ns) d =
      omega (arith, length-for_each_node v ns (insert n.id v d), length-insert n.id v d)

  pub lookup-for_each_node :
      (v : V) (ns : List Node) (d : Dict V) (k : String)
      → lookup k (for_each_node v ns d) ≡ (if contains (ids_of ns) k then some v else lookup k d)
  unfolding for_each_node contains
  lookup-for_each_node v [] d k = refl
  lookup-for_each_node v (n ∷ ns) d k =
      ground (arith, lookup-for_each_node v ns (insert n.id v d) k, lookup-insert n.id k v d)

  pub contains-keys-for_each_node :
      (v : V) (ns : List Node) (d : Dict V) (j : String)
      → contains (keys (for_each_node v ns d)) j ≡ (contains (ids_of ns) j || contains (keys d) j)
  unfolding for_each_node contains
  contains-keys-for_each_node v [] d j = refl
  contains-keys-for_each_node v (n ∷ ns) d j =
      ground (
        arith,
        contains-keys-for_each_node v ns (insert n.id v d) j,
        contains-keys-insert n.id j v d,
      )

  -- No key of `d` is the id of a node.
  abbrev pub AreNew : List Node → Dict V → Type 0
  AreNew [] d = Unit
  AreNew (n ∷ ns) d = (contains (keys d) n.id ≡ false) × AreNew ns d

  AreNew-insert :
      (k : String) (v : V) (ns : List Node) (d : Dict V)
      → contains (ids_of ns) k ≡ false
      → AreNew ns d
      → AreNew ns (insert k v d)
  unfolding contains
  AreNew-insert k v [] d absent new = tt
  AreNew-insert k v (n ∷ ns) d absent new = (
    ground (arith, contains-keys-insert k n.id v d, eq_iff k n.id, eq_iff n.id k),
    AreNew-insert k v ns d (ground arith) new.1,
  )

  pub length-for_each_node_unique :
      (v : V) (ns : List Node) (d : Dict V)
      → IsUnique (ids_of ns)
      → AreNew ns d
      → length (for_each_node v ns d) ≡ length ns + length d
  unfolding for_each_node
  length-for_each_node_unique v [] d u new = omega arith
  length-for_each_node_unique v (n ∷ ns) d u new = omega (
    arith,
    length-for_each_node_unique v ns (insert n.id v d) u.1 (AreNew-insert n.id v ns d u.0 new.1),
    length-insert_new n.id v d new.0,
  )

pub AreNew-nil {ℓ} : (V : Type ℓ) (ns : List Node) → AreNew {V = V} ns []
unfolding contains
AreNew-nil V [] = tt
AreNew-nil V (n ∷ ns) = (refl, AreNew-nil V ns)

count-free_absent :
    (k : String) (d : Dict ℕ) → contains (keys d) k ≡ false → count k (free_nodes d) ≡ 0
unfolding free_nodes contains count
count-free_absent k [] h = refl
count-free_absent k ((i, v) ∷ d) h = ground (arith, count-free_absent k d)

-- The list of free nodes names each free node once.
pub count-free_nodes :
    (k : String) (d : Dict ℕ) → IsUnique (keys d) → count k (free_nodes d) ≡ is_free (lookup k d)
unfolding free_nodes count lookup
count-free_nodes k [] u = refl
count-free_nodes k ((i, v) ∷ d) u =
    ground (arith, count-free_nodes k d, count-free_absent k d, eq_iff i k)

abbrev NoneWaits : Dict ℕ → Type 0
NoneWaits d = (k : String) → waits (lookup k d) ≡ 0

NoneWaits-tail :
    (i : String) (v : ℕ) (d : Dict ℕ)
    → contains (keys d) i ≡ false
    → NoneWaits ((i, v) ∷ d)
    → (is_positive v ≡ 0) × NoneWaits d
unfolding lookup
NoneWaits-tail i v d absent h =
    (rw (eq_refl i) at (h i), λ k. ground (arith, h k, lookup_absent i d, eq_iff i k))

-- With no positive degree under any key, no entry is positive.
pub positives-eq-zero : (d : Dict ℕ) → IsUnique (keys d) → NoneWaits d → positives d ≡ 0
positives-eq-zero [] u h = refl
positives-eq-zero ((i, v) ∷ d) u h =
    let (first, rest) = NoneWaits-tail i v d u.0 h in
    omega (arith, first, positives-eq-zero d u.1 rest)
