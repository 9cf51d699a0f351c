-- ===== src/Flock/Ir/Queue.antt =====
-- The loops of Kahn's algorithm: what `relax` does to a degree and to the queue, and the
-- invariant of `drain`.
use murmur_ai_harness.Prelude.{
  ℕ, zero, suc, ◌+◌, ◌-◌, ◌≤◌, String, ◌≡◌, refl, ◌∙◌, true, false, not, ◌&&◌, none, some, List, [],
  ◌∷◌, ◌++◌, arith, ◌==◌, eq_iff, eq_refl, if◌then◌else◌, length, length-append, select, contains,
  count, count-append, contains-append, contains→count, sorted, count-sorted, Dict, lookup, update,
  keys, lookup-update,
}
use mathlib.Core.List.{append-nil, append_assoc}
use murmur_ai_harness.Flock.Ir.{Node, ids_of, graph_of, dependents_of, is_last, relax, drain}
use murmur_ai_harness.Flock.Ir.Degrees.{positives, waits, keys-update}
use murmur_ai_harness.Flock.Ir.Edges.{one_if, inputs_of, graph-dependents}

abbrev less_one : ℕ → ℕ
less_one d = d - 1

positives-update :
    (k : String) (d : Dict ℕ)
    → positives (update k less_one d) + (if is_last (lookup k d) then 1 else 0) ≡ positives d
unfolding update lookup
positives-update k [] = refl
positives-update k ((j, v) ∷ d) = ground (arith, positives-update k d)

relax-size :
    (children : List String) (degrees : Dict ℕ) (ready : List String)
    → length (relax children degrees ready).1 + positives (relax children degrees ready).0
      ≡ length ready + positives degrees
unfolding relax
relax-size [] degrees ready = refl
relax-size (c ∷ cs) degrees ready = ground (
  arith,
  positives-update c degrees,
  length-append ready (c ∷ []),
  relax-size cs (update c less_one degrees)
      (if is_last (lookup c degrees) then ready ++ c ∷ [] else ready),
)

keys-relax :
    (children : List String) (degrees : Dict ℕ) (ready : List String)
    → keys (relax children degrees ready).0 ≡ keys degrees
unfolding relax
keys-relax [] degrees ready = refl
keys-relax (c ∷ cs) degrees ready =
    keys-relax cs (update c less_one degrees)
      (if is_last (lookup c degrees) then ready ++ c ∷ [] else ready)
    ∙ keys-update c less_one degrees

module _ (x : String) where
  relax-none :
      (children : List String) (degrees : Dict ℕ) (ready : List String)
      → lookup x degrees ≡ none
      → lookup x (relax children degrees ready).0 ≡ none
  unfolding relax
  relax-none [] degrees ready h = h
  relax-none (c ∷ cs) degrees ready h =
      relax-none cs (update c less_one degrees) _
        (ground (arith, lookup-update c x less_one degrees))

  relax-lookup :
      (children : List String) (degrees : Dict ℕ) (ready : List String) (v : ℕ)
      → lookup x degrees ≡ some v
      → lookup x (relax children degrees ready).0 ≡ some (v - count x children)
  unfolding relax count
  relax-lookup [] degrees ready v h = ground arith
  relax-lookup (c ∷ cs) degrees ready v h = ground (
    arith,
    lookup-update c x less_one degrees,
    relax-lookup cs (update c less_one degrees)
        (if is_last (lookup c degrees) then ready ++ c ∷ [] else ready)
        (if c == x then v - 1 else v),
  )

  -- A child is queued when its degree becomes zero, and only then.
  relax-waits :
      (children : List String) (degrees : Dict ℕ) (ready : List String)
      → count x (relax children degrees ready).1 + waits (lookup x (relax children degrees ready).0)
        ≡ count x ready + waits (lookup x degrees)
  unfolding relax count
  relax-waits [] degrees ready = refl
  relax-waits (c ∷ cs) degrees ready = ground (
    arith,
    lookup-update c x less_one degrees,
    count-append x ready (c ∷ []),
    eq_iff c x,
    relax-waits cs (update c less_one degrees)
        (if is_last (lookup c degrees) then ready ++ c ∷ [] else ready),
  )

-- The inputs of a node that are nodes and not yet done.
pub pending : List String → List String → List String → ℕ
pending ids done deps = length (select (λ d. contains ids d && not (contains done d)) deps)

pub pending-nil :
    (ids deps : List String) → pending ids [] deps ≡ length (select (contains ids) deps)
unfolding pending select contains
pending-nil ids [] = refl
pending-nil ids (d ∷ deps) = ground (arith, pending-nil ids deps)

pending-snoc :
    (ids done : List String) (id : String) (deps : List String)
    → contains ids id ≡ true
    → contains done id ≡ false
    → pending ids (done ++ id ∷ []) deps + count id deps ≡ pending ids done deps
unfolding pending select count contains
pending-snoc ids done id [] known new = refl
pending-snoc ids done id (d ∷ deps) known new = ground (
  arith,
  contains-append done (id ∷ []) d,
  eq_iff id d,
  eq_iff d id,
  pending-snoc ids done id deps,
)

-- With nothing pending, the inputs that are nodes are done.
pub pending-eq-zero :
    (ids done deps : List String) (d : String)
    → pending ids done deps ≡ 0
    → contains deps d ≡ true
    → contains ids d ≡ true
    → contains done d ≡ true
unfolding pending select contains
pending-eq-zero ids done [] d h m k = cc
pending-eq-zero ids done (e ∷ deps) d h m k =
    ground (arith, eq_iff e d, pending-eq-zero ids done deps d)

pub pending_served :
    (ids done deps : List String)
    → ((d : String) → contains deps d ≡ true → contains ids d ≡ true → contains done d ≡ true)
    → pending ids done deps ≡ 0
unfolding pending select contains
pending_served ids done [] h = refl
pending_served ids done (e ∷ deps) h =
    ground (arith, h e, eq_refl e, pending_served ids done deps (λ d m k. h d (ground arith) k))

module _ (ns : List Node) where
  -- The nodes that `x` takes inputs from stand in `seen`.
  abbrev pub IsServed : List String → String → Type 0
  IsServed seen x =
      (d : String)
      → contains (inputs_of x ns) d ≡ true
      → contains (ids_of ns) d ≡ true
      → contains seen d ≡ true

  -- Each id stands behind its inputs.
  abbrev pub IsOrdered : List String → List String → Type 0
  IsOrdered seen [] = Unit
  IsOrdered seen (x ∷ xs) = IsServed seen x × IsOrdered (seen ++ x ∷ []) xs

  IsOrdered-snoc :
      (seen xs : List String) (y : String)
      → IsOrdered seen xs
      → IsServed (seen ++ xs) y
      → IsOrdered seen (xs ++ y ∷ [])
  IsOrdered-snoc seen [] y h s = (rw append-nil at s, tt)
  IsOrdered-snoc seen (x ∷ xs) y h s =
      (h.0, IsOrdered-snoc (seen ++ x ∷ []) xs y h.1 (rw append_assoc s))

  pub record Inv (degrees : Dict ℕ) (ready ordered : List String) : Type 0 where
    pub degree :
        (x : String)
        → lookup x degrees ≡ (
            if contains (ids_of ns) x
            then some (pending (ids_of ns) ordered (inputs_of x ns))
            else none)
    pub parts :
        (x : String)
        → count x ready + count x ordered + waits (lookup x degrees)
          ≡ (if contains (ids_of ns) x then 1 else 0)
    pub served : IsOrdered [] ordered
    pub same_keys : keys degrees ≡ keys (graph_of ns).indegree
    pub size : length ready + length ordered + positives degrees ≡ length (graph_of ns).indegree

  module _ {id : String} {degrees : Dict ℕ} {ready ordered : List String}
      (inv : Inv degrees (id ∷ ready) ordered) where
    -- The node at the head of the queue is a node, is new, and has nothing pending.
    head_known : contains (ids_of ns) id ≡ true
    unfolding count
    head_known = ground (arith, inv.parts id, eq_refl id)

    head_new : contains ordered id ≡ false
    unfolding count
    head_new = ground (arith, inv.parts id, eq_refl id, contains→count id ordered)

    head_free : pending (ids_of ns) ordered (inputs_of id ns) ≡ 0
    unfolding count
    head_free = ground (arith, inv.parts id, inv.degree id, eq_refl id, head_known)

  abbrev children : String → List String
  children id = sorted (dependents_of id (graph_of ns).dependents)

  count-cons : (x id : String) (l : List String) → count x (id ∷ l) ≡ one_if (id == x) + count x l
  unfolding count
  count-cons x id l = refl

  drain_step :
      (id : String) (degrees : Dict ℕ) (ready ordered : List String)
      → Inv degrees (id ∷ ready) ordered
      → Inv
          (relax (children id) degrees ready).0
          (relax (children id) degrees ready).1
          (ordered ++ id ∷ [])
  unfolding count
  drain_step id degrees ready ordered inv = record {
    degree = λ x. ground (
      arith,
      inv.degree x,
      relax-none x (children id) degrees ready,
      relax-lookup x (children id) degrees ready (pending (ids_of ns) ordered (inputs_of x ns)),
      count-sorted x (dependents_of id (graph_of ns).dependents),
      graph-dependents ns id x (head_known inv),
      pending-snoc (ids_of ns) ordered id (inputs_of x ns) (head_known inv) (head_new inv),
    );
    parts = λ x. omega (
      arith,
      inv.parts x,
      relax-waits x (children id) degrees ready,
      count-append x ordered (id ∷ []),
      count-cons x id ready,
      count-cons x id [],
    );
    served =
        IsOrdered-snoc [] ordered id inv.served
          (λ d. pending-eq-zero (ids_of ns) ordered (inputs_of id ns) d (head_free inv));
    same_keys = keys-relax (children id) degrees ready ∙ inv.same_keys;
    size =
        omega (
          arith,
          inv.size,
          relax-size (children id) degrees ready,
          length-append ordered (id ∷ []),
        );
  }

  -- With fuel for each node that is queued or waits, the loop ends, with the invariant and an
  -- empty queue.
  pub drain_total :
      (fuel : ℕ) (degrees : Dict ℕ) (ready ordered : List String)
      → Inv degrees ready ordered
      → length ready + positives degrees ≤ fuel
      → (final : List String) × (last : Dict ℕ) × (drain fuel
            (graph_of ns).dependents
            degrees
            ready
            ordered
          ≡ some final)
        × Inv last [] final
  unfolding drain
  drain_total zero degrees [] ordered inv h = (ordered, degrees, refl, inv)
  drain_total zero degrees (id ∷ ready) ordered inv h = absurd (omega arith)
  drain_total (suc fuel) degrees [] ordered inv h = (ordered, degrees, refl, inv)
  drain_total (suc fuel) degrees (id ∷ ready) ordered inv h =
      drain_total fuel (relax (children id) degrees ready).0 (relax (children id) degrees ready).1
        (ordered ++ id ∷ []) (drain_step id degrees ready ordered inv)
        (omega (arith, relax-size (children id) degrees ready))
