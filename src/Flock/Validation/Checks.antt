-- ===== src/Flock/Validation/Checks.antt =====
-- Each loop of `validate_plan` passes exactly if its rule holds.
use murmur_ai_harness.Prelude.{
  String, ◌≡◌, refl, ◌↔◌, inl, inr, true, false, not, ◌&&◌, ◌||◌, List, [], ◌∷◌, arith, ◌==◌,
  eq_iff, eq_refl, Bool-cases, select, All, contains, IsUnique, All-map, Dict, lookup, insert,
  lookup-insert,
}
use murmur_ai_harness.Flock.Ir.{Node, ok, ids_of}
use murmur_ai_harness.Flock.Validation.{
  ops, efforts, trust_levels, check_ids, check_inputs, check_nodes, trust_of, is_untrusted, tainted,
  is_empty, check_taint,
}

-- No node has an empty id.
abbrev pub AreNamed : List Node → Type 0
AreNamed ns = All (λ n. (n.id == "") ≡ false) ns

abbrev pub AreFresh : List String → List Node → Type 0
AreFresh seen ns = All (λ n. contains seen n.id ≡ false) ns

AreFresh-cons :
    (x : String) (seen : List String) (ns : List Node)
    → AreFresh seen ns
    → contains (ids_of ns) x ≡ false
    → AreFresh (x ∷ seen) ns
unfolding contains
AreFresh-cons x seen [] h absent = tt
AreFresh-cons x seen (n ∷ ns) h absent =
    (ground (arith, h.0, eq_iff x n.id, eq_iff n.id x), AreFresh-cons x seen ns h.1 (ground arith))

AreFresh-uncons :
    (x : String) (seen : List String) (ns : List Node)
    → AreFresh (x ∷ seen) ns
    → AreFresh seen ns × (contains (ids_of ns) x ≡ false)
unfolding contains
AreFresh-uncons x seen [] h = (tt, refl)
AreFresh-uncons x seen (n ∷ ns) h =
    ground (arith, h.0, AreFresh-uncons x seen ns h.1, eq_iff x n.id, eq_iff n.id x)

-- The ids that end up in `seen`.
abbrev pub Holds : List String → List String → List Node → Type 0
Holds all_seen seen ns =
    (d : String) → contains all_seen d ≡ (contains seen d || contains (ids_of ns) d)

Holds-step :
    (s seen : List String) (n : Node) (ns : List Node)
    → Holds s (n.id ∷ seen) ns
    → Holds s seen (n ∷ ns)
unfolding contains
Holds-step s seen n ns h d = ground (arith, h d)

pub check_ids-ok :
    (seen : List String) (ns : List Node) (s : List String)
    → check_ids seen ns ≡ ok s
    → AreNamed ns × IsUnique (ids_of ns) × AreFresh seen ns × Holds s seen ns
unfolding check_ids contains
check_ids-ok seen [] s h = (tt, tt, tt, λ d. ground arith)
check_ids-ok seen (n ∷ ns) s h =
    let named : (n.id == "") ≡ false = ground arith in
    let fresh : contains seen n.id ≡ false = ground arith in
    let rest : check_ids (n.id ∷ seen) ns ≡ ok s = ground arith in
    let (names, unique, later, holds) = check_ids-ok (n.id ∷ seen) ns s rest in
    let (old, new) = AreFresh-uncons n.id seen ns later in
    ((named, names), (new, unique), (fresh, old), Holds-step s seen n ns holds)

pub check_ids_passes :
    (seen : List String) (ns : List Node)
    → AreNamed ns
    → IsUnique (ids_of ns)
    → AreFresh seen ns
    → (s : List String) × (check_ids seen ns ≡ ok s) × Holds s seen ns
unfolding check_ids contains
check_ids_passes seen [] named unique fresh = (seen, refl, λ d. ground arith)
check_ids_passes seen (n ∷ ns) named unique fresh =
    let (s, passed, holds) =
      check_ids_passes (n.id ∷ seen) ns named.1 unique.1
        (AreFresh-cons n.id seen ns fresh.1 unique.0) in
    (s, rw (named.0, fresh.0) passed, Holds-step s seen n ns holds)

-- Each input is another id or a source.
abbrev pub AreKnown : List String → List String → String → List String → Type 0
AreKnown seen sources id deps =
    All (λ dep. ((dep == id) ≡ false) × ((contains seen dep || contains sources dep) ≡ true)) deps

check_inputs_iff :
    (seen sources : List String) (id : String) (deps : List String)
    → (check_inputs seen sources id deps ≡ ok tt) ↔ AreKnown seen sources id deps
unfolding check_inputs
check_inputs_iff seen sources id [] = (λ h. tt, λ h. refl)
check_inputs_iff seen sources id (dep ∷ deps) =
    ground (arith, check_inputs_iff seen sources id deps)

-- The node's words are known, and its inputs too.
pub record IsWellFormed (seen sources : List String) (n : Node) : Type 0 where
  pub op : contains ops n.op ≡ true
  pub effort : contains efforts n.effort ≡ true
  pub trust : contains trust_levels n.trust ≡ true
  pub inputs : AreKnown seen sources n.id n.inputs

pub check_nodes_iff :
    (seen sources : List String) (ns : List Node)
    → (check_nodes seen sources ns ≡ ok tt) ↔ All (IsWellFormed seen sources) ns
unfolding check_nodes
check_nodes_iff seen sources [] = (λ h. tt, λ h. refl)
check_nodes_iff seen sources (n ∷ ns) =
    let (inputs, all_inputs) = check_inputs_iff seen sources n.id n.inputs in
    let (rest, all_rest) = check_nodes_iff seen sources ns in
    (
      λ h. (
        record {
          op = ground arith;
          effort = ground arith;
          trust = ground arith;
          inputs = inputs (ground arith);
        },
        rest (ground arith),
      ),
      λ h. rw (h.0.op, h.0.effort, h.0.trust, all_inputs h.0.inputs) (all_rest h.1),
    )

-- The trust recorded for an id is that of its node.
lookup-trust_of :
    (ns : List Node) (d : Dict String) (x : String)
    → contains (ids_of ns) x ≡ false
    → lookup x (trust_of ns d) ≡ lookup x d
unfolding trust_of contains
lookup-trust_of [] d x h = refl
lookup-trust_of (n ∷ ns) d x h =
    ground (arith, lookup-insert n.id x n.trust d, lookup-trust_of ns (insert n.id n.trust d) x)

-- No trusted node names an untrusted one among its inputs.
abbrev pub IsClean : List Node → Node → Type 0
IsClean ns n =
    All
      (λ m.
        (n.trust == "trusted") ≡ true
        → (m.trust == "untrusted") ≡ true
        → contains n.inputs m.id ≡ false)
      ns

-- What the dictionary says of an id that is an input.
abbrev Avoids : List String → Dict String → Type 0
Avoids deps trusts = (d : String) → contains deps d ≡ true → is_untrusted (lookup d trusts) ≡ false

untainted_iff :
    (trusts : Dict String) (deps : List String)
    → (is_empty (select (λ d. is_untrusted (lookup d trusts)) deps) ≡ true) ↔ Avoids deps trusts
unfolding select contains
untainted_iff trusts [] = (λ h d m. cc, λ h. refl)
untainted_iff trusts (e ∷ deps) =
    let (to, from) = untainted_iff trusts deps in
    (
      λ h d m. ground (arith, eq_iff e d, to (ground arith) d),
      λ h. ground (arith, h e, eq_refl e, from (λ d m. h d (ground arith))),
    )

-- No untrusted node among the inputs.
abbrev NoTaint : List String → List Node → Type 0
NoTaint deps ns = All (λ m. (m.trust == "untrusted") ≡ true → contains deps m.id ≡ false) ns

Avoids→NoTaint :
    (deps : List String) (ns : List Node) (d : Dict String)
    → IsUnique (ids_of ns)
    → Avoids deps (trust_of ns d)
    → NoTaint deps ns
unfolding trust_of
Avoids→NoTaint deps [] d unique avoids = tt
Avoids→NoTaint deps (n ∷ ns) d unique avoids = (
  λ u. ground (
    arith,
    avoids n.id,
    lookup-trust_of ns (insert n.id n.trust d) n.id unique.0,
    lookup-insert n.id n.id n.trust d,
    eq_refl n.id,
  ),
  Avoids→NoTaint deps ns (insert n.id n.trust d) unique.1 avoids,
)

NoTaint→Avoids :
    (deps : List String) (ns : List Node) (d : Dict String)
    → NoTaint deps ns
    → Avoids deps d
    → Avoids deps (trust_of ns d)
unfolding trust_of
NoTaint→Avoids deps [] d clean old = old
NoTaint→Avoids deps (n ∷ ns) d clean old =
    NoTaint→Avoids deps ns (insert n.id n.trust d) clean.1
      (λ x m. ground (arith, old x m, clean.0, lookup-insert n.id x n.trust d, eq_iff n.id x))

Avoids-nil : (deps : List String) → Avoids deps []
unfolding lookup
Avoids-nil deps d m = refl

-- The rule for one node, by the nodes or by the dictionary.
module _ (ns : List Node) (unique : IsUnique (ids_of ns)) (n : Node) where
  abbrev IsClear : Type 0
  IsClear = (n.trust == "trusted" && not (is_empty (tainted (trust_of ns []) n))) ≡ false

  IsClear→IsClean : IsClear → IsClean ns n
  unfolding tainted
  IsClear→IsClean h = elim (Bool-cases (n.trust == "trusted")) [
    | inl trusted ↦
        All-map (λ m. (m.trust == "untrusted") ≡ true → contains n.inputs m.id ≡ false) _ ns
          (λ m f _ u. f u)
          (Avoids→NoTaint n.inputs ns [] unique
            ((untainted_iff (trust_of ns []) n.inputs).0 (ground arith)))
    | inr other ↦ All-true ns (λ m t. ground arith)
  ]
    where
      All-true :
          (l : List Node)
          → ((m : Node)
              → (n.trust == "trusted") ≡ true
              → (m.trust == "untrusted") ≡ true
              → contains n.inputs m.id ≡ false)
          → All
              (λ m.
                (n.trust == "trusted") ≡ true
                → (m.trust == "untrusted") ≡ true
                → contains n.inputs m.id ≡ false)
              l
      All-true [] f = tt
      All-true (m ∷ l) f = (f m, All-true l f)

  IsClean→IsClear : IsClean ns n → IsClear
  unfolding tainted
  IsClean→IsClear h = elim (Bool-cases (n.trust == "trusted")) [
    | inl trusted ↦ rw trusted (
        ground (
          arith,
          (untainted_iff (trust_of ns []) n.inputs).1 (
              NoTaint→Avoids n.inputs ns []
                (All-map _ (λ m. (m.trust == "untrusted") ≡ true → contains n.inputs m.id ≡ false)
                  ns (λ m f. f trusted) h)
                (Avoids-nil n.inputs)),
        ))
    | inr other ↦ rw other
  ]

check_taint_iff :
    (trusts : Dict String) (l : List Node)
    → (check_taint trusts l ≡ ok tt)
      ↔ All (λ n. (n.trust == "trusted" && not (is_empty (tainted trusts n))) ≡ false) l
unfolding check_taint
check_taint_iff trusts [] = (λ h. tt, λ h. refl)
check_taint_iff trusts (n ∷ l) = ground (arith, check_taint_iff trusts l)

pub taint_rule :
    (ns : List Node)
    → IsUnique (ids_of ns)
    → (check_taint (trust_of ns []) ns ≡ ok tt) ↔ All (IsClean ns) ns
taint_rule ns unique =
    let (to, from) = check_taint_iff (trust_of ns []) ns in
    (
      λ h. All-map _ (IsClean ns) ns (λ n. IsClear→IsClean ns unique n) (to h),
      λ h. from (All-map (IsClean ns) _ ns (λ n. IsClean→IsClear ns unique n) h),
    )
