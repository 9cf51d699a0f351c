-- ===== src/Core/Divergence/Unanimous.antt =====
-- Full agreement at a step: one cluster.
use murmur_ai_harness.Prelude.{
  ℕ, suc, ◌+◌, ◌*◌, ◌≤◌, ◌≡◌, refl, ap, ◌≢◌, ◌↔◌, Bool, true, false, not, List, [], ◌∷◌, ◌++◌,
  arith, ltb, leb, if◌then◌else◌, length, length-append, All,
}
use murmur_ai_harness.Core.Json.{Json}
use murmur_ai_harness.Core.Events.{Event}
use murmur_ai_harness.Core.Divergence.{
  Signature, Cluster, size_of, longest, join_cluster, cluster_signatures, active_at, agreement_at,
  agreement_in, is_split,
}

-- The signatures in all clusters.
abbrev total : List Cluster → ℕ
total [] = 0
total (c ∷ clusters) = size_of c + total clusters

total-longest :
    (clusters : List Cluster) (c : Cluster)
    → size_of (longest c clusters) + length clusters ≤ size_of c + total clusters
unfolding longest
total-longest [] c = omega arith
total-longest (d ∷ clusters) c = go (ltb (size_of c) (size_of d)) (total-longest clusters _)
  where
    go :
        (b : Bool)
        → size_of (longest (if b then d else c) clusters) + length clusters
          ≤ size_of (if b then d else c) + total clusters
        → size_of (longest (if b then d else c) clusters) + suc (length clusters)
          ≤ size_of c + (size_of d + total clusters)
    go true h = omega (arith, h)
    go false h = omega (arith, h)

less_all : (size n k : ℕ) → size + suc k ≤ n → (leb (1 * n) (size * 1) ≡ true) ↔ (false ≡ true)
less_all size n k h = (λ e. ground (arith, e, h), λ e. cc)

negated_lem : (b : Bool) → not b ≡ false → b ≡ true
negated_lem b h = ground arith

module _ (similar : Signature → Signature → Bool) where
  -- All signatures are similar to the first.
  abbrev pub IsUnanimous : List Signature → Type 0
  IsUnanimous [] = Unit
  IsUnanimous (s ∷ rest) = All (λ t. similar t s ≡ true) rest

  cluster-if :
      (b : Bool) (xs : List Signature) (c d : List Cluster)
      → cluster_signatures similar xs (if b then c else d)
        ≡ (if b then cluster_signatures similar xs c else cluster_signatures similar xs d)
  cluster-if true xs c d = refl
  cluster-if false xs c d = refl

  total-join :
      (s : Signature) (clusters : List Cluster)
      → total (join_cluster similar s clusters) ≡ suc (total clusters)
  unfolding join_cluster
  total-join s [] = omega arith
  total-join s ((first, rest) ∷ clusters) =
      let ih = total-join s clusters in
      let size = length-append rest (s ∷ []) in
      elim (similar s first)
        as (λ b.
          total (
            if b
            then (first, rest ++ s ∷ []) ∷ clusters
            else (first, rest) ∷ join_cluster similar s clusters)
          ≡ suc (suc (length rest) + total clusters)) [ true ↦ omega arith | false ↦ omega arith ]

  total-cluster :
      (xs : List Signature) (clusters : List Cluster)
      → total (cluster_signatures similar xs clusters) ≡ length xs + total clusters
  unfolding cluster_signatures
  total-cluster [] clusters = omega arith
  total-cluster (x ∷ xs) clusters =
      omega (arith, total-cluster xs (join_cluster similar x clusters), total-join x clusters)

  abbrev is_single : List Cluster → Bool
  is_single [] = false
  is_single (c ∷ []) = true
  is_single (c ∷ d ∷ clusters) = false

  join-nil : (s : Signature) (clusters : List Cluster) → join_cluster similar s clusters ≢ []
  unfolding join_cluster
  join-nil s [] h = cc
  join-nil s ((first, rest) ∷ clusters) h = go (similar s first) h
    where
      go :
          (b : Bool)
          → (if b
              then (first, rest ++ s ∷ []) ∷ clusters
              else (first, rest) ∷ join_cluster similar s clusters)
            ≡ []
          → ⊥
      go true h = cc
      go false h = cc

  turn_iff :
      (b : Bool) (same other clusters joined : List Cluster) (A : Type 0)
      → joined ≢ []
      → ((is_single same ≡ true) ↔ ((clusters ≡ []) × A))
      → ((is_single other ≡ true) ↔ ((joined ≡ []) × A))
      → (is_single (if b then same else other) ≡ true) ↔ ((clusters ≡ []) × ((b ≡ true) × A))
  turn_iff true same other clusters joined A n h k =
      (λ e. let (c, a) = h.0 e in (c, (refl, a)), λ (c, (e, a)). h.1 (c, a))
  turn_iff false same other clusters joined A n h k =
      (λ e. elim (n (k.0 e).0) [ ], λ (c, (e, a)). cc)

  -- One cluster is left exactly if there was one and all that joined are similar to its first.
  single_iff :
      (xs : List Signature) (s : Signature) (ys : List Signature) (clusters : List Cluster)
      → (is_single (cluster_signatures similar xs ((s, ys) ∷ clusters)) ≡ true)
        ↔ ((clusters ≡ []) × All (λ t. similar t s ≡ true) xs)
  unfolding cluster_signatures join_cluster
  single_iff [] s ys [] = (λ h. (refl, tt), λ h. refl)
  single_iff [] s ys (c ∷ clusters) = (λ h. cc, λ (h, a). cc)
  single_iff (x ∷ xs) s ys clusters =
      simp
        (cluster-if (similar x s) xs ((s, ys ++ x ∷ []) ∷ clusters)
          ((s, ys) ∷ join_cluster similar x clusters))
        (turn_iff (similar x s) _ _ clusters (join_cluster similar x clusters) _
          (join-nil x clusters) (single_iff xs s (ys ++ x ∷ []) clusters)
          (single_iff xs s ys (join_cluster similar x clusters)))

  -- The longest of the clusters holds all signatures exactly if it is the only one.
  longest_iff :
      (c : Cluster) (clusters : List Cluster) (n : ℕ)
      → total (c ∷ clusters) ≡ n
      → (leb (1 * n) (size_of (longest c clusters) * 1) ≡ true) ↔ (is_single (c ∷ clusters) ≡ true)
  unfolding longest
  longest_iff c [] n e = ground (arith, e)
  longest_iff c (d ∷ clusters) n e =
      let bound = total-longest (d ∷ clusters) c in
      less_all (size_of (longest c (d ∷ clusters))) n (length clusters) (omega arith)

  agreement_iff :
      (clusters : List Cluster) (n : ℕ) (A : Type 0)
      → total clusters ≡ n
      → ((is_single clusters ≡ true) ↔ A)
      → clusters ≢ []
      → (is_split (record { num = 1; den = 1 }) (agreement_in clusters n) ≡ false) ↔ A
  agreement_iff [] n A e h k = elim (k refl) [ ]
  agreement_iff (c ∷ clusters) n A e h k =
      let size = size_of (longest c clusters) in
      let one = longest_iff c clusters n e in
      (λ s. h.0 (one.0 (negated_lem (leb (1 * n) (size * 1)) s)), λ a. ap not (one.1 (h.1 a)))

  cluster-nil :
      (xs : List Signature) (c : Cluster) (clusters : List Cluster)
      → cluster_signatures similar xs (c ∷ clusters) ≢ []
  cluster-nil xs c clusters h =
      let size = total-cluster xs (c ∷ clusters) in
      let none_left = ap total h in let no : ⊥ = omega arith in no

  agreement_in_iff :
      (active : List Signature)
      → (is_split
            (record { num = 1; den = 1 })
            (agreement_in (cluster_signatures similar active []) (length active))
          ≡ false)
        ↔ IsUnanimous active
  unfolding cluster_signatures join_cluster
  agreement_in_iff [] = (λ h. tt, λ h. refl)
  agreement_in_iff (s ∷ rest) =
      let one = single_iff rest s [] [] in
      let size = total-cluster rest ((s, []) ∷ []) in
      agreement_iff (cluster_signatures similar rest ((s, []) ∷ [])) (suc (length rest)) _
        (omega arith) (λ h. (one.0 h).1, λ a. one.1 (refl, a)) (cluster-nil rest (s, []) [])

  -- The agreement at a step is not below one exactly if all signatures at the step are similar to
  -- the first of them.
  pub agreement_at_iff :
      (trajectories : List (List (Event Json))) (step : ℕ)
      → (is_split (record { num = 1; den = 1 }) (agreement_at similar trajectories step) ≡ false)
        ↔ IsUnanimous (active_at trajectories step)
  unfolding agreement_at
  agreement_at_iff trajectories step = agreement_in_iff (active_at trajectories step)
