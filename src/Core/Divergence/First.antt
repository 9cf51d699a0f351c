-- ===== src/Core/Divergence/First.antt =====
-- The first step where the trajectories part.
use murmur_ai_harness.Prelude.{
  ℕ, zero, suc, ◌+◌, ◌≤◌, ◌<◌, ◌≡◌, refl, ◌⊎◌, inl, inr, Bool, true, false, Option, none, some,
  List, arith, if◌then◌else◌,
}
use mathlib.Core.Path.{subst}
use murmur_ai_harness.Core.Json.{Json}
use murmur_ai_harness.Core.Events.{Event}
use murmur_ai_harness.Core.Judge.{Fraction}
use murmur_ai_harness.Core.Divergence.{
  Signature, agreement_at, is_split, first_split, divergence_step,
}

-- A number from `start` on and below `bound` is the first that passes a test, or none passes it.
abbrev pub IsFirst : (ℕ → Bool) → (start bound : ℕ) → Option ℕ → Type 0
IsFirst test start bound none = (n : ℕ) → start ≤ n → n < bound → test n ≡ false
IsFirst test start bound (some step) =
    (start ≤ step)
    × (step < bound)
    × (test step ≡ true)
    × ((n : ℕ) → start ≤ n → n < step → test n ≡ false)

equal_or_less : (a b : ℕ) → a ≤ b → (a ≡ b) ⊎ (a + 1 ≤ b)
equal_or_less a b h = ground arith

out_of_order : (a b : ℕ) (A : Type 0) → a ≤ b → b < a → A
out_of_order a b A h k = let no : ⊥ = omega (arith, h, k) in elim no [ ]

-- What holds of a number and of all greater ones.
from_first :
    (test : ℕ → Bool) (start n : ℕ)
    → test start ≡ false
    → (start + 1 ≤ n → test n ≡ false)
    → start ≤ n
    → test n ≡ false
from_first test start n e h a = elim (equal_or_less start n a) [
  | inl same ↦ subst (λ m. test m ≡ false) same e
  | inr more ↦ h more
]

turn-IsFirst :
    (test : ℕ → Bool) (start bound : ℕ) (b : Bool) (rest : Option ℕ)
    → start < bound
    → test start ≡ b
    → IsFirst test (start + 1) bound rest
    → IsFirst test start bound (if b then some start else rest)
turn-IsFirst test start bound true rest less e h =
    (omega arith, less, e, λ n a b. out_of_order start n _ a b)
turn-IsFirst test start bound false none less e h =
    λ n a b. from_first test start n e (λ more. h n more b) a
turn-IsFirst test start bound false (some step) less e (a, b, c, d) =
    (omega (arith, a), b, c, λ n k l. from_first test start n e (λ more. d n more l) k)

module _ (similar : Signature → Signature → Bool) (trajectories : List (List (Event Json)))
    (tol : Fraction) where
  -- The agreement at a step is below the tolerance.
  abbrev pub parts_at : ℕ → Bool
  parts_at step = is_split tol (agreement_at similar trajectories step)

  first_split-IsFirst :
      (left step bound : ℕ)
      → step + left ≡ bound
      → IsFirst parts_at step bound (first_split similar trajectories tol left step)
  unfolding first_split
  first_split-IsFirst zero step bound e = λ n a b. out_of_order step n _ a (omega (arith, b, e))
  first_split-IsFirst (suc left) step bound e =
      turn-IsFirst parts_at step bound (parts_at step) _ (omega (arith, e)) refl
        (first_split-IsFirst left (step + 1) bound (omega (arith, e)))

  -- The divergence step is the first of the steps where the agreement is below the tolerance; there
  -- is none exactly if no step has such an agreement.
  pub divergence_step-IsFirst :
      (n_steps : ℕ) → IsFirst parts_at 0 n_steps (divergence_step similar trajectories tol n_steps)
  unfolding divergence_step
  divergence_step-IsFirst n_steps = first_split-IsFirst n_steps 0 n_steps (omega arith)
