-- ===== src/Core/Classify/Loops.antt =====
-- The detector of loops: what its diagnosis says of the recorded steps.
use murmur_ai_harness.Prelude.{
  ℕ, zero, suc, ◌+◌, ◌≤◌, ◌<◌, ◌≡◌, refl, sym, ◌⊎◌, inl, inr, Bool, true, false, Option, none, some,
  List, arith, ltb, if◌then◌else◌, all,
}
use mathlib.Core.Path.{subst}
use murmur_ai_harness.Core.Json.{Json}
use murmur_ai_harness.Core.Events.{Event}
use murmur_ai_harness.Core.Divergence.{last_step}
use murmur_ai_harness.Core.Classify.{
  FailureDiagnosis, FailurePolicy, Formats, Fingerprint, step_fingerprint, same_fingerprint,
  is_repeated, find_loop, loop_found, loop_steps, detect_nondeterministic_loop,
}
use murmur_ai_harness.Core.Classify.Classes.{OnSome}

less_or_equal : (a b : ℕ) → a ≤ b → (a < b) ⊎ (a ≡ b)
less_or_equal a b h = ground arith

shift :
    (threshold run start step : ℕ)
    → ltb threshold run ≡ true
    → start + run ≡ step + 1
    → start + threshold ≤ step
shift threshold run start step e sum = ground (arith, e, sum)

out_of_order : (a b : ℕ) (A : Type 0) → a ≤ b → b < a → A
out_of_order a b A h k = let no : ⊥ = omega (arith, h, k) in elim no [ ]

module _ (py : Formats) (events : List (Event Json)) where
  -- The step has a fingerprint that is `p` or equals `p`.
  abbrev pub HasPrint : Fingerprint → ℕ → Type 0
  HasPrint p i =
      (f : Fingerprint) × (step_fingerprint events i ≡ some f)
      × ((f ≡ p) ⊎ (same_fingerprint py f p ≡ true))

  -- The diagnosis names a step; it and at least `threshold` steps directly before it have the
  -- fingerprint of the first of them.
  abbrev pub IsLoop : ℕ → FailureDiagnosis → Type 0
  IsLoop threshold d =
      (p : Fingerprint) × (start : ℕ) × (s : ℕ) × (d.step ≡ some s)
      × (start + threshold ≤ s)
      × ((i : ℕ) → start ≤ i → i ≤ s → HasPrint p i)

  -- The run that the loop has seen before a step.
  abbrev Inv : Option Fingerprint → ℕ → ℕ → Type 0
  Inv none run step = Unit
  Inv (some p) run step =
      (start : ℕ) × (start + run ≡ step) × ((i : ℕ) → start ≤ i → i < step → HasPrint p i)

  -- A step that joins those before it.
  one_more :
      (p : Fingerprint) (start step i : ℕ)
      → ((i : ℕ) → start ≤ i → i < step → HasPrint p i)
      → HasPrint p step
      → start ≤ i
      → i < step + 1
      → HasPrint p i
  one_more p start step i all here a b = elim (less_or_equal i step (omega (arith, b))) [
    | inl less ↦ all i a less
    | inr same ↦ subst (HasPrint p) (sym same) here
  ]

  next-Inv :
      (previous : Option Fingerprint) (run step : ℕ) (f : Fingerprint) (again : Bool)
      → step_fingerprint events step ≡ some f
      → is_repeated py f previous ≡ again
      → Inv previous run step
      → Inv (if again then previous else some f) (if again then run + 1 else 1) (step + 1)
  next-Inv none run step f true e r h = cc
  next-Inv none run step f false e r h = (
    step,
    refl,
    λ i a b. one_more f step step i (λ j c d. out_of_order step j _ c d) (f, e, inl refl) a b,
  )
  next-Inv (some p) run step f true e r (start, sum, all) =
      (start, omega (arith, sum), λ i a b. one_more p start step i all (f, e, inr r) a b)
  next-Inv (some p) run step f false e r h = (
    step,
    refl,
    λ i a b. one_more f step step i (λ j c d. out_of_order step j _ c d) (f, e, inl refl) a b,
  )

  found_or :
      (threshold step run : ℕ) (p : Fingerprint) (b : Bool) (rest : Option FailureDiagnosis)
      → ltb threshold run ≡ b
      → Inv (some p) run (step + 1)
      → OnSome (IsLoop threshold) rest
      → OnSome (IsLoop threshold) (if b then some (loop_found py step run) else rest)
  found_or threshold step run p true rest e (start, sum, all) h = (
    p,
    start,
    step,
    refl,
    shift threshold run start step e sum,
    λ i a b. all i a (omega (arith, b)),
  )
  found_or threshold step run p false rest e inv h = h

  -- What stands behind a step's fingerprint.
  abbrev behind :
      ℕ
      → (step run : ℕ) → Fingerprint
      → Option Fingerprint
      → (Option Fingerprint → ℕ → Option FailureDiagnosis)
      → Bool
      → Option FailureDiagnosis
  behind threshold step run f previous go again =
      if ltb threshold (if again then run + 1 else 1)
      then some (loop_found py step (if again then run + 1 else 1))
      else go (if again then previous else some f) (if again then run + 1 else 1)

  behind-IsLoop :
      (threshold step run : ℕ) (f : Fingerprint) (previous : Option Fingerprint)
      (go : Option Fingerprint → ℕ → Option FailureDiagnosis) (again : Bool)
      → step_fingerprint events step ≡ some f
      → is_repeated py f previous ≡ again
      → Inv previous run step
      → ((q : Option Fingerprint) (n : ℕ) → Inv q n (step + 1) → OnSome (IsLoop threshold) (go q n))
      → OnSome (IsLoop threshold) (behind threshold step run f previous go again)
  behind-IsLoop threshold step run f none go true e r inv h = cc
  behind-IsLoop threshold step run f previous go false e r inv h =
      let inv' = next-Inv previous run step f false e r inv in
      found_or threshold step 1 f (ltb threshold 1) (go (some f) 1) refl inv' (h (some f) 1 inv')
  behind-IsLoop threshold step run f (some p) go true e r inv h =
      let inv' = next-Inv (some p) run step f true e r inv in
      found_or threshold step (run + 1) p (ltb threshold (run + 1)) (go (some p) (run + 1)) refl
        inv' (h (some p) (run + 1) inv')

  turn-IsLoop :
      (threshold step run : ℕ) (previous : Option Fingerprint)
      (go : Option Fingerprint → ℕ → Option FailureDiagnosis) (o : Option Fingerprint)
      → step_fingerprint events step ≡ o
      → Inv previous run step
      → ((q : Option Fingerprint) (n : ℕ) → Inv q n (step + 1) → OnSome (IsLoop threshold) (go q n))
      → OnSome (IsLoop threshold) (elim o [
        | none ↦ go none 0
        | some f ↦ behind threshold step run f previous go (is_repeated py f previous)
      ])
  turn-IsLoop threshold step run previous go none e inv h = h none 0 tt
  turn-IsLoop threshold step run previous go (some f) e inv h =
      behind-IsLoop threshold step run f previous go (is_repeated py f previous) e refl inv h

  find_loop-IsLoop :
      (threshold left step : ℕ) (previous : Option Fingerprint) (run : ℕ)
      → Inv previous run step
      → OnSome (IsLoop threshold) (find_loop py threshold events left step previous run)
  unfolding find_loop
  find_loop-IsLoop threshold zero step previous run inv = tt
  find_loop-IsLoop threshold (suc left) step previous run inv =
      turn-IsLoop threshold step run previous (find_loop py threshold events left (step + 1))
        (step_fingerprint events step) refl inv
        (λ q n k. find_loop-IsLoop threshold left (step + 1) q n k)

  -- A loop is only diagnosed at a step that, like the `loop_threshold` steps directly before it, did
  -- what the first of them did with the same result.
  pub detect_nondeterministic_loop-IsLoop :
      (policy : FailurePolicy)
      → OnSome (IsLoop policy.loop_threshold) (detect_nondeterministic_loop py policy events)
  unfolding detect_nondeterministic_loop
  detect_nondeterministic_loop-IsLoop policy =
      find_loop-IsLoop policy.loop_threshold (loop_steps (last_step events none)) 0 none 0 tt
