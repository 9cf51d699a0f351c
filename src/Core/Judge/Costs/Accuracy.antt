-- ===== src/Core/Judge/Costs/Accuracy.antt =====
-- What `measure_judge_cost` reports of a policy without a strong judge.
use murmur_ai_harness.Prelude.{
  ℕ, ◌+◌, ◌≤◌, String, ◌≡◌, refl, ap, Bool, none, List, [], ◌∷◌, map, arith, length, All, IsUnique,
  sub_ℕ, pos,
}
use murmur_ai_harness.Core.Types.{TaskSpec}
use murmur_ai_harness.Core.Judge.{JudgePolicy, judge_run, baseline_verdict, id_of}
use murmur_ai_harness.Core.Judge.Costs.{
  LabelledJudgeCase, Sums, add_case, add_cases, no_sums, correct, ratio, measure_judge_cost,
}
use murmur_ai_harness.Core.Judge.Cascade.{judge_run_verdict, judge_run_cost}

-- The trajectories of the case have distinct ids.
abbrev pub HasIds : LabelledJudgeCase → Type 0
HasIds c = IsUnique (map id_of c.trajectories)

-- The cascade is right as often as the baseline and costs no more.
abbrev IsEven : Sums → Type 0
IsEven s = (s.cascade_correct ≡ s.baseline_correct) × s.cascade_cost ≤ s.baseline_cost

add_both : (a b c d : ℕ) → a ≡ b → c ≡ d → a + c ≡ b + d
add_both a b c d h k = omega arith

add_le : (a b c d : ℕ) → a ≤ b → c ≤ d → a + c ≤ b + d
add_le a b c d h k = omega arith

sub_self : (a b : ℕ) → a ≡ b → sub_ℕ a b ≡ pos 0
sub_self a b h = ground arith

module _ (accepts : TaskSpec → String → Bool) (policy : JudgePolicy)
    (weak : policy.strong_judge ≡ none) where
  add_case-IsEven :
      (c : LabelledJudgeCase) (s : Sums)
      → HasIds c
      → IsEven s
      → IsEven (
          add_case
            (baseline_verdict accepts c.task policy c.trajectories)
            (judge_run accepts c.trajectories c.task policy none)
            c.ground_truth
            s)
  add_case-IsEven c s u h =
      let e = judge_run_verdict accepts c.task policy weak c.trajectories none u in
      let cost = judge_run_cost accepts c.task policy c.trajectories none u in
      (
        add_both s.cascade_correct s.baseline_correct _ _ h.0
            (ap (λ v. correct v c.ground_truth) e),
        add_le s.cascade_cost s.baseline_cost _ _ h.1 cost,
      )

  add_cases-IsEven :
      (cases : List LabelledJudgeCase) (s : Sums)
      → All HasIds cases
      → IsEven s
      → IsEven (add_cases accepts policy cases s)
  unfolding add_cases
  add_cases-IsEven [] s u h = h
  add_cases-IsEven (c ∷ cases) s u h = add_cases-IsEven cases _ u.1 (add_case-IsEven c s u.0 h)

  -- Without a strong judge and with distinct ids in each run the cascade has the baseline's
  -- accuracy, their difference is zero, and it costs no more.
  pub measure_judge_cost_exact :
      (cases : List LabelledJudgeCase)
      → All HasIds cases
      → let report = measure_judge_cost accepts cases policy in
        (report.cascade_accuracy ≡ report.baseline_accuracy)
        × (report.accuracy_delta.0 ≡ pos 0)
        × report.cascade_cost_usd ≤ report.baseline_cost_usd
  unfolding measure_judge_cost
  measure_judge_cost_exact cases u =
      let (same_correct, cheaper) = add_cases-IsEven cases no_sums u (refl, omega arith) in
      (ap (λ n. ratio n (length cases)) same_correct, sub_self _ _ same_correct, cheaper)
