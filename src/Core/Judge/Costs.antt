-- ===== src/Core/Judge/Costs.antt =====
-- `measure_judge_cost`: the cascade against the baseline over labelled runs. The interval of the
-- difference, a square root, is left out.
pub mod Accuracy
use murmur_ai_harness.Prelude.{
  ℕ, zero, suc, ◌+◌, ◌-◌, ◌*◌, ◌/◌, ◌%◌, ◌≤◌, ◌<◌, min, max, String, ◌≡◌, refl, sym, ap, ◌∙◌, ◌≢◌,
  ◌↔◌, ◌⊎◌, inl, inr, Bool, true, false, not, ◌&&◌, ◌||◌, Option, none, some, List, [], ◌∷◌, ◌++◌,
  map, arith, ◌==◌, eq_iff, eq_refl, ltb, leb, nat_eq, str_le, if◌then◌else◌, leb→le, le→leb,
  nat_eq_iff, &&_iff, Bool-cases, Option-cases, concat, has_text, join, length, take, drop,
  length-append, take-append-drop, length-take, select, All, all, any, contains, IsUnique, count,
  count-append, contains-append, contains→count, count→contains, length-map, Has, Zip, All-map,
  All-intro, map-cong, All-Has, Has-map, length-select-cons, length-select, Has-select, Has-last,
  Has→contains, append-eq-nil, place, sort, length-sort, sorted, count-sort, count-sorted,
  length-sorted, place-perm, sort-perm, IsSorted, sort-IsSorted, All-sort, Has-sort, Dict, lookup,
  insert, update, keys, lookup-insert, lookup-update, pos_part, is_nonpos, neg_part, sub_ℕ, ◌+ℤ◌,
  leb_ℤ, ℤ, pos, negsuc,
}
use murmur_ai_harness.Core.Types.{JudgeOutcome, same, TaskSpec, TrajectoryResult}
use murmur_ai_harness.Core.Judge.{
  Fraction, JudgePolicy, TierHits, CascadeJudgment, judge_run, baseline_verdict,
}

pub record LabelledJudgeCase : Type 0 where
  pub trajectories : List TrajectoryResult
  pub task : TaskSpec
  pub ground_truth : JudgeOutcome

-- The sums of the loop.
pub record Sums : Type 0 where
  pub baseline_correct : ℕ
  pub cascade_correct : ℕ
  pub baseline_cost : ℕ
  pub cascade_cost : ℕ
  pub tier_hits : TierHits

-- The difference of the accuracies is its numerator and its denominator.
pub record JudgeCostReport : Type 0 where
  pub cost_ratio : Fraction
  pub cascade_cost_usd : ℕ
  pub baseline_cost_usd : ℕ
  pub baseline_accuracy : Fraction
  pub cascade_accuracy : Fraction
  pub accuracy_delta : ℤ × ℕ
  pub tier_hits : TierHits

-- a / b if b else 0.0
abbrev pub ratio : ℕ → ℕ → Fraction
ratio a b = if nat_eq b 0 then record { num = 0; den = 1 } else record { num = a; den = b }

abbrev pub correct : JudgeOutcome → JudgeOutcome → ℕ
correct verdict truth = if same verdict truth then 1 else 0

abbrev pub add_hits : TierHits → TierHits → TierHits
add_hits a b = record {
  tier0 = a.tier0 + b.tier0;
  tier1 = a.tier1 + b.tier1;
  tier2 = a.tier2 + b.tier2;
}

-- One turn of the loop.
abbrev pub add_case : (baseline : JudgeOutcome) → CascadeJudgment → JudgeOutcome → Sums → Sums
add_case baseline cascade truth s = record {
  baseline_correct = s.baseline_correct + correct baseline truth;
  cascade_correct = s.cascade_correct + correct cascade.verdict truth;
  baseline_cost = s.baseline_cost + cascade.baseline_cost_usd;
  cascade_cost = s.cascade_cost + cascade.cascade_cost_usd;
  tier_hits = add_hits s.tier_hits cascade.tier_hits;
}

abbrev pub no_sums : Sums
no_sums = record {
  baseline_correct = 0;
  cascade_correct = 0;
  baseline_cost = 0;
  cascade_cost = 0;
  tier_hits = record { tier0 = 0; tier1 = 0; tier2 = 0 };
}

abbrev pub report_of : ℕ → Sums → JudgeCostReport
report_of total s = record {
  cost_ratio = ratio s.cascade_cost s.baseline_cost;
  cascade_cost_usd = s.cascade_cost;
  baseline_cost_usd = s.baseline_cost;
  baseline_accuracy = ratio s.baseline_correct total;
  cascade_accuracy = ratio s.cascade_correct total;
  accuracy_delta = (sub_ℕ s.cascade_correct s.baseline_correct, max 1 total);
  tier_hits = s.tier_hits;
}

module _ (accepts : TaskSpec → String → Bool) where
  unfoldable pub add_cases : JudgePolicy → List LabelledJudgeCase → Sums → Sums
  unfolding judge_run baseline_verdict same
  add_cases policy [] s = s
  add_cases policy (c ∷ cases) s = add_cases policy cases (
      add_case (baseline_verdict accepts c.task policy c.trajectories)
        (judge_run accepts c.trajectories c.task policy none) c.ground_truth s)

  -- `measure_judge_cost`
  unfoldable pub measure_judge_cost : List LabelledJudgeCase → JudgePolicy → JudgeCostReport
  unfolding add_cases
  measure_judge_cost cases policy = report_of (length cases) (add_cases policy cases no_sums)
