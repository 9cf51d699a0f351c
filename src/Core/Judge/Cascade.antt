-- ===== src/Core/Judge/Cascade.antt =====
-- What the cascade decides and what it costs.
use murmur_ai_harness.Prelude.{
  ℕ, zero, suc, ◌*◌, ◌≤◌, String, ◌≡◌, refl, sym, ap, ◌∙◌, Bool, true, false, ◌&&◌, Option, none,
  some, List, [], ◌∷◌, map, arith, nat_eq, if◌then◌else◌, &&_iff, length, select, All, any,
  IsUnique, length-map, Has, All-map, All-intro, map-cong, Has-map, length-select-cons,
  length-select,
}
use mathlib.Core.Path.{subst}
use murmur_ai_harness.Core.Types.{
  Outcome, passed, failed, error, JudgeOutcome, pass, fail, unknown, same, TaskSpec,
  TrajectoryResult,
}
use murmur_ai_harness.Core.Judge.{
  JudgePolicy, values_of, is_known, aggregate, all_pass, tier0_check, tier2_judge, tier0_verdicts,
  baseline_verdict, id_of, is_ambiguous, judge_run, assign, has_passed, CascadeJudgment,
  resolve_tier1, resolve_tier2, at_least, agreement_on_outcome,
}
use murmur_ai_harness.Core.Judge.Verdicts.{
  pairs, values-pairs, assign-new, assign-pairs, is_known_lem,
}

tier0_if_known :
    (o : Outcome) (accepted : Bool)
    → is_known
        (elim o [ error ↦ unknown | failed ↦ fail | passed ↦ if accepted then pass else fail ])
      ≡ true
    → elim o [ error ↦ unknown | failed ↦ fail | passed ↦ if accepted then pass else fail ]
      ≡ (if has_passed o && accepted then pass else fail)
tier0_if_known passed accepted h = refl
tier0_if_known failed accepted h = refl
tier0_if_known error accepted h = cc

is_unknown_if : (b : Bool) → same unknown (if b then pass else fail) ≡ false
unfolding same
is_unknown_if true = refl
is_unknown_if false = refl

-- No verdict is unknown, so the aggregate is the baseline's.
aggregate-map :
    (f : TrajectoryResult → JudgeOutcome) (ts : List TrajectoryResult)
    → ((t : TrajectoryResult) → same unknown (f t) ≡ false)
    → aggregate (map f ts) ≡ (if all_pass (map f ts) then pass else fail)
unfolding aggregate
aggregate-map f ts h = rw (any_unknown ts) refl
  where
    any_unknown : (ts : List TrajectoryResult) → any (same unknown) (map f ts) ≡ false
    any_unknown [] = refl
    any_unknown (t ∷ ts) = rw (h t, any_unknown ts) refl

each_known :
    {A : Type 0} (f : A → JudgeOutcome) (xs : List A)
    → nat_eq (length (select is_known (map f xs))) (length xs) ≡ true
    → All (λ x. is_known (f x) ≡ true) xs
unfolding select
each_known f [] h = tt
each_known f (x ∷ xs) h =
    let bound = length-select is_known (map f xs) in
    let here = length-select-cons is_known (f x) (map f xs) in
    let size = length-map xs f in (ground arith, each_known f xs (ground arith))

pick_lem : (b : Bool) (x y : JudgeOutcome) → (b ≡ false → y ≡ x) → (if b then x else y) ≡ x
pick_lem true x y h = refl
pick_lem false x y h = h refl

verdict_if :
    (c : Bool) (a b : CascadeJudgment) (v : JudgeOutcome)
    → (c ≡ true → a.verdict ≡ v)
    → (b.verdict ≡ v)
    → (if c then a else b).verdict ≡ v
verdict_if true a b v h k = h refl
verdict_if false a b v h k = k

mul_le : (a b c : ℕ) → a ≤ b → a * c ≤ b * c
mul_le zero b c h = omega arith
mul_le (suc a) zero c h = elim h [ ]
mul_le (suc a) (suc b) c h = let le = mul_le a b c (omega arith) in omega arith

cost_if :
    (c : Bool) (a b : CascadeJudgment)
    → a.cascade_cost_usd ≤ a.baseline_cost_usd
    → b.cascade_cost_usd ≤ b.baseline_cost_usd
    → (if c then a else b).cascade_cost_usd ≤ (if c then a else b).baseline_cost_usd
cost_if true a b h k = h
cost_if false a b h k = k

module _ (accepts : TaskSpec → String → Bool) (task : TaskSpec) (policy : JudgePolicy) where
  -- The verdicts after the second tier.
  abbrev final : List TrajectoryResult → TrajectoryResult → JudgeOutcome
  final ts t =
      if is_ambiguous (tier0_verdicts accepts task ts) t
      then tier2_judge accepts task policy t
      else tier0_check accepts task t

  tier0-pairs :
      (ts : List TrajectoryResult)
      → IsUnique (map id_of ts)
      → tier0_verdicts accepts task ts ≡ pairs id_of (tier0_check accepts task) ts
  unfolding tier0_verdicts
  tier0-pairs ts u = assign-new id_of (tier0_check accepts task) ts u

  final-pairs :
      (ts : List TrajectoryResult)
      → IsUnique (map id_of ts)
      → assign id_of
          (is_ambiguous (tier0_verdicts accepts task ts))
          (tier2_judge accepts task policy)
          ts
          (tier0_verdicts accepts task ts)
        ≡ pairs id_of (final ts) ts
  final-pairs ts u =
      let verdicts = tier0_verdicts accepts task ts in
      ap (assign id_of (is_ambiguous verdicts) (tier2_judge accepts task policy) ts)
        (tier0-pairs ts u)
      ∙ assign-pairs id_of (is_ambiguous verdicts) (tier0_check accepts task)
          (tier2_judge accepts task policy) ts u

  module _ (weak : policy.strong_judge ≡ none) where
    tier2_weak :
        (t : TrajectoryResult)
        → tier2_judge accepts task policy t
          ≡ (if has_passed t.outcome && accepts task t.output then pass else fail)
    unfolding tier2_judge
    tier2_weak t =
        ap
          (λ (j : Option (TaskSpec → TrajectoryResult → JudgeOutcome)). elim j [
            | some judge ↦ judge task t
            | none ↦ if has_passed t.outcome && accepts task t.output then pass else fail
          ])
          weak

    -- Without a strong judge the second tier knows a verdict of the first one.
    tier0-tier2 :
        (t : TrajectoryResult)
        → is_known (tier0_check accepts task t) ≡ true
        → tier0_check accepts task t ≡ tier2_judge accepts task policy t
    unfolding tier0_check
    tier0-tier2 t h = tier0_if_known t.outcome (accepts task t.output) h ∙ sym (tier2_weak t)

    aggregate-tier2 :
        (ts : List TrajectoryResult)
        → aggregate (map (tier2_judge accepts task policy) ts)
          ≡ baseline_verdict accepts task policy ts
    unfolding baseline_verdict
    aggregate-tier2 ts =
        aggregate-map (tier2_judge accepts task policy) ts
          (λ t. rw (tier2_weak t) (is_unknown_if (has_passed t.outcome && accepts task t.output)))

    final-tier2 :
        (ts : List TrajectoryResult)
        → IsUnique (map id_of ts)
        → All (λ t. final ts t ≡ tier2_judge accepts task policy t) ts
    final-tier2 ts u =
        All-intro (λ t. final ts t ≡ tier2_judge accepts task policy t) ts
          (λ t m.
            pick_lem (is_ambiguous (tier0_verdicts accepts task ts) t)
              (tier2_judge accepts task policy t) (tier0_check accepts task t)
              (λ e. tier0-tier2 t (
                is_known_lem t.trajectory_id (tier0_check accepts task t)
                  (tier0_verdicts accepts task ts)
                  (subst (Has (t.trajectory_id, tier0_check accepts task t))
                    (sym (tier0-pairs ts u))
                    (Has-map
                      (λ (a : TrajectoryResult). (a.trajectory_id, tier0_check accepts task a)) t ts
                      m))
                  e)))

    values-tier0 :
        (ts : List TrajectoryResult)
        → IsUnique (map id_of ts)
        → nat_eq
            (length (select is_known (values_of (tier0_verdicts accepts task ts))))
            (length (tier0_verdicts accepts task ts))
          ≡ true
        → values_of (tier0_verdicts accepts task ts) ≡ map (tier2_judge accepts task policy) ts
    values-tier0 ts u h =
        let e =
          ap values_of (tier0-pairs ts u) ∙ values-pairs id_of (tier0_check accepts task) ts in
        let size = ap length (tier0-pairs ts u) ∙ length-map ts _ in
        let known = each_known (tier0_check accepts task) ts (
          subst (λ vs. nat_eq (length (select is_known vs)) (length ts) ≡ true) e
            (subst
              (λ n.
                nat_eq (length (select is_known (values_of (tier0_verdicts accepts task ts)))) n
                ≡ true)
              size h)) in
        e
        ∙ map-cong (tier0_check accepts task) (tier2_judge accepts task policy) ts
            (All-map _ _ ts tier0-tier2 known)

    values-final :
        (ts : List TrajectoryResult)
        → IsUnique (map id_of ts)
        → values_of (pairs id_of (final ts) ts) ≡ map (tier2_judge accepts task policy) ts
    values-final ts u =
        values-pairs id_of (final ts) ts
        ∙ map-cong (final ts) (tier2_judge accepts task policy) ts (final-tier2 ts u)

    -- Without a strong judge and with distinct ids the cascade decides as the baseline does.
    pub judge_run_verdict :
        (ts : List TrajectoryResult) (step : Option ℕ)
        → IsUnique (map id_of ts)
        → (judge_run accepts ts task policy step).verdict ≡ baseline_verdict accepts task policy ts
    unfolding judge_run
    judge_run_verdict ts step u =
        let verdicts = tier0_verdicts accepts task ts in
        let known = select is_known (values_of verdicts) in
        let all_there = nat_eq (length known) (length verdicts) in
        let agree = at_least (agreement_on_outcome known) policy.converge_tol in
        verdict_if (all_there && agree) (resolve_tier1 policy (length known) verdicts)
          (resolve_tier2 policy step (length known) (length (select (is_ambiguous verdicts) ts))
            (assign id_of (is_ambiguous verdicts) (tier2_judge accepts task policy) ts verdicts))
          (baseline_verdict accepts task policy ts)
          (λ h.
            ap aggregate (values-tier0 ts u ((&&_iff all_there agree).0 h).0) ∙ aggregate-tier2 ts)
          (ap (λ d. aggregate (values_of d)) (final-pairs ts u)
            ∙ ap aggregate (values-final ts u)
            ∙ aggregate-tier2 ts)

  -- The cascade costs no more than the baseline.
  pub judge_run_cost :
      (ts : List TrajectoryResult) (step : Option ℕ)
      → IsUnique (map id_of ts)
      → (judge_run accepts ts task policy step).cascade_cost_usd
        ≤ (judge_run accepts ts task policy step).baseline_cost_usd
  unfolding judge_run
  judge_run_cost ts step u =
      let verdicts = tier0_verdicts accepts task ts in
      let known = select is_known (values_of verdicts) in
      cost_if
        (nat_eq (length known) (length verdicts)
          && at_least (agreement_on_outcome known) policy.converge_tol)
        (resolve_tier1 policy (length known) verdicts)
        (resolve_tier2 policy step (length known) (length (select (is_ambiguous verdicts) ts))
          (assign id_of (is_ambiguous verdicts) (tier2_judge accepts task policy) ts verdicts))
        (omega arith)
        (mul_le _ _ policy.tier2_cost_usd (
          rw
            (
              final-pairs ts u,
              length-map {B = String × JudgeOutcome} ts (λ t. (t.trajectory_id, final ts t)),
            )
            (length-select (is_ambiguous verdicts) ts)))
