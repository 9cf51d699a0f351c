-- ===== src/Core/Judge.antt =====
-- murmur/core/judge.py: the cascade of judges over a recorded run, and what it costs. Costs are
-- whole numbers of a fixed fraction; a tolerance is a fraction.
pub mod Verdicts
pub mod Cascade
pub mod Cache
pub mod Costs
use murmur_ai_harness.Prelude.{
  ℕ, zero, suc, ◌+◌, ◌-◌, ◌*◌, ◌/◌, ◌%◌, ◌≤◌, ◌<◌, min, max, String, ◌≡◌, refl, sym, ap, ◌∙◌, ◌≢◌,
  ◌↔◌, ◌⊎◌, inl, inr, Bool, true, false, not, ◌&&◌, ◌||◌, Option, none, some, List, [], ◌∷◌, ◌++◌,
  map, arith, ◌==◌, eq_iff, eq_refl, ltb, leb, nat_eq, str_le, if◌then◌else◌, leb→le, le→leb,
  nat_eq_iff, &&_iff, Bool-cases, Option-cases, concat, has_text, join, length, take, drop,
  length-append, take-append-drop, length-take, select, All, all, any, contains, IsUnique, count,
  count-append, contains-append, contains→count, count→contains, length-map, Has, Zip, All-map,
  All-intro, map-cong, All-Has, Has-map, length-select-cons, length-select, Has-select, Has-last,
  Has→contains, append-eq-nil, place, sort, length-sort, sorted, count-sort, count-sorted,
  length-sorted, place-perm, sort-perm, IsSorted, sort-IsSorted, All-sort, Has-sort, Dict, lookup,
  insert, update, keys, lookup-insert, lookup-update, pos_part, is_nonpos, neg_part, sub_ℕ, ◌+ℤ◌,
  leb_ℤ, ℤ, pos, negsuc,
}
use murmur_ai_harness.Core.Types.{
  Outcome, passed, failed, error, JudgeOutcome, pass, fail, unknown, needs_more_evidence, same,
  TaskSpec, TrajectoryResult,
}

pub record Fraction : Type 0 where
  pub num : ℕ
  pub den : ℕ

abbrev pub JudgeCallable : Type 0
JudgeCallable = TaskSpec → TrajectoryResult → JudgeOutcome

-- `JudgePolicy`
pub record JudgePolicy : Type 0 where
  pub converge_tol : Fraction
  pub tier2_cost_usd : ℕ
  pub escalation_action : String
  pub strong_judge : Option JudgeCallable

pub data EscalationStep : Type 0 where
  escalate : (trigger : String) (step : Option ℕ) → EscalationStep
  re_evaluate : (action : String) (step : Option ℕ) → EscalationStep
  end_in : (outcome : JudgeOutcome) (to : String) → EscalationStep

pub record TierHits : Type 0 where
  pub tier0 : ℕ
  pub tier1 : ℕ
  pub tier2 : ℕ

-- `CascadeJudgment`
pub record CascadeJudgment : Type 0 where
  pub verdict : JudgeOutcome
  pub resolved_tier : ℕ
  pub trajectory_verdicts : Dict JudgeOutcome
  pub tier_hits : TierHits
  pub tier2_calls : ℕ
  pub cascade_cost_usd : ℕ
  pub baseline_cost_usd : ℕ
  pub cost_ratio : Fraction
  pub escalations : ℕ
  pub escalation_trace : List EscalationStep

-- Counter(values): each value with how often it stands there, in order of appearance.
unfoldable pub tally : JudgeOutcome → List (JudgeOutcome × ℕ) → List (JudgeOutcome × ℕ)
unfolding same
tally v [] = (v, 1) ∷ []
tally v ((w, n) ∷ counts) = if same w v then (w, n + 1) ∷ counts else (w, n) ∷ tally v counts

unfoldable pub counter : List JudgeOutcome → List (JudgeOutcome × ℕ) → List (JudgeOutcome × ℕ)
unfolding tally
counter [] counts = counts
counter (v ∷ values) counts = counter values (tally v counts)

-- counts.most_common(1): the first of the greatest.
unfoldable pub most_common : JudgeOutcome × ℕ → List (JudgeOutcome × ℕ) → JudgeOutcome × ℕ
most_common best [] = best
most_common best (entry ∷ counts) = most_common (if ltb best.1 entry.1 then entry else best) counts

-- `agreement_on_outcome`
unfoldable pub agreement_on_outcome : List JudgeOutcome → Fraction
unfolding counter most_common
agreement_on_outcome values = elim (counter values []) [
  | [] ↦ record { num = 0; den = 1 }
  | entry ∷ counts ↦ record { num = (most_common entry counts).1; den = length values }
]

-- a >= b
abbrev pub at_least : Fraction → Fraction → Bool
at_least a b = leb (b.num * a.den) (a.num * b.den)

abbrev pub values_of : Dict JudgeOutcome → List JudgeOutcome
values_of d = map (λ (e : String × JudgeOutcome). e.1) d

abbrev pub is_known : JudgeOutcome → Bool
is_known unknown = false
is_known v = true

abbrev pub all_pass : List JudgeOutcome → Bool
all_pass [] = false
all_pass values = all (same pass) values

-- `_aggregate`
unfoldable pub aggregate : List JudgeOutcome → JudgeOutcome
unfolding all any same
aggregate values =
    if any (same unknown) values
    then needs_more_evidence
    else if all_pass values
    then pass
    else fail

-- for a in items: if test(a): d[key(a)] = value(a)
unfoldable pub assign :
    {A : Type 0}
    → (key : A → String) (test : A → Bool) (value : A → JudgeOutcome) → List A
    → Dict JudgeOutcome
    → Dict JudgeOutcome
unfolding insert
assign key test value [] d = d
assign key test value (a ∷ items) d =
    assign key test value items (if test a then insert (key a) (value a) d else d)

-- `_ambiguous_trajectory_ids`
unfoldable pub ambiguous_trajectory_ids : Dict JudgeOutcome → List String
unfolding counter most_common same select
ambiguous_trajectory_ids verdicts =
    let unknowns = select (λ (e : String × JudgeOutcome). not (is_known e.1)) verdicts in
    elim (counter (select is_known (values_of verdicts)) []) [
      | [] ↦ keys verdicts
      | entry ∷ counts ↦
          let majority = (most_common entry counts).0 in
          keys unknowns
          ++ keys (
              select (λ (e : String × JudgeOutcome). is_known e.1 && not (same e.1 majority))
                verdicts)
    ]

-- len(set(verdicts.values())) == 1 and "unknown" not in …
abbrev pub is_settled : List JudgeOutcome → Bool
is_settled [] = true
is_settled (v ∷ values) = is_known v && all (same v) values

-- `escalation_state_machine`
unfoldable pub escalation_state_machine :
    Dict JudgeOutcome
    → (action : String) (divergence_step : Option ℕ) (final_verdict : JudgeOutcome)
    → List EscalationStep
unfolding all same
escalation_state_machine verdicts action step final =
    if is_settled (values_of verdicts)
    then []
    else escalate "divergence_or_unknown" step
      ∷ re_evaluate action step
      ∷ end_in final (if same final pass then "DONE" else "FAIL")
      ∷ []

-- outcome == "pass"
abbrev pub has_passed : Outcome → Bool
has_passed passed = true
has_passed o = false

abbrev pub id_of : TrajectoryResult → String
id_of t = t.trajectory_id

abbrev pub always : TrajectoryResult → Bool
always t = true

abbrev pub is_ambiguous : Dict JudgeOutcome → TrajectoryResult → Bool
is_ambiguous verdicts t = contains (ambiguous_trajectory_ids verdicts) t.trajectory_id

-- The case where the first tier agrees.
abbrev pub resolve_tier1 : JudgePolicy → (known : ℕ) → Dict JudgeOutcome → CascadeJudgment
resolve_tier1 policy known verdicts = record {
  verdict = aggregate (values_of verdicts);
  resolved_tier = 1;
  trajectory_verdicts = verdicts;
  tier_hits = record { tier0 = known; tier1 = length verdicts; tier2 = 0 };
  tier2_calls = 0;
  cascade_cost_usd = 0;
  baseline_cost_usd = length verdicts * policy.tier2_cost_usd;
  cost_ratio = record { num = 0; den = 1 };
  escalations = 0;
  escalation_trace = [];
}

-- The rest of `judge_run`, with the verdicts after the second tier and its calls.
abbrev pub resolve_tier2 :
    JudgePolicy
    → (divergence_step : Option ℕ) (known calls : ℕ) → Dict JudgeOutcome
    → CascadeJudgment
resolve_tier2 policy step known calls verdicts =
    let final = aggregate (values_of verdicts) in
    let trace = escalation_state_machine verdicts policy.escalation_action step final in
    record {
      verdict = final;
      resolved_tier = 2;
      trajectory_verdicts = verdicts;
      tier_hits = record { tier0 = known; tier1 = 0; tier2 = calls };
      tier2_calls = calls;
      cascade_cost_usd = calls * policy.tier2_cost_usd;
      baseline_cost_usd = length verdicts * policy.tier2_cost_usd;
      cost_ratio =
          if nat_eq (length verdicts * policy.tier2_cost_usd) 0
          then record { num = 0; den = 1 }
          else record {
            num = calls * policy.tier2_cost_usd;
            den = length verdicts * policy.tier2_cost_usd;
          };
      escalations = elim trace [ [] ↦ 0 | _ ↦ 1 ];
      escalation_trace = trace;
    }

-- `task.accepts` is a parameter here.
module _ (accepts : TaskSpec → String → Bool) where
  -- `_tier0_check`
  unfoldable pub tier0_check : TaskSpec → TrajectoryResult → JudgeOutcome
  tier0_check task t = elim t.outcome [
    | error ↦ unknown
    | failed ↦ fail
    | passed ↦ if accepts task t.output then pass else fail
  ]

  -- `_tier2_judge`
  unfoldable pub tier2_judge : TaskSpec → JudgePolicy → TrajectoryResult → JudgeOutcome
  unfolding same
  tier2_judge task policy t = elim policy.strong_judge [
    | some judge ↦ judge task t
    | none ↦ if has_passed t.outcome && accepts task t.output then pass else fail
  ]

  -- `_baseline_verdict`
  unfoldable pub baseline_verdict : TaskSpec → JudgePolicy → List TrajectoryResult → JudgeOutcome
  unfolding tier2_judge all same
  baseline_verdict task policy ts =
      if all_pass (map (tier2_judge task policy) ts) then pass else fail

  -- The verdicts of the first tier.
  unfoldable pub tier0_verdicts : TaskSpec → List TrajectoryResult → Dict JudgeOutcome
  unfolding assign tier0_check
  tier0_verdicts task ts = assign id_of always (tier0_check task) ts []

  -- `judge_run`
  unfoldable pub judge_run :
      List TrajectoryResult
      → TaskSpec
      → JudgePolicy
      → (divergence_step : Option ℕ) → CascadeJudgment
  unfolding tier0_verdicts agreement_on_outcome aggregate assign ambiguous_trajectory_ids
      tier2_judge escalation_state_machine contains select
  judge_run ts task policy step =
      let verdicts = tier0_verdicts task ts in
      let known = select is_known (values_of verdicts) in
      if nat_eq (length known) (length verdicts)
        && at_least (agreement_on_outcome known) policy.converge_tol
      then resolve_tier1 policy (length known) verdicts
      else resolve_tier2 policy step (length known) (length (select (is_ambiguous verdicts) ts))
          (assign id_of (is_ambiguous verdicts) (tier2_judge task policy) ts verdicts)
