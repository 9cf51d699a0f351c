-- ===== src/Examples/Judging.antt =====
-- Judged and recorded trajectories.
use murmur_ai_harness.Prelude.{
  ℕ, ◌+◌, ◌*◌, ◌≤◌, String, ◌≡◌, refl, ◌↔◌, Bool, false, none, some, List, [], ◌∷◌, ◌++◌, ◌==◌,
  contains, lookup, insert, pos,
}
use murmur_ai_harness.Core.Json.{Json, null}
use murmur_ai_harness.Core.Types.{Outcome, passed, failed, error, fail, TaskSpec, TrajectoryResult}
use murmur_ai_harness.Core.Events.{Event, Payload, step_started, tool_call, tool_result}
use murmur_ai_harness.Core.Judge.{JudgePolicy, judge_run, baseline_verdict}
use murmur_ai_harness.Core.Judge.Cascade.{judge_run_verdict}
use murmur_ai_harness.Core.Judge.Cache.{
  JudgeHash, JudgeCallCache, Evaluator, said, answered, ask_judge, cached_llm_judge, next_answer,
  cached_llm_judge-next,
}
use murmur_ai_harness.Core.Judge.Costs.{LabelledJudgeCase, measure_judge_cost}
use murmur_ai_harness.Core.Judge.Costs.Accuracy.{measure_judge_cost_exact}
use murmur_ai_harness.Core.Divergence.{
  Signature, tool_action, active_at, agreement_at, is_split, divergence_step,
}
use murmur_ai_harness.Core.Divergence.First.{IsFirst, parts_at, divergence_step-IsFirst}
use murmur_ai_harness.Core.Divergence.Unanimous.{IsUnanimous, agreement_at_iff}
use murmur_ai_harness.Core.Classify.{Formats, policy_from_task, detect_nondeterministic_loop}
use murmur_ai_harness.Core.Classify.Classes.{OnSome}
use murmur_ai_harness.Core.Classify.Loops.{IsLoop, detect_nondeterministic_loop-IsLoop}

abbrev pub some_task : TaskSpec
some_task = record {
  task_id = "t1";
  prompt = "say ok";
  expected_output = some "ok";
  acceptance = none;
  timeout_ms = none;
  budget_usd = none;
  step_contracts = [];
}

abbrev ended : String → Outcome → String → TrajectoryResult
ended id outcome output = record {
  trajectory_id = id;
  outcome = outcome;
  output = output;
  failure_class = none;
  cost_usd = pos 1;
  latency_ms = pos 1;
  failure_step = none;
  failure_detail = none;
  failure_confidence = none;
}

-- One trajectory that passed, one that failed and one that had an error.
abbrev mixed : List TrajectoryResult
mixed = ended "a" passed "ok" ∷ ended "b" failed "no" ∷ ended "c" error "" ∷ []

abbrev by_output : TaskSpec → String → Bool
by_output task output = output == "ok"

abbrev default_policy : JudgePolicy
default_policy = record {
  converge_tol = record { num = 1; den = 1 };
  tier2_cost_usd = 1;
  escalation_action = "strong_judge";
  strong_judge = none;
}

judge_run_verdict_example :
    (judge_run by_output mixed some_task default_policy none).verdict
    ≡ baseline_verdict by_output some_task default_policy mixed
unfolding contains
judge_run_verdict_example =
    judge_run_verdict by_output some_task default_policy refl mixed none (refl, (refl, (refl, tt)))

abbrev cases : List LabelledJudgeCase
cases = record { trajectories = mixed; task = some_task; ground_truth = fail } ∷ []

measure_judge_cost_exact_example :
    let report = measure_judge_cost by_output cases default_policy in
    (report.cascade_accuracy ≡ report.baseline_accuracy)
    × (report.accuracy_delta.0 ≡ pos 0)
    × report.cascade_cost_usd ≤ report.baseline_cost_usd
unfolding contains
measure_judge_cost_exact_example =
    measure_judge_cost_exact by_output default_policy refl cases ((refl, (refl, (refl, tt))), tt)

abbrev by_rubric : JudgeHash
by_rubric rubric name output outcome failure_class = rubric

abbrev strict : Evaluator
strict task t = said fail

abbrev no_cache : JudgeCallCache
no_cache = record { values = []; calls = 0 }

abbrev one_entry : JudgeCallCache
one_entry = record { values = ("is it ok", fail) ∷ []; calls = 1 }

abbrev first_asked : TrajectoryResult
first_asked = ended "a" passed "ok"

asked_once :
    cached_llm_judge {J = Json} by_rubric strict some_task first_asked "is it ok" "fake" no_cache
      none
    ≡ (answered fail, (one_entry, none))
unfolding cached_llm_judge ask_judge lookup insert
asked_once = refl

cached_llm_judge-next_example :
    cached_llm_judge {J = Json} by_rubric strict some_task first_asked "is it short" "fake"
      one_entry none
    ≡ next_answer "is it ok" "is it short" fail no_cache one_entry none (
        ask_judge by_rubric strict some_task first_asked "is it short" "fake" "is it short"
          one_entry none)
cached_llm_judge-next_example =
    cached_llm_judge-next by_rubric strict some_task some_task first_asked first_asked "is it ok"
      "is it short" "fake" "fake" no_cache one_entry none none fail asked_once

-- Signatures by their tools.
abbrev by_tool : Signature → Signature → Bool
by_tool (tool_action a x) (tool_action b y) = a == b
by_tool a b = false

abbrev at_seq : ℕ → Payload Json → Event Json
at_seq seq p = record { trajectory_id = some "a"; seq = seq; payload = p }

-- A step with one call.
abbrev step_with : ℕ → String → List (Event Json)
step_with index tool =
    at_seq (3 * index + 1) (step_started index "act")
    ∷ at_seq (3 * index + 2) (tool_call tool null "h")
    ∷ at_seq (3 * index + 3) (tool_result tool null "r" (pos 1))
    ∷ []

-- Two trajectories that part at step one.
abbrev parting : List (List (Event Json))
parting =
    (step_with 0 "read" ++ step_with 1 "edit") ∷ (step_with 0 "read" ++ step_with 1 "run") ∷ []

divergence_step-IsFirst_example :
    IsFirst
      (parts_at by_tool parting (record { num = 1; den = 1 }))
      0
      2
      (divergence_step by_tool parting (record { num = 1; den = 1 }) 2)
divergence_step-IsFirst_example =
    divergence_step-IsFirst by_tool parting (record { num = 1; den = 1 }) 2

agreement_at_iff_example :
    (is_split (record { num = 1; den = 1 }) (agreement_at by_tool parting 1) ≡ false)
    ↔ IsUnanimous by_tool (active_at parting 1)
agreement_at_iff_example = agreement_at_iff by_tool parting 1

abbrev pub plain_formats : Formats
plain_formats = record {
  money = λ z. "";
  milliseconds = λ z. "";
  number = λ n. "";
  lower = λ s. s;
  same_action = by_tool;
}

-- Five times the same.
abbrev spinning : List (Event Json)
spinning =
    step_with 0 "read"
    ++ step_with 1 "read"
    ++ step_with 2 "read"
    ++ step_with 3 "read"
    ++ step_with 4 "read"

detect_nondeterministic_loop-IsLoop_example :
    OnSome
      (IsLoop plain_formats spinning 3)
      (detect_nondeterministic_loop plain_formats (policy_from_task none) spinning)
unfolding policy_from_task
detect_nondeterministic_loop-IsLoop_example =
    detect_nondeterministic_loop-IsLoop plain_formats spinning (policy_from_task none)
