-- ===== src/Core/Types.antt =====
-- murmur/core/types.py: tasks and what a trajectory left behind. Costs, times and confidences are
-- whole numbers of a fixed fraction. Of a task's metadata the three keys are kept that are read.
use murmur_ai_harness.Prelude.{
  ℕ, String, Bool, true, false, Option, none, some, List, [], ◌∷◌, nat_eq, if◌then◌else◌, ℤ,
}
use murmur_ai_harness.Core.Schema.{Schema}

-- `Outcome`, of a trajectory
pub data Outcome : Type 0 where
  passed failed error : Outcome

-- `JudgeOutcome`, with the one more text that `RunVerdict` has.
pub data JudgeOutcome : Type 0 where
  pass fail unknown needs_more_evidence : JudgeOutcome

-- a == b
unfoldable pub same : JudgeOutcome → JudgeOutcome → Bool
same pass pass = true
same fail fail = true
same unknown unknown = true
same needs_more_evidence needs_more_evidence = true
same a b = false

pub record StepBoundaryContract : Type 0 where
  pub input_schema : Option Schema
  pub output_schema : Option Schema

pub record TaskSpec : Type 0 where
  pub task_id : String
  pub prompt : String
  pub expected_output : Option String
  pub acceptance : Option String
  pub timeout_ms : Option ℤ
  pub budget_usd : Option ℤ
  pub step_contracts : List (ℕ × StepBoundaryContract)

pub record TrajectoryResult : Type 0 where
  pub trajectory_id : String
  pub outcome : Outcome
  pub output : String
  pub failure_class : Option String
  pub cost_usd : ℤ
  pub latency_ms : ℤ
  pub failure_step : Option ℕ
  pub failure_detail : Option String
  pub failure_confidence : Option ℤ

-- task.step_contracts.get(index)
unfoldable pub contract_at : ℕ → List (ℕ × StepBoundaryContract) → Option StepBoundaryContract
contract_at index [] = none
contract_at index ((i, c) ∷ contracts) =
    if nat_eq i index then some c else contract_at index contracts
