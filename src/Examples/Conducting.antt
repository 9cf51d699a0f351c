-- ===== src/Examples/Conducting.antt =====
-- A task with a boundary contract, a pending trajectory and its replay.
use murmur_ai_harness.Prelude.{◌≡◌, refl, ◌↔◌, true, false, none, some, [], ◌∷◌, pos}
use murmur_ai_harness.Core.Json.{Json, integer, object, entry, none_left, find_entry}
use murmur_ai_harness.Core.Schema.{
  Schema, schema, done, property, validate_json_schema, validate_at, has_wrong_type, missing_keys,
}
use murmur_ai_harness.Core.Schema.Conforms.{Conforms, validate_json_schema_iff}
use murmur_ai_harness.Core.Types.{passed, TaskSpec, StepBoundaryContract, contract_at}
use murmur_ai_harness.Core.Events.{EventRecorder}
use murmur_ai_harness.Core.Acceptance.{task_accepts}
use murmur_ai_harness.ToolGateway.{recording, record_gateway}
use murmur_ai_harness.ToolGateway.StepContracts.{step}
use murmur_ai_harness.Conductor.{
  Runtime, RunConductor, gave, PendingTrajectory, finalize_trajectory, own_events,
  has_failed_contract_check,
}
use murmur_ai_harness.Conductor.Replay.{replay, replayed, run_again, first_verdict}
use murmur_ai_harness.Conductor.Outcomes.{
  finalize_trajectory_iff, finalize_trajectory-IsDiagnosed, IsDiagnosed,
}
use murmur_ai_harness.Conductor.Boundaries.{step_iff, stored_of, IsGoodSide}
use murmur_ai_harness.Conductor.Repeats.{finalize-replay_iff, Repeats}
use murmur_ai_harness.Examples.Judging.{some_task, plain_formats}

-- An object with a number.
abbrev with_number : Schema
with_number =
    schema (some "object") ("n" ∷ []) true
      (property "n" (schema (some "integer") [] false done) done)

abbrev three : Json
three = object (entry "n" (integer (pos 3)) none_left)

validate_json_schema_iff_example :
    (validate_json_schema three (some with_number) ≡ []) ↔ Conforms with_number three
validate_json_schema_iff_example = validate_json_schema_iff three with_number

three_conforms : validate_json_schema three (some with_number) ≡ []
unfolding validate_json_schema validate_at has_wrong_type missing_keys find_entry
three_conforms = refl

abbrev fresh : EventRecorder Json
fresh = record { trajectory_id = some "t1"; seq = 0; stored = [] }

abbrev at_boundary : StepBoundaryContract
at_boundary = record { input_schema = some with_number; output_schema = none }

abbrev with_contract : TaskSpec
with_contract = record some_task { step_contracts = (0, at_boundary) ∷ [] }

step_iff_example :
    (has_failed_contract_check (
        stored_of
          (step 0 "act" (some three) none (record {
            gateway = record (record_gateway fresh [] false) {
              mode = recording;
              recorder = some fresh;
            };
            task = some with_contract;
            current_step_index = none;
          })).1)
      ≡ false)
    ↔ (IsGoodSide (some with_number) (some three) × IsGoodSide none none)
unfolding has_failed_contract_check contract_at
step_iff_example =
    step_iff (record_gateway fresh [] false) fresh with_contract at_boundary 0 "act" (some three)
      none refl refl

abbrev plain_runtime : Runtime
plain_runtime = record {
  text = record { lower = λ s. s; strip = λ s. s; has_document = λ s. false };
  formats = plain_formats;
}

abbrev pending : PendingTrajectory
pending = record {
  trajectory_id = "t1";
  recorder = fresh;
  output = "no";
  latency_ms = pos 5;
  cost_usd = pos 2;
  current_step = some 0;
  error = false;
}

finalize_trajectory_iff_example :
    ((finalize_trajectory plain_runtime some_task pending passed).0.outcome ≡ passed) ↔ (
      (pending.error ≡ false)
      × (passed ≡ passed)
      × (has_failed_contract_check (own_events "t1" []) ≡ false)
      × (task_accepts plain_runtime.text some_task "no" ≡ true))
finalize_trajectory_iff_example = finalize_trajectory_iff plain_runtime some_task pending passed

finalize_trajectory-IsDiagnosed_example :
    IsDiagnosed (finalize_trajectory plain_runtime some_task pending passed).0
finalize_trajectory-IsDiagnosed_example =
    finalize_trajectory-IsDiagnosed plain_runtime some_task pending passed refl

-- An agent that always gives the same.
abbrev conductor : RunConductor
conductor = record {
  agent_factory = λ index task g. (gave "no", g);
  tools = [];
  judge = λ task output. some passed;
  capture_content = false;
  prices = record { per_tool_call = 1; per_input_token = 1; per_output_token = 1 };
  wall_ms = pos 1;
}

finalize-replay_iff_example :
    let (result, recorder) = finalize_trajectory plain_runtime some_task pending passed in
    (replay conductor recorder.stored some_task (some "t1") 0 ≡ replayed "no")
    ↔ Repeats result.outcome "no"
        (run_again conductor some_task 0 (own_events "t1" recorder.stored))
unfolding first_verdict own_events
finalize-replay_iff_example =
    finalize-replay_iff plain_runtime some_task pending passed conductor 0 refl refl
