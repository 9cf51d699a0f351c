-- ===== src/Core/Events.antt =====
-- murmur/core/events.py: the events, with the payloads that the gateway and the conductor write.
-- Of an event its trajectory, number and payload are kept. `J` is the type of the JSON values that
-- tools take and give.
use murmur_ai_harness.Prelude.{ℕ, ◌+◌, String, Bool, Option, List, [], ◌∷◌, ◌++◌, ℤ}

-- `ContractDiagnostic` of murmur/core/types.py
pub record ContractDiagnostic : Type 0 where
  pub predicate_id : String
  pub severity : String
  pub message : String
  pub evidence : String
  pub repair_hint : String

-- `SchemaIssue` of murmur/core/schema.py
pub record SchemaIssue : Type 0 where
  pub place : String
  pub expected : String
  pub got : String

-- A contract check: of a step's boundary, with its side and the issue found, or of the output,
-- with the diagnostics.
pub record ContractCheck : Type 0 where
  pub task_id : String
  pub accepted : Bool
  pub step : Option ℕ
  pub side : Option String
  pub issue : Option SchemaIssue
  pub output : Option String
  pub diagnostics : List ContractDiagnostic
  pub repair_feedback : String

pub record Verdict : Type 0 where
  pub outcome : String
  pub output : String
  pub failure_class : Option String
  pub failure_step : Option ℕ
  pub failure_detail : Option String
  pub failure_confidence : Option ℤ

-- The payloads, one constructor or two for each event type; `other` is for the types that are only
-- written.
pub data Payload (J : Type 0) : Type 0 where
  trajectory_started : (task_id : String) (index : ℕ) → Payload J
  step_started : (index : ℕ) (phase : String) → Payload J
  model_call :
      (model : String) (input_tokens output_tokens : ℤ) (finish_reason : String) (latency_ms : ℤ)
      (content : Option String)
      → Payload J
  tool_call : (tool : String) (args : J) (command_hash : String) → Payload J
  tool_result : (tool : String) (result : J) (result_hash : String) (latency_ms : ℤ) → Payload J
  tool_error : (tool error error_type : String) (latency_ms : ℤ) → Payload J
  contract_check : ContractCheck → Payload J
  verdict : Verdict → Payload J
  trajectory_finished : (outcome : String) (cost_usd latency_ms : ℤ) → Payload J
  other : (type : String) → Payload J

-- `event.type`
unfoldable pub kind_of : {J : Type 0} → Payload J → String
kind_of (trajectory_started t i) = "trajectory_started"
kind_of (step_started i p) = "step_started"
kind_of (model_call m i o f l c) = "model_call"
kind_of (tool_call t a h) = "tool_call"
kind_of (tool_result t r h l) = "tool_result"
kind_of (tool_error t e y l) = "tool_result"
kind_of (contract_check c) = "contract_check"
kind_of (verdict v) = "verdict"
kind_of (trajectory_finished o c l) = "trajectory_finished"
kind_of (other t) = t

pub record Event (J : Type 0) : Type 0 where
  pub trajectory_id : Option String
  pub seq : ℕ
  pub payload : Payload J

-- `EventRecorder`, with the storage that it appends to.
pub record EventRecorder (J : Type 0) : Type 0 where
  pub trajectory_id : Option String
  pub seq : ℕ
  pub stored : List (Event J)

-- `EventRecorder.emit`
unfoldable pub write : {J : Type 0} → Payload J → EventRecorder J → EventRecorder J
write p r = record r {
  seq = r.seq + 1;
  stored =
      r.stored ++ record { trajectory_id = r.trajectory_id; seq = r.seq + 1; payload = p } ∷ [];
}
