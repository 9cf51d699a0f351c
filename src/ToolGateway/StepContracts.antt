-- ===== src/ToolGateway/StepContracts.antt =====
-- murmur/gateway/tool_gateway.py: `ToolGateway.step` and `_check_step_contract`.
use murmur_ai_harness.Prelude.{ℕ, String, true, false, Option, none, some, List, [], ◌∷◌, ◌++◌, map}
use murmur_ai_harness.Core.Json.{Json, null}
use murmur_ai_harness.Core.Schema.{Schema, validate_json_schema}
use murmur_ai_harness.Core.Types.{TaskSpec, contract_at}
use murmur_ai_harness.Core.Events.{SchemaIssue, Payload, step_started, contract_check}
use murmur_ai_harness.ToolGateway.{
  ToolGateway, recording, replaying, emit, Reply, returned, raised, no_recorder,
}

-- A gateway with the fields that steps use.
pub record StepGateway : Type 0 where
  pub gateway : ToolGateway Json
  pub task : Option TaskSpec
  pub current_step_index : Option ℕ

-- The data of a side, `None` where there is none.
abbrev pub or_null : Option Json → Json
or_null none = null
or_null (some v) = v

abbrev pub check_event : String → ℕ → String → Option SchemaIssue → Payload Json
check_event task_id index side issue = contract_check (record {
  task_id = task_id;
  accepted = elim issue [ none ↦ true | some i ↦ false ];
  step = some index;
  side = some side;
  issue = issue;
  output = none;
  diagnostics = [];
  repair_feedback = "";
})

-- One event if there are no issues, else one for each.
abbrev pub check_events : String → ℕ → String → List SchemaIssue → List (Payload Json)
check_events task_id index side [] = check_event task_id index side none ∷ []
check_events task_id index side (i ∷ issues) =
    map (λ (x : SchemaIssue). check_event task_id index side (some x)) (i ∷ issues)

-- One turn of the loop over the two sides.
abbrev pub check_side : String → ℕ → String → Option Schema → Option Json → List (Payload Json)
check_side task_id index side none value = []
check_side task_id index side (some s) value =
    check_events task_id index side (validate_json_schema (or_null value) (some s))

unfoldable pub check_contract :
    Option TaskSpec → ℕ → (input_data output_data : Option Json) → List (Payload Json)
unfolding validate_json_schema contract_at
check_contract none index input output = []
check_contract (some t) index input output = elim (contract_at index t.step_contracts) [
  | none ↦ []
  | some c ↦
      check_side t.task_id index "input" c.input_schema input
      ++ check_side t.task_id index "output" c.output_schema output
]

unfoldable pub emit_all : List (Payload Json) → ToolGateway Json → ToolGateway Json
unfolding emit
emit_all [] g = g
emit_all (p ∷ ps) g = emit_all ps (emit p g)

-- `_check_step_contract`
unfoldable pub check_step_contract :
    ℕ → (input_data output_data : Option Json) → StepGateway → StepGateway
unfolding emit_all check_contract
check_step_contract index input output g = elim g.gateway.recorder [
  | none ↦ g
  | some r ↦ record g { gateway = emit_all (check_contract g.task index input output) g.gateway }
]

-- `ToolGateway.step`
unfoldable pub step :
    ℕ
    → (phase : String) (input_data output_data : Option Json) → StepGateway
    → Reply (Unit {0}) × StepGateway
unfolding check_step_contract emit
step index phase input output g = elim g.gateway.mode [
  | replaying ↦ (returned tt, g)
  | recording ↦ elim g.gateway.recorder [
    | none ↦ (raised no_recorder, g)
    | some r ↦ (
      returned tt,
      check_step_contract index input output (record g {
        gateway = emit (step_started index phase) g.gateway;
        current_step_index = some index;
      }),
    )
  ]
]
