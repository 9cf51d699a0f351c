-- ===== src/Conductor.antt =====
-- murmur/core/conductor.py: `RunConductor`, which runs trajectories, has them judged and records
-- what came out. Prices are whole numbers of a fixed fraction, as costs are.
pub mod Replay
pub mod Outcomes
pub mod Boundaries
pub mod Repeats
use murmur_ai_harness.Prelude.{
  ℕ, zero, suc, ◌+◌, ◌-◌, ◌*◌, ◌/◌, ◌%◌, ◌≤◌, ◌<◌, min, max, String, ◌≡◌, refl, sym, ap, ◌∙◌, ◌≢◌,
  ◌↔◌, ◌⊎◌, inl, inr, Bool, true, false, not, ◌&&◌, ◌||◌, Option, none, some, List, [], ◌∷◌, ◌++◌,
  map, arith, ◌==◌, eq_iff, eq_refl, ltb, leb, nat_eq, str_le, if◌then◌else◌, leb→le, le→leb,
  nat_eq_iff, &&_iff, Bool-cases, Option-cases, concat, has_text, join, length, take, drop,
  length-append, take-append-drop, length-take, select, All, all, any, contains, IsUnique, count,
  count-append, contains-append, contains→count, count→contains, length-map, Has, Zip, All-map,
  All-intro, map-cong, All-Has, Has-map, length-select-cons, length-select, Has-select, Has-last,
  Has→contains, append-eq-nil, place, sort, length-sort, sorted, count-sort, count-sorted,
  length-sorted, place-perm, sort-perm, IsSorted, sort-IsSorted, All-sort, Has-sort, Dict, lookup,
  insert, update, keys, lookup-insert, lookup-update, pos_part, is_nonpos, neg_part, sub_ℕ, ◌+ℤ◌,
  leb_ℤ, ℤ, pos, negsuc,
}
use mathlib.Core.Option
use murmur_ai_harness.Core.Json.{Json}
use murmur_ai_harness.Core.Types.{Outcome, passed, failed, error, TaskSpec, TrajectoryResult}
use murmur_ai_harness.Core.Events.{
  Event, Payload, ContractCheck, ContractDiagnostic, Verdict, contract_check, verdict,
  trajectory_started, trajectory_finished, EventRecorder, write,
}
use murmur_ai_harness.Core.Acceptance.{Text, task_diagnostics, repair_feedback, is_empty}
use murmur_ai_harness.Core.Classify.{Formats, FailureDiagnosis, classify_trajectory}
use murmur_ai_harness.ToolGateway.{Tool, ToolGateway, record_gateway}
use murmur_ai_harness.ToolGateway.StepContracts.{StepGateway}

-- `PendingTrajectory`
pub record PendingTrajectory : Type 0 where
  pub trajectory_id : String
  pub recorder : EventRecorder Json
  pub output : String
  pub latency_ms : ℤ
  pub cost_usd : ℤ
  pub current_step : Option ℕ
  pub error : Bool

-- What the conductor takes from Python.
pub record Runtime : Type 0 where
  pub text : Text
  pub formats : Formats

-- How an agent's run ends: with its output, or with an exception, a `ReplayDivergenceError` or
-- another one, and its text.
pub data AgentRun : Type 0 where
  gave : String → AgentRun
  diverged : String → AgentRun
  threw : String → AgentRun

abbrev pub outcome_text : Outcome → String
outcome_text passed = "pass"
outcome_text failed = "fail"
outcome_text error = "error"

abbrev pub is_passed : Outcome → Bool
is_passed passed = true
is_passed o = false

-- The events of a trajectory.
abbrev pub is_of : String → Option String → Bool
is_of id none = false
is_of id (some t) = t == id

unfoldable pub own_events : String → List (Event Json) → List (Event Json)
unfolding select
own_events id events = select (λ (e : Event Json). is_of id e.trajectory_id) events

abbrev pub is_failed_check : Payload Json → Bool
is_failed_check (contract_check c) = not c.accepted
is_failed_check p = false

-- `_has_failed_contract_check`
unfoldable pub has_failed_contract_check : List (Event Json) → Bool
unfolding any
has_failed_contract_check events = any (λ (e : Event Json). is_failed_check e.payload) events

abbrev pub outcome_of : (error : Bool) (judged : Outcome) (rejected : Bool) → Outcome
outcome_of true judged rejected = error
outcome_of false passed true = failed
outcome_of false judged rejected = judged

abbrev pub feedback_of : List ContractDiagnostic → String
feedback_of ds = if is_empty ds then "" else repair_feedback ds

-- The contract check that the conductor writes.
abbrev pub check_of :
    TaskSpec → PendingTrajectory → Outcome → List ContractDiagnostic → ContractCheck
check_of task p outcome diagnostics = record {
  task_id = task.task_id;
  accepted = is_passed outcome;
  step = p.current_step;
  side = none;
  issue = none;
  output = some p.output;
  diagnostics = diagnostics;
  repair_feedback = feedback_of diagnostics;
}

abbrev pub result_of : PendingTrajectory → Outcome → Option FailureDiagnosis → TrajectoryResult
result_of p outcome diagnosis = record {
  trajectory_id = p.trajectory_id;
  outcome = outcome;
  output = p.output;
  failure_class = Option.map (λ (d : FailureDiagnosis). d.cls) diagnosis;
  cost_usd = p.cost_usd;
  latency_ms = p.latency_ms;
  failure_step = elim diagnosis [ none ↦ none | some d ↦ d.step ];
  failure_detail = Option.map (λ (d : FailureDiagnosis). d.detail) diagnosis;
  failure_confidence = Option.map (λ (d : FailureDiagnosis). pos d.confidence) diagnosis;
}

abbrev pub verdict_of : TrajectoryResult → Verdict
verdict_of r = record {
  outcome = outcome_text r.outcome;
  output = r.output;
  failure_class = r.failure_class;
  failure_step = r.failure_step;
  failure_detail = r.failure_detail;
  failure_confidence = r.failure_confidence;
}

module _ (py : Runtime) where
  -- The outcome that `finalize_trajectory` settles.
  unfoldable pub settle_outcome : TaskSpec → PendingTrajectory → Outcome → Outcome
  unfolding own_events has_failed_contract_check task_diagnostics
  settle_outcome task p judged = outcome_of p.error judged (
      has_failed_contract_check (own_events p.trajectory_id p.recorder.stored)
      || not (is_empty (task_diagnostics py.text task p.output)))

  abbrev pub diagnosis_of : Outcome → List (Event Json) → TaskSpec → Option FailureDiagnosis
  diagnosis_of passed events task = none
  diagnosis_of o events task = some (classify_trajectory py.formats events (some task) none)

  abbrev pub checked : TaskSpec → PendingTrajectory → Outcome → EventRecorder Json
  checked task p outcome =
      write (contract_check (check_of task p outcome (task_diagnostics py.text task p.output)))
        p.recorder

  -- `finalize_trajectory`: the result, and the recorder behind the last event.
  unfoldable pub finalize_trajectory :
      TaskSpec → PendingTrajectory → Outcome → TrajectoryResult × EventRecorder Json
  unfolding settle_outcome own_events task_diagnostics repair_feedback classify_trajectory write
  finalize_trajectory task p judged =
      let outcome = settle_outcome task p judged in
      let recorder = checked task p outcome in
      let events = own_events p.trajectory_id recorder.stored in
      let result = result_of p outcome (diagnosis_of outcome events task) in
      (
        result,
        write (trajectory_finished (outcome_text outcome) p.cost_usd p.latency_ms)
            (write (verdict (verdict_of result)) recorder),
      )

-- z * k
abbrev pub times : ℤ → ℕ → ℤ
times z k = sub_ℕ (pos_part z * k) (neg_part z * k)

pub record Prices : Type 0 where
  pub per_tool_call : ℕ
  pub per_input_token : ℕ
  pub per_output_token : ℕ

abbrev pub cost_of : Prices → ToolGateway Json → ℤ
cost_of prices g =
    times (pos g.tool_call_count) prices.per_tool_call
    +ℤ times g.input_tokens prices.per_input_token
    +ℤ times g.output_tokens prices.per_output_token

-- a or b
abbrev pub or_wall : ℤ → ℤ → ℤ
or_wall (pos zero) wall = wall
or_wall z wall = z

-- The recorder that the gateway was given.
abbrev pub recorder_or : EventRecorder Json → Option (EventRecorder Json) → EventRecorder Json
recorder_or r none = r
recorder_or r (some s) = s

-- An agent runs against a gateway and leaves it behind.
abbrev pub AgentPort : Type 0
AgentPort = TaskSpec → StepGateway → AgentRun × StepGateway

abbrev pub text_of : AgentRun → String
text_of (gave s) = s
text_of (diverged s) = s
text_of (threw s) = s

abbrev pub has_thrown : AgentRun → Bool
has_thrown (gave s) = false
has_thrown run = true

-- `RunConductor`, with the clock's reading of an agent's run.
pub record RunConductor : Type 0 where
  pub agent_factory : ℕ → AgentPort
  pub tools : Dict (Tool Json)
  pub judge : TaskSpec → String → Option Outcome
  pub capture_content : Bool
  pub prices : Prices
  pub wall_ms : ℤ

abbrev pub pending_of :
    Prices
    → (wall_ms : ℤ) → String
    → EventRecorder Json
    → AgentRun
    → StepGateway
    → PendingTrajectory
pending_of prices wall id started run g = record {
  trajectory_id = id;
  recorder = recorder_or started g.gateway.recorder;
  output = text_of run;
  latency_ms = or_wall g.gateway.latency_ms wall;
  cost_usd = cost_of prices g.gateway;
  current_step = g.current_step_index;
  error = has_thrown run;
}

-- f"{run_id}_t{index + 1}"
abbrev pub trajectory_name : Runtime → String → ℕ → String
trajectory_name py run_id index = concat (run_id ∷ "_t" ∷ py.formats.number (index + 1) ∷ [])

module _ (py : Runtime) (c : RunConductor) where
  -- `run_agent_deferred`, with what the storage holds.
  unfoldable pub run_agent_deferred :
      TaskSpec → (run_id : String) (index : ℕ) → List (Event Json) → PendingTrajectory
  unfolding write record_gateway concat
  run_agent_deferred task run_id index stored =
      let id = trajectory_name py run_id index in
      let fresh : EventRecorder Json = record {
        trajectory_id = some id;
        seq = 0;
        stored = stored;
      } in
      let started = write (trajectory_started task.task_id index) fresh in
      let (run, g) = c.agent_factory index task (record {
        gateway = record_gateway started c.tools c.capture_content;
        task = some task;
        current_step_index = none;
      }) in
      pending_of c.prices c.wall_ms id started run g

  -- A fault of the judge is an error.
  abbrev pub judged_or_error : Option Outcome → Outcome
  judged_or_error none = error
  judged_or_error (some o) = o

  -- `_run_one`
  unfoldable pub run_one :
      TaskSpec
      → (run_id : String) (index : ℕ) → List (Event Json)
      → TrajectoryResult × EventRecorder Json
  unfolding run_agent_deferred finalize_trajectory
  run_one task run_id index stored =
      let pending = run_agent_deferred task run_id index stored in
      finalize_trajectory py task pending
        (if pending.error then error else judged_or_error (c.judge task pending.output))

  -- The loop of `run` that is not concurrent, over the trajectories left.
  unfoldable pub run_loop :
      TaskSpec
      → (run_id : String) (left index : ℕ) → List (Event Json)
      → List TrajectoryResult × List (Event Json)
  unfolding run_one
  run_loop task run_id zero index stored = ([], stored)
  run_loop task run_id (suc left) index stored =
      let (result, recorder) = run_one task run_id index stored in
      let (results, rest) = run_loop task run_id left (index + 1) recorder.stored in
      (result ∷ results, rest)
