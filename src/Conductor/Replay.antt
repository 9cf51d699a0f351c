-- ===== src/Conductor/Replay.antt =====
-- `RunConductor.replay`: a recorded trajectory against a new run of the agent.
use murmur_ai_harness.Prelude.{
  ℕ, String, Bool, true, false, Option, none, some, List, [], ◌∷◌, map, ◌==◌, if◌then◌else◌,
}
use murmur_ai_harness.Core.Json.{Json}
use murmur_ai_harness.Core.Types.{TaskSpec}
use murmur_ai_harness.Core.Events.{Event, Payload, Verdict, verdict, trajectory_started}
use murmur_ai_harness.Core.Divergence.{first_event}
use murmur_ai_harness.ToolGateway.{replay_gateway}
use murmur_ai_harness.Conductor.{AgentRun, gave, diverged, threw, RunConductor, own_events}

-- The exceptions of a replay. All but the first are `ReplayDivergenceError`s.
pub data ReplayFault : Type 0 where
  no_trajectory : ReplayFault
  no_verdict : ReplayFault
  gateway_diverged : (text : String) → ReplayFault
  raised_unexpectedly : (recorded_outcome text : String) → ReplayFault
  missing_error : ReplayFault
  output_diverged : (expected got : String) → ReplayFault

pub data Replayed : Type 0 where
  replayed : String → Replayed
  faulty : ReplayFault → Replayed

abbrev pub started_in : Payload Json → Bool
started_in (trajectory_started task_id index) = true
started_in p = false

-- The trajectory that was started first; a started trajectory has an id.
unfoldable pub first_trajectory : List (Event Json) → Option String
first_trajectory [] = none
first_trajectory (e ∷ events) =
    if started_in e.payload then e.trajectory_id else first_trajectory events

abbrev pub verdict_in : Payload Json → Option Verdict
verdict_in (verdict v) = some v
verdict_in p = none

-- The first verdict, with its output and outcome: `_expected_output` and `_recorded_outcome`.
unfoldable pub first_verdict : List (Event Json) → Option Verdict
unfolding first_event
first_verdict events = first_event verdict_in events

-- The rest of `replay`, with what the agent did.
abbrev pub compare_run : (recorded_outcome expected : String) → AgentRun → Replayed
compare_run outcome expected (diverged text) = faulty (gateway_diverged text)
compare_run outcome expected (threw text) =
    if outcome == "error" then replayed text else faulty (raised_unexpectedly outcome text)
compare_run outcome expected (gave output) =
    if outcome == "error"
    then faulty missing_error
    else if output == expected
    then replayed output
    else faulty (output_diverged expected output)

-- `_events_for_trajectory`, where there is a trajectory.
abbrev pub chosen_id : List (Event Json) → Option String → Option String
chosen_id events none = first_trajectory events
chosen_id events (some id) = some id

abbrev pub run_again : RunConductor → TaskSpec → (index : ℕ) → List (Event Json) → AgentRun
run_again c task index events =
    (c.agent_factory index task (record {
      gateway = replay_gateway (map (λ (e : Event Json). e.payload) events);
      task = none;
      current_step_index = none;
    })).0

abbrev pub replay_events_of : RunConductor → TaskSpec → (index : ℕ) → List (Event Json) → Replayed
replay_events_of c task index events = elim (first_verdict events) [
  | none ↦ faulty no_verdict
  | some v ↦ compare_run v.outcome v.output (run_again c task index events)
]

-- `replay`
unfoldable pub replay :
    RunConductor
    → List (Event Json)
    → TaskSpec
    → (trajectory_id : Option String) (index : ℕ) → Replayed
unfolding first_trajectory first_verdict own_events replay_gateway
replay c events task trajectory_id index = elim (chosen_id events trajectory_id) [
  | none ↦ faulty no_trajectory
  | some id ↦ replay_events_of c task index (own_events id events)
]
