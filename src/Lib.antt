-- ===== src/Lib.antt =====
-- Murmur, a harness that runs AI agents under contracts: its workflow runtime (murmur/flock), its
-- record and replay of tool calls (murmur/gateway), the run of trajectories with their judging and
-- diagnosis (murmur/core), and the contract, policy, verification and trust score of a run
-- (murmur/domain and murmur/application/verifier.py), and the ranking of attempts
-- (murmur/application/tournament.py).
--
-- A run is a number of trajectories: murmur/core/conductor.py lets an agent work against a tool
-- gateway, which records its calls as events and checks the data at its steps against schemas; a
-- judge gives each trajectory an outcome, which the checks and the acceptance of the task can still
-- turn down; a trajectory that did not pass is diagnosed from its events; and the cascade of judges
-- decides the run. A recording can be replayed.
--
-- The flock runtime takes a plan, a graph of operator nodes. murmur/flock/ir.py validates it and
-- puts it in topological order; murmur/flock/scheduler.py runs each node with the items that its
-- inputs put out; murmur/flock/operators.py has the seven operators, which call a model through the
-- wrapper of murmur/flock/gateway.py, where a ledger admits and books each call; and
-- murmur/flock/eventlog.py holds the events from which a later run restores the finished nodes.
--
-- The files:
--   Prelude and its modules: Boolean tests on numbers, lists, sorting, dictionaries, integers.
--   Flock/Ir: Node, WorkflowPlan, topological_order (murmur/flock/ir.py). `drain` is the loop, and
--     `relax` the loop over the dependents; Degrees, Edges and Queue carry the invariant, Order and
--     Acyclic what the sort gives.
--   Flock/Validation: validate_plan (murmur/flock/ir.py), with Checks and Exact for the rules.
--   Flock/Gateway: BudgetLedger, MeteredModel.complete, CallLog (murmur/flock/gateway.py), with
--     Accounts for the ledger and the log, and Overshoot for the budget.
--   Flock/Artifact: Artifact and with_meta (murmur/flock/artifact.py).
--   Flock/Operators: NodeContext and OPERATORS (murmur/flock/operators.py), with Effects, Bracket,
--     Fuel, Ranking, Rounds, Filter, Loops and Taint.
--   Flock/EventLog: completed_nodes (murmur/flock/eventlog.py).
--   Flock/Scheduler: execute_plan (murmur/flock/scheduler.py); `run_node` is the inner function of
--     that name. Runs, Resume, Report and Quarantine follow a run to its report.
--   Core/Events, Core/Types: the events with their payloads and EventRecorder
--     (murmur/core/events.py), tasks and trajectories (murmur/core/types.py).
--   Core/Json, Core/Schema: JSON values and validate_json_schema (murmur/core/schema.py), with
--     Conforms for the values that pass.
--   Core/Acceptance: task_diagnostics (murmur/core/acceptance.py).
--   Core/Judge: judge_run and what it calls (murmur/core/judge.py); Cache is cached_llm_judge, Costs
--     is measure_judge_cost; Verdicts, Cascade and Costs/Accuracy follow the verdicts.
--   Core/Divergence: signatures, clusters and divergence_step (murmur/core/divergence.py), with First
--     and Unanimous.
--   Core/Classify: classify_trajectory and its detectors (murmur/core/classify.py), with Classes and
--     Loops.
--   Core/Metrics: the pass rates of reliability_metrics (murmur/core/metrics.py) as exact fractions,
--     with Draws for what they count.
--   ToolGateway: ToolGateway (murmur/gateway/tool_gateway.py), with Session for an agent, Steps and
--     Replay; ToolGateway/StepContracts is ToolGateway.step.
--   Conductor: RunConductor (murmur/core/conductor.py), with Replay for its replay, and Outcomes,
--     Boundaries and Repeats for what it decides and repeats.
--   Contract, Contract/Policy and Contract/Trust: Contract.validate, PolicyEngine and
--     compute_trust_score (murmur/domain).
--   Flock/Planner: template_plan (murmur/flock/planner.py), with Template.
--   Tournament: rank_attempts (murmur/application/tournament.py), with Ranking.
--   Contract/Verifier: verify_contract (murmur/application/verifier.py), with Exact.
--   Examples: the theorems at concrete data.
--
-- How the code is read. A method that changes an object is a function from its state to an outcome
-- and a state; an exception is a value, by its class and arguments. Calls that asyncio gathers are
-- made one after the other, each to its end, and the nodes of a plan in topological order, which is
-- one of the orders that the tasks can take: the exception of one gathered call is raised when the
-- others have ended, and that of the resolver before a later node begins. For the budget alone,
-- Flock/Gateway/Overshoot has the interleavings of the calls as a step relation. Floating-point
-- costs, scores and times are whole numbers of a fixed fraction. A model, a tool and the clock belong
-- to the outside world: each is a function of how often it was asked before, so that it may answer
-- each time otherwise.
--
-- Fuel: `drain` has as much as there are nodes, and topological_order-terminates shows that this is
-- enough; `bracket` has as much as there are items, and each round leaves fewer of them.
--
-- Parameters stand for what lies outside: `Model` for a model adapter, `Tool` for a tool, `Hashes`
-- and `JudgeHash` for hashes of JSON values, `Matching` for fnmatch and Python's strip, lower and
-- repr, `Texts` for Python's strip, upper and splitlines, and for the reading of a score from a text,
-- `Text` for Python's lower, strip and a regular expression, `Formats` for formats of numbers, lower
-- and the equality of signatures, `AgentPort` for an agent, `Sandbox` for the processes that a
-- verification runs, `TournamentJudge` for the model that breaks ties, and `resolver`, `accepts`,
-- `evaluator` and `similar` for functions that the code is given; a resolver and an evaluator may
-- raise.
--
-- Not modelled: the conversion of plans, events and contracts from and to JSON and YAML; locks,
-- since each method of the ledger is one step; lanes that the conductor runs concurrently, and the
-- sums over a finished run; the overlay of a divergence; the planner's repair loop and the template
-- library; the workflow runtime of murmur/application; the floating-point statistics of murmur/core;
-- adapters, reports, the user interface, the command line and the benchmarks, which are mostly input
-- and output.
pub mod Prelude
pub mod Core
pub mod Flock
pub mod ToolGateway
pub mod Conductor
pub mod Tournament
pub mod Contract
mod Examples
