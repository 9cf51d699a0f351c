-- ===== src/Conductor/Outcomes.antt =====
-- What `finalize_trajectory` decides, diagnoses and records.
use murmur_ai_harness.Prelude.{
  ◌+◌, ◌≡◌, refl, sym, ◌≢◌, ◌↔◌, Bool, true, false, not, ◌||◌, none, some, List, eq_refl, contains,
  Has, Has-select, Has-last,
}
use mathlib.Core.Path.{subst}
use murmur_ai_harness.Core.Json.{Json}
use murmur_ai_harness.Core.Types.{Outcome, passed, failed, error, TaskSpec, TrajectoryResult}
use murmur_ai_harness.Core.Events.{Event, ContractCheck, ContractDiagnostic, contract_check, write}
use murmur_ai_harness.Core.Acceptance.{task_diagnostics, is_empty, task_accepts}
use murmur_ai_harness.Core.Classify.Classes.{checked_classes, classify_trajectory-IsChecked}
use murmur_ai_harness.Conductor.{
  PendingTrajectory, Runtime, own_events, has_failed_contract_check, outcome_of, settle_outcome,
  finalize_trajectory, check_of, diagnosis_of, result_of, is_of,
}

-- The class of a result that did not pass.
abbrev pub IsDiagnosed : TrajectoryResult → Type 0
IsDiagnosed r = elim r.failure_class [
  | none ↦ r.outcome ≡ passed
  | some cls ↦ (r.outcome ≢ passed) × (contains checked_classes cls ≡ true)
]

outcome_iff :
    (e : Bool) (judged : Outcome) (failures accepted : Bool)
    → (outcome_of e judged (failures || not accepted) ≡ passed)
      ↔ ((e ≡ false) × (judged ≡ passed) × (failures ≡ false) × (accepted ≡ true))
outcome_iff true judged failures accepted = (λ h. cc, λ h. cc)
outcome_iff false passed true accepted = (λ h. cc, λ h. cc)
outcome_iff false passed false true = (λ h. (refl, refl, refl, refl), λ h. refl)
outcome_iff false passed false false = (λ h. cc, λ h. cc)
outcome_iff false failed failures accepted = (λ h. cc, λ h. cc)
outcome_iff false error failures accepted = (λ h. cc, λ h. cc)

-- A trajectory passes exactly if the agent did not fail, the judge passed it, no contract check that
-- was recorded for it failed, and the task accepts its output.
pub finalize_trajectory_iff :
    (py : Runtime) (task : TaskSpec) (p : PendingTrajectory) (judged : Outcome)
    → ((finalize_trajectory py task p judged).0.outcome ≡ passed) ↔ (
        (p.error ≡ false)
        × (judged ≡ passed)
        × (has_failed_contract_check (own_events p.trajectory_id p.recorder.stored) ≡ false)
        × (task_accepts py.text task p.output ≡ true))
unfolding finalize_trajectory settle_outcome task_accepts
finalize_trajectory_iff py task p judged =
    outcome_iff p.error judged
      (has_failed_contract_check (own_events p.trajectory_id p.recorder.stored))
      (is_empty (task_diagnostics py.text task p.output))

-- The event that the conductor writes is among the trajectory's own.
Has-own :
    (p : PendingTrajectory) (c : ContractCheck)
    → p.recorder.trajectory_id ≡ some p.trajectory_id
    → Has
        (record {
          trajectory_id = p.recorder.trajectory_id;
          seq = p.recorder.seq + 1;
          payload = contract_check c;
        })
        (own_events p.trajectory_id (write (contract_check c) p.recorder).stored)
unfolding own_events write
Has-own p c own =
    Has-select (λ (e : Event Json). is_of p.trajectory_id e.trajectory_id) _ _
      (subst (λ o. is_of p.trajectory_id o ≡ true) (sym own) (eq_refl p.trajectory_id))
      (Has-last p.recorder.stored _)

diagnosed :
    (py : Runtime) (task : TaskSpec) (p : PendingTrajectory) (ds : List ContractDiagnostic)
    → p.recorder.trajectory_id ≡ some p.trajectory_id
    → (o : Outcome)
    → IsDiagnosed (
        result_of p o (
          diagnosis_of py o
            (own_events p.trajectory_id
              (write (contract_check (check_of task p o ds)) p.recorder).stored)
            task))
diagnosed py task p ds own passed = refl
diagnosed py task p ds own failed = (
  λ h. cc,
  classify_trajectory-IsChecked py.formats _ (some task) none _ (check_of task p failed ds)
      (Has-own p (check_of task p failed ds) own) refl refl,
)
diagnosed py task p ds own error = (
  λ h. cc,
  classify_trajectory-IsChecked py.formats _ (some task) none _ (check_of task p error ds)
      (Has-own p (check_of task p error ds) own) refl refl,
)

-- Where the recorder is the trajectory's, the result has a class exactly if the trajectory did not
-- pass, and then one of the six that stand for causes: neither unknown nor context drift.
pub finalize_trajectory-IsDiagnosed :
    (py : Runtime) (task : TaskSpec) (p : PendingTrajectory) (judged : Outcome)
    → p.recorder.trajectory_id ≡ some p.trajectory_id
    → IsDiagnosed (finalize_trajectory py task p judged).0
unfolding finalize_trajectory
finalize_trajectory-IsDiagnosed py task p judged own =
    diagnosed py task p (task_diagnostics py.text task p.output) own
      (settle_outcome py task p judged)
