-- ===== src/Conductor/Repeats.antt =====
-- When a replay repeats what the conductor recorded.
use murmur_ai_harness.Prelude.{
  ℕ, String, ◌≡◌, refl, sym, ap, ◌∙◌, ◌↔◌, Bool, true, false, Option, none, some, List, [], ◌∷◌,
  ◌++◌, ◌==◌, eq_iff, eq_refl, if◌then◌else◌, select,
}
use mathlib.Core.Path.{subst}
use murmur_ai_harness.Core.Json.{Json}
use murmur_ai_harness.Core.Types.{Outcome, passed, failed, error, TaskSpec}
use murmur_ai_harness.Core.Events.{
  Event, Payload, Verdict, verdict, trajectory_finished, contract_check, EventRecorder, write,
}
use murmur_ai_harness.Core.Divergence.{first_event}
use murmur_ai_harness.Core.Acceptance.{task_diagnostics}
use murmur_ai_harness.Conductor.{
  AgentRun, gave, diverged, threw, RunConductor, Runtime, PendingTrajectory, own_events, is_of,
  finalize_trajectory, settle_outcome, checked, check_of, verdict_of, outcome_text,
}
use murmur_ai_harness.Conductor.Replay.{
  ReplayFault, no_verdict, replayed, faulty, first_verdict, verdict_in, compare_run, replay,
  run_again,
}

abbrev or_later : Option Verdict → Option Verdict → Option Verdict
or_later none b = b
or_later (some v) b = some v

or_later_assoc :
    (o a b : Option Verdict)
    → elim o [ some v ↦ some v | none ↦ or_later a b ]
      ≡ or_later (elim o [ some v ↦ some v | none ↦ a ]) b
or_later_assoc none a b = refl
or_later_assoc (some v) a b = refl

one_event : (o : Option Verdict) → elim o [ some v ↦ some v | none ↦ none ] ≡ o
one_event none = refl
one_event (some v) = refl

first_verdict-append :
    (xs : List (Event Json)) (e : Event Json)
    → first_verdict (xs ++ e ∷ []) ≡ or_later (first_verdict xs) (verdict_in e.payload)
unfolding first_verdict first_event
first_verdict-append [] e = one_event (verdict_in e.payload)
first_verdict-append (x ∷ xs) e =
    ap (λ r. elim (verdict_in x.payload) [ some v ↦ some v | none ↦ r ]) (first_verdict-append xs e)
    ∙ or_later_assoc (verdict_in x.payload) (first_verdict xs) (verdict_in e.payload)

if-append :
    (b : Bool) (x : Event Json) (xs ys : List (Event Json))
    → (if b then x ∷ xs ++ ys else xs ++ ys) ≡ (if b then x ∷ xs else xs) ++ ys
if-append true x xs ys = refl
if-append false x xs ys = refl

own-append :
    (id : String) (xs : List (Event Json)) (e : Event Json)
    → is_of id e.trajectory_id ≡ true
    → own_events id (xs ++ e ∷ []) ≡ own_events id xs ++ e ∷ []
unfolding own_events select
own-append id [] e h = ap (λ b. if b then e ∷ [] else []) h
own-append id (x ∷ xs) e h =
    ap (λ r. if is_of id x.trajectory_id then x ∷ r else r) (own-append id xs e h)
    ∙ if-append (is_of id x.trajectory_id) x (own_events id xs) (e ∷ [])

-- What a recorder of the trajectory writes comes behind the trajectory's verdict so far.
verdict-write :
    (id : String) (p : Payload Json) (r : EventRecorder Json)
    → r.trajectory_id ≡ some id
    → first_verdict (own_events id (write p r).stored)
      ≡ or_later (first_verdict (own_events id r.stored)) (verdict_in p)
unfolding write
verdict-write id p r own =
    ap first_verdict
      (own-append id r.stored _ (subst (λ o. is_of id o ≡ true) (sym own) (eq_refl id)))
    ∙ first_verdict-append (own_events id r.stored) _

-- Behind its end the trajectory has the verdict of its result.
finalize-first_verdict :
    (py : Runtime) (task : TaskSpec) (p : PendingTrajectory) (judged : Outcome)
    → p.recorder.trajectory_id ≡ some p.trajectory_id
    → first_verdict (own_events p.trajectory_id p.recorder.stored) ≡ none
    → first_verdict (own_events p.trajectory_id (finalize_trajectory py task p judged).1.stored)
      ≡ some (verdict_of (finalize_trajectory py task p judged).0)
unfolding finalize_trajectory
finalize-first_verdict py task p judged own fresh =
    let outcome = settle_outcome py task p judged in
    let v = verdict_of (finalize_trajectory py task p judged).0 in
    let r = checked py task p outcome in
    verdict-write p.trajectory_id
      (trajectory_finished (outcome_text outcome) p.cost_usd p.latency_ms) (write (verdict v) r) own
    ∙ ap (λ o. or_later o none)
        (verdict-write p.trajectory_id (verdict v) r own
          ∙ ap (λ o. or_later o (some v))
              (verdict-write p.trajectory_id
                  (contract_check
                    (check_of task p outcome (task_diagnostics py.text task p.output)))
                  p.recorder own
                ∙ ap (λ o. or_later o none) fresh))

gave_inj : {a b : String} → gave a ≡ gave b → a ≡ b
gave_inj e = cc

-- What the agent has to do again.
abbrev pub Repeats : Outcome → String → AgentRun → Type 0
Repeats error output run = run ≡ threw output
Repeats o output run = run ≡ gave output

same_output :
    (b : Bool) (s output : String) (fault : ReplayFault)
    → ((b ≡ true) ↔ (s ≡ output))
    → ((if b then replayed s else faulty fault) ≡ replayed output) ↔ (gave s ≡ gave output)
same_output true s output fault h = (λ e. ap gave (h.0 refl), λ e. ap replayed (h.0 refl))
same_output false s output fault h = (λ e. cc, λ e. let k = h.1 (gave_inj e) in cc)

compare_run_iff :
    (o : Outcome) (output : String) (run : AgentRun)
    → (compare_run (outcome_text o) output run ≡ replayed output) ↔ Repeats o output run
compare_run_iff passed output (gave s) = same_output (s == output) s output _ (eq_iff s output)
compare_run_iff passed output (diverged s) = (λ e. cc, λ e. cc)
compare_run_iff passed output (threw s) = (λ e. cc, λ e. cc)
compare_run_iff failed output (gave s) = same_output (s == output) s output _ (eq_iff s output)
compare_run_iff failed output (diverged s) = (λ e. cc, λ e. cc)
compare_run_iff failed output (threw s) = (λ e. cc, λ e. cc)
compare_run_iff error output (gave s) = (λ e. cc, λ e. cc)
compare_run_iff error output (diverged s) = (λ e. cc, λ e. cc)
compare_run_iff error output (threw s) = (λ e. cc, λ e. cc)

-- Where the trajectory had no verdict before, its replay gives the recorded output exactly if the agent gives
-- it again or, for an error, throws it again.
pub finalize-replay_iff :
    (py : Runtime) (task : TaskSpec) (p : PendingTrajectory) (judged : Outcome) (c : RunConductor)
    (index : ℕ)
    → p.recorder.trajectory_id ≡ some p.trajectory_id
    → first_verdict (own_events p.trajectory_id p.recorder.stored) ≡ none
    → let (result, recorder) = finalize_trajectory py task p judged in
      (replay c recorder.stored task (some p.trajectory_id) index ≡ replayed p.output)
      ↔ Repeats result.outcome p.output
          (run_again c task index (own_events p.trajectory_id recorder.stored))
unfolding replay finalize_trajectory
finalize-replay_iff py task p judged c index own fresh =
    let (result, recorder) = finalize_trajectory py task p judged in
    let run = run_again c task index (own_events p.trajectory_id recorder.stored) in
    subst
      (λ (o : Option Verdict).
        (elim o [ none ↦ faulty no_verdict | some v ↦ compare_run v.outcome v.output run ]
          ≡ replayed p.output)
        ↔ Repeats result.outcome p.output run)
      (sym (finalize-first_verdict py task p judged own fresh))
      (compare_run_iff result.outcome p.output run)
