-- ===== src/Core/Classify.antt =====
-- murmur/core/classify.py: the diagnosis of a failed trajectory. Confidences are in hundredths.
pub mod Classes
pub mod Loops
use murmur_ai_harness.Prelude.{
  ℕ, zero, suc, ◌+◌, ◌-◌, ◌*◌, ◌/◌, ◌%◌, ◌≤◌, ◌<◌, min, max, String, ◌≡◌, refl, sym, ap, ◌∙◌, ◌≢◌,
  ◌↔◌, ◌⊎◌, inl, inr, Bool, true, false, not, ◌&&◌, ◌||◌, Option, none, some, List, [], ◌∷◌, ◌++◌,
  map, arith, ◌==◌, eq_iff, eq_refl, ltb, leb, nat_eq, str_le, if◌then◌else◌, leb→le, le→leb,
  nat_eq_iff, &&_iff, Bool-cases, Option-cases, concat, has_text, join, length, take, drop,
  length-append, take-append-drop, length-take, select, All, all, any, contains, IsUnique, count,
  count-append, contains-append, contains→count, count→contains, length-map, Has, Zip, All-map,
  All-intro, map-cong, All-Has, Has-map, length-select-cons, length-select, Has-select, Has-last,
  Has→contains, append-eq-nil, place, sort, length-sort, sorted, count-sort, count-sorted,
  length-sorted, place-perm, sort-perm, IsSorted, sort-IsSorted, All-sort, Has-sort, Dict, lookup,
  insert, update, keys, lookup-insert, lookup-update, pos_part, is_nonpos, neg_part, sub_ℕ, ◌+ℤ◌,
  leb_ℤ, ℤ, pos, negsuc,
}
use murmur_ai_harness.Core.Json.{Json}
use murmur_ai_harness.Core.Types.{TaskSpec}
use murmur_ai_harness.Core.Events.{
  Event, Payload, ContractCheck, ContractDiagnostic, SchemaIssue, step_started, tool_error,
  tool_result, model_call, contract_check, trajectory_finished,
}
use murmur_ai_harness.Core.Divergence.{
  Signature, started_step, step_signature, step_window, first_event, last_step,
}

pub record FailureDiagnosis : Type 0 where
  pub cls : String
  pub step : Option ℕ
  pub detail : String
  pub confidence : ℕ
  pub secondary : List String

pub record FailurePolicy : Type 0 where
  pub loop_threshold : ℕ
  pub min_confidence : ℕ
  pub timeout_ms : Option ℤ
  pub budget_usd : Option ℤ
  pub llm_fallback : Option (List (Event Json) → Option TaskSpec → Option FailureDiagnosis)

-- What the detectors take from Python: the formats of costs, times and counts, `str.lower`, and
-- equality of signatures.
pub record Formats : Type 0 where
  pub money : ℤ → String
  pub milliseconds : ℤ → String
  pub number : ℕ → String
  pub lower : String → String
  pub same_action : Signature → Signature → Bool

-- `_policy_from_task`
unfoldable pub policy_from_task : Option TaskSpec → FailurePolicy
policy_from_task none = record {
  loop_threshold = 3;
  min_confidence = 60;
  timeout_ms = none;
  budget_usd = none;
  llm_fallback = none;
}
policy_from_task (some task) = record {
  loop_threshold = 3;
  min_confidence = 60;
  timeout_ms = task.timeout_ms;
  budget_usd = task.budget_usd;
  llm_fallback = none;
}

abbrev pub diagnose : String → Option ℕ → String → FailureDiagnosis
diagnose cls step detail = record {
  cls = cls;
  step = step;
  detail = detail;
  confidence = 100;
  secondary = [];
}

-- A loop that keeps the current step and ends at the first hit.
unfoldable pub detect :
    (Option ℕ → Payload Json → Option FailureDiagnosis)
    → (current_step : Option ℕ) → List (Event Json)
    → Option FailureDiagnosis
detect hit current [] = none
detect hit current (e ∷ events) = elim (started_step e.payload) [
  | some index ↦ detect hit (some index) events
  | none ↦ elim (hit current e.payload) [ some d ↦ some d | none ↦ detect hit current events ]
]

abbrev pub tool_error_hit : Option ℕ → Payload Json → Option FailureDiagnosis
tool_error_hit current (tool_error tool e error_type ms) =
    some (diagnose "tool_error" current (concat (error_type ∷ ": " ∷ e ∷ [])))
tool_error_hit current p = none

-- `_detect_tool_error`
unfoldable pub detect_tool_error : List (Event Json) → Option FailureDiagnosis
unfolding detect concat
detect_tool_error events = detect tool_error_hit none events

abbrev pub or_boundary : Option String → String
or_boundary none = "boundary"
or_boundary (some side) = side

abbrev pub issue_of : ContractCheck → Option SchemaIssue → Option FailureDiagnosis
issue_of c none = none
issue_of c (some i) = some (
    diagnose "schema_mismatch" c.step (
      concat
        (or_boundary c.side ∷ " " ∷ i.place ∷ " expected " ∷ i.expected ∷ " got " ∷ i.got ∷ [])))

abbrev pub schema_hit : Payload Json → Option FailureDiagnosis
schema_hit (contract_check c) = if c.accepted then none else issue_of c c.issue
schema_hit p = none

-- `_detect_schema_mismatch`
unfoldable pub detect_schema_mismatch : List (Event Json) → Option FailureDiagnosis
unfolding first_event concat
detect_schema_mismatch events = first_event schema_hit events

-- a < b
abbrev pub less : ℤ → ℤ → Bool
less a b = not (leb_ℤ b a)

module _ (py : Formats) where
  abbrev pub budget_hit : ℤ → Option ℕ → Payload Json → Option FailureDiagnosis
  budget_hit budget last (trajectory_finished outcome cost ms) =
      if less budget cost
      then some (
          diagnose "budget_exceeded" last
            (concat ("$" ∷ py.money cost ∷ " exceeded budget $" ∷ py.money budget ∷ [])))
      else none
  budget_hit budget last p = none

  -- `_detect_budget_exceeded`
  unfoldable pub detect_budget_exceeded :
      FailurePolicy → List (Event Json) → Option FailureDiagnosis
  unfolding first_event concat last_step
  detect_budget_exceeded policy events = elim policy.budget_usd [
    | none ↦ none
    | some budget ↦ first_event (budget_hit budget (last_step events none)) events
  ]

  abbrev pub late : ℤ → ℤ → Option ℕ → Option FailureDiagnosis
  late limit latency current =
      if less limit latency
      then some (
          diagnose "timeout" current (
            concat (
              py.milliseconds latency
              ∷ " ms exceeded limit "
              ∷ py.milliseconds limit
              ∷ " ms"
              ∷ [])))
      else none

  abbrev pub timeout_hit : ℤ → Option ℕ → Payload Json → Option FailureDiagnosis
  timeout_hit limit current (model_call m i o r latency c) = late limit latency current
  timeout_hit limit current (tool_result t r h latency) = late limit latency current
  timeout_hit limit current (tool_error t e y latency) = late limit latency current
  timeout_hit limit current p = none

  -- `_detect_timeout`
  unfoldable pub detect_timeout : FailurePolicy → List (Event Json) → Option FailureDiagnosis
  unfolding detect concat
  detect_timeout policy events = elim policy.timeout_ms [
    | none ↦ none
    | some limit ↦ detect (timeout_hit limit) none events
  ]

-- `_step_result_key`
abbrev pub result_key : Payload Json → Option (String × String)
result_key (tool_result t r result_hash l) = some ("result", result_hash)
result_key (tool_error t e error_type l) = some ("error", error_type)
result_key p = none

abbrev pub Fingerprint : Type 0
Fingerprint = Signature × Option (String × String)

-- `_step_fingerprint`
unfoldable pub step_fingerprint : List (Event Json) → ℕ → Option Fingerprint
unfolding step_signature step_window first_event
step_fingerprint events step = elim (step_signature events step) [
  | none ↦ none
  | some action ↦ some (action, first_event result_key (step_window events step))
]

abbrev pub same_key : Option (String × String) → Option (String × String) → Bool
same_key none none = true
same_key (some (a, b)) (some (c, d)) = a == c && b == d
same_key x y = false

-- range((_last_step(events) or -1) + 1)
abbrev pub loop_steps : Option ℕ → ℕ
loop_steps none = 0
loop_steps (some zero) = 0
loop_steps (some (suc n)) = suc (suc n)

module _ (py : Formats) where
  abbrev pub same_fingerprint : Fingerprint → Fingerprint → Bool
  same_fingerprint (a, r) (b, s) = py.same_action a b && same_key r s

  abbrev pub is_repeated : Fingerprint → Option Fingerprint → Bool
  is_repeated f none = false
  is_repeated f (some previous) = same_fingerprint f previous

  abbrev pub loop_found : ℕ → ℕ → FailureDiagnosis
  loop_found step run_length =
      diagnose "nondeterministic_loop" (some step)
        (concat ("action repeated with no state change " ∷ py.number run_length ∷ " times" ∷ []))

  -- The loop of the detector, over the steps left, with `previous` and `run_length`.
  unfoldable pub find_loop :
      (threshold : ℕ)
      → List (Event Json)
      → (left step : ℕ) (previous : Option Fingerprint) (run_length : ℕ) → Option FailureDiagnosis
  unfolding step_fingerprint concat
  find_loop threshold events zero step previous run_length = none
  find_loop threshold events (suc left) step previous run_length =
      let go = find_loop threshold events left (step + 1) in
      elim (step_fingerprint events step) [
        | none ↦ go none 0
        | some f ↦
            let again = is_repeated f previous in
            let run = if again then run_length + 1 else 1 in
            if ltb threshold run
            then some (loop_found step run)
            else go (if again then previous else some f) run
      ]

  -- `_detect_nondeterministic_loop`
  unfoldable pub detect_nondeterministic_loop :
      FailurePolicy → List (Event Json) → Option FailureDiagnosis
  unfolding find_loop last_step
  detect_nondeterministic_loop policy events =
      find_loop policy.loop_threshold events (loop_steps (last_step events none)) 0 none 0

abbrev pub failed_ids : ContractCheck → List String
failed_ids c =
    select (λ s. not (s == "")) (map (λ (d : ContractDiagnostic). d.predicate_id) c.diagnostics)

abbrev pub violation : List String → Option ℕ → FailureDiagnosis
violation ids step = record {
  cls = "contract_violation";
  step = step;
  detail = elim ids [
    | [] ↦ "acceptance predicate returned false"
    | id ∷ rest ↦ concat ("failed predicates: " ∷ join ", " (id ∷ rest) ∷ [])
  ];
  confidence = 100;
  secondary = ids;
}

abbrev pub violation_hit : Payload Json → Option FailureDiagnosis
violation_hit (contract_check c) =
    if c.accepted then none else some (violation (failed_ids c) c.step)
violation_hit p = none

-- `_detect_contract_violation`
unfoldable pub detect_contract_violation : List (Event Json) → Option FailureDiagnosis
unfolding first_event select join concat
detect_contract_violation events = first_event violation_hit events

abbrev pub needles : List String
needles = "absent state" ∷ "not present" ∷ "contradict" ∷ "context drift" ∷ []

abbrev pub or_no_text : Option String → String
or_no_text none = ""
or_no_text (some s) = s

module _ (py : Formats) where
  abbrev pub drift_hit : Option ℕ → Payload Json → Option FailureDiagnosis
  drift_hit current (model_call m i o r l content) =
      if any (λ needle. has_text needle (py.lower (or_no_text content))) needles
      then some (record {
        cls = "context_drift";
        step = current;
        detail = "model referenced unavailable or contradictory state";
        confidence = 70;
        secondary = [];
      })
      else none
  drift_hit current p = none

  -- `_detect_context_drift`
  unfoldable pub detect_context_drift : List (Event Json) → Option FailureDiagnosis
  unfolding detect any
  detect_context_drift events = detect drift_hit none events

-- The first hit of two detectors.
infixr 5 ◌or◌
abbrev pub ◌or◌ : Option FailureDiagnosis → Option FailureDiagnosis → Option FailureDiagnosis
none or d = d
(some x) or d = some x

abbrev pub confident : ℕ → Option FailureDiagnosis → Option FailureDiagnosis
confident least none = none
confident least (some d) = if leb least d.confidence then some d else none

abbrev pub fallback_of :
    FailurePolicy → List (Event Json) → Option TaskSpec → Option FailureDiagnosis
fallback_of policy events task = elim policy.llm_fallback [
  | none ↦ none
  | some ask ↦ confident policy.min_confidence (ask events task)
]

abbrev pub or_unknown : Option FailureDiagnosis → FailureDiagnosis
or_unknown none = diagnose "unknown" none "no deterministic detector matched"
or_unknown (some d) = d

abbrev pub by_seq : Event Json → Event Json → Bool
by_seq a b = leb a.seq b.seq

abbrev pub policy_or : Option FailurePolicy → Option TaskSpec → FailurePolicy
policy_or none task = policy_from_task task
policy_or (some policy) task = policy

-- The detectors in their order, over events in theirs.
unfoldable pub first_hit : Formats → FailurePolicy → List (Event Json) → Option FailureDiagnosis
unfolding detect_tool_error detect_schema_mismatch detect_budget_exceeded detect_timeout
    detect_nondeterministic_loop detect_contract_violation detect_context_drift
first_hit py policy events =
    detect_tool_error events
    or detect_schema_mismatch events
    or detect_budget_exceeded py policy events
    or detect_timeout py policy events
    or detect_nondeterministic_loop py policy events
    or detect_contract_violation events
    or detect_context_drift py events

-- `classify_trajectory`
unfoldable pub classify_trajectory :
    Formats → List (Event Json) → Option TaskSpec → Option FailurePolicy → FailureDiagnosis
unfolding first_hit sort policy_from_task
classify_trajectory py events task policy =
    let trajectory = sort by_seq events in
    let chosen = policy_or policy task in
    or_unknown (first_hit py chosen trajectory or fallback_of chosen trajectory task)
