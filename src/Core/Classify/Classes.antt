-- ===== src/Core/Classify/Classes.antt =====
-- The classes that the detectors give.
use murmur_ai_harness.Prelude.{
  ℕ, zero, suc, ◌+◌, String, ◌≡◌, refl, sym, inl, inr, Bool, true, false, Option, none, some, List,
  [], ◌∷◌, ltb, if◌then◌else◌, contains, Has, sort, Has-sort, ℤ,
}
use mathlib.Core.Path.{subst}
use murmur_ai_harness.Core.Json.{Json}
use murmur_ai_harness.Core.Types.{TaskSpec}
use murmur_ai_harness.Core.Events.{
  Event, Payload, ContractCheck, tool_error, tool_result, model_call, contract_check,
  trajectory_finished, SchemaIssue,
}
use murmur_ai_harness.Core.Divergence.{started_step, first_event, last_step}
use murmur_ai_harness.Core.Classify.{
  FailureDiagnosis, FailurePolicy, Formats, detect, ◌or◌, or_unknown, detect_tool_error,
  tool_error_hit, detect_schema_mismatch, schema_hit, issue_of, detect_budget_exceeded, budget_hit,
  detect_timeout, timeout_hit, find_loop, Fingerprint, detect_nondeterministic_loop,
  detect_contract_violation, violation_hit, violation, failed_ids, classify_trajectory, first_hit,
  policy_or, is_repeated, step_fingerprint, less, by_seq,
}

-- What holds of a hit, if there is one.
abbrev pub OnSome : (FailureDiagnosis → Type 0) → Option FailureDiagnosis → Type 0
OnSome P none = Unit
OnSome P (some d) = P d

-- There is a hit, and it holds of this.
abbrev pub Sure : (FailureDiagnosis → Type 0) → Option FailureDiagnosis → Type 0
Sure P none = ⊥
Sure P (some d) = P d

module _ (P : FailureDiagnosis → Type 0) where
  elim-OnSome :
      (o rest : Option FailureDiagnosis)
      → OnSome P o
      → OnSome P rest
      → OnSome P (elim o [ some d ↦ some d | none ↦ rest ])
  elim-OnSome none rest h k = k
  elim-OnSome (some d) rest h k = h

  turn-OnSome :
      (s current : Option ℕ) (o : Option FailureDiagnosis)
      (rest : Option ℕ → Option FailureDiagnosis)
      → OnSome P o
      → ((c : Option ℕ) → OnSome P (rest c))
      → OnSome P (elim s [
        | some index ↦ rest (some index)
        | none ↦ elim o [ some d ↦ some d | none ↦ rest current ]
      ])
  turn-OnSome (some index) current o rest h k = k (some index)
  turn-OnSome none current o rest h k = elim-OnSome o (rest current) h (k current)

  detect-OnSome :
      (hit : Option ℕ → Payload Json → Option FailureDiagnosis)
      → ((current : Option ℕ) (p : Payload Json) → OnSome P (hit current p))
      → (current : Option ℕ) (events : List (Event Json)) → OnSome P (detect hit current events)
  unfolding detect
  detect-OnSome hit h current [] = tt
  detect-OnSome hit h current (e ∷ events) =
      turn-OnSome (started_step e.payload) current (hit current e.payload)
        (λ c. detect hit c events) (h current e.payload) (λ c. detect-OnSome hit h c events)

  first_event-OnSome :
      (hit : Payload Json → Option FailureDiagnosis)
      → ((p : Payload Json) → OnSome P (hit p))
      → (events : List (Event Json)) → OnSome P (first_event hit events)
  unfolding first_event
  first_event-OnSome hit h [] = tt
  first_event-OnSome hit h (e ∷ events) =
      elim-OnSome (hit e.payload) (first_event hit events) (h e.payload)
        (first_event-OnSome hit h events)

  or-Sure : (a b : Option FailureDiagnosis) → OnSome P a → Sure P b → Sure P (a or b)
  or-Sure none b h k = k
  or-Sure (some d) b h k = h

  Sure-or : (a b : Option FailureDiagnosis) → Sure P a → Sure P (a or b)
  Sure-or none b h = elim h [ ]
  Sure-or (some d) b h = h

  or_unknown-Sure : (a : Option FailureDiagnosis) → Sure P a → P (or_unknown a)
  or_unknown-Sure none h = elim h [ ]
  or_unknown-Sure (some d) h = h

option-OnSome :
    (P : FailureDiagnosis → Type 0) (o : Option ℤ) (f : ℤ → Option FailureDiagnosis)
    → ((z : ℤ) → OnSome P (f z))
    → OnSome P (elim o [ none ↦ none | some z ↦ f z ])
option-OnSome P none f h = tt
option-OnSome P (some z) f h = h z

search-OnSome :
    (P : FailureDiagnosis → Type 0) (o : Option Fingerprint) (none_case : Option FailureDiagnosis)
    (test : Fingerprint → Bool) (found : Fingerprint → FailureDiagnosis)
    (rest : Fingerprint → Option FailureDiagnosis)
    → OnSome P none_case
    → ((f : Fingerprint) → P (found f))
    → ((f : Fingerprint) → OnSome P (rest f))
    → OnSome P (elim o [ none ↦ none_case | some f ↦ if test f then some (found f) else rest f ])
search-OnSome P none none_case test found rest h k l = h
search-OnSome P (some f) none_case test found rest h k l = go (test f)
  where
    go : (b : Bool) → OnSome P (if b then some (found f) else rest f)
    go true = k f
    go false = l f

first_event-Sure :
    (P : FailureDiagnosis → Type 0) (hit : Payload Json → Option FailureDiagnosis)
    → ((p : Payload Json) → OnSome P (hit p))
    → (events : List (Event Json)) (e : Event Json) → Has e events
    → Sure P (hit e.payload)
    → Sure P (first_event hit events)
unfolding first_event
first_event-Sure P hit h [] e m s = elim m [ ]
first_event-Sure P hit h (f ∷ events) e (inl q) s =
    now (hit f.payload) (subst (λ (x : Event Json). Sure P (hit x.payload)) (sym q) s)
  where
    now :
        (o : Option FailureDiagnosis)
        → Sure P o
        → Sure P (elim o [ some d ↦ some d | none ↦ first_event hit events ])
    now none k = elim k [ ]
    now (some d) k = k
first_event-Sure P hit h (f ∷ events) e (inr m) s =
    later (hit f.payload) (first_event hit events) (h f.payload)
      (first_event-Sure P hit h events e m s)
  where
    later :
        (o rest : Option FailureDiagnosis)
        → OnSome P o
        → Sure P rest
        → Sure P (elim o [ some d ↦ some d | none ↦ rest ])
    later none rest k l = l
    later (some d) rest k l = k

if-OnSome :
    (P : FailureDiagnosis → Type 0) (b : Bool) (d : FailureDiagnosis)
    → P d
    → OnSome P (if b then some d else none)
if-OnSome P true d h = h
if-OnSome P false d h = tt

-- The classes that stand behind a failed contract check.
abbrev pub checked_classes : List String
checked_classes =
    "tool_error" ∷ "schema_mismatch" ∷ "budget_exceeded" ∷ "timeout" ∷ "nondeterministic_loop"
    ∷ "contract_violation" ∷ []

abbrev pub IsChecked : FailureDiagnosis → Type 0
IsChecked d = contains checked_classes d.cls ≡ true

tool_error-IsChecked : (events : List (Event Json)) → OnSome IsChecked (detect_tool_error events)
unfolding detect_tool_error contains
tool_error-IsChecked events = detect-OnSome IsChecked tool_error_hit hit_lem none events
  where
    hit_lem : (current : Option ℕ) (p : Payload Json) → OnSome IsChecked (tool_error_hit current p)
    hit_lem current (tool_error tool e y ms) = refl
    hit_lem current p = tt

schema-IsChecked : (events : List (Event Json)) → OnSome IsChecked (detect_schema_mismatch events)
unfolding detect_schema_mismatch contains
schema-IsChecked events = first_event-OnSome IsChecked schema_hit hit_lem events
  where
    check_lem :
        (c : ContractCheck) (b : Bool) (o : Option SchemaIssue)
        → OnSome IsChecked (if b then none else issue_of c o)
    check_lem c true o = tt
    check_lem c false none = tt
    check_lem c false (some i) = refl

    hit_lem : (p : Payload Json) → OnSome IsChecked (schema_hit p)
    hit_lem (contract_check c) = check_lem c c.accepted c.issue
    hit_lem p = tt

module _ (py : Formats) (policy : FailurePolicy) where
  budget-IsChecked :
      (events : List (Event Json)) → OnSome IsChecked (detect_budget_exceeded py policy events)
  unfolding detect_budget_exceeded contains
  budget-IsChecked events =
      option-OnSome IsChecked policy.budget_usd
        (λ budget. first_event (budget_hit py budget (last_step events none)) events)
        (λ budget.
          first_event-OnSome IsChecked (budget_hit py budget (last_step events none))
            (hit_lem budget (last_step events none)) events)
    where
      hit_lem :
          (budget : ℤ) (last : Option ℕ) (p : Payload Json)
          → OnSome IsChecked (budget_hit py budget last p)
      hit_lem budget last (trajectory_finished o cost ms) =
          if-OnSome IsChecked (less budget cost) _ refl
      hit_lem budget last p = tt

  timeout-IsChecked :
      (events : List (Event Json)) → OnSome IsChecked (detect_timeout py policy events)
  unfolding detect_timeout contains
  timeout-IsChecked events =
      option-OnSome IsChecked policy.timeout_ms (λ limit. detect (timeout_hit py limit) none events)
        (λ limit. detect-OnSome IsChecked (timeout_hit py limit) (hit_lem limit) none events)
    where
      hit_lem :
          (limit : ℤ) (current : Option ℕ) (p : Payload Json)
          → OnSome IsChecked (timeout_hit py limit current p)
      hit_lem limit current (model_call m i o r latency c) =
          if-OnSome IsChecked (less limit latency) _ refl
      hit_lem limit current (tool_result t r h latency) =
          if-OnSome IsChecked (less limit latency) _ refl
      hit_lem limit current (tool_error t e y latency) =
          if-OnSome IsChecked (less limit latency) _ refl
      hit_lem limit current p = tt

  find_loop-IsChecked :
      (events : List (Event Json)) (left step : ℕ) (previous : Option Fingerprint) (run : ℕ)
      → OnSome IsChecked (find_loop py policy.loop_threshold events left step previous run)
  unfolding find_loop contains
  find_loop-IsChecked events zero step previous run = tt
  find_loop-IsChecked events (suc left) step previous run =
      search-OnSome IsChecked (step_fingerprint events step) _
        (λ f. ltb policy.loop_threshold (if is_repeated py f previous then run + 1 else 1)) _ _
        (find_loop-IsChecked events left (step + 1) none 0) (λ f. refl)
        (λ f. find_loop-IsChecked events left (step + 1) _ _)

  violation-Sure :
      (events : List (Event Json)) (e : Event Json) (c : ContractCheck)
      → Has e events
      → e.payload ≡ contract_check c
      → c.accepted ≡ false
      → Sure IsChecked (detect_contract_violation events)
  unfolding detect_contract_violation contains
  violation-Sure events e c m h k = first_event-Sure IsChecked violation_hit hit_lem events e m (
      subst (λ p. Sure IsChecked (violation_hit p)) (sym h)
        (subst (λ b. Sure IsChecked (if b then none else some (violation (failed_ids c) c.step)))
          (sym k) refl))
    where
      check_lem :
          (c : ContractCheck) (b : Bool)
          → OnSome IsChecked (if b then none else some (violation (failed_ids c) c.step))
      check_lem c true = tt
      check_lem c false = refl

      hit_lem : (p : Payload Json) → OnSome IsChecked (violation_hit p)
      hit_lem (contract_check c) = check_lem c c.accepted
      hit_lem p = tt

  first_hit-Sure :
      (events : List (Event Json))
      → Sure IsChecked (detect_contract_violation events)
      → Sure IsChecked (first_hit py policy events)
  unfolding first_hit detect_nondeterministic_loop
  first_hit-Sure events v =
      or-Sure IsChecked (detect_tool_error events) _ (tool_error-IsChecked events) (
        or-Sure IsChecked (detect_schema_mismatch events) _ (schema-IsChecked events) (
          or-Sure IsChecked (detect_budget_exceeded py policy events) _ (budget-IsChecked events) (
            or-Sure IsChecked (detect_timeout py policy events) _ (timeout-IsChecked events) (
              or-Sure IsChecked (detect_nondeterministic_loop py policy events) _
                (find_loop-IsChecked events _ 0 none 0)
                (Sure-or IsChecked (detect_contract_violation events) _ v)))))

-- With a failed contract check among the events the class is one of the six that the detectors up
-- to that of contract violations give: neither unknown nor context drift.
pub classify_trajectory-IsChecked :
    (py : Formats) (events : List (Event Json)) (task : Option TaskSpec)
    (policy : Option FailurePolicy) (e : Event Json) (c : ContractCheck)
    → Has e events
    → e.payload ≡ contract_check c
    → c.accepted ≡ false
    → IsChecked (classify_trajectory py events task policy)
unfolding classify_trajectory
classify_trajectory-IsChecked py events task policy e c m h k =
    let chosen = policy_or policy task in
    or_unknown-Sure IsChecked _ (
      Sure-or IsChecked (first_hit py chosen (sort by_seq events)) _ (
        first_hit-Sure py chosen (sort by_seq events)
          (violation-Sure py chosen (sort by_seq events) e c (Has-sort by_seq e events m) h k)))
