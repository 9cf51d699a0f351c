-- ===== src/Conductor/Boundaries.antt =====
-- A step of an agent with a boundary contract, and the verdict on its trajectory.
use murmur_ai_harness.Prelude.{
  ℕ, ◌+◌, String, ◌≡◌, refl, sym, ap, ◌∙◌, ◌↔◌, Bool, false, ◌||◌, Option, none, some, List, [],
  ◌∷◌, ◌++◌, arith, any,
}
use murmur_ai_harness.Core.Json.{Json}
use murmur_ai_harness.Core.Schema.{Schema, validate_json_schema}
use murmur_ai_harness.Core.Schema.Conforms.{Conforms, validate_json_schema_iff}
use murmur_ai_harness.Core.Types.{TaskSpec, StepBoundaryContract, contract_at}
use murmur_ai_harness.Core.Events.{Event, Payload, SchemaIssue, EventRecorder, write, step_started}
use murmur_ai_harness.ToolGateway.{ToolGateway, recording, emit}
use murmur_ai_harness.ToolGateway.StepContracts.{
  StepGateway, step, check_side, check_events, emit_all, or_null, check_step_contract,
}
use murmur_ai_harness.Conductor.{has_failed_contract_check, is_failed_check}

-- The data of a side conforms to the side's schema, if it has one.
abbrev pub IsGoodSide : Option Schema → Option Json → Type 0
IsGoodSide none value = Unit
IsGoodSide (some s) value = Conforms s (or_null value)

any-append :
    {A : Type 0} (f : A → Bool) (xs ys : List A) → any f (xs ++ ys) ≡ (any f xs || any f ys)
unfolding any
any-append f [] ys = refl
any-append f (x ∷ xs) ys = ground (arith, any-append f xs ys)

-- The recorder behind a list of events.
abbrev write_all : List (Payload Json) → EventRecorder Json → EventRecorder Json
write_all [] r = r
write_all (p ∷ ps) r = write_all ps (write p r)

recorder-emit_all :
    (ps : List (Payload Json)) (g : ToolGateway Json) (r : EventRecorder Json)
    → (emit_all ps (record g { recorder = some r })).recorder ≡ some (write_all ps r)
unfolding emit_all emit
recorder-emit_all [] g r = refl
recorder-emit_all (p ∷ ps) g r = recorder-emit_all ps g (write p r)

or_lem : (a b c : Bool) → ((a || (b || false)) || c) ≡ (a || (b || c))
or_lem a b c = ground arith

or_false_iff : (a b c : Bool) → c ≡ false → ((c || (a || b)) ≡ false) ↔ ((a ≡ false) × (b ≡ false))
or_false_iff a b c h = ground arith

failed-write_all :
    (ps : List (Payload Json)) (r : EventRecorder Json)
    → has_failed_contract_check (write_all ps r).stored
      ≡ (has_failed_contract_check r.stored || any is_failed_check ps)
unfolding has_failed_contract_check write any
failed-write_all [] r = ground arith
failed-write_all (p ∷ ps) r =
    failed-write_all ps (write p r)
    ∙ ap (λ b. b || any is_failed_check ps)
        (any-append (λ (e : Event Json). is_failed_check e.payload) r.stored
          (record { trajectory_id = r.trajectory_id; seq = r.seq + 1; payload = p } ∷ []))
    ∙ or_lem (has_failed_contract_check r.stored) (is_failed_check p) (any is_failed_check ps)

-- A failed check for each issue.
failed-check_events :
    (task_id : String) (index : ℕ) (side : String) (issues : List SchemaIssue)
    → (any is_failed_check (check_events task_id index side issues) ≡ false) ↔ (issues ≡ [])
unfolding any
failed-check_events task_id index side [] = (λ h. refl, λ h. refl)
failed-check_events task_id index side (i ∷ issues) = (λ h. cc, λ h. cc)

side_iff :
    (task_id : String) (index : ℕ) (side : String) (schema : Option Schema) (value : Option Json)
    → (any is_failed_check (check_side task_id index side schema value) ≡ false)
      ↔ IsGoodSide schema value
unfolding any
side_iff task_id index side none value = (λ h. tt, λ h. refl)
side_iff task_id index side (some s) value =
    let a =
      failed-check_events task_id index side (validate_json_schema (or_null value) (some s)) in
    let b = validate_json_schema_iff (or_null value) s in (λ h. b.0 (a.0 h), λ h. a.1 (b.1 h))

abbrev pub recorder_events : Option (EventRecorder Json) → List (Event Json)
recorder_events none = []
recorder_events (some r) = r.stored

-- What the storage holds behind a step.
abbrev pub stored_of : StepGateway → List (Event Json)
stored_of g = recorder_events g.gateway.recorder

failed-step :
    (g : ToolGateway Json) (r : EventRecorder Json) (index : ℕ) (phase : String)
    (ps : List (Payload Json))
    → has_failed_contract_check (
        recorder_events
          (emit_all ps (
            emit
              (step_started index phase)
              (record g { mode = recording; recorder = some r }))).recorder)
      ≡ (has_failed_contract_check r.stored || any is_failed_check ps)
unfolding emit any
failed-step g r index phase ps =
    ap (λ o. has_failed_contract_check (recorder_events o))
      (recorder-emit_all ps (record g { mode = recording }) (write (step_started index phase) r))
    ∙ failed-write_all (step_started index phase ∷ ps) r

-- In a recording without failed checks a step at a boundary with a contract leaves none exactly if
-- the data of both sides conform to the sides' schemas, so that the trajectory can still pass.
pub step_iff :
    (g : ToolGateway Json) (r : EventRecorder Json) (task : TaskSpec) (c : StepBoundaryContract)
    (index : ℕ) (phase : String) (input output : Option Json)
    → contract_at index task.step_contracts ≡ some c
    → has_failed_contract_check r.stored ≡ false
    → (has_failed_contract_check (
          stored_of
            (step index phase input output (record {
              gateway = record g { mode = recording; recorder = some r };
              task = some task;
              current_step_index = none;
            })).1)
        ≡ false)
      ↔ (IsGoodSide c.input_schema input × IsGoodSide c.output_schema output)
unfolding step check_step_contract emit
step_iff g r task c index phase input output found clean =
    let sides =
      check_side task.task_id index "input" c.input_schema input
      ++ check_side task.task_id index "output" c.output_schema output in
    let contracts = λ (o : Option StepBoundaryContract). elim o as (λ _. List (Payload Json)) [
      | none ↦ []
      | some c ↦
          check_side task.task_id index "input" c.input_schema input
          ++ check_side task.task_id index "output" c.output_schema output
    ] in
    let e =
      failed-step g r index phase (contracts (contract_at index task.step_contracts))
      ∙ ap (λ o. has_failed_contract_check r.stored || any is_failed_check (contracts o)) found
      ∙ ap (λ b. has_failed_contract_check r.stored || b) (any-append is_failed_check _ _) in
    let both = or_false_iff _ _ (has_failed_contract_check r.stored) clean in
    let left = side_iff task.task_id index "input" c.input_schema input in
    let right = side_iff task.task_id index "output" c.output_schema output in
    (
      λ h. let (a, b) = both.0 (sym e ∙ h) in (left.0 a, right.0 b),
      λ (a, b). e ∙ both.1 (left.1 a, right.1 b),
    )
