-- ===== src/Contract/Validity.antt =====
-- What `validate` accepts.
use murmur_ai_harness.Prelude.{
  String, ◌≡◌, sym, ap, ◌∙◌, ◌≢◌, ◌↔◌, Bool, true, false, not, ◌&&◌, List, [], ◌∷◌, ◌++◌, arith,
  ◌==◌, eq_iff, contains, leb_ℤ, ℤ, pos, negsuc,
}
use murmur_ai_harness.Contract.{Contract, ltb_ℤ, issue, validate}

-- A contract that `validate` finds no issue with.
pub record IsValidContract (c : Contract) : Type 0 where
  pub version : c.version ≡ pos 1
  pub task : c.task_id ≢ ""
  pub task_type : contains ("failing_test" ∷ "pr_diff" ∷ "workflow_task" ∷ []) c.task_type ≡ true
  pub command : c.task_type ≡ "failing_test" → c.task_command ≢ ""
  pub cost : leb_ℤ (pos 0) c.max_cost_usd ≡ true
  pub tools : leb_ℤ (pos 1) c.max_tool_calls ≡ true
  pub files : leb_ℤ (pos 1) c.max_files_changed ≡ true
  pub diff : leb_ℤ (pos 1) c.max_diff_lines ≡ true

issue-nil : (t : Bool) (s : String) → (issue t s ≡ []) ↔ (t ≡ false)
issue-nil true s = ground arith
issue-nil false s = ground arith

append-nil-issue :
    (xs : List String) (t : Bool) (s : String) → (xs ++ issue t s ≡ []) ↔ ((xs ≡ []) × (t ≡ false))
append-nil-issue [] t s = ground (arith, issue-nil t s)
append-nil-issue (x ∷ xs) t s = ground arith

is_one : (z : ℤ) → (not (leb_ℤ z (pos 1) && leb_ℤ (pos 1) z) ≡ false) ↔ (z ≡ pos 1)
is_one (pos n) = ground arith
is_one (negsuc n) = ground arith

command_given : (t k : Bool) → ((t && k) ≡ false) ↔ (t ≡ true → k ≡ false)
command_given t k = ground arith

at_least : (a b : ℤ) → (ltb_ℤ b a ≡ false) ↔ (leb_ℤ a b ≡ true)
at_least a b = ground arith

known : {t : Bool} → t ≡ true → not t ≡ false
known h = ap not h

needs_command :
    (c : Contract)
    → (c.task_type ≡ "failing_test" → c.task_command ≢ "")
    → (c.task_type == "failing_test" && c.task_command == "") ≡ false
needs_command c h = (command_given _ _).1 (λ e.
    let h' = h ((eq_iff c.task_type "failing_test").0 e) in
    ground (arith, eq_iff c.task_command "", h'))

-- `validate` reports no issue exactly for a contract of version 1 with a task id and a known task
-- type, with a command if the task is a failing test, and with bounds that leave room for a cost
-- of nothing, a tool call, a changed file and a changed line.
pub validate_iff : (c : Contract) → (validate c ≡ []) ↔ IsValidContract c
unfolding validate
validate_iff c = (
  λ h.
      let (h₇, diff) = (append-nil-issue _ _ _).0 h in
      let (h₆, files) = (append-nil-issue _ _ _).0 h₇ in
      let (h₅, tools) = (append-nil-issue _ _ _).0 h₆ in
      let (h₄, cost) = (append-nil-issue _ _ _).0 h₅ in
      let (h₃, command) = (append-nil-issue _ _ _).0 h₄ in
      let (h₂, kind) = (append-nil-issue _ _ _).0 h₃ in
      let (h₁, task) = (append-nil-issue _ _ _).0 h₂ in
      record {
        version = (is_one c.version).0 ((issue-nil _ _).0 h₁);
        task = λ e. let bad = sym ((eq_iff c.task_id "").1 e) ∙ task in absurd (ground arith);
        task_type = ground (arith, kind);
        command = λ e e'.
            let bad =
              sym ((eq_iff c.task_command "").1 e')
              ∙ (command_given _ _).0 command ((eq_iff c.task_type "failing_test").1 e) in
            absurd (ground arith);
        cost = (at_least (pos 0) c.max_cost_usd).0 cost;
        tools = (at_least (pos 1) c.max_tool_calls).0 tools;
        files = (at_least (pos 1) c.max_files_changed).0 files;
        diff = (at_least (pos 1) c.max_diff_lines).0 diff;
      },
  λ v.
      let no_id : (c.task_id == "") ≡ false = ground (arith, eq_iff c.task_id "", v.task) in
      let h₁ = (issue-nil _ "version must be 1").1 ((is_one c.version).1 v.version) in
      let h₂ = (append-nil-issue _ _ "task.id is required").1 (h₁, no_id) in
      let h₃ =
        (append-nil-issue _ _ "task.type must be failing_test, pr_diff, or workflow_task").1
          (h₂, known v.task_type) in
      let h₄ =
        (append-nil-issue _ _ "task.command is required for failing_test").1
          (h₃, needs_command c v.command) in
      let h₅ =
        (append-nil-issue _ _ "budget.max_cost_usd must be non-negative").1
          (h₄, (at_least (pos 0) c.max_cost_usd).1 v.cost) in
      let h₆ =
        (append-nil-issue _ _ "budget.max_tool_calls must be at least 1").1
          (h₅, (at_least (pos 1) c.max_tool_calls).1 v.tools) in
      let h₇ =
        (append-nil-issue _ _ "required_proof.max_files_changed must be at least 1").1
          (h₆, (at_least (pos 1) c.max_files_changed).1 v.files) in
      (append-nil-issue _ _ "required_proof.max_diff_lines must be at least 1").1
        (h₇, (at_least (pos 1) c.max_diff_lines).1 v.diff),
)
