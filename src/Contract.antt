-- ===== src/Contract.antt =====
-- murmur/domain: the contract of a run, the policy that decides on its tool requests, and the
-- trust score of its proof. Costs and times are whole numbers of a fixed fraction.
pub mod Validity
pub mod Policy
pub mod Trust
pub mod Verifier
use murmur_ai_harness.Prelude.{
  ℕ, zero, suc, ◌+◌, ◌-◌, ◌*◌, ◌/◌, ◌%◌, ◌≤◌, ◌<◌, min, max, String, ◌≡◌, refl, sym, ap, ◌∙◌, ◌≢◌,
  ◌↔◌, ◌⊎◌, inl, inr, Bool, true, false, not, ◌&&◌, ◌||◌, Option, none, some, List, [], ◌∷◌, ◌++◌,
  map, arith, ◌==◌, eq_iff, eq_refl, ltb, leb, nat_eq, str_le, if◌then◌else◌, leb→le, le→leb,
  nat_eq_iff, &&_iff, Bool-cases, Option-cases, concat, has_text, join, length, take, drop,
  length-append, take-append-drop, length-take, select, All, all, any, contains, IsUnique, count,
  count-append, contains-append, contains→count, count→contains, length-map, Has, Zip, All-map,
  All-intro, map-cong, All-Has, Has-map, length-select-cons, length-select, Has-select, Has-last,
  Has→contains, append-eq-nil, place, sort, length-sort, sorted, count-sort, count-sorted,
  length-sorted, place-perm, sort-perm, IsSorted, sort-IsSorted, All-sort, Has-sort, Dict, lookup,
  insert, update, keys, lookup-insert, lookup-update, pos_part, is_nonpos, neg_part, sub_ℕ, ◌+ℤ◌,
  leb_ℤ, ℤ, pos, negsuc,
}

-- The parts of a contract that the policy and the validation read.
pub record Contract : Type 0 where
  pub version : ℤ
  pub task_id : String
  pub task_type : String
  pub task_command : String
  pub max_cost_usd : ℤ
  pub max_model_calls : ℤ
  pub max_tool_calls : ℤ
  pub max_runtime_seconds : ℤ
  pub allow_read : List String
  pub allow_edit : List String
  pub deny_read : List String
  pub deny_edit : List String
  pub allow_tools : List String
  pub deny_tools : List String
  pub related_tests : List String
  pub static_checks : List String
  pub max_files_changed : ℤ
  pub max_diff_lines : ℤ

abbrev pub ltb_ℤ : ℤ → ℤ → Bool
ltb_ℤ a b = not (leb_ℤ b a)

abbrev pub issue : Bool → String → List String
issue true s = s ∷ []
issue false s = []

-- `Contract.validate`
unfoldable pub validate : Contract → List String
unfolding contains
validate c =
    issue (not (leb_ℤ c.version (pos 1) && leb_ℤ (pos 1) c.version)) "version must be 1"
    ++ issue (c.task_id == "") "task.id is required"
    ++ issue (not (contains ("failing_test" ∷ "pr_diff" ∷ "workflow_task" ∷ []) c.task_type))
        "task.type must be failing_test, pr_diff, or workflow_task"
    ++ issue (c.task_type == "failing_test" && c.task_command == "")
        "task.command is required for failing_test"
    ++ issue (ltb_ℤ c.max_cost_usd (pos 0)) "budget.max_cost_usd must be non-negative"
    ++ issue (ltb_ℤ c.max_tool_calls (pos 1)) "budget.max_tool_calls must be at least 1"
    ++ issue (ltb_ℤ c.max_files_changed (pos 1))
        "required_proof.max_files_changed must be at least 1"
    ++ issue (ltb_ℤ c.max_diff_lines (pos 1)) "required_proof.max_diff_lines must be at least 1"
