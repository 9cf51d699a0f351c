-- ===== src/Contract/Verifier.antt =====
-- murmur/application/verifier.py: `verify_contract`. The sandbox is a parameter.
pub mod Exact
use murmur_ai_harness.Prelude.{
  ℕ, zero, suc, ◌+◌, ◌-◌, ◌*◌, ◌/◌, ◌%◌, ◌≤◌, ◌<◌, min, max, String, ◌≡◌, refl, sym, ap, ◌∙◌, ◌≢◌,
  ◌↔◌, ◌⊎◌, inl, inr, Bool, true, false, not, ◌&&◌, ◌||◌, Option, none, some, List, [], ◌∷◌, ◌++◌,
  map, arith, ◌==◌, eq_iff, eq_refl, ltb, leb, nat_eq, str_le, if◌then◌else◌, leb→le, le→leb,
  nat_eq_iff, &&_iff, Bool-cases, Option-cases, concat, has_text, join, length, take, drop,
  length-append, take-append-drop, length-take, select, All, all, any, contains, IsUnique, count,
  count-append, contains-append, contains→count, count→contains, length-map, Has, Zip, All-map,
  All-intro, map-cong, All-Has, Has-map, length-select-cons, length-select, Has-select, Has-last,
  Has→contains, append-eq-nil, place, sort, length-sort, sorted, count-sort, count-sorted,
  length-sorted, place-perm, sort-perm, IsSorted, sort-IsSorted, All-sort, Has-sort, Dict, lookup,
  insert, update, keys, lookup-insert, lookup-update, pos_part, is_nonpos, neg_part, sub_ℕ, ◌+ℤ◌,
  leb_ℤ, ℤ, pos, negsuc,
}
use package.text.Mathlib.Text.{starts_with}
use murmur_ai_harness.Contract.{Contract, ltb_ℤ, issue}
use murmur_ai_harness.Contract.Policy.{Matching, allowed, check_changed_file}
use murmur_ai_harness.Contract.Trust.{VerificationResult, dedupe, is_nonempty}

pub record CommandRun : Type 0 where
  pub passed : Bool
  pub output : String

-- The sandbox: what its n-th command gives, the changed files, and the lines of the diff.
pub record Sandbox : Type 0 where
  pub run : ℕ → String → CommandRun
  pub changed_files : List String
  pub diff_lines : List String

-- The result, with what the trust score does not read.
pub record Verification : Type 0 where
  pub passed : Bool
  pub result : VerificationResult
  pub changed_files : List String
  pub diff_lines : ℕ
  pub target_output : String
  pub related_outputs : Dict String
  pub static_outputs : Dict String

-- The state of the loops over commands.
pub record Runs : Type 0 where
  pub passed : Bool
  pub failures : List String
  pub outputs : Dict String

abbrev pub add_run : String → String → CommandRun → Runs → Runs
add_run reason command r s = record {
  passed = if r.passed then s.passed else false;
  failures = s.failures ++ issue (not r.passed) reason;
  outputs = insert command r.output s.outputs;
}

-- A loop over commands, from the n-th run on.
unfoldable pub run_commands : Sandbox → String → ℕ → List String → Runs → Runs
unfolding insert
run_commands sandbox reason n [] s = s
run_commands sandbox reason n (command ∷ commands) s =
    run_commands sandbox reason (n + 1) commands (add_run reason command (sandbox.run n command) s)

abbrev pub no_runs : Runs
no_runs = record { passed = true; failures = []; outputs = [] }

-- A changed line, and no header of a file.
abbrev pub is_change : String → Bool
is_change line =
    (starts_with line "+" || starts_with line "-")
    && not (starts_with line "+++" || starts_with line "---")

unfoldable pub count_changes : List String → ℕ
count_changes [] = 0
count_changes (line ∷ lines) = (if is_change line then 1 else 0) + count_changes lines

unfoldable pub forbidden_files : Matching → Contract → List String → List String
unfolding check_changed_file select
forbidden_files py c changed = select (λ path. not (allowed (check_changed_file py c path))) changed

-- The failures, in their order.
abbrev pub failures_of :
    Contract
    → (target : Bool) (related static : Runs) (forbidden changed : List String) (lines : ℕ)
      (reproduced : Bool)
    → List String
failures_of c target related static forbidden changed lines reproduced =
    issue (not target) "test_still_failing"
    ++ related.failures
    ++ static.failures
    ++ issue (is_nonempty forbidden) "forbidden_file_touched"
    ++ issue (ltb_ℤ c.max_files_changed (pos (length changed))) "too_many_files_changed"
    ++ issue (ltb_ℤ c.max_diff_lines (pos lines)) "diff_too_large"
    ++ issue (not reproduced) "failure_not_reproduced"

abbrev pub passed_of :
    Contract
    → (target : Bool) (related static : Runs) (forbidden changed : List String) (lines : ℕ)
      (reproduced : Bool)
    → Bool
passed_of c target related static forbidden changed lines reproduced =
    reproduced
    && target
    && related.passed
    && static.passed
    && not (is_nonempty forbidden)
    && leb_ℤ (pos (length changed)) c.max_files_changed
    && leb_ℤ (pos lines) c.max_diff_lines

-- The result, from what the commands and the worktree gave.
abbrev pub verification_of :
    Matching
    → Contract
    → Sandbox
    → (target : CommandRun) (related static : Runs) (reproduced : Bool) → Verification
verification_of py c sandbox target related static reproduced =
    let changed = sandbox.changed_files in
    let forbidden = forbidden_files py c changed in
    let lines = count_changes sandbox.diff_lines in
    record {
      passed = passed_of c target.passed related static forbidden changed lines reproduced;
      result = record {
        failure_reproduced = reproduced;
        target_test_passed = target.passed;
        related_tests_passed = related.passed;
        static_checks_passed = static.passed;
        forbidden_files_touched = forbidden;
        failures =
            dedupe []
              (failures_of c target.passed related static forbidden changed lines reproduced);
      };
      changed_files = changed;
      diff_lines = lines;
      target_output = target.output;
      related_outputs = related.outputs;
      static_outputs = static.outputs;
    }

-- `verify_contract`
unfoldable pub verify_contract :
    Matching → Contract → Sandbox → (failure_reproduced : Bool) → Verification
unfolding run_commands forbidden_files count_changes dedupe
verify_contract py c sandbox reproduced =
    verification_of py c sandbox (sandbox.run 0 c.task_command)
      (run_commands sandbox "related_test_regression" 1 c.related_tests no_runs)
      (run_commands sandbox "static_check_failed" (1 + length c.related_tests) c.static_checks
        no_runs)
      reproduced
