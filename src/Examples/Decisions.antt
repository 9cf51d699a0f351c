-- ===== src/Examples/Decisions.antt =====
-- A contract, requests under it, and scores.
use murmur_ai_harness.Prelude.{
  String, ◌≡◌, ◌↔◌, Bool, true, false, [], ◌∷◌, ◌==◌, All, contains, pos,
}
use murmur_ai_harness.Contract.{Contract, validate}
use murmur_ai_harness.Contract.Validity.{validate_iff, IsValidContract}
use murmur_ai_harness.Contract.Policy.{Matching, BudgetState, ToolRequest, allowed, evaluate}
use murmur_ai_harness.Contract.Policy.Safety.{evaluate_iff, IsPermitted}
use murmur_ai_harness.Contract.Trust.{VerificationResult, compute_trust_score, checks_of}
use murmur_ai_harness.Contract.Trust.Levels.{
  compute_trust_score-IsGraded, compute_trust_score_full_iff, IsGraded,
}

abbrev pub fix_test : Contract
fix_test = record {
  version = pos 1;
  task_id = "t1";
  task_type = "failing_test";
  task_command = "pytest";
  max_cost_usd = pos 50;
  max_model_calls = pos 12;
  max_tool_calls = pos 80;
  max_runtime_seconds = pos 600;
  allow_read = "a.py" ∷ [];
  allow_edit = "a.py" ∷ [];
  deny_read = ".env" ∷ [];
  deny_edit = ".env" ∷ [];
  allow_tools = "read_file" ∷ "run_test" ∷ [];
  deny_tools = "network" ∷ [];
  related_tests = [];
  static_checks = [];
  max_files_changed = pos 3;
  max_diff_lines = pos 200;
}

-- Patterns that match themselves alone.
abbrev pub literal : Matching
literal = record {
  fnmatch = λ path pattern. path == pattern;
  strip = λ s. s;
  lower = λ s. s;
  quoted = λ s. s;
}

abbrev unspent : BudgetState
unspent = record {
  cost_usd = pos 0;
  model_calls = pos 0;
  tool_calls = pos 0;
  runtime_seconds = pos 0;
}

abbrev read_a : ToolRequest
read_a = record { tool_name = "read_file"; path = "a.py"; command = "" }

validate_iff_example : (validate fix_test ≡ []) ↔ IsValidContract fix_test
validate_iff_example = validate_iff fix_test

evaluate_iff_example :
    (allowed (evaluate literal fix_test unspent read_a) ≡ true)
    ↔ IsPermitted literal fix_test unspent read_a
evaluate_iff_example = evaluate_iff literal fix_test unspent read_a

abbrev failed : VerificationResult
failed = record {
  failure_reproduced = true;
  target_test_passed = false;
  related_tests_passed = true;
  static_checks_passed = true;
  forbidden_files_touched = [];
  failures = "test_failed" ∷ [];
}

compute_trust_score-IsGraded_example : IsGraded failed (compute_trust_score failed 3 3)
compute_trust_score-IsGraded_example = compute_trust_score-IsGraded failed 3 3

compute_trust_score_full_iff_example : ((compute_trust_score failed 3 3).score ≡ 100) ↔ (
    All (λ (e : String × Bool). e.1 ≡ true) (checks_of failed 3 3)
    × (contains ("test_failed" ∷ []) "test_failed" ≡ false))
compute_trust_score_full_iff_example = compute_trust_score_full_iff failed 3 3
