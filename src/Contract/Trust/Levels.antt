-- ===== src/Contract/Trust/Levels.antt =====
-- How the trust score and its level follow from the evidence.
use murmur_ai_harness.Prelude.{
  ℕ, ◌≤◌, ◌<◌, min, max, String, ◌≡◌, ◌↔◌, Bool, true, false, not, ◌||◌, arith, All, contains,
}
use murmur_ai_harness.Contract.Trust.{
  VerificationResult, high, low, TrustScore, compute_trust_score, is_nonempty, checks_of,
  final_score, level_of,
}

-- What no high score survives: the target test fails, a forbidden file was touched, or the failures
-- list the entry `test_failed`.
abbrev pub is_disqualified : VerificationResult → Bool
is_disqualified v =
    not v.target_test_passed
    || is_nonempty v.forbidden_files_touched
    || contains v.failures "test_failed"

-- The score is at most 100, the level is high from 70 on, medium from 50 on and low below, and a
-- disqualified change gets at most 69.
pub record IsGraded (v : VerificationResult) (t : TrustScore) : Type 0 where
  pub bounded : t.score ≤ 100
  pub high : (t.level ≡ high) ↔ (70 ≤ t.score)
  pub low : (t.level ≡ low) ↔ (t.score < 50)
  pub capped : is_disqualified v ≡ true → t.score ≤ 69

level_high : (n : ℕ) → (level_of n ≡ high) ↔ (70 ≤ n)
level_high n = ground arith

level_low : (n : ℕ) → (level_of n ≡ low) ↔ (n < 50)
level_low n = ground arith

final-bounded :
    (v : VerificationResult) (tool_calls total : ℕ) → final_score v tool_calls total ≤ 100
final-bounded v tool_calls total = ground arith

final-capped :
    (v : VerificationResult) (tool_calls total : ℕ)
    → is_disqualified v ≡ true
    → final_score v tool_calls total ≤ 69
final-capped v tool_calls total h = ground arith

-- Whatever the evidence, the score is at most 100; the level is high exactly from 70 on and low
-- exactly below 50; and where the target test did not pass, a forbidden file was touched or the
-- failures list the entry `test_failed`, the score is at most 69.
pub compute_trust_score-IsGraded :
    (v : VerificationResult) (tool_calls total : ℕ)
    → IsGraded v (compute_trust_score v tool_calls total)
unfolding compute_trust_score
compute_trust_score-IsGraded v tool_calls total =
    let n = final_score v tool_calls total in
    let same : max 0 (min 100 n) ≡ n = omega (arith, final-bounded v tool_calls total) in
    record {
      bounded = omega arith;
      high = rw same (level_high n);
      low = rw same (level_low n);
      capped = λ h. omega (arith, final-capped v tool_calls total h);
    }

-- The full score is given exactly if each of the seven checks that can fail has passed and the
-- failures do not list the entry `test_failed`.
pub compute_trust_score_full_iff :
    (v : VerificationResult) (tool_calls total : ℕ)
    → ((compute_trust_score v tool_calls total).score ≡ 100) ↔ (
        All (λ (e : String × Bool). e.1 ≡ true) (checks_of v tool_calls total)
        × (contains v.failures "test_failed" ≡ false))
unfolding compute_trust_score
compute_trust_score_full_iff v tool_calls total = ground arith
