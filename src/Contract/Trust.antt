-- ===== src/Contract/Trust.antt =====
-- murmur/domain/trust.py: `compute_trust_score`.
pub mod Levels
use murmur_ai_harness.Prelude.{
  ℕ, zero, suc, ◌+◌, ◌-◌, ◌*◌, ◌/◌, ◌%◌, ◌≤◌, ◌<◌, min, max, String, ◌≡◌, refl, sym, ap, ◌∙◌, ◌≢◌,
  ◌↔◌, ◌⊎◌, inl, inr, Bool, true, false, not, ◌&&◌, ◌||◌, Option, none, some, List, [], ◌∷◌, ◌++◌,
  map, arith, ◌==◌, eq_iff, eq_refl, ltb, leb, nat_eq, str_le, if◌then◌else◌, leb→le, le→leb,
  nat_eq_iff, &&_iff, Bool-cases, Option-cases, concat, has_text, join, length, take, drop,
  length-append, take-append-drop, length-take, select, All, all, any, contains, IsUnique, count,
  count-append, contains-append, contains→count, count→contains, length-map, Has, Zip, All-map,
  All-intro, map-cong, All-Has, Has-map, length-select-cons, length-select, Has-select, Has-last,
  Has→contains, append-eq-nil, place, sort, length-sort, sorted, count-sort, count-sorted,
  length-sorted, place-perm, sort-perm, IsSorted, sort-IsSorted, All-sort, Has-sort, Dict, lookup,
  insert, update, keys, lookup-insert, lookup-update, pos_part, is_nonpos, neg_part, sub_ℕ, ◌+ℤ◌,
  leb_ℤ, ℤ, pos, negsuc,
}
use murmur_ai_harness.Contract.{Contract}

-- `VerificationResult`, what the score reads of it
pub record VerificationResult : Type 0 where
  pub failure_reproduced : Bool
  pub target_test_passed : Bool
  pub related_tests_passed : Bool
  pub static_checks_passed : Bool
  pub forbidden_files_touched : List String
  pub failures : List String

pub data Level : Type 0 where
  high medium low : Level

pub record TrustScore : Type 0 where
  pub score : ℕ
  pub level : Level
  pub checks : Dict Bool
  pub risk_flags : List String

abbrev pub is_nonempty {ℓ} : {A : Type ℓ} → List A → Bool
is_nonempty [] = false
is_nonempty (x ∷ xs) = true

-- tuple(dict.fromkeys(…)): each text once, at its first place.
unfoldable pub dedupe : List String → List String → List String
unfolding contains
dedupe seen [] = []
dedupe seen (x ∷ xs) =
    let rest = dedupe seen xs in
    let rest' = dedupe (x ∷ seen) xs in if contains seen x then rest else x ∷ rest'

abbrev pub checks_of : VerificationResult → (tool_calls total : ℕ) → Dict Bool
checks_of v tool_calls total =
    ("failure_reproduced", v.failure_reproduced)
    ∷ ("target_test_passed", v.target_test_passed)
    ∷ ("related_tests_passed", v.related_tests_passed)
    ∷ ("static_checks_passed", v.static_checks_passed)
    ∷ ("forbidden_files_clean", not (is_nonempty v.forbidden_files_touched))
    ∷ ("diff_size_ok", not (contains v.failures "diff_too_large"))
    ∷ ("tool_trace_present", (not (nat_eq total 0) || nat_eq tool_calls 0))
    ∷ ("tool_budget_ok", true)
    ∷ ("model_budget_ok", true)
    ∷ []

abbrev pub weights : List ℕ
weights = 10 ∷ 25 ∷ 10 ∷ 10 ∷ 15 ∷ 10 ∷ 10 ∷ 5 ∷ 5 ∷ []

-- sum(weight for key, weight in weights.items() if checks[key]), the two in the same order.
abbrev pub weigh : List ℕ → Dict Bool → ℕ
weigh [] checks = 0
weigh (w ∷ ws) [] = 0
weigh (w ∷ ws) ((k, ok) ∷ checks) = (if ok then w else 0) + weigh ws checks

abbrev pub capped : Bool → ℕ → ℕ
capped bad score = if bad then min score 69 else score

abbrev pub level_of : ℕ → Level
level_of score = if ltb score 50 then low else if ltb score 70 then medium else high

abbrev pub final_score : VerificationResult → (tool_calls total : ℕ) → ℕ
final_score v tool_calls total = capped (not v.target_test_passed) (
    capped (is_nonempty v.forbidden_files_touched || contains v.failures "test_failed")
      (weigh weights (checks_of v tool_calls total)))

unfoldable pub compute_trust_score : VerificationResult → (tool_calls total : ℕ) → TrustScore
unfolding dedupe contains
compute_trust_score v tool_calls total = record {
  score = max 0 (min 100 (final_score v tool_calls total));
  level = level_of (final_score v tool_calls total);
  checks = checks_of v tool_calls total;
  risk_flags = dedupe [] (
      v.failures
      ++ (if not (nat_eq tool_calls 0) && nat_eq total 0 then "missing_tool_trace" ∷ [] else []));
}
