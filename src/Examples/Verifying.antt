-- ===== src/Examples/Verifying.antt =====
-- A sandbox, and its verification.
use murmur_ai_harness.Prelude.{◌≡◌, refl, ◌↔◌, inl, true, false, [], ◌∷◌}
use murmur_ai_harness.Contract.Trust.{compute_trust_score}
use murmur_ai_harness.Contract.Verifier.{Sandbox, verify_contract}
use murmur_ai_harness.Contract.Verifier.Exact.{verify_contract_iff, verify_contract-trust}
use murmur_ai_harness.Examples.Decisions.{fix_test, literal}

-- All commands pass, and one allowed file has one changed line.
abbrev fixed : Sandbox
fixed = record {
  run = λ n command. record { passed = true; output = command };
  changed_files = "a.py" ∷ [];
  diff_lines = "+++ b/a.py" ∷ "+x = 1" ∷ [];
}

-- The target test still fails.
abbrev broken : Sandbox
broken = record fixed { run = λ n command. record { passed = false; output = command } }

fixed_passes : (verify_contract literal fix_test fixed true).passed ≡ true
unfolding verify_contract
fixed_passes = refl

broken_fails :
    (verify_contract literal fix_test broken true).result.failures ≡ "test_still_failing" ∷ []
unfolding verify_contract
broken_fails = refl

verify_contract_iff_example :
    ((verify_contract literal fix_test broken true).passed ≡ true)
    ↔ ((verify_contract literal fix_test broken true).result.failures ≡ [])
verify_contract_iff_example = verify_contract_iff literal fix_test broken true

verify_contract-trust_example :
    (compute_trust_score (verify_contract literal fix_test fixed true).result 2 5).score ≡ 100
verify_contract-trust_example =
    verify_contract-trust literal fix_test fixed true 2 5 fixed_passes (inl (λ h. cc))
