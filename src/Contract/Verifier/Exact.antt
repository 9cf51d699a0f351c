-- ===== src/Contract/Verifier/Exact.antt =====
-- When a verification passes, and what trust it then earns.
use murmur_ai_harness.Prelude.{
  ℕ, ◌+◌, String, ◌≡◌, refl, ap, ◌≢◌, ◌↔◌, ◌⊎◌, inl, inr, Bool, true, false, not, ◌&&◌, ◌||◌, List,
  [], ◌∷◌, ◌++◌, arith, nat_eq, if◌then◌else◌, &&_iff, length, All, contains, append-eq-nil, leb_ℤ,
  pos,
}
use murmur_ai_harness.Contract.{Contract, issue}
use murmur_ai_harness.Contract.Policy.{Matching}
use murmur_ai_harness.Contract.Trust.{
  VerificationResult, dedupe, is_nonempty, compute_trust_score, checks_of,
}
use murmur_ai_harness.Contract.Trust.Levels.{compute_trust_score_full_iff}
use murmur_ai_harness.Contract.Verifier.{
  Sandbox, CommandRun, Runs, run_commands, add_run, no_runs, verify_contract, failures_of,
  passed_of, forbidden_files, count_changes,
}

-- The flag is set exactly if there is no failure.
abbrev Tells : Bool → List String → Type 0
Tells b failures = (b ≡ true) ↔ (failures ≡ [])

-- A loop has passed exactly if it wrote no failure.
abbrev IsConsistent : Runs → Type 0
IsConsistent s = Tells s.passed s.failures

both : (a b : Bool) (xs ys : List String) → Tells a xs → Tells b ys → Tells (a && b) (xs ++ ys)
both a b xs ys h k = (
  λ e. let (p, q) = (&&_iff a b).0 e in (append-eq-nil xs ys).1 (h.0 p, k.0 q),
  λ e. let (p, q) = (append-eq-nil xs ys).0 e in (&&_iff a b).1 (h.1 p, k.1 q),
)

good : (b : Bool) (s : String) → Tells b (issue (not b) s)
good true s = (λ h. refl, λ h. refl)
good false s = (λ h. cc, λ h. cc)

bad : (b : Bool) (s : String) → Tells (not b) (issue b s)
bad true s = (λ h. cc, λ h. cc)
bad false s = (λ h. refl, λ h. refl)

add_run-IsConsistent :
    (reason command : String) (r : CommandRun) (s : Runs)
    → IsConsistent s
    → IsConsistent (add_run reason command r s)
add_run-IsConsistent reason command r s h =
    let t =
      both s.passed r.passed s.failures (issue (not r.passed) reason) h (good r.passed reason) in
    (λ e. t.0 (swap s.passed r.passed e), λ e. back s.passed r.passed (t.1 e))
  where
    swap : (a b : Bool) → (if b then a else false) ≡ true → (a && b) ≡ true
    swap a b e = ground arith

    back : (a b : Bool) → (a && b) ≡ true → (if b then a else false) ≡ true
    back a b e = ground arith

run_commands-IsConsistent :
    (sandbox : Sandbox) (reason : String) (n : ℕ) (commands : List String) (s : Runs)
    → IsConsistent s
    → IsConsistent (run_commands sandbox reason n commands s)
unfolding run_commands
run_commands-IsConsistent sandbox reason n [] s h = h
run_commands-IsConsistent sandbox reason n (command ∷ commands) s h =
    run_commands-IsConsistent sandbox reason (n + 1) commands _
      (add_run-IsConsistent reason command (sandbox.run n command) s h)

dedupe_iff : (xs : List String) → (dedupe [] xs ≡ []) ↔ (xs ≡ [])
unfolding dedupe contains
dedupe_iff [] = (λ h. refl, λ h. refl)
dedupe_iff (x ∷ xs) = (λ h. cc, λ h. cc)

none_failed : IsConsistent no_runs
none_failed = (λ h. refl, λ h. refl)

rotate :
    (r a b c d e f : Bool)
    → ((r && a && b && c && d && e && f) ≡ true) ↔ ((a && b && c && d && e && f && r) ≡ true)
rotate r a b c d e f = ground arith

verification_iff :
    (c : Contract) (target : Bool) (related static : Runs) (forbidden changed : List String)
    (lines : ℕ) (reproduced : Bool)
    → IsConsistent related
    → IsConsistent static
    → Tells
        (passed_of c target related static forbidden changed lines reproduced)
        (dedupe [] (failures_of c target related static forbidden changed lines reproduced))
verification_iff c target related static forbidden changed lines reproduced h k =
    let files = leb_ℤ (pos (length changed)) c.max_files_changed in
    let small = leb_ℤ (pos lines) c.max_diff_lines in
    let clean = not (is_nonempty forbidden) in
    let turn = rotate reproduced target related.passed static.passed clean files small in
    let once =
      dedupe_iff (failures_of c target related static forbidden changed lines reproduced) in
    let tests =
      both (target && related.passed) static.passed _ _
        (both target related.passed _ _ (good target "test_still_failing") h) k in
    let worktree =
      both _ small _ _
        (both _ files _ _
          (both _ clean _ _ tests (bad (is_nonempty forbidden) "forbidden_file_touched"))
          (good files "too_many_files_changed"))
        (good small "diff_too_large") in
    let t = both _ reproduced _ _ worktree (good reproduced "failure_not_reproduced") in
    (λ e. once.1 (t.0 (turn.0 e)), λ e. turn.1 (t.1 (once.0 e)))

-- The verification passes exactly if it lists no failure.
pub verify_contract_iff :
    (py : Matching) (c : Contract) (sandbox : Sandbox) (reproduced : Bool)
    → ((verify_contract py c sandbox reproduced).passed ≡ true)
      ↔ ((verify_contract py c sandbox reproduced).result.failures ≡ [])
unfolding verify_contract
verify_contract_iff py c sandbox reproduced =
    verification_iff c (sandbox.run 0 c.task_command).passed
      (run_commands sandbox "related_test_regression" 1 c.related_tests no_runs)
      (run_commands sandbox "static_check_failed" (1 + length c.related_tests) c.static_checks
        no_runs)
      (forbidden_files py c sandbox.changed_files) sandbox.changed_files
      (count_changes sandbox.diff_lines) reproduced
      (run_commands-IsConsistent sandbox "related_test_regression" 1 c.related_tests no_runs
        none_failed)
      (run_commands-IsConsistent sandbox "static_check_failed" (1 + length c.related_tests)
        c.static_checks no_runs none_failed)

unpack :
    (r a b c d e f : Bool)
    → (r && a && b && c && not d && e && f) ≡ true
    → (r ≡ true) × (a ≡ true) × (b ≡ true) × (c ≡ true) × (not d ≡ true)
unpack r a b c d e f h = ground arith

full_checks :
    (v : VerificationResult) (tool_calls total : ℕ)
    → (v.failure_reproduced ≡ true)
      × (v.target_test_passed ≡ true)
      × (v.related_tests_passed ≡ true)
      × (v.static_checks_passed ≡ true)
      × (not (is_nonempty v.forbidden_files_touched) ≡ true)
    → v.failures ≡ []
    → ((total ≢ 0) ⊎ (tool_calls ≡ 0))
    → All (λ (e : String × Bool). e.1 ≡ true) (checks_of v tool_calls total)
      × (contains v.failures "test_failed" ≡ false)
unfolding contains
full_checks v tool_calls total (a, b, c, d, e) f trace =
    let none_listed = λ (s : String). ap (λ l. contains l s) f in
    (
      (
        a,
        (
          b,
          (
            c,
            (
              d,
              (
                e,
                (
                  ap not (none_listed "diff_too_large"),
                  (traced tool_calls total trace, (refl, (refl, tt))),
                ),
              ),
            ),
          ),
        ),
      ),
      none_listed "test_failed",
    )
  where
    traced :
        (tool_calls total : ℕ)
        → ((total ≢ 0) ⊎ (tool_calls ≡ 0))
        → (not (nat_eq total 0) || nat_eq tool_calls 0) ≡ true
    traced tool_calls total (inl h) = ground arith
    traced tool_calls total (inr h) = ground arith

-- A verification that passed, with a trace where tools were called, earns the full score.
pub verify_contract-trust :
    (py : Matching) (c : Contract) (sandbox : Sandbox) (reproduced : Bool) (tool_calls total : ℕ)
    → (verify_contract py c sandbox reproduced).passed ≡ true
    → ((total ≢ 0) ⊎ (tool_calls ≡ 0))
    → (compute_trust_score (verify_contract py c sandbox reproduced).result tool_calls total).score
      ≡ 100
unfolding verify_contract
verify_contract-trust py c sandbox reproduced tool_calls total h trace =
    let v = verify_contract py c sandbox reproduced in
    (compute_trust_score_full_iff v.result tool_calls total).1 (
      full_checks v.result tool_calls total (unpack _ _ _ _ _ _ _ h)
        ((verify_contract_iff py c sandbox reproduced).0 h) trace)
