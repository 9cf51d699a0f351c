-- ===== src/Examples/Calls.antt =====
-- Metered calls.
use murmur_ai_harness.Prelude.{◌<◌, ◌≡◌, refl, sym, [], ◌∷◌, arith}
use murmur_ai_harness.Examples.{fake, answer_a, meter_of}
use murmur_ai_harness.Flock.Gateway.{
  Request, complete, reserve, estimate_tokens, remaining_tokens, done_inj,
}
use murmur_ai_harness.Flock.Gateway.Accounts.{
  IsAccounted, complete-IsAccounted, complete_all, billed, billed_log, cost_log,
}
use murmur_ai_harness.Flock.Gateway.Overshoot.{
  UsesAtMost, IsWithin, refusal, complete_exhausted, complete_all-IsWithin, complete_overspends,
  Traffic, start, here, next, IsBounded, Reach-IsBounded,
}

abbrev greeting : Request
greeting = record { model = "fake"; system = "hi"; user = "there"; effort = "low" }

complete-IsAccounted_example : IsAccounted (complete fake "read" greeting (meter_of 9 0)).1
unfolding billed_log cost_log
complete-IsAccounted_example =
    complete-IsAccounted fake "read" greeting (meter_of 9 0)
      (record { tokens = refl; costs = refl; calls = refl })

complete_exhausted_example :
    complete fake "read" greeting (meter_of 9 9) ≡ refusal greeting (meter_of 9 9)
complete_exhausted_example = complete_exhausted fake "read" greeting (meter_of 9 9) (omega arith)

seven : UsesAtMost 7 fake
unfolding billed
seven n r reply answers = rw (sym (done_inj answers)) (omega arith)

complete_all-IsWithin_example :
    IsWithin 7 (complete_all fake "read" (greeting ∷ greeting ∷ []) (meter_of 9 0))
complete_all-IsWithin_example =
    complete_all-IsWithin 7 fake "read" (greeting ∷ greeting ∷ []) (meter_of 9 0) seven
      (omega arith)

complete_overspends_example :
    9 < (complete fake "read" greeting (meter_of 9 5)).1.ledger.spent_tokens
unfolding estimate_tokens remaining_tokens billed
complete_overspends_example =
    complete_overspends fake "read" greeting (meter_of 9 5) answer_a (ground arith) refl
      (ground arith)

abbrev idle : Traffic
idle = record { meter = meter_of 9 0; flying = [] }

abbrev one_call : Traffic
one_call = record { meter = meter_of 9 0; flying = ("read", greeting) ∷ [] }

Reach-IsBounded_example : IsBounded 2 7 one_call
unfolding reserve estimate_tokens
Reach-IsBounded_example =
    Reach-IsBounded 2 7 fake seven {s = idle} {t = one_call} (omega arith, omega arith)
      (next here (start "read" greeting (omega arith) refl refl))
