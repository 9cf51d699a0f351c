-- ===== src/Examples/Rates.antt =====
-- The rates of three trajectories.
use murmur_ai_harness.Prelude.{String, ◌≡◌, refl, none, some, List, [], ◌∷◌, arith, All, pos}
use murmur_ai_harness.Core.Types.{Outcome, passed, failed, TrajectoryResult}
use murmur_ai_harness.Core.Metrics.{range, reliability_metrics, pass_hat_k_unbiased}
use murmur_ai_harness.Core.Metrics.Draws.{IsShare, IsPoint, horizons, reliability_metrics-IsShare}

abbrev run_with : String → Outcome → TrajectoryResult
run_with id outcome = record {
  trajectory_id = id;
  outcome = outcome;
  output = "";
  failure_class = none;
  cost_usd = pos 1;
  latency_ms = pos 1;
  failure_step = none;
  failure_detail = none;
  failure_confidence = none;
}

abbrev three_runs : List TrajectoryResult
three_runs = run_with "a" passed ∷ run_with "b" failed ∷ run_with "c" passed ∷ []

one_pair_of_three : pass_hat_k_unbiased 2 3 2 ≡ record { num = 1; den = 3 }
unfolding pass_hat_k_unbiased
one_pair_of_three = refl

reliability_metrics-IsShare_example :
    IsShare 1 three_runs (reliability_metrics three_runs (some 2)).at_1
    × IsShare 2 three_runs (reliability_metrics three_runs (some 2)).at_k_unbiased
    × (horizons (reliability_metrics three_runs (some 2)).curve ≡ range 1 3)
    × All (IsPoint three_runs) (reliability_metrics three_runs (some 2)).curve
reliability_metrics-IsShare_example = reliability_metrics-IsShare three_runs (some 2) (omega arith)
