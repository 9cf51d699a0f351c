-- ===== src/Core/Metrics.antt =====
-- murmur/core/metrics.py: how often the trajectories of a run pass. A float is the fraction that it
-- stands for; the interval of Wilson, medians and percentiles are left out.
pub mod Draws
use murmur_ai_harness.Prelude.{
  ℕ, zero, suc, ◌+◌, ◌-◌, ◌*◌, ◌/◌, ◌%◌, ◌≤◌, ◌<◌, min, max, String, ◌≡◌, refl, sym, ap, ◌∙◌, ◌≢◌,
  ◌↔◌, ◌⊎◌, inl, inr, Bool, true, false, not, ◌&&◌, ◌||◌, Option, none, some, List, [], ◌∷◌, ◌++◌,
  map, arith, ◌==◌, eq_iff, eq_refl, ltb, leb, nat_eq, str_le, if◌then◌else◌, leb→le, le→leb,
  nat_eq_iff, &&_iff, Bool-cases, Option-cases, concat, has_text, join, length, take, drop,
  length-append, take-append-drop, length-take, select, All, all, any, contains, IsUnique, count,
  count-append, contains-append, contains→count, count→contains, length-map, Has, Zip, All-map,
  All-intro, map-cong, All-Has, Has-map, length-select-cons, length-select, Has-select, Has-last,
  Has→contains, append-eq-nil, place, sort, length-sort, sorted, count-sort, count-sorted,
  length-sorted, place-perm, sort-perm, IsChain, IsSorted, sort-IsChain, sort-IsSorted, All-sort,
  Has-sort, Dict, lookup, insert, update, keys, lookup-insert, lookup-update, pos_part, is_nonpos,
  neg_part, sub_ℕ, ◌+ℤ◌, leb_ℤ, ℤ, pos, negsuc,
}
use murmur_ai_harness.Core.Judge.{Fraction}
use murmur_ai_harness.Core.Types.{TrajectoryResult, passed, failed, error}

-- `comb` of Python's math, by Pascal's rule.
unfoldable pub comb : ℕ → ℕ → ℕ
comb n zero = 1
comb zero (suc k) = 0
comb (suc n) (suc k) = comb n k + comb n (suc k)

-- a ** k
unfoldable pub power : ℕ → ℕ → ℕ
power a zero = 1
power a (suc k) = a * power a k

abbrev pub no_rate : Fraction
no_rate = record { num = 0; den = 1 }

-- `pass_at_1`
unfoldable pub pass_at_1 : ℕ → ℕ → Fraction
pass_at_1 successes zero = no_rate
pass_at_1 successes (suc n) = record { num = successes; den = suc n }

-- `pass_hat_k_parametric`
unfoldable pub pass_hat_k_parametric : ℕ → ℕ → ℕ → Fraction
unfolding power
pass_hat_k_parametric successes zero k = no_rate
pass_hat_k_parametric successes (suc n) k = record {
  num = power successes k;
  den = power (suc n) k;
}

-- `pass_hat_k_unbiased`
unfoldable pub pass_hat_k_unbiased : ℕ → ℕ → ℕ → Fraction
unfolding comb
pass_hat_k_unbiased successes total k =
    if ltb successes k || ltb total k || nat_eq total 0
    then no_rate
    else record { num = comb successes k; den = comb total k }

-- `ReliabilityCurvePoint`
pub record ReliabilityCurvePoint : Type 0 where
  pub k : ℕ
  pub projected : Fraction
  pub empirical : Fraction

-- range(start, start + count)
unfoldable pub range : ℕ → ℕ → List ℕ
range start zero = []
range start (suc count) = start ∷ range (start + 1) count

unfoldable pub curve_point : ℕ → ℕ → ℕ → ReliabilityCurvePoint
unfolding pass_hat_k_parametric pass_hat_k_unbiased
curve_point successes total horizon = record {
  k = horizon;
  projected = pass_hat_k_parametric successes total horizon;
  empirical = pass_hat_k_unbiased successes total horizon;
}

-- `reliability_curve`
unfoldable pub reliability_curve : ℕ → ℕ → List ReliabilityCurvePoint
unfolding curve_point range
reliability_curve successes total = map (curve_point successes total) (range 1 total)

-- trajectory.outcome == "pass"
abbrev pub is_pass : TrajectoryResult → Bool
is_pass t = elim t.outcome [ passed ↦ true | failed ↦ false | error ↦ false ]

-- How many trajectories passed.
unfoldable pub passes_of : List TrajectoryResult → ℕ
unfolding select
passes_of trajectories = length (select is_pass trajectories)

-- The rates that `reliability_metrics` reports.
pub record ReliabilityRates : Type 0 where
  pub at_1 : Fraction
  pub at_k : Fraction
  pub horizon : ℕ
  pub at_k_unbiased : Fraction
  pub curve : List ReliabilityCurvePoint

abbrev pub horizon_of : Option ℕ → ℕ → ℕ
horizon_of none total = total
horizon_of (some k) total = k

-- `reliability_metrics`, as far as it counts the passes.
unfoldable pub reliability_metrics : List TrajectoryResult → Option ℕ → ReliabilityRates
unfolding pass_at_1 pass_hat_k_parametric pass_hat_k_unbiased reliability_curve passes_of
reliability_metrics trajectories k =
    let total = length trajectories in
    let passes = passes_of trajectories in
    let horizon = horizon_of k total in
    record {
      at_1 = pass_at_1 passes total;
      at_k = pass_hat_k_parametric passes total horizon;
      horizon = horizon;
      at_k_unbiased = pass_hat_k_unbiased passes total horizon;
      curve = reliability_curve passes total;
    }
