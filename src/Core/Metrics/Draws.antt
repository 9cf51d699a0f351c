-- ===== src/Core/Metrics/Draws.antt =====
-- The empirical estimate of pass^k: of all ways to draw k of the trajectories, the share of those in
-- which every trajectory passed.
use murmur_ai_harness.Prelude.{
  ℕ, zero, suc, ◌+◌, ◌*◌, ◌≤◌, ◌<◌, ◌≡◌, refl, sym, ap, ◌∙◌, inl, inr, Bool, true, false, ◌||◌,
  Option, List, [], ◌∷◌, ◌++◌, map, arith, ltb, nat_eq, Bool-cases, length, length-append, select,
  All, all, count, length-map, length-select-cons, length-select,
}
use murmur_ai_harness.Core.Judge.{Fraction}
use murmur_ai_harness.Core.Types.{TrajectoryResult}
use murmur_ai_harness.Core.Metrics.{
  comb, pass_at_1, pass_hat_k_unbiased, ReliabilityCurvePoint, range, curve_point,
  reliability_curve, is_pass, passes_of, reliability_metrics, horizon_of,
}

-- All ways to draw a number of elements, in their order.
unfoldable pub draws : ℕ → List TrajectoryResult → List (List TrajectoryResult)
draws zero ts = [] ∷ []
draws (suc k) [] = []
draws (suc k) (t ∷ ts) = map (λ d. t ∷ d) (draws k ts) ++ draws (suc k) ts

-- The draws in which every trajectory passed.
abbrev pub passing : ℕ → List TrajectoryResult → List (List TrajectoryResult)
passing k ts = select (all is_pass) (draws k ts)

-- The fraction is the share of the passing draws among all.
abbrev pub IsShare : ℕ → List TrajectoryResult → Fraction → Type 0
IsShare k ts f = f.num * length (draws k ts) ≡ length (passing k ts) * f.den

length-draws : (k : ℕ) (ts : List TrajectoryResult) → length (draws k ts) ≡ comb (length ts) k
unfolding draws comb
length-draws zero [] = refl
length-draws zero (t ∷ ts) = refl
length-draws (suc k) [] = refl
length-draws (suc k) (t ∷ ts) = ground (
  arith,
  length-append (map (λ d. t ∷ d) (draws k ts)) (draws (suc k) ts),
  length-map (draws k ts) (λ d. t ∷ d),
  length-draws k ts,
  length-draws (suc k) ts,
)

select-append :
    (p : List TrajectoryResult → Bool) (xs ys : List (List TrajectoryResult))
    → length (select p (xs ++ ys)) ≡ length (select p xs) + length (select p ys)
unfolding select
select-append p [] ys = omega arith
select-append p (x ∷ xs) ys =
    ground
      (arith, select-append p xs ys, length-select-cons p x xs, length-select-cons p x (xs ++ ys))

select-passed :
    (t : TrajectoryResult) (ds : List (List TrajectoryResult))
    → is_pass t ≡ true
    → length (select (all is_pass) (map (λ d. t ∷ d) ds)) ≡ length (select (all is_pass) ds)
unfolding select all
select-passed t [] e = refl
select-passed t (d ∷ ds) e = rw e (ground (arith, select-passed t ds e))

select-not_passed :
    (t : TrajectoryResult) (ds : List (List TrajectoryResult))
    → is_pass t ≡ false
    → length (select (all is_pass) (map (λ d. t ∷ d) ds)) ≡ 0
unfolding select all
select-not_passed t [] e = refl
select-not_passed t (d ∷ ds) e = rw e (select-not_passed t ds e)

-- The passing draws are the draws of the trajectories that passed.
length-passing :
    (k : ℕ) (ts : List TrajectoryResult) → length (passing k ts) ≡ comb (passes_of ts) k
unfolding draws comb passes_of select all
length-passing zero [] = refl
length-passing zero (t ∷ ts) = refl
length-passing (suc k) [] = refl
length-passing (suc k) (t ∷ ts) = elim (Bool-cases (is_pass t)) [
  | inl e ↦ rw e (
      ground (
        arith,
        select-append (all is_pass) (map (λ d. t ∷ d) (draws k ts)) (draws (suc k) ts),
        select-passed t (draws k ts) e,
        length-passing k ts,
        length-passing (suc k) ts,
      ))
  | inr e ↦ rw e (
      ground (
        arith,
        select-append (all is_pass) (map (λ d. t ∷ d) (draws k ts)) (draws (suc k) ts),
        select-not_passed t (draws k ts) e,
        length-passing (suc k) ts,
      ))
]

comb-nothing : (n k : ℕ) → n < k → comb n k ≡ 0
unfolding comb
comb-nothing n zero lt = let no : ⊥ = omega arith in elim no [ ]
comb-nothing zero (suc k) lt = refl
comb-nothing (suc n) (suc k) lt = ground (arith, comb-nothing n k, comb-nothing n (suc k))

below :
    (successes total k : ℕ)
    → (ltb successes k || ltb total k || nat_eq total 0) ≡ true
    → successes ≤ total
    → 0 < k
    → successes < k
below successes total k test le lt = ground arith

-- The estimate against numbers of draws.
unbiased-shares :
    (successes total k a b : ℕ) (test : Bool)
    → (ltb successes k || ltb total k || nat_eq total 0) ≡ test
    → successes ≤ total
    → 0 < k
    → a ≡ comb total k
    → b ≡ comb successes k
    → (pass_hat_k_unbiased successes total k).num * a
      ≡ b * (pass_hat_k_unbiased successes total k).den
unfolding pass_hat_k_unbiased
unbiased-shares successes total k a b true test le lt ea eb =
    let few = comb-nothing successes k (below successes total k test le lt) in
    rw test (ground (arith, few, eb))
unbiased-shares successes total k a b false test le lt ea eb =
    rw test (ap (λ x. comb successes k * x) ea ∙ ap (λ x. x * comb total k) (sym eb))

unbiased-IsShare :
    (k : ℕ) (ts : List TrajectoryResult)
    → 0 < k
    → IsShare k ts (pass_hat_k_unbiased (passes_of ts) (length ts) k)
unfolding passes_of
unbiased-IsShare k ts lt =
    unbiased-shares (passes_of ts) (length ts) k (length (draws k ts)) (length (passing k ts)) _
      refl (length-select is_pass ts) lt (length-draws k ts) (length-passing k ts)

comb-one : (n : ℕ) → comb n 1 ≡ n
unfolding comb
comb-one zero = refl
comb-one (suc n) = ground (arith, comb-one n)

one-IsShare : (ts : List TrajectoryResult) → IsShare 1 ts (pass_at_1 (passes_of ts) (length ts))
unfolding pass_at_1 select draws
one-IsShare [] = refl
one-IsShare (t ∷ ts) = ground (
  arith,
  length-draws 1 (t ∷ ts),
  length-passing 1 (t ∷ ts),
  comb-one (suc (length ts)),
  comb-one (passes_of (t ∷ ts)),
)

abbrev pub IsPoint : List TrajectoryResult → ReliabilityCurvePoint → Type 0
IsPoint ts p = IsShare p.k ts p.empirical

points-IsPoint :
    (ts : List TrajectoryResult) (start count : ℕ)
    → 0 < start
    → All (IsPoint ts) (map (curve_point (passes_of ts) (length ts)) (range start count))
unfolding curve_point range
points-IsPoint ts start zero lt = tt
points-IsPoint ts start (suc count) lt =
    (unbiased-IsShare start ts lt, points-IsPoint ts (start + 1) count (omega arith))

abbrev pub horizons : List ReliabilityCurvePoint → List ℕ
horizons points = map (λ (p : ReliabilityCurvePoint). p.k) points

horizons-points :
    (successes total : ℕ) (ks : List ℕ) → horizons (map (curve_point successes total) ks) ≡ ks
unfolding curve_point
horizons-points successes total [] = refl
horizons-points successes total (k ∷ ks) = ap (λ l. k ∷ l) (horizons-points successes total ks)

-- For a horizon above zero: pass@1 is the share of passing trajectories, and the empirical pass^k is
-- the share, among all ways to draw as many trajectories as the horizon says, of those in which every
-- one passed. The curve has a point for each horizon from 1 to the number of trajectories, in this
-- order, each with such a share.
pub reliability_metrics-IsShare :
    (ts : List TrajectoryResult) (k : Option ℕ)
    → 0 < horizon_of k (length ts)
    → IsShare 1 ts (reliability_metrics ts k).at_1
      × IsShare (horizon_of k (length ts)) ts (reliability_metrics ts k).at_k_unbiased
      × (horizons (reliability_metrics ts k).curve ≡ range 1 (length ts))
      × All (IsPoint ts) (reliability_metrics ts k).curve
unfolding reliability_metrics reliability_curve
reliability_metrics-IsShare ts k lt = (
  one-IsShare ts,
  unbiased-IsShare (horizon_of k (length ts)) ts lt,
  horizons-points (passes_of ts) (length ts) (range 1 (length ts)),
  points-IsPoint ts 1 (length ts) (omega arith),
)
