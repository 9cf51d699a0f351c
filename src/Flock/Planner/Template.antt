-- ===== src/Flock/Planner/Template.antt =====
-- When the template is a plan.
use murmur_ai_harness.Prelude.{
  ℕ, String, ◌≡◌, refl, ap, ◌↔◌, inl, inr, false, ◌||◌, List, arith, ◌==◌, eq_iff, eq_refl,
  if◌then◌else◌, Bool-cases, contains, is_nonpos, ℤ,
}
use murmur_ai_harness.Flock.Ir.{WorkflowPlan, Result, ok, err, ◌>>=◌}
use murmur_ai_harness.Flock.Ir.Edges.{inputs_of}
use murmur_ai_harness.Flock.Validation.{validate_plan}
use murmur_ai_harness.Flock.Validation.Exact.{IsValid, validate_plan_iff}
use murmur_ai_harness.Flock.Planner.{first_source, template_of, template_plan}

abbrev rank_of : String → ℕ
rank_of id = if id == "synthesize" then 1 else 0

template_IsValid :
    (task source : String) (budget : ℤ)
    → is_nonpos budget ≡ false
    → (source == "work") ≡ false
    → (source == "synthesize") ≡ false
    → IsValid (template_of task source budget)
unfolding template_of contains inputs_of
template_IsValid task source budget b w s = record {
  budget = b;
  some_node = refl;
  named = (refl, (refl, tt));
  unique = (refl, (refl, tt));
  well_formed = (
    record {
      op = refl;
      effort = refl;
      trust = refl;
      inputs = ((w, ground (arith, eq_refl source)), tt);
    },
    (record { op = refl; effort = refl; trust = refl; inputs = ((refl, refl), tt) }, tt),
  );
  acyclic = (
    rank_of,
    λ d x (known, edge, node). ground (
      arith,
      w,
      s,
      eq_iff "work" x,
      eq_iff "synthesize" x,
      eq_iff x "synthesize",
      eq_iff "work" d,
      eq_iff "synthesize" d,
      eq_iff d "synthesize",
      eq_iff source d,
      eq_iff source "work",
      eq_iff source "synthesize",
      eq_iff "work" "synthesize",
    ),
  );
  clean = ((λ t e. cc, (λ t e. cc, tt)), ((λ t e. cc, (λ t e. cc, tt)), tt));
}

IsValid-template :
    (task source : String) (budget : ℤ)
    → IsValid (template_of task source budget)
    → (is_nonpos budget ≡ false) × ((source == "work") ≡ false) × ((source == "synthesize") ≡ false)
unfolding template_of contains inputs_of
IsValid-template task source budget v = (
  v.budget,
  v.well_formed.0.inputs.0.0,
  elim (Bool-cases (source == "synthesize")) [
    | inl e ↦
        let (rank, ranked) = v.acyclic in
        let up = ranked "work" "synthesize" (refl, refl, refl) in
        let down = ranked "synthesize" "work" (refl, ap (λ b. b || false) e, refl) in
        let no : ⊥ = omega arith in elim no [ ]
    | inr e ↦ e
  ],
)

-- The template is returned, and valid, exactly if the budget is positive and the first source is not
-- named like one of the two nodes.
pub template_plan_iff :
    (task : String) (sources : List String) (budget : ℤ)
    → (template_plan task sources budget ≡ ok (template_of task (first_source sources) budget)) ↔ (
        (is_nonpos budget ≡ false)
        × ((first_source sources == "work") ≡ false)
        × ((first_source sources == "synthesize") ≡ false))
unfolding template_plan
template_plan_iff task sources budget =
    let plan = template_of task (first_source sources) budget in
    let valid = validate_plan_iff plan in
    (
      λ h.
          IsValid-template task (first_source sources) budget
            (valid.0 (passed (validate_plan plan) plan h)),
      λ (b, w, s).
          ap (λ (r : Result (Unit {0})). r >>= (λ _. ok plan))
            (valid.1 (template_IsValid task (first_source sources) budget b w s)),
    )
  where
    passed :
        (r : Result (Unit {0})) (plan : WorkflowPlan) → (r >>= (λ _. ok plan)) ≡ ok plan → r ≡ ok tt
    passed (ok u) plan h = refl
    passed (err e) plan h = cc
