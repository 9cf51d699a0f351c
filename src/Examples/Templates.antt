-- ===== src/Examples/Templates.antt =====
-- The template with a source named like one of its nodes.
use murmur_ai_harness.Prelude.{◌≡◌, ◌↔◌, false, [], ◌∷◌, ◌==◌, is_nonpos, pos}
use murmur_ai_harness.Flock.Ir.{ok}
use murmur_ai_harness.Flock.Planner.{template_of, template_plan}
use murmur_ai_harness.Flock.Planner.Template.{template_plan_iff}

template_plan_iff_example :
    (template_plan "sum up" ("work" ∷ []) (pos 9) ≡ ok (template_of "sum up" "work" (pos 9))) ↔ (
      (is_nonpos (pos 9) ≡ false)
      × (("work" == "work") ≡ false)
      × (("work" == "synthesize") ≡ false))
template_plan_iff_example = template_plan_iff "sum up" ("work" ∷ []) (pos 9)
