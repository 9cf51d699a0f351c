-- ===== src/Core/Acceptance.antt =====
-- murmur/core/acceptance.py: the diagnostics of an output.
use murmur_ai_harness.Prelude.{
  String, Bool, true, false, ◌||◌, Option, none, some, List, [], ◌∷◌, ◌++◌, map, ◌==◌,
  if◌then◌else◌, concat, has_text, join,
}
use murmur_ai_harness.Core.Events.{ContractDiagnostic}
use murmur_ai_harness.Core.Types.{TaskSpec}

-- What the check takes from Python: `str.lower`, `str.strip`, and whether the regular expression
-- `<!doctype\s+html|<html\b` is found.
pub record Text : Type 0 where
  pub lower : String → String
  pub strip : String → String
  pub has_document : String → Bool

abbrev pub hard_website_acceptance : String
hard_website_acceptance = "hard_website_v1"

-- `_diagnostic`
abbrev pub diagnostic : (predicate_id message evidence repair_hint : String) → ContractDiagnostic
diagnostic id message evidence hint = record {
  predicate_id = id;
  severity = "error";
  message = message;
  evidence = evidence;
  repair_hint = hint;
}

-- if not ok: diagnostics.append(…)
abbrev pub unless : Bool → ContractDiagnostic → List ContractDiagnostic
unless true d = []
unless false d = d ∷ []

abbrev pub diagnostics_of : Text → String → List ContractDiagnostic
diagnostics_of py text =
    unless (has_text "murmur" text) (
      diagnostic "missing_brand_murmur" "The artifact does not contain the product name."
        "searched for the word 'murmur'" "Include the product name in visible page copy.")
    ++ unless (py.has_document text) (
        diagnostic "missing_html_document" "The artifact does not look like an HTML document."
          "no doctype or <html> tag found" "Provide a complete semantic HTML document.")
    ++ unless (has_text "id=\"metrics\"" text || has_text "id='metrics'" text) (
        diagnostic "missing_dom_id_metrics" "The metrics element is missing the required id."
          "no id=\"metrics\" or id='metrics' attribute found"
          "Add a metrics element with the required id.")
    ++ unless (has_text "pass@1" text) (
        diagnostic "missing_metric_pass_at_1" "The metrics strip is missing pass@1."
          "searched for literal pass@1"
          "Include the single-run pass-rate metric required by the task.")
    ++ unless (has_text "pass^" text) (
        diagnostic "missing_metric_pass_hat_k"
          "The metrics strip is missing the pass-horizon notation." "searched for a pass^ metric"
          "Use the task's pass-horizon notation in the metrics strip.")
    ++ unless (has_text "variance" text) (
        diagnostic "missing_metric_variance" "The metrics strip is missing variance."
          "searched for literal variance" "Include a variance metric in the metrics strip.")
    ++ unless (has_text "e8192a" text) (
        diagnostic "missing_accent_red" "The required accent color is missing."
          "searched for hex color e8192a" "Use the specified accent color in the page styles.")
    ++ unless (has_text "<html" text) (
        diagnostic "missing_html_root" "The HTML root element is missing." "no <html> tag found"
          "Wrap the page in an html root element.")
    ++ unless (has_text "styles.css" text || has_text "<style" text) (
        diagnostic "missing_css" "No linked or embedded CSS was found."
          "no styles.css link or <style> block found"
          "Provide the required stylesheet or embedded CSS.")

-- `hard_website_diagnostics`
unfoldable pub hard_website_diagnostics : Text → String → List ContractDiagnostic
hard_website_diagnostics py output = diagnostics_of py (py.lower output)

abbrev pub mismatch : ContractDiagnostic
mismatch =
    diagnostic "expected_output_mismatch" "Output did not match the deterministic expected output."
      "normalized string comparison failed" "Return the exact output required by the task contract."

abbrev pub by_acceptance : Text → Option String → String → List ContractDiagnostic
by_acceptance py none output = []
by_acceptance py (some acceptance) output =
    if acceptance == hard_website_acceptance then hard_website_diagnostics py output else []

abbrev pub by_output : Text → Option String → Option String → String → List ContractDiagnostic
by_output py (some expected) acceptance output =
    if py.strip output == py.strip expected then [] else mismatch ∷ []
by_output py none acceptance output = by_acceptance py acceptance output

-- `task_diagnostics`
unfoldable pub task_diagnostics : Text → TaskSpec → String → List ContractDiagnostic
unfolding hard_website_diagnostics
task_diagnostics py task output = by_output py task.expected_output task.acceptance output

abbrev pub is_empty {ℓ} : {A : Type ℓ} → List A → Bool
is_empty [] = true
is_empty (x ∷ xs) = false

-- `task_accepts`
unfoldable pub task_accepts : Text → TaskSpec → String → Bool
unfolding task_diagnostics
task_accepts py task output = is_empty (task_diagnostics py task output)

abbrev pub or_else : String → String → String
or_else a b = if a == "" then b else a

-- `repair_feedback`
unfoldable pub repair_feedback : List ContractDiagnostic → String
unfolding join concat
repair_feedback [] = "No contract diagnostics."
repair_feedback (d ∷ ds) = join "\n" (
    map
      (λ (x : ContractDiagnostic).
        concat ("- " ∷ x.predicate_id ∷ ": " ∷ or_else x.repair_hint x.message ∷ []))
      (d ∷ ds))
