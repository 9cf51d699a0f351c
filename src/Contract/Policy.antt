-- ===== src/Contract/Policy.antt =====
-- murmur/domain/policy.py: `PolicyEngine`.
pub mod Safety
use murmur_ai_harness.Prelude.{
  ℕ, zero, suc, ◌+◌, ◌-◌, ◌*◌, ◌/◌, ◌%◌, ◌≤◌, ◌<◌, min, max, String, ◌≡◌, refl, sym, ap, ◌∙◌, ◌≢◌,
  ◌↔◌, ◌⊎◌, inl, inr, Bool, true, false, not, ◌&&◌, ◌||◌, Option, none, some, List, [], ◌∷◌, ◌++◌,
  map, arith, ◌==◌, eq_iff, eq_refl, ltb, leb, nat_eq, str_le, if◌then◌else◌, leb→le, le→leb,
  nat_eq_iff, &&_iff, Bool-cases, Option-cases, concat, has_text, join, length, take, drop,
  length-append, take-append-drop, length-take, select, All, all, any, contains, IsUnique, count,
  count-append, contains-append, contains→count, count→contains, length-map, Has, Zip, All-map,
  All-intro, map-cong, All-Has, Has-map, length-select-cons, length-select, Has-select, Has-last,
  Has→contains, append-eq-nil, place, sort, length-sort, sorted, count-sort, count-sorted,
  length-sorted, place-perm, sort-perm, IsSorted, sort-IsSorted, All-sort, Has-sort, Dict, lookup,
  insert, update, keys, lookup-insert, lookup-update, pos_part, is_nonpos, neg_part, sub_ℕ, ◌+ℤ◌,
  leb_ℤ, ℤ, pos, negsuc,
}
use Prim.Native.String
use Prim.Native.Char.{code}
use package.text.Mathlib.Text.{starts_with}
use murmur_ai_harness.Contract.{Contract, ltb_ℤ}

pub data Decision : Type 0 where
  allow deny ask_human escalate : Decision

pub record PolicyDecision : Type 0 where
  pub decision : Decision
  pub rule_id : String
  pub reason : String

pub record BudgetState : Type 0 where
  pub cost_usd : ℤ
  pub model_calls : ℤ
  pub tool_calls : ℤ
  pub runtime_seconds : ℤ

-- A request, with the two arguments that the policy reads, `""` where they are missing.
pub record ToolRequest : Type 0 where
  pub tool_name : String
  pub path : String
  pub command : String

-- What the policy takes from Python: `fnmatch.fnmatch`, `str.strip`, `str.lower`, and `repr`.
pub record Matching : Type 0 where
  pub fnmatch : String → String → Bool
  pub strip : String → String
  pub lower : String → String
  pub quoted : String → String

abbrev pub allowed : PolicyDecision → Bool
allowed d = elim d.decision [ allow ↦ true | _ ↦ false ]

abbrev pub decide : Decision → String → String → PolicyDecision
decide d rule reason = record { decision = d; rule_id = rule; reason = reason }

unfoldable pub budget_decision : Contract → BudgetState → PolicyDecision
budget_decision c b =
    if ltb_ℤ c.max_cost_usd b.cost_usd
    then decide deny "budget_exceeded" "max cost exceeded"
    else if ltb_ℤ c.max_model_calls b.model_calls
    then decide deny "budget_exceeded" "max model calls exceeded"
    else if leb_ℤ c.max_tool_calls b.tool_calls
    then decide deny "budget_exceeded" "max tool calls exceeded"
    else if ltb_ℤ c.max_runtime_seconds b.runtime_seconds
    then decide deny "budget_exceeded" "max runtime exceeded"
    else decide allow "budget_ok" "budget remains available"

abbrev pub drop_chars : ℕ → String → String
drop_chars zero s = s
drop_chars (suc n) String.[] = ""
drop_chars (suc n) (String.◌∷◌ c s) = drop_chars n s

-- `_matches`, for one pattern
abbrev pub matches_one : Matching → String → String → Bool
matches_one py path pattern =
    py.fnmatch path pattern
    || py.fnmatch path (concat ("**/" ∷ pattern ∷ []))
    || starts_with pattern "**/" && py.fnmatch path (drop_chars 3 pattern)

unfoldable pub matches : Matching → String → List String → Bool
unfolding any concat
matches py path patterns = any (matches_one py path) patterns

-- path.replace("\\", "/")
unfoldable pub slashed : String → String
slashed String.[] = ""
slashed (String.◌∷◌ c s) =
    if nat_eq (code c) 92 then String.◌++◌ "/" (slashed s) else String.◌∷◌ c (slashed s)

-- path.lstrip("/")
unfoldable pub without_slashes : String → String
without_slashes String.[] = ""
without_slashes (String.◌∷◌ c s) =
    let rest = without_slashes s in if nat_eq (code c) 47 then rest else String.◌∷◌ c s

abbrev pub verb : Bool → String
verb true = "edit"
verb false = "read"

unfoldable pub file_decision : Matching → Contract → String → Bool → PolicyDecision
unfolding matches slashed without_slashes concat
file_decision py c path write =
    let clean = without_slashes (slashed path) in
    let denied = if write then c.deny_edit else c.deny_read in
    let permitted = if write then c.allow_edit else c.allow_read in
    if matches py clean denied
    then decide deny "file_denied" (concat (verb write ∷ " denied by file policy: " ∷ clean ∷ []))
    else if matches py clean permitted
    then decide allow "file_allowed"
        (concat (verb write ∷ " allowed by file policy: " ∷ clean ∷ []))
    else decide deny "file_not_allowed"
        (concat (verb write ∷ " not allowed by file policy: " ∷ clean ∷ []))

abbrev pub blocked : List String
blocked = "rm -rf" ∷ "curl " ∷ "wget " ∷ "git push" ∷ "pip install" ∷ "npm install" ∷ []

abbrev pub allowed_prefixes : List String
allowed_prefixes =
    "pytest" ∷ "python -m pytest" ∷ "python -m compileall" ∷ "npm test" ∷ "npm run test"
    ∷ "npm run typecheck" ∷ []

abbrev pub explicit : Contract → List String
explicit c = c.task_command ∷ c.related_tests ++ c.static_checks

unfoldable pub shell_decision : Matching → Contract → String → PolicyDecision
unfolding any contains concat
shell_decision py c command =
    let normalized = py.strip command in
    let lowered = py.lower normalized in
    if any (λ item. has_text item lowered) blocked
    then decide deny "shell_denied" (concat ("command is blocked: " ∷ normalized ∷ []))
    else if contains (explicit c) normalized || any (starts_with lowered) allowed_prefixes
    then decide allow "shell_allowed" (concat ("command allowed: " ∷ normalized ∷ []))
    else decide deny "shell_not_allowed" (concat ("command not allowed: " ∷ normalized ∷ []))

-- `PolicyEngine.evaluate`
unfoldable pub evaluate : Matching → Contract → BudgetState → ToolRequest → PolicyDecision
unfolding budget_decision file_decision shell_decision contains concat
evaluate py c b r =
    if not (allowed (budget_decision c b))
    then budget_decision c b
    else if contains c.deny_tools r.tool_name
    then decide deny "tool_denied" (concat ("tool " ∷ py.quoted r.tool_name ∷ " is denied" ∷ []))
    else if not (contains c.allow_tools r.tool_name)
    then decide deny "tool_not_allowed"
        (concat ("tool " ∷ py.quoted r.tool_name ∷ " is not in allow list" ∷ []))
    else if r.tool_name == "read_file"
    then file_decision py c r.path false
    else if r.tool_name == "apply_patch"
    then decide allow "tool_allowed" "patch text will be checked after apply"
    else if r.tool_name == "run_test"
    then shell_decision py c r.command
    else decide allow "tool_allowed" (concat ("tool " ∷ py.quoted r.tool_name ∷ " is allowed" ∷ []))

-- `PolicyEngine.check_changed_file`
unfoldable pub check_changed_file : Matching → Contract → String → PolicyDecision
unfolding file_decision
check_changed_file py c path = file_decision py c path true
