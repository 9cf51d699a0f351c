-- ===== src/Contract/Policy/Safety.antt =====
-- What the policy lets through.
use murmur_ai_harness.Prelude.{
  String, ◌≡◌, refl, ◌↔◌, Bool, true, false, not, ◌||◌, List, arith, ◌==◌, eq_iff, if◌then◌else◌,
  has_text, any, contains, leb_ℤ,
}
use package.text.Mathlib.Text.{starts_with}
use murmur_ai_harness.Contract.{Contract}
use murmur_ai_harness.Contract.Policy.{
  PolicyDecision, BudgetState, ToolRequest, Matching, allowed, budget_decision, matches, slashed,
  without_slashes, file_decision, blocked, allowed_prefixes, explicit, shell_decision, evaluate,
}

-- The path that the patterns are matched with.
abbrev pub clean_path : String → String
clean_path path = without_slashes (slashed path)

pub record IsWithinBudget (c : Contract) (b : BudgetState) : Type 0 where
  pub cost : leb_ℤ b.cost_usd c.max_cost_usd ≡ true
  pub models : leb_ℤ b.model_calls c.max_model_calls ≡ true
  pub tools : leb_ℤ c.max_tool_calls b.tool_calls ≡ false
  pub runtime : leb_ℤ b.runtime_seconds c.max_runtime_seconds ≡ true

-- The command holds none of the blocked texts; it is one of the contract's own, or starts like a
-- test run.
abbrev pub IsSafeCommand : Matching → Contract → String → Type 0
IsSafeCommand py c command =
    (any (λ item. has_text item (py.lower (py.strip command))) blocked ≡ false)
    × ((contains (explicit c) (py.strip command)
          || any (starts_with (py.lower (py.strip command))) allowed_prefixes)
        ≡ true)

abbrev pub IsOpenFile : Matching → (denied permitted : List String) → String → Type 0
IsOpenFile py denied permitted path =
    (matches py (clean_path path) denied ≡ false) × (matches py (clean_path path) permitted ≡ true)

-- A request that the contract permits.
pub record IsPermitted (py : Matching) (c : Contract) (b : BudgetState) (r : ToolRequest)
    : Type 0 where
  pub budget : IsWithinBudget c b
  pub undenied : contains c.deny_tools r.tool_name ≡ false
  pub listed : contains c.allow_tools r.tool_name ≡ true
  pub file : r.tool_name ≡ "read_file" → IsOpenFile py c.deny_read c.allow_read r.path
  pub command : r.tool_name ≡ "run_test" → IsSafeCommand py c r.command

allowed_if :
    (t : Bool) (x y : PolicyDecision)
    → allowed (if t then x else y) ≡ (if t then allowed x else allowed y)
allowed_if true x y = refl
allowed_if false x y = refl

budget_tests :
    (a b c d : Bool)
    → ((if not a
          then false
          else if not b
          then false
          else if c
          then false
          else if not d
          then false
          else true)
        ≡ true)
      ↔ ((a ≡ true) × (b ≡ true) × (c ≡ false) × (d ≡ true))
budget_tests a b c d = ground arith

budget_iff :
    (c : Contract) (b : BudgetState) → (allowed (budget_decision c b) ≡ true) ↔ IsWithinBudget c b
unfolding budget_decision
budget_iff c b =
    let t =
      budget_tests (leb_ℤ b.cost_usd c.max_cost_usd) (leb_ℤ b.model_calls c.max_model_calls)
        (leb_ℤ c.max_tool_calls b.tool_calls) (leb_ℤ b.runtime_seconds c.max_runtime_seconds) in
    simp allowed_if (
      λ h.
          let (cost, models, tools, runtime) = t.0 h in
          record { cost = cost; models = models; tools = tools; runtime = runtime },
      λ w. t.1 (w.cost, w.models, w.tools, w.runtime),
    )

file_tests :
    (d a : Bool)
    → ((if d then false else if a then true else false) ≡ true) ↔ ((d ≡ false) × (a ≡ true))
file_tests d a = ground arith

read_iff :
    (py : Matching) (c : Contract) (path : String)
    → (allowed (file_decision py c path false) ≡ true) ↔ IsOpenFile py c.deny_read c.allow_read path
unfolding file_decision
read_iff py c path = simp allowed_if (
    file_tests (matches py (clean_path path) c.deny_read)
      (matches py (clean_path path) c.allow_read))

shell_iff :
    (py : Matching) (c : Contract) (command : String)
    → (allowed (shell_decision py c command) ≡ true) ↔ IsSafeCommand py c command
unfolding shell_decision
shell_iff py c command = simp allowed_if (file_tests _ _)

evaluate_tests :
    (budget denied listed read patch test file shell : Bool)
    → ((if not budget
          then budget
          else if denied
          then false
          else if not listed
          then false
          else if read
          then file
          else if patch
          then true
          else if test
          then shell
          else true)
        ≡ true)
      ↔ ((budget ≡ true)
          × (denied ≡ false)
          × (listed ≡ true)
          × (read ≡ true → file ≡ true)
          × (read ≡ false → patch ≡ false → test ≡ true → shell ≡ true))
evaluate_tests budget denied listed read patch test file shell = ground arith

-- The chain of tests, over any decisions.
evaluate_chain :
    (denied listed read patch test : Bool) (budget d₁ d₂ file a₁ shell a₂ : PolicyDecision)
    → allowed d₁ ≡ false
    → allowed d₂ ≡ false
    → allowed a₁ ≡ true
    → allowed a₂ ≡ true
    → (allowed (
          if not (allowed budget)
          then budget
          else if denied
          then d₁
          else if not listed
          then d₂
          else if read
          then file
          else if patch
          then a₁
          else if test
          then shell
          else a₂)
        ≡ true)
      ↔ ((allowed budget ≡ true)
          × (denied ≡ false)
          × (listed ≡ true)
          × (read ≡ true → allowed file ≡ true)
          × (read ≡ false → patch ≡ false → test ≡ true → allowed shell ≡ true))
evaluate_chain denied listed read patch test budget d₁ d₂ file a₁ shell a₂ n₁ n₂ y₁ y₂ =
    simp allowed_if (
      rw (n₁, n₂, y₁, y₂)
        (evaluate_tests (allowed budget) denied listed read patch test (allowed file)
          (allowed shell)))

-- The policy allows exactly the requests that the contract permits: the budget is not used up, the
-- tool is listed and not denied, a file to read is matched by no denying pattern and by an
-- allowing one, and a test command holds no blocked text and is known.
pub evaluate_iff :
    (py : Matching) (c : Contract) (b : BudgetState) (r : ToolRequest)
    → (allowed (evaluate py c b r) ≡ true) ↔ IsPermitted py c b r
unfolding evaluate
evaluate_iff py c b r =
    let t =
      evaluate_chain (contains c.deny_tools r.tool_name) (contains c.allow_tools r.tool_name)
        (r.tool_name == "read_file") (r.tool_name == "apply_patch") (r.tool_name == "run_test")
        (budget_decision c b) _ _ (file_decision py c r.path false) _
        (shell_decision py c r.command) _ refl refl refl refl in
    (
      λ h.
          let (within, undenied, listed, file, command) = t.0 h in
          record {
            budget = (budget_iff c b).0 within;
            undenied = undenied;
            listed = listed;
            file = λ e. (read_iff py c r.path).0 (file ((eq_iff r.tool_name "read_file").1 e));
            command = λ e.
                (shell_iff py c r.command).0
                  (command (rw e refl) (rw e refl) ((eq_iff r.tool_name "run_test").1 e));
          },
      λ p. t.1 (
        (budget_iff c b).1 p.budget,
        p.undenied,
        p.listed,
        λ e. (read_iff py c r.path).1 (p.file ((eq_iff r.tool_name "read_file").0 e)),
        λ _ _ e. (shell_iff py c r.command).1 (p.command ((eq_iff r.tool_name "run_test").0 e)),
      ),
    )
