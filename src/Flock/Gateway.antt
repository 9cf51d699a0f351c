-- ===== src/Flock/Gateway.antt =====
-- murmur/flock/gateway.py: the token budget, and the wrapper that meters each model call.
-- Costs are whole numbers of a fixed fraction of a dollar, so that sums are exact.
pub mod Accounts
pub mod Overshoot
use murmur_ai_harness.Prelude.{
  ℕ, zero, suc, ◌+◌, ◌-◌, ◌*◌, ◌/◌, ◌%◌, ◌≤◌, ◌<◌, min, max, String, ◌≡◌, refl, sym, ap, ◌∙◌, ◌≢◌,
  ◌↔◌, ◌⊎◌, inl, inr, Bool, true, false, not, ◌&&◌, ◌||◌, Option, none, some, List, [], ◌∷◌, ◌++◌,
  map, arith, ◌==◌, eq_iff, eq_refl, ltb, leb, nat_eq, str_le, if◌then◌else◌, leb→le, le→leb,
  nat_eq_iff, &&_iff, Bool-cases, Option-cases, concat, has_text, join, length, take, drop,
  length-append, take-append-drop, length-take, select, All, all, any, contains, IsUnique, count,
  count-append, contains-append, contains→count, count→contains, length-map, Has, Zip, All-map,
  All-intro, map-cong, All-Has, Has-map, length-select-cons, length-select, Has-select, Has-last,
  Has→contains, append-eq-nil, place, sort, length-sort, sorted, count-sort, count-sorted,
  length-sorted, place-perm, sort-perm, IsSorted, sort-IsSorted, All-sort, Has-sort, Dict, lookup,
  insert, update, keys, lookup-insert, lookup-update, pos_part, is_nonpos, neg_part, sub_ℕ, ◌+ℤ◌,
  leb_ℤ, ℤ, pos, negsuc,
}
use Prim.Native.String.{count as count_chars}

-- The exceptions of a run, by the class that is raised.
pub data Fault : Type 0 where
  budget_exceeded : (spent budget : ℕ) (estimated : ℤ) → Fault
  model_fault : String → Fault
  quarantine_violation : (id : String) → List String → Fault
  value_error key_error : String → Fault

pub data Outcome {ℓ} (A : Type ℓ) : Type ℓ where
  done : A → Outcome A
  raised : Fault → Outcome A

pub Outcome-cases {ℓ} :
    {A : Type ℓ} (o : Outcome A) → ((a : A) × (o ≡ done a)) ⊎ ((e : Fault) × (o ≡ raised e))
Outcome-cases (done a) = inl (a, refl)
Outcome-cases (raised e) = inr (e, refl)

pub record ModelReply : Type 0 where
  pub text : String
  pub input_tokens : ℤ
  pub output_tokens : ℤ
  pub cost_usd : ℤ
  pub model : String

pub record ModelCall : Type 0 where
  pub model : String
  pub effort : String
  pub input_tokens : ℤ
  pub output_tokens : ℤ
  pub cost_usd : ℤ
  pub node_id : String

pub record BudgetLedger : Type 0 where
  pub budget : ℕ
  pub spent_tokens : ℕ
  pub spent_cost : ℕ
  pub calls : ℕ

-- `BudgetLedger(budget_tokens=…)`, which refuses a budget that is not positive.
unfoldable pub new_ledger : ℤ → Outcome BudgetLedger
new_ledger budget_tokens =
    if is_nonpos budget_tokens
    then raised (value_error "budget_tokens must be > 0")
    else done
        (record { budget = pos_part budget_tokens; spent_tokens = 0; spent_cost = 0; calls = 0 })

unfoldable pub remaining_tokens : BudgetLedger → ℕ
remaining_tokens l = l.budget - l.spent_tokens

unfoldable pub reserve : ℤ → BudgetLedger → Outcome (Unit {0})
reserve estimated l =
    if ltb l.budget (l.spent_tokens + pos_part estimated)
    then raised (budget_exceeded l.spent_tokens l.budget estimated)
    else done tt

unfoldable pub debit : ℤ → ℤ → ℤ → BudgetLedger → BudgetLedger
debit input_tokens output_tokens cost_usd l = record {
  budget = l.budget;
  spent_tokens = l.spent_tokens + (pos_part input_tokens + pos_part output_tokens);
  spent_cost = l.spent_cost + pos_part cost_usd;
  calls = l.calls + 1;
}

-- `len` of a Python text counts its characters.
unfoldable pub estimate_tokens : String → ℕ
estimate_tokens text = max 1 (count_chars text / 4)

-- What one call hands to the model adapter.
pub record Request : Type 0 where
  pub model : String
  pub system : String
  pub user : String
  pub effort : String

-- A model adapter, asked for the n-th time: the world outside may answer each time otherwise.
abbrev pub Model : Type 0
Model = ℕ → Request → Outcome ModelReply

-- What the calls of a run share: the ledger, the call log, and how often a model was asked.
pub record Meter : Type 0 where
  pub ledger : BudgetLedger
  pub log : List ModelCall
  pub asked : ℕ

-- A method on a state that may raise; what was written before stays written.
abbrev pub Exec {ℓ} : Type 0 → Type ℓ → Type ℓ
Exec S A = S → Outcome A × S

module _ {S : Type 0} where
  infixl 5 ◌>>=◌ ◌>>◌
  abbrev pub and_then {ℓ κ} : {A : Type ℓ} {B : Type κ} → Outcome A → (A → Exec S B) → Exec S B
  and_then (done a) f m = f a m
  and_then (raised e) f m = (raised e, m)

  abbrev pub ◌>>=◌ {ℓ κ} : {A : Type ℓ} {B : Type κ} → Exec S A → (A → Exec S B) → Exec S B
  ◌>>=◌ x f m = let (r, m') = x m in and_then r f m'

  abbrev pub ◌>>◌ {ℓ} : {B : Type ℓ} → Exec S (Unit {0}) → Exec S B → Exec S B
  x >> y = x >>= λ _. y

  abbrev pub pure {ℓ} : {A : Type ℓ} → A → Exec S A
  pure a m = (done a, m)

  abbrev pub raise {ℓ} : {A : Type ℓ} → Fault → Exec S A
  raise e m = (raised e, m)

unfoldable pub reserve_call : ℤ → Exec Meter (Unit {0})
unfolding reserve
reserve_call estimated m = (reserve estimated m.ledger, m)

unfoldable pub ask : Model → Request → Exec Meter ModelReply
ask model r m = (model m.asked r, record m { asked = m.asked + 1 })

abbrev pub or_name : String → String → String
or_name a b = if a == "" then b else a

abbrev pub call_of : String → Request → ModelReply → ModelCall
call_of node_id r reply = record {
  model = or_name reply.model r.model;
  effort = r.effort;
  input_tokens = reply.input_tokens;
  output_tokens = reply.output_tokens;
  cost_usd = reply.cost_usd;
  node_id = node_id;
}

-- `debit`, and `on_call`, which is the `record` of the call log.
unfoldable pub settle : String → Request → ModelReply → Exec Meter (Unit {0})
unfolding debit
settle node_id r reply m = (
  done tt,
  record m {
    ledger = debit reply.input_tokens reply.output_tokens reply.cost_usd m.ledger;
    log = m.log ++ call_of node_id r reply ∷ [];
  },
)

-- `MeteredModel.complete`, for the node that the wrapper is tagged with.
unfoldable pub complete : Model → String → Request → Exec Meter ModelReply
unfolding reserve_call ask settle
complete model node_id r = do
  reserve_call (pos (estimate_tokens r.system + estimate_tokens r.user))
  reply ← ask model r
  settle node_id r reply
  pure reply

-- `CallLog.total_tokens`
unfoldable pub total_tokens : List ModelCall → ℤ
total_tokens [] = pos 0
total_tokens (c ∷ cs) = (c.input_tokens +ℤ c.output_tokens) +ℤ total_tokens cs

pub done_inj {ℓ} : {A : Type ℓ} {a b : A} → done a ≡ done b → a ≡ b
done_inj h = cc
