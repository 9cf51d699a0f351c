-- ===== src/Flock/Gateway/Overshoot.antt =====
-- How far the spending can pass the budget: `reserve` admits a call on an estimate of its prompt,
-- and the real usage is debited after the reply.
use murmur_ai_harness.Prelude.{
  ℕ, suc, ◌+◌, ◌*◌, ◌≤◌, ◌<◌, String, ◌≡◌, refl, ap, ◌∙◌, List, [], ◌∷◌, ◌++◌, arith, length,
  length-append, pos,
}
use native.Mathlib.Nat.{mul-le-mul_right}
use murmur_ai_harness.Flock.Gateway.{
  Fault, budget_exceeded, Outcome, done, raised, ModelReply, BudgetLedger, reserve,
  remaining_tokens, estimate_tokens, Request, Model, Meter, settle, complete,
}
use murmur_ai_harness.Flock.Gateway.Accounts.{billed, complete_cases, complete_all}

-- No call uses more than `most` tokens.
abbrev pub UsesAtMost : ℕ → Model → Type 0
UsesAtMost most model =
    (n : ℕ) (r : Request) (reply : ModelReply)
    → model n r ≡ done reply
    → billed reply.input_tokens reply.output_tokens ≤ most

abbrev pub IsWithin : ℕ → Meter → Type 0
IsWithin most m = m.ledger.spent_tokens ≤ m.ledger.budget + most

-- What a refused call gives.
abbrev pub refusal : Request → Meter → Outcome ModelReply × Meter
refusal r m = (
  raised (
      budget_exceeded m.ledger.spent_tokens m.ledger.budget
        (pos (estimate_tokens r.system + estimate_tokens r.user))),
  m,
)

-- An exhausted budget stops the run: the call is refused, the model is not asked, and nothing
-- changes.
pub complete_exhausted :
    (model : Model) (node_id : String) (r : Request) (m : Meter)
    → m.ledger.budget ≤ m.ledger.spent_tokens
    → complete model node_id r m ≡ refusal r m
complete_exhausted model node_id r m full =
    complete_cases model node_id r m (λ out. out ≡ refusal r m) (λ _. refl)
      (λ e fits _. absurd (positive fits)) (λ reply fits _. absurd (positive fits))
  where
    positive :
        reserve (pos (estimate_tokens r.system + estimate_tokens r.user)) m.ledger ≡ done tt → ⊥
    positive fits = unfold reserve estimate_tokens in ground arith

-- One call passes the budget by at most its own usage.
complete-IsWithin :
    (most : ℕ) (model : Model) (node_id : String) (r : Request) (m : Meter)
    → UsesAtMost most model
    → IsWithin most m
    → IsWithin most (complete model node_id r m).1
complete-IsWithin most model node_id r m uses within =
    complete_cases model node_id r m (λ out. IsWithin most out.1) (λ _. within) (λ e _ _. within)
      (λ reply fits e. admitted reply fits (uses m.asked r reply e))
  where
    admitted :
        (reply : ModelReply)
        → reserve (pos (estimate_tokens r.system + estimate_tokens r.user)) m.ledger ≡ done tt
        → billed reply.input_tokens reply.output_tokens ≤ most
        → IsWithin most (settle node_id r reply (record m { asked = m.asked + 1 })).1
    admitted reply fits small = unfold reserve settle billed in ground arith

-- Where no call uses more than `most` tokens, calls one after the other pass the budget by at most
-- `most`, if the spending did so at first.
pub complete_all-IsWithin :
    (most : ℕ) (model : Model) (node_id : String) (rs : List Request) (m : Meter)
    → UsesAtMost most model
    → IsWithin most m
    → IsWithin most (complete_all model node_id rs m)
unfolding complete_all
complete_all-IsWithin most model node_id [] m uses within = within
complete_all-IsWithin most model node_id (r ∷ rs) m uses within =
    complete_all-IsWithin most model node_id rs (complete model node_id r m).1 uses
      (complete-IsWithin most model node_id r m uses within)

-- The budget is no hard cap: a call that is admitted and then uses more than what remains leaves
-- the run over its budget.
pub complete_overspends :
    (model : Model) (node_id : String) (r : Request) (m : Meter) (reply : ModelReply)
    → m.ledger.spent_tokens + (estimate_tokens r.system + estimate_tokens r.user) ≤ m.ledger.budget
    → model m.asked r ≡ done reply
    → remaining_tokens m.ledger < billed reply.input_tokens reply.output_tokens
    → m.ledger.budget < (complete model node_id r m).1.ledger.spent_tokens
unfolding complete remaining_tokens billed
complete_overspends model node_id r m reply fits answers large = ground arith

-- Calls of several tasks at once, behind a semaphore of `slots` places: a task is admitted by
-- `reserve`, waits for the model, and debits when the reply comes, in any order.
pub record Traffic : Type 0 where
  pub meter : Meter
  pub flying : List (String × Request)

abbrev pub estimate : Request → ℕ
estimate r = estimate_tokens r.system + estimate_tokens r.user

pub data Step (slots : ℕ) (model : Model) (s t : Traffic) : Type 0 where
  start :
      (node_id : String) (r : Request)
      → length s.flying < slots
      → reserve (pos (estimate r)) s.meter.ledger ≡ done tt
      → t ≡ record { meter = s.meter; flying = (node_id, r) ∷ s.flying }
      → Step slots model s t
  finish :
      (before after : List (String × Request)) (node_id : String) (r : Request) (n : ℕ)
      (reply : ModelReply)
      → s.flying ≡ before ++ (node_id, r) ∷ after
      → model n r ≡ done reply
      → t ≡ record { meter = (settle node_id r reply s.meter).1; flying = before ++ after }
      → Step slots model s t
  fail :
      (before after : List (String × Request)) (node_id : String) (r : Request) (n : ℕ) (e : Fault)
      → s.flying ≡ before ++ (node_id, r) ∷ after
      → model n r ≡ raised e
      → t ≡ record { meter = s.meter; flying = before ++ after }
      → Step slots model s t

pub data Reach (slots : ℕ) (model : Model) (s : Traffic) : Traffic → Type 0 where
  here : Reach slots model s s
  next : {t u : Traffic} → Reach slots model s t → Step slots model t u → Reach slots model s u

-- What is spent, with what the waiting calls may still use, passes the budget by at most the usage
-- of as many calls as there are slots.
abbrev pub IsBounded : ℕ → ℕ → Traffic → Type 0
IsBounded slots most s =
    (s.meter.ledger.spent_tokens + length s.flying * most ≤ s.meter.ledger.budget + slots * most)
    × (length s.flying ≤ slots)

length-middle :
    (xs ys : List (String × Request)) (z : String × Request)
    → length (xs ++ z ∷ ys) ≡ suc (length (xs ++ ys))
length-middle xs ys z = omega (arith, length-append xs (z ∷ ys), length-append xs ys)

reserve_fits :
    (n : ℕ) (l : BudgetLedger) → reserve (pos n) l ≡ done tt → l.spent_tokens + n ≤ l.budget
unfolding reserve
reserve_fits n l h = ground arith

module _ (slots most : ℕ) (model : Model) (uses : UsesAtMost most model) where
  -- The calls in the air, before and after one of them lands.
  landed :
      (s : Traffic) (before after : List (String × Request)) (call : String × Request)
      → s.flying ≡ before ++ call ∷ after
      → length s.flying ≡ suc (length (before ++ after))
  landed s before after call at = ap length at ∙ length-middle before after call

  Step-IsBounded :
      (s t : Traffic) → Step slots model s t → IsBounded slots most s → IsBounded slots most t
  unfolding settle billed
  Step-IsBounded s t (start node_id r room fits e) b =
      let product = mul-le-mul_right most room in
      let admitted = reserve_fits (estimate r) s.meter.ledger fits in rw e (omega arith, room)
  Step-IsBounded s t (finish before after node_id r n reply at answers e) b =
      let fewer = landed s before after (node_id, r) at in
      let product = ap (λ (k : ℕ). k * most) fewer in
      let small = uses n r reply answers in rw e (omega arith, omega arith)
  Step-IsBounded s t (fail before after node_id r n fault at answers e) b =
      let fewer = landed s before after (node_id, r) at in
      let product = ap (λ (k : ℕ). k * most) fewer in rw e (omega arith, omega arith)

  -- Where no call uses more than `most` tokens, then however the calls of a run interleave, what is
  -- spent with what the waiting calls may use passes the budget by at most the usage of as many
  -- calls as there are slots, if it did so at first, and no more calls wait than there are slots.
  pub Reach-IsBounded :
      {s t : Traffic} → IsBounded slots most s → Reach slots model s t → IsBounded slots most t
  Reach-IsBounded b here = b
  Reach-IsBounded b (next {t = t} {u = u} path step) =
      Step-IsBounded t u step (Reach-IsBounded b path)
