-- ===== src/Flock/Gateway/Accounts.antt =====
-- The ledger and the call log agree, whatever a call does.
use murmur_ai_harness.Prelude.{
  ℕ, ◌+◌, String, ◌≡◌, ◌≢◌, inl, inr, List, [], ◌∷◌, ◌++◌, arith, ltb, Bool-cases, length,
  length-append, pos_part, ℤ, pos,
}
use murmur_ai_harness.Flock.Gateway.{
  Fault, budget_exceeded, Outcome, Outcome-cases, done, raised, ModelReply, ModelCall, reserve,
  estimate_tokens, Request, Model, Meter, settle, call_of, complete,
}

-- The tokens that a call is billed for: a negative count is billed as none.
unfoldable pub billed : ℤ → ℤ → ℕ
billed i o = pos_part i + pos_part o

unfoldable pub billed_log : List ModelCall → ℕ
unfolding billed
billed_log [] = 0
billed_log (c ∷ cs) = billed c.input_tokens c.output_tokens + billed_log cs

unfoldable pub cost_log : List ModelCall → ℕ
cost_log [] = 0
cost_log (c ∷ cs) = pos_part c.cost_usd + cost_log cs

billed_log-append : (xs ys : List ModelCall) → billed_log (xs ++ ys) ≡ billed_log xs + billed_log ys
unfolding billed_log
billed_log-append [] ys = omega arith
billed_log-append (x ∷ xs) ys = omega (arith, billed_log-append xs ys)

cost_log-append : (xs ys : List ModelCall) → cost_log (xs ++ ys) ≡ cost_log xs + cost_log ys
unfolding cost_log
cost_log-append [] ys = omega arith
cost_log-append (x ∷ xs) ys = omega (arith, cost_log-append xs ys)

-- The ledger sums up the log.
pub record IsAccounted (m : Meter) : Type 0 where
  pub tokens : m.ledger.spent_tokens ≡ billed_log m.log
  pub costs : m.ledger.spent_cost ≡ cost_log m.log
  pub calls : m.ledger.calls ≡ length m.log

settle-IsAccounted :
    (node_id : String) (r : Request) (reply : ModelReply) (m : Meter)
    → IsAccounted m
    → IsAccounted (settle node_id r reply m).1
unfolding settle billed_log cost_log
settle-IsAccounted node_id r reply m a = record {
  tokens = omega (arith, a.tokens, billed_log-append m.log (call_of node_id r reply ∷ []));
  costs = omega (arith, a.costs, cost_log-append m.log (call_of node_id r reply ∷ []));
  calls = omega (arith, a.calls, length-append m.log (call_of node_id r reply ∷ []));
}

-- What a call does: it is refused before the model is asked, or the model raises, or the reply is
-- settled.
pub complete_cases :
    (model : Model) (node_id : String) (r : Request) (m : Meter)
    (P : Outcome ModelReply × Meter → Type 0)
    → (reserve (pos (estimate_tokens r.system + estimate_tokens r.user)) m.ledger ≢ done tt
        → P (
          raised (
              budget_exceeded m.ledger.spent_tokens m.ledger.budget
                (pos (estimate_tokens r.system + estimate_tokens r.user))),
          m,
        ))
    → ((e : Fault)
        → reserve (pos (estimate_tokens r.system + estimate_tokens r.user)) m.ledger ≡ done tt
        → model m.asked r ≡ raised e
        → P (raised e, record m { asked = m.asked + 1 }))
    → ((reply : ModelReply)
        → reserve (pos (estimate_tokens r.system + estimate_tokens r.user)) m.ledger ≡ done tt
        → model m.asked r ≡ done reply
        → P (done reply, (settle node_id r reply (record m { asked = m.asked + 1 })).1))
    → P (complete model node_id r m)
unfolding complete
complete_cases model node_id r m P refused failed settled =
    elim (Bool-cases (
      ltb m.ledger.budget
        (m.ledger.spent_tokens + (estimate_tokens r.system + estimate_tokens r.user)))) [
          | inl over ↦ rw over (refused (λ e. ground arith))
          | inr fits ↦ rw fits (elim (Outcome-cases (model m.asked r)) [
            | inl (reply, e) ↦ rw e (settled reply (rw fits) e)
            | inr (fault, e) ↦ rw e (failed fault (rw fits) e)
          ])
        ]

-- A metered call, whether it is refused, raises or returns, keeps the ledger equal to what the
-- logged calls used and cost, and its count equal to their number.
pub complete-IsAccounted :
    (model : Model) (node_id : String) (r : Request) (m : Meter)
    → IsAccounted m
    → IsAccounted (complete model node_id r m).1
complete-IsAccounted model node_id r m a =
    complete_cases model node_id r m (λ out. IsAccounted out.1) (λ _. a)
      (λ e _ _. record { tokens = a.tokens; costs = a.costs; calls = a.calls })
      (λ reply _ _.
        settle-IsAccounted node_id r reply (record m { asked = m.asked + 1 })
          (record { tokens = a.tokens; costs = a.costs; calls = a.calls }))

-- Calls made one after the other, each whatever became of the one before.
unfoldable pub complete_all : Model → String → List Request → Meter → Meter
complete_all model node_id [] m = m
complete_all model node_id (r ∷ rs) m = complete_all model node_id rs (complete model node_id r m).1

pub complete_all-IsAccounted :
    (model : Model) (node_id : String) (rs : List Request) (m : Meter)
    → IsAccounted m
    → IsAccounted (complete_all model node_id rs m)
unfolding complete_all
complete_all-IsAccounted model node_id [] m a = a
complete_all-IsAccounted model node_id (r ∷ rs) m a =
    complete_all-IsAccounted model node_id rs (complete model node_id r m).1
      (complete-IsAccounted model node_id r m a)
