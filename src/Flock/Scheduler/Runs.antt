-- ===== src/Flock/Scheduler/Runs.antt =====
-- What a run of the nodes keeps: any property that each node's run keeps, so the accounts.
use murmur_ai_harness.Prelude.{
  ◌≡◌, refl, inl, inr, not, ◌&&◌, Option, none, some, List, [], ◌∷◌, ◌==◌, Bool-cases, select,
  contains, Has,
}
use murmur_ai_harness.Flock.Ir.{Node}
use murmur_ai_harness.Flock.Validation.{is_empty}
use murmur_ai_harness.Flock.Artifact.{Artifact}
use murmur_ai_harness.Flock.Gateway.{Fault, Model, Outcome, done, raised, Meter, Request, complete}
use murmur_ai_harness.Flock.Operators.{NodeRun, is_tainted}
use murmur_ai_harness.Flock.Operators.Effects.{run_operator-meter}
use murmur_ai_harness.Flock.Scheduler.{
  Setting, RunState, append_event, items_of, attempt, attempt_in, store_outcome, context_of,
  run_node, run_nodes, run_with,
}

-- What each node's run keeps, a run of the nodes keeps, up to where it ends.
pub run_nodes-keep {ℓ} :
    (P : RunState → Type ℓ) (set : Setting) (ns : List Node)
    → ((n : Node) → Has n ns → (s : RunState) → P s → P (run_node set n s).1)
    → (s : RunState) → P s
    → P (run_nodes set ns s).1
unfolding run_nodes
run_nodes-keep P set [] keep s p = p
run_nodes-keep P set (n ∷ ns) keep s p = go (run_node set n s).0 (
    run_nodes-keep P set ns (λ m there s'. keep m (inr there) s') (run_node set n s).1
      (keep n (inl refl) s p))
  where
    go :
        (o : Option Fault)
        → P (run_nodes set ns (run_node set n s).1).1
        → P
            (elim o as (λ _. Option Fault × RunState) [
              | some e ↦ (some e, (run_node set n s).1)
              | none ↦ run_nodes set ns (run_node set n s).1
            ]).1
    go none q = q
    go (some e) q = keep n (inl refl) s p

-- What storing any outcome keeps, a node's run keeps.
pub run_node-keep {ℓ} :
    (P : RunState → Type ℓ) (set : Setting) (node : Node) (s : RunState)
    → ((model : Model)
        → set.resolver node.model ≡ done model
        → P (store_outcome node (attempt_in set node model s).0 (attempt_in set node model s).1 s))
    → P s
    → P (run_node set node s).1
unfolding run_node run_with
run_node-keep P set node s stored p = elim (Bool-cases (contains set.replayed node.id)) [
  | inl old ↦ rw old p
  | inr new ↦ rw new (go (set.resolver node.model) refl)
]
  where
    go : (o : Outcome Model) → set.resolver node.model ≡ o → P (run_with set node s o).1
    go (done model) e = stored model e
    go (raised f) e = p

store-meter :
    (node : Node) (out : Outcome (List Artifact)) (run : NodeRun) (s : RunState)
    → (store_outcome node out run s).meter ≡ run.meter
unfolding append_event
store-meter node (done x) run s = refl
store-meter node (raised e) run s = refl

module _ (Q : Meter → Type 0) (set : Setting)
    (keeps : (node : Node) (model : Model) (r : Request) (m : Meter)
      → Q m
      → Q (complete model node.id r m).1) where
  attempt-meter :
      (node : Node) (model : Model) (s : RunState)
      → Q s.meter
      → Q (attempt_in set node model s).1.meter
  unfolding attempt
  attempt-meter node model s q =
      let bad = select is_tainted (items_of s.outputs set.sources node.inputs) in
      elim (Bool-cases (node.trust == "trusted" && not (is_empty bad))) [
        | inl stop ↦ rw stop q
        | inr go ↦ rw go (
            run_operator-meter Q (context_of set node model s)
              (record { meter = s.meter; calls = 0 }) (keeps node model) q)
      ]

  run_node-meter : (node : Node) (s : RunState) → Q s.meter → Q (run_node set node s).1.meter
  run_node-meter node s q =
      run_node-keep (λ s'. Q s'.meter) set node s
        (λ model found.
          rw (store-meter node (attempt_in set node model s).0 (attempt_in set node model s).1 s)
            (attempt-meter node model s q))
        q

  -- What every metered call keeps, a run of any nodes keeps: so it does the accounts.
  pub run_nodes-meter : (ns : List Node) (s : RunState) → Q s.meter → Q (run_nodes set ns s).1.meter
  run_nodes-meter ns s q =
      run_nodes-keep (λ s'. Q s'.meter) set ns (λ n there s'. run_node-meter n s') s q
