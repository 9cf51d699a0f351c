-- ===== src/Flock/Scheduler/Resume.antt =====
-- What a run leaves in the log, and what it reports.
use mathlib.Core.Option
use murmur_ai_harness.Prelude.{
  String, ◌≡◌, refl, sym, ap, ◌∙◌, inl, inr, Bool, true, false, ◌||◌, Option, none, some, List, [],
  ◌∷◌, ◌++◌, arith, ◌==◌, eq_iff, if◌then◌else◌, Bool-cases, contains, Has, Dict, lookup,
  lookup-insert,
}
use murmur_ai_harness.Flock.Ir.{Node, WorkflowPlan, ids_of}
use murmur_ai_harness.Flock.Artifact.{Artifact}
use murmur_ai_harness.Flock.Gateway.{Fault, Model, Outcome, done, raised, BudgetLedger}
use murmur_ai_harness.Flock.Operators.{NodeRun}
use murmur_ai_harness.Flock.EventLog.{
  FlockEvent, run_started, node_finished, node_failed, CompletedNode, completed_nodes, complete_all,
  complete_with,
}
use murmur_ai_harness.Flock.Scheduler.{
  NodeResult, Setting, RunState, append_event, attempt_in, store_outcome, run_node, run_nodes,
  restore, start_state, run_with,
}
use murmur_ai_harness.Flock.Scheduler.Runs.{run_node-keep, run_nodes-keep}

complete_all-append :
    (e : FlockEvent) (es : List FlockEvent) (d : Dict CompletedNode)
    → complete_all d (es ++ e ∷ []) ≡ complete_with e (complete_all d es)
unfolding complete_all
complete_all-append e [] d = refl
complete_all-append e (f ∷ es) d = complete_all-append e es (complete_with f d)

completed_nodes-append :
    (e : FlockEvent) (es : List FlockEvent)
    → completed_nodes (es ++ e ∷ []) ≡ complete_with e (completed_nodes es)
unfolding completed_nodes
completed_nodes-append e es = complete_all-append e es []

abbrev pub completed : NodeResult → CompletedNode
completed r = record { op = r.op; output = r.output; calls = r.calls }

-- Each result without an error is what a reader of the log restores.
pub record IsLogged (s : RunState) : Type 0 where
  pub es : List FlockEvent
  pub has_log : s.events ≡ some es
  pub restored :
      (x : String) (r : NodeResult)
      → lookup x s.results ≡ some r
      → r.error ≡ none
      → lookup x (completed_nodes es) ≡ some (completed r)

pub log_other :
    (e : FlockEvent) (s : RunState)
    → ((d : Dict CompletedNode) → complete_with e d ≡ d)
    → IsLogged s
    → IsLogged (append_event e s)
unfolding append_event
log_other e s same l = record {
  es = l.es ++ e ∷ [];
  has_log = ap (Option.map (λ es. es ++ e ∷ [])) l.has_log;
  restored = λ x r found fine.
      ap (lookup x) (completed_nodes-append e l.es ∙ same (completed_nodes l.es))
      ∙ l.restored x r found fine;
}

some_inj : {A : Type 0} {a b : A} → some a ≡ some b → a ≡ b
some_inj h = cc

store-IsLogged :
    (node : Node) (out : Outcome (List Artifact)) (run : NodeRun) (s : RunState)
    → IsLogged s
    → IsLogged (store_outcome node out run s)
unfolding append_event complete_with
store-IsLogged node (done produced) run s l =
    let e = node_finished node.id node.op produced run.calls in
    record {
      es = l.es ++ e ∷ [];
      has_log = ap (Option.map (λ es. es ++ e ∷ [])) l.has_log;
      restored = λ x r found fine.
          ap (lookup x) (completed_nodes-append e l.es)
          ∙ lookup-insert node.id x _ (completed_nodes l.es)
          ∙ elim (Bool-cases (node.id == x)) [
            | inl here ↦
                let e' = rw here at (sym (lookup-insert node.id x _ s.results) ∙ found) in
                rw here (ap (λ (r : NodeResult). some (completed r)) (some_inj e'))
            | inr there ↦ rw there (
                l.restored x r (rw there at (sym (lookup-insert node.id x _ s.results) ∙ found))
                  fine)
          ];
    }
store-IsLogged node (raised f) run s l =
    let e = node_failed node.id node.op run.calls f in
    record {
      es = l.es ++ e ∷ [];
      has_log = ap (Option.map (λ es. es ++ e ∷ [])) l.has_log;
      restored = λ x r found fine.
          ap (lookup x) (completed_nodes-append e l.es) ∙ elim (Bool-cases (node.id == x)) [
            | inl here ↦
                let e' =
                  ap (λ (r : NodeResult). r.error)
                    (some_inj (rw here at (sym (lookup-insert node.id x _ s.results) ∙ found)))
                  ∙ fine in
                absurd (ground arith)
            | inr there ↦
                l.restored x r (rw there at (sym (lookup-insert node.id x _ s.results) ∙ found))
                  fine
          ];
    }

run_node-IsLogged :
    (set : Setting) (node : Node) (s : RunState) → IsLogged s → IsLogged (run_node set node s).1
run_node-IsLogged set node s l =
    run_node-keep IsLogged set node s
      (λ model found.
        store-IsLogged node (attempt_in set node model s).0 (attempt_in set node model s).1 s l)
      l

pub run_nodes-IsLogged :
    (set : Setting) (ns : List Node) (s : RunState) → IsLogged s → IsLogged (run_nodes set ns s).1
run_nodes-IsLogged set ns s l =
    run_nodes-keep IsLogged set ns (λ n there s'. run_node-IsLogged set n s') s l

abbrev pub restored_result : String → CompletedNode → NodeResult
restored_result id n = record {
  node_id = id;
  op = n.op;
  output = n.output;
  calls = n.calls;
  error = none;
}

lookup-restore :
    (ids : List String) (d : Dict CompletedNode) (x : String) (r : NodeResult)
    → lookup x (restore ids d).1 ≡ some r
    → (contains ids x ≡ true) × (lookup x d ≡ some (completed r))
unfolding restore lookup
lookup-restore ids [] x r h = absurd (ground arith)
lookup-restore ids ((id, n) ∷ d) x r h = elim (Bool-cases (contains ids id)) [
  | inl kept ↦ elim (Bool-cases (id == x)) [
    | inl here ↦
        let e : some (restored_result id n) ≡ some r = rw here at (rw kept at h) in
        (
          ap (contains ids) (sym ((eq_iff id x).0 here)) ∙ kept,
          rw here (ap (λ (r : NodeResult). some (completed r)) (some_inj e)),
        )
    | inr there ↦
        let (known, found) = lookup-restore ids d x r (rw there at (rw kept at h)) in
        (known, rw there found)
  ]
  | inr dropped ↦
      let (known, found) = lookup-restore ids d x r (rw dropped at h) in
      let there : (id == x) ≡ false = ground (arith, eq_iff id x, dropped, known) in
      (known, rw there found)
]

pub start-IsLogged :
    (plan : WorkflowPlan) (ledger : BudgetLedger) (es : List FlockEvent)
    → IsLogged (start_state plan ledger (some es))
unfolding start_state complete_with
start-IsLogged plan ledger es =
    log_other (run_started plan.goal) _ (λ d. refl)
      (record {
        es = es;
        has_log = refl;
        restored =
            λ x r found fine. (lookup-restore (ids_of plan.nodes) (completed_nodes es) x r found).1;
      })

abbrev pub has : {A : Type 0} → Option A → Bool
has none = false
has (some a) = true

either :
    {A : Type 0} (a x : String) (v : A) (o : Option A)
    → has (if a == x then some v else o) ≡ (a == x || has o)
either a x v o = elim (Bool-cases (a == x)) [ inl e ↦ rw e refl | inr e ↦ rw e refl ]

pub store-results :
    (node : Node) (out : Outcome (List Artifact)) (run : NodeRun) (s : RunState) (x : String)
    → has (lookup x (store_outcome node out run s).results)
      ≡ (node.id == x || has (lookup x s.results))
unfolding append_event
store-results node (done produced) run s x =
    ap has (lookup-insert node.id x _ s.results) ∙ either node.id x _ (lookup x s.results)
store-results node (raised e) run s x =
    ap has (lookup-insert node.id x _ s.results) ∙ either node.id x _ (lookup x s.results)

-- A node that the resolver did not stop has a result.
run_node-results :
    (set : Setting) (node : Node) (s : RunState) (x : String)
    → contains set.replayed x ≡ false
    → (run_node set node s).0 ≡ none
    → has (lookup x (run_node set node s).1.results) ≡ (node.id == x || has (lookup x s.results))
unfolding run_node run_with
run_node-results set node s x fresh h = elim (Bool-cases (contains set.replayed node.id)) [
  | inl old ↦
      let other : (node.id == x) ≡ false = ground (arith, eq_iff node.id x, old, fresh) in
      rw (old, other) refl
  | inr new ↦ rw new (go (set.resolver node.model) (rw new at h))
]
  where
    go :
        (o : Outcome Model)
        → (run_with set node s o).0 ≡ none
        → has (lookup x (run_with set node s o).1.results)
          ≡ (node.id == x || has (lookup x s.results))
    go (done model) e =
        store-results node (attempt_in set node model s).0 (attempt_in set node model s).1 s x
    go (raised f) e = absurd (ground arith)

pub run_nodes-results :
    (set : Setting) (ns : List Node) (s : RunState) (x : String)
    → contains set.replayed x ≡ false
    → (run_nodes set ns s).0 ≡ none
    → has (lookup x (run_nodes set ns s).1.results)
      ≡ (contains (ids_of ns) x || has (lookup x s.results))
unfolding run_nodes contains
run_nodes-results set [] s x fresh h = refl
run_nodes-results set (n ∷ ns) s x fresh h =
    go (run_node set n s).0 refl h (run_nodes-results set ns (run_node set n s).1 x fresh)
  where
    go :
        (o : Option Fault)
        → (run_node set n s).0 ≡ o
        → (elim o as (λ _. Option Fault × RunState) [
          | some e ↦ (some e, (run_node set n s).1)
          | none ↦ run_nodes set ns (run_node set n s).1
        ]).0
          ≡ none
        → ((run_nodes set ns (run_node set n s).1).0 ≡ none
            → has (lookup x (run_nodes set ns (run_node set n s).1).1.results)
              ≡ (contains (ids_of ns) x || has (lookup x (run_node set n s).1.results)))
        → has (
            lookup x
              (elim o as (λ _. Option Fault × RunState) [
                | some e ↦ (some e, (run_node set n s).1)
                | none ↦ run_nodes set ns (run_node set n s).1
              ]).1.results)
          ≡ (contains (ids_of (n ∷ ns)) x || has (lookup x s.results))
    go none e h rest =
        let first = run_node-results set n s x fresh e in ground (arith, rest h, first)
    go (some f) e h rest = absurd (ground arith)

run_node-crash :
    (set : Setting) (n : Node) (s : RunState) (e : Fault)
    → (run_node set n s).0 ≡ some e
    → (contains set.replayed n.id ≡ false) × (set.resolver n.model ≡ raised e)
unfolding run_node run_with
run_node-crash set n s e h = elim (Bool-cases (contains set.replayed n.id)) [
  | inl old ↦ let no : none ≡ some e = rw old at h in absurd (ground arith)
  | inr new ↦ (new, go (set.resolver n.model) (rw new at h))
]
  where
    go : (o : Outcome Model) → (run_with set n s o).0 ≡ some e → o ≡ raised e
    go (done model) k = absurd (ground arith)
    go (raised f) k = cc

-- Where a run of nodes ends early, the resolver raised for one of them that was not restored.
pub run_nodes-crash :
    (set : Setting) (ns : List Node) (s : RunState) (e : Fault)
    → (run_nodes set ns s).0 ≡ some e
    → (n : Node) × Has n ns
      × (contains set.replayed n.id ≡ false)
      × (set.resolver n.model ≡ raised e)
unfolding run_nodes
run_nodes-crash set [] s e h = cc
run_nodes-crash set (n ∷ ns) s e h =
    go (run_node set n s).0 refl h (run_nodes-crash set ns (run_node set n s).1 e)
  where
    go :
        (o : Option Fault)
        → (run_node set n s).0 ≡ o
        → (elim o as (λ _. Option Fault × RunState) [
          | some f ↦ (some f, (run_node set n s).1)
          | none ↦ run_nodes set ns (run_node set n s).1
        ]).0
          ≡ some e
        → ((run_nodes set ns (run_node set n s).1).0 ≡ some e
            → (m : Node) × Has m ns
              × (contains set.replayed m.id ≡ false)
              × (set.resolver m.model ≡ raised e))
        → (m : Node) × Has m (n ∷ ns)
          × (contains set.replayed m.id ≡ false)
          × (set.resolver m.model ≡ raised e)
    go none here h rest = let (m, stands, new, why) = rest h in (m, inr stands, new, why)
    go (some f) here h rest =
        let (new, why) = run_node-crash set n s e (here ∙ h) in (n, inl refl, new, why)
