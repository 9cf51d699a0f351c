-- ===== src/Flock/Operators/Effects.antt =====
-- What every operator keeps, because it reaches the model only by `call`.
use murmur_ai_harness.Prelude.{
  ℕ, zero, suc, ◌+◌, String, ◌≡◌, refl, Bool, true, false, List, [], ◌∷◌, ◌++◌, if◌then◌else◌, Dict,
}
use murmur_ai_harness.Flock.Artifact.{Artifact}
use murmur_ai_harness.Flock.Gateway.{
  Fault, Outcome, done, raised, Exec, and_then, ◌>>=◌, pure, raise, Request, Meter, ModelReply,
  complete,
}
use murmur_ai_harness.Flock.Operators.{
  NodeRun, NodeContext, call, gather, op_map, op_reduce, op_classify, op_filter, compare_pair,
  pairs_of, bye_of, winners_of, record_losers, bracket, op_tournament, op_verify, refine, op_loop,
  run_operator, is_final, max_iters_of, refute, map_one, play,
}

-- `m` keeps `P`, whether it returns or raises.
pub record Keeps {ℓ} {S : Type 0} {A : Type ℓ} (P : S → Type 0) (m : Exec S A) : Type ℓ where
  pub at : (s : S) → P s → P (m s).1

module _ {S : Type 0} {P : S → Type 0} where
  Keeps-pure {ℓ} : {A : Type ℓ} (a : A) → Keeps P (pure {S = S} a)
  Keeps-pure a = record { at = λ s h. h }

  Keeps-raise {ℓ} : {A : Type ℓ} (e : Fault) → Keeps P (raise {S = S} {A = A} e)
  Keeps-raise e = record { at = λ s h. h }

  Keeps-then {ℓ κ} :
      {A : Type ℓ} {B : Type κ} (o : Outcome A) (f : A → Exec S B)
      → ((a : A) → Keeps P (f a))
      → (s : S) → P s
      → P (and_then o f s).1
  Keeps-then (done a) f kf s h = (kf a).at s h
  Keeps-then (raised e) f kf s h = h

  -- Two methods one after the other.
  pub Keeps-bind {κ μ} :
      {X : Type κ} {Y : Type μ} (step : Exec S X) (next : X → Exec S Y) (now : Keeps P step)
      (later : (x : X) → Keeps P (next x))
      → Keeps P (step >>= next)
  Keeps-bind step next now later = record {
    at = λ s h. let (o, s') = step s in Keeps-then o next later s' (now.at s h);
  }

  pub Keeps-if {ℓ} :
      {A : Type ℓ} (b : Bool) (m n : Exec S A)
      → Keeps P m
      → Keeps P n
      → Keeps P (if b then m else n)
  Keeps-if true m n km kn = km
  Keeps-if false m n km kn = kn

  pub Keeps-gather {ℓ κ} :
      {A : Type ℓ} {B : Type κ} (f : A → Exec S B) (xs : List A)
      → ((a : A) → Keeps P (f a))
      → Keeps P (gather f xs)
  unfolding gather
  Keeps-gather f [] kf = record { at = λ s h. h }
  Keeps-gather f (x ∷ xs) kf = record {
    at = λ s h. (Keeps-gather f xs kf).at (f x s).1 ((kf x).at s h);
  }

ruleset keeps_rules = (Keeps-pure, Keeps-raise, Keeps-bind, Keeps-if, Keeps-gather)

module _ (ctx : NodeContext) (P : NodeRun → Type 0)
    (keeps_call : (system user : String) → Keeps P (call ctx system user)) where
  compare_pair-Keeps : (p : Artifact × Artifact) → Keeps P (compare_pair ctx p)
  unfolding compare_pair
  compare_pair-Keeps (a, b) = Keeps-bind (call ctx _ _) _ (keeps_call _ _) (λ reply. Keeps-pure _)

  bracket-Keeps :
      (fuel round_no : ℕ) (contenders : List Artifact) (eliminated : Dict ℕ)
      → Keeps P (bracket ctx fuel round_no contenders eliminated)
  unfolding bracket
  bracket-Keeps fuel round_no [] eliminated = Keeps-pure _
  bracket-Keeps fuel round_no (a ∷ []) eliminated = Keeps-pure _
  bracket-Keeps zero round_no (a ∷ b ∷ rest) eliminated = Keeps-raise _
  bracket-Keeps (suc fuel) round_no (a ∷ b ∷ rest) eliminated =
      Keeps-bind (gather (compare_pair ctx) (pairs_of (a ∷ b ∷ rest))) _
        (Keeps-gather (compare_pair ctx) _ compare_pair-Keeps)
        (λ results.
          bracket-Keeps fuel (round_no + 1) (winners_of results ++ bye_of (a ∷ b ∷ rest))
            (record_losers (round_no + 1) results eliminated))

  refine-Keeps : (left iterations : ℕ) (draft : String) → Keeps P (refine ctx left iterations draft)
  unfolding refine
  refine-Keeps zero iterations draft = Keeps-pure _
  refine-Keeps (suc left) iterations draft =
      Keeps-bind (call ctx _ draft) _ (keeps_call _ draft) (λ reply.
        Keeps-if (is_final ctx reply) _ _ (Keeps-pure _) (refine-Keeps left (iterations + 1) reply))

  op_map-Keeps : Keeps P (op_map ctx)
  unfolding op_map map_one
  op_map-Keeps =
      Keeps-gather (map_one ctx) ctx.items
        (λ item. Keeps-bind (call ctx _ item.content) _ (keeps_call _ _) (λ reply. Keeps-pure _))

  op_reduce-Keeps : Keeps P (op_reduce ctx)
  unfolding op_reduce
  op_reduce-Keeps = Keeps-bind (call ctx _ _) _ (keeps_call _ _) (λ reply. Keeps-pure _)

  op_classify-Keeps : Keeps P (op_classify ctx)
  unfolding op_classify
  op_classify-Keeps = Keeps-bind (call ctx _ _) _ (keeps_call _ _) (λ reply. Keeps-pure _)

  op_filter-Keeps : Keeps P (op_filter ctx)
  unfolding op_filter
  op_filter-Keeps = Keeps-pure _

  op_tournament-Keeps : Keeps P (op_tournament ctx)
  unfolding op_tournament play
  op_tournament-Keeps = Keeps-if _ _ _ (Keeps-pure _) (
      Keeps-bind (bracket ctx _ 0 ctx.items []) _ (bracket-Keeps _ 0 ctx.items [])
        (λ final. Keeps-pure _))

  op_verify-Keeps : Keeps P (op_verify ctx)
  unfolding op_verify refute
  op_verify-Keeps =
      Keeps-bind (gather (refute ctx) _) _
        (Keeps-gather (refute ctx) _
          (λ item. Keeps-bind (call ctx _ item.content) _ (keeps_call _ _) (λ reply. Keeps-pure _)))
        (λ verified. Keeps-pure _)

  op_loop-Keeps : Keeps P (op_loop ctx)
  unfolding op_loop
  op_loop-Keeps =
      Keeps-bind (refine ctx (max_iters_of ctx) 0 _) _ (refine-Keeps (max_iters_of ctx) 0 _)
        (λ r. let (draft, iterations) = r in Keeps-pure _)

  -- Whatever a call keeps, every operator keeps.
  pub run_operator-Keeps : Keeps P (run_operator ctx)
  unfolding run_operator
  run_operator-Keeps = Keeps-if _ _ _ op_classify-Keeps (
      Keeps-if _ _ _ op_map-Keeps (
        Keeps-if _ _ _ op_reduce-Keeps (
          Keeps-if _ _ _ op_tournament-Keeps (
            Keeps-if _ _ _ op_verify-Keeps
              (Keeps-if _ _ _ op_filter-Keeps (Keeps-if _ _ _ op_loop-Keeps (Keeps-raise _)))))))

-- A call touches the meter by `complete` alone.
pub call-meter :
    (ctx : NodeContext) (system user : String) (s : NodeRun)
    → (r : Request) × ((call ctx system user s).1.meter
        ≡ (complete ctx.model ctx.node.id r s.meter).1)
unfolding call
call-meter ctx system user s =
    (request, by_outcome (complete ctx.model ctx.node.id request s.meter).0)
  where
    request : Request
    request = record {
      model = ctx.node.model;
      system = system;
      user = user;
      effort = ctx.node.effort;
    }

    by_outcome :
        (out : Outcome ModelReply)
        → (let m = (complete ctx.model ctx.node.id request s.meter).1 in
            let after : Outcome String × NodeRun = elim out [
              | done reply ↦ (done reply.text, record { meter = m; calls = s.calls + 1 })
              | raised e ↦ (raised e, record { meter = m; calls = s.calls })
            ] in
            after.1.meter)
          ≡ (complete ctx.model ctx.node.id request s.meter).1
    by_outcome (done reply) = refl
    by_outcome (raised e) = refl

-- A property of the meter that each metered call of the node keeps, the node's operator keeps.
pub run_operator-meter :
    (Q : Meter → Type 0) (ctx : NodeContext) (s : NodeRun)
    → ((r : Request) (m : Meter) → Q m → Q (complete ctx.model ctx.node.id r m).1)
    → Q s.meter
    → Q (run_operator ctx s).1.meter
run_operator-meter Q ctx s keeps h =
    (run_operator-Keeps ctx (λ (t : NodeRun). Q t.meter) calls_keep).at s h
  where
    calls_keep : (system user : String) → Keeps (λ (t : NodeRun). Q t.meter) (call ctx system user)
    calls_keep system user = record {
      at = λ t q. let (r, e) = call-meter ctx system user t in rw e (keeps r t.meter q);
    }
