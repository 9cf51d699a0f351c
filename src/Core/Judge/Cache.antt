-- ===== src/Core/Judge/Cache.antt =====
-- `cached_llm_judge`: a judge that asks at most once for an input. `hash_payload` is a parameter;
-- `J` is the type of the JSON values of the gateway's events.
use murmur_ai_harness.Prelude.{
  ℕ, ◌+◌, ◌/◌, max, String, ◌≡◌, refl, sym, ap, ◌∙◌, inl, inr, Bool, true, false, Option, none,
  some, [], ◌∷◌, ◌==◌, eq_iff, if◌then◌else◌, Bool-cases, concat, Dict, lookup, insert,
  lookup-insert, pos,
}
use Prim.Native.String.{count as count_chars}
use murmur_ai_harness.Core.Types.{Outcome, JudgeOutcome, TaskSpec, TrajectoryResult}
use murmur_ai_harness.ToolGateway.{ToolGateway, GatewayFault, Reply, returned, raised, model}

-- `JudgeCallCache`
pub record JudgeCallCache : Type 0 where
  pub values : Dict JudgeOutcome
  pub calls : ℕ

-- `hash_payload` of a rubric, a model and what is read of a trajectory.
abbrev pub JudgeHash : Type 0
JudgeHash = (rubric model output : String) → Outcome → (failure_class : Option String) → String

abbrev pub key_of : JudgeHash → (rubric model : String) → TrajectoryResult → String
key_of hash rubric name t = hash rubric name t.output t.outcome t.failure_class

-- How a call ends: with a verdict, or what the gateway or the judge raised.
pub data Answer : Type 0 where
  answered : JudgeOutcome → Answer
  gateway_raised : GatewayFault → Answer
  judge_raised : String → Answer

-- A judge of one trajectory, which may raise.
pub data Said : Type 0 where
  said : JudgeOutcome → Said
  threw : String → Said

abbrev pub Evaluator : Type 0
Evaluator = TaskSpec → TrajectoryResult → Said

-- The cache and the gateway that a call leaves behind.
abbrev pub Judged : Type 0 → Type 0
Judged J = Answer × (JudgeCallCache × Option (ToolGateway J))

-- The judge's call, which is counted before it is made.
abbrev pub remember :
    {J : Type 0} → String → Said → JudgeCallCache → Option (ToolGateway J) → Judged J
remember key (threw e) cache gateway =
    (judge_raised e, (record { values = cache.values; calls = cache.calls + 1 }, gateway))
remember key (said v) cache gateway =
    (answered v, (record { values = insert key v cache.values; calls = cache.calls + 1 }, gateway))

abbrev pub after_model :
    {J : Type 0} → Reply (Unit {0}) → String → Said → JudgeCallCache → ToolGateway J → Judged J
after_model (raised e) key v cache g = (gateway_raised e, (cache, some g))
after_model (returned _) key v cache g = remember key v cache (some g)

-- What the next call gives, where `v` was answered for the hash `asked` from the cache `before`: for
-- the same hash the same answer, without asking; else what the cache held before, or `ask`.
abbrev pub next_answer :
    {J : Type 0} (asked key : String) (v : JudgeOutcome) (before after : JudgeCallCache)
    (gateway : Option (ToolGateway J))
    → Judged J
    → Judged J
next_answer asked key v before after gateway ask =
    if asked == key
    then (answered v, (after, gateway))
    else elim (lookup key before.values) [ some w ↦ (answered w, (after, gateway)) | none ↦ ask ]

-- What the cache gives, or else `ask`.
abbrev lookup_or :
    {J : Type 0}
    → JudgeCallCache
    → Option (ToolGateway J)
    → Judged J
    → Option JudgeOutcome
    → Judged J
lookup_or cache gateway ask (some w) = (answered w, (cache, gateway))
lookup_or cache gateway ask none = ask

choose :
    {J : Type 0} (b : Bool) (v : JudgeOutcome) (o : Option JudgeOutcome) (cache : JudgeCallCache)
    (gateway : Option (ToolGateway J)) (ask : Judged J)
    → lookup_or cache gateway ask (if b then some v else o)
      ≡ (if b then (answered v, (cache, gateway)) else lookup_or cache gateway ask o)
choose true v o cache gateway ask = refl
choose false v o cache gateway ask = refl

-- What a call with an answer leaves in the cache.
abbrev Stores : (key : String) → JudgeOutcome → (before after : JudgeCallCache) → Type 0
Stores key v before after =
    (x : String) → lookup x after.values ≡ (if key == x then some v else lookup x before.values)

remember-Stores :
    {J : Type 0} (key : String) (s : Said) (before after : JudgeCallCache)
    (gateway gateway' : Option (ToolGateway J)) (v : JudgeOutcome)
    → remember key s before gateway ≡ (answered v, (after, gateway'))
    → Stores key v before after
remember-Stores key (threw e) before after gateway gateway' v h x = cc
remember-Stores key (said w) before after gateway gateway' v h x =
    let e : answered w ≡ answered v = ap (λ (r : Judged _). r.0) h in
    let same : w ≡ v = cc in
    ap (λ (r : Judged _). lookup x r.1.0.values) (sym h)
    ∙ lookup-insert key x w before.values
    ∙ ap (λ u. if key == x then some u else lookup x before.values) same

after_model-Stores :
    {J : Type 0} (reply : Reply (Unit {0})) (key : String) (s : Said)
    (before after : JudgeCallCache) (g : ToolGateway J) (gateway' : Option (ToolGateway J))
    (v : JudgeOutcome)
    → after_model reply key s before g ≡ (answered v, (after, gateway'))
    → Stores key v before after
after_model-Stores (raised e) key s before after g gateway' v h x = cc
after_model-Stores (returned u) key s before after g gateway' v h x =
    remember-Stores key s before after (some g) gateway' v h x

module _ {J : Type 0} (hash : JudgeHash) (evaluator : Evaluator) where
  -- A call that the cache does not answer.
  unfoldable pub ask_judge :
      TaskSpec
      → TrajectoryResult
      → (rubric name key : String) → JudgeCallCache
      → Option (ToolGateway J)
      → Judged J
  unfolding insert model concat
  ask_judge task t rubric name key cache none = remember key (evaluator task t) cache none
  ask_judge task t rubric name key cache (some g) =
      let (reply, g') =
        model name (pos (max 1 (count_chars rubric / 4))) (pos 32) "stop" (pos 250)
          (some (concat ("judge " ∷ t.trajectory_id ∷ []))) g in
      after_model reply key (evaluator task t) cache g'

  -- `cached_llm_judge`
  unfoldable pub cached_llm_judge :
      TaskSpec
      → TrajectoryResult
      → (rubric name : String) → JudgeCallCache
      → Option (ToolGateway J)
      → Judged J
  unfolding lookup ask_judge
  cached_llm_judge task t rubric name cache gateway =
      let key = key_of hash rubric name t in
      elim (lookup key cache.values) [
        | some v ↦ (answered v, (cache, gateway))
        | none ↦ ask_judge task t rubric name key cache gateway
      ]

  asked-Stores :
      (task : TaskSpec) (t : TrajectoryResult) (rubric name key : String)
      (before after : JudgeCallCache) (gateway gateway' : Option (ToolGateway J)) (v : JudgeOutcome)
      → ask_judge task t rubric name key before gateway ≡ (answered v, (after, gateway'))
      → Stores key v before after
  unfolding ask_judge
  asked-Stores task t rubric name key before after none gateway' v h x =
      remember-Stores key (evaluator task t) before after none gateway' v h x
  asked-Stores task t rubric name key before after (some g) gateway' v h x =
      let (reply, g') =
        model name (pos (max 1 (count_chars rubric / 4))) (pos 32) "stop" (pos 250)
          (some (concat ("judge " ∷ t.trajectory_id ∷ []))) g in
      after_model-Stores reply key (evaluator task t) before after g' gateway' v h x

  cached-Stores :
      (o : Option JudgeOutcome) (task : TaskSpec) (t : TrajectoryResult) (rubric name key : String)
      (before after : JudgeCallCache) (gateway gateway' : Option (ToolGateway J)) (v : JudgeOutcome)
      → lookup key before.values ≡ o
      → elim o as (λ _. Judged J) [
        | some w ↦ (answered w, (before, gateway))
        | none ↦ ask_judge task t rubric name key before gateway
      ]
        ≡ (answered v, (after, gateway'))
      → Stores key v before after
  cached-Stores (some w) task t rubric name key before after gateway gateway' v e h x =
      let same : w ≡ v = cc in
      ap (λ (r : Judged J). lookup x r.1.0.values) (sym h) ∙ elim (Bool-cases (key == x)) [
        | inl here ↦
            rw here
              (ap (λ k. lookup k before.values) (sym ((eq_iff key x).0 here)) ∙ e ∙ ap some same)
        | inr there ↦ rw there refl
      ]
  cached-Stores none task t rubric name key before after gateway gateway' v e h x =
      asked-Stores task t rubric name key before after gateway gateway' v h x

  -- Behind a call that was answered, any call whose rubric, model, output, outcome and failure class
  -- have the same hash gets the same answer, without asking, without an event and with the cache as
  -- it is; any other call gets what the cache held before the first, and else asks the judge.
  pub cached_llm_judge-next :
      (task task' : TaskSpec) (t t' : TrajectoryResult) (rubric rubric' name name' : String)
      (before after : JudgeCallCache) (gateway gateway' : Option (ToolGateway J)) (v : JudgeOutcome)
      → cached_llm_judge task t rubric name before gateway ≡ (answered v, (after, gateway'))
      → cached_llm_judge task' t' rubric' name' after gateway'
        ≡ next_answer
            (hash rubric name t.output t.outcome t.failure_class)
            (hash rubric' name' t'.output t'.outcome t'.failure_class)
            v
            before
            after
            gateway'
            (ask_judge task' t' rubric' name'
              (hash rubric' name' t'.output t'.outcome t'.failure_class)
              after
              gateway')
  unfolding cached_llm_judge
  cached_llm_judge-next task task' t t' rubric rubric' name name' before after gateway gateway' v
        h =
      let key = hash rubric name t.output t.outcome t.failure_class in
      let key' = hash rubric' name' t'.output t'.outcome t'.failure_class in
      let stored =
        cached-Stores (lookup key before.values) task t rubric name key before after gateway
          gateway' v refl h key' in
      let ask = ask_judge task' t' rubric' name' key' after gateway' in
      ap (lookup_or after gateway' ask) stored
      ∙ choose (key == key') v (lookup key' before.values) after gateway' ask
