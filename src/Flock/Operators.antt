-- ===== src/Flock/Operators.antt =====
-- murmur/flock/operators.py: the seven operators. Calls that the program gathers are made here one
-- after the other, each to its end; the first exception is raised when all have ended.
pub mod Bracket
pub mod Fuel
pub mod Ranking
pub mod Rounds
pub mod Filter
pub mod Loops
pub mod Effects
pub mod Taint
use murmur_ai_harness.Prelude.{
  ℕ, zero, suc, ◌+◌, ◌-◌, ◌*◌, ◌/◌, ◌%◌, ◌≤◌, ◌<◌, min, max, String, ◌≡◌, refl, sym, ap, ◌∙◌, ◌≢◌,
  ◌↔◌, ◌⊎◌, inl, inr, Bool, true, false, not, ◌&&◌, ◌||◌, Option, none, some, List, [], ◌∷◌, ◌++◌,
  map, arith, ◌==◌, eq_iff, eq_refl, ltb, leb, nat_eq, str_le, if◌then◌else◌, leb→le, le→leb,
  nat_eq_iff, &&_iff, Bool-cases, Option-cases, concat, has_text, join, length, take, drop,
  length-append, take-append-drop, length-take, select, All, all, any, contains, IsUnique, count,
  count-append, contains-append, contains→count, count→contains, length-map, Has, Zip, All-map,
  All-intro, map-cong, All-Has, Has-map, length-select-cons, length-select, Has-select, Has-last,
  Has→contains, append-eq-nil, place, sort, length-sort, sorted, count-sort, count-sorted,
  length-sorted, place-perm, sort-perm, IsSorted, sort-IsSorted, All-sort, Has-sort, Dict, lookup,
  insert, update, keys, lookup-insert, lookup-update, pos_part, is_nonpos, neg_part, sub_ℕ, ◌+ℤ◌,
  leb_ℤ, ℤ, pos, negsuc,
}
use Prim.Native.Char.{code}
use package.text.Mathlib.Text.{starts_with}
use murmur_ai_harness.Flock.Ir.{Node, Params}
use murmur_ai_harness.Flock.Artifact.{
  Artifact, artifact_ids, MetaValue, number, flag, text, texts, with_meta, Texts,
}
use murmur_ai_harness.Flock.Gateway.{
  Fault, Outcome, done, raised, ModelReply, Request, Model, Meter, Exec, and_then, ◌>>=◌, ◌>>◌,
  pure, complete, raise,
}

-- The state of one node's run: what the run shares, and the node's successful calls.
pub record NodeRun : Type 0 where
  pub meter : Meter
  pub calls : ℕ

-- What an operator reads: the node, its resolved inputs, and the outside world.
pub record NodeContext : Type 0 where
  pub node : Node
  pub items : List Artifact
  pub model : Model
  pub py : Texts

-- `NodeContext.call`
unfoldable pub call : NodeContext → String → String → Exec NodeRun String
call ctx system user s =
    let request : Request = record {
      model = ctx.node.model;
      system = system;
      user = user;
      effort = ctx.node.effort;
    } in
    let (out, m) = complete ctx.model ctx.node.id request s.meter in
    elim out [
      | done reply ↦ (done reply.text, record { meter = m; calls = s.calls + 1 })
      | raised e ↦ (raised e, record { meter = m; calls = s.calls })
    ]

abbrev pub is_tainted : Artifact → Bool
is_tainted a = a.trust == "untrusted"

-- `NodeContext.output_trust`
unfoldable pub output_trust : NodeContext → String
output_trust ctx =
    if ctx.node.trust == "untrusted" || any is_tainted ctx.items then "untrusted" else "trusted"

abbrev pub or_default : String → String → String
or_default s d = if s == "" then d else s

abbrev pub both {ℓ} : {A : Type ℓ} → Outcome A → Outcome (List A) → Outcome (List A)
both (done a) (done as') = done (a ∷ as')
both (done a) (raised e) = raised e
both (raised e) _ = raised e

-- `asyncio.gather`
unfoldable pub gather {ℓ κ} :
    {S : Type 0} {A : Type ℓ} {B : Type κ} → (A → Exec S B) → List A → Exec S (List B)
gather f [] s = (done [], s)
gather f (x ∷ xs) s =
    let (out, s') = f x s in let (outs, s'') = gather f xs s' in (both out outs, s'')

-- One subagent of `op_map`.
unfoldable pub map_one : NodeContext → Artifact → Exec NodeRun Artifact
unfolding call output_trust
map_one ctx item = do
  reply ←
      call ctx (or_default ctx.node.role "Process this item and return the result.") item.content
  pure (record {
    id = concat (ctx.node.id ∷ ":" ∷ item.id ∷ []);
    content = reply;
    score = ctx.py.parse_score reply;
    meta = ("source_item", text item.id) ∷ [];
    trust = output_trust ctx;
  })

unfoldable pub op_map : NodeContext → Exec NodeRun (List Artifact)
unfolding map_one gather
op_map ctx = gather (map_one ctx) ctx.items

unfoldable pub op_reduce : NodeContext → Exec NodeRun (List Artifact)
unfolding call output_trust
op_reduce ctx = do
  let merged =
      join "\n\n" (map (λ (a : Artifact). concat ("[" ∷ a.id ∷ "]\n" ∷ a.content ∷ [])) ctx.items)
  reply ←
      call ctx (or_default ctx.node.role "Synthesize the inputs into one coherent result.")
        (or_default merged "(no inputs)")
  pure (
      record {
        id = ctx.node.id;
        content = reply;
        score = none;
        meta = ("merged_from", texts (artifact_ids ctx.items)) ∷ [];
        trust = output_trust ctx;
      }
      ∷ [])

abbrev pub first_content : List Artifact → String → String
first_content [] default = default
first_content (a ∷ as') default = a.content

abbrev pub or_unknown : Option String → String
or_unknown none = "unknown"
or_unknown (some s) = s

unfoldable pub op_classify : NodeContext → Exec NodeRun (List Artifact)
unfolding call output_trust
op_classify ctx = do
  reply ←
      call ctx (or_default ctx.node.role "Classify the input. Reply with a single short label.")
        (first_content ctx.items "")
  let label = or_unknown (ctx.py.first_line reply)
  pure (
      record {
        id = ctx.node.id;
        content = label;
        score = none;
        meta = ("label", text label) ∷ [];
        trust = output_trust ctx;
      }
      ∷ [])

-- params.get("top_k", len(items))
abbrev pub top_k_of : NodeContext → ℤ
top_k_of ctx = elim ctx.node.params.top_k [ none ↦ pos (length ctx.items) | some k ↦ k ]

unfoldable pub score_of : Texts → Artifact → ℤ
score_of py a = elim a.score [
  | some s ↦ s
  | none ↦ elim (py.parse_score a.content) [ some s ↦ s | none ↦ pos 0 ]
]

-- `sorted(…, key=…, reverse=True)` keeps equal items in their order.
abbrev pub by_score : Texts → Artifact → Artifact → Bool
by_score py a b = leb_ℤ (score_of py b) (score_of py a)

unfoldable pub op_filter : NodeContext → Exec NodeRun (List Artifact)
op_filter ctx = pure (take (pos_part (top_k_of ctx)) (sort (by_score ctx.py) ctx.items))

-- The loop over the verdict's characters: `true` for A.
unfoldable pub pick : String → Option Bool
pick String.[] = none
pick (String.◌∷◌ c s) =
    if nat_eq (code c) b'A' then some true else if nat_eq (code c) b'B' then some false else pick s

-- The winner and the loser. With no clear pick A wins.
abbrev pub verdict : Option Bool → Artifact × Artifact → Artifact × Artifact
verdict none (a, b) = (a, b)
verdict (some true) (a, b) = (a, b)
verdict (some false) (a, b) = (b, a)

-- `_compare`
unfoldable pub compare_pair : NodeContext → Artifact × Artifact → Exec NodeRun (Artifact × Artifact)
unfolding call pick
compare_pair ctx (a, b) = do
  reply ←
      call ctx
        (or_default ctx.node.role "Which candidate is stronger? Reply 'A' or 'B' with a reason.")
        (concat (
          "Candidate A:\n" ∷ a.content ∷ "\n\nCandidate B:\n" ∷ b.content
          ∷ "\n\nWhich is stronger? Reply with 'A' or 'B' first, then a one-line reason." ∷ []))
  pure (verdict (pick (ctx.py.upper (ctx.py.strip reply))) (a, b))

unfoldable pub pairs_of {ℓ} : {A : Type ℓ} → List A → List (A × A)
pairs_of [] = []
pairs_of (a ∷ []) = []
pairs_of (a ∷ b ∷ rest) = (a, b) ∷ pairs_of rest

-- The odd one out.
unfoldable pub bye_of {ℓ} : {A : Type ℓ} → List A → List A
bye_of [] = []
bye_of (a ∷ []) = a ∷ []
bye_of (a ∷ b ∷ rest) = bye_of rest

unfoldable pub record_losers : ℕ → List (Artifact × Artifact) → Dict ℕ → Dict ℕ
record_losers round_no [] d = d
record_losers round_no ((w, l) ∷ rest) d = record_losers round_no rest (insert l.id round_no d)

abbrev pub winners_of : List (Artifact × Artifact) → List Artifact
winners_of results = map (λ (r : Artifact × Artifact). r.0) results

-- The loop `while len(contenders) > 1`, from the number of the round before. `raised` with a
-- `value_error` at the end of the fuel never happens.
unfoldable pub bracket :
    NodeContext → ℕ → ℕ → List Artifact → Dict ℕ → Exec NodeRun (List Artifact × Dict ℕ)
bracket ctx fuel round_no [] eliminated = pure ([], eliminated)
bracket ctx fuel round_no (a ∷ []) eliminated = pure (a ∷ [], eliminated)
bracket ctx zero round_no (a ∷ b ∷ rest) eliminated = raise (Fault.value_error "no fuel")
bracket ctx (suc fuel) round_no (a ∷ b ∷ rest) eliminated = do
  results ← gather (compare_pair ctx) (pairs_of (a ∷ b ∷ rest))
  bracket ctx fuel (round_no + 1) (winners_of results ++ bye_of (a ∷ b ∷ rest))
      (record_losers (round_no + 1) results eliminated)

abbrev pub round_of : Dict ℕ → Artifact → ℕ
round_of eliminated a = elim (lookup a.id eliminated) [ none ↦ 0 | some n ↦ n ]

abbrev pub by_round : Dict ℕ → Artifact → Artifact → Bool
by_round eliminated a b = leb (round_of eliminated b) (round_of eliminated a)

-- [it.with_meta(rank=i + 1) for i, it in enumerate(…)]
unfoldable pub with_ranks : ℕ → List Artifact → List Artifact
unfolding with_meta
with_ranks i [] = []
with_ranks i (a ∷ as') = with_meta "rank" (number (i + 1)) a ∷ with_ranks (i + 1) as'

-- The champion, then the others by the round they lost in, the last first.
unfoldable pub standings : List Artifact → List Artifact × Dict ℕ → List Artifact
standings items ([], eliminated) = []
standings items (champion ∷ _, eliminated) =
    champion ∷ sort (by_round eliminated) (select (λ it. not (it.id == champion.id)) items)

-- The tournament of two items or more.
unfoldable pub play : NodeContext → Exec NodeRun (List Artifact)
unfolding bracket with_ranks standings
play ctx = do
  final ← bracket ctx (length ctx.items) 0 ctx.items []
  pure (with_ranks 0 (standings ctx.items final))

unfoldable pub op_tournament : NodeContext → Exec NodeRun (List Artifact)
unfolding play
op_tournament ctx = if leb (length ctx.items) 1 then pure (with_ranks 0 ctx.items) else play ctx

-- items[:k] and items[k:], where a negative k counts from the end.
unfoldable pub slice_to {ℓ} : {A : Type ℓ} → ℤ → List A → List A
slice_to (pos k) xs = take k xs
slice_to (negsuc k) xs = take (length xs - suc k) xs

unfoldable pub slice_from {ℓ} : {A : Type ℓ} → ℤ → List A → List A
slice_from (pos k) xs = drop k xs
slice_from (negsuc k) xs = drop (length xs - suc k) xs

unfoldable pub refute : NodeContext → Artifact → Exec NodeRun Artifact
unfolding call with_meta
refute ctx item = do
  reply ←
      call ctx
        (or_default ctx.node.role
          "Adversarially challenge this artifact. List concrete flaws, or reply 'OK' if you find none.")
        item.content
  let critique = ctx.py.strip reply
  let contested = not (critique == "") && not (starts_with (ctx.py.upper critique) "OK")
  pure (
      with_meta "critique" (text (ctx.py.first_500 critique))
        (with_meta "contested" (flag contested) item))

unfoldable pub op_verify : NodeContext → Exec NodeRun (List Artifact)
unfolding refute gather slice_to slice_from
op_verify ctx = do
  verified ← gather (refute ctx) (slice_to (top_k_of ctx) ctx.items)
  pure (verified ++ slice_from (top_k_of ctx) ctx.items)

abbrev pub stop_of : NodeContext → String
stop_of ctx = elim ctx.node.params.stop [ none ↦ "DONE" | some s ↦ s ]

-- max(1, int(params.get("max_iters", 3)))
abbrev pub max_iters_of : NodeContext → ℕ
max_iters_of ctx = elim ctx.node.params.max_iters [ none ↦ 3 | some k ↦ max 1 (pos_part k) ]

-- if stop and stop in draft
abbrev pub is_final : NodeContext → String → Bool
is_final ctx draft = not (stop_of ctx == "") && has_text (stop_of ctx) draft

-- The `for` loop, over the iterations left: the draft and the iterations made.
unfoldable pub refine : NodeContext → ℕ → ℕ → String → Exec NodeRun (String × ℕ)
refine ctx zero iterations draft = pure (draft, iterations)
refine ctx (suc left) iterations draft = do
  reply ←
      call ctx
        (or_default ctx.node.role "Improve the draft. Append 'DONE' on its own line when complete.")
        draft
  let more = refine ctx left (iterations + 1) reply
  if is_final ctx reply then pure (reply, iterations + 1) else more

unfoldable pub op_loop : NodeContext → Exec NodeRun (List Artifact)
unfolding refine output_trust
op_loop ctx = do
  (draft, iterations) ← refine ctx (max_iters_of ctx) 0 (first_content ctx.items ctx.node.role)
  pure (
      record {
        id = ctx.node.id;
        content = draft;
        score = none;
        meta = ("iterations", number iterations) ∷ [];
        trust = output_trust ctx;
      }
      ∷ [])

-- `OPERATORS[op]`, which raises a `KeyError` for another name.
unfoldable pub run_operator : NodeContext → Exec NodeRun (List Artifact)
run_operator ctx =
    let op = ctx.node.op in
    if op == "classify"
    then op_classify ctx
    else if op == "map"
    then op_map ctx
    else if op == "reduce"
    then op_reduce ctx
    else if op == "tournament"
    then op_tournament ctx
    else if op == "verify"
    then op_verify ctx
    else if op == "filter"
    then op_filter ctx
    else if op == "loop"
    then op_loop ctx
    else λ s. (raised (Fault.key_error op), s)
