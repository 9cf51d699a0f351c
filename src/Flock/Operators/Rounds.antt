-- ===== src/Flock/Operators/Rounds.antt =====
-- The rounds of `op_tournament`: who was beaten in which round, and how the answer follows it.
use murmur_ai_harness.Prelude.{
  ℕ, zero, suc, ◌+◌, ◌≤◌, ◌<◌, String, ◌≡◌, refl, sym, ap, ◌∙◌, inl, inr, false, Option, none, some,
  List, [], ◌∷◌, ◌++◌, arith, ◌==◌, eq_iff, eq_refl, ltb, leb, if◌then◌else◌, Bool-cases, length,
  select, All, count, All-map, sort, IsChain, sort-IsChain, All-sort, Dict, lookup, insert,
  lookup-insert,
}
use mathlib.Core.Path.{subst}
use murmur_ai_harness.Flock.Artifact.{Artifact, artifact_ids}
use murmur_ai_harness.Flock.Gateway.{done, done_inj}
use murmur_ai_harness.Flock.Operators.{
  NodeRun, NodeContext, bracket, standings, with_ranks, op_tournament, by_round, gather,
  compare_pair, pairs_of, bye_of, winners_of, record_losers,
}
use murmur_ai_harness.Flock.Operators.Bracket.{bind-done, is_out, AreDistinct, IsDecided, losers_of}
use murmur_ai_harness.Flock.Operators.Ranking.{others, played}

-- The results of each round, winner and loser of each comparison.
abbrev pub History : Type 0
History = List (List (Artifact × Artifact))

-- A tournament from a field: in each round the pairs of the field are compared, and the winners and
-- the odd one out are the next field, until one is left.
abbrev pub IsPlayed : NodeContext → List Artifact → NodeRun → History → Artifact → Type 0
IsPlayed ctx field s [] champion = field ≡ champion ∷ []
IsPlayed ctx field s (results ∷ later) champion =
    (1 < length field)
    × ((gather (compare_pair ctx) (pairs_of field) s).0 ≡ done results)
    × IsPlayed ctx (winners_of results ++ bye_of field)
        (gather (compare_pair ctx) (pairs_of field) s).1 later champion

-- The number of the round in which an id lost last, with the rounds numbered behind `r`; `before`
-- if it lost in none.
abbrev pub lost_in : ℕ → History → ℕ → String → ℕ
lost_in r [] before x = before
lost_in r (results ∷ later) before x =
    lost_in (r + 1) later
      (if ltb 0 (count x (artifact_ids (losers_of results))) then r + 1 else before) x

-- The round in which an item lost, from 1; 0 if no comparison beat it.
abbrev pub round_lost : History → Artifact → ℕ
round_lost history a = lost_in 0 history 0 a.id

-- The champion of the comparisons was beaten in none of them; each of the others was, and stands
-- before those that were beaten in an earlier round.
pub record IsByRounds (ctx : NodeContext) (s : NodeRun) (order : List Artifact) : Type 0 where
  pub champion : Artifact
  pub rest : List Artifact
  pub history : History
  pub first : order ≡ champion ∷ rest
  pub compared : IsPlayed ctx ctx.items s history champion
  pub unbeaten : round_lost history champion ≡ 0
  pub beaten : All (λ (a : Artifact). 0 < round_lost history a) rest
  pub in_order : IsChain (λ (a b : Artifact). round_lost history b ≤ round_lost history a) rest

abbrev round_at : Option ℕ → ℕ
round_at none = 0
round_at (some n) = n

record_losers-round :
    (x : String) (r : ℕ) (results : List (Artifact × Artifact)) (d : Dict ℕ)
    → round_at (lookup x (record_losers r results d))
      ≡ (if ltb 0 (count x (artifact_ids (losers_of results))) then r else round_at (lookup x d))
unfolding record_losers count
record_losers-round x r [] d = refl
record_losers-round x r ((w, l) ∷ rest) d =
    ground (arith, lookup-insert l.id x r d, record_losers-round x r rest (insert l.id r d))

record_losers-positive :
    (x : String) (r : ℕ) (results : List (Artifact × Artifact)) (d : Dict ℕ)
    → 0 < r
    → is_out (lookup x d) ≤ round_at (lookup x d)
    → is_out (lookup x (record_losers r results d))
      ≤ round_at (lookup x (record_losers r results d))
unfolding record_losers
record_losers-positive x r [] d pos_r h = h
record_losers-positive x r ((w, l) ∷ rest) d pos_r h =
    record_losers-positive x r rest (insert l.id r d) pos_r
      (ground (arith, lookup-insert l.id x r d))

-- The bracket's run: its comparisons, and that its rounds are those of the comparisons.
record IsTold (ctx : NodeContext) (r : ℕ) (cs : List Artifact) (d : Dict ℕ) (s : NodeRun)
    (final : List Artifact × Dict ℕ) : Type 0 where
  history : History
  champion : Artifact
  alone : final.0 ≡ champion ∷ []
  compared : IsPlayed ctx cs s history champion
  rounds : (x : String) → round_at (lookup x final.1) ≡ lost_in r history (round_at (lookup x d)) x
  positive : (x : String) → is_out (lookup x final.1) ≤ round_at (lookup x final.1)

bracket-IsTold :
    (ctx : NodeContext) (fuel r : ℕ) (cs : List Artifact) (d : Dict ℕ) (s : NodeRun)
    (final : List Artifact × Dict ℕ)
    → (bracket ctx fuel r cs d s).0 ≡ done final
    → 0 < length final.0
    → ((x : String) → is_out (lookup x d) ≤ round_at (lookup x d))
    → IsTold ctx r cs d s final
unfolding bracket
bracket-IsTold ctx fuel r [] d s final h left_over p =
    let e = ap (λ (f : List Artifact × Dict ℕ). length f.0) (done_inj h) in absurd (omega arith)
bracket-IsTold ctx fuel r (a ∷ []) d s final h left_over p =
    subst (IsTold ctx r (a ∷ []) d s) (done_inj h) (record {
      history = [];
      champion = a;
      alone = refl;
      compared = refl;
      rounds = λ x. refl;
      positive = p;
    })
bracket-IsTold ctx zero r (a ∷ b ∷ cs) d s final h left_over p = cc
bracket-IsTold ctx (suc fuel) r (a ∷ b ∷ cs) d s final h left_over p =
    let field = a ∷ b ∷ cs in
    let (results, compared, rest, _) =
      bind-done (gather (compare_pair ctx) (pairs_of field)) _ s final h in
    let t =
      bracket-IsTold ctx fuel (r + 1) (winners_of results ++ bye_of field)
        (record_losers (r + 1) results d) (gather (compare_pair ctx) (pairs_of field) s).1 final
        rest left_over (λ x. record_losers-positive x (r + 1) results d (omega arith) (p x)) in
    record {
      history = results ∷ t.history;
      champion = t.champion;
      alone = t.alone;
      compared = (omega arith, compared, t.compared);
      rounds = λ x.
          t.rounds x
          ∙ ap (λ n. lost_in (r + 1) t.history n x) (record_losers-round x (r + 1) results d);
      positive = t.positive;
    }

abbrev first_of : Artifact → List Artifact → Artifact
first_of a [] = a
first_of a (b ∷ bs) = b

not_out : (o : Option ℕ) → is_out o ≡ 0 → round_at o ≡ 0
not_out none h = refl
not_out (some n) h = absurd (omega arith)

-- The others were all beaten.
others_beaten :
    (items : List Artifact) (distinct : AreDistinct items) (final : List Artifact × Dict ℕ)
    (d : IsDecided items final) (xs : List Artifact)
    → ((x : String) → count x (artifact_ids xs) ≤ count x (artifact_ids items))
    → All (λ (a : Artifact). is_out (lookup a.id final.1) ≡ 1) (others d.champion xs)
unfolding select count
others_beaten items distinct final d [] within = tt
others_beaten items distinct final d (a ∷ xs) within =
    let rest = others_beaten items distinct final d xs (λ x. omega (arith, within x)) in
    elim (Bool-cases (a.id == d.champion.id)) [
      | inl same ↦ rw same rest
      | inr other ↦ rw other (
        ground (
          arith,
          d.out a.id,
          within a.id,
          distinct a.id,
          eq_refl a.id,
          eq_iff d.champion.id a.id,
          eq_iff a.id d.champion.id,
        ),
        rest,
      )
    ]

decided-IsByRounds :
    (ctx : NodeContext) (s : NodeRun) (distinct : AreDistinct ctx.items)
    (final : List Artifact × Dict ℕ) (d : IsDecided ctx.items final)
    → IsTold ctx 0 ctx.items [] s final
    → IsByRounds ctx s (standings ctx.items final)
unfolding standings count lookup
decided-IsByRounds ctx s distinct final d t =
    let same : t.champion ≡ d.champion = ap (first_of d.champion) (sym t.alone ∙ d.alone) in
    record {
      champion = d.champion;
      rest = sort (by_round final.1) (others d.champion ctx.items);
      history = t.history;
      first = rw d.alone refl;
      compared = subst (IsPlayed ctx ctx.items s t.history) same t.compared;
      unbeaten =
          sym (t.rounds d.champion.id)
          ∙ not_out (lookup d.champion.id final.1)
              (ground (arith, d.out d.champion.id, distinct d.champion.id, eq_refl d.champion.id));
      beaten =
          All-map (λ (a : Artifact). is_out (lookup a.id final.1) ≡ 1)
            (λ a. 0 < round_lost t.history a)
            (sort (by_round final.1) (others d.champion ctx.items))
            (λ a out. let p = t.positive a.id in let e = t.rounds a.id in ground (arith, out, p, e))
            (All-sort (λ (a : Artifact). is_out (lookup a.id final.1) ≡ 1) (by_round final.1)
              (others d.champion ctx.items)
              (others_beaten ctx.items distinct final d ctx.items (λ x. omega arith)));
      in_order =
          sort-IsChain (by_round final.1)
            (λ (a b : Artifact). round_lost t.history b ≤ round_lost t.history a)
            (λ a b h. let e = t.rounds a.id in let f = t.rounds b.id in ground arith)
            (λ a b h. let e = t.rounds a.id in let f = t.rounds b.id in ground arith)
            (λ a b c h k. omega arith) (others d.champion ctx.items);
    }

-- With two items or more of distinct ids, the answer follows the comparisons that were made, round
-- by round: at its head is the champion of the last round, whom no comparison beat; all others
-- were beaten, and stand by the round they lost in, the last round first.
pub op_tournament-IsByRounds :
    (ctx : NodeContext) (s : NodeRun) (out : List Artifact)
    → AreDistinct ctx.items
    → 1 < length ctx.items
    → (op_tournament ctx s).0 ≡ done out
    → (order : List Artifact) × (out ≡ with_ranks 0 order) × IsByRounds ctx s order
unfolding op_tournament lookup
op_tournament-IsByRounds ctx s out distinct two h =
    let many : leb (length ctx.items) 1 ≡ false = ground arith in
    let (final, d, ran, e, _) = played ctx s out distinct (omega arith) (rw many at h) in
    (
      standings ctx.items final,
      sym e,
      decided-IsByRounds ctx s distinct final d (
          bracket-IsTold ctx (length ctx.items) 0 ctx.items [] s final ran
            (rw d.alone (omega arith)) (λ x. omega arith)),
    )
