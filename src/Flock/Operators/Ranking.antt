-- ===== src/Flock/Operators/Ranking.antt =====
-- What `op_tournament` returns.
use murmur_ai_harness.Prelude.{
  ℕ, zero, suc, ◌+◌, ◌-◌, ◌≤◌, ◌<◌, ◌≡◌, refl, inl, inr, true, false, not, Option, some, List, [],
  ◌∷◌, map, arith, ◌==◌, eq_iff, eq_refl, leb, Bool-cases, length, select, All, count, Has, All-Has,
  length-sort, sort-perm, Dict, lookup, lookup-insert,
}
use mathlib.Core.Path.{subst}
use mathlib.Core.List.{Perm}
use mathlib.Core.List.Perm
use murmur_ai_harness.Flock.Artifact.{Artifact, artifact_ids, MetaValue, number}
use murmur_ai_harness.Flock.Gateway.{done, done_inj}
use murmur_ai_harness.Flock.Operators.{
  NodeRun, NodeContext, bracket, standings, with_ranks, op_tournament, by_round, play,
}
use murmur_ai_harness.Flock.Operators.Bracket.{
  bind-done, AreDistinct, Splits, IsDecided, bracket-IsDecided, bracket-calls,
}

abbrev pub others : Artifact → List Artifact → List Artifact
others c items = select (λ it. not (it.id == c.id)) items

select_absent :
    (c : Artifact) (items : List Artifact)
    → count c.id (artifact_ids items) ≡ 0
    → others c items ≡ items
unfolding select count
select_absent c [] h = refl
select_absent c (a ∷ items) h =
    ground (arith, select_absent c items, eq_iff a.id c.id, eq_iff c.id a.id)

Has→count :
    (c : Artifact) (items : List Artifact) → Has c items → 0 < count c.id (artifact_ids items)
unfolding count
Has→count c [] h = absurd h
Has→count c (a ∷ items) (inl e) = rw (e, eq_refl c.id) (omega arith)
Has→count c (a ∷ items) (inr m) = omega (arith, Has→count c items m)

first_only :
    (c a : Artifact) (items : List Artifact)
    → a ≡ c
    → count c.id (artifact_ids (a ∷ items)) ≤ 1
    → count c.id (artifact_ids items) ≡ 0
unfolding count
first_only c a items e once = let once' = rw (e, eq_refl c.id) at once in omega arith

-- With distinct ids, taking off the champion's id takes off the champion alone.
others-perm :
    (c : Artifact) (items : List Artifact)
    → Has c items
    → count c.id (artifact_ids items) ≤ 1
    → Perm (c ∷ others c items) items
unfolding select count
others-perm c [] h once = absurd h
others-perm c (a ∷ items) (inl e) once =
    rw (e, eq_refl c.id) (rw (select_absent c items (first_only c a items e once)) Perm.rfl)
others-perm c (a ∷ items) (inr m) once = elim (Bool-cases (a.id == c.id)) [
  | inl same ↦ absurd (ground (arith, Has→count c items m))
  | inr other ↦ rw other (
      Perm.trans (Perm.swap a c (others c items))
        (Perm.cons a (others-perm c items m (ground arith))))
]

by_round-total : (d : Dict ℕ) (x y : Artifact) → by_round d x y ≡ false → by_round d y x ≡ true
by_round-total d x y h = ground arith

by_round_trans :
    (d : Dict ℕ) (x y z : Artifact)
    → by_round d x y ≡ true
    → by_round d y z ≡ true
    → by_round d x z ≡ true
by_round_trans d x y z h k = ground arith

-- 1, 2, …, n, as the values of "rank".
abbrev pub rank_numbers : ℕ → ℕ → List (Option MetaValue)
rank_numbers i zero = []
rank_numbers i (suc n) = some (number (i + 1)) ∷ rank_numbers (i + 1) n

with_ranks-numbers :
    (i : ℕ) (xs : List Artifact)
    → map (λ (a : Artifact). lookup "rank" a.meta) (with_ranks i xs) ≡ rank_numbers i (length xs)
unfolding with_ranks
with_ranks-numbers i [] = refl
with_ranks-numbers i (a ∷ xs) = ground (
  arith,
  lookup-insert "rank" "rank" (number (i + 1)) a.meta,
  eq_refl "rank",
  with_ranks-numbers (i + 1) xs,
)

-- The tournament's answer: every item once, from the champion down, numbered from 1.
pub record IsRanking (items out : List Artifact) : Type 0 where
  pub order : List Artifact
  pub ranked : out ≡ with_ranks 0 order
  pub same_items : Perm order items
  pub numbers : map (λ (a : Artifact). lookup "rank" a.meta) out ≡ rank_numbers 0 (length order)

IsRanking-of :
    (items order : List Artifact) → Perm order items → IsRanking items (with_ranks 0 order)
IsRanking-of items order p = record {
  order = order;
  ranked = refl;
  same_items = p;
  numbers = with_ranks-numbers 0 order;
}

module _ (items : List Artifact) (distinct : AreDistinct items) (final : List Artifact × Dict ℕ)
    (d : IsDecided items final) where
  standings-perm : Perm (standings items final) items
  unfolding standings
  standings-perm = rw d.alone (
      Perm.trans (Perm.cons d.champion (sort-perm (by_round final.1) (others d.champion items)))
        (others-perm d.champion items d.contestant (distinct d.champion.id)))

All-Has-self : (xs : List Artifact) → All (λ x. Has x xs) xs
All-Has-self xs = All-Has xs xs (λ x m. m)

Splits-start : (items : List Artifact) → Splits items items []
unfolding lookup
Splits-start items x = omega arith

-- The bracket's run inside a tournament of two items or more.
module _ (ctx : NodeContext) (s : NodeRun) (out : List Artifact) (distinct : AreDistinct ctx.items)
    (some_items : 0 < length ctx.items) (h : (play ctx s).0 ≡ done out) where
  pub played :
      (final : List Artifact × Dict ℕ) × IsDecided ctx.items final
      × ((bracket ctx (length ctx.items) 0 ctx.items [] s).0 ≡ done final)
      × (with_ranks 0 (standings ctx.items final) ≡ out)
      × ((play ctx s).1.calls + 1 ≡ s.calls + length ctx.items)
  unfolding play
  played =
      let (final, ran, answer, same) =
        bind-done (bracket ctx (length ctx.items) 0 ctx.items []) _ s out h in
      (
        final,
        bracket-IsDecided ctx ctx.items distinct (length ctx.items) 0 ctx.items [] s final ran
            some_items (All-Has-self ctx.items) (Splits-start ctx.items),
        ran,
        done_inj answer,
        rw same (bracket-calls ctx (length ctx.items) 0 ctx.items [] s final ran some_items),
      )

-- With distinct ids the answer ranks every item exactly once, and the bracket took one model call
-- less than there are items.
pub op_tournament-IsRanking :
    (ctx : NodeContext) (s : NodeRun) (out : List Artifact)
    → AreDistinct ctx.items
    → (op_tournament ctx s).0 ≡ done out
    → IsRanking ctx.items out × ((op_tournament ctx s).1.calls ≡ s.calls + (length ctx.items - 1))
unfolding op_tournament
op_tournament-IsRanking ctx s out distinct h = elim (Bool-cases (leb (length ctx.items) 1)) [
  | inl few ↦ (
    subst (IsRanking ctx.items) (done_inj (rw few at h))
        (IsRanking-of ctx.items ctx.items Perm.rfl),
    rw few (ground arith),
  )
  | inr many ↦
      let (final, decided, ran, e, calls) =
        played ctx s out distinct (ground arith) (rw many at h) in
      (
        subst (IsRanking ctx.items) e (
            IsRanking-of ctx.items (standings ctx.items final)
              (standings-perm ctx.items distinct final decided)),
        rw many (
            let less : (play ctx s).1.calls ≡ s.calls + (length ctx.items - 1) =
              ground (arith, calls) in
            less),
      )
]

-- The bug that duplicate ids bring: whoever shares the champion's id is dropped from the answer.
others_lost :
    (c : Artifact) (items : List Artifact)
    → length (others c items) + count c.id (artifact_ids items) ≡ length items
unfolding select count
others_lost c [] = refl
others_lost c (a ∷ items) = ground (arith, others_lost c items)

-- Items that share the champion's id fall out of the standings.
pub standings_lose_duplicates :
    (items : List Artifact) (champion : Artifact) (eliminated : Dict ℕ)
    → 1 < count champion.id (artifact_ids items)
    → length (standings items (champion ∷ [], eliminated)) < length items
unfolding standings
standings_lose_duplicates items champion eliminated twice =
    omega
      (arith, others_lost champion items, length-sort (by_round eliminated) (others champion items))
