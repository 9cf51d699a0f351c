-- ===== src/Examples/Items.antt =====
-- Items that are ranked, filtered and refined.
use murmur_ai_harness.Prelude.{
  ℕ, ◌<◌, String, ◌≡◌, refl, false, List, [], ◌∷◌, ◌++◌, arith, ◌==◌, eq_iff, concat, length,
  select, count, sort, IsChain, insert,
}
use Prim.Native.Nat.{◌≤◌}
use mathlib.Core.List.{Perm}
use murmur_ai_harness.Examples.{node_of, artifact_of, fake, plain, meter_of}
use murmur_ai_harness.Flock.Artifact.{Artifact, number}
use murmur_ai_harness.Flock.Gateway.{done, complete, estimate_tokens}
use murmur_ai_harness.Flock.Operators.{
  NodeContext, NodeRun, op_tournament, op_filter, standings, with_ranks, refine, gather, pairs_of,
  compare_pair, bye_of, call, bracket,
}
use murmur_ai_harness.Flock.Operators.Bracket.{AreDistinct}
use murmur_ai_harness.Flock.Operators.Ranking.{
  op_tournament-IsRanking, standings_lose_duplicates, IsRanking,
}
use murmur_ai_harness.Flock.Operators.Rounds.{op_tournament-IsByRounds, IsByRounds}
use murmur_ai_harness.Flock.Operators.Filter.{op_filter-best, IsNoWorse}
use murmur_ai_harness.Flock.Operators.Fuel.{bracket_fuel}
use murmur_ai_harness.Flock.Operators.Loops.{refine-IsLoopEnd, IsLoopEnd}

abbrev drafts : List Artifact
drafts = artifact_of "x" "first" "trusted" ∷ artifact_of "y" "second" "trusted" ∷ []

abbrev contest : NodeContext
contest = record {
  node = node_of "best" "tournament" ("docs" ∷ []) "trusted";
  items = drafts;
  model = fake;
  py = plain;
}

abbrev at_start : NodeRun
at_start = record { meter = meter_of 1000 0; calls = 0 }

abbrev with_rank : ℕ → Artifact → Artifact
with_rank n a = record a { meta = ("rank", number n) ∷ [] }

two_distinct : (a b x : String) → (a == b) ≡ false → count x (a ∷ b ∷ []) ≤ 1
unfolding count
two_distinct a b x other = ground (arith, eq_iff a x, eq_iff b x, eq_iff a b)

distinct : AreDistinct drafts
distinct x = two_distinct "x" "y" x refl

abbrev ranking : List Artifact
ranking =
    with_rank 1 (artifact_of "x" "first" "trusted")
    ∷ with_rank 2 (artifact_of "y" "second" "trusted")
    ∷ []

wins : (op_tournament contest at_start).0 ≡ done ranking
unfolding op_tournament gather pairs_of compare_pair complete estimate_tokens concat bye_of insert
    sort select
wins = refl

op_tournament-IsRanking_example :
    IsRanking drafts ranking × ((op_tournament contest at_start).1.calls ≡ 1)
op_tournament-IsRanking_example = op_tournament-IsRanking contest at_start ranking distinct wins

op_tournament-IsByRounds_example :
    (order : List Artifact) × (ranking ≡ with_ranks 0 order) × IsByRounds contest at_start order
op_tournament-IsByRounds_example =
    op_tournament-IsByRounds contest at_start ranking distinct (omega arith) wins

op_filter-best_example :
    (kept left_out : List Artifact) × (op_filter contest at_start ≡ (done kept, at_start))
    × (length kept ≡ 1)
    × Perm (kept ++ left_out) drafts
    × IsChain (IsNoWorse plain) (kept ++ left_out)
op_filter-best_example = op_filter-best contest at_start

abbrev twins : List Artifact
twins = artifact_of "x" "first" "trusted" ∷ artifact_of "x" "second" "trusted" ∷ []

standings_lose_duplicates_example :
    length (standings twins (artifact_of "x" "first" "trusted" ∷ [], [])) < 2
unfolding count
standings_lose_duplicates_example =
    standings_lose_duplicates twins (artifact_of "x" "first" "trusted") [] (omega arith)

two_iterations : (refine contest 2 0 "draft" at_start).0 ≡ done ("A", 2)
unfolding refine call complete estimate_tokens
two_iterations = refl

refine-IsLoopEnd_example :
    IsLoopEnd contest 2 0 "draft" at_start (refine contest 2 0 "draft" at_start).1 ("A", 2)
refine-IsLoopEnd_example = refine-IsLoopEnd contest 2 0 "draft" at_start ("A", 2) two_iterations

bracket_fuel_example :
    bracket contest 2 0 drafts [] at_start ≡ bracket contest 9 0 drafts [] at_start
bracket_fuel_example = bracket_fuel contest 2 9 0 drafts [] at_start (omega arith) (omega arith)
