-- ===== src/Flock/Operators/Fuel.antt =====
-- The loop of `op_tournament` ends within its fuel.
use murmur_ai_harness.Prelude.{
  ℕ, zero, suc, ◌+◌, ◌≤◌, ◌<◌, ◌≡◌, refl, List, [], ◌∷◌, ◌++◌, arith, length, Dict,
}
use murmur_ai_harness.Flock.Artifact.{Artifact}
use murmur_ai_harness.Flock.Gateway.{Outcome, done, raised, Exec, and_then, ◌>>=◌}
use murmur_ai_harness.Flock.Operators.{
  NodeRun, NodeContext, gather, compare_pair, bracket, pairs_of, bye_of, winners_of, record_losers,
}
use murmur_ai_harness.Flock.Operators.Bracket.{gather-Zip, Beats, compare_pair-Beats, round_length}

-- Two continuations that agree on what a method returns.
same_after :
    {S A B : Type 0} (m : Exec S A) (f g : A → Exec S B) (s : S)
    → ((a : A) → (m s).0 ≡ done a → f a (m s).1 ≡ g a (m s).1)
    → (m >>= f) s ≡ (m >>= g) s
same_after {A = A} m f g s agree = go (m s).0 refl
  where
    go : (o : Outcome A) → (m s).0 ≡ o → and_then o f (m s).1 ≡ and_then o g (m s).1
    go (done a) e = agree a e
    go (raised x) e = refl

some_pair : (a b : Artifact) (cs : List Artifact) → 0 < length (pairs_of (a ∷ b ∷ cs))
unfolding pairs_of
some_pair a b cs = omega arith

-- Fuel that is not below the number of contestants never runs out: all such fuels give the same
-- outcome and the same state, whatever the model answers or raises.
pub bracket_fuel :
    (ctx : NodeContext) (fuel more r : ℕ) (cs : List Artifact) (d : Dict ℕ) (s : NodeRun)
    → length cs ≤ fuel
    → length cs ≤ more
    → bracket ctx fuel r cs d s ≡ bracket ctx more r cs d s
unfolding bracket
bracket_fuel ctx zero zero r [] d s h k = refl
bracket_fuel ctx zero (suc g) r [] d s h k = refl
bracket_fuel ctx (suc f) zero r [] d s h k = refl
bracket_fuel ctx (suc f) (suc g) r [] d s h k = refl
bracket_fuel ctx zero g r (a ∷ cs) d s h k = absurd (omega arith)
bracket_fuel ctx (suc f) zero r (a ∷ cs) d s h k = absurd (omega arith)
bracket_fuel ctx (suc f) (suc g) r (a ∷ []) d s h k = refl
bracket_fuel ctx (suc f) (suc g) r (a ∷ b ∷ cs) d s h k =
    let field = a ∷ b ∷ cs in
    same_after (gather (compare_pair ctx) (pairs_of field)) _ _ s (λ results played.
      let z =
        gather-Zip (compare_pair ctx) Beats (compare_pair-Beats ctx) (pairs_of field) s results
          played in
      let size = round_length field results z in
      let fewer : length (winners_of results ++ bye_of field) < length field =
        omega (arith, size, some_pair a b cs) in
      bracket_fuel ctx f g (r + 1) (winners_of results ++ bye_of field)
        (record_losers (r + 1) results d) (gather (compare_pair ctx) (pairs_of field) s).1
        (omega arith) (omega arith))
