-- ===== src/Flock/Operators/Taint.antt =====
-- What an operator puts out of trusted items in a trusted node.
use murmur_ai_harness.Prelude.{
  ℕ, zero, suc, ◌+◌, ◌≡◌, refl, inl, inr, Bool, true, false, not, List, [], ◌∷◌, ◌++◌, arith, ◌==◌,
  if◌then◌else◌, Bool-cases, length, take, drop, select, All, any, Zip, All-sort, Dict, pos_part, ℤ,
  pos, negsuc,
}
use mathlib.Core.Path.{subst}
use murmur_ai_harness.Flock.Artifact.{Artifact, with_meta}
use murmur_ai_harness.Flock.Gateway.{done, done_inj, Exec, ◌>>=◌, pure, raised, Fault}
use murmur_ai_harness.Flock.Operators.{
  NodeRun, NodeContext, is_tainted, output_trust, call, gather, map_one, op_map, op_reduce,
  op_classify, op_filter, by_score, top_k_of, compare_pair, pairs_of, bye_of, winners_of,
  record_losers, bracket, by_round, standings, with_ranks, play, op_tournament, slice_to,
  slice_from, refute, op_verify, op_loop, run_operator,
}
use murmur_ai_harness.Flock.Operators.Bracket.{bind-done, gather-Zip, compare_pair-Beats, round_All}

-- None of the items is untrusted.
abbrev pub AreTrusted : List Artifact → Type 0
AreTrusted items = All (λ (a : Artifact). is_tainted a ≡ false) items

-- Whatever it returns holds trusted items alone.
record Trusts (m : Exec NodeRun (List Artifact)) : Type 0 where
  at : (s : NodeRun) (out : List Artifact) → (m s).0 ≡ done out → AreTrusted out

Trusts-if :
    (b : Bool) (m n : Exec NodeRun (List Artifact))
    → Trusts m
    → Trusts n
    → Trusts (if b then m else n)
Trusts-if true m n km kn = km
Trusts-if false m n km kn = kn

Trusts-pure : (items : List Artifact) → AreTrusted items → Trusts (pure items)
Trusts-pure items h = record { at = λ s out e. subst AreTrusted (done_inj e) h }

-- What holds of the last step's items, whatever the step before gave.
Trusts-bind :
    {X : Type 0} (step : Exec NodeRun X) (next : X → Exec NodeRun (List Artifact))
    → ((x : X) → Trusts (next x))
    → Trusts (step >>= next)
Trusts-bind step next later = record {
  at = λ s out h.
      let (x, _, rest, _) = bind-done step next s out h in (later x).at (step s).1 out rest;
}

module _ {A : Type 0} (P : A → Type 0) where
  All-take : (n : ℕ) (xs : List A) → All P xs → All P (take n xs)
  All-take zero xs h = tt
  All-take (suc n) [] h = tt
  All-take (suc n) (x ∷ xs) h = (h.0, All-take n xs h.1)

  All-drop : (n : ℕ) (xs : List A) → All P xs → All P (drop n xs)
  All-drop zero xs h = h
  All-drop (suc n) [] h = tt
  All-drop (suc n) (x ∷ xs) h = All-drop n xs h.1

  All-append : (xs ys : List A) → All P xs → All P ys → All P (xs ++ ys)
  All-append [] ys h k = k
  All-append (x ∷ xs) ys h k = (h.0, All-append xs ys h.1 k)

  All-select : (test : A → Bool) (xs : List A) → All P xs → All P (select test xs)
  unfolding select
  All-select test [] h = tt
  All-select test (x ∷ xs) h = elim (Bool-cases (test x)) [
    | inl kept ↦ rw kept (h.0, All-select test xs h.1)
    | inr out ↦ rw out (All-select test xs h.1)
  ]

-- Results that are each trusted where their items are.
Zip-trusted :
    (xs ys : List Artifact)
    → Zip (λ x y. is_tainted x ≡ false → is_tainted y ≡ false) xs ys
    → AreTrusted xs
    → AreTrusted ys
Zip-trusted [] [] z h = tt
Zip-trusted [] (y ∷ ys) z h = absurd z
Zip-trusted (x ∷ xs) [] z h = absurd z
Zip-trusted (x ∷ xs) (y ∷ ys) z h = (z.0 h.0, Zip-trusted xs ys z.1 h.1)

with_ranks-AreTrusted : (i : ℕ) (xs : List Artifact) → AreTrusted xs → AreTrusted (with_ranks i xs)
unfolding with_ranks with_meta
with_ranks-AreTrusted i [] h = tt
with_ranks-AreTrusted i (a ∷ xs) h = (h.0, with_ranks-AreTrusted (i + 1) xs h.1)

bracket-AreTrusted :
    (ctx : NodeContext) (fuel r : ℕ) (cs : List Artifact) (d : Dict ℕ) (s : NodeRun)
    (final : List Artifact × Dict ℕ)
    → (bracket ctx fuel r cs d s).0 ≡ done final
    → AreTrusted cs
    → AreTrusted final.0
unfolding bracket
bracket-AreTrusted ctx fuel r [] d s final h k =
    subst (λ (f : List Artifact × Dict ℕ). AreTrusted f.0) (done_inj h) k
bracket-AreTrusted ctx fuel r (a ∷ []) d s final h k =
    subst (λ (f : List Artifact × Dict ℕ). AreTrusted f.0) (done_inj h) k
bracket-AreTrusted ctx zero r (a ∷ b ∷ cs) d s final h k = cc
bracket-AreTrusted ctx (suc fuel) r (a ∷ b ∷ cs) d s final h k =
    let field = a ∷ b ∷ cs in
    let (results, played, rest, _) =
      bind-done (gather (compare_pair ctx) (pairs_of field)) _ s final h in
    bracket-AreTrusted ctx fuel (r + 1) (winners_of results ++ bye_of field)
      (record_losers (r + 1) results d) (gather (compare_pair ctx) (pairs_of field) s).1 final rest
      (round_All (λ a. is_tainted a ≡ false) field results
        (gather-Zip (compare_pair ctx) _ (compare_pair-Beats ctx) (pairs_of field) s results played)
        k)

-- The operators of a trusted node with trusted items.
module _ (ctx : NodeContext) (trusted : ctx.node.trust ≡ "trusted")
    (clean : AreTrusted ctx.items) where
  none_tainted : (items : List Artifact) → AreTrusted items → any is_tainted items ≡ false
  unfolding any
  none_tainted [] h = refl
  none_tainted (a ∷ items) h = rw (h.0, none_tainted items h.1) refl

  output-trust : (output_trust ctx == "untrusted") ≡ false
  unfolding output_trust
  output-trust = rw (none_tainted ctx.items clean, trusted) refl

  map_one-trust :
      (a : Artifact) (s : NodeRun) (b : Artifact)
      → (map_one ctx a s).0 ≡ done b
      → is_tainted a ≡ false
      → is_tainted b ≡ false
  unfolding map_one
  map_one-trust a s b h k =
      let (reply, _, e, _) = bind-done (call ctx _ _) _ s b h in
      subst (λ (b : Artifact). is_tainted b ≡ false) (done_inj e) output-trust

  refute-trust :
      (a : Artifact) (s : NodeRun) (b : Artifact)
      → (refute ctx a s).0 ≡ done b
      → is_tainted a ≡ false
      → is_tainted b ≡ false
  unfolding refute with_meta
  refute-trust a s b h k =
      let (reply, _, e, _) = bind-done (call ctx _ _) _ s b h in
      subst (λ (b : Artifact). is_tainted b ≡ false) (done_inj e) k

  op_map-Trusts : Trusts (op_map ctx)
  unfolding op_map
  op_map-Trusts = record {
    at = λ s out h.
        Zip-trusted ctx.items out
          (gather-Zip (map_one ctx) (λ x y. is_tainted x ≡ false → is_tainted y ≡ false)
            map_one-trust ctx.items s out h)
          clean;
  }

  op_reduce-Trusts : Trusts (op_reduce ctx)
  unfolding op_reduce
  op_reduce-Trusts = Trusts-bind _ _ (λ reply. Trusts-pure _ (output-trust, tt))

  op_classify-Trusts : Trusts (op_classify ctx)
  unfolding op_classify
  op_classify-Trusts = Trusts-bind _ _ (λ reply. Trusts-pure _ (output-trust, tt))

  op_loop-Trusts : Trusts (op_loop ctx)
  unfolding op_loop
  op_loop-Trusts = Trusts-bind _ _ (λ reply. Trusts-pure _ (output-trust, tt))

  op_filter-Trusts : Trusts (op_filter ctx)
  unfolding op_filter
  op_filter-Trusts = Trusts-pure _ (
      All-take (λ (a : Artifact). is_tainted a ≡ false) (pos_part (top_k_of ctx)) _
        (All-sort (λ (a : Artifact). is_tainted a ≡ false) (by_score ctx.py) ctx.items clean))

  slice-trusted : (k : ℤ) → AreTrusted (slice_to k ctx.items) × AreTrusted (slice_from k ctx.items)
  unfolding slice_to slice_from
  slice-trusted (pos k) = (
    All-take (λ (a : Artifact). is_tainted a ≡ false) k ctx.items clean,
    All-drop (λ (a : Artifact). is_tainted a ≡ false) k ctx.items clean,
  )
  slice-trusted (negsuc k) = (
    All-take (λ (a : Artifact). is_tainted a ≡ false) _ ctx.items clean,
    All-drop (λ (a : Artifact). is_tainted a ≡ false) _ ctx.items clean,
  )

  op_verify-Trusts : Trusts (op_verify ctx)
  unfolding op_verify
  op_verify-Trusts = record {
    at = λ s out h.
        let targets = slice_to (top_k_of ctx) ctx.items in
        let (to, from) = slice-trusted (top_k_of ctx) in
        let (verified, ran, e, _) = bind-done (gather (refute ctx) targets) _ s out h in
        subst AreTrusted (done_inj e) (
          All-append (λ (a : Artifact). is_tainted a ≡ false) verified _
            (Zip-trusted targets verified
              (gather-Zip (refute ctx) (λ x y. is_tainted x ≡ false → is_tainted y ≡ false)
                refute-trust targets s verified ran)
              to)
            from);
  }

  standings-AreTrusted :
      (final : List Artifact × Dict ℕ) → AreTrusted final.0 → AreTrusted (standings ctx.items final)
  unfolding standings
  standings-AreTrusted ([], d) h = tt
  standings-AreTrusted (champion ∷ more, d) h = (
    h.0,
    All-sort (λ (a : Artifact). is_tainted a ≡ false) (by_round d) _
        (All-select (λ (a : Artifact). is_tainted a ≡ false) (λ it. not (it.id == champion.id))
          ctx.items clean),
  )

  play-Trusts : Trusts (play ctx)
  unfolding play
  play-Trusts = record {
    at = λ s out h.
        let (final, ran, e, _) =
          bind-done (bracket ctx (length ctx.items) 0 ctx.items []) _ s out h in
        subst AreTrusted (done_inj e) (
          with_ranks-AreTrusted 0 (standings ctx.items final) (
            standings-AreTrusted final
              (bracket-AreTrusted ctx (length ctx.items) 0 ctx.items [] s final ran clean)));
  }

  op_tournament-Trusts : Trusts (op_tournament ctx)
  unfolding op_tournament
  op_tournament-Trusts =
      Trusts-if _ _ _ (Trusts-pure _ (with_ranks-AreTrusted 0 ctx.items clean)) play-Trusts

  no_operator : (f : Fault) → Trusts (λ s. (raised f, s))
  no_operator f = record { at = λ s out h. absurd (ground arith) }

  -- What the operator of a trusted node puts out of trusted items is trusted.
  pub run_operator-AreTrusted :
      (s : NodeRun) (out : List Artifact) → (run_operator ctx s).0 ≡ done out → AreTrusted out
  unfolding run_operator
  run_operator-AreTrusted s out h =
      (Trusts-if _ _ _ op_classify-Trusts (
          Trusts-if _ _ _ op_map-Trusts (
            Trusts-if _ _ _ op_reduce-Trusts (
              Trusts-if _ _ _ op_tournament-Trusts (
                Trusts-if _ _ _ op_verify-Trusts (
                  Trusts-if _ _ _ op_filter-Trusts
                    (Trusts-if _ _ _ op_loop-Trusts (no_operator _)))))))).at
        s out h
