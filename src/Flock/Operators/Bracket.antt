-- ===== src/Flock/Operators/Bracket.antt =====
-- The rounds of `op_tournament`: what a round keeps, and what is left when the rounds end.
use murmur_ai_harness.Prelude.{
  ℕ, zero, suc, ◌+◌, ◌≤◌, ◌<◌, String, ◌≡◌, refl, ◌⊎◌, inl, inr, Option, none, some, List, [], ◌∷◌,
  ◌++◌, map, arith, length, All, count, Has, Zip, Dict, lookup, insert, lookup-insert,
}
use murmur_ai_harness.Flock.Artifact.{Artifact, artifact_ids}
use murmur_ai_harness.Flock.Gateway.{Outcome, done, raised, Exec, and_then, ◌>>=◌, done_inj}
use murmur_ai_harness.Flock.Operators.{
  NodeRun, NodeContext, call, both, gather, compare_pair, pairs_of, bye_of, winners_of,
  record_losers, bracket,
}
use mathlib.Core.Path.{subst}

both-done :
    {A : Type 0} (o : Outcome A) (os : Outcome (List A)) (ys : List A)
    → both o os ≡ done ys
    → (y : A) × (rest : List A) × (o ≡ done y) × (os ≡ done rest) × (ys ≡ y ∷ rest)
both-done (done y) (done rest) ys h = (y, rest, refl, refl, cc)
both-done (done y) (raised e) ys h = cc
both-done (raised e) os ys h = cc

-- What holds of each result of its task holds of the results that are gathered.
pub gather-Zip :
    {S A B : Type 0} (f : A → Exec S B) (R : A → B → Type 0)
    → ((a : A) (s : S) (b : B) → (f a s).0 ≡ done b → R a b)
    → (xs : List A) (s : S) (ys : List B) → (gather f xs s).0 ≡ done ys
    → Zip R xs ys
unfolding gather
gather-Zip f R each [] s [] h = tt
gather-Zip f R each [] s (y ∷ ys) h = cc
gather-Zip f R each (x ∷ xs) s ys h =
    let (y, rest, first, later, e) = both-done (f x s).0 (gather f xs (f x s).1).0 ys h in
    rw e (each x s y first, gather-Zip f R each xs (f x s).1 rest later)

-- One of the two wins and the other loses.
abbrev pub Beats : Artifact × Artifact → Artifact × Artifact → Type 0
Beats p r = (r ≡ (p.0, p.1)) ⊎ (r ≡ (p.1, p.0))

pub bind-done :
    {S A B : Type 0} (m : Exec S A) (f : A → Exec S B) (s : S) (b : B)
    → ((m >>= f) s).0 ≡ done b
    → (a : A) × ((m s).0 ≡ done a)
      × ((f a (m s).1).0 ≡ done b)
      × (((m >>= f) s).1 ≡ (f a (m s).1).1)
bind-done {A = A} m f s b h = go (m s).0 refl h
  where
    go :
        (o : Outcome A)
        → (m s).0 ≡ o
        → (and_then o f (m s).1).0 ≡ done b
        → (a : A) × ((m s).0 ≡ done a)
          × ((f a (m s).1).0 ≡ done b)
          × ((and_then (m s).0 f (m s).1).1 ≡ (f a (m s).1).1)
    go (done a) e h = (a, e, h, rw e)
    go (raised x) e h = cc

pub compare_pair-Beats :
    (ctx : NodeContext) (p : Artifact × Artifact) (s : NodeRun) (r : Artifact × Artifact)
    → (compare_pair ctx p s).0 ≡ done r
    → Beats p r
unfolding compare_pair
compare_pair-Beats ctx (a, b) s r h =
    let (reply, _, chosen, _) = bind-done (call ctx _ _) _ s r h in ground (arith, done_inj chosen)

abbrev pub losers_of : List (Artifact × Artifact) → List Artifact
losers_of results = map (λ (r : Artifact × Artifact). r.1) results

-- Of each pair one goes on, and the odd one out goes on too: a round loses nobody.
round_count :
    (x : String) (cs : List Artifact) (results : List (Artifact × Artifact))
    → Zip Beats (pairs_of cs) results
    → count x (artifact_ids (winners_of results ++ bye_of cs))
        + count x (artifact_ids (losers_of results))
      ≡ count x (artifact_ids cs)
unfolding pairs_of bye_of count
round_count x [] [] z = refl
round_count x [] (r ∷ rs) z = absurd z
round_count x (a ∷ []) [] z = omega arith
round_count x (a ∷ []) (r ∷ rs) z = absurd z
round_count x (a ∷ b ∷ cs) [] z = absurd z
round_count x (a ∷ b ∷ cs) (r ∷ rs) z = elim z.0 [
  | inl e ↦ rw e (omega (arith, round_count x cs rs z.1))
  | inr e ↦ rw e (omega (arith, round_count x cs rs z.1))
]

pub round_length :
    (cs : List Artifact) (results : List (Artifact × Artifact))
    → Zip Beats (pairs_of cs) results
    → length (winners_of results ++ bye_of cs) + length (pairs_of cs) ≡ length cs
unfolding pairs_of bye_of
round_length [] [] z = refl
round_length [] (r ∷ rs) z = absurd z
round_length (a ∷ []) [] z = refl
round_length (a ∷ []) (r ∷ rs) z = absurd z
round_length (a ∷ b ∷ cs) [] z = absurd z
round_length (a ∷ b ∷ cs) (r ∷ rs) z = omega (arith, round_length cs rs z.1)

pub length-pairs :
    (a : Artifact) (cs : List Artifact) → length (pairs_of (a ∷ cs)) < length (a ∷ cs)
unfolding pairs_of
length-pairs a [] = omega arith
length-pairs a (b ∷ []) = omega arith
length-pairs a (b ∷ c ∷ cs) = omega (arith, length-pairs c cs)

-- Who goes on was there before.
pub round_All :
    (P : Artifact → Type 0) (cs : List Artifact) (results : List (Artifact × Artifact))
    → Zip Beats (pairs_of cs) results
    → All P cs
    → All P (winners_of results ++ bye_of cs)
unfolding pairs_of bye_of
round_All P [] [] z h = tt
round_All P [] (r ∷ rs) z h = absurd z
round_All P (a ∷ []) [] z h = h
round_All P (a ∷ []) (r ∷ rs) z h = absurd z
round_All P (a ∷ b ∷ cs) [] z h = absurd z
round_All P (a ∷ b ∷ cs) (r ∷ rs) z h = elim z.0 [
  | inl e ↦ rw e (h.0, round_All P cs rs z.1 h.1.1)
  | inr e ↦ rw e (h.1.0, round_All P cs rs z.1 h.1.1)
]

-- One where a round is recorded for the id.
abbrev pub is_out : Option ℕ → ℕ
is_out none = 0
is_out (some r) = 1

record_losers-out :
    (x : String) (r : ℕ) (results : List (Artifact × Artifact)) (d : Dict ℕ)
    → count x (artifact_ids (losers_of results)) + is_out (lookup x d) ≤ 1
    → is_out (lookup x (record_losers r results d))
      ≡ count x (artifact_ids (losers_of results)) + is_out (lookup x d)
unfolding record_losers count
record_losers-out x r [] d h = omega arith
record_losers-out x r ((w, l) ∷ rest) d h =
    ground (arith, lookup-insert l.id x r d, record_losers-out x r rest (insert l.id r d))

-- Each contestant is in the field or out, and never both.
abbrev pub Splits : List Artifact → List Artifact → Dict ℕ → Type 0
Splits items field d =
    (x : String) → count x (artifact_ids field) + is_out (lookup x d) ≡ count x (artifact_ids items)

abbrev pub AreDistinct : List Artifact → Type 0
AreDistinct items = (x : String) → count x (artifact_ids items) ≤ 1

-- What the rounds end with: one contestant, who was never beaten, while all others were.
pub record IsDecided (items : List Artifact) (r : List Artifact × Dict ℕ) : Type 0 where
  pub champion : Artifact
  pub alone : r.0 ≡ champion ∷ []
  pub contestant : Has champion items
  pub out : Splits items (champion ∷ []) r.1

module _ (ctx : NodeContext) (items : List Artifact) (distinct : AreDistinct items) where
  Splits-round :
      (cs : List Artifact) (results : List (Artifact × Artifact)) (r : ℕ) (d : Dict ℕ)
      → Zip Beats (pairs_of cs) results
      → Splits items cs d
      → Splits items (winners_of results ++ bye_of cs) (record_losers r results d)
  Splits-round cs results r d z s x =
      omega (arith, s x, distinct x, round_count x cs results z, record_losers-out x r results d)

  pub bracket-IsDecided :
      (fuel r : ℕ) (cs : List Artifact) (d : Dict ℕ) (s : NodeRun) (final : List Artifact × Dict ℕ)
      → (bracket ctx fuel r cs d s).0 ≡ done final
      → 0 < length cs
      → All (λ c. Has c items) cs
      → Splits items cs d
      → IsDecided items final
  unfolding bracket
  bracket-IsDecided fuel r [] d s final h some_left all_in splits = absurd (omega arith)
  bracket-IsDecided fuel r (a ∷ []) d s final h some_left all_in splits =
      subst (IsDecided items) (done_inj h)
        (record { champion = a; alone = refl; contestant = all_in.0; out = splits })
  bracket-IsDecided zero r (a ∷ b ∷ cs) d s final h some_left all_in splits = cc
  bracket-IsDecided (suc fuel) r (a ∷ b ∷ cs) d s final h some_left all_in splits =
      let field = a ∷ b ∷ cs in
      let (results, played, rest, _) =
        bind-done (gather (compare_pair ctx) (pairs_of field)) _ s final h in
      let z =
        gather-Zip (compare_pair ctx) Beats (compare_pair-Beats ctx) (pairs_of field) s results
          played in
      bracket-IsDecided fuel (r + 1) (winners_of results ++ bye_of field)
        (record_losers (r + 1) results d) (gather (compare_pair ctx) (pairs_of field) s).1 final
        rest (omega (arith, round_length field results z, length-pairs a (b ∷ cs)))
        (round_All (λ c. Has c items) field results z all_in)
        (Splits-round field results (r + 1) d z splits)

pub call-calls :
    (ctx : NodeContext) (system user : String) (s : NodeRun) (reply : String)
    → (call ctx system user s).0 ≡ done reply
    → (call ctx system user s).1.calls ≡ s.calls + 1
unfolding call
call-calls ctx system user s reply h = ground arith

-- Each comparison is one call of the model.
compare_pair-calls :
    (ctx : NodeContext) (p : Artifact × Artifact) (s : NodeRun) (r : Artifact × Artifact)
    → (compare_pair ctx p s).0 ≡ done r
    → (compare_pair ctx p s).1.calls ≡ s.calls + 1
unfolding compare_pair
compare_pair-calls ctx (a, b) s r h =
    let (reply, answered, _, same) = bind-done (call ctx _ _) _ s r h in
    rw same (call-calls ctx _ _ s reply answered)

gather-calls :
    {A B : Type 0} (f : A → Exec NodeRun B)
    → ((a : A) (s : NodeRun) (b : B) → (f a s).0 ≡ done b → (f a s).1.calls ≡ s.calls + 1)
    → (xs : List A) (s : NodeRun) (ys : List B) → (gather f xs s).0 ≡ done ys
    → (gather f xs s).1.calls ≡ s.calls + length xs
unfolding gather
gather-calls f each [] s ys h = omega arith
gather-calls f each (x ∷ xs) s ys h =
    let (y, rest, first, later, _) = both-done (f x s).0 (gather f xs (f x s).1).0 ys h in
    omega (arith, each x s y first, gather-calls f each xs (f x s).1 rest later)

-- A single-elimination bracket of n contestants takes n - 1 comparisons.
pub bracket-calls :
    (ctx : NodeContext) (fuel r : ℕ) (cs : List Artifact) (d : Dict ℕ) (s : NodeRun)
    (final : List Artifact × Dict ℕ)
    → (bracket ctx fuel r cs d s).0 ≡ done final
    → 0 < length cs
    → (bracket ctx fuel r cs d s).1.calls + 1 ≡ s.calls + length cs
unfolding bracket
bracket-calls ctx fuel r [] d s final h some_left = absurd (omega arith)
bracket-calls ctx fuel r (a ∷ []) d s final h some_left = omega arith
bracket-calls ctx zero r (a ∷ b ∷ cs) d s final h some_left = cc
bracket-calls ctx (suc fuel) r (a ∷ b ∷ cs) d s final h some_left =
    let field = a ∷ b ∷ cs in
    let (results, played, rest, same) =
      bind-done (gather (compare_pair ctx) (pairs_of field)) _ s final h in
    let z =
      gather-Zip (compare_pair ctx) Beats (compare_pair-Beats ctx) (pairs_of field) s results
        played in
    let size = round_length field results z in
    rw same (
      omega (
        arith,
        size,
        gather-calls (compare_pair ctx) (compare_pair-calls ctx) (pairs_of field) s results played,
        bracket-calls ctx fuel (r + 1) (winners_of results ++ bye_of field)
            (record_losers (r + 1) results d) (gather (compare_pair ctx) (pairs_of field) s).1 final
            rest (omega (arith, size, length-pairs a (b ∷ cs))),
      ))
