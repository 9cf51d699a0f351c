-- ===== src/Tournament/Ranking.antt =====
-- What a ranking of attempts promises.
use murmur_ai_harness.Prelude.{
  ℕ, ◌+◌, ◌<◌, String, ◌≡◌, refl, sym, ap, ◌∙◌, ◌⊎◌, inl, inr, Bool, true, false, Option, none,
  some, List, [], ◌∷◌, arith, ◌==◌, eq_iff, nat_eq, if◌then◌else◌, concat, length, select, All,
  contains, count, Has, All-map, All-intro, All-Has, Has-map, Has→contains, place, sort,
  length-sort, IsChain, sort-IsChain, All-sort, Has-sort, Dict, lookup, insert, lookup-insert,
}
use mathlib.Core.Path.{subst}
use murmur_ai_harness.Tournament.{
  JudgeReply, unavailable, replied, read_reply, decide, model_of, cost_of, objective, llm_judge,
  stable_order, ModelResponse, RankableAttempt, objective_key, Order, less, equal, greater,
  compare_keys, before, is_equal, TournamentJudge, label_all, pick, pick_label, Picked,
  RankDecision, ids_of, remove, winner_first, tied_with, named, by_judge, by_tie, rank_ordered,
  rank_attempts,
}

-- The first key is not behind the second.
abbrev is_not_behind : Order → Bool
is_not_behind greater = false
is_not_behind o = true

abbrev IsNotBehind : RankableAttempt → RankableAttempt → Type 0
IsNotBehind a b = is_not_behind (compare_keys (objective_key a) (objective_key b)) ≡ true

compare_keys_trans :
    (xs ys zs : List ℕ)
    → is_not_behind (compare_keys xs ys) ≡ true
    → is_not_behind (compare_keys ys zs) ≡ true
    → is_not_behind (compare_keys xs zs) ≡ true
unfolding compare_keys
compare_keys_trans [] [] zs h k = k
compare_keys_trans [] (y ∷ ys) [] h k = refl
compare_keys_trans [] (y ∷ ys) (z ∷ zs) h k = refl
compare_keys_trans (x ∷ xs) [] zs h k = cc
compare_keys_trans (x ∷ xs) (y ∷ ys) [] h k = cc
compare_keys_trans (x ∷ xs) (y ∷ ys) (z ∷ zs) h k = ground (arith, compare_keys_trans xs ys zs)

abbrev is_less : Order → Bool
is_less less = true
is_less o = false

compare_keys_flip :
    (xs ys : List ℕ)
    → is_less (compare_keys xs ys) ≡ false
    → is_not_behind (compare_keys ys xs) ≡ true
unfolding compare_keys
compare_keys_flip [] [] h = refl
compare_keys_flip [] (y ∷ ys) h = cc
compare_keys_flip (x ∷ xs) [] h = refl
compare_keys_flip (x ∷ xs) (y ∷ ys) h = ground (arith, compare_keys_flip xs ys)

compare_keys_refl : (xs : List ℕ) → is_not_behind (compare_keys xs xs) ≡ true
unfolding compare_keys
compare_keys_refl [] = refl
compare_keys_refl (x ∷ xs) = ground (arith, compare_keys_refl xs)

by_order :
    (o : Order) (b : Bool)
    → elim o [ less ↦ true | equal ↦ b | greater ↦ false ] ≡ true
    → is_not_behind o ≡ true
by_order less b h = refl
by_order equal b h = refl
by_order greater b h = h

before-yes : (a b : RankableAttempt) → before a b ≡ true → IsNotBehind a b
unfolding before
before-yes a b h = by_order (compare_keys (objective_key a) (objective_key b)) _ h

against_order :
    (o : Order) (b : Bool)
    → elim o [ less ↦ true | equal ↦ b | greater ↦ false ] ≡ false
    → is_less o ≡ false
against_order less b h = cc
against_order equal b h = refl
against_order greater b h = refl

before-no : (a b : RankableAttempt) → before a b ≡ false → IsNotBehind b a
unfolding before
before-no a b h =
    compare_keys_flip (objective_key a) (objective_key b)
      (against_order (compare_keys (objective_key a) (objective_key b)) _ h)

-- One tuple of numbers is no greater than another: they agree up to a place where it is less.
abbrev pub IsAtMost : List ℕ → List ℕ → Type 0
IsAtMost [] ys = Unit
IsAtMost (x ∷ xs) [] = ⊥
IsAtMost (x ∷ xs) (y ∷ ys) = (x < y) ⊎ ((x ≡ y) × IsAtMost xs ys)

-- The first attempt has a key that is as good or better.
abbrev pub IsNoWorse : RankableAttempt → RankableAttempt → Type 0
IsNoWorse a b = IsAtMost (objective_key a) (objective_key b)

compare_keys-IsAtMost :
    (xs ys : List ℕ) → is_not_behind (compare_keys xs ys) ≡ true → IsAtMost xs ys
unfolding compare_keys
compare_keys-IsAtMost [] ys h = tt
compare_keys-IsAtMost (x ∷ xs) [] h = cc
compare_keys-IsAtMost (x ∷ xs) (y ∷ ys) h = ground (arith, compare_keys-IsAtMost xs ys)

-- A decision on attempts: the winner is one of them, and none has a better key; the ranking names
-- each id as often as there are attempts with it, the winner's first.
pub record IsRanking (attempts : List RankableAttempt) (d : RankDecision) : Type 0 where
  pub winner : RankableAttempt
  pub is_there : Has winner attempts
  pub is_named : winner.attempt_id ≡ d.winner_id
  pub is_best : All (IsNoWorse winner) attempts
  pub same_ids : (id : String) → count id d.ranking ≡ count id (ids_of attempts)
  pub others : List String
  pub is_first : d.ranking ≡ d.winner_id ∷ others

All-at : {A : Type 0} (P : A → Type 0) (x : A) (xs : List A) → All P xs → Has x xs → P x
All-at P x [] h m = elim m [ ]
All-at P x (y ∷ xs) h (inl e) = subst P e h.0
All-at P x (y ∷ xs) h (inr m) = All-at P x xs h.1 m

select-Has :
    {A : Type 0} (test : A → Bool) (x : A) (xs : List A)
    → Has x (select test xs)
    → Has x xs × (test x ≡ true)
unfolding select
select-Has test x [] m = elim m [ ]
select-Has test x (y ∷ xs) m = go (select-Has test x xs) (test y) refl m
  where
    go :
        (Has x (select test xs) → Has x xs × (test x ≡ true))
        → (b : Bool) → test y ≡ b
        → Has x (if b then y ∷ select test xs else select test xs)
        → Has x (y ∷ xs) × (test x ≡ true)
    go ih true e (inl same) = (inl same, subst (λ z. test z ≡ true) same e)
    go ih true e (inr n) = let (there, t) = ih n in (inr there, t)
    go ih false e n = let (there, t) = ih n in (inr there, t)

count-place-ids :
    (id : String) (x : RankableAttempt) (xs : List RankableAttempt)
    → count id (ids_of (place before x xs)) ≡ count id (ids_of (x ∷ xs))
unfolding place count
count-place-ids id x [] = refl
count-place-ids id x (y ∷ xs) = ground (arith, count-place-ids id x xs)

count-sort-ids :
    (id : String) (xs : List RankableAttempt)
    → count id (ids_of (sort before xs)) ≡ count id (ids_of xs)
unfolding sort count
count-sort-ids id [] = refl
count-sort-ids id (x ∷ xs) =
    omega (arith, count-place-ids id x (sort before xs), count-sort-ids id xs)

count-remove :
    (id x : String) (xs : List String)
    → contains xs id ≡ true
    → count x (id ∷ remove id xs) ≡ count x xs
unfolding count remove contains
count-remove id x [] h = cc
count-remove id x (y ∷ xs) h =
    ground (arith, count-remove id x xs, eq_iff y id, eq_iff y x, eq_iff id x)

some_inj : {a b : RankableAttempt} → some a ≡ some b → a ≡ b
some_inj e = cc

label_all-Has :
    (label_of : ℕ → String) (index : ℕ) (candidates : List RankableAttempt)
    (labels : Dict RankableAttempt) (label : String) (a : RankableAttempt)
    → lookup label (label_all label_of index candidates labels) ≡ some a
    → Has a candidates ⊎ (lookup label labels ≡ some a)
unfolding label_all
label_all-Has label_of index [] labels label a h = inr h
label_all-Has label_of index (c ∷ candidates) labels label a h =
    elim (label_all-Has label_of (index + 1) candidates (insert (label_of index) c labels) label a
      h) [
        | inl there ↦ inl (inr there)
        | inr e ↦
            added (label_of index == label)
              (sym (lookup-insert (label_of index) label c labels) ∙ e)
      ]
  where
    added :
        (b : Bool)
        → (if b then some c else lookup label labels) ≡ some a
        → Has a (c ∷ candidates) ⊎ (lookup label labels ≡ some a)
    added true e = inl (inl (some_inj e))
    added false e = inr e

named-some : (o : Option RankableAttempt) (a : RankableAttempt) → named o ≡ some a → o ≡ some a
named-some none a h = h
named-some (some c) a h = go (c.attempt_id == "") h
  where
    go : (b : Bool) → (if b then none else some c) ≡ some a → some c ≡ some a
    go true e = cc
    go false e = e

found :
    (o : Option RankableAttempt) (missing reason : String) (response : ModelResponse)
    (a : RankableAttempt)
    → (elim o as (λ _. Picked) [
      | none ↦ (none, missing, some response)
      | some chosen ↦ (some chosen, reason, some response)
    ]).0
      ≡ some a
    → o ≡ some a
found none missing reason response a h = h
found (some c) missing reason response a h = h

pick_label-Has :
    (judge : TournamentJudge) (candidates : List RankableAttempt) (response : ModelResponse)
    (o : Option (String × String)) (a : RankableAttempt)
    → (pick_label judge (label_all judge.label_of 0 candidates []) response o).0 ≡ some a
    → Has a candidates
unfolding lookup
pick_label-Has judge candidates response none a h = cc
pick_label-Has judge candidates response (some (label, reason)) a h =
    elim (label_all-Has judge.label_of 0 candidates [] label a (
      found _ (concat ("judge picked unknown candidate " ∷ judge.quoted label ∷ [])) reason response
        a h)) [ inl there ↦ there | inr e ↦ cc ]

-- What a judge picks is one of the candidates.
pick-Has :
    (judge : TournamentJudge) (candidates : List RankableAttempt) (a : RankableAttempt)
    → named (pick judge candidates).0 ≡ some a
    → Has a candidates
unfolding pick
pick-Has judge candidates a h = from_reply _ (named-some (pick judge candidates).0 a h)
  where
    from_reply :
        (reply : JudgeReply)
        → (read_reply judge (label_all judge.label_of 0 candidates []) reply).0 ≡ some a
        → Has a candidates
    from_reply (unavailable error) e = cc
    from_reply (replied response) e =
        pick_label-Has judge candidates response (judge.parse_verdict response.text) a e

at_most : (o : Order) → is_equal o ≡ true → is_not_behind o ≡ true
at_most less h = refl
at_most equal h = refl
at_most greater h = h

module _ (attempts : List RankableAttempt) (best : RankableAttempt) (rest : List RankableAttempt)
    (same : sort before attempts ≡ best ∷ rest) where
  no_better : All (IsNotBehind best) attempts
  no_better =
      let chain =
        sort-IsChain before IsNotBehind before-yes before-no
          (λ a b c. compare_keys_trans (objective_key a) (objective_key b) (objective_key c))
          attempts in
      let sorted_chain = subst (IsChain IsNotBehind) same chain in
      All-intro (IsNotBehind best) attempts (λ x m.
        All-at (IsNotBehind best) x (best ∷ rest)
          (compare_keys_refl (objective_key best), sorted_chain.0)
          (subst (Has x) same (Has-sort before x attempts m)))

  of_attempts : (a : RankableAttempt) → Has a (best ∷ rest) → Has a attempts
  of_attempts a m =
      All-at (λ x. Has x attempts) a (best ∷ rest)
        (subst (All (λ x. Has x attempts)) same
          (All-sort (λ x. Has x attempts) before attempts (All-Has attempts attempts (λ x k. k))))
        m

  same_counts : (id : String) → count id (ids_of (best ∷ rest)) ≡ count id (ids_of attempts)
  same_counts id = ap (λ l. count id (ids_of l)) (sym same) ∙ count-sort-ids id attempts

  IsRanking-best :
      (d : RankDecision)
      → d.winner_id ≡ best.attempt_id
      → d.ranking ≡ ids_of (best ∷ rest)
      → IsRanking attempts d
  IsRanking-best d w r = record {
    winner = best;
    is_there = of_attempts best (inl refl);
    is_named = sym w;
    is_best =
        All-map (IsNotBehind best) (IsNoWorse best) attempts
          (λ x. compare_keys-IsAtMost (objective_key best) (objective_key x)) no_better;
    same_ids = λ id. ap (count id) r ∙ same_counts id;
    others = ids_of rest;
    is_first = r ∙ ap (λ id. id ∷ ids_of rest) (sym w);
  }

  IsRanking-tied :
      (d : RankDecision) (a : RankableAttempt)
      → Has a (tied_with best (best ∷ rest))
      → d.winner_id ≡ a.attempt_id
      → d.ranking ≡ winner_first (best ∷ rest) a.attempt_id
      → IsRanking attempts d
  IsRanking-tied d a m w r =
      let (there, level) =
        select-Has (λ x. is_equal (compare_keys (objective_key x) (objective_key best))) a
          (best ∷ rest) m in
      record {
        winner = a;
        is_there = of_attempts a there;
        is_named = sym w;
        is_best =
            All-map (IsNotBehind best) (IsNoWorse a) attempts
              (λ x h. compare_keys-IsAtMost (objective_key a) (objective_key x) (
                compare_keys_trans (objective_key a) (objective_key best) (objective_key x)
                  (at_most (compare_keys (objective_key a) (objective_key best)) level) h))
              no_better;
        same_ids = λ id.
            ap (count id) r
            ∙ count-remove a.attempt_id id (ids_of (best ∷ rest)) (
                Has→contains a.attempt_id (ids_of (best ∷ rest))
                  (Has-map (λ (x : RankableAttempt). x.attempt_id) a (best ∷ rest) there))
            ∙ same_counts id;
        others = remove a.attempt_id (ids_of (best ∷ rest));
        is_first = r ∙ ap (λ id. id ∷ remove a.attempt_id (ids_of (best ∷ rest))) (sym w);
      }

  by_judge-IsRanking :
      (judge : TournamentJudge) (picked : Picked)
      → ((a : RankableAttempt) → named picked.0 ≡ some a → Has a (tied_with best (best ∷ rest)))
      → IsRanking attempts (by_judge judge best (best ∷ rest) (tied_with best (best ∷ rest)) picked)
  by_judge-IsRanking judge (winner, rationale, response) h = go (named winner) h
    where
      go :
          (o : Option RankableAttempt)
          → ((a : RankableAttempt) → o ≡ some a → Has a (tied_with best (best ∷ rest)))
          → IsRanking attempts (elim o as (λ _. RankDecision) [
            | some a ↦
                decide
                  (best ∷ rest)
                  a.attempt_id
                  (winner_first (best ∷ rest) a.attempt_id)
                  llm_judge
                  (ids_of (tied_with best (best ∷ rest)))
                  rationale
                  (model_of judge response)
                  (cost_of response)
            | none ↦
                decide
                  (best ∷ rest)
                  best.attempt_id
                  (ids_of (best ∷ rest))
                  stable_order
                  (ids_of (tied_with best (best ∷ rest)))
                  (if rationale == ""
                    then "judge could not decide; fell back to stable order"
                    else rationale)
                  (model_of judge response)
                  (cost_of response)
          ])
      go none k = IsRanking-best _ refl refl
      go (some a) k = IsRanking-tied _ a (k a refl) refl refl

  by_tie-IsRanking :
      (judge : Option TournamentJudge)
      → IsRanking attempts (by_tie judge best (best ∷ rest) (tied_with best (best ∷ rest)))
  by_tie-IsRanking none = IsRanking-best _ refl refl
  by_tie-IsRanking (some judge) =
      by_judge-IsRanking judge (pick judge (tied_with best (best ∷ rest)))
        (λ a h. pick-Has judge (tied_with best (best ∷ rest)) a h)

  rank_ordered-IsRanking :
      (judge : Option TournamentJudge)
      → (d : RankDecision) × (rank_ordered judge (best ∷ rest) ≡ some d) × IsRanking attempts d
  rank_ordered-IsRanking judge = (_, refl, go (nat_eq (length (tied_with best (best ∷ rest))) 1))
    where
      go :
          (b : Bool)
          → IsRanking attempts (
              if b
              then decide
                  (best ∷ rest)
                  best.attempt_id
                  (ids_of (best ∷ rest))
                  objective
                  []
                  "objective metrics fully ordered the candidates"
                  ""
                  0
              else by_tie judge best (best ∷ rest) (tied_with best (best ∷ rest)))
      go true = IsRanking-best _ refl refl
      go false = by_tie-IsRanking judge

-- Where there are attempts there is a decision, whatever the judge answers: its winner is one of the
-- attempts, and none has a better key; its ranking names each id as often as there are attempts with
-- it, the winner's first.
pub rank_attempts-IsRanking :
    (a : RankableAttempt) (attempts : List RankableAttempt) (judge : Option TournamentJudge)
    → (d : RankDecision) × (rank_attempts (a ∷ attempts) judge ≡ some d)
      × IsRanking (a ∷ attempts) d
unfolding rank_attempts
rank_attempts-IsRanking a attempts judge = go (sort before (a ∷ attempts)) refl
  where
    go :
        (l : List RankableAttempt)
        → sort before (a ∷ attempts) ≡ l
        → (d : RankDecision) × (rank_ordered judge l ≡ some d) × IsRanking (a ∷ attempts) d
    go [] e =
        let size = length-sort before (a ∷ attempts) in
        let nothing = ap length e in let no : ⊥ = omega arith in elim no [ ]
    go (best ∷ rest) e = rank_ordered-IsRanking (a ∷ attempts) best rest e judge
