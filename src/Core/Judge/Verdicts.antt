-- ===== src/Core/Judge/Verdicts.antt =====
-- The dictionaries of verdicts, for trajectories with distinct ids.
use murmur_ai_harness.Prelude.{
  ℕ, String, ◌≡◌, refl, sym, ap, ◌∙◌, Bool, true, false, not, ◌&&◌, ◌||◌, List, [], ◌∷◌, ◌++◌, map,
  arith, ◌==◌, eq_iff, eq_refl, if◌then◌else◌, select, contains, IsUnique, contains-append, Has,
  Has-map, Has-select, Has→contains, Dict, insert, keys,
}
use murmur_ai_harness.Core.Types.{JudgeOutcome, unknown, same}
use murmur_ai_harness.Core.Judge.{
  assign, values_of, is_known, counter, most_common, ambiguous_trajectory_ids,
}

insert_behind :
    (b : Bool) (j k : String) (v w : JudgeOutcome) (d : Dict JudgeOutcome)
    → (j == k) ≡ false
    → (if b then insert j v ((k, w) ∷ d) else (k, w) ∷ d) ≡ (k, w) ∷ (if b then insert j v d else d)
unfolding insert
insert_behind true j k v w d h = ground (arith, eq_iff j k, eq_iff k j)
insert_behind false j k v w d h = refl

insert_first :
    (b : Bool) (k : String) (v w : JudgeOutcome) (d : Dict JudgeOutcome)
    → (if b then insert k v ((k, w) ∷ d) else (k, w) ∷ d) ≡ (k, if b then v else w) ∷ d
unfolding insert
insert_first true k v w d = rw (eq_refl k) refl
insert_first false k v w d = refl

or_false : (a b : Bool) → (a || b) ≡ false → (a ≡ false) × (b ≡ false)
or_false a b h = ground arith

module _ {A : Type 0} (key : A → String) where
  -- A dictionary with one entry for each element.
  abbrev pub pairs : (A → JudgeOutcome) → List A → Dict JudgeOutcome
  pairs f xs = map (λ a. (key a, f a)) xs

  pub values-pairs : (f : A → JudgeOutcome) (xs : List A) → values_of (pairs f xs) ≡ map f xs
  values-pairs f [] = refl
  values-pairs f (x ∷ xs) = ap (λ l. f x ∷ l) (values-pairs f xs)

  assign-head :
      (test : A → Bool) (value : A → JudgeOutcome) (xs : List A) (k : String) (w : JudgeOutcome)
      (d : Dict JudgeOutcome)
      → contains (map key xs) k ≡ false
      → assign key test value xs ((k, w) ∷ d) ≡ (k, w) ∷ assign key test value xs d
  unfolding assign contains insert
  assign-head test value [] k w d h = refl
  assign-head test value (x ∷ xs) k w d h =
      let (this, rest) = or_false (key x == k) (contains (map key xs) k) h in
      ap (assign key test value xs) (insert_behind (test x) (key x) k (value x) w d this)
      ∙ assign-head test value xs k w (if test x then insert (key x) (value x) d else d) rest

  pub assign-new :
      (value : A → JudgeOutcome) (xs : List A)
      → IsUnique (map key xs)
      → assign key (λ a. true) value xs [] ≡ pairs value xs
  unfolding assign insert
  assign-new value [] u = refl
  assign-new value (x ∷ xs) u =
      assign-head (λ a. true) value xs (key x) (value x) [] u.0
      ∙ ap (λ d. (key x, value x) ∷ d) (assign-new value xs u.1)

  pub assign-pairs :
      (test : A → Bool) (old value : A → JudgeOutcome) (xs : List A)
      → IsUnique (map key xs)
      → assign key test value xs (pairs old xs) ≡ pairs (λ a. if test a then value a else old a) xs
  unfolding assign insert
  assign-pairs test old value [] u = refl
  assign-pairs test old value (x ∷ xs) u =
      ap (assign key test value xs) (insert_first (test x) (key x) (value x) (old x) (pairs old xs))
      ∙ assign-head test value xs (key x) (if test x then value x else old x) (pairs old xs) u.0
      ∙ ap (λ d. (key x, if test x then value x else old x) ∷ d)
          (assign-pairs test old value xs u.1)

abbrev ambiguous_in : List (JudgeOutcome × ℕ) → Dict JudgeOutcome → List String
ambiguous_in counts d = elim counts [
  | [] ↦ keys d
  | entry ∷ counts ↦
      keys (select (λ (e : String × JudgeOutcome). not (is_known e.1)) d)
      ++ keys (
          select
            (λ (e : String × JudgeOutcome).
              is_known e.1 && not (same e.1 (most_common entry counts).0))
            d)
]

Has-ambiguous :
    (counts : List (JudgeOutcome × ℕ)) (k : String) (d : Dict JudgeOutcome)
    → Has (k, unknown) d
    → contains (ambiguous_in counts d) k ≡ true
Has-ambiguous [] k d m =
    Has→contains k (keys d) (Has-map (λ (e : String × JudgeOutcome). e.0) (k, unknown) d m)
Has-ambiguous (entry ∷ counts) k d m =
    let unknowns = select (λ (e : String × JudgeOutcome). not (is_known e.1)) d in
    rw
      (
        contains-append (keys unknowns)
            (keys (
              select
                (λ (e : String × JudgeOutcome).
                  is_known e.1 && not (same e.1 (most_common entry counts).0))
                d))
            k,
        Has→contains k (keys unknowns) (
            Has-map (λ (e : String × JudgeOutcome). e.0) (k, unknown) unknowns
              (Has-select (λ (e : String × JudgeOutcome). not (is_known e.1)) (k, unknown) d refl
                m)),
      )
      refl

-- A trajectory that is not ambiguous has a known verdict.
pub is_known_lem :
    (k : String) (v : JudgeOutcome) (d : Dict JudgeOutcome)
    → Has (k, v) d
    → contains (ambiguous_trajectory_ids d) k ≡ false
    → is_known v ≡ true
unfolding ambiguous_trajectory_ids
is_known_lem k unknown d m h =
    sym h ∙ Has-ambiguous (counter (select is_known (values_of d)) []) k d m
is_known_lem k v d m h = refl
