-- ===== src/Tournament.antt =====
-- murmur/application/tournament.py: the ranking of attempts by what was measured, with a blind judge
-- for ties.
pub mod Ranking
use murmur_ai_harness.Prelude.{
  ℕ, zero, suc, ◌+◌, ◌-◌, ◌*◌, ◌/◌, ◌%◌, ◌≤◌, ◌<◌, min, max, String, ◌≡◌, refl, sym, ap, ◌∙◌, ◌≢◌,
  ◌↔◌, ◌⊎◌, inl, inr, Bool, true, false, not, ◌&&◌, ◌||◌, Option, none, some, List, [], ◌∷◌, ◌++◌,
  map, arith, ◌==◌, eq_iff, eq_refl, ltb, leb, nat_eq, str_le, if◌then◌else◌, leb→le, le→leb,
  nat_eq_iff, &&_iff, Bool-cases, Option-cases, concat, has_text, join, length, take, drop,
  length-append, take-append-drop, length-take, select, All, all, any, contains, IsUnique, count,
  count-append, contains-append, contains→count, count→contains, length-map, Has, Zip, All-map,
  All-intro, map-cong, All-Has, Has-map, length-select-cons, length-select, Has-select, Has-last,
  Has→contains, append-eq-nil, place, sort, length-sort, sorted, count-sort, count-sorted,
  length-sorted, place-perm, sort-perm, IsChain, IsSorted, sort-IsChain, sort-IsSorted, All-sort,
  Has-sort, Dict, lookup, insert, update, keys, lookup-insert, lookup-update, pos_part, is_nonpos,
  neg_part, sub_ℕ, ◌+ℤ◌, leb_ℤ, ℤ, pos, negsuc,
}

-- `RankableVerification`
pub record RankableVerification : Type 0 where
  pub passed : Bool
  pub failures : List String
  pub changed_files : List String
  pub diff_lines : ℕ

-- `RankableAttempt`, what the ranking reads of it
pub record RankableAttempt : Type 0 where
  pub attempt_id : String
  pub diff : String
  pub verification : RankableVerification

-- `ObjectiveKey.as_tuple`, where False < True.
unfoldable pub objective_key : RankableAttempt → List ℕ
objective_key a =
    (if a.verification.passed then 0 else 1)
    ∷ length a.verification.failures
    ∷ a.verification.diff_lines
    ∷ length a.verification.changed_files
    ∷ []

pub data Order : Type 0 where
  less equal greater : Order

-- Tuples in Python's order.
unfoldable pub compare_keys : List ℕ → List ℕ → Order
compare_keys [] [] = equal
compare_keys [] (y ∷ ys) = less
compare_keys (x ∷ xs) [] = greater
compare_keys (x ∷ xs) (y ∷ ys) =
    let rest = compare_keys xs ys in if ltb x y then less else if ltb y x then greater else rest

-- The order that the attempts are sorted in: by their keys, then by their ids.
unfoldable pub before : RankableAttempt → RankableAttempt → Bool
unfolding compare_keys objective_key str_le
before a b = elim (compare_keys (objective_key a) (objective_key b)) [
  | less ↦ true
  | equal ↦ str_le a.attempt_id b.attempt_id
  | greater ↦ false
]

abbrev pub is_equal : Order → Bool
is_equal equal = true
is_equal o = false

-- `ModelResponse`
pub record ModelResponse : Type 0 where
  pub text : String
  pub model : String
  pub cost_usd : ℕ

-- What the model port gives for a prompt.
pub data JudgeReply : Type 0 where
  unavailable : (error : String) → JudgeReply
  replied : ModelResponse → JudgeReply

-- `TournamentJudge`: the model port, asked with the candidates' text; and what the judge takes from
-- Python: the label of a place, `chr(ord("A") + index)`; the first characters of a text; `repr`; and
-- `_parse_judge_verdict`, which reads JSON by regular expressions.
pub record TournamentJudge : Type 0 where
  pub model : String
  pub max_diff_chars : ℕ
  pub complete : String → JudgeReply
  pub label_of : ℕ → String
  pub first_chars : ℕ → String → String
  pub quoted : String → String
  pub parse_verdict : String → Option (String × String)

-- The candidates by their labels.
unfoldable pub label_all :
    (ℕ → String) → ℕ → List RankableAttempt → Dict RankableAttempt → Dict RankableAttempt
unfolding insert
label_all label_of index [] labels = labels
label_all label_of index (a ∷ candidates) labels =
    label_all label_of (index + 1) candidates (insert (label_of index) a labels)

-- The winner, if the judge names one, the rationale and the response.
abbrev pub Picked : Type 0
Picked = Option RankableAttempt × String × Option ModelResponse

abbrev pub section_of : TournamentJudge → String × RankableAttempt → String
section_of judge (label, a) = concat (
    "## Candidate "
    ∷ label
    ∷ "\n```diff\n"
    ∷ judge.first_chars judge.max_diff_chars a.diff
    ∷ "\n```"
    ∷ [])

abbrev pub pick_label :
    TournamentJudge → Dict RankableAttempt → ModelResponse → Option (String × String) → Picked
pick_label judge labels response none = (
  none,
  concat ("judge reply was not parseable: " ∷ judge.first_chars 200 response.text ∷ []),
  some response,
)
pick_label judge labels response (some (label, reason)) = elim (lookup label labels) [
  | none ↦
      (none, concat ("judge picked unknown candidate " ∷ judge.quoted label ∷ []), some response)
  | some chosen ↦ (some chosen, reason, some response)
]

abbrev pub read_reply : TournamentJudge → Dict RankableAttempt → JudgeReply → Picked
read_reply judge labels (unavailable error) =
    (none, concat ("judge unavailable: " ∷ error ∷ []), none)
read_reply judge labels (replied response) =
    pick_label judge labels response (judge.parse_verdict response.text)

-- `TournamentJudge.pick`
unfoldable pub pick : TournamentJudge → List RankableAttempt → Picked
unfolding label_all lookup concat join
pick judge candidates =
    let labels = label_all judge.label_of 0 candidates [] in
    read_reply judge labels (judge.complete (join "\n\n" (map (section_of judge) labels)))

pub data Method : Type 0 where
  objective llm_judge stable_order : Method

-- `RankDecision`
pub record RankDecision : Type 0 where
  pub winner_id : String
  pub ranking : List String
  pub method : Method
  pub tied : List String
  pub rationale : String
  pub judge_model : String
  pub judge_cost_usd : ℕ

abbrev pub ids_of : List RankableAttempt → List String
ids_of attempts = map (λ (a : RankableAttempt). a.attempt_id) attempts

-- ids.remove(id), for an id that is there.
unfoldable pub remove : String → List String → List String
remove id [] = []
remove id (x ∷ xs) = let rest = remove id xs in if x == id then xs else x ∷ rest

-- `_winner_first`
abbrev pub winner_first : List RankableAttempt → String → List String
winner_first ordered id = id ∷ remove id (ids_of ordered)

abbrev pub tied_with : RankableAttempt → List RankableAttempt → List RankableAttempt
tied_with best ordered =
    select (λ a. is_equal (compare_keys (objective_key a) (objective_key best))) ordered

abbrev pub decide :
    List RankableAttempt
    → String
    → List String
    → Method
    → List String
    → String
    → String
    → ℕ
    → RankDecision
decide ordered winner ranking method tied rationale model cost = record {
  winner_id = winner;
  ranking = ranking;
  method = method;
  tied = tied;
  rationale = rationale;
  judge_model = model;
  judge_cost_usd = cost;
}

abbrev pub model_of : TournamentJudge → Option ModelResponse → String
model_of judge none = judge.model
model_of judge (some r) = r.model

abbrev pub cost_of : Option ModelResponse → ℕ
cost_of none = 0
cost_of (some r) = r.cost_usd

-- A winner without an id is none.
abbrev pub named : Option RankableAttempt → Option RankableAttempt
named none = none
named (some a) = if a.attempt_id == "" then none else some a

abbrev pub by_judge :
    TournamentJudge
    → (best : RankableAttempt) (ordered tied : List RankableAttempt) → Picked
    → RankDecision
by_judge judge best ordered tied (winner, rationale, response) = elim (named winner) [
  | some a ↦
      decide ordered a.attempt_id (winner_first ordered a.attempt_id) llm_judge (ids_of tied)
        rationale (model_of judge response) (cost_of response)
  | none ↦
      decide ordered best.attempt_id (ids_of ordered) stable_order (ids_of tied)
        (if rationale == "" then "judge could not decide; fell back to stable order" else rationale)
        (model_of judge response) (cost_of response)
]

abbrev pub by_tie :
    Option TournamentJudge
    → (best : RankableAttempt) (ordered tied : List RankableAttempt) → RankDecision
by_tie none best ordered tied =
    decide ordered best.attempt_id (ids_of ordered) stable_order (ids_of tied)
      "objective metrics tied and no judge was configured" "" 0
by_tie (some judge) best ordered tied = by_judge judge best ordered tied (pick judge tied)

abbrev pub rank_ordered : Option TournamentJudge → List RankableAttempt → Option RankDecision
rank_ordered judge [] = none
rank_ordered judge (best ∷ rest) =
    let tied = tied_with best (best ∷ rest) in
    some (
      if nat_eq (length tied) 1
      then decide (best ∷ rest) best.attempt_id (ids_of (best ∷ rest)) objective []
          "objective metrics fully ordered the candidates" "" 0
      else by_tie judge best (best ∷ rest) tied)

-- `rank_attempts`: without attempts there is no decision, a `RuntimeError`.
unfoldable pub rank_attempts : List RankableAttempt → Option TournamentJudge → Option RankDecision
unfolding sort before pick remove select compare_keys objective_key
rank_attempts attempts judge = rank_ordered judge (sort before attempts)
