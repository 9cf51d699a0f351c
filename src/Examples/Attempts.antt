-- ===== src/Examples/Attempts.antt =====
-- Three attempts, two of them tied.
use murmur_ai_harness.Prelude.{
  ℕ, String, ◌≡◌, Bool, true, false, some, List, [], ◌∷◌, nat_eq, if◌then◌else◌,
}
use murmur_ai_harness.Tournament.{
  RankableAttempt, RankDecision, TournamentJudge, replied, rank_attempts,
}
use murmur_ai_harness.Tournament.Ranking.{IsRanking, rank_attempts-IsRanking}

abbrev attempt_of : String → Bool → ℕ → RankableAttempt
attempt_of id passed lines = record {
  attempt_id = id;
  diff = "";
  verification = record {
    passed = passed;
    failures = [];
    changed_files = "a.py" ∷ [];
    diff_lines = lines;
  };
}

-- A judge that takes the second candidate.
abbrev second : TournamentJudge
second = record {
  model = "fake";
  max_diff_chars = 4000;
  complete = λ prompt. replied (record { text = "B"; model = "fake"; cost_usd = 1 });
  label_of = λ n. if nat_eq n 0 then "A" else "B";
  first_chars = λ n s. s;
  quoted = λ s. s;
  parse_verdict = λ text. some (text, "shorter");
}

abbrev tied_pair : List RankableAttempt
tied_pair = attempt_of "a2" true 5 ∷ attempt_of "a1" true 5 ∷ []

rank_attempts-IsRanking_example :
    (d : RankDecision) × (rank_attempts (attempt_of "a3" false 1 ∷ tied_pair) (some second)
      ≡ some d)
    × IsRanking (attempt_of "a3" false 1 ∷ tied_pair) d
rank_attempts-IsRanking_example =
    rank_attempts-IsRanking (attempt_of "a3" false 1) tied_pair (some second)
