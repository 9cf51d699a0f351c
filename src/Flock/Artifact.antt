-- ===== src/Flock/Artifact.antt =====
-- murmur/flock/artifact.py: the value that flows along the edges of a plan. A score is a whole
-- number of a fixed fraction, and `meta` holds the values that the operators write.
use murmur_ai_harness.Prelude.{ℕ, String, Bool, Option, List, map, Dict, insert, ℤ}

pub data MetaValue : Type 0 where
  number : ℕ → MetaValue
  flag : Bool → MetaValue
  text : String → MetaValue
  texts : List String → MetaValue

pub record Artifact : Type 0 where
  pub id : String
  pub content : String
  pub score : Option ℤ
  pub meta : Dict MetaValue
  pub trust : String

-- `with_meta`, for one entry.
unfoldable pub with_meta : String → MetaValue → Artifact → Artifact
with_meta key value a = record a { meta = insert key value a.meta }

abbrev pub artifact_ids : List Artifact → List String
artifact_ids xs = map (λ (a : Artifact). a.id) xs

-- What the operators take from Python's texts: `strip`, `upper`, the first non-blank line of a
-- text, cut to 60 characters, the first 500 characters, and `parse_score`.
pub record Texts : Type 0 where
  pub strip : String → String
  pub upper : String → String
  pub first_line : String → Option String
  pub first_500 : String → String
  pub parse_score : String → Option ℤ
