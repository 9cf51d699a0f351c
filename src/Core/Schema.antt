-- ===== src/Core/Schema.antt =====
-- murmur/core/schema.py: the check of a JSON value against a schema.
pub mod Conforms
use murmur_ai_harness.Prelude.{
  ℕ, zero, suc, ◌+◌, ◌-◌, ◌*◌, ◌/◌, ◌%◌, ◌≤◌, ◌<◌, min, max, String, ◌≡◌, refl, sym, ap, ◌∙◌, ◌≢◌,
  ◌↔◌, ◌⊎◌, inl, inr, Bool, true, false, not, ◌&&◌, ◌||◌, Option, none, some, List, [], ◌∷◌, ◌++◌,
  map, arith, ◌==◌, eq_iff, eq_refl, ltb, leb, nat_eq, str_le, if◌then◌else◌, leb→le, le→leb,
  nat_eq_iff, &&_iff, Bool-cases, Option-cases, concat, has_text, join, length, take, drop,
  length-append, take-append-drop, length-take, select, All, all, any, contains, IsUnique, count,
  count-append, contains-append, contains→count, count→contains, length-map, Has, Zip, All-map,
  All-intro, map-cong, All-Has, Has-map, length-select-cons, length-select, Has-select, Has-last,
  Has→contains, append-eq-nil, place, sort, length-sort, sorted, count-sort, count-sorted,
  length-sorted, place-perm, sort-perm, IsSorted, sort-IsSorted, All-sort, Has-sort, Dict, lookup,
  insert, update, keys, lookup-insert, lookup-update, pos_part, is_nonpos, neg_part, sub_ℕ, ◌+ℤ◌,
  leb_ℤ, ℤ, pos, negsuc,
}
use murmur_ai_harness.Core.Json.{
  Json, null, boolean, integer, float, string, array, object, Entries, find_entry,
}
use murmur_ai_harness.Core.Events.{SchemaIssue}

-- A schema by what the check reads of its dictionary: the type if it is a text, `required`,
-- whether there are properties, and these. A property whose schema is no dictionary is `unchecked`.
mutual
  pub data Schema : Type 0 where
    schema :
        (type : Option String) (required : List String) (has_properties : Bool)
        → Properties
        → Schema

  pub data Properties : Type 0 where
    done : Properties
    property : String → Schema → Properties → Properties
    unchecked : String → Properties → Properties

-- type(value).__name__
unfoldable pub type_name : Json → String
type_name null = "NoneType"
type_name (boolean b) = "bool"
type_name (integer z) = "int"
type_name (float z) = "float"
type_name (string s) = "str"
type_name (array xs) = "list"
type_name (object es) = "dict"

-- The keys of `_TYPE_MAP`.
abbrev pub type_names : List String
type_names = "array" ∷ "boolean" ∷ "integer" ∷ "null" ∷ "number" ∷ "object" ∷ "string" ∷ []

-- isinstance(value, _TYPE_MAP[name]), where a `bool` is an `int`.
unfoldable pub is_instance : String → Json → Bool
is_instance name null = "null" == name
is_instance name (boolean b) = "boolean" == name || "integer" == name || "number" == name
is_instance name (integer z) = "integer" == name || "number" == name
is_instance name (float z) = "number" == name
is_instance name (string s) = "string" == name
is_instance name (array xs) = "array" == name
is_instance name (object es) = "object" == name

abbrev pub is_boolean : Json → Bool
is_boolean (boolean b) = true
is_boolean value = false

abbrev pub wrong_bool : String → Json → Bool
wrong_bool name value = is_boolean value && ("integer" == name || "number" == name)

-- The first test of `_validate`: a known type that the value does not have.
unfoldable pub has_wrong_type : Option String → Json → Bool
unfolding is_instance contains
has_wrong_type none value = false
has_wrong_type (some name) value =
    contains type_names name && (wrong_bool name value || not (is_instance name value))

abbrev pub type_or : Option String → String
type_or none = ""
type_or (some name) = name

abbrev pub has : Option Json → Bool
has none = false
has (some v) = true

abbrev pub under : String → String → String
under place key = concat (place ∷ "." ∷ key ∷ [])

unfoldable pub missing_keys : String → List String → Entries → List SchemaIssue
missing_keys place [] entries = []
missing_keys place (key ∷ required) entries =
    let rest = missing_keys place required entries in
    if has (find_entry key entries)
    then rest
    else record { place = under place key; expected = "present"; got = "missing" } ∷ rest

-- The issues of what is under a key.
abbrev pub in_entry : Option Json → (Json → List SchemaIssue) → List SchemaIssue
in_entry none inside = []
in_entry (some v) inside = inside v

-- if not isinstance(value, dict): …
abbrev pub in_object : String → Json → (Entries → List SchemaIssue) → List SchemaIssue
in_object place (object entries) inside = inside entries
in_object place value inside =
    record { place = place; expected = "object"; got = type_name value } ∷ []

unfoldable mutual
  -- `_validate`
  pub validate_at : Schema → Json → String → List SchemaIssue
  validate_at (schema type required has_properties properties) value place =
      let inside = validate_properties properties in
      if has_wrong_type type value
      then record { place = place; expected = type_or type; got = type_name value } ∷ []
      else if type_or type == "object" || has_properties
      then in_object place value
          (λ entries. missing_keys place required entries ++ inside entries place)
      else []

  -- The loop over the properties.
  pub validate_properties : Properties → Entries → String → List SchemaIssue
  validate_properties done entries place = []
  validate_properties (property key sub rest) entries place =
      let inside = validate_at sub in
      in_entry (find_entry key entries) (λ v. inside v (under place key))
      ++ validate_properties rest entries place
  validate_properties (unchecked key rest) entries place = validate_properties rest entries place

-- `validate_json_schema`, with `None` for a missing schema.
unfoldable pub validate_json_schema : Json → Option Schema → List SchemaIssue
validate_json_schema value none = []
validate_json_schema value (some s) = validate_at s value "$"
