-- ===== src/Core/Schema/Conforms.antt =====
-- The values that pass a schema, described by themselves.
use murmur_ai_harness.Prelude.{
  String, ◌≡◌, refl, sym, ◌↔◌, ◌⊎◌, Bool, true, false, ◌||◌, Option, none, some, List, [], ◌∷◌,
  ◌++◌, arith, ◌==◌, eq_iff, if◌then◌else◌, All, contains, append-eq-nil, place,
}
use mathlib.Core.Path.{subst}
use murmur_ai_harness.Core.Json.{
  Json, null, boolean, integer, float, string, array, object, Entries, find_entry,
}
use murmur_ai_harness.Core.Events.{SchemaIssue}
use murmur_ai_harness.Core.Schema.{
  Schema, schema, Properties, done, property, unchecked, type_names, has_wrong_type, is_instance,
  type_or, has, missing_keys, in_object, in_entry, validate_at, validate_properties,
  validate_json_schema, under,
}

-- The JSON types that a value has.
abbrev pub types_of : Json → List String
types_of null = "null" ∷ []
types_of (boolean b) = "boolean" ∷ []
types_of (integer z) = "integer" ∷ "number" ∷ []
types_of (float z) = "number" ∷ []
types_of (string s) = "string" ∷ []
types_of (array xs) = "array" ∷ []
types_of (object es) = "object" ∷ []

-- A schema without a type, or with one that JSON does not have, takes any value.
abbrev pub HasType : Option String → Json → Type 0
HasType none value = Unit
HasType (some name) value =
    (contains type_names name ≡ false) ⊎ (contains (types_of value) name ≡ true)

abbrev pub HasKeys : List String → Entries → Type 0
HasKeys required entries = All (λ key. has (find_entry key entries) ≡ true) required

abbrev mutual
  -- The value has the type; if the schema is one of an object, then the value is an object with
  -- the required keys, and what it has under a property conforms to the property's schema.
  pub Conforms : Schema → Json → Type 0
  Conforms (schema type required has_properties properties) value =
      HasType type value
      × ((type_or type == "object" || has_properties) ≡ true
          → (entries : Entries) × (value ≡ object entries)
            × (HasKeys required entries × EachConforms properties entries))

  pub EachConforms : Properties → Entries → Type 0
  EachConforms done entries = Unit
  EachConforms (property key sub rest) entries =
      ((v : Json) → find_entry key entries ≡ some v → Conforms sub v) × EachConforms rest entries
  EachConforms (unchecked key rest) entries = EachConforms rest entries

type_iff :
    (type : Option String) (value : Json) → (has_wrong_type type value ≡ false) ↔ HasType type value
unfolding has_wrong_type is_instance contains
type_iff none value = ground arith
type_iff (some name) null = ground arith
type_iff (some name) (boolean b) = ground (
  arith,
  eq_iff "boolean" name,
  eq_iff "integer" name,
  eq_iff "number" name,
  eq_iff "boolean" "integer",
  eq_iff "boolean" "number",
)
type_iff (some name) (integer z) = ground arith
type_iff (some name) (float z) = ground arith
type_iff (some name) (string s) = ground arith
type_iff (some name) (array xs) = ground arith
type_iff (some name) (object es) = ground arith

missing_keys_iff :
    (place : String) (required : List String) (entries : Entries)
    → (missing_keys place required entries ≡ []) ↔ HasKeys required entries
unfolding missing_keys
missing_keys_iff place [] entries = ground arith
missing_keys_iff place (key ∷ required) entries =
    ground (arith, missing_keys_iff place required entries)

object_inj : {a b : Entries} → object a ≡ object b → a ≡ b
object_inj h = cc

some_inj : {a b : Json} → some a ≡ some b → a ≡ b
some_inj e = cc

object_iff :
    (place : String) (value : Json) (inside : Entries → List SchemaIssue) (P : Entries → Type 0)
    → ((entries : Entries) → (inside entries ≡ []) ↔ P entries)
    → (in_object place value inside ≡ [])
      ↔ ((entries : Entries) × (value ≡ object entries) × P entries)
object_iff place null inside P each = (λ h. cc, λ (entries, e, p). cc)
object_iff place (boolean b) inside P each = (λ h. cc, λ (entries, e, p). cc)
object_iff place (integer z) inside P each = (λ h. cc, λ (entries, e, p). cc)
object_iff place (float z) inside P each = (λ h. cc, λ (entries, e, p). cc)
object_iff place (string s) inside P each = (λ h. cc, λ (entries, e, p). cc)
object_iff place (array xs) inside P each = (λ h. cc, λ (entries, e, p). cc)
object_iff place (object es) inside P each = (
  λ h. (es, refl, (each es).0 h),
  λ (entries, e, p). (each es).1 (subst P (sym (object_inj e)) p),
)

entry_iff :
    (o : Option Json) (inside : Json → List SchemaIssue) (P : Json → Type 0)
    → ((v : Json) → (inside v ≡ []) ↔ P v)
    → (in_entry o inside ≡ []) ↔ ((v : Json) → o ≡ some v → P v)
entry_iff none inside P each = (λ h v e. cc, λ h. refl)
entry_iff (some w) inside P each =
    (λ h v e. subst P (some_inj e) ((each w).0 h), λ h. (each w).1 (h w refl))

cons_not_nil : (issue : SchemaIssue) (A : Type 0) → issue ∷ [] ≡ [] → A
cons_not_nil issue A h = cc

no_type : (T : Type 0) → ((true ≡ false) ↔ T) → T → ⊥
no_type T t x = let e = t.1 x in cc

gate_iff :
    (wrong objects : Bool) (issue : SchemaIssue) (inner : List SchemaIssue) (T Q : Type 0)
    → ((wrong ≡ false) ↔ T)
    → ((inner ≡ []) ↔ Q)
    → ((if wrong then issue ∷ [] else if objects then inner else []) ≡ [])
      ↔ (T × (objects ≡ true → Q))
gate_iff true objects issue inner T Q t q = (cons_not_nil issue _, λ h. elim (no_type T t h.0) [ ])
gate_iff false true issue inner T Q t q = (λ h. (t.0 refl, λ e. q.0 h), λ h. q.1 (h.1 refl))
gate_iff false false issue inner T Q t q = (λ h. (t.0 refl, λ e. cc), λ h. refl)

both_iff :
    (xs ys : List SchemaIssue) (P Q : Type 0)
    → ((xs ≡ []) ↔ P)
    → ((ys ≡ []) ↔ Q)
    → (xs ++ ys ≡ []) ↔ (P × Q)
both_iff xs ys P Q p q = (
  λ h. let (a, b) = (append-eq-nil xs ys).0 h in (p.0 a, q.0 b),
  λ h. (append-eq-nil xs ys).1 (p.1 h.0, q.1 h.1),
)

mutual
  unfolding validate_at

  validate_at_iff :
      (s : Schema) (value : Json) (place : String)
      → (validate_at s value place ≡ []) ↔ Conforms s value
  validate_at_iff (schema type required hp properties) value place =
      gate_iff (has_wrong_type type value) (type_or type == "object" || hp) _ _ _ _
        (type_iff type value)
        (object_iff place value
          (λ entries.
            missing_keys place required entries ++ validate_properties properties entries place)
          (λ entries. HasKeys required entries × EachConforms properties entries)
          (λ entries.
            both_iff (missing_keys place required entries) _ _ _
              (missing_keys_iff place required entries)
              (validate_properties_iff properties entries place)))

  validate_properties_iff :
      (ps : Properties) (entries : Entries) (place : String)
      → (validate_properties ps entries place ≡ []) ↔ EachConforms ps entries
  validate_properties_iff done entries place = (λ h. tt, λ h. refl)
  validate_properties_iff (property key sub rest) entries place =
      both_iff _ (validate_properties rest entries place) _ _
        (entry_iff (find_entry key entries) _ _ (λ v. validate_at_iff sub v (under place key)))
        (validate_properties_iff rest entries place)
  validate_properties_iff (unchecked key rest) entries place =
      validate_properties_iff rest entries place

-- The check finds no issue exactly with a value that conforms to the schema.
pub validate_json_schema_iff :
    (value : Json) (s : Schema) → (validate_json_schema value (some s) ≡ []) ↔ Conforms s value
unfolding validate_json_schema
validate_json_schema_iff value s = validate_at_iff s value "$"
