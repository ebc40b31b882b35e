-- ===== src/Schema.antt =====
-- `Schema`, `FieldDefinition`, `FieldType` and `Validator` of veddb-core/src/schema.rs. The fields of a
-- schema and of an object type are in the order of their names; an error keeps the name of the field.
pub mod Defaults
pub mod Validity
mod Tests
use ved_db_server.Prelude.{
  ℕ, zero, suc, ◌+◌, ◌-◌, ◌*◌, ◌/◌, ◌%◌, ◌^◌, ◌≤◌, ◌<◌, min, max, bit_and, bit_xor, ◌≡◌, refl, sym,
  ap, ap₂, subst, ◌∙◌, ◌≢◌, ◌↔◌, ◌⊎◌, inl, inr, Bool, true, false, not, ◌&&◌, ◌||◌, Option, none,
  some, List, [], ◌∷◌, ◌++◌, map, arith, ltb, leb, ◌==◌, if◌then◌else◌, ltb→lt, lt→ltb, leb→le,
  le→leb, ==_iff, Bool-cases, Option-cases, length, get_elem?, get_or, set, take, drop, replicate,
  All, length-append, length-replicate, length-set, get_or-set_self, get_or-set_ne, get_or-set,
  get_or-replicate, take-append_length, length-drop, All-append, All-drop,
}
use Prim.Native.Nat.{Ordering}
use Prim.Native.String.{String}
use Prim.Native.String
use ved_db_server.Document.{
  Value, Values, Fields, Document, null, bool, int32, int64, float64, string, binary, array, object,
  object_id, date_time, no_values, value, find, insert,
}
use text.Mathlib.Text.{is_lt}
use ved_db_server.Query.{Engine}
use ved_db_server.Query.Values.{contains, to_i64, is_gt}

pub data Validator : Type 0 where
  min_value max_value : ℕ → Validator
  min_length max_length : ℕ → Validator
  matching : String → Validator
  one_of : List Value → Validator
  custom : String → Validator

mutual
  pub data FieldType : Type 0 where
    string_type : (max_length : Option ℕ) → FieldType
    int32_type int64_type float64_type boolean_type date_type binary_type object_id_type : FieldType
    array_type : FieldType → FieldType
    object_type : Definitions → FieldType
    reference_type : (collection : String) → FieldType
    any_type : FieldType

  pub data FieldDefinition : Type 0 where
    define :
        (field_type : FieldType) (required : Bool) (default : Option Value) (unique indexed : Bool)
        (validators : List Validator) (encrypted : Bool) (encryption_key_id : Option String)
        → FieldDefinition

  pub data Definitions : Type 0 where
    no_definitions : Definitions
    definition : String → FieldDefinition → Definitions → Definitions

-- `FieldDefinition::new`
abbrev pub new : FieldType → FieldDefinition
new t = define t false none false false [] false none

unfoldable pub field_type : FieldDefinition → FieldType
field_type (define t r v u i vs c k) = t

unfoldable pub required : FieldDefinition → Bool
required (define t r v u i vs c k) = r

unfoldable pub default_value : FieldDefinition → Option Value
default_value (define t r v u i vs c k) = v

unfoldable pub validators : FieldDefinition → List Validator
validators (define t r v u i vs c k) = vs

pub data ValidationError : Type 0 where
  required_field_missing type_mismatch : String → ValidationError
  min_value_violation max_value_violation : String → ValidationError
  min_length_violation max_length_violation : String → ℕ → ℕ → ValidationError
  regex_mismatch invalid_regex enum_violation : String → ValidationError

-- a test of every value
unfoldable pub all_values : (Value → Bool) → Values → Bool
all_values test no_values = true
all_values test (value v vs) = test v && all_values test vs

unfoldable pub values_length : Values → ℕ
values_length no_values = 0
values_length (value v vs) = suc (values_length vs)

-- a value that may be missing, when it is required and when it is there
unfoldable pub present_and : Bool → (Value → Bool) → Option Value → Bool
present_and needed test none = not needed
present_and needed test (some v) = test v

unfoldable mutual
  pub is_compatible : FieldType → Value → Bool
  is_compatible (string_type n) (string s) = true
  is_compatible int32_type (int32 i) = true
  is_compatible int64_type (int64 i) = true
  is_compatible int64_type (int32 i) = true
  is_compatible float64_type (float64 f) = true
  is_compatible float64_type (int32 i) = true
  is_compatible float64_type (int64 i) = true
  is_compatible boolean_type (bool b) = true
  is_compatible date_type (date_time t) = true
  is_compatible binary_type (binary b) = true
  is_compatible object_id_type (object_id i) = true
  is_compatible (array_type t) (array vs) = all_values (λ v. is_compatible t v) vs
  is_compatible (object_type ds) (object fs) = has_fields ds fs
  is_compatible (reference_type c) (object_id i) = true
  is_compatible any_type v = true
  is_compatible t v = false

  -- the loop over the fields of an object type
  pub has_fields : Definitions → Fields → Bool
  has_fields no_definitions fs = true
  has_fields (definition k (define t r v u i vs c key) ds) fs =
      present_and r (λ w. is_compatible t w) (find k fs) && has_fields ds fs

-- the bytes of a text, the values of an array and the bytes of binary data
unfoldable pub length_of : Value → Option ℕ
length_of (string s) = some (String.len s)
length_of (array vs) = some (values_length vs)
length_of (binary b) = some (length b)
length_of v = none

unfoldable pub is_less : Option Ordering → Bool
is_less none = false
is_less (some o) = is_lt o

unfoldable pub is_greater : Option Ordering → Bool
is_greater none = false
is_greater (some o) = is_gt o

-- the error of a failed test
unfoldable pub error_if : Bool → ValidationError → Option ValidationError
error_if true why = some why
error_if false why = none

-- the error of the first check, or of the next
unfoldable pub or_next : Option ValidationError → Option ValidationError → Option ValidationError
or_next none next = next
or_next (some why) next = some why

module _ (e : Engine) where
  unfoldable pub as_f64 : Value → Option ℕ
  as_f64 (float64 f) = some f
  as_f64 (int32 i) = some (e.float_of_int (to_i64 i))
  as_f64 (int64 i) = some (e.float_of_int i)
  as_f64 v = none

  unfoldable pub check_regex : String → Option Bool → Option ValidationError
  check_regex name none = some (invalid_regex name)
  check_regex name (some b) = error_if (not b) (regex_mismatch name)

  -- `Validator::validate`
  unfoldable pub check : Validator → String → Value → Option ValidationError
  check (min_value m) name v = elim (as_f64 v) [
    | none ↦ none
    | some n ↦ error_if (is_less (e.partial_cmp n m)) (min_value_violation name)
  ]
  check (max_value m) name v = elim (as_f64 v) [
    | none ↦ none
    | some n ↦ error_if (is_greater (e.partial_cmp n m)) (max_value_violation name)
  ]
  check (min_length n) name v = elim (length_of v) [
    | none ↦ none
    | some len ↦ error_if (ltb len n) (min_length_violation name n len)
  ]
  check (max_length n) name v = elim (length_of v) [
    | none ↦ none
    | some len ↦ error_if (ltb n len) (max_length_violation name n len)
  ]
  check (matching pattern) name (string s) = check_regex name (e.is_match false pattern s)
  check (matching pattern) name v = none
  check (one_of vs) name v = error_if (not (contains e vs v)) (enum_violation name)
  check (custom f) name v = none

  unfoldable pub check_all : List Validator → String → Value → Option ValidationError
  check_all [] name v = none
  check_all (c ∷ cs) name v = or_next (check c name v) (check_all cs name v)

  -- `FieldDefinition::validate`
  unfoldable pub validate_value : FieldDefinition → String → Value → Option ValidationError
  validate_value d name v =
      if is_compatible (field_type d) v
      then check_all (validators d) name v
      else some (type_mismatch name)

  -- one turn of the loop of `Schema::validate`
  unfoldable pub validate_field : FieldDefinition → String → Option Value → Option ValidationError
  validate_field d name none = error_if (required d) (required_field_missing name)
  validate_field d name (some v) = validate_value d name v

  -- `Schema::validate`, which lets fields be that are not in the schema
  unfoldable pub validate : Definitions → Document → Option ValidationError
  validate no_definitions d = none
  validate (definition k f ds) d = or_next (validate_field f k (find k d.fields)) (validate ds d)

-- one turn of the loop of `apply_defaults`
unfoldable pub fill_default : ℕ → String → Option Value → Option Value → Document → Document
fill_default now k (some v) default d = d
fill_default now k none none d = d
fill_default now k none (some w) d = (insert now d k w).1

unfoldable pub apply_defaults : ℕ → Definitions → Document → Document
apply_defaults now no_definitions d = d
apply_defaults now (definition k f ds) d =
    apply_defaults now ds (fill_default now k (find k d.fields) (default_value f) d)
