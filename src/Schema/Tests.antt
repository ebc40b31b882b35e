-- ===== src/Schema/Tests.antt =====
-- The theorems on schemas at a concrete schema.
use ved_db_server.Prelude.{◌≡◌, refl, true, false, none, some, [], ◌∷◌}
use ved_db_server.Prelude.Maps.{String-Eq}
use ved_db_server.Document.{Document, string, find, with_id}
use ved_db_server.Index.Tests.{plain_engine, person}
use ved_db_server.Schema.{
  Definitions, no_definitions, definition, define, int32_type, string_type, min_value, max_length,
  apply_defaults, validate, validate_field, validate_value, default_value, field_type, validators,
  required, is_compatible, check, check_all, as_f64, length_of, or_next, error_if, is_less,
}
use ved_db_server.Schema.Defaults.{first_some, default_of, get-apply_defaults}
use ved_db_server.Schema.Validity.{
  distinct_names, is_defined, validate-apply_defaults, validate_filled, have_valid_defaults,
  apply_defaults-valid, is_valid, validate_filled_default,
}
use ved_db_server.Query.Values.{to_i64}

-- an age, which is required and at least 18, and a town, which is Oslo unless given
abbrev registration : Definitions
registration =
    definition "age" (define int32_type true none false false (min_value 18 ∷ []) false none) (
      definition "town"
        (define (string_type none) false (some (string "Oslo")) false false (max_length 8 ∷ [])
          false none)
        no_definitions)

abbrev resident : Document
resident = person (1 ∷ []) 30 7

get-apply_defaults_example :
    find "town" (apply_defaults 5 registration resident).fields
    ≡ first_some (find "town" resident.fields) (default_of "town" registration)
get-apply_defaults_example = get-apply_defaults 5 registration resident "town"

validate-apply_defaults_example :
    validate plain_engine registration (apply_defaults 5 registration (with_id 0 (2 ∷ [])))
    ≡ validate_filled plain_engine registration (with_id 0 (2 ∷ []))
unfolding distinct_names is_defined String-Eq
validate-apply_defaults_example =
    validate-apply_defaults plain_engine 5 registration (with_id 0 (2 ∷ [])) refl

apply_defaults-valid_example :
    validate plain_engine registration (apply_defaults 5 registration resident) ≡ none
unfolding distinct_names is_defined String-Eq have_valid_defaults is_valid validate_filled_default
    default_value validate_value is_compatible field_type check_all validators or_next check
    length_of error_if validate validate_field find as_f64 to_i64 is_less required
apply_defaults-valid_example =
    apply_defaults-valid plain_engine 5 registration resident refl refl refl
