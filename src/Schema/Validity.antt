-- ===== src/Schema/Validity.antt =====
-- What `validate` of schema.rs says of a document with its defaults.
use ved_db_server.Prelude.{
  ℕ, ◌≡◌, refl, ap, ap₂, ◌∙◌, Bool, true, false, not, ◌&&◌, ◌||◌, Option, none, some, arith,
  if◌then◌else◌,
}
use Prim.Native.String.{String}
use ved_db_server.Prelude.Maps.{String-Eq, same_refl}
use ved_db_server.Document.{Value, Document, find}
use ved_db_server.Query.{Engine}
use ved_db_server.Schema.{
  Definitions, FieldDefinition, ValidationError, no_definitions, definition, default_value,
  fill_default, apply_defaults, validate, validate_field, validate_value, or_next,
}
use ved_db_server.Schema.Defaults.{
  first_some, first_some-none, default_of, get-fill_default, get-apply_defaults,
}

unfoldable pub is_defined : String → Definitions → Bool
is_defined j no_definitions = false
is_defined j (definition k f ds) = String-Eq.same k j || is_defined j ds

-- no two definitions of one name
unfoldable pub distinct_names : Definitions → Bool
distinct_names no_definitions = true
distinct_names (definition k f ds) = not (is_defined k ds) && distinct_names ds

default_of-undefined :
    (j : String) (ds : Definitions) → is_defined j ds ≡ false → default_of j ds ≡ none
unfolding is_defined default_of
default_of-undefined j no_definitions x = refl
default_of-undefined j (definition k f ds) x = ground (arith, default_of-undefined j ds)

unfoldable pub is_valid : Option ValidationError → Bool
is_valid none = true
is_valid (some why) = false

or_next-both : (a b : Option ValidationError) → or_next a b ≡ none → (a ≡ none) × (b ≡ none)
unfolding or_next
or_next-both none b x = (refl, x)
or_next-both (some why) b x = absurd (ground (arith, x))

module _ (e : Engine) where
  -- the first error of a field's value, or of its default where the document lacks the field
  unfoldable pub validate_filled : Definitions → Document → Option ValidationError
  validate_filled no_definitions d = none
  validate_filled (definition k f ds) d =
      or_next (validate_field e f k (first_some (find k d.fields) (default_value f)))
        (validate_filled ds d)

  -- The default of another field changes nothing.
  validate_filled-other :
      (now : ℕ) (k : String) (default : Option Value) (ds : Definitions) (d : Document)
      → is_defined k ds ≡ false
      → validate_filled ds (fill_default now k (find k d.fields) default d) ≡ validate_filled ds d
  unfolding validate_filled is_defined
  validate_filled-other now k default no_definitions d x = refl
  validate_filled-other now k default (definition j f ds) d x =
      let apart : String-Eq.same k j ≡ false =
        ground (arith, String-Eq.same_iff k j, String-Eq.same_iff j k, x) in
      let unchanged : find j (fill_default now k (find k d.fields) default d).fields
          ≡ find j d.fields =
        get-fill_default now k j default d ∙ (rw (apart) (first_some-none (find j d.fields))) in
      rw (unchanged, validate_filled-other now k default ds d (ground (arith, x))) refl

  -- A schema whose names are distinct finds in a document, once its defaults are applied, the error of the
  -- first field whose value, or whose default where the document lacks the field, is not valid, and no
  -- error when there is no such field.
  pub validate-apply_defaults :
      (now : ℕ) (ds : Definitions) (d : Document)
      → distinct_names ds ≡ true
      → validate e ds (apply_defaults now ds d) ≡ validate_filled ds d
  unfolding validate apply_defaults validate_filled distinct_names
  validate-apply_defaults now no_definitions d x = refl
  validate-apply_defaults now (definition k f ds) d x =
      let filled = fill_default now k (find k d.fields) (default_value f) d in
      let undefined : is_defined k ds ≡ false = ground (arith, x) in
      let here : find k (apply_defaults now ds filled).fields
          ≡ first_some (find k d.fields) (default_value f) =
        get-apply_defaults now ds filled k
        ∙ ap (first_some (find k filled.fields)) (default_of-undefined k ds undefined)
        ∙ first_some-none (find k filled.fields)
        ∙ get-fill_default now k k (default_value f) d
        ∙ ap (λ b. first_some (find k d.fields) (if b then default_value f else none))
            (same_refl k) in
      let later =
        validate-apply_defaults now ds filled (ground (arith, x))
        ∙ validate_filled-other now k (default_value f) ds d undefined in
      ap₂ (λ v next. or_next (validate_field e f k v) next) here later

  unfoldable pub validate_filled_default :
      FieldDefinition → String → Option Value → Option ValidationError
  validate_filled_default f k none = none
  validate_filled_default f k (some v) = validate_value e f k v

  -- whether every default is a valid value of its field
  unfoldable pub have_valid_defaults : Definitions → Bool
  have_valid_defaults no_definitions = true
  have_valid_defaults (definition k f ds) =
      is_valid (validate_filled_default f k (default_value f)) && have_valid_defaults ds

  validate_field-filled :
      (f : FieldDefinition) (k : String) (o default : Option Value)
      → validate_field e f k o ≡ none
      → is_valid (validate_filled_default f k default) ≡ true
      → validate_field e f k (first_some o default) ≡ none
  unfolding validate_field first_some validate_filled_default is_valid
  validate_field-filled f k (some v) default valid fine = valid
  validate_field-filled f k none none valid fine = valid
  validate_field-filled f k none (some w) valid fine = ground (arith, fine)

  validate_filled-valid :
      (ds : Definitions) (d : Document)
      → have_valid_defaults ds ≡ true
      → validate e ds d ≡ none
      → validate_filled ds d ≡ none
  unfolding have_valid_defaults validate validate_filled or_next validate_field
  validate_filled-valid no_definitions d fine valid = refl
  validate_filled-valid (definition k f ds) d fine valid =
      let (here, later) =
        or_next-both (validate_field e f k (find k d.fields)) (validate e ds d) valid in
      let field =
        validate_field-filled f k (find k d.fields) (default_value f) here (ground (arith, fine)) in
      rw (field, or_next) (validate_filled-valid ds d (ground (arith, fine)) later)

  -- A document that is valid stays valid when the defaults are applied, in a schema whose names are distinct
  -- and whose defaults are valid values of their fields.
  pub apply_defaults-valid :
      (now : ℕ) (ds : Definitions) (d : Document)
      → distinct_names ds ≡ true
      → have_valid_defaults ds ≡ true
      → validate e ds d ≡ none
      → validate e ds (apply_defaults now ds d) ≡ none
  apply_defaults-valid now ds d distinct fine valid =
      validate-apply_defaults now ds d distinct ∙ validate_filled-valid ds d fine valid
