-- ===== src/Document/Tests.antt =====
-- Documents at concrete inputs.
use ved_db_server.Prelude.{◌≡◌, refl, ◌⊎◌, none, some, [], ◌∷◌}
use ved_db_server.Prelude.Bytes.{add64}
use ved_db_server.Prelude.Maps.{String-Eq}
use ved_db_server.Document.{
  Value, no_fields, field, no_values, value, string, array, object, Document, with_id, split_dot,
  parse_usize, parse_digits, get_by_path, set_by_path, get_by_path_parts, find, walk, step_into,
  nth, invalid_path, fields_size,
}
use ved_db_server.Document.Paths.{get_by_path-set_by_path}

abbrev city : Value
city = string "Pune"

abbrev person : Document
person = record (with_id 5 (1 ∷ [])) {
  fields = field "user" (object (field "tags" (array (value city no_values)) no_fields)) no_fields;
}

split_test : split_dot "" "user.tags.0" ≡ "user" ∷ "tags" ∷ "0" ∷ []
unfolding split_dot
split_test = refl

parse_test : parse_usize "+012" ≡ some 12
unfolding parse_usize parse_digits
parse_test = refl

-- A reader goes into arrays.
get_test : get_by_path person "user.tags.0" ≡ some city
unfolding get_by_path split_dot get_by_path_parts find walk step_into nth parse_usize parse_digits
    String-Eq
get_test = refl

get_by_path-set_by_path_example :
    let r = set_by_path 7 person "user.address.city" city in
    ((r.0 ≡ some invalid_path) × (r.1 ≡ person))
    ⊎ ((r.0 ≡ none)
        × (get_by_path r.1 "user.address.city" ≡ some city)
        × (r.1.metadata.size_bytes ≡ fields_size r.1.fields)
        × (r.1.metadata.version ≡ add64 person.metadata.version 1))
get_by_path-set_by_path_example = get_by_path-set_by_path 7 person "user.address.city" city
