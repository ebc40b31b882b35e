-- ===== src/Document.antt =====
-- `Value` and `Document` of veddb-core/src/document.rs. A 32- or 64-bit integer and a float is its bit
-- pattern, and a map from names is its fields in some order, each name once.
pub mod Lookup
pub mod Paths
mod Tests
use ved_db_server.Prelude.{
  ℕ, zero, suc, ◌+◌, ◌-◌, ◌*◌, ◌/◌, ◌%◌, ◌^◌, ◌≤◌, ◌<◌, min, max, bit_and, bit_xor, ◌≡◌, refl, sym,
  ap, ap₂, subst, ◌∙◌, ◌≢◌, ◌↔◌, ◌⊎◌, inl, inr, Bool, true, false, not, ◌&&◌, ◌||◌, Option, none,
  some, List, [], ◌∷◌, ◌++◌, map, arith, ltb, leb, ◌==◌, if◌then◌else◌, ltb→lt, lt→ltb, leb→le,
  le→leb, ==_iff, Bool-cases, Option-cases, length, get_elem?, get_or, set, take, drop, replicate,
  All, length-append, length-replicate, length-set, get_or-set_self, get_or-set_ne, get_or-set,
  get_or-replicate, take-append_length, length-drop, All-append, All-drop,
}
use Prim.Native.String
use Prim.Native.String.{String}
use Prim.Native.Char.{Char, code}
use ved_db_server.Prelude.Maps.{String-Eq}
use ved_db_server.Prelude.Bytes.{u64_mod, add64}

mutual
  pub data Value : Type 0 where
    null : Value
    bool : Bool → Value
    int32 int64 float64 : ℕ → Value
    string : String → Value
    binary : List ℕ → Value
    array : Values → Value
    object : Fields → Value
    object_id : List ℕ → Value
    date_time : ℕ → Value

  pub data Values : Type 0 where
    no_values : Values
    value : Value → Values → Values

  pub data Fields : Type 0 where
    no_fields : Fields
    field : String → Value → Fields → Fields

unfoldable mutual
  pub size_bytes : Value → ℕ
  size_bytes null = 1
  size_bytes (bool b) = 1
  size_bytes (int32 i) = 4
  size_bytes (int64 i) = 8
  size_bytes (float64 f) = 8
  size_bytes (string s) = String.len s
  size_bytes (binary b) = length b
  size_bytes (array vs) = values_size vs + 8
  size_bytes (object fs) = fields_size fs + 8
  size_bytes (object_id i) = 12
  size_bytes (date_time t) = 8

  pub values_size : Values → ℕ
  values_size no_values = 0
  values_size (value v vs) = size_bytes v + values_size vs

  pub fields_size : Fields → ℕ
  fields_size no_fields = 0
  fields_size (field k v fs) = String.len k + size_bytes v + fields_size fs

unfoldable mutual
  pub nesting_depth : Value → ℕ
  nesting_depth (array vs) = 1 + values_depth vs
  nesting_depth (object fs) = 1 + fields_depth fs
  nesting_depth v = 0

  pub values_depth : Values → ℕ
  values_depth no_values = 0
  values_depth (value v vs) = max (nesting_depth v) (values_depth vs)

  pub fields_depth : Fields → ℕ
  fields_depth no_fields = 0
  fields_depth (field k v fs) = max (nesting_depth v) (fields_depth fs)

unfoldable pub is_number : Value → Bool
is_number (int32 i) = true
is_number (int64 i) = true
is_number (float64 f) = true
is_number v = false

unfoldable pub as_array : Value → Option Values
as_array (array vs) = some vs
as_array v = none

unfoldable pub as_object : Value → Option Fields
as_object (object fs) = some fs
as_object v = none

-- `BTreeMap::get`, `insert` and `remove`
unfoldable pub find : String → Fields → Option Value
find k no_fields = none
find k (field j v fs) = let rest = find k fs in if String-Eq.same j k then some v else rest

unfoldable pub put : String → Value → Fields → Fields
put k v no_fields = field k v no_fields
put k v (field j w fs) =
    let rest = put k v fs in if String-Eq.same j k then field j v fs else field j w rest

unfoldable pub delete : String → Fields → Fields
delete k no_fields = no_fields
delete k (field j w fs) =
    let rest = delete k fs in if String-Eq.same j k then rest else field j w rest

unfoldable pub nth : Values → ℕ → Option Value
nth no_values i = none
nth (value v vs) zero = some v
nth (value v vs) (suc i) = nth vs i

-- `path.split('.')`: the parts, of which the first is given so far
unfoldable pub split_dot : String → String → List String
split_dot part String.[] = part ∷ []
split_dot part (String.◌∷◌ c s) =
    let here = split_dot (String.◌++◌ part (String.◌∷◌ c String.[])) s in
    let next = split_dot String.[] s in if code c == 46 then part ∷ next else here

-- the digits of `parse::<usize>`
unfoldable pub parse_digits : ℕ → String → Option ℕ
parse_digits n String.[] = some n
parse_digits n (String.◌∷◌ c s) =
    let m = n * 10 + (code c - 48) in
    let rest = parse_digits m s in
    if leb 48 (code c) && leb (code c) 57 && ltb m u64_mod then rest else none

-- `parse::<usize>`, which takes a plus sign before the digits
unfoldable pub parse_usize : String → Option ℕ
parse_usize String.[] = none
parse_usize (String.◌∷◌ c String.[]) = parse_digits 0 (String.◌∷◌ c String.[])
parse_usize (String.◌∷◌ c (String.◌∷◌ d s)) =
    if code c == 43
    then parse_digits 0 (String.◌∷◌ d s)
    else parse_digits 0 (String.◌∷◌ c (String.◌∷◌ d s))

-- one turn of the loop of `get_by_path_parts`
unfoldable pub step_into : Value → String → Option Value
step_into (object fs) part = find part fs
step_into (array vs) part = elim (parse_usize part) [ none ↦ none | some i ↦ nth vs i ]
step_into v part = none

unfoldable pub walk : Value → List String → Option Value
walk current [] = some current
walk current (part ∷ parts) = elim (step_into current part) [
  | none ↦ none
  | some next ↦ walk next parts
]

unfoldable pub get_by_path_parts : Fields → List String → Option Value
get_by_path_parts fs [] = none
get_by_path_parts fs (part ∷ parts) = elim (find part fs) [
  | none ↦ none
  | some current ↦ walk current parts
]

-- `entry(part).or_insert_with(|| Value::Object(BTreeMap::new()))`: the value that the entry has then
unfoldable pub entry_or_object : String → Fields → Value
entry_or_object part fs = elim (find part fs) [ none ↦ object no_fields | some v ↦ v ]

-- Whether the path was set, and the fields afterwards; the fields under each part are written back into
-- the value that they came from.
unfoldable pub set_by_path_parts : Fields → List String → Value → Bool × Fields
set_by_path_parts fs [] v = (false, fs)
set_by_path_parts fs (part ∷ []) v = (true, put part v fs)
set_by_path_parts fs (part ∷ next ∷ parts) v = elim (as_object (entry_or_object part fs)) [
  | none ↦ (false, put part (entry_or_object part fs) fs)
  | some inner ↦
      let result = set_by_path_parts inner (next ∷ parts) v in
      (result.0, put part (object result.1) fs)
]

pub record DocumentMetadata : Type 0 where
  pub version : ℕ
  pub created_at : ℕ
  pub updated_at : ℕ
  pub size_bytes : ℕ

pub record Document : Type 0 where
  pub id : List ℕ
  pub fields : Fields
  pub metadata : DocumentMetadata

pub data DocumentError : Type 0 where
  document_too_large : ℕ → ℕ → DocumentError
  nesting_too_deep : ℕ → ℕ → DocumentError
  invalid_path : DocumentError

abbrev pub max_document_size : ℕ
max_document_size = 16 * 1024 * 1024

abbrev pub max_nesting_depth : ℕ
max_nesting_depth = 16

abbrev pub default_metadata : ℕ → DocumentMetadata
default_metadata now = record { version = 1; created_at = now; updated_at = now; size_bytes = 0 }

abbrev pub with_id : ℕ → List ℕ → Document
with_id now id = record { id = id; fields = no_fields; metadata = default_metadata now }

unfoldable pub update_metadata : ℕ → Document → Document
update_metadata now d = record d {
  metadata = record d.metadata {
    size_bytes = fields_size d.fields;
    updated_at = now;
    version = add64 d.metadata.version 1;
  };
}

-- the operations, each at the time `now`
module _ (now : ℕ) where
  unfoldable pub from_fields : List ℕ → Fields → Document
  from_fields id fs = update_metadata now (record (with_id now id) { fields = fs })

  unfoldable pub insert : Document → String → Value → Option Value × Document
  insert d k v = (find k d.fields, update_metadata now (record d { fields = put k v d.fields }))

  unfoldable pub remove : Document → String → Option Value × Document
  remove d k = (find k d.fields, update_metadata now (record d { fields = delete k d.fields }))

  unfoldable pub set_by_path : Document → String → Value → Option DocumentError × Document
  set_by_path d path v =
      let result = set_by_path_parts d.fields (split_dot String.[] path) v in
      let written : Document = record d { fields = result.1 } in
      if result.0 then (none, update_metadata now written) else (some invalid_path, written)

unfoldable pub get : Document → String → Option Value
get d k = find k d.fields

unfoldable pub get_by_path : Document → String → Option Value
get_by_path d path = get_by_path_parts d.fields (split_dot String.[] path)

unfoldable pub validate : Document → Option DocumentError
validate d =
    if ltb max_document_size d.metadata.size_bytes
    then some (document_too_large d.metadata.size_bytes max_document_size)
    else if ltb max_nesting_depth (fields_depth d.fields)
    then some (nesting_too_deep (fields_depth d.fields) max_nesting_depth)
    else none
