-- ===== src/Index/Keys.antt =====
-- `IndexValue`, `IndexKey` and `IndexEntry` of index/btree.rs.
use ved_db_server.Prelude.{
  ℕ, ◌+◌, Bool, false, ◌||◌, Option, none, some, List, [], ◌∷◌, ◌==◌, if◌then◌else◌,
}
use Prim.Native.Nat.{Ordering, compare}
use Prim.Native.String
use Prim.Native.String.{String}
use text.Mathlib.Text.{is_eq}
use ved_db_server.Prelude.Maps.{Map, String-Eq, lookup, insert}
use ved_db_server.Document.{
  Value, Document, null, bool, int32, int64, float64, string, binary, array, object, object_id,
  date_time, size_bytes, get_by_path,
}
use ved_db_server.Query.{Engine}
use ved_db_server.Query.Values.{compare_bytes, compare_i64, to_i64, compare_bool, or_equal}
use ved_db_server.Index.{Result, ok, err, missing_field, unsupported_value_type}

pub data IndexValue : Type 0 where
  nothing : IndexValue
  truth : Bool → IndexValue
  int float : ℕ → IndexValue
  chars : String → IndexValue
  bytes object_name : List ℕ → IndexValue
  time : ℕ → IndexValue

abbrev pub IndexKey : Type 0
IndexKey = List IndexValue

-- the place of the variant in the declaration, by which the derived order compares first
unfoldable pub variant : IndexValue → ℕ
variant nothing = 0
variant (truth b) = 1
variant (int i) = 2
variant (float f) = 3
variant (chars s) = 4
variant (bytes b) = 5
variant (object_name i) = 6
variant (time t) = 7

unfoldable pub has_null : IndexKey → Bool
has_null [] = false
has_null (v ∷ vs) = variant v == 0 || has_null vs

pub record IndexEntry : Type 0 where
  pub fields : Map String Value

unfoldable pub entry_size : Map String Value → ℕ
entry_size [] = 0
entry_size ((k, v) ∷ m) = String.len k + size_bytes v + entry_size m

unfoldable pub size_estimate : IndexEntry → ℕ
size_estimate e = entry_size e.fields

-- the value of a field that may be missing
unfoldable pub or_null : Option Value → Value
or_null none = null
or_null (some v) = v

-- the loop of `create_index_entry`
unfoldable pub entry_fields : Document → List String → Map String Value → Map String Value
entry_fields d [] m = m
entry_fields d (f ∷ fs) m = entry_fields d fs (insert f (or_null (get_by_path d f)) m)

unfoldable pub create_index_entry : Document → List String → IndexEntry
create_index_entry d fields = record { fields = entry_fields d fields [] }

module _ (e : Engine) where
  unfoldable pub compare_value : IndexValue → IndexValue → Ordering
  compare_value (truth a) (truth b) = compare_bool a b
  compare_value (int a) (int b) = compare_i64 a b
  compare_value (float a) (float b) = or_equal (e.partial_cmp a b)
  compare_value (chars a) (chars b) = String.compare a b
  compare_value (bytes a) (bytes b) = compare_bytes a b
  compare_value (object_name a) (object_name b) = compare_bytes a b
  compare_value (time a) (time b) = compare a b
  compare_value a b = compare (variant a) (variant b)

  unfoldable pub compare_key : IndexKey → IndexKey → Ordering
  compare_key [] [] = Ordering.eq
  compare_key [] (b ∷ bs) = Ordering.lt
  compare_key (a ∷ xs) [] = Ordering.gt
  compare_key (a ∷ xs) (b ∷ bs) =
      let rest = compare_key xs bs in if is_eq (compare_value a b) then rest else compare_value a b

  unfoldable pub from_value : Value → Result IndexValue
  from_value null = ok nothing
  from_value (bool b) = ok (truth b)
  from_value (int32 i) = ok (int (to_i64 i))
  from_value (int64 i) = ok (int i)
  from_value (float64 f) = ok (float f)
  from_value (string s) = ok (chars s)
  from_value (binary b) = ok (bytes b)
  from_value (object_id i) = ok (object_name i)
  from_value (date_time t) = ok (time (e.timestamp t))
  from_value (array vs) = err unsupported_value_type
  from_value (object fs) = err unsupported_value_type

  -- a value before the values of a key
  unfoldable pub cons_key : Result IndexValue → Result IndexKey → Result IndexKey
  cons_key (err why) rest = err why
  cons_key (ok v) (err why) = err why
  cons_key (ok v) (ok vs) = ok (v ∷ vs)

  unfoldable pub from_values : List Value → Result IndexKey
  from_values [] = ok []
  from_values (v ∷ vs) = cons_key (from_value v) (from_values vs)

  unfoldable pub from_entry : IndexEntry → List String → Result IndexKey
  from_entry entry [] = ok []
  from_entry entry (f ∷ fs) = elim (lookup f entry.fields) [
    | none ↦ err (missing_field f)
    | some v ↦ cons_key (from_value v) (from_entry entry fs)
  ]
