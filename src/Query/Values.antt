-- ===== src/Query/Values.antt =====
-- How queries compare values: the equality of `Value` of document.rs and `compare_values` of
-- query/executor.rs.
use ved_db_server.Prelude.{
  ℕ, ◌+◌, ◌-◌, ◌%◌, ◌^◌, Bool, true, false, not, ◌&&◌, ◌||◌, Option, none, some, List, [], ◌∷◌, ltb,
  ◌==◌, if◌then◌else◌,
}
use Prim.Native.Nat.{Ordering, compare}
use Prim.Native.String
use text.Mathlib.Text.{is_eq}
use ved_db_server.Prelude.Maps.{String-Eq}
use ved_db_server.Document.{
  Value, Values, Fields, null, bool, int32, int64, float64, string, binary, array, object,
  object_id, date_time, no_values, value, no_fields, field, find, delete,
}
use ved_db_server.Query.{Engine}

unfoldable pub is_gt : Ordering → Bool
is_gt Ordering.lt = false
is_gt Ordering.eq = false
is_gt Ordering.gt = true

unfoldable pub reverse_order : Ordering → Ordering
reverse_order Ordering.lt = Ordering.gt
reverse_order Ordering.eq = Ordering.eq
reverse_order Ordering.gt = Ordering.lt

-- lexicographic order of bytes
unfoldable pub compare_bytes : List ℕ → List ℕ → Ordering
compare_bytes [] [] = Ordering.eq
compare_bytes [] (b ∷ bs) = Ordering.lt
compare_bytes (a ∷ xs) [] = Ordering.gt
compare_bytes (a ∷ xs) (b ∷ bs) =
    let rest = compare_bytes xs bs in if a == b then rest else compare a b

unfoldable pub same_bytes : List ℕ → List ℕ → Bool
same_bytes [] [] = true
same_bytes [] (b ∷ bs) = false
same_bytes (a ∷ xs) [] = false
same_bytes (a ∷ xs) (b ∷ bs) = a == b && same_bytes xs bs

-- the order of two's complement numbers of 64 bits, and a 32-bit number in 64 bits
unfoldable pub compare_i64 : ℕ → ℕ → Ordering
compare_i64 a b = compare ((a + 2 ^ 63) % 2 ^ 64) ((b + 2 ^ 63) % 2 ^ 64)

unfoldable pub to_i64 : ℕ → ℕ
to_i64 a = if ltb a (2 ^ 31) then a else a + (2 ^ 64 - 2 ^ 32)

unfoldable pub same_bool : Bool → Bool → Bool
same_bool true b = b
same_bool false b = not b

unfoldable pub compare_bool : Bool → Bool → Ordering
compare_bool false false = Ordering.eq
compare_bool false true = Ordering.lt
compare_bool true false = Ordering.gt
compare_bool true true = Ordering.eq

-- floats that do not compare count as equal
unfoldable pub or_equal : Option Ordering → Ordering
or_equal none = Ordering.eq
or_equal (some o) = o

unfoldable pub is_equal : Option Ordering → Bool
is_equal none = false
is_equal (some o) = is_eq o

module _ (e : Engine) where
  -- the derived `PartialEq` of `Value`
  unfoldable mutual
    pub same_value : Value → Value → Bool
    same_value null null = true
    same_value (bool a) (bool b) = same_bool a b
    same_value (int32 a) (int32 b) = a == b
    same_value (int64 a) (int64 b) = a == b
    same_value (float64 a) (float64 b) = is_equal (e.partial_cmp a b)
    same_value (string a) (string b) = String-Eq.same a b
    same_value (binary a) (binary b) = same_bytes a b
    same_value (array a) (array b) = same_values a b
    same_value (object a) (object b) = same_fields a b
    same_value (object_id a) (object_id b) = same_bytes a b
    same_value (date_time a) (date_time b) = a == b
    same_value a b = false

    pub same_values : Values → Values → Bool
    same_values no_values no_values = true
    same_values (value v vs) (value w ws) = same_value v w && same_values vs ws
    same_values vs ws = false

    pub same_fields : Fields → Fields → Bool
    same_fields no_fields no_fields = true
    same_fields no_fields (field k v fs) = false
    same_fields (field k v fs) gs = elim (find k gs) [
      | none ↦ false
      | some w ↦ same_value v w && same_fields fs (delete k gs)
    ]

  unfoldable pub compare_values : Value → Value → Ordering
  compare_values null null = Ordering.eq
  compare_values null b = Ordering.lt
  compare_values a null = Ordering.gt
  compare_values (bool a) (bool b) = compare_bool a b
  compare_values (int32 a) (int32 b) = compare_i64 (to_i64 a) (to_i64 b)
  compare_values (int64 a) (int64 b) = compare_i64 a b
  compare_values (int32 a) (int64 b) = compare_i64 (to_i64 a) b
  compare_values (int64 a) (int32 b) = compare_i64 a (to_i64 b)
  compare_values (float64 a) (float64 b) = or_equal (e.partial_cmp a b)
  compare_values (int32 a) (float64 b) = or_equal (e.partial_cmp (e.float_of_int (to_i64 a)) b)
  compare_values (int64 a) (float64 b) = or_equal (e.partial_cmp (e.float_of_int a) b)
  compare_values (float64 a) (int32 b) = or_equal (e.partial_cmp a (e.float_of_int (to_i64 b)))
  compare_values (float64 a) (int64 b) = or_equal (e.partial_cmp a (e.float_of_int b))
  compare_values (string a) (string b) = String.compare a b
  compare_values (date_time a) (date_time b) = compare a b
  compare_values (object_id a) (object_id b) = compare_bytes a b
  compare_values a b = Ordering.eq

  -- `values.contains(v)`
  unfoldable pub contains : List Value → Value → Bool
  contains [] v = false
  contains (w ∷ ws) v = same_value w v || contains ws v
