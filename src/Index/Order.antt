-- ===== src/Index/Order.antt =====
-- When the keys of btree.rs compare as equal.
use ved_db_server.Prelude.{
  ℕ, ◌+◌, ◌%◌, ◌^◌, ◌≡◌, refl, ◌↔◌, Bool, true, false, ◌&&◌, ◌||◌, List, [], ◌∷◌, arith,
}
use Prim.Native.Nat.{compare}
use Prim.Native.String.{String}
use Prim.Native.String
use text.Mathlib.Text.{is_eq}
use text.Mathlib.TextEquality.{eq_iff}
use ved_db_server.Query.{Engine}
use ved_db_server.Query.Values.{same_bytes, compare_bytes, compare_i64, compare_bool}
use ved_db_server.Index.Keys.{
  IndexValue, IndexKey, truth, int, float, chars, bytes, object_name, time, variant, compare_value,
  compare_key,
}
use ved_db_server.Index.Tree.{same_key}

-- not a float, of which some are equal to all
unfoldable pub is_exact : IndexValue → Bool
is_exact (float f) = false
is_exact v = true

unfoldable pub all_exact : IndexKey → Bool
all_exact [] = true
all_exact (v ∷ vs) = is_exact v && all_exact vs

-- the value by which an integer is compared
unfoldable pub normal : IndexValue → IndexValue
normal (int i) = int ((i + 2 ^ 63) % 2 ^ 64)
normal v = v

compare_iff : (a b : ℕ) → (is_eq (compare a b) ≡ true) ↔ (a ≡ b)
compare_iff a b = ground arith

chars_iff : (a b : String) → (is_eq (String.compare a b) ≡ true) ↔ (a ≡ b)
chars_iff a b = eq_iff a b

pub compare_bytes_iff : (a b : List ℕ) → (is_eq (compare_bytes a b) ≡ true) ↔ (a ≡ b)
unfolding compare_bytes
compare_bytes_iff [] [] = ground arith
compare_bytes_iff [] (b ∷ bs) = ground arith
compare_bytes_iff (a ∷ xs) [] = ground arith
compare_bytes_iff (a ∷ xs) (b ∷ bs) = ground (arith, compare_bytes_iff xs bs, compare_iff a b)

pub same_bytes_iff : (a b : List ℕ) → (same_bytes a b ≡ true) ↔ (a ≡ b)
unfolding same_bytes
same_bytes_iff [] [] = ground arith
same_bytes_iff [] (b ∷ bs) = ground arith
same_bytes_iff (a ∷ xs) [] = ground arith
same_bytes_iff (a ∷ xs) (b ∷ bs) = ground (arith, same_bytes_iff xs bs)

module _ (e : Engine) where
  pub compare_value_iff :
      (a b : IndexValue)
      → is_exact a || is_exact b ≡ true
      → (is_eq (compare_value e a b) ≡ true) ↔ (normal a ≡ normal b)
  unfolding compare_value is_exact normal variant compare_bool compare_i64
  compare_value_iff (truth false) (truth false) x = ground arith
  compare_value_iff (truth false) (truth true) x = ground arith
  compare_value_iff (truth true) (truth false) x = ground arith
  compare_value_iff (truth true) (truth true) x = ground arith
  compare_value_iff (int a) (int b) x =
      ground (arith, compare_iff ((a + 2 ^ 63) % 2 ^ 64) ((b + 2 ^ 63) % 2 ^ 64))
  compare_value_iff (chars a) (chars b) x = ground (arith, chars_iff a b)
  compare_value_iff (bytes a) (bytes b) x = ground (arith, compare_bytes_iff a b)
  compare_value_iff (object_name a) (object_name b) x = ground (arith, compare_bytes_iff a b)
  compare_value_iff (time a) (time b) x = ground (arith, compare_iff a b)
  compare_value_iff a b x = ground arith

  -- keys with the integers by which they are compared
  unfoldable pub normal_key : IndexKey → IndexKey
  normal_key [] = []
  normal_key (v ∷ vs) = normal v ∷ normal_key vs

  pub same_key_iff :
      (j q : IndexKey)
      → all_exact j || all_exact q ≡ true
      → (same_key e j q ≡ true) ↔ (normal_key j ≡ normal_key q)
  unfolding same_key compare_key all_exact normal_key
  same_key_iff [] [] x = ground arith
  same_key_iff [] (b ∷ bs) x = ground arith
  same_key_iff (a ∷ xs) [] x = ground arith
  same_key_iff (a ∷ xs) (b ∷ bs) x = ground (arith, same_key_iff xs bs, compare_value_iff a b)

  is_exact-normal : (v w : IndexValue) → normal v ≡ normal w → is_exact v ≡ is_exact w
  unfolding is_exact normal
  is_exact-normal v w p = ground arith

  all_exact-normal : (j q : IndexKey) → normal_key j ≡ normal_key q → all_exact j ≡ all_exact q
  unfolding all_exact normal_key
  all_exact-normal [] [] p = refl
  all_exact-normal [] (b ∷ bs) p = ground arith
  all_exact-normal (a ∷ xs) [] p = ground arith
  all_exact-normal (a ∷ xs) (b ∷ bs) p = ground (arith, is_exact-normal a b, all_exact-normal xs bs)

  -- Two keys that compare as equal to one without floats compare as equal.
  pub same_key_meet :
      (j k q : IndexKey)
      → all_exact q ≡ true
      → same_key e j q ≡ true
      → same_key e k q ≡ true
      → same_key e j k ≡ true
  same_key_meet j k q x p r = ground (
    arith,
    same_key_iff j q,
    same_key_iff k q,
    same_key_iff j k,
    all_exact-normal k q,
    all_exact-normal j q,
  )

  -- Keys that compare as equal compare alike with a key without floats.
  pub same_key_transfer :
      (j k q : IndexKey)
      → all_exact q ≡ true
      → same_key e j k ≡ true
      → same_key e j q ≡ same_key e k q
  same_key_transfer j k q x p = ground (
    arith,
    same_key_iff j q,
    same_key_iff k q,
    same_key_iff j k,
    all_exact-normal k q,
    all_exact-normal j q,
  )
