-- ===== src/Kv/Hash.antt =====
-- The FNV-1a hash that kv/mod.rs and kv/hash_table.rs both compute, and the slot search's bytes
-- comparison.
use ved_db_server.Prelude.{
  ℕ, ◌*◌, ◌%◌, ◌≤◌, bit_xor, ◌≡◌, refl, Bool, true, false, ◌&&◌, List, [], ◌∷◌, arith, leb, ◌==◌,
  if◌then◌else◌,
}
use ved_db_server.Prelude.Bytes.{u64_mod}

-- the loop over the bytes of the key, from the hash so far
unfoldable pub fnv_loop : ℕ → List ℕ → ℕ
fnv_loop hash [] = hash
fnv_loop hash (byte ∷ key) = fnv_loop (bit_xor hash byte * 0x100000001b3 % u64_mod) key

-- `KvStore::hash_key`
unfoldable pub fnv_hash : List ℕ → ℕ
unfolding fnv_loop
fnv_hash key = fnv_loop 0xcbf29ce484222325 key

-- `HashTable::hash_key`, which keeps 0 and 1 free
unfoldable pub hash_key : List ℕ → ℕ
hash_key key = if leb (fnv_hash key) 1 then 2 else fnv_hash key

pub two-le-hash_key : (key : List ℕ) → 2 ≤ hash_key key
unfolding hash_key
two-le-hash_key key = ground arith

unfoldable pub bytes_equal : List ℕ → List ℕ → Bool
bytes_equal [] [] = true
bytes_equal (x ∷ xs) (y ∷ ys) = x == y && bytes_equal xs ys
bytes_equal xs ys = false

pub bytes_equal_refl : (xs : List ℕ) → bytes_equal xs xs ≡ true
unfolding bytes_equal
bytes_equal_refl [] = refl
bytes_equal_refl (x ∷ xs) = ground (arith, bytes_equal_refl xs)

pub bytes_equal_sound : (xs ys : List ℕ) → bytes_equal xs ys ≡ true → xs ≡ ys
unfolding bytes_equal
bytes_equal_sound [] [] e = refl
bytes_equal_sound [] (y ∷ ys) e = absurd (ground arith)
bytes_equal_sound (x ∷ xs) [] e = absurd (ground arith)
bytes_equal_sound (x ∷ xs) (y ∷ ys) e = ground (arith, bytes_equal_sound xs ys)
