-- ===== src/Prelude/Memory.antt =====
-- Byte-addressed memory, for the offsets that stand for pointers in shared memory.
use Prim.Native.Nat.{ℕ, zero, suc, ◌+◌, ◌≤◌, ◌<◌}
use mathlib.Core.Path.{◌≡◌, refl, ap}
use mathlib.Core.Logic.{◌⊎◌}
use mathlib.Core.List.{List, [], ◌∷◌, ◌++◌}
use native.Mathlib.Omega.{arith}
use ved_db_server.Prelude.Tests.{◌==◌, if◌then◌else◌}
use ved_db_server.Prelude.Lists.{length}

abbrev pub Memory : Type 0
Memory = ℕ → ℕ

-- `slice::from_raw_parts(ptr, n).to_vec()`
unfoldable pub read_bytes : Memory → ℕ → ℕ → List ℕ
read_bytes m offset zero = []
read_bytes m offset (suc n) = m offset ∷ read_bytes m (suc offset) n

abbrev store_byte : Memory → ℕ → ℕ → Memory
store_byte m offset b a = if a == offset then b else m a

-- `ptr::copy_nonoverlapping(bytes, ptr, n)`
unfoldable pub write_bytes : Memory → ℕ → List ℕ → Memory
write_bytes m offset [] = m
write_bytes m offset (b ∷ bs) = store_byte (write_bytes m (suc offset) bs) offset b

pub length-read_bytes : (m : Memory) (offset n : ℕ) → length (read_bytes m offset n) ≡ n
unfolding read_bytes
length-read_bytes m offset zero = refl
length-read_bytes m offset (suc n) = ap suc (length-read_bytes m (suc offset) n)

read_bytes-store_byte :
    (m : Memory) (offset b start n : ℕ)
    → (offset < start) ⊎ (start + n ≤ offset)
    → read_bytes (store_byte m offset b) start n ≡ read_bytes m start n
unfolding read_bytes
read_bytes-store_byte m offset b start zero h = refl
read_bytes-store_byte m offset b start (suc n) h =
    ground (arith, read_bytes-store_byte m offset b (suc start) n)

-- What was written is read back.
pub read_bytes-write_bytes :
    (m : Memory) (offset : ℕ) (bs : List ℕ)
    → read_bytes (write_bytes m offset bs) offset (length bs) ≡ bs
unfolding read_bytes write_bytes
read_bytes-write_bytes m offset [] = refl
read_bytes-write_bytes m offset (b ∷ bs) = ground (
  arith,
  read_bytes-store_byte (write_bytes m (suc offset) bs) offset b (suc offset) (length bs),
  read_bytes-write_bytes m (suc offset) bs,
)

-- A write elsewhere is not seen.
pub read_bytes-write_bytes_disjoint :
    (m : Memory) (offset : ℕ) (bs : List ℕ) (start n : ℕ)
    → (start + n ≤ offset) ⊎ (offset + length bs ≤ start)
    → read_bytes (write_bytes m offset bs) start n ≡ read_bytes m start n
unfolding write_bytes
read_bytes-write_bytes_disjoint m offset [] start n h = refl
read_bytes-write_bytes_disjoint m offset (b ∷ bs) start n h = ground (
  arith,
  read_bytes-store_byte (write_bytes m (suc offset) bs) offset b start n,
  read_bytes-write_bytes_disjoint m (suc offset) bs start n,
)

-- The first part of what was written is read back.
pub read_bytes-write_bytes_prefix :
    (m : Memory) (offset : ℕ) (xs ys : List ℕ)
    → read_bytes (write_bytes m offset (xs ++ ys)) offset (length xs) ≡ xs
unfolding read_bytes write_bytes
read_bytes-write_bytes_prefix m offset [] ys = refl
read_bytes-write_bytes_prefix m offset (b ∷ xs) ys = ground (
  arith,
  read_bytes-store_byte (write_bytes m (suc offset) (xs ++ ys)) offset b (suc offset) (length xs),
  read_bytes-write_bytes_prefix m (suc offset) xs ys,
)
