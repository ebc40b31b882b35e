-- ===== src/Prelude/Integers.antt =====
-- Integers over the native numbers, under the library's names, and the casts of 64-bit integers.
use Prim.Native.Nat.{ℕ, zero, suc, ◌+◌, ◌-◌, ◌%◌}
use mathlib.Core.Bool.{Bool, true, false}
use ved_db_server.Prelude.Tests.{ltb, leb, if◌then◌else◌}
use ved_db_server.Prelude.Bytes.{u64_mod}

-- `negsuc n` is the integer -(n + 1).
pub data ℤ : Type 0 where
  pos : ℕ → ℤ
  negsuc : ℕ → ℤ

-- the sum of a natural number and an integer
abbrev pub add_ℕ : ℕ → ℤ → ℤ
add_ℕ a (pos b) = pos (a + b)
add_ℕ a (negsuc b) = if ltb b a then pos (a - suc b) else negsuc (b - a)

abbrev pub is_negative : ℤ → Bool
is_negative (pos n) = false
is_negative (negsuc n) = true

-- `x.max(0)` and `x.min(len)` for a natural number `len`
abbrev pub max_zero : ℤ → ℤ
max_zero (pos n) = pos n
max_zero (negsuc n) = pos 0

abbrev pub min_ℕ : ℤ → ℕ → ℤ
min_ℕ (pos n) len = if leb n len then pos n else pos len
min_ℕ (negsuc n) len = negsuc n

-- `x as usize` for an `i64`
abbrev pub as_usize : ℤ → ℕ
as_usize (pos n) = n % u64_mod
as_usize (negsuc n) = u64_mod - suc (n % u64_mod)

-- `x + 1` of an `i64` in a release build, which wraps around at the greatest
abbrev pub suc_i64 : ℤ → ℤ
suc_i64 (pos n) = if leb 9223372036854775807 n then negsuc 9223372036854775807 else pos (suc n)
suc_i64 (negsuc zero) = pos 0
suc_i64 (negsuc (suc n)) = negsuc n
