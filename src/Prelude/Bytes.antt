-- ===== src/Prelude/Bytes.antt =====
-- Unsigned machine words: wrapping arithmetic, saturation, and the little-endian bytes of a word.
use Prim.Native.Nat.{ℕ, zero, suc, ◌+◌, ◌-◌, ◌*◌, ◌/◌, ◌%◌, ◌^◌, ◌<◌}
use mathlib.Core.Path.{◌≡◌, refl, ap, ap₂, ◌∙◌}
use mathlib.Core.List.{List, [], ◌∷◌}
use native.Mathlib.Nat.{pow-suc}
use native.Mathlib.Omega.{arith}
use ved_db_server.Prelude.Lists.{length, All}

abbrev pub u64_mod : ℕ
u64_mod = 2 ^ 64

abbrev pub u32_mod : ℕ
u32_mod = 2 ^ 32

-- Wrapping `u64` arithmetic, which is what a release build computes.
abbrev pub add64 : ℕ → ℕ → ℕ
add64 a b = (a + b) % u64_mod

abbrev pub sub64 : ℕ → ℕ → ℕ
sub64 a b = (a + u64_mod - b) % u64_mod

abbrev pub add32 : ℕ → ℕ → ℕ
add32 a b = (a + b) % u32_mod

-- `u64::saturating_sub`: subtraction on ℕ stops at 0 as well.
abbrev pub saturating_sub : ℕ → ℕ → ℕ
saturating_sub a b = a - b

abbrev pub IsByte : ℕ → Type 0
IsByte b = b < 256

-- The `n` bytes of `x`, the lowest first: `to_le_bytes`.
unfoldable pub to_le_bytes : ℕ → ℕ → List ℕ
to_le_bytes zero x = []
to_le_bytes (suc n) x = x % 256 ∷ to_le_bytes n (x / 256)

-- `from_le_bytes`, of any number of bytes.
unfoldable pub from_le_bytes : List ℕ → ℕ
from_le_bytes [] = 0
from_le_bytes (b ∷ bs) = b + 256 * from_le_bytes bs

pub length-to_le_bytes : (n x : ℕ) → length (to_le_bytes n x) ≡ n
unfolding to_le_bytes
length-to_le_bytes zero x = refl
length-to_le_bytes (suc n) x = ap suc (length-to_le_bytes n (x / 256))

-- The bytes of a list come back from the word that they make up.
pub to_le_bytes-from_le_bytes :
    (bs : List ℕ) → All IsByte bs → to_le_bytes (length bs) (from_le_bytes bs) ≡ bs
unfolding to_le_bytes from_le_bytes
to_le_bytes-from_le_bytes [] h = refl
to_le_bytes-from_le_bytes (b ∷ bs) h =
    ap₂ ◌∷◌ (omega arith)
      (ap (to_le_bytes (length bs)) (omega arith) ∙ to_le_bytes-from_le_bytes bs h.1)

-- A word that fits `n` bytes comes back from them.
pub from_le_bytes-to_le_bytes : (n x : ℕ) → x < 256 ^ n → from_le_bytes (to_le_bytes n x) ≡ x
unfolding to_le_bytes from_le_bytes
from_le_bytes-to_le_bytes zero x h = omega arith
from_le_bytes-to_le_bytes (suc n) x h =
    omega (arith, from_le_bytes-to_le_bytes n (x / 256) (omega (arith, pow-suc 256 n)))
