-- ===== src/Prelude/Bits.antt =====
-- `&` with the masks that the code uses, as arithmetic.
use Prim.Native.Nat.{digits, bit_and-bitwise}
use Prim.Native.Nat.{ℕ, zero, suc, ◌+◌, ◌-◌, ◌*◌, ◌/◌, ◌%◌, ◌^◌, ◌≤◌, ◌<◌, min, bit_and}
use mathlib.Core.Path.{◌≡◌, sym, ap, ◌∙◌}
use native.Mathlib.Nat.{
  add-zero, add-suc, pow-suc, one-le-pow, pow-le-pow_right, le_refl, mod-lt, div-add-mod',
  div-lt_iff_lt-mul,
}
use mathlib.Core.Bool.{Bool, true, false, ◌||◌}
use mathlib.Core.Logic.{inl, inr}
use native.Mathlib.Omega.{arith}
use ved_db_server.Prelude.Tests.{◌==◌, Bool-cases}

-- What `&` means on binary digits, for any count of digits that is large enough.
abbrev and_digits : ℕ → ℕ → ℕ → ℕ
and_digits n a b = digits (λ _. 0) min n a b

double-mul : (q k : ℕ) → q * 2 ^ suc k ≡ 2 * (q * 2 ^ k)
double-mul q k = omega (arith, ap (λ (t : ℕ). q * t) (pow-suc 2 k))

-- The low `k` digits of `q * 2 ^ k + r` are `r`.
low_digits :
    (n k q r a m : ℕ) → a ≤ n → a ≡ q * 2 ^ k + r → m + 1 ≡ 2 ^ k → r < 2 ^ k → and_digits n a m ≡ r
low_digits zero k q r a m le ea em lt = omega arith
low_digits (suc n) k q r zero m le ea em lt = omega arith
low_digits (suc n) zero q r (suc a) m le ea em lt = omega (
  arith,
  low_digits n zero (suc a / 2) 0 (suc a / 2) (m / 2) (omega arith) (omega arith) (omega arith)
      (omega arith),
)
low_digits (suc n) (suc k) q r (suc a) m le ea em lt = ground (
  arith,
  double-mul q k,
  pow-suc 2 k,
  one-le-pow k 2,
  low_digits n k q (r / 2) (suc a / 2) (m / 2) (omega arith) (omega (arith, double-mul q k))
      (omega (arith, pow-suc 2 k, one-le-pow k 2)) (omega (arith, pow-suc 2 k)),
)

-- The `w` digits above the low `j`.
high_digits :
    (n j w q r s a m : ℕ)
    → a ≤ n
    → a ≡ (q * 2 ^ w + r) * 2 ^ j + s
    → m ≡ (2 ^ w - 1) * 2 ^ j
    → r < 2 ^ w
    → s < 2 ^ j
    → and_digits n a m ≡ r * 2 ^ j
high_digits n zero w q r s a m le ea em lt ls =
    omega (arith, low_digits n w q r a m le (omega arith) (omega (arith, one-le-pow w 2)) lt)
high_digits zero (suc j) w q r s a m le ea em lt ls = omega arith
high_digits (suc n) (suc j) w q r s zero m le ea em lt ls = omega arith
high_digits (suc n) (suc j) w q r s (suc a) m le ea em lt ls = ground (
  arith,
  double-mul r j,
  double-mul (2 ^ w - 1) j,
  high_digits n j w q r (s / 2) (suc a / 2) (m / 2) (omega arith)
      (omega (arith, double-mul (q * 2 ^ w + r) j)) (omega (arith, double-mul (2 ^ w - 1) j)) lt
      (omega (arith, pow-suc 2 j)),
)

-- A mask of `k` ones is the remainder by `2 ^ k`.
pub bit_and_mask : (k a m : ℕ) → m + 1 ≡ 2 ^ k → bit_and a m ≡ a % 2 ^ k
bit_and_mask k a m em = rw bit_and-bitwise (
    low_digits a k (a / 2 ^ k) (a % 2 ^ k) a m (le_refl a) (sym (div-add-mod' a (2 ^ k))) em
      (mod-lt a (omega (arith, one-le-pow k 2))))

-- A mask with the low `j` digits cleared and the `w` digits above them set rounds a number of
-- at most `w + j` digits down to a multiple of `2 ^ j`.
pub bit_and_clear :
    (j w a m : ℕ) → a < 2 ^ w * 2 ^ j → m ≡ (2 ^ w - 1) * 2 ^ j → bit_and a m ≡ a / 2 ^ j * 2 ^ j
bit_and_clear j w a m small em = rw bit_and-bitwise (
    high_digits a j w 0 (a / 2 ^ j) (a % 2 ^ j) a m (le_refl a)
      (omega (arith, div-add-mod' a (2 ^ j))) em
      ((div-lt_iff_lt-mul (one-le-pow j 2 (omega arith))).1 small)
      (mod-lt a (omega (arith, one-le-pow j 2))))

-- `is_power_of_two` of a 64-bit integer: one of the 64 powers.
any_power : ℕ → ℕ → Bool
any_power zero n = false
any_power (suc k) n = 2 ^ k == n || any_power k n

unfoldable pub is_power_of_two : ℕ → Bool
unfolding any_power
is_power_of_two n = any_power 64 n

any_power-exponent : (k n : ℕ) → any_power k n ≡ true → (j : ℕ) × (n ≡ 2 ^ j) × (j < k)
unfolding any_power
any_power-exponent zero n h = cc
any_power-exponent (suc k) n h = elim (Bool-cases (2 ^ k == n)) [
  | inl e ↦ (k, ground arith, omega arith)
  | inr e ↦ let (j, p, lt) = any_power-exponent k n (ground arith) in (j, p, omega arith)
]

pub is_power_of_two-exponent : (n : ℕ) → is_power_of_two n ≡ true → (j : ℕ) × (n ≡ 2 ^ j) × (j < 64)
unfolding is_power_of_two
is_power_of_two-exponent n h = any_power-exponent 64 n h

pub is_power_of_two_bounds : (n : ℕ) → is_power_of_two n ≡ true → (0 < n) × (n < 2 ^ 64)
is_power_of_two_bounds n h =
    let (j, p, lt) = is_power_of_two-exponent n h in
    (
      omega (arith, p, one-le-pow j 2),
      omega (arith, p, pow-le-pow_right {n = 2} (omega arith) {i = j} {j = 63} (omega arith)),
    )

pub two-pow-add : (a b : ℕ) → 2 ^ (a + b) ≡ 2 ^ a * 2 ^ b
two-pow-add a zero = omega (arith, ap (λ n. 2 ^ n) (add-zero a))
two-pow-add a (suc b) =
    rw (add-suc a b) (omega (arith, pow-suc 2 (a + b), double-mul (2 ^ a) b, two-pow-add a b))

two-pow_split : (j : ℕ) → j < 64 → 2 ^ (64 - j) * 2 ^ j ≡ 2 ^ 64
two-pow_split j h =
    sym (two-pow-add (64 - j) j) ∙ ap (λ n. 2 ^ n) {x = 64 - j + j} {y = 64} (omega arith)

mask_of_split : (w j n : ℕ) → 0 < w → 0 < j → w * j ≡ n → n - 1 - (j - 1) ≡ (w - 1) * j
mask_of_split zero j n hw hj e = absurd (omega arith)
mask_of_split (suc w) j n hw hj e = let p : suc w - 1 ≡ w = omega arith in rw p (omega (arith, e))

bit_and_clear_below :
    (j x : ℕ) → j < 64 → x < 2 ^ 64 → bit_and x (2 ^ 64 - 1 - (2 ^ j - 1)) ≡ x / 2 ^ j * 2 ^ j
bit_and_clear_below j x h small =
    bit_and_clear j (64 - j) x (2 ^ 64 - 1 - (2 ^ j - 1)) (omega (arith, two-pow_split j h)) (
      mask_of_split (2 ^ (64 - j)) (2 ^ j) (2 ^ 64) (one-le-pow (64 - j) 2 (omega arith))
        (one-le-pow j 2 (omega arith)) (two-pow_split j h))

-- Clearing the low bits below an alignment rounds down to a multiple of it.
pub bit_and_align :
    (align x : ℕ)
    → is_power_of_two align ≡ true
    → x < 2 ^ 64
    → bit_and x (2 ^ 64 - 1 - (align - 1)) ≡ x / align * align
bit_and_align align x p small =
    let (j, e, lt) = is_power_of_two-exponent align p in rw e (bit_and_clear_below j x lt small)

-- A bit mask of a power of two is the remainder by it.
pub bit_and-eq-mod :
    (i m cap : ℕ) → is_power_of_two cap ≡ true → m + 1 ≡ cap → bit_and i m ≡ i % cap
bit_and-eq-mod i m cap h e =
    let (k, p, _) = is_power_of_two-exponent cap h in
    bit_and_mask k i m (e ∙ p) ∙ ap (λ c. i % c) (sym p)
