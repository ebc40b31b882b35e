-- ===== src/Cache.antt =====
-- The cache of veddb-core/src/cache, and what it takes from the clock and from floating point.
pub mod Lists
pub mod Values
pub mod Expiry
pub mod Eviction
pub mod Layer
mod Tests
use ved_db_server.Prelude.{ℕ, Bool}
use ved_db_server.Prelude.Integers.{ℤ}

-- A time is a number, and a float its bit pattern. `after` adds seconds to a time, `num_seconds` is the
-- number of whole seconds from the second time to the first; `less` is the order of floats, `greatest`
-- is
-- `f64::MAX`, and `overshoot n` is `(n as f64 * 1.2) as usize`.
pub record Platform : Type 0 where
  pub after : ℕ → ℕ → ℕ
  pub num_seconds : ℕ → ℕ → ℤ
  pub float_of_int : ℤ → ℕ
  pub float_of_nat : ℕ → ℕ
  pub less : ℕ → ℕ → Bool
  pub greatest : ℕ
  pub overshoot : ℕ → ℕ
