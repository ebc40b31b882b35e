-- ===== src/Query.antt =====
-- The queries of veddb-core/src/query, and what they take from floating point and from the package of
-- regular expressions.
pub mod Ast
pub mod Values
pub mod Filters
pub mod Planner
pub mod Executor
pub mod IndexScan
pub mod Answers
pub mod Pages
mod Tests
use Prim.Native.Nat.{Ordering}
use Prim.Native.String.{String}
use ved_db_server.Prelude.{ℕ, Bool, Option, List}

-- `partial_cmp` of floats, given by their bit patterns, and a 64-bit integer `as f64`; the seconds of a
-- time; an order of iteration over a hash map with given keys; whether a text
-- matches a pattern, whose cases may be ignored, or `none` for a pattern that is none.
pub record Engine : Type 0 where
  pub partial_cmp : ℕ → ℕ → Option Ordering
  pub float_of_int : ℕ → ℕ
  pub timestamp : ℕ → ℕ
  pub hash_order : List String → List String
  pub is_match : Bool → String → String → Option Bool
