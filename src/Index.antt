-- ===== src/Index.antt =====
-- The indexes of veddb-core/src/index: what their operations answer.
pub mod Keys
pub mod Tree
pub mod Statistics
pub mod Manager
pub mod Order
pub mod Lookup
pub mod Build
pub mod Reach
pub mod Uniqueness
pub mod Undo
pub mod Rollback
pub mod Tests
use Prim.Native.String.{String}

pub data IndexError : Type 0 where
  unique_constraint_violation : String → IndexError
  missing_field : String → IndexError
  unsupported_value_type : IndexError
  operation_failed : String → IndexError

pub data Result {ℓ} (A : Type ℓ) : Type ℓ where
  ok : A → Result A
  err : IndexError → Result A
