-- ===== src/Kv.antt =====
-- The key-value store of veddb-core/src/kv: errors and results that its layers share.
pub mod Hash
pub mod Table
pub mod Shard
pub mod Store
mod Tests

pub data KvError : Type 0 where
  key_too_large : KvError
  value_too_large : KvError
  out_of_memory : KvError
  version_mismatch : KvError
  not_found : KvError

pub data Result {ℓ} (A : Type ℓ) : Type ℓ where
  ok : A → Result A
  err : KvError → Result A

abbrev pub Done : Type 0
Done = Unit
