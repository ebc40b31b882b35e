-- ===== src/Kv/Store.antt =====
-- `KvStore` of kv/mod.rs: shards that share one arena. The shards lie behind the store's header at
-- the distance that `shard_ptr` computes for shards of 1024 entries; a store set up with another
-- capacity is not modelled.
pub mod Lookup
use ved_db_server.Prelude.{
  ℕ, ◌-◌, bit_and, Bool, true, false, Option, none, some, List, [], if◌then◌else◌, get_or,
  replicate,
}
use ved_db_server.Prelude.{set as set_elem}
use ved_db_server.Prelude.Bits.{is_power_of_two}
use ved_db_server.Prelude.Bytes.{add64, sub64}
use ved_db_server.Arena.Defs.{Arena}
use ved_db_server.Kv.{Result, ok, err, Done}
use ved_db_server.Kv.Hash.{fnv_hash}
use ved_db_server.Kv.Shard
use ved_db_server.Kv.Shard.{KvShard}

pub record KvStore : Type 0 where
  pub num_shards : ℕ
  pub shard_mask : ℕ
  pub total_operations : ℕ
  pub total_keys : ℕ
  pub shards : List KvShard

abbrev pub shard_capacity : ℕ
shard_capacity = 1024

-- `none` is the panic of an assertion.
unfoldable pub init : ℕ → Option KvStore
init num_shards =
    if is_power_of_two num_shards
    then elim (Shard.init shard_capacity) [
      | none ↦ none
      | some s ↦ some (record {
        num_shards = num_shards;
        shard_mask = num_shards - 1;
        total_operations = 0;
        total_keys = 0;
        shards = replicate num_shards s;
      })
    ]
    else none

abbrev pub shard_idx : KvStore → List ℕ → ℕ
shard_idx s key = bit_and (fnv_hash key) s.shard_mask

-- a shard without entries, which stands for memory behind the last shard
abbrev pub no_shard : KvShard
no_shard = record {
  operation_count = 0;
  entry_count = 0;
  memory_used = 0;
  hash_table = record { capacity = 0; mask = 0; size = 0; entries = [] };
}

abbrev pub get_shard : KvStore → List ℕ → KvShard
get_shard s key = get_or s.shards (shard_idx s key) no_shard

-- the store after a call on the key's shard
abbrev pub put_shard : KvStore → List ℕ → KvShard → KvStore
put_shard s key shard = record s {
  total_operations = add64 s.total_operations 1;
  shards = set_elem s.shards (shard_idx s key) shard;
}

abbrev pub is_ok {ℓ} : {A : Type ℓ} → Result A → Bool
is_ok (ok x) = true
is_ok (err e) = false

abbrev pub StoreReply : Type 0 → Type 0
StoreReply A = A × (KvStore × Arena)

unfoldable pub set : KvStore → Arena → List ℕ → List ℕ → Option (StoreReply (Result Done))
set s a key value = elim (Shard.set (get_shard s key) a key value) [
  | none ↦ none
  | some (result, (shard, a')) ↦ some (
    result,
    (
      record (put_shard s key shard) {
        total_keys = if is_ok result then add64 s.total_keys 1 else s.total_keys;
      },
      a',
    ),
  )
]

unfoldable pub get : KvStore → Arena → List ℕ → Option (Option (List ℕ) × KvStore)
get s a key = elim (Shard.get (get_shard s key) a key) [
  | none ↦ none
  | some (found, shard) ↦ some (found, put_shard s key shard)
]

unfoldable pub delete : KvStore → Arena → List ℕ → Option (StoreReply Bool)
delete s a key = elim (Shard.delete (get_shard s key) a key) [
  | none ↦ none
  | some (deleted, (shard, a')) ↦ some (
    deleted,
    (
      record (put_shard s key shard) {
        total_keys = if deleted then sub64 s.total_keys 1 else s.total_keys;
      },
      a',
    ),
  )
]

unfoldable pub cas : KvStore → Arena → List ℕ → ℕ → List ℕ → Option (StoreReply (Result ℕ))
cas s a key expected new_value = elim (Shard.cas (get_shard s key) a key expected new_value) [
  | none ↦ none
  | some (result, (shard, a')) ↦ some (result, (put_shard s key shard, a'))
]
