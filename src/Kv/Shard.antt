-- ===== src/Kv/Shard.antt =====
-- `KvShard` of kv/shard.rs. Every method holds the shard's lock, so a call is one step.
use ved_db_server.Prelude.{
  ℕ, ◌+◌, Bool, true, false, Option, none, some, List, if◌then◌else◌, length,
}
use ved_db_server.Prelude.Bytes.{add64, sub64}
use ved_db_server.Arena.Defs.{Arena}
use ved_db_server.Kv.{Result, ok, err, Done}
use ved_db_server.Kv.Table
use ved_db_server.Kv.Table.{HashTable}

pub record KvShard : Type 0 where
  pub operation_count : ℕ
  pub entry_count : ℕ
  pub memory_used : ℕ
  pub hash_table : HashTable

unfoldable pub init : ℕ → Option KvShard
init capacity = elim (Table.init capacity) [
  | none ↦ none
  | some t ↦ some (record { operation_count = 0; entry_count = 0; memory_used = 0; hash_table = t })
]

-- `operation_count.fetch_add(1)`
abbrev pub count_operation : KvShard → KvShard
count_operation s = record s { operation_count = add64 s.operation_count 1 }

-- the end of `set`, after an `insert` that answered `result` and left the table `t`
unfoldable pub after_insert : KvShard → ℕ → Result Bool → HashTable → Result Done × KvShard
after_insert s bytes (err e) t = (err e, record s { hash_table = t })
after_insert s bytes (ok was_new) t = (
  ok tt,
  record s {
    entry_count = if was_new then add64 s.entry_count 1 else s.entry_count;
    memory_used = add64 s.memory_used bytes;
    hash_table = t;
  },
)

abbrev pub ShardReply : Type 0 → Type 0
ShardReply A = A × (KvShard × Arena)

unfoldable pub set : KvShard → Arena → List ℕ → List ℕ → Option (ShardReply (Result Done))
unfolding after_insert
set s a key value = elim (Table.insert s.hash_table a key value) [
  | none ↦ none
  | some (result, (t, a')) ↦
      let (done, s') = after_insert (count_operation s) (length key + length value) result t in
      some (done, (s', a'))
]

unfoldable pub get : KvShard → Arena → List ℕ → Option (Option (List ℕ) × KvShard)
get s a key = elim (Table.get s.hash_table a key) [
  | none ↦ none
  | some found ↦ some (found, count_operation s)
]

-- the end of `delete`, after a `remove` that answered `removed` and left the table `t`
unfoldable pub after_remove : KvShard → Option ℕ → HashTable → Bool × KvShard
after_remove s none t = (false, record s { hash_table = t })
after_remove s (some old_size) t = (
  true,
  record s {
    entry_count = sub64 s.entry_count 1;
    memory_used = sub64 s.memory_used old_size;
    hash_table = t;
  },
)

unfoldable pub delete : KvShard → Arena → List ℕ → Option (ShardReply Bool)
unfolding after_remove
delete s a key = elim (Table.remove s.hash_table a key) [
  | none ↦ none
  | some (removed, (t, a')) ↦
      let (done, s') = after_remove (count_operation s) removed t in some (done, (s', a'))
]

unfoldable pub cas : KvShard → Arena → List ℕ → ℕ → List ℕ → Option (ShardReply (Result ℕ))
cas s a key expected new_value = elim (Table.cas s.hash_table a key expected new_value) [
  | none ↦ none
  | some (result, (t, a')) ↦ some (result, (record (count_operation s) { hash_table = t }, a'))
]
