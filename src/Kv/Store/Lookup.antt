-- ===== src/Kv/Store/Lookup.antt =====
-- What `KvStore::get` of kv/mod.rs finds after `KvStore::set`.
use ved_db_server.Prelude.{
  ℕ, ◌+◌, ◌<◌, ◌≡◌, refl, ◌≢◌, true, false, some, List, length, get_or-set_self,
}
use ved_db_server.Prelude.Bytes.{u32_mod, add64}
use ved_db_server.Arena.Defs.{Arena}
use ved_db_server.Kv.{ok}
use ved_db_server.Kv.Hash.{hash_key}
use ved_db_server.Kv.Table
use ved_db_server.Kv.Table.{HashTable, find_entry}
use ved_db_server.Kv.Table.Search.{WellFormed}
use ved_db_server.Kv.Table.Lookup.{DataApart}
use ved_db_server.Kv.Table.Insert.{new_block, get-insert_new}
use ved_db_server.Kv.Shard
use ved_db_server.Kv.Shard.{KvShard, count_operation}
use ved_db_server.Kv.Store
use ved_db_server.Kv.Store.{KvStore, shard_idx, get_shard, put_shard, no_shard}

shard-set :
    (shard : KvShard) (a a' : Arena) (key value : List ℕ) (t' : HashTable)
    → Table.insert shard.hash_table a key value ≡ some (ok true, (t', a'))
    → (shard' : KvShard) × (Shard.set shard a key value ≡ some (ok tt, (shard', a')))
      × (shard'.hash_table ≡ t')
unfolding Shard.set Shard.after_insert
shard-set shard a a' key value t' e = (
  (Shard.after_insert (count_operation shard) (length key + length value) (ok true) t').1,
  rw (Shard.set, e) refl,
  refl,
)

shard-get :
    (shard : KvShard) (a : Arena) (key value : List ℕ)
    → Table.get shard.hash_table a key ≡ some (some value)
    → (shard' : KvShard) × (Shard.get shard a key ≡ some (some value, shard'))
unfolding Shard.get
shard-get shard a key value e = (count_operation shard, rw (Shard.get, e) refl)

store-set :
    (s : KvStore) (a a' : Arena) (key value : List ℕ) (shard' : KvShard)
    → shard_idx s key < length s.shards
    → Shard.set (get_shard s key) a key value ≡ some (ok tt, (shard', a'))
    → (s' : KvStore) × (Store.set s a key value ≡ some (ok tt, (s', a')))
      × (get_shard s' key ≡ shard')
unfolding Store.set
store-set s a a' key value shard' h e = (
  record (put_shard s key shard') { total_keys = add64 s.total_keys 1 },
  rw (Store.set, e) refl,
  get_or-set_self s.shards (shard_idx s key) shard' no_shard h,
)

store-get :
    (s : KvStore) (a : Arena) (key value : List ℕ) (shard' : KvShard)
    → Shard.get (get_shard s key) a key ≡ some (some value, shard')
    → (s' : KvStore) × (Store.get s a key ≡ some (some value, s'))
unfolding Store.get
store-get s a key value shard' e = (put_shard s key shard', rw (Store.get, e) refl)

-- Let the key's shard exist and its table be well formed, let the search there end at an empty
-- entry, key and value be shorter than 2^32 bytes, and the arena grant a block apart from that
-- table's data. Then setting the key succeeds, and a `get` of the key finds the value.
pub get-set_new :
    (s : KvStore) (a : Arena) (key value : List ℕ) (i : ℕ)
    → shard_idx s key < length s.shards
    → WellFormed (get_shard s key).hash_table
    → length key < u32_mod
    → length value < u32_mod
    → find_entry (get_shard s key).hash_table a.memory key (hash_key key) ≡ some (i, false)
    → new_block a key value ≢ 0
    → DataApart (get_shard s key).hash_table i (new_block a key value) (length key + length value)
    → (s' : KvStore) × (a' : Arena) × (s'' : KvStore) × (Store.set s a key value
        ≡ some (ok tt, (s', a')))
      × (Store.get s' a' key ≡ some (some value, s''))
get-set_new s a key value i h v hk hv e nz apart =
    let (t', a', inserted, found) = get-insert_new a key value i v hk hv e nz apart in
    let (shard', shard_set, same_table) = shard-set (get_shard s key) a a' key value t' inserted in
    let (s', store_set, same_shard) = store-set s a a' key value shard' h shard_set in
    let (shard'', shard_get) =
      shard-get (get_shard s' key) a' key value (rw (same_shard, same_table) found) in
    let (s'', store_get) = store-get s' a' key value shard'' shard_get in
    (s', a', s'', store_set, store_get)
