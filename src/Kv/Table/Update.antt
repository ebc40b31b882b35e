-- ===== src/Kv/Table/Update.antt =====
-- What a lookup finds after `insert` of kv/hash_table.rs has replaced a value in its old block.
use ved_db_server.Prelude.{
  ℕ, ◌+◌, ◌%◌, ◌≤◌, ◌<◌, bit_and, ◌≡◌, refl, true, false, some, List, arith, length,
}
use native.Mathlib.Nat.{mod-eq_of_lt}
use ved_db_server.Prelude.Memory.{Memory}
use ved_db_server.Prelude.Bytes.{u32_mod}
use ved_db_server.Arena.Defs.{Arena}
use ved_db_server.Kv.{ok}
use ved_db_server.Kv.Hash.{hash_key}
use ved_db_server.Kv.Table.{
  HashTable, Entry, entry_at, set_entry, store_data, verdict, keys_equal, find_entry, insert,
  update_entry, get,
}
use ved_db_server.Kv.Table.Search.{WellFormed, find_entry-lt-capacity}
use ved_db_server.Kv.Table.Lookup.{Stores, DataApart, probe-ends}
use ved_db_server.Kv.Table.Insert.{get-Stores, set_entry-Stores}

-- An entry at which the search found the key has its hash and its length.
pub found-same :
    (t : HashTable) (m : Memory) (key : List ℕ) (hash i : ℕ)
    → find_entry t m key hash ≡ some (i, true)
    → ((entry_at t i).hash ≡ hash) × ((entry_at t i).key_len ≡ length key)
unfolding verdict find_entry keys_equal
found-same t m key hash i e =
    let present : verdict t m key hash i ≡ some true =
      probe-ends t m key hash t.capacity (bit_and hash t.mask) i e in
    ground arith

-- the entry, the table and the arena after an update in the old block
abbrev updated_entry : Entry → List ℕ → List ℕ → Entry
updated_entry e key value = record e {
  data_offset = e.data_offset;
  key_len = length key % u32_mod;
  val_len = length value % u32_mod;
}

abbrev updated : HashTable → ℕ → List ℕ → List ℕ → HashTable
updated t i key value = set_entry t i (updated_entry (entry_at t i) key value)

insert-updated :
    (t : HashTable) (a : Arena) (key value : List ℕ) (i : ℕ)
    → length key < u32_mod
    → length value < u32_mod
    → find_entry t a.memory key (hash_key key) ≡ some (i, true)
    → length key + length value ≤ (entry_at t i).key_len + (entry_at t i).val_len
    → insert t a key value
      ≡ some (ok false, (updated t i key value, store_data a (entry_at t i).data_offset key value))
unfolding insert update_entry
insert-updated t a key value i hk hv e fits = ground arith

-- On a well-formed table, let the search find the key at an entry whose block lies apart from all
-- other data. Inserting the key with a value that fits into that block, both shorter than 2^32
-- bytes, returns false; then the key reads the new value.
pub get-insert_update :
    {t : HashTable} (a : Arena) (key value : List ℕ) (i : ℕ)
    → WellFormed t
    → length key < u32_mod
    → length value < u32_mod
    → find_entry t a.memory key (hash_key key) ≡ some (i, true)
    → length key + length value ≤ (entry_at t i).key_len + (entry_at t i).val_len
    → DataApart t i (entry_at t i).data_offset (length key + length value)
    → (t' : HashTable) × (a' : Arena) × (insert t a key value ≡ some (ok false, (t', a')))
      × (get t' a' key ≡ some (some value))
get-insert_update {t} a key value i v hk hv e fits apart =
    let hi : i < t.capacity = find_entry-lt-capacity t a.memory key (hash_key key) i v e in
    let stored : Stores t a.memory i (entry_at t i).data_offset key value (updated t i key value)
        (store_data a (entry_at t i).data_offset key value).memory =
      set_entry-Stores a.memory i (entry_at t i).data_offset t.size key value
        (updated_entry (entry_at t i) key value) v hi
        (found-same t a.memory key (hash_key key) i e).0 (mod-eq_of_lt hk) (mod-eq_of_lt hv) refl in
    (
      updated t i key value,
      store_data a (entry_at t i).data_offset key value,
      insert-updated t a key value i hk hv e fits,
      get-Stores a (store_data a (entry_at t i).data_offset key value) stored apart e,
    )
