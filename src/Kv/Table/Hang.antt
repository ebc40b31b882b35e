-- ===== src/Kv/Table/Hang.antt =====
-- The loop of `find_entry` in kv/hash_table.rs on a table without an empty entry.
use ved_db_server.Prelude.{ℕ, ◌<◌, bit_and, ◌≡◌, ◌≢◌, false, none, List, arith, length}
use ved_db_server.Prelude.Memory.{Memory}
use ved_db_server.Prelude.Bytes.{u32_mod}
use ved_db_server.Arena.Defs.{Arena}
use ved_db_server.Kv.Hash.{hash_key}
use ved_db_server.Kv.Table.{
  HashTable, entry_at, verdict, keys_equal, find_entry, insert, remove, cas, get,
}
use ved_db_server.Kv.Table.Search.{WellFormed, probe-endless, home-lt-capacity}

find_entry-full :
    {t : HashTable} (m : Memory) (key : List ℕ) (hash : ℕ)
    → WellFormed t
    → ((j : ℕ) → j < t.capacity → (entry_at t j).hash ≢ 0)
    → ((j : ℕ) → j < t.capacity → keys_equal m (entry_at t j) key ≡ false)
    → find_entry t m key hash ≡ none
unfolding find_entry verdict
find_entry-full {t} m key hash v full absent =
    probe-endless m key hash t.capacity (bit_and hash t.mask) v
      (λ j hj. ground (arith, full j hj, absent j hj)) (home-lt-capacity hash v)

-- In a well-formed table where every entry is in use or a tombstone, none of the operations returns
-- for a key that no entry holds, with key and value shorter than 2^32 bytes: insertion does not
-- reuse tombstones, and a lookup does not end.
pub full_table_hangs :
    {t : HashTable} (a : Arena) (key value : List ℕ) (expected : ℕ)
    → WellFormed t
    → length key < u32_mod
    → length value < u32_mod
    → ((j : ℕ) → j < t.capacity → (entry_at t j).hash ≢ 0)
    → ((j : ℕ) → j < t.capacity → keys_equal a.memory (entry_at t j) key ≡ false)
    → (insert t a key value ≡ none)
      × (get t a key ≡ none)
      × (remove t a key ≡ none)
      × (cas t a key expected value ≡ none)
unfolding insert get remove cas
full_table_hangs a key value expected v hk hv full absent =
    ground (arith, find_entry-full a.memory key (hash_key key) v full absent)
