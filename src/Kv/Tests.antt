-- ===== src/Kv/Tests.antt =====
-- Runs of the key-value store at concrete inputs.
use ved_db_server.Prelude.{
  ℕ, zero, suc, ◌≤◌, ◌<◌, bit_and, ◌≡◌, refl, sym, ◌∙◌, ◌≢◌, inl, inr, Bool, true, false, none,
  some, List, [], ◌∷◌, arith, ◌==◌, Bool-cases, set, replicate, get_or-set_ne, get_or-replicate,
}
use ved_db_server.Prelude.Bits.{is_power_of_two}
use ved_db_server.Prelude.Memory.{read_bytes, write_bytes}
use ved_db_server.Arena.Defs.{
  Arena, allocate, bump_allocate, allocate_from_free_list, pop_free, size_class_for, align_up,
}
use ved_db_server.Kv.{ok, err, version_mismatch}
use ved_db_server.Kv.Hash.{hash_key, fnv_hash, bytes_equal}
use ved_db_server.Kv.Table
use ved_db_server.Kv.Store
use ved_db_server.Kv.Store.{KvStore, shard_idx}
use ved_db_server.Kv.Store.Lookup.{get-set_new}
use ved_db_server.Kv.Table.{
  HashTable, Entry, new_entry, entry_at, find_entry, probe, verdict, keys_equal, insert, get,
  remove, cas,
}
use ved_db_server.Kv.Table.Search.{WellFormed, find_entry-returns, find_entry-enough_fuel}
use ved_db_server.Kv.Table.Lookup.{DataApart}
use ved_db_server.Kv.Table.Insert.{new_block, get-insert_new, get-insert_new_other}
use ved_db_server.Kv.Table.Update.{get-insert_update}
use ved_db_server.Kv.Table.Swap.{cas-once}
use ved_db_server.Kv.Table.Count.{live}
use ved_db_server.Kv.Table.Runs.{here, next, inserted, size-live}
use ved_db_server.Kv.Table.Hang.{full_table_hangs}

abbrev a_key : List ℕ
a_key = 97 ∷ []

abbrev b_key : List ℕ
b_key = 98 ∷ []

abbrev a_value : List ℕ
a_value = 1 ∷ 2 ∷ []

-- The bytes of key a and its value lie at offset 152, and the arena goes on at 160.
abbrev arena : Arena
arena = record {
  current = 160;
  size = 4096;
  start_offset = 152;
  free_lists = replicate 13 0;
  allocated_bytes = 3;
  allocation_count = 1;
  free_count = 0;
  memory = write_bytes (λ a. 0) 152 (97 ∷ 1 ∷ 2 ∷ []);
}

abbrev a_entry : Entry
a_entry = record {
  hash = 0xaf63dc4c8601ec8c;
  version = 1;
  key_len = 1;
  val_len = 2;
  data_offset = 152;
}

abbrev table : HashTable
table = record { capacity = 4; mask = 3; size = 1; entries = set (replicate 4 new_entry) 0 a_entry }

table-WellFormed : WellFormed table
unfolding is_power_of_two
table-WellFormed = record { power = refl; small = omega arith; masked = refl; all_there = refl }

a_found : find_entry table arena.memory a_key (hash_key a_key) ≡ some (0, true)
unfolding find_entry probe verdict keys_equal bytes_equal read_bytes write_bytes hash_key fnv_hash
a_found = refl

b_missing : find_entry table arena.memory b_key (hash_key b_key) ≡ some (1, false)
unfolding find_entry probe verdict keys_equal bytes_equal read_bytes write_bytes hash_key fnv_hash
b_missing = refl

b_block : new_block arena b_key a_value ≡ 160
unfolding allocate bump_allocate allocate_from_free_list pop_free size_class_for align_up
b_block = refl

empty_beside : (k : ℕ) → k ≢ 0 → entry_at table k ≡ new_entry
empty_beside k ne =
    get_or-set_ne (replicate 4 new_entry) 0 k a_entry new_entry (λ e. ne (sym e))
    ∙ get_or-replicate 4 k new_entry

a_apart : (len : ℕ) → DataApart table 0 152 len
unfolding DataApart
a_apart len k ne = rw (empty_beside k ne) (omega arith)

b_apart : DataApart table 1 (new_block arena b_key a_value) 3
unfolding DataApart
b_apart k ne = elim (Bool-cases (k == 0)) [
  | inl e ↦ let zero_index : k ≡ 0 = ground arith in rw (b_block, zero_index) (omega arith)
  | inr e ↦ rw (b_block, empty_beside k (ground arith)) (omega arith)
]

get-insert_new_example :
    (t' : HashTable) × (a' : Arena) × (insert table arena b_key a_value ≡ some (ok true, (t', a')))
    × (get t' a' b_key ≡ some (some a_value))
get-insert_new_example =
    get-insert_new arena b_key a_value 1 table-WellFormed (omega arith) (omega arith) b_missing
      (omega (arith, b_block)) b_apart

get-insert_new_other_example :
    (t' : HashTable) × (a' : Arena) × (insert table arena b_key a_value ≡ some (ok true, (t', a')))
    × (get t' a' a_key ≡ get table arena a_key)
get-insert_new_other_example =
    get-insert_new_other arena b_key a_value 1 a_key 0 table-WellFormed (omega arith) (omega arith)
      b_missing (omega (arith, b_block)) b_apart a_found

get-insert_update_example :
    (t' : HashTable) × (a' : Arena) × (insert table arena a_key (7 ∷ [])
      ≡ some (ok false, (t', a')))
    × (get t' a' a_key ≡ some (some (7 ∷ [])))
get-insert_update_example =
    get-insert_update arena a_key (7 ∷ []) 0 table-WellFormed (omega arith) (omega arith) a_found
      (omega arith) (a_apart 2)

cas-once_example :
    (t' : HashTable) × (a' : Arena) × (cas table arena a_key 1 (8 ∷ 9 ∷ []) ≡ some (ok 2, (t', a')))
    × (get t' a' a_key ≡ some (some (8 ∷ 9 ∷ [])))
    × (cas t' a' a_key 1 (5 ∷ []) ≡ some (err version_mismatch, (t', a')))
cas-once_example =
    cas-once arena a_key 1 (8 ∷ 9 ∷ []) (5 ∷ []) 0 table-WellFormed (omega arith) (omega arith)
      a_found refl (omega arith) (a_apart 3)

two_is_empty : verdict table arena.memory b_key (hash_key b_key) 2 ≡ some false
unfolding verdict
two_is_empty = refl

find_entry-returns_example :
    (out : ℕ × Bool) × (find_entry table arena.memory b_key (hash_key b_key) ≡ some out)
find_entry-returns_example =
    find_entry-returns arena.memory b_key (hash_key b_key) 2 table-WellFormed (omega arith)
      two_is_empty

-- one tombstone and no other entry
abbrev full_table : HashTable
full_table = record {
  capacity = 1;
  mask = 0;
  size = 0;
  entries = record { hash = 1; version = 1; key_len = 0; val_len = 0; data_offset = 0 } ∷ [];
}

full_table-WellFormed : WellFormed full_table
unfolding is_power_of_two
full_table-WellFormed = record {
  power = refl;
  small = omega arith;
  masked = refl;
  all_there = refl;
}

no_empty_entry : (j : ℕ) → j < 1 → (entry_at full_table j).hash ≢ 0
no_empty_entry zero h = omega arith
no_empty_entry (suc j) h = absurd (omega arith)

no_b : (j : ℕ) → j < 1 → keys_equal arena.memory (entry_at full_table j) b_key ≡ false
unfolding keys_equal
no_b zero h = refl
no_b (suc j) h = absurd (omega arith)

full_table_hangs_example :
    (insert full_table arena b_key a_value ≡ none)
    × (get full_table arena b_key ≡ none)
    × (remove full_table arena b_key ≡ none)
    × (cas full_table arena b_key 1 a_value ≡ none)
full_table_hangs_example =
    full_table_hangs arena b_key a_value 1 full_table-WellFormed (omega arith) (omega arith)
      no_empty_entry no_b

never_found : find_entry full_table arena.memory b_key (hash_key b_key) ≡ none
unfolding find_entry probe verdict keys_equal hash_key fnv_hash
never_found = refl

find_entry-enough_fuel_example :
    probe full_table arena.memory b_key (hash_key b_key) 1000 (bit_and (hash_key b_key) 0) ≡ none
find_entry-enough_fuel_example =
    find_entry-enough_fuel arena.memory b_key (hash_key b_key) 1000 full_table-WellFormed
      never_found

abbrev empty_table : HashTable
empty_table = record { capacity = 4; mask = 3; size = 0; entries = replicate 4 new_entry }

empty_table-init : Table.init 4 ≡ some empty_table
unfolding Table.init is_power_of_two
empty_table-init = refl

empty_table-WellFormed : WellFormed empty_table
unfolding is_power_of_two
empty_table-WellFormed = record {
  power = refl;
  small = omega arith;
  masked = refl;
  all_there = refl;
}

b_missing_there : find_entry empty_table arena.memory b_key (hash_key b_key) ≡ some (1, false)
unfolding find_entry probe verdict hash_key fnv_hash
b_missing_there = refl

all_apart : DataApart empty_table 1 (new_block arena b_key a_value) 3
unfolding DataApart
all_apart k ne = rw (get_or-replicate 4 k new_entry) (omega arith)

after_b :
    (t' : HashTable) × (a' : Arena) × (insert empty_table arena b_key a_value
      ≡ some (ok true, (t', a')))
    × (get t' a' b_key ≡ some (some a_value))
after_b =
    get-insert_new arena b_key a_value 1 empty_table-WellFormed (omega arith) (omega arith)
      b_missing_there (omega (arith, b_block)) all_apart

size-live_example :
    (after_b.0.size ≡ live after_b.0.entries) × (after_b.0.size ≤ after_b.0.capacity)
size-live_example =
    size-live 4 (omega arith)
      (next arena after_b.1 (here empty_table-init) (inserted b_key a_value after_b.2))

-- A store of one shard, which holds the table with key a; the new key is b.
abbrev store : KvStore
store = record {
  num_shards = 1;
  shard_mask = 0;
  total_operations = 0;
  total_keys = 1;
  shards =
      record { operation_count = 1; entry_count = 1; memory_used = 3; hash_table = table } ∷ [];
}

b_shard : shard_idx store b_key ≡ 0
unfolding fnv_hash
b_shard = refl

get-set_new_example :
    (s' : KvStore) × (a' : Arena) × (s'' : KvStore) × (Store.set store arena b_key a_value
      ≡ some (ok tt, (s', a')))
    × (Store.get s' a' b_key ≡ some (some a_value, s''))
unfolding fnv_hash
get-set_new_example =
    get-set_new store arena b_key a_value 1 (omega arith) table-WellFormed (omega arith)
      (omega arith) b_missing (omega (arith, b_block)) b_apart
