-- ===== src/Kv/Table.antt =====
-- `HashTable` of kv/hash_table.rs. The arena that the table points to is shared with other tables,
-- so each operation takes it and gives it back.
pub mod Search
pub mod Lookup
pub mod Insert
pub mod Update
pub mod Count
pub mod Runs
pub mod Swap
pub mod Hang
use ved_db_server.Prelude.{
  ℕ, zero, suc, ◌+◌, ◌-◌, ◌%◌, bit_and, Bool, true, false, not, ◌&&◌, ◌||◌, Option, none, some,
  List, ltb, ◌==◌, if◌then◌else◌, length, get_or, set, replicate,
}
use ved_db_server.Prelude.Bits.{is_power_of_two}
use ved_db_server.Prelude.Bytes.{u32_mod, add64, sub64, add32}
use ved_db_server.Prelude.Memory.{Memory, read_bytes, write_bytes}
use ved_db_server.Arena.Defs.{Arena, allocate, free}
use ved_db_server.Kv.{key_too_large, out_of_memory, version_mismatch, not_found, Result, ok, err}
use ved_db_server.Kv.Hash.{hash_key, bytes_equal}

pub record Entry : Type 0 where
  pub hash : ℕ
  pub version : ℕ
  pub key_len : ℕ
  pub val_len : ℕ
  pub data_offset : ℕ

abbrev pub empty_hash : ℕ
empty_hash = 0

abbrev pub tombstone_hash : ℕ
tombstone_hash = 1

abbrev pub new_entry : Entry
new_entry = record { hash = empty_hash; version = 0; key_len = 0; val_len = 0; data_offset = 0 }

abbrev pub is_tombstone : Entry → Bool
is_tombstone e = e.hash == tombstone_hash

abbrev pub mark_tombstone : Entry → Entry
mark_tombstone e = record e { hash = tombstone_hash }

pub record HashTable : Type 0 where
  pub capacity : ℕ
  pub mask : ℕ
  pub size : ℕ
  pub entries : List Entry

-- `none` is the panic of the assertion.
unfoldable pub init : ℕ → Option HashTable
init capacity =
    if is_power_of_two capacity
    then some (record {
      capacity = capacity;
      mask = capacity - 1;
      size = 0;
      entries = replicate capacity new_entry;
    })
    else none

abbrev pub entry_at : HashTable → ℕ → Entry
entry_at t i = get_or t.entries i new_entry

-- the writes through `entry_at_mut(index)`
abbrev pub set_entry : HashTable → ℕ → Entry → HashTable
set_entry t i e = record t { entries = set t.entries i e }

unfoldable pub keys_equal : Memory → Entry → List ℕ → Bool
keys_equal m e key =
    if e.key_len == length key
    then bytes_equal (read_bytes m e.data_offset e.key_len) key
    else false

-- One turn of the loop of `find_entry`: `some` is its return.
unfoldable pub verdict : HashTable → Memory → List ℕ → ℕ → ℕ → Option Bool
verdict t m key hash i =
    if (entry_at t i).hash == empty_hash
    then some false
    else if (entry_at t i).hash == hash && keys_equal m (entry_at t i) key
    then some true
    else none

-- The loop, for at most `fuel` turns; `none` if it has not returned by then.
unfoldable pub probe : HashTable → Memory → List ℕ → ℕ → ℕ → ℕ → Option (ℕ × Bool)
probe t m key hash zero i = none
probe t m key hash (suc fuel) i =
    let rest = probe t m key hash fuel (bit_and (add64 i 1) t.mask) in
    elim (verdict t m key hash i) [ some found ↦ some (i, found) | none ↦ rest ]

-- A loop that has not returned after `capacity` turns never returns, which `none` stands for here
-- and in the operations below.
unfoldable pub find_entry : HashTable → Memory → List ℕ → ℕ → Option (ℕ × Bool)
find_entry t m key hash = probe t m key hash t.capacity (bit_and hash t.mask)

-- the two copies, key then value
abbrev pub store_data : Arena → ℕ → List ℕ → List ℕ → Arena
store_data a offset key value = record a {
  memory = write_bytes (write_bytes a.memory offset key) (offset + length key) value;
}

-- the block for `new_size` bytes, in place of one of `old_size` at `old_offset`
abbrev pub resize : Arena → ℕ → ℕ → ℕ → ℕ × Arena
resize a old_offset old_size new_size =
    if ltb old_size new_size
    then allocate (free a old_offset old_size) new_size 8
    else (old_offset, a)

abbrev pub Reply : Type 0 → Type 0
Reply A = Result A × (HashTable × Arena)

-- `insert` at an entry that holds the key
unfoldable pub update_entry : HashTable → Arena → ℕ → List ℕ → List ℕ → Reply Bool
update_entry t a i key value =
    let e = entry_at t i in
    let (offset, a') = resize a e.data_offset (e.key_len + e.val_len) (length key + length value) in
    if ltb (e.key_len + e.val_len) (length key + length value) && offset == 0
    then (err out_of_memory, (t, a'))
    else (
      ok false,
      (
        set_entry t i (record e {
          data_offset = offset;
          key_len = length key % u32_mod;
          val_len = length value % u32_mod;
        }),
        store_data a' offset key value,
      ),
    )

-- `insert` at an empty entry
unfoldable pub fill_entry : HashTable → Arena → ℕ → List ℕ → List ℕ → Reply Bool
fill_entry t a i key value =
    let (offset, a') = allocate a (length key + length value) 8 in
    if offset == 0 then (err out_of_memory, (t, a')) else (
      ok true,
      (
        record (set_entry t i (record {
          hash = hash_key key;
          version = 1;
          key_len = length key % u32_mod;
          val_len = length value % u32_mod;
          data_offset = offset;
        })) { size = add64 t.size 1 },
        store_data a' offset key value,
      ),
    )

unfoldable pub insert : HashTable → Arena → List ℕ → List ℕ → Option (Reply Bool)
insert t a key value =
    if ltb (u32_mod - 1) (length key) || ltb (u32_mod - 1) (length value)
    then some (err key_too_large, (t, a))
    else elim (find_entry t a.memory key (hash_key key)) [
      | none ↦ none
      | some (i, true) ↦ some (update_entry t a i key value)
      | some (i, false) ↦ some (fill_entry t a i key value)
    ]

-- the value half of `get_key_value`
abbrev pub read_value : Memory → Entry → List ℕ
read_value m e = read_bytes m (e.data_offset + e.key_len) e.val_len

unfoldable pub get : HashTable → Arena → List ℕ → Option (Option (List ℕ))
get t a key = elim (find_entry t a.memory key (hash_key key)) [
  | none ↦ none
  | some (i, true) ↦ some (some (read_value a.memory (entry_at t i)))
  | some (i, false) ↦ some none
]

-- `remove` at an entry that holds the key
unfoldable pub remove_entry : HashTable → Arena → ℕ → Option ℕ × (HashTable × Arena)
remove_entry t a i =
    let e = entry_at t i in
    let size = add32 e.key_len e.val_len in
    if is_tombstone e then (none, (t, a)) else (
      some size,
      (
        record (set_entry t i
            (record (mark_tombstone e) { key_len = 0; val_len = 0; data_offset = 0 })) {
              size = sub64 t.size 1;
            },
        free a e.data_offset size,
      ),
    )

unfoldable pub remove : HashTable → Arena → List ℕ → Option (Option ℕ × (HashTable × Arena))
remove t a key = elim (find_entry t a.memory key (hash_key key)) [
  | none ↦ none
  | some (i, true) ↦ some (remove_entry t a i)
  | some (i, false) ↦ some (none, (t, a))
]

-- `cas` at an entry that holds the key
unfoldable pub swap_entry : HashTable → Arena → ℕ → List ℕ → ℕ → List ℕ → Reply ℕ
swap_entry t a i key expected new_value =
    let e = entry_at t i in
    let old_size = e.key_len + e.val_len in
    let new_size = e.key_len + length new_value in
    let (offset, a') = resize a e.data_offset old_size new_size in
    let new_version = add64 e.version 1 in
    if not (e.version == expected)
    then (err version_mismatch, (t, a))
    else if ltb old_size new_size && offset == 0
    then (err out_of_memory, (t, a'))
    else (
      ok new_version,
      (
        set_entry t i (record e {
          data_offset = offset;
          val_len = length new_value % u32_mod;
          version = new_version;
        }),
        store_data a' offset key new_value,
      ),
    )

unfoldable pub cas : HashTable → Arena → List ℕ → ℕ → List ℕ → Option (Reply ℕ)
cas t a key expected new_value = elim (find_entry t a.memory key (hash_key key)) [
  | none ↦ none
  | some (i, true) ↦ some (swap_entry t a i key expected new_value)
  | some (i, false) ↦ some (err not_found, (t, a))
]
