-- ===== src/Kv/Table/Swap.antt =====
-- `cas` of kv/hash_table.rs: a version is used once.
use ved_db_server.Prelude.{
  ℕ, ◌+◌, ◌%◌, ◌≤◌, ◌<◌, ◌≡◌, refl, ap, ◌∙◌, ◌≢◌, true, some, List, arith, length, get_or, set,
  get_or-set_self,
}
use native.Mathlib.Nat.{mod-eq_of_lt}
use ved_db_server.Prelude.Bytes.{u32_mod, u64_mod, add64}
use ved_db_server.Arena.Defs.{Arena}
use ved_db_server.Kv.{ok, err, version_mismatch}
use ved_db_server.Kv.Hash.{hash_key}
use ved_db_server.Kv.Table.{
  HashTable, Entry, new_entry, entry_at, set_entry, store_data, find_entry, cas, swap_entry, get,
}
use ved_db_server.Kv.Table.Search.{WellFormed, find_entry-lt-capacity}
use ved_db_server.Kv.Table.Lookup.{Stores, DataApart, find_entry-stored}
use ved_db_server.Kv.Table.Insert.{get-Stores, set_entry-Stores}
use ved_db_server.Kv.Table.Update.{found-same}

abbrev swapped_entry : Entry → List ℕ → Entry
swapped_entry e new_value = record e {
  data_offset = e.data_offset;
  val_len = length new_value % u32_mod;
  version = add64 e.version 1;
}

-- the table after a `cas` whose value fits into the old block
abbrev swapped : HashTable → ℕ → List ℕ → HashTable
swapped t i new_value = set_entry t i (swapped_entry (entry_at t i) new_value)

cas-swapped :
    (t : HashTable) (a : Arena) (key : List ℕ) (expected : ℕ) (new_value : List ℕ) (i : ℕ)
    → find_entry t a.memory key (hash_key key) ≡ some (i, true)
    → (entry_at t i).version ≡ expected
    → length key + length new_value ≤ (entry_at t i).key_len + (entry_at t i).val_len
    → (entry_at t i).key_len ≡ length key
    → cas t a key expected new_value
      ≡ some (
        ok (add64 expected 1),
        (swapped t i new_value, store_data a (entry_at t i).data_offset key new_value),
      )
unfolding cas swap_entry
cas-swapped t a key expected new_value i e ve fits same = ground arith

cas-other_version :
    (t : HashTable) (a : Arena) (key : List ℕ) (expected : ℕ) (new_value : List ℕ) (i : ℕ)
    → find_entry t a.memory key (hash_key key) ≡ some (i, true)
    → (entry_at t i).version ≢ expected
    → cas t a key expected new_value ≡ some (err version_mismatch, (t, a))
unfolding cas swap_entry
cas-other_version t a key expected new_value i e ve = ground arith

-- On a well-formed table, let the search find the key at an entry whose block lies apart from all
-- other data. A swap that names the entry's version, with a value of less than 2^32 bytes that fits
-- into that block, returns the next version, and the key then reads the new value; a second swap
-- that names the old version fails and changes nothing, whatever its value.
pub cas-once :
    {t : HashTable} (a : Arena) (key : List ℕ) (expected : ℕ) (new_value second_value : List ℕ)
    (i : ℕ)
    → WellFormed t
    → expected < u64_mod
    → length new_value < u32_mod
    → find_entry t a.memory key (hash_key key) ≡ some (i, true)
    → (entry_at t i).version ≡ expected
    → length key + length new_value ≤ (entry_at t i).key_len + (entry_at t i).val_len
    → DataApart t i (entry_at t i).data_offset (length key + length new_value)
    → (t' : HashTable) × (a' : Arena) × (cas t a key expected new_value
        ≡ some (ok (add64 expected 1), (t', a')))
      × (get t' a' key ≡ some (some new_value))
      × (cas t' a' key expected second_value ≡ some (err version_mismatch, (t', a')))
cas-once {t} a key expected new_value second_value i v he hv e ve fits apart =
    let (same_hash, same_len) = found-same t a.memory key (hash_key key) i e in
    let hi : i < t.capacity = find_entry-lt-capacity t a.memory key (hash_key key) i v e in
    let a' : Arena = store_data a (entry_at t i).data_offset key new_value in
    let stored : Stores t a.memory i (entry_at t i).data_offset key new_value
        (swapped t i new_value) a'.memory =
      set_entry-Stores a.memory i (entry_at t i).data_offset t.size key new_value
        (swapped_entry (entry_at t i) new_value) v hi same_hash same_len (mod-eq_of_lt hv) refl in
    let put : get_or (set t.entries i (swapped_entry (entry_at t i) new_value)) i new_entry
        ≡ swapped_entry (entry_at t i) new_value =
      get_or-set_self t.entries i (swapped_entry (entry_at t i) new_value) new_entry
        (omega (arith, v.all_there)) in
    let next : (entry_at (swapped t i new_value) i).version ≡ add64 expected 1 =
      ap (λ x. x.version) put ∙ ap (λ n. add64 n 1) ve in
    (
      swapped t i new_value,
      a',
      cas-swapped t a key expected new_value i e ve fits same_len,
      get-Stores a a' stored apart e,
      cas-other_version (swapped t i new_value) a' key expected second_value i
          (find_entry-stored stored apart e) (omega (arith, next)),
    )
