-- ===== src/Kv/Table/Insert.antt =====
-- What a lookup finds after `insert` of kv/hash_table.rs.
use ved_db_server.Prelude.{
  ℕ, ◌+◌, ◌%◌, ◌<◌, bit_and, ◌≡◌, refl, sym, ap, ◌∙◌, ◌≢◌, Bool, true, false, some, List, arith,
  length, get_or, set, get_or-set_self, get_or-set_ne,
}
use native.Mathlib.Nat.{mod-eq_of_lt}
use ved_db_server.Prelude.Memory.{Memory, write_bytes}
use ved_db_server.Prelude.Bytes.{u32_mod, add64}
use ved_db_server.Arena.Defs.{Arena, allocate, allocate_from_free_list, pop_free, bump_allocate}
use ved_db_server.Kv.{ok}
use ved_db_server.Kv.Hash.{hash_key}
use ved_db_server.Kv.Table.{
  verdict, HashTable, Entry, new_entry, set_entry, store_data, find_entry, get, insert, fill_entry,
}
use ved_db_server.Kv.Table.Search.{WellFormed, find_entry-lt-capacity}
use ved_db_server.Kv.Table.Lookup.{
  probe-ends, Stores, DataApart, find_entry-stored, read_value-stored, find_entry-kept,
  read_value-kept,
}

-- An allocation writes nothing.
pub allocate-memory : (a : Arena) (size align : ℕ) → (allocate a size align).1.memory ≡ a.memory
unfolding allocate allocate_from_free_list pop_free bump_allocate
allocate-memory a size align = ground arith

-- A key that was stored is read with the value it was stored with.
pub get-Stores :
    {t t' : HashTable} (a a' : Arena) {i offset : ℕ} {key value : List ℕ} {found : Bool}
    → Stores t a.memory i offset key value t' a'.memory
    → DataApart t i offset (length key + length value)
    → find_entry t a.memory key (hash_key key) ≡ some (i, found)
    → get t' a' key ≡ some (some value)
unfolding get
get-Stores a a' stored apart e =
    rw (get, find_entry-stored stored apart e) (ap (λ v. some (some v)) (read_value-stored stored))

-- Any other key is read as before.
pub get-Stores_other :
    {t t' : HashTable} (a a' : Arena) {i offset : ℕ} {key value : List ℕ} {found : Bool}
    (wanted : List ℕ) (j : ℕ)
    → Stores t a.memory i offset key value t' a'.memory
    → DataApart t i offset (length key + length value)
    → find_entry t a.memory key (hash_key key) ≡ some (i, found)
    → find_entry t a.memory wanted (hash_key wanted) ≡ some (j, true)
    → j ≢ i
    → get t' a' wanted ≡ get t a wanted
unfolding get
get-Stores_other a a' wanted j stored apart e p ne =
    rw (get, find_entry-kept stored wanted (hash_key wanted) j apart e p ne, p)
      (ap (λ v. some (some v)) (read_value-kept stored j apart ne))

-- The block that `insert` of a new key asks for.
abbrev pub new_block : Arena → List ℕ → List ℕ → ℕ
new_block a key value = (allocate a (length key + length value) 8).0

-- The entry that `insert` writes for a new key, and the table and the arena that it leaves.
abbrev pub filled_entry : ℕ → List ℕ → List ℕ → Entry
filled_entry offset key value = record {
  hash = hash_key key;
  version = 1;
  key_len = length key % u32_mod;
  val_len = length value % u32_mod;
  data_offset = offset;
}

abbrev filled : HashTable → ℕ → ℕ → List ℕ → List ℕ → HashTable
filled t i offset key value = record (set_entry t i (filled_entry offset key value)) {
  size = add64 t.size 1;
}

abbrev filled_arena : Arena → List ℕ → List ℕ → Arena
filled_arena a key value =
    store_data (allocate a (length key + length value) 8).1 (new_block a key value) key value

insert-filled :
    (t : HashTable) (a : Arena) (key value : List ℕ) (i : ℕ)
    → length key < u32_mod
    → length value < u32_mod
    → find_entry t a.memory key (hash_key key) ≡ some (i, false)
    → new_block a key value ≢ 0
    → insert t a key value
      ≡ some (ok true, (filled t i (new_block a key value) key value, filled_arena a key value))
unfolding insert fill_entry
insert-filled t a key value i hk hv e nz = ground arith

-- An entry that was given the key's hash, both lengths and the offset.
pub set_entry-Stores :
    {t : HashTable} (m : Memory) (i offset n : ℕ) (key value : List ℕ) (e : Entry)
    → WellFormed t
    → i < t.capacity
    → e.hash ≡ hash_key key
    → e.key_len ≡ length key
    → e.val_len ≡ length value
    → e.data_offset ≡ offset
    → Stores t m i offset key value
        (record (set_entry t i e) { size = n })
        (write_bytes (write_bytes m offset key) (offset + length key) value)
set_entry-Stores {t} m i offset n key value e v hi eh ek ev eo =
    let put : get_or (set t.entries i e) i new_entry ≡ e =
      get_or-set_self t.entries i e new_entry (omega (arith, v.all_there)) in
    record {
      same_capacity = refl;
      same_mask = refl;
      others = λ k ne. get_or-set_ne t.entries i k e new_entry (λ p. ne (sym p));
      hashed = ap (λ x. x.hash) put ∙ eh;
      key_sized = ap (λ x. x.key_len) put ∙ ek;
      val_sized = ap (λ x. x.val_len) put ∙ ev;
      placed = ap (λ x. x.data_offset) put ∙ eo;
      bytes = refl;
    }

filled-Stores :
    {t : HashTable} (a : Arena) (key value : List ℕ) (i : ℕ)
    → WellFormed t
    → i < t.capacity
    → length key < u32_mod
    → length value < u32_mod
    → Stores t a.memory i
        (new_block a key value)
        key
        value
        (filled t i (new_block a key value) key value)
        (filled_arena a key value).memory
filled-Stores {t} a key value i v hi hk hv = rw (allocate-memory a (length key + length value) 8) (
    set_entry-Stores a.memory i (new_block a key value) (add64 t.size 1) key value
      (filled_entry (new_block a key value) key value) v hi refl (mod-eq_of_lt hk) (mod-eq_of_lt hv)
      refl)

-- On a well-formed table, let the search end at an empty entry, the key and the value be shorter
-- than 2^32 bytes, and the arena grant a block that lies apart from all data in the table. Then
-- inserting the key returns true, and the key reads the value.
pub get-insert_new :
    {t : HashTable} (a : Arena) (key value : List ℕ) (i : ℕ)
    → WellFormed t
    → length key < u32_mod
    → length value < u32_mod
    → find_entry t a.memory key (hash_key key) ≡ some (i, false)
    → new_block a key value ≢ 0
    → DataApart t i (new_block a key value) (length key + length value)
    → (t' : HashTable) × (a' : Arena) × (insert t a key value ≡ some (ok true, (t', a')))
      × (get t' a' key ≡ some (some value))
get-insert_new {t} a key value i v hk hv e nz apart =
    let hi : i < t.capacity = find_entry-lt-capacity t a.memory key (hash_key key) i v e in
    (
      filled t i (new_block a key value) key value,
      filled_arena a key value,
      insert-filled t a key value i hk hv e nz,
      get-Stores a (filled_arena a key value) (filled-Stores a key value i v hi hk hv) apart e,
    )

-- The search for a key that is there does not end at an entry where another search found nothing.
found-apart :
    (t : HashTable) (m : Memory) (key wanted : List ℕ) (hash hash' i j : ℕ)
    → find_entry t m key hash ≡ some (i, false)
    → find_entry t m wanted hash' ≡ some (j, true)
    → j ≢ i
unfolding verdict find_entry
found-apart t m key wanted hash hash' i j e p same =
    let absent : verdict t m key hash i ≡ some false =
      probe-ends t m key hash t.capacity (bit_and hash t.mask) i e in
    let present : verdict t m wanted hash' j ≡ some true =
      probe-ends t m wanted hash' t.capacity (bit_and hash' t.mask) j p in
    ground arith

-- On a well-formed table, let the search for a short enough key end at an empty entry and the arena
-- grant a block apart from all data in the table. Then inserting the key leaves what any key that
-- the search finds reads as it is.
pub get-insert_new_other :
    {t : HashTable} (a : Arena) (key value : List ℕ) (i : ℕ) (wanted : List ℕ) (j : ℕ)
    → WellFormed t
    → length key < u32_mod
    → length value < u32_mod
    → find_entry t a.memory key (hash_key key) ≡ some (i, false)
    → new_block a key value ≢ 0
    → DataApart t i (new_block a key value) (length key + length value)
    → find_entry t a.memory wanted (hash_key wanted) ≡ some (j, true)
    → (t' : HashTable) × (a' : Arena) × (insert t a key value ≡ some (ok true, (t', a')))
      × (get t' a' wanted ≡ get t a wanted)
get-insert_new_other {t} a key value i wanted j v hk hv e nz apart p =
    let hi : i < t.capacity = find_entry-lt-capacity t a.memory key (hash_key key) i v e in
    let ne : j ≢ i = found-apart t a.memory key wanted (hash_key key) (hash_key wanted) i j e p in
    (
      filled t i (new_block a key value) key value,
      filled_arena a key value,
      insert-filled t a key value i hk hv e nz,
      get-Stores_other a (filled_arena a key value) wanted j
          (filled-Stores a key value i v hi hk hv) apart e p ne,
    )
