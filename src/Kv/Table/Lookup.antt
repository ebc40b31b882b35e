-- ===== src/Kv/Table/Lookup.antt =====
-- What a write of one entry and its data does to the lookups of kv/hash_table.rs.
use ved_db_server.Prelude.{
  ℕ, zero, suc, ◌+◌, ◌≤◌, bit_and, ◌≡◌, refl, sym, ap, ap₂, subst, ◌∙◌, ◌≢◌, ◌⊎◌, inl, inr, Bool,
  true, false, none, some, List, arith, ◌==◌, Bool-cases, Option-cases, length,
}
use ved_db_server.Kv.Table.Search.{probe-go, probe-stop}
use ved_db_server.Kv.Table.{HashTable, entry_at, verdict, probe, find_entry, keys_equal, read_value}
use ved_db_server.Kv.Hash.{hash_key, bytes_equal_refl, bytes_equal_sound, two-le-hash_key}
use ved_db_server.Prelude.Memory.{
  Memory, read_bytes, write_bytes, read_bytes-write_bytes, read_bytes-write_bytes_disjoint,
}
use ved_db_server.Prelude.Bytes.{add64}

-- Two blocks, given by offset and length, do not meet.
abbrev pub Apart : ℕ → ℕ → ℕ → ℕ → Type 0
Apart o n offset len = (o + n ≤ offset) ⊎ (offset + len ≤ o)

-- No entry but `i` has its data in the block.
unfoldable pub DataApart : HashTable → ℕ → ℕ → ℕ → Type 0
DataApart t i offset len =
    (k : ℕ)
    → k ≢ i
    → Apart (entry_at t k).data_offset ((entry_at t k).key_len + (entry_at t k).val_len) offset len

-- Entry `i` was given the key and the value, whose bytes were written at `offset`.
pub record Stores (t : HashTable) (m : Memory) (i offset : ℕ) (key value : List ℕ) (t' : HashTable)
    (m' : Memory) : Type 0 where
  pub same_capacity : t'.capacity ≡ t.capacity
  pub same_mask : t'.mask ≡ t.mask
  pub others : (k : ℕ) → k ≢ i → entry_at t' k ≡ entry_at t k
  pub hashed : (entry_at t' i).hash ≡ hash_key key
  pub key_sized : (entry_at t' i).key_len ≡ length key
  pub val_sized : (entry_at t' i).val_len ≡ length value
  pub placed : (entry_at t' i).data_offset ≡ offset
  pub bytes : m' ≡ write_bytes (write_bytes m offset key) (offset + length key) value

-- The search takes the same way in a second table that passes over the same entries.
probe-frame :
    (t t' : HashTable) (m m' : Memory) (key : List ℕ) (hash fuel i j : ℕ) {found found' : Bool}
    → t'.mask ≡ t.mask
    → ((k : ℕ) → k ≢ j → verdict t m key hash k ≡ none → verdict t' m' key hash k ≡ none)
    → verdict t' m' key hash j ≡ some found'
    → probe t m key hash fuel i ≡ some (j, found)
    → probe t' m' key hash fuel i ≡ some (j, found')
unfolding probe
probe-frame t t' m m' key hash zero i j sm same e p = absurd (ground arith)
probe-frame t t' m m' key hash (suc fuel) i j {found' = found'} sm same e p =
    elim (Bool-cases (i == j)) [
      | inl at ↦
          let same_place : i ≡ j = ground arith in
          subst (λ x. probe t' m' key hash (suc fuel) x ≡ some (j, found')) (sym same_place)
            (probe-stop t' m' key hash fuel j e)
      | inr before ↦ elim (Option-cases (verdict t m key hash i)) [
        | inl go ↦
            probe-go t' m' key hash fuel i (same i (ground arith) go)
            ∙ ap (λ x. probe t' m' key hash fuel (bit_and (add64 i 1) x)) sm
            ∙ probe-frame t t' m m' key hash fuel (bit_and (add64 i 1) t.mask) j sm same e
                (sym (probe-go t m key hash fuel i go) ∙ p)
        | inr (f, stop) ↦ absurd (ground (arith, probe-stop t m key hash fuel i stop))
      ]
    ]

-- The entry that the search returns is one that ends it.
pub probe-ends :
    (t : HashTable) (m : Memory) (key : List ℕ) (hash fuel i j : ℕ) {found : Bool}
    → probe t m key hash fuel i ≡ some (j, found)
    → verdict t m key hash j ≡ some found
unfolding probe
probe-ends t m key hash zero i j p = absurd (ground arith)
probe-ends t m key hash (suc fuel) i j p = elim (Option-cases (verdict t m key hash i)) [
  | inl go ↦
      probe-ends t m key hash fuel (bit_and (add64 i 1) t.mask) j
        (sym (probe-go t m key hash fuel i go) ∙ p)
  | inr (f, stop) ↦ ground (arith, probe-stop t m key hash fuel i stop)
]

-- Data that lies apart from the block reads as before.
kept_bytes :
    (m : Memory) (offset : ℕ) (key value : List ℕ) (start n : ℕ)
    → Apart start n offset (length key + length value)
    → read_bytes (write_bytes (write_bytes m offset key) (offset + length key) value) start n
      ≡ read_bytes m start n
kept_bytes m offset key value start n a =
    read_bytes-write_bytes_disjoint (write_bytes m offset key) (offset + length key) value start n
      (omega arith)
    ∙ read_bytes-write_bytes_disjoint m offset key start n (omega arith)

stored_key :
    (m : Memory) (offset : ℕ) (key value : List ℕ)
    → read_bytes
        (write_bytes (write_bytes m offset key) (offset + length key) value)
        offset
        (length key)
      ≡ key
stored_key m offset key value =
    read_bytes-write_bytes_disjoint (write_bytes m offset key) (offset + length key) value offset
      (length key) (omega arith)
    ∙ read_bytes-write_bytes m offset key

module _ {t : HashTable} {m : Memory} {i offset : ℕ} {key value : List ℕ} {t' : HashTable}
    {m' : Memory} (stored : Stores t m i offset key value t' m') where
  stored-verdict : verdict t' m' key (hash_key key) i ≡ some true
  unfolding verdict keys_equal
  stored-verdict =
      rw
        (
          stored.hashed,
          stored.key_sized,
          stored.placed,
          stored.bytes,
          stored_key m offset key value,
        )
        (ground (arith, two-le-hash_key key, bytes_equal_refl key))

  others-verdict :
      DataApart t i offset (length key + length value)
      → (wanted : List ℕ) (hash k : ℕ) → k ≢ i
      → verdict t' m' wanted hash k ≡ verdict t m wanted hash k
  unfolding verdict keys_equal DataApart
  others-verdict apart wanted hash k ne =
      rw
        (
          stored.others k ne,
          stored.bytes,
          kept_bytes m offset key value (entry_at t k).data_offset (entry_at t k).key_len
              (omega (arith, apart k ne)),
        )
        refl

  -- Where the key was found already, the entry answers other searches as before.
  stored-verdict-same :
      (wanted : List ℕ) (hash : ℕ)
      → verdict t m key (hash_key key) i ≡ some true
      → verdict t' m' wanted hash i ≡ verdict t m wanted hash i
  unfolding verdict keys_equal
  stored-verdict-same wanted hash e =
      let same_hash : (entry_at t i).hash ≡ hash_key key = ground arith in
      let same_len : (entry_at t i).key_len ≡ length key = ground arith in
      let same_key : read_bytes m (entry_at t i).data_offset (entry_at t i).key_len ≡ key =
        bytes_equal_sound (read_bytes m (entry_at t i).data_offset (entry_at t i).key_len) key
          (ground arith) in
      rw
        (
          stored.hashed,
          stored.key_sized,
          stored.placed,
          stored.bytes,
          stored_key m offset key value,
          same_hash,
          same_key,
          same_len,
        )
        refl

  stored-passes :
      (wanted : List ℕ) (hash : ℕ) (found : Bool)
      → verdict t m key (hash_key key) i ≡ some found
      → verdict t m wanted hash i ≡ none
      → verdict t' m' wanted hash i ≡ none
  unfolding verdict
  stored-passes wanted hash true e go = stored-verdict-same wanted hash e ∙ go
  stored-passes wanted hash false e go = absurd (ground arith)

  -- The stored key is found, and its value is the one stored.
  pub find_entry-stored :
      {found : Bool}
      → DataApart t i offset (length key + length value)
      → find_entry t m key (hash_key key) ≡ some (i, found)
      → find_entry t' m' key (hash_key key) ≡ some (i, true)
  unfolding find_entry
  find_entry-stored apart e =
      ap₂ (λ c k. probe t' m' key (hash_key key) c (bit_and (hash_key key) k)) stored.same_capacity
        stored.same_mask
      ∙ (probe-frame t t' m m' key (hash_key key) t.capacity (bit_and (hash_key key) t.mask) i
          stored.same_mask (λ k ne go. others-verdict apart key (hash_key key) k ne ∙ go)
          stored-verdict e)

  pub read_value-stored : read_value m' (entry_at t' i) ≡ value
  read_value-stored =
      rw (stored.placed, stored.key_sized, stored.val_sized, stored.bytes)
        (read_bytes-write_bytes (write_bytes m offset key) (offset + length key) value)

  -- Every other key is found where it was, with its value.
  pub find_entry-kept :
      (wanted : List ℕ) (hash j : ℕ) {found found_wanted : Bool}
      → DataApart t i offset (length key + length value)
      → find_entry t m key (hash_key key) ≡ some (i, found)
      → find_entry t m wanted hash ≡ some (j, found_wanted)
      → j ≢ i
      → find_entry t' m' wanted hash ≡ some (j, found_wanted)
  unfolding find_entry
  find_entry-kept wanted hash j {found} apart e p ne =
      let ends = probe-ends t m key (hash_key key) t.capacity (bit_and (hash_key key) t.mask) i e in
      let ends_wanted = probe-ends t m wanted hash t.capacity (bit_and hash t.mask) j p in
      ap₂ (λ c k. probe t' m' wanted hash c (bit_and hash k)) stored.same_capacity stored.same_mask
      ∙ (probe-frame t t' m m' wanted hash t.capacity (bit_and hash t.mask) j stored.same_mask
          (λ k far go. elim (Bool-cases (k == i)) [
            | inl at ↦
                let same : k ≡ i = ground arith in
                subst (λ x. verdict t' m' wanted hash x ≡ none) (sym same)
                  (stored-passes wanted hash found ends
                    (ap (verdict t m wanted hash) (sym same) ∙ go))
            | inr off ↦ others-verdict apart wanted hash k (ground arith) ∙ go
          ])
          (others-verdict apart wanted hash j ne ∙ ends_wanted) p)

  pub read_value-kept :
      (j : ℕ)
      → DataApart t i offset (length key + length value)
      → j ≢ i
      → read_value m' (entry_at t' j) ≡ read_value m (entry_at t j)
  unfolding DataApart
  read_value-kept j apart ne =
      rw (stored.others j ne, stored.bytes)
        (kept_bytes m offset key value ((entry_at t j).data_offset + (entry_at t j).key_len)
          (entry_at t j).val_len (omega (arith, apart j ne)))
