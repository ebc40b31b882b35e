-- ===== src/Kv/Table/Count.antt =====
-- The entry count that a table of kv/hash_table.rs keeps in `size`.
use ved_db_server.Prelude.{
  ℕ, zero, suc, ◌+◌, ◌≤◌, ◌<◌, ◌≡◌, refl, ◌∙◌, inl, inr, Bool, false, ◌&&◌, List, [], ◌∷◌, arith,
  ltb, leb, ◌==◌, if◌then◌else◌, Bool-cases, length, get_or, set, replicate, length-set,
}
use ved_db_server.Prelude.Bytes.{add64, sub64}
use ved_db_server.Arena.Defs.{Arena, allocate}
use ved_db_server.Kv.Hash.{two-le-hash_key}
use ved_db_server.Kv.Table.{
  HashTable, Entry, new_entry, entry_at, set_entry, update_entry, fill_entry, remove_entry, resize,
  swap_entry,
}
use ved_db_server.Kv.Table.Search.{WellFormed}
use ved_db_server.Kv.Table.Insert.{filled_entry}

-- 1 for an entry that holds a key, 0 for an empty one and a tombstone
abbrev live_one : Entry → ℕ
live_one e = if leb 2 e.hash then 1 else 0

-- how many entries hold a key
unfoldable pub live : List Entry → ℕ
live [] = 0
live (e ∷ es) = live_one e + live es

live-set :
    (es : List Entry) (i : ℕ) (e : Entry)
    → i < length es
    → live (set es i e) + live_one (get_or es i new_entry) ≡ live es + live_one e
unfolding live
live-set [] i e h = absurd (omega arith)
live-set (x ∷ es) zero e h = omega arith
live-set (x ∷ es) (suc i) e h = omega (arith, live-set es i e (omega arith))

pub live-le-length : (es : List Entry) → live es ≤ length es
unfolding live
live-le-length [] = omega arith
live-le-length (e ∷ es) = ground (arith, live-le-length es)

pub live-replicate : (n : ℕ) → live (replicate n new_entry) ≡ 0
unfolding live
live-replicate zero = refl
live-replicate (suc n) = omega (arith, live-replicate n)

pub record Counted (t : HashTable) : Type 0 where
  pub formed : WellFormed t
  pub counted : t.size ≡ live t.entries

set_entry-Counted :
    {t : HashTable} (i n : ℕ) (e : Entry)
    → Counted t
    → i < t.capacity
    → n + live_one (entry_at t i) ≡ t.size + live_one e
    → Counted (record (set_entry t i e) { size = n })
set_entry-Counted {t} i n e c hi h = record {
  formed = record {
    power = c.formed.power;
    small = c.formed.small;
    masked = c.formed.masked;
    all_there = length-set t.entries i e ∙ c.formed.all_there;
  };
  counted = omega (arith, live-set t.entries i e (omega (arith, c.formed.all_there)), c.counted);
}

-- A new version of an entry that holds a key leaves the count.
kept-Counted :
    {t : HashTable} (i : ℕ) (e : Entry)
    → Counted t
    → i < t.capacity
    → e.hash ≡ (entry_at t i).hash
    → Counted (set_entry t i e)
kept-Counted {t} i e c hi same = set_entry-Counted i t.size e c hi (ground arith)

pub fill_entry-Counted :
    {t : HashTable} (a : Arena) (i : ℕ) (key value : List ℕ)
    → Counted t
    → i < t.capacity
    → (entry_at t i).hash ≡ 0
    → Counted (fill_entry t a i key value).1.0
unfolding fill_entry
fill_entry-Counted {t} a i key value c hi e =
    elim (Bool-cases ((allocate a (length key + length value) 8).0 == 0)) [
      | inl full ↦ rw full c
      | inr placed ↦ rw placed (
          set_entry-Counted i (add64 t.size 1)
            (filled_entry (allocate a (length key + length value) 8).0 key value) c hi
            (ground (
              arith,
              two-le-hash_key key,
              live-le-length t.entries,
              c.formed.small,
              c.formed.all_there,
              c.counted,
            )))
    ]

-- Whether the new data is larger than the old and its allocation fails.
abbrev no_room : HashTable → Arena → ℕ → ℕ → Bool
no_room t a i size =
    let e = entry_at t i in
    ltb (e.key_len + e.val_len) size && (resize a e.data_offset (e.key_len + e.val_len) size).0 == 0

pub update_entry-Counted :
    {t : HashTable} (a : Arena) (i : ℕ) (key value : List ℕ)
    → Counted t
    → i < t.capacity
    → Counted (update_entry t a i key value).1.0
unfolding update_entry
update_entry-Counted {t} a i key value c hi =
    elim (Bool-cases (no_room t a i (length key + length value))) [
      | inl full ↦ rw full c
      | inr placed ↦ rw placed (kept-Counted i _ c hi refl)
    ]

pub swap_entry-Counted :
    {t : HashTable} (a : Arena) (i : ℕ) (key : List ℕ) (expected : ℕ) (value : List ℕ)
    → Counted t
    → i < t.capacity
    → Counted (swap_entry t a i key expected value).1.0
unfolding swap_entry
swap_entry-Counted {t} a i key expected value c hi =
    elim (Bool-cases ((entry_at t i).version == expected)) [
      | inl same ↦ elim (Bool-cases (no_room t a i ((entry_at t i).key_len + length value))) [
        | inl full ↦ rw (same, full) c
        | inr placed ↦ rw (same, placed) (kept-Counted i _ c hi refl)
      ]
      | inr other ↦ rw other c
    ]

pub remove_entry-Counted :
    {t : HashTable} (a : Arena) (i : ℕ)
    → Counted t
    → i < t.capacity
    → 2 ≤ (entry_at t i).hash
    → Counted (remove_entry t a i).1.0
unfolding remove_entry
remove_entry-Counted {t} a i c hi h =
    let held : ((entry_at t i).hash == 1) ≡ false = ground arith in
    rw held (
      set_entry-Counted i (sub64 t.size 1) _ c hi (
        ground (
          arith,
          live-set t.entries i new_entry,
          live-le-length t.entries,
          c.formed.small,
          c.formed.all_there,
          c.counted,
        )))
