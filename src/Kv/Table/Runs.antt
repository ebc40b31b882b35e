-- ===== src/Kv/Table/Runs.antt =====
-- The tables of kv/hash_table.rs that calls on a new one lead to, and their count.
use ved_db_server.Prelude.{
  ℕ, ◌-◌, ◌^◌, ◌≤◌, ◌<◌, bit_and, ◌≡◌, sym, subst, inl, inr, Bool, true, false, ◌||◌, Option, some,
  List, arith, ltb, Bool-cases, Option-cases, length, replicate, length-replicate,
}
use ved_db_server.Prelude.Bits.{is_power_of_two, is_power_of_two_bounds}
use ved_db_server.Prelude.Bytes.{u32_mod}
use ved_db_server.Prelude.Memory.{Memory}
use ved_db_server.Arena.Defs.{Arena}
use ved_db_server.Kv.{Result}
use ved_db_server.Kv.Hash.{hash_key, two-le-hash_key}
use ved_db_server.Kv.Table.{
  HashTable, new_entry, entry_at, init, verdict, find_entry, insert, update_entry, fill_entry,
  remove, remove_entry, cas, swap_entry,
}
use ved_db_server.Kv.Table.Search.{find_entry-lt-capacity}
use ved_db_server.Kv.Table.Lookup.{probe-ends}
use ved_db_server.Kv.Table.Update.{found-same}
use ved_db_server.Kv.Table.Count.{
  live, Counted, live-le-length, live-replicate, fill_entry-Counted, update_entry-Counted,
  swap_entry-Counted, remove_entry-Counted,
}

-- The calls that write, whatever they answer.
pub data Step (t : HashTable) (a : Arena) : HashTable → Arena → Type 0 where
  inserted :
      {t' : HashTable} {a' : Arena} (key value : List ℕ) {reply : Result Bool}
      → insert t a key value ≡ some (reply, (t', a'))
      → Step t a t' a'
  removed :
      {t' : HashTable} {a' : Arena} (key : List ℕ) {reply : Option ℕ}
      → remove t a key ≡ some (reply, (t', a'))
      → Step t a t' a'
  swapped :
      {t' : HashTable} {a' : Arena} (key : List ℕ) (expected : ℕ) (new_value : List ℕ)
      {reply : Result ℕ}
      → cas t a key expected new_value ≡ some (reply, (t', a'))
      → Step t a t' a'

-- The entry at which the search found a key holds one, and the one at which it found none is empty.
found_entry :
    (t : HashTable) (m : Memory) (key : List ℕ) (i : ℕ)
    → find_entry t m key (hash_key key) ≡ some (i, true)
    → 2 ≤ (entry_at t i).hash
found_entry t m key i e = rw ((found-same t m key (hash_key key) i e).0) (two-le-hash_key key)

free_entry :
    (t : HashTable) (m : Memory) (key : List ℕ) (hash i : ℕ)
    → find_entry t m key hash ≡ some (i, false)
    → (entry_at t i).hash ≡ 0
unfolding verdict find_entry
free_entry t m key hash i e =
    let absent : verdict t m key hash i ≡ some false =
      probe-ends t m key hash t.capacity (bit_and hash t.mask) i e in
    ground arith

insert-Counted :
    {t t' : HashTable} (a a' : Arena) (key value : List ℕ) {reply : Result Bool}
    → Counted t
    → insert t a key value ≡ some (reply, (t', a'))
    → Counted t'
unfolding insert
insert-Counted {t} {t'} a a' key value {reply} c e =
    elim (Bool-cases (ltb (u32_mod - 1) (length key) || ltb (u32_mod - 1) (length value))) [
      | inl long ↦ let same : t ≡ t' = ground arith in subst Counted same c
      | inr fits ↦ elim (Option-cases (find_entry t a.memory key (hash_key key))) [
        | inl lost ↦ absurd (ground arith)
        | inr ((i, true), found) ↦
            let same : (update_entry t a i key value).1.0 ≡ t' = ground arith in
            subst Counted same (
              update_entry-Counted a i key value c
                (find_entry-lt-capacity t a.memory key (hash_key key) i c.formed found))
        | inr ((i, false), found) ↦
            let same : (fill_entry t a i key value).1.0 ≡ t' = ground arith in
            subst Counted same (
              fill_entry-Counted a i key value c
                (find_entry-lt-capacity t a.memory key (hash_key key) i c.formed found)
                (free_entry t a.memory key (hash_key key) i found))
      ]
    ]

remove-Counted :
    {t t' : HashTable} (a a' : Arena) (key : List ℕ) {reply : Option ℕ}
    → Counted t
    → remove t a key ≡ some (reply, (t', a'))
    → Counted t'
unfolding remove
remove-Counted {t} {t'} a a' key {reply} c e =
    elim (Option-cases (find_entry t a.memory key (hash_key key))) [
      | inl lost ↦ absurd (ground arith)
      | inr ((i, true), found) ↦
          let same : (remove_entry t a i).1.0 ≡ t' = ground arith in
          subst Counted same (
            remove_entry-Counted a i c
              (find_entry-lt-capacity t a.memory key (hash_key key) i c.formed found)
              (found_entry t a.memory key i found))
      | inr ((i, false), found) ↦ let same : t ≡ t' = ground arith in subst Counted same c
    ]

cas-Counted :
    {t t' : HashTable} (a a' : Arena) (key : List ℕ) (expected : ℕ) (value : List ℕ)
    {reply : Result ℕ}
    → Counted t
    → cas t a key expected value ≡ some (reply, (t', a'))
    → Counted t'
unfolding cas
cas-Counted {t} {t'} a a' key expected value {reply} c e =
    elim (Option-cases (find_entry t a.memory key (hash_key key))) [
      | inl lost ↦ absurd (ground arith)
      | inr ((i, true), found) ↦
          let same : (swap_entry t a i key expected value).1.0 ≡ t' = ground arith in
          subst Counted same (
            swap_entry-Counted a i key expected value c
              (find_entry-lt-capacity t a.memory key (hash_key key) i c.formed found))
      | inr ((i, false), found) ↦ let same : t ≡ t' = ground arith in subst Counted same c
    ]

-- Every call that writes keeps the table well formed and its count right.
Step-Counted : {t t' : HashTable} (a a' : Arena) → Counted t → Step t a t' a' → Counted t'
Step-Counted a a' c (inserted key value e) = insert-Counted a a' key value c e
Step-Counted a a' c (removed key e) = remove-Counted a a' key c e
Step-Counted a a' c (swapped key expected value e) = cas-Counted a a' key expected value c e

-- The states of a new table of `capacity` entries under any sequence of calls that write; the arena
-- may change between two calls, as the other users of the arena change it.
pub data Reach (capacity : ℕ) : HashTable → Type 0 where
  here : {t : HashTable} → init capacity ≡ some t → Reach capacity t
  next : {t t' : HashTable} (a a' : Arena) → Reach capacity t → Step t a t' a' → Reach capacity t'

init-Counted :
    (capacity : ℕ) {t : HashTable} → capacity < 2 ^ 62 → init capacity ≡ some t → Counted t
unfolding init
init-Counted capacity {t} h e = elim (Bool-cases (is_power_of_two capacity)) [
  | inl power ↦
      let same : record {
        capacity = capacity;
        mask = capacity - 1;
        size = 0;
        entries = replicate capacity new_entry;
      }
          ≡ t =
        ground arith in
      let positive : 0 < capacity = (is_power_of_two_bounds capacity power).0 in
      subst Counted same (record {
        formed = record {
          power = power;
          small = h;
          masked = omega arith;
          all_there = length-replicate capacity new_entry;
        };
        counted = sym (live-replicate capacity);
      })
  | inr not_power ↦ absurd (ground arith)
]

Reach-Counted : (capacity : ℕ) {t : HashTable} → capacity < 2 ^ 62 → Reach capacity t → Counted t
Reach-Counted capacity h (here e) = init-Counted capacity h e
Reach-Counted capacity h (next a a' r s) = Step-Counted a a' (Reach-Counted capacity h r) s

-- After any sequence of insertions, removals and swaps on a new table of fewer than 2^62 entries,
-- its `size` is the number of entries that hold a key, and no more than its entries.
pub size-live :
    (capacity : ℕ) {t : HashTable}
    → capacity < 2 ^ 62
    → Reach capacity t
    → (t.size ≡ live t.entries) × (t.size ≤ t.capacity)
size-live capacity {t} h r =
    let c : Counted t = Reach-Counted capacity h r in
    (c.counted, omega (arith, c.counted, live-le-length t.entries, c.formed.all_there))
