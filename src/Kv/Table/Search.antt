-- ===== src/Kv/Table/Search.antt =====
-- When the search of `find_entry` in kv/hash_table.rs ends, and where.
use ved_db_server.Prelude.{
  ℕ, zero, suc, ◌+◌, ◌-◌, ◌%◌, ◌^◌, ◌<◌, bit_and, ◌≡◌, refl, sym, ◌∙◌, ◌≢◌, ◌⊎◌, inl, inr, Bool,
  true, none, some, List, arith, ltb, leb, if◌then◌else◌, ltb→lt, Bool-cases, Option-cases, length,
}
use native.Mathlib.Nat.{mod-lt, mod-eq_of_lt, mod_self}
use ved_db_server.Prelude.Bits.{is_power_of_two, is_power_of_two_bounds, bit_and-eq-mod}
use ved_db_server.Prelude.Bytes.{add64}
use ved_db_server.Prelude.Memory.{Memory}
use ved_db_server.Kv.Table.{HashTable, verdict, probe, find_entry}

-- What `init` sets up and no operation changes.
pub record WellFormed (t : HashTable) : Type 0 where
  pub power : is_power_of_two t.capacity ≡ true
  pub small : t.capacity < 2 ^ 62
  pub masked : t.mask + 1 ≡ t.capacity
  pub all_there : length t.entries ≡ t.capacity

abbrev home : HashTable → ℕ → ℕ
home t hash = bit_and hash t.mask

index-eq-mod : {t : HashTable} (i : ℕ) → WellFormed t → bit_and i t.mask ≡ i % t.capacity
index-eq-mod {t} i v = bit_and-eq-mod i t.mask t.capacity v.power v.masked

next-mod :
    (i capacity : ℕ)
    → i < capacity
    → (i + 1) % capacity ≡ (if ltb (i + 1) capacity then i + 1 else 0)
next-mod i capacity h = elim (Bool-cases (ltb (i + 1) capacity)) [
  | inl e ↦ rw e (mod-eq_of_lt (ltb→lt (i + 1) capacity e))
  | inr e ↦ let end : i + 1 ≡ capacity = ground arith in rw (e, end) (mod_self capacity)
]

next-eq :
    {t : HashTable} (i : ℕ)
    → WellFormed t
    → i < t.capacity
    → bit_and (add64 i 1) t.mask ≡ (if ltb (i + 1) t.capacity then i + 1 else 0)
next-eq {t} i v h =
    let word : add64 i 1 ≡ i + 1 = omega (arith, v.small) in
    rw (word, index-eq-mod (i + 1) v) (next-mod i t.capacity h)

pub home-lt-capacity : {t : HashTable} (hash : ℕ) → WellFormed t → bit_and hash t.mask < t.capacity
home-lt-capacity {t} hash v =
    rw (index-eq-mod hash v) (mod-lt hash (is_power_of_two_bounds t.capacity v.power).0)

-- A turn that does not end the search goes on at the next entry.
pub probe-go :
    (t : HashTable) (m : Memory) (key : List ℕ) (hash fuel i : ℕ)
    → verdict t m key hash i ≡ none
    → probe t m key hash (suc fuel) i ≡ probe t m key hash fuel (bit_and (add64 i 1) t.mask)
unfolding probe
probe-go t m key hash fuel i go = rw (probe, go) refl

-- A turn that ends the search ends it at its entry.
pub probe-stop :
    (t : HashTable) (m : Memory) (key : List ℕ) (hash fuel i : ℕ) {found : Bool}
    → verdict t m key hash i ≡ some found
    → probe t m key hash (suc fuel) i ≡ some (i, found)
unfolding probe
probe-stop t m key hash fuel i stop = rw (probe, stop) refl

-- Entry `j` lies `d` steps ahead of entry `i`, once round the table at most.
abbrev Ahead : ℕ → ℕ → ℕ → ℕ → Type 0
Ahead capacity i d j = (i + d ≡ j) ⊎ (i + d ≡ j + capacity)

-- An entry that ends the search, `d` steps ahead, ends it within `d + 1` turns.
probe-reaches :
    {t : HashTable} (m : Memory) (key : List ℕ) (hash : ℕ) {found : Bool} (d fuel i j : ℕ)
    → WellFormed t
    → i < t.capacity
    → j < t.capacity
    → Ahead t.capacity i d j
    → d < fuel
    → verdict t m key hash j ≡ some found
    → (out : ℕ × Bool) × (probe t m key hash fuel i ≡ some out)
unfolding probe
probe-reaches m key hash d zero i j v hi hj a f e = absurd (omega arith)
probe-reaches {t} m key hash {found} d (suc fuel) i j v hi hj a f e =
    elim (Option-cases (verdict t m key hash i)) [
      | inr stop ↦ ((i, stop.0), probe-stop t m key hash fuel i stop.1)
      | inl go ↦
          let next : ℕ = bit_and (add64 i 1) t.mask in
          let e' : next ≡ (if ltb (i + 1) t.capacity then i + 1 else 0) = next-eq i v hi in
          let apart : i ≢ j = λ same. absurd (ground arith) in
          let (out, r) =
            probe-reaches m key hash (d - 1) fuel next j v (ground arith) hj (ground arith)
              (ground arith) e in
          (out, probe-go t m key hash fuel i go ∙ r)
    ]

steps-Ahead :
    (capacity i j : ℕ)
    → i < capacity
    → j < capacity
    → (d : ℕ) × Ahead capacity i d j × (d < capacity)
steps-Ahead capacity i j hi hj = elim (Bool-cases (leb i j)) [
  | inl e ↦ (j - i, inl (ground arith), ground arith)
  | inr e ↦ (j + capacity - i, inr (ground arith), ground arith)
]

-- On a well-formed table the search returns if some entry ends it, in particular an empty one.
pub find_entry-returns :
    {t : HashTable} (m : Memory) (key : List ℕ) (hash j : ℕ) {found : Bool}
    → WellFormed t
    → j < t.capacity
    → verdict t m key hash j ≡ some found
    → (out : ℕ × Bool) × (find_entry t m key hash ≡ some out)
unfolding find_entry
find_entry-returns {t} m key hash j v hj e =
    let hi : home t hash < t.capacity = home-lt-capacity hash v in
    let (d, a, h) = steps-Ahead t.capacity (home t hash) j hi hj in
    probe-reaches m key hash d t.capacity (home t hash) j v hi hj a h e

-- If no entry ends the search, no number of turns does.
pub probe-endless :
    {t : HashTable} (m : Memory) (key : List ℕ) (hash fuel i : ℕ)
    → WellFormed t
    → ((j : ℕ) → j < t.capacity → verdict t m key hash j ≡ none)
    → i < t.capacity
    → probe t m key hash fuel i ≡ none
unfolding probe
probe-endless m key hash zero i v h hi = refl
probe-endless {t} m key hash (suc fuel) i v h hi =
    probe-go t m key hash fuel i (h i hi)
    ∙ probe-endless m key hash fuel (bit_and (add64 i 1) t.mask) v h (
        let e : bit_and (add64 i 1) t.mask ≡ (if ltb (i + 1) t.capacity then i + 1 else 0) =
          next-eq i v hi in
        ground arith)

-- A search that has not returned after `capacity` turns has met no entry that ends it.
pub find_entry-none :
    {t : HashTable} (m : Memory) (key : List ℕ) (hash : ℕ)
    → WellFormed t
    → find_entry t m key hash ≡ none
    → (j : ℕ) → j < t.capacity
    → verdict t m key hash j ≡ none
find_entry-none {t} m key hash v e j hj = elim (Option-cases (verdict t m key hash j)) [
  | inl go ↦ go
  | inr stop ↦ let (out, r) = find_entry-returns m key hash j v hj stop.1 in absurd (ground arith)
]

-- The count of turns that stands for the unbounded loop is enough: on a well-formed table, a search
-- that has not returned after `capacity` turns has not returned after any number of them.
pub find_entry-enough_fuel :
    {t : HashTable} (m : Memory) (key : List ℕ) (hash fuel : ℕ)
    → WellFormed t
    → find_entry t m key hash ≡ none
    → probe t m key hash fuel (bit_and hash t.mask) ≡ none
find_entry-enough_fuel {t} m key hash fuel v e =
    probe-endless m key hash fuel (home t hash) v (find_entry-none m key hash v e)
      (home-lt-capacity hash v)

probe-lt-capacity :
    (t : HashTable) (m : Memory) (key : List ℕ) (hash fuel i j : ℕ) {found : Bool}
    → WellFormed t
    → i < t.capacity
    → probe t m key hash fuel i ≡ some (j, found)
    → j < t.capacity
unfolding probe
probe-lt-capacity t m key hash zero i j v hi p = absurd (ground arith)
probe-lt-capacity t m key hash (suc fuel) i j v hi p =
    elim (Option-cases (verdict t m key hash i)) [
      | inl go ↦
          probe-lt-capacity t m key hash fuel (bit_and (add64 i 1) t.mask) j v
            (let e : bit_and (add64 i 1) t.mask ≡ (if ltb (i + 1) t.capacity then i + 1 else 0) =
                next-eq i v hi in
              ground arith)
            (sym (probe-go t m key hash fuel i go) ∙ p)
      | inr (f, stop) ↦ ground (arith, probe-stop t m key hash fuel i stop)
    ]

pub find_entry-lt-capacity :
    (t : HashTable) (m : Memory) (key : List ℕ) (hash j : ℕ) {found : Bool}
    → WellFormed t
    → find_entry t m key hash ≡ some (j, found)
    → j < t.capacity
unfolding find_entry
find_entry-lt-capacity t m key hash j v p =
    probe-lt-capacity t m key hash t.capacity (home t hash) j v (home-lt-capacity hash v) p
