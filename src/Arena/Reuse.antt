-- ===== src/Arena/Reuse.antt =====
-- A freed block is the next one that its size class hands out.
use ved_db_server.Prelude.{
  ℕ, ◌/◌, ◌%◌, ◌≤◌, ◌<◌, ◌≡◌, refl, sym, ap, ◌∙◌, some, List, ◌++◌, arith, length, get_or, set,
  length-set, get_or-set_self, get_or-set,
}
use ved_db_server.Prelude.Bytes.{
  u64_mod, u32_mod, to_le_bytes, from_le_bytes, length-to_le_bytes, from_le_bytes-to_le_bytes,
}
use ved_db_server.Prelude.Memory.{Memory, read_bytes, write_bytes, read_bytes-write_bytes_prefix}
use ved_db_server.Arena.Defs.{
  Arena, size_class_for, size_for_class, free_node, node_next, list_head, allocate_from_free_list,
  pop_free, allocate, free, count_free, count_allocation, add_to_free_list,
}
use ved_db_server.Arena.FreeList.{size_class_for-smallest}

-- The link of a node that was written is read back.
node_next-write :
    (m : Memory) (offset next size : ℕ)
    → next < u64_mod
    → node_next (write_bytes m offset (free_node next size)) offset ≡ next
node_next-write m offset next size h =
    ap (λ n. from_le_bytes (read_bytes (write_bytes m offset (free_node next size)) offset n))
      (sym (length-to_le_bytes 8 next))
    ∙ ap from_le_bytes (
        read_bytes-write_bytes_prefix m offset (to_le_bytes 8 next)
          (to_le_bytes 4 size ++ to_le_bytes 4 0))
    ∙ from_le_bytes-to_le_bytes 8 next h

-- `size` bytes are put on, and taken from, the list of class `i`.
pub record FitsClass (size i : ℕ) : Type 0 where
  pub some_bytes : 0 < size
  pub class : size_class_for size ≡ some i
  pub half_full : size_for_class i / 2 ≤ size

abbrev freed : Arena → ℕ → ℕ → Arena
freed a offset i = count_free (add_to_free_list a offset (size_for_class i) i)

free-eq-freed :
    (a : Arena) (offset size i : ℕ)
    → 0 < offset
    → FitsClass size i
    → free a offset size ≡ freed a offset i
unfolding free
free-eq-freed a offset size i h f = ground (arith, size_class_for-smallest size i f.class)

pop_free-freed :
    (a : Arena) (offset size align i : ℕ)
    → 0 < offset
    → offset % align ≡ 0
    → i < length a.free_lists
    → list_head a i < u64_mod
    → FitsClass size i
    → pop_free (freed a offset i) size align i
      ≡ some (
        offset,
        record (freed a offset i) {
          free_lists = set (set a.free_lists i offset) i (list_head a i);
        },
      )
unfolding pop_free count_free
pop_free-freed a offset size align i pos al lt word f = ground (
  arith,
  size_class_for-smallest size i f.class,
  get_or-set_self a.free_lists i offset 0 lt,
  node_next-write a.memory offset (list_head a i) (size_for_class i % u32_mod) word,
)

set-set-get_or :
    (xs : List ℕ) (i j v : ℕ)
    → i < length xs
    → get_or (set (set xs i v) i (get_or xs i 0)) j 0 ≡ get_or xs j 0
set-set-get_or xs i j v lt = ground (
  arith,
  get_or-set (set xs i v) i j (get_or xs i 0) 0,
  get_or-set xs i j v 0 lt,
  length-set xs i v,
)

abbrev reused : Arena → ℕ → ℕ → ℕ → ℕ × Arena
reused a offset size i = (
  offset,
  count_allocation
      (record (freed a offset i) { free_lists = set (set a.free_lists i offset) i (list_head a i) })
      size,
)

allocate-freed :
    (a : Arena) (offset size align i : ℕ)
    → 0 < offset
    → offset % align ≡ 0
    → i < length a.free_lists
    → list_head a i < u64_mod
    → FitsClass size i
    → allocate (freed a offset i) size align ≡ reused a offset size i
unfolding allocate allocate_from_free_list
allocate-freed a offset size align i pos al lt word g =
    ground (arith, pop_free-freed a offset size align i pos al lt word g)

-- If a block that does not stand at offset 0 is freed and a request of the same size class follows,
-- whose alignment the block has, then the request gets that block, every free list has the head that it
-- had before the two calls, and the bump pointer is the same. Both sizes are over 0 and at least half of
-- their class, since others are neither listed nor served from a list, the arena has a list for the
-- class, and the head of that list was a 64-bit number.
pub allocate-free :
    (a : Arena) (offset freed_size size align i : ℕ)
    → 0 < offset
    → offset % align ≡ 0
    → i < length a.free_lists
    → list_head a i < u64_mod
    → FitsClass freed_size i
    → FitsClass size i
    → let (block, a') = allocate (free a offset freed_size) size align in
      (block ≡ offset) × ((j : ℕ) → list_head a' j ≡ list_head a j) × (a'.current ≡ a.current)
unfolding count_free
allocate-free a offset freed_size size align i pos al lt word f g =
    rw
      (
        free-eq-freed a offset freed_size i pos f,
        allocate-freed a offset size align i pos al lt word g,
      )
      (refl, λ j. set-set-get_or a.free_lists i j offset lt, refl)
