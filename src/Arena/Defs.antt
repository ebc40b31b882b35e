-- ===== src/Arena/Defs.antt =====
-- The functions of arena.rs.
use ved_db_server.Prelude.{
  ℕ, suc, ◌+◌, ◌-◌, ◌*◌, ◌/◌, ◌%◌, bit_and, Bool, not, ◌&&◌, ◌||◌, Option, none, some, List, [],
  ◌∷◌, ◌++◌, ltb, leb, ◌==◌, if◌then◌else◌, get_or, set, replicate,
}
use ved_db_server.Prelude.Bytes.{
  u64_mod, u32_mod, add64, sub64, saturating_sub, to_le_bytes, from_le_bytes,
}
use ved_db_server.Prelude.Memory.{Memory, read_bytes, write_bytes}

abbrev pub size_classes : List ℕ
size_classes = 8 ∷ 16 ∷ 32 ∷ 64 ∷ 128 ∷ 256 ∷ 512 ∷ 1024 ∷ 2048 ∷ 4096 ∷ 8192 ∷ 16384 ∷ 32768 ∷ []

-- `size_of::<Arena>()`: three words, a list head for each size class, three counters.
abbrev pub header_size : ℕ
header_size = 8 * (3 + 13 + 3)

pub record Arena : Type 0 where
  pub current : ℕ
  pub size : ℕ
  pub start_offset : ℕ
  pub free_lists : List ℕ
  pub allocated_bytes : ℕ
  pub allocation_count : ℕ
  pub free_count : ℕ
  pub memory : Memory

unfoldable pub init : Memory → ℕ → Arena
init memory size = record {
  current = header_size;
  size = size;
  start_offset = header_size;
  free_lists = replicate 13 0;
  allocated_bytes = 0;
  allocation_count = 0;
  free_count = 0;
  memory = memory;
}

-- `position`, from index `i` on
unfoldable pub position : ℕ → ℕ → List ℕ → Option ℕ
position i size [] = none
position i size (c ∷ cs) = if leb size c then some i else position (suc i) size cs

unfoldable pub size_class_for : ℕ → Option ℕ
unfolding position
size_class_for size = position 0 size size_classes

abbrev pub size_for_class : ℕ → ℕ
size_for_class i = get_or size_classes i 0

-- `FreeNode { next, size, _padding: 0 }`, as it lies in memory
abbrev pub free_node : ℕ → ℕ → List ℕ
free_node next size = to_le_bytes 8 next ++ (to_le_bytes 4 size ++ to_le_bytes 4 0)

abbrev pub node_next : Memory → ℕ → ℕ
node_next m offset = from_le_bytes (read_bytes m offset 8)

abbrev pub list_head : Arena → ℕ → ℕ
list_head a i = get_or a.free_lists i 0

-- the statistics that every successful allocation updates
abbrev pub count_allocation : Arena → ℕ → Arena
count_allocation a size = record a {
  allocation_count = add64 a.allocation_count 1;
  allocated_bytes = add64 a.allocated_bytes size;
}

-- The pop of `allocate_from_free_list`, once the size class `i` is found.
unfoldable pub pop_free : Arena → ℕ → ℕ → ℕ → Option (ℕ × Arena)
pop_free a size align i =
    if ltb (size_for_class i) size || ltb size (size_for_class i / 2)
    then none
    else if list_head a i == 0
    then none
    else if not (list_head a i % align == 0)
    then none
    else some (
      list_head a i,
      record a { free_lists = set a.free_lists i (node_next a.memory (list_head a i)) },
    )

unfoldable pub allocate_from_free_list : Arena → ℕ → ℕ → Option (ℕ × Arena)
unfolding pop_free
allocate_from_free_list a size align = elim (size_class_for size) [
  | none ↦ none
  | some i ↦ pop_free a size align i
]

-- `(current + align - 1) & !(align - 1)`
unfoldable pub align_up : ℕ → ℕ → ℕ
align_up current align = bit_and (sub64 (add64 current align) 1) (u64_mod - 1 - sub64 align 1)

-- Offset 0 is the failure.
unfoldable pub bump_allocate : Arena → ℕ → ℕ → ℕ × Arena
bump_allocate a size align =
    let aligned = align_up a.current align in
    let new_offset = add64 aligned size in
    if ltb a.size new_offset
    then (0, a)
    else (aligned, count_allocation (record a { current = new_offset }) size)

unfoldable pub allocate : Arena → ℕ → ℕ → ℕ × Arena
allocate a size align = if size == 0 then (0, a) else elim (allocate_from_free_list a size align) [
  | some (offset, a') ↦ (offset, count_allocation a' size)
  | none ↦ bump_allocate a size align
]

abbrev pub add_to_free_list : Arena → ℕ → ℕ → ℕ → Arena
add_to_free_list a offset size i = record a {
  memory = write_bytes a.memory offset (free_node (list_head a i) (size % u32_mod));
  free_lists = set a.free_lists i offset;
}

unfoldable pub count_free : Arena → Arena
count_free a = record a { free_count = add64 a.free_count 1 }

-- The class test of `free`, once the size class `i` is found.
unfoldable pub free_in_class : Arena → ℕ → ℕ → ℕ → Arena
free_in_class a offset size i =
    if leb (size_for_class i / 2) size && leb size (size_for_class i)
    then add_to_free_list a offset (size_for_class i) i
    else a

unfoldable pub free : Arena → ℕ → ℕ → Arena
unfolding free_in_class count_free
free a offset size = if offset == 0 || size == 0 then a else elim (size_class_for size) [
  | some i ↦ count_free (free_in_class a offset size i)
  | none ↦ count_free a
]

unfoldable pub is_valid_offset : Arena → ℕ → Bool
is_valid_offset a offset = leb a.start_offset offset && ltb offset a.size

unfoldable pub remaining_space : Arena → ℕ
remaining_space a = saturating_sub a.size a.current
