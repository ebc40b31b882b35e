-- ===== src/Arena/Tests.antt =====
-- Runs of the arena at concrete inputs.
use ved_db_server.Prelude.{
  ℕ, ◌+◌, ◌^◌, ◌≤◌, ◌<◌, ◌≡◌, refl, ◌⊎◌, true, none, some, [], ◌∷◌, arith, replicate,
  get_or-replicate,
}
use ved_db_server.Prelude.Bits.{is_power_of_two}
use ved_db_server.Prelude.Memory.{Memory}
use ved_db_server.Arena.Defs.{
  Arena, init, allocate, bump_allocate, align_up, free, list_head, size_class_for, size_for_class,
  allocate_from_free_list,
}
use ved_db_server.Arena.Bump.{IsValid, IsRequest, Refused, Placed, bump_allocate-cases}
use ved_db_server.Arena.Blocks.{allocate_all, AllApart, allocate_all-AllApart}
use ved_db_server.Arena.FreeList.{size_class_for-cases}
use ved_db_server.Arena.Reuse.{FitsClass, allocate-free}
use ved_db_server.Arena.Overlap.{reused_block_overlaps}

abbrev zeroed : Memory
zeroed a = 0

abbrev small_arena : Arena
small_arena = record {
  current = 152;
  size = 4096;
  start_offset = 152;
  free_lists = replicate 13 0;
  allocated_bytes = 0;
  allocation_count = 0;
  free_count = 0;
  memory = zeroed;
}

small_arena-IsValid : IsValid small_arena
small_arena-IsValid = omega arith

request :
    (size align : ℕ)
    → 0 < size
    → size < 2 ^ 62
    → is_power_of_two align ≡ true
    → align < 2 ^ 62
    → IsRequest size align
request size align h k p l = record { some_bytes = h; small_size = k; power = p; small_align = l }

eight_is_power : is_power_of_two 8 ≡ true
unfolding is_power_of_two
eight_is_power = refl

-- 100 bytes are not a multiple of the alignment, so the next block starts a little later.
two_blocks :
    allocate_all small_arena
      (record { bytes = 100; align = 8 } ∷ record { bytes = 20; align = 8 } ∷ [])
    ≡ (152, 100) ∷ (256, 20) ∷ []
unfolding allocate_all allocate allocate_from_free_list size_class_for bump_allocate align_up
two_blocks = refl

allocate_all-AllApart_example : AllApart 4096 (
    allocate_all
      (init zeroed 4096)
      (record { bytes = 100; align = 8 } ∷ record { bytes = 20; align = 8 } ∷ []))
allocate_all-AllApart_example =
    allocate_all-AllApart zeroed 4096
      (record { bytes = 100; align = 8 } ∷ record { bytes = 20; align = 8 } ∷ []) (omega arith)
      (omega arith)
      (
        request 100 8 (omega arith) (omega arith) eight_is_power (omega arith),
        (request 20 8 (omega arith) (omega arith) eight_is_power (omega arith), tt),
      )

bump_allocate-cases_example :
    (Refused small_arena (bump_allocate small_arena 100 8) × (4096 < align_up 152 8 + 100))
    ⊎ Placed small_arena 100 8 (bump_allocate small_arena 100 8)
bump_allocate-cases_example =
    bump_allocate-cases 100 8 small_arena-IsValid
      (request 100 8 (omega arith) (omega arith) eight_is_power (omega arith))

class_of_36 : size_class_for 36 ≡ some 3
unfolding size_class_for
class_of_36 = refl

class_of_64 : size_class_for 64 ≡ some 3
unfolding size_class_for
class_of_64 = refl

size_class_for-cases_example :
    ((32768 < 36) × (size_class_for 36 ≡ none))
    ⊎ ((i : ℕ) × (size_class_for 36 ≡ some i)
        × (i < 13)
        × (size_for_class i ≡ 2 ^ (i + 3))
        × (36 ≤ 2 ^ (i + 3))
        × ((i ≡ 0) ⊎ (2 ^ (i + 2) < 36)))
size_class_for-cases_example = size_class_for-cases 36

fits_36 : FitsClass 36 3
fits_36 = record { some_bytes = omega arith; class = class_of_36; half_full = omega arith }

fits_64 : FitsClass 64 3
fits_64 = record { some_bytes = omega arith; class = class_of_64; half_full = omega arith }

allocate-free_example :
    let (block, a') = allocate (free small_arena 152 36) 64 8 in
    (block ≡ 152) × ((j : ℕ) → list_head a' j ≡ list_head small_arena j) × (a'.current ≡ 152)
allocate-free_example =
    allocate-free small_arena 152 36 64 8 3 (omega arith) (omega arith) (omega arith) (omega arith)
      fits_36 fits_64

reused_block_overlaps_example :
    let (first, a1) = allocate small_arena 36 8 in
    let (second, a2) = allocate a1 24 8 in
    let (third, a3) = allocate (free a2 first 36) 64 8 in
    (third ≡ first) × (third < second) × (second < third + 64)
reused_block_overlaps_example =
    reused_block_overlaps small_arena 36 64 24 8 3 small_arena-IsValid
      (λ i. get_or-replicate 13 i 0) refl fits_36 fits_64
      (request 36 8 (omega arith) (omega arith) eight_is_power (omega arith))
      (request 24 8 (omega arith) (omega arith) eight_is_power (omega arith)) (omega arith)
      (omega arith)
