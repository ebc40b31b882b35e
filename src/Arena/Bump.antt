-- ===== src/Arena/Bump.antt =====
-- Bump allocation: where the blocks lie, and that no two of them meet.
use ved_db_server.Prelude.{
  ℕ, ◌+◌, ◌-◌, ◌*◌, ◌/◌, ◌%◌, ◌^◌, ◌≤◌, ◌<◌, bit_and, ◌≡◌, ap₂, ◌∙◌, ◌⊎◌, inl, inr, true, arith,
  ltb, Bool-cases,
}
use native.Mathlib.Nat.{mul-mod_left, mod-lt, div-add-mod'}
use ved_db_server.Prelude.Bits.{is_power_of_two, is_power_of_two_bounds, bit_and_align}
use ved_db_server.Prelude.Bytes.{add64}
use ved_db_server.Arena.Defs.{Arena, header_size, align_up, bump_allocate}

-- The bump pointer lies between the header and the end of an arena of less than 2^62 bytes.
pub record IsValid (a : Arena) : Type 0 where
  pub above_header : header_size ≤ a.current
  pub in_arena : a.current ≤ a.size
  pub small : a.size < 2 ^ 62

-- Requests whose arithmetic cannot wrap: below 2^62 bytes, aligned to a power of two below 2^62.
pub record IsRequest (size align : ℕ) : Type 0 where
  pub some_bytes : 0 < size
  pub small_size : size < 2 ^ 62
  pub power : is_power_of_two align ≡ true
  pub small_align : align < 2 ^ 62

align_up-eq :
    (current align : ℕ)
    → current < 2 ^ 62
    → is_power_of_two align ≡ true
    → align < 2 ^ 62
    → align_up current align ≡ (current + align - 1) / align * align
unfolding align_up
align_up-eq current align hc p ha =
    let pos : 0 < align = (is_power_of_two_bounds align p).0 in
    ap₂ bit_and (omega arith) (omega arith)
    ∙ bit_and_align align (current + align - 1) p (omega arith)

-- `align_up` gives the first multiple of the alignment that is not below the bump pointer.
pub align_up_bounds :
    (current align : ℕ)
    → current < 2 ^ 62
    → is_power_of_two align ≡ true
    → align < 2 ^ 62
    → (current ≤ align_up current align)
      × (align_up current align < current + align)
      × (align_up current align % align ≡ 0)
align_up_bounds current align hc p ha =
    let pos : 0 < align = (is_power_of_two_bounds align p).0 in
    rw (align_up-eq current align hc p ha) (
      omega (arith, mod-lt (current + align - 1) pos, div-add-mod' (current + align - 1) align),
      omega (arith, mod-lt (current + align - 1) pos, div-add-mod' (current + align - 1) align),
      mul-mod_left ((current + align - 1) / align) align,
    )

-- A failed allocation returns 0 and leaves the arena alone.
abbrev pub Refused : Arena → ℕ × Arena → Type 0
Refused a r = (r.0 ≡ 0) × (r.1 ≡ a)

-- A block was cut from the free space: aligned, at or after the old bump pointer, inside the
-- arena, with the bump pointer at its end and the memory and the free lists as they were.
pub record Placed (a : Arena) (size align : ℕ) (r : ℕ × Arena) : Type 0 where
  pub after : a.current ≤ r.0
  pub near : r.0 < a.current + align
  pub aligned : r.0 % align ≡ 0
  pub inside : r.0 + size ≤ a.size
  pub pointer : r.1.current ≡ r.0 + size
  pub same_size : r.1.size ≡ a.size
  pub same_lists : r.1.free_lists ≡ a.free_lists
  pub same_memory : r.1.memory ≡ a.memory

-- In an arena of fewer than 2^62 bytes whose bump pointer lies between its header and its end, a bump
-- allocation of 1 to 2^62 - 1 bytes, aligned to a power of two below 2^62, either places the block: at the
-- first multiple of the alignment that is not below the bump pointer, inside the arena, with the bump
-- pointer moved to its end and the memory, the size and the free lists as before; or refuses it and
-- leaves the arena alone, when the block would end past the arena.
pub bump_allocate-cases :
    {a : Arena} (size align : ℕ)
    → IsValid a
    → IsRequest size align
    → (Refused a (bump_allocate a size align) × (a.size < align_up a.current align + size))
      ⊎ Placed a size align (bump_allocate a size align)
unfolding bump_allocate
bump_allocate-cases {a} size align v q =
    elim (Bool-cases (ltb a.size (add64 (align_up a.current align) size))) [
      | inl e ↦
          inl (ground (arith, align_up_bounds a.current align (omega arith) q.power q.small_align))
      | inr e ↦
          inr (ground (arith, align_up_bounds a.current align (omega arith) q.power q.small_align))
    ]
