-- ===== src/Ring/Slot.antt =====
-- `Slot` of ring/mod.rs: a ring entry that holds up to eight bytes in place, or an arena offset.
pub mod Contents
use ved_db_server.Prelude.{
  ℕ, ◌%◌, ◌+◌, Bool, true, false, not, ◌&&◌, Option, none, some, List, [], ◌∷◌, ◌++◌, length, take,
  drop, replicate, leb, ltb, ◌==◌, if◌then◌else◌,
}
use ved_db_server.Prelude.Bytes.{u32_mod, to_le_bytes, from_le_bytes}

pub record Slot : Type 0 where
  pub len : ℕ  -- u32
  pub data_or_offset : ℕ  -- u64

abbrev pub inline_size : ℕ
inline_size = 8

abbrev pub empty : Slot
empty = record { len = 0; data_or_offset = 0 }

-- `new_bytes[..n].copy_from_slice(bytes)` on eight zero bytes
copy_into_zeros : List ℕ → List ℕ
copy_into_zeros bytes = bytes ++ drop (length bytes) (replicate 8 0)

unfoldable pub inline_data : List ℕ → Option Slot
unfolding copy_into_zeros
inline_data bytes =
    if leb (length bytes) inline_size
    then some (record {
      len = length bytes % u32_mod;
      data_or_offset = from_le_bytes (copy_into_zeros bytes);
    })
    else none

unfoldable pub arena_offset : ℕ → ℕ → Slot
arena_offset len offset = record { len = len; data_or_offset = offset }

unfoldable pub is_empty : Slot → Bool
is_empty s = s.len == 0

unfoldable pub is_inline : Slot → Bool
is_inline s = ltb 0 s.len && leb s.len inline_size

unfoldable pub get_inline_data : Slot → Option (List ℕ)
unfolding is_inline
get_inline_data s = if is_inline s then some (take s.len (to_le_bytes 8 s.data_or_offset)) else none

unfoldable pub get_arena_offset : Slot → Option ℕ
unfolding is_inline
get_arena_offset s = if not (is_inline s) && ltb 0 s.len then some s.data_or_offset else none
