-- ===== src/Ring/Slot/Contents.antt =====
-- What can be read back from a slot.
use mathlib.Core.Option
use ved_db_server.Prelude.{
  ℕ, ◌≤◌, ◌≡◌, sym, ap, ◌∙◌, false, none, some, List, length, take, drop, replicate, All,
  All-append, All-drop, leb, ltb, ◌==◌, if◌then◌else◌, arith, take-append_length, length-append,
  length-drop,
}
use ved_db_server.Prelude.Bytes.{IsByte, to_le_bytes, from_le_bytes, to_le_bytes-from_le_bytes}
use ved_db_server.Ring.Slot.{
  inline_data, arena_offset, is_empty, is_inline, get_inline_data, get_arena_offset,
  copy_into_zeros,
}

length-copy_into_zeros : (bs : List ℕ) → length bs ≤ 8 → length (copy_into_zeros bs) ≡ 8
unfolding copy_into_zeros
length-copy_into_zeros bs h =
    omega (arith, length-append bs (drop (length bs) zeros), length-drop (length bs) zeros)
  where
    zeros : List ℕ
    zeros = replicate 8 0

copy_into_zeros-IsByte : (bs : List ℕ) → All IsByte bs → All IsByte (copy_into_zeros bs)
unfolding copy_into_zeros
copy_into_zeros-IsByte bs h =
    All-append IsByte bs (drop (length bs) (replicate 8 0)) h
      (All-drop IsByte (length bs) (replicate 8 0) (omega arith))

-- The eight bytes of the word that `inline_data` stores.
word_bytes :
    (bs : List ℕ)
    → All IsByte bs
    → length bs ≤ 8
    → to_le_bytes 8 (from_le_bytes (copy_into_zeros bs)) ≡ copy_into_zeros bs
word_bytes bs h k =
    ap (λ n. to_le_bytes n (from_le_bytes (copy_into_zeros bs))) (sym (length-copy_into_zeros bs k))
    ∙ to_le_bytes-from_le_bytes (copy_into_zeros bs) (copy_into_zeros-IsByte bs h)

take-copy_into_zeros : (bs : List ℕ) → take (length bs) (copy_into_zeros bs) ≡ bs
unfolding copy_into_zeros
take-copy_into_zeros bs = take-append_length bs (drop (length bs) (replicate 8 0))

-- Data of at most eight bytes is stored in place and read back unchanged, but for the empty
-- string, whose slot holds nothing to read; longer data is refused.
get_inline_data-inline_data :
    (bs : List ℕ)
    → All IsByte bs
    → Option.map get_inline_data (inline_data bs)
      ≡ (if leb (length bs) 8 then some (if length bs == 0 then none else some bs) else none)
unfolding inline_data get_inline_data
get_inline_data-inline_data bs h = ground (arith, word_bytes bs h, take-copy_into_zeros bs)

-- A slot that names an arena block of `len` bytes gives its offset back exactly when the block
-- is longer than eight bytes; a shorter one reads as inline data, or as an empty slot.
get_arena_offset-arena_offset :
    (len offset : ℕ)
    → (get_arena_offset (arena_offset len offset) ≡ (if ltb 8 len then some offset else none))
      × (is_inline (arena_offset len offset) ≡ (if ltb 8 len then false else ltb 0 len))
      × (is_empty (arena_offset len offset) ≡ (len == 0))
unfolding get_arena_offset arena_offset is_inline is_empty
get_arena_offset-arena_offset len offset = ground arith
