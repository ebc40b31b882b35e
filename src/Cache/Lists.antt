-- ===== src/Cache/Lists.antt =====
-- `CacheList` of cache/data_structures.rs, with the negative indices of its readers.
use ved_db_server.Prelude.{
  ℕ, ◌+◌, ◌-◌, ◌&&◌, Option, none, some, List, [], ◌∷◌, ◌++◌, leb, if◌then◌else◌, length, get_elem?,
  take, drop,
}
use ved_db_server.Prelude.Integers.{ℤ, add_ℕ, is_negative, max_zero, min_ℕ, as_usize, suc_i64}
use ved_db_server.Document.{Value, size_bytes as value_size}

pub record CacheList : Type 0 where
  pub items : List Value

abbrev pub new_list : CacheList
new_list = record { items = [] }

unfoldable pub lpush : CacheList → Value → CacheList
lpush l v = record { items = v ∷ l.items }

unfoldable pub rpush : CacheList → Value → CacheList
rpush l v = record { items = l.items ++ (v ∷ []) }

unfoldable pub lpop : CacheList → Option Value × CacheList
lpop l = elim l.items [
  | [] ↦ (none, record { items = [] })
  | v ∷ vs ↦ (some v, record { items = vs })
]

-- the last item and those before it
unfoldable pub pop_back : List Value → Option Value × List Value
pop_back [] = (none, [])
pop_back (v ∷ []) = (some v, [])
pop_back (v ∷ w ∷ vs) = let rest = pop_back (w ∷ vs) in (rest.0, v ∷ rest.1)

unfoldable pub rpop : CacheList → Option Value × CacheList
rpop l = let r = pop_back l.items in (r.0, record { items = r.1 })

unfoldable pub llen : CacheList → ℕ
llen l = length l.items

unfoldable pub lindex : CacheList → ℤ → Option Value
lindex l index =
    let idx =
      if is_negative index then as_usize (add_ℕ (length l.items) index) else as_usize index in
    get_elem? l.items idx

-- the two ends that a range of a sequence of `len` items is given
unfoldable pub range_start : ℕ → ℤ → ℕ
range_start len start =
    as_usize (if is_negative start then max_zero (add_ℕ len start) else min_ℕ start len)

unfoldable pub range_stop : ℕ → ℤ → ℕ
range_stop len stop =
    as_usize
      (if is_negative stop then max_zero (suc_i64 (add_ℕ len stop)) else min_ℕ (suc_i64 stop) len)

-- `range(from..to)`, which panics when the ends are out of order or out of bounds
unfoldable pub range {ℓ} : {A : Type ℓ} → List A → ℕ → ℕ → Option (List A)
range xs from to =
    if leb from to && leb to (length xs) then some (take (to - from) (drop from xs)) else none

unfoldable pub lrange : CacheList → ℤ → ℤ → Option (List Value)
lrange l start stop =
    range l.items (range_start (length l.items) start) (range_stop (length l.items) stop)

unfoldable pub sum_sizes : List Value → ℕ
sum_sizes [] = 0
sum_sizes (v ∷ vs) = value_size v + sum_sizes vs

unfoldable pub list_size : CacheList → ℕ
list_size l = sum_sizes l.items + 16
