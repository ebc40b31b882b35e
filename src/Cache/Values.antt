-- ===== src/Cache/Values.antt =====
-- `CacheSet`, `CacheSortedSet`, `CacheHash`, `CacheData` and `CachedValue` of
-- cache/data_structures.rs. A set
-- is a map to the trivial type.
use ved_db_server.Prelude.{
  ℕ, ◌+◌, ◌%◌, Bool, true, false, not, ◌&&◌, Option, none, some, List, [], ◌∷◌, ltb, if◌then◌else◌,
  length,
}
use Prim.Native.String
use Prim.Native.String.{String}
use ved_db_server.Prelude.Maps.{Map, String-Eq, lookup, insert, erase}
use ved_db_server.Prelude.Integers.{ℤ}
use ved_db_server.Prelude.Bytes.{u64_mod, add64}
use ved_db_server.Document.{Value, size_bytes as value_size}
use ved_db_server.Cache.{Platform}
use ved_db_server.Cache.Lists.{CacheList, range, range_start, range_stop, list_size}

unfoldable pub is_none {ℓ} : {A : Type ℓ} → Option A → Bool
is_none none = true
is_none (some x) = false

-- what a map holds, a size for each key and value
unfoldable pub entry_sizes {ℓ} : {A : Type ℓ} → (A → ℕ) → Map String A → ℕ
entry_sizes size [] = 0
entry_sizes size ((k, v) ∷ m) = String.len k + size v + entry_sizes size m

pub record CacheSet : Type 0 where
  pub items : Map {0, 0} String Unit

unfoldable pub sadd : CacheSet → String → Bool × CacheSet
sadd s member = (is_none (lookup member s.items), record { items = insert member tt s.items })

unfoldable pub srem : CacheSet → String → Bool × CacheSet
srem s member = (not (is_none (lookup member s.items)), record { items = erase member s.items })

unfoldable pub sismember : CacheSet → String → Bool
sismember s member = not (is_none (lookup member s.items))

unfoldable pub scard : CacheSet → ℕ
scard s = length s.items

unfoldable pub set_size : CacheSet → ℕ
set_size s = entry_sizes (λ _. 0) s.items + 16

pub record CacheSortedSet : Type 0 where
  pub items : Map String ℕ

unfoldable pub zadd : CacheSortedSet → String → ℕ → Bool × CacheSortedSet
zadd s member score =
    (is_none (lookup member s.items), record { items = insert member score s.items })

unfoldable pub zrem : CacheSortedSet → String → Bool × CacheSortedSet
zrem s member = (not (is_none (lookup member s.items)), record { items = erase member s.items })

unfoldable pub zscore : CacheSortedSet → String → Option ℕ
zscore s member = lookup member s.items

unfoldable pub zcard : CacheSortedSet → ℕ
zcard s = length s.items

-- `sort_by` of what stands beside a score: stable, and by the order that it is given
unfoldable pub insert_sorted {ℓ} :
    {A : Type ℓ} → (ℕ → ℕ → Bool) → A × ℕ → List (A × ℕ) → List (A × ℕ)
insert_sorted before x [] = x ∷ []
insert_sorted before x (y ∷ ys) =
    let rest = insert_sorted before x ys in if before y.1 x.1 then y ∷ rest else x ∷ y ∷ ys

unfoldable pub sort_by {ℓ} : {A : Type ℓ} → (ℕ → ℕ → Bool) → List (A × ℕ) → List (A × ℕ)
sort_by before [] = []
sort_by before (x ∷ xs) = insert_sorted before x (sort_by before xs)

unfoldable pub zrange : Platform → CacheSortedSet → ℤ → ℤ → Option (List (String × ℕ))
zrange p s start stop =
    let sorted = sort_by p.less s.items in
    range sorted (range_start (length sorted) start) (range_stop (length sorted) stop)

-- the members with a score that is neither below the least nor above the greatest
unfoldable pub between : Platform → ℕ → ℕ → Map String ℕ → List (String × ℕ)
between p least greatest [] = []
between p least greatest ((k, score) ∷ m) =
    let rest = between p least greatest m in
    if not (p.less score least) && not (p.less greatest score) then (k, score) ∷ rest else rest

unfoldable pub zrangebyscore : Platform → CacheSortedSet → ℕ → ℕ → List (String × ℕ)
zrangebyscore p s least greatest = sort_by p.less (between p least greatest s.items)

unfoldable pub sorted_set_size : CacheSortedSet → ℕ
sorted_set_size s = entry_sizes (λ _. 8) s.items + 16

pub record CacheHash : Type 0 where
  pub fields : Map String Value

unfoldable pub hset : CacheHash → String → Value → Bool × CacheHash
hset h field v = (is_none (lookup field h.fields), record { fields = insert field v h.fields })

unfoldable pub hget : CacheHash → String → Option Value
hget h field = lookup field h.fields

unfoldable pub hdel : CacheHash → String → Bool × CacheHash
hdel h field = (not (is_none (lookup field h.fields)), record { fields = erase field h.fields })

unfoldable pub hexists : CacheHash → String → Bool
hexists h field = not (is_none (lookup field h.fields))

unfoldable pub hlen : CacheHash → ℕ
hlen h = length h.fields

unfoldable pub hash_size : CacheHash → ℕ
hash_size h = entry_sizes value_size h.fields + 16

pub data CacheData : Type 0 where
  plain : Value → CacheData
  list : CacheList → CacheData
  set_of : CacheSet → CacheData
  sorted_set : CacheSortedSet → CacheData
  hash : CacheHash → CacheData

unfoldable pub data_size : CacheData → ℕ
data_size (plain v) = value_size v
data_size (list l) = list_size l
data_size (set_of s) = set_size s
data_size (sorted_set s) = sorted_set_size s
data_size (hash h) = hash_size h

pub record CachedValue : Type 0 where
  pub value : CacheData
  pub expires_at : Option ℕ
  pub last_accessed : ℕ
  pub access_count : ℕ
  pub size_bytes : ℕ

-- `CachedValue::new` and `with_ttl`, at the time `now`; a size is a `usize`, whose sums wrap around
unfoldable pub new_value : ℕ → CacheData → CachedValue
new_value now d = record {
  value = d;
  expires_at = none;
  last_accessed = now;
  access_count = 0;
  size_bytes = data_size d % u64_mod;
}

unfoldable pub with_ttl : Platform → ℕ → CacheData → ℕ → CachedValue
with_ttl p now d ttl_seconds = record (new_value now d) {
  expires_at = some (p.after now ttl_seconds);
}

unfoldable pub is_expired : ℕ → CachedValue → Bool
is_expired now v = elim v.expires_at [ none ↦ false | some expires_at ↦ ltb expires_at now ]

unfoldable pub mark_accessed : ℕ → CachedValue → CachedValue
mark_accessed now v = record v { last_accessed = now; access_count = add64 v.access_count 1 }

unfoldable pub update_ttl : Platform → ℕ → CachedValue → ℕ → CachedValue
update_ttl p now v ttl_seconds = record v { expires_at = some (p.after now ttl_seconds) }

unfoldable pub persist_value : CachedValue → CachedValue
persist_value v = record v { expires_at = none }
