-- ===== src/Cache/Layer.antt =====
-- `CacheLayer` of cache/cache_layer.rs, one call at a time. A call reads the clock once, and the cache
-- is
-- read in some order.
use ved_db_server.Prelude.{
  ℕ, Bool, true, false, Option, none, some, List, [], ◌∷◌, leb, if◌then◌else◌, length,
}
pub mod Sizes
pub mod Calls
pub mod Space
pub mod Lifetimes
use Prim.Native.String.{String}
use ved_db_server.Prelude.Maps.{Map, String-Eq, lookup, insert, erase}
use ved_db_server.Prelude.Bytes.{add64, sub64}
use ved_db_server.Prelude.Integers.{ℤ, negsuc}
use ved_db_server.Cache.{Platform}
use ved_db_server.Cache.Values.{
  CacheData, CachedValue, new_value, with_ttl, is_expired, mark_accessed, update_ttl, persist_value,
}
use ved_db_server.Cache.Expiry.{ExpirationEntry, add, remove as forget, update, get_expired_keys}
use ved_db_server.Cache.Eviction.{
  EvictionPolicy, is_no_eviction, select_victims, EvictionStats, no_evictions, record_eviction,
}

pub record CacheConfig : Type 0 where
  pub max_size_bytes : ℕ
  pub eviction_policy : EvictionPolicy
  pub default_ttl : Option ℕ

pub record CacheStats : Type 0 where
  pub hits : ℕ
  pub misses : ℕ
  pub sets : ℕ
  pub eviction_stats : EvictionStats

pub record CacheLayer : Type 0 where
  pub cache : Map String CachedValue
  pub ttl_manager : List ExpirationEntry
  pub config : CacheConfig
  pub current_size : ℕ
  pub stats : CacheStats

abbrev pub no_stats : CacheStats
no_stats = record { hits = 0; misses = 0; sets = 0; eviction_stats = no_evictions }

abbrev pub new : CacheConfig → CacheLayer
new config = record {
  cache = [];
  ttl_manager = [];
  config = config;
  current_size = 0;
  stats = no_stats;
}

unfoldable pub record_hit : CacheLayer → CacheLayer
record_hit c = record c { stats = record c.stats { hits = add64 c.stats.hits 1 } }

unfoldable pub record_miss : CacheLayer → CacheLayer
record_miss c = record c { stats = record c.stats { misses = add64 c.stats.misses 1 } }

unfoldable pub record_set : CacheLayer → CacheLayer
record_set c = record c { stats = record c.stats { sets = add64 c.stats.sets 1 } }

unfoldable pub count_eviction : ℕ → Bool → CacheLayer → CacheLayer
count_eviction size by_ttl c = record c {
  stats = record c.stats { eviction_stats = record_eviction c.stats.eviction_stats size by_ttl };
}

-- A key leaves the map, and its size is taken off.
unfoldable pub drop_value : String → CachedValue → CacheLayer → CacheLayer
drop_value key v c = record c {
  cache = erase key c.cache;
  current_size = sub64 c.current_size v.size_bytes;
}

unfoldable pub forget_key : String → CacheLayer → CacheLayer
forget_key key c = record c { ttl_manager = forget key c.ttl_manager }

-- the loop of `evict_expired`
unfoldable pub drop_expired : List String → CacheLayer → CacheLayer
drop_expired [] c = c
drop_expired (key ∷ keys) c = drop_expired keys (elim (lookup key c.cache) [
  | none ↦ c
  | some v ↦ count_eviction v.size_bytes true (drop_value key v c)
])

unfoldable pub evict_expired : ℕ → CacheLayer → CacheLayer
evict_expired now c =
    let expired = get_expired_keys now c.ttl_manager in
    drop_expired expired.0 (record c { ttl_manager = expired.1 })

unfoldable pub remove : CacheLayer → String → Bool × CacheLayer
remove c key = elim (lookup key c.cache) [
  | none ↦ (false, c)
  | some v ↦ (true, forget_key key (drop_value key v c))
]

-- `get` after the expired keys are gone
unfoldable pub read : ℕ → CacheLayer → String → Option CacheData × CacheLayer
read now c key = elim (lookup key c.cache) [
  | none ↦ (none, record_miss c)
  | some v ↦ if is_expired now v then (none, record_miss (remove c key).1) else (
    some v.value,
    record_hit (record c { cache = insert key (mark_accessed now v) c.cache }),
  )
]

unfoldable pub get : ℕ → CacheLayer → String → Option CacheData × CacheLayer
get now c key = read now (evict_expired now c) key

-- the loop of `evict_by_policy`
unfoldable pub evict_victims : ℕ → ℕ → List String → CacheLayer → CacheLayer
evict_victims target_bytes evicted_bytes [] c = c
evict_victims target_bytes evicted_bytes (key ∷ keys) c =
    if leb target_bytes evicted_bytes then c else elim (lookup key c.cache) [
      | none ↦ evict_victims target_bytes evicted_bytes keys c
      | some v ↦
          evict_victims target_bytes (add64 evicted_bytes v.size_bytes) keys
            (count_eviction v.size_bytes false (forget_key key (drop_value key v c)))
    ]

unfoldable pub evict_by_policy : Platform → ℕ → ℕ → CacheLayer → CacheLayer
evict_by_policy p now target_bytes c =
    evict_victims target_bytes 0
      (select_victims p c.config.eviction_policy now c.cache (length c.cache)) c

-- whether there is room afterwards, and the cache then
unfoldable pub ensure_space : Platform → ℕ → ℕ → CacheLayer → Bool × CacheLayer
ensure_space p now required c =
    if leb (add64 c.current_size required) c.config.max_size_bytes
    then (true, c)
    else if is_no_eviction c.config.eviction_policy
    then (false, c)
    else (
      true,
      evict_by_policy p now
          (p.overshoot (sub64 (add64 c.current_size required) c.config.max_size_bytes)) c,
    )

-- the value that is stored, and the cache once its expiry is noted
unfoldable pub to_store :
    Platform → ℕ → CacheLayer → String → CacheData → Option ℕ → CachedValue × CacheLayer
to_store p now c key value none = (new_value now value, c)
to_store p now c key value (some seconds) = (
  with_ttl p now value seconds,
  record c { ttl_manager = add key (p.after now seconds) c.ttl_manager },
)

-- The size of an old value is taken off.
unfoldable pub discount_old : String → CacheLayer → CacheLayer
discount_old key c = elim (lookup key c.cache) [
  | none ↦ c
  | some old ↦ record c { current_size = sub64 c.current_size old.size_bytes }
]

unfoldable pub store : String → CachedValue → CacheLayer → CacheLayer
store key v c =
    record_set
      (record c { cache = insert key v c.cache; current_size = add64 c.current_size v.size_bytes })

unfoldable pub set_with_ttl :
    Platform → ℕ → CacheLayer → String → CacheData → Option ℕ → Bool × CacheLayer
set_with_ttl p now c key value seconds =
    let noted = to_store p now c key value seconds in
    let spaced = ensure_space p now (noted.0).size_bytes noted.1 in
    if spaced.0 then (true, store key noted.0 (discount_old key spaced.1)) else (false, spaced.1)

unfoldable pub set : Platform → ℕ → CacheLayer → String → CacheData → Bool × CacheLayer
set p now c key value = set_with_ttl p now c key value c.config.default_ttl

unfoldable pub exists : ℕ → CacheLayer → String → Bool × CacheLayer
exists now c key =
    let found = get now c key in (elim found.0 [ none ↦ false | some value ↦ true ], found.1)

unfoldable pub expire : Platform → ℕ → CacheLayer → String → ℕ → Bool × CacheLayer
expire p now c key seconds = elim (lookup key c.cache) [
  | none ↦ (false, c)
  | some v ↦ (
    true,
    record c {
      cache = insert key (update_ttl p now v seconds) c.cache;
      ttl_manager = update key (p.after now seconds) c.ttl_manager;
    },
  )
]

unfoldable pub persist : CacheLayer → String → Bool × CacheLayer
persist c key = elim (lookup key c.cache) [
  | none ↦ (false, c)
  | some v ↦ (true, forget_key key (record c { cache = insert key (persist_value v) c.cache }))
]

-- the answer of a value that never expires is -1
unfoldable pub ttl : Platform → ℕ → CacheLayer → String → Option ℤ
ttl p now c key = elim (lookup key c.cache) [
  | none ↦ none
  | some v ↦ elim v.expires_at [
    | none ↦ some (negsuc 0)
    | some expires_at ↦ some (p.num_seconds expires_at now)
  ]
]

unfoldable pub clear : CacheLayer → CacheLayer
clear c = record c { cache = []; ttl_manager = []; current_size = 0 }

unfoldable pub size_bytes : CacheLayer → ℕ
size_bytes c = c.current_size

unfoldable pub len : CacheLayer → ℕ
len c = length c.cache
