-- ===== src/Cache/Eviction.antt =====
-- `EvictionPolicy` and `EvictionStats` of cache/eviction.rs.
pub mod Victims
use ved_db_server.Prelude.{ℕ, Bool, true, false, none, some, List, [], ◌∷◌, if◌then◌else◌, take}
use Prim.Native.String.{String}
use ved_db_server.Prelude.Maps.{Map}
use ved_db_server.Prelude.Integers.{pos}
use ved_db_server.Prelude.Bytes.{add64}
use ved_db_server.Cache.{Platform}
use ved_db_server.Cache.Values.{CachedValue, sort_by}

pub data EvictionPolicy : Type 0 where
  lru lfu ttl no_eviction : EvictionPolicy

-- the derived equality with `NoEviction`
unfoldable pub is_no_eviction : EvictionPolicy → Bool
is_no_eviction no_eviction = true
is_no_eviction policy = false

unfoldable pub calculate_score : Platform → EvictionPolicy → CachedValue → ℕ → ℕ
calculate_score p lru v now = p.float_of_int (p.num_seconds now v.last_accessed)
calculate_score p lfu v now = p.float_of_nat v.access_count
calculate_score p ttl v now = elim v.expires_at [
  | none ↦ p.greatest
  | some expires_at ↦ p.float_of_int (p.num_seconds expires_at now)
]
calculate_score p no_eviction v now = p.float_of_int (pos 0)

unfoldable pub scored : Platform → EvictionPolicy → ℕ → Map String CachedValue → List (String × ℕ)
scored p policy now [] = []
scored p policy now ((k, v) ∷ m) = (k, calculate_score p policy v now) ∷ scored p policy now m

-- the order that the policy sorts by: which score comes first
unfoldable pub before : Platform → EvictionPolicy → ℕ → ℕ → Bool
before p lru a b = p.less b a
before p lfu a b = p.less a b
before p ttl a b = p.less a b
before p no_eviction a b = false

unfoldable pub names : List (String × ℕ) → List String
names [] = []
names ((k, score) ∷ xs) = k ∷ names xs

unfoldable pub select_victims :
    Platform → EvictionPolicy → ℕ → Map String CachedValue → ℕ → List String
select_victims p policy now candidates count =
    if is_no_eviction policy
    then []
    else names (take count (sort_by (before p policy) (scored p policy now candidates)))

pub record EvictionStats : Type 0 where
  pub total_evictions : ℕ
  pub evictions_by_policy : ℕ
  pub evictions_by_ttl : ℕ
  pub bytes_evicted : ℕ

abbrev pub no_evictions : EvictionStats
no_evictions = record {
  total_evictions = 0;
  evictions_by_policy = 0;
  evictions_by_ttl = 0;
  bytes_evicted = 0;
}

unfoldable pub record_eviction : EvictionStats → ℕ → Bool → EvictionStats
record_eviction s size by_ttl = record s {
  total_evictions = add64 s.total_evictions 1;
  bytes_evicted = add64 s.bytes_evicted size;
  evictions_by_ttl = if by_ttl then add64 s.evictions_by_ttl 1 else s.evictions_by_ttl;
  evictions_by_policy = if by_ttl then s.evictions_by_policy else add64 s.evictions_by_policy 1;
}
