-- ===== src/Cache/Layer/Sizes.antt =====
-- `current_size` of cache/cache_layer.rs against the values that are stored.
use ved_db_server.Prelude.{
  ℕ, ◌%◌, ◌<◌, ◌≡◌, refl, subst, inl, inr, true, false, none, some, List, [], ◌∷◌, arith, leb,
  Bool-cases, Option-cases,
}
use Prim.Native.String.{String}
use ved_db_server.Prelude.Maps.{
  Map, String-Eq, lookup, insert, erase, distinct, weight, weight_of, weight-insert, weight-erase,
  distinct-insert, distinct-erase, lookup-insert, lookup-erase,
}
use ved_db_server.Prelude.Bytes.{u64_mod, add64, sub64}
use ved_db_server.Cache.Values.{CachedValue}
use ved_db_server.Cache.Layer.{
  CacheConfig, CacheLayer, new, drop_expired, drop_value, evict_victims, count_eviction, forget_key,
}

abbrev pub stored_size : CachedValue → ℕ
stored_size v = v.size_bytes

-- The number is that of the bytes of the stored values, modulo 2^64; each key stands once.
abbrev pub Counts : Map String CachedValue → ℕ → Type 0
Counts m n =
    (distinct m ≡ true)
    × (n ≡ weight stored_size m % u64_mod)
    × ((k : String) → weight_of stored_size (lookup k m) < u64_mod)

Counts-erase :
    (k : String) (v : CachedValue) (m : Map String CachedValue) (n : ℕ)
    → lookup k m ≡ some v
    → Counts m n
    → Counts (erase k m) (sub64 n v.size_bytes)
unfolding weight_of
Counts-erase k v m n there (d, counted, small) = (
  distinct-erase k m d,
  omega (arith, weight-erase stored_size k m d, same, counted, bound),
  λ j. ground (arith, lookup-erase k j m, small j),
)
  where
    same : weight_of stored_size (lookup k m) ≡ v.size_bytes
    same = rw there refl

    bound : v.size_bytes < u64_mod
    bound = subst (λ (x : ℕ). x < u64_mod) same (small k)

-- An old value is taken off the count before a new one is put in its place.
unfoldable pub discounted : String → Map String CachedValue → ℕ → ℕ
discounted k m n = elim (lookup k m) [ none ↦ n | some old ↦ sub64 n old.size_bytes ]

pub discounted_lem :
    (k : String) (m : Map String CachedValue) (n : ℕ)
    → Counts m n
    → discounted k m n ≡ sub64 n (weight_of stored_size (lookup k m))
unfolding weight_of discounted
discounted_lem k m n (d, counted, small) = elim (Option-cases (lookup k m)) [
  | inl absent ↦ rw (discounted, absent) (omega (arith, counted))
  | inr (old, there) ↦ rw (discounted, there) refl
]

pub Counts-insert :
    (k : String) (v : CachedValue) (m : Map String CachedValue) (n : ℕ)
    → v.size_bytes < u64_mod
    → Counts m n
    → Counts (insert k v m) (add64 (discounted k m n) v.size_bytes)
unfolding weight_of
Counts-insert k v m n bound (d, counted, small) = (
  distinct-insert k v m d,
  rw (discounted_lem k m n (d, counted, small))
      (omega (arith, weight-insert stored_size k v m, counted, small k)),
  λ j. ground (arith, lookup-insert k j v m, small j, bound),
)

-- A value that is changed in place keeps its size.
pub Counts-replace :
    (k : String) (v w : CachedValue) (m : Map String CachedValue) (n : ℕ)
    → lookup k m ≡ some v
    → w.size_bytes ≡ v.size_bytes
    → Counts m n
    → Counts (insert k w m) n
unfolding weight_of
Counts-replace k v w m n there same (d, counted, small) = (
  distinct-insert k w m d,
  omega (arith, weight-insert stored_size k w m, counted, was, same),
  λ j. ground (arith, lookup-insert k j w m, small j, small k, was, same),
)
  where
    was : weight_of stored_size (lookup k m) ≡ v.size_bytes
    was = rw there refl

-- The counted size is right.
abbrev pub IsSized : CacheLayer → Type 0
IsSized c = Counts c.cache c.current_size

pub new-IsSized : (config : CacheConfig) → IsSized (new config)
unfolding distinct weight weight_of lookup
new-IsSized config = (refl, refl, λ k. omega arith)

pub drop_value-IsSized :
    (k : String) (v : CachedValue) (c : CacheLayer)
    → lookup k c.cache ≡ some v
    → IsSized c
    → IsSized (drop_value k v c)
unfolding drop_value
drop_value-IsSized k v c there sized = Counts-erase k v c.cache c.current_size there sized

pub drop_expired-IsSized :
    (keys : List String) (c : CacheLayer) → IsSized c → IsSized (drop_expired keys c)
unfolding drop_expired count_eviction
drop_expired-IsSized [] c sized = sized
drop_expired-IsSized (k ∷ ks) c sized = elim (Option-cases (lookup k c.cache)) [
  | inl absent ↦ rw (drop_expired, absent) (drop_expired-IsSized ks c sized)
  | inr (v, there) ↦
      rw (drop_expired, there)
        (drop_expired-IsSized ks (count_eviction v.size_bytes true (drop_value k v c))
          (drop_value-IsSized k v c there sized))
]

pub evict_victims-IsSized :
    (target evicted : ℕ) (keys : List String) (c : CacheLayer)
    → IsSized c
    → IsSized (evict_victims target evicted keys c)
unfolding evict_victims count_eviction forget_key
evict_victims-IsSized target evicted [] c sized = sized
evict_victims-IsSized target evicted (k ∷ ks) c sized = elim (Bool-cases (leb target evicted)) [
  | inl enough ↦ rw (evict_victims, enough) sized
  | inr more ↦ elim (Option-cases (lookup k c.cache)) [
    | inl absent ↦
        rw (evict_victims, more, absent) (evict_victims-IsSized target evicted ks c sized)
    | inr (v, there) ↦
        rw (evict_victims, more, there)
          (evict_victims-IsSized target (add64 evicted v.size_bytes) ks
            (count_eviction v.size_bytes false (forget_key k (drop_value k v c)))
            (drop_value-IsSized k v c there sized))
  ]
]
