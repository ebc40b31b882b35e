-- ===== src/Cache/Layer/Calls.antt =====
-- Every call of `CacheLayer`, and runs of calls, keep `current_size` right.
use ved_db_server.Prelude.{
  ℕ, ◌<◌, ◌≡◌, refl, inl, inr, Option, none, some, List, [], ◌∷◌, arith, leb, Bool-cases,
  Option-cases,
}
use Prim.Native.String.{String}
use ved_db_server.Prelude.Maps.{String-Eq, lookup}
use ved_db_server.Prelude.Bytes.{u64_mod, add64}
use ved_db_server.Cache.{Platform}
use ved_db_server.Cache.Values.{
  CacheData, CachedValue, new_value, with_ttl, is_expired, mark_accessed, update_ttl, persist_value,
}
use ved_db_server.Cache.Expiry.{get_expired_keys}
use ved_db_server.Cache.Eviction.{is_no_eviction}
use ved_db_server.Cache.Layer.{
  CacheConfig, CacheLayer, new, get, read, set_with_ttl, remove, expire, persist, clear,
  evict_expired, evict_by_policy, ensure_space, to_store, discount_old, store, forget_key,
  record_hit, record_miss, record_set,
}
use ved_db_server.Cache.Layer.Sizes.{
  discounted, Counts-insert, Counts-replace, IsSized, new-IsSized, drop_value-IsSized,
  drop_expired-IsSized, evict_victims-IsSized,
}

-- a call of the cache that changes it
pub data Call : Type 0 where
  getting : String → Call
  setting : String → CacheData → Option ℕ → Call
  removing : String → Call
  expiring : String → ℕ → Call
  persisting : String → Call
  clearing : Call
  evicting : ℕ → Call

unfoldable pub apply : Platform → ℕ → Call → CacheLayer → CacheLayer
apply p now (getting k) c = (get now c k).1
apply p now (setting k value seconds) c = (set_with_ttl p now c k value seconds).1
apply p now (removing k) c = (remove c k).1
apply p now (expiring k seconds) c = (expire p now c k seconds).1
apply p now (persisting k) c = (persist c k).1
apply p now clearing c = clear c
apply p now (evicting target) c = evict_by_policy p now target c

-- the calls one after the other, each at its time
unfoldable pub run : Platform → List (ℕ × Call) → CacheLayer → CacheLayer
run p [] c = c
run p ((now, call) ∷ calls) c = run p calls (apply p now call c)

pub evict_expired-IsSized : (now : ℕ) (c : CacheLayer) → IsSized c → IsSized (evict_expired now c)
unfolding evict_expired
evict_expired-IsSized now c sized =
    drop_expired-IsSized (get_expired_keys now c.ttl_manager).0
      (record c { ttl_manager = (get_expired_keys now c.ttl_manager).1 }) sized

remove-IsSized : (c : CacheLayer) (k : String) → IsSized c → IsSized (remove c k).1
unfolding remove forget_key
remove-IsSized c k sized = elim (Option-cases (lookup k c.cache)) [
  | inl absent ↦ rw (remove, absent) sized
  | inr (v, there) ↦ rw (remove, there) (drop_value-IsSized k v c there sized)
]

read-IsSized : (now : ℕ) (c : CacheLayer) (k : String) → IsSized c → IsSized (read now c k).1
unfolding read record_hit record_miss mark_accessed
read-IsSized now c k sized = elim (Option-cases (lookup k c.cache)) [
  | inl absent ↦ rw (read, absent) sized
  | inr (v, there) ↦ elim (Bool-cases (is_expired now v)) [
    | inl expired ↦ rw (read, there, expired) (remove-IsSized c k sized)
    | inr alive ↦
        rw (read, there, alive)
          (Counts-replace k v (mark_accessed now v) c.cache c.current_size there refl sized)
  ]
]

expire-IsSized :
    (p : Platform) (now : ℕ) (c : CacheLayer) (k : String) (seconds : ℕ)
    → IsSized c
    → IsSized (expire p now c k seconds).1
unfolding expire update_ttl
expire-IsSized p now c k seconds sized = elim (Option-cases (lookup k c.cache)) [
  | inl absent ↦ rw (expire, absent) sized
  | inr (v, there) ↦
      rw (expire, there)
        (Counts-replace k v (update_ttl p now v seconds) c.cache c.current_size there refl sized)
]

persist-IsSized : (c : CacheLayer) (k : String) → IsSized c → IsSized (persist c k).1
unfolding persist persist_value forget_key
persist-IsSized c k sized = elim (Option-cases (lookup k c.cache)) [
  | inl absent ↦ rw (persist, absent) sized
  | inr (v, there) ↦
      rw (persist, there)
        (Counts-replace k v (persist_value v) c.cache c.current_size there refl sized)
]

evict_by_policy-IsSized :
    (p : Platform) (now target : ℕ) (c : CacheLayer)
    → IsSized c
    → IsSized (evict_by_policy p now target c)
unfolding evict_by_policy
evict_by_policy-IsSized p now target c sized = evict_victims-IsSized target 0 _ c sized

pub ensure_space-IsSized :
    (p : Platform) (now required : ℕ) (c : CacheLayer)
    → IsSized c
    → IsSized (ensure_space p now required c).1
unfolding ensure_space
ensure_space-IsSized p now required c sized =
    elim (Bool-cases (leb (add64 c.current_size required) c.config.max_size_bytes)) [
      | inl fits ↦ rw (ensure_space, fits) sized
      | inr full ↦ elim (Bool-cases (is_no_eviction c.config.eviction_policy)) [
        | inl refused ↦ rw (ensure_space, full, refused) sized
        | inr evicts ↦ rw (ensure_space, full, evicts) (evict_by_policy-IsSized p now _ c sized)
      ]
    ]

pub discount_old_size :
    (k : String) (c : CacheLayer)
    → discount_old k c ≡ record c { current_size = discounted k c.cache c.current_size }
unfolding discount_old discounted
discount_old_size k c = elim (Option-cases (lookup k c.cache)) [
  | inl absent ↦ rw (discount_old, discounted, absent) refl
  | inr (v, there) ↦ rw (discount_old, discounted, there) refl
]

pub store-IsSized :
    (k : String) (v : CachedValue) (c : CacheLayer)
    → v.size_bytes < u64_mod
    → IsSized c
    → IsSized (store k v (discount_old k c))
unfolding store record_set
store-IsSized k v c bound sized =
    rw (discount_old_size k c) (Counts-insert k v c.cache c.current_size bound sized)

pub to_store_bound :
    (p : Platform) (now : ℕ) (c : CacheLayer) (k : String) (value : CacheData) (seconds : Option ℕ)
    → IsSized c
    → ((to_store p now c k value seconds).0.size_bytes < u64_mod)
      × IsSized (to_store p now c k value seconds).1
unfolding to_store new_value with_ttl
to_store_bound p now c k value none sized = (omega arith, sized)
to_store_bound p now c k value (some t) sized = (omega arith, sized)

set_with_ttl-IsSized :
    (p : Platform) (now : ℕ) (c : CacheLayer) (k : String) (value : CacheData) (seconds : Option ℕ)
    → IsSized c
    → IsSized (set_with_ttl p now c k value seconds).1
unfolding set_with_ttl
set_with_ttl-IsSized p now c k value seconds sized =
    let noted = to_store p now c k value seconds in
    let bound = to_store_bound p now c k value seconds sized in
    let spaced = ensure_space-IsSized p now noted.0.size_bytes noted.1 bound.1 in
    elim (Bool-cases (ensure_space p now noted.0.size_bytes noted.1).0) [
      | inl done ↦ rw (set_with_ttl, done) (store-IsSized k noted.0 _ bound.0 spaced)
      | inr failed ↦ rw (set_with_ttl, failed) spaced
    ]

apply-IsSized :
    (p : Platform) (now : ℕ) (call : Call) (c : CacheLayer)
    → IsSized c
    → IsSized (apply p now call c)
unfolding apply get clear
apply-IsSized p now (getting k) c sized =
    read-IsSized now (evict_expired now c) k (evict_expired-IsSized now c sized)
apply-IsSized p now (setting k value seconds) c sized =
    set_with_ttl-IsSized p now c k value seconds sized
apply-IsSized p now (removing k) c sized = remove-IsSized c k sized
apply-IsSized p now (expiring k seconds) c sized = expire-IsSized p now c k seconds sized
apply-IsSized p now (persisting k) c sized = persist-IsSized c k sized
apply-IsSized p now clearing c sized = new-IsSized c.config
apply-IsSized p now (evicting target) c sized = evict_by_policy-IsSized p now target c sized

-- After any calls, whatever they answer, the size that the cache counts is the sum of the sizes of the
-- values it stores, modulo 2^64, each key is stored once, and no stored value is as large as 2^64.
pub run-IsSized :
    (p : Platform) (calls : List (ℕ × Call)) (config : CacheConfig)
    → IsSized (run p calls (new config))
unfolding run
run-IsSized p calls config = go calls (new config) (new-IsSized config)
  where
    go : (cs : List (ℕ × Call)) (c : CacheLayer) → IsSized c → IsSized (run p cs c)
    go [] c sized = sized
    go ((now, call) ∷ cs) c sized = go cs (apply p now call c) (apply-IsSized p now call c sized)
