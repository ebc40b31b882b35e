-- ===== src/Cache/Layer/Lifetimes.antt =====
-- Which values `get` of cache/cache_layer.rs finds.
use ved_db_server.Prelude.{
  ℕ, ◌%◌, ◌≡◌, refl, ap, ◌∙◌, inl, inr, Bool, true, false, ◌||◌, Option, none, some, List, [], ◌∷◌,
  arith, leb, if◌then◌else◌, Option-cases,
}
use Prim.Native.String.{String}
use ved_db_server.Prelude.Maps.{String-Eq, lookup, lookup-erase, lookup-insert, same_refl}
use ved_db_server.Prelude.Bytes.{u64_mod, add64}
use ved_db_server.Cache.{Platform}
use ved_db_server.Cache.Values.{CacheData, CachedValue, new_value, with_ttl, is_expired, data_size}
use ved_db_server.Cache.Expiry.{add, get_expired_keys}
use ved_db_server.Cache.Expiry.Due.{is_due, due, mem-get_expired_keys}
use ved_db_server.Cache.Eviction.Victims.{mem}
use ved_db_server.Cache.Layer.{
  CacheLayer, get, read, set_with_ttl, evict_expired, drop_expired, drop_value, ensure_space,
  to_store, store, count_eviction, record_set,
}
use ved_db_server.Cache.Layer.Calls.{discount_old_size}

-- what a lookup finds in the list of those keys that are not to be dropped
abbrev kept : Bool → Option CachedValue → Option CachedValue
kept dropped found = if dropped then none else found

lookup-drop_expired :
    (keys : List String) (c : CacheLayer) (k : String)
    → lookup k (drop_expired keys c).cache ≡ kept (mem k keys) (lookup k c.cache)
unfolding drop_expired mem drop_value count_eviction
lookup-drop_expired [] c k = refl
lookup-drop_expired (x ∷ xs) c k = elim (Option-cases (lookup x c.cache)) [
  | inl absent ↦
      rw (drop_expired, absent)
        (lookup-drop_expired xs c k ∙ ground (arith, String-Eq.same_iff x k))
  | inr (v, there) ↦
      rw (drop_expired, there)
        (lookup-drop_expired xs (count_eviction v.size_bytes true (drop_value x v c)) k
          ∙ ground (arith, lookup-erase x k c.cache))
]

-- what `get` answers for a value that it looks up
unfoldable pub answer : ℕ → Option CachedValue → Option CacheData
answer now none = none
answer now (some v) = if is_expired now v then none else some v.value

read-answer :
    (now : ℕ) (c : CacheLayer) (k : String) → (read now c k).0 ≡ answer now (lookup k c.cache)
unfolding read answer
read-answer now c k = elim (Option-cases (lookup k c.cache)) [
  | inl absent ↦ rw (read, absent) refl
  | inr (v, there) ↦ rw (read, there) (ground arith)
]

-- A call of get answers the value stored under the key, unless an entry of the key in the heap is due
-- or the value itself has expired; then, as for a key without a value, it answers none.
pub get-due :
    (now : ℕ) (c : CacheLayer) (k : String)
    → (get now c k).0 ≡ (if due now k c.ttl_manager then none else answer now (lookup k c.cache))
unfolding get evict_expired answer
get-due now c k =
    read-answer now (evict_expired now c) k
    ∙ ap (answer now) (
        lookup-drop_expired (get_expired_keys now c.ttl_manager).0
          (record c { ttl_manager = (get_expired_keys now c.ttl_manager).1 }) k)
    ∙ rw (mem-get_expired_keys now k c.ttl_manager) (ground arith)

-- The value that a call of `set_with_ttl` stores, and the heap afterwards, when there is room.
set_with_ttl-room :
    (p : Platform) (now : ℕ) (c : CacheLayer) (k : String) (value : CacheData) (seconds : Option ℕ)
    → leb (add64 c.current_size (data_size value % u64_mod)) c.config.max_size_bytes ≡ true
    → let after = (set_with_ttl p now c k value seconds).1 in
      (after.ttl_manager ≡ (to_store p now c k value seconds).1.ttl_manager)
      × (lookup k after.cache ≡ some (to_store p now c k value seconds).0)
unfolding set_with_ttl ensure_space to_store new_value with_ttl store record_set
set_with_ttl-room p now c k value none room =
    rw (room, discount_old_size k c)
      (refl, rw (lookup-insert k k (new_value now value) c.cache, same_refl k) refl)
set_with_ttl-room p now c k value (some seconds) room =
    rw
      (
        room,
        discount_old_size k (record c { ttl_manager = add k (p.after now seconds) c.ttl_manager }),
      )
      (refl, rw (lookup-insert k k (with_ttl p now value seconds) c.cache, same_refl k) refl)

-- The expiry that a value is stored with has come.
unfoldable pub lapsed : Platform → ℕ → ℕ → Option ℕ → Bool
lapsed p now later none = false
lapsed p now later (some seconds) = leb (p.after now seconds) later

-- When there is room, a value that was set is what get answers later, unless its own expiry has come
-- or an entry of the key was in the heap before and that one is due: an earlier value's expiry ends
-- the new value too, even one that was set without an expiry.
pub get-set_with_ttl :
    (p : Platform) (now later : ℕ) (c : CacheLayer) (k : String) (value : CacheData)
    (seconds : Option ℕ)
    → leb (add64 c.current_size (data_size value % u64_mod)) c.config.max_size_bytes ≡ true
    → (get later (set_with_ttl p now c k value seconds).1 k).0
      ≡ (if due later k c.ttl_manager || lapsed p now later seconds then none else some value)
unfolding answer lapsed to_store new_value with_ttl is_expired due is_due add
get-set_with_ttl p now later c k value none room =
    let shape = set_with_ttl-room p now c k value none room in
    get-due later (set_with_ttl p now c k value none).1 k ∙ rw (shape.0, shape.1) (ground arith)
get-set_with_ttl p now later c k value (some seconds) room =
    let shape = set_with_ttl-room p now c k value (some seconds) room in
    get-due later (set_with_ttl p now c k value (some seconds)).1 k
    ∙ rw (shape.0, shape.1, same_refl k) (ground arith)
