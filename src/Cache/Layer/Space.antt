-- ===== src/Cache/Layer/Space.antt =====
-- That `ensure_space` of cache/cache_layer.rs frees enough.
use ved_db_server.Prelude.{
  ℕ, ◌+◌, ◌%◌, ◌≤◌, ◌<◌, ◌≡◌, refl, sym, ap, subst, ◌∙◌, ◌⊎◌, inl, inr, true, false, Option, none,
  some, List, [], ◌∷◌, arith, leb, leb→le, Bool-cases, Option-cases, length,
}
use Prim.Native.String.{String}
use ved_db_server.Prelude.Maps.{
  Map, String-Eq, lookup, insert, erase, weight, weight_of, weight-insert, weight-erase,
  lookup-erase, same_refl,
}
use ved_db_server.Prelude.Bytes.{u64_mod, add64, sub64}
use ved_db_server.Cache.{Platform}
use ved_db_server.Cache.Values.{CacheData, CachedValue, new_value, with_ttl, data_size, is_none}
use ved_db_server.Cache.Eviction.{select_victims, is_no_eviction}
use ved_db_server.Cache.Eviction.Victims.{mem, mem-select_victims}
use ved_db_server.Cache.Layer.{
  CacheConfig, CacheLayer, set_with_ttl, evict_by_policy, drop_value, evict_victims, ensure_space,
  to_store, discount_old, store, count_eviction, forget_key, record_set,
}
use ved_db_server.Cache.Layer.Calls.{
  store-IsSized, to_store_bound, discount_old_size, ensure_space-IsSized,
}
use ved_db_server.Cache.Layer.Sizes.{stored_size, IsSized, drop_value-IsSized}

-- the bytes of the stored values
unfoldable pub total : CacheLayer → ℕ
total c = weight stored_size c.cache

-- the cache without a victim
abbrev without : String → CachedValue → CacheLayer → CacheLayer
without k v c = count_eviction v.size_bytes false (forget_key k (drop_value k v c))

total-without :
    (k : String) (v : CachedValue) (c : CacheLayer)
    → lookup k c.cache ≡ some v
    → IsSized c
    → total (without k v c) + v.size_bytes ≡ total c
unfolding total drop_value count_eviction forget_key weight_of
total-without k v c there (d, counted, small) =
    ap (λ o. weight stored_size (erase k c.cache) + weight_of stored_size o) (sym there)
    ∙ weight-erase stored_size k c.cache d

-- A key that is absent stays so.
evict_victims-absent :
    (target evicted : ℕ) (keys : List String) (c : CacheLayer) (k : String)
    → lookup k c.cache ≡ none
    → lookup k (evict_victims target evicted keys c).cache ≡ none
unfolding evict_victims drop_value count_eviction forget_key
evict_victims-absent target evicted [] c k absent = absent
evict_victims-absent target evicted (x ∷ xs) c k absent = elim (Bool-cases (leb target evicted)) [
  | inl enough ↦ rw (evict_victims, enough) absent
  | inr more ↦ elim (Option-cases (lookup x c.cache)) [
    | inl missing ↦
        rw (evict_victims, more, missing) (evict_victims-absent target evicted xs c k absent)
    | inr (v, there) ↦
        rw (evict_victims, more, there)
          (evict_victims-absent target (add64 evicted v.size_bytes) xs (without x v c) k
            (ground (arith, lookup-erase x k c.cache)))
  ]
]

-- The loop frees what it was asked for or leaves no victim.
evict_victims-frees :
    (target evicted : ℕ) (keys : List String) (c : CacheLayer)
    → IsSized c
    → evicted + total c < u64_mod
    → let after = evict_victims target evicted keys c in
      (total after ≤ total c)
      × ((target + total after ≤ evicted + total c)
          ⊎ ((k : String) → mem k keys ≡ true → lookup k after.cache ≡ none))
unfolding evict_victims mem drop_value count_eviction forget_key
evict_victims-frees target evicted [] c sized fits =
    (omega arith, inr (λ k e. absurd (ground arith)))
evict_victims-frees target evicted (x ∷ xs) c sized fits = elim (Bool-cases (leb target evicted)) [
  | inl enough ↦
      rw (evict_victims, enough) (omega arith, inl (omega (arith, leb→le target evicted enough)))
  | inr more ↦ elim (Option-cases (lookup x c.cache)) [
    | inl missing ↦
        let rest = evict_victims-frees target evicted xs c sized fits in
        rw (evict_victims, more, missing) (rest.0, keep x xs c evicted missing (λ a. a) rest.1)
    | inr (v, there) ↦
        let freed = total-without x v c there sized in
        let added : add64 evicted v.size_bytes ≡ evicted + v.size_bytes =
          omega (arith, freed, fits) in
        let rest =
          evict_victims-frees target (add64 evicted v.size_bytes) xs (without x v c)
            (drop_value-IsSized x v c there sized) (omega (arith, freed, fits, added)) in
        let missing : lookup x (without x v c).cache ≡ none =
          ground (arith, lookup-erase x x c.cache, same_refl x) in
        rw (evict_victims, more, there)
          (
            omega (arith, rest.0, freed),
            keep x xs (without x v c) (add64 evicted v.size_bytes) missing
                (λ enough. omega (arith, enough, freed, added)) rest.1,
          )
  ]
]
  where
    keep :
        (x : String) (xs : List String) (c : CacheLayer) (n : ℕ)
        → lookup x c.cache ≡ none
        → {A B : Type 0} → (A → B)
        → A ⊎ ((k : String) → mem k xs ≡ true → lookup k (evict_victims target n xs c).cache ≡ none)
        → B
          ⊎ ((k : String)
              → mem k (x ∷ xs) ≡ true
              → lookup k (evict_victims target n xs c).cache ≡ none)
    keep x xs c n missing f (inl a) = inl (f a)
    keep x xs c n missing f (inr gone) = inr (λ k e. elim (Bool-cases (String-Eq.same x k)) [
      | inl same ↦
          evict_victims-absent target n xs c k
            (subst (λ i. lookup i c.cache ≡ none) ((String-Eq.same_iff x k).0 same) missing)
      | inr other ↦ gone k (ground arith)
    ])

no_keys :
    (m : Map String CachedValue) → ((k : String) → lookup k m ≡ none) → weight stored_size m ≡ 0
unfolding weight lookup
no_keys [] empty = refl
no_keys ((k, v) ∷ m) empty = absurd (ground (arith, empty k, same_refl k))

-- A policy that evicts leaves room for what was asked for, or nothing at all.
evict_by_policy-frees :
    (p : Platform) (now target : ℕ) (c : CacheLayer)
    → IsSized c
    → total c < u64_mod
    → is_no_eviction c.config.eviction_policy ≡ false
    → let after = evict_by_policy p now target c in
      (total after ≤ total c) × ((target + total after ≤ total c) ⊎ (total after ≡ 0))
unfolding evict_by_policy total is_none
evict_by_policy-frees p now target c sized fits evicts =
    let victims = select_victims p c.config.eviction_policy now c.cache (length c.cache) in
    let freed = evict_victims-frees target 0 victims c sized (omega (arith, fits)) in
    (
      freed.0,
      elim freed.1 [
        | inl enough ↦ inl (omega (arith, enough))
        | inr gone ↦ inr (
            no_keys (evict_victims target 0 victims c).cache (λ k.
              elim (Option-cases (lookup k c.cache)) [
                | inl absent ↦ evict_victims-absent target 0 victims c k absent
                | inr (v, there) ↦ gone k (
                    ground (
                      arith,
                      mem-select_victims p c.config.eviction_policy now k c.cache evicts,
                      there,
                    ))
              ]))
      ],
    )

-- Storing adds at most the size of the value.
store-fits :
    (k : String) (v : CachedValue) (c : CacheLayer) (limit : ℕ)
    → v.size_bytes < u64_mod
    → IsSized c
    → total c + v.size_bytes ≤ limit
    → (store k v (discount_old k c)).current_size ≤ limit
unfolding store record_set total
store-fits k v c limit bound sized room =
    omega (arith, counted, room, weight-insert stored_size k v c.cache)
  where
    counted :
        (store k v (discount_old k c)).current_size
        ≡ weight stored_size (insert k v c.cache) % u64_mod
    counted =
        (store-IsSized k v c bound sized).1
        ∙ ap (λ (x : CacheLayer). weight stored_size (insert k v x.cache) % u64_mod)
            (discount_old_size k c)

-- Noting the expiry changes neither the stored values nor the configuration.
to_store_same :
    (p : Platform) (now : ℕ) (c : CacheLayer) (k : String) (value : CacheData) (seconds : Option ℕ)
    → ((to_store p now c k value seconds).0.size_bytes ≡ data_size value % u64_mod)
      × (total (to_store p now c k value seconds).1 ≡ total c)
      × ((to_store p now c k value seconds).1.config ≡ c.config)
unfolding to_store new_value with_ttl total
to_store_same p now c k value none = (refl, refl, refl)
to_store_same p now c k value (some t) = (refl, refl, refl)

module _ (p : Platform) (enough : (n : ℕ) → n < u64_mod → n ≤ p.overshoot n) where
  ensure_space-room :
      (now required : ℕ) (c : CacheLayer)
      → IsSized c
      → total c + required < u64_mod
      → required ≤ c.config.max_size_bytes
      → is_no_eviction c.config.eviction_policy ≡ false
      → let r = ensure_space p now required c in
        (r.0 ≡ true) × (total r.1 + required ≤ c.config.max_size_bytes)
  unfolding ensure_space total
  ensure_space-room now required c sized fits small evicts =
      let counted : add64 c.current_size required ≡ total c + required =
        omega (arith, sized.1, fits) in
      let need = sub64 (add64 c.current_size required) c.config.max_size_bytes in
      elim (Bool-cases (leb (add64 c.current_size required) c.config.max_size_bytes)) [
        | inl room ↦ rw (ensure_space, room) (refl, omega (arith, counted, leb→le _ _ room))
        | inr full ↦
            let asked : need ≤ p.overshoot need = enough need (omega arith) in
            let freed =
              evict_by_policy-frees p now (p.overshoot need) c sized (omega (arith, fits)) evicts in
            rw (ensure_space, full, evicts)
              (refl, omega (arith, freed, asked, counted, sized.1, fits, small))
      ]

  -- If the counted size is right, which it is after any calls, the policy evicts, the value is not
  -- larger than the limit and the sizes stay below 2^64, then the call succeeds and the counted size
  -- is within the limit afterwards, however large it was; the conversion to a float and back must
  -- not make the bytes to evict fewer.
  pub set_with_ttl-fits :
      (now : ℕ) (c : CacheLayer) (k : String) (value : CacheData) (seconds : Option ℕ)
      → IsSized c
      → total c + data_size value % u64_mod < u64_mod
      → data_size value % u64_mod ≤ c.config.max_size_bytes
      → is_no_eviction c.config.eviction_policy ≡ false
      → let r = set_with_ttl p now c k value seconds in
        (r.0 ≡ true) × (r.1.current_size ≤ c.config.max_size_bytes)
  unfolding set_with_ttl
  set_with_ttl-fits now c k value seconds sized fits small evicts =
      let noted = to_store p now c k value seconds in
      let bound = to_store_bound p now c k value seconds sized in
      let same = to_store_same p now c k value seconds in
      let spaced =
        ensure_space-room now noted.0.size_bytes noted.1 bound.1 (omega (arith, same, fits))
          (subst (λ (f : CacheConfig). noted.0.size_bytes ≤ f.max_size_bytes) (sym same.2)
            (omega (arith, same, small)))
          (ap (λ (f : CacheConfig). is_no_eviction f.eviction_policy) same.2 ∙ evicts) in
      rw (set_with_ttl, spaced.0)
        (
          refl,
          store-fits k noted.0 _ c.config.max_size_bytes bound.0
              (ensure_space-IsSized p now noted.0.size_bytes noted.1 bound.1)
              (subst
                (λ (f : CacheConfig).
                  total (ensure_space p now noted.0.size_bytes noted.1).1 + noted.0.size_bytes
                  ≤ f.max_size_bytes)
                same.2 spaced.1),
        )
