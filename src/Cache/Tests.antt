-- ===== src/Cache/Tests.antt =====
-- The cache at concrete inputs.
use ved_db_server.Prelude.{
  ℕ, ◌+◌, ◌-◌, ◌/◌, ◌%◌, ◌≤◌, ◌<◌, ◌≡◌, refl, true, false, ◌||◌, none, some, [], ◌∷◌, arith, ltb,
  leb, if◌then◌else◌,
}
use ved_db_server.Prelude.Bytes.{u64_mod, add64}
use ved_db_server.Prelude.Maps.{lookup, weight, String-Eq}
use ved_db_server.Prelude.Integers.{pos, negsuc}
use ved_db_server.Document.{string, size_bytes as value_size}
use ved_db_server.Cache.{Platform}
use ved_db_server.Cache.Lists.{CacheList, lrange, range, range_start, range_stop}
use ved_db_server.Cache.Values.{CacheData, plain, data_size, with_ttl, new_value}
use ved_db_server.Cache.Eviction.{lru, is_no_eviction}
use ved_db_server.Cache.Expiry.{add}
use ved_db_server.Cache.Expiry.Due.{due, is_due}
use ved_db_server.Cache.Layer.{
  CacheConfig, CacheLayer, new, get, set_with_ttl, to_store, ensure_space, discount_old, store,
  record_set,
}
use ved_db_server.Cache.Layer.Sizes.{IsSized, new-IsSized}
use ved_db_server.Cache.Layer.Calls.{getting, setting, run, run-IsSized}
use ved_db_server.Cache.Layer.Space.{total, set_with_ttl-fits}
use ved_db_server.Cache.Layer.Lifetimes.{lapsed, get-set_with_ttl}

-- times in seconds, and floats that are natural numbers
abbrev seconds : Platform
seconds = record {
  after = λ now n. now + n;
  num_seconds = λ later earlier. pos (later - earlier);
  float_of_int = λ i. elim i [ pos n ↦ n | negsuc n ↦ 0 ];
  float_of_nat = λ n. n;
  less = λ a b. ltb a b;
  greatest = u64_mod;
  overshoot = λ n. n + n / 5;
}

abbrev small : CacheConfig
small = record { max_size_bytes = 8; eviction_policy = lru; default_ttl = none }

abbrev name : CacheData
name = plain (string "ada")

abbrev fresh : CacheLayer
fresh = new small

-- A session that was to end at 10 was set again.
abbrev reused : CacheLayer
reused = (set_with_ttl seconds 0 fresh "k" name (some 10)).1

run-IsSized_example :
    IsSized (run seconds ((0, setting "k" name (some 10)) ∷ (11, getting "k") ∷ []) (new small))
run-IsSized_example =
    run-IsSized seconds ((0, setting "k" name (some 10)) ∷ (11, getting "k") ∷ []) small

enough : (n : ℕ) → n < u64_mod → n ≤ seconds.overshoot n
enough n small_number = omega arith

nothing_stored : total fresh + data_size name % u64_mod < u64_mod
unfolding total weight data_size value_size
nothing_stored = omega arith

name_fits : data_size name % u64_mod ≤ fresh.config.max_size_bytes
unfolding data_size value_size
name_fits = omega arith

set_with_ttl-fits_example :
    let r = set_with_ttl seconds 0 fresh "k" name (some 10) in
    (r.0 ≡ true) × (r.1.current_size ≤ fresh.config.max_size_bytes)
unfolding is_no_eviction
set_with_ttl-fits_example =
    set_with_ttl-fits seconds enough 0 fresh "k" name (some 10) (new-IsSized small) nothing_stored
      name_fits is_lru
  where
    is_lru : is_no_eviction fresh.config.eviction_policy ≡ false
    is_lru = refl

-- There is room for the value once more.
room_left :
    leb (add64 reused.current_size (data_size name % u64_mod)) reused.config.max_size_bytes ≡ true
unfolding data_size value_size set_with_ttl to_store ensure_space discount_old store record_set
    with_ttl new_value lookup
room_left = refl

get-set_with_ttl_example :
    (get 20 (set_with_ttl seconds 5 reused "k" name none).1 "k").0
    ≡ (if due 20 "k" reused.ttl_manager || lapsed seconds 5 20 none then none else some name)
get-set_with_ttl_example = get-set_with_ttl seconds 5 20 reused "k" name none room_left

-- The entry of the old value is due, so the new one is gone though it has no expiry.
old_entry_due : due 20 "k" reused.ttl_manager ≡ true
unfolding due is_due set_with_ttl to_store ensure_space discount_old store record_set add with_ttl
    new_value lookup data_size value_size String-Eq
old_entry_due = refl

abbrev letters : CacheList
letters = record { items = string "a" ∷ string "b" ∷ string "c" ∷ string "d" ∷ string "e" ∷ [] }

-- A range that is empty by its ends is a panic.
lrange_test : lrange letters (pos 3) (pos 1) ≡ none
unfolding lrange range range_start range_stop
lrange_test = refl

last_two : lrange letters (negsuc 1) (negsuc 0) ≡ some (string "d" ∷ string "e" ∷ [])
unfolding lrange range range_start range_stop
last_two = refl
