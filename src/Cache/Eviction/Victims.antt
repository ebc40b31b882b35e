-- ===== src/Cache/Eviction/Victims.antt =====
-- Which keys `select_victims` of cache/eviction.rs selects.
use ved_db_server.Prelude.{
  ℕ, suc, ◌≡◌, refl, sym, ap, ◌∙◌, Bool, false, not, ◌||◌, List, [], ◌∷◌, arith, length, take,
}
use Prim.Native.String.{String}
use ved_db_server.Prelude.Maps.{Map, String-Eq, lookup}
use ved_db_server.Cache.{Platform}
use ved_db_server.Cache.Values.{CachedValue, insert_sorted, sort_by, is_none}
use ved_db_server.Cache.Eviction.{
  EvictionPolicy, is_no_eviction, scored, before, names, select_victims,
}

unfoldable pub mem : String → List String → Bool
mem k [] = false
mem k (x ∷ xs) = String-Eq.same x k || mem k xs

mem-insert_sorted :
    (less : ℕ → ℕ → Bool) (k : String) (x : String × ℕ) (xs : List (String × ℕ))
    → mem k (names (insert_sorted less x xs)) ≡ (String-Eq.same x.0 k || mem k (names xs))
unfolding mem names insert_sorted
mem-insert_sorted less k x [] = refl
mem-insert_sorted less k x (y ∷ ys) = ground (arith, mem-insert_sorted less k x ys)

mem-sort_by :
    (less : ℕ → ℕ → Bool) (k : String) (xs : List (String × ℕ))
    → mem k (names (sort_by less xs)) ≡ mem k (names xs)
unfolding mem names sort_by
mem-sort_by less k [] = refl
mem-sort_by less k (x ∷ xs) =
    ground (arith, mem-insert_sorted less k x (sort_by less xs), mem-sort_by less k xs)

length-insert_sorted :
    (less : ℕ → ℕ → Bool) (x : String × ℕ) (xs : List (String × ℕ))
    → length (insert_sorted less x xs) ≡ suc (length xs)
unfolding insert_sorted
length-insert_sorted less x [] = refl
length-insert_sorted less x (y ∷ ys) = ground (arith, length-insert_sorted less x ys)

length-sort_by :
    (less : ℕ → ℕ → Bool) (xs : List (String × ℕ)) → length (sort_by less xs) ≡ length xs
unfolding sort_by
length-sort_by less [] = refl
length-sort_by less (x ∷ xs) =
    ground (arith, length-insert_sorted less x (sort_by less xs), length-sort_by less xs)

module _ (p : Platform) (policy : EvictionPolicy) (now : ℕ) where
  length-scored : (m : Map String CachedValue) → length (scored p policy now m) ≡ length m
  unfolding scored
  length-scored [] = refl
  length-scored ((k, v) ∷ m) = ap suc (length-scored m)

  mem-scored :
      (k : String) (m : Map String CachedValue)
      → mem k (names (scored p policy now m)) ≡ not (is_none (lookup k m))
  unfolding scored names mem lookup is_none
  mem-scored k [] = refl
  mem-scored k ((j, v) ∷ m) = ground (arith, mem-scored k m)

  -- With as many victims as candidates, every key is a victim.
  pub mem-select_victims :
      (k : String) (m : Map String CachedValue)
      → is_no_eviction policy ≡ false
      → mem k (select_victims p policy now m (length m)) ≡ not (is_none (lookup k m))
  unfolding select_victims
  mem-select_victims k m evicts =
      let sorted = sort_by (before p policy) (scored p policy now m) in
      let all : take (length m) sorted ≡ sorted =
        ap (λ n. take n sorted)
          (sym (length-sort_by (before p policy) (scored p policy now m) ∙ length-scored m))
        ∙ take_all sorted in
      rw (select_victims, evicts, all, mem-sort_by (before p policy) k (scored p policy now m))
        (mem-scored k m)
    where
      take_all : (xs : List (String × ℕ)) → take (length xs) xs ≡ xs
      take_all [] = refl
      take_all (x ∷ xs) = ap (x ∷◌) (take_all xs)
