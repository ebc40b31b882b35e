-- ===== src/Cache/Expiry/Due.antt =====
-- Which keys `get_expired_keys` of cache/ttl_manager.rs takes.
use ved_db_server.Prelude.{
  ℕ, zero, suc, ◌≤◌, ◌<◌, ◌≡◌, refl, inl, inr, Bool, false, ◌&&◌, ◌||◌, List, [], ◌∷◌, arith, ltb,
  leb, Bool-cases, length,
}
use Prim.Native.String.{String}
use ved_db_server.Prelude.Maps.{String-Eq}
use ved_db_server.Cache.Eviction.Victims.{mem}
use ved_db_server.Cache.Expiry.{
  ExpirationEntry, pop_after, pop_earliest, take_expired, get_expired_keys,
}

-- the entry is of the key, and its time has come
unfoldable pub is_due : ℕ → String → ExpirationEntry → Bool
is_due now k e = String-Eq.same e.key k && leb e.expires_at now

-- Some entry of the key is due.
unfoldable pub due : ℕ → String → List ExpirationEntry → Bool
due now k [] = false
due now k (e ∷ es) = is_due now k e || due now k es

pop_after-length :
    (e : ExpirationEntry) (es : List ExpirationEntry) → length (pop_after e es).1 ≡ length es
unfolding pop_after
pop_after-length e [] = refl
pop_after-length e (x ∷ xs) = ground (arith, pop_after-length e xs, pop_after-length x xs)

pop_after-due :
    (now : ℕ) (k : String) (e : ExpirationEntry) (es : List ExpirationEntry)
    → (is_due now k (pop_after e es).0 || due now k (pop_after e es).1) ≡ due now k (e ∷ es)
unfolding pop_after due
pop_after-due now k e [] = refl
pop_after-due now k e (x ∷ xs) = ground (arith, pop_after-due now k e xs, pop_after-due now k x xs)

pop_after-least :
    (e : ExpirationEntry) (es : List ExpirationEntry) → (pop_after e es).0.expires_at ≤ e.expires_at
unfolding pop_after
pop_after-least e [] = omega arith
pop_after-least e (x ∷ xs) = ground (arith, pop_after-least e xs, pop_after-least x xs)

-- When the earliest entry is not due, none is.
pop_after-early :
    (now : ℕ) (k : String) (e : ExpirationEntry) (es : List ExpirationEntry)
    → now < (pop_after e es).0.expires_at
    → due now k (e ∷ es) ≡ false
unfolding pop_after due is_due
pop_after-early now k e [] early = ground arith
pop_after-early now k e (x ∷ xs) early = elim (Bool-cases (ltb x.expires_at e.expires_at)) [
  | inl change ↦ ground (arith, pop_after-early now k x xs, pop_after-least x xs)
  | inr keep ↦ ground (arith, pop_after-early now k e xs, pop_after-least e xs)
]

mem-take_expired :
    (fuel now : ℕ) (k : String) (heap : List ExpirationEntry)
    → length heap ≤ fuel
    → mem k (take_expired fuel now heap).0 ≡ due now k heap
unfolding take_expired mem due pop_earliest is_due
mem-take_expired zero now k [] few = refl
mem-take_expired zero now k (e ∷ es) few = absurd (omega (arith, few))
mem-take_expired (suc fuel) now k [] few = refl
mem-take_expired (suc fuel) now k (e ∷ es) few =
    let popped = pop_after e es in
    elim (Bool-cases (leb popped.0.expires_at now)) [
      | inl come ↦
          let rest =
            mem-take_expired fuel now k popped.1 (omega (arith, few, pop_after-length e es)) in
          ground (arith, come, rest, pop_after-due now k e es)
      | inr early ↦ ground (arith, early, pop_after-early now k e es)
    ]

-- The keys that are taken are those that are due: the search has fuel enough.
pub mem-get_expired_keys :
    (now : ℕ) (k : String) (heap : List ExpirationEntry)
    → mem k (get_expired_keys now heap).0 ≡ due now k heap
unfolding get_expired_keys
mem-get_expired_keys now k heap = mem-take_expired (length heap) now k heap (omega arith)
