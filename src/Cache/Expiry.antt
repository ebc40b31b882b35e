-- ===== src/Cache/Expiry.antt =====
-- `TtlManager` of cache/ttl_manager.rs. Its heap is a list, and taking the earliest entry is a search
-- for it; of entries with the same time the first is taken.
pub mod Due
use ved_db_server.Prelude.{
  ℕ, zero, suc, Option, none, some, List, [], ◌∷◌, ltb, leb, if◌then◌else◌, length,
}
use Prim.Native.String.{String}
use ved_db_server.Prelude.Maps.{String-Eq}

pub record ExpirationEntry : Type 0 where
  pub key : String
  pub expires_at : ℕ

unfoldable pub add : String → ℕ → List ExpirationEntry → List ExpirationEntry
add key expires_at heap = record { key = key; expires_at = expires_at } ∷ heap

unfoldable pub remove : String → List ExpirationEntry → List ExpirationEntry
remove key [] = []
remove key (e ∷ es) =
    let rest = remove key es in if String-Eq.same e.key key then rest else e ∷ rest

unfoldable pub update : String → ℕ → List ExpirationEntry → List ExpirationEntry
update key expires_at heap = add key expires_at (remove key heap)

-- `pop`: the earliest entry after `e`, which is the earliest so far, and the others
unfoldable pub pop_after :
    ExpirationEntry → List ExpirationEntry → ExpirationEntry × List ExpirationEntry
pop_after e [] = (e, [])
pop_after e (x ∷ xs) =
    let keep = pop_after e xs in
    let change = pop_after x xs in
    if ltb x.expires_at e.expires_at then (change.0, e ∷ change.1) else (keep.0, x ∷ keep.1)

unfoldable pub pop_earliest : List ExpirationEntry → Option (ExpirationEntry × List ExpirationEntry)
pop_earliest [] = none
pop_earliest (e ∷ es) = some (pop_after e es)

-- the loop of `get_expired_keys`, with fuel: the keys and the heap that is left
unfoldable pub take_expired : ℕ → ℕ → List ExpirationEntry → List String × List ExpirationEntry
take_expired zero now heap = ([], heap)
take_expired (suc fuel) now heap = elim (pop_earliest heap) [
  | none ↦ ([], heap)
  | some (e, others) ↦
      let rest = take_expired fuel now others in
      if leb e.expires_at now then (e.key ∷ rest.0, rest.1) else ([], heap)
]

unfoldable pub get_expired_keys : ℕ → List ExpirationEntry → List String × List ExpirationEntry
get_expired_keys now heap = take_expired (length heap) now heap

unfoldable pub next_expiration : List ExpirationEntry → Option ℕ
next_expiration heap = elim (pop_earliest heap) [
  | none ↦ none
  | some (e, others) ↦ some e.expires_at
]
