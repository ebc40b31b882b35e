-- ===== src/Rotation/Keys.antt =====
-- `EncryptionKey` and `KeyManager` of encryption/key_manager.rs. The cipher of
-- encryption/document_encryption.rs, the source of random bytes and the success of each call of the
-- file system are the record `Platform`. Times are in seconds.
use ved_db_server.Prelude.{
  ℕ, suc, ◌-◌, ◌*◌, Bool, true, false, ◌&&◌, Option, none, some, List, [], ◌∷◌, ltb, if◌then◌else◌,
}
use Prim.Native.String.{String}
use ved_db_server.Prelude.Bytes.{add32}
use ved_db_server.Prelude.Maps.{Map, String-Eq, lookup, insert}

-- The key and the ciphertext of a draw of random bytes, where `none` is an error; and whether the n-th
-- writing of the key file succeeds, and the n-th reading and writing of the file of the rotation's state.
pub record Platform : Type 0 where
  pub generate_key : ℕ → List ℕ
  pub encrypt : ℕ → List ℕ → List ℕ → Option (List ℕ)
  pub decrypt : List ℕ → List ℕ → Option (List ℕ)
  pub writes_keys : ℕ → Bool
  pub reads_state : ℕ → Bool
  pub writes_state : ℕ → Bool

pub record EncryptionKey : Type 0 where
  pub id : String
  pub key : List ℕ
  pub created_at : ℕ
  pub last_rotated : ℕ
  pub active : Bool
  pub version : ℕ

-- the keys, how often random bytes were drawn, and how often the key file was to be written
pub record KeyManager : Type 0 where
  pub keys : Map String EncryptionKey
  pub draws : ℕ
  pub writes : ℕ

unfoldable pub new_key : Platform → ℕ → ℕ → String → EncryptionKey
new_key p now draw id = record {
  id = id;
  key = p.generate_key draw;
  created_at = now;
  last_rotated = now;
  active = true;
  version = 1;
}

unfoldable pub rotate : Platform → ℕ → ℕ → EncryptionKey → EncryptionKey
rotate p now draw k = record k {
  key = p.generate_key draw;
  last_rotated = now;
  version = add32 k.version 1;
}

unfoldable pub needs_rotation : ℕ → ℕ → EncryptionKey → Bool
needs_rotation now rotation_days k = ltb (rotation_days * 86400) (now - k.last_rotated)

unfoldable pub get_key : KeyManager → String → Option (List ℕ)
get_key m key_id = elim (lookup key_id m.keys) [
  | none ↦ none
  | some k ↦ if k.active then some k.key else none
]

unfoldable pub get_key_metadata : KeyManager → String → Option EncryptionKey
get_key_metadata m key_id = lookup key_id m.keys

-- the manager with a key put in, after one draw and a writing of the file
abbrev pub with_key : KeyManager → String → EncryptionKey → KeyManager
with_key m key_id k = record {
  keys = insert key_id k m.keys;
  draws = suc m.draws;
  writes = suc m.writes;
}

-- Each operation answers whether it succeeds, or what it returns, and the manager, which is changed even
-- if the file cannot be written.
unfoldable pub create_key : Platform → ℕ → KeyManager → String → Bool × KeyManager
create_key p now m key_id = elim (lookup key_id m.keys) [
  | none ↦ (p.writes_keys m.writes, with_key m key_id (new_key p now m.draws key_id))
  | some k ↦ (false, m)
]

-- the old key and its version, and the manager with the new one
unfoldable pub rotate_key_with_backup :
    Platform → ℕ → KeyManager → String → Option (List ℕ × ℕ) × KeyManager
rotate_key_with_backup p now m key_id = elim (lookup key_id m.keys) [
  | none ↦ (none, m)
  | some k ↦ (
    if p.writes_keys m.writes then some (k.key, k.version) else none,
    with_key m key_id (rotate p now m.draws k),
  )
]

unfoldable pub deactivate_key : Platform → KeyManager → String → Bool × KeyManager
deactivate_key p m key_id = elim (lookup key_id m.keys) [
  | none ↦ (false, m)
  | some k ↦ (
    p.writes_keys m.writes,
    record m { keys = insert key_id (record k { active = false }) m.keys; writes = suc m.writes },
  )
]

unfoldable pub needing : ℕ → ℕ → Map String EncryptionKey → List String
needing now rotation_days [] = []
needing now rotation_days ((key_id, k) ∷ ks) =
    let rest = needing now rotation_days ks in
    if k.active && needs_rotation now rotation_days k then k.id ∷ rest else rest

unfoldable pub get_keys_needing_rotation : ℕ → KeyManager → ℕ → List String
get_keys_needing_rotation now m rotation_days = needing now rotation_days m.keys

-- the loop of `rotate_expired_keys`
unfoldable pub rotate_all : Platform → ℕ → KeyManager → List String → Bool × KeyManager
rotate_all p now m [] = (true, m)
rotate_all p now m (key_id ∷ key_ids) =
    let rotated = rotate_key_with_backup p now m key_id in
    let rest = rotate_all p now rotated.1 key_ids in
    elim rotated.0 [ none ↦ (false, rotated.1) | some old ↦ rest ]

unfoldable pub rotate_expired_keys :
    Platform → ℕ → KeyManager → ℕ → Option (List String) × KeyManager
rotate_expired_keys p now m rotation_days =
    let keys_to_rotate = get_keys_needing_rotation now m rotation_days in
    let rotated = rotate_all p now m keys_to_rotate in
    (if rotated.0 then some keys_to_rotate else none, rotated.1)
