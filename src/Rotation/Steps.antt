-- ===== src/Rotation/Steps.antt =====
-- The steps of `rotate_key` of encryption/key_rotation.rs, when the files can be read and written.
use ved_db_server.Prelude.{
  ℕ, zero, suc, ◌≡◌, refl, true, none, some, List, [], ◌∷◌, arith, length, take, All,
}
use Prim.Native.String.{String}
use ved_db_server.Prelude.Bytes.{add32}
use ved_db_server.Prelude.Maps.{String-Eq, lookup, lookup-insert, same_refl}
use ved_db_server.Rotation.{KeyRotationState, re_encrypting, can_start_rotation}
use ved_db_server.Rotation.Keys.{
  Platform, EncryptionKey, KeyManager, rotate, get_key, get_key_metadata, rotate_key_with_backup,
  with_key,
}
use ved_db_server.Rotation.Storage.{EncryptedDocumentRef, EncryptedStorage, scan_all}
use ved_db_server.Rotation.Scheduler.{
  System, ReEncryptionContext, save_rotation_state, load_rotation_state, reencrypt_batch,
  rotate_for_context, begin_scanned, begin_rotation, put_status, started,
}

-- the context of the rotation of a key
abbrev pub context_of : Platform → KeyManager → EncryptionKey → String → ReEncryptionContext
context_of p m k key_id = record {
  key_id = key_id;
  old_key = k.key;
  old_version = k.version;
  new_key = p.generate_key m.draws;
  new_version = add32 k.version 1;
}

-- The key that a rotation puts in.
pub lookup-rotated :
    (p : Platform) (now : ℕ) (m : KeyManager) (key_id : String) (k : EncryptionKey)
    → lookup key_id (with_key m key_id (rotate p now m.draws k)).keys
      ≡ some (rotate p now m.draws k)
lookup-rotated p now m key_id k =
    ground (arith, lookup-insert key_id key_id (rotate p now m.draws k) m.keys, same_refl key_id)

rotate_for_context-rotated :
    (p : Platform) (now : ℕ) (m rotated : KeyManager) (key_id : String) (old : List ℕ) (version : ℕ)
    (k : EncryptionKey)
    → rotate_key_with_backup p now m key_id ≡ (some (old, version), rotated)
    → lookup key_id rotated.keys ≡ some k
    → k.active ≡ true
    → rotate_for_context p now m key_id ≡ (
      rotated,
      some (record {
        key_id = key_id;
        old_key = old;
        old_version = version;
        new_key = k.key;
        new_version = k.version;
      }),
    )
unfolding rotate_for_context get_key get_key_metadata
rotate_for_context-rotated p now m rotated key_id old version k e found active =
    rw (rotate_for_context, e, get_key, e, found, active, get_key_metadata, e, found, e) refl

pub rotate_for_context-active :
    (p : Platform) (now : ℕ) (m : KeyManager) (key_id : String) (k : EncryptionKey)
    → p.writes_keys m.writes ≡ true
    → lookup key_id m.keys ≡ some k
    → k.active ≡ true
    → rotate_for_context p now m key_id
      ≡ (with_key m key_id (rotate p now m.draws k), some (context_of p m k key_id))
unfolding rotate rotate_key_with_backup
rotate_for_context-active p now m key_id k writes there active =
    rotate_for_context-rotated p now m (with_key m key_id (rotate p now m.draws k)) key_id k.key
      k.version (rotate p now m.draws k) (rw (rotate_key_with_backup, there, writes) refl)
      (lookup-rotated p now m key_id k) active

pub All-take {ℓ κ} :
    {A : Type ℓ} (P : A → Type κ) (n : ℕ) (xs : List A) → All P xs → All P (take n xs)
All-take P zero xs h = tt
All-take P (suc n) [] h = tt
All-take P (suc n) (x ∷ xs) h = (h.0, All-take P n xs h.1)

-- The old key of the context does not decrypt the document.
abbrev pub IsUnreadable : Platform → ReEncryptionContext → EncryptedDocumentRef → Type 0
IsUnreadable p context d = p.decrypt d.encrypted_data context.old_key ≡ none

pub reencrypt_batch-skips :
    {S : Type 0} (p : Platform) (e : EncryptedStorage S) (context : ReEncryptionContext)
    (ds : List EncryptedDocumentRef) (s : System S)
    → All (IsUnreadable p context) ds
    → reencrypt_batch p e context ds s ≡ (true, 0, s)
unfolding reencrypt_batch
reencrypt_batch-skips p e context [] s unreadable = refl
reencrypt_batch-skips p e context (d ∷ ds) s (here, there) =
    rw (reencrypt_batch, here) (reencrypt_batch-skips p e context ds s there)

-- the system when the documents are about to be encrypted again
abbrev pub begun :
    {S : Type 0}
    → Platform
    → ℕ
    → System S
    → String
    → EncryptionKey
    → List EncryptedDocumentRef
    → System S
begun p now s key_id k docs =
    put_status key_id (record (started now key_id) { total_records = length docs })
      (record (put_status key_id (started now key_id) s) {
        file_calls = suc (suc s.file_calls);
        manager = with_key s.manager key_id (rotate p now s.manager.draws k);
        saved = re_encrypting key_id now 0 (length docs) none;
      })

-- On a platform whose files can be read and written.
module _ {S : Type 0} (p : Platform) (e : EncryptedStorage S)
    (reads : (n : ℕ) → p.reads_state n ≡ true) (writes : (n : ℕ) → p.writes_state n ≡ true)
    (writes_keys : (n : ℕ) → p.writes_keys n ≡ true) where
  pub saved-save_rotation_state :
      (state : KeyRotationState) (s : System S)
      → save_rotation_state p e state s
        ≡ (true, record s { saved = state; file_calls = suc s.file_calls })
  unfolding save_rotation_state
  saved-save_rotation_state state s = rw (save_rotation_state, writes s.file_calls) refl

  pub loaded-load_rotation_state :
      (s : System S)
      → load_rotation_state p e s ≡ (some s.saved, record s { file_calls = suc s.file_calls })
  unfolding load_rotation_state
  loaded-load_rotation_state s = rw (load_rotation_state, reads s.file_calls) refl

  begin_scanned-saved :
      (now : ℕ) (s : System S) (key_id : String) (context : ReEncryptionContext)
      (docs : List EncryptedDocumentRef)
      → scan_all e s.storage key_id ≡ some docs
      → let t : System S =
          put_status key_id (record (started now key_id) { total_records = length docs }) s in
        begin_scanned p e now s key_id context ≡ (
          record t {
            saved = re_encrypting key_id now 0 (length docs) none;
            file_calls = suc t.file_calls;
          },
          some (context, docs),
        )
  unfolding begin_scanned
  begin_scanned-saved now s key_id context docs scanned =
      let state = re_encrypting key_id now 0 (length docs) none in
      let t : System S =
        put_status key_id (record (started now key_id) { total_records = length docs }) s in
      rw (begin_scanned, scanned, saved-save_rotation_state state t) refl

  pub begin_rotation-begun :
      (now : ℕ) (s : System S) (key_id : String) (k : EncryptionKey)
      (docs : List EncryptedDocumentRef)
      → can_start_rotation s.saved ≡ true
      → lookup key_id s.manager.keys ≡ some k
      → k.active ≡ true
      → scan_all e s.storage key_id ≡ some docs
      → begin_rotation p e now s key_id
        ≡ (begun p now s key_id k docs, some (context_of p s.manager k key_id, docs))
  unfolding begin_rotation
  begin_rotation-begun now s key_id k docs start there active scanned =
      let rotated =
        rotate_for_context-active p now s.manager key_id k (writes_keys s.manager.writes) there
          active in
      let loaded = loaded-load_rotation_state s in
      let keyed : System S = record (put_status key_id (started now key_id) s) {
        manager = with_key s.manager key_id (rotate p now s.manager.draws k);
        file_calls = suc s.file_calls;
      } in
      rw (begin_rotation, loaded, start, rotated, loaded, rotated)
        (begin_scanned-saved now keyed key_id (context_of p s.manager k key_id) docs scanned)
