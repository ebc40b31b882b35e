-- ===== src/Rotation/Recovery.antt =====
-- A crash during `rotate_key` of encryption/key_rotation.rs, and the resumption after it.
use ved_db_server.Prelude.{
  ℕ, zero, suc, ◌≡◌, refl, ap, ◌∙◌, true, false, none, some, List, [], ◌∷◌, ◌==◌, length, take,
  drop, All, All-drop,
}
use Prim.Native.String.{String}
use ved_db_server.Prelude.Maps.{String-Eq, lookup}
use ved_db_server.Rotation.{re_encrypting, completed, can_start_rotation}
use ved_db_server.Rotation.Keys.{Platform, EncryptionKey, rotate, get_key, with_key}
use ved_db_server.Rotation.Storage.{
  EncryptedDocumentRef, EncryptedStorage, scan_all, chunks, from_checkpoint, last_of,
}
use ved_db_server.Rotation.Scheduler.{
  System, ReEncryptionContext, finished, begin_rotation, resume_batches, resume_scanned,
  resume_from_checkpoint, resume_loaded, resume_rotation,
}
use ved_db_server.Rotation.Steps.{
  context_of, lookup-rotated, rotate_for_context-active, All-take, saved-save_rotation_state,
  loaded-load_rotation_state, IsUnreadable, reencrypt_batch-skips, begun, begin_rotation-begun,
}

-- On a platform whose files can be read and written.
module _ {S : Type 0} (p : Platform) (e : EncryptedStorage S)
    (reads : (n : ℕ) → p.reads_state n ≡ true) (writes : (n : ℕ) → p.writes_state n ≡ true)
    (writes_keys : (n : ℕ) → p.writes_keys n ≡ true) where
  module _ (context : ReEncryptionContext) where
    -- Batches of such documents change nothing but the saved state.
    resume_batches-skips :
        (now total fuel size : ℕ) (ds : List EncryptedDocumentRef) (s : System S)
        → All (IsUnreadable p context) ds
        → let r = resume_batches p e context now total (chunks fuel size ds) 0 s in
          (r.0 ≡ true) × (r.1 ≡ 0) × (r.2.storage ≡ s.storage) × (r.2.manager ≡ s.manager)
    unfolding resume_batches chunks
    resume_batches-skips now total zero size ds s unreadable = (refl, refl, refl, refl)
    resume_batches-skips now total (suc fuel) size [] s unreadable = (refl, refl, refl, refl)
    resume_batches-skips now total (suc fuel) size (d ∷ ds) s unreadable =
        let batch = take size (d ∷ ds) in
        let skipped =
          reencrypt_batch-skips p e context batch s
            (All-take (IsUnreadable p context) size (d ∷ ds) unreadable) in
        let state = re_encrypting context.key_id now 0 total (last_of batch) in
        rw (skipped, saved-save_rotation_state p e reads writes writes_keys state s)
          (resume_batches-skips now total fuel size (drop size (d ∷ ds))
            (record s { saved = state; file_calls = suc s.file_calls })
            (All-drop (IsUnreadable p context) size (d ∷ ds) unreadable))

    resume_scanned-skips :
        (now total : ℕ) (s : System S) (docs : List EncryptedDocumentRef)
        → (s.batch_size == 0) ≡ false
        → All (IsUnreadable p context) docs
        → let r = resume_scanned p e now s context docs 0 total in
          (r.0 ≡ finished)
          × (r.1.saved ≡ completed context.key_id now 0)
          × (r.1.storage ≡ s.storage)
          × (r.1.manager ≡ s.manager)
    unfolding resume_scanned
    resume_scanned-skips now total s docs sized unreadable =
        let batches = chunks (length docs) s.batch_size docs in
        let (all_done, count, same_storage, same_manager) =
          resume_batches-skips now total (length docs) s.batch_size docs s unreadable in
        let result = resume_batches p e context now total batches 0 s in
        rw
          (
            resume_scanned,
            sized,
            all_done,
            saved-save_rotation_state p e reads writes writes_keys
                (completed context.key_id now result.1) result.2,
          )
          (refl, ap (completed context.key_id now) count, same_storage, same_manager)

  -- A resumption from the start, when the key that is current decrypts no document.
  resume_from_checkpoint-skips :
      (now total : ℕ) (s : System S) (key_id : String) (k : EncryptionKey)
      (docs : List EncryptedDocumentRef)
      → lookup key_id s.manager.keys ≡ some k
      → k.active ≡ true
      → (s.batch_size == 0) ≡ false
      → scan_all e s.storage key_id ≡ some docs
      → All (λ d. p.decrypt d.encrypted_data k.key ≡ none) docs
      → let r = resume_from_checkpoint p e now s key_id none 0 total in
        (r.0 ≡ finished)
        × (r.1.saved ≡ completed key_id now 0)
        × (r.1.storage ≡ s.storage)
        × (get_key r.1.manager key_id ≡ some (p.generate_key s.manager.draws))
  unfolding resume_from_checkpoint from_checkpoint get_key rotate
  resume_from_checkpoint-skips now total s key_id k docs there active sized scanned unreadable =
      let m = with_key s.manager key_id (rotate p now s.manager.draws k) in
      let keyed : System S = record s { manager = m } in
      let (ended, saved, kept, same) =
        resume_scanned-skips (context_of p s.manager k key_id) now total keyed docs sized
          unreadable in
      let current : get_key m key_id ≡ some (p.generate_key s.manager.draws) =
        rw (get_key, lookup-rotated p now s.manager key_id k, active) refl in
      let rotated =
        rotate_for_context-active p now s.manager key_id k (writes_keys s.manager.writes) there
          active in
      rw (resume_from_checkpoint, rotated, scanned, rotated)
        (ended, saved, kept, ap (λ x. get_key x key_id) same ∙ current)

  -- If the scheduler stops in rotate_key once it has saved that documents are being encrypted again,
  -- then resume_rotation rotates the key a second time: if the files and the storage can be read and
  -- the files written, the key of the first rotation decrypts none of the documents that a scan finds
  -- (they are under the key before), the key is active, a rotation could start and the batch size is not
  -- 0, then resume_rotation ends without an error and records that the rotation is completed with 0
  -- documents, the storage is as it was, and the key in use is a third one.
  pub resume_rotation-forgets :
      (now later : ℕ) (s : System S) (key_id : String) (k : EncryptionKey)
      (docs : List EncryptedDocumentRef)
      → can_start_rotation s.saved ≡ true
      → lookup key_id s.manager.keys ≡ some k
      → k.active ≡ true
      → (s.batch_size == 0) ≡ false
      → scan_all e s.storage key_id ≡ some docs
      → All (λ d. p.decrypt d.encrypted_data (p.generate_key s.manager.draws) ≡ none) docs
      → let r = resume_rotation p e later (begin_rotation p e now s key_id).0 in
        (r.0 ≡ finished)
        × (r.1.saved ≡ completed key_id later 0)
        × (r.1.storage ≡ s.storage)
        × (get_key r.1.manager key_id ≡ some (p.generate_key (suc s.manager.draws)))
  unfolding resume_rotation resume_loaded rotate
  resume_rotation-forgets now later s key_id k docs start there active sized scanned unreadable =
      let stopped = begun p now s key_id k docs in
      rw
        (
          begin_rotation-begun p e reads writes writes_keys now s key_id k docs start there active
              scanned,
          resume_rotation,
          loaded-load_rotation_state p e reads writes writes_keys stopped,
        )
        (resume_from_checkpoint-skips later (length docs)
          (record stopped { file_calls = suc stopped.file_calls }) key_id
          (rotate p now s.manager.draws k) docs (lookup-rotated p now s.manager key_id k) active
          sized scanned unreadable)
