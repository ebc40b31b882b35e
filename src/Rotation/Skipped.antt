-- ===== src/Rotation/Skipped.antt =====
-- A rotation by `rotate_key` of encryption/key_rotation.rs when no document decrypts.
use ved_db_server.Prelude.{
  ℕ, zero, suc, ◌≡◌, refl, ap, ◌∙◌, true, false, none, some, List, [], ◌∷◌, arith, ◌==◌, length,
  take, drop, All, All-drop,
}
use Prim.Native.String.{String}
use ved_db_server.Prelude.Maps.{String-Eq, lookup, lookup-insert, same_refl}
use ved_db_server.Rotation.{completed, can_start_rotation}
use ved_db_server.Rotation.Keys.{Platform, EncryptionKey, rotate, get_key}
use ved_db_server.Rotation.Storage.{EncryptedDocumentRef, EncryptedStorage, scan_all, chunks}
use ved_db_server.Rotation.Scheduler.{
  System, KeyRotationStatus, ReEncryptionContext, done, finished, put_status, started,
  rotate_batches, finish_rotation, rotate_key,
}
use ved_db_server.Rotation.Steps.{
  context_of, lookup-rotated, All-take, saved-save_rotation_state, IsUnreadable,
  reencrypt_batch-skips, begun, begin_rotation-begun,
}

-- the status that a rotation without a processed document leaves
abbrev pub nothing_done : ℕ → String → ℕ → KeyRotationStatus
nothing_done now key_id total = record (started now key_id) {
  status = done;
  completed_at = some now;
  total_records = total;
}

module _ {S : Type 0} (p : Platform) (e : EncryptedStorage S)
    (reads : (n : ℕ) → p.reads_state n ≡ true) (writes : (n : ℕ) → p.writes_state n ≡ true)
    (writes_keys : (n : ℕ) → p.writes_keys n ≡ true) where
  rotate_batches-skips :
      (context : ReEncryptionContext) (status : KeyRotationStatus) (fuel size : ℕ)
      (ds : List EncryptedDocumentRef) (s : System S)
      → All (IsUnreadable p context) ds
      → let r = rotate_batches p e context status (chunks fuel size ds) 0 s in
        (r.0 ≡ true) × (r.1 ≡ 0) × (r.2.storage ≡ s.storage) × (r.2.manager ≡ s.manager)
  unfolding rotate_batches chunks
  rotate_batches-skips context status zero size ds s unreadable = (refl, refl, refl, refl)
  rotate_batches-skips context status (suc fuel) size [] s unreadable = (refl, refl, refl, refl)
  rotate_batches-skips context status (suc fuel) size (d ∷ ds) s unreadable =
      let IsHere = IsUnreadable p context in
      let batch = take size (d ∷ ds) in
      let skipped =
        reencrypt_batch-skips p e context batch s (All-take IsHere size (d ∷ ds) unreadable) in
      rw skipped (
        rotate_batches-skips context status fuel size (drop size (d ∷ ds))
          (put_status context.key_id (record status { records_processed = 0 }) s)
          (All-drop IsHere size (d ∷ ds) unreadable))

  finish_rotation-recorded :
      (now total : ℕ) (key_id : String) (s : System S)
      → let r =
          finish_rotation p e now key_id
            (record (started now key_id) { total_records = total })
            0
            s in
        (r.0 ≡ finished)
        × (r.1.saved ≡ completed key_id now 0)
        × (lookup key_id r.1.rotation_statuses ≡ some (nothing_done now key_id total))
        × (r.1.storage ≡ s.storage)
        × (r.1.manager ≡ s.manager)
  unfolding finish_rotation
  finish_rotation-recorded now total key_id s =
      rw
        (
          finish_rotation,
          saved-save_rotation_state p e reads writes writes_keys (completed key_id now 0) s,
        )
        (
          refl,
          refl,
          ground (
            arith,
            lookup-insert key_id key_id (nothing_done now key_id total) s.rotation_statuses,
            same_refl key_id,
          ),
          refl,
          refl,
        )

  -- If the files and the storage can be read and the files written, a rotation may start, the key is
  -- active, the batch size is not 0, and the key decrypts none of the documents that a scan finds, then
  -- rotate_key ends without an error, records that the rotation is completed with 0 documents, of as
  -- many as were found, leaves the storage as it was, and has put a new key in the place of the key.
  pub rotate_key-skips :
      (now : ℕ) (s : System S) (key_id : String) (k : EncryptionKey)
      (docs : List EncryptedDocumentRef)
      → can_start_rotation s.saved ≡ true
      → lookup key_id s.manager.keys ≡ some k
      → k.active ≡ true
      → (s.batch_size == 0) ≡ false
      → scan_all e s.storage key_id ≡ some docs
      → All (λ d. p.decrypt d.encrypted_data k.key ≡ none) docs
      → let r = rotate_key p e now s key_id in
        (r.0 ≡ finished)
        × (r.1.saved ≡ completed key_id now 0)
        × (lookup key_id r.1.rotation_statuses ≡ some (nothing_done now key_id (length docs)))
        × (r.1.storage ≡ s.storage)
        × (get_key r.1.manager key_id ≡ some (p.generate_key s.manager.draws))
  unfolding rotate_key get_key rotate
  rotate_key-skips now s key_id k docs start there active sized scanned unreadable =
      let after = begun p now s key_id k docs in
      let context = context_of p s.manager k key_id in
      let status : KeyRotationStatus = record (started now key_id) {
        total_records = length docs;
      } in
      let (all_done, count, kept, same) =
        rotate_batches-skips context status (length docs) s.batch_size docs after unreadable in
      let result =
        rotate_batches p e context status (chunks (length docs) s.batch_size docs) 0 after in
      let (ended, saved, recorded, kept_then, same_then) =
        finish_rotation-recorded now (length docs) key_id result.2 in
      let current : get_key after.manager key_id ≡ some (p.generate_key s.manager.draws) =
        rw (get_key, lookup-rotated p now s.manager key_id k, active) refl in
      let begins =
        begin_rotation-begun p e reads writes writes_keys now s key_id k docs start there active
          scanned in
      rw (rotate_key, begins, sized, begins, all_done, count)
        (
          ended,
          saved,
          recorded,
          kept_then ∙ kept,
          ap (λ m. get_key m key_id) (same_then ∙ same) ∙ current,
        )
