-- ===== src/Rotation/Scheduler.antt =====
-- `KeyRotationScheduler` of encryption/key_rotation.rs, on a storage and a platform that may fail.
use ved_db_server.Prelude.{
  ℕ, suc, Bool, true, false, Option, none, some, List, [], ◌∷◌, ◌==◌, if◌then◌else◌, length,
}
use ved_db_server.Rotation.Storage.{
  EncryptedDocumentRef, EncryptedStorage, scan_all, chunks, from_checkpoint, last_of,
}
use Prim.Native.String.{String}
use ved_db_server.Prelude.Bytes.{add64}
use ved_db_server.Prelude.Maps.{Map, String-Eq, lookup, insert}
use ved_db_server.Rotation.{
  KeyRotationState, idle, re_encrypting, completed, failed, can_start_rotation,
}
use ved_db_server.Rotation.Keys.{
  Platform, KeyManager, get_key, get_key_metadata, rotate_key_with_backup,
  get_keys_needing_rotation,
}

pub data RotationStatus : Type 0 where
  pending in_progress done failure cancelled : RotationStatus

pub record KeyRotationStatus : Type 0 where
  pub key_id : String
  pub status : RotationStatus
  pub started_at : Option ℕ
  pub completed_at : Option ℕ
  pub records_processed : ℕ
  pub total_records : ℕ
  pub error_message : Option String

-- the scheduler with what it works on: the keys, the state in its file and how often that file was
-- to be read or written, and the storage
pub record System (S : Type 0) : Type 0 where
  pub manager : KeyManager
  pub saved : KeyRotationState
  pub file_calls : ℕ
  pub storage : S
  pub rotation_statuses : Map String KeyRotationStatus
  pub rotation_interval_days : ℕ
  pub batch_size : ℕ

pub record ReEncryptionContext : Type 0 where
  pub key_id : String
  pub old_key : List ℕ
  pub old_version : ℕ
  pub new_key : List ℕ
  pub new_version : ℕ

-- how a call ends
pub data Outcome : Type 0 where
  finished refused panicked : Outcome

abbrev pub put_status : {S : Type 0} → String → KeyRotationStatus → System S → System S
put_status key_id status s = record s {
  rotation_statuses = insert key_id status s.rotation_statuses;
}

-- the status with which a rotation starts
abbrev pub started : ℕ → String → KeyRotationStatus
started now key_id = record {
  key_id = key_id;
  status = in_progress;
  started_at = some now;
  completed_at = none;
  records_processed = 0;
  total_records = 0;
  error_message = none;
}

-- The keys of a re-encryption, and the manager after the key is rotated; the manager changes even if the
-- key file cannot be written, or the key is then refused, since it is inactive.
unfoldable pub rotate_for_context :
    Platform → ℕ → KeyManager → String → KeyManager × Option ReEncryptionContext
rotate_for_context p now m key_id =
    let result = rotate_key_with_backup p now m key_id in
    let rotated = result.1 in
    elim result.0 [
      | none ↦ (rotated, none)
      | some (old_key, old_version) ↦ elim (get_key rotated key_id) [
        | none ↦ (rotated, none)
        | some new_key ↦ elim (get_key_metadata rotated key_id) [
          | none ↦ (rotated, none)
          | some k ↦ (
            rotated,
            some (record {
              key_id = key_id;
              old_key = old_key;
              old_version = old_version;
              new_key = new_key;
              new_version = k.version;
            }),
          )
        ]
      ]
    ]

unfoldable pub is_in_progress_status : RotationStatus → Bool
is_in_progress_status in_progress = true
is_in_progress_status status = false

unfoldable pub cancel_rotation : {S : Type 0} → System S → String → Bool × System S
cancel_rotation s key_id = elim (lookup key_id s.rotation_statuses) [
  | none ↦ (false, s)
  | some status ↦
      if is_in_progress_status status.status
      then (true, put_status key_id (record status { status = cancelled }) s)
      else (false, s)
]

unfoldable pub mark_rotation_failed : {S : Type 0} → String → String → System S → System S
mark_rotation_failed key_id message s = elim (lookup key_id s.rotation_statuses) [
  | none ↦ s
  | some status ↦
      put_status key_id (record status { status = failure; error_message = some message }) s
]

-- A rotation of the key is running by the scheduler's own record.
unfoldable pub is_running : {S : Type 0} → System S → String → Bool
is_running s key_id = elim (lookup key_id s.rotation_statuses) [
  | none ↦ false
  | some status ↦ is_in_progress_status status.status
]

module _ {S : Type 0} (p : Platform) (e : EncryptedStorage S) where
  -- The file is replaced whole: a writing that fails leaves the state that was saved.
  unfoldable pub save_rotation_state : KeyRotationState → System S → Bool × System S
  save_rotation_state state s =
      if p.writes_state s.file_calls
      then (true, record s { saved = state; file_calls = suc s.file_calls })
      else (false, record s { file_calls = suc s.file_calls })

  unfoldable pub load_rotation_state : System S → Option KeyRotationState × System S
  load_rotation_state s = (
    if p.reads_state s.file_calls then some s.saved else none,
    record s { file_calls = suc s.file_calls },
  )

  -- A document that does not decrypt is skipped; a failure to encrypt or to write ends the batch.
  unfoldable pub reencrypt_batch :
      ReEncryptionContext → List EncryptedDocumentRef → System S → Bool × ℕ × System S
  reencrypt_batch context [] s = (true, 0, s)
  reencrypt_batch context (d ∷ ds) s = elim (p.decrypt d.encrypted_data context.old_key) [
    | none ↦ reencrypt_batch context ds s
    | some plain ↦ elim (p.encrypt s.manager.draws plain context.new_key) [
      | none ↦ (false, 0, s)
      | some encrypted ↦
          let written = e.update_encrypted_document s.storage d.collection d.doc_id encrypted in
          let after : System S = record s {
            manager = record s.manager { draws = suc s.manager.draws };
            storage = written.1;
          } in
          let rest = reencrypt_batch context ds after in
          if written.0 then (rest.0, suc rest.1, rest.2) else (false, 0, after)
    ]
  ]

  -- the loop of `rotate_key` over the batches
  unfoldable pub rotate_batches :
      ReEncryptionContext
      → KeyRotationStatus
      → List (List EncryptedDocumentRef)
      → ℕ
      → System S
      → Bool × ℕ × System S
  rotate_batches context status [] processed s = (true, processed, s)
  rotate_batches context status (batch ∷ batches) processed s =
      let result = reencrypt_batch context batch s in
      let count = add64 processed result.1 in
      let rest =
        rotate_batches context status batches count
          (put_status context.key_id (record status { records_processed = count }) result.2) in
      if result.0 then rest else (false, processed, result.2)

  -- the scan of `rotate_key` and the saving of the state in which documents are encrypted again
  unfoldable pub begin_scanned :
      ℕ
      → System S
      → String
      → ReEncryptionContext
      → System S × Option (ReEncryptionContext × List EncryptedDocumentRef)
  begin_scanned now s key_id context = elim (scan_all e s.storage key_id) [
    | none ↦ (s, none)
    | some docs ↦
        let begun =
          save_rotation_state (re_encrypting key_id now 0 (length docs) none)
            (put_status key_id (record (started now key_id) { total_records = length docs }) s) in
        (begun.1, if begun.0 then some (context, docs) else none)
  ]

  -- `rotate_key` up to that saving: the system, and the keys and the documents to go on with, or `none`
  -- when it is refused.
  unfoldable pub begin_rotation :
      ℕ → System S → String → System S × Option (ReEncryptionContext × List EncryptedDocumentRef)
  begin_rotation now s key_id =
      let loaded = load_rotation_state s in
      let rotated = rotate_for_context p now s.manager key_id in
      let keyed : System S = record (put_status key_id (started now key_id) loaded.1) {
        manager = rotated.0;
      } in
      elim loaded.0 [
        | none ↦ (loaded.1, none)
        | some state ↦
            if can_start_rotation state
            then elim rotated.1 [
              | none ↦ (keyed, none)
              | some context ↦ begin_scanned now keyed key_id context
            ]
            else (loaded.1, none)
      ]

  -- the end of `rotate_key`
  unfoldable pub finish_rotation :
      ℕ → String → KeyRotationStatus → ℕ → System S → Outcome × System S
  finish_rotation now key_id status processed s =
      let completed_status : KeyRotationStatus = record status {
        status = done;
        completed_at = some now;
        records_processed = processed;
      } in
      let result = save_rotation_state (completed key_id now processed) s in
      if result.0
      then (finished, put_status key_id completed_status result.1)
      else (refused, result.1)

  -- A batch size of 0 is a panic.
  unfoldable pub rotate_key : ℕ → System S → String → Outcome × System S
  rotate_key now s key_id =
      let begun = begin_rotation now s key_id in
      elim begun.1 [
        | none ↦ (refused, begun.0)
        | some (context, docs) ↦
            let status : KeyRotationStatus = record (started now key_id) {
              total_records = length docs;
            } in
            let result =
              rotate_batches context status (chunks (length docs) s.batch_size docs) 0 begun.0 in
            if s.batch_size == 0
            then (panicked, begun.0)
            else if result.0
            then finish_rotation now key_id status result.1 result.2
            else (refused, result.2)
      ]

  -- the loop of `resume_from_checkpoint`, which saves a checkpoint after each batch
  unfoldable pub resume_batches :
      ReEncryptionContext
      → ℕ
      → ℕ
      → List (List EncryptedDocumentRef)
      → ℕ
      → System S
      → Bool × ℕ × System S
  resume_batches context now total [] processed s = (true, processed, s)
  resume_batches context now total (batch ∷ batches) processed s =
      let result = reencrypt_batch context batch s in
      let count = add64 processed result.1 in
      let checkpoint =
        save_rotation_state (re_encrypting context.key_id now count total (last_of batch))
          result.2 in
      let rest = resume_batches context now total batches count checkpoint.1 in
      if result.0
      then (if checkpoint.0 then rest else (false, count, checkpoint.1))
      else (false, processed, result.2)

  -- the rest of `resume_from_checkpoint` once the documents are scanned
  unfoldable pub resume_scanned :
      ℕ → System S → ReEncryptionContext → List EncryptedDocumentRef → ℕ → ℕ → Outcome × System S
  resume_scanned now s context docs already_processed total =
      let result =
        resume_batches context now total (chunks (length docs) s.batch_size docs) already_processed
          s in
      let saved = save_rotation_state (completed context.key_id now result.1) result.2 in
      if s.batch_size == 0
      then (panicked, s)
      else if result.0
      then (if saved.0 then finished else refused, saved.1)
      else (refused, result.2)

  unfoldable pub resume_from_checkpoint :
      ℕ → System S → String → Option (String × String) → ℕ → ℕ → Outcome × System S
  resume_from_checkpoint now s key_id checkpoint already_processed total =
      let rotated = rotate_for_context p now s.manager key_id in
      let keyed : System S = record s { manager = rotated.0 } in
      elim rotated.1 [
        | none ↦ (refused, keyed)
        | some context ↦ elim (scan_all e s.storage key_id) [
          | none ↦ (refused, keyed)
          | some docs ↦
              resume_scanned now keyed context (from_checkpoint checkpoint docs) already_processed
                total
        ]
      ]

  unfoldable pub resume_loaded : ℕ → Option KeyRotationState → System S → Outcome × System S
  resume_loaded now none s = (refused, s)
  resume_loaded now (some (re_encrypting key_id started_at processed total last_checkpoint)) s =
      resume_from_checkpoint now s key_id last_checkpoint processed total
  resume_loaded now (some (failed key_id reason failed_at)) s = (refused, s)
  resume_loaded now (some idle) s = (finished, s)
  resume_loaded now (some (completed key_id completed_at documents_processed)) s = (finished, s)

  unfoldable pub resume_rotation : ℕ → System S → Outcome × System S
  resume_rotation now s = let loaded = load_rotation_state s in resume_loaded now loaded.0 loaded.1

  -- the loop of `check_and_rotate_keys`, which a panic ends; `message` is the text of a failure
  unfoldable pub rotate_needed : String → ℕ → List String → System S → System S
  rotate_needed message now [] s = s
  rotate_needed message now (key_id ∷ key_ids) s =
      let result = rotate_key now s key_id in
      let skipped = rotate_needed message now key_ids s in
      let rotated : System S = elim result.0 [
        | finished ↦ rotate_needed message now key_ids result.1
        | refused ↦ rotate_needed message now key_ids (mark_rotation_failed key_id message result.1)
        | panicked ↦ result.1
      ] in
      if is_running s key_id then skipped else rotated

  unfoldable pub check_and_rotate_keys : String → ℕ → System S → System S
  check_and_rotate_keys message now s =
      rotate_needed message now (get_keys_needing_rotation now s.manager s.rotation_interval_days) s
