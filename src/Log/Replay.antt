-- ===== src/Log/Replay.antt =====
-- `replay_wal`, `replay_all_wals` and `apply_operation` of wal/replay.rs, and the documents and metadata of
-- storage/persistent.rs as they are kept without the third-party database.
use ved_db_server.Prelude.{
  ℕ, max, Bool, true, false, Option, none, some, List, [], ◌∷◌, ltb, if◌then◌else◌,
}
use Prim.Native.String.{String}
use Prim.Native.String
use ved_db_server.Prelude.Bytes.{add64}
use ved_db_server.Prelude.Maps.{Map, String-Eq, lookup, erase}
use ved_db_server.Prelude.Maps as Maps
use ved_db_server.Document.{Value, Document}
use ved_db_server.Document as Doc
use ved_db_server.Log.{
  Codec, Operation, insert, update, delete, create_collection, drop_collection, create_index,
  drop_index,
}
use ved_db_server.Log.Reader.{Event, entry, error, file_events}
use ved_db_server.Log.Writer.{WalFile}

pub record PersistentLayer : Type 0 where
  pub documents : Map String (List ℕ)
  pub metadata : Map String (List ℕ)

abbrev pub empty : PersistentLayer
empty = record { documents = []; metadata = [] }

pub record ReplayStats : Type 0 where
  pub entries_replayed : ℕ
  pub entries_skipped : ℕ
  pub errors : ℕ
  pub last_sequence : ℕ

abbrev pub no_stats : ReplayStats
no_stats = record { entries_replayed = 0; entries_skipped = 0; errors = 0; last_sequence = 0 }

unfoldable pub joined : String → String → String → String
joined a b c = String.◌++◌ a (String.◌++◌ b c)

unfoldable pub apply_changes : ℕ → List (String × Value) → Document → Document
apply_changes now [] d = d
apply_changes now ((k, v) ∷ changes) d = apply_changes now changes (Doc.insert now d k v).1

module _ (c : Codec) where
  unfoldable pub make_document_key : String → List ℕ → String
  make_document_key collection id = joined collection ":" (c.id_text id)

  unfoldable pub insert_document : PersistentLayer → String → List ℕ → Document → PersistentLayer
  insert_document p collection id d = record p {
    documents = Maps.insert (make_document_key collection id) (c.encode_document d) p.documents;
  }

  -- An error, bytes that are no document, is `none`.
  unfoldable pub get_document : PersistentLayer → String → List ℕ → Option (Option Document)
  get_document p collection id = elim (lookup (make_document_key collection id) p.documents) [
    | none ↦ some none
    | some bs ↦ elim (c.decode_document bs) [ none ↦ none | some d ↦ some (some d) ]
  ]

  unfoldable pub delete_document : PersistentLayer → String → List ℕ → PersistentLayer
  delete_document p collection id = record p {
    documents = erase (make_document_key collection id) p.documents;
  }

  unfoldable pub store_metadata : PersistentLayer → String → List ℕ → PersistentLayer
  store_metadata p key bs = record p { metadata = Maps.insert key bs p.metadata }

  unfoldable pub delete_metadata : PersistentLayer → String → PersistentLayer
  delete_metadata p key = record p { metadata = erase key p.metadata }

  -- the update of a document that was read
  unfoldable pub update_found :
      ℕ
      → PersistentLayer
      → String
      → List ℕ
      → List (String × Value)
      → Option (Option Document)
      → Bool × PersistentLayer
  update_found now p collection id changes none = (false, p)
  update_found now p collection id changes (some none) = (true, p)
  update_found now p collection id changes (some (some d)) =
      (true, insert_document p collection id (apply_changes now changes d))

  -- whether the operation was applied, and the layer afterwards
  unfoldable pub apply_operation : ℕ → PersistentLayer → Operation → Bool × PersistentLayer
  apply_operation now p (insert collection d) = (true, insert_document p collection d.id d)
  apply_operation now p (update collection id changes) =
      update_found now p collection id changes (get_document p collection id)
  apply_operation now p (delete collection id) = (true, delete_document p collection id)
  apply_operation now p (create_collection name schema) =
      (true, store_metadata p (String.◌++◌ "collection:" name) (c.encode_schema schema))
  apply_operation now p (drop_collection name) =
      (true, delete_metadata p (String.◌++◌ "collection:" name))
  apply_operation now p (create_index collection i) = (
    true,
    store_metadata p (String.◌++◌ "index:" (joined collection ":" i.name)) (c.encode_index i),
  )
  apply_operation now p (drop_index collection name) =
      (true, delete_metadata p (String.◌++◌ "index:" (joined collection ":" name)))

  unfoldable pub count_skipped : ReplayStats → ReplayStats
  count_skipped s = record s { entries_skipped = add64 s.entries_skipped 1 }

  unfoldable pub count_applied : Bool → ℕ → ReplayStats → ReplayStats
  count_applied false sequence s = record s { errors = add64 s.errors 1 }
  count_applied true sequence s = record s {
    entries_replayed = add64 s.entries_replayed 1;
    last_sequence = sequence;
  }

  -- The loop of `replay_wal`, which ends at an error of the reader.
  unfoldable pub replay_events :
      ℕ → ℕ → List Event → PersistentLayer × ReplayStats → PersistentLayer × Option ReplayStats
  replay_events now from_sequence [] (p, s) = (p, some s)
  replay_events now from_sequence (error why ∷ es) (p, s) = (p, none)
  replay_events now from_sequence (entry e ∷ es) (p, s) =
      if ltb e.sequence from_sequence
      then replay_events now from_sequence es (p, count_skipped s)
      else let applied = apply_operation now p e.operation in
        replay_events now from_sequence es (applied.1, count_applied applied.0 e.sequence s)

  unfoldable pub replay_wal :
      ℕ → ℕ → PersistentLayer → WalFile → PersistentLayer × Option ReplayStats
  replay_wal now from_sequence p f =
      replay_events now from_sequence (file_events c f.bytes) (p, no_stats)

  unfoldable pub add_stats : ReplayStats → ReplayStats → ReplayStats
  add_stats total s = record {
    entries_replayed = add64 total.entries_replayed s.entries_replayed;
    entries_skipped = add64 total.entries_skipped s.entries_skipped;
    errors = add64 total.errors s.errors;
    last_sequence = max total.last_sequence s.last_sequence;
  }

  unfoldable pub replay_all_wals :
      ℕ → ℕ → List WalFile → PersistentLayer → ReplayStats → PersistentLayer × Option ReplayStats
  replay_all_wals now from_sequence [] p total = (p, some total)
  replay_all_wals now from_sequence (f ∷ fs) p total =
      let replayed = replay_wal now from_sequence p f in
      elim replayed.1 [
        | none ↦ (replayed.0, none)
        | some s ↦ replay_all_wals now from_sequence fs replayed.0 (add_stats total s)
      ]
