-- ===== src/Rotation/Storage.antt =====
-- The trait `EncryptedStorage` of encryption/encrypted_storage.rs, as a parameter, and how
-- encryption/key_rotation.rs reads the documents from it and divides them.
use ved_db_server.Prelude.{
  ℕ, zero, suc, Bool, ◌&&◌, Option, none, some, List, [], ◌∷◌, ◌++◌, if◌then◌else◌, take, drop,
}
use Prim.Native.String
use Prim.Native.String.{String}
use ved_db_server.Prelude.Maps.{String-Eq}

pub record EncryptedDocumentRef : Type 0 where
  pub collection : String
  pub doc_id : String
  pub encrypted_data : List ℕ

-- What `KeyRotationScheduler` calls of the trait of the same name, on the state of a storage. `none` and
-- `false` are errors; an update answers whether it succeeds, and the storage after it.
pub record EncryptedStorage (S : Type 0) : Type 0 where
  pub list_encrypted_collections : S → Option (List String)
  pub scan_encrypted_collection : S → String → Option (List EncryptedDocumentRef)
  pub update_encrypted_document : S → String → String → List ℕ → Bool × S

-- A key named collection_ and a name is the key of the collection of that name.
unfoldable pub is_collection_using_key : String → String → Bool
is_collection_using_key collection key_id =
    String-Eq.same (String.◌++◌ "collection_" collection) key_id

-- the loop over the collections, which an error of a scan ends
unfoldable pub scan_collections :
    {S : Type 0}
    → EncryptedStorage S
    → S
    → String
    → List String
    → Option (List EncryptedDocumentRef)
scan_collections e s key_id [] = some []
scan_collections e s key_id (c ∷ cs) =
    let rest = scan_collections e s key_id cs in
    if is_collection_using_key c key_id
    then elim (e.scan_encrypted_collection s c) [
      | none ↦ none
      | some docs ↦ elim rest [ none ↦ none | some later ↦ some (docs ++ later) ]
    ]
    else rest

unfoldable pub scan_all :
    {S : Type 0} → EncryptedStorage S → S → String → Option (List EncryptedDocumentRef)
scan_all e s key_id = elim (e.list_encrypted_collections s) [
  | none ↦ none
  | some collections ↦ scan_collections e s key_id collections
]

-- `chunks(batch_size)` for a size that is not 0, with fuel
unfoldable pub chunks : ℕ → ℕ → List EncryptedDocumentRef → List (List EncryptedDocumentRef)
chunks zero size ds = []
chunks (suc fuel) size [] = []
chunks (suc fuel) size (d ∷ ds) = take size (d ∷ ds) ∷ chunks fuel size (drop size (d ∷ ds))

-- the documents from the checkpoint on
unfoldable pub from_checkpoint :
    Option (String × String) → List EncryptedDocumentRef → List EncryptedDocumentRef
from_checkpoint none ds = ds
from_checkpoint (some (collection, doc_id)) [] = []
from_checkpoint (some (collection, doc_id)) (d ∷ ds) =
    let rest = from_checkpoint (some (collection, doc_id)) ds in
    if String-Eq.same d.collection collection && String-Eq.same d.doc_id doc_id
    then d ∷ ds
    else rest

-- where the last document of a batch stands
unfoldable pub last_of : List EncryptedDocumentRef → Option (String × String)
last_of [] = none
last_of (d ∷ []) = some (d.collection, d.doc_id)
last_of (d ∷ e ∷ ds) = last_of (e ∷ ds)
