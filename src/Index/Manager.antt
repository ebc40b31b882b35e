-- ===== src/Index/Manager.antt =====
-- `IndexManager` of index/manager.rs and the loop of `build_index` of index/builder.rs. A hash map is
-- its entries in the order in which they are walked through.
use ved_db_server.Prelude.{
  Bool, true, false, Option, none, some, List, [], ◌∷◌, if◌then◌else◌, length,
}
use Prim.Native.String.{String}
use ved_db_server.Prelude.Maps.{Map, String-Eq, lookup, insert, erase}
use ved_db_server.Document.{Document}
use ved_db_server.Query.{Engine}
use ved_db_server.Index.{IndexError, Result, ok, err, operation_failed}
use ved_db_server.Index.Keys.{IndexKey, create_index_entry}
use ved_db_server.Index.Tree.{BTreeIndex, DocumentId, find_exact, find_range}
use ved_db_server.Index.Tree
use ved_db_server.Index.Statistics.{
  IndexStatistics, add_index, remove_index, record_insert, record_update, record_delete,
  record_lookup,
}
use ved_db_server.Index.Statistics

-- `IndexType` and `IndexDefinition` of schema.rs
pub data IndexType : Type 0 where
  single text_of geospatial : String → IndexType
  compound : List String → IndexType

pub record IndexDefinition : Type 0 where
  pub name : String
  pub index_type : IndexType
  pub unique : Bool
  pub sparse : Bool

unfoldable pub index_fields : IndexType → List String
index_fields (single f) = f ∷ []
index_fields (compound fs) = fs
index_fields (text_of f) = f ∷ []
index_fields (geospatial f) = f ∷ []

pub record IndexManager : Type 0 where
  pub collection_name : String
  pub indexes : Map String BTreeIndex
  pub statistics : IndexStatistics

abbrev pub new : String → IndexManager
new name = record { collection_name = name; indexes = []; statistics = Statistics.new }

unfoldable pub create_index : IndexManager → IndexDefinition → IndexManager
create_index m d = record m {
  indexes = insert d.name (Tree.new d.name (index_fields d.index_type) d.unique d.sparse) m.indexes;
  statistics = add_index m.statistics d.name;
}

unfoldable pub drop_index : IndexManager → String → Bool × IndexManager
drop_index m name = elim (lookup name m.indexes) [
  | none ↦ (false, m)
  | some i ↦ (
    true,
    record m { indexes = erase name m.indexes; statistics = remove_index m.statistics name },
  )
]

unfoldable pub has_index : IndexManager → String → Bool
has_index m name = elim (lookup name m.indexes) [ none ↦ false | some i ↦ true ]

unfoldable pub clear_all : Map String BTreeIndex → Map String BTreeIndex
clear_all [] = []
clear_all ((n, i) ∷ m) = (n, Tree.clear i) ∷ clear_all m

unfoldable pub clear_all_indexes : IndexManager → IndexManager
clear_all_indexes m = record m { indexes = clear_all m.indexes; statistics = Statistics.new }

-- an index before the outcome on the later ones
unfoldable pub keep {ℓ} :
    {A : Type ℓ} → String × BTreeIndex → Map String BTreeIndex × A → Map String BTreeIndex × A
keep i (m, a) = (i ∷ m, a)

unfoldable pub insert_outcome :
    String × BTreeIndex
    → Map String BTreeIndex
    → Result BTreeIndex
    → Map String BTreeIndex × Option (String × IndexError)
    → Map String BTreeIndex × Option (String × IndexError)
insert_outcome (n, i) m (err why) rest = ((n, i) ∷ m, some (n, why))
insert_outcome (n, i) m (ok j) rest = keep (n, j) rest

unfoldable pub remove_outcome :
    String × BTreeIndex
    → Map String BTreeIndex
    → Result (Bool × BTreeIndex)
    → Map String BTreeIndex × Option IndexError
    → Map String BTreeIndex × Option IndexError
remove_outcome (n, i) m (err why) rest = ((n, i) ∷ m, some why)
remove_outcome (n, i) m (ok (removed, j)) rest = keep (n, j) rest

-- `optimize_indexes`, which leaves the building to its caller
unfoldable pub optimize_indexes : IndexManager → IndexManager
optimize_indexes m = record m { indexes = clear_all m.indexes }

module _ (e : Engine) where
  -- the loop over the indexes, up to one that refuses, with its name
  unfoldable pub insert_all :
      DocumentId
      → Document
      → Map String BTreeIndex
      → Map String BTreeIndex × Option (String × IndexError)
  insert_all id d [] = ([], none)
  insert_all id d ((n, i) ∷ m) =
      insert_outcome (n, i) m (Tree.insert e i id (create_index_entry d i.fields))
        (insert_all id d m)

  unfoldable pub remove_all :
      DocumentId → Document → Map String BTreeIndex → Map String BTreeIndex × Option IndexError
  remove_all id d [] = ([], none)
  remove_all id d ((n, i) ∷ m) =
      remove_outcome (n, i) m (Tree.remove e i id (create_index_entry d i.fields))
        (remove_all id d m)

  unfoldable pub rollback_insertions :
      DocumentId
      → Document
      → String
      → Map String BTreeIndex
      → Map String BTreeIndex × Option IndexError
  rollback_insertions id d failed [] = ([], none)
  rollback_insertions id d failed ((n, i) ∷ m) =
      let rest = rollback_insertions id d failed m in
      if String-Eq.same n failed
      then ((n, i) ∷ m, none)
      else remove_outcome (n, i) m (Tree.remove e i id (create_index_entry d i.fields)) rest

  -- the error of the rollback before that of the insertion
  unfoldable pub rolled_back :
      IndexError
      → Map String BTreeIndex × Option IndexError
      → Map String BTreeIndex × Option IndexError
  rolled_back why (m, none) = (m, some why)
  rolled_back why (m, some other) = (m, some other)

  unfoldable pub insert_or_rollback :
      DocumentId
      → Document
      → Map String BTreeIndex × Option (String × IndexError)
      → Map String BTreeIndex × Option IndexError
  insert_or_rollback id d (m, none) = (m, none)
  insert_or_rollback id d (m, some (failed, why)) =
      rolled_back why (rollback_insertions id d failed m)

  -- the manager after a loop, which counts when it succeeds
  unfoldable pub counted :
      (IndexStatistics → IndexStatistics)
      → IndexManager
      → Map String BTreeIndex × Option IndexError
      → IndexManager × Option IndexError
  counted count m (indexes, none) =
      (record m { indexes = indexes; statistics = count m.statistics }, none)
  counted count m (indexes, some why) = (record m { indexes = indexes }, some why)

  unfoldable pub insert_document :
      IndexManager → DocumentId → Document → IndexManager × Option IndexError
  insert_document m id d =
      counted record_insert m (insert_or_rollback id d (insert_all id d m.indexes))

  unfoldable pub remove_document :
      IndexManager → DocumentId → Document → IndexManager × Option IndexError
  remove_document m id d = counted record_delete m (remove_all id d m.indexes)

  unfoldable pub then_update : IndexManager × Option IndexError → IndexManager × Option IndexError
  then_update (m, none) = (record m { statistics = record_update m.statistics }, none)
  then_update (m, some why) = (m, some why)

  unfoldable pub then_insert :
      DocumentId → Document → IndexManager × Option IndexError → IndexManager × Option IndexError
  then_insert id d (m, none) = then_update (insert_document m id d)
  then_insert id d (m, some why) = (m, some why)

  unfoldable pub update_document :
      IndexManager → DocumentId → Document → Document → IndexManager × Option IndexError
  update_document m id old_document new_document =
      then_insert id new_document (remove_document m id old_document)

  -- the lookup that a manager with these indexes counts, or the error of a missing index
  unfoldable pub find_in :
      IndexManager
      → String
      → (BTreeIndex → List DocumentId)
      → IndexManager × Result (List DocumentId)
  find_in m name search = elim (lookup name m.indexes) [
    | none ↦ (m, err (operation_failed name))
    | some i ↦ (
      record m { statistics = record_lookup m.statistics name (length (search i)) },
      ok (search i),
    )
  ]

  unfoldable pub find_with_index :
      IndexManager → String → IndexKey → IndexManager × Result (List DocumentId)
  find_with_index m name key = find_in m name (λ i. find_exact e i key)

  unfoldable pub find_range_with_index :
      IndexManager
      → String
      → Option IndexKey
      → Option IndexKey
      → Bool
      → Bool
      → IndexManager × Result (List DocumentId)
  find_range_with_index m name start end include_start include_end =
      find_in m name (λ i. find_range e i start end include_start include_end)

  -- the loop of `build_index`, which stops at an error, without its pauses
  unfoldable pub build_index : BTreeIndex → List Document → BTreeIndex × Option IndexError
  build_index i [] = (i, none)
  build_index i (d ∷ docs) = elim (Tree.insert e i d.id (create_index_entry d i.fields)) [
    | err why ↦ (i, some why)
    | ok j ↦ build_index j docs
  ]

  unfoldable pub rebuild_index : BTreeIndex → List Document → BTreeIndex × Option IndexError
  rebuild_index i docs = build_index (Tree.clear i) docs

  unfoldable pub build_index_background :
      IndexManager → String → List Document → IndexManager × Option IndexError
  build_index_background m name docs = elim (lookup name m.indexes) [
    | none ↦ (m, some (operation_failed name))
    | some i ↦
        let built = build_index i docs in
        (record m { indexes = insert name built.0 m.indexes }, built.1)
  ]
