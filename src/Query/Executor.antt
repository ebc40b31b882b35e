-- ===== src/Query/Executor.antt =====
-- `QueryExecutor` of query/executor.rs. A query that fails answers `none`. A sort with a comparison that
-- is a total order gives this list; with another one the library's sort may give any order or panic.
use ved_db_server.Prelude.{
  ℕ, Bool, true, false, Option, none, some, List, [], ◌∷◌, if◌then◌else◌, take, drop,
}
use Prim.Native.Nat.{Ordering}
use Prim.Native.String.{String}
use text.Mathlib.Text.{is_eq}
use ved_db_server.Document.{Value, Fields, Document, no_fields, field, with_id, get_by_path}
use ved_db_server.Document as Doc
use ved_db_server.Query.{Engine}
use ved_db_server.Query.Ast.{
  Query, Filter, Filters, Projection, Sort, SortOrder, ascending, descending, eq, gt, gte, lt, lte,
  and, done, more, should_include,
}
use ved_db_server.Query.Values.{compare_values, reverse_order, same_bytes, is_gt}
use ved_db_server.Query.Filters.{matches_filter}
use ved_db_server.Query.Planner.{IndexSelector, create_plan}
use ved_db_server.Index.{Result, ok, err}
use ved_db_server.Index.Keys.{IndexKey, from_values}
use ved_db_server.Index.Tree.{DocumentId}
use ved_db_server.Index.Manager.{IndexManager, find_with_index, find_range_with_index}

pub record QueryExecutor : Type 0 where
  pub index_selector : IndexSelector
  pub index_manager : Option IndexManager

abbrev pub new : QueryExecutor
new = record { index_selector = []; index_manager = none }

unfoldable pub set_index_manager : QueryExecutor → IndexManager → QueryExecutor
set_index_manager x m = record x { index_manager = some m }

-- `doc_map.get`: of documents with one identifier the last is kept
unfoldable pub find_document : DocumentId → List Document → Option Document
find_document id [] = none
find_document id (d ∷ docs) = elim (find_document id docs) [
  | none ↦ if same_bytes d.id id then some d else none
  | some last ↦ some last
]

unfoldable pub push_found : Option Document → List Document → List Document
push_found none docs = docs
push_found (some d) docs = d ∷ docs

unfoldable pub fetch : List Document → List DocumentId → List Document
fetch docs [] = []
fetch docs (id ∷ ids) = push_found (find_document id docs) (fetch docs ids)

unfoldable pub as_option {ℓ} : {A : Type ℓ} → Result A → Option A
as_option (err why) = none
as_option (ok a) = some a

-- a document before the outcome on the later ones
unfoldable pub push_matching :
    Option Bool → Document → Option (List Document) → Option (List Document)
push_matching none d rest = none
push_matching (some b) d none = none
push_matching (some b) d (some docs) = some (if b then d ∷ docs else docs)

unfoldable pub unwrap_or_false : Option Bool → Bool
unwrap_or_false none = false
unwrap_or_false (some b) = b

unfoldable pub skip_documents : Option ℕ → List Document → List Document
skip_documents none docs = docs
skip_documents (some n) docs = drop n docs

unfoldable pub limit_documents : Option ℕ → List Document → List Document
limit_documents none docs = docs
limit_documents (some n) docs = take n docs

module _ (e : Engine) where
  unfoldable pub execute_collection_scan : List Document → Filter → Option (List Document)
  execute_collection_scan [] f = some []
  execute_collection_scan (d ∷ docs) f =
      push_matching (matches_filter e d f) d (execute_collection_scan docs f)

  -- `results.retain`
  unfoldable pub retain : Filter → List Document → List Document
  retain f [] = []
  retain f (d ∷ docs) =
      let rest = retain f docs in if unwrap_or_false (matches_filter e d f) then d ∷ rest else rest

  -- the call of the index manager with the key of a value
  unfoldable pub with_key :
      IndexManager
      → Value
      → (IndexKey → IndexManager × Result (List DocumentId))
      → IndexManager × Option (List DocumentId)
  with_key m v call = elim (from_values e (v ∷ [])) [
    | err why ↦ (m, none)
    | ok key ↦ let answer = call key in (answer.0, as_option answer.1)
  ]

  unfoldable mutual
    pub get_doc_ids_from_index :
        IndexManager → String → Filter → IndexManager × Option (List DocumentId)
    get_doc_ids_from_index m name (eq f v) = with_key m v (λ key. find_with_index e m name key)
    get_doc_ids_from_index m name (gt f v) =
        with_key m v (λ key. find_range_with_index e m name (some key) none false false)
    get_doc_ids_from_index m name (gte f v) =
        with_key m v (λ key. find_range_with_index e m name (some key) none true false)
    get_doc_ids_from_index m name (lt f v) =
        with_key m v (λ key. find_range_with_index e m name none (some key) false false)
    get_doc_ids_from_index m name (lte f v) =
        with_key m v (λ key. find_range_with_index e m name none (some key) false true)
    get_doc_ids_from_index m name (and fs) = get_first_doc_ids m name fs
    get_doc_ids_from_index m name filter = (m, some [])

    -- the identifiers for the first comparison of a conjunction
    pub get_first_doc_ids :
        IndexManager → String → Filters → IndexManager × Option (List DocumentId)
    get_first_doc_ids m name done = (m, some [])
    get_first_doc_ids m name (more (eq f v) fs) = get_doc_ids_from_index m name (eq f v)
    get_first_doc_ids m name (more (gt f v) fs) = get_doc_ids_from_index m name (gt f v)
    get_first_doc_ids m name (more (gte f v) fs) = get_doc_ids_from_index m name (gte f v)
    get_first_doc_ids m name (more (lt f v) fs) = get_doc_ids_from_index m name (lt f v)
    get_first_doc_ids m name (more (lte f v) fs) = get_doc_ids_from_index m name (lte f v)
    get_first_doc_ids m name (more f fs) = get_first_doc_ids m name fs

  unfoldable pub scan_with :
      IndexManager → String → List Document → Filter → IndexManager × Option (List Document)
  scan_with m name docs f =
      let found = get_doc_ids_from_index m name f in
      (found.0, elim found.1 [ none ↦ none | some ids ↦ some (retain f (fetch docs ids)) ])

  unfoldable pub execute_index_scan :
      QueryExecutor → List Document → Query → QueryExecutor × Option (List Document)
  execute_index_scan x docs q = elim x.index_manager [
    | none ↦ (x, execute_collection_scan docs q.filter)
    | some m ↦ elim ((create_plan e x.index_selector q).use_index) [
      | none ↦ (x, execute_collection_scan docs q.filter)
      | some name ↦
          let answer = scan_with m name docs q.filter in
          (record x { index_manager = some answer.0 }, answer.1)
    ]
  ]

  -- how two documents compare by a field
  unfoldable pub compare_option : Option Value → Option Value → Ordering
  compare_option none none = Ordering.eq
  compare_option none (some v) = Ordering.lt
  compare_option (some v) none = Ordering.gt
  compare_option (some v) (some w) = compare_values e v w

  unfoldable pub directed : SortOrder → Ordering → Ordering
  directed ascending o = o
  directed descending o = reverse_order o

  unfoldable pub compare_documents : List (String × SortOrder) → Document → Document → Ordering
  compare_documents [] a b = Ordering.eq
  compare_documents ((f, order) ∷ fs) a b =
      let here = directed order (compare_option (get_by_path a f) (get_by_path b f)) in
      let rest = compare_documents fs a b in if is_eq here then rest else here

  unfoldable pub put_sorted : List (String × SortOrder) → Document → List Document → List Document
  put_sorted fs d [] = d ∷ []
  put_sorted fs d (c ∷ docs) =
      let rest = put_sorted fs d docs in
      if is_gt (compare_documents fs d c) then c ∷ rest else d ∷ c ∷ docs

  unfoldable pub sorted_by : List (String × SortOrder) → List Document → List Document
  sorted_by fs [] = []
  sorted_by fs (d ∷ docs) = put_sorted fs d (sorted_by fs docs)

  unfoldable pub apply_sort : Option Sort → List Document → List Document
  apply_sort none docs = docs
  apply_sort (some s) docs = sorted_by s.fields docs

  module _ (now : ℕ) where
    -- the loop over the fields of a document
    unfoldable pub copy_included : Projection → Fields → Document → Document
    copy_included p no_fields new_doc = new_doc
    copy_included p (field k v fs) new_doc =
        copy_included p fs (if should_include p k then (Doc.insert now new_doc k v).1 else new_doc)

    unfoldable pub project : Projection → Document → Document
    project p d = copy_included p d.fields (with_id now d.id)

    unfoldable pub apply_projection : Option Projection → List Document → List Document
    apply_projection none docs = docs
    apply_projection (some p) [] = []
    apply_projection (some p) (d ∷ docs) = project p d ∷ apply_projection (some p) docs

    unfoldable pub apply_post_processing : List Document → Query → List Document
    apply_post_processing docs q =
        apply_projection q.projection
          (limit_documents q.limit (skip_documents q.skip (apply_sort q.sort docs)))

    unfoldable pub post_processed :
        Query → QueryExecutor × Option (List Document) → QueryExecutor × Option (List Document)
    post_processed q (x, none) = (x, none)
    post_processed q (x, some docs) = (x, some (apply_post_processing docs q))

    unfoldable pub execute :
        QueryExecutor → List Document → Query → QueryExecutor × Option (List Document)
    execute x docs q = elim ((create_plan e x.index_selector q).use_index) [
      | some name ↦ post_processed q (execute_index_scan x docs q)
      | none ↦ post_processed q (x, execute_collection_scan docs q.filter)
    ]
