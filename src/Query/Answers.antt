-- ===== src/Query/Answers.antt =====
-- What the index of a manager answers against the scan of a collection, in index/manager.rs and
-- query/executor.rs, and how the executor that the program makes answers.
use ved_db_server.Prelude.{
  ℕ, ◌≡◌, refl, sym, ap, ap₂, ◌∙◌, true, false, Option, none, some, List, [], ◌∷◌, arith,
}
use Prim.Native.String.{String}
use ved_db_server.Prelude.Maps.{Map, String-Eq, lookup, insert, lookup-insert, same_refl}
use ved_db_server.Document.{Value, Document}
use ved_db_server.Query.{Engine}
use ved_db_server.Query.Ast.{
  Query, Filter, eq, gt, gte, lt, lte, in_values, nin, regex, exists, and, or, negated,
}
use ved_db_server.Query.Ast as Ast
use ved_db_server.Query.Planner.{
  index_for, find_indexes_for_field, first_name, first_index, create_plan, analyze_filter_for_index,
}
use ved_db_server.Query.Executor.{
  QueryExecutor, execute, execute_collection_scan, post_processed, retain, fetch, new,
  set_index_manager,
}
use ved_db_server.Index.{ok}
use ved_db_server.Index.Keys.{IndexKey, IndexValue, from_value}
use ved_db_server.Index.Tree.{BTreeIndex, DocumentId, find_exact, docs_at}
use ved_db_server.Index.Tree as Tree
use ved_db_server.Index.Manager.{
  IndexManager, IndexDefinition, single, create_index, build_index, build_index_background,
  index_fields, find_with_index, find_in,
}
use ved_db_server.Index.Order.{is_exact, all_exact}
use ved_db_server.Index.Build.{documents_at, build_index-find_exact}
use ved_db_server.Query.IndexScan.{distinct_ids, distinct_ids-IsFound, retain-fetch}

-- an index on one field, neither unique nor sparse
abbrev pub on_field : String → String → IndexDefinition
on_field name f = record { name = name; index_type = single f; unique = false; sparse = false }

lookup-inserted :
    (name : String) (i : BTreeIndex) (m : Map String BTreeIndex)
    → lookup name (insert name i m) ≡ some i
lookup-inserted name i m = ground (arith, lookup-insert name name i m, same_refl name)

-- An executor that the program makes: a new one, with an index manager set or not, after queries.
pub data IsMade (e : Engine) : QueryExecutor → Type 0 where
  made : IsMade e new
  managed : {x : QueryExecutor} (m : IndexManager) → IsMade e x → IsMade e (set_index_manager x m)
  queried :
      {x : QueryExecutor} (now : ℕ) (docs : List Document) (q : Query)
      → IsMade e x
      → IsMade e (execute e now x docs q).0

module _ (e : Engine) where
  find_with_index-answer :
      (m : IndexManager) (name : String) (key : IndexKey) (i : BTreeIndex)
      → lookup name m.indexes ≡ some i
      → (find_with_index e m name key).1 ≡ ok (find_exact e i key)
  unfolding find_with_index find_in
  find_with_index-answer m name key i has = rw (find_with_index, find_in, has) refl

  -- The index that is built in the background is the one that is then looked up.
  build_index_background-built :
      (m m' : IndexManager) (name f : String) (docs : List Document)
      → build_index_background e (create_index m (on_field name f)) name docs ≡ (m', none)
      → let built = build_index e (Tree.new name (f ∷ []) false false) docs in
        (built.1 ≡ none) × (lookup name m'.indexes ≡ some built.0)
  unfolding build_index_background create_index index_fields
  build_index_background-built m m' name f docs background =
      let i = Tree.new name (f ∷ []) false false in
      let created : build_index_background e (create_index m (on_field name f)) name docs ≡ (
        record (create_index m (on_field name f)) {
          indexes = insert name (build_index e i docs).0 (create_index m (on_field name f)).indexes;
        },
        (build_index e i docs).1,
      ) =
        rw (build_index_background, lookup-inserted name i m.indexes) refl in
      let same = sym created ∙ background in
      (
        ap (λ r. r.1) same,
        ap (λ r. lookup name r.0.indexes) (sym same)
            ∙ lookup-inserted name (build_index e i docs).0
                (create_index m (on_field name f)).indexes,
      )

  -- After create_index of an index on a field, neither unique nor sparse, and build_index_background
  -- from documents with distinct identifiers without an error, a lookup in the index by a value, which is
  -- no float and can be a key, answers the identifiers of the documents whose key is the same, in their
  -- order. The documents that have these, less those whose field is not the value, are those that a scan
  -- of the collection finds for it, in the same order, and the scan does not fail.
  pub find_with_index-scan :
      (m m' : IndexManager) (name f : String) (v : Value) (a : IndexValue) (docs : List Document)
      → build_index_background e (create_index m (on_field name f)) name docs ≡ (m', none)
      → from_value e v ≡ ok a
      → is_exact a ≡ true
      → distinct_ids docs ≡ true
      → let ids = documents_at e (f ∷ []) (a ∷ []) docs in
        ((find_with_index e m' name (a ∷ [])).1 ≡ ok ids)
        × (some (retain e (eq f v) (fetch docs ids)) ≡ execute_collection_scan e docs (eq f v))
  unfolding all_exact find_exact docs_at
  find_with_index-scan m m' name f v a docs background from x distinct =
      let empty = Tree.new name (f ∷ []) false false in
      let (done, has) = build_index_background-built m m' name f docs background in
      let i = (build_index e empty docs).0 in
      let listed =
        build_index-find_exact e docs empty i (a ∷ []) (rw (all_exact, x) refl) refl refl
          (ap (λ w. (i, w)) done) in
      (
        find_with_index-answer m' name (a ∷ []) i has ∙ ap ok listed,
        retain-fetch e docs docs f v a from x (distinct_ids-IsFound docs distinct),
      )

  first_index-none : (fs : List String) → first_index [] fs ≡ none
  unfolding first_index index_for find_indexes_for_field first_name
  first_index-none [] = refl
  first_index-none (f ∷ fs) = first_index-none fs

  analyze_filter-none : (f : Filter) → analyze_filter_for_index e [] f ≡ none
  unfolding analyze_filter_for_index index_for find_indexes_for_field first_name
  analyze_filter-none (and fs) = first_index-none _
  analyze_filter-none (eq f v) = refl
  analyze_filter-none (gt f v) = refl
  analyze_filter-none (gte f v) = refl
  analyze_filter-none (lt f v) = refl
  analyze_filter-none (lte f v) = refl
  analyze_filter-none (in_values f vs) = refl
  analyze_filter-none (exists f b) = refl
  analyze_filter-none (Ast.ne f v) = refl
  analyze_filter-none (nin f vs) = refl
  analyze_filter-none (regex f pattern options) = refl
  analyze_filter-none (or fs) = refl
  analyze_filter-none Ast.empty = refl
  analyze_filter-none (negated f) = refl

  execute-unplanned :
      (now : ℕ) (x : QueryExecutor) (docs : List Document) (q : Query)
      → x.index_selector ≡ []
      → execute e now x docs q ≡ post_processed e now q (x, execute_collection_scan e docs q.filter)
  unfolding execute create_plan
  execute-unplanned now x docs q none_known =
      let unplanned : (create_plan e x.index_selector q).use_index ≡ none =
        ap (λ y. analyze_filter_for_index e y q.filter) none_known ∙ analyze_filter-none q.filter in
      rw (execute, unplanned) refl

  post_processed-executor :
      (now : ℕ) (q : Query) (x : QueryExecutor) (r : Option (List Document))
      → (post_processed e now q (x, r)).0 ≡ x
  unfolding post_processed
  post_processed-executor now q x none = refl
  post_processed-executor now q x (some docs) = refl

  post_processed-answer :
      (now : ℕ) (q : Query) (x y : QueryExecutor) (r : Option (List Document))
      → (post_processed e now q (x, r)).1 ≡ (post_processed e now q (y, r)).1
  unfolding post_processed
  post_processed-answer now q x y none = refl
  post_processed-answer now q x y (some docs) = refl

  IsMade-selector : {x : QueryExecutor} → IsMade e x → x.index_selector ≡ []
  unfolding set_index_manager
  IsMade-selector made = refl
  IsMade-selector (managed m before) = IsMade-selector before
  IsMade-selector (queried {x} now docs q before) =
      ap (λ r. r.0.index_selector) (execute-unplanned now x docs q (IsMade-selector before))
      ∙ ap (λ r. r.index_selector) (post_processed-executor now q x _)
      ∙ IsMade-selector before

  -- Whatever index managers are set and whatever queries came before, each query is answered by the scan
  -- of the whole collection and what follows it, as by a new executor, and the executor stays as it is.
  pub execute-scans :
      (now : ℕ) (x : QueryExecutor) (docs : List Document) (q : Query)
      → IsMade e x
      → (execute e now x docs q ≡ (x, (execute e now new docs q).1))
        × ((execute e now x docs q).1
            ≡ (post_processed e now q (x, execute_collection_scan e docs q.filter)).1)
  execute-scans now x docs q h =
      let here = execute-unplanned now x docs q (IsMade-selector h) in
      let scanned = execute_collection_scan e docs q.filter in
      let same =
        ap (λ r. r.1) here
        ∙ post_processed-answer now q x new scanned
        ∙ ap (λ r. r.1) (sym (execute-unplanned now new docs q refl)) in
      (
        ap₂ (λ y r. (y, r)) (ap (λ r. r.0) here ∙ post_processed-executor now q x scanned) same,
        ap (λ r. r.1) here,
      )
