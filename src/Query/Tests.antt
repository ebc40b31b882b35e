-- ===== src/Query/Tests.antt =====
-- The theorems on queries at concrete documents.
use ved_db_server.Prelude.{◌≡◌, refl, some, List, [], ◌∷◌, arith}
use ved_db_server.Prelude.Maps.{Map, String-Eq, lookup}
use ved_db_server.Prelude.Maps as Maps
use ved_db_server.Document.{
  Document, int32, get_by_path, get_by_path_parts, split_dot, find, walk, step_into, size_bytes,
}
use ved_db_server.Index.Keys.{
  int, create_index_entry, from_entry, entry_fields, cons_key, from_value, from_values, or_null,
  compare_key, compare_value, variant, has_null, entry_size, size_estimate,
}
use ved_db_server.Index.Tree.{
  DocumentId, insert_key, is_empty, docs_at, has_id, same_key, added, change_docs,
}
use ved_db_server.Index.Tree as Tree
use ved_db_server.Index.Manager.{
  IndexManager, build_index, create_index, build_index_background, find_with_index, index_fields,
}
use ved_db_server.Index.{ok}
use ved_db_server.Index.Manager as Manager
use ved_db_server.Index.Order.{is_exact}
use ved_db_server.Index.Build.{documents_at}
use ved_db_server.Index.Tests.{plain_engine, person}
use ved_db_server.Query.Ast.{Query, eq, with_filter, empty, descending}
use ved_db_server.Query.Values.{
  same_bytes, to_i64, compare_i64, compare_values, reverse_order, is_gt,
}
use ved_db_server.Query.Filters.{matches_filter}
use ved_db_server.Query.Planner.{create_plan, analyze_filter_for_index}
use ved_db_server.Query.Executor.{
  QueryExecutor, set_index_manager, retain, fetch, execute, new, find_document,
  execute_collection_scan, push_matching, post_processed, apply_post_processing, apply_sort,
  sorted_by, put_sorted, compare_documents, compare_option, directed, skip_documents,
  limit_documents, apply_projection,
}
use ved_db_server.Query.IndexScan.{distinct_ids}
use ved_db_server.Query.Answers.{
  on_field, find_with_index-scan, IsMade, made, managed, queried, execute-scans,
}
use ved_db_server.Query.Pages.{pages, pages-execute, unpaged}

abbrev people : List Document
people = person (1 ∷ []) 30 7 ∷ person (2 ∷ []) 40 6 ∷ person (3 ∷ []) 30 5 ∷ []

abbrev by_age : IndexManager
by_age =
    (build_index_background plain_engine
      (create_index (Manager.new "people") (on_field "by_age" "age")) "by_age" people).0

find_with_index-scan_example :
    let ids = documents_at plain_engine ("age" ∷ []) (int 30 ∷ []) people in
    ((find_with_index plain_engine by_age "by_age" (int 30 ∷ [])).1 ≡ ok ids)
    × (some (retain plain_engine (eq "age" (int32 30)) (fetch people ids))
        ≡ execute_collection_scan plain_engine people (eq "age" (int32 30)))
unfolding Tree.insert insert_key from_entry lookup Maps.insert create_index_entry entry_fields
    cons_key from_value from_values or_null get_by_path get_by_path_parts split_dot find walk
    step_into is_empty docs_at has_id same_key compare_key compare_value same_bytes to_i64
    compare_i64 variant has_null added change_docs size_bytes entry_size size_estimate String-Eq
    build_index is_exact distinct_ids find_document build_index_background create_index index_fields
find_with_index-scan_example =
    find_with_index-scan plain_engine (Manager.new "people") by_age "by_age" "age" (int32 30)
      (int 30) people refl refl refl refl

-- the oldest first
abbrev by_age_down : Query
by_age_down = record (with_filter empty) {
  sort = some (record { fields = ("age", descending) ∷ [] });
}

abbrev in_order : List Document
in_order = person (2 ∷ []) 40 6 ∷ person (1 ∷ []) 30 7 ∷ person (3 ∷ []) 30 5 ∷ []

pages-execute_example : pages plain_engine 0 new people by_age_down 0 2 2 ≡ some in_order
unfolding execute create_plan analyze_filter_for_index execute_collection_scan push_matching
    matches_filter post_processed apply_post_processing apply_sort sorted_by put_sorted
    compare_documents compare_option directed skip_documents limit_documents apply_projection
    unpaged get_by_path get_by_path_parts split_dot find walk compare_values reverse_order is_gt
    compare_i64 to_i64 String-Eq
pages-execute_example =
    pages-execute plain_engine 0 new people in_order by_age_down 2 2 refl (omega arith)

-- a query before the manager is set, and one after
abbrev managed_executor : QueryExecutor
managed_executor =
    (execute plain_engine 0
      (set_index_manager (execute plain_engine 0 new people by_age_down).0 by_age) people
      by_age_down).0

managed_executor-IsMade : IsMade plain_engine managed_executor
managed_executor-IsMade =
    queried 0 people by_age_down (managed by_age (queried 0 people by_age_down made))

execute-scans_example :
    (execute plain_engine 0 managed_executor people (with_filter (eq "age" (int32 30))) ≡ (
      managed_executor,
      (execute plain_engine 0 new people (with_filter (eq "age" (int32 30)))).1,
    ))
    × ((execute plain_engine 0 managed_executor people (with_filter (eq "age" (int32 30)))).1
        ≡ (post_processed plain_engine 0 (with_filter (eq "age" (int32 30))) (
          managed_executor,
          execute_collection_scan plain_engine people (eq "age" (int32 30)),
        )).1)
execute-scans_example =
    execute-scans plain_engine 0 managed_executor people (with_filter (eq "age" (int32 30)))
      managed_executor-IsMade
