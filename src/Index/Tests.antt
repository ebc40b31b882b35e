-- ===== src/Index/Tests.antt =====
-- The theorems on indexes at concrete documents.
use ved_db_server.Prelude.{
  ℕ, ◌≡◌, refl, ◌≢◌, ◌⊎◌, Bool, true, false, some, List, [], ◌∷◌, if◌then◌else◌,
}
use Prim.Native.String.{String}
use Prim.Native.Nat.{compare}
use ved_db_server.Prelude.Maps.{Map, String-Eq, distinct, lookup}
use ved_db_server.Prelude.Maps as Maps
use ved_db_server.Document.{
  Document, int32, no_fields, field, with_id, get_by_path, get_by_path_parts, split_dot, find, walk,
  step_into, size_bytes,
}
use ved_db_server.Query.{Engine}
use ved_db_server.Index.{ok, err, unique_constraint_violation}
use ved_db_server.Index.Keys.{
  IndexKey, int, create_index_entry, from_entry, entry_fields, cons_key, from_value, or_null,
  compare_key, compare_value, variant, has_null, entry_size, size_estimate,
}
use ved_db_server.Index.Tree.{
  DocumentId, BTreeIndex, new, insert, find_exact, has_id, insert_key, is_empty, docs_at, same_key,
  added, change_docs, remove, remove_key, drop_doc, without_id, drop_key,
}
use ved_db_server.Query.Values.{same_bytes, to_i64, compare_i64}
use ved_db_server.Index.Manager.{
  IndexManager, insert_document, insert_all, insert_outcome, keep, rollback_insertions,
  remove_outcome, rolled_back, insert_or_rollback, counted,
}
use ved_db_server.Index.Manager as Manager
use ved_db_server.Index.Order.{all_exact, is_exact}
use ved_db_server.Index.Build.{document_key}
use ved_db_server.Index.Reach.{IsReached, created, inserted}
use ved_db_server.Index.Uniqueness.{insert-unique}
use ved_db_server.Index.Undo.{remove-insert}
use ved_db_server.Index.Rollback.{is_new, HaveSameAnswers, insert_document-refused}

-- whole seconds are the times, and patterns are texts
abbrev pub plain_engine : Engine
plain_engine = record {
  partial_cmp = λ a b. some (compare a b);
  float_of_int = λ i. i;
  timestamp = λ t. t;
  hash_order = λ fields. fields;
  is_match = λ ignore pattern s. some (String-Eq.same pattern s);
}

-- a document with an age and a rank
abbrev pub person : List ℕ → ℕ → ℕ → Document
person id age rank = record (with_id 0 id) {
  fields = field "age" (int32 age) (field "rank" (int32 rank) no_fields);
}

abbrev by_age : BTreeIndex
by_age = new "by_age" ("age" ∷ []) false false

abbrev by_rank : BTreeIndex
by_rank = new "by_rank" ("rank" ∷ []) true false

abbrev first_person : Document
first_person = person (1 ∷ []) 30 7

-- a second document with the rank of the first
abbrev second_person : Document
second_person = person (2 ∷ []) 40 7

abbrev ranked : BTreeIndex
ranked =
    elim (insert plain_engine by_rank (1 ∷ []) (create_index_entry first_person ("rank" ∷ []))) [
      | ok i ↦ i
      | err why ↦ by_rank
    ]

-- The second document takes the age, and is refused by the rank.
abbrev people : IndexManager
people = record (Manager.new "people") { indexes = ("by_age", by_age) ∷ ("by_rank", ranked) ∷ [] }

abbrev after_refusal : IndexManager
after_refusal = (insert_document plain_engine people (2 ∷ []) second_person).0

ranked-IsReached : IsReached plain_engine ranked
unfolding insert insert_key from_entry lookup Maps.insert create_index_entry entry_fields cons_key
    from_value or_null get_by_path get_by_path_parts split_dot find walk step_into is_empty docs_at
    has_id same_key compare_key compare_value same_bytes to_i64 compare_i64 variant has_null added
    change_docs size_bytes entry_size size_estimate String-Eq
ranked-IsReached =
    inserted (1 ∷ []) (create_index_entry first_person ("rank" ∷ []))
      (created "by_rank" ("rank" ∷ []) true false) refl

insert-unique_example :
    ((other : DocumentId) × (find_exact plain_engine ranked (int 7 ∷ []) ≡ other ∷ [])
      × (other ≢ 2 ∷ [])
      × (insert plain_engine ranked (2 ∷ []) (create_index_entry second_person ("rank" ∷ []))
          ≡ err (unique_constraint_violation ranked.name)))
    ⊎ ((j : BTreeIndex) × (insert plain_engine ranked
            (2 ∷ [])
            (create_index_entry second_person ("rank" ∷ []))
          ≡ ok j)
        × ((find_exact plain_engine ranked (int 7 ∷ []) ≡ [])
            ⊎ (find_exact plain_engine ranked (int 7 ∷ []) ≡ (2 ∷ []) ∷ []))
        × (find_exact plain_engine j (int 8 ∷ []) ≡ (
            if same_key plain_engine (int 7 ∷ []) (int 8 ∷ [])
            then (2 ∷ []) ∷ []
            else find_exact plain_engine ranked (int 8 ∷ []))))
unfolding insert insert_key from_entry lookup Maps.insert create_index_entry entry_fields cons_key
    from_value or_null get_by_path get_by_path_parts split_dot find walk step_into is_empty docs_at
    has_id same_key compare_key compare_value same_bytes to_i64 compare_i64 variant has_null added
    change_docs size_bytes entry_size size_estimate String-Eq all_exact is_exact
insert-unique_example =
    insert-unique plain_engine ranked (2 ∷ []) (create_index_entry second_person ("rank" ∷ []))
      (int 7 ∷ []) ranked-IsReached refl refl refl refl (int 8 ∷ []) refl

abbrev ranked_again : BTreeIndex
ranked_again =
    elim (insert plain_engine ranked (2 ∷ [])
      (create_index_entry (person (2 ∷ []) 40 8) ("rank" ∷ []))) [ ok i ↦ i | err why ↦ by_rank ]

remove-insert_example :
    (found : Bool) × (i' : BTreeIndex) × (remove plain_engine ranked_again
        (2 ∷ [])
        (create_index_entry (person (2 ∷ []) 40 8) ("rank" ∷ []))
      ≡ ok (found, i'))
    × ((q : IndexKey)
        → all_exact q ≡ true
        → find_exact plain_engine i' q ≡ find_exact plain_engine ranked q)
unfolding insert insert_key from_entry lookup Maps.insert create_index_entry entry_fields cons_key
    from_value or_null get_by_path get_by_path_parts split_dot find walk step_into is_empty docs_at
    has_id same_key compare_key compare_value same_bytes to_i64 compare_i64 variant has_null added
    change_docs size_bytes entry_size size_estimate String-Eq find_exact all_exact is_exact
remove-insert_example =
    remove-insert plain_engine ranked ranked_again (2 ∷ [])
      (create_index_entry (person (2 ∷ []) 40 8) ("rank" ∷ [])) (int 8 ∷ []) ranked-IsReached refl
      refl refl refl

insert_document-refused_example :
    HaveSameAnswers plain_engine people.indexes after_refusal.indexes
    × (after_refusal.statistics ≡ people.statistics)
    × ((failed : String) × ((insert_all plain_engine (2 ∷ []) second_person people.indexes).1
          ≡ some (failed, unique_constraint_violation "by_rank")))
unfolding insert insert_key from_entry lookup Maps.insert create_index_entry entry_fields cons_key
    from_value or_null get_by_path get_by_path_parts split_dot find walk step_into is_empty docs_at
    has_id same_key compare_key compare_value same_bytes to_i64 compare_i64 variant has_null added
    change_docs size_bytes entry_size size_estimate String-Eq find_exact all_exact is_exact is_new
    document_key insert_document insert_all insert_outcome keep rollback_insertions remove_outcome
    rolled_back insert_or_rollback counted remove remove_key drop_doc without_id drop_key distinct
insert_document-refused_example =
    insert_document-refused plain_engine people after_refusal (2 ∷ []) second_person
      (unique_constraint_violation "by_rank")
      ((created "by_age" ("age" ∷ []) false false, refl), ((ranked-IsReached, refl), tt)) refl refl
