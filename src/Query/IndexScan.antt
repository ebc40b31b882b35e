-- ===== src/Query/IndexScan.antt =====
-- A scan of an index for equal values, against the scan of the collection.
use ved_db_server.Prelude.{
  ◌≡◌, refl, sym, ap, ◌⊎◌, inl, inr, Bool, true, false, none, some, List, [], ◌∷◌, arith,
  Bool-cases, Option-cases,
}
use Prim.Native.String.{String}
use ved_db_server.Prelude.Maps.{String-Eq, same_refl, lookup, insert}
use ved_db_server.Document.{Value, Document, bool, float64, string, binary, object_id, get_by_path}
use ved_db_server.Query.{Engine}
use ved_db_server.Query.Ast.{eq}
use ved_db_server.Query.Values.{same_value, same_bool}
use ved_db_server.Query.Filters.{matches_filter, test_or}
use ved_db_server.Query.Executor.{
  find_document, fetch, push_found, retain, execute_collection_scan, push_matching, unwrap_or_false,
}
use ved_db_server.Index.{ok}
use ved_db_server.Index.Keys.{
  IndexValue, from_value, cons_key, from_entry, create_index_entry, entry_fields, or_null,
}
use ved_db_server.Index.Order.{same_bytes_iff, is_exact, all_exact, same_key_iff}
use ved_db_server.Index.Build.{documents_at, is_at, document_key}

-- no two documents with one identifier
unfoldable pub distinct_ids : List Document → Bool
distinct_ids [] = true
distinct_ids (d ∷ docs) = elim (find_document d.id docs) [
  | none ↦ distinct_ids docs
  | some other ↦ false
]

-- documents that are found by their identifiers among all
pub data IsFound (all : List Document) : List Document → Type 0 where
  none_left : IsFound all []
  next :
      {d : Document} {docs : List Document}
      → find_document d.id all ≡ some d
      → IsFound all docs
      → IsFound all (d ∷ docs)

IsFound-later :
    (d : Document) (all docs : List Document) → IsFound all docs → IsFound (d ∷ all) docs
unfolding find_document
IsFound-later d all docs none_left = none_left
IsFound-later d all docs (next found rest) =
    next (rw (find_document, found) refl) (IsFound-later d all _ rest)

pub distinct_ids-IsFound : (docs : List Document) → distinct_ids docs ≡ true → IsFound docs docs
unfolding distinct_ids find_document
distinct_ids-IsFound [] x = none_left
distinct_ids-IsFound (d ∷ docs) x = elim (Option-cases (find_document d.id docs)) [
  | inl absent ↦
      next (rw (find_document, absent, (same_bytes_iff d.id d.id).1 refl) refl)
        (IsFound-later d docs docs (distinct_ids-IsFound docs (ground (arith, x, absent))))
  | inr (other, present) ↦ absurd (ground (arith, x, present))
]

lookup-insert_one : (f : String) (v : Value) → lookup f (insert f v []) ≡ some v
unfolding lookup insert
lookup-insert_one f v = ground (arith, same_refl f)

module _ (e : Engine) where
  same_value-from_value :
      (w v : Value) (a : IndexValue)
      → from_value e v ≡ ok a
      → is_exact a ≡ true
      → same_value e w v ≡ true
      → from_value e w ≡ ok a
  unfolding from_value is_exact same_value same_bool
  same_value-from_value (bool true) (bool true) a from x same = from
  same_value-from_value (bool false) (bool false) a from x same = from
  same_value-from_value (binary b) (binary c) a from x same = ground (arith, same_bytes_iff b c)
  same_value-from_value (object_id b) (object_id c) a from x same =
      ground (arith, same_bytes_iff b c)
  same_value-from_value (string s) (string t) a from x same = ground (arith, String-Eq.same_iff s t)
  same_value-from_value (float64 f) (float64 g) a from x same = ground arith
  same_value-from_value w v a from x same = ground arith

  -- the key of a document in an index on one field
  document_key-single :
      (f : String) (d : Document)
      → document_key e (f ∷ []) d ≡ cons_key e (from_value e (or_null (get_by_path d f))) (ok [])
  unfolding document_key create_index_entry entry_fields from_entry
  document_key-single f d =
      rw
        (
          document_key,
          from_entry,
          create_index_entry,
          entry_fields,
          lookup-insert_one f (or_null (get_by_path d f)),
        )
        refl

  -- A document that matches is under the key of the value.
  matches_filter-at :
      (f : String) (v : Value) (a : IndexValue) (d : Document)
      → from_value e v ≡ ok a
      → is_exact a ≡ true
      → matches_filter e d (eq f v) ≡ some true
      → is_at e (a ∷ []) (document_key e (f ∷ []) d) ≡ true
  unfolding matches_filter test_or or_null cons_key is_at all_exact
  matches_filter-at f v a d from x found = elim (Option-cases (get_by_path d f)) [
    | inl absent ↦ absurd (ground (arith, found, absent))
    | inr (w, at) ↦
        rw
          (
            document_key-single f d,
            at,
            or_null,
            same_value-from_value w v a from x (ground (arith, found, at)),
            cons_key,
            is_at,
          )
          ((same_key_iff e (a ∷ []) (a ∷ []) (rw (all_exact, x) refl)).1 refl)
  ]

  matches_filter-total :
      (f : String) (v : Value) (d : Document)
      → (matches_filter e d (eq f v) ≡ some true) ⊎ (matches_filter e d (eq f v) ≡ some false)
  unfolding matches_filter
  matches_filter-total f v d =
      elim (Bool-cases (test_or false (λ w. same_value e w v) (get_by_path d f))) [
        | inl found ↦ inl (ap some found)
        | inr other ↦ inr (ap some other)
      ]

  pub retain-fetch :
      (all docs : List Document) (f : String) (v : Value) (a : IndexValue)
      → from_value e v ≡ ok a
      → is_exact a ≡ true
      → IsFound all docs
      → some (retain e (eq f v) (fetch all (documents_at e (f ∷ []) (a ∷ []) docs)))
        ≡ execute_collection_scan e docs (eq f v)
  unfolding retain fetch documents_at execute_collection_scan push_matching push_found
      unwrap_or_false
  retain-fetch all [] f v a from x none_left = refl
  retain-fetch all (d ∷ docs) f v a from x (next found rest) =
      let later = retain-fetch all docs f v a from x rest in
      elim (matches_filter-total f v d) [
        | inl matched ↦
            rw
              (
                documents_at,
                matches_filter-at f v a d from x matched,
                fetch,
                found,
                push_found,
                retain,
                matched,
                execute_collection_scan,
                sym later,
                push_matching,
                unwrap_or_false,
              )
              refl
        | inr missed ↦ elim (Bool-cases (is_at e (a ∷ []) (document_key e (f ∷ []) d))) [
          | inl here ↦
              rw
                (
                  documents_at,
                  here,
                  fetch,
                  found,
                  push_found,
                  retain,
                  missed,
                  execute_collection_scan,
                  sym later,
                  push_matching,
                  unwrap_or_false,
                )
                refl
          | inr elsewhere ↦
              rw
                (documents_at, elsewhere, execute_collection_scan, missed, sym later, push_matching)
                refl
        ]
      ]
