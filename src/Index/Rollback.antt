-- ===== src/Index/Rollback.antt =====
-- What `insert_document` of index/manager.rs leaves when an index refuses the document.
use ved_db_server.Prelude.{
  ◌≡◌, refl, sym, ap, subst, ◌∙◌, ◌≢◌, inl, inr, Bool, true, false, not, ◌&&◌, Option, none, some,
  [], ◌∷◌, arith, Option-cases, All,
}
use Prim.Native.String.{String}
use ved_db_server.Prelude.Maps.{
  Map, String-Eq, same_refl, lookup, distinct, distinct-absent, distinct-rest,
}
use ved_db_server.Document.{Document}
use ved_db_server.Query.{Engine}
use ved_db_server.Index.{IndexError, ok, err}
use ved_db_server.Index.Keys.{IndexKey, create_index_entry}
use ved_db_server.Index.Tree.{BTreeIndex, DocumentId, find_exact, has_id}
use ved_db_server.Index.Tree as Tree
use ved_db_server.Index.Statistics.{record_insert}
use ved_db_server.Index.Manager.{
  IndexManager, insert_all, insert_outcome, rollback_insertions, remove_outcome, keep, rolled_back,
  insert_or_rollback, counted, insert_document,
}
use ved_db_server.Index.Order.{all_exact}
use ved_db_server.Index.Build.{Result-cases, document_key, insert-keeps, insert-key}
use ved_db_server.Index.Reach.{IsReached}
use ved_db_server.Index.Undo.{remove-insert}

module _ (e : Engine) where
  -- a document that has a key without floats in the index, if it has one, and is not yet under it
  unfoldable pub is_new : DocumentId → Document → BTreeIndex → Bool
  is_new id d i = elim (document_key e i.fields d) [
    | err why ↦ true
    | ok k ↦ all_exact k && not (has_id id (find_exact e i k))
  ]

  -- indexes that were made by their operations, to which the document is new
  abbrev pub AreReady : DocumentId → Document → Map String BTreeIndex → Type 0
  AreReady id d m = All (λ i. IsReached e i.1 × (is_new id d i.1 ≡ true)) m

  -- indexes of the same names that find the same documents under each key without floats
  pub data HaveSameAnswers : Map String BTreeIndex → Map String BTreeIndex → Type 0 where
    no_indexes : HaveSameAnswers [] []
    one_more :
        {n : String} {i j : BTreeIndex} {m l : Map String BTreeIndex}
        → ((q : IndexKey) → all_exact q ≡ true → find_exact e j q ≡ find_exact e i q)
        → HaveSameAnswers m l
        → HaveSameAnswers ((n, i) ∷ m) ((n, j) ∷ l)

  HaveSameAnswers-refl : (m : Map String BTreeIndex) → HaveSameAnswers m m
  HaveSameAnswers-refl [] = no_indexes
  HaveSameAnswers-refl ((n, i) ∷ m) = one_more (λ q x. refl) (HaveSameAnswers-refl m)

  -- The index that refuses is one of the indexes.
  insert_all-refusing :
      (id : DocumentId) (d : Document) (m : Map String BTreeIndex) (failed : String)
      (why : IndexError)
      → (insert_all e id d m).1 ≡ some (failed, why)
      → lookup failed m ≢ none
  unfolding insert_all insert_outcome keep lookup
  insert_all-refusing id d [] failed why stopped missing = ground (arith, stopped)
  insert_all-refusing id d ((n, i) ∷ m) failed why stopped missing =
      elim (Result-cases (Tree.insert e i id (create_index_entry d i.fields))) [
        | inl (refused, at) ↦ ground (arith, stopped, at, missing, same_refl n)
        | inr (j, done) ↦
            ground (arith, stopped, done, missing, insert_all-refusing id d m failed why)
      ]

  -- the facts on a new document that an index takes
  insert-new :
      (i j : BTreeIndex) (id : DocumentId) (d : Document)
      → IsReached e i
      → is_new id d i ≡ true
      → Tree.insert e i id (create_index_entry d i.fields) ≡ ok j
      → (found : Bool) × (i' : BTreeIndex) × (Tree.remove e j id (create_index_entry d j.fields)
          ≡ ok (found, i'))
        × ((q : IndexKey) → all_exact q ≡ true → find_exact e i' q ≡ find_exact e i q)
  unfolding is_new document_key
  insert-new i j id d r new done =
      let (k, from) = insert-key e i j id (create_index_entry d i.fields) done in
      let (fields, unique, sparse, name) =
        insert-keeps e i j id (create_index_entry d i.fields) done in
      let (found, i', taken, same) =
        remove-insert e i j id (create_index_entry d i.fields) k r from (ground (arith, new, from))
          (ground (arith, new, from)) done in
      (found, i', ap (λ fs. Tree.remove e j id (create_index_entry d fs)) fields ∙ taken, same)

  insert_all-refused_here :
      (id : DocumentId) (d : Document) (n : String) (i : BTreeIndex) (m : Map String BTreeIndex)
      (why : IndexError)
      → Tree.insert e i id (create_index_entry d i.fields) ≡ err why
      → insert_all e id d ((n, i) ∷ m) ≡ ((n, i) ∷ m, some (n, why))
  unfolding insert_all insert_outcome
  insert_all-refused_here id d n i m why at = rw (insert_all, at, insert_outcome) refl

  insert_all-taken :
      (id : DocumentId) (d : Document) (n : String) (i j : BTreeIndex) (m : Map String BTreeIndex)
      → Tree.insert e i id (create_index_entry d i.fields) ≡ ok j
      → insert_all e id d ((n, i) ∷ m) ≡ ((n, j) ∷ (insert_all e id d m).0, (insert_all e id d m).1)
  unfolding insert_all insert_outcome keep
  insert_all-taken id d n i j m done = rw (insert_all, done, insert_outcome) refl

  rollback-undoes :
      (id : DocumentId) (d : Document) (failed n : String) (j i' : BTreeIndex) (found : Bool)
      (l : Map String BTreeIndex)
      → String-Eq.same n failed ≡ false
      → Tree.remove e j id (create_index_entry d j.fields) ≡ ok (found, i')
      → rollback_insertions e id d failed ((n, j) ∷ l) ≡ (
        (n, i') ∷ (rollback_insertions e id d failed l).0,
        (rollback_insertions e id d failed l).1,
      )
  unfolding rollback_insertions remove_outcome keep
  rollback-undoes id d failed n j i' found l other taken =
      rw (rollback_insertions, other, taken, remove_outcome) refl

  rollback-stops :
      (id : DocumentId) (d : Document) (n : String) (i : BTreeIndex) (m : Map String BTreeIndex)
      → rollback_insertions e id d n ((n, i) ∷ m) ≡ ((n, i) ∷ m, none)
  unfolding rollback_insertions
  rollback-stops id d n i m = rw (rollback_insertions, same_refl n) refl

  rollback-insert_all :
      (id : DocumentId) (d : Document) (m : Map String BTreeIndex) (failed : String)
      (why : IndexError)
      → AreReady id d m
      → distinct m ≡ true
      → (insert_all e id d m).1 ≡ some (failed, why)
      → (l : Map String BTreeIndex) × (rollback_insertions e id d failed (insert_all e id d m).0
          ≡ (l, none))
        × HaveSameAnswers m l
  unfolding insert_all
  rollback-insert_all id d [] failed why ready once stopped = absurd (ground (arith, stopped))
  rollback-insert_all id d ((n, i) ∷ m) failed why ((r, new), ready) once stopped =
      elim (Result-cases (Tree.insert e i id (create_index_entry d i.fields))) [
        | inl (refused, at) ↦
            let call = insert_all-refused_here id d n i m refused at in
            let name : n ≡ failed = ground (arith, sym (ap (λ r. r.1) call) ∙ stopped) in
            (
              (n, i) ∷ m,
              ap (λ r. rollback_insertions e id d failed r.0) call
                  ∙ subst (λ f. rollback_insertions e id d f ((n, i) ∷ m) ≡ ((n, i) ∷ m, none)) name
                      (rollback-stops id d n i m),
              HaveSameAnswers-refl ((n, i) ∷ m),
            )
        | inr (j, done) ↦
            let call = insert_all-taken id d n i j m done in
            let later : (insert_all e id d m).1 ≡ some (failed, why) =
              sym (ap (λ r. r.1) call) ∙ stopped in
            let other : String-Eq.same n failed ≡ false = ground (
              arith,
              String-Eq.same_iff n failed,
              distinct-absent n i m once,
              insert_all-refusing id d m failed why later,
            ) in
            let (found, i', taken, same) = insert-new i j id d r new done in
            let (l, back, all_same) =
              rollback-insert_all id d m failed why ready (distinct-rest n i m once) later in
            (
              (n, i') ∷ l,
              ap (λ r. rollback_insertions e id d failed r.0) call
                  ∙ rollback-undoes id d failed n j i' found (insert_all e id d m).0 other taken
                  ∙ ap (λ r. ((n, i') ∷ r.0, r.1)) back,
              one_more same all_same,
            )
      ]

  accepted_answer :
      (m : IndexManager) (id : DocumentId) (d : Document)
      (r : Map String BTreeIndex × Option (String × IndexError))
      → r.1 ≡ none
      → (counted e record_insert m (insert_or_rollback e id d r)).1 ≡ none
  unfolding counted insert_or_rollback
  accepted_answer m id d (l, none) fine = refl
  accepted_answer m id d (l, some failed) fine = absurd (ground (arith, fine))

  refused_answer :
      (m : IndexManager) (id : DocumentId) (d : Document)
      (r : Map String BTreeIndex × Option (String × IndexError)) (failed : String)
      (why : IndexError) (l : Map String BTreeIndex)
      → r.1 ≡ some (failed, why)
      → rollback_insertions e id d failed r.0 ≡ (l, none)
      → counted e record_insert m (insert_or_rollback e id d r)
        ≡ (record m { indexes = l }, some why)
  unfolding counted insert_or_rollback rolled_back
  refused_answer m id d (k, none) failed why l stopped back = absurd (ground (arith, stopped))
  refused_answer m id d (k, some (f, c)) failed why l stopped back =
      let name : f ≡ failed = ground (arith, stopped) in
      let cause : c ≡ why = ground (arith, stopped) in rw (name, cause, back) refl

  -- An insertion of a document that has a key without floats in every index where it has one, and is
  -- under none of them yet, into a manager whose indexes were made by their operations: when it answers an
  -- error, every index finds under each key without floats what it found before, no operation is
  -- counted, and the error is that of an index that refused the document, not one of the rollback.
  pub insert_document-refused :
      (m m' : IndexManager) (id : DocumentId) (d : Document) (why : IndexError)
      → AreReady id d m.indexes
      → distinct m.indexes ≡ true
      → insert_document e m id d ≡ (m', some why)
      → HaveSameAnswers m.indexes m'.indexes
        × (m'.statistics ≡ m.statistics)
        × ((failed : String) × ((insert_all e id d m.indexes).1 ≡ some (failed, why)))
  unfolding insert_document
  insert_document-refused m m' id d why ready once refused =
      elim (Option-cases (insert_all e id d m.indexes).1) [
        | inl fine ↦ absurd (
            ground (
              arith,
              sym (ap (λ r. r.1) refused)
                  ∙ accepted_answer m id d (insert_all e id d m.indexes) fine,
            ))
        | inr ((failed, cause), stopped) ↦
            let (l, back, same) =
              rollback-insert_all id d m.indexes failed cause ready once stopped in
            let answer =
              sym refused
              ∙ refused_answer m id d (insert_all e id d m.indexes) failed cause l stopped back in
            let cause_is : cause ≡ why = ground (arith, ap (λ r. r.1) answer) in
            (
              subst (HaveSameAnswers m.indexes) (sym (ap (λ r. r.0.indexes) answer)) same,
              ap (λ r. r.0.statistics) answer,
              (
                failed,
                subst (λ c. (insert_all e id d m.indexes).1 ≡ some (failed, c)) cause_is stopped,
              ),
            )
      ]
