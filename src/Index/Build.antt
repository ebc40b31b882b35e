-- ===== src/Index/Build.antt =====
-- What the loop of `build_index` of index/builder.rs puts under a key.
use ved_db_server.Prelude.{
  ◌≡◌, refl, sym, ap, ◌∙◌, ◌⊎◌, inl, inr, Bool, true, false, none, some, List, [], ◌∷◌, ◌++◌, arith,
  if◌then◌else◌, Bool-cases,
}
use mathlib.Core.List.{append-nil, append_assoc}
use ved_db_server.Document.{Document}
use ved_db_server.Query.{Engine}
use ved_db_server.Index.{String, Result, IndexError, ok, err}
use ved_db_server.Index.Keys.{IndexKey, IndexEntry, from_entry, create_index_entry}
use ved_db_server.Index.Tree.{
  BTreeIndex, DocumentId, same_key, insert, insert_key, find_exact, added,
}
use ved_db_server.Index.Manager.{build_index}
use ved_db_server.Index.Order.{all_exact}
use ved_db_server.Index.Lookup.{find_exact-insert}

pub Result-cases {ℓ} :
    {A : Type ℓ} (r : Result A) → ((why : IndexError) × (r ≡ err why)) ⊎ ((a : A) × (r ≡ ok a))
Result-cases (err why) = inl (why, refl)
Result-cases (ok a) = inr (a, refl)

module _ (e : Engine) where
  -- the key of a document in an index on the fields
  unfoldable pub document_key : List String → Document → Result IndexKey
  document_key fs d = from_entry e (create_index_entry d fs) fs

  unfoldable pub is_at : IndexKey → Result IndexKey → Bool
  is_at q (err why) = false
  is_at q (ok k) = same_key e k q

  -- the documents of a key in their order
  unfoldable pub documents_at : List String → IndexKey → List Document → List DocumentId
  documents_at fs q [] = []
  documents_at fs q (d ∷ docs) =
      if is_at q (document_key fs d) then d.id ∷ documents_at fs q docs else documents_at fs q docs

  pub insert-keeps :
      (i j : BTreeIndex) (id : DocumentId) (entry : IndexEntry)
      → insert e i id entry ≡ ok j
      → (j.fields ≡ i.fields) × (j.unique ≡ i.unique) × (j.sparse ≡ i.sparse) × (j.name ≡ i.name)
  unfolding insert insert_key
  insert-keeps i j id entry done = ground arith

  pub insert-key :
      (i j : BTreeIndex) (id : DocumentId) (entry : IndexEntry)
      → insert e i id entry ≡ ok j
      → (k : IndexKey) × (from_entry e entry i.fields ≡ ok k)
  unfolding insert
  insert-key i j id entry done = elim (Result-cases (from_entry e entry i.fields)) [
    | inl (why, from) ↦ absurd (ground (arith, from))
    | inr found ↦ found
  ]

  build_index-stopped :
      (d : Document) (docs : List Document) (i : BTreeIndex) (why : IndexError)
      → insert e i d.id (create_index_entry d i.fields) ≡ err why
      → build_index e i (d ∷ docs) ≡ (i, some why)
  unfolding build_index
  build_index-stopped d docs i why stopped = rw (build_index, stopped) refl

  build_index-next :
      (d : Document) (docs : List Document) (i i' : BTreeIndex)
      → insert e i d.id (create_index_entry d i.fields) ≡ ok i'
      → build_index e i (d ∷ docs) ≡ build_index e i' docs
  unfolding build_index
  build_index-next d docs i i' done = rw (build_index, done) refl

  -- the documents of a key when one more is inserted
  documents_at-next :
      (i i' : BTreeIndex) (d : Document) (q : IndexKey) (rest : List DocumentId)
      → all_exact q ≡ true
      → i.unique ≡ false
      → i.sparse ≡ false
      → insert e i d.id (create_index_entry d i.fields) ≡ ok i'
      → find_exact e i' q ++ rest
        ≡ find_exact e i q ++ (if is_at q (document_key i.fields d) then d.id ∷ rest else rest)
  unfolding document_key is_at added find_exact
  documents_at-next i i' d q rest x plain full done =
      let (k, from) = insert-key i i' d.id (create_index_entry d i.fields) done in
      let found =
        find_exact-insert e i i' d.id (create_index_entry d i.fields) k q x from (rw full refl)
          done in
      elim (Bool-cases (same_key e k q)) [
        | inl here ↦
            rw (found, document_key, from, is_at, here, plain, added)
              (append_assoc (find_exact e i q) (d.id ∷ []) rest)
        | inr elsewhere ↦ rw (found, document_key, from, is_at, elsewhere) refl
      ]

  pub build_index-find_exact :
      (docs : List Document) (i j : BTreeIndex) (q : IndexKey)
      → all_exact q ≡ true
      → i.unique ≡ false
      → i.sparse ≡ false
      → build_index e i docs ≡ (j, none)
      → find_exact e j q ≡ find_exact e i q ++ documents_at i.fields q docs
  unfolding build_index documents_at
  build_index-find_exact [] i j q x plain full built =
      rw (sym (ap (λ r. r.0) built)) (sym (append-nil (find_exact e i q)))
  build_index-find_exact (d ∷ docs) i j q x plain full built =
      elim (Result-cases (insert e i d.id (create_index_entry d i.fields))) [
        | inl (why, stopped) ↦
            absurd (ground (arith, sym built ∙ build_index-stopped d docs i why stopped))
        | inr (i', done) ↦
            let (fields, unique, sparse, name) =
              insert-keeps i i' d.id (create_index_entry d i.fields) done in
            let rest =
              build_index-find_exact docs i' j q x (unique ∙ plain) (sparse ∙ full)
                (sym (build_index-next d docs i i' done) ∙ built) in
            rest
            ∙ ap (λ fs. find_exact e i' q ++ documents_at fs q docs) fields
            ∙ documents_at-next i i' d q (documents_at i.fields q docs) x plain full done
      ]
