-- ===== src/Index/Undo.antt =====
-- A removal of btree.rs, and that it takes an insertion back.
use ved_db_server.Prelude.{
  ◌≤◌, ◌≡◌, refl, ap, ◌∙◌, ◌⊎◌, inl, inr, Bool, true, false, ◌&&◌, List, [], ◌∷◌, ◌++◌, arith,
  if◌then◌else◌, Bool-cases,
}
use ved_db_server.Query.{Engine}
use ved_db_server.Index.{ok}
use ved_db_server.Index.Keys.{IndexKey, IndexEntry, from_entry, has_null}
use ved_db_server.Index.Tree.{
  Tree, BTreeIndex, DocumentId, insert, insert_key, remove, remove_key, drop_doc, added, has_id,
  without_id, docs_at, is_empty, same_key, find_exact,
}
use ved_db_server.Index.Order.{same_bytes_iff, all_exact, same_key_iff}
use ved_db_server.Index.Lookup.{docs_at-change, insert-tree}
use ved_db_server.Index.Build.{insert-keeps}
use ved_db_server.Index.Reach.{IsReached, inserted, count_key, docs_at-drop}
use ved_db_server.Index.Uniqueness.{IsReached-count}

has_id-added : (id : DocumentId) (ids : List DocumentId) → has_id id (ids ++ (id ∷ [])) ≡ true
unfolding has_id
has_id-added id [] = ground (arith, same_bytes_iff id id)
has_id-added id (x ∷ xs) = ground (arith, has_id-added id xs)

without_id-added :
    (id : DocumentId) (ids : List DocumentId)
    → has_id id ids ≡ false
    → without_id id (ids ++ (id ∷ [])) ≡ ids
unfolding has_id without_id
without_id-added id [] x = ground (arith, same_bytes_iff id id)
without_id-added id (y ∷ ys) x = ground (arith, without_id-added id ys)

empty_cases : (ids : List DocumentId) → (ids ≡ []) ⊎ (is_empty ids ≡ false)
unfolding is_empty
empty_cases [] = inl refl
empty_cases (x ∷ xs) = inr refl

module _ (e : Engine) where
  docs_at-same :
      (k q : IndexKey) (t : Tree)
      → all_exact k ≡ true
      → all_exact q ≡ true
      → same_key e k q ≡ true
      → docs_at e q t ≡ docs_at e k t
  unfolding docs_at
  docs_at-same k q [] x y same = refl
  docs_at-same k q ((j, ids) ∷ t) x y same = ground (
    arith,
    docs_at-same k q t x y same,
    same_key_iff e j q,
    same_key_iff e j k,
    same_key_iff e k q,
  )

  docs_at-drop_doc :
      (k q : IndexKey) (id : DocumentId) (t : Tree)
      → all_exact k ≡ true
      → all_exact q ≡ true
      → count_key e q t ≤ 1
      → docs_at e q (drop_doc e k id t)
        ≡ (if same_key e k q then without_id id (docs_at e q t) else docs_at e q t)
  unfolding drop_doc is_empty
  docs_at-drop_doc k q id t x y one = elim (Bool-cases (is_empty (without_id id (docs_at e k t)))) [
    | inl last ↦
        rw (drop_doc, last)
          (ground (
            arith,
            docs_at-drop e k q t y one,
            docs_at-same k q t x y,
            empty_cases (without_id id (docs_at e k t)),
          ))
    | inr more ↦ rw (drop_doc, more) (docs_at-change e k q (without_id id) t y)
  ]

  -- the documents after an insertion is taken back
  without_id-inserted :
      (i j : BTreeIndex) (id : DocumentId) (entry : IndexEntry) (k : IndexKey)
      → from_entry e entry i.fields ≡ ok k
      → i.sparse && has_null k ≡ false
      → insert e i id entry ≡ ok j
      → has_id id (docs_at e k i.tree) ≡ false
      → without_id id (added e i.unique id (docs_at e k i.tree)) ≡ docs_at e k i.tree
  unfolding insert insert_key added has_id
  without_id-inserted i j id entry k from full done new = elim (Bool-cases i.unique) [
    | inr many ↦ rw (added, many) (without_id-added id (docs_at e k i.tree) new)
    | inl one ↦ elim (empty_cases (docs_at e k i.tree)) [
      | inl nothing_there ↦ rw (added, one, nothing_there) (without_id-added id [] refl)
      | inr others ↦ absurd (ground (arith, done, from, full, new, one, others))
    ]
  ]

  remove-left_out :
      (i : BTreeIndex) (id : DocumentId) (entry : IndexEntry) (k : IndexKey)
      → from_entry e entry i.fields ≡ ok k
      → i.sparse && has_null k ≡ true
      → remove e i id entry ≡ ok (false, i)
  unfolding remove remove_key
  remove-left_out i id entry k from skipped = rw (remove, from, remove_key, skipped) refl

  remove-found :
      (i : BTreeIndex) (id : DocumentId) (entry : IndexEntry) (k : IndexKey)
      → from_entry e entry i.fields ≡ ok k
      → i.sparse && has_null k ≡ false
      → has_id id (docs_at e k i.tree) ≡ true
      → (j : BTreeIndex) × (remove e i id entry ≡ ok (true, j)) × (j.tree ≡ drop_doc e k id i.tree)
  unfolding remove remove_key
  remove-found i id entry k from full there = (
    (remove_key e i id entry k).1,
    rw (remove, from, remove_key, full, there) refl,
    rw (remove_key, full, there) refl,
  )

  insert-left_out :
      (i j : BTreeIndex) (id : DocumentId) (entry : IndexEntry) (k : IndexKey)
      → from_entry e entry i.fields ≡ ok k
      → i.sparse && has_null k ≡ true
      → insert e i id entry ≡ ok j
      → j ≡ i
  unfolding insert insert_key
  insert-left_out i j id entry k from skipped done = ground (arith, done, from, skipped)

  -- the documents of a key after a removal that follows an insertion
  docs_at-undone :
      (i j : BTreeIndex) (id : DocumentId) (entry : IndexEntry) (k q : IndexKey)
      → IsReached e i
      → from_entry e entry i.fields ≡ ok k
      → all_exact k ≡ true
      → i.sparse && has_null k ≡ false
      → has_id id (docs_at e k i.tree) ≡ false
      → insert e i id entry ≡ ok j
      → all_exact q ≡ true
      → docs_at e q (drop_doc e k id j.tree) ≡ docs_at e q i.tree
  docs_at-undone i j id entry k q r from x full new done y =
      let one = IsReached-count e (inserted id entry r done) q y in
      let tree = insert-tree e i j id entry k from full done in
      let changed = docs_at-change e k q (added e i.unique id) i.tree y in
      let undone = without_id-inserted i j id entry k from full done new in
      docs_at-drop_doc k q id j.tree x y one
      ∙ ground (arith, tree, changed, undone, docs_at-same k q i.tree x y)

  -- A document is under its key once it is inserted.
  insert-there :
      (i j : BTreeIndex) (id : DocumentId) (entry : IndexEntry) (k : IndexKey)
      → from_entry e entry i.fields ≡ ok k
      → all_exact k ≡ true
      → i.sparse && has_null k ≡ false
      → insert e i id entry ≡ ok j
      → has_id id (docs_at e k j.tree) ≡ true
  unfolding added has_id
  insert-there i j id entry k from x full done =
      let self = (same_key_iff e k k (rw (x) refl)).1 refl in
      rw
        (
          insert-tree e i j id entry k from full done,
          docs_at-change e k k (added e i.unique id) i.tree x,
          self,
        )
        (elim (Bool-cases i.unique) [
          | inl one ↦ rw (added, one) (has_id-added id [])
          | inr many ↦ rw (added, many) (has_id-added id (docs_at e k i.tree))
        ])

  -- In an index that was made by its operations, when a document is inserted whose key has no float and
  -- which is not yet under that key, the removal of the same entry succeeds, and every key without floats
  -- then finds the documents that it found before the insertion.
  pub remove-insert :
      (i j : BTreeIndex) (id : DocumentId) (entry : IndexEntry) (k : IndexKey)
      → IsReached e i
      → from_entry e entry i.fields ≡ ok k
      → all_exact k ≡ true
      → has_id id (find_exact e i k) ≡ false
      → insert e i id entry ≡ ok j
      → (found : Bool) × (i' : BTreeIndex) × (remove e j id entry ≡ ok (found, i'))
        × ((q : IndexKey) → all_exact q ≡ true → find_exact e i' q ≡ find_exact e i q)
  unfolding find_exact
  remove-insert i j id entry k r from x new done =
      let (fields, unique, sparse, name) = insert-keeps e i j id entry done in
      let from_j : from_entry e entry j.fields ≡ ok k = ap (from_entry e entry) fields ∙ from in
      elim (Bool-cases (i.sparse && has_null k)) [
        | inl skipped ↦
            let same = insert-left_out i j id entry k from skipped done in
            (
              false,
              j,
              remove-left_out j id entry k from_j (ap (λ s. s && has_null k) sparse ∙ skipped),
              λ q y. ap (λ h. docs_at e q h.tree) same,
            )
        | inr full ↦
            let there : has_id id (docs_at e k j.tree) ≡ true =
              insert-there i j id entry k from x full done in
            let (i', taken, tree) =
              remove-found j id entry k from_j (ap (λ s. s && has_null k) sparse ∙ full) there in
            (
              true,
              i',
              taken,
              λ q y.
                  ap (docs_at e q) tree ∙ docs_at-undone i j id entry k q r from x full new done y,
            )
      ]
