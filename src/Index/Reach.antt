-- ===== src/Index/Reach.antt =====
-- What holds of each index that the operations of btree.rs make.
use ved_db_server.Prelude.{
  ℕ, ◌+◌, ◌≤◌, max, ◌≡◌, refl, ◌⊎◌, inl, inr, Bool, true, not, ◌&&◌, List, [], ◌∷◌, arith, leb,
  if◌then◌else◌, Bool-cases, length,
}
use Prim.Native.String.{String}
use ved_db_server.Query.{Engine}
use ved_db_server.Index.{ok}
use ved_db_server.Index.Keys.{IndexKey, IndexEntry, from_entry, has_null}
use ved_db_server.Index.Tree.{
  Tree, BTreeIndex, DocumentId, new, clear, insert, insert_key, remove, remove_key, drop_doc,
  docs_at, change_docs, drop_key, added, without_id, same_key, has_id,
}
use ved_db_server.Index.Order.{all_exact, same_key_meet, same_key_transfer}
use ved_db_server.Index.Build.{Result-cases}

-- how many entries of the tree have the key
unfoldable pub count_key : Engine → IndexKey → Tree → ℕ
count_key e q [] = 0
count_key e q ((j, ids) ∷ t) = (if same_key e j q then 1 else 0) + count_key e q t

-- no key with two documents
unfoldable pub single_docs : Tree → Bool
single_docs [] = true
single_docs ((j, ids) ∷ t) = leb (length ids) 1 && single_docs t

pub length-without :
    (id : DocumentId) (ids : List DocumentId) → length (without_id id ids) ≤ length ids
unfolding without_id
length-without id [] = ground arith
length-without id (x ∷ xs) = ground (arith, length-without id xs)

module _ (e : Engine) where
  -- the indexes that the operations lead to
  pub data IsReached : BTreeIndex → Type 0 where
    created :
        (name : String) (fields : List String) (unique sparse : Bool)
        → IsReached (new name fields unique sparse)
    inserted :
        {i j : BTreeIndex} (id : DocumentId) (entry : IndexEntry)
        → IsReached i
        → insert e i id entry ≡ ok j
        → IsReached j
    removed :
        {i j : BTreeIndex} (id : DocumentId) (entry : IndexEntry) (found : Bool)
        → IsReached i
        → remove e i id entry ≡ ok (found, j)
        → IsReached j
    cleared : {i : BTreeIndex} → IsReached i → IsReached (clear i)

  pub count_key-change :
      (k q : IndexKey) (f : List DocumentId → List DocumentId) (t : Tree)
      → all_exact q ≡ true
      → count_key e q (change_docs e k f t)
        ≡ max (count_key e q t) (if same_key e k q then 1 else 0)
  unfolding count_key change_docs
  count_key-change k q f [] x = ground arith
  count_key-change k q f ((j, ids) ∷ t) x =
      ground
        (arith, count_key-change k q f t x, same_key_meet e j k q x, same_key_transfer e j k q x)

  pub count_key-drop :
      (k q : IndexKey) (t : Tree) → count_key e q (drop_key e k t) ≤ count_key e q t
  unfolding count_key drop_key
  count_key-drop k q [] = ground arith
  count_key-drop k q ((j, ids) ∷ t) = ground (arith, count_key-drop k q t)

  pub docs_at-none : (q : IndexKey) (t : Tree) → count_key e q t ≡ 0 → docs_at e q t ≡ []
  unfolding count_key docs_at
  docs_at-none q [] x = refl
  docs_at-none q ((j, ids) ∷ t) x = ground (arith, docs_at-none q t)

  pub docs_at-drop :
      (k q : IndexKey) (t : Tree)
      → all_exact q ≡ true
      → count_key e q t ≤ 1
      → docs_at e q (drop_key e k t) ≡ (if same_key e k q then [] else docs_at e q t)
  unfolding count_key docs_at drop_key
  docs_at-drop k q [] x one = ground arith
  docs_at-drop k q ((j, ids) ∷ t) x one = ground (
    arith,
    docs_at-drop k q t x,
    docs_at-none q t,
    same_key_meet e j k q x,
    same_key_transfer e j k q x,
  )

  pub single_docs-change :
      (k : IndexKey) (f : List DocumentId → List DocumentId) (t : Tree)
      → ((ids : List DocumentId) → length ids ≤ 1 → length (f ids) ≤ 1)
      → single_docs t ≡ true
      → single_docs (change_docs e k f t) ≡ true
  unfolding single_docs change_docs
  single_docs-change k f [] few x = ground (arith, few [])
  single_docs-change k f ((j, ids) ∷ t) few x =
      ground (arith, few ids, single_docs-change k f t few)

  pub single_docs-drop :
      (k : IndexKey) (t : Tree) → single_docs t ≡ true → single_docs (drop_key e k t) ≡ true
  unfolding single_docs drop_key
  single_docs-drop k [] x = refl
  single_docs-drop k ((j, ids) ∷ t) x = ground (arith, single_docs-drop k t)

  pub length-docs_at : (q : IndexKey) (t : Tree) → single_docs t ≡ true → length (docs_at e q t) ≤ 1
  unfolding single_docs docs_at
  length-docs_at q [] x = ground arith
  length-docs_at q ((j, ids) ∷ t) x = ground (arith, length-docs_at q t)

  -- The tree after an operation is the tree before, or that with the documents of a key changed.
  pub insert-tree_cases :
      (i j : BTreeIndex) (id : DocumentId) (entry : IndexEntry)
      → insert e i id entry ≡ ok j
      → (j.unique ≡ i.unique)
        × ((j.tree ≡ i.tree)
            ⊎ ((k : IndexKey) × (j.tree ≡ change_docs e k (added e i.unique id) i.tree)))
  unfolding insert insert_key
  insert-tree_cases i j id entry done = elim (Result-cases (from_entry e entry i.fields)) [
    | inl (why, none_made) ↦ absurd (ground (arith, done, none_made))
    | inr (k, from) ↦ elim (Bool-cases (i.sparse && has_null k)) [
      | inl left_out ↦ (ground arith, inl (ground arith))
      | inr full ↦ (ground arith, inr (k, ground arith))
    ]
  ]

  pub remove-tree_cases :
      (i j : BTreeIndex) (id : DocumentId) (entry : IndexEntry) (found : Bool)
      → remove e i id entry ≡ ok (found, j)
      → (j.unique ≡ i.unique)
        × ((j.tree ≡ i.tree) ⊎ ((k : IndexKey) × (j.tree ≡ drop_doc e k id i.tree)))
  unfolding remove remove_key
  remove-tree_cases i j id entry found done = elim (Result-cases (from_entry e entry i.fields)) [
    | inl (why, none_made) ↦ absurd (ground (arith, done, none_made))
    | inr (k, from) ↦
        elim (Bool-cases (not (i.sparse && has_null k) && has_id id (docs_at e k i.tree))) [
          | inl there ↦ (ground arith, inr (k, ground arith))
          | inr missing ↦ (ground arith, inl (ground arith))
        ]
  ]
