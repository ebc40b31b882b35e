-- ===== src/Index/Lookup.antt =====
-- What `insert` and `remove` of btree.rs do to the documents of a key.
use ved_db_server.Prelude.{◌≡◌, true, false, ◌&&◌, List, [], ◌∷◌, arith, if◌then◌else◌}
use ved_db_server.Query.{Engine}
use ved_db_server.Index.{ok}
use ved_db_server.Index.Keys.{IndexKey, IndexEntry, has_null, from_entry}
use ved_db_server.Index.Tree.{
  Tree, BTreeIndex, DocumentId, docs_at, change_docs, same_key, added, insert, insert_key,
  find_exact,
}
use ved_db_server.Index.Order.{all_exact, same_key_meet, same_key_transfer}

module _ (e : Engine) where
  pub docs_at-change :
      (k q : IndexKey) (f : List DocumentId → List DocumentId) (t : Tree)
      → all_exact q ≡ true
      → docs_at e q (change_docs e k f t)
        ≡ (if same_key e k q then f (docs_at e q t) else docs_at e q t)
  unfolding docs_at change_docs
  docs_at-change k q f [] x = ground arith
  docs_at-change k q f ((j, ids) ∷ t) x =
      ground (arith, docs_at-change k q f t x, same_key_meet e j k q x, same_key_transfer e j k q x)

  -- the tree of an insertion that succeeds on a key that is not left out
  pub insert-tree :
      (i j : BTreeIndex) (id : DocumentId) (entry : IndexEntry) (k : IndexKey)
      → from_entry e entry i.fields ≡ ok k
      → i.sparse && has_null k ≡ false
      → insert e i id entry ≡ ok j
      → j.tree ≡ change_docs e k (added e i.unique id) i.tree
  unfolding insert insert_key
  insert-tree i j id entry k from full done = ground arith

  -- An insertion adds the document to those of its key alone.
  pub find_exact-insert :
      (i j : BTreeIndex) (id : DocumentId) (entry : IndexEntry) (k q : IndexKey)
      → all_exact q ≡ true
      → from_entry e entry i.fields ≡ ok k
      → i.sparse && has_null k ≡ false
      → insert e i id entry ≡ ok j
      → find_exact e j q
        ≡ (if same_key e k q then added e i.unique id (find_exact e i q) else find_exact e i q)
  unfolding find_exact
  find_exact-insert i j id entry k q x from full done =
      rw (insert-tree i j id entry k from full done)
        (docs_at-change k q (added e i.unique id) i.tree x)
