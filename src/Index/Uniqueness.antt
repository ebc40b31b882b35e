-- ===== src/Index/Uniqueness.antt =====
-- How many entries a key has, and how many documents in a unique index, of btree.rs.
use ved_db_server.Prelude.{
  ◌≤◌, ◌≡◌, refl, sym, ap, ◌∙◌, ◌≢◌, ◌⊎◌, inl, inr, true, false, not, ◌&&◌, List, [], ◌∷◌, ◌++◌,
  arith, if◌then◌else◌, Bool-cases, length,
}
use ved_db_server.Query.{Engine}
use ved_db_server.Index.{ok, err, unique_constraint_violation}
use ved_db_server.Index.Keys.{IndexKey, IndexEntry, from_entry, has_null}
use ved_db_server.Index.Tree.{
  same_key, insert, insert_key, has_id, Tree, BTreeIndex, DocumentId, drop_doc, added, without_id,
  docs_at, is_empty, find_exact, clear,
}
use ved_db_server.Index.Order.{same_bytes_iff, all_exact}
use ved_db_server.Index.Build.{Result-cases}
use ved_db_server.Index.Lookup.{find_exact-insert}
use ved_db_server.Query.Values.{same_bytes}
use ved_db_server.Index.Reach.{
  IsReached, created, inserted, removed, cleared, count_key, count_key-change, count_key-drop,
  single_docs, single_docs-change, single_docs-drop, length-docs_at, length-without,
  insert-tree_cases, remove-tree_cases,
}

at_most_one :
    (ids : List DocumentId) → length ids ≤ 1 → (ids ≡ []) ⊎ ((id : DocumentId) × (ids ≡ id ∷ []))
at_most_one [] few = inl refl
at_most_one (id ∷ []) few = inr (id, refl)
at_most_one (id ∷ other ∷ ids) few = absurd (omega (arith, few))

module _ (e : Engine) where
  count_key-drop_doc :
      (k q : IndexKey) (id : DocumentId) (t : Tree)
      → all_exact q ≡ true
      → count_key e q t ≤ 1
      → count_key e q (drop_doc e k id t) ≤ 1
  unfolding drop_doc
  count_key-drop_doc k q id t x one =
      ground (arith, count_key-drop e k q t, count_key-change e k q (without_id id) t x)

  -- A key without floats has at most one entry.
  pub IsReached-count :
      {i : BTreeIndex}
      → IsReached e i
      → (q : IndexKey) → all_exact q ≡ true
      → count_key e q i.tree ≤ 1
  unfolding count_key clear
  IsReached-count (created name fields unique sparse) q x = ground arith
  IsReached-count (inserted {i} {j} id entry r done) q x =
      let before = IsReached-count r q x in
      elim (insert-tree_cases e i j id entry done).1 [
        | inl same ↦ rw (same) before
        | inr (k, changed) ↦
            rw (changed, count_key-change e k q (added e i.unique id) i.tree x) (ground arith)
      ]
  IsReached-count (removed {i} {j} id entry found r done) q x =
      let before = IsReached-count r q x in
      elim (remove-tree_cases e i j id entry found done).1 [
        | inl same ↦ rw (same) before
        | inr (k, changed) ↦ rw (changed) (count_key-drop_doc k q id i.tree x before)
      ]
  IsReached-count (cleared r) q x = ground arith

  single_docs-drop_doc :
      (k : IndexKey) (id : DocumentId) (t : Tree)
      → single_docs t ≡ true
      → single_docs (drop_doc e k id t) ≡ true
  unfolding drop_doc
  single_docs-drop_doc k id t x = elim (Bool-cases (is_empty (without_id id (docs_at e k t)))) [
    | inl last ↦ rw (drop_doc, last) (single_docs-drop e k t x)
    | inr more ↦
        rw (drop_doc, more)
          (single_docs-change e k (without_id id) t
            (λ ids few. ground (arith, length-without id ids, few)) x)
  ]

  IsReached-single : {i : BTreeIndex} → IsReached e i → i.unique ≡ true → single_docs i.tree ≡ true
  unfolding single_docs clear added
  IsReached-single (created name fields unique sparse) u = refl
  IsReached-single (inserted {i} {j} id entry r done) u =
      let (kept, tree) = insert-tree_cases e i j id entry done in
      let before = IsReached-single r (sym kept ∙ u) in
      elim tree [
        | inl same ↦ rw (same) before
        | inr (k, changed) ↦ rw (changed) (
            single_docs-change e k (added e i.unique id) i.tree
              (λ ids few. rw (sym kept ∙ u, added) (ground arith)) before)
      ]
  IsReached-single (removed {i} {j} id entry found r done) u =
      let (kept, tree) = remove-tree_cases e i j id entry found done in
      let before = IsReached-single r (sym kept ∙ u) in
      elim tree [
        | inl same ↦ rw (same) before
        | inr (k, changed) ↦ rw (changed) (single_docs-drop_doc k id i.tree before)
      ]
  IsReached-single (cleared r) u = refl

  -- In a unique index, no key has two documents.
  find_exact-unique :
      (i : BTreeIndex)
      → IsReached e i
      → i.unique ≡ true
      → (q : IndexKey) → length (find_exact e i q) ≤ 1
  unfolding find_exact
  find_exact-unique i r u q = length-docs_at e q i.tree (IsReached-single r u)

  -- an insertion under a key that no other document has
  insert-free :
      (i : BTreeIndex) (id : DocumentId) (entry : IndexEntry) (k : IndexKey)
      → i.unique ≡ true
      → from_entry e entry i.fields ≡ ok k
      → i.sparse && has_null k ≡ false
      → not (is_empty (docs_at e k i.tree)) && not (has_id id (docs_at e k i.tree)) ≡ false
      → (j : BTreeIndex) × (insert e i id entry ≡ ok j)
  unfolding insert insert_key
  insert-free i id entry k u from full free = elim (Result-cases (insert e i id entry)) [
    | inl (why, refused) ↦ absurd (ground (arith, refused, from, full, free))
    | inr taken ↦ taken
  ]

  insert-taken :
      (i : BTreeIndex) (id : DocumentId) (entry : IndexEntry) (k : IndexKey)
      → i.unique ≡ true
      → from_entry e entry i.fields ≡ ok k
      → i.sparse && has_null k ≡ false
      → not (is_empty (docs_at e k i.tree)) && not (has_id id (docs_at e k i.tree)) ≡ true
      → insert e i id entry ≡ err (unique_constraint_violation i.name)
  unfolding insert insert_key
  insert-taken i id entry k u from full taken = ground (arith, u, from, full, taken)

  -- the second outcome, when no other document has the key
  insert-single :
      (i : BTreeIndex) (id : DocumentId) (entry : IndexEntry) (k : IndexKey)
      → i.unique ≡ true
      → from_entry e entry i.fields ≡ ok k
      → i.sparse && has_null k ≡ false
      → not (is_empty (docs_at e k i.tree)) && not (has_id id (docs_at e k i.tree)) ≡ false
      → (j : BTreeIndex) × (insert e i id entry ≡ ok j)
        × ((q : IndexKey)
            → all_exact q ≡ true
            → find_exact e j q ≡ (if same_key e k q then id ∷ [] else find_exact e i q))
  unfolding added
  insert-single i id entry k u from full free =
      let (j, done) = insert-free i id entry k u from full free in
      (
        j,
        done,
        λ q y.
            find_exact-insert e i j id entry k q y from full done
            ∙ ap
                (λ b.
                  if same_key e k q
                  then (if b then id ∷ [] else find_exact e i q ++ (id ∷ []))
                  else find_exact e i q)
                u,
      )

  -- When an entry, whose key has no float and is not left out, goes to a unique index, made by its
  -- operations in any order, then either another document has the key, and the insertion is refused with
  -- the violation of the index; or no other document has it, and the insertion succeeds: then each key
  -- without floats finds this document alone if it is the same key, and else what it found before.
  pub insert-unique :
      (i : BTreeIndex) (id : DocumentId) (entry : IndexEntry) (k : IndexKey)
      → IsReached e i
      → i.unique ≡ true
      → from_entry e entry i.fields ≡ ok k
      → all_exact k ≡ true
      → i.sparse && has_null k ≡ false
      → (q : IndexKey) → all_exact q ≡ true
      → ((other : DocumentId) × (find_exact e i k ≡ other ∷ [])
          × (other ≢ id)
          × (insert e i id entry ≡ err (unique_constraint_violation i.name)))
        ⊎ ((j : BTreeIndex) × (insert e i id entry ≡ ok j)
            × ((find_exact e i k ≡ []) ⊎ (find_exact e i k ≡ id ∷ []))
            × (find_exact e j q ≡ (if same_key e k q then id ∷ [] else find_exact e i q)))
  unfolding find_exact is_empty has_id
  insert-unique i id entry k r u from x full q y =
      elim (at_most_one (docs_at e k i.tree) (find_exact-unique i r u k)) [
        | inl nothing_there ↦
            let (j, done, found) =
              insert-single i id entry k u from full (rw (nothing_there, is_empty) refl) in
            inr (j, done, inl nothing_there, found q y)
        | inr (other, there) ↦ elim (Bool-cases (same_bytes other id)) [
          | inl same ↦
              let (j, done, found) =
                insert-single i id entry k u from full (rw (there, is_empty, has_id, same) refl) in
              inr (
                j,
                done,
                inr (there ∙ ap (λ o. o ∷ []) ((same_bytes_iff other id).0 same)),
                found q y,
              )
          | inr apart ↦ inl (
            other,
            there,
            λ same. ground (arith, apart, (same_bytes_iff other id).1 same),
            insert-taken i id entry k u from full (rw (there, is_empty, has_id, apart) refl),
          )
        ]
      ]
