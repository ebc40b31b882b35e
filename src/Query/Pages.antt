-- ===== src/Query/Pages.antt =====
-- The pages of an answer, by `skip` and `limit` of query/executor.rs.
use ved_db_server.Prelude.{
  ℕ, zero, suc, ◌+◌, ◌*◌, ◌≤◌, ◌≡◌, refl, sym, ap, ◌∙◌, inl, inr, Option, none, some, List, [], ◌∷◌,
  ◌++◌, arith, Option-cases, length, take, drop,
}
use Prim.Native.String.{String}
use ved_db_server.Document.{Document}
use ved_db_server.Query.{Engine}
use ved_db_server.Query.Ast.{Query, Projection, Sort, SortOrder}
use ved_db_server.Query.Planner.{create_plan}
use ved_db_server.Query.Executor.{
  QueryExecutor, execute, execute_index_scan, execute_collection_scan, post_processed,
  apply_post_processing, apply_projection, project, put_sorted, sorted_by, apply_sort,
  skip_documents, limit_documents,
}

take-drop : (n : ℕ) (xs : List Document) → take n xs ++ drop n xs ≡ xs
take-drop zero xs = refl
take-drop (suc n) [] = refl
take-drop (suc n) (x ∷ xs) = ap (◌∷◌ x) (take-drop n xs)

drop-drop : (n s : ℕ) (xs : List Document) → drop (s + n) xs ≡ drop n (drop s xs)
drop-drop n zero xs = ap (λ k. drop k xs) (omega arith)
drop-drop zero (suc s) [] = ap (λ k. drop k []) {x = suc s + 0} {y = suc s} (omega arith)
drop-drop (suc n) (suc s) [] =
    ap (λ k. drop k []) {x = suc s + suc n} {y = suc (s + suc n)} (omega arith)
drop-drop n (suc s) (x ∷ xs) =
    ap (λ k. drop k (x ∷ xs)) {x = suc s + n} {y = suc (s + n)} (omega arith) ∙ drop-drop n s xs

take-drop_next : (n s : ℕ) (xs : List Document) → take n (drop s xs) ++ drop (s + n) xs ≡ drop s xs
take-drop_next n s xs =
    ap (λ ys. take n (drop s xs) ++ ys) (drop-drop n s xs) ∙ take-drop n (drop s xs)

drop-all : (n : ℕ) (xs : List Document) → length xs ≤ n → drop n xs ≡ []
drop-all zero [] few = refl
drop-all zero (x ∷ xs) few = absurd (omega arith)
drop-all (suc n) [] few = refl
drop-all (suc n) (x ∷ xs) few = drop-all n xs (omega arith)

-- one page of a query
unfoldable pub page : Query → ℕ → ℕ → Query
page q start size = record q { skip = some start; limit = some size }

unfoldable pub unpaged : Query → Query
unpaged q = record q { skip = none; limit = none }

unfoldable pub joined : Option (List Document) → Option (List Document) → Option (List Document)
joined none rest = none
joined (some docs) none = none
joined (some docs) (some more) = some (docs ++ more)

module _ (e : Engine) where
  -- the documents of so many pages from a start
  unfoldable pub pages :
      ℕ → QueryExecutor → List Document → Query → ℕ → ℕ → ℕ → Option (List Document)
  pages now x docs q start size zero = some []
  pages now x docs q start size (suc count) =
      joined (execute e now x docs (page q start size)).1
        (pages now x docs q (start + size) size count)

  -- the documents before they are sorted, which no page changes
  unfoldable scanned : QueryExecutor → List Document → Query → Option (List Document)
  scanned x docs q = elim ((create_plan e x.index_selector q).use_index) [
    | some name ↦ (execute_index_scan e x docs q).1
    | none ↦ execute_collection_scan e docs q.filter
  ]

  unfoldable after_scan : ℕ → Query → Option (List Document) → Option (List Document)
  after_scan now q none = none
  after_scan now q (some docs) = some (apply_post_processing e now docs q)

  answer :
      (now : ℕ) (q : Query) (x : QueryExecutor) (r : Option (List Document))
      → (post_processed e now q (x, r)).1 ≡ after_scan now q r
  unfolding post_processed after_scan
  answer now q x none = refl
  answer now q x (some docs) = refl

  execute-scanned :
      (now : ℕ) (x : QueryExecutor) (docs : List Document) (q : Query)
      → (execute e now x docs q).1 ≡ after_scan now q (scanned x docs q)
  unfolding execute scanned post_processed after_scan
  execute-scanned now x docs q =
      elim (Option-cases ((create_plan e x.index_selector q).use_index)) [
        | inl planless ↦
            rw (execute, planless, scanned)
              (answer now q x (execute_collection_scan e docs q.filter))
        | inr (name, planned) ↦
            rw (execute, planned, scanned)
              (answer now q (execute_index_scan e x docs q).0 (execute_index_scan e x docs q).1)
      ]

  -- The scan looks at the filter alone.
  scanned-page :
      (x : QueryExecutor) (docs : List Document) (q : Query) (start size : ℕ)
      → scanned x docs (page q start size) ≡ scanned x docs (unpaged q)
  unfolding scanned create_plan execute_index_scan page unpaged
  scanned-page x docs q start size = refl

  length-put_sorted :
      (fs : List (String × SortOrder)) (d : Document) (docs : List Document)
      → length (put_sorted e fs d docs) ≡ suc (length docs)
  unfolding put_sorted
  length-put_sorted fs d [] = refl
  length-put_sorted fs d (c ∷ docs) = ground (arith, length-put_sorted fs d docs)

  length-sorted_by :
      (fs : List (String × SortOrder)) (docs : List Document)
      → length (sorted_by e fs docs) ≡ length docs
  unfolding sorted_by
  length-sorted_by fs [] = refl
  length-sorted_by fs (d ∷ docs) =
      ground (arith, length-put_sorted fs d (sorted_by e fs docs), length-sorted_by fs docs)

  length-apply_sort :
      (s : Option Sort) (docs : List Document) → length (apply_sort e s docs) ≡ length docs
  unfolding apply_sort
  length-apply_sort none docs = refl
  length-apply_sort (some s) docs = length-sorted_by s.fields docs

  module _ (now : ℕ) where
    apply_projection-append :
        (p : Option Projection) (xs ys : List Document)
        → apply_projection e now p (xs ++ ys)
          ≡ apply_projection e now p xs ++ apply_projection e now p ys
    unfolding apply_projection
    apply_projection-append none xs ys = refl
    apply_projection-append (some p) [] ys = refl
    apply_projection-append (some p) (x ∷ xs) ys =
        ap (◌∷◌ (project e now p x)) (apply_projection-append (some p) xs ys)

    apply_projection-none_left : (p : Option Projection) → apply_projection e now p [] ≡ []
    unfolding apply_projection
    apply_projection-none_left none = refl
    apply_projection-none_left (some p) = refl

    length-apply_projection :
        (p : Option Projection) (xs : List Document)
        → length (apply_projection e now p xs) ≡ length xs
    unfolding apply_projection
    length-apply_projection none xs = refl
    length-apply_projection (some p) [] = refl
    length-apply_projection (some p) (x ∷ xs) = ground (arith, length-apply_projection (some p) xs)

    execute-page :
        (x : QueryExecutor) (docs found : List Document) (q : Query) (start size : ℕ)
        → scanned x docs (unpaged q) ≡ some found
        → (execute e now x docs (page q start size)).1
          ≡ some (
              apply_projection e now q.projection
                (take size (drop start (apply_sort e q.sort found))))
    unfolding page after_scan apply_post_processing skip_documents limit_documents
    execute-page x docs found q start size scan =
        execute-scanned now x docs (page q start size)
        ∙ ap (after_scan now (page q start size)) (scanned-page x docs q start size ∙ scan)

    pages-drop :
        (x : QueryExecutor) (docs found : List Document) (q : Query) (start size count : ℕ)
        → scanned x docs (unpaged q) ≡ some found
        → length found ≤ start + count * size
        → pages now x docs q start size count
          ≡ some (apply_projection e now q.projection (drop start (apply_sort e q.sort found)))
    unfolding pages joined
    pages-drop x docs found q start size zero scan enough =
        let length_is = length-apply_sort q.sort found in
        ap some (
          sym (apply_projection-none_left q.projection)
          ∙ ap (apply_projection e now q.projection)
              (sym (drop-all start (apply_sort e q.sort found) (omega (arith, length_is, enough)))))
    pages-drop x docs found q start size (suc count) scan enough =
        let sorted = apply_sort e q.sort found in
        let rest =
          pages-drop x docs found q (start + size) size count scan (omega (arith, enough)) in
        rw (pages, execute-page x docs found q start size scan, rest, joined)
          (ap some (
            sym (
              apply_projection-append q.projection (take size (drop start sorted))
                (drop (start + size) sorted))
            ∙ ap (apply_projection e now q.projection) (take-drop_next size start sorted)))

    -- The pages of a query, of one size each and one after the other from the first document, put together
    -- are the answer without skip and limit, for a query that is answered, once there are pages for all
    -- documents of the answer: each of them is on some page, and none is on two.
    pub pages-execute :
        (x : QueryExecutor) (docs all : List Document) (q : Query) (size count : ℕ)
        → (execute e now x docs (unpaged q)).1 ≡ some all
        → length all ≤ count * size
        → pages now x docs q 0 size count ≡ some all
    unfolding unpaged after_scan apply_post_processing skip_documents limit_documents
    pages-execute x docs all q size count answered enough =
        let whole = sym (execute-scanned now x docs (unpaged q)) ∙ answered in
        elim (Option-cases (scanned x docs (unpaged q))) [
          | inl failed ↦
              absurd (ground (arith, sym (ap (after_scan now (unpaged q)) failed) ∙ whole))
          | inr (found, scan) ↦
              let sorted = apply_sort e q.sort found in
              let is_all : some (apply_projection e now q.projection sorted) ≡ some all =
                sym (ap (after_scan now (unpaged q)) scan) ∙ whole in
              let projected : apply_projection e now q.projection sorted ≡ all =
                ground (arith, is_all) in
              let length_is : length all ≡ length found =
                sym (ap length projected)
                ∙ length-apply_projection q.projection sorted
                ∙ length-apply_sort q.sort found in
              pages-drop x docs found q 0 size count scan (omega (arith, length_is, enough))
              ∙ is_all
        ]
