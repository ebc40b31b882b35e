-- ===== src/Index/Tree.antt =====
-- `BTreeIndex` of index/btree.rs. The tree is its entries, put in order when they are walked through;
-- keys that compare as equal are one key.
use ved_db_server.Prelude.{
  ℕ, Bool, true, false, not, ◌&&◌, ◌||◌, Option, none, some, List, [], ◌∷◌, ◌++◌, if◌then◌else◌,
  length,
}
use Prim.Native.String.{String}
use text.Mathlib.Text.{is_eq, is_lt}
use ved_db_server.Prelude.Bytes.{add64, sub64}
use ved_db_server.Query.{Engine}
use ved_db_server.Query.Values.{same_bytes, is_gt}
use ved_db_server.Index.{Result, ok, err, unique_constraint_violation}
use ved_db_server.Index.Keys.{
  IndexKey, IndexEntry, has_null, size_estimate, compare_key, from_entry,
}

-- the identifier of a document
abbrev pub DocumentId : Type 0
DocumentId = List ℕ

abbrev pub Tree : Type 0
Tree = List (IndexKey × List DocumentId)

-- The counters of lookups, inserts and deletes are never changed.
pub record IndexStats : Type 0 where
  pub total_entries : ℕ
  pub total_size_bytes : ℕ
  pub lookup_count : ℕ
  pub insert_count : ℕ
  pub delete_count : ℕ

abbrev pub no_entries : IndexStats
no_entries = record {
  total_entries = 0;
  total_size_bytes = 0;
  lookup_count = 0;
  insert_count = 0;
  delete_count = 0;
}

pub record BTreeIndex : Type 0 where
  pub name : String
  pub fields : List String
  pub unique : Bool
  pub sparse : Bool
  pub tree : Tree
  pub stats : IndexStats

abbrev pub new : String → List String → Bool → Bool → BTreeIndex
new name fields unique sparse = record {
  name = name;
  fields = fields;
  unique = unique;
  sparse = sparse;
  tree = [];
  stats = no_entries;
}

unfoldable pub has_id : DocumentId → List DocumentId → Bool
has_id id [] = false
has_id id (x ∷ xs) = same_bytes x id || has_id id xs

-- `position` and the removal there
unfoldable pub without_id : DocumentId → List DocumentId → List DocumentId
without_id id [] = []
without_id id (x ∷ xs) = let rest = without_id id xs in if same_bytes x id then xs else x ∷ rest

unfoldable pub is_empty {ℓ} : {A : Type ℓ} → List A → Bool
is_empty [] = true
is_empty (x ∷ xs) = false

module _ (e : Engine) where
  unfoldable pub same_key : IndexKey → IndexKey → Bool
  same_key a b = is_eq (compare_key e a b)

  -- `tree.get(key)`, with no documents for a missing key
  unfoldable pub docs_at : IndexKey → Tree → List DocumentId
  docs_at k [] = []
  docs_at k ((j, ids) ∷ t) = let rest = docs_at k t in if same_key j k then ids else rest

  -- The documents of a key are changed; a missing key has none before.
  unfoldable pub change_docs : IndexKey → (List DocumentId → List DocumentId) → Tree → Tree
  change_docs k f [] = (k, f []) ∷ []
  change_docs k f ((j, ids) ∷ t) =
      let rest = change_docs k f t in if same_key j k then (j, f ids) ∷ t else (j, ids) ∷ rest

  -- `tree.remove(key)`
  unfoldable pub drop_key : IndexKey → Tree → Tree
  drop_key k [] = []
  drop_key k ((j, ids) ∷ t) = let rest = drop_key k t in if same_key j k then t else (j, ids) ∷ rest

  -- the documents of a key after one more
  unfoldable pub added : Bool → DocumentId → List DocumentId → List DocumentId
  added unique id ids = if unique then id ∷ [] else ids ++ (id ∷ [])

  unfoldable pub insert_key : BTreeIndex → DocumentId → IndexEntry → IndexKey → Result BTreeIndex
  insert_key i id entry key =
      if i.sparse && has_null key
      then ok i
      else if i.unique
          && not (is_empty (docs_at key i.tree))
          && not (has_id id (docs_at key i.tree))
      then err (unique_constraint_violation i.name)
      else ok (record i {
        tree = change_docs key (added i.unique id) i.tree;
        stats = record i.stats {
          total_entries = add64 i.stats.total_entries 1;
          total_size_bytes = add64 i.stats.total_size_bytes (size_estimate entry);
        };
      })

  unfoldable pub insert : BTreeIndex → DocumentId → IndexEntry → Result BTreeIndex
  insert i id entry = elim (from_entry e entry i.fields) [
    | err why ↦ err why
    | ok key ↦ insert_key i id entry key
  ]

  -- the tree without a document of a key, and without the key when no document is left
  unfoldable pub drop_doc : IndexKey → DocumentId → Tree → Tree
  drop_doc key id t =
      if is_empty (without_id id (docs_at key t))
      then drop_key key t
      else change_docs key (without_id id) t

  unfoldable pub remove_key : BTreeIndex → DocumentId → IndexEntry → IndexKey → Bool × BTreeIndex
  remove_key i id entry key =
      if i.sparse && has_null key
      then (false, i)
      else if has_id id (docs_at key i.tree)
      then (
        true,
        record i {
          tree = drop_doc key id i.tree;
          stats = record i.stats {
            total_entries = sub64 i.stats.total_entries 1;
            total_size_bytes = sub64 i.stats.total_size_bytes (size_estimate entry);
          };
        },
      )
      else (false, i)

  unfoldable pub remove : BTreeIndex → DocumentId → IndexEntry → Result (Bool × BTreeIndex)
  remove i id entry = elim (from_entry e entry i.fields) [
    | err why ↦ err why
    | ok key ↦ ok (remove_key i id entry key)
  ]

  unfoldable pub find_exact : BTreeIndex → IndexKey → List DocumentId
  find_exact i key = docs_at key i.tree

  -- whether a key is within a bound, which may be left out and may be included
  unfoldable pub after_start : Option IndexKey → Bool → IndexKey → Bool
  after_start none include_start key = true
  after_start (some s) true key = not (is_lt (compare_key e key s))
  after_start (some s) false key = is_gt (compare_key e key s)

  unfoldable pub before_end : Option IndexKey → Bool → IndexKey → Bool
  before_end none include_end key = true
  before_end (some s) true key = not (is_gt (compare_key e key s))
  before_end (some s) false key = is_lt (compare_key e key s)

  -- the entries in the order of the keys
  unfoldable pub put_in_order : IndexKey × List DocumentId → Tree → Tree
  put_in_order x [] = x ∷ []
  put_in_order x (y ∷ t) =
      let rest = put_in_order x t in if is_gt (compare_key e x.0 y.0) then y ∷ rest else x ∷ y ∷ t

  unfoldable pub in_order : Tree → Tree
  in_order [] = []
  in_order (x ∷ t) = put_in_order x (in_order t)

  unfoldable pub collect_range : (IndexKey → Bool) → Tree → List DocumentId
  collect_range inside [] = []
  collect_range inside ((k, ids) ∷ t) =
      let rest = collect_range inside t in if inside k then ids ++ rest else rest

  unfoldable pub find_range :
      BTreeIndex → Option IndexKey → Option IndexKey → Bool → Bool → List DocumentId
  find_range i start end include_start include_end =
      collect_range (λ k. after_start start include_start k && before_end end include_end k)
        (in_order i.tree)

unfoldable pub key_count : BTreeIndex → ℕ
key_count i = length i.tree

unfoldable pub clear : BTreeIndex → BTreeIndex
clear i = record i { tree = []; stats = no_entries }
