-- ===== src/Query/Planner.antt =====
-- Which index a query uses: `IndexCandidate` and what `IndexSelector` finds of query/index_selector.rs,
-- and `analyze_filter_for_index` and `create_plan` of query/planner.rs. Scores and costs, which are
-- floats, are left out.
use ved_db_server.Prelude.{
  Bool, true, false, not, ◌&&◌, ◌||◌, Option, none, some, List, [], ◌∷◌, ◌++◌, ltb, if◌then◌else◌,
}
use Prim.Native.String.{String}
use ved_db_server.Prelude.Maps.{String-Eq}
use ved_db_server.Query.{Engine}
use ved_db_server.Query.Ast.{
  Query, Filter, Filters, Sort, eq, gt, gte, lt, lte, in_values, exists, and, or, negated, done,
  more, get_filter_field, first_field, is_field,
}
use ved_db_server.Index.Manager.{IndexType, IndexDefinition, single, compound, text_of, geospatial}

pub record IndexCandidate : Type 0 where
  pub name : String
  pub index_type : IndexType
  pub unique : Bool
  pub sparse : Bool

-- `IndexSelector`: its candidates
abbrev pub IndexSelector : Type 0
IndexSelector = List IndexCandidate

-- A geospatial index counts as one on its field.
unfoldable pub from_definition : IndexDefinition → IndexCandidate
from_definition d = record {
  name = d.name;
  index_type = elim d.index_type [ geospatial f ↦ single f | t ↦ t ];
  unique = d.unique;
  sparse = d.sparse;
}

unfoldable pub with_indexes : List IndexDefinition → IndexSelector
with_indexes [] = []
with_indexes (d ∷ ds) = from_definition d ∷ with_indexes ds

unfoldable pub contains_name : String → List String → Bool
contains_name f [] = false
contains_name f (g ∷ gs) = String-Eq.same g f || contains_name f gs

unfoldable pub can_use_for_field : IndexCandidate → String → Bool
can_use_for_field c field = elim c.index_type [
  | single f ↦ String-Eq.same f field
  | compound fs ↦ contains_name field fs
  | text_of f ↦ String-Eq.same f field
  | geospatial f ↦ String-Eq.same f field
]

unfoldable pub has_candidate : String → List IndexCandidate → Bool
has_candidate name [] = false
has_candidate name (c ∷ cs) = String-Eq.same c.name name || has_candidate name cs

-- the candidates before and those found for a field
unfoldable pub find_indexes_for_field :
    IndexSelector → String → List IndexCandidate → List IndexCandidate
find_indexes_for_field [] field found = found
find_indexes_for_field (c ∷ cs) field found =
    if can_use_for_field c field && not (has_candidate c.name found)
    then find_indexes_for_field cs field (found ++ (c ∷ []))
    else find_indexes_for_field cs field found

unfoldable pub first_name : List IndexCandidate → Option String
first_name [] = none
first_name (c ∷ cs) = some c.name

unfoldable mutual
  pub has_equality_filter : Filter → Bool
  has_equality_filter (eq f v) = true
  has_equality_filter (and fs) = any_equality fs
  has_equality_filter (or fs) = any_equality fs
  has_equality_filter (negated f) = has_equality_filter f
  has_equality_filter f = false

  pub any_equality : Filters → Bool
  any_equality done = false
  any_equality (more f fs) = has_equality_filter f || any_equality fs

unfoldable mutual
  pub has_exists_filter : Filter → Bool
  has_exists_filter (exists f wanted) = true
  has_exists_filter (and fs) = any_exists fs
  has_exists_filter (or fs) = any_exists fs
  has_exists_filter (negated f) = has_exists_filter f
  has_exists_filter f = false

  pub any_exists : Filters → Bool
  any_exists done = false
  any_exists (more f fs) = has_exists_filter f || any_exists fs

unfoldable pub starts_with : Option String → List String → Bool
starts_with first [] = false
starts_with first (f ∷ fs) = is_field first f

unfoldable pub can_help_with_sort : IndexCandidate → Sort → Bool
can_help_with_sort c s = elim c.index_type [
  | single f ↦ is_field (first_field s) f
  | compound fs ↦ starts_with (first_field s) fs
  | text_of f ↦ false
  | geospatial f ↦ is_field (first_field s) f
]

-- the keys of the map from fields to the filters on them
unfoldable pub add_field : Option String → List String → List String
add_field none fields = fields
add_field (some f) fields = if contains_name f fields then fields else f ∷ fields

unfoldable pub field_filters : Filters → List String
field_filters done = []
field_filters (more f fs) = add_field (get_filter_field f) (field_filters fs)

unfoldable pub index_for : IndexSelector → String → Option String
index_for s field = first_name (find_indexes_for_field s field [])

-- the first field that has an index
unfoldable pub first_index : IndexSelector → List String → Option String
first_index s [] = none
first_index s (f ∷ fs) =
    let rest = first_index s fs in elim (index_for s f) [ none ↦ rest | some name ↦ some name ]

pub data ExecutionStrategy : Type 0 where
  collection_scan index_scan : ExecutionStrategy

pub record QueryPlan : Type 0 where
  pub use_index : Option String
  pub execution_strategy : ExecutionStrategy
  pub needs_sort : Bool
  pub needs_projection : Bool
  pub has_skip : Bool
  pub has_limit : Bool

unfoldable pub is_some {ℓ} : {A : Type ℓ} → Option A → Bool
is_some none = false
is_some (some a) = true

module _ (e : Engine) where
  unfoldable pub analyze_filter_for_index : IndexSelector → Filter → Option String
  analyze_filter_for_index s (eq f v) = index_for s f
  analyze_filter_for_index s (gt f v) = index_for s f
  analyze_filter_for_index s (gte f v) = index_for s f
  analyze_filter_for_index s (lt f v) = index_for s f
  analyze_filter_for_index s (lte f v) = index_for s f
  analyze_filter_for_index s (in_values f vs) = index_for s f
  analyze_filter_for_index s (and fs) = first_index s (e.hash_order (field_filters fs))
  analyze_filter_for_index s filter = none

  unfoldable pub create_plan : IndexSelector → Query → QueryPlan
  create_plan s q =
      let index = analyze_filter_for_index s q.filter in
      record {
        use_index = index;
        execution_strategy = if is_some index then index_scan else collection_scan;
        needs_sort = is_some q.sort;
        needs_projection = is_some q.projection;
        has_skip = elim q.skip [ none ↦ false | some n ↦ ltb 0 n ];
        has_limit = is_some q.limit;
      }
