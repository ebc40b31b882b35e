-- ===== src/Query/Ast.antt =====
-- `Query`, `Filter`, `Projection` and `Sort` of query/ast.rs.
use ved_db_server.Prelude.{
  ℕ, Bool, true, false, not, ◌&&◌, ◌||◌, Option, none, some, List, [], ◌∷◌, ◌++◌, if◌then◌else◌,
}
use Prim.Native.String.{String}
use ved_db_server.Prelude.Maps.{Map, String-Eq, lookup, insert}
use ved_db_server.Document.{Value}

mutual
  pub data Filter : Type 0 where
    empty : Filter
    eq ne gt gte lt lte : (field : String) (value : Value) → Filter
    in_values nin : (field : String) (values : List Value) → Filter
    exists : (field : String) (wanted : Bool) → Filter
    regex : (field pattern : String) (options : Option String) → Filter
    and or : (filters : Filters) → Filter
    negated : (filter : Filter) → Filter

  pub data Filters : Type 0 where
    done : Filters
    more : Filter → Filters → Filters

-- the field of a filter on one field
unfoldable pub get_filter_field : Filter → Option String
get_filter_field (eq f v) = some f
get_filter_field (ne f v) = some f
get_filter_field (gt f v) = some f
get_filter_field (gte f v) = some f
get_filter_field (lt f v) = some f
get_filter_field (lte f v) = some f
get_filter_field (in_values f vs) = some f
get_filter_field (nin f vs) = some f
get_filter_field (exists f wanted) = some f
get_filter_field (regex f pattern options) = some f
get_filter_field filter = none

-- the fields that a filter of one field adds
unfoldable pub push_field : Option String → List String → List String
push_field none fields = fields
push_field (some f) fields = fields ++ (f ∷ [])

unfoldable mutual
  pub collect_fields : Filter → List String → List String
  collect_fields (and fs) fields = collect_all fs fields
  collect_fields (or fs) fields = collect_all fs fields
  collect_fields (negated f) fields = collect_fields f fields
  collect_fields f fields = push_field (get_filter_field f) fields

  pub collect_all : Filters → List String → List String
  collect_all done fields = fields
  collect_all (more f fs) fields = collect_all fs (collect_fields f fields)

unfoldable pub is_field : Option String → String → Bool
is_field none field = false
is_field (some f) field = String-Eq.same f field

unfoldable mutual
  pub can_use_index : Filter → String → Bool
  can_use_index (and fs) field = any_can_use fs field
  can_use_index (or fs) field = all_can_use fs field
  can_use_index (negated f) field = can_use_index f field
  can_use_index f field = is_field (get_filter_field f) field

  pub any_can_use : Filters → String → Bool
  any_can_use done field = false
  any_can_use (more f fs) field = can_use_index f field || any_can_use fs field

  pub all_can_use : Filters → String → Bool
  all_can_use done field = true
  all_can_use (more f fs) field = can_use_index f field && all_can_use fs field

pub data ProjectionType : Type 0 where
  include exclude : ProjectionType

pub record Projection : Type 0 where
  pub fields : Map String ProjectionType

-- `Projection::include` and `exclude`
unfoldable pub with_field : Projection → String → ProjectionType → Projection
with_field p field t = record { fields = insert field t p.fields }

unfoldable pub includes : ProjectionType → Bool
includes include = true
includes exclude = false

unfoldable pub any_include : Map String ProjectionType → Bool
any_include [] = false
any_include ((f, t) ∷ m) = includes t || any_include m

unfoldable pub is_inclusion : Projection → Bool
is_inclusion p = any_include p.fields

-- the type that a field is given
unfoldable pub is_given : Bool → Option ProjectionType → Bool
is_given wanted none = false
is_given wanted (some t) = if wanted then includes t else not (includes t)

unfoldable pub should_include : Projection → String → Bool
should_include p field =
    if is_inclusion p
    then String-Eq.same field "_id" || is_given true (lookup field p.fields)
    else not (is_given false (lookup field p.fields))

pub data SortOrder : Type 0 where
  ascending descending : SortOrder

pub record Sort : Type 0 where
  pub fields : List (String × SortOrder)

unfoldable pub add_sort : Sort → String → SortOrder → Sort
add_sort s field order = record { fields = s.fields ++ ((field, order) ∷ []) }

unfoldable pub first_field : Sort → Option String
first_field s = elim s.fields [ [] ↦ none | (f, order) ∷ fs ↦ some f ]

pub record Query : Type 0 where
  pub filter : Filter
  pub projection : Option Projection
  pub sort : Option Sort
  pub skip : Option ℕ
  pub limit : Option ℕ

abbrev pub with_filter : Filter → Query
with_filter f = record { filter = f; projection = none; sort = none; skip = none; limit = none }

-- `Query::new`
abbrev pub new : Query
new = with_filter empty

unfoldable pub get_lookup_field : Query → Option String
get_lookup_field q = elim q.filter [ eq f v ↦ some f | _ ↦ none ]
