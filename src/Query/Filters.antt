-- ===== src/Query/Filters.antt =====
-- `matches_filter` of query/executor.rs. Its error, a pattern that is none, is `none`.
use ved_db_server.Prelude.{Bool, true, false, not, ◌||◌, Option, none, some, ◌==◌}
use Prim.Native.String.{String}
use Prim.Native.Char.{code}
use ved_db_server.Document.{Value, Document, string, get_by_path}
use text.Mathlib.Text.{is_eq, is_lt}
use ved_db_server.Query.{Engine}
use ved_db_server.Query.Ast.{
  Filter, Filters, empty, eq, ne, gt, gte, lt, lte, in_values, nin, exists, regex, and, or, negated,
  done, more,
}
use ved_db_server.Query.Values.{is_gt, same_value, compare_values, contains}

-- `opts.contains('i')`
unfoldable pub ignores_case : Option String → Bool
ignores_case none = false
ignores_case (some String.[]) = false
ignores_case (some (String.◌∷◌ c s)) = code c == 105 || ignores_case (some s)

-- what a test says of a value that may be missing
unfoldable pub test_or : Bool → (Value → Bool) → Option Value → Bool
test_or missing test none = missing
test_or missing test (some v) = test v

-- the answers of a conjunction and of a disjunction, whose later parts are looked at last
unfoldable pub and_then : Option Bool → Option Bool → Option Bool
and_then none rest = none
and_then (some true) rest = rest
and_then (some false) rest = some false

unfoldable pub or_else : Option Bool → Option Bool → Option Bool
or_else none rest = none
or_else (some true) rest = some true
or_else (some false) rest = rest

unfoldable pub opposite : Option Bool → Option Bool
opposite none = none
opposite (some b) = some (not b)

module _ (e : Engine) where
  unfoldable pub match_text : Bool → String → Option Value → Option Bool
  match_text ignore pattern (some (string s)) = e.is_match ignore pattern s
  match_text ignore pattern v = some false

  unfoldable mutual
    pub matches_filter : Document → Filter → Option Bool
    matches_filter d empty = some true
    matches_filter d (eq f v) = some (test_or false (λ w. same_value e w v) (get_by_path d f))
    matches_filter d (ne f v) = some (test_or true (λ w. not (same_value e w v)) (get_by_path d f))
    matches_filter d (gt f v) =
        some (test_or false (λ w. is_gt (compare_values e w v)) (get_by_path d f))
    matches_filter d (gte f v) = some (
        test_or false (λ w. is_gt (compare_values e w v) || is_eq (compare_values e w v))
          (get_by_path d f))
    matches_filter d (lt f v) =
        some (test_or false (λ w. is_lt (compare_values e w v)) (get_by_path d f))
    matches_filter d (lte f v) = some (
        test_or false (λ w. is_lt (compare_values e w v) || is_eq (compare_values e w v))
          (get_by_path d f))
    matches_filter d (in_values f vs) =
        some (test_or false (λ w. contains e vs w) (get_by_path d f))
    matches_filter d (nin f vs) = some (test_or true (λ w. not (contains e vs w)) (get_by_path d f))
    matches_filter d (exists f wanted) = some (test_or (not wanted) (λ w. wanted) (get_by_path d f))
    matches_filter d (regex f pattern options) =
        match_text (ignores_case options) pattern (get_by_path d f)
    matches_filter d (and fs) = matches_all d fs
    matches_filter d (or fs) = matches_any d fs
    matches_filter d (negated f) = opposite (matches_filter d f)

    pub matches_all : Document → Filters → Option Bool
    matches_all d done = some true
    matches_all d (more f fs) = and_then (matches_filter d f) (matches_all d fs)

    pub matches_any : Document → Filters → Option Bool
    matches_any d done = some false
    matches_any d (more f fs) = or_else (matches_filter d f) (matches_any d fs)
