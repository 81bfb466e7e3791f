-- ===== src/Query/Variables.antt =====
-- resotocore/core/query/model.py: `change_variable`, which renames the properties of a query.
pub mod Laws
pub mod Twice
pub mod Sections
use cloudkeeper.Base.{
  String, ◌≡◌, refl, ap, ◌∙◌, Bool, true, false, Option, none, some, List, [], ◌∷◌, map, str_eq,
  if◌then◌else◌,
}
use cloudkeeper.Query.Names.{variable_to_absolute, variable_to_relative, path_root}
use cloudkeeper.Query.Data.{
  NamePart, text, variable, AggregateName, simple, combination, AggregateVariable, AggregateTarget,
  property, number, AggregateFunction, Aggregate, Sort, Term, all_term, not_term, predicate,
  combined, id_term, is_term, function_term, merge_term, MaybeTerm, no_term, some_term, Merges,
  no_merges, merge, Query, query, Parts, no_parts, and_part, Part, part, MaybeWith, no_with,
  with_clause,
}

unfoldable pub change_sort : (String → String) → Sort → Sort
change_sort f s = record s { name = f s.name }

unfoldable pub change_name_part : (String → String) → NamePart → NamePart
change_name_part f (text s) = text s
change_name_part f (variable n) = variable (f n)

unfoldable pub change_aggregate_name : (String → String) → AggregateName → AggregateName
unfolding change_name_part
change_aggregate_name f (simple n) = simple (f n)
change_aggregate_name f (combination l) = combination (map (change_name_part f) l)

unfoldable pub change_aggregate_variable : (String → String) → AggregateVariable → AggregateVariable
unfolding change_aggregate_name
change_aggregate_variable f v = record v { name = change_aggregate_name f v.name }

unfoldable pub change_target : (String → String) → AggregateTarget → AggregateTarget
change_target f (property n) = property (f n)
change_target f (number n) = number n

unfoldable pub change_function : (String → String) → AggregateFunction → AggregateFunction
unfolding change_target
change_function f a = record a { name = change_target f a.name }

unfoldable pub change_aggregate : (String → String) → Aggregate → Aggregate
unfolding change_aggregate_variable change_function
change_aggregate f a = record {
  group_by = map (change_aggregate_variable f) a.group_by;
  group_func = map (change_function f) a.group_func;
}

unfoldable pub change_optional : (String → String) → Option Aggregate → Option Aggregate
unfolding change_aggregate
change_optional f none = none
change_optional f (some a) = some (change_aggregate f a)

unfoldable mutual
  unfolding change_sort change_optional

  pub change_term : (String → String) → Term → Term
  change_term f all_term = all_term
  change_term f (not_term t) = not_term (change_term f t)
  change_term f (predicate name op value args) = predicate (f name) op value args
  change_term f (combined l op r) = combined (change_term f l) op (change_term f r)
  change_term f (id_term i) = id_term i
  change_term f (is_term kinds) = is_term kinds
  change_term f (function_term fn path args) = function_term fn (f path) args
  change_term f (merge_term pre m post) =
      merge_term (change_term f pre) (change_merges f m) (change_maybe f post)

  pub change_maybe : (String → String) → MaybeTerm → MaybeTerm
  change_maybe f no_term = no_term
  change_maybe f (some_term t) = some_term (change_term f t)

  pub change_merges : (String → String) → Merges → Merges
  change_merges f no_merges = no_merges
  change_merges f (merge name q only_first m) =
      merge name (change_variable f q) only_first (change_merges f m)

  pub change_variable : (String → String) → Query → Query
  change_variable f (query p ps pre agg) =
      query (change_part f p) (change_parts f ps) pre (change_optional f agg)

  pub change_parts : (String → String) → Parts → Parts
  change_parts f no_parts = no_parts
  change_parts f (and_part p ps) = and_part (change_part f p) (change_parts f ps)

  pub change_part : (String → String) → Part → Part
  change_part f (part t tag w sort limit n) =
      part (change_term f t) tag (change_with f w) (map (change_sort f) sort) limit n

  pub change_with : (String → String) → MaybeWith → MaybeWith
  change_with f no_with = no_with
  change_with f (with_clause filter n t w) =
      with_clause filter n (change_maybe f t) (change_with f w)

-- relative_to_section
unfoldable pub relative_to_section : String → Query → Query
unfolding change_variable
relative_to_section s q =
    if str_eq s path_root then q else change_variable (variable_to_relative s) q
