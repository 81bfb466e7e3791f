-- ===== src/Query/Rewrite/Whole.antt =====
-- resotocore/core/query/model.py: `rewrite_for_ancestors_descendants` of a query, and `on_section`. A set
-- of property paths is a list here, in the order in which its elements come in.
pub mod Steps
pub mod Total
use cloudkeeper.Base.{
  String, Bool, true, false, not, ◌&&◌, ◌||◌, Option, none, some, List, [], ◌∷◌, ◌++◌, keep, str_eq,
  if◌then◌else◌,
}
use cloudkeeper.Query.Names.{is_ancestor_descendant, variable_to_absolute, path_root}
use cloudkeeper.Query.Data.{
  NamePart, text, variable, AggregateName, simple, combination, AggregateVariable, AggregateTarget,
  property, number, AggregateFunction, Aggregate, Term, merge_term, no_term, Merges, Query, query,
  Parts, Part, term_of,
}
use cloudkeeper.Query.Variables.{change_variable}
use cloudkeeper.Query.Rewrite.{and_then, merge_queries_for, with_term, rewrite_part, rewrite_parts}

variables_in : List NamePart → List String
variables_in [] = []
variables_in (text s ∷ l) = variables_in l
variables_in (variable n ∷ l) = n ∷ variables_in l

-- property_paths of a variable
unfoldable pub variable_paths : AggregateName → List String
unfolding variables_in
variable_paths (simple n) = n ∷ []
variable_paths (combination l) = variables_in l

-- property_paths of a function
unfoldable pub function_paths : AggregateTarget → List String
function_paths (property n) = n ∷ []
function_paths (number n) = []

group_by_paths : List AggregateVariable → List String
unfolding variable_paths
group_by_paths [] = []
group_by_paths (v ∷ l) = variable_paths v.name ++ group_by_paths l

group_func_paths : List AggregateFunction → List String
unfolding function_paths
group_func_paths [] = []
group_func_paths (f ∷ l) = function_paths f.name ++ group_func_paths l

-- property_paths of an aggregate, or no paths without one
unfoldable pub property_paths : Option Aggregate → List String
unfolding group_by_paths group_func_paths
property_paths none = []
property_paths (some a) = group_by_paths a.group_by ++ group_func_paths a.group_func

unfoldable pub with_queries : Merges → Term → Term
with_queries m (merge_term pre m' post) = merge_term pre m post
with_queries m t = merge_term t m no_term

-- The paths of which `anc_desc` is made.
unfoldable pub additional_paths : Option Aggregate → List String → List String
unfolding property_paths
additional_paths agg extra = keep is_ancestor_descendant (property_paths agg ++ extra)

-- The current part, with the merge queries for the paths, if there are any.
unfoldable pub with_paths : List String → Part → Option Part
unfolding merge_queries_for with_queries
with_paths [] p = some p
with_paths (path ∷ l) p =
    and_then (merge_queries_for (term_of p) (path ∷ l))
      (λ m. some (with_term (with_queries m (term_of p)) p))

-- rewrite_for_additional_paths. The code skips it without an aggregate and further paths: then it has no
-- paths.
unfoldable pub rewrite_for_additional_paths : Option Aggregate → List String → Part → Option Part
unfolding additional_paths with_paths
rewrite_for_additional_paths agg extra p = with_paths (additional_paths agg extra) p

-- rewrite_for_ancestors_descendants of a query
unfoldable pub rewrite_query : List String → Query → Option Query
unfolding rewrite_part rewrite_parts rewrite_for_additional_paths
rewrite_query extra (query p ps pre agg) = and_then (rewrite_part p) (λ p'.
    and_then (rewrite_parts ps) (λ ps'.
      and_then (rewrite_for_additional_paths agg extra p') (λ p''. some (query p'' ps' pre agg))))

unfoldable pub root_or_section : Option String → Option String
root_or_section none = none
root_or_section (some s) = if str_eq s path_root then none else some s

-- on_section
unfoldable pub on_section : Option String → Query → Option Query
unfolding root_or_section rewrite_query
on_section s q = rewrite_query [] (change_variable (variable_to_absolute (root_or_section s)) q)
