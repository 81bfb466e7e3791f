-- ===== src/Query/Predicates.antt =====
-- resotocore/core/query/model.py: `predicates`, `merge_names` and `merge_query_by_name` of a query.
pub mod Counts
use cloudkeeper.Base.{String, Bool, List, [], ◌∷◌, ◌++◌, map}
use cloudkeeper.Json.{Json, Fields}
use cloudkeeper.Query.Data.{
  Term, all_term, not_term, predicate, combined, id_term, is_term, function_term, merge_term,
  MaybeTerm, no_term, some_term, Merges, no_merges, merge, Query, query, Parts, no_parts, and_part,
  Part, part, term_of,
}

pub record Predicate : Type 0 where
  pub name : String
  pub op : String
  pub value : Json
  pub args : Fields

unfoldable mutual
  -- walk
  pub predicates_in : Term → List Predicate
  predicates_in all_term = []
  predicates_in (not_term t) = predicates_in t
  predicates_in (predicate name op value args) =
      record { name = name; op = op; value = value; args = args } ∷ []
  predicates_in (combined l op r) = predicates_in l ++ predicates_in r
  predicates_in (id_term i) = []
  predicates_in (is_term kinds) = []
  predicates_in (function_term fn path args) = []
  predicates_in (merge_term pre m post) = predicates_in pre ++ predicates_in_maybe post

  pub predicates_in_maybe : MaybeTerm → List Predicate
  predicates_in_maybe no_term = []
  predicates_in_maybe (some_term t) = predicates_in t

unfoldable pub predicates_in_parts : Parts → List Predicate
unfolding predicates_in
predicates_in_parts no_parts = []
predicates_in_parts (and_part p ps) = predicates_in (term_of p) ++ predicates_in_parts ps

-- predicates
unfoldable pub predicates : Query → List Predicate
unfolding predicates_in predicates_in_parts
predicates (query p ps pre agg) = predicates_in (term_of p) ++ predicates_in_parts ps

-- A merge query, with its name and `only_first`.
unfoldable pub listed_merges : Merges → List (String × (Query × Bool))
listed_merges no_merges = []
listed_merges (merge name q only_first m) = (name, (q, only_first)) ∷ listed_merges m

unfoldable pub merges_in : Term → List (String × (Query × Bool))
unfolding listed_merges
merges_in (merge_term pre m post) = listed_merges m
merges_in t = []

merges_in_parts : Parts → List (String × (Query × Bool))
unfolding merges_in
merges_in_parts no_parts = []
merges_in_parts (and_part p ps) = merges_in (term_of p) ++ merges_in_parts ps

-- merge_query_by_name
unfoldable pub merge_query_by_name : Query → List (String × (Query × Bool))
unfolding merges_in merges_in_parts
merge_query_by_name (query p ps pre agg) = merges_in (term_of p) ++ merges_in_parts ps

abbrev pub name_of_merge : String × (Query × Bool) → String
name_of_merge (name, q) = name

-- merge_names, as a list
unfoldable pub merge_names : Query → List String
unfolding merge_query_by_name
merge_names q = map name_of_merge (merge_query_by_name q)
