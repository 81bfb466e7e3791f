-- ===== src/Query/Analytics.antt =====
-- resotocore/core/query/model.py: `analytics`, which counts what a query uses. `counters` and `names` are
-- defaultdicts: a missing counter is 0, a missing list of names is empty.
use Prim.Native.Nat.{max}
use Prim.Native.String.{◌++◌ as str_append}
use cloudkeeper.Base.{
  ℕ, suc, ◌+◌, String, Bool, true, false, ◌&&◌, Option, none, some, List, [], ◌∷◌, ◌++◌, map, ltb,
  if◌then◌else◌, length,
}
use cloudkeeper.Dict.{Dict, get, put, keys}
use cloudkeeper.Json.{Json}
use cloudkeeper.Query.Data.{
  Direction, inbound, outbound, any, Sort, Navigation, edge_type, AggregateVariable,
  AggregateFunction, Aggregate, Term, all_term, not_term, predicate, combined, id_term, is_term,
  function_term, merge_term, MaybeTerm, no_term, some_term, Merges, no_merges, merge, Query, query,
  Parts, no_parts, and_part, Part, part, MaybeWith, no_with, with_clause,
}
use cloudkeeper.Query.Print.{aggregate_name_string, target_string}

pub record Analytics : Type 0 where
  pub counters : Dict ℕ
  pub names : Dict (List String)

abbrev pub count_of : Option ℕ → ℕ
count_of none = 0
count_of (some n) = n

abbrev pub names_of : Option (List String) → List String
names_of none = []
names_of (some l) = l

-- counters[key] += n
unfoldable pub add_count : String → ℕ → Analytics → Analytics
add_count k n a = record a { counters = put k (count_of (get k a.counters) + n) a.counters }

-- names[key].extend(l)
unfoldable pub add_names : String → List String → Analytics → Analytics
add_names k l a = record a { names = put k (names_of (get k a.names) ++ l) a.names }

-- f"term_{type(term).__name__.lower()}"
unfoldable pub term_counter : Term → String
term_counter all_term = "term_allterm"
term_counter (not_term t) = "term_notterm"
term_counter (predicate name op value args) = "term_predicate"
term_counter (combined l op r) = "term_combinedterm"
term_counter (id_term i) = "term_idterm"
term_counter (is_term kinds) = "term_isterm"
term_counter (function_term fn path args) = "term_functionterm"
term_counter (merge_term pre m post) = "term_mergeterm"

-- term_analytics
unfoldable pub term_analytics : Term → Analytics → Analytics
unfolding add_count add_names term_counter
term_analytics (predicate name op value args) a =
    add_names "predicate_names" (name ∷ [])
      (add_count (str_append "op_" op) 1 (add_count "term_predicate" 1 a))
term_analytics (combined l op r) a =
    term_analytics r (term_analytics l (add_count "term_combinedterm" 1 a))
term_analytics t a = add_count (term_counter t) 1 a

unfoldable pub maybe_term_analytics : MaybeTerm → Analytics → Analytics
unfolding term_analytics
maybe_term_analytics no_term a = a
maybe_term_analytics (some_term t) a = term_analytics t a

abbrev pub direction_text : Direction → String
direction_text inbound = "in"
direction_text outbound = "out"
direction_text any = "inout"

abbrev pub until_max : String
until_max = "navigation_until_max"

-- counters["navigation_until_max"] = max(counters["navigation_until_max"], navigation.until)
unfoldable pub raise_until : ℕ → Analytics → Analytics
raise_until n a = record a {
  counters = put until_max (max (count_of (get until_max a.counters)) n) a.counters;
}

-- navigation_analytics
unfoldable pub navigation_analytics : Navigation → Analytics → Analytics
unfolding add_count raise_until edge_type
navigation_analytics n a = raise_until n.until (
    add_count (str_append "navigation_" (edge_type n)) 1 (
      add_count (str_append "navigation_" (direction_text n.direction)) 1
        (add_count "navigation" 1 a)))

unfoldable pub maybe_navigation_analytics : Option Navigation → Analytics → Analytics
unfolding navigation_analytics
maybe_navigation_analytics none a = a
maybe_navigation_analytics (some n) a = navigation_analytics n a

-- with_clause_analytics, of a clause that may be missing
unfoldable pub with_clause_analytics : MaybeWith → Analytics → Analytics
unfolding add_count maybe_term_analytics navigation_analytics
with_clause_analytics no_with a = a
with_clause_analytics (with_clause f via t w) a =
    with_clause_analytics w
      (navigation_analytics via (maybe_term_analytics t (add_count "with_clause" 1 a)))

unfoldable pub limit_analytics : Option ℕ → Analytics → Analytics
unfolding add_count
limit_analytics (some (suc k)) a = add_count "limits" 1 a
limit_analytics k a = a

abbrev pub sort_name : Sort → String
sort_name s = s.name

unfoldable pub sort_analytics : List Sort → Analytics → Analytics
unfolding add_count add_names
sort_analytics [] a = a
sort_analytics (s ∷ l) a = add_names "sort_names" (map sort_name (s ∷ l)) (add_count "sorts" 1 a)

-- The navigation of the second part of an ancestor's merge query.
unfoldable pub to_ancestor : Option Navigation → Bool
to_ancestor none = false
to_ancestor (some n) = is_inbound n.direction && ltb 1 n.until
  where
    is_inbound : Direction → Bool
    is_inbound inbound = true
    is_inbound _ = false

-- is_ancestor_merge
unfoldable pub is_ancestor_merge : Query → Bool
unfolding to_ancestor
is_ancestor_merge
      (query
        (part (is_term kinds) tag w sort limit n)
        (and_part (part t tag' w' sort' limit' n') no_parts)
        pre
        none) =
    to_ancestor n'
is_ancestor_merge q = false

unfoldable pub preamble_analytics : Dict Json → Analytics → Analytics
unfolding add_names keys
preamble_analytics [] a = a
preamble_analytics (e ∷ pre) a = add_names "preamble_keys" (keys (e ∷ pre)) a

module _ (formatted : Json → String) where
  variable_text : AggregateVariable → String
  unfolding aggregate_name_string
  variable_text v = aggregate_name_string v.name

  function_text : AggregateFunction → String
  function_text f = target_string formatted formatted f.name

  unfoldable pub group_by_analytics : List AggregateVariable → Analytics → Analytics
  unfolding add_names add_count variable_text
  group_by_analytics [] a = a
  group_by_analytics (v ∷ l) a =
      add_count "aggregate_by" (length (v ∷ l))
        (add_names "aggregate_by" (map variable_text (v ∷ l)) a)

  unfoldable pub group_func_analytics : List AggregateFunction → Analytics → Analytics
  unfolding add_names add_count function_text
  group_func_analytics [] a = a
  group_func_analytics (f ∷ l) a =
      add_count "aggregate_func" (length (f ∷ l))
        (add_names "aggregate_func" (map function_text (f ∷ l)) a)

  unfoldable pub aggregate_analytics : Option Aggregate → Analytics → Analytics
  unfolding group_by_analytics group_func_analytics
  aggregate_analytics none a = a
  aggregate_analytics (some g) a =
      group_func_analytics g.group_func (group_by_analytics g.group_by a)

  unfoldable mutual
    unfolding preamble_analytics aggregate_analytics term_analytics maybe_term_analytics add_count
        add_names is_ancestor_merge limit_analytics sort_analytics maybe_navigation_analytics
        with_clause_analytics

    -- query_analytics
    pub query_analytics : Query → Analytics → Analytics
    query_analytics (query p ps pre agg) a =
        parts_analytics ps (part_analytics p (aggregate_analytics agg (preamble_analytics pre a)))

    parts_analytics : Parts → Analytics → Analytics
    parts_analytics no_parts a = a
    parts_analytics (and_part p ps) a = parts_analytics ps (part_analytics p a)

    part_analytics : Part → Analytics → Analytics
    part_analytics (part t tag w sort limit n) a = with_clause_analytics w (
        maybe_navigation_analytics n
          (sort_analytics sort (limit_analytics limit (part_term_analytics t a))))

    part_term_analytics : Term → Analytics → Analytics
    part_term_analytics (merge_term pre m post) a =
        maybe_term_analytics post
          (merges_analytics m (add_count "merge_terms" 1 (term_analytics pre a)))
    part_term_analytics t a = term_analytics t a

    merges_analytics : Merges → Analytics → Analytics
    merges_analytics no_merges a = a
    merges_analytics (merge name q only_first m) a = merges_analytics m (
        add_count (if is_ancestor_merge q then "merge_ancestors_by_kind" else "merge_other") 1
          (query_analytics q (add_names "merge_names" (name ∷ []) a)))

  -- analytics
  unfoldable pub analytics : Query → Analytics
  unfolding query_analytics
  analytics q = query_analytics q (record { counters = []; names = [] })
