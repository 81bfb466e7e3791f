-- ===== src/Query/Rewrite.antt =====
-- resotocore/core/query/model.py: `rewrite_for_ancestors_descendants`. Predicates on ancestors and
-- descendants of a node are taken into a filter behind a merge, which is what gives them their values.
pub mod Logic
pub mod Said
pub mod Whole
use Prim.Native.String.{◌++◌ as str_append}
use cloudkeeper.Base.{
  String, Bool, true, false, not, ◌&&◌, ◌||◌, Option, none, some, List, [], ◌∷◌, ◌++◌, map, keep,
  str_eq, if◌then◌else◌,
}
use cloudkeeper.Dict.{Dict, put}
use cloudkeeper.Query.Names.{is_ancestor_descendant, split_path, variable_to_absolute, path_root}
use cloudkeeper.Query.Data.{
  Direction, inbound, outbound, Navigation, max_navigation, default_edge, NamePart, text, variable,
  AggregateName, simple, combination, AggregateTarget, property, number, Aggregate, Term, all_term,
  not_term, predicate, combined, id_term, is_term, function_term, merge_term, MaybeTerm, no_term,
  some_term, Merges, no_merges, merge, Query, query, Parts, no_parts, and_part, Part, part, part_of,
  part_to, term_of, and_term,
}
use cloudkeeper.Query.Variables.{change_variable}

unfoldable mutual
  unfolding is_ancestor_descendant

  -- has_ancestor_descendant
  pub has_ancestor_descendant : Term → Bool
  has_ancestor_descendant all_term = false
  has_ancestor_descendant (not_term t) = has_ancestor_descendant t
  has_ancestor_descendant (predicate name op value args) = is_ancestor_descendant name
  has_ancestor_descendant (combined l op r) = has_ancestor_descendant l || has_ancestor_descendant r
  has_ancestor_descendant (id_term i) = false
  has_ancestor_descendant (is_term kinds) = false
  has_ancestor_descendant (function_term fn path args) = false
  has_ancestor_descendant (merge_term pre m post) =
      has_ancestor_descendant pre || maybe_has_ancestor_descendant post

  pub maybe_has_ancestor_descendant : MaybeTerm → Bool
  maybe_has_ancestor_descendant no_term = false
  maybe_has_ancestor_descendant (some_term t) = has_ancestor_descendant t

unfoldable mutual
  unfolding is_ancestor_descendant

  -- ancestor_descendant_predicates, of which only the names are used
  pub ancestor_descendant_predicates : Term → List String
  ancestor_descendant_predicates all_term = []
  ancestor_descendant_predicates (not_term t) = ancestor_descendant_predicates t
  ancestor_descendant_predicates (predicate name op value args) =
      if is_ancestor_descendant name then name ∷ [] else []
  ancestor_descendant_predicates (combined l op r) =
      ancestor_descendant_predicates l ++ ancestor_descendant_predicates r
  ancestor_descendant_predicates (id_term i) = []
  ancestor_descendant_predicates (is_term kinds) = []
  ancestor_descendant_predicates (function_term fn path args) = []
  ancestor_descendant_predicates (merge_term pre m post) =
      ancestor_descendant_predicates pre ++ maybe_predicates post

  pub maybe_predicates : MaybeTerm → List String
  maybe_predicates no_term = []
  maybe_predicates (some_term t) = ancestor_descendant_predicates t

-- The variables `before_merge` and `after_merge`.
pub record Filters : Type 0 where
  pub before_merge : Term
  pub after_merge : Term

abbrev pub filter_after : Term → Filters → Filters
filter_after t s = record s { after_merge = and_term s.after_merge t }

abbrev pub filter_before : Term → Filters → Filters
filter_before t s = record s { before_merge = and_term s.before_merge t }

abbrev pub and_then {ℓ κ} : {A : Type ℓ} {B : Type κ} → Option A → (A → Option B) → Option B
and_then none f = none
and_then (some a) f = f a

-- walk_term at the conjunction of two terms, by what is to be done at each. If neither has such a
-- predicate, the code raises a NotImplementedError.
unfoldable pub walk_both :
    Term → Term → (Filters → Option Filters) → (Filters → Option Filters) → Filters → Option Filters
walk_both l r walk_l walk_r s =
    if has_ancestor_descendant l
    then if has_ancestor_descendant r
      then and_then (walk_l s) walk_r
      else walk_l (filter_before r s)
    else if has_ancestor_descendant r
    then walk_r (filter_before l s)
    else none

unfoldable mutual
  unfolding walk_both

  -- walk_term
  pub walk_term : Term → Filters → Option Filters
  walk_term (combined l op r) s =
      if str_eq op "or"
      then some (filter_after (combined l op r) s)
      else walk_both l r (walk_term l) (walk_term r) s
  walk_term (merge_term pre m post) s = walk_post pre (walk_term pre) post s
  walk_term all_term s = some (filter_after all_term s)
  walk_term (not_term t) s = some (filter_after (not_term t) s)
  walk_term (predicate name op value args) s = some (filter_after (predicate name op value args) s)
  walk_term (id_term i) s = some (filter_after (id_term i) s)
  walk_term (is_term kinds) s = some (filter_after (is_term kinds) s)
  walk_term (function_term fn path args) s = some (filter_after (function_term fn path args) s)

  -- The pre-filter and the post-filter of a merge are walked as a conjunction.
  pub walk_post : Term → (Filters → Option Filters) → MaybeTerm → Filters → Option Filters
  walk_post pre walk_pre no_term s = walk_pre s
  walk_post pre walk_pre (some_term t) s = walk_both pre t walk_pre (walk_term t) s

direction_of : String → Direction
direction_of anc_dec = if str_eq anc_dec "ancestors" then inbound else outbound

abbrev pub MergeDict : Type 0
MergeDict = Dict (Query × Bool)

-- with_query_for: nothing if it raises an AttributeError.
unfoldable pub with_query_for : String → Option (String × (Query × Bool))
unfolding direction_of is_ancestor_descendant split_path
with_query_for path =
    if is_ancestor_descendant path
    then elim (split_path path) [
      | none ↦ none
      | some (anc_dec, kind) ↦ some (
        str_append anc_dec (str_append "." kind),
        (
          query (part_of (is_term (kind ∷ [])))
              (and_part
                (part_to all_term (record {
                  start = 1;
                  until = max_navigation;
                  maybe_edge_type = some default_edge;
                  direction = direction_of anc_dec;
                }))
                no_parts)
              [] none,
          true,
        ),
      )
    ]
    else none

-- created
unfoldable pub created_queries : List String → MergeDict → Option MergeDict
unfolding with_query_for
created_queries [] d = some d
created_queries (path ∷ l) d = elim (with_query_for path) [
  | none ↦ none
  | some (name, q) ↦ created_queries l (put name q d)
]

-- {**d, **existing}
unfoldable pub with_existing : Merges → MergeDict → MergeDict
with_existing no_merges d = d
with_existing (merge name q only_first m) d = with_existing m (put name (q, only_first) d)

existing_merges : Term → Merges
existing_merges (merge_term pre m post) = m
existing_merges _ = no_merges

unfoldable pub merges_of : MergeDict → Merges
merges_of [] = no_merges
merges_of ((name, (q, only_first)) ∷ d) = merge name q only_first (merges_of d)

-- The dict of the existing merge queries: a later one of the same name replaces an earlier one.
unfoldable pub all_queries : Term → MergeDict → Merges
unfolding with_existing existing_merges merges_of
all_queries t created = merges_of (with_existing (existing_merges t) created)

-- merge_queries_for
unfoldable pub merge_queries_for : Term → List String → Option Merges
unfolding created_queries all_queries
merge_queries_for t paths = elim (created_queries paths []) [
  | none ↦ none
  | some d ↦ some (all_queries t d)
]

abbrev pub with_term : Term → Part → Part
with_term t (part t' tag w sort limit n) = part t tag w sort limit n

abbrev pub no_filters : Filters
no_filters = record { before_merge = all_term; after_merge = all_term }

abbrev pub merged_term : Filters → Merges → Term
merged_term s m = merge_term s.before_merge m (some_term s.after_merge)

unfoldable pub rewrite_term : Term → Option Term
unfolding walk_term merge_queries_for
rewrite_term t =
    if has_ancestor_descendant t
    then and_then (walk_term t no_filters) (λ s.
      and_then (merge_queries_for t (ancestor_descendant_predicates s.after_merge))
        (λ m. some (merged_term s m)))
    else some t

-- rewrite_for_ancestors_descendants of a part
unfoldable pub rewrite_part : Part → Option Part
unfolding rewrite_term
rewrite_part p = and_then (rewrite_term (term_of p)) (λ t. some (with_term t p))

unfoldable pub rewrite_parts : Parts → Option Parts
unfolding rewrite_part
rewrite_parts no_parts = some no_parts
rewrite_parts (and_part p ps) =
    and_then (rewrite_part p) (λ p'. and_then (rewrite_parts ps) (λ ps'. some (and_part p' ps')))
