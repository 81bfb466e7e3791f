-- ===== src/Query/Examples.antt =====
-- Queries on small inputs: tests, and the theorems at concrete queries.
use cloudkeeper.Base.{
  ℕ, String, ◌≡◌, refl, inl, true, none, some, List, [], ◌∷◌, ◌++◌, ◌+◌, map, str_eq, nat_eq,
  if◌then◌else◌,
}
use cloudkeeper.Json.{Json, end, has_field}
use cloudkeeper.Query.Names.{variable_to_absolute, variable_to_relative}
use cloudkeeper.Query.Data.{
  inbound, outbound, Navigation, max_navigation, default_edge, Term, all_term, predicate, combined,
  is_term, merge_term, some_term, no_merges, merge, Query, query, no_parts, and_part, part,
  and_term, edge_type, part_of, part_to, no_with, preamble_of, aggregate_of, current_part,
}
use cloudkeeper.Query.Variables.{change_variable, relative_to_section}
use cloudkeeper.Query.Variables.Sections.{relative_to_section-absolute}
use cloudkeeper.Dict.{put, get, has, IsDistinct}
use cloudkeeper.Query.Rewrite.{has_ancestor_descendant, ancestor_descendant_predicates, merges_of}
use cloudkeeper.Query.Variables.Laws.{QueryNamed}
use cloudkeeper.Query.Meaning.{is_met, has_merge}
use cloudkeeper.Query.Rewrite.Whole.{rewrite_query}
use cloudkeeper.Query.Meaning.Run.{Database, Stage, sorting, having, going, summarising, run_query}
use cloudkeeper.Query.Build.{kind, mk_term, filter}
use cloudkeeper.Query.Build.Combine.{combine, combine_limits, last_part, has_tag}
use cloudkeeper.Query.Build.Combine.Runs.{
  combine-runs, IsPlain, Follows, last_of, behind_filter, no_limit,
}
use cloudkeeper.Query.Build.Combine.Kept.{
  said, tag_list, with_list, navigation_list, option_list, combine-keeps,
}
use cloudkeeper.Query.Predicates.{predicates, predicates_in}
use cloudkeeper.Query.Predicates.Counts.{count, combine-counts}
use cloudkeeper.Query.Rewrite.Whole.{additional_paths}
use cloudkeeper.Query.Rewrite.Whole.Total.{IsSplitQuery, rewrite_query-some}
use cloudkeeper.Query.FromJson.{from_json}
use cloudkeeper.Query.FromJson.Reads.{to_json, from_json-to_json, plain_combined, plain_predicate}
use cloudkeeper.Query.Analytics.{analytics}
use cloudkeeper.Query.Print.{query_string}

program : Unit {0}
unfolding rewrite_query has_ancestor_descendant ancestor_descendant_predicates and_term put
    merges_of combine combine_limits filter predicates_in count run_query is_met mk_term
    query_string analytics additional_paths get has IsPlain has_merge has_tag edge_type has_field
program = tt

abbrev named : String → Term
named n = predicate n "==" (Json.str "x") end

abbrev by_name : Query
by_name =
    query (part_of (combined (named "reported.name") "and" (named "metadata.kind"))) no_parts []
      none

by_name-relative :
    relative_to_section "reported" by_name
    ≡ query (part_of (combined (named "name") "and" (named "/metadata.kind"))) no_parts [] none
unfolding relative_to_section variable_to_relative
by_name-relative = refl

relative_to_section-absolute_example :
    change_variable
      (variable_to_absolute (some "reported"))
      (relative_to_section "reported" by_name)
    ≡ by_name
unfolding QueryNamed
relative_to_section-absolute_example =
    relative_to_section-absolute "reported" by_name (record { named = refl; inner = refl })
      (
        (
          (
            record { no_slash = refl; no_inner_slash = refl },
            record { no_slash = refl; no_inner_slash = refl },
          ),
          tt,
          tt,
        ),
        tt,
        tt,
      )

-- A database of numbers: 1 has the smallest predicates, and navigation counts up.
abbrev numbers : Database ℕ
numbers = record { meets = λ n t. nat_eq n 1; does = λ s l. does_stage s l }
  where
    does_stage : Stage → List ℕ → List ℕ
    does_stage (sorting s) l = l
    does_stage (having w) l = l
    does_stage (going n) l = map (λ k. k + 1) l
    does_stage (summarising a) l = []

abbrev with_ancestor : Query
with_ancestor =
    query (part_of (combined (named "ancestors.vpc.reported.name") "and" (named "reported.name")))
      no_parts [] none

abbrev vpc_query : Query
vpc_query =
    query (part_of (is_term ("vpc" ∷ [])))
      (and_part
        (part_to all_term (record {
          start = 1;
          until = max_navigation;
          maybe_edge_type = some default_edge;
          direction = inbound;
        }))
        no_parts)
      [] none

abbrev with_merge : Query
with_merge =
    query
      (part_of (
        merge_term (named "reported.name") (merge "ancestors.vpc" vpc_query true no_merges)
          (some_term (named "ancestors.vpc.reported.name"))))
      no_parts [] none

with_ancestor-rewritten : rewrite_query [] with_ancestor ≡ some with_merge
unfolding program
with_ancestor-rewritten = refl

-- A name with less than two dots is refused.
short_name : rewrite_query [] (query (part_of (named "ancestors.vpc")) no_parts [] none) ≡ none
unfolding program
short_name = refl

abbrev first_query : Query
first_query = query (part_of (named "reported.name")) no_parts [] none

abbrev out : Navigation
out = record { start = 1; until = 1; maybe_edge_type = some default_edge; direction = outbound }

abbrev second_query : Query
second_query =
    query (part (named "metadata.kind") none no_with [] (some 1) (some out)) no_parts [] none

abbrev both_queries : Query
both_queries =
    query
      (part (combined (named "reported.name") "and" (named "metadata.kind")) none no_with []
        (some 1) (some out))
      no_parts [] none

first-second : combine first_query second_query ≡ some both_queries
unfolding program
first-second = refl

first-IsPlain : IsPlain first_query
unfolding program
first-IsPlain = ((refl, refl), tt, refl)

second-IsPlain : IsPlain second_query
unfolding program
second-IsPlain = ((refl, refl), tt, refl)

first-Follows : Follows (current_part first_query) (last_of second_query)
unfolding last_part
first-Follows = behind_filter no_limit

combine-runs_example :
    run_query numbers both_queries (1 ∷ 1 ∷ [])
    ≡ run_query numbers second_query (run_query numbers first_query (1 ∷ 1 ∷ []))
combine-runs_example =
    combine-runs numbers first_query second_query both_queries first-IsPlain second-IsPlain refl
      (inl refl) first-Follows first-second (1 ∷ 1 ∷ [])

both_queries-run : run_query numbers both_queries (1 ∷ 1 ∷ []) ≡ 2 ∷ []
unfolding program
both_queries-run = refl

-- The first query ends with a tag, the second one navigates and has an option.
abbrev with_tag : Query
with_tag = query (part (named "reported.name") (some "mine") no_with [] none none) no_parts [] none

abbrev navigating : Query
navigating =
    query (part (named "metadata.kind") none no_with [] none (some out)) no_parts
      (("edge_type", Json.str "delete") ∷ []) none

abbrev tagged_navigating : Query
tagged_navigating =
    query
      (part (combined (named "reported.name") "and" (named "metadata.kind")) (some "mine") no_with
        [] none (some out))
      no_parts (("edge_type", Json.str "delete") ∷ []) none

with_tag-navigating : combine with_tag navigating ≡ some tagged_navigating
unfolding program
with_tag-navigating = refl

one_option : IsDistinct (preamble_of navigating)
unfolding program
one_option = (refl, tt)

combine-keeps_example :
    (said tag_list tagged_navigating ≡ said tag_list navigating ++ said tag_list with_tag)
    × (said with_list tagged_navigating ≡ said with_list navigating ++ said with_list with_tag)
    × (said navigation_list tagged_navigating
        ≡ said navigation_list navigating ++ said navigation_list with_tag)
    × (option_list (aggregate_of tagged_navigating)
        ≡ option_list (aggregate_of with_tag) ++ option_list (aggregate_of navigating))
    × (get "edge_type" (preamble_of tagged_navigating) ≡ (
        if has "edge_type" (preamble_of navigating)
        then get "edge_type" (preamble_of navigating)
        else get "edge_type" (preamble_of with_tag)))
combine-keeps_example =
    combine-keeps with_tag navigating tagged_navigating "edge_type" one_option with_tag-navigating

combine-counts_example :
    count (λ p. str_eq p.op "==") (predicates both_queries)
    ≡ count (λ p. str_eq p.op "==") (predicates first_query)
      + count (λ p. str_eq p.op "==") (predicates second_query)
combine-counts_example =
    combine-counts (λ p. str_eq p.op "==") first_query second_query both_queries first-second

-- The limit of the first query comes before the filter of the second one; in the combined query it does not.
limit_behind :
    combine (query (part all_term none no_with [] (some 1) none) no_parts [] none) first_query
    ≡ some (query (part (named "reported.name") none no_with [] (some 1) none) no_parts [] none)
unfolding program
limit_behind = refl

-- A filter drops the limit of the part that it is added to.
filter_drops_limit :
    filter (kind "volume") [] (query (part all_term none no_with [] (some 1) none) no_parts [] none)
    ≡ query (part_of (combined all_term "and" (is_term ("volume" ∷ [])))) no_parts [] none
unfolding program
filter_drops_limit = refl

printed :
    query_string (λ v. "1") (λ v. "1") both_queries
    ≡ "(reported.name == 1 and metadata.kind == 1) limit 1 -default->"
unfolding program
printed = refl

vpc_names : IsSplitQuery [] with_ancestor
unfolding program
vpc_names = (((("ancestors", "vpc"), refl), tt), tt, tt)

rewrite_query-some_example : (q : Query) × (rewrite_query [] with_ancestor ≡ some q)
rewrite_query-some_example = rewrite_query-some [] with_ancestor vpc_names

plain_term-read :
    from_json (to_json (combined (named "reported.name") "or" (named "metadata.kind")))
    ≡ some (combined (named "reported.name") "or" (named "metadata.kind"))
plain_term-read =
    from_json-to_json (combined (named "reported.name") "or" (named "metadata.kind"))
      (plain_combined plain_predicate plain_predicate)

limits_counted : get "limits" (analytics (λ v. "1") second_query).counters ≡ some 1
unfolding program
limits_counted = refl
