-- ===== src/Query/Variables/Twice.antt =====
-- Renaming twice is renaming once, by the composition.
use cloudkeeper.Base.{String, ◌≡◌, refl, ap, ◌∙◌, Option, none, some, List, [], ◌∷◌, map}
use cloudkeeper.Query.Data.{
  NamePart, text, variable, AggregateName, simple, combination, AggregateVariable, AggregateTarget,
  property, number, AggregateFunction, Aggregate, Sort, Term, all_term, not_term, predicate,
  combined, id_term, is_term, function_term, merge_term, MaybeTerm, no_term, some_term, Merges,
  no_merges, merge, Query, query, Parts, no_parts, and_part, Part, part, MaybeWith, no_with,
  with_clause,
}
use cloudkeeper.Query.Variables.{
  change_sort, change_name_part, change_aggregate_name, change_aggregate_variable, change_target,
  change_function, change_aggregate, change_optional, change_term, change_maybe, change_merges,
  change_variable, change_parts, change_part, change_with,
}

module _ (f g : String → String) where
  abbrev both : String → String
  both n = f (g n)

  name_parts_twice :
      (l : List NamePart)
      → map (change_name_part f) (map (change_name_part g) l) ≡ map (change_name_part both) l
  unfolding change_name_part
  name_parts_twice [] = refl
  name_parts_twice (text s ∷ l) = ap (λ r. text s ∷ r) (name_parts_twice l)
  name_parts_twice (variable n ∷ l) = ap (λ r. variable (f (g n)) ∷ r) (name_parts_twice l)

  aggregate_name_twice :
      (a : AggregateName)
      → change_aggregate_name f (change_aggregate_name g a) ≡ change_aggregate_name both a
  unfolding change_aggregate_name
  aggregate_name_twice (simple n) = refl
  aggregate_name_twice (combination l) = ap combination (name_parts_twice l)

  target_twice : (a : AggregateTarget) → change_target f (change_target g a) ≡ change_target both a
  unfolding change_target
  target_twice (property n) = refl
  target_twice (number n) = refl

  group_by_twice :
      (l : List AggregateVariable)
      → map (change_aggregate_variable f) (map (change_aggregate_variable g) l)
        ≡ map (change_aggregate_variable both) l
  unfolding change_aggregate_variable
  group_by_twice [] = refl
  group_by_twice (v ∷ l) =
      ap
        (λ n.
          record v { name = n }
          ∷ map (change_aggregate_variable f) (map (change_aggregate_variable g) l))
        (aggregate_name_twice v.name)
      ∙ ap (λ r. record v { name = change_aggregate_name both v.name } ∷ r) (group_by_twice l)

  group_func_twice :
      (l : List AggregateFunction)
      → map (change_function f) (map (change_function g) l) ≡ map (change_function both) l
  unfolding change_function
  group_func_twice [] = refl
  group_func_twice (v ∷ l) =
      ap (λ n. record v { name = n } ∷ map (change_function f) (map (change_function g) l))
        (target_twice v.name)
      ∙ ap (λ r. record v { name = change_target both v.name } ∷ r) (group_func_twice l)

  sort_twice :
      (l : List Sort) → map (change_sort f) (map (change_sort g) l) ≡ map (change_sort both) l
  unfolding change_sort
  sort_twice [] = refl
  sort_twice (s ∷ l) = ap (λ r. record s { name = f (g s.name) } ∷ r) (sort_twice l)

  optional_twice :
      (a : Option Aggregate) → change_optional f (change_optional g a) ≡ change_optional both a
  unfolding change_optional change_aggregate
  optional_twice none = refl
  optional_twice (some a) = cc (group_by_twice a.group_by, group_func_twice a.group_func)

  mutual
    unfolding change_term

    term_twice : (t : Term) → change_term f (change_term g t) ≡ change_term both t
    term_twice all_term = refl
    term_twice (not_term t) = ap not_term (term_twice t)
    term_twice (predicate name op value args) = refl
    term_twice (combined l op r) = cc (term_twice l, term_twice r)
    term_twice (id_term i) = refl
    term_twice (is_term kinds) = refl
    term_twice (function_term fn path args) = refl
    term_twice (merge_term pre m post) = cc (term_twice pre, merges_twice m, maybe_twice post)

    maybe_twice : (t : MaybeTerm) → change_maybe f (change_maybe g t) ≡ change_maybe both t
    maybe_twice no_term = refl
    maybe_twice (some_term t) = ap some_term (term_twice t)

    merges_twice : (m : Merges) → change_merges f (change_merges g m) ≡ change_merges both m
    merges_twice no_merges = refl
    merges_twice (merge name q only_first m) = cc (query_twice q, merges_twice m)

    pub query_twice : (q : Query) → change_variable f (change_variable g q) ≡ change_variable both q
    query_twice (query p ps pre agg) = cc (part_twice p, parts_twice ps, optional_twice agg)

    parts_twice : (ps : Parts) → change_parts f (change_parts g ps) ≡ change_parts both ps
    parts_twice no_parts = refl
    parts_twice (and_part p ps) = cc (part_twice p, parts_twice ps)

    part_twice : (p : Part) → change_part f (change_part g p) ≡ change_part both p
    part_twice (part t tag w sort limit n) = cc (term_twice t, with_twice w, sort_twice sort)

    with_twice : (w : MaybeWith) → change_with f (change_with g w) ≡ change_with both w
    with_twice no_with = refl
    with_twice (with_clause filter n t w) = cc (maybe_twice t, with_twice w)
