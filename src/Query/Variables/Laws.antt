-- ===== src/Query/Variables/Laws.antt =====
-- The property names of a query, and renaming that keeps each of them.
use cloudkeeper.Base.{String, ◌≡◌, refl, ap, ◌∙◌, Option, none, some, List, [], ◌∷◌, map, All}
use cloudkeeper.Query.Data.{
  NamePart, text, variable, AggregateName, simple, combination, AggregateVariable, AggregateTarget,
  property, number, AggregateFunction, Aggregate, Sort, Term, all_term, not_term, predicate,
  combined, id_term, is_term, function_term, merge_term, MaybeTerm, no_term, some_term, Merges,
  no_merges, merge, Query, query, Parts, no_parts, and_part, Part, part, MaybeWith, no_with,
  with_clause,
}
use cloudkeeper.Query.Variables.{
  change_sort, change_name_part, change_aggregate_name, change_aggregate_variable, change_target,
  change_function, change_aggregate, change_optional, change_term, change_maybe, change_merges,
  change_variable, change_parts, change_part, change_with,
}

-- The property names of a query meet `P`.
module _ (P : String → Type 0) where
  abbrev pub PartNamed : NamePart → Type 0
  PartNamed (text s) = Unit
  PartNamed (variable n) = P n

  abbrev pub AggregateNamed : AggregateName → Type 0
  AggregateNamed (simple n) = P n
  AggregateNamed (combination l) = All PartNamed l

  abbrev pub TargetNamed : AggregateTarget → Type 0
  TargetNamed (property n) = P n
  TargetNamed (number n) = Unit

  abbrev pub OptionalNamed : Option Aggregate → Type 0
  OptionalNamed none = Unit
  OptionalNamed (some a) =
      All (λ v. AggregateNamed v.name) a.group_by × All (λ x. TargetNamed x.name) a.group_func

  unfoldable mutual
    pub Named : Term → Type 0
    Named all_term = Unit
    Named (not_term t) = Named t
    Named (predicate name op value args) = P name
    Named (combined l op r) = Named l × Named r
    Named (id_term i) = Unit
    Named (is_term kinds) = Unit
    Named (function_term fn path args) = P path
    Named (merge_term pre m post) = Named pre × MergesNamed m × MaybeNamed post

    pub MaybeNamed : MaybeTerm → Type 0
    MaybeNamed no_term = Unit
    MaybeNamed (some_term t) = Named t

    pub MergesNamed : Merges → Type 0
    MergesNamed no_merges = Unit
    MergesNamed (merge name q only_first m) = QueryNamed q × MergesNamed m

    pub QueryNamed : Query → Type 0
    QueryNamed (query p ps pre agg) = PartsNamed p × AllNamed ps × OptionalNamed agg

    pub AllNamed : Parts → Type 0
    AllNamed no_parts = Unit
    AllNamed (and_part p ps) = PartsNamed p × AllNamed ps

    pub PartsNamed : Part → Type 0
    PartsNamed (part t tag w sort limit n) = Named t × WithNamed w × All (λ s. P s.name) sort

    pub WithNamed : MaybeWith → Type 0
    WithNamed no_with = Unit
    WithNamed (with_clause filter n t w) = MaybeNamed t × WithNamed w

module _ (f : String → String) (P : String → Type 0) (kept : (n : String) → P n → f n ≡ n) where
  name_parts_same : (l : List NamePart) → All (PartNamed P) l → map (change_name_part f) l ≡ l
  unfolding change_name_part
  name_parts_same [] h = refl
  name_parts_same (text s ∷ l) h = ap (λ r. text s ∷ r) (name_parts_same l h.1)
  name_parts_same (variable n ∷ l) h = cc (kept n h.0, name_parts_same l h.1)

  aggregate_name_same : (a : AggregateName) → AggregateNamed P a → change_aggregate_name f a ≡ a
  unfolding change_aggregate_name
  aggregate_name_same (simple n) h = ap simple (kept n h)
  aggregate_name_same (combination l) h = ap combination (name_parts_same l h)

  target_same : (a : AggregateTarget) → TargetNamed P a → change_target f a ≡ a
  unfolding change_target
  target_same (property n) h = ap property (kept n h)
  target_same (number n) h = refl

  group_by_same :
      (l : List AggregateVariable)
      → All (λ v. AggregateNamed P v.name) l
      → map (change_aggregate_variable f) l ≡ l
  unfolding change_aggregate_variable
  group_by_same [] h = refl
  group_by_same (v ∷ l) h =
      ap (λ n. record v { name = n } ∷ map (change_aggregate_variable f) l)
        (aggregate_name_same v.name h.0)
      ∙ ap (λ r. v ∷ r) (group_by_same l h.1)

  group_func_same :
      (l : List AggregateFunction)
      → All (λ v. TargetNamed P v.name) l
      → map (change_function f) l ≡ l
  unfolding change_function
  group_func_same [] h = refl
  group_func_same (v ∷ l) h =
      ap (λ n. record v { name = n } ∷ map (change_function f) l) (target_same v.name h.0)
      ∙ ap (λ r. v ∷ r) (group_func_same l h.1)

  sort_same : (l : List Sort) → All (λ s. P s.name) l → map (change_sort f) l ≡ l
  unfolding change_sort
  sort_same [] h = refl
  sort_same (s ∷ l) h =
      ap (λ n. record s { name = n } ∷ map (change_sort f) l) (kept s.name h.0)
      ∙ ap (λ r. s ∷ r) (sort_same l h.1)

  optional_same : (a : Option Aggregate) → OptionalNamed P a → change_optional f a ≡ a
  unfolding change_optional change_aggregate
  optional_same none h = refl
  optional_same (some a) h =
      ap (λ g. some (record a { group_by = g; group_func = map (change_function f) a.group_func }))
        (group_by_same a.group_by h.0)
      ∙ ap (λ g. some (record a { group_func = g })) (group_func_same a.group_func h.1)

  mutual
    unfolding Named change_term

    term_same : (t : Term) → Named P t → change_term f t ≡ t
    term_same all_term h = refl
    term_same (not_term t) h = ap not_term (term_same t h)
    term_same (predicate name op value args) h = ap (λ n. predicate n op value args) (kept name h)
    term_same (combined l op r) h = cc (term_same l h.0, term_same r h.1)
    term_same (id_term i) h = refl
    term_same (is_term kinds) h = refl
    term_same (function_term fn path args) h = ap (λ n. function_term fn n args) (kept path h)
    term_same (merge_term pre m post) h =
        cc (term_same pre h.0, merges_same m h.1, maybe_same post h.2)

    maybe_same : (t : MaybeTerm) → MaybeNamed P t → change_maybe f t ≡ t
    maybe_same no_term h = refl
    maybe_same (some_term t) h = ap some_term (term_same t h)

    merges_same : (m : Merges) → MergesNamed P m → change_merges f m ≡ m
    merges_same no_merges h = refl
    merges_same (merge name q only_first m) h = cc (query_same q h.0, merges_same m h.1)

    pub query_same : (q : Query) → QueryNamed P q → change_variable f q ≡ q
    query_same (query p ps pre agg) h =
        cc (part_same p h.0, parts_same ps h.1, optional_same agg h.2)

    parts_same : (ps : Parts) → AllNamed P ps → change_parts f ps ≡ ps
    parts_same no_parts h = refl
    parts_same (and_part p ps) h = cc (part_same p h.0, parts_same ps h.1)

    part_same : (p : Part) → PartsNamed P p → change_part f p ≡ p
    part_same (part t tag w sort limit n) h =
        cc (term_same t h.0, with_same w h.1, sort_same sort h.2)

    with_same : (w : MaybeWith) → WithNamed P w → change_with f w ≡ w
    with_same no_with h = refl
    with_same (with_clause filter n t w) h = cc (maybe_same t h.0, with_same w h.1)
