-- ===== src/Query/Data.antt =====
-- resotocore/core/query/model.py: the data of a query. Terms, parts, with clauses and queries hold one
-- another, so they stand in one block. `__post_init__` of `Query` refuses a query with no parts: here a
-- query has its first part, which is `parts[0]`, the current one, and the list of the others.
use cloudkeeper.Base.{ℕ, String, Bool, true, false, Option, none, some, List, []}
use cloudkeeper.Dict.{Dict}
use cloudkeeper.Json.{Json, Fields}

pub data Direction : Type 0 where
  inbound outbound any : Direction

pub data SortOrder : Type 0 where
  asc desc : SortOrder

pub record Sort : Type 0 where
  pub name : String
  pub order : SortOrder

pub record Navigation : Type 0 where
  pub start : ℕ
  pub until : ℕ
  pub maybe_edge_type : Option String
  pub direction : Direction

-- Navigation.Max
abbrev pub max_navigation : ℕ
max_navigation = 10000

abbrev pub default_edge : String
default_edge = "default"

-- edge_type
unfoldable pub edge_type : Navigation → String
edge_type n = elim n.maybe_edge_type [ none ↦ default_edge | some e ↦ e ]

pub record WithClauseFilter : Type 0 where
  pub op : String
  pub num : ℕ

-- An element of `AggregateVariableCombined.parts`.
pub data NamePart : Type 0 where
  text : String → NamePart
  variable : String → NamePart

-- AggregateVariableName and AggregateVariableCombined
pub data AggregateName : Type 0 where
  simple : String → AggregateName
  combination : List NamePart → AggregateName

pub record AggregateVariable : Type 0 where
  pub name : AggregateName
  pub as_name : Option String

-- What a function is applied to: a property or a number.
pub data AggregateTarget : Type 0 where
  property : String → AggregateTarget
  number : ℕ → AggregateTarget

pub record AggregateFunction : Type 0 where
  pub function : String
  pub name : AggregateTarget
  pub ops : List (String × Json)
  pub as_name : Option String

pub record Aggregate : Type 0 where
  pub group_by : List AggregateVariable
  pub group_func : List AggregateFunction

mutual
  -- The operator of a combined term is a text, "and" or "or".
  pub data Term : Type 0 where
    all_term : Term
    not_term : Term → Term
    predicate : (name op : String) → Json → (args : Fields) → Term
    combined : Term → (op : String) → Term → Term
    id_term : String → Term
    is_term : List String → Term
    function_term : (fn property_path : String) → List Json → Term
    merge_term : Term → Merges → MaybeTerm → Term

  pub data MaybeTerm : Type 0 where
    no_term : MaybeTerm
    some_term : Term → MaybeTerm

  -- A list of merge queries: a name, a query, and `only_first`.
  pub data Merges : Type 0 where
    no_merges : Merges
    merge : (name : String) → Query → (only_first : Bool) → Merges → Merges

  pub data Query : Type 0 where
    query : Part → Parts → Dict Json → Option Aggregate → Query

  pub data Parts : Type 0 where
    no_parts : Parts
    and_part : Part → Parts → Parts

  -- The term, the tag, the with clause, the sort criteria, the limit, and the navigation.
  pub data Part : Type 0 where
    part : Term → Option String → MaybeWith → List Sort → Option ℕ → Option Navigation → Part

  pub data MaybeWith : Type 0 where
    no_with : MaybeWith
    with_clause : WithClauseFilter → Navigation → MaybeTerm → MaybeWith → MaybeWith

-- Part(term)
abbrev pub part_of : Term → Part
part_of t = part t none no_with [] none none

-- Part(term, navigation=n)
abbrev pub part_to : Term → Navigation → Part
part_to t n = part t none no_with [] none (some n)

abbrev pub term_of : Part → Term
term_of (part t tag w sort limit n) = t

abbrev pub tag_of : Part → Option String
tag_of (part t tag w sort limit n) = tag

abbrev pub with_of : Part → MaybeWith
with_of (part t tag w sort limit n) = w

abbrev pub sort_of : Part → List Sort
sort_of (part t tag w sort limit n) = sort

abbrev pub limit_of : Part → Option ℕ
limit_of (part t tag w sort limit n) = limit

abbrev pub navigation_of : Part → Option Navigation
navigation_of (part t tag w sort limit n) = n

abbrev pub has_navigation : Part → Bool
has_navigation p = elim (navigation_of p) [ none ↦ false | some n ↦ true ]

-- or_term
unfoldable pub or_term : Term → Term → Term
or_term all_term other = all_term
or_term l all_term = all_term
or_term l r = combined l "or" r

-- and_term
unfoldable pub and_term : Term → Term → Term
and_term all_term other = other
and_term l all_term = l
and_term l r = combined l "and" r

abbrev pub current_part : Query → Part
current_part (query p ps pre agg) = p

abbrev pub other_parts : Query → Parts
other_parts (query p ps pre agg) = ps

abbrev pub preamble_of : Query → Dict Json
preamble_of (query p ps pre agg) = pre

abbrev pub aggregate_of : Query → Option Aggregate
aggregate_of (query p ps pre agg) = agg

abbrev pub append_parts : Parts → Parts → Parts
append_parts no_parts r = r
append_parts (and_part p l) r = and_part p (append_parts l r)
