-- ===== src/Query/Print.antt =====
-- resotocore/core/query/model.py: `__str__`, the texts of terms, parts and queries.
mod Texts
unfoldable pub use Texts.*
use Prim.Native.String.{◌++◌ as str_append}
use cloudkeeper.Base.{
  ℕ, String, ◌&&◌, Option, none, some, List, [], ◌∷◌, map, nat_eq, str_eq, if◌then◌else◌,
}
use cloudkeeper.Dict.{Dict}
use cloudkeeper.Json.{Json, Fields, str, num, has_field, field_or_null}
use cloudkeeper.Query.Data.{
  Direction, inbound, outbound, any, SortOrder, asc, desc, Sort, Navigation, max_navigation,
  edge_type, WithClauseFilter, NamePart, text, variable, AggregateName, simple, combination,
  AggregateVariable, AggregateTarget, property, number, AggregateFunction, Aggregate, Term,
  all_term, not_term, predicate, combined, id_term, is_term, function_term, merge_term, MaybeTerm,
  no_term, some_term, Merges, no_merges, merge, Query, query, Parts, no_parts, and_part, Part, part,
  MaybeWith, no_with, with_clause,
}

-- `to_js_str` writes a value as JSON, and `formatted` as Python's `str` does.
module _ (to_js_str formatted : Json → String) where
  abbrev pub digits : ℕ → String
  digits n = formatted (num n)

  -- What an f-string makes of a value: a text stays as it is.
  abbrev plain : Json → String
  plain (str s) = s
  plain v = formatted v

  -- Navigation
  unfoldable pub navigation_string : Navigation → String
  unfolding arrow edge_type
  navigation_string n = arrow n.direction (
      str_append (edge_type n) (
        if nat_eq n.start n.until
        then if nat_eq n.start 1 then "" else concat ("[" ∷ digits n.start ∷ "]" ∷ [])
        else concat (
            "["
            ∷ digits n.start
            ∷ ":"
            ∷ (if nat_eq n.until max_navigation then "" else digits n.until)
            ∷ "]"
            ∷ [])))

  -- WithClauseFilter
  unfoldable pub with_filter_string : WithClauseFilter → String
  unfolding concat
  with_filter_string f =
      if str_eq f.op "==" && nat_eq f.num 0
      then "empty"
      else if str_eq f.op ">" && nat_eq f.num 0
      then "any"
      else concat ("count" ∷ f.op ∷ digits f.num ∷ [])

  unfoldable pub target_string : AggregateTarget → String
  target_string (property n) = n
  target_string (number n) = digits n

  op_string : String × Json → String
  unfolding concat
  op_string (op, value) = concat (op ∷ " " ∷ plain value ∷ [])

  -- combined_ops
  unfoldable pub combined_ops : List (String × Json) → String
  unfolding join op_string
  combined_ops ops = join " " (map op_string ops)

  with_ops : List (String × Json) → String
  unfolding combined_ops
  with_ops [] = ""
  with_ops (o ∷ ops) = str_append " " (combined_ops (o ∷ ops))

  -- AggregateFunction
  unfoldable pub aggregate_function_string : AggregateFunction → String
  unfolding concat target_string with_ops with_as
  aggregate_function_string f =
      concat
        (f.function ∷ "(" ∷ target_string f.name ∷ with_ops f.ops ∷ ")" ∷ with_as f.as_name ∷ [])

  -- get_as_name of a function
  unfoldable pub function_as_name : AggregateFunction → String
  unfolding concat target_string name_or
  function_as_name f = name_or f.as_name (concat (f.function ∷ "_of_" ∷ target_string f.name ∷ []))

  grouped : List AggregateVariable → String
  unfolding join aggregate_variable_string
  grouped [] = ""
  grouped (v ∷ l) = str_append (join ", " (map aggregate_variable_string (v ∷ l))) ": "

  -- Aggregate
  unfoldable pub aggregate_string : Aggregate → String
  unfolding concat grouped join aggregate_function_string
  aggregate_string a = concat (
      "aggregate("
      ∷ grouped a.group_by
      ∷ join ", " (map aggregate_function_string a.group_func)
      ∷ ")"
      ∷ [])

  aggregate_prefix : Option Aggregate → String
  unfolding aggregate_string
  aggregate_prefix none = ""
  aggregate_prefix (some a) = aggregate_string a

  preamble_entry : String × Json → String
  unfolding concat
  preamble_entry (k, v) = concat (k ∷ "=" ∷ to_js_str v ∷ [])

  preamble_string : Dict Json → String
  unfolding concat join preamble_entry
  preamble_string [] = ""
  preamble_string (e ∷ pre) = concat ("(" ∷ join ", " (map preamble_entry (e ∷ pre)) ∷ ")" ∷ [])

  colon : Dict Json → Option Aggregate → String
  colon [] none = ""
  colon pre agg = ":"

  modifier : Fields → String
  modifier args =
      if has_field "filter" args then str_append (plain (field_or_null "filter" args)) " " else ""

  kinds_string : List String → String
  unfolding join quoted
  kinds_string [] = "[]"
  kinds_string (k ∷ []) = quoted k
  kinds_string (k ∷ l) = concat ("[" ∷ join ", " (map quoted (k ∷ l)) ∷ "]" ∷ [])

  args_string : List Json → String
  unfolding join
  args_string args =
      let listed = join ", " (map to_js_str args) in
      if str_eq listed "" then "" else str_append ", " listed

  tag_string : Option String → String
  tag_string none = ""
  tag_string (some s) = if str_eq s "" then "" else str_append "#" s

  sorts_string : List Sort → String
  unfolding join sort_string
  sorts_string [] = ""
  sorts_string (s ∷ l) = str_append " sort " (join "," (map sort_string (s ∷ l)))

  limit_string : Option ℕ → String
  limit_string none = ""
  limit_string (some k) = if nat_eq k 0 then "" else str_append " limit " (digits k)

  maybe_navigation_string : Option Navigation → String
  unfolding navigation_string
  maybe_navigation_string none = ""
  maybe_navigation_string (some n) = str_append " " (navigation_string n)

  unfoldable mutual
    unfolding concat join quoted with_filter_string navigation_string aggregate_prefix
        preamble_string colon modifier kinds_string args_string tag_string sorts_string limit_string
        maybe_navigation_string

    pub term_string : Term → String
    term_string all_term = "all"
    term_string (not_term t) = concat ("not(" ∷ term_string t ∷ ")" ∷ [])
    term_string (predicate name op value args) =
        concat (name ∷ " " ∷ modifier args ∷ op ∷ " " ∷ to_js_str value ∷ [])
    term_string (combined l op r) =
        concat ("(" ∷ term_string l ∷ " " ∷ op ∷ " " ∷ term_string r ∷ ")" ∷ [])
    term_string (id_term i) = concat ("id(" ∷ quoted i ∷ ")" ∷ [])
    term_string (is_term kinds) = concat ("is(" ∷ kinds_string kinds ∷ ")" ∷ [])
    term_string (function_term fn path args) =
        concat (fn ∷ "(" ∷ path ∷ args_string args ∷ ")" ∷ [])
    term_string (merge_term pre m post) =
        concat
          (term_string pre ∷ " {" ∷ join ", " (merge_strings m) ∷ "}" ∷ maybe_term_string post ∷ [])

    pub maybe_term_string : MaybeTerm → String
    maybe_term_string no_term = ""
    maybe_term_string (some_term t) = str_append " " (term_string t)

    pub merge_strings : Merges → List String
    merge_strings no_merges = []
    merge_strings (merge name q only_first m) =
        concat (name ∷ (if only_first then "" else "[]") ∷ ": " ∷ query_string q ∷ [])
        ∷ merge_strings m

    -- The parts are written from the last of the list to the first.
    pub query_string : Query → String
    query_string (query p ps pre agg) = concat (
        aggregate_prefix agg ∷ preamble_string pre ∷ colon pre agg ∷ behind ps (part_string p) ∷ [])

    behind : Parts → String → String
    behind no_parts s = s
    behind (and_part p ps) s = concat (behind ps (part_string p) ∷ " " ∷ s ∷ [])

    pub part_string : Part → String
    part_string (part t tag w sort limit n) = concat (
        term_string t
        ∷ maybe_with_string w
        ∷ tag_string tag
        ∷ sorts_string sort
        ∷ limit_string limit
        ∷ maybe_navigation_string n
        ∷ [])

    pub maybe_with_string : MaybeWith → String
    maybe_with_string no_with = ""
    maybe_with_string (with_clause f via t w) = concat (
        " with("
        ∷ with_filter_string f
        ∷ ", "
        ∷ navigation_string via
        ∷ maybe_term_string t
        ∷ maybe_with_string w
        ∷ ")"
        ∷ [])
