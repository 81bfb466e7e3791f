-- ===== src/Query/Build.antt =====
-- resotocore/core/query/model.py: the operations of `Query` that build a query step by step. Each gives
-- a new query; the current part, to which they add, is the first one of the list.
pub mod Combine
use Prim.Native.Nat.{min}
use cloudkeeper.Base.{
  ℕ, ◌+◌, String, Bool, true, false, not, ◌&&◌, ◌||◌, Option, none, some, List, [], ◌∷◌, ◌++◌,
  nat_eq, str_eq, if◌then◌else◌, leb,
}
use cloudkeeper.Dict.{Dict, put}
use cloudkeeper.Json.{Json}
use cloudkeeper.Query.Data.{
  Direction, inbound, outbound, any, SortOrder, asc, desc, Sort, Navigation, max_navigation,
  edge_type, AggregateVariable, AggregateFunction, Aggregate, Term, all_term, combined, is_term,
  merge_term, MaybeTerm, no_term, Merges, no_merges, merge, Query, query, Parts, no_parts, and_part,
  Part, part, part_of, part_to, MaybeWith, no_with, with_clause, WithClauseFilter,
}

-- What `mk_term` takes: the name of a kind, or a term.
pub data TermOrKind : Type 0 where
  kind : String → TermOrKind
  term : Term → TermOrKind

-- make_term
unfoldable pub make_term : TermOrKind → Term
make_term (kind k) = is_term (k ∷ [])
make_term (term t) = t

unfoldable pub reduce_terms : Term → List TermOrKind → Term
unfolding make_term
reduce_terms t [] = t
reduce_terms t (u ∷ l) = reduce_terms (combined t "and" (make_term u)) l

-- mk_term
unfoldable pub mk_term : TermOrKind → List TermOrKind → Term
unfolding make_term reduce_terms
mk_term t l = reduce_terms (make_term t) l

-- Query.by
unfoldable pub query_by : TermOrKind → List TermOrKind → Dict Json → Query
unfolding mk_term
query_by t l preamble = query (part_of (mk_term t l)) no_parts preamble none

-- filter: the part that it makes has the term and nothing else.
unfoldable pub filter : TermOrKind → List TermOrKind → Query → Query
unfolding mk_term
filter t l (query (part u tag w sort limit none) ps pre agg) =
    query (part_of (combined u "and" (mk_term t l))) ps pre agg
filter t l (query (part u tag w sort limit (some n)) ps pre agg) =
    query (part_of (mk_term t l)) (and_part (part u tag w sort limit (some n)) ps) pre agg

-- filter_with, whose argument is a with clause
unfoldable pub filter_with : WithClauseFilter → Navigation → MaybeTerm → MaybeWith → Query → Query
filter_with f via t w (query (part u tag w' sort limit n) ps pre agg) =
    query (part u tag (with_clause f via t w) sort limit n) ps pre agg

direction_eq : Direction → Direction → Bool
direction_eq inbound inbound = true
direction_eq outbound outbound = true
direction_eq any any = true
direction_eq _ _ = false

abbrev pub navigation : ℕ → ℕ → String → Direction → Navigation
navigation start until e d = record {
  start = start;
  until = until;
  maybe_edge_type = some e;
  direction = d;
}

-- We already traverse in this direction.
unfoldable pub same_way : Navigation → String → Direction → Bool
unfolding edge_type direction_eq
same_way n e d = str_eq (edge_type n) e && direction_eq n.direction d

-- traverse
unfoldable pub traverse : ℕ → ℕ → String → Direction → Query → Query
unfolding same_way
traverse start until e d (query (part t tag w sort limit none) ps pre agg) =
    query (part t tag w sort limit (some (navigation start until e d))) ps pre agg
traverse start until e d (query (part t tag w sort limit (some n)) ps pre agg) =
    if same_way n e d
    then query
        (part t tag w sort limit (
          some (
            navigation (min max_navigation (start + n.start)) (min max_navigation (until + n.until))
              e d)))
        ps pre agg
    else query (part_to all_term (navigation start until e d))
        (and_part (part t tag w sort limit (some n)) ps) pre agg

-- traverse_out
unfoldable pub traverse_out : ℕ → ℕ → String → Query → Query
unfolding traverse
traverse_out start until e q = traverse start until e outbound q

-- traverse_in
unfoldable pub traverse_in : ℕ → ℕ → String → Query → Query
unfolding traverse
traverse_in start until e q = traverse start until e inbound q

-- traverse_inout
unfoldable pub traverse_inout : ℕ → ℕ → String → Query → Query
unfolding traverse
traverse_inout start until e q = traverse start until e any q

-- group_by
unfoldable pub group_by : List AggregateVariable → List AggregateFunction → Query → Query
group_by vars funcs (query p ps pre agg) =
    query p ps pre (some (record { group_by = vars; group_func = funcs }))

-- __change_current_part: a part that navigates is already at its end.
unfoldable pub change_current_part : (Part → Part) → Query → Query
change_current_part f (query (part t tag w sort limit none) ps pre agg) =
    query (f (part t tag w sort limit none)) ps pre agg
change_current_part f (query (part t tag w sort limit (some n)) ps pre agg) =
    query (f (part_of all_term)) (and_part (part t tag w sort limit (some n)) ps) pre agg

abbrev pub with_sort : Sort → Part → Part
with_sort s (part t tag w sort limit n) = part t tag w (sort ++ s ∷ []) limit n

abbrev pub limited_to : ℕ → Part → Part
limited_to k (part t tag w sort limit n) = part t tag w sort (some k) n

abbrev pub tagged : String → Part → Part
tagged name (part t tag w sort limit n) = part t (some name) w sort limit n

-- add_sort
unfoldable pub add_sort : String → SortOrder → Query → Query
unfolding change_current_part
add_sort name order q = change_current_part (with_sort (record { name = name; order = order })) q

-- with_limit
unfoldable pub with_limit : ℕ → Query → Query
unfolding change_current_part
with_limit num q = change_current_part (limited_to num) q

-- tag
unfoldable pub tag : String → Query → Query
unfolding change_current_part
tag name q = change_current_part (tagged name) q

-- {**d, **e}
unfoldable pub put_all {ℓ} : {V : Type ℓ} → Dict V → Dict V → Dict V
put_all d [] = d
put_all d ((k, v) ∷ e) = put_all (put k v d) e

-- merge_preamble
unfoldable pub merge_preamble : Dict Json → Query → Query
unfolding put_all
merge_preamble new (query p ps [] agg) = query p ps new agg
merge_preamble new (query p ps (e ∷ pre) agg) = query p ps (put_all (e ∷ pre) new) agg

-- `[*m, merge]`
unfoldable pub add_merge : String → Query → Merges → Merges
add_merge name q no_merges = merge name q true no_merges
add_merge name q (merge name' q' only_first m) = merge name' q' only_first (add_merge name q m)

unfoldable pub merge_into : String → Query → Term → Term
unfolding add_merge
merge_into name q (merge_term pre m post) = merge_term pre (add_merge name q m) post
merge_into name q t = merge_term t (merge name q true no_merges) no_term

-- merge_with
unfoldable pub merge_with : String → Navigation → Term → Query → Query
unfolding merge_into
merge_with path via t (query (part u tag w sort limit n) ps pre agg) =
    query
      (part
        (merge_into path (query (part_of t) (and_part (part_to all_term via) no_parts) [] none) u)
        tag w sort limit n)
      ps pre agg

-- SortOrder.reverse
unfoldable pub reverse : SortOrder → SortOrder
reverse desc = asc
reverse asc = desc
