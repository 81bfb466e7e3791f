-- ===== src/Cli/CreateQuery.antt =====
-- resotocore/core/cli/cli.py: `create_query`, which makes one query of the commands that extend it.
use Prim.Native.String.{◌++◌ as str_append}
use cloudkeeper.Base.{ℕ, String, Option, none, some, List, [], ◌∷◌, ◌++◌, str_eq, if◌then◌else◌}
use cloudkeeper.Dict.{Dict, get, has}
use cloudkeeper.Json.{Json}
use cloudkeeper.Query.Names.{path_root}
use cloudkeeper.Query.Data.{
  asc, desc, max_navigation, simple, number, Aggregate, all_term, Query, query, current_part,
  sort_of, aggregate_of,
}
use cloudkeeper.Query.Rewrite.{and_then}
use cloudkeeper.Query.Rewrite.Whole.{on_section}
use cloudkeeper.Query.Print.{query_string}
use cloudkeeper.Query.Build.{
  term, query_by, group_by, traverse_in, traverse_out, add_sort, with_limit, put_all,
}
use cloudkeeper.Query.Build.Combine.{combine, has_aggregate}
use cloudkeeper.Cli.Commands.{
  CommandKind, query_all, predecessors, successors, ancestors, descendants, aggregate, count,
  head_command, tail_command, other, Command, Parsers, parse_args, parse_size, argument_string,
  Known,
}

-- The variables `query`, `parsed_options` and `additional_commands`.
pub record Creating : Type 0 where
  pub query : Query
  pub options : Dict Json
  pub additional : List Command

abbrev pub text_of : Option String → String
text_of none = ""
text_of (some s) = s

-- `command`: nothing for a name that is not known, or an argument that the command does not take
unfoldable pub command : Parsers → Known → String → Option String → Option Command
command p known name arg = elim (get name known) [
  | none ↦ none
  | some kind ↦
      if p.takes name arg then some (record { name = name; kind = kind; arg = arg }) else none
]

-- parse_query: the options, added to those that are there, and the query
unfoldable pub parse_query : Parsers → String → Dict Json → Option (Dict Json × Query)
unfolding put_all
parse_query p arg options =
    and_then (p.known arg)
      (λ (parsed, rest). and_then (p.query rest) (λ q. some (put_all options parsed, q)))

-- One step of a traversing command.
unfoldable pub traverse_by :
    Parsers → String → String → (ℕ → String → Query → Query) → Creating → Option Creating
unfolding parse_args
traverse_by p edge arg go s =
    and_then (parse_args p edge arg)
      (λ (origin, e). some (record s { query = go origin e s.query }))

unfoldable pub count_aggregate : String → Aggregate
count_aggregate arg = record {
  group_by = if str_eq arg "" then [] else record { name = simple arg; as_name = some "name" } ∷ [];
  group_func = record { function = "sum"; name = number 1; ops = []; as_name = some "count" } ∷ [];
}

unfoldable pub with_aggregate : Aggregate → Query → Query
with_aggregate a (query p ps pre agg) = query p ps pre (some a)

-- If the query should be explained, the count is left as it is.
unfoldable pub count_commands : Parsers → Known → Creating → Option (List Command)
unfolding command
count_commands p known s =
    if has "explain" s.options
    then some s.additional
    else and_then (command p known "aggregate_to_count" none) (λ c. some (s.additional ++ c ∷ []))

-- The case of CountCommand: an assertion fails where the query has an aggregate.
unfoldable pub count_step : Parsers → Known → String → Creating → Option Creating
unfolding count_aggregate with_aggregate count_commands add_sort
count_step p known arg s =
    if has_aggregate (aggregate_of s.query)
    then none
    else and_then (count_commands p known s) (λ cs. some (record s {
      query =
          add_sort (str_append path_root "count") asc
            (with_aggregate (count_aggregate arg) s.query);
      additional = cs;
    }))

-- The sort that `tail` adds to a query whose current part has none.
unfoldable pub tail_sorted : Query → Query
unfolding add_sort
tail_sorted q = elim (sort_of (current_part q)) [ [] ↦ add_sort "_key" desc q | _ ∷ _ ↦ q ]

-- What is done for each command, with its argument.
unfoldable pub step_of :
    Parsers → Known → String → CommandKind → String → Creating → Option Creating
unfolding traverse_by parse_query count_step parse_size tail_sorted with_limit traverse_in
    traverse_out combine group_by
step_of p known edge query_all arg s = and_then (parse_query p arg s.options) (λ (options, q).
    and_then (combine s.query q) (λ r. some (record s { query = r; options = options })))
step_of p known edge predecessors arg s =
    traverse_by p edge arg (λ origin e. traverse_in origin 1 e) s
step_of p known edge successors arg s =
    traverse_by p edge arg (λ origin e. traverse_out origin 1 e) s
step_of p known edge ancestors arg s =
    traverse_by p edge arg (λ origin e. traverse_in origin max_navigation e) s
step_of p known edge descendants arg s =
    traverse_by p edge arg (λ origin e. traverse_out origin max_navigation e) s
step_of p known edge aggregate arg s =
    and_then (p.aggregate arg)
      (λ (vars, funcs). some (record s { query = group_by vars funcs s.query }))
step_of p known edge count arg s = count_step p known arg s
step_of p known edge head_command arg s =
    and_then (parse_size p arg) (λ size. some (record s { query = with_limit size s.query }))
step_of p known edge tail_command arg s =
    and_then (parse_size p arg)
      (λ size. some (record s { query = with_limit size (tail_sorted s.query) }))
step_of p known edge other arg s = none

-- One round of the loop over the commands.
abbrev pub step : Parsers → Known → String → Command → Creating → Option Creating
step p known edge c s = step_of p known edge c.kind (text_of c.arg) s

unfoldable pub steps : Parsers → Known → String → List Command → Creating → Option Creating
unfolding step_of
steps p known edge [] s = some s
steps p known edge (c ∷ l) s = and_then (step p known edge c s) (λ s'. steps p known edge l s')

abbrev pub start_creating : Creating
start_creating = record { query = query_by (term all_term) [] []; options = []; additional = [] }

-- What `create_query` reads of the context.
pub record Environment : Type 0 where
  pub section : Option String
  pub edge : String

-- ctx.env.get("section", PathRoot)
abbrev pub section_or_root : Option String → String
section_or_root none = path_root
section_or_root (some s) = s

-- create_query: the query, the options, and the commands to run
unfoldable pub create_query :
    Parsers → Known → Environment → List Command → Option (Query × (Dict Json × List Command))
unfolding steps on_section argument_string command
create_query p known env cs = and_then (steps p known env.edge cs start_creating) (λ s.
    and_then (on_section (some (section_or_root env.section)) s.query) (λ q.
      and_then
        (command p known "execute_query"
          (some (str_append (argument_string s.options) (query_string p.to_js_str p.formatted q))))
        (λ c. some (q, (s.options, c ∷ s.additional)))))
