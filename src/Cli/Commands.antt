-- ===== src/Cli/Commands.antt =====
-- resotocore/core/cli/cli.py and command.py: the commands that extend a query, and their arguments. The
-- argument parsers of Python and the parsers of queries are parameters.
use Prim.Native.String.{◌++◌ as str_append}
use cloudkeeper.Base.{
  ℕ, suc, String, Bool, true, false, Option, none, some, List, [], ◌∷◌, ℤ, pos, negsuc, str_eq,
  if◌then◌else◌, member,
}
use cloudkeeper.Dict.{Dict}
use cloudkeeper.Json.{Json}
use cloudkeeper.Query.Data.{AggregateVariable, AggregateFunction, Query}
use cloudkeeper.Query.Rewrite.{and_then}
use cloudkeeper.Query.Print.{join}

-- The query parts, and every other command.
pub data CommandKind : Type 0 where
  query_all predecessors successors ancestors descendants aggregate count head_command tail_command
        other :
      CommandKind

-- An executable command: its name, what it is, and its argument.
pub record Command : Type 0 where
  pub name : String
  pub kind : CommandKind
  pub arg : Option String

-- `isinstance(x.command, QueryPart)`
abbrev pub is_query_part : CommandKind → Bool
is_query_part other = false
is_query_part _ = true

pub record Parsers : Type 0 where
  -- parse_known: the options, and the text of the query
  pub known : String → Option (Dict Json × String)
  -- template_expander.parse_query
  pub query : String → Option Query
  -- NoExitArgumentParser: whether `--with-origin` is given, and the edge type, if there is one
  pub arguments : String → Option (Bool × Option String)
  -- aggregate_parameter_parser
  pub aggregate : String → Option (List AggregateVariable × List AggregateFunction)
  -- int
  pub int : String → Option ℤ
  -- CLICommand.parse, of the command with that name: whether it takes the argument
  pub takes : String → Option String → Bool
  pub to_js_str : Json → String
  pub formatted : Json → String

-- EdgeType.all
abbrev pub edge_types : List String
edge_types = "default" ∷ "delete" ∷ []

abbrev pub edge_or : String → Option String → String
edge_or default none = default
edge_or default (some e) = e

-- `store_const`
abbrev pub origin_of : Bool → ℕ
origin_of true = 0
origin_of false = 1

-- valid_edge_type, with the start of the traversal
unfoldable pub valid_edge_type : ℕ → String → Option (ℕ × String)
valid_edge_type origin e = if member e edge_types then some (origin, e) else none

-- PredecessorPart.parse_args, where `default` is the edge type of the environment
unfoldable pub parse_args : Parsers → String → String → Option (ℕ × String)
unfolding valid_edge_type
parse_args p default arg =
    and_then (p.arguments arg)
      (λ (with_origin, edge). valid_edge_type (origin_of with_origin) (edge_or default edge))

absolute : ℤ → ℕ
absolute (pos n) = n
absolute (negsuc n) = suc n

-- HeadCommand.parse_size
unfoldable pub parse_size : Parsers → String → Option ℕ
unfolding absolute
parse_size p arg =
    if str_eq arg ""
    then some 100
    else elim (p.int arg) [ none ↦ none | some i ↦ some (absolute i) ]

true_options : Dict Json → List String
true_options [] = []
true_options ((k, Json.bool true) ∷ d) = str_append "--" k ∷ true_options d
true_options ((k, v) ∷ d) = true_options d

-- ExecuteQueryCommand.argument_string
unfoldable pub argument_string : Dict Json → String
unfolding true_options join
argument_string d = elim (true_options d) [ [] ↦ "" | o ∷ l ↦ str_append (join " " (o ∷ l)) " " ]

-- What `CLI.commands` knows by a name.
abbrev pub Known : Type 0
Known = Dict CommandKind
