-- ===== src/Cli/Examples.antt =====
-- Command lines: tests, and the theorem at a concrete line.
use cloudkeeper.Base.{
  ◌≡◌, refl, true, false, none, some, some_inj, subst, List, [], ◌∷◌, pos, str_eq, if◌then◌else◌,
}
use cloudkeeper.Dict.{get, has, put}
use cloudkeeper.Json.{has_field}
use cloudkeeper.Query.Data.{
  inbound, max_navigation, edge_type, and_term, all_term, is_term, Query, query, no_parts, and_part,
  part, part_of, part_to, no_with,
}
use cloudkeeper.Query.Rewrite.{has_ancestor_descendant}
use cloudkeeper.Query.Bounds.{IsBounded}
use cloudkeeper.Query.Build.{traverse, query_by}
use cloudkeeper.Query.Variables.{change_variable}
use cloudkeeper.Query.Build.Combine.{combine, combine_limits}
use cloudkeeper.Query.Print.{query_string}
use cloudkeeper.Cli.Commands.{
  Parsers, Command, Known, query_all, ancestors, head_command, other, parse_args, parse_size,
  argument_string,
}
use cloudkeeper.Cli.CreateQuery.{create_query, Environment}
use cloudkeeper.Cli.Bounds.{create_query-IsBounded}

program : Unit {0}
unfolding create_query parse_args parse_size argument_string combine combine_limits and_term
    traverse edge_type has_ancestor_descendant query_string has_field get has put query_by
    change_variable
program = tt

abbrev volumes : Query
volumes = query (part_of (is_term ("volume" ∷ []))) no_parts [] none

-- A navigation whose start is behind its end, which the parser of the repository lets pass.
abbrev backwards : Query
backwards =
    query
      (part_to (is_term ("volume" ∷ []))
        (record { start = 5; until = 2; maybe_edge_type = none; direction = inbound }))
      no_parts [] none

-- Parsers for the lines below.
abbrev parsers : Parsers
parsers = record {
  known = λ s. some ([], s);
  query = λ s. if str_eq s "is(volume)" then some volumes else some backwards;
  arguments = λ s. some (false, none);
  aggregate = λ s. none;
  int = λ s. some (pos 3);
  takes = λ k a. true;
  to_js_str = λ v. "1";
  formatted = λ v. "3";
}

abbrev known_commands : Known
known_commands = ("execute_query", other) ∷ []

abbrev root : Environment
root = record { section = none; edge = "default" }

-- query is(volume) | ancestors | ancestors | head 3
abbrev line : List Command
line =
    record { name = "query"; kind = query_all; arg = some "is(volume)" }
    ∷ record { name = "ancestors"; kind = ancestors; arg = none }
    ∷ record { name = "ancestors"; kind = ancestors; arg = none }
    ∷ record { name = "head"; kind = head_command; arg = some "3" }
    ∷ []

abbrev of_line : Query
of_line =
    query (part all_term none no_with [] (some 3) none)
      (and_part
        (part_to (is_term ("volume" ∷ [])) (record {
          start = 2;
          until = max_navigation;
          maybe_edge_type = some "default";
          direction = inbound;
        }))
        no_parts)
      [] none

abbrev to_execute : Command
to_execute = record {
  name = "execute_query";
  kind = other;
  arg = some "is(\"volume\") <-default[3:]- all limit 3";
}

line-created : create_query parsers known_commands root line ≡ some (of_line, ([], to_execute ∷ []))
unfolding program
line-created = refl

volumes-IsBounded : (q : Query) → some volumes ≡ some q → IsBounded q
volumes-IsBounded q h = subst IsBounded (some_inj h) (tt, tt)

nothing-IsBounded : (q : Query) → none ≡ some q → IsBounded q
nothing-IsBounded q h = cc

create_query-IsBounded_example : IsBounded of_line
create_query-IsBounded_example =
    create_query-IsBounded parsers known_commands root line of_line [] (to_execute ∷ [])
      (volumes-IsBounded, (nothing-IsBounded, (nothing-IsBounded, (nothing-IsBounded, tt))))
      line-created
