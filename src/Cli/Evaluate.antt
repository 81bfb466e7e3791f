-- ===== src/Cli/Evaluate.antt =====
-- resotocore/core/cli/cli.py: the commands that are known, and `combine_query_parts` of
-- `evaluate_cli_command`, which puts one command in the place of the leading query parts.
use cloudkeeper.Base.{String, Option, none, some, List, [], ◌∷◌, ◌++◌, if◌then◌else◌}
use cloudkeeper.Dict.{Dict, get, has, put}
use cloudkeeper.Json.{Json}
use cloudkeeper.Query.Data.{Query}
use cloudkeeper.Query.Rewrite.{and_then}
use cloudkeeper.Query.Build.{put_all}
use cloudkeeper.Cli.Commands.{CommandKind, other, Command, is_query_part, Parsers, Known}
use cloudkeeper.Cli.CreateQuery.{Environment, create_query, command}

-- {p.name: p for p in parts}
unfoldable pub by_names : List (String × CommandKind) → Known → Known
by_names [] d = d
by_names ((name, kind) ∷ l) d = by_names l (put name kind d)

-- alias_cmds
unfoldable pub alias_commands : Known → Dict String → Known → Known
alias_commands cmds [] d = d
alias_commands cmds ((alias, name) ∷ l) d =
    alias_commands cmds l (elim (get name cmds) [
      | none ↦ d
      | some kind ↦ if has alias cmds then d else put alias kind d
    ])

-- `self.commands`, from the parts with the help command behind them
unfoldable pub known_commands : List (String × CommandKind) → Dict String → Known
unfolding by_names alias_commands put_all
known_commands parts aliases =
    let cmds = by_names (parts ++ ("help", other) ∷ []) [] in
    put_all cmds (alias_commands cmds aliases [])

-- takewhile
unfoldable pub leading_parts : List Command → List Command
leading_parts [] = []
leading_parts (c ∷ l) = let rest = leading_parts l in if is_query_part c.kind then c ∷ rest else []

-- commands[len(parts) :]
unfoldable pub behind_parts : List Command → List Command
behind_parts [] = []
behind_parts (c ∷ l) = let rest = behind_parts l in if is_query_part c.kind then rest else c ∷ l

-- `remaining`
unfoldable pub evaluated_again : Parsers → Known → List Command → Option (List Command)
unfolding command
evaluated_again p known [] = some []
evaluated_again p known (c ∷ l) =
    and_then (command p known c.name c.arg)
      (λ c'. and_then (evaluated_again p known l) (λ l'. some (c' ∷ l')))

-- What the context gets: the query and its options, if there are query parts.
abbrev pub Found : Type 0
Found = Option (Query × Dict Json)

unfoldable pub with_parts :
    Parsers → Known → Environment → List Command → List Command → Option (Found × List Command)
unfolding create_query evaluated_again
with_parts p known env [] rest = some (none, rest)
with_parts p known env (c ∷ parts) rest =
    and_then (create_query p known env (c ∷ parts)) (λ (q, (options, created)).
      and_then (evaluated_again p known rest)
        (λ remaining. some (some (q, options), created ++ remaining)))

-- combine_query_parts
unfoldable pub combine_query_parts :
    Parsers → Known → Environment → List Command → Option (Found × List Command)
unfolding leading_parts behind_parts with_parts
combine_query_parts p known env cs = with_parts p known env (leading_parts cs) (behind_parts cs)
