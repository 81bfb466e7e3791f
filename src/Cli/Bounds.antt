-- ===== src/Cli/Bounds.antt =====
-- The query of a command line navigates within bounds.
use cloudkeeper.Base.{
  ℕ, ◌≤◌, String, ◌≡◌, ap, subst, Bool, true, false, Option, none, some, some_inj, none-some, List,
  [], ◌∷◌, Bool-cases, inl, inr, arith, member, All,
}
use cloudkeeper.Dict.{Dict}
use cloudkeeper.Json.{Json}
use cloudkeeper.Query.Names.{path_root}
use cloudkeeper.Query.Data.{
  asc, desc, Direction, inbound, outbound, max_navigation, Aggregate, AggregateVariable,
  AggregateFunction, Query, query, aggregate_of, part,
}
use cloudkeeper.Query.Rewrite.{and_then}
use cloudkeeper.Query.Rewrite.Whole.{on_section}
use cloudkeeper.Query.Rewrite.Whole.Steps.{and_then-some}
use Prim.Native.String.{◌++◌ as str_append}
use cloudkeeper.Query.Build.Combine.{combine, has_aggregate}
use cloudkeeper.Query.Build.{
  put_all, traverse, traverse_in, traverse_out, add_sort, with_limit, group_by, query_by,
}
use cloudkeeper.Query.Print.{query_string}
use cloudkeeper.Query.Bounds.{
  IsBounded, traverse-IsBounded, with_limit-IsBounded, add_sort-IsBounded, combine-IsBounded,
  on_section-IsBounded,
}
use cloudkeeper.Cli.Commands.{
  CommandKind, query_all, predecessors, successors, ancestors, descendants, aggregate, count,
  head_command, tail_command, other, Command, Parsers, parse_args, parse_size, Known,
  valid_edge_type, origin_of, edge_or, edge_types, argument_string,
}
use cloudkeeper.Cli.CreateQuery.{
  Creating, parse_query, traverse_by, count_step, with_aggregate, tail_sorted, step, step_of, steps,
  count_commands, count_aggregate, text_of, start_creating, create_query, Environment,
  section_or_root, command,
}

-- The query that is written in a command, once its options are taken off.
abbrev pub written : Parsers → CommandKind → String → Option Query
written p query_all arg = and_then (p.known arg) (λ (options, rest). p.query rest)
written p kind arg = none

-- What is written in the command navigates within bounds.
abbrev pub IsBoundedCommand : Parsers → Command → Type 0
IsBoundedCommand p c = (q : Query) → written p c.kind (text_of c.arg) ≡ some q → IsBounded q

module _ (p : Parsers) (known : Known) (edge : String) where
  abbrev IsGood : Creating → Type 0
  IsGood s = IsBounded s.query

  written_by :
      (arg : String) (options : Dict Json) (rest : String) (q : Query)
      → p.known arg ≡ some (options, rest)
      → p.query rest ≡ some q
      → written p query_all arg ≡ some q
  written_by arg options rest q e e' = rw (e, e')

  parse_query-IsBounded :
      (arg : String) (options options' : Dict Json) (q : Query)
      → ((q : Query) → written p query_all arg ≡ some q → IsBounded q)
      → parse_query p arg options ≡ some (options', q)
      → IsBounded q
  unfolding parse_query
  parse_query-IsBounded arg options options' q parsed h =
      let ((known_options, rest), (e, k)) =
        and_then-some (p.known arg)
          (λ (o, rest). and_then (p.query rest) (λ q. some (put_all options o, q))) (options', q)
          h in
      let (q', (e', k')) =
        and_then-some (p.query rest) (λ q. some (put_all options known_options, q)) (options', q)
          k in
      subst IsBounded (ap query_in (some_inj k'))
        (parsed q' (written_by arg known_options rest q' e e'))
    where
      query_in : Dict Json × Query → Query
      query_in (o, q) = q

  -- The start of a traversal is 0 or 1.
  parse_args_start :
      (arg : String) (origin : ℕ) (e : String)
      → parse_args p edge arg ≡ some (origin, e)
      → origin ≤ 1
  unfolding parse_args valid_edge_type
  parse_args_start arg origin e h =
      let ((with_origin, given), (k, r)) =
        and_then-some (p.arguments arg)
          (λ (with_origin, given). valid_edge_type (origin_of with_origin) (edge_or edge given))
          (origin, e) h in
      valid_start with_origin (edge_or edge given) r
    where
      start_of : ℕ × String → ℕ
      start_of (n, e) = n

      small : (b : Bool) → origin_of b ≤ 1
      small true = omega arith
      small false = omega arith

      valid_start :
          (b : Bool) (given : String)
          → valid_edge_type (origin_of b) given ≡ some (origin, e)
          → origin ≤ 1
      valid_start b given r = elim (Bool-cases (member given edge_types)) [
        | inl m ↦ subst (λ n. n ≤ 1) (ap start_of (some_inj (rw m at r))) (small b)
        | inr m ↦ absurd (none-some (rw m at r))
      ]

  traverse_by-IsBounded :
      (arg : String) (until : ℕ) (d : Direction) (s s' : Creating)
      → 1 ≤ until
      → until ≤ max_navigation
      → IsGood s
      → traverse_by p edge arg (λ origin e. traverse origin until e d) s ≡ some s'
      → IsGood s'
  unfolding traverse_by
  traverse_by-IsBounded arg until d s s' a b good h =
      let ((origin, e), (k, r)) =
        and_then-some (parse_args p edge arg)
          (λ (origin, e). some (record s { query = traverse origin until e d s.query })) s' h in
      subst IsGood (some_inj r) (
        traverse-IsBounded origin until e d s.query
          (omega (arith, a, parse_args_start arg origin e k)) b good)

  with_aggregate-IsBounded :
      (a : Aggregate) (q : Query) → IsBounded q → IsBounded (with_aggregate a q)
  unfolding with_aggregate
  with_aggregate-IsBounded a (query q qs pre agg) h = h

  group_by-IsBounded :
      (vars : List AggregateVariable) (funcs : List AggregateFunction) (q : Query)
      → IsBounded q
      → IsBounded (group_by vars funcs q)
  unfolding group_by
  group_by-IsBounded vars funcs (query q qs pre agg) h = h

  tail_sorted-IsBounded : (q : Query) → IsBounded q → IsBounded (tail_sorted q)
  unfolding tail_sorted
  tail_sorted-IsBounded (query (part t tag w [] k n) ps pre agg) h =
      add_sort-IsBounded "_key" desc (query (part t tag w [] k n) ps pre agg) h
  tail_sorted-IsBounded (query (part t tag w (x ∷ l) k n) ps pre agg) h = h

  count_step-IsBounded :
      (arg : String) (s s' : Creating) → IsGood s → count_step p known arg s ≡ some s' → IsGood s'
  unfolding count_step
  count_step-IsBounded arg s s' good h = elim (Bool-cases (has_aggregate (aggregate_of s.query))) [
    | inl e ↦ absurd (none-some (rw e at h))
    | inr e ↦
        let (cs, (e', k)) =
          and_then-some (count_commands p known s) (λ cs. some (counted cs)) s' (rw e at h) in
        subst IsGood (some_inj k) (
          add_sort-IsBounded (str_append path_root "count") asc
            (with_aggregate (count_aggregate arg) s.query)
            (with_aggregate-IsBounded (count_aggregate arg) s.query good))
  ]
    where
      counted : List Command → Creating
      counted cs = record s {
        query =
            add_sort (str_append path_root "count") asc
              (with_aggregate (count_aggregate arg) s.query);
        additional = cs;
      }

  step_of-IsBounded :
      (c : CommandKind) (arg : String) (s s' : Creating)
      → ((q : Query) → written p c arg ≡ some q → IsBounded q)
      → IsGood s
      → step_of p known edge c arg s ≡ some s'
      → IsGood s'
  unfolding step_of traverse_in traverse_out
  step_of-IsBounded query_all arg s s' parsed good h =
      let ((options, q), (e, k)) =
        and_then-some (parse_query p arg s.options)
          (λ (options, q).
            and_then (combine s.query q) (λ r. some (record s { query = r; options = options })))
          s' h in
      let (r, (e', k')) =
        and_then-some (combine s.query q) (λ r. some (record s { query = r; options = options })) s'
          k in
      subst IsGood (some_inj k') (
        combine-IsBounded s.query q r good (parse_query-IsBounded arg s.options options q parsed e)
          e')
  step_of-IsBounded predecessors arg s s' parsed good h =
      traverse_by-IsBounded arg 1 inbound s s' (omega arith) (omega arith) good h
  step_of-IsBounded successors arg s s' parsed good h =
      traverse_by-IsBounded arg 1 outbound s s' (omega arith) (omega arith) good h
  step_of-IsBounded ancestors arg s s' parsed good h =
      traverse_by-IsBounded arg max_navigation inbound s s' (omega arith) (omega arith) good h
  step_of-IsBounded descendants arg s s' parsed good h =
      traverse_by-IsBounded arg max_navigation outbound s s' (omega arith) (omega arith) good h
  step_of-IsBounded aggregate arg s s' parsed good h =
      let ((vars, funcs), (e, k)) =
        and_then-some (p.aggregate arg)
          (λ (vars, funcs). some (record s { query = group_by vars funcs s.query })) s' h in
      subst IsGood (some_inj k) (group_by-IsBounded vars funcs s.query good)
  step_of-IsBounded count arg s s' parsed good h = count_step-IsBounded arg s s' good h
  step_of-IsBounded head_command arg s s' parsed good h =
      let (size, (e, k)) =
        and_then-some (parse_size p arg)
          (λ size. some (record s { query = with_limit size s.query })) s' h in
      subst IsGood (some_inj k) (with_limit-IsBounded size s.query good)
  step_of-IsBounded tail_command arg s s' parsed good h =
      let (size, (e, k)) =
        and_then-some (parse_size p arg)
          (λ size. some (record s { query = with_limit size (tail_sorted s.query) })) s' h in
      subst IsGood (some_inj k)
        (with_limit-IsBounded size (tail_sorted s.query) (tail_sorted-IsBounded s.query good))
  step_of-IsBounded other arg s s' parsed good h = absurd (none-some h)

  steps-IsBounded :
      (cs : List Command) (s s' : Creating)
      → All (IsBoundedCommand p) cs
      → IsGood s
      → steps p known edge cs s ≡ some s'
      → IsGood s'
  unfolding steps
  steps-IsBounded [] s s' parsed good h = subst IsGood (some_inj h) good
  steps-IsBounded (c ∷ l) s s' parsed good h =
      let (s'', (e, k)) =
        and_then-some (step p known edge c s) (λ s'. steps p known edge l s') s' h in
      steps-IsBounded l s'' s' parsed.1
        (step_of-IsBounded c.kind (text_of c.arg) s s'' parsed.0 good e) k

-- If every query that is written in a list of commands, by the parser that reads it, navigates within
-- bounds, then so does the query that is created of the commands: no part's start is behind its end, and no
-- end is behind the maximum.
pub create_query-IsBounded :
    (p : Parsers) (known : Known) (env : Environment) (cs : List Command) (q : Query)
    (options : Dict Json) (commands : List Command)
    → All (IsBoundedCommand p) cs
    → create_query p known env cs ≡ some (q, (options, commands))
    → IsBounded q
unfolding create_query query_by
create_query-IsBounded p known env cs q options commands parsed h =
    let (s, (e, k)) =
      and_then-some (steps p known env.edge cs start_creating) on_steps (q, (options, commands))
        h in
    let (q', (e', k')) =
      and_then-some (on_section (some (section_or_root env.section)) s.query) (with_run s)
        (q, (options, commands)) k in
    let (c, (e'', k'')) =
      and_then-some (to_run s q') (λ c. some (q', (s.options, c ∷ s.additional)))
        (q, (options, commands)) k' in
    subst IsBounded (ap query_in (some_inj k'')) (
      on_section-IsBounded (some (section_or_root env.section)) s.query q'
        (steps-IsBounded p known env.edge cs start_creating s parsed (tt, tt) e) e')
  where
    query_in : Query × (Dict Json × List Command) → Query
    query_in (q, r) = q

    to_run : Creating → Query → Option Command
    to_run s q =
        command p known "execute_query"
          (some (str_append (argument_string s.options) (query_string p.to_js_str p.formatted q)))

    with_run : Creating → Query → Option (Query × (Dict Json × List Command))
    with_run s q = and_then (to_run s q) (λ c. some (q, (s.options, c ∷ s.additional)))

    on_steps : Creating → Option (Query × (Dict Json × List Command))
    on_steps s = and_then (on_section (some (section_or_root env.section)) s.query) (with_run s)
