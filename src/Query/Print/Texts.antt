-- ===== src/Query/Print/Texts.antt =====
-- resotocore/core/query/model.py: the texts of what holds no value.
use Prim.Native.String.{◌++◌ as str_append}
use cloudkeeper.Base.{String, Option, none, some, List, [], ◌∷◌, map, str_eq, if◌then◌else◌}
use cloudkeeper.Query.Data.{
  Direction, inbound, outbound, any, SortOrder, asc, desc, Sort, NamePart, text, variable,
  AggregateName, simple, combination, AggregateVariable,
}

unfoldable pub concat : List String → String
concat [] = ""
concat (s ∷ l) = str_append s (concat l)

-- sep.join(l)
unfoldable pub join : String → List String → String
join sep [] = ""
join sep (s ∷ []) = s
join sep (s ∷ t ∷ l) = str_append s (str_append sep (join sep (t ∷ l)))

-- f'"{s}"'
unfoldable pub quoted : String → String
unfolding concat
quoted s = concat ("\"" ∷ s ∷ "\"" ∷ [])

abbrev pub order_string : SortOrder → String
order_string asc = "asc"
order_string desc = "desc"

-- Sort
unfoldable pub sort_string : Sort → String
unfolding concat
sort_string s = concat (s.name ∷ " " ∷ order_string s.order ∷ [])

-- AggregateVariableCombined
unfoldable pub name_part_string : NamePart → String
unfolding concat
name_part_string (text s) = s
name_part_string (variable n) = concat ("{" ∷ n ∷ "}" ∷ [])

-- AggregateVariableName and AggregateVariableCombined
unfoldable pub aggregate_name_string : AggregateName → String
unfolding quoted name_part_string
aggregate_name_string (simple n) = n
aggregate_name_string (combination l) = quoted (concat (map name_part_string l))

unfoldable pub with_as : Option String → String
with_as none = ""
with_as (some s) = if str_eq s "" then "" else str_append " as " s

-- AggregateVariable
unfoldable pub aggregate_variable_string : AggregateVariable → String
unfolding aggregate_name_string with_as
aggregate_variable_string v = str_append (aggregate_name_string v.name) (with_as v.as_name)

-- `self.as_name if self.as_name else other`
unfoldable pub name_or : Option String → String → String
name_or none other = other
name_or (some s) other = if str_eq s "" then other else s

-- get_as_name of a variable
unfoldable pub variable_as_name : AggregateVariable → String
unfolding aggregate_name_string name_or
variable_as_name v = name_or v.as_name (aggregate_name_string v.name)

unfoldable pub arrow : Direction → String → String
unfolding concat
arrow outbound nav = concat ("-" ∷ nav ∷ "->" ∷ [])
arrow inbound nav = concat ("<-" ∷ nav ∷ "-" ∷ [])
arrow any nav = concat ("<-" ∷ nav ∷ "->" ∷ [])
