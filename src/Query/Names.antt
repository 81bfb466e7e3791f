-- ===== src/Query/Names.antt =====
-- resotocore/core/query/model.py: names of properties, absolute and relative to a section.
use Prim.Native.String.{len, slice, ◌++◌ as str_append}
use Prim.Native.Char.{code}
use text.Mathlib.Text.{starts_with}
use cloudkeeper.Base.{
  String, Bool, not, nat_eq, ◌&&◌, ◌||◌, Option, none, some, List, [], ◌∷◌, str_eq, if◌then◌else◌,
  member,
}

abbrev pub path_root : String
path_root = "/"

-- name[len(prefix):], of a name that has the prefix
abbrev pub without_prefix : String → String → String
without_prefix prefix name = slice name (len prefix) (len name)

-- `section + "." + name`, if there is a section and it is not the root
unfoldable pub section_name : Option String → String → String
section_name none name = name
section_name (some s) name =
    if str_eq s "" || str_eq s path_root then name else str_append s (str_append "." name)

-- variable_to_absolute
unfoldable pub variable_to_absolute : Option String → String → String
unfolding section_name
variable_to_absolute s name =
    if starts_with name path_root then without_prefix path_root name else section_name s name

-- variable_to_relative
unfoldable pub variable_to_relative : String → String → String
variable_to_relative s name =
    if starts_with name path_root
    then name
    else if starts_with name (str_append s ".")
    then without_prefix (str_append s ".") name
    else str_append path_root name

-- resolved_property_names of resotocore/core/model/resolve_in_graph.py
unfoldable pub resolved_property_names : List String
resolved_property_names =
    "ancestors.cloud.reported.name" ∷ "ancestors.cloud.reported.id" ∷ "refs.cloud_id"
    ∷ "ancestors.account.reported.name" ∷ "ancestors.account.reported.id" ∷ "refs.account_id"
    ∷ "ancestors.region.reported.name" ∷ "ancestors.region.reported.id" ∷ "refs.region_id"
    ∷ "ancestors.zone.reported.name" ∷ "ancestors.zone.reported.id" ∷ "refs.zone_id" ∷ []

-- is_ancestor_descendant
unfoldable pub is_ancestor_descendant : String → Bool
unfolding resolved_property_names
is_ancestor_descendant name =
    not (member name resolved_property_names)
    && (starts_with name "ancestors." || starts_with name "descendants.")

-- The text before the first dot, if there is a dot.
unfoldable pub before_dot : String → Option String
before_dot String.[] = none
before_dot (String.◌∷◌ c s) =
    let rest = before_dot s in
    if nat_eq (code c) b'.'
    then some String.[]
    else elim rest [ none ↦ none | some r ↦ some (String.◌∷◌ c r) ]

-- `anc_dec, kind, _ = property_path.split(".", 2)`: an error if there are less than two dots.
unfoldable pub split_path : String → Option (String × String)
unfolding before_dot
split_path name = elim (before_dot name) [
  | none ↦ none
  | some first ↦ elim (before_dot (without_prefix (str_append first ".") name)) [
    | none ↦ none
    | some kind ↦ some (first, kind)
  ]
]
