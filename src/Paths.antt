-- ===== src/Paths.antt =====
-- resotocore/core/util.py: values at a path of a JSON object. A path that is no list is split at its dots by the
-- caller; it has a first name. Where the code gives None for a missing value, the value is null.
pub mod Laws
mod Examples
use cloudkeeper.Base.{
  ℕ, String, Bool, true, false, not, ◌&&◌, List, [], ◌∷◌, nat_eq, str_eq, if◌then◌else◌,
}
use cloudkeeper.Json.{
  Json, Items, Fields, null, bool, num, str, arr, obj, nil, cons, end, field, field_or_null,
  has_field,
}

-- current[k] = v
unfoldable pub put_field : String → Json → Fields → Fields
put_field k v end = field k v end
put_field k v (field j w f) =
    let rest = put_field k v f in if str_eq j k then field j v f else field j w rest

-- current.pop(k, None)
unfoldable pub pop_field : String → Fields → Fields
pop_field k end = end
pop_field k (field j w f) = let rest = pop_field k f in if str_eq j k then rest else field j w rest

-- value_in_path
unfoldable pub value_in_path : List String → Json → Json
unfolding field_or_null has_field
value_in_path [] v = v
value_in_path (k ∷ path) (obj f) =
    let found = value_in_path path (field_or_null k f) in if has_field k f then found else null
value_in_path (k ∷ path) v = null

-- `value` if it is a dict, and {} otherwise
abbrev pub object_or_new : Json → Fields
object_or_new (obj f) = f
object_or_new v = end

-- set_value_in_path
unfoldable pub set_value_in_path : Json → String → List String → Fields → Fields
unfolding put_field field_or_null
set_value_in_path element k [] f = put_field k element f
set_value_in_path element k (j ∷ path) f =
    put_field k (obj (set_value_in_path element j path (object_or_new (field_or_null k f)))) f

-- What Python's `if` sees in a value.
unfoldable pub is_truthy : Json → Bool
is_truthy null = false
is_truthy (bool b) = b
is_truthy (num n) = not (nat_eq n 0)
is_truthy (str s) = not (str_eq s "")
is_truthy (arr nil) = false
is_truthy (arr (cons v r)) = true
is_truthy (obj end) = false
is_truthy (obj (field k v f)) = true

-- `if not current[k]: current[k] = None`
unfoldable pub null_if_empty : Json → Json
unfolding is_truthy
null_if_empty v = if is_truthy v then v else null

abbrev in_object : (Fields → Fields) → Json → Json
in_object change (obj f) = obj (change f)
in_object change v = v

-- del_value_in_path
unfoldable pub del_value_in_path : String → List String → Fields → Fields
unfolding put_field pop_field field_or_null has_field null_if_empty
del_value_in_path k [] f = if has_field k f then pop_field k f else f
del_value_in_path k (j ∷ path) f =
    if has_field k f
    then put_field k (null_if_empty (in_object (del_value_in_path j path) (field_or_null k f))) f
    else f
