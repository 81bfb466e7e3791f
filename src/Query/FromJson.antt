-- ===== src/Query/FromJson.antt =====
-- resotocore/core/query/model.py: `Term.from_json`, which reads a term from a JSON object.
pub mod Reads
use cloudkeeper.Base.{
  String, Bool, true, false, ◌&&◌, Option, none, some, List, [], ◌∷◌, if◌then◌else◌,
}
use Prim.Native.String.{◌∷◌ as str_cons}
use cloudkeeper.Dict.{Dict, get}
use cloudkeeper.Json.{
  Json, Items, Fields, null, bool, num, str, arr, obj, nil, cons, end, field, field_or_null,
  has_field,
}
use cloudkeeper.Query.Data.{Term, predicate, combined, id_term, is_term, function_term}
use cloudkeeper.Query.Rewrite.{and_then}

abbrev pub is_obj : Json → Bool
is_obj (obj f) = true
is_obj _ = false

abbrev pub is_str : Json → Bool
is_str (str s) = true
is_str _ = false

abbrev pub str_of : Json → String
str_of (str s) = s
str_of _ = ""

-- `js["args"] if isinstance(js.get("args"), dict) else {}`
abbrev pub fields_of : Json → Fields
fields_of (obj f) = f
fields_of _ = end

abbrev pub list_of : Items → List Json
list_of nil = []
list_of (cons v r) = v ∷ list_of r

-- `js["args"] if isinstance(js.get("args"), list) else []`
abbrev pub items_of : Json → List Json
items_of (arr l) = list_of l
items_of _ = []

-- A text where a list of texts is expected: the list of its letters.
unfoldable pub letters : String → List String
letters String.[] = []
letters (String.◌∷◌ c s) = String.◌∷◌ c String.[] ∷ letters s

abbrev pub term_at : String → Dict (Option Term) → Option Term
term_at k d = and_then (get k d) (λ t. t)

-- js["value"]
abbrev pub value_of : Fields → Option Json
value_of f = if has_field "value" f then some (field_or_null "value" f) else none

-- The cases of from_json, for the fields of the object and what its fields are read as.
unfoldable pub from_fields : Fields → Dict (Option Term) → Option Term
unfolding field_or_null has_field letters get
from_fields f terms =
    if is_obj (field_or_null "left" f)
      && is_obj (field_or_null "right" f)
      && is_str (field_or_null "op" f)
    then and_then (term_at "left" terms) (λ l.
      and_then (term_at "right" terms) (λ r. some (combined l (str_of (field_or_null "op" f)) r)))
    else if is_str (field_or_null "name" f) && is_str (field_or_null "op" f)
    then and_then (value_of f) (λ v. some (
        predicate (str_of (field_or_null "name" f)) (str_of (field_or_null "op" f)) v
          (fields_of (field_or_null "args" f))))
    else if is_str (field_or_null "fn" f) && is_str (field_or_null "property_path" f)
    then some (
        function_term (str_of (field_or_null "fn" f)) (str_of (field_or_null "property_path" f))
          (items_of (field_or_null "args" f)))
    else if is_str (field_or_null "kind" f)
    then some (is_term (letters (str_of (field_or_null "kind" f))))
    else if is_str (field_or_null "id" f)
    then some (id_term (str_of (field_or_null "id" f)))
    else none

unfoldable mutual
  unfolding from_fields

  -- from_json: nothing for what is no object, or raises an error
  pub from_json : Json → Option Term
  from_json null = none
  from_json (bool b) = none
  from_json (num n) = none
  from_json (str s) = none
  from_json (arr l) = none
  from_json (obj f) = from_fields f (terms_in f)

  pub terms_in : Fields → Dict (Option Term)
  terms_in end = []
  terms_in (field k v f) = (k, from_json v) ∷ terms_in f
