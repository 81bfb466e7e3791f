-- ===== src/Query/FromJson/Reads.antt =====
-- Terms that are written as JSON objects of their fields, and read again.
use cloudkeeper.Base.{String, ◌≡◌, refl, true, ap, some, List, [], ◌∷◌}
use cloudkeeper.Dict.{get}
use cloudkeeper.Json.{
  Json, Items, Fields, str, arr, obj, nil, cons, end, field, field_or_null, has_field,
}
use cloudkeeper.Query.Data.{
  Term, all_term, not_term, merge_term, predicate, combined, id_term, is_term, function_term,
}
use cloudkeeper.Query.FromJson.{from_fields, from_json, list_of, is_obj}

abbrev pub items_from : List Json → Items
items_from [] = nil
items_from (v ∷ l) = cons v (items_from l)

list_of-items_from : (l : List Json) → list_of (items_from l) ≡ l
list_of-items_from [] = refl
list_of-items_from (v ∷ l) = ap (λ r. v ∷ r) (list_of-items_from l)

-- A term of predicates, functions and ids, and what is combined of them.
pub data IsPlain : Term → Type 0 where
  plain_predicate :
      {name op : String} {value : Json} {args : Fields} → IsPlain (predicate name op value args)
  plain_function : {fn path : String} {args : List Json} → IsPlain (function_term fn path args)
  plain_id : {i : String} → IsPlain (id_term i)
  plain_combined : {l r : Term} {op : String} → IsPlain l → IsPlain r → IsPlain (combined l op r)

-- A term as the object of its class's fields.
unfoldable pub to_json : Term → Json
to_json (predicate name op value args) = obj (
    field "name" (str name)
      (field "op" (str op) (field "value" value (field "args" (obj args) end))))
to_json (combined l op r) =
    obj (field "left" (to_json l) (field "op" (str op) (field "right" (to_json r) end)))
to_json (function_term fn path args) = obj (
    field "fn" (str fn)
      (field "property_path" (str path) (field "args" (arr (items_from args)) end)))
to_json (id_term i) = obj (field "id" (str i) end)
to_json t = obj end

is_obj-to_json : (t : Term) → is_obj (to_json t) ≡ true
unfolding to_json
is_obj-to_json all_term = refl
is_obj-to_json (not_term t) = refl
is_obj-to_json (predicate name op value args) = refl
is_obj-to_json (combined l op r) = refl
is_obj-to_json (id_term i) = refl
is_obj-to_json (is_term kinds) = refl
is_obj-to_json (function_term fn path args) = refl
is_obj-to_json (merge_term pre m post) = refl

-- A term of predicates, functions and ids, and what is combined of them, is read from the object of its
-- fields as it was.
pub from_json-to_json : (t : Term) → IsPlain t → from_json (to_json t) ≡ some t
unfolding from_json to_json from_fields field_or_null has_field get
from_json-to_json (predicate name op value args) plain_predicate = refl
from_json-to_json (function_term fn path args) plain_function =
    ap (λ l. some (function_term fn path l)) (list_of-items_from args)
from_json-to_json (id_term i) plain_id = refl
from_json-to_json (combined l op r) (plain_combined hl hr) =
    rw (is_obj-to_json l, is_obj-to_json r)
      (rw (from_json-to_json l hl, from_json-to_json r hr) refl)
from_json-to_json all_term h = elim h [ ]
from_json-to_json (not_term t) h = elim h [ ]
from_json-to_json (is_term kinds) h = elim h [ ]
from_json-to_json (merge_term pre m post) h = elim h [ ]
