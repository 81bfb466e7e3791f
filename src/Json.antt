-- ===== src/Json.antt =====
-- JSON values as the code passes them around (core/types.py: `Json` is a Python dict), and Python's
-- `==` on them: objects are compared as dicts, so the order of their fields does not count.
use cloudkeeper.Base.{
  ℕ, suc, String, Bool, true, false, ◌&&◌, str_eq, nat_eq, bool_eq, if◌then◌else◌,
}

mutual
  pub data Json : Type 0 where
    null : Json
    bool : Bool → Json
    num : ℕ → Json
    str : String → Json
    arr : Items → Json
    obj : Fields → Json

  pub data Items : Type 0 where
    nil : Items
    cons : Json → Items → Items

  pub data Fields : Type 0 where
    end : Fields
    field : String → Json → Fields → Fields

-- d.get(key), with None for a missing key
unfoldable pub field_or_null : String → Fields → Json
field_or_null k end = null
field_or_null k (field j v r) = let rest = field_or_null k r in if str_eq j k then v else rest

unfoldable pub has_field : String → Fields → Bool
has_field k end = false
has_field k (field j v r) = let rest = has_field k r in if str_eq j k then true else rest

unfoldable pub count_fields : Fields → ℕ
count_fields end = 0
count_fields (field j v r) = suc (count_fields r)

unfoldable mutual
  unfolding field_or_null has_field count_fields

  pub json_eq : Json → Json → Bool
  json_eq null null = true
  json_eq (bool a) (bool b) = bool_eq a b
  json_eq (num a) (num b) = nat_eq a b
  json_eq (str a) (str b) = str_eq a b
  json_eq (arr a) (arr b) = items_eq a b
  json_eq (obj a) (obj b) = nat_eq (count_fields a) (count_fields b) && fields_in a b
  json_eq _ _ = false

  pub items_eq : Items → Items → Bool
  items_eq nil nil = true
  items_eq (cons a r) (cons b s) = json_eq a b && items_eq r s
  items_eq _ _ = false

  -- Every field of the first object stands in the second, with an equal value.
  pub fields_in : Fields → Fields → Bool
  fields_in end g = true
  fields_in (field k v r) g = has_field k g && json_eq v (field_or_null k g) && fields_in r g
