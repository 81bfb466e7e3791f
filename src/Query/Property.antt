-- ===== src/Query/Property.antt =====
-- resotocore/core/query/model.py: `P`, `PFunction` and `PArray`, by which code writes terms.
use cloudkeeper.Base.{String, List, [], ◌∷◌}
use cloudkeeper.Json.{Json, Items, Fields, str, arr, end, field}
use cloudkeeper.Query.Data.{Term, predicate, id_term, is_term, function_term}

-- P
pub record Property : Type 0 where
  pub name : String
  pub args : Fields

-- P.single
unfoldable pub single : String → Property
single name = record { name = name; args = end }

-- P.with_id
unfoldable pub with_id : String → Term
with_id uid = id_term uid

-- P.of_kind
unfoldable pub of_kind : String → Term
of_kind name = is_term (name ∷ [])

-- P.function, and PFunction.on
unfoldable pub function_on : String → String → List Json → Term
function_on fn name args = function_term fn name args

-- PArray.for_any, with P.array
unfoldable pub for_any : String → Property
for_any name = record { name = name; args = field "filter" (str "any") end }

-- PArray.for_none
unfoldable pub for_none : String → Property
for_none name = record { name = name; args = field "filter" (str "none") end }

-- PArray.for_all
unfoldable pub for_all : String → Property
for_all name = record { name = name; args = field "filter" (str "all") end }

compare : String → Property → Json → Term
compare op p other = predicate p.name op other p.args

-- gt
unfoldable pub gt : Property → Json → Term
unfolding compare
gt p other = compare ">" p other

-- ge
unfoldable pub ge : Property → Json → Term
unfolding compare
ge p other = compare ">=" p other

-- lt
unfoldable pub lt : Property → Json → Term
unfolding compare
lt p other = compare "<" p other

-- le
unfoldable pub le : Property → Json → Term
unfolding compare
le p other = compare "<=" p other

-- eq
unfoldable pub eq : Property → Json → Term
unfolding compare
eq p other = compare "==" p other

-- ne
unfoldable pub ne : Property → Json → Term
unfolding compare
ne p other = compare "!=" p other

-- matches
unfoldable pub matches : Property → String → Term
unfolding compare
matches p regex = compare "=~" p (str regex)

-- not_matches
unfoldable pub not_matches : Property → String → Term
unfolding compare
not_matches p regex = compare "!~" p (str regex)

-- is_in
unfoldable pub is_in : Property → Items → Term
unfolding compare
is_in p other = compare "in" p (arr other)

-- is_not_in
unfoldable pub is_not_in : Property → Items → Term
unfolding compare
is_not_in p other = compare "not in" p (arr other)
