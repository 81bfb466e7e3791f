-- ===== src/Paths/Examples.antt =====
-- Values at paths: tests, and the theorem at a concrete object.
use cloudkeeper.Base.{◌≡◌, refl, [], ◌∷◌}
use cloudkeeper.Json.{Fields, null, num, obj, end, field}
use cloudkeeper.Paths.{value_in_path, set_value_in_path, del_value_in_path}
use cloudkeeper.Paths.Laws.{here, later, value_in_path-set_value_in_path}

-- {"a": {"b": 1, "c": 2}}
abbrev object : Fields
object = field "a" (obj (field "b" (num 1) (field "c" (num 2) end))) end

value_in_path-set_value_in_path_example :
    (value_in_path ("a" ∷ "b" ∷ []) (obj (set_value_in_path (num 3) "a" ("b" ∷ []) object)) ≡ num 3)
    × (value_in_path ("a" ∷ "c" ∷ []) (obj (set_value_in_path (num 3) "a" ("b" ∷ []) object))
        ≡ value_in_path ("a" ∷ "c" ∷ []) (obj object))
value_in_path-set_value_in_path_example =
    value_in_path-set_value_in_path (num 3) "a" ("b" ∷ []) ("a" ∷ "c" ∷ []) object
      (later (here refl))

-- An object that gets empty is null afterwards.
emptied :
    del_value_in_path "a" ("b" ∷ []) (field "a" (obj (field "b" (num 1) end)) end)
    ≡ field "a" null end
unfolding del_value_in_path
emptied = refl
