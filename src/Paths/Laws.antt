-- ===== src/Paths/Laws.antt =====
-- What is read at a path after a value is set or deleted.
use cloudkeeper.Base.{
  String, ◌≡◌, refl, ◌∙◌, true, false, List, [], ◌∷◌, str_eq, str_eq_refl, str_eq_iff,
  if◌then◌else◌, Bool-cases, inl, inr, arith,
}
use cloudkeeper.Json.{
  Json, Fields, null, bool, num, str, arr, obj, end, field, field_or_null, has_field,
}
use cloudkeeper.Paths.{put_field, value_in_path, object_or_new, set_value_in_path}

field_or_null-put_field :
    (k j : String) (v : Json) (f : Fields)
    → field_or_null j (put_field k v f) ≡ (if str_eq k j then v else field_or_null j f)
unfolding field_or_null put_field
field_or_null-put_field k j v end = refl
field_or_null-put_field k j v (field i w f) =
    ground (arith, str_eq_iff k j, str_eq_iff i k, str_eq_iff i j, field_or_null-put_field k j v f)

has_field-put_field :
    (k j : String) (v : Json) (f : Fields)
    → has_field j (put_field k v f) ≡ (if str_eq k j then true else has_field j f)
unfolding has_field put_field
has_field-put_field k j v end = refl
has_field-put_field k j v (field i w f) =
    ground (arith, str_eq_iff k j, str_eq_iff i k, str_eq_iff i j, has_field-put_field k j v f)

-- The paths go apart at some name.
pub data IsApart : List String → List String → Type 0 where
  here : {k j : String} {p q : List String} → str_eq k j ≡ false → IsApart (k ∷ p) (j ∷ q)
  later : {k : String} {p q : List String} → IsApart p q → IsApart (k ∷ p) (k ∷ q)

-- A value that is no object has nothing at a path.
value_in_path-object_or_new :
    (k : String) (path : List String) (v : Json)
    → value_in_path (k ∷ path) (obj (object_or_new v)) ≡ value_in_path (k ∷ path) v
unfolding value_in_path has_field
value_in_path-object_or_new k path null = refl
value_in_path-object_or_new k path (bool b) = refl
value_in_path-object_or_new k path (num n) = refl
value_in_path-object_or_new k path (str s) = refl
value_in_path-object_or_new k path (arr l) = refl
value_in_path-object_or_new k path (obj f) = refl

value_in_path-put_field :
    (k j : String) (q : List String) (v : Json) (f : Fields)
    → value_in_path (j ∷ q) (obj (put_field k v f))
      ≡ (if str_eq k j then value_in_path q v else value_in_path (j ∷ q) (obj f))
unfolding value_in_path
value_in_path-put_field k j q v f = elim (Bool-cases (str_eq k j)) [
  | inl e ↦ rw (has_field-put_field k j v f, field_or_null-put_field k j v f, e) refl
  | inr e ↦ rw (has_field-put_field k j v f, field_or_null-put_field k j v f, e) refl
]

-- Inside the object that is written under a name.
value_inside :
    (k : String) (q : List String) (v : Json) (f : Fields)
    → value_in_path (k ∷ q) (obj (put_field k v f)) ≡ value_in_path q v
value_inside k q v f = value_in_path-put_field k k q v f ∙ rw (str_eq_refl k) refl

value_outside :
    (k j : String) (q : List String) (v : Json) (f : Fields)
    → str_eq k j ≡ false
    → value_in_path (j ∷ q) (obj (put_field k v f)) ≡ value_in_path (j ∷ q) (obj f)
value_outside k j q v f e = value_in_path-put_field k j q v f ∙ rw e refl

field_or_null-absent : (k : String) (f : Fields) → has_field k f ≡ false → field_or_null k f ≡ null
unfolding has_field field_or_null
field_or_null-absent k end h = refl
field_or_null-absent k (field j v f) h = elim (Bool-cases (str_eq j k)) [
  | inl e ↦ absurd (not_false (rw e at h))
  | inr e ↦ rw e (field_or_null-absent k f (rw e at h))
]
  where
    not_false : true ≡ false → ⊥
    not_false p = cc

-- One step down a path that goes on.
value_below :
    (k j : String) (q : List String) (f : Fields)
    → value_in_path (j ∷ q) (field_or_null k f) ≡ value_in_path (k ∷ j ∷ q) (obj f)
unfolding value_in_path
value_below k j q f = elim (Bool-cases (has_field k f)) [
  | inl e ↦ rw e refl
  | inr e ↦ rw (e, field_or_null-absent k f e) refl
]

value-set :
    (element : Json) (k : String) (path : List String) (f : Fields)
    → value_in_path (k ∷ path) (obj (set_value_in_path element k path f)) ≡ element
unfolding set_value_in_path value_in_path
value-set element k [] f = value_inside k [] element f
value-set element k (j ∷ path) f =
    value_inside k (j ∷ path)
      (obj (set_value_in_path element j path (object_or_new (field_or_null k f)))) f
    ∙ value-set element j path (object_or_new (field_or_null k f))

value-set_other :
    (element : Json) (k : String) (path q : List String) (f : Fields)
    → IsApart (k ∷ path) q
    → value_in_path q (obj (set_value_in_path element k path f)) ≡ value_in_path q (obj f)
unfolding set_value_in_path
value-set_other element k [] (j ∷ q) f (here e) = value_outside k j q element f e
value-set_other element k (i ∷ path) (j ∷ q) f (here e) =
    value_outside k j q (obj (set_value_in_path element i path (object_or_new (field_or_null k f))))
      f e
value-set_other element k (i ∷ path) (_ ∷ j ∷ q) f (later h) =
    value_inside k (j ∷ q)
      (obj (set_value_in_path element i path (object_or_new (field_or_null k f)))) f
    ∙ value-set_other element i path (j ∷ q) (object_or_new (field_or_null k f)) h
    ∙ value_in_path-object_or_new j q (field_or_null k f)
    ∙ value_below k j q f
value-set_other element k [] [] f h = elim h [ ]
value-set_other element k [] (_ ∷ q) f (later h) = elim h [ ]
value-set_other element k (i ∷ path) [] f h = elim h [ ]
value-set_other element k (i ∷ path) (_ ∷ []) f (later h) = elim h [ ]

-- A value that is set at a path of an object is read there, and at a path that goes apart from it the same
-- is read as before.
pub value_in_path-set_value_in_path :
    (element : Json) (k : String) (path q : List String) (f : Fields)
    → IsApart (k ∷ path) q
    → (value_in_path (k ∷ path) (obj (set_value_in_path element k path f)) ≡ element)
      × (value_in_path q (obj (set_value_in_path element k path f)) ≡ value_in_path q (obj f))
value_in_path-set_value_in_path element k path q f h =
    (value-set element k path f, value-set_other element k path q f h)
