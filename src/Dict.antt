-- ===== src/Dict.antt =====
-- Python's `dict` with text keys: a list of bindings in insertion order. Writing to a key that is
-- there keeps its place, and a new key goes to the end.
pub mod Entries
use cloudkeeper.Base.{
  sym, ◌∙◌, ◌++◌, member, ℕ, suc, ap, nat_eq, length, and_left, and_right, some_inj, subst,
  Bool-cases, inl, inr, String, ◌≡◌, refl, Bool, true, false, not, ◌&&◌, ◌||◌, Option, none, some,
  List, [], ◌∷◌, arith, str_eq, str_eq_iff, if◌then◌else◌,
}

abbrev pub Dict {ℓ} : Type ℓ → Type ℓ
Dict V = List (String × V)

module _ {ℓ} {V : Type ℓ} where
  -- d.get(k)
  unfoldable pub get : String → Dict V → Option V
  get k [] = none
  get k ((j, v) ∷ d) = let rest = get k d in if str_eq j k then some v else rest

  -- k in d
  unfoldable pub has : String → Dict V → Bool
  has k d = elim (get k d) [ none ↦ false | some v ↦ true ]

  -- d[k] = v
  unfoldable pub put : String → V → Dict V → Dict V
  put k v [] = (k, v) ∷ []
  put k v ((j, w) ∷ d) = let rest = put k v d in if str_eq j k then (j, v) ∷ d else (j, w) ∷ rest

  -- d.pop(k, None)
  unfoldable pub pop : String → Dict V → Dict V
  pop k [] = []
  pop k ((j, v) ∷ d) = let rest = pop k d in if str_eq j k then rest else (j, v) ∷ rest

  unfoldable pub values : Dict V → List V
  values [] = []
  values ((j, v) ∷ d) = v ∷ values d

  unfoldable pub keys : Dict V → List String
  keys [] = []
  keys ((j, v) ∷ d) = j ∷ keys d

  pub get-put :
      (k j : String) (v : V) (d : Dict V)
      → get j (put k v d) ≡ (if str_eq k j then some v else get j d)
  unfolding get put
  get-put k j v [] = refl
  get-put k j v ((i, w) ∷ d) =
      ground (arith, str_eq_iff k j, str_eq_iff i k, str_eq_iff i j, get-put k j v d)

  pub get-pop :
      (k j : String) (d : Dict V) → get j (pop k d) ≡ (if str_eq k j then none else get j d)
  unfolding get pop
  get-pop k j [] = ground arith
  get-pop k j ((i, w) ∷ d) =
      ground (arith, str_eq_iff k j, str_eq_iff i k, str_eq_iff i j, get-pop k j d)

  pub length-put_new :
      (k : String) (v : V) (d : Dict V) → get k d ≡ none → length (put k v d) ≡ suc (length d)
  unfolding get put
  length-put_new k v [] h = refl
  length-put_new k v ((j, w) ∷ d) h = elim (Bool-cases (str_eq j k)) [
    | inl e ↦ absurd (clash (rw e at h))
    | inr e ↦ rw e (ap suc (length-put_new k v d (rw e at h)))
  ]
    where
      clash : some w ≡ none → ⊥
      clash p = cc

  -- The bindings of `a` stand in `b`, up to `eq` on the values.
  unfoldable pub dict_in : (V → V → Bool) → Dict V → Dict V → Bool
  dict_in eq [] b = true
  dict_in eq ((k, v) ∷ a) b = elim (get k b) [ none ↦ false | some w ↦ eq v w ] && dict_in eq a b

  -- a == b for dicts: the order of the keys does not count.
  unfoldable pub dict_eq : (V → V → Bool) → Dict V → Dict V → Bool
  dict_eq eq a b = nat_eq (length a) (length b) && dict_in eq a b

  found_match :
      (eq : V → V → Bool) (v : V) (o : Option V)
      → elim o [ none ↦ false | some w ↦ eq v w ] ≡ true
      → (w : V) × (o ≡ some w) × (eq v w ≡ true)
  found_match eq v none h = cc
  found_match eq v (some w) h = (w, refl, h)

  pub dict_in-get :
      (eq : V → V → Bool) (a b : Dict V) (k : String) (v : V)
      → dict_in eq a b ≡ true
      → get k a ≡ some v
      → (w : V) × (get k b ≡ some w) × (eq v w ≡ true)
  unfolding dict_in get
  dict_in-get eq [] b k v h e = cc
  dict_in-get eq ((j, u) ∷ a) b k v h e = elim (Bool-cases (str_eq j k)) [
    | inl same ↦
        let (w, found, alike) = found_match eq u (get j b) (and_left _ _ h) in
        (
          w,
          subst (λ i. get i b ≡ some w) ((str_eq_iff j k).0 same) found,
          subst (λ x. eq x w ≡ true) (some_inj (rw same at e)) alike,
        )
    | inr other ↦ dict_in-get eq a b k v (and_right _ _ h) (rw other at e)
  ]

  pub has-put : (k j : String) (v : V) (d : Dict V) → has j (put k v d) ≡ (str_eq k j || has j d)
  unfolding has
  has-put k j v d = ground (arith, get-put k j v d)

  pub has-pop : (k j : String) (d : Dict V) → has j (pop k d) ≡ (not (str_eq k j) && has j d)
  unfolding has
  has-pop k j d = ground (arith, get-pop k j d)

  pub get_of_not-has : (k : String) (d : Dict V) → has k d ≡ false → get k d ≡ none
  unfolding has
  get_of_not-has k d h = ground arith

  pub member-keys : (k : String) (d : Dict V) → member k (keys d) ≡ has k d
  unfolding keys has get
  member-keys k [] = refl
  member-keys k ((j, v) ∷ d) = ground (arith, member-keys k d)

pub has-nil {ℓ} : (V : Type ℓ) (k : String) → has {V = V} k [] ≡ false
unfolding has get
has-nil V k = refl

module _ {ℓ} {V : Type ℓ} where
  pub get-none-has : (k : String) (d : Dict V) → get k d ≡ none → has k d ≡ false
  unfolding has
  get-none-has k d h = ground arith

  has-cons : (k j : String) (w : V) (d : Dict V) → has k ((j, w) ∷ d) ≡ (str_eq j k || has k d)
  unfolding has get
  has-cons k j w d = ground arith

  -- Writing to a key that is there keeps the keys in their order.
  pub keys-put_old : (k : String) (v : V) (d : Dict V) → has k d ≡ true → keys (put k v d) ≡ keys d
  unfolding keys put
  keys-put_old k v [] h = absurd (clash (sym (has-nil V k) ∙ h))
    where
      clash : false ≡ true → ⊥
      clash p = cc
  keys-put_old k v ((j, w) ∷ d) h = elim (Bool-cases (str_eq j k)) [
    | inl e ↦ rw e
    | inr e ↦ rw e (ap (λ l. j ∷ l) (keys-put_old k v d (rw (has-cons, e) at h)))
  ]

  pub keys-put_new :
      (k : String) (v : V) (d : Dict V) → has k d ≡ false → keys (put k v d) ≡ keys d ++ k ∷ []
  unfolding keys put
  keys-put_new k v [] h = refl
  keys-put_new k v ((j, w) ∷ d) h = elim (Bool-cases (str_eq j k)) [
    | inl e ↦ absurd (clash (rw (has-cons, e) at h))
    | inr e ↦ rw e (ap (λ l. j ∷ l) (keys-put_new k v d (rw (has-cons, e) at h)))
  ]
    where
      clash : true ≡ false → ⊥
      clash p = cc

  pub has_of_get : (k : String) (v : V) (d : Dict V) → get k d ≡ some v → has k d ≡ true
  unfolding has
  has_of_get k v d h = ground arith

  -- No key is bound twice.
  abbrev pub IsDistinct : Dict V → Type 0
  IsDistinct [] = Unit
  IsDistinct ((j, v) ∷ d) = (has j d ≡ false) × IsDistinct d

  pub put-IsDistinct : (k : String) (v : V) (d : Dict V) → IsDistinct d → IsDistinct (put k v d)
  unfolding put
  put-IsDistinct k v [] h = (has-nil V k, tt)
  put-IsDistinct k v ((j, w) ∷ d) h =
      ground (arith, has-put k j v d, str_eq_iff j k, str_eq_iff k j, put-IsDistinct k v d h.1)

  pub pop-IsDistinct : (k : String) (d : Dict V) → IsDistinct d → IsDistinct (pop k d)
  unfolding pop
  pop-IsDistinct k [] h = tt
  pop-IsDistinct k ((j, w) ∷ d) h = ground (arith, has-pop k j d, pop-IsDistinct k d h.1)
