-- ===== src/Dict/Entries.antt =====
-- Predicates on the bindings of a dict, and what they say of its values.
use cloudkeeper.Base.{
  String, ◌≡◌, subst, false, none, some, [], ◌∷◌, arith, inl, inr, Bool-cases, some_inj, str_eq,
  str_eq_iff, str_eq_refl, All,
}
use cloudkeeper.Dict.{Dict, get, has, put, pop, values, get-put, get-pop, IsDistinct}

module _ {V : Type 0} where
  abbrev pub Entries : (String → V → Type 0) → Dict V → Type 0
  Entries P d = (k : String) (v : V) → get k d ≡ some v → P k v

  -- Writing one key may change what is known of the other keys.
  pub put-Entries_other :
      (P Q : String → V → Type 0) (k : String) (v : V) (d : Dict V)
      → Q k v
      → ((j : String) (w : V) → str_eq k j ≡ false → P j w → Q j w)
      → Entries P d
      → Entries Q (put k v d)
  put-Entries_other P Q k v d new step old j w e = elim (Bool-cases (str_eq k j)) [
    | inl same ↦
        subst (λ i. Q i w) ((str_eq_iff k j).0 same)
          (subst (Q k) (some_inj (rw (get-put, same) at e)) new)
    | inr other ↦ step j w other (old j w (rw (get-put, other) at e))
  ]

  pub pop-Entries_other :
      (P Q : String → V → Type 0) (k : String) (d : Dict V)
      → ((j : String) (w : V) → str_eq k j ≡ false → P j w → Q j w)
      → Entries P d
      → Entries Q (pop k d)
  pop-Entries_other P Q k d step old j w e = elim (Bool-cases (str_eq k j)) [
    | inl same ↦ absurd (none-some (rw (get-pop, same) at e))
    | inr other ↦ step j w other (old j w (rw (get-pop, other) at e))
  ]
    where
      none-some : none ≡ some w → ⊥
      none-some h = cc

  pub put-Entries :
      (P : String → V → Type 0) (k : String) (v : V) (d : Dict V)
      → P k v
      → Entries P d
      → Entries P (put k v d)
  put-Entries P k v d new = put-Entries_other P P k v d new (λ j w _ h. h)

  pub pop-Entries :
      (P : String → V → Type 0) (k : String) (d : Dict V) → Entries P d → Entries P (pop k d)
  pop-Entries P k d = pop-Entries_other P P k d (λ j w _ h. h)

  pub Entries-nil : (P : String → V → Type 0) → Entries P []
  unfolding get
  Entries-nil P k v e = cc

  pub get_tail :
      (j k : String) (u v : V) (d : Dict V)
      → has j d ≡ false
      → get k d ≡ some v
      → get k ((j, u) ∷ d) ≡ some v
  unfolding get has
  get_tail j k u v d absent e = ground (arith, str_eq_iff j k)

  pub get_head : (j : String) (u : V) (d : Dict V) → get j ((j, u) ∷ d) ≡ some u
  unfolding get
  get_head j u d = rw (str_eq_refl j)

  -- What holds of every binding holds of every value.
  pub values-All :
      (P : String → V → Type 0) (Q : V → Type 0) (d : Dict V)
      → IsDistinct d
      → Entries P d
      → ((k : String) (v : V) → P k v → Q v)
      → All Q (values d)
  unfolding values
  values-All P Q [] _ _ f = tt
  values-All P Q ((j, u) ∷ d) distinct h f = (
    f j u (h j u (get_head j u d)),
    values-All P Q d distinct.1 (λ k v e. h k v (get_tail j k u v d distinct.0 e)) f,
  )

  -- What holds of every value holds of every binding.
  pub All-Entries : (Q : V → Type 0) (d : Dict V) → All Q (values d) → Entries (λ k v. Q v) d
  unfolding values get
  All-Entries Q [] h k v e = cc
  All-Entries Q ((j, u) ∷ d) h k v e = elim (Bool-cases (str_eq j k)) [
    | inl same ↦ subst Q (some_inj (rw same at e)) h.0
    | inr other ↦ All-Entries Q d h.1 k v (rw other at e)
  ]
