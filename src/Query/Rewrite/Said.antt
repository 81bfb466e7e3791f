-- ===== src/Query/Rewrite/Said.antt =====
-- The names of the predicates on ancestors and descendants, and where the walk over a term leaves them.
use cloudkeeper.Base.{
  String, ◌≡◌, subst, true, Option, some, some_inj, none-some, List, [], ◌∷◌, ◌++◌, str_eq,
  if◌then◌else◌, All, All-append, Bool-cases, inl, inr,
}
use cloudkeeper.Query.Names.{is_ancestor_descendant}
use cloudkeeper.Query.Data.{
  Term, all_term, not_term, predicate, combined, id_term, is_term, function_term, merge_term,
  MaybeTerm, no_term, some_term, and_term,
}
use cloudkeeper.Query.Rewrite.{
  has_ancestor_descendant, ancestor_descendant_predicates, maybe_predicates, Filters, filter_after,
  filter_before, walk_both, walk_term, walk_post,
}
use cloudkeeper.Query.Rewrite.Whole.Steps.{and_then-some}

abbrev pub IsMagic : String → Type 0
IsMagic n = is_ancestor_descendant n ≡ true

module _ {ℓ κ} {A : Type ℓ} (P : A → Type κ) where
  All-left : (xs ys : List A) → All P (xs ++ ys) → All P xs
  All-left [] ys h = tt
  All-left (x ∷ xs) ys h = (h.0, All-left xs ys h.1)

  All-right : (xs ys : List A) → All P (xs ++ ys) → All P ys
  All-right [] ys h = h
  All-right (x ∷ xs) ys h = All-right xs ys h.1

name-IsMagic : (n : String) → All IsMagic (if is_ancestor_descendant n then n ∷ [] else [])
name-IsMagic n = elim (Bool-cases (is_ancestor_descendant n)) [
  | inl e ↦ rw e (e, tt)
  | inr e ↦ rw e tt
]

mutual
  unfolding ancestor_descendant_predicates

  pub predicates-IsMagic : (t : Term) → All IsMagic (ancestor_descendant_predicates t)
  predicates-IsMagic all_term = tt
  predicates-IsMagic (not_term t) = predicates-IsMagic t
  predicates-IsMagic (predicate name op value args) = name-IsMagic name
  predicates-IsMagic (combined l op r) =
      All-append IsMagic (ancestor_descendant_predicates l) (ancestor_descendant_predicates r)
        (predicates-IsMagic l) (predicates-IsMagic r)
  predicates-IsMagic (id_term i) = tt
  predicates-IsMagic (is_term kinds) = tt
  predicates-IsMagic (function_term fn path args) = tt
  predicates-IsMagic (merge_term pre m post) =
      All-append IsMagic (ancestor_descendant_predicates pre) (maybe_predicates post)
        (predicates-IsMagic pre) (maybe-IsMagic post)

  maybe-IsMagic : (t : MaybeTerm) → All IsMagic (maybe_predicates t)
  maybe-IsMagic no_term = tt
  maybe-IsMagic (some_term t) = predicates-IsMagic t

module _ (P : String → Type 0) where
  abbrev pub Said : Term → Type 0
  Said t = All P (ancestor_descendant_predicates t)

  and_term-Said : (l r : Term) → Said l → Said r → Said (and_term l r)
  unfolding and_term ancestor_descendant_predicates
  and_term-Said all_term r h k = k
  and_term-Said l all_term h k = h
  and_term-Said l r h k =
      All-append P (ancestor_descendant_predicates l) (ancestor_descendant_predicates r) h k

  unfoldable pub SaidAfter : (Filters → Option Filters) → Type 0
  SaidAfter w = (s u : Filters) → Said s.after_merge → w s ≡ some u → Said u.after_merge

  walk_both-Said :
      (l r : Term) (walk_l walk_r : Filters → Option Filters)
      → SaidAfter walk_l
      → SaidAfter walk_r
      → SaidAfter (walk_both l r walk_l walk_r)
  unfolding walk_both SaidAfter
  walk_both-Said l r walk_l walk_r hl hr s u h k = elim (Bool-cases (has_ancestor_descendant l)) [
    | inl el ↦ elim (Bool-cases (has_ancestor_descendant r)) [
      | inl er ↦
          let (t, (pt, kt)) = and_then-some (walk_l s) walk_r u (rw (el, er) at k) in
          hr t u (hl s t h pt) kt
      | inr er ↦ hl (filter_before r s) u h (rw (el, er) at k)
    ]
    | inr el ↦ elim (Bool-cases (has_ancestor_descendant r)) [
      | inl er ↦ hr (filter_before l s) u h (rw (el, er) at k)
      | inr er ↦ absurd (none-some (rw (el, er) at k))
    ]
  ]

  just-Said : (t : Term) → Said t → SaidAfter (λ s. some (filter_after t s))
  unfolding SaidAfter
  just-Said t k s u h e =
      subst (λ x. Said x.after_merge) (some_inj e) (and_term-Said s.after_merge t h k)

  mutual
    unfolding walk_term ancestor_descendant_predicates SaidAfter

    pub walk_term-Said : (t : Term) → Said t → SaidAfter (walk_term t)
    walk_term-Said (combined l op r) k s u h e = elim (Bool-cases (str_eq op "or")) [
      | inl o ↦ just-Said (combined l op r) k s u h (rw o at e)
      | inr o ↦
          walk_both-Said l r (walk_term l) (walk_term r)
            (walk_term-Said l
              (All-left P (ancestor_descendant_predicates l) (ancestor_descendant_predicates r) k))
            (walk_term-Said r
              (All-right P (ancestor_descendant_predicates l) (ancestor_descendant_predicates r) k))
            s u h (rw o at e)
    ]
    walk_term-Said (merge_term pre m post) k s u h e =
        walk_post-Said pre (walk_term pre) post
          (walk_term-Said pre
            (All-left P (ancestor_descendant_predicates pre) (maybe_predicates post) k))
          (All-right P (ancestor_descendant_predicates pre) (maybe_predicates post) k) s u h e
    walk_term-Said all_term k s u h e = just-Said all_term k s u h e
    walk_term-Said (not_term t) k s u h e = just-Said (not_term t) k s u h e
    walk_term-Said (predicate name op value args) k s u h e =
        just-Said (predicate name op value args) k s u h e
    walk_term-Said (id_term i) k s u h e = just-Said (id_term i) k s u h e
    walk_term-Said (is_term kinds) k s u h e = just-Said (is_term kinds) k s u h e
    walk_term-Said (function_term fn path args) k s u h e =
        just-Said (function_term fn path args) k s u h e

    walk_post-Said :
        (pre : Term) (walk_pre : Filters → Option Filters) (post : MaybeTerm)
        → SaidAfter walk_pre
        → All P (maybe_predicates post)
        → SaidAfter (walk_post pre walk_pre post)
    walk_post-Said pre walk_pre no_term hp k s u h e = hp s u h e
    walk_post-Said pre walk_pre (some_term t) hp k s u h e =
        walk_both-Said pre t walk_pre (walk_term t) hp (walk_term-Said t k) s u h e
