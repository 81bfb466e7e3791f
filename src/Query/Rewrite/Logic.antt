-- ===== src/Query/Rewrite/Logic.antt =====
-- Rewriting a part keeps what its term says of a node.
use cloudkeeper.Base.{
  String, ◌≡◌, refl, sym, subst, ap, ◌∙◌, Bool, true, false, ◌&&◌, ◌||◌, Option, none, some, str_eq,
  arith, inl, inr, Bool-cases, some_inj,
}
use cloudkeeper.Query.Data.{
  Term, all_term, not_term, predicate, combined, id_term, is_term, function_term, merge_term,
  MaybeTerm, no_term, some_term, and_term, Merges,
}
use cloudkeeper.Query.Meaning.{is_met, maybe_is_met, is_met-and_term, and_true}
use cloudkeeper.Query.Rewrite.{
  has_ancestor_descendant, maybe_has_ancestor_descendant, Filters, filter_after, filter_before,
  and_then, walk_both, walk_term, walk_post, no_filters, rewrite_term, merge_queries_for,
  ancestor_descendant_predicates, merged_term,
}

-- A step of the walk takes what `said` says into the two filters, and keeps the first one free of
-- predicates on ancestors and descendants.
pub record IsTaken (v : Term → Bool) (said : Bool) (s u : Filters) : Type 0 where
  pub same :
      (is_met v u.before_merge && is_met v u.after_merge)
      ≡ ((is_met v s.before_merge && is_met v s.after_merge) && said)
  pub free :
      has_ancestor_descendant s.before_merge ≡ false
      → has_ancestor_descendant u.before_merge ≡ false

abbrev Taken : (Term → Bool) → Bool → Filters → Option Filters → Type 0
Taken v said s o = (u : Filters) × ((o ≡ some u) × IsTaken v said s u)

free-and_term :
    (l r : Term)
    → has_ancestor_descendant l ≡ false
    → has_ancestor_descendant r ≡ false
    → has_ancestor_descendant (and_term l r) ≡ false
unfolding has_ancestor_descendant and_term
free-and_term all_term r h k = k
free-and_term l all_term h k = h
free-and_term l r h k = rw (h, k)

and_regroup : (a b c : Bool) → (a && (b && c)) ≡ ((a && b) && c)
and_regroup true b c = refl
and_regroup false b c = refl

and_swap : (a b c : Bool) → ((a && c) && b) ≡ ((a && b) && c)
and_swap true true c = ground arith
and_swap true false c = ground arith
and_swap false b c = refl

and_left_swap : (a b l r : Bool) → (((a && r) && b) && l) ≡ ((a && b) && (l && r))
and_left_swap a b l r = ground arith

module _ (v : Term → Bool) where
  after-IsTaken : (t : Term) (s : Filters) → IsTaken v (is_met v t) s (filter_after t s)
  after-IsTaken t s = record {
    same =
        ap (λ b. is_met v s.before_merge && b) (is_met-and_term v s.after_merge t)
        ∙ and_regroup (is_met v s.before_merge) (is_met v s.after_merge) (is_met v t);
    free = λ h. h;
  }

  before-IsTaken :
      (t : Term) (s : Filters)
      → has_ancestor_descendant t ≡ false
      → IsTaken v (is_met v t) s (filter_before t s)
  before-IsTaken t s out = record {
    same =
        ap (λ b. b && is_met v s.after_merge) (is_met-and_term v s.before_merge t)
        ∙ and_swap (is_met v s.before_merge) (is_met v s.after_merge) (is_met v t);
    free = λ h. free-and_term s.before_merge t h out;
  }

  IsTaken-trans :
      {a b : Bool} {s t u : Filters} → IsTaken v a s t → IsTaken v b t u → IsTaken v (a && b) s u
  IsTaken-trans {a} {b} {s} h k = record {
    same =
        k.same
        ∙ ap (λ x. x && b) h.same
        ∙ sym (and_regroup (is_met v s.before_merge && is_met v s.after_merge) a b);
    free = λ e. k.free (h.free e);
  }

  Walks : Term → (Filters → Option Filters) → Type 0
  Walks t w = has_ancestor_descendant t ≡ true → (s : Filters) → Taken v (is_met v t) s (w s)

  and_comm : (a b : Bool) → (a && b) ≡ (b && a)
  and_comm a b = ground arith

  walk_both-Taken :
      (l r : Term) (walk_l walk_r : Filters → Option Filters)
      → Walks l walk_l
      → Walks r walk_r
      → (has_ancestor_descendant l || has_ancestor_descendant r) ≡ true
      → (s : Filters) → Taken v (is_met v l && is_met v r) s (walk_both l r walk_l walk_r s)
  unfolding walk_both Walks
  walk_both-Taken l r walk_l walk_r hl hr one s = elim (Bool-cases (has_ancestor_descendant l)) [
    | inl el ↦ elim (Bool-cases (has_ancestor_descendant r)) [
      | inl er ↦
          let (t, (pt, kt)) = hl el s in
          let (u, (pu, ku)) = hr er t in
          rw (el, er) (u, (ap (λ o. and_then o walk_r) pt ∙ pu, IsTaken-trans kt ku))
      | inr er ↦
          let (u, (pu, ku)) = hl el (filter_before r s) in
          rw (el, er)
            (
              u,
              (
                pu,
                subst (λ b. IsTaken v b s u) (and_comm (is_met v r) (is_met v l))
                    (IsTaken-trans (before-IsTaken r s er) ku),
              ),
            )
    ]
    | inr el ↦ elim (Bool-cases (has_ancestor_descendant r)) [
      | inl er ↦
          let (u, (pu, ku)) = hr er (filter_before l s) in
          rw (el, er) (u, (pu, IsTaken-trans (before-IsTaken l s el) ku))
      | inr er ↦ absurd (clash (rw (el, er) at one))
    ]
  ]
    where
      clash : false ≡ true → ⊥
      clash p = cc

  just_after : (t : Term) → Walks t (λ s. some (filter_after t s))
  unfolding Walks
  just_after t h s = (filter_after t s, (refl, after-IsTaken t s))

  is_met_or :
      (l r : Term) (op : String)
      → str_eq op "or" ≡ true
      → is_met v (combined l op r) ≡ (is_met v l || is_met v r)
  unfolding is_met
  is_met_or l r op e = rw e

  or_false : (b : Bool) → (b || false) ≡ b
  or_false true = refl
  or_false false = refl

  mutual
    unfolding walk_term is_met has_ancestor_descendant Walks

    walk_term-Walks : (t : Term) → Walks t (walk_term t)
    walk_term-Walks (combined l op r) h s = elim (Bool-cases (str_eq op "or")) [
      | inl e ↦ rw e (
        filter_after (combined l op r) s,
        (
          refl,
          subst (λ b. IsTaken v b s (filter_after (combined l op r) s)) (is_met_or l r op e)
              (after-IsTaken (combined l op r) s),
        ),
      )
      | inr e ↦ rw e (
          walk_both-Taken l r (walk_term l) (walk_term r) (walk_term-Walks l) (walk_term-Walks r) h
            s)
    ]
    walk_term-Walks (merge_term pre m post) h s =
        walk_post-Taken pre (walk_term pre) (walk_term-Walks pre) post h s
    walk_term-Walks all_term h s = just_after all_term h s
    walk_term-Walks (not_term t) h s = just_after (not_term t) h s
    walk_term-Walks (predicate name op value args) h s =
        just_after (predicate name op value args) h s
    walk_term-Walks (id_term i) h s = just_after (id_term i) h s
    walk_term-Walks (is_term kinds) h s = just_after (is_term kinds) h s
    walk_term-Walks (function_term fn path args) h s = just_after (function_term fn path args) h s

    walk_post-Taken :
        (pre : Term) (walk_pre : Filters → Option Filters)
        → Walks pre walk_pre
        → (post : MaybeTerm)
        → (has_ancestor_descendant pre || maybe_has_ancestor_descendant post) ≡ true
        → (s : Filters)
        → Taken v (is_met v pre && maybe_is_met v post) s (walk_post pre walk_pre post s)
    walk_post-Taken pre walk_pre ih no_term h s =
        let (u, (p, k)) = ih (sym (or_false (has_ancestor_descendant pre)) ∙ h) s in
        (u, (p, subst (λ b. IsTaken v b s u) (and_true (is_met v pre)) k))
    walk_post-Taken pre walk_pre ih (some_term t) h s =
        walk_both-Taken pre t walk_pre (walk_term t) ih (walk_term-Walks t) h s

-- The walk over a term that has such a predicate raises no error.
pub walk_term-some :
    (t : Term)
    → has_ancestor_descendant t ≡ true
    → (s : Filters) → (u : Filters) × (walk_term t s ≡ some u)
unfolding Walks
walk_term-some t h s = let (u, (p, k)) = walk_term-Walks (λ x. true) t h s in (u, p)

-- Whether the pre-filter of a merge, if the term is one, has a predicate on ancestors or descendants.
abbrev pub pre_filter_of : Term → Term
pre_filter_of (merge_term pre m post) = pre
pre_filter_of t = t

pre_filter_free :
    (t : Term)
    → has_ancestor_descendant t ≡ false
    → has_ancestor_descendant (pre_filter_of t) ≡ false
unfolding has_ancestor_descendant
pre_filter_free (merge_term pre m post) h = or_false_left (has_ancestor_descendant pre) _ h
  where
    or_false_left : (b c : Bool) → (b || c) ≡ false → b ≡ false
    or_false_left true c p = cc
    or_false_left false c p = refl
pre_filter_free t h = h

merged_keeps :
    (v : Term → Bool) (t u : Term) (s : Filters) (o : Option Merges)
    → IsTaken v (is_met v t) no_filters s
    → and_then o (λ m. some (merged_term s m)) ≡ some u
    → (is_met v u ≡ is_met v t) × (has_ancestor_descendant (pre_filter_of u) ≡ false)
unfolding is_met has_ancestor_descendant
merged_keeps v t u s none k h = cc
merged_keeps v t u s (some m) k h =
    subst (λ x. (is_met v x ≡ is_met v t) × (has_ancestor_descendant (pre_filter_of x) ≡ false))
      (some_inj h) (k.same, k.free refl)

-- If `rewrite_term` gives a term, then whatever the smallest terms say of a node, the new term says of it
-- what the old one says, and its pre-filter has no predicate on ancestors or descendants.
pub rewrite_term_keeps :
    (v : Term → Bool) (t u : Term)
    → rewrite_term t ≡ some u
    → (is_met v u ≡ is_met v t) × (has_ancestor_descendant (pre_filter_of u) ≡ false)
unfolding rewrite_term Walks
rewrite_term_keeps v t u h = elim (Bool-cases (has_ancestor_descendant t)) [
  | inr e ↦
      subst (λ x. (is_met v x ≡ is_met v t) × (has_ancestor_descendant (pre_filter_of x) ≡ false))
        (some_inj (rw e at h)) (refl, pre_filter_free t e)
  | inl e ↦
      let (s, (p, k)) = walk_term-Walks v t e no_filters in
      merged_keeps v t u s (merge_queries_for t (ancestor_descendant_predicates s.after_merge)) k
        (rw (e, p) at h)
]
