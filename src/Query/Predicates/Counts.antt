-- ===== src/Query/Predicates/Counts.antt =====
-- How many predicates of a query meet a test, and what `combine` does to them.
use cloudkeeper.Base.{
  ℕ, ◌+◌, ◌≡◌, refl, subst, Bool, ◌&&◌, some, some_inj, none-some, List, [], ◌∷◌, ◌++◌,
  if◌then◌else◌, Bool-cases, Option-cases, inl, inr, arith,
}
use cloudkeeper.Query.Data.{
  Term, all_term, and_term, Query, query, Parts, no_parts, and_part, Part, part, term_of,
  append_parts, has_navigation,
}
use cloudkeeper.Query.Predicates.{Predicate, predicates_in, predicates_in_parts, predicates}
use cloudkeeper.Query.Build.Combine.{
  has_aggregate, combined_part, last_part, with_last, current_of, rest_of, parts_clash,
  combined_parts, combine,
}

module _ (test : Predicate → Bool) where
  unfoldable pub count : List Predicate → ℕ
  count [] = 0
  count (p ∷ l) = (if test p then 1 else 0) + count l

  count-append : (l r : List Predicate) → count (l ++ r) ≡ count l + count r
  unfolding count
  count-append [] r = omega arith
  count-append (p ∷ l) r = omega (arith, count-append l r)

  abbrev count_parts : Part → Parts → ℕ
  count_parts p ps = count (predicates_in (term_of p) ++ predicates_in_parts ps)

  count-and_term :
      (l r : Term)
      → count (predicates_in (and_term l r)) ≡ count (predicates_in l) + count (predicates_in r)
  unfolding count and_term predicates_in
  count-and_term all_term r = omega arith
  count-and_term l all_term = omega arith
  count-and_term l r = count-append (predicates_in l) (predicates_in r)

  count-append_parts :
      (ps qs : Parts)
      → count (predicates_in_parts (append_parts ps qs))
        ≡ count (predicates_in_parts ps) + count (predicates_in_parts qs)
  unfolding count predicates_in_parts
  count-append_parts no_parts qs = omega arith
  count-append_parts (and_part p ps) qs = omega (
    arith,
    count-append (predicates_in (term_of p)) (predicates_in_parts (append_parts ps qs)),
    count-append (predicates_in (term_of p)) (predicates_in_parts ps),
    count-append_parts ps qs,
  )

  abbrev in_part : Part → ℕ
  in_part p = count (predicates_in (term_of p))

  abbrev in_parts : Parts → ℕ
  in_parts ps = count (predicates_in_parts ps)

  in_part-combined_part : (l r : Part) → in_part (combined_part l r) ≡ in_part l + in_part r
  unfolding combined_part
  in_part-combined_part (part t tag w sort k n) (part t' tag' w' sort' k' n') = count-and_term t t'

  in_parts-and_part : (p : Part) (ps : Parts) → in_parts (and_part p ps) ≡ in_part p + in_parts ps
  unfolding predicates_in_parts
  in_parts-and_part p ps = count-append (predicates_in (term_of p)) (predicates_in_parts ps)

  in_parts-no_parts : in_parts no_parts ≡ 0
  unfolding predicates_in_parts count
  in_parts-no_parts = refl

  with_last-counts :
      (l p : Part) (ps tail : Parts) (c : Part)
      → in_part c ≡ in_part l + in_part (last_part p ps)
      → in_part (current_of (with_last p ps c tail)) + in_parts (rest_of (with_last p ps c tail))
        ≡ (in_part l + in_parts tail) + (in_part p + in_parts ps)
  unfolding with_last last_part
  with_last-counts l p no_parts tail c h = omega (arith, h, in_parts-no_parts)
  with_last-counts l p (and_part p' ps) tail c h = omega (
    arith,
    with_last-counts l p' ps tail c h,
    in_parts-and_part (current_of (with_last p' ps c tail)) (rest_of (with_last p' ps c tail)),
    in_parts-and_part p' ps,
  )

  combined_parts-counts :
      (l : Part) (ls : Parts) (p : Part) (ps : Parts) (c : Part) (rest : Parts)
      → combined_parts l ls p ps ≡ some (c, rest)
      → in_part c + in_parts rest ≡ (in_part l + in_parts ls) + (in_part p + in_parts ps)
  unfolding combined_parts
  combined_parts-counts l ls p ps c rest h = elim (Bool-cases (has_navigation l)) [
    | inl e ↦
        let k = some_inj (rw e at h) in
        subst
          (λ x.
            in_part (current_of x) + in_parts (rest_of x)
            ≡ (in_part l + in_parts ls) + (in_part p + in_parts ps))
          k (omega (arith, count-append_parts ps (and_part l ls), in_parts-and_part l ls))
    | inr e ↦ elim (Bool-cases (parts_clash l (last_part p ps))) [
      | inl f ↦ absurd (none-some (rw (e, f) at h))
      | inr f ↦
          subst
            (λ x.
              in_part (current_of x) + in_parts (rest_of x)
              ≡ (in_part l + in_parts ls) + (in_part p + in_parts ps))
            (some_inj (rw (e, f) at h))
            (with_last-counts l p ps ls (combined_part l (last_part p ps))
              (in_part-combined_part l (last_part p ps)))
    ]
  ]

  -- If two queries are combined without an error, the predicates of the combined query that meet a test are as
  -- many as those of the first query and those of the second one together.
  pub combine-counts :
      (l r q : Query)
      → combine l r ≡ some q
      → count (predicates q) ≡ count (predicates l) + count (predicates r)
  unfolding combine predicates
  combine-counts (query l ls pre agg) (query p ps pre' agg') q h =
      elim (Bool-cases (has_aggregate agg && has_aggregate agg')) [
        | inl e ↦ absurd (none-some (rw e at h))
        | inr e ↦ elim (Option-cases (combined_parts l ls p ps)) [
          | inl n ↦ absurd (none-some (rw (e, n) at h))
          | inr ((c, rest), s) ↦
              subst (λ x. count (predicates x) ≡ count_parts l ls + count_parts p ps)
                (some_inj (rw (e, s) at h))
                (omega (
                  arith,
                  combined_parts-counts l ls p ps c rest s,
                  count-append (predicates_in (term_of c)) (predicates_in_parts rest),
                  count-append (predicates_in (term_of l)) (predicates_in_parts ls),
                  count-append (predicates_in (term_of p)) (predicates_in_parts ps),
                ))
        ]
      ]
