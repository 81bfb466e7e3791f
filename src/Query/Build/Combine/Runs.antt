-- ===== src/Query/Build/Combine/Runs.antt =====
-- A combined query gives what the second query makes of what the first one gives.
use native.Mathlib.Nat.{suc-min-suc}
use cloudkeeper.Base.{
  ℕ, zero, suc, ◌≡◌, refl, sym, ap, subst, ◌∙◌, ◌⊎◌, String, Bool, true, false, ◌&&◌, ◌||◌, Option,
  none, some, some_inj, none-some, Option-cases, List, [], ◌∷◌, Bool-cases, inl, inr,
}
use cloudkeeper.Query.Data.{
  Sort, Navigation, Term, all_term, and_term, Query, query, Parts, no_parts, and_part, Part, part,
  MaybeWith, no_with, with_clause, with_of, has_navigation, current_part, term_of, tag_of, sort_of,
  aggregate_of, Aggregate,
}
use cloudkeeper.Dict.{has}
use cloudkeeper.Query.Build.{put_all}
use cloudkeeper.Query.Meaning.{has_merge}
use cloudkeeper.Query.Meaning.Run.{
  Database, limited, take-take, chosen, ordered, counted, reached, aggregated, run_part, run_parts,
  run_query, chosen_both, chosen_all, run_parts-append,
}
use cloudkeeper.Query.Build.Combine.{
  has_tag, has_with, has_aggregate, combine_limits, combine_sorts, either_with, combined_part,
  last_part, current_of, rest_of, with_last, parts_clash, combined_parts, either_aggregate, combine,
}

pub data IsUnlimited : Option ℕ → Type 0 where
  no_limit : IsUnlimited none
  limit_zero : IsUnlimited (some zero)

-- What a part does last comes before what the next part does first.
pub data Follows : Part → Part → Type 0 where
  behind_filter :
      {t : Term} {tag : Option String} {k : Option ℕ} {r : Part}
      → IsUnlimited k
      → Follows (part t tag no_with [] k none) r
  limits_next :
      {t : Term} {tag tag' : Option String} {sort : List Sort} {k k' : Option ℕ} {w : MaybeWith}
      {n : Option Navigation}
      → Follows (part t tag no_with sort k none) (part all_term tag' w [] k' n)
  counts_next :
      {t : Term} {tag tag' : Option String} {w w' : MaybeWith} {sort : List Sort} {k k' : Option ℕ}
      {n : Option Navigation}
      → IsUnlimited k'
      → Follows (part t tag w sort k none) (part all_term tag' w' [] k' n)
  behind_navigation : {l r : Part} → has_navigation l ≡ true → Follows l r

unlimited {ℓ} : {A : Type ℓ} {k : Option ℕ} → IsUnlimited k → (l : List A) → limited k l ≡ l
unlimited no_limit l = refl
unlimited limit_zero l = refl

-- A part without a merge, and without a tag.
abbrev IsPlainPart : Part → Type 0
IsPlainPart p = (has_merge (term_of p) ≡ false) × (has_tag (tag_of p) ≡ false)

ArePlain : Parts → Type 0
ArePlain no_parts = Unit
ArePlain (and_part p ps) = IsPlainPart p × ArePlain ps

-- No part of the query has a merge or a tag, and no option asks to merge with ancestors.
unfoldable pub IsPlain : Query → Type 0
unfolding ArePlain
IsPlain (query p ps pre agg) =
    IsPlainPart p × ArePlain ps × (has "merge_with_ancestors" pre ≡ false)

-- The part of a query that is done first.
abbrev pub last_of : Query → Part
last_of (query p ps pre agg) = last_part p ps

limited-combine_limits {ℓ} :
    {A : Type ℓ} (k k' : Option ℕ) (l : List A)
    → limited (combine_limits k k') l ≡ limited k' (limited k l)
unfolding combine_limits
limited-combine_limits (some (suc a)) (some (suc b)) l =
    rw (suc-min-suc a b) (rw (sym (suc-min-suc a b)) (sym (take-take (suc b) (suc a) l)))
limited-combine_limits (some (suc a)) none l = refl
limited-combine_limits (some (suc a)) (some zero) l = refl
limited-combine_limits none r l = refl
limited-combine_limits (some zero) r l = refl

combine_sorts_nil : (s : List Sort) → combine_sorts s [] ≡ s
unfolding combine_sorts
combine_sorts_nil [] = refl
combine_sorts_nil (s ∷ l) = refl

or_left_false : (b c : Bool) → (b || c) ≡ false → b ≡ false
or_left_false true c h = cc
or_left_false false c h = refl

parts_clash-has_with :
    (l r : Part) → parts_clash l r ≡ false → (has_with (with_of l) && has_with (with_of r)) ≡ false
unfolding parts_clash
parts_clash-has_with l r h = or_left_false _ _ h

module _ {N : Type 0} (db : Database N) where
  counted-either_with :
      (w w' : MaybeWith) (l : List N)
      → (has_with w && has_with w') ≡ false
      → counted db (either_with w w') l ≡ counted db w' (counted db w l)
  unfolding either_with has_with
  counted-either_with no_with w' l h = refl
  counted-either_with (with_clause f via t w) no_with l h = refl
  counted-either_with (with_clause f via t w) (with_clause f' via' t' w') l h = cc

  chosen-and_all : (t : Term) (l : List N) → chosen db (and_term t all_term) l ≡ chosen db t l
  chosen-and_all t l = chosen_both db t all_term l ∙ chosen_all db (chosen db t l)

  combined_part-runs :
      (l r : Part)
      → Follows l r
      → has_navigation l ≡ false
      → parts_clash l r ≡ false
      → (ns : List N) → run_part db (combined_part l r) ns ≡ run_part db r (run_part db l ns)
  unfolding run_part combined_part combine_limits combine_sorts either_with
  combined_part-runs l r (behind_navigation h) out ok ns = cc
  combined_part-runs (part t tag w sort k none) (part t' tag' w' sort' k' n)
        (behind_filter no_limit) out ok ns =
      ap (λ x. reached db n (counted db w' (limited k' (ordered db sort' x))))
        (chosen_both db t t' ns)
  combined_part-runs (part t tag w sort k none) (part t' tag' w' sort' k' n)
        (behind_filter limit_zero) out ok ns =
      ap (λ x. reached db n (counted db w' (limited k' (ordered db sort' x))))
        (chosen_both db t t' ns)
  combined_part-runs (part t tag w sort k none) (part t' tag' w' sort' k' n) limits_next out ok ns =
      ap
        (λ s. reached db n (
          counted db w'
            (limited (combine_limits k k') (ordered db s (chosen db (and_term t all_term) ns)))))
        (combine_sorts_nil sort)
      ∙ ap (λ x. reached db n (counted db w' (limited (combine_limits k k') (ordered db sort x))))
          (chosen-and_all t ns)
      ∙ ap (λ x. reached db n (counted db w' x))
          (limited-combine_limits k k' (ordered db sort (chosen db t ns)))
      ∙ ap (λ x. reached db n (counted db w' (limited k' x)))
          (sym (chosen_all db (limited k (ordered db sort (chosen db t ns)))))
  combined_part-runs (part t tag w sort k none) (part t' tag' w' sort' k' n) (counts_next u) out ok
        ns =
      ap
        (λ s. reached db n (
          counted db (either_with w w')
            (limited (combine_limits k k') (ordered db s (chosen db (and_term t all_term) ns)))))
        (combine_sorts_nil sort)
      ∙ ap
          (λ x.
            reached db n
              (counted db (either_with w w') (limited (combine_limits k k') (ordered db sort x))))
          (chosen-and_all t ns)
      ∙ ap (λ x. reached db n (counted db (either_with w w') x))
          (limited-combine_limits k k' (ordered db sort (chosen db t ns))
            ∙ unlimited u (limited k (ordered db sort (chosen db t ns))))
      ∙ ap (reached db n) (
          counted-either_with w w' (limited k (ordered db sort (chosen db t ns)))
            (parts_clash-has_with (part t tag w sort k none) (part t' tag' w' sort' k' n) ok))
      ∙ ap (λ x. reached db n (counted db w' x))
          (sym (chosen_all db (counted db w (limited k (ordered db sort (chosen db t ns)))))
            ∙ sym (
                unlimited u (
                  chosen db all_term
                    (counted db w (limited k (ordered db sort (chosen db t ns)))))))

  run_both : Part × Parts → List N → List N
  run_both q ns = run_part db (current_of q) (run_parts db (rest_of q) ns)

  with_last-runs :
      (c l : Part) (p : Part) (ps tail : Parts)
      → ((ns : List N) → run_part db c ns ≡ run_part db (last_part p ps) (run_part db l ns))
      → (ns : List N)
      → run_both (with_last p ps c tail) ns
        ≡ run_both (p, ps) (run_part db l (run_parts db tail ns))
  unfolding with_last last_part run_parts run_both
  with_last-runs c l p no_parts tail h ns = h (run_parts db tail ns)
  with_last-runs c l p (and_part p' ps) tail h ns =
      ap (run_part db p) (with_last-runs c l p' ps tail h ns)

  combined_parts-runs :
      (l : Part) (ls : Parts) (p : Part) (ps : Parts) (q : Part × Parts)
      → Follows l (last_part p ps)
      → combined_parts l ls p ps ≡ some q
      → (ns : List N) → run_both q ns ≡ run_both (p, ps) (run_both (l, ls) ns)
  unfolding combined_parts run_both run_parts
  combined_parts-runs l ls p ps q f h ns = elim (Bool-cases (has_navigation l)) [
    | inl e ↦
        ap (λ x. run_both x ns) (sym (some_inj (rw e at h)))
        ∙ ap (run_part db p) (run_parts-append db ps (and_part l ls) ns)
    | inr e ↦ elim (Bool-cases (parts_clash l (last_part p ps))) [
      | inl c ↦ absurd (none-some (rw (e, c) at h))
      | inr c ↦
          ap (λ x. run_both x ns) (sym (some_inj (rw (e, c) at h)))
          ∙ with_last-runs (combined_part l (last_part p ps)) l p ps ls
              (combined_part-runs l (last_part p ps) f e c) ns
    ]
  ]

  -- The order of the rows of an aggregate is the same, or there is no aggregate.
  aggregated_order :
      (a : Option Aggregate) (sort sort' : List Sort) (l : List N)
      → (a ≡ none) ⊎ (sort ≡ sort')
      → aggregated db a sort l ≡ aggregated db a sort' l
  aggregated_order none sort sort' l h = refl
  aggregated_order (some a) sort sort' l (inl h) = absurd (none-some (sym h))
  aggregated_order (some a) sort sort' l (inr h) = ap (λ s. aggregated db (some a) s l) h

  -- Two queries without merges and tags are combined without an error, the first one has no aggregate, the
  -- second one has none either or the combined query ends with the sort of the second one, and what the
  -- current part of the first one does last comes before what the first part of the second one to be done does
  -- first: a filter, then a sort, then a limit, then a with clause, then a navigation. Then the combined
  -- query gives, for any nodes and under the same options, what the second query makes of what the first
  -- one gives for these nodes.
  pub combine-runs :
      (l r q : Query)
      → IsPlain l
      → IsPlain r
      → aggregate_of l ≡ none
      → (aggregate_of r ≡ none) ⊎ (sort_of (current_part q) ≡ sort_of (current_part r))
      → Follows (current_part l) (last_of r)
      → combine l r ≡ some q
      → (ns : List N) → run_query db q ns ≡ run_query db r (run_query db l ns)
  unfolding combine run_query run_both
  combine-runs (query l ls pre agg) (query p ps pre' agg') q plain plain' bare order f h ns =
      elim (Bool-cases (has_aggregate agg && has_aggregate agg')) [
        | inl e ↦ absurd (none-some (rw e at h))
        | inr e ↦ elim (Option-cases (combined_parts l ls p ps)) [
          | inl n ↦ absurd (none-some (rw (e, n) at h))
          | inr ((c, rest), s) ↦ joined c rest s (sym (some_inj (rw (e, s) at h)))
        ]
      ]
    where
      joined :
          (c : Part) (rest : Parts)
          → combined_parts l ls p ps ≡ some (c, rest)
          → q ≡ query c rest (put_all pre pre') (either_aggregate agg agg')
          → run_query db q ns
            ≡ run_query db (query p ps pre' agg') (run_query db (query l ls pre agg) ns)
      joined c rest s k =
          let order' : (agg' ≡ none) ⊎ (sort_of c ≡ sort_of p) =
            subst (λ x. (agg' ≡ none) ⊎ (sort_of (current_part x) ≡ sort_of p)) k order in
          ap (λ x. run_query db x ns) k
          ∙ rw bare (
              aggregated_order agg' (sort_of c) (sort_of p) (run_both (c, rest) ns) order'
              ∙ ap (aggregated db agg' (sort_of p))
                  (combined_parts-runs l ls p ps (c, rest) f s ns))
