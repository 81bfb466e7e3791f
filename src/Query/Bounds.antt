-- ===== src/Query/Bounds.antt =====
-- The navigations of a query keep their bounds, whatever is done to the query.
use Prim.Native.Nat.{min}
use cloudkeeper.Base.{
  ℕ, ◌+◌, ◌≤◌, String, ◌≡◌, refl, sym, subst, ◌&&◌, Option, none, some, some_inj, none-some, List,
  [], ◌∷◌, Bool-cases, Option-cases, inl, inr, arith,
}
use cloudkeeper.Query.Data.{
  Direction, SortOrder, Navigation, max_navigation, Term, all_term, Query, query, Parts, no_parts,
  and_part, Part, part, part_of, term_of, navigation_of, has_navigation, append_parts,
}
use cloudkeeper.Query.Variables.{change_variable, change_parts, change_part}
use cloudkeeper.Query.Names.{variable_to_absolute}
use cloudkeeper.Query.Rewrite.{
  and_then, with_term, rewrite_term, rewrite_part, rewrite_parts, merge_queries_for,
}
use cloudkeeper.Query.Rewrite.Whole.{
  with_queries, additional_paths, with_paths, rewrite_for_additional_paths, rewrite_query,
  on_section, root_or_section,
}
use cloudkeeper.Query.Rewrite.Whole.Steps.{and_then-some, rewrite_query-steps}
use cloudkeeper.Query.Build.{
  change_current_part, same_way, traverse, with_limit, limited_to, with_sort, add_sort,
}
use cloudkeeper.Query.Build.Combine.{
  has_aggregate, combined_part, last_part, with_last, current_of, rest_of, parts_clash,
  combined_parts, combine,
}

abbrev pub IsRange : Option Navigation → Type 0
IsRange none = Unit
IsRange (some n) = (n.start ≤ n.until) × (n.until ≤ max_navigation)

abbrev pub IsBoundedPart : Part → Type 0
IsBoundedPart p = IsRange (navigation_of p)

abbrev pub AllBounded : Parts → Type 0
AllBounded no_parts = Unit
AllBounded (and_part p ps) = IsBoundedPart p × AllBounded ps

-- Every part that navigates does so from a start to an end that is not before it, and not behind the maximum.
abbrev pub IsBounded : Query → Type 0
IsBounded (query p ps pre agg) = IsBoundedPart p × AllBounded ps

pub traverse-IsBounded :
    (start until : ℕ) (e : String) (d : Direction) (q : Query)
    → start ≤ until
    → until ≤ max_navigation
    → IsBounded q
    → IsBounded (traverse start until e d q)
unfolding traverse
traverse-IsBounded start until e d (query (part t tag w sort k none) ps pre agg) a b h =
    ((a, b), h.1)
traverse-IsBounded start until e d (query (part t tag w sort k (some n)) ps pre agg) a b h =
    elim (Bool-cases (same_way n e d)) [
      | inl s ↦ rw s (
        (
          ordered (start + n.start) (until + n.until) (omega (arith, a, h.0.0)),
          capped (until + n.until),
        ),
        h.1,
      )
      | inr s ↦ rw s ((a, b), h)
    ]
  where
    ordered : (x y : ℕ) → x ≤ y → min max_navigation x ≤ min max_navigation y
    ordered x y h = omega arith

    capped : (y : ℕ) → min max_navigation y ≤ max_navigation
    capped y = omega arith

-- A change of the current part that leaves its navigation as it is.
change_current_part-IsBounded :
    (f : Part → Part)
    → ((p : Part) → navigation_of (f p) ≡ navigation_of p)
    → (q : Query) → IsBounded q
    → IsBounded (change_current_part f q)
unfolding change_current_part
change_current_part-IsBounded f same (query (part t tag w sort k none) ps pre agg) h =
    (subst IsRange (sym (same (part t tag w sort k none))) h.0, h.1)
change_current_part-IsBounded f same (query (part t tag w sort k (some n)) ps pre agg) h =
    (subst IsRange (sym (same (part_of all_term))) tt, h)

pub with_limit-IsBounded : (k : ℕ) (q : Query) → IsBounded q → IsBounded (with_limit k q)
unfolding with_limit
with_limit-IsBounded k q h = change_current_part-IsBounded (limited_to k) same q h
  where
    same : (p : Part) → navigation_of (limited_to k p) ≡ navigation_of p
    same (part t tag w sort limit n) = refl

pub add_sort-IsBounded :
    (name : String) (order : SortOrder) (q : Query)
    → IsBounded q
    → IsBounded (add_sort name order q)
unfolding add_sort
add_sort-IsBounded name order q h =
    change_current_part-IsBounded (with_sort (record { name = name; order = order })) same q h
  where
    same :
        (p : Part)
        → navigation_of (with_sort (record { name = name; order = order }) p) ≡ navigation_of p
    same (part t tag w sort limit n) = refl

AllBounded-append_parts :
    (ps qs : Parts) → AllBounded ps → AllBounded qs → AllBounded (append_parts ps qs)
AllBounded-append_parts no_parts qs h k = k
AllBounded-append_parts (and_part p ps) qs h k = (h.0, AllBounded-append_parts ps qs h.1 k)

last_part-IsBounded :
    (p : Part) (ps : Parts) → IsBoundedPart p → AllBounded ps → IsBoundedPart (last_part p ps)
unfolding last_part
last_part-IsBounded p no_parts h k = h
last_part-IsBounded p (and_part p' ps) h k = last_part-IsBounded p' ps k.0 k.1

abbrev BothBounded : Part × Parts → Type 0
BothBounded q = IsBoundedPart (current_of q) × AllBounded (rest_of q)

with_last-IsBounded :
    (p : Part) (ps : Parts) (c : Part) (tail : Parts)
    → IsBoundedPart p
    → AllBounded ps
    → IsBoundedPart c
    → AllBounded tail
    → BothBounded (with_last p ps c tail)
unfolding with_last
with_last-IsBounded p no_parts c tail h k hc ht = (hc, ht)
with_last-IsBounded p (and_part p' ps) c tail h k hc ht =
    (h, with_last-IsBounded p' ps c tail k.0 k.1 hc ht)

combined_part-IsBounded : (l r : Part) → IsBoundedPart r → IsBoundedPart (combined_part l r)
unfolding combined_part
combined_part-IsBounded (part t tag w sort k n) (part t' tag' w' sort' k' n') h = h

combined_parts-IsBounded :
    (l : Part) (ls : Parts) (p : Part) (ps : Parts) (q : Part × Parts)
    → BothBounded (l, ls)
    → BothBounded (p, ps)
    → combined_parts l ls p ps ≡ some q
    → BothBounded q
unfolding combined_parts
combined_parts-IsBounded l ls p ps q hl hp h = elim (Bool-cases (has_navigation l)) [
  | inl e ↦
      subst BothBounded (some_inj (rw e at h))
        (hp.0, AllBounded-append_parts ps (and_part l ls) hp.1 hl)
  | inr e ↦ elim (Bool-cases (parts_clash l (last_part p ps))) [
    | inl c ↦ absurd (none-some (rw (e, c) at h))
    | inr c ↦ subst BothBounded (some_inj (rw (e, c) at h)) (
        with_last-IsBounded p ps (combined_part l (last_part p ps)) ls hp.0 hp.1
          (combined_part-IsBounded l (last_part p ps) (last_part-IsBounded p ps hp.0 hp.1)) hl.1)
  ]
]

pub combine-IsBounded :
    (l r q : Query) → IsBounded l → IsBounded r → combine l r ≡ some q → IsBounded q
unfolding combine
combine-IsBounded (query l ls pre agg) (query p ps pre' agg') q hl hr h =
    elim (Bool-cases (has_aggregate agg && has_aggregate agg')) [
      | inl e ↦ absurd (none-some (rw e at h))
      | inr e ↦ elim (Option-cases (combined_parts l ls p ps)) [
        | inl n ↦ absurd (none-some (rw (e, n) at h))
        | inr (c, s) ↦
            subst IsBounded (some_inj (rw (e, s) at h))
              (combined_parts-IsBounded l ls p ps c hl hr s)
      ]
    ]

change_part-IsBounded :
    (f : String → String) (p : Part) → IsBoundedPart p → IsBoundedPart (change_part f p)
unfolding change_part
change_part-IsBounded f (part t tag w sort k n) h = h

change_parts-IsBounded :
    (f : String → String) (ps : Parts) → AllBounded ps → AllBounded (change_parts f ps)
unfolding change_parts
change_parts-IsBounded f no_parts h = tt
change_parts-IsBounded f (and_part p ps) h =
    (change_part-IsBounded f p h.0, change_parts-IsBounded f ps h.1)

change_variable-IsBounded :
    (f : String → String) (q : Query) → IsBounded q → IsBounded (change_variable f q)
unfolding change_variable
change_variable-IsBounded f (query p ps pre agg) h =
    (change_part-IsBounded f p h.0, change_parts-IsBounded f ps h.1)

with_term-IsBounded : (t : Term) (p : Part) → IsBoundedPart p → IsBoundedPart (with_term t p)
with_term-IsBounded t (part u tag w sort k n) h = h

rewrite_part-IsBounded : (p q : Part) → IsBoundedPart p → rewrite_part p ≡ some q → IsBoundedPart q
unfolding rewrite_part
rewrite_part-IsBounded p q b h =
    let (t, (e, k)) = and_then-some (rewrite_term (term_of p)) (λ t. some (with_term t p)) q h in
    subst IsBoundedPart (some_inj k) (with_term-IsBounded t p b)

rewrite_parts-IsBounded :
    (ps qs : Parts) → AllBounded ps → rewrite_parts ps ≡ some qs → AllBounded qs
unfolding rewrite_parts
rewrite_parts-IsBounded no_parts qs b h = subst AllBounded (some_inj h) tt
rewrite_parts-IsBounded (and_part p ps) qs b h =
    let (p', (e, k)) =
      and_then-some (rewrite_part p) (λ x. and_then (rewrite_parts ps) (λ y. some (and_part x y)))
        qs h in
    let (ps', (e', k')) = and_then-some (rewrite_parts ps) (λ y. some (and_part p' y)) qs k in
    subst AllBounded (some_inj k')
      (rewrite_part-IsBounded p p' b.0 e, rewrite_parts-IsBounded ps ps' b.1 e')

with_paths-IsBounded :
    (l : List String) (p q : Part) → IsBoundedPart p → with_paths l p ≡ some q → IsBoundedPart q
unfolding with_paths
with_paths-IsBounded [] p q b h = subst IsBoundedPart (some_inj h) b
with_paths-IsBounded (path ∷ l) p q b h =
    let (m, (e, k)) =
      and_then-some (merge_queries_for (term_of p) (path ∷ l))
        (λ m. some (with_term (with_queries m (term_of p)) p)) q h in
    subst IsBoundedPart (some_inj k) (with_term-IsBounded (with_queries m (term_of p)) p b)

rewrite_query-IsBounded :
    (extra : List String) (q q' : Query)
    → IsBounded q
    → rewrite_query extra q ≡ some q'
    → IsBounded q'
unfolding rewrite_query rewrite_for_additional_paths
rewrite_query-IsBounded extra (query p ps pre agg) q' b h =
    let (p', ps', p'', e, e', e'', k) = rewrite_query-steps extra p ps pre agg q' h in
    subst IsBounded k (
      with_paths-IsBounded (additional_paths agg extra) p' p'' (rewrite_part-IsBounded p p' b.0 e)
          e'',
      rewrite_parts-IsBounded ps ps' b.1 e',
    )

pub on_section-IsBounded :
    (s : Option String) (q q' : Query) → IsBounded q → on_section s q ≡ some q' → IsBounded q'
unfolding on_section
on_section-IsBounded s q q' b h =
    rewrite_query-IsBounded [] (change_variable (variable_to_absolute (root_or_section s)) q) q'
      (change_variable-IsBounded (variable_to_absolute (root_or_section s)) q b) h
