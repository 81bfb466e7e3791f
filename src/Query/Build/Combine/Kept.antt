-- ===== src/Query/Build/Combine/Kept.antt =====
-- Nothing that is said once in two queries is lost when they are combined.
use mathlib.Core.List.{append_assoc, append-nil}
use cloudkeeper.Base.{
  String, ◌≡◌, refl, sym, ap, ◌∙◌, Bool, true, false, ◌&&◌, ◌||◌, Option, none, some, some_inj,
  none-some, List, [], ◌∷◌, ◌++◌, str_eq, str_eq_iff, subst, if◌then◌else◌, Bool-cases,
  Option-cases, inl, inr, arith,
}
use cloudkeeper.Dict.{Dict, get, has, put, get-put, IsDistinct}
use cloudkeeper.Query.Data.{
  Navigation, Aggregate, Query, query, Parts, no_parts, and_part, Part, part, MaybeWith, no_with,
  with_clause, append_parts, tag_of, with_of, has_navigation, navigation_of, aggregate_of,
  preamble_of, current_part, other_parts,
}
use cloudkeeper.Json.{Json}
use cloudkeeper.Query.Build.{put_all}
use cloudkeeper.Query.Build.Combine.{
  has_tag, has_with, has_aggregate, either_with, combined_part, last_part, with_last, current_of,
  rest_of, parts_clash, combined_parts, either_aggregate, combine,
}

-- The empty text is no tag.
abbrev pub tag_list : Part → List String
tag_list p = elim (tag_of p) [ none ↦ [] | some s ↦ if str_eq s "" then [] else s ∷ [] ]

abbrev pub with_list : Part → List MaybeWith
with_list p = elim (has_with (with_of p)) [ true ↦ with_of p ∷ [] | false ↦ [] ]

abbrev pub option_list {ℓ} : {A : Type ℓ} → Option A → List A
option_list none = []
option_list (some a) = a ∷ []

abbrev pub navigation_list : Part → List Navigation
navigation_list p = option_list (navigation_of p)

module _ {A : Type 0} (f : Part → List A) where
  unfoldable pub in_parts : Parts → List A
  in_parts no_parts = []
  in_parts (and_part p ps) = f p ++ in_parts ps

  -- What the parts of the query say, from the current one on.
  unfoldable pub said : Query → List A
  unfolding in_parts
  said (query p ps pre agg) = f p ++ in_parts ps

  in_parts-append : (ps qs : Parts) → in_parts (append_parts ps qs) ≡ in_parts ps ++ in_parts qs
  unfolding in_parts
  in_parts-append no_parts qs = refl
  in_parts-append (and_part p ps) qs =
      ap (λ r. f p ++ r) (in_parts-append ps qs)
      ∙ sym (append_assoc (f p) (in_parts ps) (in_parts qs))

  with_last-said :
      (p : Part) (ps : Parts) (c l : Part) (tail : Parts)
      → f c ≡ f (last_part p ps) ++ f l
      → f (current_of (with_last p ps c tail)) ++ in_parts (rest_of (with_last p ps c tail))
        ≡ (f p ++ in_parts ps) ++ (f l ++ in_parts tail)
  unfolding with_last last_part in_parts
  with_last-said p no_parts c l tail h = rw h (simp (append_assoc, append-nil))
  with_last-said p (and_part p' ps) c l tail h =
      ap (λ r. f p ++ r) (with_last-said p' ps c l tail h)
      ∙ sym (append_assoc (f p) (f p' ++ in_parts ps) (f l ++ in_parts tail))

  combined_parts-said :
      (l : Part) (ls : Parts) (p : Part) (ps : Parts) (c : Part) (rest : Parts)
      → (has_navigation l ≡ false
          → parts_clash l (last_part p ps) ≡ false
          → f (combined_part l (last_part p ps)) ≡ f (last_part p ps) ++ f l)
      → combined_parts l ls p ps ≡ some (c, rest)
      → f c ++ in_parts rest ≡ (f p ++ in_parts ps) ++ (f l ++ in_parts ls)
  unfolding combined_parts in_parts
  combined_parts-said l ls p ps c rest joins h = elim (Bool-cases (has_navigation l)) [
    | inl e ↦
        ap whole (sym (some_inj (rw e at h)))
        ∙ ap (λ r. f p ++ r) (in_parts-append ps (and_part l ls))
        ∙ sym (append_assoc (f p) (in_parts ps) (f l ++ in_parts ls))
    | inr e ↦ elim (Bool-cases (parts_clash l (last_part p ps))) [
      | inl k ↦ absurd (none-some (rw (e, k) at h))
      | inr k ↦
          ap whole (sym (some_inj (rw (e, k) at h)))
          ∙ with_last-said p ps (combined_part l (last_part p ps)) l ls (joins e k)
    ]
  ]
    where
      whole : Part × Parts → List A
      whole x = f (current_of x) ++ in_parts (rest_of x)

-- What a combined query is made of.
record IsMadeOf (l r q : Query) : Type 0 where
  joined : Part
  others : Parts
  parts :
      combined_parts (current_part l) (other_parts l) (current_part r) (other_parts r)
      ≡ some (joined, others)
  alone : (has_aggregate (aggregate_of l) && has_aggregate (aggregate_of r)) ≡ false
  whole :
      q
      ≡ query joined others
          (put_all (preamble_of l) (preamble_of r))
          (either_aggregate (aggregate_of l) (aggregate_of r))

combine-IsMadeOf : (l r q : Query) → combine l r ≡ some q → IsMadeOf l r q
unfolding combine
combine-IsMadeOf (query l ls pre agg) (query p ps pre' agg') q h =
    elim (Bool-cases (has_aggregate agg && has_aggregate agg')) [
      | inl e ↦ absurd (none-some (rw e at h))
      | inr e ↦ elim (Option-cases (combined_parts l ls p ps)) [
        | inl n ↦ absurd (none-some (rw (e, n) at h))
        | inr ((c, rest), s) ↦ record {
          joined = c;
          others = rest;
          parts = s;
          alone = e;
          whole = sym (some_inj (rw (e, s) at h));
        }
      ]
    ]

combine-said :
    {A : Type 0} (f : Part → List A) (l r q : Query)
    → ((a b : Part)
        → has_navigation a ≡ false
        → parts_clash a b ≡ false
        → f (combined_part a b) ≡ f b ++ f a)
    → IsMadeOf l r q
    → said f q ≡ said f r ++ said f l
unfolding said
combine-said f (query l ls pre agg) (query p ps pre' agg') q joins m =
    ap (said f) m.whole
    ∙ combined_parts-said f l ls p ps m.joined m.others (joins l (last_part p ps)) m.parts

tags-join :
    (a b : Part)
    → has_navigation a ≡ false
    → parts_clash a b ≡ false
    → tag_list (combined_part a b) ≡ tag_list b ++ tag_list a
unfolding combined_part parts_clash has_tag
tags-join (part t none w sort k n) (part t' tag' w' sort' k' n') e h =
    sym (append-nil (tag_list (part t' tag' w' sort' k' n')))
tags-join (part t (some s) w sort k n) (part t' none w' sort' k' n') e h =
    elim (Bool-cases (str_eq s "")) [ inl c ↦ rw c refl | inr c ↦ rw c (rw c refl) ]
tags-join (part t (some s) w sort k n) (part t' (some s') w' sort' k' n') e h =
    elim (Bool-cases (str_eq s "")) [
      | inl c ↦ rw c (sym (append-nil _))
      | inr c ↦ elim (Bool-cases (str_eq s' "")) [
        | inl d ↦ rw (c, d) (rw c refl)
        | inr d ↦ absurd (both_tags (has_with w && has_with w') (rw (c, d) at h))
      ]
    ]
  where
    both_tags : (b : Bool) → (b || true) ≡ false → ⊥
    both_tags true q = cc
    both_tags false q = cc

withs-join :
    (a b : Part)
    → has_navigation a ≡ false
    → parts_clash a b ≡ false
    → with_list (combined_part a b) ≡ with_list b ++ with_list a
unfolding combined_part parts_clash has_with either_with
withs-join (part t tag no_with sort k n) (part t' tag' w' sort' k' n') e h =
    sym (append-nil (with_list (part t' tag' w' sort' k' n')))
withs-join (part t tag (with_clause f via u w) sort k n) (part t' tag' no_with sort' k' n') e h =
    refl
withs-join (part t tag (with_clause f via u w) sort k n)
      (part t' tag' (with_clause f' via' u' w') sort' k' n') e h =
    cc

navigations-join :
    (a b : Part)
    → has_navigation a ≡ false
    → parts_clash a b ≡ false
    → navigation_list (combined_part a b) ≡ navigation_list b ++ navigation_list a
unfolding combined_part
navigations-join (part t tag w sort k none) (part t' tag' w' sort' k' n') e h =
    sym (append-nil (option_list n'))
navigations-join (part t tag w sort k (some n)) b e h = cc

aggregates-join :
    (a b : Option Aggregate)
    → (has_aggregate a && has_aggregate b) ≡ false
    → option_list (either_aggregate a b) ≡ option_list a ++ option_list b
unfolding has_aggregate
aggregates-join none b h = refl
aggregates-join (some a) none h = refl
aggregates-join (some a) (some b) h = cc

get-put_all :
    (k : String) (d e : Dict Json)
    → IsDistinct e
    → get k (put_all d e) ≡ (if has k e then get k e else get k d)
unfolding put_all get has
get-put_all k d [] distinct = refl
get-put_all k d ((j, v) ∷ e) distinct =
    get-put_all k (put j v d) e distinct.1 ∙ elim (Bool-cases (str_eq j k)) [
      | inl same ↦ here ((str_eq_iff j k).0 same)
      | inr other ↦ rw (get-put j k v d) (ground (arith, other))
    ]
  where
    here :
        j ≡ k
        → (if has k e then get k e else get k (put j v d))
          ≡ (if has k ((j, v) ∷ e) then get k ((j, v) ∷ e) else get k d)
    here same =
        ground
          (arith, get-put j k v d, str_eq_iff j k, subst (λ i. has i e ≡ false) same distinct.0)

-- If two queries are combined without an error, then the tags of the combined query, its with clauses and
-- its navigations are those of the second query and then those of the first one, in their order; it has
-- the aggregate of the one that has one; and an option of its preamble, if the second query has each
-- option once, is the one that the second query sets, and else the one of the first query.
pub combine-keeps :
    (l r q : Query) (k : String)
    → IsDistinct (preamble_of r)
    → combine l r ≡ some q
    → (said tag_list q ≡ said tag_list r ++ said tag_list l)
      × (said with_list q ≡ said with_list r ++ said with_list l)
      × (said navigation_list q ≡ said navigation_list r ++ said navigation_list l)
      × (option_list (aggregate_of q)
          ≡ option_list (aggregate_of l) ++ option_list (aggregate_of r))
      × (get k (preamble_of q)
          ≡ (if has k (preamble_of r) then get k (preamble_of r) else get k (preamble_of l)))
combine-keeps l r q k distinct h =
    let m = combine-IsMadeOf l r q h in
    (
      combine-said tag_list l r q tags-join m,
      combine-said with_list l r q withs-join m,
      combine-said navigation_list l r q navigations-join m,
      ap (λ x. option_list (aggregate_of x)) m.whole
          ∙ aggregates-join (aggregate_of l) (aggregate_of r) m.alone,
      ap (λ x. get k (preamble_of x)) m.whole
          ∙ get-put_all k (preamble_of l) (preamble_of r) distinct,
    )
