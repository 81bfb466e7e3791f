-- ===== src/Query/Rewrite/Whole/Total.antt =====
-- When the rewriting of a query gives no error.
use cloudkeeper.Base.{
  String, ◌≡◌, refl, sym, Bool, Option, some, none-some, List, [], ◌∷◌, ◌++◌, keep, All, Bool-cases,
  Option-cases, inl, inr,
}
use cloudkeeper.Dict.{put}
use cloudkeeper.Query.Names.{is_ancestor_descendant, split_path}
use cloudkeeper.Query.Data.{
  Term, Merges, Query, query, Parts, no_parts, and_part, Part, term_of, Aggregate,
}
use cloudkeeper.Query.Rewrite.{
  has_ancestor_descendant, ancestor_descendant_predicates, no_filters, MergeDict, with_query_for,
  created_queries, all_queries, merge_queries_for, with_term, merged_term, rewrite_term,
  rewrite_part, rewrite_parts,
}
use cloudkeeper.Query.Rewrite.Logic.{walk_term-some}
use cloudkeeper.Query.Rewrite.Said.{IsMagic, predicates-IsMagic, Said, SaidAfter, walk_term-Said}
use cloudkeeper.Query.Rewrite.Whole.{
  with_queries, property_paths, additional_paths, with_paths, rewrite_for_additional_paths,
  rewrite_query,
}

-- A name that has two dots.
abbrev pub IsSplit : String → Type 0
IsSplit n = (p : String × String) × (split_path n ≡ some p)

with_query_for-some :
    (n : String)
    → IsMagic n
    → IsSplit n
    → (w : String × (Query × Bool)) × (with_query_for n ≡ some w)
unfolding with_query_for
with_query_for-some n h (p, e) = elim (Option-cases (with_query_for n)) [
  | inl none_for ↦ absurd (none-some (sym (rw (h, e) at none_for)))
  | inr found ↦ found
]

created_queries-some :
    (l : List String) (d : MergeDict)
    → All IsMagic l
    → All IsSplit l
    → (d' : MergeDict) × (created_queries l d ≡ some d')
unfolding created_queries
created_queries-some [] d h k = (d, refl)
created_queries-some (n ∷ l) d h k =
    let ((name, q), e) = with_query_for-some n h.0 k.0 in
    let (d', e') = created_queries-some l (put name q d) h.1 k.1 in (d', rw (created_queries, e) e')

merge_queries_for-some :
    (t : Term) (l : List String)
    → All IsMagic l
    → All IsSplit l
    → (m : Merges) × (merge_queries_for t l ≡ some m)
unfolding merge_queries_for
merge_queries_for-some t l h k =
    let (d, e) = created_queries-some l [] h k in (all_queries t d, rw (merge_queries_for, e) refl)

no_filters-Said : (P : String → Type 0) → Said P no_filters.after_merge
unfolding ancestor_descendant_predicates
no_filters-Said P = tt

additional_paths-IsMagic :
    (agg : Option Aggregate) (extra : List String) → All IsMagic (additional_paths agg extra)
unfolding additional_paths
additional_paths-IsMagic agg extra = keep-IsMagic (property_paths agg ++ extra)
  where
    keep-IsMagic : (l : List String) → All IsMagic (keep is_ancestor_descendant l)
    keep-IsMagic [] = tt
    keep-IsMagic (n ∷ l) = elim (Bool-cases (is_ancestor_descendant n)) [
      | inl e ↦ rw e (e, keep-IsMagic l)
      | inr e ↦ rw e (keep-IsMagic l)
    ]

rewrite_term-some : (t : Term) → Said IsSplit t → (u : Term) × (rewrite_term t ≡ some u)
unfolding rewrite_term SaidAfter
rewrite_term-some t h = elim (Bool-cases (has_ancestor_descendant t)) [
  | inr e ↦ (t, rw e refl)
  | inl e ↦
      let (s, p) = walk_term-some t e no_filters in
      let (m, q) =
        merge_queries_for-some t (ancestor_descendant_predicates s.after_merge)
          (predicates-IsMagic s.after_merge)
          (walk_term-Said IsSplit t h no_filters s (no_filters-Said IsSplit) p) in
      (merged_term s m, rw e (rw p (rw q refl)))
]

rewrite_part-some : (p : Part) → Said IsSplit (term_of p) → (q : Part) × (rewrite_part p ≡ some q)
unfolding rewrite_part
rewrite_part-some p h = let (u, e) = rewrite_term-some (term_of p) h in (with_term u p, rw e refl)

-- The predicates on ancestors and descendants of every part have names with two dots.
abbrev pub AllSplit : Parts → Type 0
AllSplit no_parts = Unit
AllSplit (and_part p ps) = Said IsSplit (term_of p) × AllSplit ps

rewrite_parts-some : (ps : Parts) → AllSplit ps → (qs : Parts) × (rewrite_parts ps ≡ some qs)
unfolding rewrite_parts
rewrite_parts-some no_parts h = (no_parts, refl)
rewrite_parts-some (and_part p ps) h =
    let (q, e) = rewrite_part-some p h.0 in
    let (qs, e') = rewrite_parts-some ps h.1 in (and_part q qs, rw (e, e') refl)

with_paths-some :
    (l : List String) (p : Part)
    → All IsMagic l
    → All IsSplit l
    → (q : Part) × (with_paths l p ≡ some q)
unfolding with_paths
with_paths-some [] p h k = (p, refl)
with_paths-some (n ∷ l) p h k =
    let (m, e) = merge_queries_for-some (term_of p) (n ∷ l) h k in
    (with_term (with_queries m (term_of p)) p, rw e refl)

-- The names on ancestors and descendants in the terms of a query, in its aggregate and among the further
-- paths have two dots.
abbrev pub IsSplitQuery : List String → Query → Type 0
IsSplitQuery extra (query p ps pre agg) =
    Said IsSplit (term_of p) × AllSplit ps × All IsSplit (additional_paths agg extra)

-- A query is rewritten without an error if every name on ancestors or descendants, in its parts, its
-- aggregate and the further paths to select, has two dots.
pub rewrite_query-some :
    (extra : List String) (q : Query)
    → IsSplitQuery extra q
    → (q' : Query) × (rewrite_query extra q ≡ some q')
unfolding rewrite_query rewrite_for_additional_paths
rewrite_query-some extra (query p ps pre agg) h =
    let (p', e) = rewrite_part-some p h.0 in
    let (ps', e') = rewrite_parts-some ps h.1 in
    let (p'', e'') =
      with_paths-some (additional_paths agg extra) p' (additional_paths-IsMagic agg extra) h.2 in
    (query p'' ps' pre agg, rw (e, e') (rw e'' refl))
