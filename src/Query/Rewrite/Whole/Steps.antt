-- ===== src/Query/Rewrite/Whole/Steps.antt =====
-- The steps of the rewriting of a query.
use cloudkeeper.Base.{String, ◌≡◌, refl, Option, none, some, some_inj, List}
use cloudkeeper.Dict.{Dict}
use cloudkeeper.Json.{Json}
use cloudkeeper.Query.Data.{Query, query, Parts, Part, Aggregate}
use cloudkeeper.Query.Rewrite.{and_then, rewrite_part, rewrite_parts}
use cloudkeeper.Query.Rewrite.Whole.{
  additional_paths, with_paths, rewrite_for_additional_paths, rewrite_query,
}

-- What is computed first gives a value, if the whole does.
pub and_then-some {ℓ κ} :
    {A : Type ℓ} {B : Type κ} (o : Option A) (f : A → Option B) (b : B)
    → and_then o f ≡ some b
    → (a : A) × ((o ≡ some a) × (f a ≡ some b))
and_then-some none f b h = cc
and_then-some (some a) f b h = (a, (refl, h))

-- The steps of the rewriting of a query.
pub rewrite_query-steps :
    (extra : List String) (p : Part) (ps : Parts) (pre : Dict Json) (agg : Option Aggregate)
    (q' : Query)
    → rewrite_query extra (query p ps pre agg) ≡ some q'
    → (p' : Part) × (ps' : Parts) × (p'' : Part) × (rewrite_part p ≡ some p')
      × (rewrite_parts ps ≡ some ps')
      × (with_paths (additional_paths agg extra) p' ≡ some p'')
      × (query p'' ps' pre agg ≡ q')
unfolding rewrite_query rewrite_for_additional_paths
rewrite_query-steps extra p ps pre agg q' h =
    let (p', (e, k)) =
      and_then-some (rewrite_part p)
        (λ x. and_then (rewrite_parts ps) (λ y.
          and_then (rewrite_for_additional_paths agg extra x) (λ z. some (query z y pre agg))))
        q' h in
    let (ps', (e', k')) =
      and_then-some (rewrite_parts ps)
        (λ y. and_then (rewrite_for_additional_paths agg extra p') (λ z. some (query z y pre agg)))
        q' k in
    let (p'', (e'', k'')) =
      and_then-some (rewrite_for_additional_paths agg extra p') (λ z. some (query z ps' pre agg)) q'
        k' in
    (p', ps', p'', e, e', e'', some_inj k'')
