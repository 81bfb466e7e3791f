-- ===== src/Query/Meaning.antt =====
-- What a term says of a node, from what its smallest terms say: an independent description.
pub mod Run
use cloudkeeper.Base.{
  String, ◌≡◌, refl, ap, ◌∙◌, Bool, true, false, not, ◌&&◌, ◌||◌, str_eq, if◌then◌else◌, arith,
}
use cloudkeeper.Query.Data.{
  Term, all_term, not_term, predicate, combined, id_term, is_term, function_term, merge_term,
  MaybeTerm, no_term, some_term, and_term, or_term,
}

pub and_true : (b : Bool) → b ≡ (b && true)
and_true true = refl
and_true false = refl

-- A merge in the term.
unfoldable pub has_merge : Term → Bool
has_merge all_term = false
has_merge (not_term t) = has_merge t
has_merge (predicate name op value args) = false
has_merge (combined l op r) = has_merge l || has_merge r
has_merge (id_term i) = false
has_merge (is_term kinds) = false
has_merge (function_term fn path args) = false
has_merge (merge_term pre m post) = true

-- Whether a node meets a term, if `v` says whether it meets a predicate, an id, a kind or a function. Of a
-- merge only the two filters are read, as if the node had what the merge queries add: `v` has to say so.
module _ (v : Term → Bool) where
  unfoldable mutual
    pub is_met : Term → Bool
    is_met all_term = true
    is_met (not_term t) = not (is_met t)
    is_met (predicate name op value args) = v (predicate name op value args)
    is_met (combined l op r) = if str_eq op "or" then is_met l || is_met r else is_met l && is_met r
    is_met (id_term i) = v (id_term i)
    is_met (is_term kinds) = v (is_term kinds)
    is_met (function_term fn path args) = v (function_term fn path args)
    is_met (merge_term pre m post) = is_met pre && maybe_is_met post

    pub maybe_is_met : MaybeTerm → Bool
    maybe_is_met no_term = true
    maybe_is_met (some_term t) = is_met t

  pub is_met-and_term : (l r : Term) → is_met (and_term l r) ≡ (is_met l && is_met r)
  unfolding is_met and_term
  is_met-and_term all_term r = refl
  is_met-and_term l all_term = and_true (is_met l)
  is_met-and_term l r = refl
