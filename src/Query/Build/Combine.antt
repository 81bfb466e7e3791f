-- ===== src/Query/Build/Combine.antt =====
-- resotocore/core/query/model.py: `combine`, which lets one query go on where another one ends.
pub mod Runs
pub mod Kept
use Prim.Native.Nat.{min}
use cloudkeeper.Base.{
  ℕ, zero, suc, String, Bool, true, false, not, ◌&&◌, ◌||◌, Option, none, some, List, [], ◌∷◌, ◌++◌,
  str_eq, if◌then◌else◌,
}
use cloudkeeper.Query.Data.{
  Sort, Aggregate, Term, and_term, Query, query, Parts, no_parts, and_part, Part, part, MaybeWith,
  no_with, with_clause, append_parts, tag_of, with_of, has_navigation, navigation_of, aggregate_of,
}
use cloudkeeper.Query.Build.{put_all}

-- What Python's `if` sees in a tag: the empty text counts as none.
unfoldable pub has_tag : Option String → Bool
has_tag none = false
has_tag (some s) = not (str_eq s "")

unfoldable pub has_with : MaybeWith → Bool
has_with no_with = false
has_with (with_clause f via t w) = true

unfoldable pub has_aggregate : Option Aggregate → Bool
has_aggregate none = false
has_aggregate (some a) = true

-- combine_optional on the limits: 0 counts as no limit.
unfoldable pub combine_limits : Option ℕ → Option ℕ → Option ℕ
combine_limits (some (suc a)) (some (suc b)) = some (min (suc a) (suc b))
combine_limits (some (suc a)) r = some (suc a)
combine_limits l r = r

-- combine_optional on the sort criteria
unfoldable pub combine_sorts : List Sort → List Sort → List Sort
combine_sorts [] r = r
combine_sorts (s ∷ l) [] = s ∷ l
combine_sorts (s ∷ l) (s' ∷ r) = (s ∷ l) ++ (s' ∷ r)

unfoldable pub either_with : MaybeWith → MaybeWith → MaybeWith
either_with no_with r = r
either_with (with_clause f via t w) r = with_clause f via t w

-- `combined` of two parts: the left one is the current part of the first query, the right one is the last
-- of the list of the second.
unfoldable pub combined_part : Part → Part → Part
unfolding and_term has_tag combine_limits combine_sorts either_with
combined_part (part t tag w sort limit n) (part t' tag' w' sort' limit' n') =
    part (and_term t t') (if has_tag tag then tag else tag') (either_with w w')
      (combine_sorts sort sort') (combine_limits limit limit') n'

unfoldable pub last_part : Part → Parts → Part
last_part p no_parts = p
last_part p (and_part p' ps) = last_part p' ps

abbrev pub current_of : Part × Parts → Part
current_of (p, ps) = p

abbrev pub rest_of : Part × Parts → Parts
rest_of (p, ps) = ps

-- [*other.parts[0:-1], combined, *tail], where `p` and `ps` are the parts of `other`
unfoldable pub with_last : Part → Parts → Part → Parts → Part × Parts
with_last p no_parts c tail = (c, tail)
with_last p (and_part p' ps) c tail =
    let rest = with_last p' ps c tail in (p, and_part (current_of rest) (rest_of rest))

-- The two errors of the parts: two with clauses, and two tags.
unfoldable pub parts_clash : Part → Part → Bool
unfolding has_tag has_with
parts_clash l r =
    (has_with (with_of l) && has_with (with_of r)) || (has_tag (tag_of l) && has_tag (tag_of r))

-- `parts` of combine: nothing where it raises an AttributeError.
unfoldable pub combined_parts : Part → Parts → Part → Parts → Option (Part × Parts)
unfolding parts_clash last_part with_last combined_part
combined_parts l ls p ps =
    if has_navigation l
    then some (p, append_parts ps (and_part l ls))
    else if parts_clash l (last_part p ps)
    then none
    else some (with_last p ps (combined_part l (last_part p ps)) ls)

abbrev pub either_aggregate : Option Aggregate → Option Aggregate → Option Aggregate
either_aggregate none r = r
either_aggregate (some a) r = some a

-- combine
unfoldable pub combine : Query → Query → Option Query
unfolding put_all has_aggregate combined_parts
combine (query l ls pre agg) (query p ps pre' agg') =
    if has_aggregate agg && has_aggregate agg' then none else elim (combined_parts l ls p ps) [
      | none ↦ none
      | some (c, rest) ↦ some (query c rest (put_all pre pre') (either_aggregate agg agg'))
    ]
