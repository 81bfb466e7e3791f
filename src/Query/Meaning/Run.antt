-- ===== src/Query/Meaning/Run.antt =====
-- What a query without merges and tags gives, from what it is given: an independent description, which does
-- the work in the order of resotocore/core/db/arango_query.py: of a part the filter, the sort, the limit, the
-- with clause and the navigation, of a query its parts from the last to the first, and then the aggregate,
-- whose rows are sorted as the current part says.
use Prim.Native.Nat.{min}
use native.Mathlib.Nat.{min-zero, suc-min-suc}
use native.Mathlib.Numerals.{unary_clauses}
use mathlib.Core.Path.{fun_ext}
use cloudkeeper.Base.{
  ℕ, zero, suc, ◌≡◌, refl, sym, ap, ◌∙◌, Bool, ◌&&◌, Option, none, some, List, [], ◌∷◌, keep,
  if◌then◌else◌, Bool-cases, inl, inr,
}
use cloudkeeper.Query.Data.{
  Sort, Navigation, Aggregate, Term, all_term, and_term, Query, query, Parts, no_parts, and_part,
  Part, part, MaybeWith, no_with, append_parts, sort_of,
}
use cloudkeeper.Query.Meaning.{is_met, is_met-and_term}

pub data Stage : Type 0 where
  sorting : List Sort → Stage
  having : MaybeWith → Stage
  going : Navigation → Stage
  summarising : Aggregate → Stage

-- What the database does: whether a node meets a smallest term, and what it makes of a list of nodes when
-- it sorts, counts what a with clause counts, navigates or aggregates, under the options of a query.
pub record Database (N : Type 0) : Type 0 where
  pub meets : N → Term → Bool
  pub does : Stage → List N → List N

abbrev pub take {ℓ} : {A : Type ℓ} → ℕ → List A → List A
take zero l = []
take (suc n) [] = []
take (suc n) (x ∷ l) = x ∷ take n l

-- A limit of 0 is no limit.
abbrev pub limited {ℓ} : {A : Type ℓ} → Option ℕ → List A → List A
limited none l = l
limited (some zero) l = l
limited (some (suc n)) l = take (suc n) l

take_nil {ℓ} : {A : Type ℓ} (n : ℕ) → take {A = A} n [] ≡ []
take_nil zero = refl
take_nil (suc n) = refl

pub take-take {ℓ} : {A : Type ℓ} (m n : ℕ) (l : List A) → take m (take n l) ≡ take (min n m) l
take-take zero n l = rw (min-zero n) refl
take-take (suc m) zero l = simp unary_clauses refl
take-take (suc m) (suc n) [] = sym (take_nil (min (suc n) (suc m)))
take-take (suc m) (suc n) (x ∷ l) =
    ap (λ r. x ∷ r) (take-take m n l) ∙ ap (λ k. take k (x ∷ l)) (sym (suc-min-suc n m))

pub keep-keep {ℓ} :
    {A : Type ℓ} (p q : A → Bool) (l : List A) → keep (λ x. p x && q x) l ≡ keep q (keep p l)
keep-keep p q [] = refl
keep-keep p q (x ∷ l) = elim (Bool-cases (p x)) [
  | inl e ↦ rw e (ap (λ r. if q x then x ∷ r else r) (keep-keep p q l))
  | inr e ↦ rw e (keep-keep p q l)
]

module _ {N : Type 0} (db : Database N) where
  abbrev pub chosen : Term → List N → List N
  chosen t l = keep (λ n. is_met (db.meets n) t) l

  abbrev pub ordered : List Sort → List N → List N
  ordered [] l = l
  ordered (s ∷ sort) l = db.does (sorting (s ∷ sort)) l

  abbrev pub counted : MaybeWith → List N → List N
  counted no_with l = l
  counted w l = db.does (having w) l

  abbrev pub reached : Option Navigation → List N → List N
  reached none l = l
  reached (some n) l = db.does (going n) l

  abbrev pub aggregated : Option Aggregate → List Sort → List N → List N
  aggregated none sort l = l
  aggregated (some a) sort l = ordered sort (db.does (summarising a) l)

  unfoldable pub run_part : Part → List N → List N
  run_part (part t tag w sort limit n) l =
      reached n (counted w (limited limit (ordered sort (chosen t l))))

  -- The first part of the list is done last.
  unfoldable pub run_parts : Parts → List N → List N
  unfolding run_part
  run_parts no_parts l = l
  run_parts (and_part p ps) l = run_part p (run_parts ps l)

  unfoldable pub run_query : Query → List N → List N
  unfolding run_parts
  run_query (query p ps pre agg) l = aggregated agg (sort_of p) (run_part p (run_parts ps l))

  chosen_fun :
      (t u : Term)
      → ◌≡◌ {A = N → Bool}
          (λ n. is_met (db.meets n) (and_term t u))
          (λ n. is_met (db.meets n) t && is_met (db.meets n) u)
  chosen_fun t u = fun_ext (λ n. is_met-and_term (db.meets n) t u)

  pub chosen_both : (t u : Term) (l : List N) → chosen (and_term t u) l ≡ chosen u (chosen t l)
  chosen_both t u l =
      rw (chosen_fun t u) (keep-keep (λ n. is_met (db.meets n) t) (λ n. is_met (db.meets n) u) l)

  pub chosen_all : (l : List N) → chosen all_term l ≡ l
  unfolding is_met
  chosen_all [] = refl
  chosen_all (n ∷ l) = ap (λ r. n ∷ r) (chosen_all l)

  pub run_parts-append :
      (ps qs : Parts) (l : List N)
      → run_parts (append_parts ps qs) l ≡ run_parts ps (run_parts qs l)
  unfolding run_parts
  run_parts-append no_parts qs l = refl
  run_parts-append (and_part p ps) qs l = ap (run_part p) (run_parts-append ps qs l)
