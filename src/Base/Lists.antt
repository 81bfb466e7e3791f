-- ===== src/Base/Lists.antt =====
-- Lists measured by native numbers, tested by Boolean functions, and the stable sort that Python's
-- `sorted` is.
use Prim.Native.Nat.{ℕ, suc}
use Prim.Native.String.{String}
use mathlib.Core.Path.{◌≡◌, refl, sym, ap, ◌∙◌, subst}
use mathlib.Core.Logic.{◌⊎◌, inl, inr}
use mathlib.Core.Bool.{Bool, true, false, ◌||◌, ◌&&◌}
use mathlib.Core.List.{List, [], ◌∷◌, ◌++◌}
use mathlib.Core.Option.{Option, none, some}
use text.Mathlib.Text.{◌==◌}
use text.Mathlib.TextEquality.{eq_iff}
use cloudkeeper.Base.Tests.{if◌then◌else◌, Bool-cases}

module _ {ℓ} {A : Type ℓ} where
  abbrev pub length : List A → ℕ
  length [] = 0
  length (x ∷ xs) = suc (length xs)

  abbrev pub head : List A → Option A
  head [] = none
  head (x ∷ xs) = some x

  -- [x for x in xs if p(x)]
  abbrev pub keep : (A → Bool) → List A → List A
  keep p [] = []
  keep p (x ∷ xs) = let rest = keep p xs in if p x then x ∷ rest else rest

  -- util.exist
  abbrev pub exist : (A → Bool) → List A → Bool
  exist p [] = false
  exist p (x ∷ xs) = p x || exist p xs

  abbrev pub every : (A → Bool) → List A → Bool
  every p [] = true
  every p (x ∷ xs) = p x && every p xs

  -- util.first
  abbrev pub first : (A → Bool) → List A → Option A
  first p [] = none
  first p (x ∷ xs) = let rest = first p xs in if p x then some x else rest

  abbrev pub All {κ} : (A → Type κ) → List A → Type κ
  All P [] = Unit
  All P (x ∷ xs) = P x × All P xs

  pub All-map {κ μ} :
      (P : A → Type κ) (Q : A → Type μ) (xs : List A) → ((x : A) → P x → Q x) → All P xs → All Q xs
  All-map P Q [] f h = tt
  All-map P Q (x ∷ xs) f h = (f x h.0, All-map P Q xs f h.1)

  pub All-append {κ} : (P : A → Type κ) (xs ys : List A) → All P xs → All P ys → All P (xs ++ ys)
  All-append P [] ys h k = k
  All-append P (x ∷ xs) ys h k = (h.0, All-append P xs ys h.1 k)

module _ {A : Type 0} where
  abbrev pub IsIn : A → List A → Type 0
  IsIn a [] = ⊥
  IsIn a (x ∷ xs) = (x ≡ a) ⊎ IsIn a xs

  pub keep-All :
      (P : A → Type 0) (p : A → Bool) (xs : List A)
      → All P (keep p xs)
      → All (λ x. p x ≡ true → P x) xs
  keep-All P p [] h = tt
  keep-All P p (x ∷ xs) h = elim (Bool-cases (p x)) [
    | inl e ↦ let h' = rw e at h in (λ _. h'.0, keep-All P p xs h'.1)
    | inr e ↦ (λ e'. cc, keep-All P p xs (rw e at h))
  ]

  pub All-keep :
      (P : A → Type 0) (p : A → Bool) (xs : List A)
      → All (λ x. p x ≡ true → P x) xs
      → All P (keep p xs)
  All-keep P p [] h = tt
  All-keep P p (x ∷ xs) h = elim (Bool-cases (p x)) [
    | inl e ↦ rw e (h.0 e, All-keep P p xs h.1)
    | inr e ↦ rw e (All-keep P p xs h.1)
  ]

  pub IsIn-keep :
      (a : A) (p : A → Bool) (xs : List A) → IsIn a (keep p xs) → IsIn a xs × (p a ≡ true)
  IsIn-keep a p [] h = absurd h
  IsIn-keep a p (x ∷ xs) h = elim (Bool-cases (p x)) [
    | inl e ↦ elim (let h' : IsIn a (x ∷ keep p xs) = rw e at h in h') [
      | inl same ↦ (inl same, rw same at e)
      | inr later ↦ let found = IsIn-keep a p xs later in (inr found.0, found.1)
    ]
    | inr e ↦ let found = IsIn-keep a p xs (rw e at h) in (inr found.0, found.1)
  ]

  pub keep-nil : (p : A → Bool) (xs : List A) → All (λ x. p x ≡ false) xs → keep p xs ≡ []
  keep-nil p [] h = refl
  keep-nil p (x ∷ xs) h = rw h.0 (keep-nil p xs h.1)

  pub keep-IsIn : (a : A) (p : A → Bool) (xs : List A) → IsIn a xs → p a ≡ true → IsIn a (keep p xs)
  keep-IsIn a p [] h good = elim h [ ]
  keep-IsIn a p (x ∷ xs) (inl same) good = rw (same, good) (inl refl)
  keep-IsIn a p (x ∷ xs) (inr later) good = elim (Bool-cases (p x)) [
    | inl e ↦ rw e (inr (keep-IsIn a p xs later good))
    | inr e ↦ rw e (keep-IsIn a p xs later good)
  ]

  pub exist_of_IsIn :
      (a : A) (p : A → Bool) (xs : List A) → IsIn a xs → p a ≡ true → exist p xs ≡ true
  exist_of_IsIn a p [] m good = elim m [ ]
  exist_of_IsIn a p (x ∷ xs) (inl same) good = rw (same, good) refl
  exist_of_IsIn a p (x ∷ xs) (inr later) good = or_right (p x) (exist_of_IsIn a p xs later good)
    where
      or_right : (b : Bool) {c : Bool} → c ≡ true → (b || c) ≡ true
      or_right true e = refl
      or_right false e = e

  pub IsIn-append_left : (a : A) (xs ys : List A) → IsIn a xs → IsIn a (xs ++ ys)
  IsIn-append_left a [] ys m = elim m [ ]
  IsIn-append_left a (x ∷ xs) ys (inl same) = inl same
  IsIn-append_left a (x ∷ xs) ys (inr later) = inr (IsIn-append_left a xs ys later)

  pub IsIn-append_right : (a : A) (xs ys : List A) → IsIn a ys → IsIn a (xs ++ ys)
  IsIn-append_right a [] ys m = m
  IsIn-append_right a (x ∷ xs) ys m = inr (IsIn-append_right a xs ys m)

  pub IsIn-append : (a : A) (xs ys : List A) → IsIn a (xs ++ ys) → IsIn a xs ⊎ IsIn a ys
  IsIn-append a [] ys m = inr m
  IsIn-append a (x ∷ xs) ys (inl same) = inl (inl same)
  IsIn-append a (x ∷ xs) ys (inr later) = elim (IsIn-append a xs ys later) [
    | inl m ↦ inl (inr m)
    | inr m ↦ inr m
  ]

  pub All-IsIn : (P : A → Type 0) (a : A) (xs : List A) → All P xs → IsIn a xs → P a
  All-IsIn P a [] h m = elim m [ ]
  All-IsIn P a (x ∷ xs) h (inl same) = subst P same h.0
  All-IsIn P a (x ∷ xs) h (inr later) = All-IsIn P a xs h.1 later

  pub All-of_IsIn : (P : A → Type 0) (xs : List A) → ((a : A) → IsIn a xs → P a) → All P xs
  All-of_IsIn P [] h = tt
  All-of_IsIn P (x ∷ xs) h = (h x (inl refl), All-of_IsIn P xs (λ a m. h a (inr m)))

-- value in list, for texts
abbrev pub member : String → List String → Bool
member a [] = false
member a (x ∷ xs) = x == a || member a xs

false_and : (b c : Bool) → c ≡ false → (b && c) ≡ c
false_and true c h = refl
false_and false c h = sym h

pub member-keep :
    (a : String) (p : String → Bool) (xs : List String)
    → member a (keep p xs) ≡ (member a xs && p a)
member-keep a p [] = refl
member-keep a p (x ∷ xs) = elim (Bool-cases (x == a)) [
  | inl same ↦ elim (Bool-cases (p x)) [
    | inl e ↦ rw (e, same) (sym e ∙ ap p ((eq_iff x a).0 same))
    | inr e ↦
        rw (e, same)
          (member-keep a p xs
            ∙ false_and (member a xs) (p a) (sym (ap p ((eq_iff x a).0 same)) ∙ e))
  ]
  | inr other ↦ elim (Bool-cases (p x)) [
    | inl e ↦ rw (e, other) (member-keep a p xs)
    | inr e ↦ rw (e, other) (member-keep a p xs)
  ]
]
