-- ===== src/Tasks/Routing/Index.antt =====
-- The table of the triggers by message type.
use cloudkeeper.Base.{
  String, ◌≡◌, refl, sym, ap, ◌∙◌, List, [], ◌∷◌, ◌++◌, keep, str_eq, str_eq_iff, Bool-cases, inl,
  inr,
}
use cloudkeeper.Dict.{Dict, get, put, get-put}
use cloudkeeper.Tasks.Routing.{Registered, found_in, group_by, by_message_type}

append_nil {ℓ} : {A : Type ℓ} (l : List A) → l ++ [] ≡ l
append_nil [] = refl
append_nil (x ∷ l) = ap (λ r. x ∷ r) (append_nil l)

append_assoc {ℓ} : {A : Type ℓ} (a b c : List A) → (a ++ b) ++ c ≡ a ++ (b ++ c)
append_assoc [] b c = refl
append_assoc (x ∷ a) b c = ap (λ r. x ∷ r) (append_assoc a b c)

group_by-keep {ℓ} :
    {A : Type ℓ} (f : A → String) (k : String) (l : List A) (d : Dict (List A))
    → found_in (get k (group_by f l d)) ≡ found_in (get k d) ++ keep (λ x. str_eq (f x) k) l
unfolding group_by
group_by-keep f k [] d = sym (append_nil (found_in (get k d)))
group_by-keep f k (x ∷ l) d = elim (Bool-cases (str_eq (f x) k)) [
  | inl e ↦
      group_by-keep f k l (put (f x) (found_in (get (f x) d) ++ x ∷ []) d)
      ∙ rw (get-put (f x) k (found_in (get (f x) d) ++ x ∷ []) d, e)
          (ap (λ j. (found_in (get j d) ++ x ∷ []) ++ keep (λ y. str_eq (f y) k) l)
              ((str_eq_iff (f x) k).0 e)
            ∙ append_assoc (found_in (get k d)) (x ∷ []) (keep (λ y. str_eq (f y) k) l))
  | inr e ↦
      group_by-keep f k l (put (f x) (found_in (get (f x) d) ++ x ∷ []) d)
      ∙ rw (get-put (f x) k (found_in (get (f x) d) ++ x ∷ []) d, e) refl
]

-- What the table by message type has for a type are the registered triggers of this type, in the order in
-- which they were registered.
pub by_message_type-keep :
    (type : String) (l : List Registered)
    → found_in (get type (by_message_type l)) ≡ keep (λ r. str_eq r.message type) l
unfolding by_message_type get
by_message_type-keep type l = group_by-keep (λ r. r.message) type l []
