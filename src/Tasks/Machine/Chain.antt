-- ===== src/Tasks/Machine/Chain.antt =====
-- The transitions of a chain of states with different names: each state has one next state.
use cloudkeeper.Base.{
  ℕ, ◌<◌, String, ◌≡◌, refl, sym, subst, ap, ◌∙◌, Bool, true, false, ◌||◌, Option, none, some, List,
  [], ◌∷◌, arith, inl, inr, Bool-cases, some_inj, str_eq, str_eq_iff, if◌then◌else◌, keep, length,
  member,
}
use cloudkeeper.Tasks.Machine.{
  Guard, step_done, Transition, raised, stayed, moved, answer_of, is_candidate, Machine,
  next_state_trigger, to_err_trigger, transitions_from, is_error,
}

-- No name stands twice in the list.
abbrev pub Differ : List String → Type 0
Differ [] = Unit
Differ (a ∷ l) = (member a l ≡ false) × Differ l

-- The name behind a name.
unfoldable pub next_of : List String → String → Option String
next_of [] a = none
next_of (x ∷ []) a = none
next_of (x ∷ y ∷ l) a = let rest = next_of (y ∷ l) a in if str_eq x a then some y else rest

-- How many names stand behind a name.
unfoldable pub rank : List String → String → ℕ
rank [] a = 0
rank (x ∷ l) a = let rest = rank l a in if str_eq x a then length l else rest

next_of_absent : (l : List String) (a : String) → member a l ≡ false → next_of l a ≡ none
unfolding next_of
next_of_absent [] a h = refl
next_of_absent (x ∷ []) a h = refl
next_of_absent (x ∷ y ∷ l) a h = elim (Bool-cases (str_eq x a)) [
  | inl e ↦ absurd (clash (rw e at h))
  | inr e ↦ rw e (next_of_absent (y ∷ l) a (rw e at h))
]
  where
    clash : true ≡ false → ⊥
    clash p = cc

pub rank-lt-length : (l : List String) (a : String) → member a l ≡ true → rank l a < length l
unfolding rank
rank-lt-length [] a h = cc
rank-lt-length (x ∷ l) a h = elim (Bool-cases (str_eq x a)) [
  | inl e ↦ rw e (omega arith)
  | inr e ↦ rw e (omega (arith, rank-lt-length l a (rw e at h)))
]

pub next_of-member : (l : List String) (a b : String) → next_of l a ≡ some b → member b l ≡ true
unfolding next_of
next_of-member [] a b h = cc
next_of-member (x ∷ []) a b h = cc
next_of-member (x ∷ y ∷ l) a b h = elim (Bool-cases (str_eq x a)) [
  | inl e ↦ found (some_inj (rw e at h))
  | inr e ↦ or_right (str_eq x b) (next_of-member (y ∷ l) a b (rw e at h))
]
  where
    or_right : (c : Bool) → member b (y ∷ l) ≡ true → (c || member b (y ∷ l)) ≡ true
    or_right true p = refl
    or_right false p = p

    found : y ≡ b → member b (x ∷ y ∷ l) ≡ true
    found e = ground (arith, str_eq_iff y b)

-- The next name has fewer names behind it.
pub rank-next_of :
    (l : List String) (a b : String) → Differ l → next_of l a ≡ some b → rank l b < rank l a
unfolding next_of rank
rank-next_of [] a b d h = cc
rank-next_of (x ∷ []) a b d h = cc
rank-next_of (x ∷ y ∷ l) a b d h = elim (Bool-cases (str_eq x a)) [
  | inl e ↦ first_one e (some_inj (rw e at h))
  | inr e ↦ elim (Bool-cases (str_eq x b)) [
    | inl f ↦ absurd (clash f (next_of-member (y ∷ l) a b (rw e at h)))
    | inr f ↦ rw (e, f) (rank-next_of (y ∷ l) a b d.1 (rw e at h))
  ]
]
  where
    first_one : str_eq x a ≡ true → y ≡ b → rank (x ∷ y ∷ l) b < rank (x ∷ y ∷ l) a
    first_one e f = ground (arith, d.0, str_eq_iff y b, str_eq_iff y x, str_eq_iff x b)

    clash : str_eq x b ≡ true → member b (y ∷ l) ≡ true → ⊥
    clash f m = cc (d.0, subst (λ z. member z (y ∷ l) ≡ true) (sym ((str_eq_iff x b).0 f)) m)

abbrev next_transition : String → Option String → List Transition
next_transition a none = []
next_transition a (some b) =
    record { trigger = next_state_trigger; source = a; dest = b; guard = step_done a } ∷ []

candidates-next :
    (last a : String) (l : List String)
    → Differ l
    → keep (is_candidate next_state_trigger a) (transitions_from last l)
      ≡ next_transition a (next_of l a)
unfolding transitions_from next_of
candidates-next last a [] d = refl
candidates-next last a (x ∷ []) d = refl
candidates-next last a (x ∷ y ∷ l) d = elim (Bool-cases (str_eq x a)) [
  | inr e ↦ rw e (candidates-next last a (y ∷ l) d.1)
  | inl e ↦ rw e (
      let same = (str_eq_iff x a).0 e in
      let absent = next_of_absent (y ∷ l) a (subst (λ z. member z (y ∷ l) ≡ false) same d.0) in
      candidates_first same (candidates-next last a (y ∷ l) d.1 ∙ ap (next_transition a) absent))
]
  where
    candidates_first :
        x ≡ a
        → keep (is_candidate next_state_trigger a) (transitions_from last (y ∷ l)) ≡ []
        → record { trigger = next_state_trigger; source = x; dest = y; guard = step_done x }
            ∷ keep (is_candidate next_state_trigger a) (transitions_from last (y ∷ l))
          ≡ next_transition a (some y)
    candidates_first same none_left = rw (none_left, same)

-- In a chain of different names, the trigger `_next_state` moves to the next state if the step of the
-- current one is done. At the last state it raises.
pub fire-next :
    (machine : Machine) (last a : String) (l : List String) (holds : Guard → Bool)
    → Differ l
    → machine.fire next_state_trigger a (transitions_from last l) holds ≡ elim (next_of l a) [
      | none ↦ raised
      | some b ↦ if holds (step_done a) then moved b else stayed
    ]
fire-next machine last a l holds d =
    machine.fire_lem next_state_trigger a (transitions_from last l) holds
    ∙ ap (answer_of holds) (candidates-next last a l d)
    ∙ answer (next_of l a)
  where
    answer :
        (o : Option String)
        → answer_of holds (next_transition a o)
          ≡ elim o [ none ↦ raised | some b ↦ if holds (step_done a) then moved b else stayed ]
    answer none = refl
    answer (some b) = ground arith

abbrev err_transition : String → String → Option String → List Transition
err_transition last a none = []
err_transition last a (some b) =
    record { trigger = to_err_trigger; source = a; dest = last; guard = is_error } ∷ []

candidates-err :
    (last a : String) (l : List String)
    → Differ l
    → keep (is_candidate to_err_trigger a) (transitions_from last l)
      ≡ err_transition last a (next_of l a)
unfolding transitions_from next_of
candidates-err last a [] d = refl
candidates-err last a (x ∷ []) d = refl
candidates-err last a (x ∷ y ∷ l) d = elim (Bool-cases (str_eq x a)) [
  | inr e ↦ rw e (candidates-err last a (y ∷ l) d.1)
  | inl e ↦ rw e (
      let same = (str_eq_iff x a).0 e in
      let absent = next_of_absent (y ∷ l) a (subst (λ z. member z (y ∷ l) ≡ false) same d.0) in
      candidates_first same (candidates-err last a (y ∷ l) d.1 ∙ ap (err_transition last a) absent))
]
  where
    candidates_first :
        x ≡ a
        → keep (is_candidate to_err_trigger a) (transitions_from last (y ∷ l)) ≡ []
        → record { trigger = to_err_trigger; source = x; dest = last; guard = is_error }
            ∷ keep (is_candidate to_err_trigger a) (transitions_from last (y ∷ l))
          ≡ err_transition last a (some y)
    candidates_first same none_left = rw (none_left, same)

-- From any state but the last the trigger `_to_err` moves to the last one if the task is in error.
pub fire-to_err :
    (machine : Machine) (last a b : String) (l : List String) (holds : Guard → Bool)
    → Differ l
    → next_of l a ≡ some b
    → holds is_error ≡ true
    → machine.fire to_err_trigger a (transitions_from last l) holds ≡ moved last
fire-to_err machine last a b l holds d e failed =
    machine.fire_lem to_err_trigger a (transitions_from last l) holds
    ∙ ap (answer_of holds) (candidates-err last a l d ∙ ap (err_transition last a) e)
    ∙ ground (arith, failed)
