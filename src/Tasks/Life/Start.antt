-- ===== src/Tasks/Life/Start.antt =====
-- `RunningTask.__init__`: a new task is sound, provided that no two of its states have the same name.
use cloudkeeper.Base.{
  ℕ, String, ◌≡◌, refl, sym, subst, ap, ◌∙◌, Bool, true, false, ◌||◌, none, some, List, [], ◌∷◌,
  ◌++◌, map, inl, inr, Bool-cases, str_eq, str_eq_refl, str_eq_iff, member, All,
}
use cloudkeeper.Dict.{Dict, has, put, keys, member-keys, keys-put_new, IsDistinct}
use cloudkeeper.Dict.Entries.{Entries, put-Entries, Entries-nil}
use cloudkeeper.Subscriptions.Handler.{EventIndex}
use cloudkeeper.Tasks.Description.{Step, TaskDescription, make_step}
use cloudkeeper.Tasks.Machine.{Machine, transitions_from}
use cloudkeeper.Tasks.Machine.Chain.{Differ, next_of}
use cloudkeeper.Tasks.Running.{
  StepState, new_task, all_states, add_states, from_step, special_state, end_name, end_state,
  end_event,
}
use cloudkeeper.Tasks.Ops.{is_end}
use cloudkeeper.Tasks.Life.Sound.{IsSound, call_all-IsSound}
use cloudkeeper.Tasks.Life.{Call, call_all}

abbrev name_of : StepState → String
name_of s = s.step.name

append_assoc : (a b c : List String) → (a ++ b) ++ c ≡ a ++ (b ++ c)
append_assoc [] b c = refl
append_assoc (x ∷ a) b c = ap (λ l. x ∷ l) (append_assoc a b c)

append-nil : (a : List String) → a ++ [] ≡ a
append-nil [] = refl
append-nil (x ∷ a) = ap (λ l. x ∷ l) (append-nil a)

member_middle : (x : String) (a b : List String) → member x (a ++ x ∷ b) ≡ true
member_middle x [] b = rw (str_eq_refl x)
member_middle x (y ∷ a) b = rw (member_middle x a b, or_true (str_eq y x))
  where
    or_true : (b : Bool) → (b || true) ≡ true
    or_true true = refl
    or_true false = refl

Differ-absent : (x : String) (a b : List String) → Differ (a ++ x ∷ b) → member x a ≡ false
Differ-absent x [] b h = refl
Differ-absent x (y ∷ a) b h = elim (Bool-cases (str_eq y x)) [
  | inl e ↦ absurd (clash ((str_eq_iff y x).0 e))
  | inr e ↦ rw e (Differ-absent x a b h.1)
]
  where
    clash : y ≡ x → ⊥
    clash p = cc (member_middle x a b, subst (λ z. member z (a ++ x ∷ b) ≡ false) p h.0)

keys-add_states :
    (l : List StepState) (d : Dict StepState)
    → Differ (keys d ++ map name_of l)
    → keys (add_states l d) ≡ keys d ++ map name_of l
unfolding add_states
keys-add_states [] d h = sym (append-nil (keys d))
keys-add_states (s ∷ l) d h =
    let absent =
      sym (member-keys s.step.name d) ∙ Differ-absent s.step.name (keys d) (map name_of l) h in
    let placed =
      ap (λ k. k ++ map name_of l) (keys-put_new s.step.name s d absent)
      ∙ append_assoc (keys d) (s.step.name ∷ []) (map name_of l) in
    keys-add_states l (put s.step.name s d) (subst Differ (sym placed) h) ∙ placed

keys-IsDistinct {ℓ} : {V : Type ℓ} (d : Dict V) → Differ (keys d) → IsDistinct d
unfolding keys
keys-IsDistinct [] h = tt
keys-IsDistinct ((j, v) ∷ d) h = (sym (member-keys j d) ∙ h.0, keys-IsDistinct d h.1)

add_states-Entries :
    (P : String → StepState → Type 0) (l : List StepState) (d : Dict StepState)
    → All (λ s. P s.step.name s) l
    → Entries P d
    → Entries P (add_states l d)
unfolding add_states
add_states-Entries P [] d h old = old
add_states-Entries P (s ∷ l) d h old =
    add_states-Entries P l (put s.step.name s d) h.1 (put-Entries P s.step.name s d h.0 old)

next_of_last :
    (e a : String) (l : List String)
    → member a (l ++ e ∷ []) ≡ true
    → next_of (l ++ e ∷ []) a ≡ none
    → a ≡ e
unfolding next_of
next_of_last e a [] m h = elim (Bool-cases (str_eq e a)) [
  | inl same ↦ sym ((str_eq_iff e a).0 same)
  | inr other ↦ cc
]
next_of_last e a (x ∷ []) m h = elim (Bool-cases (str_eq x a)) [
  | inl same ↦ absurd (some_none (rw same at h))
  | inr other ↦ next_of_last e a [] (rw other at m) refl
]
  where
    some_none : some e ≡ none → ⊥
    some_none p = cc
next_of_last e a (x ∷ y ∷ l) m h = elim (Bool-cases (str_eq x a)) [
  | inl same ↦ absurd (some_none (rw same at h))
  | inr other ↦ next_of_last e a (y ∷ l) (rw other at m) (rw other at h)
]
  where
    some_none : some y ≡ none → ⊥
    some_none p = cc

-- The names of a task's states.
abbrev pub state_names : TaskDescription → List String
state_names d = "task_start" ∷ (map (λ s. s.name) d.steps ++ end_name ∷ [])

names-all_states :
    (d : TaskDescription) (subs : EventIndex) → map name_of (all_states d subs) ≡ state_names d
unfolding all_states special_state from_step make_step
names-all_states d subs = ap (λ l. "task_start" ∷ l) (of_steps d.steps)
  where
    of_steps :
        (l : List Step)
        → map name_of (map (from_step subs) l ++ special_state end_state end_name end_event ∷ [])
          ≡ map (λ s. s.name) l ++ end_name ∷ []
    of_steps [] = refl
    of_steps (x ∷ l) = ap (λ k. x.name ∷ k) (of_steps l)

IsRightly : String → StepState → Type 0
IsRightly k s = (s.step.name ≡ k) × (is_end (some s) ≡ str_eq k end_name)

all_states-IsRightly :
    (d : TaskDescription) (subs : EventIndex)
    → Differ (state_names d)
    → All (λ s. IsRightly s.step.name s) (all_states d subs)
unfolding all_states special_state from_step make_step IsRightly
all_states-IsRightly d subs h = ((refl, refl), of_steps d.steps h.1)
  where
    other_name :
        (x : String) (l : List String)
        → member x (l ++ end_name ∷ []) ≡ false
        → false ≡ str_eq x end_name
    other_name x l p = elim (Bool-cases (str_eq x end_name)) [
      | inr e ↦ sym e
      | inl e ↦ absurd (clash ((str_eq_iff x end_name).0 e))
    ]
      where
        clash : x ≡ end_name → ⊥
        clash e = cc (
          p,
          subst (λ z. member z (l ++ end_name ∷ []) ≡ true) (sym e) (member_middle end_name l []),
        )

    of_steps :
        (l : List Step)
        → Differ (map (λ s. s.name) l ++ end_name ∷ [])
        → All
            (λ s. IsRightly s.step.name s)
            (map (from_step subs) l ++ special_state end_state end_name end_event ∷ [])
    of_steps [] k = ((refl, refl), tt)
    of_steps (x ∷ l) k = ((refl, other_name x.name (map (λ s. s.name) l) k.0), of_steps l k.1)

pub new_task-IsSound :
    (uid : String) (d : TaskDescription) (subs : EventIndex) (now : ℕ)
    → Differ (state_names d)
    → IsSound (new_task uid d subs now)
unfolding new_task IsRightly keys
new_task-IsSound uid d subs now h = record {
  names = record {
    distinct = keys-IsDistinct states (subst Differ (sym same) h);
    named =
        add_states-Entries IsRightly (all_states d subs) [] (all_states-IsRightly d subs h)
          (Entries-nil IsRightly);
    known = present "task_start" (rw (str_eq_refl "task_start"));
    has_end =
        present end_name (member_middle end_name ("task_start" ∷ map (λ s. s.name) d.steps) []);
    last =
        subst (λ l. (a : String) → member a l ≡ true → next_of l a ≡ none → a ≡ end_name) (sym same)
          (λ a. next_of_last end_name a ("task_start" ∷ map (λ s. s.name) d.steps));
    chained = ap (transitions_from end_name) (names-all_states d subs ∙ sym same);
  };
  failed_ended = λ p. cc;
}
  where
    states : Dict StepState
    states = add_states (all_states d subs) []

    same : keys states ≡ state_names d
    same =
        keys-add_states (all_states d subs) [] (subst Differ (sym (names-all_states d subs)) h)
        ∙ names-all_states d subs

    present : (k : String) → member k (state_names d) ≡ true → has k states ≡ true
    present k p = sym (member-keys k states) ∙ subst (λ l. member k l ≡ true) (sym same) p

-- Let no two states of a task description have the same name. Whatever calls a task of it gets, at
-- whatever time and with whatever subscribers, each of its states stands once, under its own name, the
-- state that it is in is one of them, the end state is the last one, and if the task is in error it is
-- in the end state.
pub task-IsSound :
    (machine : Machine) (utc_str : ℕ → String) (uid : String) (d : TaskDescription)
    (subs : EventIndex) (now : ℕ) (l : List Call)
    → Differ (state_names d)
    → IsSound (call_all machine utc_str l (new_task uid d subs now))
task-IsSound machine utc_str uid d subs now l h =
    call_all-IsSound machine utc_str l (new_task uid d subs now) (new_task-IsSound uid d subs now h)
