-- ===== src/Tasks/Progress.antt =====
-- The states of a running task and their names, and entering a state. `Moves` has the loop.
pub mod Moves
use cloudkeeper.Base.{
  ℕ, zero, suc, ◌<◌, ◌≤◌, String, ◌≡◌, ◌≢◌, refl, sym, subst, ap, ◌∙◌, Bool, true, false, not, ◌&&◌,
  ◌||◌, Option, none, some, List, [], ◌∷◌, ◌++◌, arith, inl, inr, ◌⊎◌, Bool-cases, Option-cases,
  some_inj, str_eq, str_eq_iff, str_eq_refl, if◌then◌else◌, member, length,
}
use cloudkeeper.Dict.{
  Dict, get, has, put, keys, IsDistinct, put-IsDistinct, has-put, has_of_get, keys-put_old,
  member-keys, get-none-has, get_of_not-has, get-put,
}
use cloudkeeper.Dict.Entries.{Entries, put-Entries}
use cloudkeeper.Subscriptions.Handler.{EventIndex}
use cloudkeeper.Tasks.Description.{TaskCommand, StepAction, perform_action}
use cloudkeeper.Tasks.Machine.{
  Machine, Fired, raised, stayed, moved, next_state_trigger, step_done, transitions_from,
}
use cloudkeeper.Tasks.Machine.Chain.{
  Differ, next_of, rank, rank-lt-length, next_of-member, rank-next_of, fire-next,
}
use cloudkeeper.Tasks.Running.{
  StepState, RunningTask, current_state, holds, end_name, begin_step, began, write_state,
  step_started, step_started_for, refreshed, Role, start_state, step_state, end_state,
  current_step_done, state_named,
}
use cloudkeeper.Tasks.Ops.{
  is_end, is_active, enter, after_next, next_state, current_commands, move_loop, move_to_next_state,
}

-- The names of the states: each stands once, each state object stands under its name, the end state
-- is the one named `task_end` and the last one, and the machine has the transitions of the chain.
pub record IsNamed (t : RunningTask) : Type 0 where
  pub distinct : IsDistinct t.states
  pub named : Entries (λ k s. (s.step.name ≡ k) × (is_end (some s) ≡ str_eq k end_name)) t.states
  pub known : has t.state t.states ≡ true
  pub has_end : has end_name t.states ≡ true
  pub last :
      (a : String)
      → member a (keys t.states) ≡ true
      → next_of (keys t.states) a ≡ none
      → a ≡ end_name
  pub chained : t.transitions ≡ transitions_from end_name (keys t.states)

pub keys-Differ {ℓ} : {V : Type ℓ} (d : Dict V) → IsDistinct d → Differ (keys d)
unfolding keys
keys-Differ [] h = tt
keys-Differ ((j, v) ∷ d) h = (member-keys j d ∙ h.0, keys-Differ d h.1)

-- Writing a state object back under its name keeps all this.
pub write_state-IsNamed :
    (t : RunningTask) (s r : StepState) (k : String)
    → IsNamed t
    → get k t.states ≡ some s
    → r.step.name ≡ s.step.name
    → is_end (some r) ≡ is_end (some s)
    → IsNamed (write_state r t) × (keys (write_state r t).states ≡ keys t.states)
unfolding write_state
write_state-IsNamed t s r k h found same role =
    let own : r.step.name ≡ k = same ∙ (h.named k s found).0 in
    let there : has r.step.name t.states ≡ true =
      subst (λ i. has i t.states ≡ true) (sym own) (has_of_get k s t.states found) in
    let unchanged = keys-put_old r.step.name r t.states there in
    (
      record {
        distinct = put-IsDistinct r.step.name r t.states h.distinct;
        named =
            put-Entries _ r.step.name r t.states
              (refl, role ∙ (h.named k s found).1 ∙ ap (λ i. str_eq i end_name) (sym own)) h.named;
        known = has-put r.step.name t.state r t.states ∙ rw h.known (or_true _);
        has_end = has-put r.step.name end_name r t.states ∙ rw h.has_end (or_true _);
        last = subst is_last (sym unchanged) h.last;
        chained = rw unchanged h.chained;
      },
      unchanged,
    )
  where
    or_true : (b : Bool) → (b || true) ≡ true
    or_true true = refl
    or_true false = refl

    is_last : List String → Type 0
    is_last l = (a : String) → member a l ≡ true → next_of l a ≡ none → a ≡ end_name

refreshed_same :
    (subs : EventIndex) (a : StepAction) (s : StepState)
    → ((refreshed subs a s).step ≡ s.step) × ((refreshed subs a s).role ≡ s.role)
unfolding refreshed
refreshed_same subs (perform_action m) s = (refl, refl)
refreshed_same subs _ s = (refl, refl)

step_started_same :
    (subs : EventIndex) (r : Role) (s : StepState)
    → ((step_started_for r subs s).step ≡ s.step) × ((step_started_for r subs s).role ≡ s.role)
unfolding step_started_for
step_started_same subs step_state s = refreshed_same subs s.step.action s
step_started_same subs _ s = (refl, refl)

-- What entering a state leaves alone.
pub record IsEntered (name : String) (t u : RunningTask) : Type 0 where
  pub named : IsNamed u
  pub at : u.state ≡ name
  pub names : keys u.states ≡ keys t.states
  pub error : u.in_error ≡ t.in_error
  pub messages : u.received ≡ t.received

module _ (machine : Machine) (utc_str : ℕ → String) (subs : EventIndex) (now : ℕ) where
  pub enter-IsEntered :
      (name : String) (t : RunningTask)
      → IsNamed t
      → has name t.states ≡ true
      → IsEntered name t (enter machine utc_str subs now name t)
  unfolding enter begin_step began step_started
  enter-IsEntered name t h there = elim (Option-cases (get name t.states)) [
    | inl missing ↦ absurd (clash (get-none-has name t.states missing))
    | inr (s, found) ↦
        let placed : RunningTask = record t { state = name; step_started_at = now } in
        let same = step_started_same subs s.role s in
        let (named, names) =
          write_state-IsNamed placed s (step_started_for s.role subs s) name
            (record {
              distinct = h.distinct;
              named = h.named;
              known = there;
              has_end = h.has_end;
              last = h.last;
              chained = h.chained;
            })
            found (ap (λ x. x.name) same.0) (ap end_role same.1) in
        rw found (
          unfold write_state in
          record { named = named; at = refl; names = names; error = refl; messages = refl })
  ]
    where
      clash : has name t.states ≡ false → ⊥
      clash e = cc

      end_role : Role → Bool
      end_role r = elim r [ start_state ↦ false | step_state ↦ false | end_state ↦ true ]
