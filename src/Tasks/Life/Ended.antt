-- ===== src/Tasks/Life/Ended.antt =====
-- `end`, and tasks in the end state.
use cloudkeeper.Base.{
  ℕ, String, ◌≡◌, refl, subst, ap, ◌∙◌, true, false, not, Option, none, some, inl, inr, Bool-cases,
  Option-cases, str_eq, str_eq_refl,
}
use cloudkeeper.Dict.{get, has, get-none-has, keys, member-keys}
use cloudkeeper.Subscriptions.Handler.{EventIndex}
use cloudkeeper.Tasks.Machine.{Machine, moved, step_done, to_err_trigger}
use cloudkeeper.Tasks.Machine.Chain.{next_of, fire-to_err}
use cloudkeeper.Tasks.Running.{
  RunningTask, StepState, Role, start_state, step_state, end_state, holds, current_step_done,
  done_for, current_state, end_name,
}
use cloudkeeper.Tasks.Ops.{is_end, is_active, after_err, end_task}
use cloudkeeper.Tasks.Progress.{IsNamed, IsEntered, enter-IsEntered, keys-Differ}

pub is_end_at : (t : RunningTask) → IsNamed t → is_end (current_state t) ≡ str_eq t.state end_name
is_end_at t h = elim (Option-cases (get t.state t.states)) [
  | inl missing ↦ absurd (clash (get-none-has t.state t.states missing))
  | inr (s, found) ↦ rw found (h.named t.state s found).1
]
  where
    clash : has t.state t.states ≡ false → ⊥
    clash e = cc h.known

-- The end state is never done.
pub end_not_done :
    (t : RunningTask) → is_end (current_state t) ≡ true → holds t (step_done t.state) ≡ false
unfolding holds current_step_done done_for
end_not_done t e = by_state (current_state t) e
  where
    by_role :
        (s : StepState) (r : Role)
        → s.role ≡ r
        → is_end (some s) ≡ true
        → current_step_done s t ≡ false
    by_role s start_state e p = absurd (clash (rw e at p))
      where
        clash : false ≡ true → ⊥
        clash q = cc
    by_role s step_state e p = absurd (clash (rw e at p))
      where
        clash : false ≡ true → ⊥
        clash q = cc
    by_role s end_state e p = rw e refl

    by_state :
        (o : Option StepState)
        → is_end o ≡ true
        → elim o [ none ↦ false | some s ↦ current_step_done s t ] ≡ false
    by_state none p = refl
    by_state (some s) p = by_role s s.role refl p

-- In error, at the end, and not active.
pub record IsEnded (u : RunningTask) : Type 0 where
  pub failed : u.in_error ≡ true
  pub at : u.state ≡ end_name
  pub inactive : is_active u ≡ false
  pub named : IsNamed u

module _ (machine : Machine) (utc_str : ℕ → String) (subs : EventIndex) (now : ℕ) where
  -- `end` takes an active task whose states have their names, from whatever state it is in, to the end
  -- state, in error, and the task is not active any more. Its states keep their names.
  pub end_task-IsEnded :
      (t : RunningTask)
      → IsNamed t
      → is_active t ≡ true
      → IsEnded (end_task machine utc_str subs now t)
  unfolding end_task is_active after_err
  end_task-IsEnded t h active = elim (Bool-cases (is_end (current_state t))) [
    | inl e ↦ absurd (no e)
    | inr e ↦ elim (Option-cases (next_of (keys t.states) t.state)) [
      | inl p ↦ absurd (at_end e (h.last t.state (member-keys t.state t.states ∙ h.known) p))
      | inr (b, p) ↦
          rw (e, fired b p)
            (ended
              (enter-IsEntered machine utc_str subs now end_name failed failed_named h.has_end))
    ]
  ]
    where
      failed : RunningTask
      failed = record t { in_error = true }

      failed_named : IsNamed failed
      failed_named = record {
        distinct = h.distinct;
        named = h.named;
        known = h.known;
        has_end = h.has_end;
        last = h.last;
        chained = h.chained;
      }

      no : is_end (current_state t) ≡ true → ⊥
      no e = cc (subst (λ b. not b ≡ true) e active)

      at_end : is_end (current_state t) ≡ false → t.state ≡ end_name → ⊥
      at_end e p = cc (is_end_at t h, ap (λ i. str_eq i end_name) p, str_eq_refl end_name)

      fired :
          (b : String)
          → next_of (keys t.states) t.state ≡ some b
          → machine.fire to_err_trigger t.state t.transitions (holds failed) ≡ moved end_name
      fired b p =
          ap (λ tr. machine.fire to_err_trigger t.state tr (holds failed)) h.chained
          ∙ fire-to_err machine end_name t.state b (keys t.states) (holds failed)
              (keys-Differ t.states h.distinct) p (unfold holds in refl)

      ended : {u : RunningTask} → IsEntered end_name failed u → IsEnded u
      ended {u} i = record {
        failed = i.error;
        at = i.at;
        inactive = rw (is_end_at u i.named, i.at);
        named = i.named;
      }
