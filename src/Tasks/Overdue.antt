-- ===== src/Tasks/Overdue.antt =====
-- resotocore/core/task/task_handler.py: `check_overdue_tasks`, what it does to one task.
use cloudkeeper.Base.{
  ℕ, ◌+◌, ◌<◌, ◌≤◌, String, ◌≡◌, ◌≢◌, refl, sym, subst, ap, ◌∙◌, true, false, not, Option, none,
  some, List, [], arith, inl, inr, str_eq, str_eq_refl, ltb, if◌then◌else◌,
}
use cloudkeeper.Dict.{get-put, member-keys}
use cloudkeeper.Subscriptions.Handler.{EventIndex}
use cloudkeeper.Tasks.Description.{
  TaskCommand, StepErrorBehaviour, continue, stop, StepAction, perform_action, wait_for_event,
  execute_command, emit_event,
}
use cloudkeeper.Tasks.Machine.{Machine, step_done}
use cloudkeeper.Tasks.Machine.Chain.{rank}
use cloudkeeper.Tasks.Running.{
  RunningTask, StepState, step_state, current_state, holds, current_step_done, done_for,
  step_done_for, write_state, timeout_of, end_name,
}
use cloudkeeper.Tasks.Ops.{
  is_end, is_active, end_task, move_to_next_state, check_timeout, check_state,
}
use cloudkeeper.Tasks.Progress.{IsNamed, write_state-IsNamed}
use cloudkeeper.Tasks.Progress.Moves.{
  IsStepDone, states_left, IsStuck, Advance, here, onward, move_to_next_state-advances,
}
use cloudkeeper.Tasks.Life.Ended.{IsEnded, end_task-IsEnded, is_end_at}

active_away : (t : RunningTask) → IsNamed t → is_active t ≡ true → t.state ≢ end_name
unfolding is_active
active_away t h active e = cc (subst (λ b. not b ≡ true) at active)
  where
    at : is_end (current_state t) ≡ true
    at = is_end_at t h ∙ rw e

abbrev late_of : StepState → StepState
late_of s = record s { timed_out = true }

-- A task whose current step has run out of time.
pub record IsOverdue (subs : EventIndex) (now : ℕ) (s : StepState) (t : RunningTask) : Type 0 where
  pub current : current_state t ≡ some s
  pub active : is_active t ≡ true
  pub late : t.step_started_at + timeout_of subs s < now

written_state :
    (s : StepState) (t : RunningTask)
    → IsNamed t
    → current_state t ≡ some s
    → current_state (write_state (late_of s) t) ≡ some (late_of s)
unfolding write_state
written_state s t h e =
    rw (get-put, ap (λ k. str_eq k t.state) (h.named t.state s e).0, str_eq_refl t.state)

-- A step that waits for messages.
abbrev pub IsAwaiting : StepAction → Type 0
IsAwaiting (perform_action type) = Unit
IsAwaiting (wait_for_event type filter) = Unit
IsAwaiting (emit_event m) = ⊥
IsAwaiting (execute_command c) = ⊥

module _ (machine : Machine) (utc_str : ℕ → String) (subs : EventIndex) (now : ℕ) where
  unfoldable pub on_overdue : StepErrorBehaviour → RunningTask → RunningTask × List TaskCommand
  on_overdue continue t = move_to_next_state machine utc_str subs now t
  on_overdue stop t = (end_task machine utc_str subs now t, [])

  unfoldable pub behaviour_of : Option StepState → StepErrorBehaviour
  behaviour_of none = stop
  behaviour_of (some s) = s.step.on_error

  -- One round of the loop of `check_overdue_tasks`, without the deletion of a task that is not active.
  unfoldable pub check_overdue : RunningTask → RunningTask × List TaskCommand
  unfolding on_overdue behaviour_of
  check_overdue t =
      let (u, late) = check_timeout machine utc_str subs now t in
      if is_active t
      then if late then on_overdue (behaviour_of (current_state u)) u else (u, [])
      else (t, [])

  Advance-states_left :
      {t u : RunningTask} {commands : List TaskCommand}
      → Advance machine utc_str subs now t u commands
      → states_left u ≤ states_left t
  Advance-states_left here = omega arith
  Advance-states_left (onward f a) = omega (arith, f.fewer, Advance-states_left a)

  -- A sound task whose step is done moves on, if the task is active.
  pub done_moves :
      (t : RunningTask)
      → IsNamed t
      → is_active t ≡ true
      → IsStepDone t
      → states_left (move_to_next_state machine utc_str subs now t).0 < states_left t
  done_moves t h active done = by_advance refl moved.0 moved.1
    where
      moved :
          Advance machine utc_str subs now t
            (move_to_next_state machine utc_str subs now t).0
            (move_to_next_state machine utc_str subs now t).1
          × IsStuck machine utc_str subs now (move_to_next_state machine utc_str subs now t).0
      moved = move_to_next_state-advances machine utc_str subs now t h

      clash : holds t (step_done t.state) ≡ false → ⊥
      clash waits = cc (done, waits)

      stuck_here : IsStuck machine utc_str subs now t → ⊥
      stuck_here stuck = elim stuck.reason [
        | inr waits ↦ clash waits
        | inl p ↦ active_away t h active (h.last t.state (member-keys t.state t.states ∙ h.known) p)
      ]

      by_advance :
          {u v : RunningTask} {commands : List TaskCommand}
          → u ≡ t
          → Advance machine utc_str subs now u v commands
          → IsStuck machine utc_str subs now v
          → states_left v < states_left u
      by_advance e here stuck =
          absurd (stuck_here (subst (IsStuck machine utc_str subs now) e stuck))
      by_advance e (onward f a) stuck = omega (arith, f.fewer, Advance-states_left a)

  check_overdue-late :
      (s : StepState) (t : RunningTask) (b : StepErrorBehaviour)
      → IsOverdue subs now s t
      → current_state (write_state (late_of s) t) ≡ some (late_of s)
      → s.step.on_error ≡ b
      → check_overdue t ≡ on_overdue b (write_state (late_of s) t)
  unfolding check_overdue check_timeout check_state behaviour_of
  check_overdue-late s t b o written e =
      rw (o.active, o.current, is_late) (rw written refl)
      ∙ ap (λ x. on_overdue x (write_state (late_of s) t)) e
    where
      is_late : ltb (t.step_started_at + timeout_of subs s) now ≡ true
      is_late = ground (arith, o.late)

  late_named :
      (s : StepState) (t : RunningTask)
      → IsNamed t
      → IsOverdue subs now s t
      → IsNamed (write_state (late_of s) t)
  late_named s t h o = (write_state-IsNamed t s (late_of s) t.state h o.current refl refl).0

  late_active :
      (s : StepState) (t : RunningTask)
      → IsNamed t
      → IsOverdue subs now s t
      → is_active (write_state (late_of s) t) ≡ true
  unfolding is_active
  late_active s t h o =
      ap (λ x. not (is_end x)) (written_state s t h o.current)
      ∙ sym (ap (λ x. not (is_end x)) o.current)
      ∙ o.active

  late_left :
      (s : StepState) (t : RunningTask)
      → IsNamed t
      → IsOverdue subs now s t
      → states_left (write_state (late_of s) t) ≡ states_left t
  unfolding write_state
  late_left s t h o =
      ap (λ k. rank k t.state)
        (unfold write_state in
          (write_state-IsNamed t s (late_of s) t.state h o.current refl refl).1)

  late_holds :
      (s : StepState) (t : RunningTask)
      → IsNamed t
      → IsOverdue subs now s t
      → holds (write_state (late_of s) t) (step_done (write_state (late_of s) t).state)
        ≡ current_step_done (late_of s) (write_state (late_of s) t)
  unfolding holds
  late_holds s t h o =
      ap (λ x. elim x [ none ↦ false | some r ↦ current_step_done r (write_state (late_of s) t) ])
        (written_state s t h o.current)

  -- A task that is active and whose step has run out of time: if the step says to stop on an error, the
  -- task ends, in error.
  pub check_overdue_stops :
      (s : StepState) (t : RunningTask)
      → IsNamed t
      → IsOverdue subs now s t
      → s.step.on_error ≡ stop
      → IsEnded (check_overdue t).0
  unfolding on_overdue
  check_overdue_stops s t h o e =
      subst (λ r. IsEnded r.0)
        (sym (check_overdue-late s t stop o (written_state s t h o.current) e))
        (end_task-IsEnded machine utc_str subs now (write_state (late_of s) t) (late_named s t h o)
          (late_active s t h o))

  -- What a step that performs an action or waits for an event does when it is late.
  done_late :
      (s : StepState) (t : RunningTask) (a : StepAction)
      → s.role ≡ step_state
      → s.step.action ≡ a
      → IsAwaiting a
      → current_step_done (late_of s) t ≡ true
  unfolding current_step_done done_for step_done_for
  done_late s t (perform_action type) role acts w = rw (role, acts)
  done_late s t (wait_for_event type filter) role acts w = rw (role, acts)
  done_late s t (emit_event m) role acts w = absurd w
  done_late s t (execute_command c) role acts w = absurd w

  -- A task that is active and whose step has run out of time: if the step performs an action or waits
  -- for an event, and says to continue on an error, the task goes forward.
  pub check_overdue_continues :
      (s : StepState) (t : RunningTask)
      → IsNamed t
      → IsOverdue subs now s t
      → s.step.on_error ≡ continue
      → s.role ≡ step_state
      → IsAwaiting s.step.action
      → states_left (check_overdue t).0 < states_left t
  unfolding on_overdue
  check_overdue_continues s t h o e role w =
      subst (λ r. states_left r.0 < states_left t)
        (sym (check_overdue-late s t continue o (written_state s t h o.current) e))
        (subst (λ n. states_left (move_to_next_state machine utc_str subs now u).0 < n)
          (late_left s t h o) (done_moves u (late_named s t h o) (late_active s t h o) done))
    where
      u : RunningTask
      u = write_state (late_of s) t

      done : IsStepDone u
      done = late_holds s t h o ∙ done_late s u s.step.action role refl w

  undone_stays :
      {t u : RunningTask} {commands : List TaskCommand}
      → Advance machine utc_str subs now t u commands
      → holds t (step_done t.state) ≡ false
      → (u.state ≡ t.state) × (commands ≡ [])
  undone_stays here waits = (refl, refl)
  undone_stays {t = t} (onward f a) waits = absurd (clash f.done)
    where
      clash : holds t (step_done t.state) ≡ true → ⊥
      clash done = cc (done, waits)

  -- A task that is active and whose step has run out of time: if the step executes a command that has
  -- not answered, and says to continue on an error, the task stays in the step and returns no command.
  pub check_overdue_keeps_execute :
      (s : StepState) (t : RunningTask) (c : String)
      → IsNamed t
      → IsOverdue subs now s t
      → s.step.on_error ≡ continue
      → s.role ≡ step_state
      → s.step.action ≡ execute_command c
      → s.execution_done ≡ false
      → ((check_overdue t).0.state ≡ t.state) × ((check_overdue t).1 ≡ [])
  unfolding on_overdue write_state current_step_done done_for step_done_for
  check_overdue_keeps_execute s t c h o e role acts open_ =
      subst (λ r. (r.0.state ≡ t.state) × (r.1 ≡ []))
        (sym (check_overdue-late s t continue o (written_state s t h o.current) e))
        (undone_stays
          (move_to_next_state-advances machine utc_str subs now u (late_named s t h o)).0 undone)
    where
      u : RunningTask
      u = write_state (late_of s) t

      not_done : current_step_done (late_of s) u ≡ false
      not_done = rw (role, acts, open_)

      undone : holds u (step_done u.state) ≡ false
      undone = late_holds s t h o ∙ not_done
