-- ===== src/Tasks/Ops.antt =====
-- resotocore/core/task/task_description.py: the operations of `RunningTask`.
use cloudkeeper.Base.{
  ℕ, suc, zero, ◌+◌, String, Bool, true, false, not, ◌&&◌, Option, none, some, List, [], ◌∷◌, ◌++◌,
  str_eq, ltb, if◌then◌else◌, exist, first, length,
}
use cloudkeeper.Dict.{keys}
use cloudkeeper.Json
use cloudkeeper.Json.{Fields}
use cloudkeeper.Subscriptions.Data.{Subscriber, subscriber_eq}
use cloudkeeper.Subscriptions.Handler.{EventIndex}
use cloudkeeper.Tasks.Messages.{Message, event, action, acknowledges, filter_applies}
use cloudkeeper.Tasks.Description.{
  StepAction, perform_action, emit_event, wait_for_event, execute_command, StepErrorBehaviour,
  continue, stop, TaskCommand, send_message, execute_on_cli,
}
use cloudkeeper.Tasks.Machine.{
  Machine, Fired, raised, stayed, moved, next_state_trigger, to_err_trigger,
}
use cloudkeeper.Tasks.Running.{
  start_state, step_state, end_state, StepState, RunningTask, current_state, holds,
  commands_to_execute, begin_step, write_state, timeout_of,
}

abbrev pub is_end : Option StepState → Bool
is_end none = false
is_end (some s) = elim s.role [ start_state ↦ false | step_state ↦ false | end_state ↦ true ]

-- is_active
unfoldable pub is_active : RunningTask → Bool
is_active t = not (is_end (current_state t))

module _ (machine : Machine) (utc_str : ℕ → String) (subs : EventIndex) (now : ℕ) where
  -- The machine enters a state, and calls `begin_step`.
  unfoldable pub enter : String → RunningTask → RunningTask
  enter name t = begin_step subs now (record t { state = name })

  -- A queued machine reports every trigger as successful, so only a changed state counts.
  unfoldable pub after_next : Fired → RunningTask → RunningTask × Bool
  after_next raised t = (t, false)
  after_next stayed t = (t, false)
  after_next (moved name) t = (enter name t, not (str_eq name t.state))

  -- next_state
  unfoldable pub next_state : RunningTask → RunningTask × Bool
  unfolding after_next
  next_state t = after_next (machine.fire next_state_trigger t.state t.transitions (holds t)) t

  unfoldable pub current_commands : RunningTask → List TaskCommand
  current_commands t = elim (current_state t) [
    | none ↦ []
    | some s ↦ commands_to_execute utc_str s t
  ]

  -- The while loop, on fuel. It returns the commands of the states that it enters.
  unfoldable pub move_loop : ℕ → RunningTask → RunningTask × List TaskCommand
  move_loop zero t = (t, [])
  move_loop (suc fuel) t =
      let (u, went) = next_state t in
      let (v, later) = move_loop fuel u in
      if went then (v, current_commands u ++ later) else (u, [])

  -- move_to_next_state
  unfoldable pub move_to_next_state : RunningTask → RunningTask × List TaskCommand
  move_to_next_state t = move_loop (length (keys t.states)) t

  takes_event : StepAction → String → Fields → Bool
  takes_event (wait_for_event type filter) received_type found =
      str_eq received_type type && filter_applies filter found
  takes_event _ received_type found = false

  -- handle_event of the current state: it changes something only when the step waits for the event.
  unfoldable pub state_takes_event : Option StepState → String → Fields → Bool
  unfolding takes_event
  state_takes_event none type found = false
  state_takes_event (some s) type found = elim s.role [
    | start_state ↦ false
    | step_state ↦ takes_event s.step.action type found
    | end_state ↦ false
  ]

  abbrev pub receive : Message → RunningTask → RunningTask
  receive m t = record t { received = t.received ++ m ∷ [] }

  -- handle_event
  unfoldable pub handle_event :
      String → Fields → RunningTask → RunningTask × Bool × List TaskCommand
  handle_event type found t =
      let (u, commands) = move_to_next_state (receive (event type found) t) in
      if state_takes_event (current_state t) type found then (u, true, commands) else (t, false, [])

  -- handle_done
  unfoldable pub handle_done : Message → RunningTask → RunningTask × List TaskCommand
  handle_done done t = move_to_next_state (receive done t)

  unfoldable pub after_err : Fired → RunningTask → RunningTask
  after_err raised t = t
  after_err stayed t = t
  after_err (moved name) t = enter name t

  -- end
  unfoldable pub end_task : RunningTask → RunningTask
  unfolding after_err
  end_task t =
      let failed = record t { in_error = true } in
      if is_end (current_state t)
      then t
      else after_err (machine.fire to_err_trigger failed.state failed.transitions (holds failed))
          failed

  -- The current step performs an action, and what it does on an error.
  unfoldable pub perform_behaviour : Option StepState → Option StepErrorBehaviour
  perform_behaviour none = none
  perform_behaviour (some s) = elim s.step.action [
    | perform_action type ↦ some s.step.on_error
    | emit_event m ↦ none
    | wait_for_event type filter ↦ none
    | execute_command c ↦ none
  ]

  unfoldable pub on_action_error :
      Option StepErrorBehaviour → Message → RunningTask → RunningTask × List TaskCommand
  on_action_error none error t = (t, [])
  on_action_error (some continue) error t =
      if is_active t then move_to_next_state (receive error t) else (end_task t, [])
  on_action_error (some stop) error t = (end_task t, [])

  -- handle_error
  unfoldable pub handle_error : Message → RunningTask → RunningTask × List TaskCommand
  unfolding perform_behaviour on_action_error
  handle_error error t = on_action_error (perform_behaviour (current_state t)) error t

  runs_command : String → TaskCommand → Bool
  runs_command c (execute_on_cli d env) = str_eq d c
  runs_command c (send_message m) = false

  unfoldable pub executed : StepAction → List TaskCommand → Bool
  unfolding runs_command
  executed (execute_command c) results = exist (runs_command c) results
  executed _ results = false

  -- handle_command_results of the current state. A result counts by its command alone.
  unfoldable pub record_results : List TaskCommand → Option StepState → RunningTask → RunningTask
  unfolding executed
  record_results results none t = t
  record_results results (some s) t =
      if executed s.step.action results
      then write_state (record s { execution_done = true }) t
      else t

  -- handle_command_results
  unfoldable pub handle_command_results :
      List TaskCommand → RunningTask → RunningTask × List TaskCommand
  handle_command_results results t = move_to_next_state (record_results results (current_state t) t)

  unfoldable pub check_state : Option StepState → RunningTask → RunningTask × Bool
  check_state none t = (t, false)
  check_state (some s) t =
      if ltb (t.step_started_at + timeout_of subs s) now
      then (write_state (record s { timed_out = true }) t, true)
      else (t, false)

  -- check_timeout of the current state
  unfoldable pub check_timeout : RunningTask → RunningTask × Bool
  unfolding check_state
  check_timeout t = check_state (current_state t) t

-- ack_for
unfoldable pub ack_for : String → Subscriber → RunningTask → Option Message
ack_for type s t = first (acknowledges type s.id) t.received

unfoldable pub pending_in : Option StepState → Subscriber → RunningTask → Option Message
pending_in none x t = none
pending_in (some s) x t = elim s.step.action [
  | perform_action type ↦
      if exist (λ y. subscriber_eq x y) s.wait_for
        && elim (ack_for type x t) [ none ↦ true | some m ↦ false ]
      then some (action type t.id s.step.name Json.end)
      else none
  | emit_event m ↦ none
  | wait_for_event type filter ↦ none
  | execute_command c ↦ none
]

-- pending_action_for
unfoldable pub pending_action_for : Subscriber → RunningTask → Option Message
unfolding pending_in
pending_action_for x t = pending_in (current_state t) x t
