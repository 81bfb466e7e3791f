-- ===== src/Tasks/Starting.antt =====
-- resotocore/core/task/task_handler.py: how tasks are started and deleted. The tables of the handler are
-- `tasks`, by the id of the running task, and `start_when_done`, by the id of the description. The commands
-- that a new task gives are run later; the ids of new tasks are an argument.
pub mod OneActive
use cloudkeeper.Base.{
  ℕ, String, Bool, true, false, not, ◌&&◌, Option, none, some, List, [], ◌∷◌, first, map, str_eq,
  if◌then◌else◌,
}
use cloudkeeper.Dict.{Dict, get, has, put, pop, values}
use cloudkeeper.Json
use cloudkeeper.Subscriptions.Handler.{EventIndex}
use cloudkeeper.Tasks.Messages.{event}
use cloudkeeper.Tasks.Description.{
  Step, StepAction, perform_action, emit_event, wait_for_event, execute_command, TaskCommand,
  send_message, TaskDescription, TaskSurpassBehaviour, skip, parallel, replace, wait,
}
use cloudkeeper.Tasks.Machine.{Machine}
use cloudkeeper.Tasks.Running.{RunningTask, new_task}
use cloudkeeper.Tasks.Ops.{is_active, move_to_next_state, end_task}

pub record TaskTable : Type 0 where
  pub tasks : Dict RunningTask
  pub start_when_done : Dict TaskDescription

-- `text_of` is `replace_placeholder`, which puts times into a command.
unfoldable pub evaluate_action : (String → String) → StepAction → StepAction
evaluate_action text_of (execute_command c) = execute_command (text_of c)
evaluate_action text_of a = a

unfoldable pub evaluate_step : (String → String) → Step → Step
unfolding evaluate_action
evaluate_step text_of s = record s { action = evaluate_action text_of s.action }

-- evaluate_task_definition
unfoldable pub evaluate_task_definition : (String → String) → TaskDescription → TaskDescription
unfolding evaluate_step
evaluate_task_definition text_of d = record d { steps = map (evaluate_step text_of) d.steps }

-- The task is one of the description, and active.
unfoldable pub runs : TaskDescription → RunningTask → Bool
runs desc t = str_eq t.descriptor.id desc.id && is_active t

-- The running task that `start_task` and the deletion look for.
unfoldable pub existing_task : TaskDescription → TaskTable → Option RunningTask
unfolding runs
existing_task desc h = first (runs desc) (values h.tasks)

-- What starting a task gives: the task with its commands, nothing, or an error.
pub data Started : Type 0 where
  started : RunningTask → List TaskCommand → Started
  not_started : Started
  start_failed : Started

module _ (machine : Machine) (utc_str : ℕ → String) (text_of : String → String) (subs : EventIndex)
    (now : ℕ) where
  -- RunningTask.empty: a description without a step is an error.
  unfoldable pub empty : String → TaskDescription → Option (RunningTask × List TaskCommand)
  unfolding new_task
  empty uid desc = elim desc.steps [
    | [] ↦ none
    | _ ∷ _ ↦
        let (t, commands) =
          move_to_next_state machine utc_str subs now (new_task uid desc subs now) in
        some (
          t,
          send_message (event "task_started" (Json.field "task" (Json.str desc.name) Json.end))
              ∷ commands,
        )
  ]

  -- delete_running_task: the task, ended, is not in the table any more.
  unfoldable pub delete_running_task : RunningTask → TaskTable → TaskTable × RunningTask
  delete_running_task t h = (
    record h { tasks = pop t.id h.tasks },
    end_task machine utc_str subs now (record t { descriptor_alive = false }),
  )

-- `others` is what other calls do to the tables while a call waits for the database: they run then, since
-- the handler takes no lock.
module _ (machine : Machine) (utc_str : ℕ → String) (text_of : String → String) (subs : EventIndex)
    (now : ℕ) (others : TaskTable → TaskTable) where
  -- The task is written to the database, and then stands in the table.
  unfoldable pub add_started :
      Option (RunningTask × List TaskCommand) → TaskTable → TaskTable × Started
  add_started none h = (h, start_failed)
  add_started (some (t, commands)) h =
      let after = others h in (record after { tasks = put t.id t after.tasks }, started t commands)

  -- start_task_directly
  unfoldable pub start_task_directly : String → TaskDescription → TaskTable → TaskTable × Started
  unfolding empty evaluate_task_definition add_started
  start_task_directly uid desc h =
      add_started
        (empty machine utc_str text_of subs now uid (evaluate_task_definition text_of desc)) h

  -- What is done if a task of the description runs already.
  unfoldable pub start_beside :
      TaskSurpassBehaviour
      → String
      → TaskDescription
      → RunningTask
      → TaskTable
      → TaskTable × Started
  unfolding start_task_directly
  start_beside skip uid desc existing h = (h, not_started)
  start_beside replace uid desc existing h = start_task_directly uid desc (
      others
        (record h { tasks = put existing.id (end_task machine utc_str subs now existing) h.tasks }))
  start_beside parallel uid desc existing h = start_task_directly uid desc h
  start_beside wait uid desc existing h =
      (record h { start_when_done = put desc.id desc h.start_when_done }, not_started)

  start_unless : Option RunningTask → String → TaskDescription → TaskTable → TaskTable × Started
  unfolding start_beside start_task_directly
  start_unless none uid desc h = start_task_directly uid desc h
  start_unless (some existing) uid desc h = start_beside desc.on_surpass uid desc existing h

  -- start_task
  unfoldable pub start_task : String → TaskDescription → TaskTable → TaskTable × Started
  unfolding existing_task start_unless
  start_task uid desc h = start_unless (existing_task desc h) uid desc h

  -- start_task_by_descriptor_id: an id that no description has is an error.
  unfoldable pub start_task_by_descriptor_id :
      String → String → List TaskDescription → TaskTable → TaskTable × Started
  unfolding start_task
  start_task_by_descriptor_id uid id descriptions h =
      elim (first (λ d. str_eq d.id id) descriptions) [
        | none ↦ (h, start_failed)
        | some d ↦ start_task uid d h
      ]

  -- The end of a round of check_overdue_tasks: if the task is not in the table, and a description waits under
  -- the id of its own, the task's description is started, which `evaluate_task_definition` gave.
  unfoldable pub start_waiting : String → RunningTask → TaskTable → TaskTable × Started
  unfolding start_task_directly
  start_waiting uid t h =
      if not (has t.id h.tasks) && has t.descriptor.id h.start_when_done
      then start_task_directly uid t.descriptor
          (record h { start_when_done = pop t.descriptor.id h.start_when_done })
      else (h, not_started)
