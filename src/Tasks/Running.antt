-- ===== src/Tasks/Running.antt =====
-- resotocore/core/task/task_description.py: the state objects of a running task, `RunningTask`, and
-- when a step is done.
--
-- The states of the machine are a dict by name, in the order of the steps. `subs` is what the callback
-- `subscribers_by_event` returns at the time of the call, and `now` the reading of the clock.
use cloudkeeper.Base.{
  ℕ, String, Bool, true, false, not, ◌&&◌, ◌||◌, Option, none, some, List, [], ◌∷◌, ◌++◌, ltb,
  if◌then◌else◌, exist, every, map,
}
use cloudkeeper.Dict.{Dict, get, put}
use cloudkeeper.Json
use cloudkeeper.Json.{Fields}
use cloudkeeper.Subscriptions.Data.{Subscription, Subscriber}
use cloudkeeper.Subscriptions.Handler.{EventIndex, listed}
use cloudkeeper.Tasks.Messages.{Message, event, action, answers_step, is_event}
use cloudkeeper.Tasks.Description.{
  Step, StepAction, perform_action, emit_event, wait_for_event, execute_command, continue,
  TaskCommand, send_message, execute_on_cli, TaskDescription, make_step,
}
use cloudkeeper.Tasks.Machine.{Guard, step_done, is_error, transitions_from, Transition}

-- The class of a state object: those of the steps go by the step's action.
pub data Role : Type 0 where
  start_state step_state end_state : Role

pub record StepState : Type 0 where
  pub role : Role
  pub step : Step
  pub timed_out : Bool
  pub wait_for : List Subscriber
  pub execution_done : Bool

pub record RunningTask : Type 0 where
  pub id : String
  pub in_error : Bool
  pub descriptor : TaskDescription
  pub received : List Message
  pub task_started_at : ℕ
  pub step_started_at : ℕ
  pub states : Dict StepState
  pub transitions : List Transition
  pub state : String
  pub descriptor_alive : Bool

abbrev pub start_event : Message
start_event = event "task_start" Json.end

abbrev pub end_event : Message
end_event = event "task_end" Json.end

awaited : EventIndex → StepAction → List Subscriber
awaited subs (perform_action type) = listed type subs
awaited subs _ = []

-- StepState.from_step, with the constructor that it calls
unfoldable pub from_step : EventIndex → Step → StepState
unfolding awaited
from_step subs s = record {
  role = step_state;
  step = s;
  timed_out = false;
  wait_for = awaited subs s.action;
  execution_done = false;
}

unfoldable pub special_state : Role → String → Message → StepState
unfolding make_step
special_state role name m = record {
  role = role;
  step = make_step name (emit_event m) none continue;
  timed_out = false;
  wait_for = [];
  execution_done = false;
}

abbrev pub end_name : String
end_name = "task_end"

unfoldable pub add_states : List StepState → Dict StepState → Dict StepState
add_states [] d = d
add_states (s ∷ l) d = add_states l (put s.step.name s d)

-- [start, *steps, end]
unfoldable pub all_states : TaskDescription → EventIndex → List StepState
unfolding special_state from_step
all_states descriptor subs =
    special_state start_state "task_start" start_event
    ∷ (map (from_step subs) descriptor.steps ++ special_state end_state end_name end_event ∷ [])

-- RunningTask.__init__
unfoldable pub new_task : String → TaskDescription → EventIndex → ℕ → RunningTask
unfolding add_states all_states
new_task uid descriptor subs now = record {
  id = uid;
  in_error = false;
  descriptor = descriptor;
  received = [];
  task_started_at = now;
  step_started_at = now;
  states = add_states (all_states descriptor subs) [];
  transitions = transitions_from end_name (map (λ s. s.step.name) (all_states descriptor subs));
  state = "task_start";
  descriptor_alive = true;
}

-- machine.get_state(name)
abbrev pub state_named : RunningTask → String → Option StepState
state_named t name = get name t.states

abbrev pub current_state : RunningTask → Option StepState
current_state t = state_named t t.state

-- The subscriber's subscription waits for completion. (A subscriber without a subscription for the
-- type does not get into `wait_for`.)
unfoldable pub blocks : String → Subscriber → Bool
blocks type s = elim (get type s.subscriptions) [ none ↦ false | some x ↦ x.wait_for_completion ]

-- `empty(missing)`: every blocking subscriber has answered in this step.
unfoldable pub all_answered : String → String → List Subscriber → List Message → Bool
all_answered type step subscribers received =
    every (λ s. not (blocks type s) || exist (answers_step step s.id) received) subscribers

unfoldable pub step_done_for : StepAction → StepState → RunningTask → Bool
step_done_for (perform_action type) s t =
    s.timed_out || (not t.in_error && all_answered type s.step.name s.wait_for t.received)
step_done_for (emit_event m) s t = not s.timed_out
step_done_for (wait_for_event type filter) s t = s.timed_out || exist (is_event type) t.received
step_done_for (execute_command c) s t = s.execution_done

unfoldable pub done_for : Role → StepState → RunningTask → Bool
unfolding step_done_for
done_for start_state s t = not s.timed_out
done_for step_state s t = step_done_for s.step.action s t
done_for end_state s t = false

-- current_step_done, by the class of the state
unfoldable pub current_step_done : StepState → RunningTask → Bool
unfolding done_for
current_step_done s t = done_for s.role s t

-- The conditions of the transitions. The source binds a condition to the state object; here the state is
-- found by its name, which is the same where no two states of a task have the same name.
unfoldable pub holds : RunningTask → Guard → Bool
holds t (step_done name) = elim (state_named t name) [
  | none ↦ false
  | some s ↦ current_step_done s t
]
holds t is_error = t.in_error

-- The texts of `utc_str` are the standard library's: a parameter.
module _ (utc_str : ℕ → String) where
  step_commands : StepAction → StepState → RunningTask → List TaskCommand
  step_commands (perform_action type) s t =
      send_message (action type t.id s.step.name Json.end) ∷ []
  step_commands (emit_event m) s t = send_message m ∷ []
  step_commands (wait_for_event type filter) s t = []
  step_commands (execute_command c) s t =
      execute_on_cli c (("now", utc_str t.task_started_at) ∷ []) ∷ []

  role_commands : Role → StepState → RunningTask → List TaskCommand
  unfolding step_commands
  role_commands start_state s t = send_message start_event ∷ []
  role_commands step_state s t = step_commands s.step.action s t
  role_commands end_state s t = send_message end_event ∷ []

  -- commands_to_execute, by the class of the state
  unfoldable pub commands_to_execute : StepState → RunningTask → List TaskCommand
  unfolding role_commands
  commands_to_execute s t = role_commands s.role s t

-- step_started: a perform step refreshes its list of subscribers.
unfoldable pub refreshed : EventIndex → StepAction → StepState → StepState
refreshed subs (perform_action type) s = record s { wait_for = listed type subs }
refreshed subs _ s = s

unfoldable pub step_started_for : Role → EventIndex → StepState → StepState
unfolding refreshed
step_started_for step_state subs s = refreshed subs s.step.action s
step_started_for _ subs s = s

unfoldable pub step_started : EventIndex → StepState → StepState
unfolding step_started_for
step_started subs s = step_started_for s.role subs s

-- A state object is written back under its name.
unfoldable pub write_state : StepState → RunningTask → RunningTask
write_state s t = record t { states = put s.step.name s t.states }

unfoldable pub began : EventIndex → Option StepState → RunningTask → RunningTask
began subs none t = t
began subs (some s) t = write_state (step_started subs s) t

-- begin_step
unfoldable pub begin_step : EventIndex → ℕ → RunningTask → RunningTask
unfolding began
begin_step subs now t =
    let timed = record t { step_started_at = now } in began subs (current_state timed) timed

unfoldable pub longer : ℕ → Option Subscription → ℕ
longer longest none = longest
longer longest (some x) =
    if not x.wait_for_completion || ltb x.timeout longest then longest else x.timeout

-- The loop of `PerformActionState.timeout`.
unfoldable pub max_timeout : String → ℕ → List Subscriber → ℕ
unfolding longer
max_timeout type longest [] = longest
max_timeout type longest (s ∷ l) = max_timeout type (longer longest (get type s.subscriptions)) l

unfoldable pub timeout_for : StepAction → EventIndex → Step → ℕ
unfolding max_timeout
timeout_for (perform_action type) subs s = max_timeout type s.timeout (listed type subs)
timeout_for _ subs s = s.timeout

-- timeout(), by the class of the state
unfoldable pub timeout_of : EventIndex → StepState → ℕ
unfolding timeout_for
timeout_of subs s = timeout_for s.step.action subs s.step
