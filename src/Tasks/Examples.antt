-- ===== src/Tasks/Examples.antt =====
-- Running tasks with one step: tests, and the theorems at concrete tasks.
use cloudkeeper.Base.{
  keep, str_eq, none, ℕ, ◌<◌, ◌≤◌, String, ◌≡◌, ◌↔◌, ◌⊎◌, refl, true, false, some, List, [], ◌∷◌,
  arith, All,
}
use cloudkeeper.Dict.{dict_eq, dict_in, get, has, put, keys, values}
use cloudkeeper.Json
use cloudkeeper.Json.{Fields}
use cloudkeeper.Subscriptions.Data.{subscription_eq, subscriber_eq, Subscriber}
use cloudkeeper.Subscriptions.Handler.{EventIndex}
use cloudkeeper.Tasks.Messages.{action, action_done, answers_step, is_event}
use cloudkeeper.Tasks.Description.{
  StepAction, perform_action, execute_command, StepErrorBehaviour, continue, stop, TaskDescription,
  make_step, wait, replace, wait_for_event, skip,
}
use cloudkeeper.Tasks.Machine.{reference_machine, transitions_from}
use cloudkeeper.Tasks.Machine.Chain.{next_of, rank, Differ}
use cloudkeeper.Tasks.Running.{
  StepState, RunningTask, step_state, new_task, add_states, all_states, special_state, from_step,
  blocks, all_answered, step_done_for, done_for, current_step_done, holds, commands_to_execute,
  refreshed, step_started_for, step_started, write_state, began, begin_step, longer, max_timeout,
  timeout_for, timeout_of,
}
use cloudkeeper.Tasks.Ops.{
  ack_for, pending_action_for, is_active, enter, after_next, next_state, current_commands,
  move_loop, move_to_next_state, handle_event, handle_done, after_err, end_task, check_timeout,
  check_state,
}
use cloudkeeper.Tasks.Progress.Moves.{Advance, IsStuck, states_left, move_to_next_state-advances}
use cloudkeeper.Tasks.Life.{Call, move_on, done_arrives, answered, call, call_all}
use cloudkeeper.Tasks.Life.Ended.{IsEnded, end_task-IsEnded}
use cloudkeeper.Tasks.Life.Sound.{IsSound}
use cloudkeeper.Tasks.Life.Final.{inactive_for_good}
use cloudkeeper.Tasks.Life.Start.{state_names, new_task-IsSound, task-IsSound}
use cloudkeeper.Tasks.Progress.{IsNamed}
use cloudkeeper.Tasks.Routing.{Registered, update_trigger, found_in, by_message_type}
use cloudkeeper.Tasks.Routing.Index.{by_message_type-keep}
use cloudkeeper.Tasks.Starting.{TaskTable, start_task, runs, add_started}
use cloudkeeper.Tasks.Starting.OneActive.{
  IsKeyed, IsQuiet, active_count, table_of, start_task_one_active,
}
use cloudkeeper.Dict.Entries.{put-Entries, Entries-nil}
use cloudkeeper.Tasks.Pending.{IsAmong, IsUnanswered, pending_action_for_iff}
use cloudkeeper.Tasks.Perform.{IsAnswered, perform-done_iff}
use cloudkeeper.Tasks.Perform.Timeout.{IsLongest, perform-timeout}
use cloudkeeper.Tasks.Overdue.{
  IsOverdue, check_overdue, on_overdue, behaviour_of, check_overdue_stops, check_overdue_continues,
  check_overdue_keeps_execute,
}

program : Unit {0}
unfolding get has put keys transitions_from next_of rank new_task add_states all_states
    special_state from_step make_step blocks all_answered answers_step is_event step_done_for
    done_for current_step_done holds commands_to_execute refreshed step_started_for step_started
    write_state began begin_step longer max_timeout timeout_for timeout_of is_active enter
    after_next next_state current_commands move_loop move_to_next_state handle_event handle_done
    after_err end_task check_timeout check_state answered call call_all check_overdue on_overdue
    behaviour_of update_trigger start_task runs active_count
program = tt

abbrev clock : ℕ → String
clock n = "2022-01-01T00:00:00Z"

abbrev worker : Subscriber
worker = record {
  id = "worker";
  subscriptions =
      ("collect", record { message_type = "collect"; wait_for_completion = true; timeout = 60 })
      ∷ [];
}

abbrev subs : EventIndex
subs = ("collect", worker ∷ []) ∷ []

abbrev described : StepAction → StepErrorBehaviour → TaskDescription
unfolding program
described a b = record {
  id = "work";
  name = "work";
  steps = make_step "work" a (some 10) b ∷ [];
  triggers = [];
  on_surpass = wait;
  environment = [];
  mutable_ = false;
}

abbrev at_work : Call
at_work = record { request = move_on; subs = subs; now = 0 }

abbrev answers : Call
answers = record {
  request = done_arrives (action_done "collect" "t" "work" "worker" Json.end);
  subs = subs;
  now = 5;
}

abbrev fresh : StepAction → StepErrorBehaviour → RunningTask
unfolding program
fresh a b = new_task "t" (described a b) subs 0

abbrev working : StepAction → StepErrorBehaviour → RunningTask
unfolding program
working a b = call_all reference_machine clock (at_work ∷ []) (fresh a b)

names_Differ : (a : StepAction) (b : StepErrorBehaviour) → Differ (state_names (described a b))
unfolding program
names_Differ a b = (refl, (refl, (refl, tt)))

fresh-IsSound : (a : StepAction) (b : StepErrorBehaviour) → IsSound (fresh a b)
unfolding program
fresh-IsSound a b = new_task-IsSound "t" (described a b) subs 0 (names_Differ a b)

working-IsSound : (a : StepAction) (b : StepErrorBehaviour) → IsSound (working a b)
unfolding program
working-IsSound a b =
    task-IsSound reference_machine clock "t" (described a b) subs 0 (at_work ∷ [])
      (names_Differ a b)

-- The task waits for the worker, and is at the end once it has answered.
waits : (working (perform_action "collect") stop).state ≡ "work"
unfolding program
waits = refl

answered_at_end :
    (call_all reference_machine clock
      (at_work ∷ answers ∷ [])
      (fresh (perform_action "collect") stop)).state
    ≡ "task_end"
unfolding program
answered_at_end = refl

-- The state of the one step, as the task has it.
abbrev at_step : StepAction → StepErrorBehaviour → List Subscriber → StepState
unfolding program
at_step a b l = record {
  role = step_state;
  step = make_step "work" a (some 10) b;
  timed_out = false;
  wait_for = l;
  execution_done = false;
}

abbrev collecting : StepErrorBehaviour → StepState
collecting b = at_step (perform_action "collect") b (worker ∷ [])

abbrev executing : StepState
executing = at_step (execute_command "ls") continue []

collect-IsOverdue :
    (b : StepErrorBehaviour)
    → IsOverdue subs 100 (collecting b) (working (perform_action "collect") b)
unfolding program
collect-IsOverdue b = record { current = refl; active = refl; late = omega arith }

execute-IsOverdue : IsOverdue subs 100 executing (working (execute_command "ls") continue)
unfolding program
execute-IsOverdue = record { current = refl; active = refl; late = omega arith }

move_to_next_state-advances_example :
    Advance reference_machine clock subs 0
      (fresh (execute_command "ls") stop)
      (move_to_next_state reference_machine clock subs 0 (fresh (execute_command "ls") stop)).0
      (move_to_next_state reference_machine clock subs 0 (fresh (execute_command "ls") stop)).1
    × IsStuck reference_machine clock subs 0
        (move_to_next_state reference_machine clock subs 0 (fresh (execute_command "ls") stop)).0
move_to_next_state-advances_example =
    move_to_next_state-advances reference_machine clock subs 0 (fresh (execute_command "ls") stop)
      (fresh-IsSound (execute_command "ls") stop).names

task-IsSound_example : IsSound (
    call_all reference_machine clock
      (at_work ∷ answers ∷ [])
      (fresh (perform_action "collect") stop))
unfolding program
task-IsSound_example =
    task-IsSound reference_machine clock "t" (described (perform_action "collect") stop) subs 0
      (at_work ∷ answers ∷ []) (names_Differ (perform_action "collect") stop)

abbrev ended : RunningTask
ended = end_task reference_machine clock subs 7 (working (execute_command "ls") stop)

ended-IsEnded : IsEnded ended
unfolding program
ended-IsEnded =
    end_task-IsEnded reference_machine clock subs 7 (working (execute_command "ls") stop)
      (working-IsSound (execute_command "ls") stop).names refl

abbrev finished : RunningTask
finished =
    call_all reference_machine clock (at_work ∷ answers ∷ [])
      (fresh (perform_action "collect") stop)

finished-IsSound : IsSound finished
unfolding program
finished-IsSound =
    task-IsSound reference_machine clock "t" (described (perform_action "collect") stop) subs 0
      (at_work ∷ answers ∷ []) (names_Differ (perform_action "collect") stop)

inactive_for_good_example :
    (is_active (call_all reference_machine clock (at_work ∷ answers ∷ []) finished) ≡ false)
    × ((c : Call)
        → (call reference_machine clock c
            (call_all reference_machine clock (at_work ∷ answers ∷ []) finished)).1
          ≡ [])
unfolding program
inactive_for_good_example =
    inactive_for_good reference_machine clock (at_work ∷ answers ∷ []) finished finished-IsSound
      refl

perform-done_iff_example :
    (current_step_done (collecting stop) (working (perform_action "collect") stop) ≡ true)
    ↔ ((false ≡ true) ⊎ ((false ≡ false) × All (IsAnswered "collect" "work" []) (worker ∷ [])))
unfolding program
perform-done_iff_example =
    perform-done_iff (collecting stop) (working (perform_action "collect") stop) "collect" refl refl

perform-timeout_example : IsLongest "collect" 10 (worker ∷ []) (timeout_of subs (collecting stop))
unfolding program
perform-timeout_example = perform-timeout subs (collecting stop) "collect" refl

check_overdue_stops_example :
    IsEnded
      (check_overdue reference_machine clock subs 100 (working (perform_action "collect") stop)).0
unfolding program
check_overdue_stops_example =
    check_overdue_stops reference_machine clock subs 100 (collecting stop)
      (working (perform_action "collect") stop)
      (working-IsSound (perform_action "collect") stop).names (collect-IsOverdue stop) refl

check_overdue_continues_example :
    states_left
      (check_overdue reference_machine clock subs 100
        (working (perform_action "collect") continue)).0
    < states_left (working (perform_action "collect") continue)
unfolding program
check_overdue_continues_example =
    check_overdue_continues reference_machine clock subs 100 (collecting continue)
      (working (perform_action "collect") continue)
      (working-IsSound (perform_action "collect") continue).names (collect-IsOverdue continue) refl
      refl tt

check_overdue_keeps_execute_example :
    ((check_overdue reference_machine clock subs 100
        (working (execute_command "ls") continue)).0.state
      ≡ (working (execute_command "ls") continue).state)
    × ((check_overdue reference_machine clock subs 100 (working (execute_command "ls") continue)).1
        ≡ [])
unfolding program
check_overdue_keeps_execute_example =
    check_overdue_keeps_execute reference_machine clock subs 100 executing
      (working (execute_command "ls") continue) "ls"
      (working-IsSound (execute_command "ls") continue).names execute-IsOverdue refl refl refl refl

pending_now :
    pending_action_for worker (working (perform_action "collect") stop)
    ≡ some (action "collect" "t" "work" Json.end)
unfolding program pending_action_for subscriber_eq dict_eq dict_in subscription_eq ack_for
pending_now = refl

pending_action_for_iff_example :
    (pending_action_for worker (working (perform_action "collect") stop)
      ≡ some (action "collect" "t" "work" Json.end))
    ↔ (IsAmong worker (worker ∷ []) × IsUnanswered "collect" "worker" [])
unfolding program
pending_action_for_iff_example =
    pending_action_for_iff worker (working (perform_action "collect") stop) (collecting stop)
      "collect" refl refl

-- While a call waits, another description is noted to run later.
noting : TaskTable → TaskTable
noting h = record h {
  start_when_done = put "other" (described (execute_command "ls") stop) h.start_when_done;
}

abbrev replacing : TaskDescription
replacing = record (described (execute_command "ls") stop) { on_surpass = replace }

-- One task of the description runs.
abbrev one_running : TaskTable
one_running = record {
  tasks = ("t", working (execute_command "ls") stop) ∷ [];
  start_when_done = [];
}

one_running-IsKeyed : IsKeyed one_running.tasks
unfolding program
one_running-IsKeyed = ((refl, tt), All-keyed)
  where
    All-keyed :
        (k : String) (t : RunningTask) → get k one_running.tasks ≡ some t → (t.id ≡ k) × IsNamed t
    All-keyed =
        put-Entries (λ k t. (t.id ≡ k) × IsNamed t) "t" (working (execute_command "ls") stop) []
          (refl, (working-IsSound (execute_command "ls") stop).names)
          (Entries-nil (λ k t. (t.id ≡ k) × IsNamed t))

abbrev after_replacement : TaskTable
after_replacement =
    table_of (start_task reference_machine clock (λ c. c) subs 7 noting "u" replacing one_running)

noting-IsQuiet : IsQuiet replacing noting
unfolding noting
noting-IsQuiet h = omega arith

start_task_one_active_example : active_count replacing after_replacement.tasks ≤ 1
unfolding program
start_task_one_active_example =
    start_task_one_active reference_machine clock (λ c. c) subs 7 noting "u" replacing one_running
      noting-IsQuiet one_running-IsKeyed (λ e. cc) (omega arith)

-- Without that condition there can be two: a run that is to be skipped if there is another one is started
-- again while the first start waits for the database, before its task is in the table.
abbrev skipping : TaskDescription
skipping = record (described (wait_for_event "go" none) stop) { on_surpass = skip }

abbrev no_tasks : TaskTable
no_tasks = record { tasks = []; start_when_done = [] }

abbrev started_again : TaskTable → TaskTable
started_again h =
    table_of (start_task reference_machine clock (λ c. c) subs 7 (λ h. h) "v" skipping h)

two_starts_race :
    active_count skipping
      (table_of (
        start_task reference_machine clock
          (λ c. c)
          subs
          7
          started_again
          "u"
          skipping
          no_tasks)).tasks
    ≡ 2
unfolding program values add_started
two_starts_race = refl

abbrev on_event : String → Registered
on_event m = record {
  message = m;
  filter_data = none;
  description = described (execute_command "ls") stop;
}

-- Of two triggers of a description that stand one after the other, the second one stays.
second_trigger_stays :
    update_trigger
      (λ a b. str_eq a.message b.message)
      (described (execute_command "ls") stop)
      false
      (on_event "a" ∷ on_event "b" ∷ [])
    ≡ on_event "b" ∷ []
unfolding program
second_trigger_stays = refl

by_message_type-keep_example :
    found_in (get "a" (by_message_type (on_event "a" ∷ on_event "b" ∷ [])))
    ≡ keep (λ r. str_eq r.message "a") (on_event "a" ∷ on_event "b" ∷ [])
by_message_type-keep_example = by_message_type-keep "a" (on_event "a" ∷ on_event "b" ∷ [])
