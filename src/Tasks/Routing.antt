-- ===== src/Tasks/Routing.antt =====
-- resotocore/core/task/task_handler.py: the triggers of the descriptions, and which tasks a message reaches or
-- starts. The triggers of the scheduler are left out.
pub mod Index
use cloudkeeper.Base.{
  ℕ, zero, suc, String, Bool, Option, none, some, List, [], ◌∷◌, ◌++◌, str_eq, if◌then◌else◌,
  length,
}
use cloudkeeper.Dict.{Dict, get, put, values}
use cloudkeeper.Json.{Fields}
use cloudkeeper.Subscriptions.Data.{Subscriber}
use cloudkeeper.Subscriptions.Handler.{EventIndex}
use cloudkeeper.Tasks.Messages.{
  Message, event, action, action_done, action_error, message_type, filter_applies,
}
use cloudkeeper.Tasks.Description.{
  TaskDescription, Trigger, event_trigger, time_trigger, TaskCommand,
}
use cloudkeeper.Tasks.Machine.{Machine}
use cloudkeeper.Tasks.Running.{RunningTask}
use cloudkeeper.Tasks.Ops.{handle_event, handle_done, handle_error, pending_action_for}
use cloudkeeper.Tasks.Starting.{TaskTable, Started, start_task}

-- An entry of registered_event_trigger: the event trigger, and the description.
pub record Registered : Type 0 where
  pub message : String
  pub filter_data : Option Fields
  pub description : TaskDescription

abbrev entry_at : ℕ → List Registered → Option Registered
entry_at n [] = none
entry_at zero (x ∷ l) = some x
entry_at (suc n) (x ∷ l) = entry_at n l

-- A missing key of a defaultdict of lists is the empty list, and so is one that is read by `get(key, [])`.
abbrev pub found_in {ℓ} : {A : Type ℓ} → Option (List A) → List A
found_in none = []
found_in (some xs) = xs

-- util.group_by
unfoldable pub group_by {ℓ} : {A : Type ℓ} → (A → String) → List A → Dict (List A) → Dict (List A)
group_by f [] d = d
group_by f (x ∷ l) d = group_by f l (put (f x) ((found_in (get (f x) d) ++ x ∷ [])) d)

event_triggers : TaskDescription → List Trigger → List Registered
event_triggers desc [] = []
event_triggers desc (event_trigger message filter ∷ l) =
    record { message = message; filter_data = filter; description = desc } ∷ event_triggers desc l
event_triggers desc (time_trigger cron ∷ l) = event_triggers desc l

-- `same` is the equality that Python's `list.remove` uses.
module _ (same : Registered → Registered → Bool) where
  unfoldable pub remove_first : Registered → List Registered → List Registered
  remove_first x [] = []
  remove_first x (y ∷ l) = let rest = remove_first x l in if same y x then l else y ∷ rest

  -- The loop that unregisters: entries are removed from the list that it iterates over, by position. Each
  -- round goes on by one, so the length of the list is enough fuel.
  unfoldable pub unregister : ℕ → ℕ → String → List Registered → List Registered
  unfolding remove_first
  unregister zero n id l = l
  unregister (suc fuel) n id l = elim (entry_at n l) [
    | none ↦ l
    | some x ↦
        unregister fuel (suc n) id (if str_eq id x.description.id then remove_first x l else l)
  ]

  -- update_trigger, of the event triggers
  unfoldable pub update_trigger : TaskDescription → Bool → List Registered → List Registered
  unfolding unregister event_triggers
  update_trigger desc register l =
      unregister (length l) 0 desc.id l
      ++ (if register then event_triggers desc desc.triggers else [])

-- registered_event_trigger_by_message_type
unfoldable pub by_message_type : List Registered → Dict (List Registered)
unfolding group_by
by_message_type l = group_by (λ r. r.message) l []

abbrev data_of : Message → Fields
data_of (event m content) = content
data_of (action m task step content) = content
data_of (action_done m task step subscriber content) = content
data_of (action_error m task step subscriber error content) = content

-- What a message does: the tables, the commands that tasks give, and the tasks that are started.
pub record Routed : Type 0 where
  pub table : TaskTable
  pub commands : List (RunningTask × List TaskCommand)
  pub starts : List Started

-- `others` is what other calls do while a start waits for the database. The other writes to the database
-- are one step with what stands before them.
module _ (machine : Machine) (utc_str : ℕ → String) (text_of : String → String) (subs : EventIndex)
    (now : ℕ) (others : TaskTable → TaskTable) where
  add_start : TaskTable × Started → Routed → Routed
  add_start (h, s) r = record r { table = h; starts = r.starts ++ s ∷ [] }

  -- The loop of check_for_task_to_start_on_message; `uids` are the ids of new tasks.
  unfoldable pub start_triggered : (ℕ → String) → ℕ → Message → List Registered → Routed → Routed
  unfolding add_start start_task
  start_triggered uids n m [] r = r
  start_triggered uids n m (x ∷ l) r = start_triggered uids (suc n) m l (
      if filter_applies x.filter_data (data_of m)
      then add_start
          (start_task machine utc_str text_of subs now others (uids n) x.description r.table) r
      else r)

  -- check_for_task_to_start_on_message
  unfoldable pub check_for_task_to_start_on_message :
      (ℕ → String) → Message → List Registered → Routed → Routed
  unfolding start_triggered by_message_type
  check_for_task_to_start_on_message uids m l r =
      start_triggered uids 0 m (found_in (get (message_type m) (by_message_type l))) r

  event_in : String → Fields → RunningTask → Routed → Routed
  event_in type content t r =
      let (u, handled, commands) = handle_event machine utc_str subs now type content t in
      if handled
      then record r {
        table = record r.table { tasks = put t.id u r.table.tasks };
        commands = r.commands ++ (u, commands) ∷ [];
      }
      else r

  events_in : String → Fields → List RunningTask → Routed → Routed
  unfolding event_in
  events_in type content [] r = r
  events_in type content (t ∷ l) r = events_in type content l (event_in type content t r)

  -- handle_event of the task handler
  unfoldable pub route_event : (ℕ → String) → String → Fields → List Registered → TaskTable → Routed
  unfolding events_in check_for_task_to_start_on_message
  route_event uids type content l h =
      check_for_task_to_start_on_message uids (event type content) l
        (events_in type content (values h.tasks) (record { table = h; commands = []; starts = [] }))

  -- handle_action_result: an answer for a task that is not known is ignored.
  unfoldable pub handle_action_result :
      String → (RunningTask → RunningTask × List TaskCommand) → TaskTable → Routed
  handle_action_result task_id answer h = elim (get task_id h.tasks) [
    | none ↦ record { table = h; commands = []; starts = [] }
    | some t ↦
        let (u, commands) = answer t in
        record {
          table = record h { tasks = put task_id u h.tasks };
          commands = (u, commands) ∷ [];
          starts = [];
        }
  ]

  -- handle_action_done
  unfoldable pub handle_action_done : String → Message → TaskTable → Routed
  unfolding handle_action_result
  handle_action_done task_id done h =
      handle_action_result task_id (λ t. handle_done machine utc_str subs now done t) h

  -- handle_action_error
  unfoldable pub handle_action_error : String → Message → TaskTable → Routed
  unfolding handle_action_result
  handle_action_error task_id error h =
      handle_action_result task_id (λ t. handle_error machine utc_str subs now error t) h

pending_of : List RunningTask → Subscriber → List Message
pending_of [] x = []
pending_of (t ∷ l) x = elim (pending_action_for x t) [
  | none ↦ pending_of l x
  | some m ↦ m ∷ pending_of l x
]

-- list_all_pending_actions_for
unfoldable pub list_all_pending_actions_for : Subscriber → TaskTable → List Message
unfolding pending_of
list_all_pending_actions_for x h = pending_of (values h.tasks) x
