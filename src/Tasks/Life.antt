-- ===== src/Tasks/Life.antt =====
-- The life of a running task: the calls that the task handler makes on it, one after the other.
pub mod Ended
pub mod Sound
pub mod Final
pub mod Start
use cloudkeeper.Base.{ℕ, String, Bool, true, false, List, [], ◌∷◌}
use cloudkeeper.Json.{Fields}
use cloudkeeper.Subscriptions.Handler.{EventIndex}
use cloudkeeper.Tasks.Messages.{Message}
use cloudkeeper.Tasks.Description.{TaskCommand}
use cloudkeeper.Tasks.Machine.{Machine}
use cloudkeeper.Tasks.Running.{RunningTask}
use cloudkeeper.Tasks.Ops.{
  move_to_next_state, handle_event, handle_done, handle_error, handle_command_results,
  check_timeout, end_task,
}

-- The operations of a running task.
pub data Request : Type 0 where
  move_on check ends : Request
  event_arrives : String → Fields → Request
  done_arrives error_arrives : Message → Request
  results_arrive : List TaskCommand → Request

-- A request, with the subscribers and the time at the moment of the call.
pub record Call : Type 0 where
  pub request : Request
  pub subs : EventIndex
  pub now : ℕ

module _ (machine : Machine) (utc_str : ℕ → String) where
  unfoldable pub answered : EventIndex → ℕ → Request → RunningTask → RunningTask × List TaskCommand
  answered subs now move_on t = move_to_next_state machine utc_str subs now t
  answered subs now check t = ((check_timeout machine utc_str subs now t).0, [])
  answered subs now ends t = (end_task machine utc_str subs now t, [])
  answered subs now (event_arrives type found) t =
      let (u, taken, commands) = handle_event machine utc_str subs now type found t in (u, commands)
  answered subs now (done_arrives m) t = handle_done machine utc_str subs now m t
  answered subs now (error_arrives m) t = handle_error machine utc_str subs now m t
  answered subs now (results_arrive l) t = handle_command_results machine utc_str subs now l t

  -- The task after the call, and the commands that it returns.
  unfoldable pub call : Call → RunningTask → RunningTask × List TaskCommand
  unfolding answered
  call c t = answered c.subs c.now c.request t

  unfoldable pub call_all : List Call → RunningTask → RunningTask
  call_all [] t = t
  call_all (c ∷ l) t = call_all l (call c t).0
