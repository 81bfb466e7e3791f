-- ===== src/WorkerQueue/Run.antt =====
-- Runs of the worker queue: a sequence of calls of its public operations, each under the lock.
use cloudkeeper.Base.{ℕ, String, Option, none, some, List, [], ◌∷◌}
use cloudkeeper.Json.{Json}
use cloudkeeper.WorkerQueue.Data.{WorkerTask, TaskDescription, Queue}
use cloudkeeper.WorkerQueue.Ops.{
  add_task, acknowledge_task, error_task, check_outdated, attach, detach, subscriptions_of,
}

pub data Call : Type 0 where
  add : (now : ℕ) → WorkerTask → (retries : ℕ) → Call
  acknowledge : (worker_id task_id : String) → Option Json → Call
  report_error : (worker_id task_id message : String) → Call
  check : (now : ℕ) → Call
  enter : (worker_id : String) (queue : ℕ) → List TaskDescription → Call
  leave : (now : ℕ) (worker_id : String) (queue : ℕ) → List TaskDescription → Call

-- A call that raises leaves the state alone.
or_same : Queue → Option Queue → Queue
or_same q none = q
or_same q (some p) = p

unfoldable pub run : Call → Queue → Queue
unfolding or_same
run (add now t retries) q = (add_task now t retries q).0
run (acknowledge w id v) q = acknowledge_task w id v q
run (report_error w id m) q = error_task w id m q
run (check now) q = check_outdated now q
run (enter w queue ds) q = or_same q (attach w queue ds q)
run (leave now w queue ds) q = detach now w (subscriptions_of w queue ds) q

unfoldable pub run_all : List Call → Queue → Queue
run_all [] q = q
run_all (c ∷ cs) q = run_all cs (run c q)
