-- ===== src/WorkerQueue/Ops.antt =====
-- resotocore/core/worker_task_queue.py: the operations of `WorkerTaskQueue`. Each runs under the
-- queue's lock, so it is one step from state to state. `now` is the reading of the clock.
use cloudkeeper.Base.{
  ℕ, ◌+◌, String, Bool, true, false, Option, none, some, List, [], ◌∷◌, ◌++◌, str_eq, ltb,
  if◌then◌else◌, keep, pos, incr, decr,
}
use cloudkeeper.Dict.{get, has, put, pop, values}
use cloudkeeper.Json.{Json}
use cloudkeeper.WorkerQueue.Data.{
  WorkerTask, TaskDescription, Subscription, InProgress, OnHold, Outcome, result, no_worker,
  task_error, not_finished, Queue, workers_for, work_of, set_future_result, subscription_eq,
}
use cloudkeeper.WorkerQueue.Select.{select}

-- The branch of `__add_task` that found a worker.
unfoldable pub assign : ℕ → WorkerTask → ℕ → Subscription → Queue → Queue
assign now t retries sub q = record q {
  outstanding =
      put t.id
        (record { task = t; worker = sub; retry_counter = retries; deadline = now + t.timeout })
        q.outstanding;
  delivered = q.delivered ++ (sub.queue, t) ∷ [];
  work_count = put sub.worker_id (incr (work_of q sub.worker_id)) q.work_count;
}

-- The branch of `__add_task` that found none.
unfoldable pub hold : ℕ → WorkerTask → ℕ → Queue → Queue
hold now t retries q = record q {
  outstanding = pop t.id q.outstanding;
  unassigned =
      if has t.id q.unassigned
      then q.unassigned
      else put t.id (record { task = t; retry_counter = retries; deadline = now + t.timeout })
          q.unassigned;
}

unfoldable pub place : ℕ → WorkerTask → ℕ → Option Subscription → Queue → Queue × Bool
place now t retries none q = (hold now t retries q, false)
place now t retries (some sub) q = (assign now t retries sub q, true)

-- __add_task
unfoldable pub add_task : ℕ → WorkerTask → ℕ → Queue → Queue × Bool
unfolding place
add_task now t retries q = place now t retries (select q t) q

-- The task leaves the queue and its future is completed.
unfoldable pub finish : String → String → String → Outcome → Queue → Queue
finish worker_id task_id callback o q = record q {
  outstanding = pop task_id q.outstanding;
  work_count = put worker_id (decr (work_of q worker_id)) q.work_count;
  futures = set_future_result callback o q.futures;
}

unfoldable pub answer : String → String → Outcome → Option InProgress → Queue → Queue
answer worker_id task_id o none q = q
answer worker_id task_id o (some ip) q =
    if str_eq ip.worker.worker_id worker_id
    then finish worker_id task_id ip.task.callback o q
    else q

-- __acknowledge_task
unfoldable pub acknowledge_task : String → String → Option Json → Queue → Queue
unfolding answer
acknowledge_task worker_id task_id value q =
    answer worker_id task_id (result value) (get task_id q.outstanding) q

-- __error_task
unfoldable pub error_task : String → String → String → Queue → Queue
unfolding answer
error_task worker_id task_id message q =
    answer worker_id task_id (task_error message) (get task_id q.outstanding) q

-- The body of the loop of `__retry_tasks`.
unfoldable pub retry_task : ℕ → InProgress → Queue → Queue
retry_task now ip q =
    if ltb ip.retry_counter 3
    then (add_task now ip.task (ip.retry_counter + 1) q).0
    else finish ip.worker.worker_id ip.task.id ip.task.callback not_finished q

-- __retry_tasks
unfoldable pub retry_tasks : ℕ → List InProgress → Queue → Queue
retry_tasks now [] q = q
retry_tasks now (ip ∷ rest) q = retry_tasks now rest (retry_task now ip q)

unfoldable pub give_up : OnHold → Queue → Queue
give_up ns q = record q {
  futures = set_future_result ns.task.callback (no_worker ns.task.name) q.futures;
  unassigned = pop ns.task.id q.unassigned;
}

unfoldable pub give_up_all : List OnHold → Queue → Queue
give_up_all [] q = q
give_up_all (ns ∷ rest) q = give_up_all rest (give_up ns q)

unfoldable pub unless_placed : String → Queue × Bool → Queue
unless_placed id (q, true) = record q { unassigned = pop id q.unassigned }
unless_placed id (q, false) = q

-- The body of the last loop of `check_outdated_unassigned_tasks`.
unfoldable pub reassign : ℕ → OnHold → Queue → Queue
unfolding unless_placed
reassign now ns q = unless_placed ns.task.id (add_task now ns.task ns.retry_counter q)

unfoldable pub reassign_all : ℕ → List OnHold → Queue → Queue
reassign_all now [] q = q
reassign_all now (ns ∷ rest) q = reassign_all now rest (reassign now ns q)

abbrev pub late_in_progress : ℕ → Queue → List InProgress
late_in_progress now q = keep (λ ip. ltb ip.deadline now) (values q.outstanding)

abbrev pub late_on_hold : ℕ → Queue → List OnHold
late_on_hold now q = keep (λ ns. ltb ns.deadline now) (values q.unassigned)

-- The last loop runs over the unassigned tasks that are left at its start.
unfoldable pub reassign_left : ℕ → Queue → Queue
reassign_left now q = reassign_all now (values q.unassigned) q

-- check_outdated_unassigned_tasks. The source reads the two lists of overdue tasks before it takes the lock,
-- here they are read in the step itself: the same as long as no other operation holds the lock at that
-- time, waiting for room in the queue of a worker.
unfoldable pub check_outdated : ℕ → Queue → Queue
check_outdated now q =
    reassign_left now
      (give_up_all (late_on_hold now q) (retry_tasks now (late_in_progress now q) q))

-- The subscriptions of one call of `attach`.
unfoldable pub subscriptions_of : String → ℕ → List TaskDescription → List Subscription
subscriptions_of worker_id queue [] = []
subscriptions_of worker_id queue (d ∷ ds) =
    record { worker_id = worker_id; task = d; queue = queue } ∷ subscriptions_of worker_id queue ds

unfoldable pub subscribe_all : List Subscription → Queue → Queue
subscribe_all [] q = q
subscribe_all (s ∷ rest) q =
    subscribe_all rest
      (record q { workers = put s.task.name (workers_for q s.task.name ++ s ∷ []) q.workers })

-- `attach` up to its `yield`; `none` is the AttributeError for an empty list of descriptions.
unfoldable pub attach : String → ℕ → List TaskDescription → Queue → Option Queue
attach worker_id queue [] q = none
attach worker_id queue (d ∷ ds) q = some (
    subscribe_all (subscriptions_of worker_id queue (d ∷ ds))
      (record q { work_count = put worker_id (pos 0) q.work_count }))

-- list.remove: the first equal element goes. (Every element that `detach` removes is there.)
unfoldable pub remove_first : Subscription → List Subscription → List Subscription
remove_first s [] = []
remove_first s (x ∷ xs) =
    let rest = remove_first s xs in if subscription_eq x s then xs else x ∷ rest

unfoldable pub unsubscribe_all : List Subscription → Queue → Queue
unsubscribe_all [] q = q
unsubscribe_all (s ∷ rest) q =
    unsubscribe_all rest (record q {
      workers = put s.task.name (remove_first s (workers_for q s.task.name)) q.workers;
    })

abbrev pub open_tasks : String → Queue → List InProgress
open_tasks worker_id q = keep (λ ip. str_eq ip.worker.worker_id worker_id) (values q.outstanding)

unfoldable pub forget_worker : String → List Subscription → Queue → Queue
forget_worker worker_id subs q =
    let left = unsubscribe_all subs q in record left { work_count = pop worker_id left.work_count }

-- The `finally` block of `attach`.
unfoldable pub detach : ℕ → String → List Subscription → Queue → Queue
detach now worker_id subs q =
    let left = forget_worker worker_id subs q in retry_tasks now (open_tasks worker_id left) left
