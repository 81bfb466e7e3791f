-- ===== src/WorkerQueue/WellFormed.antt =====
-- The well-formedness of the worker queue's tables, and that every operation keeps it.
use cloudkeeper.Base.{
  ℕ, ◌+◌, ◌≤◌, String, ◌≡◌, refl, Bool, true, false, Option, none, some, List, [], ◌∷◌, arith, ltb,
  inl, inr, Bool-cases, str_eq, All,
}
use cloudkeeper.Dict.{get, has, pop, IsDistinct, put-IsDistinct, pop-IsDistinct}
use cloudkeeper.Dict.Entries.{Entries, Entries-nil, put-Entries, pop-Entries, values-All}
use cloudkeeper.WorkerQueue.Data.{
  WorkerTask, Subscription, InProgress, OnHold, Outcome, Queue, empty_queue,
}
use cloudkeeper.WorkerQueue.Run.{
  Call, add, acknowledge, report_error, check, enter, leave, run, run_all,
}
use cloudkeeper.WorkerQueue.Select.{select}
use cloudkeeper.WorkerQueue.Ops.{
  assign, hold, place, add_task, finish, answer, acknowledge_task, error_task, retry_task,
  retry_tasks, give_up, give_up_all, unless_placed, reassign, reassign_all, late_in_progress,
  late_on_hold, reassign_left, check_outdated, subscriptions_of, subscribe_all, attach,
  unsubscribe_all, forget_worker, detach,
}

-- A task stands under its own id, and it has been retried at most three times.
abbrev pub IsRunning : String → InProgress → Type 0
IsRunning k ip = (ip.task.id ≡ k) × (ip.retry_counter ≤ 3)

abbrev pub IsWaiting : String → OnHold → Type 0
IsWaiting k ns = (ns.task.id ≡ k) × (ns.retry_counter ≤ 3)

pub record IsWellFormed (q : Queue) : Type 0 where
  pub running_distinct : IsDistinct q.outstanding
  pub waiting_distinct : IsDistinct q.unassigned
  pub running : Entries IsRunning q.outstanding
  pub waiting : Entries IsWaiting q.unassigned

module _ (q : Queue) (h : IsWellFormed q) where
  assign-IsWellFormed :
      (now : ℕ) (t : WorkerTask) (r : ℕ) (s : Subscription)
      → r ≤ 3
      → IsWellFormed (assign now t r s q)
  unfolding assign
  assign-IsWellFormed now t r s small = record {
    running_distinct = put-IsDistinct t.id _ q.outstanding h.running_distinct;
    waiting_distinct = h.waiting_distinct;
    running = put-Entries IsRunning t.id _ q.outstanding (refl, small) h.running;
    waiting = h.waiting;
  }

  hold-IsWellFormed : (now : ℕ) (t : WorkerTask) (r : ℕ) → r ≤ 3 → IsWellFormed (hold now t r q)
  unfolding hold
  hold-IsWellFormed now t r small = elim (Bool-cases (has t.id q.unassigned)) [
    | inl old ↦ rw old (record {
      running_distinct = pop-IsDistinct t.id q.outstanding h.running_distinct;
      waiting_distinct = h.waiting_distinct;
      running = pop-Entries IsRunning t.id q.outstanding h.running;
      waiting = h.waiting;
    })
    | inr new ↦ rw new (record {
      running_distinct = pop-IsDistinct t.id q.outstanding h.running_distinct;
      waiting_distinct = put-IsDistinct t.id _ q.unassigned h.waiting_distinct;
      running = pop-Entries IsRunning t.id q.outstanding h.running;
      waiting = put-Entries IsWaiting t.id _ q.unassigned (refl, small) h.waiting;
    })
  ]

  place-IsWellFormed :
      (now : ℕ) (t : WorkerTask) (r : ℕ) (o : Option Subscription)
      → r ≤ 3
      → IsWellFormed (place now t r o q).0
  unfolding place
  place-IsWellFormed now t r none small = hold-IsWellFormed now t r small
  place-IsWellFormed now t r (some s) small = assign-IsWellFormed now t r s small

  pub add_task-IsWellFormed :
      (now : ℕ) (t : WorkerTask) (r : ℕ) → r ≤ 3 → IsWellFormed (add_task now t r q).0
  unfolding add_task
  add_task-IsWellFormed now t r small = place-IsWellFormed now t r (select q t) small

  finish-IsWellFormed : (w id c : String) (o : Outcome) → IsWellFormed (finish w id c o q)
  unfolding finish
  finish-IsWellFormed w id c o = record {
    running_distinct = pop-IsDistinct id q.outstanding h.running_distinct;
    waiting_distinct = h.waiting_distinct;
    running = pop-Entries IsRunning id q.outstanding h.running;
    waiting = h.waiting;
  }

  waiting_popped : (id : String) → IsWellFormed (record q { unassigned = pop id q.unassigned })
  waiting_popped id = record {
    running_distinct = h.running_distinct;
    waiting_distinct = pop-IsDistinct id q.unassigned h.waiting_distinct;
    running = h.running;
    waiting = pop-Entries IsWaiting id q.unassigned h.waiting;
  }

  -- Only the two tables of tasks count.
  same_tables :
      (p : Queue) → p.outstanding ≡ q.outstanding → p.unassigned ≡ q.unassigned → IsWellFormed p
  same_tables p e f = record {
    running_distinct = rw e h.running_distinct;
    waiting_distinct = rw f h.waiting_distinct;
    running = rw e h.running;
    waiting = rw f h.waiting;
  }

module _ (q : Queue) (h : IsWellFormed q) where
  answer-IsWellFormed :
      (w id : String) (o : Outcome) (found : Option InProgress)
      → IsWellFormed (answer w id o found q)
  unfolding answer
  answer-IsWellFormed w id o none = h
  answer-IsWellFormed w id o (some ip) = elim (Bool-cases (str_eq ip.worker.worker_id w)) [
    | inl e ↦ rw e (finish-IsWellFormed q h w id ip.task.callback o)
    | inr e ↦ rw e h
  ]

  retry_task-IsWellFormed : (now : ℕ) (ip : InProgress) → IsWellFormed (retry_task now ip q)
  unfolding retry_task
  retry_task-IsWellFormed now ip = elim (Bool-cases (ltb ip.retry_counter 3)) [
    | inl e ↦ rw e (add_task-IsWellFormed q h now ip.task (ip.retry_counter + 1) (ground arith))
    | inr e ↦ rw e (finish-IsWellFormed q h _ ip.task.id ip.task.callback _)
  ]

  give_up-IsWellFormed : (ns : OnHold) → IsWellFormed (give_up ns q)
  unfolding give_up
  give_up-IsWellFormed ns = same_tables _ (waiting_popped q h ns.task.id) _ refl refl

  reassign-IsWellFormed :
      (now : ℕ) (ns : OnHold) → ns.retry_counter ≤ 3 → IsWellFormed (reassign now ns q)
  unfolding reassign
  reassign-IsWellFormed now ns small =
      go (add_task now ns.task ns.retry_counter q)
        (add_task-IsWellFormed q h now ns.task ns.retry_counter small)
    where
      go : (r : Queue × Bool) → IsWellFormed r.0 → IsWellFormed (unless_placed ns.task.id r)
      go (p, true) k = waiting_popped p k ns.task.id
      go (p, false) k = k

pub retry_tasks-IsWellFormed :
    (now : ℕ) (l : List InProgress) (q : Queue)
    → IsWellFormed q
    → IsWellFormed (retry_tasks now l q)
unfolding retry_tasks
retry_tasks-IsWellFormed now [] q h = h
retry_tasks-IsWellFormed now (ip ∷ l) q h =
    retry_tasks-IsWellFormed now l _ (retry_task-IsWellFormed q h now ip)

pub give_up_all-IsWellFormed :
    (l : List OnHold) (q : Queue) → IsWellFormed q → IsWellFormed (give_up_all l q)
unfolding give_up_all
give_up_all-IsWellFormed [] q h = h
give_up_all-IsWellFormed (ns ∷ l) q h = give_up_all-IsWellFormed l _ (give_up-IsWellFormed q h ns)

reassign_all-IsWellFormed :
    (now : ℕ) (l : List OnHold) (q : Queue)
    → All (λ ns. ns.retry_counter ≤ 3) l
    → IsWellFormed q
    → IsWellFormed (reassign_all now l q)
unfolding reassign_all
reassign_all-IsWellFormed now [] q small h = h
reassign_all-IsWellFormed now (ns ∷ l) q small h =
    reassign_all-IsWellFormed now l _ small.1 (reassign-IsWellFormed q h now ns small.0)

subscribe_all-IsWellFormed :
    (l : List Subscription) (q : Queue) → IsWellFormed q → IsWellFormed (subscribe_all l q)
unfolding subscribe_all
subscribe_all-IsWellFormed [] q h = h
subscribe_all-IsWellFormed (s ∷ l) q h =
    subscribe_all-IsWellFormed l _ (same_tables q h _ refl refl)

pub unsubscribe_all-IsWellFormed :
    (l : List Subscription) (q : Queue) → IsWellFormed q → IsWellFormed (unsubscribe_all l q)
unfolding unsubscribe_all
unsubscribe_all-IsWellFormed [] q h = h
unsubscribe_all-IsWellFormed (s ∷ l) q h =
    unsubscribe_all-IsWellFormed l _ (same_tables q h _ refl refl)

check_outdated-IsWellFormed :
    (now : ℕ) (q : Queue) → IsWellFormed q → IsWellFormed (check_outdated now q)
unfolding check_outdated reassign_left
check_outdated-IsWellFormed now q h =
    let retried = retry_tasks-IsWellFormed now (late_in_progress now q) q h in
    let given_up = give_up_all-IsWellFormed (late_on_hold now q) _ retried in
    reassign_all-IsWellFormed now _ _
      (values-All IsWaiting (λ ns. ns.retry_counter ≤ 3) _ given_up.waiting_distinct
        given_up.waiting (λ k ns w. w.1))
      given_up

pub forget_worker-IsWellFormed :
    (w : String) (l : List Subscription) (q : Queue)
    → IsWellFormed q
    → IsWellFormed (forget_worker w l q)
unfolding forget_worker
forget_worker-IsWellFormed w l q h = same_tables _ (unsubscribe_all-IsWellFormed l q h) _ refl refl

detach-IsWellFormed :
    (now : ℕ) (w : String) (l : List Subscription) (q : Queue)
    → IsWellFormed q
    → IsWellFormed (detach now w l q)
unfolding detach
detach-IsWellFormed now w l q h =
    retry_tasks-IsWellFormed now _ _ (forget_worker-IsWellFormed w l q h)

-- The caller of `add_task` passes no retry count above the limit (all callers pass the default 0).
abbrev pub IsModest : Call → Type 0
IsModest (add now t retries) = retries ≤ 3
IsModest _ = Unit

pub run-IsWellFormed : (c : Call) (q : Queue) → IsModest c → IsWellFormed q → IsWellFormed (run c q)
unfolding run acknowledge_task error_task attach
run-IsWellFormed (add now t retries) q small h = add_task-IsWellFormed q h now t retries small
run-IsWellFormed (acknowledge w id v) q _ h = answer-IsWellFormed q h w id _ (get id q.outstanding)
run-IsWellFormed (report_error w id m) q _ h = answer-IsWellFormed q h w id _ (get id q.outstanding)
run-IsWellFormed (check now) q _ h = check_outdated-IsWellFormed now q h
run-IsWellFormed (enter w queue []) q _ h = h
run-IsWellFormed (enter w queue (d ∷ ds)) q _ h =
    subscribe_all-IsWellFormed (subscriptions_of w queue (d ∷ ds)) _ (same_tables q h _ refl refl)
run-IsWellFormed (leave now w queue ds) q _ h =
    detach-IsWellFormed now w (subscriptions_of w queue ds) q h

pub empty_queue-IsWellFormed : IsWellFormed empty_queue
empty_queue-IsWellFormed = record {
  running_distinct = tt;
  waiting_distinct = tt;
  running = Entries-nil IsRunning;
  waiting = Entries-nil IsWaiting;
}

run_all_keeps :
    (cs : List Call) (q : Queue) → All IsModest cs → IsWellFormed q → IsWellFormed (run_all cs q)
unfolding run_all
run_all_keeps [] q modest h = h
run_all_keeps (c ∷ cs) q modest h =
    run_all_keeps cs (run c q) modest.1 (run-IsWellFormed c q modest.0 h)

-- After any calls from the start, no id is listed twice in either table, every entry stands under
-- its task's id, and no task has been retried more than three times, if the calls of `add_task`
-- pass no more.
pub run_all-IsWellFormed :
    (cs : List Call) → All IsModest cs → IsWellFormed (run_all cs empty_queue)
run_all-IsWellFormed cs modest = run_all_keeps cs empty_queue modest empty_queue-IsWellFormed
