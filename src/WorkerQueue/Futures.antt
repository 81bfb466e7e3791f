-- ===== src/WorkerQueue/Futures.antt =====
-- A future that is done keeps its outcome, whatever is called later.
use cloudkeeper.Base.{
  ℕ, String, ◌≡◌, Bool, true, false, Option, none, some, List, [], ◌∷◌, arith, ltb, inl, inr,
  Bool-cases, str_eq, str_eq_iff,
}
use cloudkeeper.Dict.{Dict, get, has, get-put}
use cloudkeeper.WorkerQueue.Data.{
  WorkerTask, Subscription, InProgress, OnHold, Outcome, Queue, set_future_result,
}
use cloudkeeper.WorkerQueue.Select.{select}
use cloudkeeper.WorkerQueue.Ops.{
  assign, hold, place, add_task, finish, answer, acknowledge_task, error_task, retry_task,
  retry_tasks, give_up, give_up_all, unless_placed, reassign, reassign_all, reassign_left,
  check_outdated, late_in_progress, late_on_hold, subscriptions_of, subscribe_all, attach,
  unsubscribe_all, forget_worker, detach, open_tasks,
}
use cloudkeeper.WorkerQueue.Run.{
  Call, add, acknowledge, report_error, check, enter, leave, run, run_all,
}

module _ (c : String) (o : Outcome) where
  abbrev pub IsDone : Queue → Type 0
  IsDone q = get c q.futures ≡ some o

  set_future_result_keeps :
      (d : String) (p : Outcome) (f : Dict Outcome)
      → get c f ≡ some o
      → get c (set_future_result d p f) ≡ some o
  unfolding set_future_result has
  set_future_result_keeps d p f h = elim (Bool-cases (has d f)) [
    | inl e ↦ rw e h
    | inr e ↦ rw (e, get-put) (ground (arith, str_eq_iff d c))
  ]

  place-IsDone :
      (now : ℕ) (t : WorkerTask) (r : ℕ) (s : Option Subscription) (q : Queue)
      → IsDone q
      → IsDone (place now t r s q).0
  unfolding place assign hold
  place-IsDone now t r none q h = h
  place-IsDone now t r (some s) q h = h

  finish-IsDone :
      (w id d : String) (p : Outcome) (q : Queue) → IsDone q → IsDone (finish w id d p q)
  unfolding finish
  finish-IsDone w id d p q h = set_future_result_keeps d p q.futures h

  answer-IsDone :
      (w id : String) (p : Outcome) (found : Option InProgress) (q : Queue)
      → IsDone q
      → IsDone (answer w id p found q)
  unfolding answer
  answer-IsDone w id p none q h = h
  answer-IsDone w id p (some ip) q h = elim (Bool-cases (str_eq ip.worker.worker_id w)) [
    | inl e ↦ rw e (finish-IsDone w id ip.task.callback p q h)
    | inr e ↦ rw e h
  ]

  retry_task-IsDone :
      (now : ℕ) (ip : InProgress) (q : Queue) → IsDone q → IsDone (retry_task now ip q)
  unfolding retry_task add_task
  retry_task-IsDone now ip q h = elim (Bool-cases (ltb ip.retry_counter 3)) [
    | inl e ↦ rw e (place-IsDone now ip.task _ (select q ip.task) q h)
    | inr e ↦ rw e (finish-IsDone _ ip.task.id _ _ q h)
  ]

  retry_tasks-IsDone :
      (now : ℕ) (l : List InProgress) (q : Queue) → IsDone q → IsDone (retry_tasks now l q)
  unfolding retry_tasks
  retry_tasks-IsDone now [] q h = h
  retry_tasks-IsDone now (ip ∷ l) q h = retry_tasks-IsDone now l _ (retry_task-IsDone now ip q h)

  give_up_all-IsDone : (l : List OnHold) (q : Queue) → IsDone q → IsDone (give_up_all l q)
  unfolding give_up_all give_up
  give_up_all-IsDone [] q h = h
  give_up_all-IsDone (ns ∷ l) q h =
      give_up_all-IsDone l _ (set_future_result_keeps ns.task.callback _ q.futures h)

  unless_placed-IsDone : (id : String) (r : Queue × Bool) → IsDone r.0 → IsDone (unless_placed id r)
  unfolding unless_placed
  unless_placed-IsDone id (q, true) h = h
  unless_placed-IsDone id (q, false) h = h

  reassign_all-IsDone :
      (now : ℕ) (l : List OnHold) (q : Queue) → IsDone q → IsDone (reassign_all now l q)
  unfolding reassign_all reassign add_task
  reassign_all-IsDone now [] q h = h
  reassign_all-IsDone now (ns ∷ l) q h = reassign_all-IsDone now l _ (
      unless_placed-IsDone ns.task.id _
        (place-IsDone now ns.task ns.retry_counter (select q ns.task) q h))

  subscribe_all-IsDone : (l : List Subscription) (q : Queue) → IsDone q → IsDone (subscribe_all l q)
  unfolding subscribe_all
  subscribe_all-IsDone [] q h = h
  subscribe_all-IsDone (s ∷ l) q h = subscribe_all-IsDone l _ h

  unsubscribe_all-IsDone :
      (l : List Subscription) (q : Queue) → IsDone q → IsDone (unsubscribe_all l q)
  unfolding unsubscribe_all
  unsubscribe_all-IsDone [] q h = h
  unsubscribe_all-IsDone (s ∷ l) q h = unsubscribe_all-IsDone l _ h

  run-IsDone : (x : Call) (q : Queue) → IsDone q → IsDone (run x q)
  unfolding run add_task acknowledge_task error_task check_outdated reassign_left attach detach
      forget_worker
  run-IsDone (add now t r) q h = place-IsDone now t r (select q t) q h
  run-IsDone (acknowledge w id v) q h = answer-IsDone w id _ (get id q.outstanding) q h
  run-IsDone (report_error w id m) q h = answer-IsDone w id _ (get id q.outstanding) q h
  run-IsDone (check now) q h = reassign_all-IsDone now _ _ (
      give_up_all-IsDone (late_on_hold now q) _
        (retry_tasks-IsDone now (late_in_progress now q) q h))
  run-IsDone (enter w queue []) q h = h
  run-IsDone (enter w queue (d ∷ ds)) q h =
      subscribe_all-IsDone (subscriptions_of w queue (d ∷ ds)) _ h
  run-IsDone (leave now w queue ds) q h =
      retry_tasks-IsDone now (open_tasks w (forget_worker w (subscriptions_of w queue ds) q)) _
        (unsubscribe_all-IsDone (subscriptions_of w queue ds) q h)

  -- A future that is done keeps its outcome through any calls: it is set once.
  pub run_all-IsDone : (xs : List Call) (q : Queue) → IsDone q → IsDone (run_all xs q)
  unfolding run_all
  run_all-IsDone [] q h = h
  run_all-IsDone (x ∷ xs) q h = run_all-IsDone xs (run x q) (run-IsDone x q h)
