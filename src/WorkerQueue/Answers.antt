-- ===== src/WorkerQueue/Answers.antt =====
-- Results and errors that workers report, and the outcomes of the futures.
use cloudkeeper.Base.{
  ℤ, String, ◌≡◌, ◌≢◌, refl, false, Option, none, some, arith, inl, inr, Option-cases, str_eq,
  str_eq_iff, str_eq_refl, decr,
}
use cloudkeeper.Dict.{Dict, put, get, has, get-put, get-pop}
use cloudkeeper.Json.{Json}
use cloudkeeper.WorkerQueue.Data.{
  InProgress, Outcome, result, task_error, Queue, work_of, set_future_result,
}
use cloudkeeper.WorkerQueue.Ops.{finish, answer, acknowledge_task, error_task}

work_of_written :
    (p : Queue) (w : String) (n : ℤ) (d : Dict ℤ) → p.work_count ≡ put w n d → work_of p w ≡ n
unfolding work_of
work_of_written p w n d e = ground (arith, get-put w w n d, str_eq_refl w)

-- What an accepted answer does to the queue.
pub record IsAnswered (q p : Queue) (ip : InProgress) (id : String) (o : Outcome) : Type 0 where
  pub outcome : get ip.task.callback p.futures ≡ some o
  pub gone : get id p.outstanding ≡ none
  pub counted : work_of p ip.worker.worker_id ≡ decr (work_of q ip.worker.worker_id)
  pub others : (j : String) → j ≢ id → get j p.outstanding ≡ get j q.outstanding
  pub waiting : p.unassigned ≡ q.unassigned

module _ (q : Queue) (id : String) (ip : InProgress) (found : get id q.outstanding ≡ some ip)
    (pending : has ip.task.callback q.futures ≡ false) where
  answer-IsAnswered :
      (o : Outcome)
      → IsAnswered q (answer ip.worker.worker_id id o (get id q.outstanding) q) ip id o
  unfolding answer finish set_future_result
  answer-IsAnswered o =
      rw (found, str_eq_refl ip.worker.worker_id, pending)
        (record {
          outcome = rw get-put (ground (arith, str_eq_refl ip.task.callback));
          gone = rw get-pop (ground (arith, str_eq_refl id));
          counted = work_of_written _ ip.worker.worker_id _ q.work_count refl;
          others = λ j other. rw get-pop (ground (arith, str_eq_iff id j));
          waiting = refl;
        })

  -- When the worker that holds a task acknowledges it and the task's future is pending, the future
  -- gets the result, the task leaves the table, the worker's count goes down by one, and no other
  -- task is touched.
  pub acknowledge_task-IsAnswered :
      (v : Option Json)
      → IsAnswered q (acknowledge_task ip.worker.worker_id id v q) ip id (result v)
  unfolding acknowledge_task
  acknowledge_task-IsAnswered v = answer-IsAnswered (result v)

  -- The same for an error that the worker reports: the future gets the exception.
  pub error_task-IsAnswered :
      (m : String) → IsAnswered q (error_task ip.worker.worker_id id m q) ip id (task_error m)
  unfolding error_task
  error_task-IsAnswered m = answer-IsAnswered (task_error m)

-- An answer for a task that is not in progress, or from a worker that does not hold it, changes
-- nothing.
pub answers_ignored :
    (q : Queue) (w id : String) (v : Option Json) (m : String)
    → ((ip : InProgress) → get id q.outstanding ≡ some ip → ip.worker.worker_id ≢ w)
    → (acknowledge_task w id v q ≡ q) × (error_task w id m q ≡ q)
unfolding acknowledge_task error_task answer
answers_ignored q w id v m strange = elim (Option-cases (get id q.outstanding)) [
  | inl missing ↦ rw missing (refl, refl)
  | inr (ip, found) ↦ rw (found, other ip (strange ip found)) (refl, refl)
]
  where
    other : (ip : InProgress) → ip.worker.worker_id ≢ w → str_eq ip.worker.worker_id w ≡ false
    other ip differs = ground (arith, str_eq_iff ip.worker.worker_id w)
