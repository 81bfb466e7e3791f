-- ===== src/WorkerQueue/Exclusive/Runs.antt =====
-- No task stands in both tables of the worker queue, through any run.
use cloudkeeper.Base.{
  String, ◌≡◌, false, Option, none, some, List, [], ◌∷◌, ltb, inl, inr, Bool-cases, str_eq, All,
}
use cloudkeeper.Dict.{get, has}
use cloudkeeper.WorkerQueue.Data.{Subscription, InProgress, Outcome, Queue}
use cloudkeeper.WorkerQueue.Ops.{
  answer, acknowledge_task, error_task, reassign_left, check_outdated, late_on_hold,
  subscriptions_of, subscribe_all, attach, unsubscribe_all, forget_worker, detach,
}
use cloudkeeper.WorkerQueue.WellFormed.{
  IsWellFormed, IsModest, run-IsWellFormed, forget_worker-IsWellFormed,
}
use cloudkeeper.WorkerQueue.Run.{
  Call, add, acknowledge, report_error, check, enter, leave, run, run_all,
}
use cloudkeeper.WorkerQueue.Exclusive.{
  IsExclusive, add_task-IsExclusive, finish-IsExclusive, give_up_all-IsExclusive,
  reassign_all-IsExclusive, some_retried,
}

-- A call of `add_task` brings a task that is not waiting already.
abbrev pub IsFresh : Call → Queue → Type 0
IsFresh (add now t r) q = has t.id q.unassigned ≡ false
IsFresh _ q = Unit

abbrev pub AllFresh : List Call → Queue → Type 0
AllFresh [] q = Unit
AllFresh (x ∷ xs) q = IsFresh x q × AllFresh xs (run x q)

answer-IsExclusive :
    (w id : String) (o : Outcome) (found : Option InProgress) (q : Queue)
    → IsExclusive q
    → IsExclusive (answer w id o found q)
unfolding answer
answer-IsExclusive w id o none q h = h
answer-IsExclusive w id o (some ip) q h = elim (Bool-cases (str_eq ip.worker.worker_id w)) [
  | inl e ↦ rw e (finish-IsExclusive w id ip.task.callback o q h)
  | inr e ↦ rw e h
]

subscribe_all-IsExclusive :
    (l : List Subscription) (q : Queue) → IsExclusive q → IsExclusive (subscribe_all l q)
unfolding subscribe_all
subscribe_all-IsExclusive [] q h = h
subscribe_all-IsExclusive (s ∷ l) q h = subscribe_all-IsExclusive l _ h

unsubscribe_all-IsExclusive :
    (l : List Subscription) (q : Queue) → IsExclusive q → IsExclusive (unsubscribe_all l q)
unfolding unsubscribe_all
unsubscribe_all-IsExclusive [] q h = h
unsubscribe_all-IsExclusive (s ∷ l) q h = unsubscribe_all-IsExclusive l _ h

forget_worker-IsExclusive :
    (w : String) (l : List Subscription) (q : Queue)
    → IsExclusive q
    → IsExclusive (forget_worker w l q)
unfolding forget_worker
forget_worker-IsExclusive w l q h = unsubscribe_all-IsExclusive l q h

-- One call, whichever it is, keeps the two tables of a well-formed queue apart, if a task that it
-- adds is not waiting already.
pub run-IsExclusive :
    (x : Call) (q : Queue) → IsFresh x q → IsWellFormed q → IsExclusive q → IsExclusive (run x q)
unfolding run acknowledge_task error_task check_outdated reassign_left attach detach
run-IsExclusive (add now t r) q fresh w h = add_task-IsExclusive now t r q h fresh
run-IsExclusive (acknowledge w id v) q _ _ h = answer-IsExclusive w id _ (get id q.outstanding) q h
run-IsExclusive (report_error w id m) q _ _ h = answer-IsExclusive w id _ (get id q.outstanding) q h
run-IsExclusive (check now) q _ w h = reassign_all-IsExclusive now _ _ (
    give_up_all-IsExclusive (late_on_hold now q) _
      (some_retried now (λ ip. ltb ip.deadline now) q w h))
run-IsExclusive (enter w queue []) q _ _ h = h
run-IsExclusive (enter w queue (d ∷ ds)) q _ _ h =
    subscribe_all-IsExclusive (subscriptions_of w queue (d ∷ ds)) _ h
run-IsExclusive (leave now w queue ds) q _ wf h =
    let subs = subscriptions_of w queue ds in
    some_retried now (λ ip. str_eq ip.worker.worker_id w) (forget_worker w subs q)
      (forget_worker-IsWellFormed w subs q wf) (forget_worker-IsExclusive w subs q h)

-- Through any calls from a well-formed queue with no task in both tables there is none, if a task is
-- never added while it waits and no retry count above the limit is passed.
pub run_all-IsExclusive :
    (xs : List Call) (q : Queue)
    → AllFresh xs q
    → All IsModest xs
    → IsWellFormed q
    → IsExclusive q
    → IsExclusive (run_all xs q)
unfolding run_all
run_all-IsExclusive [] q _ _ w h = h
run_all-IsExclusive (x ∷ xs) q fresh modest w h =
    run_all-IsExclusive xs (run x q) fresh.1 modest.1 (run-IsWellFormed x q modest.0 w)
      (run-IsExclusive x q fresh.0 w h)
