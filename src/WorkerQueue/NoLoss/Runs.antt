-- ===== src/WorkerQueue/NoLoss/Runs.antt =====
-- No task is lost: the loops of the worker queue, and its runs.
use cloudkeeper.Base.{
  ℕ, String, ◌≡◌, refl, sym, subst, ◌≤◌, ◌∙◌, true, false, ◌||◌, some, List, [], ◌∷◌, arith, ltb,
  inl, inr, Option-cases, str_eq, str_eq_refl, All, All-keep, All-map,
}
use cloudkeeper.Dict.{get, has, values, has-put, has-pop, has_of_get}
use cloudkeeper.Dict.Entries.{Entries, put-Entries, pop-Entries, values-All}
use cloudkeeper.WorkerQueue.Data.{WorkerTask, Subscription, InProgress, OnHold, Queue}
use cloudkeeper.WorkerQueue.Select.{select}
use cloudkeeper.WorkerQueue.Ops.{
  assign, hold, place, add_task, acknowledge_task, error_task, retry_tasks, give_up_all,
  reassign_all, late_in_progress, late_on_hold, reassign_left, check_outdated, subscriptions_of,
  subscribe_all, attach, unsubscribe_all, open_tasks, forget_worker, detach,
}
use cloudkeeper.WorkerQueue.Run.{
  Call, add, acknowledge, report_error, check, enter, leave, run, run_all,
}
use cloudkeeper.WorkerQueue.WellFormed.{
  IsWellFormed, IsModest, run-IsWellFormed, add_task-IsWellFormed, retry_tasks-IsWellFormed,
  give_up_all-IsWellFormed, forget_worker-IsWellFormed,
}
use cloudkeeper.WorkerQueue.NoLoss.{
  IsTracked, Owns, answer-IsTracked, retry_task-IsTracked, reassign-IsTracked, add_task-IsTracked,
  give_up-IsTracked, same_tables,
}

module _ (k c : String) where
  retry_tasks-IsTracked :
      (now : ℕ) (l : List InProgress) (q : Queue)
      → All (λ ip. Owns k c ip.task) l
      → IsTracked k c q
      → IsTracked k c (retry_tasks now l q)
  unfolding retry_tasks
  retry_tasks-IsTracked now [] q own h = h
  retry_tasks-IsTracked now (ip ∷ l) q own h =
      retry_tasks-IsTracked now l _ own.1 (retry_task-IsTracked k c q h now ip own.0)

  give_up_all-IsTracked :
      (l : List OnHold) (q : Queue)
      → All (λ ns. Owns k c ns.task) l
      → IsTracked k c q
      → IsTracked k c (give_up_all l q)
  unfolding give_up_all
  give_up_all-IsTracked [] q own h = h
  give_up_all-IsTracked (ns ∷ l) q own h =
      give_up_all-IsTracked l _ own.1 (give_up-IsTracked k c q h ns own.0)

  reassign_all-IsTracked :
      (now : ℕ) (l : List OnHold) (q : Queue)
      → All (λ ns. Owns k c ns.task) l
      → IsTracked k c q
      → IsTracked k c (reassign_all now l q)
  unfolding reassign_all
  reassign_all-IsTracked now [] q own h = h
  reassign_all-IsTracked now (ns ∷ l) q own h =
      reassign_all-IsTracked now l _ own.1 (reassign-IsTracked k c q h now ns own.0)

  subscribe_all-IsTracked :
      (l : List Subscription) (q : Queue) → IsTracked k c q → IsTracked k c (subscribe_all l q)
  unfolding subscribe_all
  subscribe_all-IsTracked [] q h = h
  subscribe_all-IsTracked (s ∷ l) q h =
      subscribe_all-IsTracked l _ (same_tables k c q h _ refl refl refl)

  unsubscribe_all-IsTracked :
      (l : List Subscription) (q : Queue) → IsTracked k c q → IsTracked k c (unsubscribe_all l q)
  unfolding unsubscribe_all
  unsubscribe_all-IsTracked [] q h = h
  unsubscribe_all-IsTracked (s ∷ l) q h =
      unsubscribe_all-IsTracked l _ (same_tables k c q h _ refl refl refl)

  -- The running tasks with the id `k` are the tracked one.
  running_own :
      (q : Queue)
      → IsWellFormed q
      → IsTracked k c q
      → All (λ ip. Owns k c ip.task) (values q.outstanding)
  running_own q w h =
      values-All (λ i ip. (ip.task.id ≡ i) × (i ≡ k → ip.task.callback ≡ c)) _ q.outstanding
        w.running_distinct (λ i ip e. ((w.running i ip e).0, h.running i ip e))
        (λ i ip both same. both.1 (sym both.0 ∙ same))

  waiting_own :
      (q : Queue)
      → IsWellFormed q
      → IsTracked k c q
      → All (λ ns. Owns k c ns.task) (values q.unassigned)
  waiting_own q w h =
      values-All (λ i ns. (ns.task.id ≡ i) × (i ≡ k → ns.task.callback ≡ c)) _ q.unassigned
        w.waiting_distinct (λ i ns e. ((w.waiting i ns e).0, h.waiting i ns e))
        (λ i ns both same. both.1 (sym both.0 ∙ same))

  pub check_outdated-IsTracked :
      (now : ℕ) (q : Queue)
      → IsWellFormed q
      → IsTracked k c q
      → IsTracked k c (check_outdated now q)
  unfolding check_outdated reassign_left
  check_outdated-IsTracked now q w h =
      let retried =
        retry_tasks-IsTracked now (late_in_progress now q) q
          (All-keep _ (λ ip. ltb ip.deadline now) _
            (All-map _ _ _ (λ ip own late. own) (running_own q w h)))
          h in
      let given_up =
        give_up_all-IsTracked (late_on_hold now q) _
          (All-keep _ (λ ns. ltb ns.deadline now) _
            (All-map _ _ _ (λ ns own late. own) (waiting_own q w h)))
          retried in
      let wf =
        give_up_all-IsWellFormed (late_on_hold now q) _
          (retry_tasks-IsWellFormed now (late_in_progress now q) q w) in
      reassign_all-IsTracked now _ _ (waiting_own _ wf given_up) given_up

  detach-IsTracked :
      (now : ℕ) (w : String) (l : List Subscription) (q : Queue)
      → IsWellFormed q
      → IsTracked k c q
      → IsTracked k c (detach now w l q)
  unfolding detach forget_worker
  detach-IsTracked now w l q wf h =
      let left =
        same_tables k c _ (unsubscribe_all-IsTracked l q h) (forget_worker w l q) refl refl refl in
      retry_tasks-IsTracked now (open_tasks w (forget_worker w l q)) _
        (All-keep _ (λ ip. str_eq ip.worker.worker_id w) _
          (All-map _ _ _ (λ ip own late. own)
            (running_own (forget_worker w l q) (forget_worker-IsWellFormed w l q wf) left)))
        left

  -- No call adds another task under the id `k`.
  abbrev pub Respects : Call → Type 0
  Respects (add now t retries) = Owns k c t
  Respects _ = Unit

  run-IsTracked :
      (x : Call) (q : Queue)
      → Respects x
      → IsWellFormed q
      → IsTracked k c q
      → IsTracked k c (run x q)
  unfolding run acknowledge_task error_task attach
  run-IsTracked (add now t retries) q own w h = add_task-IsTracked k c q h now t retries own
  run-IsTracked (acknowledge w id v) q _ _ h = answer-IsTracked k c q h w id _
  run-IsTracked (report_error w id m) q _ _ h = answer-IsTracked k c q h w id _
  run-IsTracked (check now) q _ w h = check_outdated-IsTracked now q w h
  run-IsTracked (enter w queue []) q _ _ h = h
  run-IsTracked (enter w queue (d ∷ ds)) q _ _ h =
      subscribe_all-IsTracked (subscriptions_of w queue (d ∷ ds)) _
        (same_tables k c q h _ refl refl refl)
  run-IsTracked (leave now w queue ds) q _ wf h =
      detach-IsTracked now w (subscriptions_of w queue ds) q wf h

  -- A task that is in a table of a well-formed queue, or whose future is done, stays so through any
  -- calls that add no other task under its id: it is never dropped with its future pending.
  pub run_all-IsTracked :
      (xs : List Call) (q : Queue)
      → All IsModest xs
      → All Respects xs
      → IsWellFormed q
      → IsTracked k c q
      → IsTracked k c (run_all xs q)
  unfolding run_all
  run_all-IsTracked [] q _ _ w h = h
  run_all-IsTracked (x ∷ xs) q modest own w h =
      run_all-IsTracked xs (run x q) modest.1 own.1 (run-IsWellFormed x q modest.0 w)
        (run-IsTracked x q own.0 w h)

module _ (now : ℕ) (t : WorkerTask) (r : ℕ) (q : Queue) (fresh : has t.id q.outstanding ≡ false)
    (idle : has t.id q.unassigned ≡ false) where
  nothing_runs : Entries (λ i ip. i ≡ t.id → ip.task.callback ≡ t.callback) q.outstanding
  nothing_runs i ip e same =
      absurd (
        clash
          (has_of_get t.id ip q.outstanding (subst (λ j. get j q.outstanding ≡ some ip) same e)))
    where
      clash : has t.id q.outstanding ≡ true → ⊥
      clash h = cc

  nothing_waits : Entries (λ i ns. i ≡ t.id → ns.task.callback ≡ t.callback) q.unassigned
  nothing_waits i ns e same =
      absurd
        (clash (has_of_get t.id ns q.unassigned (subst (λ j. get j q.unassigned ≡ some ns) same e)))
    where
      clash : has t.id q.unassigned ≡ true → ⊥
      clash h = cc

  -- A task with a new id is tracked once it is added.
  pub add_task_starts : IsTracked t.id t.callback (add_task now t r q).0
  unfolding add_task place assign hold
  add_task_starts = elim (Option-cases (select q t)) [
    | inl e ↦
        rw (e, idle)
          (record {
            running = pop-Entries _ t.id q.outstanding nothing_runs;
            waiting = put-Entries _ t.id _ q.unassigned (λ _. refl) nothing_waits;
            kept = rw (has-pop, has-put) (ground (arith, str_eq_refl t.id));
          })
    | inr (s, e) ↦ rw e (record {
      running = put-Entries _ t.id _ q.outstanding (λ _. refl) nothing_runs;
      waiting = nothing_waits;
      kept = rw has-put (ground (arith, str_eq_refl t.id));
    })
  ]

  -- A task that is added to a well-formed queue under a new id, with at most three retries on its
  -- count, is never dropped: after any further calls that add no other task under its id it is in
  -- one of the two tables, or its future is done.
  pub added_task_kept :
      (xs : List Call)
      → r ≤ 3
      → IsWellFormed q
      → All IsModest xs
      → All (Respects t.id t.callback) xs
      → (has t.id (run_all xs (add_task now t r q).0).outstanding
          || has t.id (run_all xs (add_task now t r q).0).unassigned
          || has t.callback (run_all xs (add_task now t r q).0).futures)
        ≡ true
  added_task_kept xs small w modest own =
      (run_all-IsTracked t.id t.callback xs _ modest own (add_task-IsWellFormed q w now t r small)
        add_task_starts).kept
