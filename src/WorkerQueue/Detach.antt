-- ===== src/WorkerQueue/Detach.antt =====
-- When a worker leaves, its open tasks go to others.
use cloudkeeper.Base.{
  ℕ, ◌+◌, String, ◌≡◌, subst, true, false, some, List, [], ◌∷◌, ltb, inl, inr, Bool-cases,
  Option-cases, str_eq, str_eq_refl, exist, All, keep-IsIn, exist_of_IsIn, All-of_IsIn,
}
use cloudkeeper.Dict.{values, IsDistinct}
use cloudkeeper.Dict.Entries.{Entries, put-Entries_other, pop-Entries_other, All-Entries}
use cloudkeeper.WorkerQueue.Data.{
  WorkerTask, TaskDescription, Subscription, InProgress, Queue, workers_for,
}
use cloudkeeper.WorkerQueue.Subscribed.{IsGone, HasOnly, forget_worker-IsGone, select-other}
use cloudkeeper.WorkerQueue.Select.{select}
use cloudkeeper.WorkerQueue.Ops.{
  assign, hold, place, add_task, finish, retry_task, retry_tasks, open_tasks, subscriptions_of,
  forget_worker, detach,
}
use cloudkeeper.WorkerQueue.WellFormed.{IsWellFormed, forget_worker-IsWellFormed}

module _ (w : String) where
  abbrev Runs : List InProgress → String → InProgress → Type 0
  Runs l k ip = str_eq ip.worker.worker_id w ≡ true → exist (λ x. str_eq x.task.id k) l ≡ true

  record Leaving (l : List InProgress) (q : Queue) : Type 0 where
    gone : IsGone w q
    open_listed : Entries (Runs l) q.outstanding

  drop :
      (ip : InProgress) (l : List InProgress) (j : String) (v : InProgress)
      → str_eq ip.task.id j ≡ false
      → Runs (ip ∷ l) j v
      → Runs l j v
  drop ip l j v other h mine = rw other at (h mine)

  elsewhere :
      (q : Queue) (t : WorkerTask) (s : Subscription) (P : Type 0)
      → IsGone w q
      → select q t ≡ some s
      → str_eq s.worker_id w ≡ true
      → P
  elsewhere q t s P gone chosen mine = absurd (clash (select-other w q t s gone chosen))
    where
      clash : str_eq s.worker_id w ≡ false → ⊥
      clash other = cc

  add_task-Leaving :
      (now : ℕ) (ip : InProgress) (r : ℕ) (l : List InProgress) (q : Queue)
      → Leaving (ip ∷ l) q
      → Leaving l (add_task now ip.task r q).0
  unfolding add_task place assign hold workers_for
  add_task-Leaving now ip r l q h = elim (Option-cases (select q ip.task)) [
    | inl e ↦ rw e (record {
      gone = h.gone;
      open_listed =
          pop-Entries_other (Runs (ip ∷ l)) (Runs l) ip.task.id q.outstanding (drop ip l)
            h.open_listed;
    })
    | inr (s, e) ↦ rw e (record {
      gone = h.gone;
      open_listed =
          put-Entries_other (Runs (ip ∷ l)) (Runs l) ip.task.id _ q.outstanding
            (elsewhere q ip.task s _ h.gone e) (drop ip l) h.open_listed;
    })
  ]

  retry_task-Leaving :
      (now : ℕ) (ip : InProgress) (l : List InProgress) (q : Queue)
      → Leaving (ip ∷ l) q
      → Leaving l (retry_task now ip q)
  unfolding retry_task finish workers_for
  retry_task-Leaving now ip l q h = elim (Bool-cases (ltb ip.retry_counter 3)) [
    | inl e ↦ rw e (add_task-Leaving now ip (ip.retry_counter + 1) l q h)
    | inr e ↦ rw e (record {
      gone = h.gone;
      open_listed =
          pop-Entries_other (Runs (ip ∷ l)) (Runs l) ip.task.id q.outstanding (drop ip l)
            h.open_listed;
    })
  ]

  retry_tasks-Leaving :
      (now : ℕ) (l : List InProgress) (q : Queue) → Leaving l q → Leaving [] (retry_tasks now l q)
  unfolding retry_tasks
  retry_tasks-Leaving now [] q h = h
  retry_tasks-Leaving now (ip ∷ l) q h =
      retry_tasks-Leaving now l _ (retry_task-Leaving now ip l q h)

  open_tasks-listed : (q : Queue) → IsWellFormed q → Entries (Runs (open_tasks w q)) q.outstanding
  open_tasks-listed q h k ip e mine =
      subst (λ i. exist (λ x. str_eq x.task.id i) (open_tasks w q) ≡ true) (h.running k ip e).0
        (All-Entries
          (λ x.
            str_eq x.worker.worker_id w ≡ true
            → exist (λ y. str_eq y.task.id x.task.id) (open_tasks w q) ≡ true)
          q.outstanding
          (All-of_IsIn _ (values q.outstanding) (λ x m own.
            exist_of_IsIn x _ _ (keep-IsIn x (λ y. str_eq y.worker.worker_id w) _ m own)
              (str_eq_refl x.task.id)))
          k ip e mine)

  -- A worker leaves a well-formed queue in which its only subscriptions are those of the call of `attach`
  -- that ends, one for each of its descriptions, with filters that have each key once. Then no task in
  -- progress is assigned to that worker any more, and none of its subscriptions is left.
  pub detach_frees :
      (now queue : ℕ) (ds : List TaskDescription) (q : Queue)
      → IsWellFormed q
      → All (λ d. IsDistinct d.filter) ds
      → HasOnly w (subscriptions_of w queue ds) q
      → Entries
          (λ k ip. str_eq ip.worker.worker_id w ≡ false)
          (detach now w (subscriptions_of w queue ds) q).outstanding
        × IsGone w (detach now w (subscriptions_of w queue ds) q)
  unfolding detach
  detach_frees now queue ds q h distinct only =
      let left = forget_worker w (subscriptions_of w queue ds) q in
      let done = retry_tasks-Leaving now (open_tasks w left) left (record {
        gone = forget_worker-IsGone w queue ds q distinct only;
        open_listed =
            open_tasks-listed left (forget_worker-IsWellFormed w (subscriptions_of w queue ds) q h);
      }) in
      (λ k ip e. not_mine ip (done.open_listed k ip e), done.gone)
    where
      not_mine :
          (ip : InProgress)
          → (str_eq ip.worker.worker_id w ≡ true → false ≡ true)
          → str_eq ip.worker.worker_id w ≡ false
      not_mine ip h' = elim (Bool-cases (str_eq ip.worker.worker_id w)) [
        | inl mine ↦ absurd (clash (h' mine))
        | inr other ↦ other
      ]
        where
          clash : false ≡ true → ⊥
          clash e = cc
