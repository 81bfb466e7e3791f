-- ===== src/WorkerQueue/Counters.antt =====
-- Where the work counters drift from the number of tasks that a worker holds.
use cloudkeeper.Base.{
  ℕ, zero, suc, ◌+◌, ◌<◌, ◌∙◌, ap, subst, String, ◌≡◌, ◌≢◌, refl, Bool, true, false, some, List, [],
  ◌∷◌, arith, inl, inr, Bool-cases, Option-cases, ltb, leb, str_eq, str_eq_iff, str_eq_refl,
  if◌then◌else◌, length, keep, All, All-keep, All-of_IsIn, ℤ, pos, negsuc, incr, decr,
}
use cloudkeeper.Dict.{IsDistinct, values, put, pop, get-put, get-pop}
use cloudkeeper.WorkerQueue.Data.{
  WorkerTask, TaskDescription, Subscription, InProgress, Queue, work_of, workers_for,
}
use cloudkeeper.WorkerQueue.Select.{select}
use cloudkeeper.WorkerQueue.Ops.{
  assign, hold, place, add_task, finish, retry_task, retry_tasks, forget_worker, unsubscribe_all,
  subscriptions_of, open_tasks, detach,
}
use cloudkeeper.WorkerQueue.Subscribed.{IsGone, HasOnly, forget_worker-IsGone, select-other}

work_of-put :
    (p q : Queue) (w v : String) (n : ℤ)
    → p.work_count ≡ put w n q.work_count
    → work_of p v ≡ (if str_eq w v then n else work_of q v)
unfolding work_of
work_of-put p q w v n e = ground (arith, get-put w v n q.work_count)

work_of-pop : (p q : Queue) (w : String) → p.work_count ≡ pop w q.work_count → work_of p w ≡ pos 0
unfolding work_of
work_of-pop p q w e = ground (arith, get-pop w w q.work_count, str_eq_refl w)

forget_worker_counts :
    (w : String) (subs : List Subscription) (q : Queue) → work_of (forget_worker w subs q) w ≡ pos 0
unfolding forget_worker
forget_worker_counts w subs q = work_of-pop _ (unsubscribe_all subs q) w refl

-- When a task that has retries left is rescheduled to another worker, the new worker's count goes up
-- by one and the count of the worker that held the task stays as it was: it counts the task still.
pub retry_task_counts :
    (now : ℕ) (ip : InProgress) (s : Subscription) (q : Queue)
    → ip.retry_counter < 3
    → select q ip.task ≡ some s
    → s.worker_id ≢ ip.worker.worker_id
    → (work_of (retry_task now ip q) s.worker_id ≡ incr (work_of q s.worker_id))
      × (work_of (retry_task now ip q) ip.worker.worker_id ≡ work_of q ip.worker.worker_id)
unfolding retry_task add_task place assign
retry_task_counts now ip s q few chosen other =
    rw (below, chosen)
      (
        work_of-put _ q s.worker_id s.worker_id _ refl ∙ rw (str_eq_refl s.worker_id),
        work_of-put _ q s.worker_id ip.worker.worker_id _ refl ∙ rw differs,
      )
  where
    below : ltb ip.retry_counter 3 ≡ true
    below = ground arith

    differs : str_eq s.worker_id ip.worker.worker_id ≡ false
    differs = ground (arith, str_eq_iff s.worker_id ip.worker.worker_id)

work_of-same : (p q : Queue) (w : String) → p.work_count ≡ q.work_count → work_of p w ≡ work_of q w
unfolding work_of
work_of-same p q w e = ground (arith, e)

unsubscribe_all-outstanding :
    (subs : List Subscription) (q : Queue) → (unsubscribe_all subs q).outstanding ≡ q.outstanding
unfolding unsubscribe_all
unsubscribe_all-outstanding [] q = refl
unsubscribe_all-outstanding (s ∷ subs) q = unsubscribe_all-outstanding subs _

-- -n
abbrev pub below_zero : ℕ → ℤ
below_zero zero = pos 0
below_zero (suc n) = negsuc n

decr-below_zero : (n : ℕ) → decr (below_zero n) ≡ below_zero (suc n)
decr-below_zero zero = refl
decr-below_zero (suc n) = refl

-- The task has no retry left.
abbrev pub is_spent : InProgress → Bool
is_spent ip = leb 3 ip.retry_counter

module _ (w : String) where
  -- The worker has left, and its counter stands `n` below zero.
  record IsLow (n : ℕ) (q : Queue) : Type 0 where
    gone : IsGone w q
    count : work_of q w ≡ below_zero n

  add_task-IsLow :
      (now : ℕ) (t : WorkerTask) (r n : ℕ) (q : Queue) → IsLow n q → IsLow n (add_task now t r q).0
  unfolding add_task place assign hold workers_for
  add_task-IsLow now t r n q h = elim (Option-cases (select q t)) [
    | inl e ↦ rw e (record { gone = h.gone; count = same_count h.count })
    | inr (s, e) ↦ rw e (record {
      gone = h.gone;
      count = work_of-put _ q s.worker_id w _ refl ∙ rw (select-other w q t s h.gone e) h.count;
    })
  ]
    where
      same_count : work_of q w ≡ below_zero n → work_of (hold now t r q) w ≡ below_zero n
      same_count e = work_of-same (hold now t r q) q w refl ∙ e

  retry_task-IsLow :
      (now : ℕ) (ip : InProgress) (n : ℕ) (q : Queue)
      → str_eq ip.worker.worker_id w ≡ true
      → IsLow n q
      → IsLow (if is_spent ip then suc n else n) (retry_task now ip q)
  unfolding retry_task finish workers_for
  retry_task-IsLow now ip n q own h = elim (Bool-cases (ltb ip.retry_counter 3)) [
    | inl e ↦ rw (e, few e) (add_task-IsLow now ip.task (ip.retry_counter + 1) n q h)
    | inr e ↦
        rw (e, many e)
          (record {
            gone = h.gone;
            count =
                work_of-put _ q ip.worker.worker_id w _ refl
                ∙ rw own (
                    ap (λ v. decr (work_of q v)) ((str_eq_iff ip.worker.worker_id w).0 own)
                    ∙ ap decr h.count
                    ∙ decr-below_zero n);
          })
  ]
    where
      few : ltb ip.retry_counter 3 ≡ true → is_spent ip ≡ false
      few e = ground arith

      many : ltb ip.retry_counter 3 ≡ false → is_spent ip ≡ true
      many e = ground arith

  retry_tasks-IsLow :
      (now : ℕ) (l : List InProgress) (n : ℕ) (q : Queue)
      → All (λ ip. str_eq ip.worker.worker_id w ≡ true) l
      → IsLow n q
      → IsLow (n + length (keep is_spent l)) (retry_tasks now l q)
  unfolding retry_tasks
  retry_tasks-IsLow now [] n q own h =
      let same : n ≡ n + 0 = omega arith in subst (λ m. IsLow m q) same h
  retry_tasks-IsLow now (ip ∷ l) n q own h =
      subst (λ m. IsLow m (retry_tasks now l (retry_task now ip q))) (one_more (is_spent ip))
        (retry_tasks-IsLow now l (if is_spent ip then suc n else n) (retry_task now ip q) own.1
          (retry_task-IsLow now ip n q own.0 h))
    where
      one_more :
          (b : Bool)
          → (if b then suc n else n) + length (keep is_spent l)
            ≡ n + length (if b then ip ∷ keep is_spent l else keep is_spent l)
      one_more true = omega arith
      one_more false = omega arith

  -- A worker leaves whose only subscriptions are those of the call of `attach` that ends, one for each of
  -- its descriptions, with filters that have each key once. Its counter is removed; but where n of its tasks
  -- in progress have no retry left, its count afterwards is -n, and 0 only if there is none.
  pub leaving_count :
      (now queue : ℕ) (ds : List TaskDescription) (q : Queue)
      → All (λ d. IsDistinct d.filter) ds
      → HasOnly w (subscriptions_of w queue ds) q
      → work_of (detach now w (subscriptions_of w queue ds) q) w
        ≡ below_zero (length (keep is_spent (open_tasks w q)))
  unfolding detach forget_worker
  leaving_count now queue ds q distinct only =
      let left = forget_worker w (subscriptions_of w queue ds) q in
      let low =
        retry_tasks-IsLow now (open_tasks w left) 0 left
          (All-keep _ (λ ip. str_eq ip.worker.worker_id w) (values left.outstanding)
            (All-of_IsIn _ (values left.outstanding) (λ ip m own. own)))
          (record {
            gone = forget_worker-IsGone w queue ds q distinct only;
            count = forget_worker_counts w (subscriptions_of w queue ds) q;
          }) in
      low.count
      ∙ ap below_zero zero_left
      ∙ ap
          (λ d.
            below_zero
              (length (keep is_spent (keep (λ ip. str_eq ip.worker.worker_id w) (values d)))))
          (unsubscribe_all-outstanding (subscriptions_of w queue ds) q)
    where
      zero_left : {n : ℕ} → 0 + n ≡ n
      zero_left = omega arith
