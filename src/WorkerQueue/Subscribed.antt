-- ===== src/WorkerQueue/Subscribed.antt =====
-- resotocore/core/worker_task_queue.py: the subscriptions of a worker, before and after it leaves.
use cloudkeeper.Base.{
  ℕ, ◌≡◌, ap, ◌∙◌, String, Bool, true, false, List, [], ◌∷◌, inl, inr, Bool-cases, str_eq,
  str_eq_iff, str_eq_refl, if◌then◌else◌, keep, All, All-IsIn, arith, some,
}
use cloudkeeper.Dict.{IsDistinct, put, get-put}
use cloudkeeper.WorkerQueue.Data.{
  WorkerTask, TaskDescription, Subscription, Queue, workers_for, subscription_eq_refl,
  subscription_eq-worker,
}
use cloudkeeper.WorkerQueue.Select.{select}
use cloudkeeper.WorkerQueue.Select.Best.{select-IsBetter}
use cloudkeeper.WorkerQueue.Ops.{remove_first, unsubscribe_all, subscriptions_of, forget_worker}

abbrev pub mine : String → Subscription → Bool
mine w s = str_eq s.worker_id w

abbrev pub for_name : String → Subscription → Bool
for_name name s = str_eq s.task.name name

-- The subscriptions of the worker in the table are these ones, in their order.
abbrev pub HasOnly : String → List Subscription → Queue → Type 0
HasOnly w subs q = (name : String) → keep (mine w) (workers_for q name) ≡ keep (for_name name) subs

-- No subscription of the worker is left.
abbrev pub IsGone : String → Queue → Type 0
IsGone w q = (name : String) → All (λ s. mine w s ≡ false) (workers_for q name)

-- A subscription of the worker, with a filter that has each key once.
abbrev IsOwn : String → Subscription → Type 0
IsOwn w s = (mine w s ≡ true) × IsDistinct s.task.filter

tail_of : List Subscription → List Subscription
tail_of [] = []
tail_of (x ∷ l) = l

keep-remove_first :
    (w : String) (s : Subscription) (r l : List Subscription)
    → IsOwn w s
    → keep (mine w) l ≡ s ∷ r
    → keep (mine w) (remove_first s l) ≡ r
unfolding remove_first tail_of
keep-remove_first w s r [] own e = cc
keep-remove_first w s r (x ∷ l) own e = elim (Bool-cases (mine w x)) [
  | inl h ↦
      let same : x ≡ s = first_of (rw h at e) in
      rw (same, subscription_eq_refl s own.1) (ap tail_of (rw h at e))
  | inr h ↦ rw (subscription_eq-worker x s (apart h), h) (keep-remove_first w s r l own (rw h at e))
]
  where
    first_of : x ∷ keep (mine w) l ≡ s ∷ r → x ≡ s
    first_of p = cc

    apart : mine w x ≡ false → str_eq x.worker_id s.worker_id ≡ false
    apart h = ground (
      arith,
      h,
      own.0,
      str_eq_iff x.worker_id s.worker_id,
      str_eq_iff s.worker_id w,
      str_eq_iff x.worker_id w,
    )

workers_for-put :
    (q : Queue) (k name : String) (l : List Subscription)
    → workers_for (record q { workers = put k l q.workers }) name
      ≡ (if str_eq k name then l else workers_for q name)
unfolding workers_for
workers_for-put q k name l = ground (arith, get-put k name l q.workers)

keep_none :
    (w : String) (l : List Subscription) → keep (mine w) l ≡ [] → All (λ s. mine w s ≡ false) l
keep_none w [] e = tt
keep_none w (x ∷ l) e = elim (Bool-cases (mine w x)) [
  | inl h ↦ absurd (clash (rw h at e))
  | inr h ↦ (h, keep_none w l (rw h at e))
]
  where
    clash : x ∷ keep (mine w) l ≡ [] → ⊥
    clash p = cc

unsubscribe_all-IsGone :
    (w : String) (subs : List Subscription) (q : Queue)
    → All (IsOwn w) subs
    → HasOnly w subs q
    → IsGone w (unsubscribe_all subs q)
unfolding unsubscribe_all
unsubscribe_all-IsGone w [] q own h = λ name. keep_none w (workers_for q name) (h name)
unsubscribe_all-IsGone w (s ∷ subs) q own h = unsubscribe_all-IsGone w subs _ own.1 (λ name.
    elim (Bool-cases (str_eq s.task.name name)) [
      | inl e ↦
          rw (workers_for-put q s.task.name name (remove_first s (workers_for q s.task.name)), e)
            (keep-remove_first w s (keep (for_name name) subs) (workers_for q s.task.name) own.0
              (at_name name e))
      | inr e ↦
          rw (workers_for-put q s.task.name name (remove_first s (workers_for q s.task.name)), e)
            (rw e at (h name))
    ])
  where
    at_name :
        (name : String)
        → str_eq s.task.name name ≡ true
        → keep (mine w) (workers_for q s.task.name) ≡ s ∷ keep (for_name name) subs
    at_name name e =
        ap (λ n. keep (mine w) (workers_for q n)) ((str_eq_iff s.task.name name).0 e)
        ∙ rw e at (h name)

subscriptions_of-IsOwn :
    (w : String) (queue : ℕ) (ds : List TaskDescription)
    → All (λ d. IsDistinct d.filter) ds
    → All (IsOwn w) (subscriptions_of w queue ds)
unfolding subscriptions_of
subscriptions_of-IsOwn w queue [] h = tt
subscriptions_of-IsOwn w queue (d ∷ ds) h =
    ((str_eq_refl w, h.0), subscriptions_of-IsOwn w queue ds h.1)

pub forget_worker-IsGone :
    (w : String) (queue : ℕ) (ds : List TaskDescription) (q : Queue)
    → All (λ d. IsDistinct d.filter) ds
    → HasOnly w (subscriptions_of w queue ds) q
    → IsGone w (forget_worker w (subscriptions_of w queue ds) q)
unfolding forget_worker workers_for
forget_worker-IsGone w queue ds q distinct h =
    unsubscribe_all-IsGone w (subscriptions_of w queue ds) q
      (subscriptions_of-IsOwn w queue ds distinct) h

-- A worker that is gone gets no task.
pub select-other :
    (w : String) (q : Queue) (t : WorkerTask) (s : Subscription)
    → IsGone w q
    → select q t ≡ some s
    → str_eq s.worker_id w ≡ false
select-other w q t s gone chosen =
    All-IsIn (λ x. mine w x ≡ false) s (workers_for q t.name) (gone t.name)
      (select-IsBetter q t s chosen).0
