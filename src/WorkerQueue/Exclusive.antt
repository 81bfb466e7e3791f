-- ===== src/WorkerQueue/Exclusive.antt =====
-- No task stands in both tables (the operations; `Runs` has the runs).
pub mod Runs
use cloudkeeper.Base.{
  ℕ, ◌+◌, String, ◌≡◌, ◌≢◌, refl, sym, subst, ◌∙◌, Bool, true, false, not, ◌&&◌, ◌||◌, Option, none,
  some, List, [], ◌∷◌, arith, ltb, inl, inr, Bool-cases, Option-cases, str_eq, str_eq_iff,
  str_eq_refl, if◌then◌else◌, keep, All, All-map, All-keep,
}
use cloudkeeper.Dict.{Dict, get, has, put, pop, values, has-put, has-pop, has_of_get, IsDistinct}
use cloudkeeper.Dict.Entries.{Entries, values-All, get_head, get_tail}
use cloudkeeper.WorkerQueue.Data.{
  WorkerTask, Subscription, InProgress, OnHold, Outcome, Queue, empty_queue,
}
use cloudkeeper.WorkerQueue.Select.{select}
use cloudkeeper.WorkerQueue.Ops.{
  assign, hold, place, add_task, finish, answer, acknowledge_task, error_task, retry_task,
  retry_tasks, give_up, give_up_all, unless_placed, reassign, reassign_all, reassign_left,
  check_outdated, late_in_progress, late_on_hold, subscriptions_of, subscribe_all, attach,
  unsubscribe_all, forget_worker, detach, open_tasks,
}
use cloudkeeper.WorkerQueue.WellFormed.{
  IsWellFormed, IsRunning, IsModest, run-IsWellFormed, empty_queue-IsWellFormed,
  forget_worker-IsWellFormed,
}
use cloudkeeper.WorkerQueue.Run.{
  Call, add, acknowledge, report_error, check, enter, leave, run, run_all,
}

abbrev pub IsExclusive : Queue → Type 0
IsExclusive q = (k : String) → (has k q.outstanding && has k q.unassigned) ≡ false

-- The tasks of the list have different ids, and none of them is unassigned.
abbrev Apart : List InProgress → Type 0
Apart [] = Unit
Apart (x ∷ xs) = All (λ y. str_eq x.task.id y.task.id ≡ false) xs × Apart xs

abbrev Unheld : Queue → List InProgress → Type 0
Unheld q l = All (λ x. has x.task.id q.unassigned ≡ false) l

pub add_task-IsExclusive :
    (now : ℕ) (t : WorkerTask) (r : ℕ) (q : Queue)
    → IsExclusive q
    → has t.id q.unassigned ≡ false
    → IsExclusive (add_task now t r q).0
unfolding add_task place assign hold
add_task-IsExclusive now t r q h idle k = elim (Option-cases (select q t)) [
  | inl e ↦ rw (e, idle, has-pop, has-put) (ground (arith, h k))
  | inr (s, e) ↦ rw (e, has-put) (ground (arith, h k, str_eq_iff t.id k))
]

reassign-IsExclusive :
    (now : ℕ) (ns : OnHold) (q : Queue) → IsExclusive q → IsExclusive (reassign now ns q)
unfolding reassign add_task place assign hold unless_placed
reassign-IsExclusive now ns q h k = elim (Option-cases (select q ns.task)) [
  | inl e ↦ elim (Bool-cases (has ns.task.id q.unassigned)) [
    | inl old ↦ rw (e, old, has-pop) (ground (arith, h k))
    | inr new ↦ rw (e, new, has-pop, has-put) (ground (arith, h k))
  ]
  | inr (s, e) ↦ rw (e, has-put, has-pop) (ground (arith, h k))
]

pub finish-IsExclusive :
    (w id c : String) (o : Outcome) (q : Queue) → IsExclusive q → IsExclusive (finish w id c o q)
unfolding finish
finish-IsExclusive w id c o q h k = rw has-pop (ground (arith, h k))

-- Retrying a task puts no other task on hold.
retry_task-Unheld :
    (now : ℕ) (ip : InProgress) (j : String) (q : Queue)
    → str_eq ip.task.id j ≡ false
    → has j q.unassigned ≡ false
    → has j (retry_task now ip q).unassigned ≡ false
unfolding retry_task finish add_task place assign hold
retry_task-Unheld now ip j q other idle = elim (Bool-cases (ltb ip.retry_counter 3)) [
  | inr e ↦ rw e idle
  | inl e ↦ elim (Option-cases (select q ip.task)) [
    | inr (s, f) ↦ rw (e, f) idle
    | inl f ↦ elim (Bool-cases (has ip.task.id q.unassigned)) [
      | inl old ↦ rw (e, f, old) idle
      | inr new ↦ rw (e, f, new, has-put) (ground (arith, other, idle))
    ]
  ]
]

retry_task-IsExclusive :
    (now : ℕ) (ip : InProgress) (q : Queue)
    → IsExclusive q
    → has ip.task.id q.unassigned ≡ false
    → IsExclusive (retry_task now ip q)
unfolding retry_task
retry_task-IsExclusive now ip q h idle = elim (Bool-cases (ltb ip.retry_counter 3)) [
  | inl e ↦ rw e (add_task-IsExclusive now ip.task (ip.retry_counter + 1) q h idle)
  | inr e ↦ rw e (finish-IsExclusive _ ip.task.id ip.task.callback _ q h)
]

rest_Unheld :
    (now : ℕ) (ip : InProgress) (l : List InProgress) (q : Queue)
    → All (λ y. str_eq ip.task.id y.task.id ≡ false) l
    → Unheld q l
    → Unheld (retry_task now ip q) l
rest_Unheld now ip [] q other idle = tt
rest_Unheld now ip (x ∷ l) q other idle =
    (retry_task-Unheld now ip x.task.id q other.0 idle.0, rest_Unheld now ip l q other.1 idle.1)

retry_tasks-IsExclusive :
    (now : ℕ) (l : List InProgress) (q : Queue)
    → Apart l
    → Unheld q l
    → IsExclusive q
    → IsExclusive (retry_tasks now l q)
unfolding retry_tasks
retry_tasks-IsExclusive now [] q _ _ h = h
retry_tasks-IsExclusive now (ip ∷ l) q apart idle h =
    retry_tasks-IsExclusive now l _ apart.1 (rest_Unheld now ip l q apart.0 idle.1)
      (retry_task-IsExclusive now ip q h idle.0)

pub give_up_all-IsExclusive :
    (l : List OnHold) (q : Queue) → IsExclusive q → IsExclusive (give_up_all l q)
unfolding give_up_all give_up
give_up_all-IsExclusive [] q h = h
give_up_all-IsExclusive (ns ∷ l) q h =
    give_up_all-IsExclusive l _ (λ k. rw has-pop (ground (arith, h k)))

pub reassign_all-IsExclusive :
    (now : ℕ) (l : List OnHold) (q : Queue) → IsExclusive q → IsExclusive (reassign_all now l q)
unfolding reassign_all
reassign_all-IsExclusive now [] q h = h
reassign_all-IsExclusive now (ns ∷ l) q h =
    reassign_all-IsExclusive now l _ (reassign-IsExclusive now ns q h)

-- The entries of a dict whose values stand under their own ids are apart.
values-Apart : (d : Dict InProgress) → IsDistinct d → Entries IsRunning d → Apart (values d)
unfolding values
values-Apart [] distinct h = tt
values-Apart ((j, v) ∷ d) distinct h =
    let tail : Entries IsRunning d = λ k x e. h k x (get_tail j k v x d distinct.0 e) in
    (
      values-All (λ k x. (str_eq v.task.id k ≡ false) × (x.task.id ≡ k)) _ d distinct.1
          (λ k x e. (differs k x e, (tail k x e).0))
          (λ k x p. subst (λ i. str_eq v.task.id i ≡ false) (sym p.1) p.0),
      values-Apart d distinct.1 tail,
    )
  where
    own_key : v.task.id ≡ j
    own_key = (h j v (get_head j v d)).0

    differs : (k : String) (x : InProgress) → get k d ≡ some x → str_eq v.task.id k ≡ false
    differs k x e = elim (Bool-cases (str_eq v.task.id k)) [
      | inr other ↦ other
      | inl same ↦ absurd (
          clash (
            subst (λ i. has i d ≡ true) (sym ((str_eq_iff v.task.id k).0 same) ∙ own_key)
              (has_of_get k x d e)))
    ]
      where
        clash : has j d ≡ true → ⊥
        clash there = cc (distinct.0)

keep-Apart : (p : InProgress → Bool) (l : List InProgress) → Apart l → Apart (keep p l)
keep-Apart p [] h = tt
keep-Apart p (x ∷ l) h = elim (Bool-cases (p x)) [
  | inl e ↦ rw e (All-keep _ p l (All-map _ _ l (λ y a _. a) h.0), keep-Apart p l h.1)
  | inr e ↦ rw e (keep-Apart p l h.1)
]

running_Unheld : (q : Queue) → IsWellFormed q → IsExclusive q → Unheld q (values q.outstanding)
running_Unheld q w h =
    values-All (λ k x. (has k q.unassigned ≡ false) × (x.task.id ≡ k)) _ q.outstanding
      w.running_distinct (λ k x e. (idle k x e, (w.running k x e).0))
      (λ k x p. subst (λ i. has i q.unassigned ≡ false) (sym p.1) p.0)
  where
    idle : (k : String) (x : InProgress) → get k q.outstanding ≡ some x → has k q.unassigned ≡ false
    idle k x e = ground (arith, h k, has_of_get k x q.outstanding e)

pub some_retried :
    (now : ℕ) (p : InProgress → Bool) (q : Queue)
    → IsWellFormed q
    → IsExclusive q
    → IsExclusive (retry_tasks now (keep p (values q.outstanding)) q)
some_retried now p q w h =
    retry_tasks-IsExclusive now _ q
      (keep-Apart p _ (values-Apart q.outstanding w.running_distinct w.running))
      (All-keep _ p _ (All-map _ _ _ (λ x idle _. idle) (running_Unheld q w h))) h
