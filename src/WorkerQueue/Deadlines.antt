-- ===== src/WorkerQueue/Deadlines.antt =====
-- What `check_outdated_unassigned_tasks` leaves behind.
use cloudkeeper.Base.{
  ℕ, ◌+◌, ◌≤◌, String, ◌≡◌, Bool, true, false, ◌||◌, Option, none, some, List, [], ◌∷◌, arith, ltb,
  inl, inr, Bool-cases, str_eq, str_eq_refl, exist, keep-IsIn, exist_of_IsIn, subst, All-of_IsIn,
}
use cloudkeeper.Dict.{has, values}
use cloudkeeper.Dict.Entries.{
  Entries, put-Entries, pop-Entries, put-Entries_other, pop-Entries_other, All-Entries,
}
use cloudkeeper.WorkerQueue.Data.{WorkerTask, Subscription, InProgress, OnHold, Queue}
use cloudkeeper.WorkerQueue.Select.{select}
use cloudkeeper.WorkerQueue.Ops.{
  assign, hold, place, add_task, finish, retry_task, retry_tasks, give_up, give_up_all,
  unless_placed, reassign, reassign_all, reassign_left, check_outdated, late_in_progress,
  late_on_hold,
}
use cloudkeeper.WorkerQueue.WellFormed.{IsWellFormed}
use cloudkeeper.WorkerQueue.NoLoss.{IsTracked}
use cloudkeeper.WorkerQueue.NoLoss.Runs.{check_outdated-IsTracked}

module _ (now : ℕ) where
  abbrev lists_running : String → List InProgress → Bool
  lists_running k l = exist (λ x. str_eq x.task.id k) l

  abbrev lists_waiting : String → List OnHold → Bool
  lists_waiting k l = exist (λ x. str_eq x.task.id k) l

  -- Whatever is overdue is still to be visited.
  abbrev LateRuns : List InProgress → String → InProgress → Type 0
  LateRuns l k ip = ltb ip.deadline now ≡ true → lists_running k l ≡ true

  abbrev LateWaits : List OnHold → String → OnHold → Type 0
  LateWaits l k ns = ltb ns.deadline now ≡ true → lists_waiting k l ≡ true

  record Left (l : List InProgress) (m : List OnHold) (q : Queue) : Type 0 where
    running : Entries (LateRuns l) q.outstanding
    waiting : Entries (LateWaits m) q.unassigned

  drop_running :
      (ip : InProgress) (l : List InProgress) (j : String) (v : InProgress)
      → str_eq ip.task.id j ≡ false
      → LateRuns (ip ∷ l) j v
      → LateRuns l j v
  drop_running ip l j v other h late = rw other at (h late)

  drop_waiting :
      (ns : OnHold) (m : List OnHold) (j : String) (v : OnHold)
      → str_eq ns.task.id j ≡ false
      → LateWaits (ns ∷ m) j v
      → LateWaits m j v
  drop_waiting ns m j v other h late = rw other at (h late)

  -- What is entered at `now` is not overdue.
  in_time : (timeout : ℕ) (P : Type 0) → ltb (now + timeout) now ≡ true → P
  in_time timeout P late = absurd (ground arith)

  -- Adding a task settles what is overdue under its id, and enters nothing that is overdue.
  place-Left :
      (t : WorkerTask) (r : ℕ) (l' l : List InProgress) (m : List OnHold) (o : Option Subscription)
      (q : Queue)
      → ((j : String) (v : InProgress) → str_eq t.id j ≡ false → LateRuns l' j v → LateRuns l j v)
      → Left l' m q
      → Left l m (place now t r o q).0
  unfolding place assign hold
  place-Left t r l' l m (some s) q step h = record {
    running =
        put-Entries_other (LateRuns l') (LateRuns l) t.id _ q.outstanding (in_time t.timeout _) step
          h.running;
    waiting = h.waiting;
  }
  place-Left t r l' l m none q step h = elim (Bool-cases (has t.id q.unassigned)) [
    | inl old ↦ rw old (record {
      running = pop-Entries_other (LateRuns l') (LateRuns l) t.id q.outstanding step h.running;
      waiting = h.waiting;
    })
    | inr new ↦ rw new (record {
      running = pop-Entries_other (LateRuns l') (LateRuns l) t.id q.outstanding step h.running;
      waiting = put-Entries (LateWaits m) t.id _ q.unassigned (in_time t.timeout _) h.waiting;
    })
  ]

  retry_task-Left :
      (ip : InProgress) (l : List InProgress) (m : List OnHold) (q : Queue)
      → Left (ip ∷ l) m q
      → Left l m (retry_task now ip q)
  unfolding retry_task add_task finish
  retry_task-Left ip l m q h = elim (Bool-cases (ltb ip.retry_counter 3)) [
    | inl e ↦ rw e (
        place-Left ip.task (ip.retry_counter + 1) (ip ∷ l) l m (select q ip.task) q
          (drop_running ip l) h)
    | inr e ↦ rw e (record {
      running =
          pop-Entries_other (LateRuns (ip ∷ l)) (LateRuns l) ip.task.id q.outstanding
            (drop_running ip l) h.running;
      waiting = h.waiting;
    })
  ]

  retry_tasks-Left :
      (l : List InProgress) (m : List OnHold) (q : Queue)
      → Left l m q
      → Left [] m (retry_tasks now l q)
  unfolding retry_tasks
  retry_tasks-Left [] m q h = h
  retry_tasks-Left (ip ∷ l) m q h = retry_tasks-Left l m _ (retry_task-Left ip l m q h)

  give_up_all-Left : (m : List OnHold) (q : Queue) → Left [] m q → Left [] [] (give_up_all m q)
  unfolding give_up_all give_up
  give_up_all-Left [] q h = h
  give_up_all-Left (ns ∷ m) q h = give_up_all-Left m _ (record {
    running = h.running;
    waiting =
        pop-Entries_other (LateWaits (ns ∷ m)) (LateWaits m) ns.task.id q.unassigned
          (drop_waiting ns m) h.waiting;
  })

  unless_placed-Left :
      (id : String) (r : Queue × Bool) → Left [] [] r.0 → Left [] [] (unless_placed id r)
  unfolding unless_placed
  unless_placed-Left id (q, true) h = record {
    running = h.running;
    waiting = pop-Entries (LateWaits []) id q.unassigned h.waiting;
  }
  unless_placed-Left id (q, false) h = h

  reassign_all-Left :
      (m : List OnHold) (q : Queue) → Left [] [] q → Left [] [] (reassign_all now m q)
  unfolding reassign_all reassign add_task
  reassign_all-Left [] q h = h
  reassign_all-Left (ns ∷ m) q h = reassign_all-Left m _ (
      unless_placed-Left ns.task.id _
        (place-Left ns.task ns.retry_counter [] [] [] (select q ns.task) q (λ j v _ g. g) h))

  -- At the start what is overdue is listed.
  start-Left : (q : Queue) → IsWellFormed q → Left (late_in_progress now q) (late_on_hold now q) q
  start-Left q w = record {
    running = λ k ip e late.
        subst (λ i. lists_running i (late_in_progress now q) ≡ true) (w.running k ip e).0
          (All-Entries
            (λ x.
              ltb x.deadline now ≡ true → lists_running x.task.id (late_in_progress now q) ≡ true)
            q.outstanding
            (All-of_IsIn _ (values q.outstanding) (λ x m l.
              exist_of_IsIn x _ _ (keep-IsIn x (λ y. ltb y.deadline now) _ m l)
                (str_eq_refl x.task.id)))
            k ip e late);
    waiting = λ k ns e late.
        subst (λ i. lists_waiting i (late_on_hold now q) ≡ true) (w.waiting k ns e).0
          (All-Entries
            (λ x. ltb x.deadline now ≡ true → lists_waiting x.task.id (late_on_hold now q) ≡ true)
            q.unassigned
            (All-of_IsIn _ (values q.unassigned) (λ x m l.
              exist_of_IsIn x _ _ (keep-IsIn x (λ y. ltb y.deadline now) _ m l)
                (str_eq_refl x.task.id)))
            k ns e late);
  }

  check_outdated-Left : (q : Queue) → IsWellFormed q → Left [] [] (check_outdated now q)
  unfolding check_outdated reassign_left
  check_outdated-Left q w = reassign_all-Left _ _ (
      give_up_all-Left (late_on_hold now q) _
        (retry_tasks-Left (late_in_progress now q) (late_on_hold now q) q (start-Left q w)))

  -- The periodic check of a well-formed queue at the time `now`: afterwards no task in either table is
  -- past its deadline. Nor is a task dropped: if all entries with the id `k` have the callback `c`, and the
  -- task is in a table or its future is done, then after the check it is in a table, with a deadline that
  -- is not past, or its future is done.
  pub check_outdated_none_late :
      (k c : String) (q : Queue)
      → IsWellFormed q
      → IsTracked k c q
      → Entries (λ i ip. now ≤ ip.deadline) (check_outdated now q).outstanding
        × Entries (λ i ns. now ≤ ns.deadline) (check_outdated now q).unassigned
        × ((has k (check_outdated now q).outstanding
              || has k (check_outdated now q).unassigned
              || has c (check_outdated now q).futures)
            ≡ true)
  check_outdated_none_late k c q w tracked = (
    λ i ip e. not_late ip.deadline ((check_outdated-Left q w).running i ip e),
    λ i ns e. not_late ns.deadline ((check_outdated-Left q w).waiting i ns e),
    (check_outdated-IsTracked k c now q w tracked).kept,
  )
    where
      not_late : (d : ℕ) → (ltb d now ≡ true → false ≡ true) → now ≤ d
      not_late d h = elim (Bool-cases (ltb d now)) [
        | inl late ↦ absurd (contra (h late))
        | inr early ↦ ground arith
      ]
        where
          contra : false ≡ true → ⊥
          contra e = cc
