-- ===== src/WorkerQueue/NoLoss.antt =====
-- No task is lost: what was once queued stays in one of the two tables until its future is done
-- (the single steps; `Runs` has the loops and the runs).
pub mod Runs
use cloudkeeper.Base.{
  ℕ, ◌+◌, String, ◌≡◌, refl, sym, subst, ◌≤◌, ◌∙◌, true, false, ◌||◌, Option, none, some, List, [],
  ◌∷◌, arith, ltb, inl, inr, Bool-cases, Option-cases, str_eq, str_eq_iff, str_eq_refl, All,
  All-keep, All-map,
}
use cloudkeeper.Dict.{Dict, get, has, values, has-put, has-pop, has_of_get}
use cloudkeeper.Dict.Entries.{Entries, put-Entries, pop-Entries, values-All}
use cloudkeeper.WorkerQueue.Data.{
  WorkerTask, Subscription, InProgress, OnHold, Outcome, Queue, set_future_result,
}
use cloudkeeper.WorkerQueue.Select.{select}
use cloudkeeper.WorkerQueue.Ops.{
  assign, hold, place, add_task, finish, answer, acknowledge_task, error_task, retry_task,
  retry_tasks, give_up, give_up_all, reassign, reassign_all, late_in_progress, late_on_hold,
  reassign_left, check_outdated, subscriptions_of, subscribe_all, attach, unsubscribe_all,
  open_tasks, forget_worker, detach,
}
use cloudkeeper.WorkerQueue.Run.{
  Call, add, acknowledge, report_error, check, enter, leave, run, run_all,
}
use cloudkeeper.WorkerQueue.WellFormed.{
  IsWellFormed, IsModest, run-IsWellFormed, add_task-IsWellFormed, retry_tasks-IsWellFormed,
  give_up_all-IsWellFormed, forget_worker-IsWellFormed,
}

pub has-set_future_result :
    (c d : String) (o : Outcome) (f : Dict Outcome)
    → has d (set_future_result c o f) ≡ (str_eq c d || has d f)
unfolding set_future_result
has-set_future_result c d o f = elim (Bool-cases (has c f)) [
  | inl e ↦ rw e (ground (arith, str_eq_iff c d))
  | inr e ↦ rw e (has-put c d o f)
]

-- Tasks with the id `k` have the callback `c`, and the task is in a table or its future is done.
pub record IsTracked (k c : String) (q : Queue) : Type 0 where
  pub running : Entries (λ i ip. i ≡ k → ip.task.callback ≡ c) q.outstanding
  pub waiting : Entries (λ i ns. i ≡ k → ns.task.callback ≡ c) q.unassigned
  pub kept : (has k q.outstanding || has k q.unassigned || has c q.futures) ≡ true

-- Another task does not borrow the id `k`.
abbrev pub Owns : String → String → WorkerTask → Type 0
Owns k c t = t.id ≡ k → t.callback ≡ c

module _ (k c : String) (q : Queue) (h : IsTracked k c q) where
  assign-IsTracked :
      (now : ℕ) (t : WorkerTask) (r : ℕ) (s : Subscription)
      → Owns k c t
      → IsTracked k c (assign now t r s q)
  unfolding assign
  assign-IsTracked now t r s own = record {
    running = put-Entries _ t.id _ q.outstanding own h.running;
    waiting = h.waiting;
    kept = rw has-put (ground (arith, h.kept));
  }

  hold-IsTracked : (now : ℕ) (t : WorkerTask) (r : ℕ) → Owns k c t → IsTracked k c (hold now t r q)
  unfolding hold
  hold-IsTracked now t r own = elim (Bool-cases (has t.id q.unassigned)) [
    | inl old ↦ rw old (record {
      running = pop-Entries _ t.id q.outstanding h.running;
      waiting = h.waiting;
      kept = rw has-pop (ground (arith, h.kept, str_eq_iff t.id k));
    })
    | inr new ↦ rw new (record {
      running = pop-Entries _ t.id q.outstanding h.running;
      waiting = put-Entries _ t.id _ q.unassigned own h.waiting;
      kept = rw (has-pop, has-put) (ground (arith, h.kept));
    })
  ]

  place-IsTracked :
      (now : ℕ) (t : WorkerTask) (r : ℕ) (o : Option Subscription)
      → Owns k c t
      → IsTracked k c (place now t r o q).0
  unfolding place
  place-IsTracked now t r none own = hold-IsTracked now t r own
  place-IsTracked now t r (some s) own = assign-IsTracked now t r s own

  pub add_task-IsTracked :
      (now : ℕ) (t : WorkerTask) (r : ℕ) → Owns k c t → IsTracked k c (add_task now t r q).0
  unfolding add_task
  add_task-IsTracked now t r own = place-IsTracked now t r (select q t) own

  finish-IsTracked :
      (w id d : String) (o : Outcome) → (id ≡ k → d ≡ c) → IsTracked k c (finish w id d o q)
  unfolding finish
  finish-IsTracked w id d o own = record {
    running = pop-Entries _ id q.outstanding h.running;
    waiting = h.waiting;
    kept =
        rw (has-pop, has-set_future_result)
          (ground (arith, h.kept, str_eq_iff id k, str_eq_iff d c));
  }

  pub give_up-IsTracked : (ns : OnHold) → Owns k c ns.task → IsTracked k c (give_up ns q)
  unfolding give_up
  give_up-IsTracked ns own = record {
    running = h.running;
    waiting = pop-Entries _ ns.task.id q.unassigned h.waiting;
    kept =
        rw (has-pop, has-set_future_result)
          (ground (arith, h.kept, str_eq_iff ns.task.id k, str_eq_iff ns.task.callback c));
  }

  -- Only the tables and the futures count.
  pub same_tables :
      (p : Queue)
      → p.outstanding ≡ q.outstanding
      → p.unassigned ≡ q.unassigned
      → p.futures ≡ q.futures
      → IsTracked k c p
  same_tables p e f g = record {
    running = rw e h.running;
    waiting = rw f h.waiting;
    kept = rw (e, f, g) h.kept;
  }

module _ (k c : String) (q : Queue) (h : IsTracked k c q) where
  pub answer-IsTracked :
      (w id : String) (o : Outcome) → IsTracked k c (answer w id o (get id q.outstanding) q)
  unfolding answer
  answer-IsTracked w id o = elim (Option-cases (get id q.outstanding)) [
    | inl missing ↦ rw missing h
    | inr (ip, found) ↦ rw found (go ip found)
  ]
    where
      go :
          (ip : InProgress)
          → get id q.outstanding ≡ some ip
          → IsTracked k c (answer w id o (some ip) q)
      go ip found = elim (Bool-cases (str_eq ip.worker.worker_id w)) [
        | inl e ↦ rw e (finish-IsTracked k c q h w id ip.task.callback o (h.running id ip found))
        | inr e ↦ rw e h
      ]

  pub retry_task-IsTracked :
      (now : ℕ) (ip : InProgress) → Owns k c ip.task → IsTracked k c (retry_task now ip q)
  unfolding retry_task
  retry_task-IsTracked now ip own = elim (Bool-cases (ltb ip.retry_counter 3)) [
    | inl e ↦ rw e (add_task-IsTracked k c q h now ip.task (ip.retry_counter + 1) own)
    | inr e ↦ rw e (finish-IsTracked k c q h _ ip.task.id ip.task.callback _ own)
  ]

  pub reassign-IsTracked :
      (now : ℕ) (ns : OnHold) → Owns k c ns.task → IsTracked k c (reassign now ns q)
  unfolding reassign add_task place assign
  reassign-IsTracked now ns own = elim (Option-cases (select q ns.task)) [
    | inl e ↦ rw e (hold-IsTracked k c q h now ns.task ns.retry_counter own)
    | inr (s, e) ↦ rw e (record {
      running = put-Entries _ ns.task.id _ q.outstanding own h.running;
      waiting = pop-Entries _ ns.task.id q.unassigned h.waiting;
      kept = rw (has-put, has-pop) (ground (arith, h.kept));
    })
  ]
