-- ===== src/WorkerQueue/Data.antt =====
-- resotocore/core/worker_task_queue.py: the data classes, and the state of `WorkerTaskQueue`.
--
-- A callback future is named by a text, and `futures` holds the outcomes of those that are done.
-- An asyncio queue is named by a number, and `delivered` lists what was put into the queues, oldest
-- first. `workers` and `work_count` are defaultdicts: a missing key reads as [] or 0, and the empty
-- entry that such a read leaves behind is not modelled.
use cloudkeeper.Base.{
  ℕ, String, ◌≡◌, refl, Bool, true, false, ◌&&◌, Option, none, some, List, [], ◌∷◌, arith, length,
  str_eq, str_eq_refl, nat_eq, if◌then◌else◌, ℤ, pos,
}
use cloudkeeper.Dict.{Dict, get, has, put, IsDistinct}
use cloudkeeper.Dict.Entries.{get_head, get_tail}
use cloudkeeper.Json.{Json}

-- `payload` is the field `data`.
pub record WorkerTask : Type 0 where
  pub id : String
  pub name : String
  pub attrs : Dict String
  pub payload : Json
  pub callback : String
  pub timeout : ℕ

pub record TaskDescription : Type 0 where
  pub name : String
  pub filter : Dict (List String)

pub record Subscription : Type 0 where
  pub worker_id : String
  pub task : TaskDescription
  pub queue : ℕ

pub record InProgress : Type 0 where
  pub task : WorkerTask
  pub worker : Subscription
  pub retry_counter : ℕ
  pub deadline : ℕ

pub record OnHold : Type 0 where
  pub task : WorkerTask
  pub retry_counter : ℕ
  pub deadline : ℕ

-- What a callback future is completed with: a result, or one of the exceptions "No worker for task:
-- {name}", "Error executing task: {message}" and "Could not finish the task.".
pub data Outcome : Type 0 where
  result : Option Json → Outcome
  no_worker : String → Outcome
  task_error : String → Outcome
  not_finished : Outcome

pub record Queue : Type 0 where
  pub workers : Dict (List Subscription)
  pub work_count : Dict ℤ
  pub outstanding : Dict InProgress
  pub unassigned : Dict OnHold
  pub futures : Dict Outcome
  pub delivered : List (ℕ × WorkerTask)

abbrev pub empty_queue : Queue
empty_queue = record {
  workers = [];
  work_count = [];
  outstanding = [];
  unassigned = [];
  futures = [];
  delivered = [];
}

-- self.worker_by_task_name[name]
unfoldable pub workers_for : Queue → String → List Subscription
workers_for q name = elim (get name q.workers) [ none ↦ [] | some subs ↦ subs ]

-- self.work_count[worker_id]
unfoldable pub work_of : Queue → String → ℤ
work_of q w = elim (get w q.work_count) [ none ↦ pos 0 | some n ↦ n ]

-- util.set_future_result: a future that is done keeps its outcome.
unfoldable pub set_future_result : String → Outcome → Dict Outcome → Dict Outcome
set_future_result c o futures = if has c futures then futures else put c o futures

texts_eq : List String → List String → Bool
texts_eq [] [] = true
texts_eq (a ∷ r) (b ∷ s) = str_eq a b && texts_eq r s
texts_eq _ _ = false

-- The entries of the first filter stand in the second.
filter_in : Dict (List String) → Dict (List String) → Bool
unfolding texts_eq
filter_in [] d = true
filter_in ((k, v) ∷ r) d = elim (get k d) [ none ↦ false | some w ↦ texts_eq v w ] && filter_in r d

-- `==` of the data class: its fields are compared in turn, the filters as dicts, the queues by
-- identity.
unfoldable pub subscription_eq : Subscription → Subscription → Bool
unfolding filter_in
subscription_eq a b =
    str_eq a.worker_id b.worker_id
    && str_eq a.task.name b.task.name
    && nat_eq (length a.task.filter) (length b.task.filter)
    && filter_in a.task.filter b.task.filter
    && nat_eq a.queue b.queue

texts_eq_refl : (l : List String) → texts_eq l l ≡ true
unfolding texts_eq
texts_eq_refl [] = refl
texts_eq_refl (a ∷ l) = rw (str_eq_refl a) (texts_eq_refl l)

filter_in_part :
    (r d : Dict (List String))
    → IsDistinct r
    → ((k : String) (v : List String) → get k r ≡ some v → get k d ≡ some v)
    → filter_in r d ≡ true
unfolding filter_in
filter_in_part [] d distinct h = refl
filter_in_part ((k, v) ∷ r) d distinct h =
    rw (h k v (get_head k v r), texts_eq_refl v)
      (filter_in_part r d distinct.1 (λ j w e. h j w (get_tail k j v w r distinct.0 e)))

-- A subscription whose filter has each key once is equal to itself.
pub subscription_eq_refl :
    (s : Subscription) → IsDistinct s.task.filter → subscription_eq s s ≡ true
unfolding subscription_eq
subscription_eq_refl s distinct =
    rw
      (
        str_eq_refl s.worker_id,
        str_eq_refl s.task.name,
        filter_in_part s.task.filter s.task.filter distinct (λ k v e. e),
      )
      (ground arith)

pub subscription_eq-worker :
    (a b : Subscription) → str_eq a.worker_id b.worker_id ≡ false → subscription_eq a b ≡ false
unfolding subscription_eq
subscription_eq-worker a b e = rw e refl
