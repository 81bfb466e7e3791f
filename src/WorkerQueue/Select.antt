-- ===== src/WorkerQueue/Select.antt =====
-- resotocore/core/worker_task_queue.py: which worker a task goes to (the first half of
-- `__add_task`).
pub mod Best
use Prim.Native.Nat.{max}
use cloudkeeper.Base.{
  ℕ, suc, ◌+◌, ◌≤◌, String, ◌≡◌, refl, ◌≢◌, Bool, true, false, ◌&&◌, Option, none, some, List, [],
  ◌∷◌, arith, str_eq, nat_eq, if◌then◌else◌, Bool-cases, inl, inr, length, head, keep, member, All,
  ℤ, ◌≤ℤ◌, leb_ℤ, ≤ℤ_trans, ≤ℤ_refl, leb_ℤ→≤ℤ, not-leb_ℤ→≤ℤ,
}
use cloudkeeper.Dict.{Dict, get}
use cloudkeeper.WorkerQueue.Data.{WorkerTask, Subscription, Queue, work_of, workers_for}

-- `value in filter_list if value else False`: an empty value counts as a missing one.
value_matches : Option String → List String → Bool
value_matches none allowed = false
value_matches (some value) allowed = if str_eq value "" then false else member value allowed

filter_matches : Dict String → Dict (List String) → Bool
unfolding value_matches
filter_matches attrs [] = true
filter_matches attrs ((name, allowed) ∷ rest) =
    value_matches (get name attrs) allowed && filter_matches attrs rest

-- can_perform
unfoldable pub can_perform : WorkerTask → Subscription → Bool
unfolding filter_matches
can_perform t sub = filter_matches t.attrs sub.task.filter

abbrev pub filter_len : Subscription → ℕ
filter_len sub = length sub.task.filter

-- reduce(lambda res, x: max(res, len(x.task.filter)), subs, res)
abbrev pub max_filter_len : ℕ → List Subscription → ℕ
max_filter_len res [] = res
max_filter_len res (x ∷ xs) = max_filter_len (max res (filter_len x)) xs

-- `sorted(..., key=key)` as a stable insertion sort: an element goes before the first one whose key
-- is not smaller.
insert_by : (Subscription → ℤ) → Subscription → List Subscription → List Subscription
insert_by key x [] = x ∷ []
insert_by key x (y ∷ ys) =
    let later = insert_by key x ys in if leb_ℤ (key x) (key y) then x ∷ y ∷ ys else y ∷ later

unfoldable pub sorted : (Subscription → ℤ) → List Subscription → List Subscription
unfolding insert_by
sorted key [] = []
sorted key (x ∷ xs) = insert_by key x (sorted key xs)

-- The worker with the most specific filter, and among those the one with the least work.
unfoldable pub choose : Queue → List Subscription → Option Subscription
unfolding sorted
choose q matching = head (
    sorted (λ sub. work_of q sub.worker_id)
      (keep (λ a. nat_eq (filter_len a) (max_filter_len 0 matching)) matching))

-- matching_subscriptions
unfoldable pub matching : Queue → WorkerTask → List Subscription
unfolding can_perform
matching q t = keep (can_perform t) (workers_for q t.name)

-- sub, if there is a matching subscription
unfoldable pub select : Queue → WorkerTask → Option Subscription
unfolding matching choose
select q t = choose q (matching q t)
