-- ===== src/WorkerQueue/Examples.antt =====
-- The worker queue on small inputs: tests, and the theorems at concrete states.
use cloudkeeper.Base.{
  Bool, false, if◌then◌else◌, String, ◌≡◌, ◌≢◌, refl, ◌↔◌, true, ◌||◌, Option, none, some, List, [],
  ◌∷◌, ◌≤◌, arith, str_eq, keep, length, All, IsIn, pos, negsuc, incr, ap, sym, ◌∙◌, str_eq_iff,
}
use cloudkeeper.Dict.{get, has, put, pop, values, IsDistinct}
use cloudkeeper.Dict.Entries.{Entries}
use cloudkeeper.Json.{Json}
use cloudkeeper.WorkerQueue.Data.{
  WorkerTask, TaskDescription, Subscription, InProgress, OnHold, result, no_worker, task_error,
  Queue, empty_queue, work_of, workers_for, set_future_result, subscription_eq,
}
use cloudkeeper.WorkerQueue.Select.{can_perform, select}
use cloudkeeper.WorkerQueue.Select.Best.{IsBetter, select-IsBetter, select-none_iff}
use cloudkeeper.WorkerQueue.Ops.{
  add_task, acknowledge_task, check_outdated, detach, forget_worker, subscriptions_of, retry_tasks,
  retry_task, finish, give_up_all, give_up, reassign_all, reassign, reassign_left, assign, hold,
  attach, subscribe_all, unsubscribe_all, remove_first, error_task, open_tasks,
}
use cloudkeeper.WorkerQueue.Run.{Call, add, acknowledge, check, enter, leave, run, run_all}
use cloudkeeper.WorkerQueue.WellFormed.{
  IsWellFormed, run_all-IsWellFormed, empty_queue-IsWellFormed,
}
use cloudkeeper.WorkerQueue.NoLoss.{IsTracked}
use cloudkeeper.WorkerQueue.NoLoss.Runs.{added_task_kept}
use cloudkeeper.WorkerQueue.Answers.{
  IsAnswered, acknowledge_task-IsAnswered, error_task-IsAnswered, answers_ignored,
}
use cloudkeeper.WorkerQueue.Futures.{run_all-IsDone}
use cloudkeeper.WorkerQueue.Deadlines.{check_outdated_none_late}
use cloudkeeper.WorkerQueue.Subscribed.{IsGone, HasOnly, mine}
use cloudkeeper.WorkerQueue.Detach.{detach_frees}
use cloudkeeper.WorkerQueue.Exclusive.{IsExclusive}
use cloudkeeper.WorkerQueue.Exclusive.Runs.{AllFresh, run_all-IsExclusive}
use cloudkeeper.WorkerQueue.Counters.{retry_task_counts, below_zero, is_spent, leaving_count}

program : Unit {0}
unfolding get has put pop values set_future_result subscription_eq work_of workers_for can_perform
    select add_task acknowledge_task error_task check_outdated detach forget_worker subscriptions_of
    retry_tasks retry_task finish give_up_all give_up reassign_all reassign reassign_left assign
    hold attach subscribe_all unsubscribe_all remove_first run run_all
program = tt

abbrev job : String → WorkerTask
job id = record {
  id = id;
  name = "tag";
  attrs = ("cloud", "aws") ∷ [];
  payload = Json.null;
  callback = id;
  timeout = 10;
}

abbrev any_tag : List TaskDescription
any_tag = record { name = "tag"; filter = [] } ∷ []

abbrev aws_tag : List TaskDescription
aws_tag = record { name = "tag"; filter = ("cloud", "aws" ∷ "gcp" ∷ []) ∷ [] } ∷ []

abbrev two_workers : List Call
two_workers = enter "w1" 1 any_tag ∷ enter "w2" 2 aws_tag ∷ []

abbrev ready : Queue
unfolding program
ready = run_all two_workers empty_queue

-- The worker with the more specific filter gets both tasks.
specific_first : work_of (run_all (add 0 (job "a") 0 ∷ add 0 (job "b") 0 ∷ []) ready) "w2" ≡ pos 2
unfolding program
specific_first = refl

-- With no worker a task waits, and the next check after a worker came hands it out.
waits_then_runs :
    has "a"
      (run_all (add 0 (job "a") 0 ∷ enter "w1" 1 any_tag ∷ check 5 ∷ []) empty_queue).outstanding
    ≡ true
unfolding program
waits_then_runs = refl

-- Nobody comes within the timeout: the future gets an exception.
gives_up :
    get "a" (run_all (add 0 (job "a") 0 ∷ check 11 ∷ []) empty_queue).futures
    ≡ some (no_worker "tag")
unfolding program
gives_up = refl

-- The leaving worker is out of retries: its counter, removed before, comes back as -1.
negative_count :
    work_of
      (run_all (enter "w1" 1 any_tag ∷ add 0 (job "a") 3 ∷ leave 5 "w1" 1 any_tag ∷ []) empty_queue)
      "w1"
    ≡ negsuc 0
unfolding program
negative_count = refl

-- An overdue task that goes to another worker stays counted at the first one.
stale_count :
    work_of
      (run_all
        (enter "w1" 1 any_tag ∷ add 0 (job "a") 0 ∷ enter "w2" 2 aws_tag ∷ check 20 ∷ [])
        empty_queue)
      "w1"
    ≡ pos 1
unfolding program
stale_count = refl

abbrev sub1 : Subscription
sub1 = record { worker_id = "w1"; task = record { name = "tag"; filter = [] }; queue = 1 }

abbrev sub2 : Subscription
sub2 = record {
  worker_id = "w2";
  task = record { name = "tag"; filter = ("cloud", "aws" ∷ "gcp" ∷ []) ∷ [] };
  queue = 2;
}

chosen_for_a : select ready (job "a") ≡ some sub2
unfolding program
chosen_for_a = refl

select-IsBetter_example :
    IsIn sub2 (workers_for ready "tag")
    × (can_perform (job "a") sub2 ≡ true)
    × All (λ x. can_perform (job "a") x ≡ true → IsBetter ready sub2 x) (workers_for ready "tag")
select-IsBetter_example = select-IsBetter ready (job "a") sub2 chosen_for_a

select-none_iff_example :
    (select ready (job "a") ≡ none)
    ↔ All (λ x. can_perform (job "a") x ≡ false) (workers_for ready "tag")
select-none_iff_example = select-none_iff ready (job "a")

abbrev day : List Call
day =
    enter "w1" 1 any_tag
    ∷ add 0 (job "a") 0
    ∷ enter "w2" 2 aws_tag
    ∷ check 20
    ∷ acknowledge "w2" "a" none
    ∷ leave 30 "w1" 1 any_tag
    ∷ []

run_all-IsWellFormed_example : IsWellFormed (run_all day empty_queue)
run_all-IsWellFormed_example = run_all-IsWellFormed day (omega arith)

ready-IsWellFormed : IsWellFormed ready
unfolding program
ready-IsWellFormed = run_all-IsWellFormed two_workers (omega arith)

abbrev busy : Queue
unfolding program
busy = (add_task 0 (job "a") 0 ready).0

busy-IsWellFormed : IsWellFormed busy
unfolding program
busy-IsWellFormed =
    run_all-IsWellFormed (enter "w1" 1 any_tag ∷ enter "w2" 2 aws_tag ∷ add 0 (job "a") 0 ∷ [])
      (omega arith)

abbrev running_a : InProgress
running_a = record { task = job "a"; worker = sub2; retry_counter = 0; deadline = 10 }

busy_a : get "a" busy.outstanding ≡ some running_a
unfolding program
busy_a = refl

pending_a : has "a" busy.futures ≡ false
unfolding program
pending_a = refl

fresh_a : has "a" ready.outstanding ≡ false
unfolding program
fresh_a = refl

idle_a : has "a" ready.unassigned ≡ false
unfolding program
idle_a = refl

added_task_kept_example :
    (has "a" (run_all (check 20 ∷ []) (add_task 0 (job "a") 0 ready).0).outstanding
      || has "a" (run_all (check 20 ∷ []) (add_task 0 (job "a") 0 ready).0).unassigned
      || has "a" (run_all (check 20 ∷ []) (add_task 0 (job "a") 0 ready).0).futures)
    ≡ true
added_task_kept_example =
    added_task_kept 0 (job "a") 0 ready fresh_a idle_a (check 20 ∷ []) (omega arith)
      ready-IsWellFormed (tt, tt) (tt, tt)

acknowledge_task-IsAnswered_example :
    IsAnswered busy
      (acknowledge_task "w2" "a" (some (Json.num 7)) busy)
      running_a
      "a"
      (result (some (Json.num 7)))
acknowledge_task-IsAnswered_example =
    acknowledge_task-IsAnswered busy "a" running_a busy_a pending_a (some (Json.num 7))

error_task-IsAnswered_example :
    IsAnswered busy (error_task "w2" "a" "no access" busy) running_a "a" (task_error "no access")
error_task-IsAnswered_example =
    error_task-IsAnswered busy "a" running_a busy_a pending_a "no access"

w2_not_w1 : ◌≢◌ {A = String} "w2" "w1"
w2_not_w1 = ground (arith, str_eq_iff "w2" "w1")

holder : Option InProgress → String
holder none = ""
holder (some ip) = ip.worker.worker_id

wrong_worker : (ip : InProgress) → get "a" busy.outstanding ≡ some ip → ip.worker.worker_id ≢ "w1"
unfolding holder
wrong_worker ip e same = w2_not_w1 (ap holder (sym busy_a ∙ e) ∙ same)

answers_ignored_example :
    (acknowledge_task "w1" "a" none busy ≡ busy) × (error_task "w1" "a" "late" busy ≡ busy)
answers_ignored_example = answers_ignored busy "w1" "a" none "late" wrong_worker

abbrev answered : Queue
unfolding program
answered = acknowledge_task "w2" "a" none busy

answered_a : get "a" answered.futures ≡ some (result none)
unfolding program
answered_a = refl

run_all-IsDone_example : get "a" (run_all (check 20 ∷ []) answered).futures ≡ some (result none)
run_all-IsDone_example = run_all-IsDone "a" (result none) (check 20 ∷ []) answered answered_a

callback_in : Option InProgress → String
callback_in none = "a"
callback_in (some ip) = ip.task.callback

callback_a :
    (b : Bool) (ip : InProgress)
    → (if b then some running_a else none) ≡ some ip
    → ip.task.callback ≡ "a"
unfolding callback_in
callback_a true ip e = sym (ap callback_in e)
callback_a false ip e = sym (ap callback_in e)

nothing : (ns : OnHold) → none ≡ some ns → ns.task.callback ≡ "a"
nothing ns e = cc

a-IsTracked : IsTracked "a" "a" busy
unfolding program
a-IsTracked = record {
  running = λ i ip e same. callback_a (str_eq "a" i) ip e;
  waiting = λ i ns e same. nothing ns e;
  kept = refl;
}

check_outdated_none_late_example :
    Entries (λ k ip. 20 ≤ ip.deadline) (check_outdated 20 busy).outstanding
    × Entries (λ k ns. 20 ≤ ns.deadline) (check_outdated 20 busy).unassigned
    × ((has "a" (check_outdated 20 busy).outstanding
          || has "a" (check_outdated 20 busy).unassigned
          || has "a" (check_outdated 20 busy).futures)
        ≡ true)
check_outdated_none_late_example =
    check_outdated_none_late 20 "a" "a" busy busy-IsWellFormed a-IsTracked

only_tag :
    (b : Bool)
    → keep
        (mine "w2")
        (elim (if b then some (sub1 ∷ sub2 ∷ []) else none) [ none ↦ [] | some subs ↦ subs ])
      ≡ (if b then sub2 ∷ [] else [])
only_tag true = refl
only_tag false = refl

busy-HasOnly : HasOnly "w2" (subscriptions_of "w2" 2 aws_tag) busy
unfolding program
busy-HasOnly name = only_tag (str_eq "tag" name)

aws_tag-IsDistinct : All (λ d. IsDistinct d.filter) aws_tag
unfolding program
aws_tag-IsDistinct = ((refl, tt), tt)

detach_frees_example :
    Entries
      (λ k ip. str_eq ip.worker.worker_id "w2" ≡ false)
      (detach 5 "w2" (subscriptions_of "w2" 2 aws_tag) busy).outstanding
    × IsGone "w2" (detach 5 "w2" (subscriptions_of "w2" 2 aws_tag) busy)
detach_frees_example =
    detach_frees "w2" 5 2 aws_tag busy busy-IsWellFormed aws_tag-IsDistinct busy-HasOnly

empty_queue-IsExclusive : IsExclusive empty_queue
unfolding program
empty_queue-IsExclusive k = refl

day_fresh : AllFresh day empty_queue
unfolding program
day_fresh = (tt, (refl, (tt, (tt, (tt, (tt, tt))))))

run_all-IsExclusive_example : IsExclusive (run_all day empty_queue)
run_all-IsExclusive_example =
    run_all-IsExclusive day empty_queue day_fresh (omega arith) empty_queue-IsWellFormed
      empty_queue-IsExclusive

abbrev running_b : InProgress
running_b = record { task = job "a"; worker = sub1; retry_counter = 0; deadline = 10 }

retry_task_counts_example :
    (work_of (retry_task 20 running_b ready) "w2" ≡ incr (work_of ready "w2"))
    × (work_of (retry_task 20 running_b ready) "w1" ≡ work_of ready "w1")
retry_task_counts_example =
    retry_task_counts 20 running_b sub2 ready (omega arith) chosen_for_a w2_not_w1

-- The task of the second worker has used its retries.
abbrev tired : Queue
tired = record busy { outstanding = put "a" (record running_a { retry_counter = 3 }) [] }

tired-HasOnly : HasOnly "w2" (subscriptions_of "w2" 2 aws_tag) tired
unfolding program
tired-HasOnly name = only_tag (str_eq "tag" name)

leaving_count_example :
    work_of (detach 20 "w2" (subscriptions_of "w2" 2 aws_tag) tired) "w2"
    ≡ below_zero (length (keep is_spent (open_tasks "w2" tired)))
leaving_count_example = leaving_count "w2" 20 2 aws_tag tired aws_tag-IsDistinct tired-HasOnly
