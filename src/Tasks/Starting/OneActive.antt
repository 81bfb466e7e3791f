-- ===== src/Tasks/Starting/OneActive.antt =====
-- A description has one active task at most, if it does not allow several.
use cloudkeeper.Base.{
  ℕ, ◌+◌, ◌≤◌, String, ◌≡◌, ◌≢◌, refl, sym, subst, Bool, true, false, ◌&&◌, Option, none, some,
  some_inj, none-some, List, [], ◌∷◌, first, str_eq, if◌then◌else◌, Bool-cases, inl, inr, arith,
  and_right,
}
use cloudkeeper.Dict.{Dict, get, put, values, IsDistinct}
use cloudkeeper.Dict.Entries.{Entries, get_head, get_tail}
use cloudkeeper.Subscriptions.Handler.{EventIndex}
use cloudkeeper.Tasks.Description.{
  TaskCommand, TaskDescription, TaskSurpassBehaviour, skip, parallel, replace, wait,
}
use cloudkeeper.Tasks.Machine.{Machine}
use cloudkeeper.Tasks.Running.{RunningTask}
use cloudkeeper.Tasks.Ops.{is_active, end_task}
use cloudkeeper.Tasks.Progress.{IsNamed}
use cloudkeeper.Tasks.Life.Ended.{end_task-IsEnded}
use cloudkeeper.Tasks.Starting.{
  TaskTable, runs, existing_task, Started, empty, add_started, start_unless,
  evaluate_task_definition, start_task_directly, start_beside, start_task,
}

abbrev pub weight : TaskDescription → RunningTask → ℕ
weight desc t = if runs desc t then 1 else 0

-- The number of active tasks of a description.
unfoldable pub active_count : TaskDescription → Dict RunningTask → ℕ
active_count desc [] = 0
active_count desc ((k, t) ∷ d) = weight desc t + active_count desc d

weight_one : (desc : TaskDescription) (t : RunningTask) → weight desc t ≤ 1
weight_one desc t = elim (Bool-cases (runs desc t)) [
  | inl e ↦ rw e (omega arith)
  | inr e ↦ rw e (omega arith)
]

active_count-put :
    (desc : TaskDescription) (k : String) (t : RunningTask) (d : Dict RunningTask)
    → active_count desc (put k t d) ≤ active_count desc d + 1
unfolding active_count put
active_count-put desc k t [] = omega (arith, weight_one desc t)
active_count-put desc k t ((j, u) ∷ d) = elim (Bool-cases (str_eq j k)) [
  | inl e ↦ rw e (omega (arith, weight_one desc t))
  | inr e ↦ rw e (omega (arith, active_count-put desc k t d))
]

active_count-put_old :
    (desc : TaskDescription) (k : String) (t u : RunningTask) (d : Dict RunningTask)
    → get k d ≡ some u
    → active_count desc (put k t d) + weight desc u ≡ active_count desc d + weight desc t
unfolding active_count put get
active_count-put_old desc k t u [] h = cc
active_count-put_old desc k t u ((j, w) ∷ d) h = elim (Bool-cases (str_eq j k)) [
  | inl e ↦ rw (e, some_inj (rw e at h)) (omega arith)
  | inr e ↦ rw e (omega (arith, active_count-put_old desc k t u d (rw e at h)))
]

active_count-none :
    (desc : TaskDescription) (d : Dict RunningTask)
    → first (runs desc) (values d) ≡ none
    → active_count desc d ≡ 0
unfolding active_count values
active_count-none desc [] h = refl
active_count-none desc ((k, t) ∷ d) h = elim (Bool-cases (runs desc t)) [
  | inl e ↦ absurd (none-some (sym (rw e at h)))
  | inr e ↦ rw e (omega (arith, active_count-none desc d (rw e at h)))
]

-- Every task stands under its own id, and its states have their names.
abbrev pub IsKeyed : Dict RunningTask → Type 0
IsKeyed d = IsDistinct d × Entries (λ k t. (t.id ≡ k) × IsNamed t) d

-- What is found by a test stands under its id.
found_under_id :
    (p : RunningTask → Bool) (d : Dict RunningTask) (t : RunningTask)
    → IsDistinct d
    → Entries (λ k t. t.id ≡ k) d
    → first p (values d) ≡ some t
    → (get t.id d ≡ some t) × (p t ≡ true)
unfolding values get
found_under_id p [] t dis h e = absurd (none-some e)
found_under_id p ((k, u) ∷ d) t dis h e = elim (Bool-cases (p u)) [
  | inl f ↦
      subst (λ x. (get x.id ((k, u) ∷ d) ≡ some x) × (p x ≡ true)) (some_inj (rw f at e))
        (
          subst (λ i. get i ((k, u) ∷ d) ≡ some u) (sym (h k u (get_head k u d))) (get_head k u d),
          f,
        )
  | inr f ↦
      let (found, good) =
        found_under_id p d t dis.1 (λ j v q. h j v (get_tail k j u v d dis.0 q)) (rw f at e) in
      (get_tail k t.id u t d dis.0 found, good)
]

ended_weight : (desc : TaskDescription) (t : RunningTask) → is_active t ≡ false → weight desc t ≡ 0
unfolding runs
ended_weight desc t h = rw (h, and_false (str_eq t.descriptor.id desc.id)) refl
  where
    and_false : (b : Bool) → (b && false) ≡ false
    and_false true = refl
    and_false false = refl

runs-weight : (desc : TaskDescription) (t : RunningTask) → runs desc t ≡ true → weight desc t ≡ 1
runs-weight desc t h = rw h refl

active_of_runs :
    (desc : TaskDescription) (t : RunningTask) → runs desc t ≡ true → is_active t ≡ true
unfolding runs
active_of_runs desc t h = and_right (str_eq t.descriptor.id desc.id) (is_active t) h

abbrev pub table_of : TaskTable × Started → TaskTable
table_of (h, s) = h

-- Meanwhile no task of the description becomes active.
abbrev pub IsQuiet : TaskDescription → (TaskTable → TaskTable) → Type 0
IsQuiet desc others =
    (h : TaskTable) → active_count desc (others h).tasks ≤ active_count desc h.tasks

module _ (machine : Machine) (utc_str : ℕ → String) (text_of : String → String) (subs : EventIndex)
    (now : ℕ) (others : TaskTable → TaskTable) where
  add_started_count :
      (o : Option (RunningTask × List TaskCommand)) (desc : TaskDescription) (h : TaskTable)
      → IsQuiet desc others
      → active_count desc (table_of (add_started machine utc_str text_of subs now others o h)).tasks
        ≤ active_count desc h.tasks + 1
  unfolding add_started
  add_started_count none desc h quiet = omega arith
  add_started_count (some (t, commands)) desc h quiet =
      omega (arith, active_count-put desc t.id t (others h).tasks, quiet h)

  start_task_directly_count :
      (uid : String) (desc : TaskDescription) (h : TaskTable)
      → IsQuiet desc others
      → active_count desc
          (table_of (start_task_directly machine utc_str text_of subs now others uid desc h)).tasks
        ≤ active_count desc h.tasks + 1
  unfolding start_task_directly
  start_task_directly_count uid desc h quiet =
      add_started_count
        (empty machine utc_str text_of subs now uid (evaluate_task_definition text_of desc)) desc h
        quiet

  -- A task that is ended to be replaced does not count any more.
  replaced_count :
      (desc : TaskDescription) (existing : RunningTask) (d : Dict RunningTask)
      → IsKeyed d
      → first (runs desc) (values d) ≡ some existing
      → active_count desc d ≤ 1
      → active_count desc (put existing.id (end_task machine utc_str subs now existing) d) ≡ 0
  replaced_count desc existing d keyed e one =
      let (at, good) =
        found_under_id (runs desc) d existing keyed.0 (λ k t q. (keyed.1 k t q).0) e in
      let ended =
        end_task-IsEnded machine utc_str subs now existing (keyed.1 existing.id existing at).1
          (active_of_runs desc existing good) in
      omega (
        arith,
        active_count-put_old desc existing.id (end_task machine utc_str subs now existing) existing
            d at,
        ended_weight desc (end_task machine utc_str subs now existing) ended.inactive,
        runs-weight desc existing good,
        one,
      )

  start_beside_count :
      (b : TaskSurpassBehaviour) (uid : String) (desc : TaskDescription) (existing : RunningTask)
      (h : TaskTable)
      → IsQuiet desc others
      → b ≢ parallel
      → active_count desc (put existing.id (end_task machine utc_str subs now existing) h.tasks) ≡ 0
      → active_count desc h.tasks ≤ 1
      → active_count desc
          (table_of
            (start_beside machine utc_str text_of subs now others b uid desc existing h)).tasks
        ≤ 1
  unfolding start_beside
  start_beside_count skip uid desc existing h quiet alone gone one = one
  start_beside_count parallel uid desc existing h quiet alone gone one = absurd (alone refl)
  start_beside_count wait uid desc existing h quiet alone gone one = one
  start_beside_count replace uid desc existing h quiet alone gone one = omega (
    arith,
    start_task_directly_count uid desc
        (others (record h {
          tasks = put existing.id (end_task machine utc_str subs now existing) h.tasks;
        }))
        quiet,
    quiet
        (record h { tasks = put existing.id (end_task machine utc_str subs now existing) h.tasks }),
    gone,
  )

  start_unless_count :
      (o : Option RunningTask) (uid : String) (desc : TaskDescription) (h : TaskTable)
      → first (runs desc) (values h.tasks) ≡ o
      → IsQuiet desc others
      → IsKeyed h.tasks
      → desc.on_surpass ≢ parallel
      → active_count desc h.tasks ≤ 1
      → active_count desc
          (table_of (start_unless machine utc_str text_of subs now others o uid desc h)).tasks
        ≤ 1
  unfolding start_unless
  start_unless_count none uid desc h e quiet keyed alone one =
      omega (arith, start_task_directly_count uid desc h quiet, active_count-none desc h.tasks e)
  start_unless_count (some existing) uid desc h e quiet keyed alone one =
      start_beside_count desc.on_surpass uid desc existing h quiet alone
        (replaced_count desc existing h.tasks keyed e one) one

  -- Every task stands under its own id with its states under their names, at most one active task has the
  -- description's id, and the description does not allow parallel runs. If whatever else runs while the call
  -- waits for the database makes no task of the description active, then after `start_task` at most one
  -- active task has the description's id.
  pub start_task_one_active :
      (uid : String) (desc : TaskDescription) (h : TaskTable)
      → IsQuiet desc others
      → IsKeyed h.tasks
      → desc.on_surpass ≢ parallel
      → active_count desc h.tasks ≤ 1
      → active_count desc
          (table_of (start_task machine utc_str text_of subs now others uid desc h)).tasks
        ≤ 1
  unfolding start_task existing_task
  start_task_one_active uid desc h quiet keyed alone one =
      start_unless_count (first (runs desc) (values h.tasks)) uid desc h refl quiet keyed alone one
