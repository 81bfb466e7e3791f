-- ===== src/WorkerQueue/Select/Best.antt =====
-- The worker that `__add_task` chooses is the best of those that can perform the task.
use Prim.Native.Nat.{max}
use cloudkeeper.Base.{
  ℕ, ◌≤◌, ◌≡◌, refl, ◌↔◌, sym, ap, subst, ◌∙◌, ◌≢◌, ◌⊎◌, inl, inr, Bool, true, false, Option, none,
  some, List, [], ◌∷◌, arith, if◌then◌else◌, leb, nat_eq, Bool-cases, head, keep, some_inj, All,
  All-map, IsIn, keep-IsIn, keep-All, IsIn-keep, keep-nil, All-IsIn, All-of_IsIn, ℤ, ◌≤ℤ◌, leb_ℤ,
  ≤ℤ_trans, ≤ℤ_refl, leb_ℤ→≤ℤ, not-leb_ℤ→≤ℤ,
}
use cloudkeeper.WorkerQueue.Data.{WorkerTask, Subscription, Queue, work_of, workers_for}
use cloudkeeper.WorkerQueue.Select.{
  can_perform, filter_len, max_filter_len, insert_by, sorted, choose, matching, select,
}

max_filter_len-ge : (res : ℕ) (xs : List Subscription) → res ≤ max_filter_len res xs
max_filter_len-ge res [] = omega arith
max_filter_len-ge res (x ∷ xs) = omega (arith, max_filter_len-ge (max res (filter_len x)) xs)

max_filter_len-bounds :
    (res : ℕ) (xs : List Subscription) → All (λ x. filter_len x ≤ max_filter_len res xs) xs
max_filter_len-bounds res [] = tt
max_filter_len-bounds res (x ∷ xs) = (
  omega (arith, max_filter_len-ge (max res (filter_len x)) xs),
  max_filter_len-bounds (max res (filter_len x)) xs,
)

-- The maximum is the start value, or it is attained.
max_filter_len_attained :
    (res : ℕ) (xs : List Subscription)
    → (max_filter_len res xs ≡ res)
      ⊎ ((x : Subscription) × IsIn x xs × (filter_len x ≡ max_filter_len res xs))
max_filter_len_attained res [] = inl refl
max_filter_len_attained res (x ∷ xs) = elim (max_filter_len_attained (max res (filter_len x)) xs) [
  | inl e ↦ elim (Bool-cases (leb (filter_len x) res)) [
    | inl small ↦ inl (ground (arith, e))
    | inr large ↦ inr (x, inl refl, ground (arith, e))
  ]
  | inr (y, m, e) ↦ inr (y, inr m, e)
]

module _ (key : Subscription → ℤ) where
  abbrev smaller : Subscription → Option Subscription → Subscription
  smaller x none = x
  smaller x (some y) = if leb_ℤ (key x) (key y) then x else y

  head-insert_by :
      (x : Subscription) (xs : List Subscription)
      → head (insert_by key x xs) ≡ some (smaller x (head xs))
  unfolding insert_by
  head-insert_by x [] = refl
  head-insert_by x (y ∷ ys) = elim (Bool-cases (leb_ℤ (key x) (key y))) [
    | inl e ↦ rw e
    | inr e ↦ rw e
  ]

  head-sorted :
      (x : Subscription) (xs : List Subscription)
      → head (sorted key (x ∷ xs)) ≡ some (smaller x (head (sorted key xs)))
  unfolding sorted
  head-sorted x xs = head-insert_by x (sorted key xs)

  abbrev IsLeastOf : List Subscription → Subscription → Type 0
  IsLeastOf xs s = IsIn s xs × All (λ x. key s ≤ℤ key x) xs

  smaller-IsLeastOf :
      (x t : Subscription) (xs : List Subscription)
      → IsLeastOf xs t
      → IsLeastOf (x ∷ xs) (smaller x (some t))
  smaller-IsLeastOf x t xs h = elim (Bool-cases (leb_ℤ (key x) (key t))) [
    | inl e ↦ subst (IsLeastOf (x ∷ xs)) (chosen_x e) (
      inl refl,
      (
        ≤ℤ_refl (key x),
        All-map (λ y. key t ≤ℤ key y) (λ y. key x ≤ℤ key y) xs
            (λ y. ≤ℤ_trans (key x) (key t) (key y) (leb_ℤ→≤ℤ (key x) (key t) e)) h.1,
      ),
    )
    | inr e ↦
        subst (IsLeastOf (x ∷ xs)) (chosen_t e) (inr h.0, (not-leb_ℤ→≤ℤ (key x) (key t) e, h.1))
  ]
    where
      chosen_x : leb_ℤ (key x) (key t) ≡ true → x ≡ smaller x (some t)
      chosen_x e = rw e refl

      chosen_t : leb_ℤ (key x) (key t) ≡ false → t ≡ smaller x (some t)
      chosen_t e = rw e refl

  sorted-IsLeastOf :
      (x : Subscription) (xs : List Subscription)
      → (s : Subscription) × (head (sorted key (x ∷ xs)) ≡ some s) × IsLeastOf (x ∷ xs) s
  unfolding sorted
  sorted-IsLeastOf x [] = (x, head-sorted x [], (inl refl, (≤ℤ_refl (key x), tt)))
  sorted-IsLeastOf x (y ∷ ys) =
      let (t, e, least) = sorted-IsLeastOf y ys in
      (
        smaller x (some t),
        head-sorted x (y ∷ ys) ∙ ap (λ o. some (smaller x o)) e,
        smaller-IsLeastOf x t (y ∷ ys) least,
      )

  -- `sorted(...)[0]` is an element, and no key is smaller than its key.
  head-sorted_least :
      (xs : List Subscription) (s : Subscription) → head (sorted key xs) ≡ some s → IsLeastOf xs s
  unfolding sorted
  head-sorted_least [] s h = cc
  head-sorted_least (x ∷ xs) s h =
      let (t, e, least) = sorted-IsLeastOf x xs in
      subst (IsLeastOf (x ∷ xs)) (some_inj (sym e ∙ h)) least

  head-sorted-some :
      (xs : List Subscription) → xs ≢ [] → (s : Subscription) × (head (sorted key xs) ≡ some s)
  head-sorted-some [] h = absurd (h refl)
  head-sorted-some (x ∷ xs) h = let (t, e, least) = sorted-IsLeastOf x xs in (t, e)

module _ (q : Queue) where
  -- `s` is at least as specific as `x`, and if they are equally specific it has no more work.
  abbrev pub IsBetter : Subscription → Subscription → Type 0
  IsBetter s x =
      (filter_len x ≤ filter_len s)
      × (filter_len x ≡ filter_len s → work_of q s.worker_id ≤ℤ work_of q x.worker_id)

  choose-IsBetter :
      (xs : List Subscription) (s : Subscription)
      → choose q xs ≡ some s
      → IsIn s xs × All (IsBetter s) xs
  unfolding choose
  choose-IsBetter xs s h =
      let work : Subscription → ℤ = λ x. work_of q x.worker_id in
      let top : Subscription → Bool = λ x. nat_eq (filter_len x) (max_filter_len 0 xs) in
      let (chosen, least) = head-sorted_least work (keep top xs) s h in
      let (found, is_top) = IsIn-keep s top xs chosen in
      let least_all = keep-All (λ x. work s ≤ℤ work x) top xs least in
      (
        found,
        All-of_IsIn (IsBetter s) xs λ x m. (
          better_len x m is_top,
          λ same. All-IsIn (λ y. top y ≡ true → work s ≤ℤ work y) x xs least_all m (rw same is_top),
        ),
      )
    where
      better_len :
          (x : Subscription)
          → IsIn x xs
          → nat_eq (filter_len s) (max_filter_len 0 xs) ≡ true
          → filter_len x ≤ filter_len s
      better_len x m is_top =
          let fits =
            All-IsIn (λ y. filter_len y ≤ max_filter_len 0 xs) x xs (max_filter_len-bounds 0 xs)
              m in
          ground arith

  -- Some element attains the maximal length.
  top_exists :
      (xs : List Subscription)
      → xs ≢ []
      → (x : Subscription) × IsIn x xs × (filter_len x ≡ max_filter_len 0 xs)
  top_exists [] h = absurd (h refl)
  top_exists (x ∷ xs) h = elim (max_filter_len_attained 0 (x ∷ xs)) [
    | inl e ↦ (x, inl refl, omega (arith, e, (max_filter_len-bounds 0 (x ∷ xs)).0))
    | inr found ↦ found
  ]

  choose-some : (xs : List Subscription) → xs ≢ [] → (s : Subscription) × (choose q xs ≡ some s)
  unfolding choose
  choose-some xs h =
      let (x, m, e) = top_exists xs h in
      head-sorted-some (λ y. work_of q y.worker_id) _
        λ empty.
          subst (λ l. IsIn x l) empty
            (keep-IsIn x (λ a. nat_eq (filter_len a) (max_filter_len 0 xs)) xs m (ground arith))

choose-nil : (q : Queue) → choose q [] ≡ none
unfolding choose
choose-nil q = refl

-- The worker that is selected for a task is subscribed to the task's name and can perform the task,
-- and no other such worker has a more specific filter, or an equally specific one and less work.
pub select-IsBetter :
    (q : Queue) (t : WorkerTask) (s : Subscription)
    → select q t ≡ some s
    → IsIn s (workers_for q t.name)
      × (can_perform t s ≡ true)
      × All (λ x. can_perform t x ≡ true → IsBetter q s x) (workers_for q t.name)
unfolding select
select-IsBetter q t s h =
    let (found, better) = choose-IsBetter q (matching q t) s h in
    let (listed, fits) = IsIn-keep s (can_perform t) (workers_for q t.name) found in
    (listed, fits, keep-All (IsBetter q s) (can_perform t) (workers_for q t.name) better)

-- A task finds no worker exactly when no subscription to its name can perform it.
pub select-none_iff :
    (q : Queue) (t : WorkerTask)
    → (select q t ≡ none) ↔ All (λ x. can_perform t x ≡ false) (workers_for q t.name)
unfolding select
select-none_iff q t = (
  λ h.
      All-of_IsIn (λ x. can_perform t x ≡ false) (workers_for q t.name)
        λ x m. elim (Bool-cases (can_perform t x)) [
          | inl fits ↦
              absurd (no_choice x h (keep-IsIn x (can_perform t) (workers_for q t.name) m fits))
          | inr e ↦ e
        ],
  λ h. ap (choose q) (keep-nil (can_perform t) (workers_for q t.name) h) ∙ choose-nil q,
)
  where
    no_choice : (x : Subscription) → choose q (matching q t) ≡ none → ¬ IsIn x (matching q t)
    no_choice x e m =
        let (s, chosen) = choose-some q (matching q t) (λ empty. subst (IsIn x) empty m) in cc
