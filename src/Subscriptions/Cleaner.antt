-- ===== src/Subscriptions/Cleaner.antt =====
-- The periodic removal of subscribers that are not connected, and that memory and database stay in step.
use cloudkeeper.Base.{
  subst, str_eq_refl, member-keep, ℕ, ◌-◌, String, ◌≡◌, refl, ◌∙◌, ap, Bool, true, false, not, ◌&&◌,
  Option, none, some, List, [], ◌∷◌, arith, inl, inr, Bool-cases, Option-cases, str_eq, str_eq_iff,
  ltb, if◌then◌else◌, member,
}
use cloudkeeper.Dict.{get, has, pop, keys, get-put, get-pop, member-keys, get_of_not-has}
use cloudkeeper.Subscriptions.Data.{Subscription}
use cloudkeeper.Subscriptions.Store.{SubscriberDb}
use cloudkeeper.Subscriptions.Handler.{
  Handler, add_subscription, remove_subscription, update_subscriptions, remove_subscriber,
  forget_connected, expire, forgotten, check_missing, check_all_missing, check_outdated_handler,
  deleted, load_from_db,
}
use cloudkeeper.Subscriptions.Changes.{IsSynced, operations-IsSynced}
use cloudkeeper.Subscriptions.Changes.Removal.{remove_subscriber_lem}

-- Missing for more than three minutes.
abbrev pub late : ℕ → Option ℕ → Bool
late now none = false
late now (some at) = ltb 180 (now - at)

module _ (base : SubscriberDb) where
  forget_connected_by_id :
      (l : List String) (h : Handler base) → (forget_connected base l h).by_id ≡ h.by_id
  unfolding forget_connected
  forget_connected_by_id [] h = refl
  forget_connected_by_id (c ∷ l) h = forget_connected_by_id l _

  forget_connected-IsSynced :
      (l : List String) (h : Handler base)
      → IsSynced base h
      → IsSynced base (forget_connected base l h)
  unfolding forget_connected
  forget_connected-IsSynced [] h y = y
  forget_connected-IsSynced (c ∷ l) h y =
      forget_connected-IsSynced l _ (record { ids = y.ids; events = y.events })

  get-forget_connected :
      (k : String) (l : List String) (h : Handler base)
      → get k (forget_connected base l h).not_connected
        ≡ (if member k l then none else get k h.not_connected)
  unfolding forget_connected
  get-forget_connected k [] h = refl
  get-forget_connected k (c ∷ l) h =
      get-forget_connected k l (record h { not_connected = pop c h.not_connected })
      ∙ ground (arith, get-pop c k h.not_connected)

  -- What one round of the loop does.
  record IsChecked (now : ℕ) (id : String) (h p : Handler base) : Type 0 where
    synced : IsSynced base p
    ids :
        (k : String)
        → get k p.by_id
          ≡ (if str_eq id k && late now (get id h.not_connected) then none else get k h.by_id)
    others : (k : String) → str_eq id k ≡ false → get k p.not_connected ≡ get k h.not_connected
    settled : late now (get id p.not_connected) ≡ false

  remove_subscriber_not_connected :
      (id : String) (h : Handler base)
      → (remove_subscriber base id h).0.not_connected ≡ h.not_connected
  unfolding remove_subscriber deleted load_from_db
  remove_subscriber_not_connected id h = elim (Bool-cases (has id h.by_id)) [
    | inl e ↦ rw e
    | inr e ↦ rw e
  ]

  remove_subscriber-IsSynced :
      (id : String) (h : Handler base)
      → IsSynced base h
      → IsSynced base (remove_subscriber base id h).0
  remove_subscriber-IsSynced id h y =
      (operations-IsSynced base h id ""
        (record { message_type = ""; wait_for_completion = true; timeout = 0 }) [] y).3

  -- The subscriber is removed and no longer noted as missing.
  forgotten-IsChecked :
      (now : ℕ) (id : String) (h : Handler base) (at : ℕ)
      → get id h.not_connected ≡ some at
      → ltb 180 (now - at) ≡ true
      → IsSynced base h
      → IsChecked now id h (forgotten base id (remove_subscriber base id h).0)
  unfolding forgotten
  forgotten-IsChecked now id h at e long y =
      let synced = remove_subscriber-IsSynced id h y in
      record {
        synced = record { ids = synced.ids; events = synced.events };
        ids = λ k. rw (e, long) ((remove_subscriber_lem base h y id).1 k ∙ ground arith);
        others = λ k other.
            get-pop id k (remove_subscriber base id h).0.not_connected
            ∙ rw (other, remove_subscriber_not_connected id h);
        settled =
            ap (late now) (get-pop id id (remove_subscriber base id h).0.not_connected)
            ∙ rw (str_eq_refl id);
      }

  check_missing-IsChecked :
      (now : ℕ) (id : String) (h : Handler base)
      → IsSynced base h
      → IsChecked now id h (check_missing base now id h)
  unfolding check_missing expire
  check_missing-IsChecked now id h y = elim (Option-cases (get id h.not_connected)) [
    | inl e ↦ rw e (record {
      synced = record { ids = y.ids; events = y.events };
      ids = λ k. rw e (ground arith);
      others = λ k other. get-put id k now h.not_connected ∙ rw other;
      settled =
          ap (late now) (get-put id id now h.not_connected) ∙ rw (str_eq_refl id) (ground arith);
    })
    | inr (at, e) ↦ elim (Bool-cases (ltb 180 (now - at))) [
      | inl long ↦ rw (e, long) (forgotten-IsChecked now id h at e long y)
      | inr short ↦
          rw (e, short)
            (record {
              synced = y;
              ids = λ k. rw (e, short) (ground arith);
              others = λ k other. refl;
              settled = rw e short;
            })
    ]
  ]

  get-check_all_missing :
      (now : ℕ) (l : List String) (h : Handler base) (k : String)
      → IsSynced base h
      → get k (check_all_missing base now l h).by_id
        ≡ (if member k l && late now (get k h.not_connected) then none else get k h.by_id)
  unfolding check_all_missing
  get-check_all_missing now [] h k y = refl
  get-check_all_missing now (id ∷ l) h k y =
      let c = check_missing-IsChecked now id h y in
      get-check_all_missing now l (check_missing base now id h) k c.synced
      ∙ elim (Bool-cases (str_eq id k)) [
        | inl same ↦ here c ((str_eq_iff id k).0 same)
        | inr other ↦ rw (other, c.others k other, c.ids k) (ground (arith, other))
      ]
    where
      here :
          IsChecked now id h (check_missing base now id h)
          → id ≡ k
          → (if member k l && late now (get k (check_missing base now id h).not_connected)
              then none
              else get k (check_missing base now id h).by_id)
            ≡ (if member k (id ∷ l) && late now (get k h.not_connected)
                then none
                else get k h.by_id)
      here c same = ground (
        arith,
        c.ids k,
        subst (λ i. late now (get i (check_missing base now id h).not_connected) ≡ false) same
            c.settled,
        ap (λ i. get i h.not_connected) same,
        str_eq_iff id k,
      )

  -- When tables in step with the database are checked, a subscriber disappears exactly if the service
  -- has been up for more than five minutes, the subscriber is known and not connected, and it has been
  -- noted as missing for more than three minutes; all other subscribers stay as they are.
  pub check_outdated_handler_removes :
      (now : ℕ) (connected : List String) (h : Handler base) (k : String)
      → IsSynced base h
      → get k (check_outdated_handler base now connected h).by_id ≡ (
          if ltb 300 (now - h.started_at)
            && not (member k connected)
            && late now (get k h.not_connected)
          then none
          else get k h.by_id)
  unfolding check_outdated_handler
  check_outdated_handler_removes now connected h k y =
      elim (Bool-cases (ltb 300 (now - h.started_at))) [
        | inr early ↦ rw early
        | inl ripe ↦ rw ripe (
            get-check_all_missing now _ (forget_connected base connected h) k
              (forget_connected-IsSynced connected h y)
            ∙ rw
                (
                  get-forget_connected k connected h,
                  forget_connected_by_id connected h,
                  member-keep k (λ id. not (member id connected)) (keys h.by_id),
                  member-keys k h.by_id,
                )
                (ground (arith, get_of_not-has k h.by_id)))
      ]

  check_all_missing-IsSynced :
      (now : ℕ) (l : List String) (h : Handler base)
      → IsSynced base h
      → IsSynced base (check_all_missing base now l h)
  unfolding check_all_missing
  check_all_missing-IsSynced now [] h y = y
  check_all_missing-IsSynced now (id ∷ l) h y =
      check_all_missing-IsSynced now l (check_missing base now id h)
        (check_missing-IsChecked now id h y).synced

  check_outdated_handler-IsSynced :
      (now : ℕ) (connected : List String) (h : Handler base)
      → IsSynced base h
      → IsSynced base (check_outdated_handler base now connected h)
  unfolding check_outdated_handler
  check_outdated_handler-IsSynced now connected h y =
      elim (Bool-cases (ltb 300 (now - h.started_at))) [
        | inr early ↦ rw early y
        | inl ripe ↦ rw ripe (
            check_all_missing-IsSynced now _ (forget_connected base connected h)
              (forget_connected-IsSynced connected h y))
      ]

  -- If the tables in memory are those of the database, then so they are after each operation that writes:
  -- adding, removing and replacing subscriptions, removing a subscriber, and the periodic check. Each
  -- runs as one step: no other operation runs between its write to the database and the reload.
  pub handler-IsSynced :
      (h : Handler base) (id event : String) (s : Subscription) (l : List Subscription) (now : ℕ)
      (connected : List String)
      → IsSynced base h
      → IsSynced base (add_subscription base id s h).0
        × IsSynced base (remove_subscription base id event h).0
        × IsSynced base (update_subscriptions base id l h).0
        × IsSynced base (remove_subscriber base id h).0
        × IsSynced base (check_outdated_handler base now connected h)
  handler-IsSynced h id event s l now connected y =
      let (added, removed, updated, gone) = operations-IsSynced base h id event s l y in
      (added, removed, updated, gone, check_outdated_handler-IsSynced now connected h y)
