-- ===== src/Subscriptions/Changes.antt =====
-- What `add_subscription` changes, and that the operations of one subscriber keep memory and database in step.
-- `Removal` is about the operations that remove.
pub mod Removal
use cloudkeeper.Base.{
  ℕ, suc, String, ◌≡◌, ◌≢◌, refl, sym, subst, ap, ◌∙◌, Bool, true, false, ◌&&◌, Option, none, some,
  List, [], ◌∷◌, arith, inl, inr, Bool-cases, Option-cases, some_inj, and_left, and_right, str_eq,
  str_eq_iff, str_eq_refl, nat_eq, bool_eq, if◌then◌else◌, length,
}
use cloudkeeper.Dict.{
  Dict, get, has, put, pop, values, get-put, get-pop, dict_eq, dict_in, dict_in-get, length-put_new,
}
use cloudkeeper.Dict.Entries.{Entries, put-Entries, Entries-nil}
use cloudkeeper.Subscriptions.Data.{
  Subscription, Subscriber, subscription_eq, subscriber_eq, from_list, same_subscription,
  with_subscription, without_subscription,
}
use cloudkeeper.Subscriptions.Store.{SubscriberDb, by_id_from, by_id_of}
use cloudkeeper.Subscriptions.Handler.{
  Handler, known_or_new, has_subscriptions, load_from_db, saved, deleted, add_subscription,
  remove_subscription, update_subscriptions, remove_subscriber, update_subscriber_by_event,
}

pub subscription_eq→≡ : (a b : Subscription) → subscription_eq a b ≡ true → a ≡ b
unfolding subscription_eq
subscription_eq→≡ a b h = ground (arith, str_eq_iff a.message_type b.message_type)

-- Writing a subscription that is not there in this form changes the subscriber, also for `==`.
changed_by_put :
    (s : Subscription) (d : Dict Subscription)
    → dict_eq subscription_eq d (put s.message_type s d) ≡ true
    → get s.message_type d ≡ some s
unfolding dict_eq
changed_by_put s d h = elim (Option-cases (get s.message_type d)) [
  | inl missing ↦ absurd (longer (length-put_new s.message_type s d missing) (and_left _ _ h))
  | inr (old, e) ↦
      let (new, found, alike) =
        dict_in-get subscription_eq d _ s.message_type old (and_right _ _ h) e in
      e
      ∙ ap some (subscription_eq→≡ old new alike)
      ∙ sym found
      ∙ get-put s.message_type s.message_type s d
      ∙ rw (str_eq_refl s.message_type)
]
  where
    longer :
        length (put s.message_type s d) ≡ suc (length d)
        → nat_eq (length d) (length (put s.message_type s d)) ≡ true
        → ⊥
    longer e f = absurd (ground arith)

pub changed_by_pop :
    (k : String) (d : Dict Subscription)
    → dict_eq subscription_eq d (pop k d) ≡ true
    → get k d ≡ none
unfolding dict_eq
changed_by_pop k d h = elim (Option-cases (get k d)) [
  | inl missing ↦ missing
  | inr (old, e) ↦
      let (new, found, alike) = dict_in-get subscription_eq d _ k old (and_right _ _ h) e in
      absurd (clash new (sym found ∙ get-pop k k d ∙ rw (str_eq_refl k)))
]
  where
    clash : (new : Subscription) → some new ≡ none → ⊥
    clash new p = cc

by_id_from-Entries :
    (l : List Subscriber) (d : Dict Subscriber)
    → Entries (λ k s. s.id ≡ k) d
    → Entries (λ k s. s.id ≡ k) (by_id_from l d)
unfolding by_id_from
by_id_from-Entries [] d h = h
by_id_from-Entries (s ∷ l) d h = by_id_from-Entries l _ (put-Entries _ s.id s d refl h)

module _ (base : SubscriberDb) where
  -- The tables in memory are those of the database.
  pub record IsSynced (h : Handler base) : Type 0 where
    pub ids : h.by_id ≡ by_id_of (base.all h.db)
    pub events : h.by_event ≡ update_subscriber_by_event (values h.by_id)

  pub load_from_db-IsSynced : (h : Handler base) → IsSynced (load_from_db base h)
  unfolding load_from_db
  load_from_db-IsSynced h = record { ids = refl; events = refl }

  pub stands_under_id :
      (h : Handler base)
      → IsSynced h
      → (k : String) (s : Subscriber) → get k h.by_id ≡ some s
      → s.id ≡ k
  stands_under_id h y k s e =
      by_id_from-Entries (base.all h.db) [] (Entries-nil _) k s
        (subst (λ d. get k d ≡ some s) y.ids e)

  pub get-saved :
      (s : Subscriber) (h : Handler base) (k : String)
      → IsSynced h
      → get k (saved base s h).by_id ≡ (if str_eq s.id k then some s else get k h.by_id)
  unfolding saved load_from_db
  get-saved s h k y = rw (y.ids) (base.all-update s h.db k)

  pub get-deleted :
      (id : String) (h : Handler base) (k : String)
      → IsSynced h
      → get k (deleted base id h).by_id ≡ (if str_eq id k then none else get k h.by_id)
  unfolding deleted load_from_db
  get-deleted id h k y = rw (y.ids) (base.all-delete id h.db k)

  pub known_or_new-id :
      (h : Handler base) (id : String) → IsSynced h → (known_or_new id h.by_id).id ≡ id
  unfolding known_or_new
  known_or_new-id h id y = elim (Option-cases (get id h.by_id)) [
    | inl e ↦ rw e
    | inr (s, e) ↦ rw e (stands_under_id h y id s e)
  ]

  keeps_IsSynced :
      (b : Bool) (h p : Handler base) → IsSynced h → IsSynced p → IsSynced (if b then h else p)
  keeps_IsSynced true h p y z = y
  keeps_IsSynced false h p y z = z

  -- The operations on one subscriber leave the tables in memory equal to what the database holds, if they
  -- were.
  pub operations-IsSynced :
      (h : Handler base) (id event : String) (s : Subscription) (l : List Subscription)
      → IsSynced h
      → IsSynced (add_subscription base id s h).0
        × IsSynced (remove_subscription base id event h).0
        × IsSynced (update_subscriptions base id l h).0
        × IsSynced (remove_subscriber base id h).0
  unfolding add_subscription remove_subscription update_subscriptions remove_subscriber saved
      deleted
  operations-IsSynced h id event s l y = (
    keeps_IsSynced _ h _ y (load_from_db-IsSynced _),
    keeps_IsSynced _ h _ y
        (keeps_IsSynced _ _ _ (load_from_db-IsSynced _) (load_from_db-IsSynced _)),
    keeps_IsSynced _ h _ y (load_from_db-IsSynced _),
    keeps_IsSynced _ _ h (load_from_db-IsSynced _) y,
  )

get-with_subscription :
    (s : Subscription) (r : Subscriber) (j : String)
    → get j (with_subscription s r).subscriptions
      ≡ (if str_eq s.message_type j then some s else get j r.subscriptions)
unfolding with_subscription same_subscription
get-with_subscription s r j = elim (Option-cases (get s.message_type r.subscriptions)) [
  | inl e ↦ rw e (get-put s.message_type j s r.subscriptions)
  | inr (old, e) ↦ elim (Bool-cases (subscription_eq old s)) [
    | inl same ↦
        rw (e, same) (ground (arith, e, subscription_eq→≡ old s same, str_eq_iff s.message_type j))
    | inr other ↦ rw (e, other) (get-put s.message_type j s r.subscriptions)
  ]
]

id-with_subscription : (s : Subscription) (r : Subscriber) → (with_subscription s r).id ≡ r.id
unfolding with_subscription
id-with_subscription s r = ground arith

-- If adding a subscription changes nothing, it was there.
settled :
    (s : Subscription) (r : Subscriber)
    → subscriber_eq r (with_subscription s r) ≡ true
    → get s.message_type r.subscriptions ≡ some s
unfolding subscriber_eq with_subscription same_subscription
settled s r h = elim (Option-cases (get s.message_type r.subscriptions)) [
  | inl e ↦ changed_by_put s r.subscriptions (and_right _ _ (rw e at h))
  | inr (old, e) ↦ elim (Bool-cases (subscription_eq old s)) [
    | inl same ↦ e ∙ ap some (subscription_eq→≡ old s same)
    | inr other ↦ changed_by_put s r.subscriptions (and_right _ _ (rw (e, other) at h))
  ]
]

module _ (base : SubscriberDb) (h : Handler base) (id : String) where
  -- The subscriber `id` of `p` has the subscriptions `subs`, and the others are those of `h`.
  pub record IsChangedTo (subs : String → Option Subscription) (p : Handler base) : Type 0 where
    pub subscriber : Subscriber
    pub stands : get id p.by_id ≡ some subscriber
    pub has_subscriptions_of : (j : String) → get j subscriber.subscriptions ≡ subs j
    pub others : (k : String) → k ≢ id → get k p.by_id ≡ get k h.by_id

module _ (base : SubscriberDb) (h : Handler base) (y : IsSynced base h) (id : String) where
  known :
      (j : String) (x : Subscription)
      → get j (known_or_new id h.by_id).subscriptions ≡ some x
      → get id h.by_id ≡ some (known_or_new id h.by_id)
  unfolding known_or_new get
  known j x found = elim (Option-cases (get id h.by_id)) [
    | inl e ↦ absurd (clash (rw e at found))
    | inr (r, e) ↦ rw e
  ]
    where
      clash : none ≡ some x → ⊥
      clash p = cc

  pub saved-IsChangedTo :
      (s : Subscriber) (subs : String → Option Subscription)
      → s.id ≡ id
      → ((j : String) → get j s.subscriptions ≡ subs j)
      → IsChangedTo base h id subs (saved base s h)
  saved-IsChangedTo s subs named holds = record {
    subscriber = s;
    stands = get-saved base s h id y ∙ rw (named, str_eq_refl id);
    has_subscriptions_of = holds;
    others = λ k other. get-saved base s h k y ∙ rw (differs k other);
  }
    where
      differs : (k : String) → k ≢ id → str_eq s.id k ≡ false
      differs k other = ground (arith, str_eq_iff s.id k)

  -- After `add_subscription` on tables in step with the database, the subscriber has the new
  -- subscription under its message type and its other subscriptions as before, and no other
  -- subscriber has changed.
  pub add_subscription-IsChangedTo :
      (s : Subscription)
      → IsChangedTo base h id
          (λ j.
            if str_eq s.message_type j
            then some s
            else get j (known_or_new id h.by_id).subscriptions)
          (add_subscription base id s h).0
  unfolding add_subscription
  add_subscription-IsChangedTo s =
      let r = known_or_new id h.by_id in
      elim (Bool-cases (subscriber_eq r (with_subscription s r))) [
        | inl same ↦ rw same (record {
          subscriber = r;
          stands = known s.message_type s (settled s r same);
          has_subscriptions_of = λ j. unchanged r (settled s r same) j;
          others = λ k other. refl;
        })
        | inr new ↦ rw new (
            saved-IsChangedTo (with_subscription s r) _
              (id-with_subscription s r ∙ known_or_new-id base h id y) (get-with_subscription s r))
      ]
    where
      unchanged :
          (r : Subscriber)
          → get s.message_type r.subscriptions ≡ some s
          → (j : String)
          → get j r.subscriptions
            ≡ (if str_eq s.message_type j then some s else get j r.subscriptions)
      unchanged r e j = ground (arith, str_eq_iff s.message_type j)
