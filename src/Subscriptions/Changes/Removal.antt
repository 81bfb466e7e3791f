-- ===== src/Subscriptions/Changes/Removal.antt =====
-- What the operations of the `SubscriptionHandler` that remove and replace change.
use cloudkeeper.Base.{
  String, ◌≡◌, ◌≢◌, refl, sym, ◌∙◌, true, false, Option, none, some, [], ◌∷◌, arith, inl, inr,
  Bool-cases, and_right, str_eq, str_eq_iff, str_eq_refl, if◌then◌else◌,
}
use cloudkeeper.Dict.{Dict, get, has, get-pop, get_of_not-has}
use cloudkeeper.Subscriptions.Data.{Subscription, Subscriber, subscriber_eq, without_subscription}
use cloudkeeper.Subscriptions.Store.{SubscriberDb}
use cloudkeeper.Subscriptions.Handler.{
  Handler, known_or_new, has_subscriptions, saved, deleted, remove_subscription, remove_subscriber,
}
use cloudkeeper.Subscriptions.Changes.{
  IsSynced, saved-IsChangedTo, changed_by_pop, known_or_new-id, get-deleted,
}

get-no_subscriptions :
    (r : Subscriber) (j : String) → has_subscriptions r ≡ false → get j r.subscriptions ≡ none
unfolding has_subscriptions get
get-no_subscriptions r j h = go r.subscriptions h
  where
    go : (d : Dict Subscription) → elim d [ [] ↦ false | x ∷ l ↦ true ] ≡ false → get j d ≡ none
    go [] e = refl
    go (x ∷ l) e = cc

-- If removing a subscription changes nothing, it was not there.
nothing_there :
    (event : String) (r : Subscriber)
    → subscriber_eq r (without_subscription event r) ≡ true
    → get event r.subscriptions ≡ none
unfolding subscriber_eq without_subscription
nothing_there event r same =
    changed_by_pop event r.subscriptions (and_right (str_eq r.id r.id) _ same)

module _ (base : SubscriberDb) (h : Handler base) (id : String) where
  -- `id` has in `p` the subscriptions `subs`, or is gone with none, and the others are those of `h`.
  pub record IsReducedTo (subs : String → Option Subscription) (p : Handler base) : Type 0 where
    pub subscriptions : (j : String) → get j (known_or_new id p.by_id).subscriptions ≡ subs j
    pub others : (k : String) → k ≢ id → get k p.by_id ≡ get k h.by_id

module _ (base : SubscriberDb) (h : Handler base) (y : IsSynced base h) (id : String) where
  differs : (k : String) → k ≢ id → str_eq id k ≡ false
  differs k other = ground (arith, str_eq_iff id k)

  deleted-gone : get id (deleted base id h).by_id ≡ none
  deleted-gone = get-deleted base id h id y ∙ rw (str_eq_refl id)

  deleted-IsReducedTo :
      (subs : String → Option Subscription)
      → ((j : String) → subs j ≡ none)
      → IsReducedTo base h id subs (deleted base id h)
  unfolding known_or_new get
  deleted-IsReducedTo subs nothing = record {
    subscriptions = λ j. rw deleted-gone (sym (nothing j));
    others = λ k other. get-deleted base id h k y ∙ rw (differs k other);
  }

  saved-IsReducedTo :
      (s : Subscriber) (subs : String → Option Subscription)
      → s.id ≡ id
      → ((j : String) → get j s.subscriptions ≡ subs j)
      → IsReducedTo base h id subs (saved base s h)
  unfolding known_or_new
  saved-IsReducedTo s subs named holds =
      let c = saved-IsChangedTo base h y id s subs named holds in
      record { subscriptions = λ j. rw c.stands (c.has_subscriptions_of j); others = c.others }

  -- After `remove_subscription` on tables in step with the database, the subscriber has no
  -- subscription for the message type, its other subscriptions are as before, and no other subscriber
  -- has changed.
  pub remove_subscription-IsReducedTo :
      (event : String)
      → IsReducedTo base h id
          (λ j. if str_eq event j then none else get j (known_or_new id h.by_id).subscriptions)
          (remove_subscription base id event h).0
  unfolding remove_subscription without_subscription
  remove_subscription-IsReducedTo event =
      let r = known_or_new id h.by_id in
      let less = without_subscription event r in
      elim (Bool-cases (subscriber_eq r less)) [
        | inl same ↦ rw same (record {
          subscriptions = λ j. unchanged r (nothing_there event r same) j;
          others = λ k other. refl;
        })
        | inr new ↦ elim (Bool-cases (has_subscriptions less)) [
          | inl some_left ↦
              rw (new, some_left)
                (saved-IsReducedTo less _ (known_or_new-id base h id y)
                  (λ j. get-pop event j r.subscriptions))
          | inr none_left ↦
              rw (new, none_left)
                (deleted-IsReducedTo _ (λ j.
                  sym (get-pop event j r.subscriptions) ∙ get-no_subscriptions less j none_left))
        ]
      ]
    where
      unchanged :
          (r : Subscriber)
          → get event r.subscriptions ≡ none
          → (j : String)
          → get j r.subscriptions ≡ (if str_eq event j then none else get j r.subscriptions)
      unchanged r e j = ground (arith, str_eq_iff event j)

  -- A subscriber whose last subscription is removed is deleted.
  pub remove_subscription_last :
      (event : String) (x : Subscription)
      → get event (known_or_new id h.by_id).subscriptions ≡ some x
      → has_subscriptions (without_subscription event (known_or_new id h.by_id)) ≡ false
      → get id (remove_subscription base id event h).0.by_id ≡ none
  unfolding remove_subscription
  remove_subscription_last event x found last =
      let r = known_or_new id h.by_id in
      elim (Bool-cases (subscriber_eq r (without_subscription event r))) [
        | inl same ↦ absurd (clash (sym found ∙ nothing_there event r same))
        | inr new ↦ rw (new, last) deleted-gone
      ]
    where
      clash : some x ≡ none → ⊥
      clash p = cc

  -- `remove_subscriber` removes exactly that subscriber, and returns the one that was there.
  pub remove_subscriber_lem :
      ((remove_subscriber base id h).1 ≡ get id h.by_id)
      × ((k : String)
          → get k (remove_subscriber base id h).0.by_id
            ≡ (if str_eq id k then none else get k h.by_id))
  unfolding remove_subscriber
  remove_subscriber_lem = (
    refl,
    λ k. elim (Bool-cases (has id h.by_id)) [
      | inl e ↦ rw e (get-deleted base id h k y)
      | inr e ↦ rw e (absent k (no_entry e))
    ],
  )
    where
      absent :
          (k : String)
          → get id h.by_id ≡ none
          → get k h.by_id ≡ (if str_eq id k then none else get k h.by_id)
      absent k e = ground (arith, str_eq_iff id k)

      no_entry : has id h.by_id ≡ false → get id h.by_id ≡ none
      no_entry e = get_of_not-has id h.by_id e
