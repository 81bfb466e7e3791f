-- ===== src/Subscriptions/Handler.antt =====
-- resotocore/core/task/subscribers.py: the `SubscriptionHandler`. It keeps the subscribers of the
-- database in memory, by id and by message type, and reloads both tables after every write.
-- Each operation is one step: what other operations do while it waits for the database is not modelled.
use cloudkeeper.Base.{
  ℕ, ◌-◌, String, Bool, true, false, not, Option, none, some, List, [], ◌∷◌, ◌++◌, ltb,
  if◌then◌else◌, keep, member,
}
use cloudkeeper.Dict.{Dict, get, has, put, pop, values, keys}
use cloudkeeper.Subscriptions.Data.{
  Subscription, Subscriber, subscriber_eq, from_list, with_subscription, without_subscription,
}
use cloudkeeper.Subscriptions.Store.{SubscriberDb, by_id_of}

abbrev pub EventIndex : Type 0
EventIndex = Dict (List Subscriber)

abbrev pub listed : String → EventIndex → List Subscriber
listed event d = elim (get event d) [ none ↦ [] | some l ↦ l ]

-- The inner loop of `update_subscriber_by_event`: one subscriber under each of its message types.
unfoldable pub index_one : Subscriber → List Subscription → EventIndex → EventIndex
index_one s [] d = d
index_one s (x ∷ l) d = index_one s l (put x.message_type (listed x.message_type d ++ s ∷ []) d)

unfoldable pub index_from : List Subscriber → EventIndex → EventIndex
index_from [] d = d
index_from (s ∷ l) d = index_from l (index_one s (values s.subscriptions) d)

-- update_subscriber_by_event
unfoldable pub update_subscriber_by_event : List Subscriber → EventIndex
update_subscriber_by_event l = index_from l []

subscriber_or_new : String → Option Subscriber → Subscriber
subscriber_or_new id none = record { id = id; subscriptions = [] }
subscriber_or_new id (some s) = s

-- self._subscribers_by_id.get(id, Subscriber(id, {}))
unfoldable pub known_or_new : String → Dict Subscriber → Subscriber
unfolding subscriber_or_new
known_or_new id d = subscriber_or_new id (get id d)

unfoldable pub has_subscriptions : Subscriber → Bool
has_subscriptions s = elim s.subscriptions [ [] ↦ false | x ∷ l ↦ true ]

module _ (base : SubscriberDb) where
  pub record Handler : Type 0 where
    pub db : base.State
    pub by_id : Dict Subscriber
    pub by_event : EventIndex
    pub started_at : ℕ
    pub not_connected : Dict ℕ

  -- __load_from_db
  unfoldable pub load_from_db : Handler → Handler
  load_from_db h =
      let subscribers = by_id_of (base.all h.db) in
      record h { by_id = subscribers; by_event = update_subscriber_by_event (values subscribers) }

  abbrev pub get_subscriber : String → Handler → Option Subscriber
  get_subscriber id h = get id h.by_id

  abbrev pub list_subscriber_for : String → Handler → List Subscriber
  list_subscriber_for event h = listed event h.by_event

  -- A write to the database, and the reload. The source awaits both and takes no lock; here they are one
  -- step, in which no other operation runs.
  unfoldable pub saved : Subscriber → Handler → Handler
  saved s h = load_from_db (record h { db = base.update s h.db })

  unfoldable pub deleted : String → Handler → Handler
  deleted id h = load_from_db (record h { db = base.delete id h.db })

  unfoldable pub add_subscription : String → Subscription → Handler → Handler × Subscriber
  add_subscription id s h =
      let existing = known_or_new id h.by_id in
      let updated = with_subscription s existing in
      (if subscriber_eq existing updated then h else saved updated h, updated)

  unfoldable pub remove_subscription : String → String → Handler → Handler × Subscriber
  remove_subscription id event h =
      let existing = known_or_new id h.by_id in
      let updated = without_subscription event existing in
      (
        if subscriber_eq existing updated
            then h
            else if has_subscriptions updated
            then saved updated h
            else deleted id h,
        updated,
      )

  unfoldable pub update_subscriptions : String → List Subscription → Handler → Handler × Subscriber
  update_subscriptions id l h =
      let updated = from_list id l in
      (
        if elim (get id h.by_id) [ none ↦ false | some s ↦ subscriber_eq s updated ]
            then h
            else saved updated h,
        updated,
      )

  unfoldable pub remove_subscriber : String → Handler → Handler × Option Subscriber
  remove_subscriber id h = (if has id h.by_id then deleted id h else h, get id h.by_id)

  unfoldable pub forget_connected : List String → Handler → Handler
  forget_connected [] h = h
  forget_connected (c ∷ l) h =
      forget_connected l (record h { not_connected = pop c h.not_connected })

  unfoldable pub forgotten : String → Handler → Handler
  forgotten id h = record h { not_connected = pop id h.not_connected }

  unfoldable pub expire : ℕ → String → Option ℕ → Handler → Handler
  expire now id none h = record h { not_connected = put id now h.not_connected }
  expire now id (some at) h =
      if ltb 180 (now - at) then forgotten id (remove_subscriber id h).0 else h

  -- The body of the loop over the missing subscribers.
  unfoldable pub check_missing : ℕ → String → Handler → Handler
  unfolding expire forgotten
  check_missing now id h = expire now id (get id h.not_connected) h

  unfoldable pub check_all_missing : ℕ → List String → Handler → Handler
  check_all_missing now [] h = h
  check_all_missing now (id ∷ l) h = check_all_missing now l (check_missing now id h)

  -- check_outdated_handler. `connected` are the keys of the message bus's `active_listener`; the
  -- missing ones are visited in the order of the table.
  unfoldable pub check_outdated_handler : ℕ → List String → Handler → Handler
  check_outdated_handler now connected h =
      if ltb 300 (now - h.started_at)
      then check_all_missing now (keep (λ id. not (member id connected)) (keys h.by_id))
          (forget_connected connected h)
      else h
