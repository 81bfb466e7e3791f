-- ===== src/Subscriptions/Index.antt =====
-- The table of subscribers by message type.
use cloudkeeper.Base.{
  String, ◌≡◌, sym, subst, Bool, true, false, List, [], ◌∷◌, ◌++◌, ◌⊎◌, inl, inr, ◌↔◌, arith,
  Bool-cases, str_eq, str_eq_iff, if◌then◌else◌, exist, IsIn, IsIn-append_left, IsIn-append_right,
  IsIn-append,
}
use cloudkeeper.Dict.{get, put, values, get-put}
use cloudkeeper.Subscriptions.Data.{Subscription, Subscriber}
use cloudkeeper.Subscriptions.Store.{SubscriberDb}
use cloudkeeper.Subscriptions.Handler.{
  EventIndex, listed, index_one, index_from, update_subscriber_by_event, Handler,
  list_subscriber_for,
}
use cloudkeeper.Subscriptions.Changes.{IsSynced}

abbrev names : String → List Subscription → Bool
names event l = exist (λ x. str_eq x.message_type event) l

-- The subscriber has a subscription for the message type.
abbrev pub IsFor : String → Subscriber → Type 0
IsFor event s = exist (λ x. str_eq x.message_type event) (values s.subscriptions) ≡ true

listed-put :
    (event k : String) (l : List Subscriber) (d : EventIndex)
    → listed event (put k l d) ≡ (if str_eq k event then l else listed event d)
listed-put event k l d = ground (arith, get-put k event l d)

index_one_adds :
    (event : String) (s t : Subscriber) (l : List Subscription) (d : EventIndex)
    → IsIn s (listed event (index_one t l d))
    → IsIn s (listed event d) ⊎ ((t ≡ s) × (names event l ≡ true))
unfolding index_one
index_one_adds event s t [] d m = inl m
index_one_adds event s t (x ∷ l) d m =
    elim (index_one_adds event s t l (put x.message_type (listed x.message_type d ++ t ∷ []) d) m) [
      | inr (same, found) ↦ inr (same, ground arith)
      | inl before ↦ elim (Bool-cases (str_eq x.message_type event)) [
        | inr other ↦ inl (rw (listed-put, other) at before)
        | inl here ↦
            elim (IsIn-append s (listed x.message_type d) (t ∷ [])
              (rw (listed-put, here) at before)) [
                | inl old ↦ inl (
                    subst (λ k. IsIn s (listed k d)) ((str_eq_iff x.message_type event).0 here) old)
                | inr new ↦ elim new [
                  | inl same ↦ inr (same, ground arith)
                  | inr none_left ↦ absurd none_left
                ]
              ]
      ]
    ]

index_one_keeps :
    (event : String) (s t : Subscriber) (l : List Subscription) (d : EventIndex)
    → IsIn s (listed event d) ⊎ ((t ≡ s) × (names event l ≡ true))
    → IsIn s (listed event (index_one t l d))
unfolding index_one
index_one_keeps event s t [] d (inl m) = m
index_one_keeps event s t [] d (inr (same, found)) = cc
index_one_keeps event s t (x ∷ l) d h =
    index_one_keeps event s t l (put x.message_type (listed x.message_type d ++ t ∷ []) d)
      (elim (Bool-cases (str_eq x.message_type event)) [
        | inr other ↦ rw (listed-put, other) (later other h)
        | inl here ↦ inl (rw (listed-put, here) (now here h))
      ])
  where
    later :
        str_eq x.message_type event ≡ false
        → IsIn s (listed event d) ⊎ ((t ≡ s) × (names event (x ∷ l) ≡ true))
        → IsIn s (listed event d) ⊎ ((t ≡ s) × (names event l ≡ true))
    later other (inl m) = inl m
    later other (inr (same, found)) = inr (same, rw other at found)

    now :
        str_eq x.message_type event ≡ true
        → IsIn s (listed event d) ⊎ ((t ≡ s) × (names event (x ∷ l) ≡ true))
        → IsIn s (listed x.message_type d ++ t ∷ [])
    now here (inl m) =
        IsIn-append_left s (listed x.message_type d) (t ∷ [])
          (subst (λ k. IsIn s (listed k d)) (sym ((str_eq_iff x.message_type event).0 here)) m)
    now here (inr (same, found)) = IsIn-append_right s (listed x.message_type d) (t ∷ []) (inl same)

index_from_adds :
    (event : String) (s : Subscriber) (l : List Subscriber) (d : EventIndex)
    → IsIn s (listed event (index_from l d))
    → IsIn s (listed event d) ⊎ (IsIn s l × IsFor event s)
unfolding index_from
index_from_adds event s [] d m = inl m
index_from_adds event s (t ∷ l) d m =
    elim (index_from_adds event s l (index_one t (values t.subscriptions) d) m) [
      | inr (later, for) ↦ inr (inr later, for)
      | inl before ↦ elim (index_one_adds event s t (values t.subscriptions) d before) [
        | inl old ↦ inl old
        | inr (same, found) ↦ inr (inl same, subst (IsFor event) same found)
      ]
    ]

index_from_keeps :
    (event : String) (s : Subscriber) (l : List Subscriber) (d : EventIndex)
    → IsIn s (listed event d) ⊎ (IsIn s l × IsFor event s)
    → IsIn s (listed event (index_from l d))
unfolding index_from
index_from_keeps event s [] d (inl m) = m
index_from_keeps event s [] d (inr (m, for)) = absurd m
index_from_keeps event s (t ∷ l) d h =
    index_from_keeps event s l (index_one t (values t.subscriptions) d) (step h)
  where
    step :
        IsIn s (listed event d) ⊎ (IsIn s (t ∷ l) × IsFor event s)
        → IsIn s (listed event (index_one t (values t.subscriptions) d))
          ⊎ (IsIn s l × IsFor event s)
    step (inl old) = inl (index_one_keeps event s t (values t.subscriptions) d (inl old))
    step (inr (inl same, for)) = inl (
        index_one_keeps event s t (values t.subscriptions) d
          (inr (same, subst (IsFor event) (sym same) for)))
    step (inr (inr later, for)) = inr (later, for)

-- `list_subscriber_for` lists exactly the known subscribers that have a subscription for the message
-- type, if the tables are in step with the database.
pub list_subscriber_for_iff :
    (base : SubscriberDb) (h : Handler base) (event : String) (s : Subscriber)
    → IsSynced base h
    → IsIn s (list_subscriber_for base event h) ↔ (IsIn s (values h.by_id) × IsFor event s)
unfolding update_subscriber_by_event get
list_subscriber_for_iff base h event s y = (
  λ m. no_start (
      index_from_adds event s (values h.by_id) []
        (subst (λ d. IsIn s (listed event d)) y.events m)),
  λ m.
      subst (λ d. IsIn s (listed event d)) (sym y.events)
        (index_from_keeps event s (values h.by_id) [] (inr m)),
)
  where
    no_start :
        ⊥ ⊎ (IsIn s (values h.by_id) × IsFor event s) → IsIn s (values h.by_id) × IsFor event s
    no_start (inl e) = absurd e
    no_start (inr m) = m
