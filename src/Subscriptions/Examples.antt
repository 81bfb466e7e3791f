-- ===== src/Subscriptions/Examples.antt =====
-- The subscription handler over a small store: tests, and the theorems at concrete states.
use cloudkeeper.Base.{
  ◌-◌, String, ◌≡◌, ◌↔◌, refl, true, false, not, ◌&&◌, none, some, [], ◌∷◌, str_eq, ltb,
  if◌then◌else◌, member, IsIn,
}
use cloudkeeper.Dict.{get, has, put, pop, values, keys, dict_eq, dict_in}
use cloudkeeper.Subscriptions.Data.{
  Subscription, Subscriber, subscription_eq, subscriber_eq, with_subscription, without_subscription,
  same_subscription, from_list, by_message_type,
}
use cloudkeeper.Subscriptions.Store.{list_db, by_id_from, other_id}
use cloudkeeper.Subscriptions.Handler.{
  Handler, known_or_new, has_subscriptions, load_from_db, saved, deleted, add_subscription,
  remove_subscription, update_subscriptions, remove_subscriber, update_subscriber_by_event,
  index_one, index_from, forget_connected, expire, forgotten, check_missing, check_all_missing,
  check_outdated_handler, list_subscriber_for,
}
use cloudkeeper.Subscriptions.Changes.{
  IsSynced, operations-IsSynced, IsChangedTo, add_subscription-IsChangedTo,
}
use cloudkeeper.Subscriptions.Changes.Removal.{
  IsReducedTo, remove_subscription-IsReducedTo, remove_subscription_last, remove_subscriber_lem,
}
use cloudkeeper.Subscriptions.Index.{IsFor, list_subscriber_for_iff}
use cloudkeeper.Subscriptions.Cleaner.{late, handler-IsSynced, check_outdated_handler_removes}

program : Unit {0}
unfolding get has put pop values keys dict_eq dict_in subscription_eq subscriber_eq
    with_subscription without_subscription same_subscription from_list by_message_type by_id_from
    other_id known_or_new has_subscriptions load_from_db saved deleted add_subscription
    remove_subscription update_subscriptions remove_subscriber update_subscriber_by_event index_one
    index_from forget_connected expire forgotten check_missing check_all_missing
    check_outdated_handler
program = tt

abbrev start : Handler list_db
unfolding program
start = record { db = []; by_id = []; by_event = []; started_at = 0; not_connected = [] }

start-IsSynced : IsSynced list_db start
unfolding program
start-IsSynced = record { ids = refl; events = refl }

abbrev collect : Subscription
collect = record { message_type = "collect"; wait_for_completion = true; timeout = 60 }

abbrev one : Handler list_db
unfolding program
one = (add_subscription list_db "w" collect start).0

one-IsSynced : IsSynced list_db one
unfolding program
one-IsSynced = (operations-IsSynced list_db start "w" "collect" collect [] start-IsSynced).0

subscribed :
    get "w" one.by_id ≡ some (record { id = "w"; subscriptions = ("collect", collect) ∷ [] })
unfolding program
subscribed = refl

-- Missing at 400 s, still missing at 600 s: the subscriber is removed.
cleaned :
    get "w"
      (check_outdated_handler list_db 600 [] (check_outdated_handler list_db 400 [] one)).by_id
    ≡ none
unfolding program
cleaned = refl

handler-IsSynced_example :
    IsSynced list_db (add_subscription list_db "w" collect one).0
    × IsSynced list_db (remove_subscription list_db "w" "collect" one).0
    × IsSynced list_db (update_subscriptions list_db "w" (collect ∷ []) one).0
    × IsSynced list_db (remove_subscriber list_db "w" one).0
    × IsSynced list_db (check_outdated_handler list_db 400 [] one)
handler-IsSynced_example =
    handler-IsSynced list_db one "w" "collect" collect (collect ∷ []) 400 [] one-IsSynced

add_subscription-IsChangedTo_example :
    IsChangedTo list_db start "w"
      (λ j.
        if str_eq "collect" j
        then some collect
        else get j (known_or_new "w" start.by_id).subscriptions)
      (add_subscription list_db "w" collect start).0
add_subscription-IsChangedTo_example =
    add_subscription-IsChangedTo list_db start start-IsSynced "w" collect

remove_subscription-IsReducedTo_example :
    IsReducedTo list_db one "w"
      (λ j. if str_eq "collect" j then none else get j (known_or_new "w" one.by_id).subscriptions)
      (remove_subscription list_db "w" "collect" one).0
remove_subscription-IsReducedTo_example =
    remove_subscription-IsReducedTo list_db one one-IsSynced "w" "collect"

has_collect : get "collect" (known_or_new "w" one.by_id).subscriptions ≡ some collect
unfolding program
has_collect = refl

only_collect :
    has_subscriptions (without_subscription "collect" (known_or_new "w" one.by_id)) ≡ false
unfolding program
only_collect = refl

last_subscription_removed : get "w" (remove_subscription list_db "w" "collect" one).0.by_id ≡ none
last_subscription_removed =
    remove_subscription_last list_db one one-IsSynced "w" "collect" collect has_collect only_collect

remove_subscriber_lem_example :
    ((remove_subscriber list_db "w" one).1 ≡ get "w" one.by_id)
    × ((k : String)
        → get k (remove_subscriber list_db "w" one).0.by_id
          ≡ (if str_eq "w" k then none else get k one.by_id))
remove_subscriber_lem_example = remove_subscriber_lem list_db one one-IsSynced "w"

abbrev w : Subscriber
w = record { id = "w"; subscriptions = ("collect", collect) ∷ [] }

list_subscriber_for_iff_example :
    IsIn w (list_subscriber_for list_db "collect" one)
    ↔ (IsIn w (values one.by_id) × IsFor "collect" w)
list_subscriber_for_iff_example = list_subscriber_for_iff list_db one "collect" w one-IsSynced

check_outdated_handler_removes_example :
    get "w" (check_outdated_handler list_db 400 ("w" ∷ []) one).by_id ≡ (
      if ltb 300 (400 - one.started_at)
        && not (member "w" ("w" ∷ []))
        && late 400 (get "w" one.not_connected)
      then none
      else get "w" one.by_id)
check_outdated_handler_removes_example =
    check_outdated_handler_removes list_db 400 ("w" ∷ []) one "w" one-IsSynced
