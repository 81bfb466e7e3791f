-- ===== src/Subscriptions/Data.antt =====
-- resotocore/core/task/model.py: subscriptions and subscribers. A timedelta is its seconds.
use cloudkeeper.Base.{
  ℕ, String, Bool, false, ◌&&◌, Option, none, some, List, [], ◌∷◌, str_eq, nat_eq, bool_eq,
  if◌then◌else◌,
}
use cloudkeeper.Dict.{Dict, get, put, pop, dict_eq}

pub record Subscription : Type 0 where
  pub message_type : String
  pub wait_for_completion : Bool
  pub timeout : ℕ

pub record Subscriber : Type 0 where
  pub id : String
  pub subscriptions : Dict Subscription

-- `==` of the two data classes
unfoldable pub subscription_eq : Subscription → Subscription → Bool
subscription_eq a b =
    str_eq a.message_type b.message_type
    && bool_eq a.wait_for_completion b.wait_for_completion
    && nat_eq a.timeout b.timeout

unfoldable pub subscriber_eq : Subscriber → Subscriber → Bool
subscriber_eq a b = str_eq a.id b.id && dict_eq subscription_eq a.subscriptions b.subscriptions

-- {s.message_type: s for s in subscriptions}, from a dict that is there
unfoldable pub by_message_type : List Subscription → Dict Subscription → Dict Subscription
by_message_type [] d = d
by_message_type (s ∷ l) d = by_message_type l (put s.message_type s d)

unfoldable pub from_list : String → List Subscription → Subscriber
from_list uid l = record { id = uid; subscriptions = by_message_type l [] }

unfoldable pub same_subscription : Subscription → Option Subscription → Bool
same_subscription s none = false
same_subscription s (some old) = subscription_eq old s

-- Subscriber.add_subscription
unfoldable pub with_subscription : Subscription → Subscriber → Subscriber
unfolding same_subscription
with_subscription s r =
    if same_subscription s (get s.message_type r.subscriptions)
    then r
    else record r { subscriptions = put s.message_type s r.subscriptions }

-- Subscriber.remove_subscription
unfoldable pub without_subscription : String → Subscriber → Subscriber
without_subscription message_type r = record r { subscriptions = pop message_type r.subscriptions }
