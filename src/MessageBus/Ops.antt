-- ===== src/MessageBus/Ops.antt =====
-- resotocore/core/message_bus.py: the state and the operations of `MessageBus`. A queue is named by a
-- number, and `delivered` lists what is put into the queues, oldest first.
use cloudkeeper.Base.{
  ℕ, String, Option, none, some, List, [], ◌∷◌, ◌++◌, nat_eq, if◌then◌else◌, map,
}
use cloudkeeper.Dict.{Dict, get, put, pop}
use cloudkeeper.Json.{Json, null, str, arr, Items, nil, cons, Fields, field, end}
use cloudkeeper.Tasks.Messages.{Message, event, message_type}

pub record Bus : Type 0 where
  pub listeners : Dict (List ℕ)
  pub active_listener : Dict (List String)
  pub delivered : List (ℕ × Message)

abbrev pub empty_bus : Bus
empty_bus = record { listeners = []; active_listener = []; delivered = [] }

abbrev pub queues_of : String → Dict (List ℕ) → List ℕ
queues_of name l = elim (get name l) [ none ↦ [] | some qs ↦ qs ]

-- emit_by
unfoldable pub emit_by : String → Message → Bus → Bus
emit_by name m b = record b {
  delivered = b.delivered ++ map (λ q. (q, m)) (queues_of name b.listeners);
}

-- emit
unfoldable pub emit : Message → Bus → Bus
unfolding emit_by
emit m b = emit_by "*" m (emit_by (message_type m) m b)

-- add_listener
unfoldable pub add_listener : ℕ → String → Dict (List ℕ) → Dict (List ℕ)
add_listener q name l = put name (queues_of name l ++ q ∷ []) l

unfoldable pub add_listeners : ℕ → List String → Dict (List ℕ) → Dict (List ℕ)
unfolding add_listener
add_listeners q [] l = l
add_listeners q (name ∷ names) l = add_listeners q names (add_listener q name l)

-- list.remove, which raises an error if the queue is not there
unfoldable pub remove_queue : ℕ → List ℕ → Option (List ℕ)
remove_queue q [] = none
remove_queue q (x ∷ l) =
    let rest = remove_queue q l in
    if nat_eq x q then some l else elim rest [ none ↦ none | some r ↦ some (x ∷ r) ]

unfoldable pub put_unless_empty : String → List ℕ → Dict (List ℕ) → Dict (List ℕ)
put_unless_empty name [] l = pop name l
put_unless_empty name (q ∷ qs) l = put name (q ∷ qs) l

-- remove_listener
unfoldable pub remove_listener : ℕ → String → Dict (List ℕ) → Option (Dict (List ℕ))
unfolding remove_queue put_unless_empty
remove_listener q name l = elim (remove_queue q (queues_of name l)) [
  | none ↦ none
  | some qs ↦ some (put_unless_empty name qs l)
]

unfoldable pub remove_listeners : ℕ → List String → Dict (List ℕ) → Option (Dict (List ℕ))
unfolding remove_listener
remove_listeners q [] l = some l
remove_listeners q (name ∷ names) l = elim (remove_listener q name l) [
  | none ↦ none
  | some r ↦ remove_listeners q names r
]

-- `channels if channels else ["*"]`
unfoldable pub channel_list : Option (List String) → List String
channel_list none = "*" ∷ []
channel_list (some []) = "*" ∷ []
channel_list (some (c ∷ l)) = c ∷ l

strings : List String → Items
strings [] = nil
strings (x ∷ l) = cons (str x) (strings l)

channels_json : Option (List String) → Json
unfolding strings
channels_json none = null
channels_json (some l) = arr (strings l)

-- The data of the events that tell of a listener.
unfoldable pub connection : String → Option (List String) → Fields
unfolding channels_json
connection id channels =
    field "subscriber_id" (str id) (field "channels" (channels_json channels) end)

-- subscribe, up to the `yield`
unfoldable pub subscribe : String → Option (List String) → ℕ → Bus → Bus
unfolding channel_list connection
subscribe id channels q b =
    let told = emit (event "message-listener-connected" (connection id channels)) b in
    record told {
      active_listener = put id (channel_list channels) told.active_listener;
      listeners = add_listeners q (channel_list channels) told.listeners;
    }

-- subscribe, from the `finally` on; nothing if removing a listener raises an error.
unfoldable pub unsubscribe : String → Option (List String) → ℕ → Bus → Option Bus
unsubscribe id channels q b = elim (remove_listeners q (channel_list channels) b.listeners) [
  | none ↦ none
  | some l ↦ some (
      emit (event "message-listener-disconnected" (connection id channels))
        (record b { listeners = l; active_listener = pop id b.active_listener }))
]
