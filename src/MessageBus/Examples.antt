-- ===== src/MessageBus/Examples.antt =====
-- A bus with two listeners: tests, and the theorems at this bus.
use cloudkeeper.Base.{
  ◌+◌, ◌≡◌, refl, Bool, true, false, Option, none, some, [], ◌∷◌, ◌++◌, str_eq, if◌then◌else◌,
}
use cloudkeeper.Dict.{get, has, put, pop}
use cloudkeeper.Json
use cloudkeeper.Tasks.Messages.{Message, event, message_type}
use cloudkeeper.MessageBus.Ops.{
  Bus, empty_bus, queues_of, emit_by, emit, add_listener, add_listeners, remove_queue,
  put_unless_empty, remove_listener, remove_listeners, channel_list, connection, subscribe,
  unsubscribe,
}
use cloudkeeper.MessageBus.Delivery.{
  received, times, occurrences, copies, IsFresh, received-emit, subscribe-emit,
}
use cloudkeeper.MessageBus.Leaving.{IsLeft, subscribe-unsubscribe}

program : Unit {0}
unfolding get has put pop message_type emit_by emit add_listener add_listeners remove_queue
    put_unless_empty remove_listener remove_listeners channel_list connection subscribe unsubscribe
    received times occurrences
program = tt

abbrev everything : Bus
unfolding program
everything = subscribe "log" none 0 empty_bus

abbrev two : Bus
unfolding program
two = subscribe "tasks" (some ("tick" ∷ "tock" ∷ [])) 1 everything

abbrev tick : Message
tick = event "tick" Json.end

everything-IsFresh : IsFresh 1 everything.listeners
unfolding program
everything-IsFresh n = no_queue (str_eq "*" n)
  where
    no_queue :
        (e : Bool)
        → times 1 (elim (if e then some (0 ∷ []) else none) [ none ↦ [] | some qs ↦ qs ]) ≡ 0
    no_queue true = refl
    no_queue false = refl

ticked : received 1 (emit tick two).delivered ≡ tick ∷ []
unfolding program
ticked = refl

-- Both listen; then one of two connections of a subscriber ends, and it is not active any more.
abbrev both : Option Bus
unfolding program
both =
    unsubscribe "tasks" (some ("tick" ∷ [])) 1
      (subscribe "tasks" (some ("tick" ∷ [])) 1 (subscribe "tasks" none 0 empty_bus))

still_listening :
    (elim both [ none ↦ [] | some b ↦ queues_of "*" b.listeners ] ≡ 0 ∷ [])
    × (elim both [ none ↦ true | some b ↦ has "tasks" b.active_listener ] ≡ false)
unfolding program
still_listening = (refl, refl)

received-emit_example :
    received 1 (emit tick two).delivered
    ≡ received 1 two.delivered
      ++ copies
          (times 1 (queues_of "tick" two.listeners) + times 1 (queues_of "*" two.listeners))
          tick
unfolding program
received-emit_example = received-emit 1 tick two

subscribe-emit_example :
    received 1 (emit tick (subscribe "tasks" (some ("tick" ∷ "tock" ∷ [])) 1 everything)).delivered
    ≡ received 1 everything.delivered ++ copies (1 + 0) tick
unfolding program
subscribe-emit_example =
    subscribe-emit "tasks" (some ("tick" ∷ "tock" ∷ [])) 1 tick everything everything-IsFresh

subscribe-unsubscribe_example :
    (c : Bus) × ((unsubscribe "tasks" (some ("tick" ∷ "tock" ∷ [])) 1 two ≡ some c)
      × IsLeft "tasks" everything c)
unfolding program
subscribe-unsubscribe_example =
    subscribe-unsubscribe "tasks" (some ("tick" ∷ "tock" ∷ [])) 1 everything two everything-IsFresh
      refl
