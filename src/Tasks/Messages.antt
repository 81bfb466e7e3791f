-- ===== src/Tasks/Messages.antt =====
-- resotocore/core/message_bus.py: the messages that tasks exchange with the rest of the system.
use cloudkeeper.Base.{
  String, ◌≡◌, ◌↔◌, refl, Bool, true, false, ◌&&◌, Option, none, some, str_eq, str_eq_iff, and_left,
  and_right,
}
use cloudkeeper.Json.{Fields, field, end, field_or_null, json_eq}

-- `message` of a constructor is its `message_type`; missing data is the empty object.
pub data Message : Type 0 where
  event : (message : String) → Fields → Message
  action : (message task step : String) → Fields → Message
  action_done : (message task step subscriber : String) → Fields → Message
  action_error : (message task step subscriber : String) (error : String) → Fields → Message

unfoldable pub message_type : Message → String
message_type (event m _) = m
message_type (action m _ _ _) = m
message_type (action_done m _ _ _ _) = m
message_type (action_error m _ _ _ _ _) = m

-- isinstance(m, (ActionDone, ActionError)) and m.step_name == step and m.subscriber_id == id
unfoldable pub answers_step : String → String → Message → Bool
answers_step step id (action_done _ _ s i _) = str_eq s step && str_eq i id
answers_step step id (action_error _ _ s i _ _) = str_eq s step && str_eq i id
answers_step step id _ = false

-- The test of `ack_for`: the message type and the subscriber, whatever the step.
unfoldable pub acknowledges : String → String → Message → Bool
acknowledges type id (action_done m _ _ i _) = str_eq m type && str_eq i id
acknowledges type id (action_error m _ _ i _ _) = str_eq m type && str_eq i id
acknowledges type id _ = false

-- isinstance(m, Event) and m.message_type == type
unfoldable pub is_event : String → Message → Bool
is_event type (event m _) = str_eq m type
is_event type _ = false

-- {key: data.get(key) for key in comp} == comp
unfoldable pub fields_match : Fields → Fields → Bool
fields_match end found = true
fields_match (field k v r) found = json_eq (field_or_null k found) v && fields_match r found

-- No filter, and an empty one, always applies.
unfoldable pub filter_applies : Option Fields → Fields → Bool
filter_applies none found = true
filter_applies (some comp) found = fields_match comp found

-- The message is the done or the error of the subscriber for the step.
abbrev pub IsAnswerIn : String → String → Message → Type 0
IsAnswerIn step id (event m payload) = ⊥
IsAnswerIn step id (action m task s payload) = ⊥
IsAnswerIn step id (action_done m task s i payload) = (s ≡ step) × (i ≡ id)
IsAnswerIn step id (action_error m task s i error payload) = (s ≡ step) × (i ≡ id)

-- The message is a done or an error of the subscriber for an action of the type, in whatever step.
abbrev pub IsAnswerTo : String → String → Message → Type 0
IsAnswerTo type id (event m payload) = ⊥
IsAnswerTo type id (action m task s payload) = ⊥
IsAnswerTo type id (action_done m task s i payload) = (m ≡ type) × (i ≡ id)
IsAnswerTo type id (action_error m task s i error payload) = (m ≡ type) × (i ≡ id)

both_eq_iff : (a b c d : String) → ((str_eq a b && str_eq c d) ≡ true) ↔ ((a ≡ b) × (c ≡ d))
both_eq_iff a b c d = (
  λ h. (
    (str_eq_iff a b).0 (and_left (str_eq a b) (str_eq c d) h),
    (str_eq_iff c d).0 (and_right (str_eq a b) (str_eq c d) h),
  ),
  λ h. rw ((str_eq_iff a b).1 h.0, (str_eq_iff c d).1 h.1) refl,
)

never : (false ≡ true) ↔ ⊥
never = (λ e. cc, λ h. absurd h)

pub answers_step_iff :
    (step id : String) (m : Message) → (answers_step step id m ≡ true) ↔ IsAnswerIn step id m
unfolding answers_step
answers_step_iff step id (event m payload) = never
answers_step_iff step id (action m task s payload) = never
answers_step_iff step id (action_done m task s i payload) = both_eq_iff s step i id
answers_step_iff step id (action_error m task s i error payload) = both_eq_iff s step i id

pub acknowledges_iff :
    (type id : String) (m : Message) → (acknowledges type id m ≡ true) ↔ IsAnswerTo type id m
unfolding acknowledges
acknowledges_iff type id (event m payload) = never
acknowledges_iff type id (action m task s payload) = never
acknowledges_iff type id (action_done m task s i payload) = both_eq_iff m type i id
acknowledges_iff type id (action_error m task s i error payload) = both_eq_iff m type i id
