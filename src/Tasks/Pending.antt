-- ===== src/Tasks/Pending.antt =====
-- resotocore/core/task/task_description.py: `ack_for` and `pending_action_for`.
use cloudkeeper.Base.{
  String, ◌≡◌, ◌↔◌, refl, sym, ◌∙◌, Bool, true, false, ◌&&◌, Option, none, some, List, [], ◌∷◌, inl,
  inr, Bool-cases, All, IsIn, exist, exist_of_IsIn, first, if◌then◌else◌, and_left, and_right,
}
use cloudkeeper.Json
use cloudkeeper.Subscriptions.Data.{Subscriber, subscriber_eq}
use cloudkeeper.Tasks.Messages.{Message, action, acknowledges, IsAnswerTo, acknowledges_iff}
use cloudkeeper.Tasks.Description.{perform_action}
use cloudkeeper.Tasks.Running.{RunningTask, StepState, current_state}
use cloudkeeper.Tasks.Ops.{ack_for, pending_in, pending_action_for}

-- No message of the list is an answer of the subscriber to an action of the type.
abbrev pub IsUnanswered : String → String → List Message → Type 0
IsUnanswered type id l = All (λ m. ¬ IsAnswerTo type id m) l

-- The subscriber is one of the list.
abbrev pub IsAmong : Subscriber → List Subscriber → Type 0
IsAmong x l = (y : Subscriber) × (IsIn y l × (subscriber_eq x y ≡ true))

IsAmong-iff :
    (x : Subscriber) (l : List Subscriber) → (exist (λ y. subscriber_eq x y) l ≡ true) ↔ IsAmong x l
IsAmong-iff x l = (there l, λ (y, h). exist_of_IsIn y (λ y. subscriber_eq x y) l h.0 h.1)
  where
    there : (l : List Subscriber) → exist (λ y. subscriber_eq x y) l ≡ true → IsAmong x l
    there [] h = cc
    there (y ∷ l) h = elim (Bool-cases (subscriber_eq x y)) [
      | inl e ↦ (y, (inl refl, e))
      | inr e ↦ let (z, found) = there l (rw e at h) in (z, (inr found.0, found.1))
    ]

abbrev is_none : Option Message → Bool
is_none o = elim o [ none ↦ true | some m ↦ false ]

IsUnanswered-iff :
    (type id : String) (l : List Message)
    → (is_none (first (acknowledges type id) l) ≡ true) ↔ IsUnanswered type id l
IsUnanswered-iff type id [] = (λ _. tt, λ _. refl)
IsUnanswered-iff type id (m ∷ l) =
    by_head (acknowledges type id m) refl (IsUnanswered-iff type id l)
  where
    clash : true ≡ false → ⊥
    clash q = cc

    by_head :
        (b : Bool)
        → acknowledges type id m ≡ b
        → ((is_none (first (acknowledges type id) l) ≡ true) ↔ IsUnanswered type id l)
        → (is_none (if b then some m else first (acknowledges type id) l) ≡ true)
          ↔ ((¬ IsAnswerTo type id m) × IsUnanswered type id l)
    by_head true e rest =
        (λ p. absurd (clash (sym p)), λ h. absurd (h.0 ((acknowledges_iff type id m).0 e)))
    by_head false e rest =
        (λ p. (λ a. clash (sym ((acknowledges_iff type id m).1 a) ∙ e), rest.0 p), λ h. rest.1 h.1)

-- In a step that performs an action, the action is pending for a subscriber, with the id of the task and
-- the name of the step, if and only if the step waits for the subscriber and no message that the task
-- has received is a done or an error of the subscriber for this type of action, in this step or in any
-- other.
pub pending_action_for_iff :
    (x : Subscriber) (t : RunningTask) (s : StepState) (type : String)
    → current_state t ≡ some s
    → s.step.action ≡ perform_action type
    → (pending_action_for x t ≡ some (action type t.id s.step.name Json.end))
      ↔ (IsAmong x s.wait_for × IsUnanswered type x.id t.received)
unfolding pending_action_for pending_in ack_for
pending_action_for_iff x t s type e acts = rw (e, acts) (there, back)
  where
    waits : Bool
    waits = exist (λ y. subscriber_eq x y) s.wait_for

    there :
        (if waits && is_none (first (acknowledges type x.id) t.received)
            then some (action type t.id s.step.name Json.end)
            else none)
          ≡ some (action type t.id s.step.name Json.end)
        → IsAmong x s.wait_for × IsUnanswered type x.id t.received
    there h = elim (Bool-cases (waits && is_none (first (acknowledges type x.id) t.received))) [
      | inl k ↦ (
        (IsAmong-iff x s.wait_for).0 (and_left _ _ k),
        (IsUnanswered-iff type x.id t.received).0 (and_right waits _ k),
      )
      | inr k ↦ absurd (none-some (rw k at h))
    ]
      where
        none-some : none ≡ some (action type t.id s.step.name Json.end) → ⊥
        none-some q = cc

    back :
        IsAmong x s.wait_for × IsUnanswered type x.id t.received
        → (if waits && is_none (first (acknowledges type x.id) t.received)
            then some (action type t.id s.step.name Json.end)
            else none)
          ≡ some (action type t.id s.step.name Json.end)
    back h =
        rw ((IsAmong-iff x s.wait_for).1 h.0, (IsUnanswered-iff type x.id t.received).1 h.1) refl
