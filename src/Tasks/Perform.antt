-- ===== src/Tasks/Perform.antt =====
-- `PerformActionState`: when the step is done. `Timeout` has how long it may take.
pub mod Timeout
use cloudkeeper.Base.{
  ℕ, ◌≤◌, String, ◌≡◌, ◌↔◌, refl, sym, subst, ap, ◌∙◌, Bool, true, false, not, ◌&&◌, ◌||◌, Option,
  none, some, List, [], ◌∷◌, arith, inl, inr, ◌⊎◌, Bool-cases, All, IsIn, exist, exist_of_IsIn,
  every, ltb, if◌then◌else◌, some_inj, and_left, and_right,
}
use cloudkeeper.Dict.{get}
use cloudkeeper.Subscriptions.Data.{Subscription, Subscriber}
use cloudkeeper.Subscriptions.Handler.{EventIndex, listed}
use cloudkeeper.Tasks.Messages.{Message, answers_step, IsAnswerIn, answers_step_iff}
use cloudkeeper.Tasks.Description.{perform_action}
use cloudkeeper.Tasks.Running.{
  RunningTask, StepState, step_state, current_step_done, done_for, step_done_for, all_answered,
  blocks, max_timeout, timeout_of, timeout_for, longer,
}

-- The subscriber's subscription for the type of message, if it has to be waited for.
pub record IsBlocking (type : String) (s : Subscriber) (x : Subscription) : Type 0 where
  pub subscribed : get type s.subscriptions ≡ some x
  pub waits : x.wait_for_completion ≡ true

-- If the subscriber has to be waited for, it has answered in the step.
abbrev pub IsAnswered : String → String → List Message → Subscriber → Type 0
IsAnswered type step received s =
    (x : Subscription)
    → IsBlocking type s x
    → (m : Message) × (IsIn m received × IsAnswerIn step s.id m)

IsIn-of_exist :
    (p : Message → Bool) (l : List Message)
    → exist p l ≡ true
    → (m : Message) × (IsIn m l × (p m ≡ true))
IsIn-of_exist p [] h = cc
IsIn-of_exist p (x ∷ l) h = elim (Bool-cases (p x)) [
  | inl e ↦ (x, (inl refl, e))
  | inr e ↦ let (m, found) = IsIn-of_exist p l (rw e at h) in (m, (inr found.0, found.1))
]

blocks_of :
    (type : String) (s : Subscriber) (x : Subscription) → IsBlocking type s x → blocks type s ≡ true
unfolding blocks
blocks_of type s x b =
    ap (λ o. elim o [ none ↦ false | some y ↦ y.wait_for_completion ]) b.subscribed ∙ b.waits

IsBlocking-of :
    (type : String) (s : Subscriber)
    → blocks type s ≡ true
    → (x : Subscription) × IsBlocking type s x
unfolding blocks
IsBlocking-of type s h = of_option (get type s.subscriptions) refl h
  where
    of_option :
        (o : Option Subscription)
        → get type s.subscriptions ≡ o
        → elim o [ none ↦ false | some x ↦ x.wait_for_completion ] ≡ true
        → (x : Subscription) × IsBlocking type s x
    of_option none e k = cc
    of_option (some x) e k = (x, record { subscribed = e; waits = k })

IsAnswered-iff :
    (type step : String) (received : List Message) (s : Subscriber)
    → ((not (blocks type s) || exist (answers_step step s.id) received) ≡ true)
      ↔ IsAnswered type step received s
IsAnswered-iff type step received s = (there, back)
  where
    there :
        (not (blocks type s) || exist (answers_step step s.id) received) ≡ true
        → IsAnswered type step received s
    there h x b =
        let (m, found) =
          IsIn-of_exist (answers_step step s.id) received (rw (blocks_of type s x b) at h) in
        (m, (found.0, (answers_step_iff step s.id m).0 found.1))

    back :
        IsAnswered type step received s
        → (not (blocks type s) || exist (answers_step step s.id) received) ≡ true
    back h = elim (Bool-cases (blocks type s)) [
      | inr e ↦ rw e refl
      | inl e ↦
          let (x, b) = IsBlocking-of type s e in
          let (m, found) = h x b in
          rw e (
            exist_of_IsIn m (answers_step step s.id) received found.0
              ((answers_step_iff step s.id m).1 found.1))
    ]

every_iff :
    (p : Subscriber → Bool) (P : Subscriber → Type 0) (l : List Subscriber)
    → ((s : Subscriber) → (p s ≡ true) ↔ P s)
    → (every p l ≡ true) ↔ All P l
every_iff p P [] h = (λ _. tt, λ _. refl)
every_iff p P (x ∷ l) h =
    let rest = every_iff p P l h in
    (
      λ e. ((h x).0 (and_left (p x) (every p l) e), rest.0 (and_right (p x) (every p l) e)),
      λ k. rw ((h x).1 k.0, rest.1 k.1),
    )

-- A step that performs an action is done if and only if it has timed out, or the task is not in error
-- and of each subscriber that the step waits for, whose subscription to the type of action says that it is
-- to be waited for, a done or an error message with the name of this step has been received.
pub perform-done_iff :
    (s : StepState) (t : RunningTask) (type : String)
    → s.role ≡ step_state
    → s.step.action ≡ perform_action type
    → (current_step_done s t ≡ true) ↔ (
        (s.timed_out ≡ true)
        ⊎ ((t.in_error ≡ false) × All (IsAnswered type s.step.name t.received) s.wait_for))
unfolding current_step_done done_for step_done_for all_answered
perform-done_iff s t type role acts = rw (role, acts) (there, back)
  where
    answers :
        (every
            (λ x. not (blocks type x) || exist (answers_step s.step.name x.id) t.received)
            s.wait_for
          ≡ true)
        ↔ All (IsAnswered type s.step.name t.received) s.wait_for
    answers =
        every_iff _ (IsAnswered type s.step.name t.received) s.wait_for
          (IsAnswered-iff type s.step.name t.received)

    there :
        (s.timed_out
            || (not t.in_error
                && every
                    (λ x. not (blocks type x) || exist (answers_step s.step.name x.id) t.received)
                    s.wait_for))
          ≡ true
        → (s.timed_out ≡ true)
          ⊎ ((t.in_error ≡ false) × All (IsAnswered type s.step.name t.received) s.wait_for)
    there h = elim (Bool-cases s.timed_out) [
      | inl late ↦ inl late
      | inr e ↦ elim (Bool-cases t.in_error) [
        | inl f ↦ absurd (clash (rw (e, f) at h))
        | inr f ↦ inr (f, answers.0 (rw (e, f) at h))
      ]
    ]
      where
        clash : false ≡ true → ⊥
        clash q = cc

    back :
        (s.timed_out ≡ true)
          ⊎ ((t.in_error ≡ false) × All (IsAnswered type s.step.name t.received) s.wait_for)
        → (s.timed_out
            || (not t.in_error
                && every
                    (λ x. not (blocks type x) || exist (answers_step s.step.name x.id) t.received)
                    s.wait_for))
          ≡ true
    back (inl late) = rw late refl
    back (inr k) = rw (k.0, answers.1 k.1) (or_true s.timed_out)
      where
        or_true : (b : Bool) → (b || true) ≡ true
        or_true true = refl
        or_true false = refl
