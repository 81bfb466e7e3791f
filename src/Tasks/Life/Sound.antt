-- ===== src/Tasks/Life/Sound.antt =====
-- Every call keeps a running task sound: its states keep their names, and a failed task has ended.
use cloudkeeper.Base.{
  ℕ, ◌+◌, String, ◌≡◌, refl, sym, subst, ◌∙◌, true, false, not, Option, none, some, List, [], ◌∷◌,
  inl, inr, Bool-cases, Option-cases, ltb,
}
use cloudkeeper.Json.{Fields}
use cloudkeeper.Subscriptions.Handler.{EventIndex}
use cloudkeeper.Tasks.Messages.{Message, event}
use cloudkeeper.Tasks.Description.{TaskCommand, StepErrorBehaviour, continue, stop}
use cloudkeeper.Tasks.Machine.{Machine}
use cloudkeeper.Tasks.Running.{
  RunningTask, StepState, current_state, end_name, write_state, timeout_of,
}
use cloudkeeper.Tasks.Ops.{
  is_end, is_active, end_task, move_to_next_state, receive, handle_event, handle_done, handle_error,
  handle_command_results, record_results, executed, check_timeout, state_takes_event,
  perform_behaviour, on_action_error, check_state,
}
use cloudkeeper.Tasks.Progress.{IsNamed, write_state-IsNamed}
use cloudkeeper.Tasks.Progress.Moves.{Advance, here, onward, move_to_next_state-advances}
use cloudkeeper.Tasks.Life.{
  Request, move_on, check, ends, event_arrives, done_arrives, error_arrives, results_arrive, Call,
  answered, call, call_all,
}
use cloudkeeper.Tasks.Life.Ended.{is_end_at, end_not_done, end_task-IsEnded}

-- The states have their names, and a task in error is at the end.
pub record IsSound (t : RunningTask) : Type 0 where
  pub names : IsNamed t
  pub failed_ended : t.in_error ≡ true → t.state ≡ end_name

-- What a call does to a sound task: it stays sound, and nothing moves once it has ended.
pub record IsStep (t u : RunningTask) (commands : List TaskCommand) : Type 0 where
  pub sound : IsSound u
  pub final : t.state ≡ end_name → (u.state ≡ end_name) × (commands ≡ [])

at_end : (t : RunningTask) → IsNamed t → t.state ≡ end_name → is_end (current_state t) ≡ true
at_end t h e = is_end_at t h ∙ rw e

receive-IsSound :
    (machine : Machine) (utc_str : ℕ → String) (subs : EventIndex) (now : ℕ) (m : Message)
    (t : RunningTask)
    → IsSound t
    → IsSound (receive machine utc_str subs now m t)
receive-IsSound machine utc_str subs now m t h = record {
  names = record {
    distinct = h.names.distinct;
    named = h.names.named;
    known = h.names.known;
    has_end = h.names.has_end;
    last = h.names.last;
    chained = h.names.chained;
  };
  failed_ended = h.failed_ended;
}

write-IsSound :
    (s r : StepState) (t : RunningTask)
    → IsSound t
    → current_state t ≡ some s
    → r.step.name ≡ s.step.name
    → is_end (some r) ≡ is_end (some s)
    → IsSound (write_state r t)
write-IsSound s r t h found name role =
    let (named, same) = write_state-IsNamed t s r t.state h.names found name role in
    record { names = named; failed_ended = unfold write_state in h.failed_ended }

module _ (machine : Machine) (utc_str : ℕ → String) (subs : EventIndex) (now : ℕ) where
  Advance-IsStep :
      {t u : RunningTask} {commands : List TaskCommand}
      → Advance machine utc_str subs now t u commands
      → IsSound t
      → IsStep t u commands
  Advance-IsStep here h = record { sound = h; final = λ e. (e, refl) }
  Advance-IsStep {t} (onward f a) h = record {
    sound =
        (Advance-IsStep a (record {
          names = f.entered.named;
          failed_ended = λ e. absurd (moving (h.failed_ended (sym f.entered.error ∙ e)));
        })).sound;
    final = λ e. absurd (moving e);
  }
    where
      moving : t.state ≡ end_name → ⊥
      moving e = cc (f.done, end_not_done t (at_end t h.names e))

  move-IsStep :
      (t : RunningTask)
      → IsSound t
      → IsStep t
          (move_to_next_state machine utc_str subs now t).0
          (move_to_next_state machine utc_str subs now t).1
  move-IsStep t h =
      Advance-IsStep (move_to_next_state-advances machine utc_str subs now t h.names).0 h

  received_move :
      (m : Message) (t : RunningTask)
      → IsSound t
      → IsStep t
          (handle_done machine utc_str subs now m t).0
          (handle_done machine utc_str subs now m t).1
  unfolding handle_done
  received_move m t h =
      let s =
        move-IsStep (receive machine utc_str subs now m t)
          (receive-IsSound machine utc_str subs now m t h) in
      record { sound = s.sound; final = s.final }

  event-IsStep :
      (type : String) (found : Fields) (t : RunningTask)
      → IsSound t
      → IsStep t
          (handle_event machine utc_str subs now type found t).0
          (handle_event machine utc_str subs now type found t).2
  unfolding handle_event
  event-IsStep type found t h =
      elim (Bool-cases (state_takes_event machine utc_str subs now (current_state t) type found)) [
        | inl e ↦ rw e (unfold handle_done in received_move (event type found) t h)
        | inr e ↦ rw e (record { sound = h; final = λ p. (p, refl) })
      ]

  end-IsStep : (t : RunningTask) → IsSound t → IsStep t (end_task machine utc_str subs now t) []
  unfolding is_active end_task
  end-IsStep t h = elim (Bool-cases (is_active t)) [
    | inl e ↦
        let u = end_task-IsEnded machine utc_str subs now t h.names e in
        record {
          sound = record { names = u.named; failed_ended = λ p. u.at };
          final = λ p. (u.at, refl);
        }
    | inr e ↦
        subst (λ u. IsStep t u []) (sym (ignored e)) (record { sound = h; final = λ p. (p, refl) })
  ]
    where
      clash : is_end (current_state t) ≡ false → not (is_end (current_state t)) ≡ false → ⊥
      clash p q = cc (subst (λ b. not b ≡ false) p q)

      ignored : is_active t ≡ false → end_task machine utc_str subs now t ≡ t
      ignored e = elim (Bool-cases (is_end (current_state t))) [
        | inl p ↦ rw p
        | inr p ↦ absurd (clash p e)
      ]

  error-IsStep :
      (m : Message) (t : RunningTask)
      → IsSound t
      → IsStep t
          (handle_error machine utc_str subs now m t).0
          (handle_error machine utc_str subs now m t).1
  unfolding handle_error on_action_error handle_done
  error-IsStep m t h = by_behaviour (perform_behaviour machine utc_str subs now (current_state t))
    where
      by_behaviour :
          (o : Option StepErrorBehaviour)
          → IsStep t
              (on_action_error machine utc_str subs now o m t).0
              (on_action_error machine utc_str subs now o m t).1
      by_behaviour none = record { sound = h; final = λ p. (p, refl) }
      by_behaviour (some stop) = end-IsStep t h
      by_behaviour (some continue) = elim (Bool-cases (is_active t)) [
        | inl e ↦ rw e (received_move m t h)
        | inr e ↦ rw e (end-IsStep t h)
      ]

  check-IsStep :
      (t : RunningTask) → IsSound t → IsStep t (check_timeout machine utc_str subs now t).0 []
  unfolding check_timeout check_state
  check-IsStep t h = elim (Option-cases (current_state t)) [
    | inl e ↦ rw e (record { sound = h; final = λ p. (p, refl) })
    | inr (s, e) ↦ elim (Bool-cases (ltb (t.step_started_at + timeout_of subs s) now)) [
      | inl late ↦
          rw (e, late)
            (record {
              sound = write-IsSound s (record s { timed_out = true }) t h e refl refl;
              final = unfold write_state in λ p. (p, refl);
            })
      | inr early ↦ rw (e, early) (record { sound = h; final = λ p. (p, refl) })
    ]
  ]

  results-IsStep :
      (results : List TaskCommand) (t : RunningTask)
      → IsSound t
      → IsStep t
          (handle_command_results machine utc_str subs now results t).0
          (handle_command_results machine utc_str subs now results t).1
  unfolding handle_command_results record_results
  results-IsStep results t h =
      let (sound, same) = recorded (current_state t) refl in
      let s =
        move-IsStep (record_results machine utc_str subs now results (current_state t) t) sound in
      record { sound = s.sound; final = λ p. s.final (same ∙ p) }
    where
      recorded :
          (o : Option StepState)
          → current_state t ≡ o
          → IsSound (record_results machine utc_str subs now results o t)
            × ((record_results machine utc_str subs now results o t).state ≡ t.state)
      recorded none e = (h, refl)
      recorded (some s) e =
          elim (Bool-cases (executed machine utc_str subs now s.step.action results)) [
            | inl p ↦ rw p (
              write-IsSound s (record s { execution_done = true }) t h e refl refl,
              unfold write_state in refl,
            )
            | inr p ↦ rw p (h, refl)
          ]

module _ (machine : Machine) (utc_str : ℕ → String) where
  pub call-IsStep :
      (c : Call) (t : RunningTask)
      → IsSound t
      → IsStep t (call machine utc_str c t).0 (call machine utc_str c t).1
  unfolding call answered
  call-IsStep c t h = by_request c.request
    where
      by_request :
          (r : Request)
          → IsStep t
              (answered machine utc_str c.subs c.now r t).0
              (answered machine utc_str c.subs c.now r t).1
      by_request move_on = move-IsStep machine utc_str c.subs c.now t h
      by_request check = check-IsStep machine utc_str c.subs c.now t h
      by_request ends = end-IsStep machine utc_str c.subs c.now t h
      by_request (event_arrives type found) =
          event-IsStep machine utc_str c.subs c.now type found t h
      by_request (done_arrives m) = received_move machine utc_str c.subs c.now m t h
      by_request (error_arrives m) = error-IsStep machine utc_str c.subs c.now m t h
      by_request (results_arrive l) = results-IsStep machine utc_str c.subs c.now l t h

  pub call_all-IsSound :
      (l : List Call) (t : RunningTask) → IsSound t → IsSound (call_all machine utc_str l t)
  unfolding call_all
  call_all-IsSound [] t h = h
  call_all-IsSound (c ∷ l) t h =
      call_all-IsSound l (call machine utc_str c t).0 (call-IsStep c t h).sound
