-- ===== src/Tasks/Progress/Moves.antt =====
-- `move_to_next_state`: a running task moves forward through its steps, as far as they are done.
use cloudkeeper.Base.{
  ℕ, zero, suc, ◌<◌, String, ◌≡◌, sym, subst, ap, ◌∙◌, true, false, none, some, List, [], ◌++◌,
  arith, inl, inr, ◌⊎◌, Bool-cases, Option-cases, str_eq, str_eq_iff, if◌then◌else◌, length,
}
use cloudkeeper.Dict.{keys, member-keys}
use cloudkeeper.Subscriptions.Handler.{EventIndex}
use cloudkeeper.Tasks.Description.{TaskCommand}
use cloudkeeper.Tasks.Machine.{Machine, raised, stayed, moved, next_state_trigger, step_done}
use cloudkeeper.Tasks.Machine.Chain.{
  next_of, rank, rank-lt-length, next_of-member, rank-next_of, fire-next,
}
use cloudkeeper.Tasks.Running.{RunningTask, holds, end_name}
use cloudkeeper.Tasks.Ops.{
  enter, after_next, next_state, current_commands, move_loop, move_to_next_state,
}
use cloudkeeper.Tasks.Progress.{IsNamed, IsEntered, enter-IsEntered, keys-Differ}

-- The current step is done.
abbrev pub IsStepDone : RunningTask → Type 0
IsStepDone t = holds t (step_done t.state) ≡ true

-- How many states lie behind the current one.
abbrev pub states_left : RunningTask → ℕ
states_left t = rank (keys t.states) t.state

module _ (machine : Machine) (utc_str : ℕ → String) (subs : EventIndex) (now : ℕ) where
  -- One step forward, from a state that is done.
  pub record IsForward (t u : RunningTask) : Type 0 where
    pub moves : next_state machine utc_str subs now t ≡ (u, true)
    pub done : IsStepDone t
    pub entered : IsEntered u.state t u
    pub next : next_of (keys t.states) t.state ≡ some u.state
    pub fewer : states_left u < states_left t

  -- No step forward: the state is the last one, or its step is not done.
  pub record IsStuck (t : RunningTask) : Type 0 where
    pub stays : next_state machine utc_str subs now t ≡ (t, false)
    pub reason : (next_of (keys t.states) t.state ≡ none) ⊎ (holds t (step_done t.state) ≡ false)

  pub next_state-cases :
      (t : RunningTask) → IsNamed t → IsStuck t ⊎ ((u : RunningTask) × IsForward t u)
  unfolding next_state after_next
  next_state-cases t h = elim (Option-cases (next_of (keys t.states) t.state)) [
    | inl last ↦ inl (record { stays = rw (ends last); reason = inl last })
    | inr (b, e) ↦ elim (Bool-cases (holds t (step_done t.state))) [
      | inr waits ↦ inl (record { stays = rw (waiting b e waits); reason = inr waits })
      | inl done ↦ inr (enter machine utc_str subs now b t, forward b e done)
    ]
  ]
    where
      fired :
          machine.fire next_state_trigger t.state t.transitions (holds t)
          ≡ elim (next_of (keys t.states) t.state) [
            | none ↦ raised
            | some b ↦ if holds t (step_done t.state) then moved b else stayed
          ]
      fired =
          ap (λ tr. machine.fire next_state_trigger t.state tr (holds t)) h.chained
          ∙ fire-next machine end_name t.state (keys t.states) (holds t)
              (keys-Differ t.states h.distinct)

      apart :
          (b : String)
          → rank (keys t.states) b < rank (keys t.states) t.state
          → str_eq b t.state ≡ false
      apart b less = elim (Bool-cases (str_eq b t.state)) [
        | inr e ↦ e
        | inl e ↦ absurd (same (ap (rank (keys t.states)) ((str_eq_iff b t.state).0 e)))
      ]
        where
          same : rank (keys t.states) b ≡ rank (keys t.states) t.state → ⊥
          same p = omega (arith, p, less)

      ends :
          next_of (keys t.states) t.state ≡ none
          → machine.fire next_state_trigger t.state t.transitions (holds t) ≡ raised
      ends last = fired ∙ rw last

      waiting :
          (b : String)
          → next_of (keys t.states) t.state ≡ some b
          → holds t (step_done t.state) ≡ false
          → machine.fire next_state_trigger t.state t.transitions (holds t) ≡ stayed
      waiting b e waits = fired ∙ rw (e, waits)

      to_next :
          (b : String)
          → next_of (keys t.states) t.state ≡ some b
          → IsStepDone t
          → machine.fire next_state_trigger t.state t.transitions (holds t) ≡ moved b
      to_next b e done = fired ∙ rw (e, done)

      forward :
          (b : String)
          → next_of (keys t.states) t.state ≡ some b
          → IsStepDone t
          → IsForward t (enter machine utc_str subs now b t)
      forward b e done =
          let entered =
            enter-IsEntered machine utc_str subs now b t h
              (sym (member-keys b t.states) ∙ next_of-member (keys t.states) t.state b e) in
          let less = rank-next_of (keys t.states) t.state b (keys-Differ t.states h.distinct) e in
          record {
            moves = rw (to_next b e done, apart b less);
            done = done;
            entered =
                subst (λ n. IsEntered n t (enter machine utc_str subs now b t)) (sym entered.at)
                  entered;
            next = rw entered.at e;
            fewer = rw (entered.names, entered.at) less;
          }

  -- Steps forward from the first task to the second, with the commands of each state that is entered.
  pub data Advance : RunningTask → RunningTask → List TaskCommand → Type 0 where
    here : {t : RunningTask} → Advance t t []
    onward :
        {t u v : RunningTask} {commands : List TaskCommand}
        → IsForward t u
        → Advance u v commands
        → Advance t v (current_commands machine utc_str subs now u ++ commands)

  pub advanced-IsNamed :
      {t u : RunningTask} {commands : List TaskCommand}
      → Advance t u commands
      → IsNamed t
      → IsNamed u
  advanced-IsNamed here h = h
  advanced-IsNamed (onward f a) h = advanced-IsNamed a f.entered.named

  loop-advances :
      (fuel : ℕ) (t : RunningTask)
      → IsNamed t
      → states_left t < fuel
      → Advance t
          (move_loop machine utc_str subs now fuel t).0
          (move_loop machine utc_str subs now fuel t).1
        × IsStuck (move_loop machine utc_str subs now fuel t).0
  unfolding move_loop
  loop-advances zero t h enough = absurd (omega (arith, enough))
  loop-advances (suc fuel) t h enough = elim (next_state-cases t h) [
    | inl stuck ↦ rw stuck.stays (here, stuck)
    | inr (u, f) ↦
        let (advance, stuck) =
          loop-advances fuel u f.entered.named (omega (arith, enough, f.fewer)) in
        rw f.moves (onward f advance, stuck)
  ]

  -- `move_to_next_state` goes forward one state at a time, each time from a state whose step is done,
  -- and returns the commands of the states that it enters, in this order. It stops only at the last
  -- state or at one whose step is not done. The number of states is enough fuel for the loop.
  pub move_to_next_state-advances :
      (t : RunningTask)
      → IsNamed t
      → Advance t
          (move_to_next_state machine utc_str subs now t).0
          (move_to_next_state machine utc_str subs now t).1
        × IsStuck (move_to_next_state machine utc_str subs now t).0
  unfolding move_to_next_state
  move_to_next_state-advances t h =
      loop-advances (length (keys t.states)) t h
        (rank-lt-length (keys t.states) t.state (member-keys t.state t.states ∙ h.known))
