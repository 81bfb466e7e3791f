-- ===== src/Tasks/Machine.antt =====
-- The state machine of the `transitions` package, as resotocore/core/task/task_description.py uses it
-- (its `Machine` with `auto_transitions=False, queued=True`): an interface with the documented
-- behaviour, and the transitions that `RunningTask.__init__` adds.
pub mod Chain
use cloudkeeper.Base.{
  String, ◌≡◌, refl, Bool, true, false, ◌&&◌, Option, none, some, List, [], ◌∷◌, str_eq, first,
  keep, if◌then◌else◌,
}

-- The condition of a transition: the step of the state with this name is done, or the end state is in error.
pub data Guard : Type 0 where
  step_done : (state : String) → Guard
  is_error : Guard

pub record Transition : Type 0 where
  pub trigger : String
  pub source : String
  pub dest : String
  pub guard : Guard

-- What firing a trigger does: a MachineError, no transition, or a transition to a state.
pub data Fired : Type 0 where
  raised stayed : Fired
  moved : String → Fired

abbrev pub answer_of : (Guard → Bool) → List Transition → Fired
answer_of holds [] = raised
answer_of holds (t ∷ l) = elim (first (λ x. holds x.guard) (t ∷ l)) [
  | none ↦ stayed
  | some x ↦ moved x.dest
]

abbrev pub is_candidate : String → String → Transition → Bool
is_candidate trigger source t = str_eq t.trigger trigger && str_eq t.source source

-- Of the transitions with the trigger and the current state for their source, in the order in which
-- they were added, the first whose condition holds is made. If the condition of none holds, the
-- machine stays where it is; if there are none, it raises a MachineError.
pub record Machine : Type 0 where
  pub fire : (trigger source : String) → List Transition → (Guard → Bool) → Fired
  pub fire_lem :
      (trigger source : String) (table : List Transition) (holds : Guard → Bool)
      → fire trigger source table holds ≡ answer_of holds (keep (is_candidate trigger source) table)

abbrev pub next_state_trigger : String
next_state_trigger = "_next_state"

abbrev pub to_err_trigger : String
to_err_trigger = "_to_err"

-- The loop over `interleave(states)`: each state leads to the next one and to the last one.
unfoldable pub transitions_from : String → List String → List Transition
transitions_from last [] = []
transitions_from last (a ∷ []) = []
transitions_from last (a ∷ b ∷ l) =
    record { trigger = next_state_trigger; source = a; dest = b; guard = step_done a }
    ∷ record { trigger = to_err_trigger; source = a; dest = last; guard = is_error }
    ∷ transitions_from last (b ∷ l)

-- A machine that behaves as documented.
abbrev pub reference_machine : Machine
reference_machine = record {
  fire = λ trigger source table holds. answer_of holds (keep (is_candidate trigger source) table);
  fire_lem = λ trigger source table holds. refl;
}
