-- ===== src/Tasks/Description.antt =====
-- resotocore/core/task/task_description.py: steps, triggers, jobs and workflows. A timedelta is its
-- seconds.
use cloudkeeper.Base.{
  ℕ, String, Bool, true, Option, none, some, List, [], ◌∷◌, ◌++◌, str_eq, nat_eq, first,
  if◌then◌else◌,
}
use cloudkeeper.Dict.{Dict}
use cloudkeeper.Json.{Fields}
use cloudkeeper.Tasks.Messages.{Message}

pub data StepErrorBehaviour : Type 0 where
  continue stop : StepErrorBehaviour

pub data TaskSurpassBehaviour : Type 0 where
  skip parallel replace wait : TaskSurpassBehaviour

pub data StepAction : Type 0 where
  perform_action : (message : String) → StepAction
  emit_event : Message → StepAction
  wait_for_event : (message : String) → Option Fields → StepAction
  execute_command : (command : String) → StepAction

pub data TaskCommand : Type 0 where
  send_message : Message → TaskCommand
  execute_on_cli : (command : String) (env : Dict String) → TaskCommand

pub data Trigger : Type 0 where
  event_trigger : (message : String) → Option Fields → Trigger
  time_trigger : (cron_expression : String) → Trigger

pub record Step : Type 0 where
  pub name : String
  pub action : StepAction
  pub timeout : ℕ
  pub on_error : StepErrorBehaviour

or_default : ℕ → Option ℕ → ℕ
or_default d none = d
or_default d (some n) = if nat_eq n 0 then d else n

-- Step(name, action, timeout, on_error): a timeout that is missing or zero is five minutes.
unfoldable pub make_step : String → StepAction → Option ℕ → StepErrorBehaviour → Step
unfolding or_default
make_step name action timeout on_error = record {
  name = name;
  action = action;
  timeout = or_default 300 timeout;
  on_error = on_error;
}

pub record TaskDescription : Type 0 where
  pub id : String
  pub name : String
  pub steps : List Step
  pub triggers : List Trigger
  pub on_surpass : TaskSurpassBehaviour
  pub environment : Dict String
  pub mutable_ : Bool

-- step_by_name
unfoldable pub step_by_name : String → TaskDescription → Option Step
step_by_name name d = first (λ s. str_eq s.name name) d.steps

pub record Wait : Type 0 where
  pub message_type : String
  pub filter_data : Option Fields
  pub timeout : ℕ

wait_steps : Option Wait → List Step
wait_steps none = []
wait_steps (some w) =
    make_step "wait" (wait_for_event w.message_type w.filter_data) (some w.timeout) stop ∷ []

start_trigger : Bool → Option Trigger → List Trigger
start_trigger true (some t) = t ∷ []
start_trigger _ _ = []

-- Job(uid, command, timeout, trigger, wait, environment, mutable, active)
unfoldable pub job :
    String → String → ℕ → Option Trigger → Option Wait → Dict String → Bool → Bool → TaskDescription
unfolding wait_steps start_trigger make_step
job uid command timeout trigger wait_for environment is_mutable active = record {
  id = uid;
  name = uid;
  steps =
      wait_steps wait_for ++ make_step "execute" (execute_command command) (some timeout) stop ∷ [];
  triggers = start_trigger active trigger;
  on_surpass = wait;
  environment = environment;
  mutable_ = is_mutable;
}
