-- ===== src/Reconciler/Observe.antt =====
-- What a response of the node agent does to the row that it is about, and to its leases:
-- `_apply_observation` and the methods that it calls.
use open_llmops.Prelude.{
  ℕ, String, Bool, ◌||◌, Option, some, none, List, ◌==◌, nat_eq, string_eq, ℤ, pos, if◌then◌else◌,
  Result,
}
use open_llmops.Workloads.{
  Deployment, TrainingJob, EvaluationRun, Job, Runtime, Json, bool, int, str, DeploymentState,
  JobState, DesiredServiceState,
}
use open_llmops.Leases.{Leases, LeaseOwner, release}
use open_llmops.Agent.{
  AgentCommandResponse, AgentWorkloadState, absent, starting, running, stopping, succeeded, failed,
  get, or_else, Metadata,
}

-- Assignments to one column.
abbrev pub set_error : Option String → Runtime → Runtime
set_error e r = record r { error_message = e }

abbrev pub error_if_refused : AgentCommandResponse → Option String
error_if_refused response = if response.accepted then none else response.message

-- `if observed == RUNNING and row.started_at is None: row.started_at = now`
abbrev pub mark_started : ℕ → AgentWorkloadState → Runtime → Runtime
mark_started now running r = record r {
  started_at = elim r.started_at [ none ↦ some now | some t ↦ some t ];
}
mark_started now _ r = r

abbrev pub is_health_status : String → Bool
is_health_status s = s == "starting" || s == "healthy" || s == "unhealthy"

unfoldable pub deployment_health_status : AgentCommandResponse → Option String
deployment_health_status response = elim (get "health_status" response.metadata) [
  | some (str s) ↦ if is_health_status s then some s else none
  | _ ↦ none
]

-- `isinstance(endpoint, str)`
abbrev pub endpoint_or : Option Json → Option String → Option String
endpoint_or (some (str s)) old = some s
endpoint_or _ old = old

-- `isinstance(port, int)`: a Boolean is an `int` too.
abbrev pub port_or : Option Json → Option ℤ → Option ℤ
port_or (some (int n)) old = some n
port_or (some (bool b)) old = some (pos (if b then 1 else 0))
port_or _ old = old

-- The state that a live observation stands for.
abbrev pub live_deployment : AgentWorkloadState → DeploymentState → DeploymentState
live_deployment starting old = DeploymentState.starting
live_deployment running old = DeploymentState.running
live_deployment stopping old = DeploymentState.stopping
live_deployment _ old = old

abbrev pub live_job : AgentWorkloadState → JobState → JobState
live_job starting old = JobState.starting
live_job running old = JobState.running
live_job stopping old = JobState.canceling
live_job _ old = old

module _ (now : ℕ) (owner : LeaseOwner) (response : AgentCommandResponse) where
  -- `observed == ABSENT` and not accepted.
  abbrev pub deployment_refused : Deployment → Deployment
  deployment_refused d = record d {
    runtime = set_error (some (or_else response.message "node-agent 拒绝部署启动")) d.runtime;
    actual_state = DeploymentState.failed;
    health_status = none;
    internal_url = none;
  }

  -- `observed == ABSENT` and accepted, by the desired state.
  abbrev pub deployment_gone : DesiredServiceState → Deployment → Deployment
  deployment_gone DesiredServiceState.running d = record d {
    runtime = record d.runtime {
      queued_at = some now;
      runtime_generation = 0;
      started_at = none;
      error_message = some "node-agent 未发现运行实例，已重新排队";
    };
    actual_state = DeploymentState.queued;
    health_status = none;
    internal_url = none;
  }
  deployment_gone DesiredServiceState.stopped d = record d {
    runtime = set_error none d.runtime;
    actual_state = DeploymentState.stopped;
    health_status = none;
    internal_url = none;
  }

  abbrev pub deployment_ended : Deployment → Deployment
  deployment_ended d = record d {
    runtime = set_error (some (or_else response.message "推理实例异常退出")) d.runtime;
    actual_state = DeploymentState.failed;
    health_status = deployment_health_status response;
    internal_url = none;
  }

  abbrev pub deployment_live : DesiredServiceState → Deployment → Deployment
  deployment_live DesiredServiceState.stopped d = record d {
    actual_state = DeploymentState.stopping;
    health_status = deployment_health_status response;
  }
  deployment_live DesiredServiceState.running d = record d {
    runtime =
        set_error (error_if_refused response) (mark_started now response.observed_state d.runtime);
    actual_state = live_deployment response.observed_state d.actual_state;
    health_status = deployment_health_status response;
    internal_url = endpoint_or (get "endpoint" response.metadata) d.internal_url;
    port = port_or (get "port" response.metadata) d.port;
  }

  abbrev pub deployment_observed : AgentWorkloadState → Deployment → Leases → Deployment × Leases
  deployment_observed absent d t =
      if response.accepted
      then (deployment_gone d.desired_state d, (release owner t).1)
      else (deployment_refused d, (release owner t).1)
  deployment_observed failed d t = (deployment_ended d, (release owner t).1)
  deployment_observed succeeded d t = (deployment_ended d, (release owner t).1)
  deployment_observed _ d t = (deployment_live d.desired_state d, t)

  unfoldable pub apply_deployment_observation : Deployment → Leases → Deployment × Leases
  unfolding deployment_health_status
  apply_deployment_observation = deployment_observed response.observed_state

-- The validated metadata of a training job: `TrainingObservationMetadata`.
pub record TrainingMetadata : Type 0 where
  pub progress : Option ℕ
  pub current_step : Option ℕ
  pub total_steps : Option ℕ
  pub metrics : Option Json
  pub checkpoint_path : Option String
  pub adapter_path : Option String
  pub merged_model_path : Option String

-- The validated metadata of an evaluation: `EvaluationSuccessMetadata`.
pub record EvaluationMetadata : Type 0 where
  pub metrics : Json
  pub comparison : Json
  pub result_path : String
  pub dataset_manifest_path : String
  pub warnings : List String

-- What the reconciler calls of `training_control` and `evaluation_control` to check metadata and
-- artifacts; an error is its text. They read the file system.
pub record Validators : Type 0 where
  pub validate_training_observation_metadata :
      TrainingJob → Metadata → Bool → Result String TrainingMetadata
  pub validate_successful_training_artifacts : TrainingJob → Result String (Unit {0})
  pub validate_evaluation_success_metadata :
      EvaluationRun → Metadata → Result String EvaluationMetadata

-- `if value is not None: row.column = value`
abbrev pub override {ℓ} : {A : Type ℓ} → Option A → A → A
override none old = old
override (some a) old = a

abbrev pub override? {ℓ} : {A : Type ℓ} → Option A → Option A → Option A
override? none old = old
override? (some a) old = some a

unfoldable pub copy_training_metadata : TrainingMetadata → TrainingJob → TrainingJob
copy_training_metadata m j = record j {
  progress = override m.progress j.progress;
  current_step = override? m.current_step j.current_step;
  total_steps = override? m.total_steps j.total_steps;
  metrics = override m.metrics j.metrics;
  checkpoint_path = override? m.checkpoint_path j.checkpoint_path;
  adapter_path = override? m.adapter_path j.adapter_path;
  merged_model_path = override? m.merged_model_path j.merged_model_path;
}

-- `actual_state`, `error_message` and `finished_at`.
abbrev pub finish : ℕ → JobState → Option String → Job → Job
finish now state message j = record j {
  runtime = set_error message j.runtime;
  actual_state = state;
  finished_at = some now;
}

abbrev pub set_state : JobState → Option String → Job → Job
set_state state message j = record j { runtime = set_error message j.runtime; actual_state = state }

abbrev pub full_progress : ℕ
full_progress = 100000000
