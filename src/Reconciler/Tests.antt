-- ===== src/Reconciler/Tests.antt =====
-- The theorem on enough fuel at a concrete input: one deployment waits, and the agent answers that it
-- runs.
use open_llmops.Prelude.{arith, none, some, [], ◌∷◌, pos, ok, err, true}
use open_llmops.Workloads.{
  Deployment, deployment, DeploymentState, DesiredServiceState, DeploymentTaskType, null,
}
use open_llmops.Agent.{AgentCommandResponse, AgentWorkloadState}
use open_llmops.Reconciler.Database.{Database}
use open_llmops.Reconciler.Round.{Setting, run_once}
use open_llmops.Reconciler.Ends.{NeverAbsent, IsOver}
use open_llmops.Reconciler.Termination.{run_once-IsOver}

abbrev embedder : Deployment
embedder = record {
  runtime = record {
    id = 2;
    name = "embedder";
    gpu_ids = pos 0 ∷ [];
    error_message = none;
    queued_at = some 5;
    created_at = 5;
    started_at = none;
    state_version = 1;
    runtime_generation = 0;
  };
  served_model_name = "embedder";
  model_asset_id = 6;
  task_type = DeploymentTaskType.embedding;
  desired_state = DesiredServiceState.running;
  actual_state = DeploymentState.queued;
  tensor_parallel_size = 1;
  port = none;
  internal_url = none;
  simplified_config = null;
  vllm_args = null;
  health_status = none;
}

abbrev answer : AgentCommandResponse
answer = record {
  accepted = true;
  observed_state = AgentWorkloadState.running;
  message = none;
  error_code = none;
  metadata = [];
}

abbrev setting : Setting
setting = record {
  ttl = 60;
  checks = record {
    validate_training_observation_metadata = λ j m b. err "no metadata";
    validate_successful_training_artifacts = λ j. ok tt;
    validate_evaluation_success_metadata = λ r m. err "no metadata";
  };
  catalog = record {
    model_asset = λ i. some (record { id = i; local_path = "/models/embedder" });
    dataset = λ i. none;
    build_training_execution = λ j asset dataset. err "no training";
    build_evaluation_execution = λ r base candidate dataset. err "no evaluation";
  };
  agent = λ tick c. ok answer;
  clock = λ tick. tick;
  uuid = λ tick. tick;
}

abbrev queue : Database
queue = record { rows = deployment embedder ∷ []; leases = [] }

answers : NeverAbsent setting
answers tick c r h e a = cc

run_once-IsOver_example : IsOver setting (run_once setting 2 0 queue)
run_once-IsOver_example = run_once-IsOver setting answers 2 0 queue (omega arith)
