-- ===== src/Workloads.antt =====
-- The rows of the control plane's tables and the words that they are written in:
-- backend/app/models/enums.py, backend/app/models/entities.py.
-- A `uuid.UUID` is a number, a `datetime` a number of microseconds, a `float` a number of
-- millionths. The tables `deployments`, `training_jobs` and `evaluation_runs` are one list of rows
-- tagged by their table.
use open_llmops.Prelude.{ℕ, String, ◌≡◌, ◌↔◌, Bool, true, false, Option, List, Eq, arith, ℤ}

pub data LeaseOwnerType : Type 0 where
  of_deployment of_training of_evaluation : LeaseOwnerType

abbrev pub type_beq : LeaseOwnerType → LeaseOwnerType → Bool
type_beq of_deployment of_deployment = true
type_beq of_training of_training = true
type_beq of_evaluation of_evaluation = true
type_beq _ _ = false

pub type_beq_iff : (a b : LeaseOwnerType) → (type_beq a b ≡ true) ↔ (a ≡ b)
type_beq_iff of_deployment b = ground arith
type_beq_iff of_training b = ground arith
type_beq_iff of_evaluation b = ground arith

instance abbrev pub type_eq : Eq LeaseOwnerType
type_eq = record { test = type_beq; decides = type_beq_iff }

pub data DeploymentTaskType : Type 0 where
  generate embedding : DeploymentTaskType

pub data DesiredServiceState : Type 0 where
  running stopped : DesiredServiceState

pub data DeploymentState : Type 0 where
  created queued starting running stopping stopped failed : DeploymentState

pub data TrainingStage : Type 0 where
  cpt sft : TrainingStage

pub data TrainingAlgorithm : Type 0 where
  freeze lora qlora : TrainingAlgorithm

pub data DesiredJobState : Type 0 where
  running terminated : DesiredJobState

pub data JobState : Type 0 where
  created queued starting running canceling canceled succeeded failed : JobState

pub data EvaluationTemplate : Type 0 where
  base instruct : EvaluationTemplate

-- A JSON value. The control plane looks into no float, list or dictionary here; such a value is
-- `opaque`.
pub data Json : Type 0 where
  null : Json
  bool : Bool → Json
  int : ℤ → Json
  str : String → Json
  opaque : ℕ → Json

-- The columns that all three tables have.
pub record Runtime : Type 0 where
  pub id : ℕ
  pub name : String
  pub gpu_ids : List ℤ
  pub error_message : Option String
  pub queued_at : Option ℕ
  pub created_at : ℕ
  pub started_at : Option ℕ
  pub state_version : ℕ
  pub runtime_generation : ℕ

pub record Deployment : Type 0 where
  pub runtime : Runtime
  pub open runtime use *
  pub served_model_name : String
  pub model_asset_id : ℕ
  pub task_type : DeploymentTaskType
  pub desired_state : DesiredServiceState
  pub actual_state : DeploymentState
  pub tensor_parallel_size : ℕ
  pub port : Option ℤ
  pub internal_url : Option String
  pub simplified_config : Json
  pub vllm_args : Json
  pub health_status : Option String

-- The columns that the two tables of jobs have beyond `Runtime`.
pub record Job : Type 0 where
  pub runtime : Runtime
  pub open runtime use *
  pub desired_state : DesiredJobState
  pub actual_state : JobState
  pub finished_at : Option ℕ

pub record TrainingJob : Type 0 where
  pub job : Job
  pub open job use *
  pub model_asset_id : ℕ
  pub dataset_id : ℕ
  pub stage : TrainingStage
  pub algorithm : TrainingAlgorithm
  pub progress : ℕ
  pub current_step : Option ℕ
  pub total_steps : Option ℕ
  pub metrics : Json
  pub training_config : Json
  pub output_dir : String
  pub checkpoint_path : Option String
  pub adapter_path : Option String
  pub merged_model_path : Option String
  pub published_model_asset_id : Option ℕ

pub record EvaluationRun : Type 0 where
  pub job : Job
  pub open job use *
  pub base_model_asset_id : ℕ
  pub candidate_model_asset_id : ℕ
  pub custom_dataset_id : Option ℕ
  pub builtin_datasets : List String
  pub base_template : EvaluationTemplate
  pub candidate_template : EvaluationTemplate
  pub output_dir : String
  pub tensor_parallel_size : ℕ
  pub gpu_memory_utilization : ℕ
  pub concurrency : ℕ
  pub max_tokens : ℕ
  pub metrics : Json
  pub comparison : Json
  pub result_path : Option String
  pub dataset_manifest_path : Option String
  pub warnings : List String

pub data Row : Type 0 where
  deployment : Deployment → Row
  training : TrainingJob → Row
  evaluation : EvaluationRun → Row

abbrev pub table : Row → LeaseOwnerType
table (deployment d) = of_deployment
table (training j) = of_training
table (evaluation r) = of_evaluation

abbrev pub common : Row → Runtime
common (deployment d) = d.runtime
common (training j) = j.job.runtime
common (evaluation r) = r.job.runtime
