-- ===== src/Agent.antt =====
-- The contract between the control plane and the node agent: backend/app/schemas/agent_contract.py.
use open_llmops.Prelude.{
  String, Bool, true, false, Option, some, none, List, [], ◌∷◌, ◌==◌, string_eq, if◌then◌else◌, ℤ,
  ℕ,
}
use open_llmops.Workloads.{Json, DeploymentTaskType}
use open_llmops.Leases.{LeaseOwner}

pub data AgentAction : Type 0 where
  start stop status : AgentAction

pub data AgentWorkloadState : Type 0 where
  absent starting running stopping succeeded failed : AgentWorkloadState

-- The `execution` of a command: empty, the dictionary of a deployment, the cleanup marker, or a
-- dictionary that the training or evaluation control built.
pub data Execution : Type 0 where
  empty : Execution
  vllm :
      (service_type : DeploymentTaskType) (model_path served_model_name : String) (port : Option ℤ)
      (tensor_parallel_size : ℕ) (simplified_config vllm_args : Json)
      → Execution
  cleanup_terminal : Execution
  prepared : ℕ → Execution

pub record AgentCommand : Type 0 where
  pub action : AgentAction
  pub owner : LeaseOwner
  pub gpu_ids : List ℤ
  pub execution : Execution

abbrev pub Metadata : Type 0
Metadata = List (String × Json)

pub record AgentCommandResponse : Type 0 where
  pub accepted : Bool
  pub observed_state : AgentWorkloadState
  pub message : Option String
  pub error_code : Option String
  pub metadata : Metadata

-- `metadata.get(key)`
abbrev pub get : String → Metadata → Option Json
get key [] = none
get key ((k, v) ∷ m) = if k == key then some v else get key m

-- `value or default`, for a text that may be missing: the empty text counts as missing.
abbrev pub or_else : Option String → String → String
or_else none d = d
or_else (some s) d = if s == "" then d else s

-- `STARTING`, `RUNNING` or `STOPPING`
abbrev pub is_live : AgentWorkloadState → Bool
is_live starting = true
is_live running = true
is_live stopping = true
is_live _ = false
