-- ===== src/Reconciler/Database.antt =====
-- The rows and the leases, and the snapshots that the reconciler takes of them.
use open_llmops.Prelude.{
  ℕ, Bool, true, false, ◌&&◌, Option, some, none, List, [], ◌∷◌, ◌++◌, map, ◌==◌, nat_eq, ℤ,
  int_leb, if◌then◌else◌, select, sort_by,
}
use open_llmops.Workloads.{
  Row, deployment, training, evaluation, Runtime, table, common, LeaseOwnerType, of_deployment,
  of_training, of_evaluation, type_eq, DeploymentState, JobState, DesiredServiceState,
  DesiredJobState,
}
use open_llmops.Leases.{Leases, LeaseOwner}
use open_llmops.Agent.{Execution, empty, AgentAction, start, stop, status, AgentCommand}

pub record Database : Type 0 where
  pub rows : List Row
  pub leases : Leases

-- `session.get(model, owner.id)`, the model being chosen by `owner.type`.
abbrev pub is_row_of : LeaseOwner → Row → Bool
is_row_of owner r = table r == owner.type && (common r).id == owner.id

unfoldable pub get_row : LeaseOwner → List Row → Option Row
get_row owner [] = none
get_row owner (r ∷ rs) = if is_row_of owner r then some r else get_row owner rs

-- The transaction's changes to one row are stored.
unfoldable pub put_row : Row → List Row → List Row
put_row r [] = []
put_row r (s ∷ rs) =
    (if table s == table r && (common s).id == (common r).id then r else s) ∷ put_row r rs

-- The states named in `ACTIVE_DEPLOYMENT_STATES` and `ACTIVE_JOB_STATES`.
abbrev pub is_active_deployment : DeploymentState → Bool
is_active_deployment DeploymentState.starting = true
is_active_deployment DeploymentState.running = true
is_active_deployment DeploymentState.stopping = true
is_active_deployment _ = false

abbrev pub is_active_job : JobState → Bool
is_active_job JobState.starting = true
is_active_job JobState.running = true
is_active_job JobState.canceling = true
is_active_job _ = false

unfoldable pub is_active : Row → Bool
is_active (deployment d) = is_active_deployment d.actual_state
is_active (training j) = is_active_job j.job.actual_state
is_active (evaluation r) = is_active_job r.job.actual_state

-- The states named in `TERMINAL_DEPLOYMENT_STATES` and `TERMINAL_JOB_STATES`.
abbrev pub is_terminal_deployment : DeploymentState → Bool
is_terminal_deployment DeploymentState.created = true
is_terminal_deployment DeploymentState.stopped = true
is_terminal_deployment DeploymentState.failed = true
is_terminal_deployment _ = false

abbrev pub is_terminal_job : JobState → Bool
is_terminal_job JobState.canceled = true
is_terminal_job JobState.succeeded = true
is_terminal_job JobState.failed = true
is_terminal_job _ = false

unfoldable pub is_terminal : Row → Bool
is_terminal (deployment d) = is_terminal_deployment d.actual_state
is_terminal (training j) = is_terminal_job j.job.actual_state
is_terminal (evaluation r) = is_terminal_job r.job.actual_state

pub data Desired : Type 0 where
  service : DesiredServiceState → Desired
  job : DesiredJobState → Desired

abbrev pub desired_of : Row → Desired
desired_of (deployment d) = Desired.service d.desired_state
desired_of (training j) = Desired.job j.job.desired_state
desired_of (evaluation r) = Desired.job r.job.desired_state

pub data Actual : Type 0 where
  service : DeploymentState → Actual
  job : JobState → Actual

abbrev pub actual_of : Row → Actual
actual_of (deployment d) = Actual.service d.actual_state
actual_of (training j) = Actual.job j.job.actual_state
actual_of (evaluation r) = Actual.job r.job.actual_state

pub record WorkloadSnapshot : Type 0 where
  pub owner : LeaseOwner
  pub gpu_ids : List ℤ
  pub desired_state : Desired
  pub actual_state : Actual
  pub execution : Execution

-- `row.runtime_generation or row.state_version`
abbrev pub generation_of : Runtime → ℕ
generation_of r = if r.runtime_generation == 0 then r.state_version else r.runtime_generation

unfoldable pub snapshot : Execution → Row → WorkloadSnapshot
snapshot execution r = record {
  owner = record {
    type = table r;
    id = (common r).id;
    name = (common r).name;
    generation = generation_of (common r);
  };
  gpu_ids = sort_by int_leb (common r).gpu_ids;
  desired_state = desired_of r;
  actual_state = actual_of r;
  execution = execution;
}

abbrev is_active_of : LeaseOwnerType → Row → Bool
is_active_of t r = table r == t && is_active r

unfoldable pub load_active_workloads : Database → List WorkloadSnapshot
unfolding snapshot is_active
load_active_workloads db =
    map (snapshot empty) (select (is_active_of of_deployment) db.rows)
    ++ (map (snapshot empty) (select (is_active_of of_training) db.rows)
        ++ map (snapshot empty) (select (is_active_of of_evaluation) db.rows))

unfoldable pub action_for_active : WorkloadSnapshot → AgentAction
action_for_active w = elim w.desired_state [
  | Desired.service DesiredServiceState.stopped ↦ stop
  | Desired.service DesiredServiceState.running ↦ status
  | Desired.job DesiredJobState.terminated ↦ stop
  | Desired.job DesiredJobState.running ↦ status
]

unfoldable pub command : WorkloadSnapshot → AgentAction → AgentCommand
command w action = record {
  action = action;
  owner = w.owner;
  gpu_ids = w.gpu_ids;
  execution = elim action [ start ↦ w.execution | _ ↦ empty ];
}
