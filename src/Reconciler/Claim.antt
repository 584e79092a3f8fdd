-- ===== src/Reconciler/Claim.antt =====
-- The head of the queue is claimed: `_claim_fifo_head`, `_build_execution`, `_queue_sort_key`.
use Prim.Native.String.{◌++◌ as str_append}
use open_llmops.Prelude.{
  ℕ, String, Bool, true, false, ◌&&◌, ◌||◌, Option, some, none, List, [], ◌∷◌, ◌++◌, ◌==◌, nat_eq,
  ltb, if◌then◌else◌, Result, ok, err, select,
}
use open_llmops.Workloads.{
  Row, deployment, training, evaluation, Deployment, TrainingJob, EvaluationRun, Job, Runtime,
  table, common, LeaseOwnerType, of_deployment, of_training, of_evaluation, type_eq,
  DeploymentState, JobState, DesiredServiceState, DesiredJobState,
}
use open_llmops.Leases.{Leases, LeaseOwner, LeaseError, LeaseAcquisition, try_acquire_locked}
use open_llmops.Leases.Acquire.{alone}
use open_llmops.Agent.{Execution, vllm}
use open_llmops.Reconciler.Database.{Database, WorkloadSnapshot, put_row, snapshot}

-- A model asset and a data set, with the column that is read here.
pub record ModelAsset : Type 0 where
  pub id : ℕ
  pub local_path : String

pub record Dataset : Type 0 where
  pub id : ℕ
  pub local_path : String

-- What is read besides the rows, and what is called of `training_control` and
-- `evaluation_control`; an error is the text of a `TrainingControlError` or
-- `EvaluationControlError`.
pub record Catalog : Type 0 where
  pub model_asset : ℕ → Option ModelAsset
  pub dataset : ℕ → Option Dataset
  pub build_training_execution : TrainingJob → ModelAsset → Dataset → Result String Execution
  pub build_evaluation_execution :
      EvaluationRun → ModelAsset → ModelAsset → Option Dataset → Result String Execution

-- What ends the transaction, and the round with it, by an exception.
pub data Crash : Type 0 where
  asset_missing assertion : Crash
  lease : LeaseError → Crash

-- A control error is handled; a crash is not.
pub data Preflight : Type 0 where
  built : Execution → Preflight
  rejected : String → Preflight
  crashed : Crash → Preflight

pub data ScheduleAttempt : Type 0 where
  empty : ScheduleAttempt
  blocked : Option LeaseOwner → ScheduleAttempt
  claimed : WorkloadSnapshot → ScheduleAttempt
  preflight_failed : ScheduleAttempt

abbrev pub queued_deployment : DeploymentState → DesiredServiceState → Bool
queued_deployment DeploymentState.queued DesiredServiceState.running = true
queued_deployment _ _ = false

abbrev pub queued_job : JobState → DesiredJobState → Bool
queued_job JobState.queued DesiredJobState.running = true
queued_job _ _ = false

unfoldable pub is_queued : Row → Bool
is_queued (deployment d) = queued_deployment d.actual_state d.desired_state
is_queued (training j) = queued_job j.job.actual_state j.job.desired_state
is_queued (evaluation r) = queued_job r.job.actual_state r.job.desired_state

abbrev pub queued_in : LeaseOwnerType → Row → Bool
queued_in t r = table r == t && is_queued r

unfoldable pub candidates : List Row → List Row
unfolding is_queued
candidates rows =
    select (queued_in of_deployment) rows
    ++ (select (queued_in of_training) rows ++ select (queued_in of_evaluation) rows)

-- `row.queued_at or row.created_at`
abbrev pub queue_time : Runtime → ℕ
queue_time r = elim r.queued_at [ some t ↦ t | none ↦ r.created_at ]

-- The order of the texts "deployment", "evaluation" and "training".
abbrev pub type_rank : LeaseOwnerType → ℕ
type_rank of_deployment = 0
type_rank of_evaluation = 1
type_rank of_training = 2

-- `_queue_sort_key(r) < _queue_sort_key(s)`: the time, the type, the identifier.
unfoldable pub queued_before : Row → Row → Bool
queued_before r s =
    ltb (queue_time (common r)) (queue_time (common s))
    || (queue_time (common r) == queue_time (common s)
        && (ltb (type_rank (table r)) (type_rank (table s))
            || (type_rank (table r) == type_rank (table s) && ltb (common r).id (common s).id)))

-- `min(candidates, key=…)`: of equal keys the first is kept.
unfoldable pub earliest_from : Row → List Row → Row
earliest_from best [] = best
earliest_from best (r ∷ rs) = earliest_from (if queued_before r best then r else best) rs

abbrev pub earliest : List Row → Option Row
earliest [] = none
earliest (r ∷ rs) = some (earliest_from r rs)

abbrev pub preflight : Result String Execution → Preflight
preflight (ok e) = built e
preflight (err m) = rejected m

abbrev pub vllm_execution : Deployment → Option ModelAsset → Preflight
vllm_execution d none = crashed asset_missing
vllm_execution d (some asset) = built (
    vllm d.task_type asset.local_path d.served_model_name d.port d.tensor_parallel_size
      d.simplified_config d.vllm_args)

module _ (catalog : Catalog) where
  abbrev pub training_execution : TrainingJob → Option ModelAsset → Option Dataset → Preflight
  training_execution j (some asset) (some dataset) =
      preflight (catalog.build_training_execution j asset dataset)
  training_execution j _ _ = rejected "训练任务引用的模型资产或数据集不存在"

  abbrev pub evaluation_execution :
      EvaluationRun → Option ModelAsset → Option ModelAsset → Option Dataset → Preflight
  evaluation_execution r (some base) (some candidate) dataset =
      preflight (catalog.build_evaluation_execution r base candidate dataset)
  evaluation_execution r _ _ dataset = rejected "评测任务引用的模型资产不存在"

  abbrev pub custom_dataset : Option ℕ → Option Dataset
  custom_dataset none = none
  custom_dataset (some i) = catalog.dataset i

  unfoldable pub build_execution : Row → Preflight
  build_execution (deployment d) = vllm_execution d (catalog.model_asset d.model_asset_id)
  build_execution (training j) =
      training_execution j (catalog.model_asset j.model_asset_id) (catalog.dataset j.dataset_id)
  build_execution (evaluation r) =
      evaluation_execution r (catalog.model_asset r.base_model_asset_id)
        (catalog.model_asset r.candidate_model_asset_id) (custom_dataset r.custom_dataset_id)

-- A job whose execution could not be built.
abbrev pub fail_job : ℕ → String → Job → Job
fail_job now message j = record j {
  runtime = record j.runtime {
    queued_at = none;
    runtime_generation = 0;
    error_message = some message;
  };
  actual_state = JobState.failed;
  finished_at = some now;
}

-- `row.runtime_generation = generation`
abbrev pub set_generation : ℕ → Row → Row
set_generation g (deployment d) =
    deployment (record d { runtime = record d.runtime { runtime_generation = g } })
set_generation g (training j) =
    training (record j {
      job = record j.job { runtime = record j.job.runtime { runtime_generation = g } };
    })
set_generation g (evaluation r) =
    evaluation (record r {
      job = record r.job { runtime = record r.job.runtime { runtime_generation = g } };
    })

abbrev pub leave_queue : Runtime → Runtime
leave_queue r = record r { queued_at = none; error_message = none }

-- The leases are there: the row is `STARTING`.
abbrev pub set_starting : Row → Row
set_starting (deployment d) = deployment (record d {
  runtime = record d.runtime { queued_at = none; error_message = none; started_at = none };
  actual_state = DeploymentState.starting;
  internal_url = none;
  health_status = none;
})
set_starting (training j) = training (record j {
  job = record j.job { runtime = leave_queue j.job.runtime; actual_state = JobState.starting };
})
set_starting (evaluation r) = evaluation (record r {
  job = record r.job { runtime = leave_queue r.job.runtime; actual_state = JobState.starting };
})

-- The owner for whom the head of the queue asks for cards.
abbrev pub claimant : Row → LeaseOwner
claimant r = record {
  type = table r;
  id = (common r).id;
  name = (common r).name;
  generation = (common r).state_version;
}

module _ (catalog : Catalog) (ttl now group : ℕ) where
  abbrev pub fail_preflight : String → Row → Database → Result Crash (ScheduleAttempt × Database)
  fail_preflight m (deployment d) db = err assertion
  fail_preflight m (training j) db =
      let failed = record j { job = fail_job now (str_append "训练启动前检查失败：" m) j.job } in
      ok (preflight_failed, record db { rows = put_row (training failed) db.rows })
  fail_preflight m (evaluation r) db =
      let failed = record r { job = fail_job now (str_append "评测启动前检查失败：" m) r.job } in
      ok (preflight_failed, record db { rows = put_row (evaluation failed) db.rows })

  abbrev pub finish_claim :
      Execution
      → Row
      → Database
      → Result LeaseError (LeaseAcquisition × Leases)
      → Result Crash (ScheduleAttempt × Database)
  finish_claim execution r db (err e) = err (lease e)
  finish_claim execution r db (ok (a, t)) =
      if a.acquired
      then (let started = set_starting (set_generation (common r).state_version r) in
          ok (
            claimed (snapshot execution started),
            record { rows = put_row started db.rows; leases = t },
          ))
      else ok (
        blocked a.blocking_owner,
        record { rows = put_row (set_generation 0 r) db.rows; leases = t },
      )

  abbrev pub claim_row : Preflight → Row → Database → Result Crash (ScheduleAttempt × Database)
  claim_row (crashed c) r db = err c
  claim_row (rejected m) r db = fail_preflight m r db
  claim_row (built execution) r db =
      finish_claim execution r db
        (try_acquire_locked ttl now (claimant r) alone group (common r).gpu_ids db.leases)

  abbrev pub claim_head : Option Row → Database → Result Crash (ScheduleAttempt × Database)
  claim_head none db = ok (empty, db)
  claim_head (some r) db = claim_row (build_execution catalog r) r db

  unfoldable pub claim_fifo_head : Database → Result Crash (ScheduleAttempt × Database)
  unfolding build_execution try_acquire_locked candidates earliest_from queued_before put_row
      snapshot
  claim_fifo_head db = claim_head (earliest (candidates db.rows)) db
