-- ===== src/Reconciler/ObserveJob.antt =====
-- What a response does to a training job or an evaluation: `_apply_job_observation`; and
-- `_apply_observation`, `_record_agent_error` and `_fail_start`, each one transaction.
use Prim.Native.String.{◌++◌ as str_append}
use open_llmops.Prelude.{
  ℕ, String, true, false, Option, some, none, [], ◌==◌, nat_eq, if◌then◌else◌, Result, ok, err,
}
use open_llmops.Workloads.{
  Row, deployment, training, evaluation, TrainingJob, EvaluationRun, Job, common, opaque, JobState,
  DesiredJobState, DeploymentState, Json,
}
use open_llmops.Leases.{Leases, LeaseOwner, release, heartbeat}
use open_llmops.Agent.{
  AgentCommandResponse, AgentWorkloadState, absent, succeeded, failed, or_else, is_live,
}
use open_llmops.Reconciler.Database.{Database, get_row, put_row}
use open_llmops.Reconciler.Observe.{
  Validators, TrainingMetadata, EvaluationMetadata, set_error, error_if_refused, mark_started,
  live_job, finish, set_state, full_progress, copy_training_metadata, apply_deployment_observation,
}

-- An empty JSON object.
abbrev pub empty_dict : Json
empty_dict = opaque 0

module _ (checks : Validators) (now : ℕ) (owner : LeaseOwner)
    (response : AgentCommandResponse) where
  abbrev pub job_gone : DesiredJobState → Job → Job
  job_gone DesiredJobState.terminated j = finish now JobState.canceled none j
  job_gone DesiredJobState.running j =
      finish now JobState.failed (some (or_else response.message "运行实例意外消失，请人工重新创建任务")) j

  -- `actual_state` and the paths, after the metadata of a final state were rejected.
  abbrev pub training_rejected : String → TrainingJob → TrainingJob
  training_rejected e j = record j {
    job = finish now JobState.failed (some (str_append "训练终态 metadata 校验失败：" e)) j.job;
    checkpoint_path = none;
    adapter_path = none;
    merged_model_path = none;
  }

  -- The control plane's own check of the artifacts of a job that is marked `succeeded`.
  abbrev pub training_verified : Result String (Unit {0}) → TrainingJob → TrainingJob
  training_verified (ok _) j = record j { job = record j.job { finished_at = some now } }
  training_verified (err e) j = record j {
    job = finish now JobState.failed (some (str_append "训练成功产物校验失败：" e)) j.job;
  }

  abbrev pub training_success : TrainingJob → TrainingJob
  training_success j =
      let done = record j {
        job = set_state JobState.succeeded none j.job;
        progress = full_progress;
      } in
      training_verified (checks.validate_successful_training_artifacts done) done

  abbrev pub training_succeeded : Result String TrainingMetadata → TrainingJob → TrainingJob
  training_succeeded (err e) j = training_rejected e j
  training_succeeded (ok m) j = training_success (copy_training_metadata m j)

  abbrev pub training_failed : Result String TrainingMetadata → TrainingJob → TrainingJob
  training_failed (err e) j = training_rejected e j
  training_failed (ok m) j =
      let copied = copy_training_metadata m j in
      record copied {
        job = finish now JobState.failed (some (or_else response.message "训练运行失败")) copied.job;
      }

  abbrev pub live_state : DesiredJobState → JobState → JobState
  live_state DesiredJobState.terminated old = JobState.canceling
  live_state DesiredJobState.running old = live_job response.observed_state old

  -- The state, and the time of the first observation as `RUNNING`.
  abbrev pub job_live : Job → Job
  job_live j = record j {
    runtime = mark_started now response.observed_state j.runtime;
    actual_state = live_state j.desired_state j.actual_state;
  }

  abbrev pub training_updated : Result String TrainingMetadata → TrainingJob → TrainingJob
  training_updated (err e) j = record j {
    job = record j.job {
      runtime = set_error (some (str_append "训练状态 metadata 校验失败：" e)) j.job.runtime;
    };
  }
  training_updated (ok m) j =
      let copied = copy_training_metadata m j in
      record copied {
        job = record copied.job {
          runtime = set_error (error_if_refused response) copied.job.runtime;
        };
      }

  abbrev pub training_live : TrainingJob → TrainingJob
  training_live j =
      let moved = record j { job = job_live j.job } in
      training_updated (checks.validate_training_observation_metadata moved response.metadata false)
        moved

  abbrev pub training_observed : AgentWorkloadState → TrainingJob → Leases → TrainingJob × Leases
  training_observed absent j t =
      (record j { job = job_gone j.job.desired_state j.job }, (release owner t).1)
  training_observed succeeded j t = (
    training_succeeded (checks.validate_training_observation_metadata j response.metadata true) j,
    (release owner t).1,
  )
  training_observed failed j t = (
    training_failed (checks.validate_training_observation_metadata j response.metadata false) j,
    (release owner t).1,
  )
  training_observed _ j t = (training_live j, t)

  abbrev pub evaluation_succeeded : Result String EvaluationMetadata → EvaluationRun → EvaluationRun
  evaluation_succeeded (err e) r = record r {
    job = finish now JobState.failed (some (str_append "评测成功产物校验失败：" e)) r.job;
    metrics = empty_dict;
    comparison = empty_dict;
    result_path = none;
    dataset_manifest_path = none;
    warnings = [];
  }
  evaluation_succeeded (ok m) r = record r {
    job = finish now JobState.succeeded none r.job;
    metrics = m.metrics;
    comparison = m.comparison;
    result_path = some m.result_path;
    dataset_manifest_path = some m.dataset_manifest_path;
    warnings = m.warnings;
  }

  abbrev pub evaluation_live : EvaluationRun → EvaluationRun
  evaluation_live r =
      let moved = job_live r.job in
      record r {
        job = record moved { runtime = set_error (error_if_refused response) moved.runtime };
      }

  abbrev pub evaluation_observed :
      AgentWorkloadState → EvaluationRun → Leases → EvaluationRun × Leases
  evaluation_observed absent r t =
      (record r { job = job_gone r.job.desired_state r.job }, (release owner t).1)
  evaluation_observed succeeded r t = (
    evaluation_succeeded (checks.validate_evaluation_success_metadata r response.metadata) r,
    (release owner t).1,
  )
  evaluation_observed failed r t = (
    record r { job = finish now JobState.failed (some (or_else response.message "评测运行失败")) r.job },
    (release owner t).1,
  )
  evaluation_observed _ r t = (evaluation_live r, t)

  -- `_apply_deployment_observation` and `_apply_job_observation`.
  unfoldable pub observe_row : Row → Leases → Row × Leases
  unfolding apply_deployment_observation copy_training_metadata
  observe_row (deployment d) t =
      let (d', t') = apply_deployment_observation now owner response d t in (deployment d', t')
  observe_row (training j) t =
      let (j', t') = training_observed response.observed_state j t in (training j', t')
  observe_row (evaluation r) t =
      let (r', t') = evaluation_observed response.observed_state r t in (evaluation r', t')

  module _ (ttl : ℕ) where
    abbrev pub beat : Leases → Leases
    beat t = if is_live response.observed_state then (heartbeat ttl now owner t).1 else t

    abbrev pub observed : Option Row → Database → Database
    observed none db = db
    observed (some r) db =
        if (common r).runtime_generation == owner.generation
        then (let (r', t') = observe_row r db.leases in
            record { rows = put_row r' db.rows; leases = beat t' })
        else db

    unfoldable pub apply_observation : Database → Database
    unfolding get_row put_row observe_row heartbeat release
    apply_observation db = observed (get_row owner db.rows) db

abbrev pub with_error : String → Row → Row
with_error message (deployment d) =
    deployment (record d { runtime = set_error (some message) d.runtime })
with_error message (training j) =
    training (record j { job = record j.job { runtime = set_error (some message) j.job.runtime } })
with_error message (evaluation r) =
    evaluation
      (record r { job = record r.job { runtime = set_error (some message) r.job.runtime } })

abbrev pub start_failed : ℕ → String → Row → Row
start_failed now message (deployment d) = deployment (record d {
  runtime = set_error (some message) d.runtime;
  actual_state = DeploymentState.failed;
  health_status = none;
  internal_url = none;
})
start_failed now message (training j) =
    training (record j { job = finish now JobState.failed (some message) j.job })
start_failed now message (evaluation r) =
    evaluation (record r { job = finish now JobState.failed (some message) r.job })

abbrev pub recorded : LeaseOwner → String → Option Row → Database → Database
recorded owner message none db = db
recorded owner message (some r) db =
    if (common r).runtime_generation == owner.generation
    then record db { rows = put_row (with_error message r) db.rows }
    else db

unfoldable pub record_agent_error : LeaseOwner → String → Database → Database
unfolding get_row put_row
record_agent_error owner message db = recorded owner message (get_row owner db.rows) db

abbrev pub start_refused : ℕ → LeaseOwner → String → Option Row → Database → Database
start_refused now owner message none db = db
start_refused now owner message (some r) db =
    if (common r).runtime_generation == owner.generation
    then record {
      rows = put_row (start_failed now message r) db.rows;
      leases = (release owner db.leases).1;
    }
    else db

unfoldable pub fail_start : ℕ → LeaseOwner → String → Database → Database
unfolding get_row put_row release
fail_start now owner message db = start_refused now owner message (get_row owner db.rows) db
