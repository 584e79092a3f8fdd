-- ===== src/Reconciler/Leaving.antt =====
-- What takes a row out of the queue: an observation that does not say `ABSENT`, and a refused start.
use open_llmops.Prelude.{
  ℕ, ◌≡◌, ◌≢◌, refl, String, true, false, none, nat_eq, arith, Result, ok, err, beq_refl,
}
use open_llmops.Workloads.{
  Row, deployment, training, evaluation, Deployment, TrainingJob, EvaluationRun, Job, common,
  type_eq, JobState, DesiredServiceState, DesiredJobState,
}
use open_llmops.Leases.{Leases, LeaseOwner}
use open_llmops.Agent.{
  AgentCommandResponse, AgentWorkloadState, absent, starting, running, stopping, succeeded, failed,
  Execution,
}
use open_llmops.Reconciler.Database.{is_row_of, is_terminal, snapshot}
use open_llmops.Reconciler.Observe.{
  Validators, TrainingMetadata, EvaluationMetadata, deployment_observed, deployment_live,
  copy_training_metadata, set_state, full_progress,
}
use open_llmops.Reconciler.ObserveJob.{
  training_observed, training_succeeded, training_failed, training_verified, training_live,
  training_updated, job_live, evaluation_observed, evaluation_succeeded, observe_row, with_error,
  start_failed,
}
use open_llmops.Reconciler.Claim.{is_queued, queued_job, set_generation, set_starting}
use open_llmops.Reconciler.Waiting.{has_key}

-- A row that has left the queue.
abbrev pub IsOut : Row → Type 0
IsOut r = is_queued r ≡ false

module _ (checks : Validators) (now : ℕ) (owner : LeaseOwner)
    (response : AgentCommandResponse) where
  deployment_live-IsOut :
      (w : DesiredServiceState) (o : AgentWorkloadState) (d : Deployment)
      → response.observed_state ≡ o
      → o ≢ absent
      → o ≢ succeeded
      → o ≢ failed
      → IsOut (deployment (deployment_live now owner response w d))
  unfolding is_queued
  deployment_live-IsOut DesiredServiceState.stopped o d e a b c = refl
  deployment_live-IsOut DesiredServiceState.running absent d e a b c = absurd (a refl)
  deployment_live-IsOut DesiredServiceState.running succeeded d e a b c = absurd (b refl)
  deployment_live-IsOut DesiredServiceState.running failed d e a b c = absurd (c refl)
  deployment_live-IsOut DesiredServiceState.running starting d e a b c = rw e refl
  deployment_live-IsOut DesiredServiceState.running running d e a b c = rw e refl
  deployment_live-IsOut DesiredServiceState.running stopping d e a b c = rw e refl

  deployment-IsOut :
      (o : AgentWorkloadState) (d : Deployment) (t : Leases)
      → response.observed_state ≡ o
      → o ≢ absent
      → IsOut (deployment (deployment_observed now owner response o d t).0)
  unfolding is_queued
  deployment-IsOut absent d t e a = absurd (a refl)
  deployment-IsOut failed d t e a = refl
  deployment-IsOut succeeded d t e a = refl
  deployment-IsOut starting d t e a =
      deployment_live-IsOut d.desired_state starting d e a (λ h. cc) (λ h. cc)
  deployment-IsOut running d t e a =
      deployment_live-IsOut d.desired_state running d e a (λ h. cc) (λ h. cc)
  deployment-IsOut stopping d t e a =
      deployment_live-IsOut d.desired_state stopping d e a (λ h. cc) (λ h. cc)

  -- A job that is observed as live, whatever is desired of it.
  abbrev IsLive : AgentWorkloadState → Type 0
  IsLive o = (o ≢ absent) × (o ≢ succeeded) × (o ≢ failed)

  live_state-out :
      (w : DesiredJobState) (o : AgentWorkloadState) (j : Job)
      → response.observed_state ≡ o
      → j.desired_state ≡ w
      → IsLive o
      → queued_job (job_live checks now owner response j).actual_state w ≡ false
  live_state-out DesiredJobState.terminated o j e q live = rw q refl
  live_state-out DesiredJobState.running absent j e q live = absurd (live.0 refl)
  live_state-out DesiredJobState.running succeeded j e q live = absurd (live.1 refl)
  live_state-out DesiredJobState.running failed j e q live = absurd (live.2 refl)
  live_state-out DesiredJobState.running starting j e q live = rw (q, e) refl
  live_state-out DesiredJobState.running running j e q live = rw (q, e) refl
  live_state-out DesiredJobState.running stopping j e q live = rw (q, e) refl

  training_updated-IsOut :
      (m : Result String TrainingMetadata) (j : TrainingJob)
      → queued_job j.job.actual_state j.job.desired_state ≡ false
      → IsOut (training (training_updated checks now owner response m j))
  unfolding is_queued copy_training_metadata
  training_updated-IsOut (ok m) j h = h
  training_updated-IsOut (err x) j h = h

  training_ended-IsOut :
      (v : Result String (Unit {0})) (j : TrainingJob)
      → IsOut (training j)
      → IsOut (training (training_verified checks now owner response v j))
  unfolding is_queued
  training_ended-IsOut (ok _) j h = h
  training_ended-IsOut (err x) j h = refl

  training_succeeded-IsOut :
      (m : Result String TrainingMetadata) (j : TrainingJob)
      → IsOut (training (training_succeeded checks now owner response m j))
  unfolding is_queued copy_training_metadata
  training_succeeded-IsOut (ok m) j =
      let copied = copy_training_metadata m j in
      let done : TrainingJob = record copied {
        job = set_state JobState.succeeded none copied.job;
        progress = full_progress;
      } in
      training_ended-IsOut (checks.validate_successful_training_artifacts done) done refl
  training_succeeded-IsOut (err x) j = refl

  training_failed-IsOut :
      (m : Result String TrainingMetadata) (j : TrainingJob)
      → IsOut (training (training_failed checks now owner response m j))
  unfolding is_queued copy_training_metadata
  training_failed-IsOut (ok m) j = refl
  training_failed-IsOut (err x) j = refl

  training_live-IsOut :
      (o : AgentWorkloadState) (j : TrainingJob)
      → response.observed_state ≡ o
      → IsLive o
      → IsOut (training (training_live checks now owner response j))
  training_live-IsOut o j e live =
      let moved : TrainingJob = record j { job = job_live checks now owner response j.job } in
      training_updated-IsOut
        (checks.validate_training_observation_metadata moved response.metadata false) moved
        (live_state-out j.job.desired_state o j.job e refl live)

  training-IsOut :
      (o : AgentWorkloadState) (j : TrainingJob) (t : Leases)
      → response.observed_state ≡ o
      → o ≢ absent
      → IsOut (training (training_observed checks now owner response o j t).0)
  training-IsOut absent j t e a = absurd (a refl)
  training-IsOut succeeded j t e a = training_succeeded-IsOut _ j
  training-IsOut failed j t e a = training_failed-IsOut _ j
  training-IsOut starting j t e a = training_live-IsOut starting j e (a, (λ h. cc), λ h. cc)
  training-IsOut running j t e a = training_live-IsOut running j e (a, (λ h. cc), λ h. cc)
  training-IsOut stopping j t e a = training_live-IsOut stopping j e (a, (λ h. cc), λ h. cc)

  evaluation_succeeded-IsOut :
      (m : Result String EvaluationMetadata) (r : EvaluationRun)
      → IsOut (evaluation (evaluation_succeeded checks now owner response m r))
  unfolding is_queued
  evaluation_succeeded-IsOut (ok m) r = refl
  evaluation_succeeded-IsOut (err x) r = refl

  evaluation-IsOut :
      (o : AgentWorkloadState) (r : EvaluationRun) (t : Leases)
      → response.observed_state ≡ o
      → o ≢ absent
      → IsOut (evaluation (evaluation_observed checks now owner response o r t).0)
  unfolding is_queued
  evaluation-IsOut absent r t e a = absurd (a refl)
  evaluation-IsOut succeeded r t e a = evaluation_succeeded-IsOut _ r
  evaluation-IsOut failed r t e a = refl
  evaluation-IsOut starting r t e a =
      live_state-out r.job.desired_state starting r.job e refl (a, (λ h. cc), λ h. cc)
  evaluation-IsOut running r t e a =
      live_state-out r.job.desired_state running r.job e refl (a, (λ h. cc), λ h. cc)
  evaluation-IsOut stopping r t e a =
      live_state-out r.job.desired_state stopping r.job e refl (a, (λ h. cc), λ h. cc)

  -- A response puts no row into the queue, unless it says `ABSENT`.
  pub observe_row-IsOut :
      (r : Row) (t : Leases)
      → response.observed_state ≢ absent
      → IsOut (observe_row checks now owner response r t).0
  unfolding observe_row
  observe_row-IsOut (deployment d) t a = deployment-IsOut response.observed_state d t refl a
  observe_row-IsOut (training j) t a = training-IsOut response.observed_state j t refl a
  observe_row-IsOut (evaluation r) t a = evaluation-IsOut response.observed_state r t refl a

pub with_error-waits : (m : String) (r : Row) → is_queued (with_error m r) ≡ is_queued r
unfolding is_queued
with_error-waits m (deployment d) = refl
with_error-waits m (training j) = refl
with_error-waits m (evaluation r) = refl

pub start_failed-IsOut : (now : ℕ) (m : String) (r : Row) → IsOut (start_failed now m r)
unfolding is_queued
start_failed-IsOut now m (deployment d) = refl
start_failed-IsOut now m (training j) = refl
start_failed-IsOut now m (evaluation r) = refl

-- The row of a workload that was claimed.
abbrev pub started : Row → Row
started r = set_starting (set_generation (common r).state_version r)

pub started-IsOut : (r : Row) → IsOut (started r)
unfolding is_queued
started-IsOut (deployment d) = refl
started-IsOut (training j) = refl
started-IsOut (evaluation r) = refl

pub started-key : (r : Row) → has_key r (started r) ≡ true
started-key (deployment d) = beq_refl d.runtime.id
started-key (training j) = beq_refl j.job.runtime.id
started-key (evaluation r) = beq_refl r.job.runtime.id

pub terminal-IsOut : (r : Row) → is_terminal r ≡ true → IsOut r
unfolding is_terminal is_queued
terminal-IsOut (deployment d) h = ground arith
terminal-IsOut (training j) h = ground arith
terminal-IsOut (evaluation r) h = ground arith

pub snapshot-owner : (x : Execution) (r : Row) → is_row_of (snapshot x r).owner r ≡ true
unfolding snapshot
snapshot-owner x (deployment d) = beq_refl d.runtime.id
snapshot-owner x (training j) = beq_refl j.job.runtime.id
snapshot-owner x (evaluation r) = beq_refl r.job.runtime.id
