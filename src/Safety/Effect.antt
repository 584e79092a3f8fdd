-- ===== src/Safety/Effect.antt =====
-- What one observation does to a row and its leases: it ends the workload, or keeps its claim.
use open_llmops.Prelude.{
  ℕ, ◌≡◌, refl, ◌∙◌, false, List, nat_eq, String, ℤ, Bool-cases, inl, inr, Result, ok, err,
}
use open_llmops.Workloads.{
  Row, deployment, training, evaluation, Deployment, TrainingJob, EvaluationRun, Runtime, table,
  common, DesiredServiceState, DesiredJobState,
}
use open_llmops.Leases.{Leases, LeaseOwner, release}
use open_llmops.Agent.{
  AgentCommandResponse, AgentWorkloadState, absent, starting, running, stopping, succeeded, failed,
}
use open_llmops.Reconciler.Database.{is_active}
use open_llmops.Reconciler.Observe.{
  Validators, TrainingMetadata, EvaluationMetadata, deployment_observed, deployment_gone,
  deployment_live, copy_training_metadata, mark_started,
}
use open_llmops.Reconciler.ObserveJob.{
  training_observed, training_succeeded, training_failed, training_verified, training_live,
  training_updated, job_gone, evaluation_observed, evaluation_succeeded, evaluation_live,
  observe_row,
}
use open_llmops.Safety.Backing.{IsSameClaim}

-- What an observation does: the workload has ended and its leases go, or it keeps both.
pub data Effect (owner : LeaseOwner) (r : Row) (t : Leases) (r' : Row) (t' : Leases) : Type 0 where
  ended :
      is_active r' ≡ false
      → table r' ≡ table r
      → (common r').id ≡ (common r).id
      → t' ≡ (release owner t).1
      → Effect owner r t r' t'
  kept : IsSameClaim r r' → t' ≡ t → Effect owner r t r' t'

-- The three columns that a claim is read from.
abbrev claims : Runtime → ℕ × List ℤ × ℕ
claims r = (r.id, r.gpu_ids, r.runtime_generation)

claims-mark_started :
    (now : ℕ) (o : AgentWorkloadState) (r : Runtime) → claims (mark_started now o r) ≡ claims r
claims-mark_started now running r = refl
claims-mark_started now _ r = refl

kept_by_claims :
    (owner : LeaseOwner) (r : Row) (t : Leases) (r' : Row)
    → table r' ≡ table r
    → claims (common r') ≡ claims (common r)
    → Effect owner r t r' t
kept_by_claims owner r t r' k c =
    kept
      (record {
        owner = λ i. record { type = k i; id = (c i).0; name = ""; generation = (c i).2 };
        gpu_ids = λ i. (c i).1;
      })
      refl

module _ (checks : Validators) (now : ℕ) (owner : LeaseOwner)
    (response : AgentCommandResponse) where
  gone-Effect :
      (w : DesiredServiceState) (d : Deployment) (t : Leases)
      → Effect owner
          (deployment d)
          t
          (deployment (deployment_gone now owner response w d))
          (release owner t).1
  unfolding is_active
  gone-Effect DesiredServiceState.running d t = ended refl refl refl refl
  gone-Effect DesiredServiceState.stopped d t = ended refl refl refl refl

  live-Effect :
      (w : DesiredServiceState) (d : Deployment) (t : Leases)
      → Effect owner (deployment d) t (deployment (deployment_live now owner response w d)) t
  live-Effect DesiredServiceState.stopped d t = kept_by_claims owner _ t _ refl refl
  live-Effect DesiredServiceState.running d t =
      kept_by_claims owner _ t _ refl (claims-mark_started now response.observed_state d.runtime)

  deployment-Effect :
      (o : AgentWorkloadState) (d : Deployment) (t : Leases)
      → Effect owner
          (deployment d)
          t
          (deployment (deployment_observed now owner response o d t).0)
          (deployment_observed now owner response o d t).1
  unfolding is_active
  deployment-Effect absent d t = elim (Bool-cases response.accepted) [
    | inl yes_accepted ↦ rw yes_accepted (gone-Effect d.desired_state d t)
    | inr refused ↦ rw refused (ended refl refl refl refl)
  ]
  deployment-Effect failed d t = ended refl refl refl refl
  deployment-Effect succeeded d t = ended refl refl refl refl
  deployment-Effect starting d t = live-Effect d.desired_state d t
  deployment-Effect running d t = live-Effect d.desired_state d t
  deployment-Effect stopping d t = live-Effect d.desired_state d t

  -- A training job that its observation ended: no active state, and the key of before.
  abbrev IsOver : TrainingJob → TrainingJob → Type 0
  IsOver j j' = (is_active (training j') ≡ false) × (j'.job.runtime.id ≡ j.job.runtime.id)

  job_gone-IsOver :
      (w : DesiredJobState) (j : TrainingJob)
      → IsOver j (record j { job = job_gone checks now owner response w j.job })
  unfolding is_active
  job_gone-IsOver DesiredJobState.terminated j = (refl, refl)
  job_gone-IsOver DesiredJobState.running j = (refl, refl)

  run_gone-Effect :
      (w : DesiredJobState) (r : EvaluationRun) (t : Leases)
      → Effect owner
          (evaluation r)
          t
          (evaluation (record r { job = job_gone checks now owner response w r.job }))
          (release owner t).1
  unfolding is_active
  run_gone-Effect DesiredJobState.terminated r t = ended refl refl refl refl
  run_gone-Effect DesiredJobState.running r t = ended refl refl refl refl

  verified-IsOver :
      (v : Result String (Unit {0})) (j : TrainingJob)
      → is_active (training j) ≡ false
      → IsOver j (training_verified checks now owner response v j)
  unfolding is_active
  verified-IsOver (ok _) j h = (h, refl)
  verified-IsOver (err e) j h = (refl, refl)

  succeeded-IsOver :
      (m : Result String TrainingMetadata) (j : TrainingJob)
      → IsOver j (training_succeeded checks now owner response m j)
  unfolding is_active copy_training_metadata
  succeeded-IsOver (err e) j = (refl, refl)
  succeeded-IsOver (ok m) j = verified-IsOver _ _ refl

  failed-IsOver :
      (m : Result String TrainingMetadata) (j : TrainingJob)
      → IsOver j (training_failed checks now owner response m j)
  unfolding is_active copy_training_metadata
  failed-IsOver (err e) j = (refl, refl)
  failed-IsOver (ok m) j = (refl, refl)

  updated-claims :
      (m : Result String TrainingMetadata) (j : TrainingJob)
      → claims (training_updated checks now owner response m j).job.runtime ≡ claims j.job.runtime
  unfolding copy_training_metadata
  updated-claims (err e) j = refl
  updated-claims (ok m) j = refl

  training_over-Effect :
      (j j' : TrainingJob) (t : Leases)
      → IsOver j j'
      → Effect owner (training j) t (training j') (release owner t).1
  training_over-Effect j j' t (off, same) = ended off refl same refl

  training_live-Effect :
      (j : TrainingJob) (t : Leases)
      → Effect owner (training j) t (training (training_live checks now owner response j)) t
  training_live-Effect j t =
      kept_by_claims owner _ t _ refl
        (updated-claims _ _ ∙ claims-mark_started now response.observed_state j.job.runtime)

  training-Effect :
      (o : AgentWorkloadState) (j : TrainingJob) (t : Leases)
      → Effect owner
          (training j)
          t
          (training (training_observed checks now owner response o j t).0)
          (training_observed checks now owner response o j t).1
  training-Effect absent j t = training_over-Effect j _ t (job_gone-IsOver j.job.desired_state j)
  training-Effect failed j t = training_over-Effect j _ t (failed-IsOver _ j)
  training-Effect succeeded j t = training_over-Effect j _ t (succeeded-IsOver _ j)
  training-Effect starting j t = training_live-Effect j t
  training-Effect running j t = training_live-Effect j t
  training-Effect stopping j t = training_live-Effect j t

  run_succeeded-Effect :
      (m : Result String EvaluationMetadata) (r : EvaluationRun) (t : Leases)
      → Effect owner
          (evaluation r)
          t
          (evaluation (evaluation_succeeded checks now owner response m r))
          (release owner t).1
  unfolding is_active
  run_succeeded-Effect (err e) r t = ended refl refl refl refl
  run_succeeded-Effect (ok m) r t = ended refl refl refl refl

  run_live-Effect :
      (r : EvaluationRun) (t : Leases)
      → Effect owner (evaluation r) t (evaluation (evaluation_live checks now owner response r)) t
  run_live-Effect r t =
      kept_by_claims owner _ t _ refl
        (claims-mark_started now response.observed_state r.job.runtime)

  evaluation-Effect :
      (o : AgentWorkloadState) (r : EvaluationRun) (t : Leases)
      → Effect owner
          (evaluation r)
          t
          (evaluation (evaluation_observed checks now owner response o r t).0)
          (evaluation_observed checks now owner response o r t).1
  unfolding is_active
  evaluation-Effect absent r t = run_gone-Effect r.job.desired_state r t
  evaluation-Effect succeeded r t = run_succeeded-Effect _ r t
  evaluation-Effect failed r t = ended refl refl refl refl
  evaluation-Effect starting r t = run_live-Effect r t
  evaluation-Effect running r t = run_live-Effect r t
  evaluation-Effect stopping r t = run_live-Effect r t

  pub observe_row-Effect :
      (r : Row) (t : Leases)
      → Effect owner r t
          (observe_row checks now owner response r t).0
          (observe_row checks now owner response r t).1
  unfolding observe_row
  observe_row-Effect (deployment d) t = deployment-Effect response.observed_state d t
  observe_row-Effect (training j) t = training-Effect response.observed_state j t
  observe_row-Effect (evaluation r) t = evaluation-Effect response.observed_state r t
