-- ===== src/Safety/JobRequests.antt =====
-- The requests that end a job.
use open_llmops.Prelude.{
  ℕ, ◌≡◌, refl, sym, ◌∙◌, ap, subst, true, Option, some, none, Bool-cases, inl, inr, Result, ok,
  >>=-eq-ok,
}
use open_llmops.Workloads.{
  Row, deployment, training, evaluation, TrainingJob, EvaluationRun, Job, of_training,
  of_evaluation, JobState, DesiredJobState,
}
use open_llmops.Reconciler.Database.{Database, get_row, is_active, is_terminal_job, is_active_job}
use open_llmops.Routes.Common.{HttpError, StateActionResponse, any_owner}
use open_llmops.Routes.Jobs.{
  as_training, as_evaluation, canceled, terminated, is_being_canceled, terminate_training_job,
  cancel_evaluation_run, cancel_written, cancel_job, still_there,
}
use open_llmops.Safety.Backing.{IsSafe, IsSameClaim}
use open_llmops.Safety.Requests.{IsSafe-put_claim, IsStill}

pub as_training-ok :
    (o : Option Row) (j : TrainingJob) → as_training o ≡ ok j → o ≡ some (training j)
as_training-ok none j h = absurd (cc)
as_training-ok (some (deployment d)) j h = absurd (cc)
as_training-ok (some (training k)) j h = ap (λ x. some (training x)) (cc)
as_training-ok (some (evaluation r)) j h = absurd (cc)

pub as_evaluation-ok :
    (o : Option Row) (r : EvaluationRun) → as_evaluation o ≡ ok r → o ≡ some (evaluation r)
as_evaluation-ok none r h = absurd (cc)
as_evaluation-ok (some (deployment d)) r h = absurd (cc)
as_evaluation-ok (some (training k)) r h = absurd (cc)
as_evaluation-ok (some (evaluation k)) r h = ap (λ x. some (evaluation x)) (cc)

-- Cancelling changes neither the key nor the generation nor the cards.
canceled-claims :
    (now : ℕ) (s : JobState) (j : Job)
    → ((canceled now s j).runtime.id ≡ j.runtime.id)
      × ((canceled now s j).runtime.runtime_generation ≡ j.runtime.runtime_generation)
      × ((canceled now s j).runtime.gpu_ids ≡ j.runtime.gpu_ids)
canceled-claims now JobState.created j = (refl, refl, refl)
canceled-claims now _ j = (refl, refl, refl)

canceled-active :
    (now : ℕ) (s : JobState) (j : Job)
    → j.actual_state ≡ s
    → is_active_job (canceled now s j).actual_state ≡ true
    → is_active_job s ≡ true
canceled-active now JobState.created j e h = h
canceled-active now JobState.queued j e h = h
canceled-active now JobState.starting j e h = refl
canceled-active now JobState.running j e h = refl
canceled-active now _ j e h = subst (λ x. is_active_job x ≡ true) e h

module _ (now : ℕ) (j : Job) where
  abbrev wanted : Job
  wanted = record j { desired_state = DesiredJobState.terminated }

  terminated-active :
      is_active_job (terminated now j).actual_state ≡ true → is_active_job j.actual_state ≡ true
  terminated-active h = canceled-active now j.actual_state wanted refl h

training-claim :
    (now : ℕ) (j : TrainingJob)
    → IsSameClaim (training j) (training (record j { job = terminated now j.job }))
training-claim now j =
    let (same_id, same_generation, same_gpus) =
      canceled-claims now j.job.actual_state (wanted now j.job) in
    record {
      owner = λ i. record {
        type = of_training;
        id = same_id i;
        name = "";
        generation = same_generation i;
      };
      gpu_ids = same_gpus;
    }

cancel_written-claims :
    (now : ℕ) (s : JobState) (read j : Job)
    → ((cancel_written now s read j).runtime.id ≡ j.runtime.id)
      × ((cancel_written now s read j).runtime.runtime_generation ≡ j.runtime.runtime_generation)
      × ((cancel_written now s read j).runtime.gpu_ids ≡ j.runtime.gpu_ids)
cancel_written-claims now JobState.created read j = (refl, refl, refl)
cancel_written-claims now JobState.queued read j = (refl, refl, refl)
cancel_written-claims now _ read j = (refl, refl, refl)

cancel_written-active :
    (now : ℕ) (s : JobState) (read j : Job)
    → (is_active_job s ≡ true → is_active_job j.actual_state ≡ true)
    → is_active_job (cancel_written now s read j).actual_state ≡ true
    → is_active_job j.actual_state ≡ true
cancel_written-active now JobState.created read j f h = absurd (cc)
cancel_written-active now JobState.queued read j f h = absurd (cc)
cancel_written-active now JobState.starting read j f h = f refl
cancel_written-active now JobState.running read j f h = f refl
cancel_written-active now _ read j f h = h

evaluation-claim :
    (now : ℕ) (read r : EvaluationRun)
    → IsSameClaim (evaluation r) (evaluation (record r { job = cancel_job now read.job r.job }))
evaluation-claim now read r =
    let (same_id, same_generation, same_gpus) =
      cancel_written-claims now read.job.actual_state read.job r.job in
    record {
      owner = λ i. record {
        type = of_evaluation;
        id = same_id i;
        name = "";
        generation = same_generation i;
      };
      gpu_ids = same_gpus;
    }

still_there-ok :
    (o : Option Row) (r : EvaluationRun) → still_there o ≡ ok r → o ≡ some (evaluation r)
still_there-ok none r h = absurd (cc)
still_there-ok (some (deployment d)) r h = absurd (cc)
still_there-ok (some (training k)) r h = absurd (cc)
still_there-ok (some (evaluation k)) r h = ap (λ x. some (evaluation x)) (cc)

pub terminate_training_job-IsSafe :
    (now id : ℕ) (db : Database) (a : StateActionResponse) (db' : Database)
    → terminate_training_job now id db ≡ ok (a, db')
    → IsSafe db
    → IsSafe db'
unfolding terminate_training_job
terminate_training_job-IsSafe now id db a db' h safe =
    let (j, found, rest) =
      >>=-eq-ok (as_training (get_row (any_owner of_training id) db.rows)) _ h in
    elim (Bool-cases (is_terminal_job j.job.actual_state)) [
      | inl ended ↦ subst IsSafe (snd_ok (rw ended at rest)) safe
      | inr going ↦ elim (Bool-cases (is_being_canceled j.job.desired_state j.job.actual_state)) [
        | inl again ↦ subst IsSafe (snd_ok (rw (going, again) at rest)) safe
        | inr first ↦ subst IsSafe (snd_ok (rw (going, first) at rest)) (
            IsSafe-put_claim (any_owner of_training id) (training j) _ db (as_training-ok _ j found)
              (training-claim now j) (λ on. active now j on) safe)
      ]
    ]
  where
    snd_ok :
        {x : StateActionResponse} {d : Database}
        → ◌≡◌ {A = Result HttpError (StateActionResponse × Database)} (ok (x, d)) (ok (a, db'))
        → d ≡ db'
    snd_ok h = cc

    active :
        (now : ℕ) (j : TrainingJob)
        → is_active (training (record j { job = terminated now j.job })) ≡ true
        → is_active (training j) ≡ true
    active now j on = unfold is_active in terminated-active now j.job on

pub cancel_evaluation_run-IsSafe :
    (now id : ℕ) (before db db' : Database)
    → IsStill (any_owner of_evaluation id) before db
    → cancel_evaluation_run now id before db ≡ ok db'
    → IsSafe db
    → IsSafe db'
unfolding cancel_evaluation_run
cancel_evaluation_run-IsSafe now id before db db' still h safe =
    let (read, seen, h1) =
      >>=-eq-ok (as_evaluation (get_row (any_owner of_evaluation id) before.rows)) _ h in
    let (r, found, h2) =
      >>=-eq-ok (still_there (get_row (any_owner of_evaluation id) db.rows)) _ h1 in
    subst IsSafe (ok_eq h2) (
      IsSafe-put_claim (any_owner of_evaluation id) (evaluation r) _ db (still_there-ok _ r found)
        (evaluation-claim now read r)
        (λ on.
          active now read r
            (still (evaluation read) (evaluation r) (as_evaluation-ok _ read seen)
              (still_there-ok _ r found))
            on)
        safe)
  where
    ok_eq : {d d' : Database} → ◌≡◌ {A = Result HttpError Database} (ok d) (ok d') → d ≡ d'
    ok_eq h = cc

    active :
        (now : ℕ) (read r : EvaluationRun)
        → is_active (evaluation read) ≡ is_active (evaluation r)
        → is_active (evaluation (record r { job = cancel_job now read.job r.job })) ≡ true
        → is_active (evaluation r) ≡ true
    active now read r same on =
        unfold is_active in
        cancel_written-active now read.job.actual_state read.job r.job (λ was. sym same ∙ was) on
