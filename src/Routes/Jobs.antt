-- ===== src/Routes/Jobs.antt =====
-- The requests that end and delete jobs: backend/app/api/routes/training_jobs.py and
-- backend/app/api/routes/evaluations.py.
use open_llmops.Prelude.{
  ℕ, ◌+◌, String, Bool, true, false, not, Option, some, none, if◌then◌else◌, Result, ok, err, ◌>>=◌,
  ◌>>◌, raise_if,
}
use open_llmops.Workloads.{
  Row, training, evaluation, TrainingJob, EvaluationRun, Job, of_training, of_evaluation, JobState,
  DesiredJobState,
}
use open_llmops.Cleanup.{Gateway}
use open_llmops.Reconciler.Database.{Database, Desired, Actual, get_row, put_row, is_terminal_job}
use open_llmops.Routes.Common.{
  HttpError, http, StateActionResponse, any_owner, delete_confirmed, cleared,
}

abbrev pub as_training : Option Row → Result HttpError TrainingJob
as_training (some (training j)) = ok j
as_training _ = err (http 404 "训练任务不存在")

abbrev pub as_evaluation : Option Row → Result HttpError EvaluationRun
as_evaluation (some (evaluation r)) = ok r
as_evaluation _ = err (http 404 "评测任务不存在")

-- From `CREATED` and `QUEUED` a job is canceled at once; a live one is to be canceled.
abbrev pub canceled : ℕ → JobState → Job → Job
canceled now JobState.created j = record j {
  runtime = record j.runtime { queued_at = none };
  actual_state = JobState.canceled;
  finished_at = some now;
}
canceled now JobState.queued j = record j {
  runtime = record j.runtime { queued_at = none };
  actual_state = JobState.canceled;
  finished_at = some now;
}
canceled now JobState.starting j = record j { actual_state = JobState.canceling }
canceled now JobState.running j = record j { actual_state = JobState.canceling }
canceled now _ j = j

abbrev pub bumped : Job → Job
bumped j = record j { runtime = record j.runtime { state_version = j.runtime.state_version + 1 } }

abbrev pub terminated : ℕ → Job → Job
terminated now j =
    bumped (canceled now j.actual_state (record j { desired_state = DesiredJobState.terminated }))

abbrev pub is_being_canceled : DesiredJobState → JobState → Bool
is_being_canceled DesiredJobState.terminated JobState.canceling = true
is_being_canceled _ _ = false

abbrev pub report : String → Job → StateActionResponse
report message j = record {
  id = j.runtime.id;
  desired_state = Desired.job j.desired_state;
  actual_state = Actual.job j.actual_state;
  message = message;
}

unfoldable pub terminate_training_job :
    (now id : ℕ) → Database → Result HttpError (StateActionResponse × Database)
unfolding get_row put_row
terminate_training_job now id db = do
  j ← as_training (get_row (any_owner of_training id) db.rows)
  if is_terminal_job j.job.actual_state
      then ok (report "训练任务已结束，无需重复终止" j.job, db)
      else if is_being_canceled j.job.desired_state j.job.actual_state
      then ok (report "训练终止指令已记录" j.job, db)
      else ok (
        report "训练终止指令已记录" (terminated now j.job),
        record db { rows = put_row (training (record j { job = terminated now j.job })) db.rows },
      )

-- The columns that a cancellation writes onto the row at the commit: those that differ from what was
-- read.
abbrev pub want_terminated : DesiredJobState → DesiredJobState → DesiredJobState
want_terminated DesiredJobState.terminated current = current
want_terminated DesiredJobState.running current = DesiredJobState.terminated

abbrev pub unqueued : (now : ℕ) (read j : Job) → Job
unqueued now read j = record j {
  runtime = record j.runtime { queued_at = cleared read.runtime.queued_at j.runtime.queued_at };
  actual_state = JobState.canceled;
  finished_at = some now;
}

abbrev pub cancel_written : (now : ℕ) → JobState → (read j : Job) → Job
cancel_written now JobState.created read j = unqueued now read j
cancel_written now JobState.queued read j = unqueued now read j
cancel_written now JobState.starting read j = record j { actual_state = JobState.canceling }
cancel_written now JobState.running read j = record j { actual_state = JobState.canceling }
cancel_written now _ read j = j

abbrev pub cancel_job : (now : ℕ) (read j : Job) → Job
cancel_job now read j =
    let k = cancel_written now read.actual_state read j in
    record k {
      runtime = record k.runtime { state_version = read.runtime.state_version + 1 };
      desired_state = want_terminated read.desired_state j.desired_state;
    }

abbrev pub still_there : Option Row → Result HttpError EvaluationRun
still_there (some (evaluation r)) = ok r
still_there _ = err (http 500 "StaleDataError")

-- Also a run that has ended takes the new desired state and version. `before` is the database when
-- the row is read, without a lock, and `db` the one at the commit.
unfoldable pub cancel_evaluation_run :
    (now id : ℕ) (before db : Database) → Result HttpError Database
unfolding get_row put_row
cancel_evaluation_run now id before db = do
  read ← as_evaluation (get_row (any_owner of_evaluation id) before.rows)
  r ← still_there (get_row (any_owner of_evaluation id) db.rows)
  ok (record db {
    rows = put_row (evaluation (record r { job = cancel_job now read.job r.job })) db.rows;
  })

unfoldable pub delete_training_job : Option Gateway → ℕ → Database → Result HttpError Database
unfolding get_row delete_confirmed
delete_training_job agent id db = do
  j ← as_training (get_row (any_owner of_training id) db.rows)
  raise_if (not (is_terminal_job j.job.actual_state)) (http 409 "只能删除已结束的训练任务")
  delete_confirmed agent (training j) db

unfoldable pub delete_evaluation_run : Option Gateway → ℕ → Database → Result HttpError Database
unfolding get_row delete_confirmed
delete_evaluation_run agent id db = do
  r ← as_evaluation (get_row (any_owner of_evaluation id) db.rows)
  raise_if (not (is_terminal_job r.job.actual_state)) (http 409 "只能删除已结束的评测任务")
  delete_confirmed agent (evaluation r) db
