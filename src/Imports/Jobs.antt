-- ===== src/Imports/Jobs.antt =====
-- The transactions on one import job: backend/app/services/model_import_coordinator.py.
use open_llmops.Prelude.{
  ℕ, String, Bool, true, false, Option, none, some, List, [], ◌∷◌, ◌==◌, nat_eq, string_eq, ltb,
  ◌&&◌, ◌||◌, if◌then◌else◌, ℤ, pos, negsuc,
}
use open_llmops.Imports.Table.{
  ModelImportJob, ModelImportStatus, ModelImportSource, is_pending, is_canceling, is_finished,
  find_job, update_job, touched,
}

-- The columns that a request gives (`ModelImportCreate`).
pub record ModelImportCreate : Type 0 where
  pub name : String
  pub source : ModelImportSource
  pub repository : Option String
  pub revision : Option String
  pub source_directory : Option String

-- The row that `create_model_import` adds, with the key and the time that the database gives it.
abbrev pub new_job : ℕ → ℕ → ModelImportCreate → ModelImportJob
new_job id now payload = record {
  id = id;
  created_at = now;
  updated_at = now;
  name = payload.name;
  source = payload.source;
  repository = payload.repository;
  revision = payload.revision;
  source_directory = payload.source_directory;
  status = ModelImportStatus.pending;
  progress_completed = 0;
  progress_total = none;
  claimed_by = none;
  claimed_at = none;
  cancel_requested_at = none;
  started_at = none;
  finished_at = none;
  result_asset_id = none;
  manifest_json = none;
  error_message = none;
}

-- `ORDER BY created_at, id`
abbrev pub created_before : ModelImportJob → ModelImportJob → Bool
created_before a b =
    ltb a.created_at b.created_at || (a.created_at == b.created_at && ltb a.id b.id)

abbrev pub earlier : ModelImportJob → Option ModelImportJob → Option ModelImportJob
earlier j none = some j
earlier j (some k) = if created_before k j then some k else some j

-- The first pending job in the order of the queue.
unfoldable pub next_pending : List ModelImportJob → Option ModelImportJob
next_pending [] = none
next_pending (j ∷ jobs) =
    let rest = next_pending jobs in if is_pending j.status then earlier j rest else rest

abbrev pub set_claimed : ℕ → String → ModelImportJob → ModelImportJob
set_claimed now worker j = record j {
  updated_at = now;
  status = ModelImportStatus.transferring;
  claimed_by = some worker;
  claimed_at = some now;
  started_at = some now;
  error_message = none;
}

abbrev pub take_job :
    ℕ
    → String
    → Option ModelImportJob
    → List ModelImportJob
    → Option ModelImportJob × List ModelImportJob
take_job now worker none jobs = (none, jobs)
take_job now worker (some j) jobs =
    (some (set_claimed now worker j), update_job j.id (set_claimed now worker) jobs)

unfoldable pub claim_next_model_import :
    ℕ → String → List ModelImportJob → Option ModelImportJob × List ModelImportJob
claim_next_model_import now worker jobs = take_job now worker (next_pending jobs) jobs

-- The columns that a request to cancel sets, by the state that the row has.
abbrev pub set_canceled : ℕ → ModelImportStatus → ModelImportJob → ModelImportJob
set_canceled now ModelImportStatus.pending j = record j {
  updated_at = now;
  status = ModelImportStatus.canceled;
  cancel_requested_at = some now;
  finished_at = some now;
}
set_canceled now ModelImportStatus.transferring j = record j {
  updated_at = now;
  status = ModelImportStatus.canceling;
  cancel_requested_at = some now;
}
set_canceled now ModelImportStatus.validating j = record j {
  updated_at = now;
  status = ModelImportStatus.canceling;
  cancel_requested_at = some now;
}
set_canceled now _ j = touched now j

abbrev pub cancel_row : ℕ → ModelImportJob → ModelImportJob
cancel_row now j = set_canceled now j.status j

-- `none` is the answer 404.
unfoldable pub request_model_import_cancel :
    ℕ → ℕ → List ModelImportJob → Option ModelImportJob × List ModelImportJob
request_model_import_cancel now i jobs =
    let jobs' = update_job i (cancel_row now) jobs in (find_job i jobs', jobs')

-- The requests to cancel that are committed between the reading of a job and the writing of it: the
-- time of each and the job.
abbrev pub Meanwhile : Type 0
Meanwhile = List (ℕ × ℕ)

unfoldable pub others : Meanwhile → List ModelImportJob → List ModelImportJob
others [] jobs = jobs
others ((now, i) ∷ requests) jobs = others requests (request_model_import_cancel now i jobs).1

-- `max(0, n)`
abbrev pub at_least_zero : ℤ → ℕ
at_least_zero (pos n) = n
at_least_zero (negsuc n) = 0

abbrev pub total_written : Option ℤ → Option ℕ
total_written none = none
total_written (some n) = some (at_least_zero n)

abbrev pub is_validating_stage : String → Bool
is_validating_stage stage = stage == "validating" || stage == "ready"

-- The stage of this kind keeps the status that was read; a column is written only if it differs from
-- what was read.
abbrev pub keeps_status : Bool → ModelImportStatus → Bool
keeps_status validates ModelImportStatus.canceling = true
keeps_status true ModelImportStatus.validating = true
keeps_status false ModelImportStatus.transferring = true
keeps_status _ _ = false

abbrev pub staged : Bool → ModelImportStatus → ModelImportStatus → ModelImportStatus
staged validates seen current =
    if keeps_status validates seen
    then current
    else (if validates then ModelImportStatus.validating else ModelImportStatus.transferring)

abbrev pub progressed :
    ℕ → String → ℤ → Option ℤ → ModelImportStatus → ModelImportJob → ModelImportJob
progressed now stage completed total seen j = record j {
  updated_at = now;
  status = staged (is_validating_stage stage) seen j.status;
  progress_completed = at_least_zero completed;
  progress_total = total_written total;
  claimed_at = some now;
}

abbrev pub written_progress :
    ℕ
    → ℕ
    → String
    → ℤ
    → Option ℤ
    → Option ModelImportJob
    → List ModelImportJob
    → List ModelImportJob
written_progress now i stage completed total none jobs = jobs
written_progress now i stage completed total (some seen) jobs =
    if is_finished seen.status
    then jobs
    else update_job i (progressed now stage completed total seen.status) jobs

unfoldable pub record_progress :
    ℕ → ℕ → String → ℤ → Option ℤ → Meanwhile → List ModelImportJob → List ModelImportJob
record_progress now i stage completed total requests jobs =
    written_progress now i stage completed total (find_job i jobs) (others requests jobs)

abbrev pub set_failed : ℕ → String → Bool → ModelImportJob → ModelImportJob
set_failed now message true j = record j {
  updated_at = now;
  status = ModelImportStatus.canceled;
  error_message = none;
  finished_at = some now;
}
set_failed now message false j = record j {
  updated_at = now;
  status = ModelImportStatus.failed;
  error_message = some message;
  finished_at = some now;
}

abbrev pub written_failure :
    ℕ → ℕ → String → Option ModelImportJob → List ModelImportJob → List ModelImportJob
written_failure now i message none jobs = jobs
written_failure now i message (some seen) jobs =
    update_job i (set_failed now message (is_canceling seen.status)) jobs

-- The message is the safe error: `_safe_error` hides the token in it and cuts it.
unfoldable pub mark_failed : ℕ → ℕ → String → Meanwhile → List ModelImportJob → List ModelImportJob
mark_failed now i message requests jobs =
    written_failure now i message (find_job i jobs) (others requests jobs)

abbrev pub set_stopped : ℕ → Bool → ModelImportJob → ModelImportJob
set_stopped now true j = record j {
  updated_at = now;
  status = ModelImportStatus.pending;
  claimed_by = none;
  claimed_at = none;
  started_at = none;
  progress_completed = 0;
  progress_total = none;
}
set_stopped now false j = record j { status = ModelImportStatus.canceled; finished_at = some now }

abbrev pub is_retried : Bool → ModelImportStatus → Bool
is_retried true ModelImportStatus.canceling = false
is_retried shutting_down _ = shutting_down

abbrev pub written_stop :
    ℕ → ℕ → Bool → Option ModelImportJob → List ModelImportJob → List ModelImportJob
written_stop now i shutting_down none jobs = jobs
written_stop now i shutting_down (some seen) jobs =
    update_job i (set_stopped now (is_retried shutting_down seen.status)) jobs

unfoldable pub mark_canceled_or_retry :
    ℕ → ℕ → Bool → Meanwhile → List ModelImportJob → List ModelImportJob
mark_canceled_or_retry now i shutting_down requests jobs =
    written_stop now i shutting_down (find_job i jobs) (others requests jobs)
