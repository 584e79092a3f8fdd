-- ===== src/Imports/Tests.antt =====
-- The theorems on imports at concrete inputs: a coordinator executes one import, another one waits, and
-- a third was canceled.
use open_llmops.Prelude.{
  ℕ, String, ◌≡◌, refl, true, false, none, some, List, [], ◌∷◌, ok, Result, pos, any,
}
use open_llmops.Imports.Table.{
  ModelImportJob, ModelImportStatus, ModelImportSource, find_job, validating,
}
use open_llmops.Imports.Jobs.{claim_next_model_import, request_model_import_cancel, record_progress}
use open_llmops.Imports.Recovery.{is_stale, recover_stale_model_imports}
use open_llmops.Imports.Coordinator.{Coordinator, Config, run_once}
use open_llmops.Imports.Sound.{IsSound, AreKept}
use open_llmops.Imports.Claiming.{IsClaim, claim_next_model_import-IsClaim}
use open_llmops.Imports.Lifecycle.{Reach-IsSound, Reach-AreKept}
use open_llmops.Imports.Filling.{IsFull, run_once-IsFull, run_once-Reach}
use open_llmops.Imports.Requests.{
  request_model_import_cancel-twice, only_touched, recover-none_stale, record_progress-lost,
}

abbrev waiting_job : ModelImportJob
waiting_job = record {
  id = 4;
  created_at = 20;
  updated_at = 20;
  name = "small";
  source = ModelImportSource.huggingface;
  repository = some "org/small";
  revision = some "main";
  source_directory = none;
  status = ModelImportStatus.pending;
  progress_completed = 0;
  progress_total = none;
  claimed_by = none;
  claimed_at = none;
  cancel_requested_at = none;
  started_at = none;
  finished_at = none;
  result_asset_id = none;
  manifest_json = none;
  error_message = none;
}

abbrev running_job : ModelImportJob
running_job = record waiting_job {
  id = 5;
  created_at = 10;
  status = ModelImportStatus.transferring;
  claimed_by = some "first";
  claimed_at = some 12;
  started_at = some 12;
}

abbrev canceled_job : ModelImportJob
canceled_job = record waiting_job {
  id = 6;
  status = ModelImportStatus.canceled;
  cancel_requested_at = some 21;
  finished_at = some 21;
}

abbrev jobs : List ModelImportJob
jobs = waiting_job ∷ running_job ∷ canceled_job ∷ []

abbrev coordinator : Coordinator
coordinator = record {
  worker_id = "first";
  shutting_down = false;
  tasks = record { job_id = 5; cancel_event = false; is_done = false } ∷ [];
  store = record { jobs = jobs; assets = [] };
}

abbrev removed : ℕ → Result String (Unit {0})
removed i = ok tt

abbrev config : Config
config = record {
  concurrency = 2;
  claim_timeout = 120;
  directory = λ i. "/models";
  resolve = λ p. p;
  remove = λ tick. removed;
  is_locked = λ tick. true;
}

sound : IsSound coordinator
sound = (
  (refl, (refl, (refl, tt))),
  (
    ((λ run. absurd (cc)), (λ q. refl)),
    (((λ run. (refl, refl)), (λ q. refl)), (((λ run. absurd (cc)), (λ q. refl)), tt)),
  ),
)

abbrev clock : ℕ → ℕ
clock tick = tick

Reach-IsSound_example : IsSound (run_once config clock 30 coordinator)
Reach-IsSound_example =
    Reach-IsSound config coordinator (run_once config clock 30 coordinator)
      (run_once-Reach config clock 30 coordinator refl) sound

Reach-AreKept_example : AreKept jobs (run_once config clock 30 coordinator).store.jobs
Reach-AreKept_example =
    Reach-AreKept config coordinator (run_once config clock 30 coordinator)
      (run_once-Reach config clock 30 coordinator refl) sound

run_once-IsFull_example : IsFull config clock (run_once config clock 30 coordinator)
run_once-IsFull_example = run_once-IsFull config clock 30 coordinator sound

claim_next_model_import-IsClaim_example :
    IsClaim 30 "first" jobs (claim_next_model_import 30 "first" jobs)
claim_next_model_import-IsClaim_example = claim_next_model_import-IsClaim 30 "first" jobs

request_model_import_cancel-twice_example :
    request_model_import_cancel 31 5 (request_model_import_cancel 30 5 jobs).1
    ≡ only_touched 31 5 (request_model_import_cancel 30 5 jobs).1
request_model_import_cancel-twice_example = request_model_import_cancel-twice 30 31 5 jobs

recover-none_stale_example :
    any
      (is_stale 300 120 "second")
      (recover_stale_model_imports (λ i. "/models") removed true 300 120 "second" [] jobs).1
    ≡ false
recover-none_stale_example = recover-none_stale (λ i. "/models") removed 300 120 "second" [] jobs

record_progress-lost_example :
    (k : ModelImportJob) × (find_job 5
        (record_progress 33 5 "validating" (pos 7) none ((32, 5) ∷ []) jobs)
      ≡ some k)
    × (k.status ≡ validating)
    × (k.cancel_requested_at ≡ some 32)
record_progress-lost_example = record_progress-lost 33 32 5 (pos 7) none running_job jobs refl refl
