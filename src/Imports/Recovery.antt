-- ===== src/Imports/Recovery.antt =====
-- The return of stale import jobs: recover_stale_model_imports of
-- backend/app/services/model_import_coordinator.py.
use open_llmops.Prelude.{
  ℕ, ◌+◌, String, string_eq, Bool, true, false, not, Option, none, some, List, [], ◌∷◌, map, ◌==◌,
  nat_eq, ltb, ◌&&◌, if◌then◌else◌, Result, ok, err, any, select, length,
}
use open_llmops.Imports.Table.{ModelImportJob, ModelImportStatus, is_canceling, is_active_import}

-- The columns of a model asset that an import sets.
pub record ModelAsset : Type 0 where
  pub id : ℕ
  pub name : String
  pub source_uri : String
  pub revision : Option String
  pub local_path : String
  pub family : String
  pub parameter_count : Option ℕ
  pub size_bytes : Option ℕ
  pub checksum : Option String

abbrev pub is_unclaimed_since : ℕ → ℕ → Option ℕ → Bool
is_unclaimed_since now timeout none = true
is_unclaimed_since now timeout (some t) = ltb (t + timeout) now

abbrev pub is_foreign : String → Option String → Bool
is_foreign worker none = true
is_foreign worker (some w) = not (w == worker)

-- The rows that a recovery takes: active, without a sign of life since the timeout, of another worker.
abbrev pub is_stale : ℕ → ℕ → String → ModelImportJob → Bool
is_stale now timeout worker j =
    is_active_import j.status
    && (is_unclaimed_since now timeout j.claimed_at && is_foreign worker j.claimed_by)

abbrev pub find_asset : ℕ → List ModelAsset → Option ModelAsset
find_asset i [] = none
find_asset i (a ∷ assets) = if a.id == i then some a else find_asset i assets

abbrev pub with_size : Option ℕ → ModelImportJob → ModelImportJob
with_size none j = j
with_size (some n) j = record j { progress_completed = n; progress_total = some n }

abbrev pub size_of : Option ModelAsset → Option ℕ
size_of none = none
size_of (some a) = a.size_bytes

abbrev pub set_published : ℕ → Option ℕ → ModelImportJob → ModelImportJob
set_published now size j =
    with_size size
      (record j { status = ModelImportStatus.ready; finished_at = some now; error_message = none })

abbrev pub set_recovery_failed : ℕ → String → ModelImportJob → ModelImportJob
set_recovery_failed now message j = record j {
  updated_at = now;
  status = ModelImportStatus.failed;
  finished_at = some now;
  error_message = some message;
}

abbrev pub set_recovered : ℕ → Bool → ModelImportJob → ModelImportJob
set_recovered now true j = record j {
  updated_at = now;
  status = ModelImportStatus.canceled;
  finished_at = some now;
  claimed_by = none;
  claimed_at = none;
  error_message = none;
}
set_recovered now false j = record j {
  updated_at = now;
  status = ModelImportStatus.pending;
  started_at = none;
  finished_at = none;
  progress_completed = 0;
  progress_total = none;
  cancel_requested_at = none;
  claimed_by = none;
  claimed_at = none;
  error_message = none;
}

-- After the directories of the job were to be removed.
abbrev pub cleaned : ℕ → Result String (Unit {0}) → ModelImportJob → ModelImportJob
cleaned now (err e) j = set_recovery_failed now e j
cleaned now (ok u) j = set_recovered now (is_canceling j.status) j

-- `directory` gives the place of a job in the store, `remove` how the removal of the job's directories
-- ends: by the message of an OSError, or well.
module _ (directory : ℕ → String) (remove : ℕ → Result String (Unit {0})) where
  abbrev pub recover_from : Option ℕ → ℕ → List ModelAsset → ModelImportJob → ModelImportJob
  recover_from (some a) now assets j = set_published now (size_of (find_asset a assets)) j
  recover_from none now assets j =
      if any (λ a. a.local_path == directory j.id) assets
      then set_recovery_failed now "恢复中发现最终目录已关联其他模型资产，请人工检查" j
      else cleaned now (remove j.id) j

  abbrev pub recovered : ℕ → ℕ → String → List ModelAsset → ModelImportJob → ModelImportJob
  recovered now timeout worker assets j =
      if is_stale now timeout worker j then recover_from j.result_asset_id now assets j else j

  -- `locked` says whether the advisory lock was obtained. The rows are changed independently of each
  -- other, and so their order is of no account.
  unfoldable pub recover_stale_model_imports :
      Bool → ℕ → ℕ → String → List ModelAsset → List ModelImportJob → ℕ × List ModelImportJob
  recover_stale_model_imports false now timeout worker assets jobs = (0, jobs)
  recover_stale_model_imports true now timeout worker assets jobs = (
    length (select (is_stale now timeout worker) jobs),
    map (recovered now timeout worker assets) jobs,
  )
