-- ===== src/Imports/Publish.antt =====
-- The end of an execution: _finalize_ready and _execute of
-- backend/app/services/model_import_coordinator.py.
use Prim.Native.String.{◌++◌ as str_append}
use open_llmops.Prelude.{
  ℕ, String, string_eq, Bool, true, false, not, Option, none, some, List, ◌∷◌, ◌==◌, nat_eq, ◌&&◌,
  if◌then◌else◌, Result, ok, err, any,
}
use open_llmops.Agent.{or_else}
use open_llmops.Imports.Table.{
  ModelImportJob, ModelImportStatus, ModelImportSource, ModelManifest, find_job, update_job,
}
use open_llmops.Imports.Jobs.{Meanwhile, mark_failed, mark_canceled_or_retry}
use open_llmops.Imports.Recovery.{ModelAsset}

-- What the importer's run comes to: a path and a manifest, a cancellation, or another error.
pub data Outcome : Type 0 where
  imported : (final_path : String) (manifest : ModelManifest) → Outcome
  import_cancelled : Outcome
  import_error : (message : String) → Outcome

pub record Store : Type 0 where
  pub jobs : List ModelImportJob
  pub assets : List ModelAsset

abbrev pub is_online : ModelImportSource → Bool
is_online ModelImportSource.controlled_directory = false
is_online _ = true

-- `requested != revision`
abbrev pub differs : Option String → Option String → Bool
differs none none = false
differs (some a) (some b) = not (a == b)
differs _ _ = true

-- `not text`
abbrev pub is_blank : Option String → Bool
is_blank none = true
is_blank (some s) = s == ""

abbrev pub source_uri : ModelImportJob → String
source_uri j = or_else j.repository (str_append "inbox://" (or_else j.source_directory "unknown"))

abbrev pub new_asset : ℕ → ModelImportJob → String → ModelManifest → ModelAsset
new_asset id j final_path m = record {
  id = id;
  name = j.name;
  source_uri = source_uri j;
  revision = m.resolved_revision;
  local_path = final_path;
  family = m.model_type;
  parameter_count = m.parameter_count;
  size_bytes = some m.total_size_bytes;
  checksum = m.checksum;
}

abbrev pub set_ready : ℕ → ℕ → ModelManifest → ModelImportJob → ModelImportJob
set_ready now asset_id m j = record j {
  updated_at = now;
  result_asset_id = some asset_id;
  manifest_json = some m;
  status = ModelImportStatus.ready;
  progress_completed = m.total_size_bytes;
  progress_total = some m.total_size_bytes;
  finished_at = some now;
  error_message = none;
}

-- The asset is inserted, which the unique column `local_path` may refuse.
abbrev pub publish :
    ℕ → ℕ → ℕ → String → ModelManifest → ModelImportJob → Store → Result String Store
publish now asset_id i final_path m j s =
    if any (λ a. a.local_path == final_path) s.assets
    then err "IntegrityError"
    else ok (record {
      jobs = update_job i (set_ready now asset_id m) s.jobs;
      assets = new_asset asset_id j final_path m ∷ s.assets;
    })

abbrev pub checked :
    ℕ → ℕ → ℕ → String → ModelManifest → Option ModelImportJob → Store → Result String Store
checked now asset_id i final_path m none s = err "模型导入任务在完成前被删除"
checked now asset_id i final_path m (some j) s =
    if is_online j.source && differs m.requested_revision j.revision
    then err "模型导入 worker 返回的 requested revision 与任务不一致"
    else (if is_online j.source && is_blank m.resolved_revision
        then err "在线模型导入缺少 resolved commit，拒绝创建不可复现资产"
        else publish now asset_id i final_path m j s)

-- `directory` gives the place of a job in the store, `resolve` follows links.
module _ (directory : ℕ → String) (resolve : String → String) where
  unfoldable pub finalize_ready : ℕ → ℕ → ℕ → String → ModelManifest → Store → Result String Store
  finalize_ready now asset_id i final_path m s =
      if resolve final_path == directory i
      then checked now asset_id i final_path m (find_job i s.jobs) s
      else err "模型导入 worker 返回了受控仓库之外的最终路径"

  abbrev pub or_failed : ℕ → ℕ → Meanwhile → Store → Result String Store → Store
  or_failed now i requests s (ok s') = s'
  or_failed now i requests s (err e) = record s { jobs = mark_failed now i e requests s.jobs }

  -- `_execute` from the end of the importer's run on. An execution that finds no job does nothing.
  unfoldable pub execute : ℕ → ℕ → ℕ → Bool → Outcome → Meanwhile → Store → Store
  execute now asset_id i shutting_down (imported final_path m) requests s =
      or_failed now i requests s (finalize_ready now asset_id i final_path m s)
  execute now asset_id i shutting_down import_cancelled requests s = record s {
    jobs = mark_canceled_or_retry now i shutting_down requests s.jobs;
  }
  execute now asset_id i shutting_down (import_error message) requests s = record s {
    jobs = mark_failed now i message requests s.jobs;
  }
