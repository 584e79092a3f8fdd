-- ===== src/Imports/Table.antt =====
-- The table of import jobs: ModelImportJob of backend/app/models/entities.py and ModelImportStatus of
-- backend/app/models/enums.py.
use open_llmops.Prelude.{
  ℕ, String, Bool, true, false, Option, none, some, List, [], ◌∷◌, map, ◌==◌, nat_eq, if◌then◌else◌,
}

pub data ModelImportSource : Type 0 where
  huggingface modelscope controlled_directory : ModelImportSource

pub data ModelImportStatus : Type 0 where
  pending transferring validating ready failed canceling canceled : ModelImportStatus

-- What the importer found out about a model, without what goes into the metadata of the asset only.
pub record ModelManifest : Type 0 where
  pub model_type : String
  pub total_size_bytes : ℕ
  pub parameter_count : Option ℕ
  pub checksum : Option String
  pub requested_revision : Option String
  pub resolved_revision : Option String

pub record ModelImportJob : Type 0 where
  pub id : ℕ
  pub created_at : ℕ
  -- The time of the last `UPDATE` of the row.
  pub updated_at : ℕ
  pub name : String
  pub source : ModelImportSource
  pub repository : Option String
  pub revision : Option String
  pub source_directory : Option String
  pub status : ModelImportStatus
  pub progress_completed : ℕ
  pub progress_total : Option ℕ
  pub claimed_by : Option String
  pub claimed_at : Option ℕ
  pub cancel_requested_at : Option ℕ
  pub started_at : Option ℕ
  pub finished_at : Option ℕ
  pub result_asset_id : Option ℕ
  pub manifest_json : Option ModelManifest
  pub error_message : Option String

abbrev pub is_pending : ModelImportStatus → Bool
is_pending pending = true
is_pending _ = false

abbrev pub is_canceling : ModelImportStatus → Bool
is_canceling canceling = true
is_canceling _ = false

abbrev pub is_ready : ModelImportStatus → Bool
is_ready ready = true
is_ready _ = false

-- `ACTIVE_IMPORT_STATUSES`
abbrev pub is_active_import : ModelImportStatus → Bool
is_active_import transferring = true
is_active_import validating = true
is_active_import canceling = true
is_active_import _ = false

-- `{READY, FAILED, CANCELED}`
abbrev pub is_finished : ModelImportStatus → Bool
is_finished ready = true
is_finished failed = true
is_finished canceled = true
is_finished _ = false

-- `session.get(ModelImportJob, job_id)`
abbrev pub find_job : ℕ → List ModelImportJob → Option ModelImportJob
find_job i [] = none
find_job i (j ∷ jobs) = if j.id == i then some j else find_job i jobs

-- An `UPDATE` that changes nothing else.
abbrev pub touched : ℕ → ModelImportJob → ModelImportJob
touched now j = record j { updated_at = now }

-- What a change of the row with this key makes of any row.
abbrev pub at_key : ℕ → (ModelImportJob → ModelImportJob) → ModelImportJob → ModelImportJob
at_key i f j = if j.id == i then f j else j

-- `UPDATE ... WHERE id = ...`, and the flush of a changed object.
abbrev pub update_job :
    ℕ → (ModelImportJob → ModelImportJob) → List ModelImportJob → List ModelImportJob
update_job i f jobs = map (at_key i f) jobs
